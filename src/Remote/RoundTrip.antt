-- ===== src/Remote/RoundTrip.antt =====
-- What becomes of an answer of the proxy in the documented form.
use apduplay.Base.{
  All, Text, [], arith, if◌then◌else◌, length, none, some, suc, take-append, ℕ, ◌++◌, ◌+◌, ◌-◌, ◌<◌,
  ◌==◌, ◌^◌, ◌∷◌, ◌≡◌, ◌≢◌,
}
use apduplay.Status.{scard_f_comm_error, scard_s_success}
use apduplay.CString.Search.{drop-append, find-char, find-pair}
use apduplay.Decimal.{decimal}
use apduplay.Decimal.RoundTrip.{IsDigit, decimal-digits, strtol-decimal}
use apduplay.Remote.{remote_parse_response, returned, split_id, until_endseq}

-- `>` command ID `:` payload `@@`, and what follows.
abbrev pub answer : ℕ → Text → Text → Text
answer id payload rest = b'>' ∷ (decimal id ++ b':' ∷ (payload ++ b'@' ∷ b'@' ∷ rest))

All-digit-ne : (s : Text) → All IsDigit s → All (λ c. c ≢ b':') s
All-digit-ne [] h = tt
All-digit-ne (c ∷ s) h = (omega arith, All-digit-ne s h.1)

until_endseq-payload :
    (payload rest : Text)
    → All (λ c. c ≢ b'@') payload
    → until_endseq (payload ++ b'@' ∷ b'@' ∷ rest) ≡ payload
unfolding until_endseq
until_endseq-payload payload rest h =
    rw (find-pair b'@' payload rest h, until_endseq) (take-append payload (b'@' ∷ b'@' ∷ rest))

split_id-answer :
    (id after : Text)
    → All (λ c. c ≢ b':') id
    → split_id (b'>' ∷ (id ++ b':' ∷ after)) (id ++ b':' ∷ after) ≡ (id, after)
unfolding split_id
split_id-answer id after h =
    let same : suc (length id) - 1 ≡ length id = omega arith in
    let next : suc (length id) + 1 ≡ suc (suc (length id)) = omega arith in
    rw (find-char b':' (b'>' ∷ id) after (omega arith, h), split_id)
      (rw (same, next) (rw (take-append id (b':' ∷ after), drop-append id b':' after)))

-- An answer in the documented form, with a command ID of less than 2 ^ 31 and a payload without `@`,
-- gives its payload and SCARD_S_SUCCESS if its ID is the expected one, and SCARD_F_COMM_ERROR with no
-- payload for any other.
pub remote_parse_response-answer :
    (id expected : ℕ) (payload rest : Text)
    → id < 2 ^ 31
    → All (λ c. c ≢ b'@') payload
    → remote_parse_response (answer id payload rest) expected ≡ (
        if id == expected
        then returned scard_s_success (some payload)
        else returned scard_f_comm_error none)
unfolding remote_parse_response
remote_parse_response-answer id expected payload rest h hp =
    rw
      (split_id-answer (decimal id) (payload ++ b'@' ∷ b'@' ∷ rest)
        (All-digit-ne (decimal id) (decimal-digits id)))
      (rw (strtol-decimal id h) (rw (until_endseq-payload payload rest hp)))
