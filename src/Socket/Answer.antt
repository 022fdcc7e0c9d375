-- ===== src/Socket/Answer.antt =====
-- An answer of the proxy on its way from the socket to `Remote_ParseResponse`.
use mathlib.Core.Path.{subst}
use apduplay.Base.{
  All, All-append, Text, [], ap, append_assoc, arith, codes, if◌then◌else◌, length, none, ok, refl,
  some, sym, true, ℕ, ◌++◌, ◌<◌, ◌==◌, ◌^◌, ◌∙◌, ◌∷◌, ◌≡◌, ◌≢◌,
}
use apduplay.Status.{scard_f_comm_error, scard_s_success}
use apduplay.CString.Search.{find-pair}
use apduplay.Remote.{remote_parse_response, returned}
use apduplay.Socket.Lines.{Delivers, receive_response-lines}
use apduplay.CString.{find}
use apduplay.Socket.{Wire, is_last, receive_response}
use apduplay.Remote.RoundTrip.{answer, remote_parse_response-answer}
use apduplay.Decimal.{decimal}
use apduplay.Decimal.RoundTrip.{IsDigit, decimal-digits}

digits-ne : (x : ℕ) (s : Text) → x < b'0' → All IsDigit s → All (λ c. c ≢ x) s
digits-ne x [] h d = tt
digits-ne x (c ∷ s) h d = (omega (arith, h, d.0), digits-ne x s h d.1)

-- What stands before the end sequence.
abbrev front : ℕ → Text → Text
front id payload = b'>' ∷ (decimal id ++ b':' ∷ payload)

answer-front :
    (id : ℕ) (payload rest : Text) → answer id payload rest ≡ front id payload ++ b'@' ∷ b'@' ∷ rest
answer-front id payload rest =
    ap (λ t. b'>' ∷ t) (sym (append_assoc (decimal id) (b':' ∷ payload) (b'@' ∷ b'@' ∷ rest)))

front-ne :
    (x id : ℕ) (payload : Text)
    → x ≢ b'>'
    → x ≢ b':'
    → All (λ c. c ≢ x) (decimal id)
    → All (λ c. c ≢ x) payload
    → All (λ c. c ≢ x) (front id payload)
front-ne x id payload a b d h = (
  omega (arith, a),
  All-append (λ c. c ≢ x) (decimal id) (b':' ∷ payload) d (omega (arith, b), h),
)

digits-ne_at : (s : Text) → All IsDigit s → All (λ c. c ≢ b'@') s
digits-ne_at [] d = tt
digits-ne_at (c ∷ s) d = (omega (arith, d.0), digits-ne_at s d.1)

-- The line end behind an answer is what follows it.
answer-line :
    (id : ℕ) (payload : Text) → answer id payload [] ++ b'\n' ∷ [] ≡ answer id payload (b'\n' ∷ [])
answer-line id payload =
    ap (λ t. b'>' ∷ t)
      (append_assoc (decimal id) (b':' ∷ (payload ++ b'@' ∷ b'@' ∷ [])) (b'\n' ∷ [])
        ∙ ap (λ t. decimal id ++ b':' ∷ t) (append_assoc payload (b'@' ∷ b'@' ∷ []) (b'\n' ∷ [])))

is_last-found :
    (wire : Wire) (end_seq line : Text) (i : ℕ)
    → find end_seq line ≡ some i
    → is_last wire end_seq line ≡ true
unfolding is_last
is_last-found wire end_seq [] i e = refl
is_last-found wire end_seq (c ∷ line) i e = rw (e, is_last) refl

is_last-answer :
    (wire : Wire) (id : ℕ) (payload : Text)
    → All (λ c. c ≢ b'@') payload
    → is_last wire (codes "@@") (answer id payload [] ++ b'\n' ∷ []) ≡ true
is_last-answer wire id payload h =
    is_last-found wire (codes "@@") (answer id payload [] ++ b'\n' ∷ []) (length (front id payload))
      (ap (find (codes "@@")) (answer-line id payload ∙ answer-front id payload (b'\n' ∷ []))
        ∙ find-pair b'@' (front id payload) (b'\n' ∷ []) (
            front-ne b'@' id payload (omega arith) (omega arith)
              (digits-ne_at (decimal id) (decimal-digits id)) h))

one_line-answer :
    (id : ℕ) (payload : Text)
    → All (λ c. c ≢ b'\n') payload
    → All (λ c. c ≢ b'\n') (answer id payload [])
one_line-answer id payload h = subst (All (λ c. c ≢ b'\n')) (sym (answer-front id payload [])) (
    All-append (λ c. c ≢ b'\n') (front id payload) (b'@' ∷ b'@' ∷ [])
      (front-ne b'\n' id payload (omega arith) (omega arith)
        (digits-ne b'\n' (decimal id) (omega arith) (decimal-digits id)) h)
      (omega arith))

module _ (wire : Wire) (timeout : ℕ) where
  open wire use {World}

  -- From the socket to the result of a request: where the proxy's answer arrives whole and in time as one
  -- line in the documented form, with a command ID of less than 2 ^ 31 and a payload without `@`,
  -- ReceiveResponse takes exactly this line from the socket, and Remote_ParseResponse gives its payload
  -- and SCARD_S_SUCCESS if its ID is the expected one, and SCARD_F_COMM_ERROR for any other.
  pub receive_response-answer :
      (id expected fuel : ℕ) (payload : Text) (w w' : World)
      → id < 2 ^ 31
      → All (λ c. c ≢ b'@') payload
      → All (λ c. c ≢ b'\n') payload
      → length (answer id payload []) < fuel
      → Delivers wire timeout w (answer id payload [] ++ b'\n' ∷ []) w'
      → (raw : Text) × (receive_response wire fuel (codes "@@") timeout w ≡ ok (w', raw))
        × (remote_parse_response raw expected ≡ (
            if id == expected
            then returned scard_s_success (some payload)
            else returned scard_f_comm_error none))
  receive_response-answer id expected fuel payload w w' small no_end one_line enough d = (
    answer id payload [] ++ b'\n' ∷ [],
    receive_response-lines wire timeout [] fuel (codes "@@") (answer id payload []) w w w' tt
        (one_line-answer id payload one_line) (is_last-answer wire id payload no_end) tt enough
        (omega arith) refl d,
    ap (λ t. remote_parse_response t expected) (answer-line id payload)
        ∙ remote_parse_response-answer id expected payload (b'\n' ∷ []) small no_end,
  )
