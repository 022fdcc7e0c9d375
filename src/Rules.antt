-- ===== src/Rules.antt =====
-- The rules that rewrite APDUs: Winscard/stdafx.h (`APDU_SINGLE_RULE`, `APDU_RULE`) and
-- `ApplyRules` and `GetApduFromHistory` of Winscard/Winscard.cpp.
-- An APDU of the history is a block of MAX_APDU_LENGTH bytes, the newest first.
pub mod Selection
pub mod Writes
pub mod Refine
pub mod Apply
pub mod Lookback
pub mod Later
use apduplay.Base.{
  Bool, Bytes, List, Outcome, Text, [], eq_ℤ, false, fault, if◌then◌else◌, is_positive, negsuc,
  no_fuel, ok, past_end, pos, replicate, suc, true, zero, zero_divisor, ℕ, ℤ, ◌%◌, ◌&&◌, ◌+◌, ◌/◌,
  ◌==◌, ◌>>=◌, ◌∷◌,
}
use apduplay.Block.{memcpy, read, read_at, write_at}

abbrev pub max_apdu_length : ℕ
max_apdu_length = 300

abbrev pub offset_cdata : ℕ
offset_cdata = 5

abbrev pub input_apdu : ℤ
input_apdu = pos 1

abbrev pub le_elem : ℕ
le_elem = 299

-- `APDU_SINGLE_RULE`
pub record SingleRule : Type 0 where
  pub valid : Bool
  pub history : ℤ
  pub apdu_direction : ℤ
  pub element : ℤ
  pub value : ℕ

-- `APDU_RULE`
pub record Rule : Type 0 where
  pub rule_name : Text
  pub usage : ℤ
  pub direction : ℤ
  pub match_rules : List SingleRule
  pub action_rules : List SingleRule
  pub ms_delay : ℤ

-- `apduInList` and `apduOutList`
pub record History : Type 0 where
  pub apdu_in_list : List Bytes
  pub apdu_out_list : List Bytes

-- `while (history > 0) { iter++; history--; }`
pub go_back : ℕ → List Bytes → Outcome (List Bytes)
go_back zero l = ok l
go_back (suc n) [] = fault past_end
go_back (suc n) (x ∷ xs) = go_back n xs

-- `while (history > 0) iter++;`: no round changes `history`. The number is the fuel.
pub spin : ℕ → ℤ → List Bytes → Outcome (List Bytes)
spin zero history l = if is_positive history then fault no_fuel else ok l
spin (suc f) history [] = if is_positive history then fault past_end else ok []
spin (suc f) history (x ∷ xs) = elim (is_positive history) [
  | true ↦ spin f history xs
  | false ↦ ok (x ∷ xs)
]

abbrev pub to_count : ℤ → ℕ
to_count (pos n) = n
to_count (negsuc n) = 0

-- The copied APDU, or the buffer as it was with STAT_NOT_ENOUGHT_DATA_TYPE.
pub take_input : Bytes → List Bytes → Outcome (Bytes × Bool)
unfolding memcpy
take_input buffer [] = ok (buffer, false)
take_input buffer (x ∷ xs) = do b ← memcpy buffer x max_apdu_length; ok (b, true)

-- The iterator is compared with the end of the other list, which it never equals.
pub take_output : Bytes → List Bytes → Outcome (Bytes × Bool)
unfolding memcpy
take_output buffer [] = fault past_end
take_output buffer (x ∷ xs) = do b ← memcpy buffer x max_apdu_length; ok (b, true)

-- `GetApduFromHistory`; the flag is `status == STAT_OK`.
pub get_apdu_from_history : ℕ → History → Bytes → ℤ → ℤ → Outcome (Bytes × Bool)
unfolding go_back spin take_input take_output
get_apdu_from_history fuel h buffer history apdu_direction = elim (eq_ℤ apdu_direction input_apdu) [
  | true ↦ go_back (to_count history) h.apdu_in_list >>= take_input buffer
  | false ↦ spin fuel history h.apdu_out_list >>= take_output buffer
]

-- One match rule, against the APDU of the history that it refers to.
pub single_match : ℕ → History → SingleRule → Outcome Bool
unfolding get_apdu_from_history read_at
single_match fuel h r = do
  found ← get_apdu_from_history fuel h (replicate max_apdu_length 0) r.history r.apdu_direction
  b ← read_at found.0 r.element
  ok (b == r.value)

-- The loop over the match rules, left at the first that fails.
pub all_match : ℕ → History → List SingleRule → Outcome Bool
unfolding single_match
all_match fuel h [] = ok true
all_match fuel h (r ∷ rs) =
    single_match fuel h r >>= λ b. elim b [ true ↦ all_match fuel h rs | false ↦ ok false ]

-- The local variables of `ApplyRules`: `newBuffer`, `*pcbLength`, `bRuleFound`, with the time
-- slept and the number of calls of `rand` so far.
pub record Working : Type 0 where
  pub new_buffer : Bytes
  pub len : ℕ
  pub rule_found : Bool
  pub slept : ℕ
  pub draws : ℕ

pub apply_action : Working → SingleRule → Outcome Working
unfolding write_at
apply_action w r =
    if r.valid
    then if eq_ℤ r.element (pos le_elem)
      then ok (record w { len = r.value })
      else (write_at w.new_buffer r.element r.value >>= λ b. ok (record w { new_buffer = b }))
    else ok w

pub apply_actions : Working → List SingleRule → Outcome Working
unfolding apply_action
apply_actions w [] = ok w
apply_actions w (r ∷ rs) = apply_action w r >>= λ w'. apply_actions w' rs

-- What `ApplyRules` leaves of the caller's buffer and length, and the milliseconds slept.
pub record Applied : Type 0 where
  pub buffer : Bytes
  pub len : ℕ
  pub slept : ℕ

-- The length after the rules: for an input APDU that a rule applied to it is computed anew, from
-- the LC byte of the caller's buffer.
pub final_len : ℤ → Bytes → Working → Outcome ℕ
unfolding read
final_len direction buffer w =
    if eq_ℤ direction input_apdu && w.rule_found
    then (read buffer 4 >>= λ lc. ok (lc + offset_cdata))
    else ok w.len

-- `rand k` is what the call number `k` of the C library's `rand` returns.
module _ (rand : ℕ → ℕ) where
  -- `if (iter->msDelay > 0) ..`: sleep, and sleep again for `rand() % (msDelay / 10)`.
  pub pause : Working → ℤ → Outcome Working
  pause w (negsuc n) = ok w
  pause w (pos zero) = ok w
  pause w (pos (suc n)) =
      if suc n / 10 == 0
      then fault zero_divisor
      else ok
          (record w { slept = w.slept + suc n + rand w.draws % (suc n / 10); draws = w.draws + 1 })

  pub apply_rule : ℕ → History → ℤ → Working → Rule → Outcome Working
  unfolding all_match apply_actions pause
  apply_rule fuel h direction w r =
      if eq_ℤ r.direction direction && eq_ℤ r.usage (pos 1)
      then (all_match fuel h r.match_rules >>= λ b. elim b [
        | true ↦ apply_actions w r.action_rules >>= λ w1.
            pause w1 r.ms_delay >>= λ w2. ok (record w2 { rule_found = true })
        | false ↦ ok w
      ])
      else ok w

  pub apply_each : ℕ → History → ℤ → Working → List Rule → Outcome Working
  unfolding apply_rule
  apply_each fuel h direction w [] = ok w
  apply_each fuel h direction w (r ∷ rs) =
      apply_rule fuel h direction w r >>= λ w'. apply_each fuel h direction w' rs

  -- `ApplyRules`. `stack` is what `newBuffer` holds before it is written.
  unfoldable pub apply_rules :
      ℕ → Bool → List Rule → History → Bytes → Bytes → ℕ → ℤ → Outcome Applied
  unfolding memcpy apply_each final_len
  apply_rules fuel rules_active rules_list h stack buffer len direction =
      if rules_active
      then (do
        new_buffer ← memcpy stack buffer len
        w ←
            apply_each fuel h direction
              (record {
                new_buffer = new_buffer;
                len = len;
                rule_found = false;
                slept = 0;
                draws = 0;
              })
              rules_list
        n ← final_len direction buffer w
        copied ← memcpy buffer w.new_buffer n
        ok (record { buffer = copied; len = n; slept = w.slept }))
      else ok (record { buffer = buffer; len = len; slept = 0 })
