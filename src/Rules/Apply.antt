-- ===== src/Rules/Apply.antt =====
-- The whole of `ApplyRules`: it ends without a fault on rules that stay inside their buffers, and
-- leaves the bytes and the length that its rules ask for.
use apduplay.Base.{
  All, All-append, Bool-cases, Bytes, IsByte, List, [], ap, arith, eq_ℤ, false, get_or,
  get_or-overwrite_above, get_or-overwrite_below, if◌then◌else◌, inl, inr, length, length-overwrite,
  ltb, ltb→lt, ok, overwrite, refl, suc, take, true, zero, ℕ, ℤ, ◌&&◌, ◌+◌, ◌<◌, ◌∙◌, ◌∷◌, ◌≡◌, ◌≤◌,
}
use apduplay.Block.Access.{memcpy-ok, read-ok}
use apduplay.Rules.{
  Applied, History, Rule, SingleRule, Working, apply_rules, final_len, input_apdu, max_apdu_length,
  offset_cdata,
}
use apduplay.Rules.Selection.{IsHistory}
use apduplay.Rules.Writes.{last_byte, last_len, sets_len}
use apduplay.Rules.Refine.{SafeRule, any_chosen, apply_each-Did, chosen_actions, is_chosen}

-- The length after the rules: an input APDU that a rule was chosen for gets the length that its own
-- LC byte states; any other keeps its length or takes that of the last LE action.
abbrev pub expected_len : History → ℤ → List Rule → Bytes → ℕ → ℕ
expected_len h direction rs buffer len =
    if eq_ℤ direction input_apdu && any_chosen h direction rs
    then get_or buffer 4 0 + offset_cdata
    else last_len (chosen_actions h direction rs) len

-- A byte before the rules: of the APDU, or of the uninitialised local buffer behind it.
abbrev pub byte_before : Bytes → Bytes → ℕ → ℕ → ℕ
byte_before stack buffer len i = if ltb i len then get_or buffer i 0 else get_or stack i 0

-- The caller's buffer holds the longest APDU that a byte-sized length can ask for.
pub record IsBuffer (buffer : Bytes) (len : ℕ) : Type 0 where
  pub roomy : 260 ≤ length buffer
  pub within : len ≤ length buffer
  pub short : len ≤ max_apdu_length
  pub bytes : All IsByte buffer

get_or-byte : (bs : Bytes) (i : ℕ) → All IsByte bs → get_or bs i 0 < 256
get_or-byte [] i h = omega arith
get_or-byte (b ∷ bs) zero h = h.0
get_or-byte (b ∷ bs) (suc i) h = get_or-byte bs i h.1

last_len-le :
    (bound : ℕ) (rs : List SingleRule) (len : ℕ)
    → All (λ a. IsByte a.value) rs
    → 255 ≤ bound
    → len ≤ bound
    → last_len rs len ≤ bound
last_len-le bound [] len h b l = l
last_len-le bound (r ∷ rs) len h b l =
    last_len-le bound rs (if sets_len r then r.value else len) h.1 b (ground (arith, h.0))

chosen_actions-bytes :
    (h : History) (direction : ℤ) (rs : List Rule)
    → All (SafeRule h) rs
    → All (λ a. IsByte a.value) (chosen_actions h direction rs)
chosen_actions-bytes h direction [] s = tt
chosen_actions-bytes h direction (r ∷ rs) s =
    let ih = chosen_actions-bytes h direction rs s.1 in
    elim (Bool-cases (is_chosen h direction r)) [
      | inl c ↦ rw c (
          All-append (λ a. IsByte a.value) r.action_rules (chosen_actions h direction rs)
            s.0.byte_values ih)
      | inr c ↦ rw c ih
    ]

expected_len-le :
    (h : History) (direction : ℤ) (rs : List Rule) (buffer : Bytes) (len bound : ℕ)
    → All (SafeRule h) rs
    → All IsByte buffer
    → 260 ≤ bound
    → len ≤ bound
    → expected_len h direction rs buffer len ≤ bound
expected_len-le h direction rs buffer len bound s b k l =
    let short = get_or-byte buffer 4 b in
    let fits =
      last_len-le bound (chosen_actions h direction rs) len (chosen_actions-bytes h direction rs s)
        (omega arith) l in
    elim (Bool-cases (eq_ℤ direction input_apdu && any_chosen h direction rs)) [
      | inl c ↦ rw c (omega arith)
      | inr c ↦ rw c fits
    ]

final_len-eq :
    (h : History) (direction : ℤ) (rs : List Rule) (buffer : Bytes) (len : ℕ) (w : Working)
    → 260 ≤ length buffer
    → w.rule_found ≡ any_chosen h direction rs
    → w.len ≡ last_len (chosen_actions h direction rs) len
    → final_len direction buffer w ≡ ok (expected_len h direction rs buffer len)
unfolding final_len
final_len-eq h direction rs buffer len w k f l = rw f (
    rw (read-ok buffer 4 (omega arith))
      (elim (Bool-cases (eq_ℤ direction input_apdu && any_chosen h direction rs)) [
        | inl c ↦ rw c
        | inr c ↦ rw c (ap ok l)
      ]))

get_or-stack :
    (stack buffer : Bytes) (len i : ℕ)
    → length stack ≡ max_apdu_length
    → IsBuffer buffer len
    → get_or (overwrite stack (take len buffer)) i 0 ≡ byte_before stack buffer len i
get_or-stack stack buffer len i e v = ground (
  arith,
  get_or-overwrite_below stack buffer len i 0,
  get_or-overwrite_above stack buffer len i 0,
)

-- `ApplyRules` on rules that are safe (their elements lie inside the buffers and their values are bytes, they
-- match on commands that there are, or the place before the oldest, and on the newest response, and no delay is
-- one of 1 to 9 ms), from a history of whole blocks, on a buffer of at least 260 bytes that holds
-- an APDU of at most 300, ends without a fault. The length is the expected one; below it each byte is
-- the value of the last action for it among the chosen rules, or what it was before; from it on, and
-- in its size, the caller's buffer is unchanged.
pub apply_rules-refines :
    (rand : ℕ → ℕ) (fuel : ℕ) (rs : List Rule) (h : History) (stack buffer : Bytes) (len : ℕ)
    (direction : ℤ)
    → IsHistory h
    → All (SafeRule h) rs
    → length stack ≡ max_apdu_length
    → IsBuffer buffer len
    → (r : Applied) × (apply_rules rand fuel true rs h stack buffer len direction ≡ ok r)
      × (r.len ≡ expected_len h direction rs buffer len)
      × (length r.buffer ≡ length buffer)
      × ((i : ℕ)
          → get_or r.buffer i 0 ≡ (
              if ltb i r.len
              then last_byte i (chosen_actions h direction rs) (byte_before stack buffer len i)
              else get_or buffer i 0))
unfolding apply_rules
apply_rules-refines rand fuel rs h stack buffer len direction vh s es v =
    let start = overwrite stack (take len buffer) in
    let w0 : Working = record {
      new_buffer = start;
      len = len;
      rule_found = false;
      slept = 0;
      draws = 0;
    } in
    let size = length-overwrite stack (take len buffer) ∙ es in
    let (w, eq, d) = apply_each-Did rand fuel h direction w0 rs vh s size in
    let n = expected_len h direction rs buffer len in
    let n_le =
      expected_len-le h direction rs buffer len (length buffer) s v.bytes v.roomy v.within in
    let n_le300 =
      expected_len-le h direction rs buffer len max_apdu_length s v.bytes (omega arith) v.short in
    (
      record { buffer = overwrite buffer (take n w.new_buffer); len = n; slept = w.slept },
      rw (memcpy-ok stack buffer len (omega arith) v.within) (
          rw eq (
            rw (final_len-eq h direction rs buffer len w v.roomy d.found_is d.len_is)
              (rw (memcpy-ok buffer w.new_buffer n n_le (omega (arith, d.size)))))),
      refl,
      length-overwrite buffer (take n w.new_buffer),
      λ i. elim (Bool-cases (ltb i n)) [
        | inl b ↦ rw b (
            get_or-overwrite_below buffer w.new_buffer n i 0 n_le (omega (arith, d.size))
              (ltb→lt i n b)
            ∙ d.byte_is i
            ∙ ap (last_byte i (chosen_actions h direction rs))
                (get_or-stack stack buffer len i es v))
        | inr b ↦ rw b (get_or-overwrite_above buffer w.new_buffer n i 0 (ground arith))
      ],
    )

none_chosen :
    (h : History) (direction : ℤ) (rs : List Rule)
    → any_chosen h direction rs ≡ false
    → chosen_actions h direction rs ≡ []
none_chosen h direction [] e = refl
none_chosen h direction (r ∷ rs) e = ground (arith, none_chosen h direction rs)

-- Where no rule is in use for the direction with all its match rules met, `ApplyRules` leaves every
-- byte of the buffer and the length as they were, and the size of the buffer too.
pub apply_rules-idle :
    (rand : ℕ → ℕ) (fuel : ℕ) (rs : List Rule) (h : History) (stack buffer : Bytes) (len : ℕ)
    (direction : ℤ)
    → IsHistory h
    → All (SafeRule h) rs
    → length stack ≡ max_apdu_length
    → IsBuffer buffer len
    → any_chosen h direction rs ≡ false
    → (r : Applied) × (apply_rules rand fuel true rs h stack buffer len direction ≡ ok r)
      × (r.len ≡ len)
      × (length r.buffer ≡ length buffer)
      × ((i : ℕ) → get_or r.buffer i 0 ≡ get_or buffer i 0)
apply_rules-idle rand fuel rs h stack buffer len direction vh s es v e =
    let (r, eq, n, size, bytes) =
      apply_rules-refines rand fuel rs h stack buffer len direction vh s es v in
    let no_action = none_chosen h direction rs e in
    let same_len : r.len ≡ len = n ∙ rw (e, no_action) (ground arith) in
    (r, eq, same_len, size, λ i. bytes i ∙ rw (same_len, no_action) (ground arith))
