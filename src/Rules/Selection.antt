-- ===== src/Rules/Selection.antt =====
-- Which rules apply: the loop over the match rules decides, for each, whether the byte that the
-- rule names in the APDU that it refers to has the expected value.
use apduplay.Base.{
  All, Bool, Bool-cases, Bytes, List, [], arith, eq_ℤ, false, get_or, if◌then◌else◌, inl, inr,
  is_positive, length, negsuc, ok, pos, refl, replicate, suc, true, zero, ℕ, ℤ, ◌&&◌, ◌<◌, ◌==◌,
  ◌>>=◌, ◌∷◌, ◌≡◌, ◌≤◌,
}
use apduplay.Block.{read_at}
use apduplay.Block.Access.{memcpy-all, read_at-ok}
use apduplay.Rules.{
  History, SingleRule, all_match, get_apdu_from_history, go_back, input_apdu, max_apdu_length,
  single_match, spin, take_input, take_output, to_count,
}

-- Every APDU of the history is a block of MAX_APDU_LENGTH bytes.
pub record IsHistory (h : History) : Type 0 where
  pub inputs : All (λ a. length a ≡ max_apdu_length) h.apdu_in_list
  pub outputs : All (λ a. length a ≡ max_apdu_length) h.apdu_out_list

abbrev pub IsIndex : ℤ → Type 0
IsIndex (pos i) = i < max_apdu_length
IsIndex (negsuc i) = ⊥

-- The APDU that a rule refers to: the one `history` places back among the commands, or the newest
-- response. A place that does not exist reads as zeros.
abbrev place : List Bytes → ℕ → Bytes
place l i = get_or l i (replicate max_apdu_length 0)

abbrev pub referred : History → SingleRule → Bytes
referred h r =
    if eq_ℤ r.apdu_direction input_apdu
    then place h.apdu_in_list (to_count r.history)
    else place h.apdu_out_list 0

abbrev pub expected_byte_is : History → SingleRule → Bool
expected_byte_is h r = get_or (referred h r) (to_count r.element) 0 == r.value

abbrev pub matches : History → List SingleRule → Bool
matches h [] = true
matches h (r ∷ rs) = expected_byte_is h r && matches h rs

-- A command at most one place before the oldest, or the newest response where there is one.
abbrev pub CanRefer : Bool → ℤ → History → Type 0
CanRefer true history h = to_count history ≤ length h.apdu_in_list
CanRefer false history h = (is_positive history ≡ false) × (1 ≤ length h.apdu_out_list)

pub record SafeMatch (h : History) (r : SingleRule) : Type 0 where
  pub element_in : IsIndex r.element
  pub refers : CanRefer (eq_ℤ r.apdu_direction input_apdu) r.history h

take_input-place :
    (l : List Bytes) (n : ℕ)
    → All (λ a. length a ≡ max_apdu_length) l
    → n ≤ length l
    → (b : Bool) × ((go_back n l >>= take_input (replicate max_apdu_length 0)) ≡ ok (place l n, b))
unfolding go_back take_input
take_input-place [] zero a h = (false, refl)
take_input-place [] (suc n) a h = absurd (omega arith)
take_input-place (x ∷ xs) zero a h = (true, rw (memcpy-all (replicate 300 0) x 300 refl a.0))
take_input-place (x ∷ xs) (suc n) a h = take_input-place xs n a.1 (omega arith)

spin-done :
    (fuel : ℕ) (history : ℤ) (l : List Bytes)
    → is_positive history ≡ false
    → spin fuel history l ≡ ok l
unfolding spin
spin-done zero history l h = rw h
spin-done (suc f) history [] h = rw h
spin-done (suc f) history (x ∷ xs) h = rw (h, spin)

take_output-place :
    (l : List Bytes)
    → All (λ a. length a ≡ max_apdu_length) l
    → 1 ≤ length l
    → take_output (replicate max_apdu_length 0) l ≡ ok (place l 0, true)
unfolding take_output
take_output-place [] a h = absurd (omega arith)
take_output-place (x ∷ xs) a h = rw (memcpy-all (replicate 300 0) x 300 refl a.0)

get_apdu-referred :
    (fuel : ℕ) (h : History) (r : SingleRule)
    → IsHistory h
    → SafeMatch h r
    → (b : Bool) × (get_apdu_from_history fuel h
          (replicate max_apdu_length 0)
          r.history
          r.apdu_direction
        ≡ ok (referred h r, b))
unfolding get_apdu_from_history
get_apdu-referred fuel h r v s = elim (Bool-cases (eq_ℤ r.apdu_direction input_apdu)) [
  | inl e ↦
      let at_most : CanRefer true r.history h = rw e at s.refers in
      let p = take_input-place h.apdu_in_list (to_count r.history) v.inputs at_most in
      (p.0, rw (e, get_apdu_from_history) p.1)
  | inr e ↦
      let newest : CanRefer false r.history h = rw e at s.refers in
      (
        true,
        rw (e, get_apdu_from_history)
            (rw (spin-done fuel r.history h.apdu_out_list newest.0)
              (take_output-place h.apdu_out_list v.outputs newest.1)),
      )
]

length-place :
    (l : List Bytes) (n : ℕ) → All (λ a. length a ≡ max_apdu_length) l → length (place l n) ≡ 300
length-place [] n a = refl
length-place (x ∷ xs) zero a = a.0
length-place (x ∷ xs) (suc n) a = length-place xs n a.1

length-referred : (h : History) (r : SingleRule) → IsHistory h → length (referred h r) ≡ 300
length-referred h r v = ground (
  arith,
  length-place h.apdu_in_list (to_count r.history) v.inputs,
  length-place h.apdu_out_list 0 v.outputs,
)

read_at-IsIndex :
    (block : Bytes) (i : ℤ)
    → length block ≡ 300
    → IsIndex i
    → read_at block i ≡ ok (get_or block (to_count i) 0)
read_at-IsIndex block (pos i) e h = read_at-ok block i (omega arith)
read_at-IsIndex block (negsuc i) e h = absurd h

single_match-eq :
    (fuel : ℕ) (h : History) (r : SingleRule)
    → IsHistory h
    → SafeMatch h r
    → single_match fuel h r ≡ ok (expected_byte_is h r)
unfolding single_match
single_match-eq fuel h r v s =
    let g = get_apdu-referred fuel h r v s in
    rw g.1 (rw (read_at-IsIndex (referred h r) r.element (length-referred h r v) s.element_in))

-- On match rules that can be evaluated, the loop of `ApplyRules` over them ends without a fault and
-- says whether each of them finds its expected byte in the APDU of the history that it refers to.
pub all_match-eq :
    (fuel : ℕ) (h : History) (rs : List SingleRule)
    → IsHistory h
    → All (SafeMatch h) rs
    → all_match fuel h rs ≡ ok (matches h rs)
unfolding all_match
all_match-eq fuel h [] v s = refl
all_match-eq fuel h (r ∷ rs) v s =
    rw (single_match-eq fuel h r v s.0) (elim (Bool-cases (expected_byte_is h r)) [
      | inl e ↦ rw e (all_match-eq fuel h rs v s.1)
      | inr e ↦ rw e
    ])
