-- ===== src/Rules/Writes.antt =====
-- What the action rules do to the new buffer and the length.
use apduplay.Base.{
  All, Bool, Bytes, List, [], ap, arith, eq_ℤ, get_or, if◌then◌else◌, length, length-set, negsuc,
  not, ok, pos, refl, set, suc, zero, ℕ, ℤ, ◌&&◌, ◌++◌, ◌<◌, ◌==◌, ◌∙◌, ◌∷◌, ◌≡◌,
}
use apduplay.Block.{write_at}
use apduplay.Rules.{
  SingleRule, Working, apply_action, apply_actions, le_elem, max_apdu_length, to_count,
}
use apduplay.Block.Access.{write_at-ok}
use apduplay.Rules.Selection.{IsIndex}

abbrev pub sets_len : SingleRule → Bool
sets_len r = r.valid && eq_ℤ r.element (pos le_elem)

-- The rule writes the byte at index `i`.
abbrev pub sets_byte : ℕ → SingleRule → Bool
sets_byte i r = r.valid && not (eq_ℤ r.element (pos le_elem)) && eq_ℤ r.element (pos i)

-- The value that the last of the rules for it gives to byte `i`; `old` if there is none.
abbrev pub last_byte : ℕ → List SingleRule → ℕ → ℕ
last_byte i [] old = old
last_byte i (r ∷ rs) old = last_byte i rs (if sets_byte i r then r.value else old)

-- The value of the last rule for the length.
abbrev pub last_len : List SingleRule → ℕ → ℕ
last_len [] old = old
last_len (r ∷ rs) old = last_len rs (if sets_len r then r.value else old)

abbrev pub SafeAction : SingleRule → Type 0
SafeAction r = IsIndex r.element

-- One action without the checks of its accesses.
act : Working → SingleRule → Working
act w r =
    if sets_len r
    then record w { len = r.value }
    else if r.valid
    then record w { new_buffer = set w.new_buffer (to_count r.element) r.value }
    else w

pub acts : Working → List SingleRule → Working
unfolding act
acts w [] = w
acts w (r ∷ rs) = acts (act w r) rs

write_at-IsIndex :
    (block : Bytes) (i : ℤ) (v : ℕ)
    → length block ≡ max_apdu_length
    → IsIndex i
    → write_at block i v ≡ ok (set block (to_count i) v)
write_at-IsIndex block (pos i) v e h = write_at-ok block i v (omega arith)
write_at-IsIndex block (negsuc i) v e h = absurd h

apply_action-eq :
    (w : Working) (r : SingleRule)
    → length w.new_buffer ≡ max_apdu_length
    → SafeAction r
    → apply_action w r ≡ ok (act w r)
unfolding apply_action act
apply_action-eq w r e s = ground (arith, write_at-IsIndex w.new_buffer r.element r.value e s)

size-act : (w : Working) (r : SingleRule) → length (act w r).new_buffer ≡ length w.new_buffer
unfolding act
size-act w r = ground (arith, length-set w.new_buffer (to_count r.element) r.value)

eq_ℤ-IsIndex : (e : ℤ) (i : ℕ) → IsIndex e → eq_ℤ e (pos i) ≡ (to_count e == i)
eq_ℤ-IsIndex (pos n) i h = refl
eq_ℤ-IsIndex (negsuc n) i h = absurd h

IsIndex-lt : (e : ℤ) → IsIndex e → to_count e < max_apdu_length
IsIndex-lt (pos n) h = h
IsIndex-lt (negsuc n) h = absurd h

get_or-set :
    (xs : Bytes) (j i v : ℕ)
    → j < length xs
    → get_or (set xs j v) i 0 ≡ (if j == i then v else get_or xs i 0)
get_or-set [] j i v h = absurd (omega arith)
get_or-set (x ∷ xs) zero zero v h = ground arith
get_or-set (x ∷ xs) zero (suc i) v h = ground arith
get_or-set (x ∷ xs) (suc j) zero v h = ground arith
get_or-set (x ∷ xs) (suc j) (suc i) v h = ground (arith, get_or-set xs j i v (omega arith))

byte-act :
    (w : Working) (r : SingleRule) (i : ℕ)
    → length w.new_buffer ≡ max_apdu_length
    → SafeAction r
    → get_or (act w r).new_buffer i 0 ≡ (if sets_byte i r then r.value else get_or w.new_buffer i 0)
unfolding act
byte-act w r i e s = ground (
  arith,
  get_or-set w.new_buffer (to_count r.element) i r.value,
  eq_ℤ-IsIndex r.element i s,
  eq_ℤ-IsIndex r.element le_elem s,
  IsIndex-lt r.element s,
)

-- Actions inside the buffer end without a fault.
pub apply_actions-eq :
    (w : Working) (rs : List SingleRule)
    → length w.new_buffer ≡ max_apdu_length
    → All SafeAction rs
    → apply_actions w rs ≡ ok (acts w rs)
unfolding apply_actions acts
apply_actions-eq w [] e s = refl
apply_actions-eq w (r ∷ rs) e s =
    rw (apply_action-eq w r e s.0) (apply_actions-eq (act w r) rs (size-act w r ∙ e) s.1)

pub size-acts :
    (w : Working) (rs : List SingleRule) → length (acts w rs).new_buffer ≡ length w.new_buffer
unfolding acts
size-acts w [] = refl
size-acts w (r ∷ rs) = size-acts (act w r) rs ∙ size-act w r

pub len-acts : (w : Working) (rs : List SingleRule) → (acts w rs).len ≡ last_len rs w.len
unfolding acts act
len-acts w [] = refl
len-acts w (r ∷ rs) = len-acts (act w r) rs ∙ ap (last_len rs) (ground arith)

pub byte-acts :
    (w : Working) (rs : List SingleRule) (i : ℕ)
    → length w.new_buffer ≡ max_apdu_length
    → All SafeAction rs
    → get_or (acts w rs).new_buffer i 0 ≡ last_byte i rs (get_or w.new_buffer i 0)
unfolding acts
byte-acts w [] i e s = refl
byte-acts w (r ∷ rs) i e s =
    byte-acts (act w r) rs i (size-act w r ∙ e) s.1 ∙ ap (last_byte i rs) (byte-act w r i e s.0)

pub found-acts : (w : Working) (rs : List SingleRule) → (acts w rs).rule_found ≡ w.rule_found
unfolding acts act
found-acts w [] = refl
found-acts w (r ∷ rs) = found-acts (act w r) rs ∙ ground arith

pub last_byte-append :
    (i : ℕ) (rs ss : List SingleRule) (old : ℕ)
    → last_byte i (rs ++ ss) old ≡ last_byte i ss (last_byte i rs old)
last_byte-append i [] ss old = refl
last_byte-append i (r ∷ rs) ss old =
    last_byte-append i rs ss (if sets_byte i r then r.value else old)

pub last_len-append :
    (rs ss : List SingleRule) (old : ℕ) → last_len (rs ++ ss) old ≡ last_len ss (last_len rs old)
last_len-append [] ss old = refl
last_len-append (r ∷ rs) ss old = last_len-append rs ss (if sets_len r then r.value else old)
