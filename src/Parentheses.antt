-- ===== src/Parentheses.antt =====
-- `ConvertOuterParenthessis` of Winscard/Winscard.cpp: in the description of an instruction the outermost
-- parentheses become brackets.
use apduplay.Base.{
  Text, [], ap, append_assoc, arith, decrement, eq_ℤ, false, if◌then◌else◌, increment, pos, refl,
  suc, sym, ℕ, ℤ, ◌++◌, ◌==◌, ◌∷◌, ◌≡◌, ◌≢◌,
}

-- The loop over the characters, with `count`, the number of parentheses that are open.
unfoldable pub convert_from : ℤ → Text → Text
convert_from count [] = []
convert_from count (c ∷ cs) =
    let opened = convert_from (increment count) cs in
    let closed = convert_from (decrement count) cs in
    let kept = convert_from count cs in
    if c == b'('
    then (if eq_ℤ count (pos 0) then b'[' else c) ∷ opened
    else if c == b')'
    then (if eq_ℤ count (pos 1) then b']' else c) ∷ closed
    else c ∷ kept

unfoldable pub convert_outer_parenthessis : Text → Text
unfolding convert_from
convert_outer_parenthessis description = convert_from (pos 0) description

-- A text whose parentheses match: groups and other characters, in sequence.
pub data Balanced : Type 0 where
  nil : Balanced
  char : ℕ → Balanced → Balanced
  group : Balanced → Balanced → Balanced

-- The text, with the given characters round its outermost groups.
abbrev pub print : ℕ → ℕ → Balanced → Text
print open' close' nil = []
print open' close' (char c rest) = c ∷ print open' close' rest
print open' close' (group inner rest) =
    open' ∷ (print b'(' b')' inner ++ close' ∷ print open' close' rest)

-- No character outside the groups' own is a parenthesis.
abbrev pub IsPlain : Balanced → Type 0
IsPlain nil = Unit
IsPlain (char c rest) = (c ≢ b'(') × (c ≢ b')') × IsPlain rest
IsPlain (group inner rest) = IsPlain inner × IsPlain rest

-- Inside a group nothing changes.
convert_from-inner :
    (n : ℕ) (t : Balanced) (s : Text)
    → IsPlain t
    → convert_from (pos (suc n)) (print b'(' b')' t ++ s)
      ≡ print b'(' b')' t ++ convert_from (pos (suc n)) s
unfolding convert_from
convert_from-inner n nil s h = refl
convert_from-inner n (char c rest) s h = ground (arith, convert_from-inner n rest s h.2)
convert_from-inner n (group inner rest) s h =
    let after = b')' ∷ print b'(' b')' rest in
    let some_open : (suc n == 0) ≡ false = ground arith in
    let two_open : (suc (suc n) == 1) ≡ false = ground arith in
    rw (append_assoc (print b'(' b')' inner) after s) (
      rw some_open (
        rw (convert_from-inner (suc n) inner (after ++ s) h.0) (
          rw two_open (
            rw (convert_from-inner n rest s h.1) (
              ap (λ u. b'(' ∷ u)
                (sym
                  (append_assoc (print b'(' b')' inner) after (convert_from (pos (suc n)) s))))))))

convert_from-outer :
    (t : Balanced) → IsPlain t → convert_from (pos 0) (print b'(' b')' t) ≡ print b'[' b']' t
unfolding convert_from
convert_from-outer nil h = refl
convert_from-outer (char c rest) h = ground (arith, convert_from-outer rest h.2)
convert_from-outer (group inner rest) h = ground (
  arith,
  convert_from-inner 0 inner (b')' ∷ print b'(' b')' rest) h.0,
  convert_from-outer rest h.1,
)

-- In a text whose parentheses match, exactly those of the outermost groups become brackets.
pub convert_outer_parenthessis-print :
    (t : Balanced) → IsPlain t → convert_outer_parenthessis (print b'(' b')' t) ≡ print b'[' b']' t
unfolding convert_outer_parenthessis
convert_outer_parenthessis-print t h = convert_from-outer t h
