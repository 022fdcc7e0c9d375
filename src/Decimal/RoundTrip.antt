-- ===== src/Decimal/RoundTrip.antt =====
-- Reading back what `%d` printed.
use apduplay.Base.{
  All, Bool-cases, Text, [], ap, arith, false, inl, inr, leb, length, le→leb, ltb, ltb→lt, lt→ltb,
  pos, refl, suc, true, zero, ℕ, ◌%◌, ◌*◌, ◌++◌, ◌+◌, ◌-◌, ◌/◌, ◌<◌, ◌==◌, ◌^◌, ◌∙◌, ◌∷◌, ◌≡◌, ◌≤◌,
  ◌⊎◌,
}
use native.Mathlib.Nat.{pow-suc}
use apduplay.CString.{is_space, long_max, read_digits, strtol, to_long}
use apduplay.Decimal.{decimal, digits_onto}

-- Reading stops at a character that is no digit, and at the end.
abbrev pub Stops : Text → Type 0
Stops [] = Unit
Stops (c ∷ cs) = (c < b'0') ⊎ ((b'9' < c) × (c < b'A'))

read_digits-stop : (acc : ℕ) (s : Text) → Stops s → read_digits 10 acc s ≡ acc
unfolding read_digits
read_digits-stop acc [] h = refl
read_digits-stop acc (c ∷ cs) h = ground arith

read_digits-digit :
    (acc d : ℕ) (s : Text)
    → d < 10
    → read_digits 10 acc ((b'0' + d) ∷ s) ≡ read_digits 10 (acc * 10 + d) s
unfolding read_digits
read_digits-digit acc d s h =
    let below : leb b'0' (b'0' + d) ≡ true = ground arith in
    let above : leb (b'0' + d) b'9' ≡ true = ground arith in
    let value : b'0' + d - b'0' ≡ d = omega arith in
    let small : ltb d 10 ≡ true = lt→ltb d 10 h in rw (below, above) (rw value (rw small))

-- The digits of a number are read as that number.
read_digits-onto :
    (f n : ℕ) (rest : Text)
    → n < 10 ^ f
    → read_digits 10 0 (digits_onto f n rest) ≡ read_digits 10 n rest
unfolding digits_onto
read_digits-onto zero n rest h = ap (λ k. read_digits 10 k rest) (omega arith)
read_digits-onto (suc f) n rest h = elim (Bool-cases (ltb n 10)) [
  | inl small ↦ rw small (
      read_digits-digit 0 n rest (ltb→lt n 10 small)
      ∙ ap (λ k. read_digits 10 k rest) (omega arith))
  | inr large ↦ rw large (
      read_digits-onto f (n / 10) ((b'0' + n % 10) ∷ rest) (omega (arith, pow-suc 10 f))
      ∙ (read_digits-digit (n / 10) (n % 10) rest (omega arith)
          ∙ ap (λ k. read_digits 10 k rest) (omega arith)))
]

abbrev pub IsDigit : ℕ → Type 0
IsDigit c = (b'0' ≤ c) × (c ≤ b'9')

digits_onto-digits : (f n : ℕ) (rest : Text) → All IsDigit rest → All IsDigit (digits_onto f n rest)
unfolding digits_onto
digits_onto-digits zero n rest h = h
digits_onto-digits (suc f) n rest h = elim (Bool-cases (ltb n 10)) [
  | inl small ↦ rw small ((omega arith, omega (arith, ltb→lt n 10 small)), h)
  | inr large ↦
      rw large
        (digits_onto-digits f (n / 10) ((b'0' + n % 10) ∷ rest) ((omega arith, omega arith), h))
]

pub decimal-digits : (n : ℕ) → All IsDigit (decimal n)
unfolding decimal
decimal-digits n = digits_onto-digits 10 n [] tt

strtol-unsigned :
    (c : ℕ) (cs : Text)
    → is_space c ≡ false
    → (c == b'-') ≡ false
    → (c == b'+') ≡ false
    → strtol 10 (c ∷ cs) ≡ to_long false (read_digits 10 0 (c ∷ cs))
unfolding strtol
strtol-unsigned c cs s m p = rw s (rw (m, p))

to_long-small : (n : ℕ) → n < 2 ^ 31 → to_long false n ≡ pos n
to_long-small n h = rw (le→leb n long_max (omega arith))

strtol-digits :
    (s : Text)
    → All IsDigit s
    → read_digits 10 0 s < 2 ^ 31
    → strtol 10 s ≡ pos (read_digits 10 0 s)
strtol-digits [] d h = unfold strtol in refl
strtol-digits (c ∷ cs) d h =
    strtol-unsigned c cs (ground (arith, d.0)) (ground (arith, d.0)) (ground (arith, d.0))
    ∙ to_long-small (read_digits 10 0 (c ∷ cs)) h

-- A number of less than 2 ^ 31 is printed by `%d` and read by `strtol` as itself.
pub strtol-decimal : (n : ℕ) → n < 2 ^ 31 → strtol 10 (decimal n) ≡ pos n
unfolding decimal
strtol-decimal n h =
    let value : read_digits 10 0 (decimal n) ≡ n =
      read_digits-onto 10 n [] (omega arith) ∙ read_digits-stop n [] tt in
    strtol-digits (decimal n) (decimal-digits n) (omega arith) ∙ ap pos value

digits_onto-append :
    (f n : ℕ) (rest more : Text) → digits_onto f n rest ++ more ≡ digits_onto f n (rest ++ more)
unfolding digits_onto
digits_onto-append zero n rest more = refl
digits_onto-append (suc f) n rest more = elim (Bool-cases (ltb n 10)) [
  | inl small ↦ rw small refl
  | inr large ↦ rw large (digits_onto-append f (n / 10) ((b'0' + n % 10) ∷ rest) more)
]

length-digits_onto : (f n : ℕ) (rest : Text) → length rest ≤ length (digits_onto f n rest)
unfolding digits_onto
length-digits_onto zero n rest = omega arith
length-digits_onto (suc f) n rest = elim (Bool-cases (ltb n 10)) [
  | inl small ↦ rw small (omega arith)
  | inr large ↦ rw large (omega (arith, length-digits_onto f (n / 10) ((b'0' + n % 10) ∷ rest)))
]

decimal-nonempty : (n : ℕ) → 0 < length (decimal n)
unfolding decimal digits_onto
decimal-nonempty n = elim (Bool-cases (ltb n 10)) [
  | inl small ↦ rw small (omega arith)
  | inr large ↦ rw large (omega (arith, length-digits_onto 9 (n / 10) ((b'0' + n % 10) ∷ [])))
]

strtol-digits_then :
    (s rest : Text)
    → All IsDigit s
    → 0 < length s
    → read_digits 10 0 (s ++ rest) < 2 ^ 31
    → strtol 10 (s ++ rest) ≡ pos (read_digits 10 0 (s ++ rest))
strtol-digits_then [] rest d l h = absurd (omega arith)
strtol-digits_then (c ∷ cs) rest d l h =
    strtol-unsigned c (cs ++ rest) (ground (arith, d.0)) (ground (arith, d.0)) (ground (arith, d.0))
    ∙ to_long-small (read_digits 10 0 (c ∷ (cs ++ rest))) h

-- The same in front of a character that is no digit.
pub strtol-decimal_then :
    (n : ℕ) (rest : Text) → n < 2 ^ 31 → Stops rest → strtol 10 (decimal n ++ rest) ≡ pos n
unfolding decimal
strtol-decimal_then n rest h stops =
    let value : read_digits 10 0 (decimal n ++ rest) ≡ n =
      ap (λ s. read_digits 10 0 s) (digits_onto-append 10 n [] rest)
      ∙ (read_digits-onto 10 n rest (omega arith) ∙ read_digits-stop n rest stops) in
    strtol-digits_then (decimal n) rest (decimal-digits n) (decimal-nonempty n) (omega arith)
    ∙ ap pos value
