-- ===== src/ErrorText/Distinct.antt =====
-- Whether the name tells the error.
use apduplay.Base.{
  Bool, Bool-cases, List, Text, [], ap, arith, codes, if◌then◌else◌, inl, inr, refl, some, sym,
  true, ℕ, ◌&&◌, ◌==◌, ◌||◌, ◌∙◌, ◌∷◌, ◌≡◌, ◌⊎◌,
}
use apduplay.CString.{text_eq}
use apduplay.ErrorText.{error_to_string, name_in, names}

-- The first code with a name.
abbrev code_of : List (ℕ × Text) → Text → ℕ
code_of [] name = 0
code_of ((c, t) ∷ rest) name = if text_eq t name then c else code_of rest name

-- Each code but one is the first with its name.
abbrev told : List (ℕ × Text) → List (ℕ × Text) → Bool
told all [] = true
told all ((c, t) ∷ rest) = (code_of all t == c || c == 0x6A82) && told all rest

names_told : told names names ≡ true
unfolding text_eq
names_told = refl

code_of-name_in :
    (error : ℕ) (all table : List (ℕ × Text)) {name : Text}
    → told all table ≡ true
    → name_in error table ≡ some name
    → (code_of all name ≡ error) ⊎ (error ≡ 0x6A82)
unfolding name_in
code_of-name_in error all [] h e = cc
code_of-name_in error all ((c, t) ∷ rest) {name} h e = elim (Bool-cases (c == error)) [
  | inl here ↦
      let same : t ≡ name = ground (arith, e, here) in
      let holds : (code_of all t == c || c == 0x6A82) ≡ true = ground (arith, h) in
      elim (Bool-cases (c == 0x6A82)) [
        | inl y ↦ inr (ground (arith, y, here))
        | inr n ↦ inl (ap (λ s. code_of all s) (sym same) ∙ ground (arith, holds, n, here))
      ]
  | inr there ↦ code_of-name_in error all rest (ground (arith, h)) (ground (arith, e, there))
]

error_to_string-name_in :
    (error : ℕ) {name : Text} → name_in error names ≡ some name → error_to_string error ≡ name
unfolding error_to_string
error_to_string-name_in error e = rw (e, error_to_string) refl

-- Of two codes that the switch has a case for, different ones have different names, but for
-- SW_FILE_NOT_FOUND (0x6A82), which is given the name of SW_CLA_NOT_SUPPORTED (0x6E00).
pub error_to_string-injective :
    (a b : ℕ) {s t : Text}
    → name_in a names ≡ some s
    → name_in b names ≡ some t
    → error_to_string a ≡ error_to_string b
    → ((a ≡ b) ⊎ (a ≡ 0x6A82) ⊎ (b ≡ 0x6A82)) × (error_to_string 0x6A82 ≡ error_to_string 0x6E00)
unfolding name_in
error_to_string-injective a b {s} {t} named_a named_b same =
    let equal : s ≡ t =
      sym (error_to_string-name_in a named_a) ∙ (same ∙ error_to_string-name_in b named_b) in
    (
      elim (code_of-name_in a names names names_told named_a) [
        | inr special ↦ inr (inl special)
        | inl first ↦ elim (code_of-name_in b names names names_told named_b) [
          | inr special ↦ inr (inr special)
          | inl second ↦ inl (sym first ∙ (ap (λ u. code_of names u) equal ∙ second))
        ]
      ],
      error_to_string-name_in 0x6A82 {name = codes "SW_CLA_NOT_SUPPORTED"} refl
          ∙ sym (error_to_string-name_in 0x6E00 {name = codes "SW_CLA_NOT_SUPPORTED"} refl),
    )
