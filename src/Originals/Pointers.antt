-- ===== src/Originals/Pointers.antt =====
-- What `initialize` returns and leaves in the pointers, against the names that the .def files export from this library.
use mathlib.Core.Path.{subst}
use apduplay.Base.{
  ==_iff, All, Bool, Bool-cases, List, Option, Text, [], ap, arith, codes, inl, inr, none, refl,
  some, sym, true, ◌&&◌, ◌==◌, ◌↔◌, ◌∙◌, ◌∷◌, ◌≡◌,
}
use apduplay.Originals.Loaded.{found, last_name, load_each-last_name, load_each-needed, needed}
use apduplay.CString.{text_eq}
use apduplay.Originals.Names.{exported_names}
use apduplay.Cards.{contains_name}
use apduplay.Originals.Initialize.{Platform, initialize, loads, windows}
use apduplay.Originals.{Slot, Slots}

-- Every text of the first list stands in the second.
abbrev includes : List Text → List Text → Bool
includes [] ys = true
includes (x ∷ xs) ys = contains_name ys x && includes xs ys

text_eq→eq : (s t : Text) → text_eq s t ≡ true → s ≡ t
unfolding text_eq
text_eq→eq [] [] h = refl
text_eq→eq (x ∷ xs) (y ∷ ys) h = elim (Bool-cases (x == y)) [
  | inl e ↦
      ap (λ z. z ∷ xs) ((==_iff x y).0 e) ∙ ap (λ zs. y ∷ zs) (text_eq→eq xs ys (ground arith))
  | inr e ↦ absurd (ground arith)
]
text_eq→eq [] (y ∷ ys) h = cc
text_eq→eq (x ∷ xs) [] h = cc

pub All-contains_name :
    (P : Text → Type 0) (ys : List Text) (x : Text) → contains_name ys x ≡ true → All P ys → P x
unfolding contains_name
All-contains_name P (y ∷ ys) x h (p, ps) = elim (Bool-cases (text_eq y x)) [
  | inl e ↦ subst P (text_eq→eq y x e) p
  | inr e ↦ All-contains_name P ys x (ground arith) ps
]
All-contains_name P [] x h _ = cc

All-includes : (P : Text → Type 0) (xs ys : List Text) → includes xs ys ≡ true → All P ys → All P xs
All-includes P [] ys h all = tt
All-includes P (x ∷ xs) ys h all =
    (All-contains_name P ys x (ground arith) all, All-includes P xs ys (ground arith) all)

-- The names that Windows needs: those that programs see, and two that the .def files hand on.
abbrev pub windows_names : List Text
windows_names = codes "SCardLocateCardsByATRA" ∷ codes "SCardLocateCardsByATRW" ∷ exported_names

module _ {F : Type 0} where
  -- The library exports the name.
  abbrev pub IsExported : (Text → Option F) → Text → Type 0
  IsExported exported name = (f : F) × (exported name ≡ some f)

  pub windows_needed :
      (exported : Text → Option F) (slots : Slots F)
      → ((initialize windows (some exported) slots).1 ≡ true)
        ↔ All (IsExported exported) windows_names
  unfolding initialize text_eq contains_name
  windows_needed exported slots =
      let (to, from) = load_each-needed exported (loads windows) slots in
      (
        λ h. All-includes (IsExported exported) windows_names (needed (loads windows)) refl (to h),
        λ all.
            from
              (All-includes (IsExported exported) (needed (loads windows)) windows_names refl all),
      )

  -- On Windows `initialize` returns TRUE exactly when the original library could be opened and
  -- exports every function that the .def files export from this library itself, and the two that search for
  -- cards by their ATR; the others that the .def files hand to the original library are not looked at.
  pub initialize-windows_names :
      (library : Option (Text → Option F)) (slots : Slots F)
      → ((initialize windows library slots).1 ≡ true) ↔ (
          (exported : Text → Option F) × (library ≡ some exported)
          × All (IsExported exported) windows_names)
  unfolding initialize
  initialize-windows_names none slots = (λ h. cc, λ (exported, e, _). cc)
  initialize-windows_names (some exported) slots =
      let (to, from) = windows_needed exported slots in
      (
        λ h. (exported, refl, to h),
        λ (_, e, all). from (
            subst (λ g. All (IsExported g) windows_names)
              (sym (ap (λ o. elim o [ none ↦ exported | some g ↦ g ]) e)) all),
      )

  -- What a pointer holds after a success.
  pub initialize-last_name :
      (platform : Platform) (exported : Text → Option F) (slots : Slots F) (s : Slot) {name : Text}
      → (initialize platform (some exported) slots).1 ≡ true
      → last_name s (loads platform) ≡ some name
      → (initialize platform (some exported) slots).0 s ≡ exported name
  unfolding initialize
  initialize-last_name platform exported slots s h e =
      load_each-last_name exported (loads platform) slots s h ∙ ap (found exported slots s) e
