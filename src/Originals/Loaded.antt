-- ===== src/Originals/Loaded.antt =====
-- What the pointers hold after `load_each`.
use apduplay.Base.{
  All, Bool-cases, List, Option, Option-cases, Text, [], ap, if◌then◌else◌, inl, inr, none, refl,
  some, sym, true, ◌↔◌, ◌∙◌, ◌∷◌, ◌≡◌, ◌≢◌,
}
use apduplay.Originals.{Load, Slot, Slots, assign_slot, load_each, need, same_slot, want}

-- The name that is stored last in a pointer.
abbrev pub last_name : Slot → List Load → Option Text
last_name s [] = none
last_name s (need t name ∷ loads) = elim (last_name s loads) [
  | some found ↦ some found
  | none ↦ if same_slot t s then some name else none
]
last_name s (want t name ∷ loads) = elim (last_name s loads) [
  | some found ↦ some found
  | none ↦ if same_slot t s then some name else none
]

-- The names that are needed, in the order of the look-ups.
abbrev pub needed : List Load → List Text
needed [] = []
needed (need _ name ∷ loads) = name ∷ needed loads
needed (want _ _ ∷ loads) = needed loads

module _ {F : Type 0} (exported : Text → Option F) where
  abbrev pub found : Slots F → Slot → Option Text → Option F
  found slots s none = slots s
  found slots s (some name) = exported name

  found-assign_slot :
      (slots : Slots F) (s t : Slot) (name : Text) (later : Option Text)
      → found (assign_slot t (exported name) slots) s later
        ≡ found slots s (elim later [
          | some name' ↦ some name'
          | none ↦ if same_slot t s then some name else none
        ])
  unfolding assign_slot
  found-assign_slot slots s t name (some _) = refl
  found-assign_slot slots s t name none = elim (Bool-cases (same_slot t s)) [
    | inl e ↦ rw e refl
    | inr e ↦ rw e refl
  ]

  need_missing :
      (t : Slot) (name : Text) (loads : List Load) (slots : Slots F)
      → exported name ≡ none
      → (load_each exported (need t name ∷ loads) slots).1 ≢ true
  unfolding load_each
  need_missing t name loads slots e = rw (e, load_each) (λ h. cc)

  need_found :
      (t : Slot) (name : Text) (loads : List Load) (slots : Slots F) {f : F}
      → exported name ≡ some f
      → load_each exported (need t name ∷ loads) slots
        ≡ load_each exported loads (assign_slot t (exported name) slots)
  unfolding load_each
  need_found t name loads slots e = rw (e, load_each) refl

  -- After a success each pointer holds what the library exports under the name stored last.
  pub load_each-last_name :
      (loads : List Load) (slots : Slots F) (s : Slot)
      → (load_each exported loads slots).1 ≡ true
      → (load_each exported loads slots).0 s ≡ found slots s (last_name s loads)
  unfolding load_each
  load_each-last_name [] slots s h = refl
  load_each-last_name (need t name ∷ loads) slots s h = elim (Option-cases (exported name)) [
    | inl e ↦ absurd (need_missing t name loads slots e h)
    | inr (f, e) ↦
        let ih =
          load_each-last_name loads (assign_slot t (exported name) slots) s
            (sym (ap (λ r. r.1) (need_found t name loads slots e)) ∙ h) in
        ap (λ r. r.0 s) (need_found t name loads slots e)
        ∙ (ih ∙ found-assign_slot slots s t name (last_name s loads))
  ]
  load_each-last_name (want t name ∷ loads) slots s h =
      load_each-last_name loads (assign_slot t (exported name) slots) s h
      ∙ found-assign_slot slots s t name (last_name s loads)

  -- TRUE is returned exactly when every needed name is exported.
  pub load_each-needed :
      (loads : List Load) (slots : Slots F)
      → ((load_each exported loads slots).1 ≡ true)
        ↔ All (λ name. (f : F) × (exported name ≡ some f)) (needed loads)
  unfolding load_each
  load_each-needed [] slots = (λ _. tt, λ _. refl)
  load_each-needed (need t name ∷ loads) slots = (
    λ h. elim (Option-cases (exported name)) [
      | inl e ↦ absurd (need_missing t name loads slots e h)
      | inr (f, e) ↦ (
        (f, e),
        (load_each-needed loads (assign_slot t (exported name) slots)).0
            (sym (ap (λ r. r.1) (need_found t name loads slots e)) ∙ h),
      )
    ],
    λ ((f, e), rest).
        ap (λ r. r.1) (need_found t name loads slots e)
        ∙ (load_each-needed loads (assign_slot t (exported name) slots)).1 rest,
  )
  load_each-needed (want t name ∷ loads) slots =
      load_each-needed loads (assign_slot t (exported name) slots)
