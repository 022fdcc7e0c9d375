-- ===== src/Transmit/Lookup.antt =====
-- `GetReaderName` and `IsRemoteCard`: which cards are remote, and the name that a remote card is known by.
use apduplay.Base.{
  Bool, Bool-cases, Option-cases, Text, ap, false, if◌then◌else◌, inl, inr, none, refl, some, true,
  ℕ, ◌==◌, ◌||◌, ◌∙◌, ◌≡◌,
}
use apduplay.Cards.Handles.{find_handle-assign_handle}
use apduplay.Transmit.{is_remote_card, get_reader_name}
use apduplay.App.{assign_handle, find_handle, App}

-- Every remote card is known by the name of its reader.
abbrev pub Named : App → Type 0
Named app =
    (h : ℕ) (name : Text)
    → find_handle h app.remote_readers_map ≡ some name
    → find_handle h app.card_reader_map ≡ some name

get_reader_name-found :
    (app : App) (h_card : ℕ) (name : Text)
    → find_handle h_card app.card_reader_map ≡ some name
    → (get_reader_name app h_card).0 ≡ app
unfolding get_reader_name
get_reader_name-found app h_card name e = rw (e, get_reader_name) refl

pub is_remote_card-unknown :
    (app : App) (h_card : ℕ)
    → find_handle h_card app.remote_readers_map ≡ none
    → is_remote_card app h_card ≡ false
unfolding is_remote_card
is_remote_card-unknown app h_card e = rw (e, is_remote_card) refl

is_remote_card-known :
    (app : App) (h_card : ℕ) (name : Text)
    → find_handle h_card app.remote_readers_map ≡ some name
    → is_remote_card app h_card ≡ true
unfolding is_remote_card
is_remote_card-known app h_card name e = rw (e, is_remote_card) refl

-- Two states with the same entry for a handle.
is_remote_card-entry :
    (a b : App) (j : ℕ)
    → find_handle j a.remote_readers_map ≡ find_handle j b.remote_readers_map
    → is_remote_card a j ≡ is_remote_card b j
unfolding is_remote_card
is_remote_card-entry a b j e = ap (λ o. elim o as (λ _. Bool) [ none ↦ false | some _ ↦ true ]) e

pub is_remote_card-none :
    (app : App) (h_card : ℕ)
    → is_remote_card app h_card ≡ false
    → find_handle h_card app.remote_readers_map ≡ none
is_remote_card-none app h_card e = elim (Option-cases (find_handle h_card app.remote_readers_map)) [
  | inl n ↦ n
  | inr s ↦ let known = is_remote_card-known app h_card s.0 s.1 in cc
]

-- The table of remote cards with one more.
pub is_remote_card-assign :
    (a b : App) (j k : ℕ) (v : Text)
    → b.remote_readers_map ≡ assign_handle k v a.remote_readers_map
    → is_remote_card b j ≡ (j == k || is_remote_card a j)
is_remote_card-assign a b j k v e =
    let found : find_handle j b.remote_readers_map
        ≡ (if j == k then some v else find_handle j a.remote_readers_map) =
      ap (λ m. find_handle j m) e ∙ find_handle-assign_handle j k v a.remote_readers_map in
    elim (Bool-cases (j == k)) [
      | inl y ↦ rw y (is_remote_card-known b j v (found ∙ rw y refl))
      | inr n ↦ rw n (is_remote_card-entry b a j (found ∙ rw n refl))
    ]

pub get_reader_name-Named :
    (app : App) (h_card : ℕ)
    → Named app
    → is_remote_card app h_card ≡ true
    → (get_reader_name app h_card).0 ≡ app
get_reader_name-Named app h_card n remote =
    elim (Option-cases (find_handle h_card app.remote_readers_map)) [
      | inl e ↦ let local = is_remote_card-unknown app h_card e in cc
      | inr e ↦ get_reader_name-found app h_card e.0 (n h_card e.0 e.1)
    ]
