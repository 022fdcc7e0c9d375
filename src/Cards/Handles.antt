-- ===== src/Cards/Handles.antt =====
-- The names of readers by card handle, across the calls that connect and release.
use apduplay.Base.{
  Bool-cases, List, Option, Text, [], ap, arith, false, if◌then◌else◌, inl, inr, none, ok, refl,
  some, sym, ℕ, ◌==◌, ◌∙◌, ◌∷◌, ◌≡◌,
}
use apduplay.App.{App, Outside, assign_handle, find_handle}
use apduplay.Transmit.{get_reader_name}
use apduplay.Cards.{Connected, connect_local, is_remote_reader, scard_connect, scard_share_shared}

pub find_handle-assign_handle :
    (j k : ℕ) (v : Text) (m : List (ℕ × Text))
    → find_handle j (assign_handle k v m) ≡ (if j == k then some v else find_handle j m)
unfolding find_handle assign_handle
find_handle-assign_handle j k v [] = ground arith
find_handle-assign_handle j k v ((i, w) ∷ m) = ground (arith, find_handle-assign_handle j k v m)

-- The name that is stored for a handle; empty for none.
abbrev pub reader_name : App → ℕ → Text
reader_name app h_card = (get_reader_name app h_card).1

abbrev name_or_empty : Option Text → Text
name_or_empty none = []
name_or_empty (some name) = name

reader_name_lem :
    (app : App) (h_card : ℕ) (o : Option Text)
    → find_handle h_card app.card_reader_map ≡ o
    → reader_name app h_card ≡ name_or_empty o
unfolding get_reader_name
reader_name_lem app h_card none e = rw (e, reader_name, get_reader_name) refl
reader_name_lem app h_card (some name) e = rw (e, reader_name, get_reader_name) refl

-- The table with a name assigned to a handle.
pub reader_name-assign :
    (a b : App) (j k : ℕ) (v : Text)
    → b.card_reader_map ≡ assign_handle k v a.card_reader_map
    → reader_name b j ≡ (if j == k then v else reader_name a j)
reader_name-assign a b j k v e =
    let found : find_handle j b.card_reader_map
        ≡ (if j == k then some v else find_handle j a.card_reader_map) =
      ap (λ m. find_handle j m) e ∙ find_handle-assign_handle j k v a.card_reader_map in
    elim (Bool-cases (j == k)) [
      | inl y ↦ rw y (reader_name_lem b j (some v) (found ∙ rw y refl))
      | inr n ↦ rw n (
          reader_name_lem b j (find_handle j a.card_reader_map) (found ∙ rw n refl)
          ∙ sym (reader_name_lem a j (find_handle j a.card_reader_map) refl))
    ]

module _ (outside : Outside) (app : App) (w : outside.World) where
  open outside use {connect}

  -- The share mode that is asked for.
  abbrev pub mode_asked : ℕ → ℕ
  mode_asked share_mode =
      if app.winscard_config.force_connect_shared_mode then scard_share_shared else share_mode

  -- A connection to a reader that is not virtual is the original library's, with the share mode
  -- replaced by SCARD_SHARE_SHARED where that is configured: its status and its handle come back, and
  -- GetReaderName gives the name of the reader for this handle and the name it gave before for every
  -- other.
  pub scard_connect-get_reader_name :
      (h_context : ℕ) (reader : Text) (share_mode protocols j : ℕ)
      → is_remote_reader app reader ≡ false
      → (r : Connected outside) × (scard_connect outside app w h_context reader share_mode protocols
          ≡ ok r)
        × (r.status ≡ (connect w h_context reader (mode_asked share_mode) protocols).1)
        × (r.h_card ≡ (connect w h_context reader (mode_asked share_mode) protocols).2)
        × (reader_name r.app j ≡ (if j == r.h_card then reader else reader_name app j))
  unfolding scard_connect connect_local
  scard_connect-get_reader_name h_context reader share_mode protocols j local =
      let answer = connect w h_context reader (mode_asked share_mode) protocols in
      let after : App = record app {
        card_reader_map = assign_handle answer.2 reader app.card_reader_map;
      } in
      (
        record { app = after; world = answer.0; status = answer.1; h_card = answer.2 },
        rw local refl,
        refl,
        refl,
        reader_name-assign app after j answer.2 reader refl,
      )
