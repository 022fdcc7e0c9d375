-- ===== src/Forwarding/Locations.antt =====
-- Functions of Winscard/Winscard.cpp that only write to the log and call the original library: the search for cards, the dialogs and the events of the service. Every argument is a word, a pointer's address included.
use apduplay.Base.{Outcome, [], ℕ, ◌∷◌}
use apduplay.Originals.{
  Slots, original_access_started_event, original_dlg_extended_error, original_get_open_card_name_a,
  original_get_open_card_name_w, original_get_status_change, original_locate_cards_a,
  original_locate_cards_by_atr_a, original_locate_cards_by_atr_w, original_locate_cards_w,
  original_release_started_event, original_ui_dlg_select_card_a, original_ui_dlg_select_card_w,
}
use apduplay.Forwarding.{Library, forward}

module _ (library : Library) (slots : Slots (library.Function)) (w : library.World) where
  unfoldable pub scard_locate_cards_a : ℕ → ℕ → ℕ → ℕ → Outcome (library.World × ℕ)
  scard_locate_cards_a h_context msz_cards rg_reader_states c_readers =
      forward library slots w original_locate_cards_a
        (h_context ∷ msz_cards ∷ rg_reader_states ∷ c_readers ∷ [])

  unfoldable pub scard_locate_cards_w : ℕ → ℕ → ℕ → ℕ → Outcome (library.World × ℕ)
  scard_locate_cards_w h_context msz_cards rg_reader_states c_readers =
      forward library slots w original_locate_cards_w
        (h_context ∷ msz_cards ∷ rg_reader_states ∷ c_readers ∷ [])

  unfoldable pub scard_locate_cards_by_atr_a : ℕ → ℕ → ℕ → ℕ → ℕ → Outcome (library.World × ℕ)
  scard_locate_cards_by_atr_a h_context rg_atr_masks c_atrs rg_reader_states c_readers =
      forward library slots w original_locate_cards_by_atr_a
        (h_context ∷ rg_atr_masks ∷ c_atrs ∷ rg_reader_states ∷ c_readers ∷ [])

  unfoldable pub scard_locate_cards_by_atr_w : ℕ → ℕ → ℕ → ℕ → ℕ → Outcome (library.World × ℕ)
  scard_locate_cards_by_atr_w h_context rg_atr_masks c_atrs rg_reader_states c_readers =
      forward library slots w original_locate_cards_by_atr_w
        (h_context ∷ rg_atr_masks ∷ c_atrs ∷ rg_reader_states ∷ c_readers ∷ [])

  unfoldable pub scard_ui_dlg_select_card_a : ℕ → Outcome (library.World × ℕ)
  scard_ui_dlg_select_card_a a = forward library slots w original_ui_dlg_select_card_a (a ∷ [])

  unfoldable pub scard_ui_dlg_select_card_w : ℕ → Outcome (library.World × ℕ)
  scard_ui_dlg_select_card_w a = forward library slots w original_ui_dlg_select_card_w (a ∷ [])

  unfoldable pub get_open_card_name_a : ℕ → Outcome (library.World × ℕ)
  get_open_card_name_a a = forward library slots w original_get_open_card_name_a (a ∷ [])

  unfoldable pub get_open_card_name_w : ℕ → Outcome (library.World × ℕ)
  get_open_card_name_w a = forward library slots w original_get_open_card_name_w (a ∷ [])

  unfoldable pub scard_dlg_extended_error : Outcome (library.World × ℕ)
  scard_dlg_extended_error = forward library slots w original_dlg_extended_error ([])

  unfoldable pub scard_access_started_event : Outcome (library.World × ℕ)
  scard_access_started_event = forward library slots w original_access_started_event ([])

  unfoldable pub scard_release_started_event : Outcome (library.World × ℕ)
  scard_release_started_event = forward library slots w original_release_started_event ([])

  unfoldable pub scard_get_status_change : ℕ → ℕ → ℕ → ℕ → Outcome (library.World × ℕ)
  scard_get_status_change h_context dw_timeout rg_reader_states c_readers =
      forward library slots w original_get_status_change
        (h_context ∷ dw_timeout ∷ rg_reader_states ∷ c_readers ∷ [])
