-- ===== src/Forwarding/Remote.antt =====
-- The functions on a card, for remote cards and for those of the original library.
use apduplay.Base.{List, Option, Text, [], ap, if◌then◌else◌, ok, refl, some, true, ℕ, ◌∷◌, ◌≡◌}
use apduplay.Originals.Loaded.{last_name}
use apduplay.Forwarding.Namesake.{called, forward-loaded}
use apduplay.Status.{scard_s_success}
use apduplay.Transmit.{is_remote_card}
use apduplay.Forwarding.CardCalls.{
  CardCall, cancel_transaction, card_call_arguments, card_call_name, control, get_attrib,
  serve_card, set_attrib, state, status_w,
}
use apduplay.Originals.Initialize.{initialize, loads, windows}
use apduplay.App.{App}
use apduplay.Originals.{
  Slot, Slots, original_cancel_transaction, original_control, original_get_attrib,
  original_set_attrib, original_state, original_status_w, slot_index,
}
use apduplay.Forwarding.{Library, forward}

module _ (library : Library) (exported : Text → Option (library.Function))
    (empty : Slots (library.Function)) (app : App) (w : library.World)
    (done : (initialize windows (some exported) empty).1 ≡ true) (h_card : ℕ) where
  forwarded :
      (s : Slot) (words : List ℕ) {name : Text}
      → last_name s (loads windows) ≡ some name
      → (if is_remote_card app h_card
          then ok (w, scard_s_success)
          else forward library (initialize windows (some exported) empty).0 w s words)
        ≡ (if is_remote_card app h_card
            then ok (w, scard_s_success)
            else called library (exported name) w words)
  forwarded s words e =
      ap (λ o. if is_remote_card app h_card then ok (w, scard_s_success) else o)
        (forward-loaded library exported empty w done s words e)

  -- On Windows, after `initialize` returned TRUE, SCardControl, SCardGetAttrib, SCardSetAttrib,
  -- SCardCancelTransaction, SCardState and SCardStatusW return SCARD_S_SUCCESS for a remote card
  -- and change nothing, what they should report included; for any other card they call the
  -- function that the original library exports under their name, with their arguments in the same
  -- order, and fault where it exports none.
  pub serve_card-called :
      (call : CardCall)
      → serve_card library (initialize windows (some exported) empty).0 app w h_card call ≡ (
          if is_remote_card app h_card
          then ok (w, scard_s_success)
          else called library
              (exported (card_call_name call))
              w
              (h_card ∷ card_call_arguments call))
  unfolding serve_card slot_index
  serve_card-called (control a b c d e f) =
      forwarded original_control (h_card ∷ a ∷ b ∷ c ∷ d ∷ e ∷ f ∷ []) refl
  serve_card-called (get_attrib a b c) =
      forwarded original_get_attrib (h_card ∷ a ∷ b ∷ c ∷ []) refl
  serve_card-called (set_attrib a b c) =
      forwarded original_set_attrib (h_card ∷ a ∷ b ∷ c ∷ []) refl
  serve_card-called cancel_transaction = forwarded original_cancel_transaction (h_card ∷ []) refl
  serve_card-called (state a b c d) = forwarded original_state (h_card ∷ a ∷ b ∷ c ∷ d ∷ []) refl
  serve_card-called (status_w a b c d e f) =
      forwarded original_status_w (h_card ∷ a ∷ b ∷ c ∷ d ∷ e ∷ f ∷ []) refl
