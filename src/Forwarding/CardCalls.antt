-- ===== src/Forwarding/CardCalls.antt =====
-- Functions of Winscard/Winscard.cpp on a card: a call for a remote card returns SCARD_S_SUCCESS, any other is
-- forwarded. What `SCardState` and `SCardStatusW` assign for a remote card stands behind their `return`.
use apduplay.Base.{List, Outcome, Text, [], codes, if◌then◌else◌, ok, ℕ, ◌∷◌}
use apduplay.Status.{scard_s_success}
use apduplay.Transmit.{is_remote_card}
use apduplay.App.{App}
use apduplay.Originals.{
  Slots, original_cancel_transaction, original_control, original_get_attrib, original_set_attrib,
  original_state, original_status_w,
}
use apduplay.Forwarding.{Library, forward}

module _ (library : Library) (slots : Slots (library.Function)) (app : App) (w : library.World)
    (h_card : ℕ) where
  unfoldable pub scard_control : ℕ → ℕ → ℕ → ℕ → ℕ → ℕ → Outcome (library.World × ℕ)
  scard_control control_code in_buffer in_size out_buffer out_size returned =
      if is_remote_card app h_card
      then ok (w, scard_s_success)
      else forward library slots w original_control
          (h_card ∷ control_code ∷ in_buffer ∷ in_size ∷ out_buffer ∷ out_size ∷ returned ∷ [])

  unfoldable pub scard_get_attrib : ℕ → ℕ → ℕ → Outcome (library.World × ℕ)
  scard_get_attrib attr_id attr attr_len =
      if is_remote_card app h_card
      then ok (w, scard_s_success)
      else forward library slots w original_get_attrib (h_card ∷ attr_id ∷ attr ∷ attr_len ∷ [])

  unfoldable pub scard_set_attrib : ℕ → ℕ → ℕ → Outcome (library.World × ℕ)
  scard_set_attrib attr_id attr attr_len =
      if is_remote_card app h_card
      then ok (w, scard_s_success)
      else forward library slots w original_set_attrib (h_card ∷ attr_id ∷ attr ∷ attr_len ∷ [])

  unfoldable pub scard_cancel_transaction : Outcome (library.World × ℕ)
  scard_cancel_transaction =
      if is_remote_card app h_card
      then ok (w, scard_s_success)
      else forward library slots w original_cancel_transaction (h_card ∷ [])

  unfoldable pub scard_state : ℕ → ℕ → ℕ → ℕ → Outcome (library.World × ℕ)
  scard_state state protocol atr atr_len =
      if is_remote_card app h_card
      then ok (w, scard_s_success)
      else forward library slots w original_state (h_card ∷ state ∷ protocol ∷ atr ∷ atr_len ∷ [])

  unfoldable pub scard_status_w : ℕ → ℕ → ℕ → ℕ → ℕ → ℕ → Outcome (library.World × ℕ)
  scard_status_w reader_name reader_len state protocol atr atr_len =
      if is_remote_card app h_card
      then ok (w, scard_s_success)
      else forward library slots w original_status_w
          (h_card ∷ reader_name ∷ reader_len ∷ state ∷ protocol ∷ atr ∷ atr_len ∷ [])

-- A call of one of these functions behind its handle.
pub data CardCall : Type 0 where
  control : ℕ → ℕ → ℕ → ℕ → ℕ → ℕ → CardCall
  get_attrib set_attrib : ℕ → ℕ → ℕ → CardCall
  cancel_transaction : CardCall
  state : ℕ → ℕ → ℕ → ℕ → CardCall
  status_w : ℕ → ℕ → ℕ → ℕ → ℕ → ℕ → CardCall

abbrev pub card_call_name : CardCall → Text
card_call_name (control _ _ _ _ _ _) = codes "SCardControl"
card_call_name (get_attrib _ _ _) = codes "SCardGetAttrib"
card_call_name (set_attrib _ _ _) = codes "SCardSetAttrib"
card_call_name cancel_transaction = codes "SCardCancelTransaction"
card_call_name (state _ _ _ _) = codes "SCardState"
card_call_name (status_w _ _ _ _ _ _) = codes "SCardStatusW"

abbrev pub card_call_arguments : CardCall → List ℕ
card_call_arguments (control a b c d e f) = a ∷ b ∷ c ∷ d ∷ e ∷ f ∷ []
card_call_arguments (get_attrib a b c) = a ∷ b ∷ c ∷ []
card_call_arguments (set_attrib a b c) = a ∷ b ∷ c ∷ []
card_call_arguments cancel_transaction = []
card_call_arguments (state a b c d) = a ∷ b ∷ c ∷ d ∷ []
card_call_arguments (status_w a b c d e f) = a ∷ b ∷ c ∷ d ∷ e ∷ f ∷ []

module _ (library : Library) (slots : Slots (library.Function)) (app : App) (w : library.World)
    (h_card : ℕ) where
  unfoldable pub serve_card : CardCall → Outcome (library.World × ℕ)
  unfolding scard_control scard_get_attrib scard_set_attrib scard_cancel_transaction scard_state
      scard_status_w
  serve_card (control a b c d e f) = scard_control library slots app w h_card a b c d e f
  serve_card (get_attrib a b c) = scard_get_attrib library slots app w h_card a b c
  serve_card (set_attrib a b c) = scard_set_attrib library slots app w h_card a b c
  serve_card cancel_transaction = scard_cancel_transaction library slots app w h_card
  serve_card (state a b c d) = scard_state library slots app w h_card a b c d
  serve_card (status_w a b c d e f) = scard_status_w library slots app w h_card a b c d e f
