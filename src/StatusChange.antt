-- ===== src/StatusChange.antt =====
-- `SCardGetStatusChangeA` and `SCardGetStatusChangeW` of Winscard/Winscard.cpp. Only the first state of
-- the array is looked at; the log files are left out.
pub mod Cached
pub mod Wide
use apduplay.Base.{
  Bytes, List, Option, Outcome, Text, [], fault, if◌then◌else◌, length, ltb, map, none, null_call,
  ok, out_of_bounds, replicate, some, ℕ, ◌%◌, ◌==◌, ◌>>=◌, ◌∷◌,
}
use apduplay.Status.{scard_f_internal_error, scard_s_success}
use apduplay.Cards.{is_remote_reader}
use apduplay.Block.{memcpy}
use apduplay.App.{App}
use apduplay.Hex.{from_hex}
use apduplay.CString.{c_string, text_eq}
use apduplay.Originals.{Slot, Slots, original_get_status_change_a, original_get_status_change_w}
use apduplay.Forwarding.{Library}

-- `SCARD_READERSTATE`: the name of the reader, and what the call fills in.
pub record ReaderState : Type 0 where
  pub reader : Text
  pub event_state : ℕ
  pub cb_atr : ℕ
  pub rgb_atr : Bytes

-- `remoteCardsATRMap.find(name)`
unfoldable pub find_name : Text → List (Text × Text) → Option Text
unfolding text_eq
find_name k [] = none
find_name k ((j, v) ∷ m) = if text_eq j k then some v else find_name k m

abbrev pub card_event : ℕ
card_event = 0x00010422

-- The ATR that is stored for the name, converted into the array of the state; the status of the
-- conversion is not looked at.
unfoldable pub set_atr : App → Text → ReaderState → Outcome ReaderState
set_atr app name s = elim (find_name name app.remote_cards_atr_map) [
  | none ↦ ok (record s { cb_atr = 0 })
  | some atr ↦
      from_hex atr s.rgb_atr 0x24 >>= λ c. ok (record s { rgb_atr = c.array; cb_atr = c.len })
]

abbrev pub name_capacity : ℕ
name_capacity = 1000

-- The loop that takes the low byte of each wide character, and the name that is read back.
unfoldable pub narrow_name : Text → Outcome Text
narrow_name name =
    memcpy (replicate name_capacity 0) (map (λ c. c % 256) name) (length name) >>= λ buffer.
    c_string buffer

module _ (library : Library)
    (ask_states : library.Function
      → library.World
      → ℕ
      → ℕ
      → List ReaderState
      → ℕ
      → library.World × ℕ × List ReaderState)
    (app : App) (slots : Slots (library.Function)) (w : library.World) where
  abbrev pub Changed : Type 0
  Changed = library.World × ℕ × List ReaderState

  -- The call of the original library.
  unfoldable pub original_states : Slot → ℕ → ℕ → List ReaderState → ℕ → Outcome Changed
  original_states slot h_context timeout states readers = elim (slots slot) [
    | none ↦ fault null_call
    | some f ↦ ok (ask_states f w h_context timeout states readers)
  ]

  -- A virtual reader: the card is there, with the ATR that is known.
  unfoldable pub remote_states : Text → ReaderState → List ReaderState → Outcome Changed
  unfolding set_atr
  remote_states name first rest =
      set_atr app name (record first { event_state = card_event }) >>= λ s.
      ok (w, scard_s_success, s ∷ rest)

  unfoldable pub scard_get_status_change_a : ℕ → ℕ → List ReaderState → ℕ → Outcome Changed
  scard_get_status_change_a h_context timeout [] readers = fault out_of_bounds
  scard_get_status_change_a h_context timeout (first ∷ rest) readers =
      if is_remote_reader app first.reader
      then remote_states first.reader first rest
      else original_states original_get_status_change_a h_context timeout (first ∷ rest) readers

  -- The name as it is looked for decides between the two.
  unfoldable pub wide_states : Text → ℕ → ℕ → ReaderState → List ReaderState → ℕ → Outcome Changed
  wide_states name h_context timeout first rest readers =
      if is_remote_reader app name
      then remote_states name first rest
      else original_states original_get_status_change_w h_context timeout (first ∷ rest) readers

  unfoldable pub scard_get_status_change_w : ℕ → ℕ → List ReaderState → ℕ → Outcome Changed
  unfolding narrow_name wide_states
  scard_get_status_change_w h_context timeout [] readers = fault out_of_bounds
  scard_get_status_change_w h_context timeout (first ∷ rest) readers =
      if ltb name_capacity (length first.reader)
      then ok (w, scard_f_internal_error, first ∷ rest)
      else (narrow_name first.reader >>= λ name.
          wide_states name h_context timeout first rest readers)
