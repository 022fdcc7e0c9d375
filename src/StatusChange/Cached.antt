-- ===== src/StatusChange/Cached.antt =====
-- What SCardGetStatusChange reports of a virtual reader whose ATR is known.
use apduplay.Base.{
  All, Bool, Bytes, IsByte, List, Text, arith, length, ok, overwrite, refl, some, true, ℕ, ◌<◌, ◌∷◌,
  ◌≡◌, ◌≤◌,
}
use apduplay.Hex.RoundTrip.{from_hex-to_hex, from_hex-to_hex_overflow}
use apduplay.Status.{scard_s_success, stat_not_enough_memory, stat_ok}
use apduplay.Hex.{Converted, from_hex, to_hex}
use apduplay.Cards.{is_remote_reader}
use apduplay.Originals.{Slots}
use apduplay.App.{App}
use apduplay.Forwarding.{Library}
use apduplay.StatusChange.{
  ReaderState, card_event, find_name, remote_states, scard_get_status_change_a, set_atr,
}

set_atr-known :
    (app : App) (name text : Text) (s : ReaderState) (c : Converted)
    → find_name name app.remote_cards_atr_map ≡ some text
    → from_hex text s.rgb_atr 0x24 ≡ ok c
    → set_atr app name s ≡ ok (record s { rgb_atr = c.array; cb_atr = c.len })
unfolding set_atr
set_atr-known app name text s c known converted = rw (known, set_atr) (rw converted refl)

module _ (library : Library)
    (ask_states : library.Function
      → library.World
      → ℕ
      → ℕ
      → List ReaderState
      → ℕ
      → library.World × ℕ × List ReaderState)
    (app : App) (slots : Slots (library.Function)) (w : library.World)
    (h_context timeout readers : ℕ) (first : ReaderState) (rest : List ReaderState) (spaced : Bool)
    (atr : Bytes) (virtual : is_remote_reader app first.reader ≡ true)
    (known : find_name first.reader app.remote_cards_atr_map ≡ some (to_hex spaced atr))
    (bytes : All IsByte atr) where
  -- The state that is reported, for what the array and the length come to.
  abbrev pub reported : Bytes → ReaderState
  reported array = record first { event_state = card_event; cb_atr = length atr; rgb_atr = array }

  -- A virtual reader in the first place of the array, whose ATR was stored in hexadecimal: where the ATR has
  -- at most the 36 bytes of the field, the call succeeds without the original library and reports
  -- a card with these bytes and their number; the rest of the field and the other
  -- states are left as they were.
  pub scard_get_status_change_a-to_hex :
      length atr ≤ 0x24
      → length first.rgb_atr ≡ 0x24
      → scard_get_status_change_a library ask_states app slots w h_context timeout
          (first ∷ rest)
          readers
        ≡ ok (w, scard_s_success, reported (overwrite first.rgb_atr atr) ∷ rest)
  unfolding scard_get_status_change_a remote_states
  scard_get_status_change_a-to_hex fits room = rw virtual (
      rw
        (set_atr-known app first.reader (to_hex spaced atr)
          (record first { event_state = card_event })
          (record { status = stat_ok; array = overwrite first.rgb_atr atr; len = length atr }) known
          (from_hex-to_hex spaced atr first.rgb_atr 0x24 bytes fits (omega arith)))
        refl)

  -- Where it has more, the call succeeds too and reports a card with the number of its bytes, which the
  -- field does not have room for, and the field is left as it was.
  pub scard_get_status_change_a-to_hex_overflow :
      0x24 < length atr
      → scard_get_status_change_a library ask_states app slots w h_context timeout
          (first ∷ rest)
          readers
        ≡ ok (w, scard_s_success, reported first.rgb_atr ∷ rest)
  unfolding scard_get_status_change_a remote_states
  scard_get_status_change_a-to_hex_overflow over = rw virtual (
      rw
        (set_atr-known app first.reader (to_hex spaced atr)
          (record first { event_state = card_event })
          (record { status = stat_not_enough_memory; array = first.rgb_atr; len = length atr })
          known (from_hex-to_hex_overflow spaced atr first.rgb_atr 0x24 bytes over))
        refl)
