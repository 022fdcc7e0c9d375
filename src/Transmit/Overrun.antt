-- ===== src/Transmit/Overrun.antt =====
-- APDUs that do not fit into a block of the history (`apduBuff`, of MAX_APDU_LENGTH bytes).
use apduplay.Base.{
  Bytes, arith, false, fault, if◌then◌else◌, leb, length, length-replicate, out_of_bounds, refl,
  replicate, ℕ, ◌<◌, ◌==◌, ◌≡◌,
}
use apduplay.Status.{scard_s_success}
use apduplay.Session.{Received}
use apduplay.Rules.{max_apdu_length}
use apduplay.Block.{memcpy}
use apduplay.App.{App, Outside}
use apduplay.Transmit.{Unwritten, apdu_block, respond, scard_transmit}

apdu_block-overrun :
    (buffer : Bytes) (len : ℕ) → max_apdu_length < len → apdu_block buffer len ≡ fault out_of_bounds
unfolding apdu_block memcpy
apdu_block-overrun buffer len h =
    let size : length {A = ℕ} (replicate max_apdu_length 0) ≡ max_apdu_length =
      length-replicate {A = ℕ} max_apdu_length 0 in
    let too_long : leb len (length {A = ℕ} (replicate max_apdu_length 0)) ≡ false =
      ground (arith, size) in
    rw too_long refl

module _ (outside : Outside) where
  open outside use {World}

  -- A command of more than 300 bytes is copied past the end of the block, whatever the switches and the card are.
  pub scard_transmit-overrun :
      (fuel : ℕ) (u : Unwritten) (app : App) (w : World) (h_card : ℕ) (send_buffer : Bytes)
      (send_length : ℕ) (recv_buffer : Bytes) (recv_length : ℕ)
      → max_apdu_length < send_length
      → scard_transmit outside fuel u app w h_card send_buffer send_length recv_buffer recv_length
        ≡ fault out_of_bounds
  unfolding scard_transmit
  scard_transmit-overrun fuel u app w h_card send_buffer send_length recv_buffer recv_length h =
      rw (apdu_block-overrun send_buffer send_length h) refl

  -- So is a response of more than 300 bytes with the status SCARD_S_SUCCESS.
  pub respond-overrun :
      (fuel : ℕ) (u : Unwritten) (r : Received outside)
      → r.status ≡ scard_s_success
      → max_apdu_length < r.recv_length
      → respond outside fuel u r ≡ fault out_of_bounds
  unfolding respond
  respond-overrun fuel u r success h =
      let same : (if r.status == scard_s_success then r.recv_length else 0) ≡ r.recv_length =
        ground (arith, success) in
      rw same (rw (apdu_block-overrun r.recv_buffer r.recv_length h) refl)
