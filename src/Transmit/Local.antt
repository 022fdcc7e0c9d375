-- ===== src/Transmit/Local.antt =====
-- A transmission to a card of the original library, with everything switched off that changes APDUs.
use apduplay.Base.{
  Bool, Bytes, ap, arith, false, if◌then◌else◌, length, length-take, none, ok, overwrite, pos, refl,
  replicate, some, take, take-overwrite, true, ℕ, ℤ, ◌&&◌, ◌+◌, ◌==◌, ◌∙◌, ◌∷◌, ◌≡◌, ◌≤◌,
}
use mathlib.Core.Path.{subst}
use apduplay.Status.{scard_s_success}
use apduplay.Block.Access.{memcpy-ok}
use apduplay.Rules.{input_apdu, max_apdu_length}
use apduplay.App.{App, Outside, find_handle}
use apduplay.Session.{Received}
use apduplay.Transmit.{
  Message, Unwritten, apdu_block, auto_request, exchange, first_exchange, force_data,
  is_remote_card, modify_message, respond, save_input, save_output, scard_transmit,
}

-- An APDU as it is kept in the history: its bytes, and zeros up to the size of a block.
abbrev pub recorded : Bytes → ℕ → Bytes
recorded buffer len = overwrite (replicate max_apdu_length 0) (take len buffer)

pub apdu_block-recorded :
    (buffer : Bytes) (len : ℕ)
    → len ≤ max_apdu_length
    → len ≤ length buffer
    → apdu_block buffer len ≡ ok (recorded buffer len)
unfolding apdu_block
apdu_block-recorded buffer len h k = memcpy-ok (replicate max_apdu_length 0) buffer len h k

modify_message-off :
    (app : App) (rand : ℕ → ℕ) (fuel : ℕ) (stack : Bytes) (m : Message) (direction : ℤ)
    → app.winscard_config.modify_apdu_by_rules ≡ false
    → modify_message app rand fuel stack m direction ≡ ok m
unfolding modify_message
modify_message-off app rand fuel stack m direction h = rw h

take-overwrite-take :
    (block source : Bytes) (n : ℕ)
    → n ≤ length block
    → n ≤ length source
    → take n (overwrite block (take n source)) ≡ take n source
take-overwrite-take block source n hb hs =
    let same : length (take n source) ≡ n = length-take n source hs in
    subst (λ k. take k (overwrite block (take n source)) ≡ take n source) same
      (take-overwrite block (take n source) (omega arith))

-- All that changes APDUs is off.
pub record IsPlain (app : App) : Type 0 where
  pub no_rules : app.winscard_config.modify_apdu_by_rules ≡ false
  pub no_data : app.winscard_config.force_apdu_nonzero_input_data ≡ false
  pub no_readout : app.winscard_config.auto_request_data ≡ false

-- The state after a plain transmission: both APDUs at the head of the history, and the counters.
abbrev pub after_transmit : App → Bytes → ℕ → Bytes → ℕ → App
after_transmit app sent sent_len received received_len = record app {
  history = record {
    apdu_in_list = recorded sent sent_len ∷ app.history.apdu_in_list;
    apdu_out_list = recorded received received_len ∷ app.history.apdu_out_list;
  };
  processed_apdu_byte_counter = app.processed_apdu_byte_counter + sent_len;
  apdu_counter = app.apdu_counter + 1;
}

force_data-off : (forced : Bool) (m : Message) → forced ≡ false → force_data forced m ≡ ok m
unfolding force_data
force_data-off forced m h = rw h

pub is_remote_card-same :
    (a b : App) (h_card : ℕ)
    → a.remote_readers_map ≡ b.remote_readers_map
    → is_remote_card a h_card ≡ is_remote_card b h_card
unfolding is_remote_card
is_remote_card-same a b h_card e =
    ap (λ m. elim (find_handle h_card m) as (λ _. Bool) [ none ↦ false | some _ ↦ true ]) e

module _ (outside : Outside) where
  open outside use {World, transmit}

  pub first_exchange-plain :
      (app : App) (w : World) (h_card : ℕ) (m : Message) (recv_buffer : Bytes) (recv_length : ℕ)
      (w1 : World) (result : ℕ) (buffer1 : Bytes) (length1 : ℕ)
      → is_remote_card app h_card ≡ false
      → app.winscard_config.force_apdu_nonzero_input_data ≡ false
      → transmit w h_card (take m.len m.buffer) recv_buffer recv_length
        ≡ (w1, result, buffer1, length1)
      → first_exchange outside app w h_card m recv_buffer recv_length
        ≡ ok (record {
          app = app;
          world = w1;
          status = result;
          recv_buffer = buffer1;
          recv_length = length1;
        })
  unfolding first_exchange exchange
  first_exchange-plain app w h_card m recv_buffer recv_length w1 result buffer1 length1 loc off e =
      rw loc (rw (force_data-off app.winscard_config.force_apdu_nonzero_input_data m off) (rw e))

  pub auto_request-off :
      (fuel h_card : ℕ) (r : Received outside)
      → r.app.winscard_config.auto_request_data ≡ false
      → auto_request outside fuel h_card r ≡ ok r
  unfolding auto_request
  auto_request-off fuel h_card r off =
      let stays : (r.recv_length == 2 && r.app.winscard_config.auto_request_data) ≡ false =
        ground arith in
      ground arith

  respond-plain :
      (fuel : ℕ) (u : Unwritten) (r : Received outside)
      → r.app.winscard_config.modify_apdu_by_rules ≡ false
      → r.recv_length ≤ max_apdu_length
      → r.recv_length ≤ length r.recv_buffer
      → respond outside fuel u r
        ≡ ok (record r {
          app =
              record (save_output (r.app) (
                recorded r.recv_buffer
                  (if r.status == scard_s_success then r.recv_length else 0))) {
                    apdu_counter = r.app.apdu_counter + 1;
                  };
          recv_length = if r.status == scard_s_success then r.recv_length else 0;
        })
  unfolding respond
  respond-plain fuel u r off short within =
      let n : ℕ = if r.status == scard_s_success then r.recv_length else 0 in
      let n_short : n ≤ max_apdu_length = ground arith in
      let n_within : n ≤ length r.recv_buffer = ground arith in
      rw (apdu_block-recorded r.recv_buffer n n_short n_within) (
        rw (
          modify_message-off (save_output (r.app) (recorded r.recv_buffer n)) u.rand fuel
            u.out_stack (record { buffer = r.recv_buffer; len = n }) (pos 0) off))

  -- With the rules, the forced data byte and the readout off, and an APDU of at most 300 bytes, within its
  -- buffer, to a card of the original library, which the library answers with at most 300 bytes, within
  -- the buffer that it leaves: the APDU is passed on byte for byte, and the answer comes back as it is,
  -- status and buffer, and the length where the status is SCARD_S_SUCCESS, 0 where it is not. Both
  -- APDUs are recorded, and nothing else of the state changes but the two counters.
  pub scard_transmit-plain :
      (fuel : ℕ) (u : Unwritten) (app : App) (w : World) (h_card : ℕ) (send_buffer : Bytes)
      (send_length : ℕ) (recv_buffer : Bytes) (recv_length : ℕ) (w1 : World) (result : ℕ)
      (buffer1 : Bytes) (length1 : ℕ)
      → IsPlain app
      → is_remote_card app h_card ≡ false
      → length u.send_stack ≡ max_apdu_length
      → send_length ≤ max_apdu_length
      → send_length ≤ length send_buffer
      → transmit w h_card (take send_length send_buffer) recv_buffer recv_length
        ≡ (w1, result, buffer1, length1)
      → length1 ≤ max_apdu_length
      → length1 ≤ length buffer1
      → scard_transmit outside fuel u app w h_card send_buffer send_length recv_buffer recv_length
        ≡ ok (record {
          app =
              after_transmit app send_buffer send_length buffer1
                (if result == scard_s_success then length1 else 0);
          world = w1;
          status = result;
          recv_buffer = buffer1;
          recv_length = if result == scard_s_success then length1 else 0;
        })
  unfolding scard_transmit
  scard_transmit-plain fuel u app w h_card send_buffer send_length recv_buffer recv_length w1 result
        buffer1 length1 plain loc stack len300 len_send e len1_300 len1 =
      let sent = overwrite u.send_stack (take send_length send_buffer) in
      let app1 = save_input app (recorded send_buffer send_length) in
      let app2 = record app1 {
        processed_apdu_byte_counter = app1.processed_apdu_byte_counter + send_length;
      } in
      let same : take send_length sent ≡ take send_length send_buffer =
        take-overwrite-take u.send_stack send_buffer send_length (omega arith) len_send in
      rw (apdu_block-recorded send_buffer send_length len300 len_send) (
        rw (memcpy-ok u.send_stack send_buffer send_length (omega arith) len_send) (
          rw
            (modify_message-off app1 u.rand fuel u.in_stack
              (record { buffer = sent; len = send_length }) input_apdu plain.no_rules)
            (rw
              (first_exchange-plain app2 w h_card (record { buffer = sent; len = send_length })
                recv_buffer recv_length w1 result buffer1 length1
                (is_remote_card-same app2 app h_card refl ∙ loc) plain.no_data (rw same e))
              (rw
                (auto_request-off fuel h_card
                  (record {
                    app = app2;
                    world = w1;
                    status = result;
                    recv_buffer = buffer1;
                    recv_length = length1;
                  })
                  plain.no_readout)
                (respond-plain fuel u
                  (record {
                    app = app2;
                    world = w1;
                    status = result;
                    recv_buffer = buffer1;
                    recv_length = length1;
                  })
                  plain.no_rules len1_300 len1)))))
