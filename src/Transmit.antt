-- ===== src/Transmit.antt =====
-- `SCardTransmit` of Winscard/Winscard.cpp. The time measurement and the log files are left out.
pub mod Local
pub mod Lookup
pub mod Recorded
pub mod Transmitted
pub mod Ruled
pub mod Rewritten
pub mod Overrun
use apduplay.Base.{
  Bool, Bytes, Outcome, Text, [], drop, false, fault, if◌then◌else◌, ltb, no_fuel, none, ok, pos,
  replicate, some, suc, take, true, zero, ℕ, ℤ, ◌%◌, ◌&&◌, ◌++◌, ◌+◌, ◌-◌, ◌==◌, ◌>>=◌, ◌||◌, ◌∷◌,
}
use apduplay.Status.{scard_s_success}
use apduplay.Block.{memcpy, read, write_at}
use apduplay.Rules.{History, apply_rules, input_apdu, max_apdu_length}
use apduplay.App.{App, Outside, assign_handle, dword, find_handle}
use apduplay.Session.{Received, remote_scard_transmit}

-- `GetReaderName`: `cardReaderMap[hCard]` puts in an empty name for an unknown handle.
unfoldable pub get_reader_name : App → ℕ → App × Text
unfolding find_handle assign_handle
get_reader_name app h_card = elim (find_handle h_card app.card_reader_map) [
  | some name ↦ (app, name)
  | none ↦ (record app { card_reader_map = assign_handle h_card [] app.card_reader_map }, [])
]

-- `IsRemoteCard`
unfoldable pub is_remote_card : App → ℕ → Bool
unfolding find_handle
is_remote_card app h_card = elim (find_handle h_card app.remote_readers_map) [
  | none ↦ false
  | some _ ↦ true
]

-- `memset` of an APDU_BUFFER, and `memcpy` of the APDU to its start.
unfoldable pub apdu_block : Bytes → ℕ → Outcome Bytes
apdu_block buffer len = memcpy (replicate max_apdu_length 0) buffer len

abbrev pub save_input : App → Bytes → App
save_input app a = record app {
  history = record {
    apdu_in_list = a ∷ app.history.apdu_in_list;
    apdu_out_list = app.history.apdu_out_list;
  };
}

abbrev pub save_output : App → Bytes → App
save_output app a = record app {
  history = record {
    apdu_in_list = app.history.apdu_in_list;
    apdu_out_list = a ∷ app.history.apdu_out_list;
  };
}

-- A buffer with the length that counts in it.
pub record Message : Type 0 where
  pub buffer : Bytes
  pub len : ℕ

-- What the C++ code finds in memory that it has not written, and in `rand`: the local send buffer, and
-- the local buffer of `ApplyRules` in its two calls.
pub record Unwritten : Type 0 where
  pub send_stack : Bytes
  pub in_stack : Bytes
  pub out_stack : Bytes
  pub rand : ℕ → ℕ

-- The incoming rules, where they are switched on.
unfoldable pub modify_message : App → (ℕ → ℕ) → ℕ → Bytes → Message → ℤ → Outcome Message
modify_message app rand fuel stack m direction =
    if app.winscard_config.modify_apdu_by_rules
    then (apply_rules rand fuel app.rules_active app.rules_list app.history stack m.buffer m.len
          direction
        >>= λ r. ok (record { buffer = r.buffer; len = r.len }))
    else ok m

-- `bFORCE_APDU_NONZERO_INPUT_DATA`: one zero byte of data is added to a short APDU.
pub force_data : Bool → Message → Outcome Message
unfolding write_at
force_data forced m =
    if forced && ltb m.len 6
    then (write_at m.buffer (pos 4) 1 >>= λ b4.
        write_at b4 (pos 5) 0 >>= λ b5. ok (record { buffer = b5; len = m.len + 1 }))
    else ok m

-- The GET DATA command that asks for `rest` bytes; 254 stands for 0.
abbrev pub request_count : ℕ → ℕ
request_count rest = if rest == 0 then 254 else rest

abbrev pub get_data : ℕ → Bytes
get_data rest = 0x00 ∷ 0xC0 ∷ 0x00 ∷ 0x00 ∷ request_count rest ∷ []

-- A call that receives at an offset of the buffer.
abbrev pub splice : Bytes → ℕ → Bytes → Bytes
splice whole offset part = take offset whole ++ part

module _ (outside : Outside) where
  open outside use {World, transmit}

  -- The APDU goes to the proxy for a remote card, and to the original library for any other.
  unfoldable pub exchange : App → World → ℕ → Bytes → Bytes → ℕ → Outcome (Received outside)
  exchange app w h_card send_bytes recv_buffer recv_length =
      if is_remote_card app h_card
      then (let (app1, name) = get_reader_name app h_card in
          remote_scard_transmit outside app1 w name send_bytes recv_buffer recv_length)
      else (let (w1, result, buffer1, length1) =
            transmit w h_card send_bytes recv_buffer recv_length in
          ok (record {
            app = app;
            world = w1;
            status = result;
            recv_buffer = buffer1;
            recv_length = length1;
          }))

  -- The first exchange. Only an APDU for the original library gets a byte of data forced in.
  unfoldable pub first_exchange : App → World → ℕ → Message → Bytes → ℕ → Outcome (Received outside)
  first_exchange app w h_card m recv_buffer recv_length =
      if is_remote_card app h_card
      then exchange app w h_card (take m.len m.buffer) recv_buffer recv_length
      else (force_data app.winscard_config.force_apdu_nonzero_input_data m >>= λ f.
          exchange app w h_card (take f.len f.buffer) recv_buffer recv_length)

  -- `while (pbRecvBuffer[recvOffset] is 0x61 or 0x6C)`, on fuel: ask for more data, received at the
  -- offset. The next offset is the length of the part just received, less two.
  pub read_all : ℕ → App → World → ℕ → Bytes → ℕ → ℕ → ℕ → Outcome (Received outside)
  read_all zero app w h_card recv_buffer recv_length result offset = fault no_fuel
  read_all (suc fuel) app w h_card recv_buffer recv_length result offset =
      read recv_buffer offset >>= λ first. elim (first == 0x61 || first == 0x6C) [
        | false ↦ ok (record {
          app = app;
          world = w;
          status = result;
          recv_buffer = recv_buffer;
          recv_length = recv_length;
        })
        | true ↦ read recv_buffer ((recv_length + dword - 1) % dword) >>= λ rest.
            exchange app w h_card (get_data rest) (drop offset recv_buffer) (request_count rest + 2)
            >>= λ r.
                read_all fuel r.app r.world h_card (splice recv_buffer offset r.recv_buffer)
                  r.recv_length r.status ((r.recv_length + dword - 2) % dword)
      ]

  -- The readout, where it is switched on and the response is a bare status word.
  unfoldable pub auto_request : ℕ → ℕ → Received outside → Outcome (Received outside)
  auto_request fuel h_card r =
      if r.recv_length == 2 && r.app.winscard_config.auto_request_data
      then read_all fuel r.app r.world h_card r.recv_buffer r.recv_length r.status 0
      else ok r

  -- From the response on: an error empties it, it is saved, and the outgoing rules apply.
  unfoldable pub respond : ℕ → Unwritten → Received outside → Outcome (Received outside)
  respond fuel u r =
      let recv_length = if r.status == scard_s_success then r.recv_length else 0 in
      apdu_block r.recv_buffer recv_length >>= λ a.
      let app = save_output r.app a in
      modify_message app u.rand fuel u.out_stack
        (record { buffer = r.recv_buffer; len = recv_length }) (pos 0)
      >>= λ m. ok (record {
        app = record app { apdu_counter = app.apdu_counter + 1 };
        world = r.world;
        status = r.status;
        recv_buffer = m.buffer;
        recv_length = m.len;
      })

  -- `SCardTransmit`. The fuel bounds the rounds of its loops.
  unfoldable pub scard_transmit :
      ℕ → Unwritten → App → World → ℕ → Bytes → ℕ → Bytes → ℕ → Outcome (Received outside)
  scard_transmit fuel u app w h_card pb_send_buffer cb_send_length recv_buffer recv_length =
      apdu_block pb_send_buffer cb_send_length >>= λ a.
      let app1 = save_input app a in
      memcpy u.send_stack pb_send_buffer cb_send_length >>= λ copied.
      modify_message app1 u.rand fuel u.in_stack (record { buffer = copied; len = cb_send_length })
        input_apdu
      >>= λ m.
          let app2 = record app1 {
            processed_apdu_byte_counter = app1.processed_apdu_byte_counter + m.len;
          } in
          first_exchange app2 w h_card m recv_buffer recv_length >>= λ r.
          auto_request fuel h_card r >>= λ r'. respond fuel u r'
