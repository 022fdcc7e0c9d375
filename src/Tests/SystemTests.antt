-- ===== src/Tests/SystemTests.antt =====
-- A connection to a virtual reader and a transmission to it, with no proxy there.
use apduplay.Base.{
  Bytes, [], arith, codes, false, if◌then◌else◌, inl, length, ok, refl, replicate, true, ℕ, ◌==◌,
  ◌||◌, ◌∷◌, ◌≡◌,
}
use apduplay.Cards.ConnectW.{scard_protocol_t0, scard_connect_w, ConnectedW, params_line}
use apduplay.Block.{memcpy}
use apduplay.Status.{scard_f_comm_error, scard_s_success}
use apduplay.System.Reachable.{Reach-IsValid, scard_connect-fresh, scard_connect_w-unregistered}
use apduplay.Transmit.Local.{recorded}
use apduplay.Transmit.Lookup.{Named}
use apduplay.Cards.Handles.{reader_name}
use apduplay.Tests.TransmitTests.{silent, start}
use apduplay.Transmit.Transmitted.{scard_transmit-Transmitted, transmitted}
use apduplay.System.{IsValid, connect, here, next, transmit}
use apduplay.Transmit.{
  Unwritten, apdu_block, auto_request, exchange, first_exchange, get_reader_name, is_remote_card,
  modify_message, respond, scard_transmit,
}
use apduplay.Session.{Received, remote_scard_transmit}
use apduplay.App.{App, RemoteConfig, core, find_handle, live}
use apduplay.Cards.{Connected, is_remote_reader, scard_connect}

abbrev with_virtual : App
with_virtual = record start {
  winscard_config = record (start.winscard_config) { list_virtual_readers = codes "Virtual" ∷ [] };
}

-- The state after the connection: the handle 2 in both tables, and an empty ATR.
abbrev after_connect : App
after_connect = record with_virtual {
  next_remote_card_id = 2;
  remote_readers_map = (2, codes "Virtual") ∷ [];
  card_reader_map = (2, codes "Virtual") ∷ [];
  remote_cards_atr_map = (codes "Virtual", []) ∷ [];
}

abbrev connection : Connected silent
connection = record { app = after_connect; world = []; status = scard_f_comm_error; h_card = 2 }

connects : scard_connect silent with_virtual [] 1 (codes "Virtual") 1 3 ≡ ok connection
unfolding scard_connect
connects = refl

abbrev unwritten : Unwritten
unwritten = record {
  send_stack = replicate 300 1;
  in_stack = replicate 300 2;
  out_stack = replicate 300 3;
  rand = λ _. 0;
}

abbrev select : Bytes
select = 0x00 ∷ 0xA4 ∷ 0x04 ∷ 0x00 ∷ []

abbrev answer : Received silent
answer = record {
  app =
      transmitted after_connect (recorded select 4) after_connect.remote_config 4
        (recorded (replicate 260 0) 2);
  world = [];
  status = 0;
  recv_buffer = replicate 260 0;
  recv_length = 2;
}

transmits :
    scard_transmit silent 0 unwritten after_connect [] 2 select 4 (replicate 260 0) 2 ≡ ok answer
unfolding scard_transmit apdu_block modify_message first_exchange exchange auto_request respond
    get_reader_name is_remote_card remote_scard_transmit memcpy
transmits = refl

after_connect-Named : Named after_connect
unfolding find_handle
after_connect-Named h name e = e

scard_transmit-Transmitted_example :
    (a : Bytes) × (c : RemoteConfig) × (n : ℕ) × (length a ≡ 300)
    × (answer.app ≡ transmitted after_connect (recorded select 4) c n a)
scard_transmit-Transmitted_example =
    scard_transmit-Transmitted silent 0 unwritten after_connect [] 2 select 4 (replicate 260 0) 2
      answer after_connect-Named transmits

virtual_known : is_remote_reader with_virtual (codes "Virtual") ≡ true
unfolding is_remote_reader
virtual_known = refl

Reach-IsValid_example : IsValid (core answer.app)
Reach-IsValid_example = Reach-IsValid silent with_virtual answer.app refl (
    next
      (next here (
        connect [] 1 (codes "Virtual") 1 3 connection connects (omega arith) (inl virtual_known)
          refl))
      (transmit 0 unwritten [] 2 select 4 (replicate 260 0) 2 answer transmits refl))

-- A second card, beside the first.
abbrev second : Connected silent
second = record {
  app = record after_connect {
    next_remote_card_id = 3;
    remote_readers_map = (2, codes "Virtual") ∷ (3, codes "Virtual") ∷ [];
    card_reader_map = (2, codes "Virtual") ∷ (3, codes "Virtual") ∷ [];
  };
  world = [];
  status = scard_f_comm_error;
  h_card = 3;
}

connects_again : scard_connect silent after_connect [] 1 (codes "Virtual") 1 3 ≡ ok second
unfolding scard_connect
connects_again = refl

scard_connect-fresh_example :
    (is_remote_card after_connect 3 ≡ false)
    × (is_remote_card second.app 2 ≡ (2 == 3 || is_remote_card after_connect 2))
    × (reader_name second.app 2 ≡ (if 2 == 3 then codes "Virtual" else reader_name after_connect 2))
unfolding is_remote_reader
scard_connect-fresh_example =
    scard_connect-fresh silent with_virtual after_connect [] 1 (codes "Virtual") 1 3 2 second refl
      (next here (
        connect [] 1 (codes "Virtual") 1 3 connection connects (omega arith) (inl virtual_known)
          refl))
      (omega arith) virtual_known connects_again

abbrev measuring : App
measuring = record start {
  remote_config = record (start.remote_config) { redirect = true; socket = live };
}

params_sent : params_line measuring.remote_config ≡ codes "get params 1 0 0"
unfolding params_line
params_sent = refl

scard_connect_w-unregistered_example :
    (r : ConnectedW silent) × (scard_connect_w silent measuring [] 1 (codes "Virtual") 1 3 ≡ ok r)
    × (r.status ≡ scard_s_success)
    × (r.h_card ≡ 1)
    × (r.active_protocol ≡ scard_protocol_t0)
    × (r.world ≡ [])
    × (is_remote_card r.app r.h_card ≡ false)
scard_connect_w-unregistered_example =
    scard_connect_w-unregistered silent measuring measuring [] 1 (codes "Virtual") 1 3 refl here
      refl refl
