-- ===== src/Tests/TransmitTests.antt =====
-- A transmission, a connection and freed blocks, against a library that answers 90 00 to everything and a proxy that is not there.
use apduplay.Base.{
  Bytes, List, [], arith, codes, false, if◌then◌else◌, inr, ok, overwrite, pos, refl, replicate,
  ◌++◌, ◌==◌, ◌∷◌, ◌≡◌,
}
use apduplay.Cards.{Connected, is_remote_reader, scard_connect}
use apduplay.Cards.Handles.{reader_name, scard_connect-get_reader_name}
use apduplay.Memory.{scard_free_memory}
use apduplay.Memory.Ownership.{scard_free_memory-Foreign, scard_free_memory-owned}
use apduplay.App.{App, Outside, null}
use apduplay.Transmit.{Unwritten, is_remote_card, scard_transmit}
use apduplay.Transmit.Local.{after_transmit, scard_transmit-plain}

abbrev pub silent : Outside
silent = record {
  World = List Bytes;
  establish_context = λ w scope. (w, 0, 1);
  release_context = λ w c. (w, 0);
  connect = λ w c reader mode protocols. (w, 0, 77, 2);
  connect_w = λ w c reader mode protocols. (w, 0, 78, 2);
  reconnect = λ w c m p i. (w, 0, 2);
  disconnect = λ w c d. (w, 0);
  begin_transaction = λ w c. (w, 0);
  end_transaction = λ w c d. (w, 0);
  status = λ w c. (w, 0, 6, 2);
  transmit = λ w c sent recv len. (sent ∷ w, 0, overwrite recv (0x90 ∷ 0x00 ∷ []), 2);
  list_readers_length = λ w c groups len. (w, 0, 6);
  list_readers = λ w c groups buffer len. (w, 0, overwrite buffer (codes "Real" ++ 0 ∷ 0 ∷ []), 6);
  list_readers_w_length = λ w c groups len. (w, 0, 6);
  list_readers_w =
      λ w c groups buffer len. (w, 0, overwrite buffer (codes "Real" ++ 0 ∷ 0 ∷ []), 6);
  free_memory = λ w c p. (w, 0);
  open_socket = λ w. (w, false);
  close_socket = λ w. w;
  send = λ w t. w;
  receive_response = λ w. (w, []);
}

abbrev pub start : App
start = record {
  winscard_config = record {
    auto_request_data = false;
    force_connect_shared_mode = false;
    force_apdu_nonzero_input_data = false;
    log_exchanged_apdu = false;
    modify_apdu_by_rules = false;
    reader_ordered_first = [];
    virtual_readers_static = [];
    list_virtual_readers_static = [];
    list_virtual_readers = [];
    log_base_path = [];
  };
  remote_config = record {
    redirect = false;
    open_socket_for_every_command = false;
    ip = [];
    port = [];
    remote_reader_prefix = [];
    remote_tag = [];
    measure_apdu = replicate 255 0;
    measure_apdu_len = 0;
    measure_apdu_byte_counter = pos 0;
    measure_apdu_byte_delay = pos 0;
    read_ratio = pos 1;
    num_samples = 1000;
    socket = null;
    next_command_id = 1;
  };
  rules_list = [];
  rules_active = false;
  history = record { apdu_in_list = []; apdu_out_list = [] };
  card_reader_map = [];
  remote_readers_map = [];
  remote_cards_atr_map = [];
  next_remote_card_id = 1;
  processed_apdu_byte_counter = 0;
  apdu_counter = 0;
  char_allocated_memory_list = [];
  wchar_allocated_memory_list = [];
}

abbrev unwritten : Unwritten
unwritten = record {
  send_stack = replicate 300 1;
  in_stack = replicate 300 2;
  out_stack = replicate 300 3;
  rand = λ _. 0;
}

abbrev select : Bytes
select = 0x00 ∷ 0xA4 ∷ 0x04 ∷ 0x00 ∷ []

scard_transmit-plain_example :
    scard_transmit silent 0 unwritten start [] 77 select 4 (replicate 260 0) 260
    ≡ ok (record {
      app = after_transmit start select 4 (0x90 ∷ 0x00 ∷ replicate 258 0) 2;
      world = select ∷ [];
      status = 0;
      recv_buffer = 0x90 ∷ 0x00 ∷ replicate 258 0;
      recv_length = 2;
    })
unfolding is_remote_card
scard_transmit-plain_example =
    scard_transmit-plain silent 0 unwritten start [] 77 select 4 (replicate 260 0) 260 (select ∷ [])
      0 (0x90 ∷ 0x00 ∷ replicate 258 0) 2
      (record { no_rules = refl; no_data = refl; no_readout = refl }) refl refl (omega arith)
      (omega arith) refl (omega arith) (omega arith)

scard_connect-get_reader_name_run :
    (r : Connected silent) × (scard_connect silent start [] 1 (codes "Reader") 1 3 ≡ ok r)
    × (r.status ≡ 0)
    × (r.h_card ≡ 77)
    × (reader_name r.app 77 ≡ (if 77 == r.h_card then codes "Reader" else reader_name start 77))
unfolding is_remote_reader
scard_connect-get_reader_name_run =
    scard_connect-get_reader_name silent start [] 1 (codes "Reader") 1 3 77 refl

abbrev two_blocks : App
two_blocks = record start { char_allocated_memory_list = 5 ∷ 9 ∷ [] }

scard_free_memory-owned_run :
    scard_free_memory silent two_blocks [] (4 ∷ 9 ∷ 5 ∷ []) 1 9
    ≡ ok (record {
      app = record start { char_allocated_memory_list = 5 ∷ [] };
      world = [];
      heap = 4 ∷ 5 ∷ [];
      status = 0;
    })
scard_free_memory-owned_run =
    scard_free_memory-owned silent two_blocks [] 1 9 (5 ∷ []) [] (4 ∷ []) (5 ∷ []) (omega arith)
      refl (inr (omega arith), tt) tt (inr (omega arith), tt)

free_foreign :
    scard_free_memory silent two_blocks [] (4 ∷ 9 ∷ 5 ∷ []) 1 6
    ≡ ok (record { app = two_blocks; world = []; heap = 4 ∷ 9 ∷ 5 ∷ []; status = 0 })
free_foreign =
    scard_free_memory-Foreign silent two_blocks [] 1 6 (4 ∷ 9 ∷ 5 ∷ [])
      (inr (omega arith), (inr (omega arith), tt)) tt
