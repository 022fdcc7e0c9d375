-- ===== src/App.antt =====
-- The state of `CWinscardApp` (Winscard/Winscard.h) with its configuration (Winscard/stdafx.h), and what
-- lies outside the program: the original PC/SC library and the socket to the remote proxy.
use apduplay.Base.{
  Bool, Bytes, List, Option, Text, [], if◌then◌else◌, none, some, ℕ, ℤ, ◌==◌, ◌^◌, ◌∷◌,
}
use apduplay.Rules.{History, Rule}

-- `WINSCARD_CONFIG`, without the switch for the description of the logged commands.
pub record WinscardConfig : Type 0 where
  pub auto_request_data : Bool
  pub force_connect_shared_mode : Bool
  pub force_apdu_nonzero_input_data : Bool
  pub log_exchanged_apdu : Bool
  pub modify_apdu_by_rules : Bool
  pub reader_ordered_first : Text
  pub virtual_readers_static : Text
  pub list_virtual_readers_static : List Text
  pub list_virtual_readers : List Text
  pub log_base_path : Text

-- `pSocket`: NULL, an object with an open or a closed socket, or a pointer to a deleted object.
pub data SocketPtr : Type 0 where
  null live shut deleted : SocketPtr

-- `REMOTE_CONFIG`, without what only the sampling of the power consumption and the log use.
pub record RemoteConfig : Type 0 where
  pub redirect : Bool
  pub open_socket_for_every_command : Bool
  pub ip : Text
  pub port : Text
  pub remote_reader_prefix : Text
  pub remote_tag : Text
  pub measure_apdu : Bytes
  pub measure_apdu_len : ℕ
  pub measure_apdu_byte_counter : ℤ
  pub measure_apdu_byte_delay : ℤ
  pub read_ratio : ℤ
  pub num_samples : ℕ
  pub socket : SocketPtr
  pub next_command_id : ℕ

-- `CWinscardApp`, with the global `apduCounter`.
pub record App : Type 0 where
  pub winscard_config : WinscardConfig
  pub remote_config : RemoteConfig
  pub rules_list : List Rule
  pub rules_active : Bool
  pub history : History
  pub card_reader_map : List (ℕ × Text)
  pub remote_readers_map : List (ℕ × Text)
  pub remote_cards_atr_map : List (Text × Text)
  pub next_remote_card_id : ℕ
  -- two counters of type int, which are never negative; their overflow is not modelled
  pub processed_apdu_byte_counter : ℕ
  pub apdu_counter : ℕ
  pub char_allocated_memory_list : List ℕ
  pub wchar_allocated_memory_list : List ℕ

-- The part of the state that the calls rely on each other for: the history and the tables of handles.
pub record Core : Type 0 where
  pub history : History
  pub card_reader_map : List (ℕ × Text)
  pub remote_readers_map : List (ℕ × Text)
  pub next_remote_card_id : ℕ

abbrev pub core : App → Core
core app = record {
  history = app.history;
  card_reader_map = app.card_reader_map;
  remote_readers_map = app.remote_readers_map;
  next_remote_card_id = app.next_remote_card_id;
}

abbrev pub dword : ℕ
dword = 2 ^ 32

-- An `unordered_map` from handles: `find`, and assignment through `operator[]`.
unfoldable pub find_handle : ℕ → List (ℕ × Text) → Option Text
find_handle k [] = none
find_handle k ((j, v) ∷ m) = if j == k then some v else find_handle k m

unfoldable pub assign_handle : ℕ → Text → List (ℕ × Text) → List (ℕ × Text)
assign_handle k v [] = (k, v) ∷ []
assign_handle k v ((j, w) ∷ m) = if j == k then (k, v) ∷ m else (j, w) ∷ assign_handle k v m

-- What the program calls. The original library's functions return a status and their results; the
-- receive buffer goes in and comes back. `list_readers_length` is the function that lists the readers called
-- with NULL for the buffer; `_w` marks the functions on wide characters. `open_socket` is the constructor of `SocketClient`, with
-- `false` for an exception.
pub record Outside : Type 1 where
  pub World : Type 0
  pub establish_context : World → ℕ → World × ℕ × ℕ
  pub release_context : World → ℕ → World × ℕ
  pub connect : World → ℕ → Text → ℕ → ℕ → World × ℕ × ℕ × ℕ
  pub connect_w : World → ℕ → Text → ℕ → ℕ → World × ℕ × ℕ × ℕ
  pub reconnect : World → ℕ → ℕ → ℕ → ℕ → World × ℕ × ℕ
  pub disconnect : World → ℕ → ℕ → World × ℕ
  pub begin_transaction : World → ℕ → World × ℕ
  pub end_transaction : World → ℕ → ℕ → World × ℕ
  pub status : World → ℕ → World × ℕ × ℕ × ℕ
  pub transmit : World → ℕ → Bytes → Bytes → ℕ → World × ℕ × Bytes × ℕ
  pub list_readers_length : World → ℕ → Text → ℕ → World × ℕ × ℕ
  pub list_readers : World → ℕ → Text → Bytes → ℕ → World × ℕ × Bytes × ℕ
  pub list_readers_w_length : World → ℕ → Text → ℕ → World × ℕ × ℕ
  pub list_readers_w : World → ℕ → Text → Bytes → ℕ → World × ℕ × Bytes × ℕ
  pub free_memory : World → ℕ → ℕ → World × ℕ
  pub open_socket : World → World × Bool
  pub close_socket : World → World
  pub send : World → Text → World
  pub receive_response : World → World × Text
