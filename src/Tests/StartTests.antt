-- ===== src/Tests/StartTests.antt =====
-- A start of the library on Windows, calls of the original library through it, and the state of a virtual reader.
use apduplay.Base.{
  All, All-replicate, Bytes, List, Option, Text, [], arith, codes, false, fault, if◌then◌else◌,
  none, null_call, ok, out_of_bounds, overwrite, pos, refl, replicate, some, true, ℕ, ◌↔◌, ◌∷◌, ◌≡◌,
}
use apduplay.Forwarding.Missing.{serve-dlg_extended_error}
use apduplay.Forwarding.Remote.{serve_card-called}
use apduplay.StatusChange.Cached.{
  scard_get_status_change_a-to_hex, scard_get_status_change_a-to_hex_overflow,
}
use apduplay.Startup.Ready.{init_instance-serve, init_instance-windows_names}
use apduplay.Startup.Rules.{load_rules-first_open, load_rules-unopened}
use apduplay.Startup.Tag.{init_instance-tag}
use apduplay.StatusChange.Wide.{
  IsNarrow, scard_get_status_change_w-long, scard_get_status_change_w-short,
}
use apduplay.Forwarding.CardCalls.{serve_card, state}
use apduplay.Originals.Pointers.{IsExported, windows_names}
use apduplay.Forwarding.Requests.{dlg_extended_error, forget_reader_a, serve}
use apduplay.Originals.Initialize.{initialize, windows}
use apduplay.CString.{c_string, text_eq}
use apduplay.StatusChange.{
  ReaderState, find_name, scard_get_status_change_a, scard_get_status_change_w,
}
use apduplay.Hex.{to_hex}
use apduplay.Startup.{
  Found, Globals, Instance, Machine, add_tag, binary_name, copy_path, find_by_variable, find_rules,
  init_instance, load_chosen, load_instructions, load_rules, name_binary, place, prefix_of, stamp,
}
use apduplay.RuleFile.{Dictionary}
use apduplay.RuleFile.RuleSection.{Stack, load_found}
use apduplay.Cards.{contains_name, is_remote_reader}
use apduplay.Transmit.{is_remote_card}
use apduplay.Forwarding.{Library}
use apduplay.Originals.{Slots}
use apduplay.App.{App}
use apduplay.Tests.TransmitTests.{silent, start}

-- An original library that keeps what it was asked, with every name that is needed.
abbrev recorder : Library
recorder = record {
  World = List (Text × List ℕ);
  Function = Text;
  invoke = λ f w arguments. ((f, arguments) ∷ w, 7);
}

abbrev exports : Text → Option Text
exports name = if contains_name windows_names name then some name else none

abbrev no_slots : Slots Text
no_slots = λ _. none

-- A file with one section, which says where the logs go.
abbrev keys : Dictionary
keys = record {
  getboolean = λ _ fallback. fallback;
  getstring =
      λ k fallback. if text_eq k (codes "WINSCARD:LOG_BASE_PATH") then codes "logs" else fallback;
}

-- The rule file is in `d`, which APDUPLAY names.
abbrev machine : Machine
machine = record {
  getenv = λ name.
      if text_eq name (codes "APDUPLAY")
      then some (codes "d")
      else if text_eq name (codes "APDUPLAY_REMOTE_TAG")
      then some (codes ";id=1")
      else none;
  can_open = λ path. text_eq path (codes "d\\winscard_rules.txt");
  iniparser_load = λ _. (codes "WINSCARD" ∷ [], keys);
  module_file_name = some (codes "C:\\bin\\app.exe");
  current_time = codes "now";
}

abbrev pub globals : Globals
globals = record {
  winscard_log = codes "winscard_log.txt";
  winscard_rules_log = codes "winscard_rules_log.txt";
  instruction_file = codes "Instructions.txt";
  debug_file = codes "debug";
  loading_binary_name = [];
  disable_logging = false;
  write_description = false;
  instruction_dict = none;
}

abbrev unread : Stack
unread = record { data_buffer = replicate 300 9; direction = pos 9 }

abbrev base_stack : Bytes
base_stack = replicate 256 9

abbrev rules_file : Found
rules_file = record { path = codes "d\\winscard_rules.txt"; base = codes "d" }

-- The state with the section read.
abbrev with_logs : App → App
with_logs app = record app {
  winscard_config = record (app.winscard_config) { log_base_path = codes "logs" };
  rules_active = true;
}

abbrev placed : Globals
placed = record globals {
  winscard_log = codes "logs\\winscard_log.txt_now.txt";
  winscard_rules_log = codes "logs\\winscard_rules_log.txt_now.txt";
  instruction_file = codes "logs\\Instructions.txt";
}

section_reads : load_found keys 5 unread (codes "WINSCARD" ∷ []) start ≡ ok (with_logs start)
unfolding load_found
section_reads = refl

load_rules-first_open_example :
    (load_rules machine 5 unread base_stack start globals ≡ ok (with_logs start, placed))
    × ((with_logs start).rules_active ≡ true)
unfolding text_eq load_instructions place stamp
load_rules-first_open_example =
    load_rules-first_open machine 5 unread base_stack start globals (omega arith) {c = rules_file}
      {loaded = with_logs start} refl section_reads

-- The same file without sections, so without LOG_BASE_PATH: the value of APDUPLAY runs into the names.
abbrev no_sections : Machine
no_sections = record machine { iniparser_load = λ _. ([], keys) }

no_separator :
    load_rules no_sections 5 unread base_stack start globals
    ≡ ok (
      record start { rules_active = true },
      record globals {
        winscard_log = codes "dwinscard_log.txt_now.txt";
        winscard_rules_log = codes "dwinscard_rules_log.txt_now.txt";
        instruction_file = codes "dInstructions.txt";
      },
    )
unfolding text_eq load_instructions place stamp load_found
no_separator =
    (load_rules-first_open no_sections 5 unread base_stack start globals (omega arith)
      {c = rules_file} {loaded = record start { rules_active = true }} refl refl).0

-- A machine without a rule file.
abbrev bare : Machine
bare = record machine { can_open = λ _. false }

load_rules-unopened_run : load_rules bare 5 unread base_stack start globals ≡ fault out_of_bounds
unfolding c_string text_eq
load_rules-unopened_run =
    load_rules-unopened bare 5 unread base_stack start globals (omega arith) refl refl

recorder_loads : (initialize windows (some exports) no_slots).1 ≡ true
unfolding initialize contains_name text_eq
recorder_loads = refl

abbrev running : Instance silent Text
running = record {
  app = add_tag (codes "binary=app.exe;id=1") (with_logs start);
  globals = record placed { loading_binary_name = codes "app.exe" };
  world = [];
  slots = (initialize windows (some exports) no_slots).0;
  status = (initialize windows (some exports) no_slots).1;
}

starts :
    init_instance silent Text machine (some exports) 5 unread base_stack start globals [] no_slots
    ≡ ok running
unfolding init_instance load_rules find_rules find_by_variable load_chosen load_found prefix_of
    place stamp load_instructions name_binary binary_name text_eq copy_path
starts = refl

init_instance-windows_names_example : (running.status ≡ true) ↔ (
    (exported : Text → Option Text) × (◌≡◌ {A = Option (Text → Option Text)}
      (some exports)
      (some exported))
    × All (IsExported exported) windows_names)
init_instance-windows_names_example =
    init_instance-windows_names silent (some exports) machine 5 unread base_stack start globals []
      no_slots {i = running} starts

init_instance-serve_example :
    (f : Text) × (exports (codes "SCardForgetReaderA") ≡ some f)
    × (serve recorder running.slots [] (forget_reader_a 3 4) ≡ ok ((f, 3 ∷ 4 ∷ []) ∷ [], 7))
unfolding contains_name text_eq
init_instance-serve_example =
    init_instance-serve silent recorder exports machine 5 unread base_stack start globals []
      no_slots {i = running} (forget_reader_a 3 4) [] starts recorder_loads refl

init_instance-tag_example : running.app.remote_config.remote_tag ≡ codes "binary=app.exe;id=1"
unfolding binary_name text_eq
init_instance-tag_example =
    init_instance-tag silent (some exports) machine 5 unread base_stack start globals [] no_slots
      {i = running} starts

serve_card-called_example :
    serve_card recorder running.slots start [] 5 (state 10 11 12 13)
    ≡ ok ((codes "SCardState", 5 ∷ 10 ∷ 11 ∷ 12 ∷ 13 ∷ []) ∷ [], 7)
unfolding is_remote_card contains_name text_eq
serve_card-called_example =
    serve_card-called recorder exports no_slots start [] recorder_loads 5 (state 10 11 12 13)

serve-dlg_extended_error_run : serve recorder running.slots [] dlg_extended_error ≡ fault null_call
unfolding contains_name text_eq
serve-dlg_extended_error_run =
    serve-dlg_extended_error recorder [] exports no_slots recorder_loads refl

-- A virtual reader whose card is known, in the first of two places.
abbrev with_card : App
with_card = record start {
  winscard_config = record (start.winscard_config) { list_virtual_readers = codes "Virtual" ∷ [] };
  remote_cards_atr_map = (codes "Virtual", codes "3b9000") ∷ [];
}

abbrev state_of : Text → ReaderState
state_of name = record { reader = name; event_state = 0; cb_atr = 0; rgb_atr = replicate 36 0 }

abbrev ask :
    Text
    → List (Text × List ℕ)
    → ℕ
    → ℕ
    → List ReaderState
    → ℕ
    → List (Text × List ℕ) × ℕ × List ReaderState
ask f w h timeout states readers = (w, 9, states)

abbrev known_atr : Bytes
known_atr = 0x3B ∷ 0x90 ∷ 0x00 ∷ []

scard_get_status_change_a-to_hex_example :
    scard_get_status_change_a recorder ask with_card running.slots [] 1 2
      (state_of (codes "Virtual") ∷ state_of (codes "Real") ∷ [])
      2
    ≡ ok (
      [],
      0,
      record {
        reader = codes "Virtual";
        event_state = 0x10422;
        cb_atr = 3;
        rgb_atr = overwrite (replicate 36 0) known_atr;
      }
          ∷ state_of (codes "Real")
          ∷ [],
    )
unfolding is_remote_reader find_name to_hex
scard_get_status_change_a-to_hex_example =
    scard_get_status_change_a-to_hex recorder ask with_card running.slots [] 1 2 2
      (state_of (codes "Virtual")) (state_of (codes "Real") ∷ []) false known_atr refl refl
      (omega arith) (omega arith) refl

-- An ATR of 40 bytes.
abbrev with_long : App
with_long = record with_card {
  remote_cards_atr_map = (codes "Virtual", to_hex false (replicate 40 1)) ∷ [];
}

scard_get_status_change_a-to_hex_overflow_run :
    scard_get_status_change_a recorder ask with_long running.slots [] 1 2
      (state_of (codes "Virtual") ∷ [])
      1
    ≡ ok (
      [],
      0,
      record {
        reader = codes "Virtual";
        event_state = 0x10422;
        cb_atr = 40;
        rgb_atr = replicate 36 0;
      }
          ∷ [],
    )
unfolding is_remote_reader find_name to_hex
scard_get_status_change_a-to_hex_overflow_run =
    scard_get_status_change_a-to_hex_overflow recorder ask with_long running.slots [] 1 2 1
      (state_of (codes "Virtual")) [] false (replicate 40 1) refl refl (omega arith) (omega arith)

scard_get_status_change_w-short_example :
    scard_get_status_change_w recorder ask with_card running.slots [] 1 2
      (state_of (codes "Virtual") ∷ [])
      1
    ≡ scard_get_status_change_a recorder ask with_card running.slots [] 1 2
        (state_of (codes "Virtual") ∷ [])
        1
unfolding is_remote_reader
scard_get_status_change_w-short_example =
    scard_get_status_change_w-short recorder ask with_card running.slots [] 1 2 1
      (state_of (codes "Virtual")) [] (omega arith) (omega arith)

-- A name of 1000 letters.
abbrev long_name : Text
long_name = replicate 1000 b'V'

scard_get_status_change_w-long_example :
    scard_get_status_change_w recorder ask with_card running.slots [] 1 2
      (state_of long_name ∷ [])
      1
    ≡ fault out_of_bounds
scard_get_status_change_w-long_example =
    scard_get_status_change_w-long recorder ask with_card running.slots [] 1 2 1
      (state_of long_name) [] (All-replicate IsNarrow 1000 b'V' (omega arith)) (omega arith)
