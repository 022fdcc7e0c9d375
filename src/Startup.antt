-- ===== src/Startup.antt =====
-- The start of the library on Windows: `LoadRules` and `CWinscardApp::InitInstance` of Winscard/Winscard.cpp. What is written
-- to the log files is left out; where they stand is not.
pub mod Rules
pub mod Tag
pub mod Ready
use apduplay.Base.{
  Bool, Bytes, List, Option, Outcome, Text, [], codes, false, fault, if◌then◌else◌, length, ltb,
  none, ok, out_of_bounds, some, true, ℕ, ◌++◌, ◌==◌, ◌>>=◌, ◌||◌, ◌∷◌,
}
use apduplay.CString.{c_string}
use apduplay.Originals.Initialize.{initialize, linux, windows}
use apduplay.Originals.{Slots}
use apduplay.RuleFile.RuleSection.{Stack, load_found}
use apduplay.RemoteReaders.{remote_connect}
use apduplay.App.{App, Outside}
use apduplay.RuleFile.{Dictionary}

-- What the program asks the system: environment variables, whether a file can be opened for reading, the sections
-- and keys that iniparser finds in it, the path of the running program and the time.
pub record Machine : Type 0 where
  pub getenv : Text → Option Text
  pub can_open : Text → Bool
  pub iniparser_load : Text → List Text × Dictionary
  pub module_file_name : Option Text
  pub current_time : Text

-- The global variables that hold the names of files, and the switches that only the log reads.
pub record Globals : Type 0 where
  pub winscard_log : Text
  pub winscard_rules_log : Text
  pub instruction_file : Text
  pub debug_file : Text
  pub loading_binary_name : Text
  pub disable_logging : Bool
  pub write_description : Bool
  pub instruction_dict : Option Dictionary

abbrev pub rule_file : Text
rule_file = codes "winscard_rules.txt"

-- `string_format("%s\\%s", directory, file)`
abbrev pub in_directory : Text → Text → Text
in_directory directory file = directory ++ (b'\\' ∷ file)

-- `type_copy` into `rulesFilePath` or `baseDir`.
abbrev pub path_capacity : ℕ
path_capacity = 256

unfoldable pub copy_path : Text → Outcome Text
copy_path s = if ltb (length s) path_capacity then ok s else fault out_of_bounds

-- The rule file with the base directory for the files that are written.
pub record Found : Type 0 where
  pub path : Text
  pub base : Text

-- Where the variable APDUPLAY is set, the directory that it names.
unfoldable pub find_by_variable : Machine → Option Text → Outcome (Option Found)
find_by_variable m none = ok none
find_by_variable m (some directory) =
    let file = in_directory directory rule_file in
    if m.can_open file
    then (copy_path file >>= λ path.
        copy_path directory >>= λ base. ok (some (record { path = path; base = base })))
    else ok none

-- The search for the rule file: under its bare name, in the working directory, first.
unfoldable pub find_rules : Machine → Outcome (Option Found)
unfolding find_by_variable
find_rules m =
    if m.can_open rule_file
    then ok (some (record { path = rule_file; base = [] }))
    else find_by_variable m (m.getenv (codes "APDUPLAY"))

-- The sections of the file that was found.
unfoldable pub load_chosen : Machine → ℕ → Stack → Option Found → App → Outcome App
load_chosen m fuel st none app = ok app
load_chosen m fuel st (some f) app =
    let (sections, d) = m.iniparser_load f.path in load_found d fuel st sections app

-- `baseDir`, which is not written where no file was found.
unfoldable pub base_dir : Option Found → Bytes → Outcome Text
base_dir none stack = c_string stack
base_dir (some f) stack = ok f.base

-- `WINSCARD_LOG` and `WINSCARD_RULES_LOG` with the time, as the first statements set them.
unfoldable pub stamp : Machine → Globals → Globals
stamp m g =
    let stamp = b'_' ∷ (m.current_time ++ codes ".txt") in
    record g {
      winscard_log = g.winscard_log ++ stamp;
      winscard_rules_log = g.winscard_rules_log ++ stamp;
    }

-- A prefix in front of the three names, without a separator.
unfoldable pub place : Text → Globals → Globals
place prefix g = record g {
  winscard_log = prefix ++ g.winscard_log;
  winscard_rules_log = prefix ++ g.winscard_rules_log;
  instruction_file = prefix ++ g.instruction_file;
}

-- The descriptions of instructions, where their file is there.
unfoldable pub load_instructions : Machine → Globals → Globals
load_instructions m g =
    if m.can_open g.instruction_file
    then record g {
      write_description = true;
      instruction_dict = some (m.iniparser_load g.instruction_file).1;
    }
    else g

-- LOG_BASE_PATH with a backslash, or else `baseDir` as it is.
unfoldable pub prefix_of : Text → Option Found → Bytes → Outcome Text
prefix_of log_base_path found stack =
    if length log_base_path == 0 then base_dir found stack else ok (log_base_path ++ (b'\\' ∷ []))

-- `LoadRules`; `stack` is what `baseDir` holds before it is written.
unfoldable pub load_rules : Machine → ℕ → Stack → Bytes → App → Globals → Outcome (App × Globals)
load_rules m fuel st stack app g = do
  found ← find_rules m
  loaded ← load_chosen m fuel st found app
  prefix ← prefix_of (loaded.winscard_config.log_base_path) found stack
  ok (loaded, load_instructions m (place prefix (stamp m g)))

-- The text behind the last place where a character stands (`rfind` and `substr`).
unfoldable pub after_last : ℕ → Text → Option Text
after_last c [] = none
after_last c (x ∷ xs) = elim (after_last c xs) [
  | some rest ↦ some rest
  | none ↦ if x == c then some xs else none
]

-- The file name in a path: behind the last backslash, or else behind the last slash.
unfoldable pub binary_name : Text → Option Text
unfolding after_last
binary_name path = elim (after_last b'\\' path) [
  | some name ↦ some name
  | none ↦ after_last b'/' path
]

abbrev pub add_tag : Text → App → App
add_tag tag app = record app {
  remote_config = record (app.remote_config) { remote_tag = app.remote_config.remote_tag ++ tag };
}

-- The name of the running program goes into the tag.
unfoldable pub name_binary : Option Text → App → Globals → App × Globals
name_binary none app g = (app, g)
name_binary (some name) app g =
    (add_tag (codes "binary=" ++ name) app, record g { loading_binary_name = name })

abbrev pub module_binary : Option Text → Option Text
module_binary none = none
module_binary (some path) = binary_name path

-- What a variable adds to the tag.
abbrev pub or_empty : Option Text → Text
or_empty none = []
or_empty (some s) = s

abbrev pub is_set : Option Text → Bool
is_set none = false
is_set (some _) = true

abbrev pub set_debug_file : Option Text → Globals → Globals
set_debug_file none g = g
set_debug_file (some path) g = record g { debug_file = path }

abbrev pub connect_remote_proxy :
    (outside : Outside) → App → outside.World → Outcome (App × outside.World)
connect_remote_proxy outside app w =
    if app.remote_config.redirect then remote_connect outside app w else ok (app, w)

module _ (outside : Outside) (F : Type 0) where
  -- What `InitInstance` leaves; with `status` false the library is unloaded.
  pub record Instance : Type 0 where
    pub app : App
    pub globals : Globals
    pub world : outside.World
    pub slots : Slots F
    pub status : Bool

  -- `InitInstance`
  unfoldable pub init_instance :
      Machine
      → Option (Text → Option F)
      → ℕ
      → Stack
      → Bytes
      → App
      → Globals
      → outside.World
      → Slots F
      → Outcome Instance
  init_instance m library fuel st stack app g w slots =
      let (app1, g1) =
        name_binary (module_binary m.module_file_name) app
          (set_debug_file (m.getenv (codes "APDUPLAY_DEBUG")) g) in
      load_rules m fuel st stack app1 g1 >>= λ (app2, g2).
      let app3 = add_tag (or_empty (m.getenv (codes "APDUPLAY_REMOTE_TAG"))) app2 in
      let g3 = record g2 {
        disable_logging =
            g2.disable_logging || is_set (m.getenv (codes "APDUPLAY_DISABLE_LOGGING"));
      } in
      connect_remote_proxy outside app3 w >>= λ (app4, w').
      let (slots', status) = initialize windows library slots in
      ok (record { app = app4; globals = g3; world = w'; slots = slots'; status = status })

-- The constructor of `CWinscardApp` on Linux, which loads the rules and the original library, and does not
-- look at what `initialize` returns.
unfoldable pub construct_linux :
    {F : Type 0}
    → Machine
    → Option (Text → Option F)
    → ℕ
    → Stack
    → Bytes
    → App
    → Globals
    → Slots F
    → Outcome (App × Globals × Slots F)
construct_linux m library fuel st stack app g slots =
    load_rules m fuel st stack (record app { rules_active = false }) g >>= λ (app', g').
    ok (record app' { processed_apdu_byte_counter = 0 }, g', (initialize linux library slots).0)
