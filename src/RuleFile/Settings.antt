-- ===== src/RuleFile/Settings.antt =====
-- The sections WINSCARD and REMOTE in `CWinscardApp::LoadRule` (Winscard/Winscard.cpp): a key that is there
-- replaces the setting, a key that is not leaves it.
use apduplay.Base.{
  Bool, Outcome, Text, [], codes, eq_ℤ, if◌then◌else◌, length, negsuc, not, ok, pos, ℕ, ℤ, ◌++◌,
  ◌-◌, ◌==◌, ◌>>=◌, ◌^◌, ◌∷◌,
}
use apduplay.App.{RemoteConfig, WinscardConfig}
use apduplay.CString.{strtol}
use apduplay.Hex.{from_hex_small}
use apduplay.Separated.{parse_separated_array}
use apduplay.RuleFile.{Dictionary, sec_and_key, string_of}

-- `(DWORD)` of a `long`.
abbrev pub to_dword : ℤ → ℕ
to_dword (pos n) = n
to_dword (negsuc n) = 2 ^ 32 - 1 - n

module _ (d : Dictionary) (section : Text) where
  -- `if ((value = iniparser_getboolean(dict, .., 2)) != 2) setting = value;`
  unfoldable pub set_flag : Text → Bool → Outcome Bool
  unfolding sec_and_key
  set_flag key old = do
    k ← sec_and_key section key
    ok (
        let value = d.getboolean k (pos 2) in
        if eq_ℤ value (pos 2) then old else not (eq_ℤ value (pos 0)))

  -- `if (type_length(char_value) != 0) setting = char_value;`
  unfoldable pub set_text : Text → Text → Outcome Text
  unfolding string_of
  set_text key old = do
    value ← string_of d section key
    ok (if length value == 0 then old else value)

  -- The same with `type_to_int(char_value, NULL, 10)`.
  unfoldable pub set_number : Text → ℤ → Outcome ℤ
  unfolding string_of strtol
  set_number key old = do
    value ← string_of d section key
    ok (if length value == 0 then old else strtol 10 value)

  unfoldable pub set_dword : Text → ℕ → Outcome ℕ
  unfolding string_of strtol
  set_dword key old = do
    value ← string_of d section key
    ok (if length value == 0 then old else to_dword (strtol 10 value))

  -- VIRTUAL_READERS: the names are parsed, and both lists hold them.
  unfoldable pub set_virtual_readers : WinscardConfig → Outcome WinscardConfig
  unfolding string_of parse_separated_array
  set_virtual_readers c = do
    value ← string_of d section (codes ":VIRTUAL_READERS")
    (if length value == 0
        then ok c
        else (parse_separated_array (value ++ 0 ∷ []) (length value) b'|' [] >>= λ names.
            ok (record c {
              virtual_readers_static = value;
              list_virtual_readers_static = names;
              list_virtual_readers = names;
            })))

  unfoldable pub load_winscard : WinscardConfig → Outcome WinscardConfig
  unfolding set_flag set_text set_virtual_readers
  load_winscard c = do
    request ← set_flag (codes ":AUTO_REQUEST_DATA") c.auto_request_data
    shared ← set_flag (codes ":FORCE_CONNECT_SHARED_MODE") c.force_connect_shared_mode
    nonzero ← set_flag (codes ":FORCE_APDU_NONZERO_INPUT_DATA") c.force_apdu_nonzero_input_data
    log ← set_flag (codes ":LOG_EXCHANGED_APDU") c.log_exchanged_apdu
    path ← set_text (codes ":LOG_BASE_PATH") c.log_base_path
    modify ← set_flag (codes ":MODIFY_APDU_BY_RULES") c.modify_apdu_by_rules
    first ← set_text (codes ":READER_ORDERED_FIRST") c.reader_ordered_first
    set_virtual_readers (record c {
      auto_request_data = request;
      force_connect_shared_mode = shared;
      force_apdu_nonzero_input_data = nonzero;
      log_exchanged_apdu = log;
      log_base_path = path;
      modify_apdu_by_rules = modify;
      reader_ordered_first = first;
    })

  -- MEASURE_APDU goes into an array of 255 bytes, whose size is kept in a BYTE.
  unfoldable pub set_measure_apdu : RemoteConfig → Outcome RemoteConfig
  unfolding string_of from_hex_small
  set_measure_apdu c = do
    value ← string_of d section (codes ":MEASURE_APDU")
    (if length value == 0
        then ok c
        else (from_hex_small value c.measure_apdu 255 >>= λ r.
            ok (record c { measure_apdu = r.array; measure_apdu_len = r.len })))

  unfoldable pub load_remote : RemoteConfig → Outcome RemoteConfig
  unfolding set_flag set_text set_measure_apdu set_number set_dword
  load_remote c = do
    redirect ← set_flag (codes ":REDIRECT") c.redirect
    every ← set_flag (codes ":NEW_SOCKET_PER_COMMAND") c.open_socket_for_every_command
    prefix ← set_text (codes ":REMOTE_READER_PREFIX") c.remote_reader_prefix
    ip ← set_text (codes ":IP") c.ip
    port ← set_text (codes ":PORT") c.port
    measured ← set_measure_apdu (record c {
      redirect = redirect;
      open_socket_for_every_command = every;
      remote_reader_prefix = prefix;
      ip = ip;
      port = port;
    })
    counter ← set_number (codes ":MEASURE_BYTE_COUNTER") c.measure_apdu_byte_counter
    delay ← set_number (codes ":MEASURE_BYTE_DELAY") c.measure_apdu_byte_delay
    ratio ← set_number (codes ":READ_RATIO") c.read_ratio
    samples ← set_dword (codes ":NUM_SAMPLES") c.num_samples
    ok (record measured {
      measure_apdu_byte_counter = counter;
      measure_apdu_byte_delay = delay;
      read_ratio = ratio;
      num_samples = samples;
    })
