-- ===== src/RuleFile/Absent.antt =====
-- A section without any of its keys.
use apduplay.Base.{
  Bool, Bool-cases, Text, [], ap, arith, codes, false, inl, inr, length, length-append, lt→ltb, ok,
  pos, refl, take, ℕ, ℤ, ◌++◌, ◌<◌, ◌∙◌, ◌≡◌,
}
use apduplay.App.{App, RemoteConfig, WinscardConfig}
use apduplay.RuleFile.{Dictionary, sec_and_key, string_of}
use apduplay.RuleFile.Settings.{
  load_remote, load_winscard, set_dword, set_flag, set_measure_apdu, set_number, set_text,
  set_virtual_readers,
}
use apduplay.RuleFile.MatchLines.{string_of-ok}
use apduplay.RuleFile.RuleSection.{Stack, load_rule}
use apduplay.CString.{compare_with_no_case}

-- Every lookup gives its last argument.
pub record IsEmpty (d : Dictionary) : Type 0 where
  pub no_booleans : (k : Text) (fallback : ℤ) → d.getboolean k fallback ≡ fallback
  pub no_strings : (k fallback : Text) → d.getstring k fallback ≡ fallback

module _ (d : Dictionary) (section : Text) (e : IsEmpty d) (short : length section < 200) where
  string_of-absent : (key : Text) → length key < 56 → string_of d section key ≡ ok []
  string_of-absent key h =
      string_of-ok d section key (omega arith) ∙ ap ok (e.no_strings (section ++ key) [])

  set_flag-absent :
      (key : Text) (old : Bool) → length key < 56 → set_flag d section key old ≡ ok old
  unfolding set_flag sec_and_key
  set_flag-absent key old h =
      let small : length (section ++ key) < 256 = omega (arith, length-append section key) in
      rw (lt→ltb (length (section ++ key)) 256 small)
        (rw (e.no_booleans (section ++ key) (pos 2)) refl)

  set_text-absent : (key old : Text) → length key < 56 → set_text d section key old ≡ ok old
  unfolding set_text
  set_text-absent key old h = rw (string_of-absent key h) refl

  set_number-absent :
      (key : Text) (old : ℤ) → length key < 56 → set_number d section key old ≡ ok old
  unfolding set_number
  set_number-absent key old h = rw (string_of-absent key h) refl

  set_dword-absent : (key : Text) (old : ℕ) → length key < 56 → set_dword d section key old ≡ ok old
  unfolding set_dword
  set_dword-absent key old h = rw (string_of-absent key h) refl

  set_virtual_readers-absent : (c : WinscardConfig) → set_virtual_readers d section c ≡ ok c
  unfolding set_virtual_readers
  set_virtual_readers-absent c = rw (string_of-absent (codes ":VIRTUAL_READERS") (omega arith)) refl

  set_measure_apdu-absent : (c : RemoteConfig) → set_measure_apdu d section c ≡ ok c
  unfolding set_measure_apdu
  set_measure_apdu-absent c = rw (string_of-absent (codes ":MEASURE_APDU") (omega arith)) refl

  load_winscard-absent : (c : WinscardConfig) → load_winscard d section c ≡ ok c
  unfolding load_winscard
  load_winscard-absent c =
      rw (set_flag-absent (codes ":AUTO_REQUEST_DATA") c.auto_request_data (omega arith)) (
        rw
          (set_flag-absent (codes ":FORCE_CONNECT_SHARED_MODE") c.force_connect_shared_mode
            (omega arith))
          (rw
            (set_flag-absent (codes ":FORCE_APDU_NONZERO_INPUT_DATA")
              c.force_apdu_nonzero_input_data (omega arith))
            (rw (set_flag-absent (codes ":LOG_EXCHANGED_APDU") c.log_exchanged_apdu (omega arith)) (
              rw (set_text-absent (codes ":LOG_BASE_PATH") c.log_base_path (omega arith)) (
                rw
                  (set_flag-absent (codes ":MODIFY_APDU_BY_RULES") c.modify_apdu_by_rules
                    (omega arith))
                  (rw
                    (set_text-absent (codes ":READER_ORDERED_FIRST") c.reader_ordered_first
                      (omega arith))
                    (set_virtual_readers-absent c)))))))

  load_remote-absent : (c : RemoteConfig) → load_remote d section c ≡ ok c
  unfolding load_remote
  load_remote-absent c = rw (set_flag-absent (codes ":REDIRECT") c.redirect (omega arith)) (
      rw
        (set_flag-absent (codes ":NEW_SOCKET_PER_COMMAND") c.open_socket_for_every_command
          (omega arith))
        (rw (set_text-absent (codes ":REMOTE_READER_PREFIX") c.remote_reader_prefix (omega arith)) (
          rw (set_text-absent (codes ":IP") c.ip (omega arith)) (
            rw (set_text-absent (codes ":PORT") c.port (omega arith)) (
              rw (set_measure_apdu-absent c) (
                rw
                  (set_number-absent (codes ":MEASURE_BYTE_COUNTER") c.measure_apdu_byte_counter
                    (omega arith))
                  (rw
                    (set_number-absent (codes ":MEASURE_BYTE_DELAY") c.measure_apdu_byte_delay
                      (omega arith))
                    (rw (set_number-absent (codes ":READ_RATIO") c.read_ratio (omega arith)) (
                      rw (set_dword-absent (codes ":NUM_SAMPLES") c.num_samples (omega arith))
                        refl)))))))))

  -- A section that is no rule and has none of the keys is read without a fault and leaves the whole state as it
  -- was, also if it is called WINSCARD or REMOTE; its name has less than 200 characters.
  pub load_rule-IsEmpty :
      (fuel : ℕ) (st : Stack) (app : App)
      → compare_with_no_case (take 4 section) (codes "RULE") ≡ false
      → load_rule d section fuel st app ≡ ok app
  unfolding load_rule
  load_rule-IsEmpty fuel st app no_rule = rw (load_winscard-absent app.winscard_config) (
      rw (load_remote-absent app.remote_config) (
        rw no_rule (elim (Bool-cases (compare_with_no_case section (codes "WINSCARD"))) [
          | inl a ↦ rw a (elim (Bool-cases (compare_with_no_case section (codes "REMOTE"))) [
            | inl b ↦ rw b refl
            | inr b ↦ rw b refl
          ])
          | inr a ↦ rw a (elim (Bool-cases (compare_with_no_case section (codes "REMOTE"))) [
            | inl b ↦ rw b refl
            | inr b ↦ rw b refl
          ])
        ])))
