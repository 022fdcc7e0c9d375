-- ===== src/RuleFile/RuleSection.antt =====
-- The section of a rule in `CWinscardApp::LoadRule` (Winscard/Winscard.cpp), and the choice between the kinds
-- of section.
use apduplay.Base.{
  Bytes, List, Outcome, Text, [], codes, false, fault, if◌then◌else◌, length, no_fuel, ok, pos, suc,
  take, true, zero, ℕ, ℤ, ◌++◌, ◌+◌, ◌==◌, ◌>>=◌, ◌∷◌,
}
use apduplay.App.{App}
use apduplay.CString.{compare_with_no_case}
use apduplay.Decimal.{format_d}
use apduplay.Rules.{Rule, SingleRule, input_apdu}
use apduplay.RuleFile.{Dictionary, string_of}
use apduplay.RuleFile.Line.{Loaded, load_action_line, load_match_line}
use apduplay.RuleFile.Settings.{load_remote, load_winscard, set_number}

-- The constructor of `APDU_RULE`.
abbrev pub new_rule : Rule
new_rule = record {
  rule_name = [];
  usage = pos 0;
  direction = input_apdu;
  match_rules = [];
  action_rules = [];
  ms_delay = pos 0;
}

-- The constructor of `APDU_SINGLE_RULE`, which leaves `apduDirection` as it finds it.
abbrev pub new_single : ℤ → SingleRule
new_single direction = record {
  valid = false;
  history = pos 0;
  apdu_direction = direction;
  element = pos 0;
  value = 0;
}

-- What the local variables hold before they are written: `dataBuffer`, `singleRule.apduDirection`.
pub record Stack : Type 0 where
  pub data_buffer : Bytes
  pub direction : ℤ

module _ (d : Dictionary) (section : Text) where
  -- USAGE, APDUIN and DELAY, and the name.
  pub load_head : Outcome Rule
  unfolding set_number
  load_head = do
    usage ← set_number d section (codes ":USAGE") (new_rule.usage)
    direction ← set_number d section (codes ":APDUIN") (new_rule.direction)
    delay ← set_number d section (codes ":DELAY") (new_rule.ms_delay)
    ok (record new_rule {
      usage = usage;
      direction = direction;
      ms_delay = delay;
      rule_name = section;
    })

  -- `while (type_length(char_value) != 0)`, with the counter; the first number is the fuel.
  unfoldable pub load_matches : ℕ → Bytes → ℕ → Text → Loaded → Outcome Loaded
  unfolding load_match_line format_d string_of
  load_matches zero stack counter value l = if length value == 0 then ok l else fault no_fuel
  load_matches (suc f) stack counter value l = elim (length value == 0) [
    | true ↦ ok l
    | false ↦ load_match_line stack value l >>= λ l'.
        string_of d section (codes "MATCH" ++ format_d (counter + 1)) >>= λ next.
        load_matches f stack (counter + 1) next l'
  ]

  -- LOAD MATCH RULES
  unfoldable pub load_match_rules : ℕ → Stack → Outcome Loaded
  unfolding string_of load_matches
  load_match_rules fuel st = do
    value ← string_of d section (codes ":MATCH" ++ format_d 1)
    load_matches fuel (st.data_buffer) 1 value
        (record { single = new_single (st.direction); rules = [] })

  -- LOAD ACTION RULES
  pub load_action_rules : Stack → SingleRule → Outcome (List SingleRule)
  unfolding string_of load_action_line
  load_action_rules st single = do
    value ← string_of d section (codes ":ACTION")
    (if length value == 0
        then ok []
        else (load_action_line (st.data_buffer) section value
              (record { single = single; rules = [] })
            >>= λ l. ok (l.rules)))

  pub load_rule_section : ℕ → Stack → Outcome Rule
  unfolding load_head load_match_rules load_action_rules
  load_rule_section fuel st = do
    head ← load_head
    matched ← load_match_rules fuel st
    actions ← load_action_rules st (matched.single)
    ok (record head { match_rules = matched.rules; action_rules = actions })

  -- `LoadRule`
  unfoldable pub load_rule : ℕ → Stack → App → Outcome App
  unfolding compare_with_no_case load_winscard load_remote load_rule_section
  load_rule fuel st app = do
    config ←
        (if compare_with_no_case section (codes "WINSCARD")
          then load_winscard d section (app.winscard_config)
          else ok (app.winscard_config))
    remote ←
        (if compare_with_no_case section (codes "REMOTE")
          then load_remote d section (app.remote_config)
          else ok (app.remote_config))
    rules ←
        (if compare_with_no_case (take 4 section) (codes "RULE")
          then (load_rule_section fuel st >>= λ r. ok (app.rules_list ++ r ∷ []))
          else ok (app.rules_list))
    ok (record app { winscard_config = config; remote_config = remote; rules_list = rules })

-- The loop of `LoadRules` over the sections.
unfoldable pub load_sections : Dictionary → ℕ → Stack → List Text → App → Outcome App
unfolding load_rule
load_sections d fuel st [] app = ok app
load_sections d fuel st (s ∷ ss) app =
    load_rule d s fuel st app >>= λ app'. load_sections d fuel st ss app'

-- `LoadRules` on a file that was found: the sections, and the rules are on.
unfoldable pub load_found : Dictionary → ℕ → Stack → List Text → App → Outcome App
unfolding load_sections
load_found d fuel st sections app = do
  loaded ← load_sections d fuel st sections app
  ok (record loaded { rules_active = true })
