-- ===== src/Tests/RuleTests.antt =====
-- The rule of the README on the APDU that it is meant for.
use apduplay.Base.{
  All, Bytes, IsByte, [], arith, codes, get_or, if◌then◌else◌, inl, length, ltb, ok, pos, refl,
  replicate, suc, true, zero, ℕ, ◌++◌, ◌<◌, ◌∷◌, ◌≡◌,
}
use apduplay.Rules.{Applied, History, Rule, SingleRule, all_match, apply_rules, input_apdu}
use apduplay.Rules.Selection.{IsHistory, all_match-eq}
use apduplay.Rules.Apply.{IsBuffer, apply_rules-idle, apply_rules-refines, byte_before}
use apduplay.Rules.Writes.{last_byte}
use apduplay.Rules.Refine.{SafeRule, chosen_actions}
use apduplay.Rules.Lookback.{apply_rules-never}

abbrev elem : ℕ → ℕ → SingleRule
elem e v = record {
  valid = true;
  history = pos 0;
  apdu_direction = input_apdu;
  element = pos e;
  value = v;
}

-- MATCH1=in=1,cla=80,ins=ca  ACTION=in=1,ins=cb
abbrev pub readme_rule : Rule
readme_rule = record {
  rule_name = codes "RULE1";
  usage = pos 1;
  direction = input_apdu;
  match_rules = elem 0 0x80 ∷ elem 1 0xca ∷ [];
  action_rules = elem 1 0xcb ∷ [];
  ms_delay = pos 0;
}

abbrev sent : Bytes
sent = 0x80 ∷ 0xca ∷ 0x9f ∷ 0x17 ∷ 0x00 ∷ []

abbrev buffer : Bytes
buffer = sent ++ replicate 295 7

abbrev history : History
history = record { apdu_in_list = (sent ++ replicate 295 0) ∷ []; apdu_out_list = [] }

abbrev stack : Bytes
stack = replicate 300 1

apply_readme :
    apply_rules (λ _. 0) 0 true (readme_rule ∷ []) history stack buffer 5 input_apdu
    ≡ ok
        (record { buffer = 0x80 ∷ 0xcb ∷ 0x9f ∷ 0x17 ∷ 0x00 ∷ replicate 295 7; len = 5; slept = 0 })
unfolding apply_rules
apply_readme = refl

history-IsHistory : IsHistory history
history-IsHistory = record { inputs = (refl, tt); outputs = tt }

readme-SafeRule : SafeRule history readme_rule
readme-SafeRule = record {
  safe_matches = (
    record { element_in = omega arith; refers = omega arith },
    (record { element_in = omega arith; refers = omega arith }, tt),
  );
  safe_actions = omega arith;
  byte_values = omega arith;
  safe_delay = inl refl;
}

all_match-eq_example : all_match 0 history readme_rule.match_rules ≡ ok true
all_match-eq_example =
    all_match-eq 0 history readme_rule.match_rules history-IsHistory readme-SafeRule.safe_matches

pub All-replicate : (n b : ℕ) → b < 256 → All IsByte (replicate n b)
All-replicate zero b h = tt
All-replicate (suc n) b h = (h, All-replicate n b h)

buffer-IsBuffer : IsBuffer buffer 5
buffer-IsBuffer = record {
  roomy = omega arith;
  within = omega arith;
  short = omega arith;
  bytes = (
    omega arith,
    (omega arith, (omega arith, (omega arith, (omega arith, All-replicate 295 7 (omega arith))))),
  );
}

apply_rules-refines_example :
    (r : Applied) × (apply_rules
        (λ _. 0)
        0
        true
        (readme_rule ∷ [])
        history
        stack
        buffer
        5
        input_apdu
      ≡ ok r)
    × (r.len ≡ 5)
    × (length r.buffer ≡ 300)
    × ((i : ℕ)
        → get_or r.buffer i 0 ≡ (
            if ltb i r.len
            then last_byte i
                (chosen_actions history input_apdu (readme_rule ∷ []))
                (byte_before stack buffer 5 i)
            else get_or buffer i 0))
apply_rules-refines_example =
    apply_rules-refines (λ _. 0) 0 (readme_rule ∷ []) history stack buffer 5 input_apdu
      history-IsHistory (readme-SafeRule, tt) refl buffer-IsBuffer

apply_rules-idle_run :
    (r : Applied) × (apply_rules (λ _. 0) 0 true (readme_rule ∷ []) history stack buffer 5 (pos 0)
      ≡ ok r)
    × (r.len ≡ 5)
    × (length r.buffer ≡ 300)
    × ((i : ℕ) → get_or r.buffer i 0 ≡ get_or buffer i 0)
apply_rules-idle_run =
    apply_rules-idle (λ _. 0) 0 (readme_rule ∷ []) history stack buffer 5 (pos 0) history-IsHistory
      (readme-SafeRule, tt) refl buffer-IsBuffer refl

-- t=1,in=0: the response before the newest.
abbrev older : SingleRule
older = record {
  valid = true;
  history = pos 1;
  apdu_direction = pos 0;
  element = pos 0;
  value = 0x90;
}

abbrev older_rule : Rule
older_rule = record readme_rule { match_rules = older ∷ [] }

apply_rules-never_example : ¬ (
    (r : Applied) × (apply_rules
        (λ _. 0)
        1000
        true
        (older_rule ∷ [])
        history
        stack
        buffer
        5
        input_apdu
      ≡ ok r))
apply_rules-never_example =
    apply_rules-never (λ _. 0) 1000 older_rule older [] [] history stack buffer 5 input_apdu refl
      refl refl refl refl
