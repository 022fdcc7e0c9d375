-- ===== src/Tests/RuleFileTests.antt =====
-- A file with one rule that has two match lines, of which the second is not read, nor is what is behind
-- the last comma of the first.
use apduplay.Base.{
  List, [], arith, codes, if◌then◌else◌, map, ok, pos, refl, replicate, true, ℕ, ◌>>=◌, ◌∷◌, ◌≡◌,
}
use apduplay.CString.{compare_with_no_case, text_eq}
use apduplay.Rules.{History, all_match}
use apduplay.RuleFile.{Dictionary}
use apduplay.RuleFile.Absent.{load_rule-IsEmpty}
use apduplay.Tests.TransmitTests.{start}
use apduplay.RuleFile.Line.{load_match_line}
use apduplay.RuleFile.Matching.{load-all_match}
use apduplay.RuleFile.MatchLines.{load_match_rules-line_text}
use apduplay.RuleFile.RoundTrip.{
  Field, NoComma, cla, field_rule, ins, line_text, load_match_line-line_text, p1, p2,
}
use apduplay.RuleFile.RuleSection.{Stack, load_match_rules, load_rule, new_single}

abbrev select_line : List (Field × ℕ)
select_line = (cla, 0x00) ∷ (ins, 0xA4) ∷ []

abbrev file : Dictionary
file = record {
  getboolean = λ k fallback. fallback;
  getstring = λ k fallback.
      if text_eq k (codes "rule1:MATCH1")
      then line_text 0 1 select_line (codes "P1=04")
      else if text_eq k (codes "rule1:MATCH2")
      then line_text 1 1 ((cla, 0x80) ∷ []) []
      else fallback;
}

abbrev stack : Stack
stack = record { data_buffer = replicate 300 7; direction = pos 9 }

abbrev one_select : History
one_select = record { apdu_in_list = (0x00 ∷ 0xA4 ∷ replicate 298 0) ∷ []; apdu_out_list = [] }

p1-NoComma : NoComma (codes "P1=04")
p1-NoComma = (omega arith, (omega arith, (omega arith, (omega arith, (omega arith, tt)))))

-- The line of the README ends with an element and no comma: it makes four rules, none for data0.
readme_line :
    load_match_line
        (replicate 300 7)
        (codes "in=1,cla=80,ins=ca,p1=9f,p2=17,data0=90 00")
        (record { single = new_single (pos 9); rules = [] })
      >>= (λ r. ok r.rules)
    ≡ ok (
        map (field_rule (pos 0) (pos 1)) ((cla, 0x80) ∷ (ins, 0xca) ∷ (p1, 0x9f) ∷ (p2, 0x17) ∷ []))
unfolding load_match_line
readme_line = refl

load_match_line-line_text_run :
    load_match_line
        (replicate 300 7)
        (line_text 0 1 select_line (codes "P1=04"))
        (record { single = new_single (pos 9); rules = [] })
      >>= (λ r. ok r.rules)
    ≡ ok (map (field_rule (pos 0) (pos 1)) select_line)
load_match_line-line_text_run =
    load_match_line-line_text (replicate 300 7) 0 1 select_line (codes "P1=04")
      (record { single = new_single (pos 9); rules = [] }) (omega arith) (omega arith)
      (omega arith, (omega arith, tt)) p1-NoComma

load_match_rules-line_text_example :
    load_match_rules file (codes "rule1") 1 stack >>= (λ r. ok r.rules)
    ≡ ok (map (field_rule (pos 0) (pos 1)) select_line)
unfolding text_eq
load_match_rules-line_text_example =
    load_match_rules-line_text file (codes "rule1") 0 stack 0 1 select_line (codes "P1=04")
      (omega arith) refl refl (omega arith) (omega arith) (omega arith, (omega arith, tt))
      p1-NoComma

load-all_match_example :
    load_match_rules file (codes "rule1") 1 stack >>= (λ r. all_match 0 one_select r.rules)
    ≡ ok true
unfolding text_eq
load-all_match_example =
    load-all_match file (codes "rule1") 0 stack one_select 0 select_line (codes "P1=04")
      (omega arith) refl refl (omega arith) (omega arith, (omega arith, tt)) p1-NoComma
      (record { inputs = (refl, tt); outputs = tt }) (omega arith)

abbrev empty_file : Dictionary
empty_file = record { getboolean = λ k fallback. fallback; getstring = λ k fallback. fallback }

load_rule-IsEmpty_run : load_rule empty_file (codes "winscard") 0 stack start ≡ ok start
unfolding compare_with_no_case
load_rule-IsEmpty_run =
    load_rule-IsEmpty empty_file (codes "winscard")
      (record { no_booleans = λ k fallback. refl; no_strings = λ k fallback. refl }) (omega arith) 0
      stack start refl
