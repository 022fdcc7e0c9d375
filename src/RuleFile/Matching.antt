-- ===== src/RuleFile/Matching.antt =====
-- From the line of the file to the decision on a command: the match rules that are loaded, in the loop
-- of `ApplyRules`.
use apduplay.Base.{
  All, Bool, Bytes, List, Outcome, Text, [], ap, arith, codes, fault, get_or, length, map, ok, pos,
  refl, replicate, suc, true, ℕ, ◌&&◌, ◌++◌, ◌<◌, ◌==◌, ◌>>=◌, ◌^◌, ◌∙◌, ◌∷◌, ◌≡◌, ◌≤◌,
}
use apduplay.Rules.{History, SingleRule, all_match, max_apdu_length}
use apduplay.Rules.Selection.{IsHistory, IsIndex, SafeMatch, all_match-eq, matches}
use apduplay.RuleFile.{Dictionary}
use apduplay.RuleFile.Line.{Loaded}
use apduplay.RuleFile.RoundTrip.{
  Field, IsField, NoComma, cla, field_index, field_rule, ins, lc, line_text, p1, p2,
}
use apduplay.RuleFile.RuleSection.{Stack, load_match_rules}
use apduplay.RuleFile.MatchLines.{load_match_rules-line_text}

-- Whether the command has the bytes of the line at their places.
abbrev pub has_fields : Bytes → List (Field × ℕ) → Bool
has_fields command [] = true
has_fields command (e ∷ es) = get_or command (field_index e.0) 0 == e.1 && has_fields command es

abbrev pub command_at : History → ℕ → Bytes
command_at h i = get_or h.apdu_in_list i (replicate max_apdu_length 0)

IsIndex-field : (f : Field) → IsIndex (pos (field_index f))
IsIndex-field cla = omega arith
IsIndex-field ins = omega arith
IsIndex-field p1 = omega arith
IsIndex-field p2 = omega arith
IsIndex-field lc = omega arith

module _ (h : History) (history : ℕ) (recorded : history ≤ length h.apdu_in_list) where
  SafeMatch-fields :
      (es : List (Field × ℕ)) → All (SafeMatch h) (map (field_rule (pos history) (pos 1)) es)
  SafeMatch-fields [] = tt
  SafeMatch-fields (e ∷ es) =
      (record { element_in = IsIndex-field e.0; refers = recorded }, SafeMatch-fields es)

  matches-fields :
      (es : List (Field × ℕ))
      → matches h (map (field_rule (pos history) (pos 1)) es) ≡ has_fields (command_at h history) es
  matches-fields [] = refl
  matches-fields (e ∷ es) = cc (matches-fields es)

rules-then {ℓ} :
    {A : Type ℓ} (o : Outcome Loaded) (rs : List SingleRule) (next : List SingleRule → Outcome A)
    → o >>= (λ r. ok r.rules) ≡ ok rs
    → o >>= (λ r. next r.rules) ≡ next rs
rules-then (fault why) rs next e = cc
rules-then (ok r) rs next e = cc

-- A section whose line `:MATCH1` names an element of the history, commands, and bytes of header
-- elements, with a comma behind each, is read, and its match rules all hold exactly if that command has
-- those bytes at the places of their elements. The command is one that is recorded, or the place before the oldest;
-- nothing stands under the section's name with MATCH2 put to it.
pub load-all_match :
    (d : Dictionary) (section : Text) (fuel : ℕ) (st : Stack) (h : History) (history : ℕ)
    (es : List (Field × ℕ)) (rest : Text)
    → length section < 200
    → d.getstring (section ++ codes ":MATCH1") [] ≡ line_text history 1 es rest
    → d.getstring (section ++ codes "MATCH2") [] ≡ []
    → history < 2 ^ 31
    → All IsField es
    → NoComma rest
    → IsHistory h
    → history ≤ length h.apdu_in_list
    → load_match_rules d section (suc fuel) st >>= (λ r. all_match fuel h r.rules)
      ≡ ok (has_fields (command_at h history) es)
load-all_match d section fuel st h history es rest short first second hh fs n v recorded =
    rules-then (load_match_rules d section (suc fuel) st)
      (map (field_rule (pos history) (pos 1)) es) (λ rs. all_match fuel h rs)
      (load_match_rules-line_text d section fuel st history 1 es rest short first second hh
        (omega arith) fs n)
    ∙ (all_match-eq fuel h (map (field_rule (pos history) (pos 1)) es) v
          (SafeMatch-fields h history recorded es)
        ∙ ap ok (matches-fields h history recorded es))
