-- ===== src/RuleFile/Line.antt =====
-- One line MATCHn or ACTION of a rule, as `CWinscardApp::LoadRule` (Winscard/Winscard.cpp) reads it: `in=` and
-- `t=` are cut out, then every part that a comma ends makes elementary rules. `int` is not bounded
-- here: the numbers of elements stay far from its limits.
use apduplay.Base.{
  Bool, Bytes, List, Option, Outcome, Text, [], codes, drop, eq_ℤ, false, fault, if◌then◌else◌,
  increment, leb, length, none, ok, pos, some, suc, take, true, uncaught, zero, ℕ, ℤ, ◌&&◌, ◌++◌,
  ◌+◌, ◌==◌, ◌>>=◌, ◌∷◌,
}
use apduplay.Block.{read}
use apduplay.CString.{compare_with_no_case, find, remove, strtol}
use apduplay.Hex.{from_hex, hex_num_to_byte}
use apduplay.Rules.{SingleRule, input_apdu, le_elem, offset_cdata}

-- `s.erase(pos, s.find(",", pos) - pos + 1)`; without a comma the number wraps around, to 0 at
-- position 0 and otherwise to more than there is.
unfoldable pub erase_to_comma : ℕ → Text → Text
unfolding find
erase_to_comma at s = elim (find (codes ",") (drop at s)) [
  | none ↦ if at == 0 then s else take at s
  | some k ↦ take at s ++ drop (at + k + 1) s
]

-- The setting `what` of the line, with the value so far, and the line without it.
unfoldable pub cut_setting : Text → ℤ → Text → ℤ × Text
unfolding find strtol erase_to_comma
cut_setting what old s = elim (find what s) [
  | none ↦ (old, s)
  | some at ↦ (strtol 10 (drop (at + length what) s), erase_to_comma at s)
]

-- `while ((pos = ruleString.find(",", pos2)) != npos)`: the parts, each up to its comma and with it.
-- The first argument is the part so far.
unfoldable pub parts : Text → Text → List Text
parts part [] = []
parts part (c ∷ cs) =
    if c == b',' then (part ++ c ∷ []) ∷ parts [] cs else parts (part ++ c ∷ []) cs

-- `rulePart.substr(0, rulePart.find("="))`
unfoldable pub elem_name : Text → Text
unfolding find
elem_name part = elim (find (codes "=") part) [ none ↦ part | some i ↦ take i part ]

-- `rulePart.substr(rulePart.find("=") + 1)`; `npos + 1` is 0.
unfoldable pub elem_value : Text → Text
unfolding find
elem_value part = elim (find (codes "=") part) [ none ↦ part | some i ↦ drop (i + 1) part ]

-- `singleRule`, and `matchRules` or `actionRules`.
pub record Loaded : Type 0 where
  pub single : SingleRule
  pub rules : List SingleRule

-- `singleRule.element = ..; singleRule.value = ..; singleRule.valid = TRUE; ..push_back(singleRule);`
unfoldable pub push : ℤ → ℕ → Loaded → Loaded
push element value l =
    let s = record (l.single) { element = element; value = value; valid = true } in
    record { single = s; rules = l.rules ++ s ∷ [] }

-- One of the elements with a name and one byte.
unfoldable pub load_byte : Text → ℕ → Text → Loaded → Loaded
unfolding compare_with_no_case elem_name elem_value hex_num_to_byte push
load_byte name element part l =
    if compare_with_no_case (elem_name part) name
    then push (pos element) (hex_num_to_byte (take 2 (elem_value part))) l
    else l

-- The elements CLA, INS, P1, P2 and LC.
unfoldable pub load_header : Text → Loaded → Loaded
unfolding load_byte
load_header part l = load_byte (codes "LC") 4 part (
    load_byte (codes "P2") 3 part (
      load_byte (codes "P1") 2 part
        (load_byte (codes "INS") 1 part (load_byte (codes "CLA") 0 part l))))

-- `a + b` in `int`, for `b` not negative.
pub add_to : ℤ → ℕ → ℤ
add_to z zero = z
add_to z (suc n) = increment (add_to z n)

-- The loop over `dataBuffer`, with the number of bytes still to come and the index of the next.
pub data_loop : ℕ → ℕ → Bytes → ℤ → Loaded → Outcome Loaded
unfolding read add_to push
data_loop zero i buffer offset l = ok l
data_loop (suc n) i buffer offset l = read buffer i >>= λ v.
    data_loop n (i + 1) buffer (increment offset) (
      push (if eq_ℤ l.single.apdu_direction input_apdu then add_to offset offset_cdata else offset)
        v l)

-- `DATA`, whose number the caller has read. `stack` is what `dataBuffer` holds before.
unfoldable pub load_data : Bytes → Outcome ℤ → Text → Loaded → Outcome Loaded
unfolding compare_with_no_case elem_name elem_value remove from_hex data_loop
load_data stack offset part l =
    if compare_with_no_case (take 4 (elem_name part)) (codes "DATA")
    then (offset >>= λ o. from_hex (remove (λ c. c == b',') (elem_value part)) stack 300 >>= λ r.
        data_loop r.len 0 r.array o l)
    else ok l

abbrev is_digit : ℕ → Bool
is_digit c = leb b'0' c && leb c b'9'

-- `s.find_first_of("0123456789")`
pub find_digit : Text → Option ℕ
find_digit [] = none
find_digit (c ∷ cs) =
    if is_digit c then some 0 else elim (find_digit cs) [ none ↦ none | some i ↦ some (i + 1) ]

-- `atoi(elemName.substr(elemName.find_first_of(..), 0))`: no characters of it.
pub match_offset : Text → Outcome ℤ
unfolding find_digit strtol
match_offset name = elim (find_digit name) [
  | none ↦ fault uncaught
  | some i ↦ ok (strtol 10 (take 0 (drop i name)))
]

-- `atoi(elemName.substr(section_name_string.find_first_of(..)))`
pub action_offset : Text → Text → Outcome ℤ
unfolding find_digit strtol
action_offset section name = elim (find_digit section) [
  | none ↦ fault uncaught
  | some i ↦ if leb i (length name) then ok (strtol 10 (drop i name)) else fault uncaught
]

module _ (stack : Bytes) where
  unfoldable pub load_match_part : Text → Loaded → Outcome Loaded
  unfolding elem_name match_offset load_header load_data
  load_match_part part l = load_data stack (match_offset (elem_name part)) part (load_header part l)

  unfoldable pub load_match_parts : List Text → Loaded → Outcome Loaded
  unfolding load_match_part
  load_match_parts [] l = ok l
  load_match_parts (p ∷ ps) l = load_match_part p l >>= λ l'. load_match_parts ps l'

  pub load_action_part : Text → Text → Loaded → Outcome Loaded
  unfolding elem_name action_offset load_header load_byte load_data
  load_action_part section part l =
      load_data stack (action_offset section (elem_name part)) part
        (load_byte (codes "LE") le_elem part (load_header part l))

  pub load_action_parts : Text → List Text → Loaded → Outcome Loaded
  unfolding load_action_part
  load_action_parts section [] l = ok l
  load_action_parts section (p ∷ ps) l =
      load_action_part section p l >>= λ l'. load_action_parts section ps l'

  -- The body of the loop over MATCH1, MATCH2, ..; a space is put at the end of the line.
  unfoldable pub load_match_line : Text → Loaded → Outcome Loaded
  unfolding cut_setting parts load_match_parts
  load_match_line value l =
      let timed = cut_setting (codes "t=") l.single.history (value ++ codes " ") in
      let directed = cut_setting (codes "in=") l.single.apdu_direction timed.1 in
      load_match_parts (parts [] directed.1)
        (record l { single = record (l.single) { history = timed.0; apdu_direction = directed.0 } })

  -- The body of `if (type_length(char_value) != 0)` for ACTION.
  unfoldable pub load_action_line : Text → Text → Loaded → Outcome Loaded
  unfolding cut_setting parts load_action_parts
  load_action_line section value l =
      let directed = cut_setting (codes "in=") l.single.apdu_direction (value ++ codes " ") in
      load_action_parts section (parts [] directed.1) (record l {
        single = record (l.single) {
          valid = false;
          history = pos 0;
          apdu_direction = directed.0;
          element = pos 0;
          value = 0;
        };
      })
