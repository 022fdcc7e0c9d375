-- ===== src/RuleFile/MatchLines.antt =====
-- Which match lines of a rule's section are read.
use apduplay.Base.{
  >>=-idle, All, Bytes, List, Text, [], arith, codes, false, length, length-append, lt→ltb, map, ok,
  pos, refl, suc, zero, ℕ, ◌++◌, ◌+◌, ◌<◌, ◌==◌, ◌>>=◌, ◌^◌, ◌∷◌, ◌≡◌,
}
use apduplay.Decimal.{decimal, digits_onto, format_d}
use apduplay.RuleFile.{Dictionary, sec_and_key, string_of}
use apduplay.RuleFile.Line.{Loaded, load_match_line}
use apduplay.RuleFile.RoundTrip.{
  Field, IsField, NoComma, field_rule, fields_text, line_text, load_match_line-line_text,
}
use apduplay.RuleFile.RuleSection.{Stack, load_match_rules, load_matches, new_single}

pub string_of-ok :
    (d : Dictionary) (section key : Text)
    → length section + length key < 256
    → string_of d section key ≡ ok (d.getstring (section ++ key) [])
unfolding string_of sec_and_key
string_of-ok d section key h =
    let small : length (section ++ key) < 256 = omega (arith, length-append section key) in
    rw (lt→ltb (length (section ++ key)) 256 small) refl

name_first : codes ":MATCH" ++ format_d 1 ≡ codes ":MATCH1"
unfolding format_d decimal digits_onto
name_first = refl

name_second : codes "MATCH" ++ format_d (1 + 1) ≡ codes "MATCH2"
unfolding format_d decimal digits_onto
name_second = refl

module _ (d : Dictionary) (section : Text) (short : length section < 200) where
  load_matches-last :
      (fuel : ℕ) (stack : Bytes) (counter : ℕ) (l : Loaded)
      → load_matches d section fuel stack counter [] l ≡ ok l
  unfolding load_matches
  load_matches-last zero stack counter l = refl
  load_matches-last (suc fuel) stack counter l = refl

  -- The line after the first is looked up without the colon between section and key.
  load_matches-next :
      (fuel : ℕ) (stack : Bytes) (l : Loaded)
      → d.getstring (section ++ codes "MATCH2") [] ≡ []
      → string_of d section (codes "MATCH" ++ format_d (1 + 1))
          >>= (λ next. load_matches d section fuel stack (1 + 1) next l)
        ≡ ok l
  load_matches-next fuel stack l none_second = rw name_second (
      rw (string_of-ok d section (codes "MATCH2") (omega arith))
        (rw none_second (load_matches-last fuel stack (1 + 1) l)))

  load_matches-first :
      (fuel : ℕ) (stack : Bytes) (c : ℕ) (value : Text) (l : Loaded)
      → d.getstring (section ++ codes "MATCH2") [] ≡ []
      → load_matches d section (suc fuel) stack 1 (c ∷ value) l
        ≡ load_match_line stack (c ∷ value) l
  unfolding load_matches
  load_matches-first fuel stack c value l none_second =
      let some_text : (length (c ∷ value) == 0) ≡ false = ground arith in
      rw (some_text, load_matches)
        (>>=-idle (load_match_line stack (c ∷ value) l)
          (λ l'. string_of d section (codes "MATCH" ++ format_d (1 + 1)) >>= λ next.
            load_matches d section fuel stack (1 + 1) next l')
          (λ l'. load_matches-next fuel stack l' none_second))

-- A section whose line `:MATCH1` names the history element, the direction and bytes of header elements,
-- with a comma behind each, makes one match rule for each of these elements and no others, whatever
-- is behind the last comma and whatever stands under `:MATCH2` and after it, as long as there is
-- nothing under the key without a colon, the section's name with MATCH2 put to it.
pub load_match_rules-line_text :
    (d : Dictionary) (section : Text) (fuel : ℕ) (st : Stack) (history direction : ℕ)
    (es : List (Field × ℕ)) (rest : Text)
    → length section < 200
    → d.getstring (section ++ codes ":MATCH1") [] ≡ line_text history direction es rest
    → d.getstring (section ++ codes "MATCH2") [] ≡ []
    → history < 2 ^ 31
    → direction < 2 ^ 31
    → All IsField es
    → NoComma rest
    → load_match_rules d section (suc fuel) st >>= (λ r. ok r.rules)
      ≡ ok (map (field_rule (pos history) (pos direction)) es)
unfolding load_match_rules
load_match_rules-line_text d section fuel st history direction es rest short first second hh hd h
      n =
    let start : Loaded = record { single = new_single (st.direction); rules = [] } in
    rw name_first (
      rw (string_of-ok d section (codes ":MATCH1") (omega arith)) (
        rw first (
          rw
            (load_matches-first d section short fuel (st.data_buffer) b't'
              (b'='
                ∷ (decimal history
                    ++ b',' ∷ (codes "in=" ++ (decimal direction ++ b',' ∷ fields_text es rest))))
              start second)
            (load_match_line-line_text (st.data_buffer) history direction es rest start hh hd h
              n))))
