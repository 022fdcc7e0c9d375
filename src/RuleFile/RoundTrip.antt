-- ===== src/RuleFile/RoundTrip.antt =====
-- A match line in the documented form, and the elementary rules that it makes.
use apduplay.Base.{
  All, All-append, Bytes, IsByte, List, Outcome, Text, [], ap, append-nil, append_assoc, arith,
  codes, drop-length, false, if◌then◌else◌, length, map, ok, pos, refl, suc, sym, take, true, ℕ, ℤ,
  ◌++◌, ◌+◌, ◌<◌, ◌>>=◌, ◌^◌, ◌∙◌, ◌∷◌, ◌≡◌, ◌≢◌,
}
use apduplay.CString.Search.{drop-append, find-char, find-prefix}
use apduplay.Decimal.{decimal}
use apduplay.Decimal.RoundTrip.{IsDigit, decimal-digits, strtol-decimal_then}
use apduplay.CString.{compare_with_no_case, find}
use apduplay.Hex.{hex_byte, hex_num_to_byte}
use apduplay.Hex.RoundTrip.{hex_byte-hex_num}
use apduplay.Rules.{SingleRule}
use apduplay.RuleFile.Line.{
  Loaded, cut_setting, elem_name, elem_value, erase_to_comma, load_byte, load_data, load_header,
  load_match_line, load_match_part, load_match_parts, match_offset, parts, push,
}

-- The elements of a command's header that a line can name.
pub data Field : Type 0 where
  cla ins p1 p2 lc : Field

abbrev pub field_name : Field → Text
field_name cla = codes "CLA"
field_name ins = codes "INS"
field_name p1 = codes "P1"
field_name p2 = codes "P2"
field_name lc = codes "LC"

-- The place of the byte in the command.
abbrev pub field_index : Field → ℕ
field_index cla = 0
field_index ins = 1
field_index p1 = 2
field_index p2 = 3
field_index lc = 4

abbrev pub field_text : Field × ℕ → Text
field_text e = field_name (e.0) ++ b'=' ∷ (hex_byte (e.1) ++ b',' ∷ [])

abbrev pub NoComma : Text → Type 0
NoComma = All (λ d. d ≢ b',')

-- The elements, each with its comma, and what is behind the last comma.
abbrev pub fields_text : List (Field × ℕ) → Text → Text
fields_text [] rest = rest
fields_text (e ∷ es) rest = field_text e ++ fields_text es rest

-- `t=<history>,in=<direction>,` and the elements.
abbrev pub line_text : ℕ → ℕ → List (Field × ℕ) → Text → Text
line_text history direction es rest =
    codes "t="
    ++ (decimal history
        ++ b',' ∷ (codes "in=" ++ (decimal direction ++ b',' ∷ fields_text es rest)))

-- The elementary rule for an element.
abbrev pub field_rule : ℤ → ℤ → Field × ℕ → SingleRule
field_rule history direction e = record {
  valid = true;
  history = history;
  apdu_direction = direction;
  element = pos (field_index (e.0));
  value = e.1;
}

abbrev pub IsField : Field × ℕ → Type 0
IsField e = IsByte (e.1)

hex_byte-NoComma : (b : ℕ) → IsByte b → NoComma (hex_byte b)
hex_byte-NoComma b h = ground arith

parts-field :
    (e : Field × ℕ) (rest : Text)
    → IsField e
    → parts [] (field_text e ++ rest) ≡ field_text e ∷ parts [] rest
unfolding parts
parts-field (cla, b) rest h = ground arith
parts-field (ins, b) rest h = ground arith
parts-field (p1, b) rest h = ground arith
parts-field (p2, b) rest h = ground arith
parts-field (lc, b) rest h = ground arith

name-field : (e : Field × ℕ) → elem_name (field_text e) ≡ field_name (e.0)
unfolding elem_name find
name-field (cla, b) = refl
name-field (ins, b) = refl
name-field (p1, b) = refl
name-field (p2, b) = refl
name-field (lc, b) = refl

value-field : (e : Field × ℕ) → take 2 (elem_value (field_text e)) ≡ hex_byte (e.1)
unfolding elem_value find
value-field (cla, b) = refl
value-field (ins, b) = refl
value-field (p1, b) = refl
value-field (p2, b) = refl
value-field (lc, b) = refl

field-not_data : (f : Field) → compare_with_no_case (take 4 (field_name f)) (codes "DATA") ≡ false
unfolding compare_with_no_case
field-not_data cla = refl
field-not_data ins = refl
field-not_data p1 = refl
field-not_data p2 = refl
field-not_data lc = refl

load_data-other :
    (stack : Bytes) (offset : Outcome ℤ) (part : Text) (f : Field) (l : Loaded)
    → elem_name part ≡ field_name f
    → load_data stack offset part l ≡ ok l
unfolding load_data
load_data-other stack offset part f l h = rw h (rw (field-not_data f) refl)

-- What is used of a part: its name and its byte.
module _ (part : Text) (b : ℕ) (value : hex_num_to_byte (take 2 (elem_value part)) ≡ b) where
  load_byte-part :
      (own name : Text) (element : ℕ) (l : Loaded)
      → elem_name part ≡ own
      → load_byte name element part l
        ≡ (if compare_with_no_case own name then push (pos element) b l else l)
  unfolding load_byte
  load_byte-part own name element l h = rw (h, value) refl

  load_header-part :
      (f : Field) (l : Loaded)
      → elem_name part ≡ field_name f
      → load_header part l ≡ push (pos (field_index f)) b l
  unfolding load_header compare_with_no_case
  load_header-part cla l h = rw (load_byte-part (codes "CLA") (codes "CLA") 0 l h) (
      rw (load_byte-part (codes "CLA") (codes "INS") 1 (push (pos 0) b l) h) (
        rw (load_byte-part (codes "CLA") (codes "P1") 2 (push (pos 0) b l) h) (
          rw (load_byte-part (codes "CLA") (codes "P2") 3 (push (pos 0) b l) h)
            (rw (load_byte-part (codes "CLA") (codes "LC") 4 (push (pos 0) b l) h) (refl)))))
  load_header-part ins l h = rw (load_byte-part (codes "INS") (codes "CLA") 0 l h) (
      rw (load_byte-part (codes "INS") (codes "INS") 1 l h) (
        rw (load_byte-part (codes "INS") (codes "P1") 2 (push (pos 1) b l) h) (
          rw (load_byte-part (codes "INS") (codes "P2") 3 (push (pos 1) b l) h)
            (rw (load_byte-part (codes "INS") (codes "LC") 4 (push (pos 1) b l) h) (refl)))))
  load_header-part p1 l h = rw (load_byte-part (codes "P1") (codes "CLA") 0 l h) (
      rw (load_byte-part (codes "P1") (codes "INS") 1 l h) (
        rw (load_byte-part (codes "P1") (codes "P1") 2 l h) (
          rw (load_byte-part (codes "P1") (codes "P2") 3 (push (pos 2) b l) h)
            (rw (load_byte-part (codes "P1") (codes "LC") 4 (push (pos 2) b l) h) (refl)))))
  load_header-part p2 l h = rw (load_byte-part (codes "P2") (codes "CLA") 0 l h) (
      rw (load_byte-part (codes "P2") (codes "INS") 1 l h) (
        rw (load_byte-part (codes "P2") (codes "P1") 2 l h) (
          rw (load_byte-part (codes "P2") (codes "P2") 3 l h)
            (rw (load_byte-part (codes "P2") (codes "LC") 4 (push (pos 3) b l) h) (refl)))))
  load_header-part lc l h = rw (load_byte-part (codes "LC") (codes "CLA") 0 l h) (
      rw (load_byte-part (codes "LC") (codes "INS") 1 l h) (
        rw (load_byte-part (codes "LC") (codes "P1") 2 l h) (
          rw (load_byte-part (codes "LC") (codes "P2") 3 l h)
            (rw (load_byte-part (codes "LC") (codes "LC") 4 l h) (refl)))))

  load_match_part-part :
      (stack : Bytes) (f : Field) (l : Loaded)
      → elem_name part ≡ field_name f
      → load_match_part stack part l ≡ ok (push (pos (field_index f)) b l)
  unfolding load_match_part
  load_match_part-part stack f l h = rw (load_header-part f l h) (
      load_data-other stack (match_offset (elem_name part)) part f (push (pos (field_index f)) b l)
        h)

load_match_parts-cons :
    (stack : Bytes) (e : Field × ℕ) (rest : Text) (l : Loaded)
    → IsField e
    → load_match_parts stack (parts [] (field_text e ++ rest)) l
      ≡ load_match_parts stack (parts [] rest) (push (pos (field_index e.0)) e.1 l)
unfolding load_match_parts
load_match_parts-cons stack e rest l h = rw (parts-field e rest h) (
    rw
      (load_match_part-part (field_text e) e.1
        (ap hex_num_to_byte (value-field e) ∙ hex_byte-hex_num e.1 h) stack e.0 l (name-field e))
      refl)

parts-NoComma : (part s : Text) → NoComma s → parts part s ≡ []
unfolding parts
parts-NoComma part [] h = refl
parts-NoComma part (c ∷ s) h = ground (arith, parts-NoComma (part ++ c ∷ []) s h.1, h.0)

load_match_parts-fields :
    (stack : Bytes) (es : List (Field × ℕ)) (rest : Text) (l : Loaded)
    → All IsField es
    → NoComma rest
    → load_match_parts stack (parts [] (fields_text es rest)) l >>= (λ r. ok r.rules)
      ≡ ok (l.rules ++ map (field_rule l.single.history l.single.apdu_direction) es)
unfolding load_match_parts push
load_match_parts-fields stack [] rest l h n =
    rw (parts-NoComma [] rest n) (ap ok (sym (append-nil l.rules)))
load_match_parts-fields stack (e ∷ es) rest l h n =
    let l' = push (pos (field_index e.0)) e.1 l in
    rw (load_match_parts-cons stack e (fields_text es rest) l h.0) (
      load_match_parts-fields stack es rest l' h.1 n
      ∙ ap ok (
          append_assoc l.rules (field_rule l.single.history l.single.apdu_direction e ∷ [])
            (map (field_rule l.single.history l.single.apdu_direction) es)))

erase_to_comma-head : (p rest : Text) → NoComma p → erase_to_comma 0 (p ++ b',' ∷ rest) ≡ rest
unfolding erase_to_comma
erase_to_comma-head p rest h =
    let place : 0 + length p + 1 ≡ suc (length p) = omega arith in
    rw (find-char b',' p rest h, erase_to_comma) (rw place (drop-append p b',' rest))

All-digit-NoComma : (s : Text) → All IsDigit s → NoComma s
All-digit-NoComma [] h = tt
All-digit-NoComma (c ∷ s) h = (omega arith, All-digit-NoComma s h.1)

-- A setting at the head of a line is read, and cut out with its comma.
module _ (c : ℕ) (what : Text) (no_comma : NoComma (c ∷ what)) where
  cut_setting-head :
      (old : ℤ) (n : ℕ) (rest : Text)
      → n < 2 ^ 31
      → cut_setting (c ∷ what) old (c ∷ (what ++ (decimal n ++ b',' ∷ rest))) ≡ (pos n, rest)
  unfolding cut_setting
  cut_setting-head old n rest h =
      let erased : erase_to_comma 0 (c ∷ (what ++ (decimal n ++ b',' ∷ rest))) ≡ rest =
        ap (λ s. erase_to_comma 0 (c ∷ s)) (sym (append_assoc what (decimal n) (b',' ∷ rest)))
        ∙ erase_to_comma-head (c ∷ (what ++ decimal n)) rest (
            All-append (λ d. d ≢ b',') (c ∷ what) (decimal n) no_comma
              (All-digit-NoComma (decimal n) (decimal-digits n))) in
      let place : 0 + suc (length what) ≡ suc (length what) = omega arith in
      rw (find-prefix c what (decimal n ++ b',' ∷ rest), cut_setting)
        (rw place (
          rw (drop-length what (decimal n ++ b',' ∷ rest))
            (rw (strtol-decimal_then n (b',' ∷ rest) h (omega arith)) (rw erased refl))))

fields_text-append :
    (es : List (Field × ℕ)) (rest more : Text)
    → fields_text es rest ++ more ≡ fields_text es (rest ++ more)
fields_text-append [] rest more = refl
fields_text-append (e ∷ es) rest more =
    append_assoc (field_text e) (fields_text es rest) more
    ∙ ap (λ s. field_text e ++ s) (fields_text-append es rest more)

line_text-append :
    (history direction : ℕ) (es : List (Field × ℕ)) (rest more : Text)
    → line_text history direction es rest ++ more ≡ line_text history direction es (rest ++ more)
line_text-append history direction es rest more =
    ap (λ s. codes "t=" ++ s)
      (append_assoc (decimal history)
          (b',' ∷ (codes "in=" ++ (decimal direction ++ b',' ∷ fields_text es rest))) more
        ∙ ap (λ s. decimal history ++ b',' ∷ (codes "in=" ++ s))
            (append_assoc (decimal direction) (b',' ∷ fields_text es rest) more
              ∙ ap (λ s. decimal direction ++ b',' ∷ s) (fields_text-append es rest more)))

load_match_line-cut :
    (stack : Bytes) (value mid tail : Text) (h d : ℤ) (l : Loaded)
    → cut_setting (codes "t=") l.single.history (value ++ codes " ") ≡ (h, mid)
    → cut_setting (codes "in=") l.single.apdu_direction mid ≡ (d, tail)
    → load_match_line stack value l
      ≡ load_match_parts stack
          (parts [] tail)
          (record l { single = record (l.single) { history = h; apdu_direction = d } })
unfolding load_match_line
load_match_line-cut stack value mid tail h d l eh ed = rw (eh, ed) refl

-- A line that names the history element, the direction and the bytes of header elements, with a comma
-- behind each, makes one rule for each of them, in their order, behind the rules that are there; all
-- refer to that element of the history and that direction. What is behind the last comma makes none.
pub load_match_line-line_text :
    (stack : Bytes) (history direction : ℕ) (es : List (Field × ℕ)) (rest : Text) (l : Loaded)
    → history < 2 ^ 31
    → direction < 2 ^ 31
    → All IsField es
    → NoComma rest
    → load_match_line stack (line_text history direction es rest) l >>= (λ r. ok r.rules)
      ≡ ok (l.rules ++ map (field_rule (pos history) (pos direction)) es)
load_match_line-line_text stack history direction es rest l hh hd h n =
    let tail = fields_text es (rest ++ b' ' ∷ []) in
    let after = decimal direction ++ b',' ∷ tail in
    rw
      (load_match_line-cut stack (line_text history direction es rest) (codes "in=" ++ after) tail
        (pos history) (pos direction) l
        (ap (λ s. cut_setting (codes "t=") l.single.history s)
            (line_text-append history direction es rest (b' ' ∷ []))
          ∙ cut_setting-head b't' (codes "=") (omega arith, (omega arith, tt)) l.single.history
              history (codes "in=" ++ after) hh)
        (cut_setting-head b'i' (codes "n=") (omega arith, (omega arith, (omega arith, tt)))
          l.single.apdu_direction direction tail hd))
      (load_match_parts-fields stack es (rest ++ b' ' ∷ [])
        (record l {
          single = record (l.single) { history = pos history; apdu_direction = pos direction };
        })
        h (All-append (λ d. d ≢ b',') rest (b' ' ∷ []) n (omega arith, tt)))
