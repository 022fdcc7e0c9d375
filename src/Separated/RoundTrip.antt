-- ===== src/Separated/RoundTrip.antt =====
-- Parsing what was serialised, and parsing a text of names with separators between them.
use apduplay.Base.{
  All, List, Text, [], append-nil, append_assoc, arith, false, length, ok, suc, true, zero, ℕ, ◌++◌,
  ◌+◌, ◌==◌, ◌∙◌, ◌∷◌, ◌≡◌, ◌≢◌,
}
use apduplay.Separated.{
  goes_on, items_text, parse_loop, parse_separated_array, push_item, req_length,
}

-- A name that can stand in an array: not empty, and without the separator.
abbrev pub IsName : ℕ → Text → Type 0
IsName sep [] = ⊥
IsName sep (c ∷ cs) = All (λ x. x ≢ sep) (c ∷ cs)

goes_on-char : (sep c : ℕ) (m : Text) → c ≢ sep → goes_on sep (c ∷ m) ≡ ok true
unfolding goes_on
goes_on-char sep c [] h = ground arith
goes_on-char sep c (d ∷ m) h = ground arith

-- `length run + k`, counted up one by one.
abbrev pub more : Text → ℕ → ℕ
more [] k = k
more (c ∷ run) k = suc (more run k)

pub more-eq : (run : Text) (k : ℕ) → more run k ≡ length run + k
more-eq [] k = omega arith
more-eq (c ∷ run) k = omega (arith, more-eq run k)

-- A run of characters other than the separator goes into the item.
parse_loop-run :
    (sep k : ℕ) (run m item : Text) (values : List Text)
    → All (λ x. x ≢ sep) run
    → parse_loop sep (more run k) (run ++ m) item values ≡ parse_loop sep k m (item ++ run) values
unfolding parse_loop
parse_loop-run sep k [] m item values h = rw (append-nil item)
parse_loop-run sep k (c ∷ run) m item values h =
    let other : (c == sep) ≡ false = ground (arith, h.0) in
    rw (goes_on-char sep c (run ++ m) h.0) (
      rw other (
        parse_loop-run sep k run m (item ++ c ∷ []) values h.1
        ∙ rw (append_assoc item (c ∷ []) run)))

-- A separator with another character behind it ends the item.
parse_loop-sep :
    (sep k d : ℕ) (m item : Text) (values : List Text)
    → d ≢ sep
    → parse_loop sep (suc k) (sep ∷ d ∷ m) item values
      ≡ parse_loop sep k (d ∷ m) [] (push_item item values)
unfolding parse_loop goes_on
parse_loop-sep sep k d m item values h = ground arith

-- Two separators end the array.
parse_loop-end :
    (sep k : ℕ) (m item : Text) (values : List Text)
    → parse_loop sep k (sep ∷ sep ∷ m) item values ≡ ok (push_item item values)
unfolding parse_loop goes_on
parse_loop-end sep zero m item values = ground arith
parse_loop-end sep (suc k) m item values = ground arith

-- A name with its separator before the start of another name.
parse_loop-name :
    (sep k d : ℕ) (m : Text) (name : Text) (values : List Text)
    → IsName sep name
    → d ≢ sep
    → parse_loop sep (more name (suc k)) (name ++ sep ∷ d ∷ m) [] values
      ≡ parse_loop sep k (d ∷ m) [] (values ++ name ∷ [])
parse_loop-name sep k d m [] values h e = absurd h
parse_loop-name sep k d m (c ∷ cs) values h e =
    parse_loop-run sep (suc k) (c ∷ cs) (sep ∷ d ∷ m) [] values h
    ∙ parse_loop-sep sep k d m (c ∷ cs) values e

-- The count of places that an array of names takes, and `k` more.
abbrev places : List Text → ℕ → ℕ
places [] k = k
places (v ∷ vs) k = more v (suc (places vs k))

parse_loop-names :
    (sep k : ℕ) (rest : Text) (v : Text) (vs values : List Text)
    → IsName sep v
    → All (IsName sep) vs
    → parse_loop sep (places (v ∷ vs) k) (items_text sep (v ∷ vs) ++ sep ∷ rest) [] values
      ≡ ok (values ++ v ∷ vs)
parse_loop-names sep k rest [] vs values h hs = absurd h
parse_loop-names sep k rest (c ∷ cs) [] values h hs = simp (append_assoc) (
    parse_loop-run sep (suc k) (c ∷ cs) (sep ∷ sep ∷ rest) [] values h
    ∙ parse_loop-end sep (suc k) rest (c ∷ cs) values)
parse_loop-names sep k rest (c ∷ cs) ([] ∷ vs) values h hs = absurd hs.0
parse_loop-names sep k rest (c ∷ cs) ((d ∷ ds) ∷ vs) values h hs =
    let ih = parse_loop-names sep k rest (d ∷ ds) vs (values ++ (c ∷ cs) ∷ []) hs.0 hs.1 in
    simp (append_assoc) (
      parse_loop-name sep (places ((d ∷ ds) ∷ vs) k) d
        (ds ++ sep ∷ (items_text sep vs ++ sep ∷ rest)) (c ∷ cs) values h hs.0.0
      ∙ (simp (append_assoc) at ih))

places-eq :
    (sep : ℕ) (vs : List Text) (k : ℕ) → All (IsName sep) vs → places vs k ≡ req_length vs + k
places-eq sep [] k h = omega arith
places-eq sep ([] ∷ vs) k h = absurd h.0
places-eq sep ((c ∷ cs) ∷ vs) k h =
    ground (arith, more-eq cs (suc (places vs k)), places-eq sep vs k h.1)

-- What is written for a list of names, with one more separator behind it, is parsed back to the
-- names, for every size that covers the names.
pub parse-items_text :
    (sep extra : ℕ) (rest : Text) (v : Text) (vs values : List Text)
    → IsName sep v
    → All (IsName sep) vs
    → parse_separated_array
        (items_text sep (v ∷ vs) ++ sep ∷ rest)
        (req_length (v ∷ vs) + extra)
        sep
        values
      ≡ ok (values ++ v ∷ vs)
unfolding parse_separated_array
parse-items_text sep extra rest v vs values h hs =
    let size = places-eq sep (v ∷ vs) extra (h, hs) in
    let some_places : (places (v ∷ vs) extra == 0) ≡ false =
      ground (arith, more-eq v (suc (places vs extra))) in
    rw (← size) (rw some_places (parse_loop-names sep extra rest v vs values h hs))
