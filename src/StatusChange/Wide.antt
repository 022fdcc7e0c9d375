-- ===== src/StatusChange/Wide.antt =====
-- The variant on wide characters against the other, and its buffer for the name.
use apduplay.Base.{
  All, Bool-cases, Bytes, List, Text, [], ap, append-nil, arith, false, fault, if◌then◌else◌, inl,
  inr, length, ltb, map, ok, out_of_bounds, overwrite, refl, replicate, suc, take-all, true, zero,
  ℕ, ◌%◌, ◌++◌, ◌-◌, ◌<◌, ◌==◌, ◌∙◌, ◌∷◌, ◌≡◌, ◌≤◌,
}
use apduplay.CString.{c_string}
use apduplay.Cards.{is_remote_reader}
use apduplay.Status.{scard_f_internal_error}
use apduplay.Originals.{Slots, original_get_status_change_w}
use apduplay.App.{App}
use apduplay.Block.Access.{memcpy-ok}
use apduplay.Forwarding.{Library}
use apduplay.StatusChange.{
  ReaderState, name_capacity, narrow_name, original_states, scard_get_status_change_a,
  scard_get_status_change_w, wide_states,
}

-- A character that a byte holds, and not the end of a string.
abbrev pub IsNarrow : ℕ → Type 0
IsNarrow c = (0 < c) × (c < 256)

low_bytes : (name : Text) → All IsNarrow name → map (λ c. c % 256) name ≡ name
low_bytes [] h = refl
low_bytes (c ∷ cs) (h, hs) =
    ap (λ d. d ∷ map (λ c. c % 256) cs) (omega arith) ∙ ap (λ ds. c ∷ ds) (low_bytes cs hs)

-- The name in front of zeros is read back; with nothing behind it the end is not found.
c_string-zero : (name zeros : Bytes) → All IsNarrow name → c_string (name ++ (0 ∷ zeros)) ≡ ok name
unfolding c_string
c_string-zero [] zeros h = refl
c_string-zero (c ∷ cs) zeros (h, hs) = ground (arith, c_string-zero cs zeros hs)

c_string-unended : (name : Bytes) → All IsNarrow name → c_string name ≡ fault out_of_bounds
unfolding c_string
c_string-unended [] h = refl
c_string-unended (c ∷ cs) (h, hs) = ground (arith, c_string-unended cs hs)

overwrite-replicate :
    (n : ℕ) (name : Bytes)
    → length name ≤ n
    → overwrite (replicate n 0) name ≡ name ++ replicate (n - length name) 0
overwrite-replicate zero [] h = refl
overwrite-replicate (suc n) [] h = let whole : suc n - 0 ≡ suc n = omega arith in rw whole refl
overwrite-replicate zero (c ∷ cs) h = absurd (omega arith)
overwrite-replicate (suc n) (c ∷ cs) h =
    let less : suc n - suc (length cs) ≡ n - length cs = omega arith in
    rw less (ap (λ t. c ∷ t) (overwrite-replicate n cs (omega arith)))

-- The buffer holds the name and zeros behind it.
narrow_name-buffer :
    (name : Text)
    → All IsNarrow name
    → length name ≤ name_capacity
    → narrow_name name ≡ c_string (name ++ replicate (name_capacity - length name) 0)
unfolding narrow_name
narrow_name-buffer name h fits = rw (low_bytes name h) (
    rw (memcpy-ok (replicate name_capacity 0) name (length name) fits (omega arith)) (
      rw (take-all (length name) name refl)
        (rw (overwrite-replicate name_capacity name fits) refl)))

narrow_name-short :
    (name : Text) → All IsNarrow name → length name < name_capacity → narrow_name name ≡ ok name
narrow_name-short name h short =
    let one_more : name_capacity - length name ≡ suc (name_capacity - length name - 1) =
      omega arith in
    narrow_name-buffer name h (omega arith)
    ∙ rw one_more (c_string-zero name (replicate (name_capacity - length name - 1) 0) h)

narrow_name-full :
    (name : Text)
    → All IsNarrow name
    → length name ≡ name_capacity
    → narrow_name name ≡ fault out_of_bounds
narrow_name-full name h full =
    let none_left : name_capacity - length name ≡ 0 = omega arith in
    narrow_name-buffer name h (omega arith)
    ∙ rw none_left (rw (append-nil name) (c_string-unended name h))

module _ (library : Library)
    (ask_states : library.Function
      → library.World
      → ℕ
      → ℕ
      → List ReaderState
      → ℕ
      → library.World × ℕ × List ReaderState)
    (app : App) (slots : Slots (library.Function)) (w : library.World)
    (h_context timeout readers : ℕ) (first : ReaderState) (rest : List ReaderState)
    (narrow : All IsNarrow first.reader) where
  -- For a name of fewer than 1000 characters, each the code of a byte, the variant on wide characters
  -- does what the other does for a virtual reader, and for any other it calls its own function of
  -- the original library.
  pub scard_get_status_change_w-short :
      length first.reader < name_capacity
      → scard_get_status_change_w library ask_states app slots w h_context timeout
          (first ∷ rest)
          readers
        ≡ (if is_remote_reader app first.reader
            then scard_get_status_change_a library ask_states app slots w h_context timeout
                (first ∷ rest)
                readers
            else original_states library ask_states app slots w original_get_status_change_w
                h_context timeout
                (first ∷ rest)
                readers)
  unfolding scard_get_status_change_w scard_get_status_change_a wide_states
  scard_get_status_change_w-short short =
      let fits : ltb name_capacity (length first.reader) ≡ false = ground arith in
      rw fits (
        rw (narrow_name-short first.reader narrow short)
          (elim (Bool-cases (is_remote_reader app first.reader)) [
            | inl e ↦ rw (e, wide_states) refl
            | inr e ↦ rw (e, wide_states) refl
          ]))

  -- A name of 1000 such characters leaves no room in the buffer for the end of the string, so that it is
  -- read past its end; a longer name is refused with SCARD_F_INTERNAL_ERROR, and nothing is changed.
  pub scard_get_status_change_w-long :
      name_capacity ≤ length first.reader
      → scard_get_status_change_w library ask_states app slots w h_context timeout
          (first ∷ rest)
          readers
        ≡ (if length first.reader == name_capacity
            then fault out_of_bounds
            else ok (w, scard_f_internal_error, first ∷ rest))
  unfolding scard_get_status_change_w
  scard_get_status_change_w-long long = elim (Bool-cases (length first.reader == name_capacity)) [
    | inl e ↦
        let fits : ltb name_capacity (length first.reader) ≡ false = ground arith in
        rw (e, fits) (rw (narrow_name-full first.reader narrow (ground arith)) refl)
    | inr e ↦
        let over : ltb name_capacity (length first.reader) ≡ true = ground arith in
        rw (e, over) refl
  ]
