-- ===== src/Readers/Order.antt =====
-- The preferred reader moved to the front.
use apduplay.Base.{
  Bytes, List, Text, [], ap, append_assoc, arith, drop, drop-drop, drop-length, drop-suc, false,
  length, length-append, length-drop, length-replicate, le→leb, ok, overwrite, overwrite-eq, pos,
  refl, replicate, set_behind, suc, sym, take, take-append, true, zero, ℕ, ◌++◌, ◌+◌, ◌<◌, ◌∙◌, ◌∷◌,
  ◌≡◌, ◌≤◌,
}
use apduplay.Block.{memcpy, memcpy_to, write_at}
use apduplay.Block.Access.{memcpy-all, memcpy-ok, write_at-ok}
use apduplay.CString.Search.{drop-append}
use apduplay.CString.{text_eq}
use apduplay.Separated.{item_text, items_text}
use apduplay.App.{dword}
use apduplay.Readers.{is_at, minus, move_first, reorder, reorder_from}

pub write_at-behind :
    (s m : Bytes) (x y : ℕ) → write_at (s ++ x ∷ m) (pos (length s)) y ≡ ok (s ++ y ∷ m)
write_at-behind s m x y =
    write_at-ok (s ++ x ∷ m) (length s) y (omega (arith, length-append s (x ∷ m)))
    ∙ ap ok (set_behind s m x y)

memcpy_to-behind :
    (s m source : Bytes) (n offset : ℕ)
    → offset ≡ length s
    → n ≤ length m
    → n ≤ length source
    → memcpy_to (s ++ m) offset source n ≡ ok (s ++ overwrite m (take n source))
unfolding memcpy_to
memcpy_to-behind s m source n offset at fits has =
    let whole : offset + n ≤ length (s ++ m) = omega (arith, length-append s m) in
    rw (le→leb (offset + n) (length (s ++ m)) whole, le→leb n (length source) has)
      (rw at (rw (take-append s m, drop-length s m) refl))

text_eq_refl : (s : Text) → text_eq s s ≡ true
unfolding text_eq
text_eq_refl [] = refl
text_eq_refl (c ∷ s) = ground (arith, text_eq_refl s)

-- The names `before ++ first ++ 0 ∷ after`, with the preferred one in the middle.
module _ (before first after : Bytes) where
  abbrev names : Bytes
  names = before ++ (first ++ 0 ∷ after)

  abbrev rest : Bytes
  rest = drop (suc (length first)) names

  length-names : length names ≡ length before + (length first + suc (length after))
  length-names =
      omega (arith, length-append before (first ++ 0 ∷ after), length-append first (0 ∷ after))

  length-rest : length rest ≡ length before + length after
  length-rest =
      length-drop (suc (length first)) (length before + length after) names
        (omega (arith, length-names))

  drop-rest : drop (length before) rest ≡ after
  drop-rest =
      drop-drop (length before) (suc (length first)) (length before + suc (length first)) names
        (omega arith)
      ∙ (sym (
            drop-drop (suc (length first)) (length before) (length before + suc (length first))
              names refl)
          ∙ (ap (λ l. drop (suc (length first)) l) (drop-length before (first ++ 0 ∷ after))
              ∙ drop-append first 0 after))

  -- The character that stands where the preferred reader's zero goes.
  past : (x : ℕ) × (drop (length first) names ≡ x ∷ rest)
  past = drop-suc (length first) names (omega (arith, length-names))

  copied : memcpy (replicate (length names) 0) names (length names) ≡ ok names
  copied =
      memcpy-all (replicate (length names) 0) names (length names)
        (length-replicate (length names) 0) refl

  moved : memcpy names (drop (length before) names) (length first) ≡ ok (first ++ past.0 ∷ rest)
  moved =
      let cut : drop (length before) names ≡ first ++ 0 ∷ after =
        drop-length before (first ++ 0 ∷ after) in
      rw cut (
        memcpy-ok names (first ++ 0 ∷ after) (length first) (omega (arith, length-names))
          (omega (arith, length-append first (0 ∷ after)))
        ∙ rw (take-append first (0 ∷ after))
            (ap ok (overwrite-eq names first (omega (arith, length-names))) ∙ rw (past.1) refl))

  shifted :
      memcpy_to (first ++ 0 ∷ rest) (length first + 1) names (length before)
      ≡ ok (first ++ 0 ∷ (before ++ after))
  shifted =
      let over : overwrite rest before ≡ before ++ after =
        overwrite-eq rest before (omega (arith, length-rest)) ∙ rw drop-rest refl in
      rw (← append_assoc first (0 ∷ []) rest) (
        memcpy_to-behind (first ++ 0 ∷ []) rest names (length before) (length first + 1)
          (omega (arith, length-append first (0 ∷ []))) (omega (arith, length-rest))
          (omega (arith, length-names))
        ∙ rw (take-append before (first ++ 0 ∷ after))
            (rw over (rw (append_assoc first (0 ∷ []) (before ++ after)) refl)))

  move_first_lem :
      move_first first names (length names) (length before) ≡ ok (first ++ 0 ∷ (before ++ after))
  unfolding move_first
  move_first_lem =
      let result : Bytes = first ++ 0 ∷ (before ++ after) in
      let same : length result ≡ length names = omega (
        arith,
        length-names,
        length-append first (0 ∷ (before ++ after)),
        length-append before after,
      ) in
      rw copied (
        rw moved (
          rw (write_at-behind first rest past.0 0)
            (rw shifted (memcpy-all names result (length names) refl same))))

  -- Positions at which the preferred reader's text does not stand.
  abbrev NotAt : ℕ → Type 0
  NotAt i = text_eq first (take (length first) (drop i names)) ≡ false

  is_at_not : (i : ℕ) → i < length before → NotAt i → is_at first names i ≡ ok false
  unfolding is_at
  is_at_not i h n =
      let inside : i + length first ≤ length names = omega (arith, length-names) in
      rw (le→leb (i + length first) (length names) inside) (ap ok n)

  is_at_there : is_at first names (length before) ≡ ok true
  unfolding is_at
  is_at_there =
      let inside : length before + length first ≤ length names = omega (arith, length-names) in
      rw (le→leb (length before + length first) (length names) inside) (
        rw (drop-length before (first ++ 0 ∷ after))
          (rw (take-append first (0 ∷ after)) (ap ok (text_eq_refl first))))

  reorder_from-found :
      (k i d : ℕ)
      → i + d ≡ length before
      → d < k
      → ((j : ℕ) → j < length before → NotAt j)
      → reorder_from k first names (length names) i ≡ ok (first ++ 0 ∷ (before ++ after))
  unfolding reorder_from
  reorder_from-found zero i d e h none_before = absurd (omega arith)
  reorder_from-found (suc k) i zero e h none_before =
      let here : i ≡ length before = omega arith in
      let found : is_at first names i ≡ ok true = rw here is_at_there in
      rw found (rw here move_first_lem)
  reorder_from-found (suc k) i (suc d) e h none_before =
      rw (is_at_not i (omega arith) (none_before i (omega arith)))
        (reorder_from-found k (i + 1) d (omega arith) (omega arith) none_before)

reorder-found :
    (before after : Bytes) (c : ℕ) (cs : Text)
    → length (names before (c ∷ cs) after) < dword
    → ((j : ℕ) → j < length before → NotAt before (c ∷ cs) after j)
    → reorder (c ∷ cs) (names before (c ∷ cs) after) (length (names before (c ∷ cs) after))
      ≡ ok ((c ∷ cs) ++ 0 ∷ (before ++ after))
unfolding reorder
reorder-found before after c cs small none_before =
    reorder_from-found before (c ∷ cs) after
      (minus (length (names before (c ∷ cs) after)) (length (c ∷ cs))) 0 (length before)
      (omega arith) (omega (arith, length-names before (c ∷ cs) after)) none_before

pub items_text-append :
    (sep : ℕ) (vs ws : List Text)
    → items_text sep (vs ++ ws) ≡ items_text sep vs ++ items_text sep ws
items_text-append sep [] ws = refl
items_text-append sep (v ∷ vs) ws =
    ap (λ s. item_text sep v ++ s) (items_text-append sep vs ws)
    ∙ sym (append_assoc (item_text sep v) (items_text sep vs) (items_text sep ws))

-- The readers as they stand in the buffer: every name with a zero, and one more zero.
abbrev pub multi_string : List Text → Bytes
multi_string vs = items_text 0 vs ++ 0 ∷ []

multi_string-middle :
    (pre post : List Text) (c : ℕ) (cs : Text)
    → multi_string (pre ++ (c ∷ cs) ∷ post) ≡ names (items_text 0 pre) (c ∷ cs) (multi_string post)
multi_string-middle pre post c cs =
    ap (λ s. s ++ 0 ∷ []) (items_text-append 0 pre ((c ∷ cs) ∷ post))
    ∙ (append_assoc (items_text 0 pre) (items_text 0 ((c ∷ cs) ∷ post)) (0 ∷ [])
        ∙ ap (λ s. items_text 0 pre ++ s)
            (append_assoc (item_text 0 (c ∷ cs)) (items_text 0 post) (0 ∷ [])
              ∙ append_assoc (c ∷ cs) (0 ∷ []) (multi_string post)))

-- In a buffer of readers the preferred one is moved to the front and the others keep their order, if
-- its text stands nowhere before its own place.
pub reorder-multi_string :
    (pre post : List Text) (c : ℕ) (cs : Text)
    → length (multi_string (pre ++ (c ∷ cs) ∷ post)) < dword
    → ((j : ℕ)
        → j < length (items_text 0 pre)
        → text_eq (c ∷ cs) (take (length (c ∷ cs)) (drop j (multi_string (pre ++ (c ∷ cs) ∷ post))))
          ≡ false)
    → reorder
        (c ∷ cs)
        (multi_string (pre ++ (c ∷ cs) ∷ post))
        (length (multi_string (pre ++ (c ∷ cs) ∷ post)))
      ≡ ok (multi_string ((c ∷ cs) ∷ (pre ++ post)))
reorder-multi_string pre post c cs =
    let result : (c ∷ cs) ++ 0 ∷ (items_text 0 pre ++ multi_string post)
        ≡ multi_string ((c ∷ cs) ∷ (pre ++ post)) =
      ap (λ s. (c ∷ cs) ++ 0 ∷ s)
        (sym (append_assoc (items_text 0 pre) (items_text 0 post) (0 ∷ []))
          ∙ ap (λ s. s ++ 0 ∷ []) (sym (items_text-append 0 pre post)))
      ∙ (sym (append_assoc (c ∷ cs) (0 ∷ []) (multi_string (pre ++ post)))
          ∙ sym (append_assoc (item_text 0 (c ∷ cs)) (items_text 0 (pre ++ post)) (0 ∷ []))) in
    rw (multi_string-middle pre post c cs) λ small none_before.
      reorder-found (items_text 0 pre) (multi_string post) c cs small none_before ∙ ap ok result
