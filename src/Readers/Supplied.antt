-- ===== src/Readers/Supplied.antt =====
-- `SCardListReaders` with a buffer of the caller's, over a library that has the readers `real`.
use apduplay.Base.{
  All, All-append, Bytes, List, Text, [], ap, append_assoc, arith, drop, drop-length, drop-suc,
  false, length, length-append, length-drop, length-overwrite, length-replicate, ltb, lt→ltb, none,
  ok, overwrite, overwrite-eq, refl, replicate, some, sym, take-all, take-append, true, ℕ, ◌%◌,
  ◌++◌, ◌+◌, ◌-◌, ◌<◌, ◌==◌, ◌∙◌, ◌∷◌, ◌≡◌, ◌≤◌,
}
use apduplay.Block.Access.{memcpy-ok}
use apduplay.Block.{memcpy}
use apduplay.Status.{scard_e_insufficient_buffer, scard_s_success}
use apduplay.Separated.RoundTrip.{IsName, parse-items_text}
use apduplay.Separated.{items_text, parse_separated_array, req_length, serialize_as_separated_array}
use apduplay.Separated.Sizes.{length-items_text, serialize-fits}
use apduplay.App.{App, Outside, dword}
use apduplay.Readers.{append_virtual, failed, fill, minus, supplied}
use apduplay.Readers.Order.{items_text-append, multi_string, write_at-behind}

pub length-multi_string : (vs : List Text) → length (multi_string vs) ≡ req_length vs + 1
length-multi_string vs =
    omega (arith, length-append (items_text 0 vs) (0 ∷ []), length-items_text 0 vs)

-- Virtual readers behind the real ones: over the zero that ended those.
pub append_virtual-behind :
    (real virt : List Text) (spare : Bytes) (n lv : ℕ)
    → n ≡ req_length real + 1
    → lv ≡ req_length virt
    → n + lv < dword
    → lv ≤ length spare
    → append_virtual virt (items_text 0 real ++ 0 ∷ spare) n lv
      ≡ ok (items_text 0 (real ++ virt) ++ 0 ∷ drop lv spare, n + lv)
unfolding append_virtual
append_virtual-behind real virt spare n lv en ev small room =
    let a : Bytes = items_text 0 real in
    let text : Bytes = items_text 0 virt in
    let some_real : ltb 0 n ≡ true = ground arith in
    let not_none : (n == 0) ≡ false = ground arith in
    let place : n - 1 ≡ length a = omega (arith, length-items_text 0 real) in
    let last : minus (n + lv) 1 ≡ length (a ++ text) =
      omega (arith, length-append a text, length-items_text 0 real, length-items_text 0 virt) in
    let within : (n + lv) % dword ≡ n + lv = omega arith in
    let past = drop-suc lv (0 ∷ spare) (omega arith) in
    let over : overwrite (0 ∷ spare) text ≡ text ++ past.0 ∷ drop lv spare =
      overwrite-eq (0 ∷ spare) text (omega (arith, length-items_text 0 virt))
      ∙ ap (λ l. text ++ l)
          (ap (λ k. drop k (0 ∷ spare)) (length-items_text 0 virt ∙ sym ev) ∙ past.1) in
    let written : serialize_as_separated_array virt 0 (some (0 ∷ spare)) lv
        ≡ ok (record { status = 0; array = some (overwrite (0 ∷ spare) text); array_size = lv }) =
      rw ev (serialize-fits virt 0 (0 ∷ spare) (omega arith)) in
    let result : (a ++ text) ++ 0 ∷ drop lv spare
        ≡ items_text 0 (real ++ virt) ++ 0 ∷ drop lv spare =
      ap (λ s. s ++ 0 ∷ drop lv spare) (sym (items_text-append 0 real virt)) in
    rw (some_real, place)
      (rw (take-append a (0 ∷ spare), drop-length a (0 ∷ spare))
        (rw written (
          rw (not_none, within)
            (rw (last, over)
              (rw (← append_assoc a text (past.0 ∷ drop lv spare))
                (rw (write_at-behind (a ++ text) (drop lv spare) past.0 0) (rw result refl)))))))

pub parse-names :
    (vs : List Text) (rest : Bytes)
    → 0 < length vs
    → All (IsName 0) vs
    → parse_separated_array (items_text 0 vs ++ 0 ∷ rest) (req_length vs) 0 [] ≡ ok vs
parse-names [] rest some_name h = absurd (omega arith)
parse-names (v ∷ vs) rest some_name h =
    let exact : req_length (v ∷ vs) + 0 ≡ req_length (v ∷ vs) = omega arith in
    rw (← exact) (parse-items_text 0 0 rest v vs [] h.0 h.1)

-- The size may count the zero behind the names too.
pub parse-names_end :
    (vs : List Text) (rest : Bytes)
    → 0 < length vs
    → All (IsName 0) vs
    → parse_separated_array (items_text 0 vs ++ 0 ∷ rest) (req_length vs + 1) 0 [] ≡ ok vs
parse-names_end [] rest some_name h = absurd (omega arith)
parse-names_end (v ∷ vs) rest some_name h = parse-items_text 0 1 rest v vs [] h.0 h.1

pub req_length-append : (vs ws : List Text) → req_length (vs ++ ws) ≡ req_length vs + req_length ws
req_length-append [] ws = omega arith
req_length-append (v ∷ vs) ws = omega (arith, req_length-append vs ws)

module _ (outside : Outside) where
  open outside use {World, list_readers_length, list_readers}

  -- The original library has the readers `real`: it tells the size of their names, and writes them
  -- into a buffer that is large enough.
  pub record HasReaders (w asked filled : World) (h_context : ℕ) (groups : Text) (real : List Text)
      : Type 0 where
    pub are_names : All (IsName 0) real
    pub tells :
        (len : ℕ) → list_readers_length w h_context groups len ≡ (asked, 0, req_length real + 1)
    pub writes :
        (buffer : Bytes) (len : ℕ)
        → req_length real + 1 ≤ len
        → list_readers asked h_context groups buffer len
          ≡ (filled, 0, overwrite buffer (multi_string real), req_length real + 1)

  module _ (app : App) (w asked filled : World) (h_context : ℕ) (groups : Text) (real : List Text)
      (has : HasReaders w asked filled h_context groups real) where
    abbrev pub virt : List Text
    virt = app.winscard_config.list_virtual_readers

    pub fill-multi_string :
        (buffer : Bytes) (len : ℕ)
        → 0 < length virt
        → All (IsName 0) virt
        → len < dword
        → len ≤ length buffer
        → req_length real + req_length virt + 1 ≤ len
        → (rest : Bytes) × (fill outside app asked h_context groups buffer len
            ≡ ok (record {
              app = app;
              world = filled;
              status = scard_s_success;
              buffer = some (items_text 0 (real ++ virt) ++ 0 ∷ rest);
              len = req_length real + req_length virt + 1;
              block = [];
            }))
    unfolding fill
    fill-multi_string buffer len some_virt names small within room =
        let n = req_length real + 1 in
        let lv = req_length virt in
        let cleared : Bytes = overwrite buffer (replicate len 0) in
        let same : length cleared ≡ length buffer = length-overwrite buffer (replicate len 0) in
        let clear : memcpy buffer (replicate len 0) len ≡ ok cleared =
          memcpy-ok buffer (replicate len 0) len within
            (omega (arith, length-replicate {A = ℕ} len 0))
          ∙ rw (take-all {A = ℕ} len (replicate len 0) (length-replicate len 0)) refl in
        let rest : Bytes = drop (length (multi_string real)) cleared in
        let long : length (multi_string real) ≡ n = length-multi_string real in
        let written : overwrite cleared (multi_string real) ≡ items_text 0 real ++ 0 ∷ rest =
          overwrite-eq cleared (multi_string real) (omega arith)
          ∙ append_assoc (items_text 0 real) (0 ∷ []) rest in
        let room_left : length rest ≡ length buffer - n =
          length-drop (length (multi_string real)) (length buffer - n) cleared (omega arith) in
        let appended =
          append_virtual-behind real virt rest n lv refl refl (omega arith) (omega arith) in
        let size : minus (n + lv) 1 ≡ req_length (real ++ virt) =
          omega (arith, req_length-append real virt) in
        let parsed =
          parse-names (real ++ virt) (drop lv rest) (omega (arith, length-append real virt))
            (All-append (IsName 0) real virt has.are_names names) in
        let found : ltb 0 (length virt) ≡ true = lt→ltb 0 (length virt) some_virt in
        let total : n + lv ≡ req_length real + req_length virt + 1 = omega arith in
        (
          drop lv rest,
          rw clear (
              rw (has.writes cleared len (omega arith))
                (rw (found, written) (rw appended (rw size (rw parsed (rw total refl)))))),
        )

    pub supplied-fits :
        (b : Bytes) (len : ℕ)
        → req_length real + req_length virt + 3 ≤ len
        → len < dword
        → supplied outside app w h_context groups (some b) len
          ≡ fill outside app asked h_context groups b len
    unfolding supplied
    supplied-fits b len room small =
        let enough : ltb len ((req_length real + 1 + req_length virt + 2) % dword) ≡ false =
          ground arith in
        rw (has.tells len) (rw enough refl)

    pub supplied-query :
        (len : ℕ)
        → req_length real + req_length virt + 1 < dword
        → supplied outside app w h_context groups none len
          ≡ ok (
              failed outside app asked none scard_s_success (req_length real + 1 + req_length virt))
    unfolding supplied
    supplied-query len small =
        let within : (req_length real + 1 + req_length virt) % dword
            ≡ req_length real + 1 + req_length virt =
          omega arith in
        rw (has.tells len) (rw within refl)

    pub supplied-refused :
        (b : Bytes) (len : ℕ)
        → len < req_length real + req_length virt + 3
        → req_length real + req_length virt + 3 < dword
        → supplied outside app w h_context groups (some b) len
          ≡ ok (
              failed outside app asked
                (some b)
                scard_e_insufficient_buffer
                (req_length real + 1 + req_length virt))
    unfolding supplied
    supplied-refused b len short small =
        let over : ltb len ((req_length real + 1 + req_length virt + 2) % dword) ≡ true =
          ground arith in
        let within : (req_length real + 1 + req_length virt) % dword
            ≡ req_length real + 1 + req_length virt =
          omega arith in
        rw (has.tells len) (rw (over, within) refl)
