-- ===== src/ReadersW/Supplied.antt =====
-- `SCardListReadersW` with a buffer of the caller's, over a library that has the readers `real`.
use apduplay.Base.{
  All, All-append, Bytes, List, Text, [], append_assoc, arith, drop, false, fault, length,
  length-append, length-drop, length-overwrite, length-replicate, ltb, lt→ltb, none, ok,
  out_of_bounds, overwrite, overwrite-eq, pos, refl, replicate, some, take-all, true, ℕ, ◌%◌, ◌++◌,
  ◌+◌, ◌-◌, ◌<◌, ◌∙◌, ◌∷◌, ◌≡◌, ◌≤◌,
}
use apduplay.Block.Access.{memcpy-ok}
use apduplay.Block.{memcpy, write_at}
use apduplay.Readers.Supplied.{
  append_virtual-behind, length-multi_string, parse-names_end, req_length-append,
}
use apduplay.Status.{scard_s_success}
use apduplay.Readers.Order.{multi_string}
use apduplay.Readers.{failed, minus}
use apduplay.Separated.{items_text, req_length}
use apduplay.ReadersW.{fill_w, finish_w, reorder_w, supplied_w}
use apduplay.Separated.RoundTrip.{IsName}
use apduplay.App.{App, Outside, dword}

reorder_w-off : (first : Text) (b : Bytes) (len : ℕ) → first ≡ [] → reorder_w first b len ≡ ok b
unfolding reorder_w
reorder_w-off [] b len e = refl
reorder_w-off (c ∷ cs) b len e = cc

-- A place behind the end of a block cannot be written.
pub write_at-outside :
    (block : Bytes) (i v : ℕ) → length block ≤ i → write_at block (pos i) v ≡ fault out_of_bounds
unfolding write_at
write_at-outside block i v h = ground arith

module _ (outside : Outside) where
  open outside use {World, list_readers_w_length, list_readers_w}

  -- The original library has the readers `real`: it tells the size of their names, and writes them
  -- into a buffer that is large enough.
  pub record HasReadersW (w asked filled : World) (h_context : ℕ) (groups : Text) (real : List Text)
      : Type 0 where
    pub are_names : All (IsName 0) real
    pub tells :
        (len : ℕ) → list_readers_w_length w h_context groups len ≡ (asked, 0, req_length real + 1)
    pub writes :
        (buffer : Bytes) (len : ℕ)
        → req_length real + 1 ≤ len
        → list_readers_w asked h_context groups buffer len
          ≡ (filled, 0, overwrite buffer (multi_string real), req_length real + 1)

  pub finish_w-off :
      (app : App) (w : World) (b block : Bytes) (len : ℕ)
      → app.winscard_config.reader_ordered_first ≡ []
      → finish_w outside (record {
        app = app;
        world = w;
        status = scard_s_success;
        buffer = some b;
        len = len;
        block = block;
      })
        ≡ ok (record {
          app = app;
          world = w;
          status = scard_s_success;
          buffer = some b;
          len = len;
          block = block;
        })
  unfolding finish_w
  finish_w-off app w b block len off =
      rw (reorder_w-off app.winscard_config.reader_ordered_first b len off) refl

  module _ (app : App) (w asked filled : World) (h_context : ℕ) (groups : Text) (real : List Text)
      (has : HasReadersW w asked filled h_context groups real) where
    abbrev pub readers_w : List Text
    readers_w = real ++ app.winscard_config.list_virtual_readers

    pub fill_w-multi_string :
        (buffer : Bytes) (len : ℕ)
        → 0 < length app.winscard_config.list_virtual_readers
        → All (IsName 0) app.winscard_config.list_virtual_readers
        → len < dword
        → len ≤ length buffer
        → req_length readers_w + 3 ≤ len
        → (rest : Bytes) × (fill_w outside app asked h_context groups buffer len
            ≡ ok (record {
              app = app;
              world = filled;
              status = scard_s_success;
              buffer = some (items_text 0 readers_w ++ 0 ∷ rest);
              len = req_length readers_w + 1;
              block = [];
            }))
    unfolding fill_w
    fill_w-multi_string buffer len some_virt names small within room =
        let virt = app.winscard_config.list_virtual_readers in
        let n = req_length real + 1 in
        let lv = req_length virt in
        let sum : req_length readers_w ≡ req_length real + lv = req_length-append real virt in
        let cleared : Bytes = overwrite buffer (replicate len 0) in
        let same : length cleared ≡ length buffer = length-overwrite buffer (replicate len 0) in
        let clear : memcpy buffer (replicate len 0) len ≡ ok cleared =
          memcpy-ok buffer (replicate len 0) len within
            (omega (arith, length-replicate {A = ℕ} len 0))
          ∙ rw (take-all {A = ℕ} len (replicate len 0) (length-replicate len 0)) refl in
        let rest : Bytes = drop (length (multi_string real)) cleared in
        let long : length (multi_string real) ≡ n = length-multi_string real in
        let written : overwrite cleared (multi_string real) ≡ items_text 0 real ++ 0 ∷ rest =
          overwrite-eq cleared (multi_string real) (omega arith)
          ∙ append_assoc (items_text 0 real) (0 ∷ []) rest in
        let room_left : length rest ≡ length buffer - n =
          length-drop (length (multi_string real)) (length buffer - n) cleared (omega arith) in
        let appended =
          append_virtual-behind real virt rest n lv refl refl (omega arith) (omega arith) in
        let parsed =
          parse-names_end readers_w (drop lv rest) (omega (arith, length-append real virt))
            (All-append (IsName 0) real virt has.are_names names) in
        let found : ltb 0 (length virt) ≡ true = lt→ltb 0 (length virt) some_virt in
        let total : n + lv ≡ req_length readers_w + 1 = omega arith in
        (
          drop lv rest,
          rw clear (
              rw (has.writes cleared (minus len 1) (omega arith))
                (rw (found, written) (rw appended (rw total (rw parsed refl))))),
        )

    pub supplied_w-query :
        (len : ℕ)
        → req_length readers_w + 3 < dword
        → supplied_w outside app w h_context groups none len
          ≡ ok (failed outside app asked none scard_s_success (req_length readers_w + 3))
    unfolding supplied_w
    supplied_w-query len small =
        let sum = req_length-append real app.winscard_config.list_virtual_readers in
        let needed : (req_length real + 1 + req_length app.winscard_config.list_virtual_readers + 2)
              % dword
            ≡ req_length readers_w + 3 =
          omega arith in
        rw (has.tells len) (rw needed refl)

    pub supplied_w-fits :
        (b : Bytes) (len : ℕ)
        → req_length readers_w + 3 ≤ len
        → len < dword
        → supplied_w outside app w h_context groups (some b) len
          ≡ fill_w outside app asked h_context groups b len
    unfolding supplied_w
    supplied_w-fits b len room small =
        let sum = req_length-append real app.winscard_config.list_virtual_readers in
        let enough : ltb len (
              (req_length real + 1 + req_length app.winscard_config.list_virtual_readers + 2)
              % dword)
            ≡ false =
          ground arith in
        rw (has.tells len) (rw enough refl)
