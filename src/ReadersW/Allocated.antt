-- ===== src/ReadersW/Allocated.antt =====
-- `SCardListReadersW` with SCARD_AUTOALLOCATE.
use apduplay.Base.{
  Bytes, List, Text, arith, drop, false, fault, length, length-drop, length-overwrite,
  length-replicate, ltb, ok, out_of_bounds, overwrite, refl, replicate, some, take, true, ℕ, ◌%◌,
  ◌++◌, ◌+◌, ◌-◌, ◌<◌, ◌==◌, ◌≡◌, ◌≤◌,
}
use apduplay.Readers.Calls.{refresh-off}
use apduplay.Readers.Order.{multi_string}
use apduplay.Readers.Supplied.{req_length-append}
use apduplay.Separated.Sizes.{serialize-fits}
use apduplay.Readers.{minus, scard_autoallocate}
use apduplay.ReadersW.Supplied.{HasReadersW, readers_w, write_at-outside}
use apduplay.Separated.{items_text, req_length, serialize_as_separated_array}
use apduplay.ReadersW.{auto_allocate_w, end_variable, place_virtual, scard_list_readers_w}
use apduplay.App.{App, Outside, dword}

place_virtual-counts :
    (virt : List Text) (block : Bytes) (n lv : ℕ)
    → lv ≡ req_length virt
    → 1 ≤ n
    → n + lv < dword
    → lv ≤ length (drop (n - 1) block)
    → (written : Bytes) × (place_virtual virt block n lv ≡ ok (written, n + lv))
unfolding place_virtual
place_virtual-counts virt block n lv e some_real small room =
    let first : ltb 0 n ≡ true = ground arith in
    let not_none : (n == 0) ≡ false = ground arith in
    let within : (n + lv) % dword ≡ n + lv = omega arith in
    let written : serialize_as_separated_array virt 0 (some (drop (n - 1) block)) lv
        ≡ ok (record {
          status = 0;
          array = some (overwrite (drop (n - 1) block) (items_text 0 virt));
          array_size = lv;
        }) =
      rw e (serialize-fits virt 0 (drop (n - 1) block) (omega arith)) in
    (
      take (n - 1) block ++ overwrite (drop (n - 1) block) (items_text 0 virt),
      rw first (rw written (rw (not_none, within) refl)),
    )

module _ (outside : Outside) (app : App) (w asked filled : outside.World) (h_context : ℕ)
    (groups : Text) (real : List Text)
    (has : HasReadersW outside w asked filled h_context groups real) where
  abbrev all_readers : List Text
  all_readers = readers_w outside app w asked filled h_context groups real has

  auto_allocate_w-outside :
      (p : ℕ) (variable : Bytes)
      → length variable ≡ 2
      → 2 ≤ req_length all_readers
      → req_length all_readers + 3 < dword
      → auto_allocate_w outside app w h_context groups p (some variable) ≡ fault out_of_bounds
  unfolding auto_allocate_w end_variable
  auto_allocate_w-outside p variable two some_name small =
      let virt = app.winscard_config.list_virtual_readers in
      let n = req_length real + 1 in
      let lv = req_length virt in
      let sum : req_length all_readers ≡ req_length real + lv = req_length-append real virt in
      let size : (n + lv + 2) % dword ≡ n + lv + 2 = omega arith in
      let cleared : Bytes = replicate (n + lv + 2) 0 in
      let block : Bytes = overwrite cleared (multi_string real) in
      let wide : length cleared ≡ n + lv + 2 = length-replicate {A = ℕ} (n + lv + 2) 0 in
      let same : length block ≡ length cleared = length-overwrite cleared (multi_string real) in
      let room : length (drop (n - 1) block) ≡ lv + 3 =
        length-drop (n - 1) (lv + 3) block (omega arith) in
      let placed =
        place_virtual-counts virt block n lv refl (omega arith) (omega arith) (omega arith) in
      let last : minus (n + lv) 1 ≡ n + lv - 1 = omega arith in
      rw (has.tells 0) (
        rw size (
          rw (has.writes cleared (n + lv + 2) (omega arith)) (
            rw placed.1
              (rw last (rw (write_at-outside variable (n + lv - 1) 0 (omega arith)) refl)))))

  -- A call with SCARD_AUTOALLOCATE, without redirection, writes a zero past the end of the caller's pointer
  -- variable, wherever a real or virtual reader has a name.
  pub scard_list_readers_w-allocated :
      (p : ℕ) (variable : Bytes)
      → app.remote_config.redirect ≡ false
      → length variable ≡ 2
      → 2 ≤ req_length all_readers
      → req_length all_readers + 3 < dword
      → scard_list_readers_w outside app w h_context groups p (some variable) scard_autoallocate
        ≡ fault out_of_bounds
  unfolding scard_list_readers_w
  scard_list_readers_w-allocated p variable local two some_name small =
      rw (refresh-off outside app w local)
        (rw (auto_allocate_w-outside p variable two some_name small) refl)
