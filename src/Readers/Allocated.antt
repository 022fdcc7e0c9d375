-- ===== src/Readers/Allocated.antt =====
-- Whole calls of `SCardListReaders` with SCARD_AUTOALLOCATE, without redirection.
use apduplay.Base.{
  All, Bytes, List, Text, [], ap, append_assoc, arith, drop, false, fault, leb, length, length-drop,
  length-replicate, ok, out_of_bounds, overwrite, overwrite-eq, refl, replicate, some, suc, ℕ, ◌%◌,
  ◌++◌, ◌+◌, ◌-◌, ◌<◌, ◌∙◌, ◌∷◌, ◌≡◌, ◌≤◌,
}
use apduplay.Readers.Order.{multi_string}
use apduplay.Block.Access.{memcpy-all}
use apduplay.Separated.RoundTrip.{IsName}
use apduplay.Readers.Calls.{finish-off, readers, refresh-off}
use apduplay.Separated.{items_text, req_length}
use apduplay.Status.{scard_s_success}
use apduplay.App.{App, Outside, dword}
use apduplay.Readers.{
  append_virtual, auto_allocate, finish, hand_over, is_at, minus, pointer_bytes, reorder,
  reorder_from, scard_autoallocate, scard_list_readers,
}
use apduplay.Readers.Supplied.{
  HasReaders, append_virtual-behind, length-multi_string, parse-names, req_length-append,
}

-- A preferred reader that is longer than the block is looked for past its end.
reorder-small :
    (first b : Bytes) (len : ℕ)
    → length b < length first
    → length first < len
    → len < dword
    → reorder first b len ≡ fault out_of_bounds
unfolding reorder reorder_from is_at
reorder-small [] b len small long within = absurd (omega arith)
reorder-small (c ∷ cs) b len small long within =
    let rounds : minus len (length (c ∷ cs)) ≡ suc (minus len (length (c ∷ cs)) - 1) =
      omega arith in
    let outside : leb (0 + length (c ∷ cs)) (length b) ≡ false = ground arith in
    rw rounds (rw outside refl)

module _ (outside : Outside) (app : App) (w asked filled : outside.World) (h_context : ℕ)
    (groups : Text) (real : List Text)
    (has : HasReaders outside w asked filled h_context groups real) where
  -- The state with the new block in the list of allocations.
  abbrev pub with_block : ℕ → App
  with_block p = record app {
    char_allocated_memory_list = app.char_allocated_memory_list ++ p ∷ [];
  }

  abbrev all_readers : List Text
  all_readers = readers outside app w asked filled h_context groups real has

  hand_over-block :
      (p : ℕ) (variable rest : Bytes)
      → length variable ≡ 4
      → 0 < length all_readers
      → All (IsName 0) all_readers
      → req_length all_readers + 1 < dword
      → hand_over outside app filled p
          (some variable)
          (items_text 0 all_readers ++ 0 ∷ rest)
          (req_length all_readers + 1)
        ≡ ok (record {
          app = with_block p;
          world = filled;
          status = scard_s_success;
          buffer = some (pointer_bytes p);
          len = req_length all_readers + 1;
          block = items_text 0 all_readers ++ 0 ∷ rest;
        })
  unfolding hand_over
  hand_over-block p variable rest four some_name names small =
      let size : minus (req_length all_readers + 1) 1 ≡ req_length all_readers = omega arith in
      rw (memcpy-all variable (pointer_bytes p) 4 four refl)
        (rw size (rw (parse-names all_readers rest some_name names) refl))

  auto_allocate-block :
      (p : ℕ) (variable : Bytes)
      → length variable ≡ 4
      → 0 < length all_readers
      → All (IsName 0) all_readers
      → req_length all_readers + 3 < dword
      → (rest : Bytes) × (auto_allocate outside app w h_context groups p (some variable)
          ≡ ok (record {
            app = with_block p;
            world = filled;
            status = scard_s_success;
            buffer = some (pointer_bytes p);
            len = req_length all_readers + 1;
            block = items_text 0 all_readers ++ 0 ∷ rest;
          }))
  unfolding auto_allocate
  auto_allocate-block p variable four some_name names small =
      let virt = app.winscard_config.list_virtual_readers in
      let n = req_length real + 1 in
      let lv = req_length virt in
      let sum : req_length all_readers ≡ req_length real + lv = req_length-append real virt in
      let size : (n + lv + 2) % dword ≡ n + lv + 2 = omega arith in
      let cleared : Bytes = replicate (n + lv + 2) 0 in
      let wide : length cleared ≡ n + lv + 2 = length-replicate {A = ℕ} (n + lv + 2) 0 in
      let long : length (multi_string real) ≡ n = length-multi_string real in
      let rest : Bytes = drop (length (multi_string real)) cleared in
      let room : length rest ≡ lv + 2 =
        length-drop (length (multi_string real)) (lv + 2) cleared (omega arith) in
      let written : overwrite cleared (multi_string real) ≡ items_text 0 real ++ 0 ∷ rest =
        overwrite-eq cleared (multi_string real) (omega arith)
        ∙ append_assoc (items_text 0 real) (0 ∷ []) rest in
      let total : n + lv ≡ req_length all_readers + 1 = omega arith in
      let appended : append_virtual virt (items_text 0 real ++ 0 ∷ rest) n lv
          ≡ ok (items_text 0 all_readers ++ 0 ∷ drop lv rest, req_length all_readers + 1) =
        append_virtual-behind real virt rest n lv refl refl (omega arith) (omega arith)
        ∙ ap (λ k. ok (items_text 0 all_readers ++ 0 ∷ drop lv rest, k)) total in
      (
        drop lv rest,
        rw (has.tells 0) (
            rw size (
              rw (has.writes cleared (n + lv + 2) (omega arith)) (
                rw written (
                  rw appended (
                    hand_over-block p variable (drop lv rest) four some_name names
                      (omega arith)))))),
      )

  -- A call with SCARD_AUTOALLOCATE, without redirection and without a preferred reader, succeeds where
  -- there is a reader: the caller's pointer variable holds the address of a new block, which begins with the
  -- names of the real and then the virtual readers, each with a zero, and one more zero; the
  -- length is that of these, and the block is put into the list of allocations.
  pub scard_list_readers-allocated :
      (p : ℕ) (variable : Bytes)
      → app.remote_config.redirect ≡ false
      → app.winscard_config.reader_ordered_first ≡ []
      → length variable ≡ 4
      → 0 < length all_readers
      → All (IsName 0) all_readers
      → req_length all_readers + 3 < dword
      → (rest : Bytes) × (scard_list_readers outside app w h_context groups p
            (some variable)
            scard_autoallocate
          ≡ ok (record {
            app = with_block p;
            world = filled;
            status = scard_s_success;
            buffer = some (pointer_bytes p);
            len = req_length all_readers + 1;
            block = items_text 0 all_readers ++ 0 ∷ rest;
          }))
  unfolding scard_list_readers
  scard_list_readers-allocated p variable local no_first four some_name names small =
      let result = auto_allocate-block p variable four some_name names small in
      (
        result.0,
        rw (refresh-off outside app w local) (
            rw (result.1) (
              finish-off outside (with_block p) filled (pointer_bytes p)
                (items_text 0 all_readers ++ 0 ∷ result.0) (req_length all_readers + 1) no_first)),
      )

  -- With a preferred reader whose name has more than four characters, and is shorter than the list, the same call
  -- reads past the end of the caller's pointer variable, where it takes the names to be.
  pub scard_list_readers-preferred :
      (p : ℕ) (variable : Bytes)
      → app.remote_config.redirect ≡ false
      → 4 < length app.winscard_config.reader_ordered_first
      → length app.winscard_config.reader_ordered_first ≤ req_length all_readers
      → length variable ≡ 4
      → 0 < length all_readers
      → All (IsName 0) all_readers
      → req_length all_readers + 3 < dword
      → scard_list_readers outside app w h_context groups p (some variable) scard_autoallocate
        ≡ fault out_of_bounds
  unfolding scard_list_readers finish
  scard_list_readers-preferred p variable local long short four some_name names small =
      let result = auto_allocate-block p variable four some_name names small in
      rw (refresh-off outside app w local) (
        rw (result.1) (
          rw
            (reorder-small app.winscard_config.reader_ordered_first (pointer_bytes p)
              (req_length all_readers + 1) (omega arith) (omega arith) (omega arith))
            refl))
