-- ===== src/ReadersW.antt =====
-- `SCardListReadersW` of Winscard/Winscard.cpp, the wide variant of `SCardListReaders`, where it differs from
-- that. Arrays are lists of wide characters; with SCARD_AUTOALLOCATE the caller's array is the pointer
-- variable, of two wide characters.
pub mod Supplied
pub mod Calls
pub mod Kept
pub mod Allocated
use apduplay.Base.{
  Bool, Bytes, List, Option, Outcome, Text, [], drop, false, fault, if◌then◌else◌, leb, length, ltb,
  none, ok, out_of_bounds, pos, replicate, some, suc, take, true, zero, ℕ, ◌%◌, ◌&&◌, ◌++◌, ◌+◌,
  ◌-◌, ◌/◌, ◌==◌, ◌>>=◌, ◌||◌, ◌∷◌,
}
use apduplay.RemoteReaders.{refresh_virtual_readers}
use apduplay.Status.{scard_e_insufficient_buffer, scard_s_success}
use apduplay.Block.{memcpy, write_at}
use apduplay.Separated.{parse_separated_array, serialize_as_separated_array}
use apduplay.CString.{text_eq}
use apduplay.Readers.{
  Listed, append_virtual, failed, minus, move_first, scard_autoallocate, suppressed, virtual_length,
}
use apduplay.App.{App, Outside, dword}

-- `memcmp` of the preferred name, which is a text of `char`, with wide characters: it reads twice as
-- many bytes as the name has. Only a name of one character has them, with the zero behind it.
unfoldable pub is_at_w : Text → Bytes → ℕ → Outcome Bool
is_at_w what block i =
    if leb (length what + length what) (length what + 1) && leb (i + length what) (length block)
    then ok (text_eq what (take (length what) (drop i block)))
    else fault out_of_bounds

unfoldable pub reorder_from_w : ℕ → Text → Bytes → ℕ → ℕ → Outcome Bytes
reorder_from_w zero first names len i = ok names
reorder_from_w (suc k) first names len i = is_at_w first names i >>= λ found. elim found [
  | true ↦ move_first first names len i
  | false ↦ reorder_from_w k first names len (i + 1)
]

unfoldable pub reorder_w : Text → Bytes → ℕ → Outcome Bytes
reorder_w [] names len = ok names
reorder_w (c ∷ first) names len =
    reorder_from_w (minus len (length (c ∷ first))) (c ∷ first) names len 0

-- `*(WCHAR**) mszReaders = readers`, in two wide characters.
abbrev pub pointer_units : ℕ → Bytes
pointer_units p = (p % 65536) ∷ (p / 65536 % 65536) ∷ []

-- The virtual readers in the new block, and the number of characters.
unfoldable pub place_virtual : List Text → Bytes → ℕ → ℕ → Outcome (Bytes × ℕ)
place_virtual names block real virt_len =
    let offset = if ltb 0 real then real - 1 else 0 in
    serialize_as_separated_array names 0 (some (drop offset block)) virt_len >>= λ s. ok (
      take offset block ++ elim s.array [ none ↦ [] | some a ↦ a ],
      (if real == 0 then s.array_size + 1 else real + s.array_size) % dword,
    )

module _ (outside : Outside) where
  open outside use {World, list_readers_w_length, list_readers_w}

  -- The block goes to the caller, whatever the status.
  unfoldable pub hand_over_w :
      App → World → ℕ → ℕ → Option Bytes → Bytes → ℕ → Outcome (Listed outside)
  hand_over_w app w p status none block len = fault out_of_bounds
  hand_over_w app w p status (some variable) block len = do
    written ← memcpy variable (pointer_units p) 2
    _ ← parse_separated_array block len 0 []
    ok (record {
      app = record app { wchar_allocated_memory_list = app.wchar_allocated_memory_list ++ p ∷ [] };
      world = w;
      status = status;
      buffer = some written;
      len = len;
      block = block;
    })

  -- `mszReaders[*pcchReaders - 1] = 0`, in the caller's pointer variable.
  unfoldable pub end_variable : Option Bytes → ℕ → Outcome (Option Bytes)
  end_variable none len = fault out_of_bounds
  end_variable (some variable) len =
      write_at variable (pos (minus len 1)) 0 >>= λ ended. ok (some ended)

  -- NO BUFFER IS SUPPLIED. `p` is the address that `new` gives.
  unfoldable pub auto_allocate_w :
      App → World → ℕ → Text → ℕ → Option Bytes → Outcome (Listed outside)
  auto_allocate_w app w h_context groups p buffer =
      let (w1, status1, real) = list_readers_w_length w h_context groups 0 in
      if suppressed app status1 || status1 == scard_s_success
      then (let asked = if suppressed app status1 then 0 else real in
          let new_len = (asked + virtual_length app + 2) % dword in
          let (w2, status2, block, len2) =
            list_readers_w w1 h_context groups (replicate new_len 0) new_len in
          if suppressed app status2 || status2 == scard_s_success
          then (place_virtual app.winscard_config.list_virtual_readers block real
                (virtual_length app)
              >>= λ (written, len). end_variable buffer len >>= λ ended.
                  hand_over_w app w2 p scard_s_success ended written len)
          else hand_over_w app w2 p status2 buffer block len2)
      else ok (failed outside app w1 buffer status1 real)

  -- COPY REAL AND VIRTUAL READERS, into a buffer that is large enough; the original library is told one
  -- character less.
  unfoldable pub fill_w : App → World → ℕ → Text → Bytes → ℕ → Outcome (Listed outside)
  fill_w app w h_context groups buffer len = memcpy buffer (replicate len 0) len >>= λ cleared.
      let (w1, status, filled, found) = list_readers_w w h_context groups cleared (minus len 1) in
      let real = if suppressed app status then 0 else found in
      if suppressed app status || status == scard_s_success
      then (do
        done ←
            (if ltb 0 (length app.winscard_config.list_virtual_readers)
              then append_virtual app.winscard_config.list_virtual_readers filled real
                  (virtual_length app)
              else ok (filled, real))
        _ ← parse_separated_array done.0 done.1 0 []
        ok (record {
          app = app;
          world = w1;
          status = scard_s_success;
          buffer = some done.0;
          len = done.1;
          block = [];
        }))
      else ok (failed outside app w1 (some filled) status len)

  -- BUFFER SUPPLIED
  unfoldable pub supplied_w : App → World → ℕ → Text → Option Bytes → ℕ → Outcome (Listed outside)
  supplied_w app w h_context groups buffer len =
      let (w1, status, found) = list_readers_w_length w h_context groups len in
      let real = if suppressed app status then 0 else found in
      let needed = (real + virtual_length app + 2) % dword in
      if suppressed app status || status == scard_s_success
      then elim buffer [
        | none ↦ ok (failed outside app w1 none scard_s_success needed)
        | some b ↦
            if ltb len needed
            then ok (failed outside app w1 (some b) scard_e_insufficient_buffer needed)
            else fill_w app w1 h_context groups b len
      ]
      else ok (failed outside app w1 buffer status len)

  -- The preferred reader, where the call succeeded and there is a buffer.
  unfoldable pub finish_w : Listed outside → Outcome (Listed outside)
  finish_w l = elim l.buffer [
    | none ↦ ok l
    | some b ↦
        if l.status == scard_s_success
        then (reorder_w l.app.winscard_config.reader_ordered_first b l.len >>= λ ordered.
            ok (record l { buffer = some ordered }))
        else ok l
  ]

  -- `SCardListReadersW`
  unfoldable pub scard_list_readers_w :
      App → World → ℕ → Text → ℕ → Option Bytes → ℕ → Outcome (Listed outside)
  scard_list_readers_w app w h_context groups p buffer len =
      refresh_virtual_readers outside app w >>= λ (app1, w1).
      (if len == scard_autoallocate
        then auto_allocate_w app1 w1 h_context groups p buffer
        else supplied_w app1 w1 h_context groups buffer len)
      >>= λ l. finish_w l
