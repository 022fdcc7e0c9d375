-- ===== src/Readers.antt =====
-- `SCardListReaders` of Winscard/Winscard.cpp: the readers of the original library with the virtual ones
-- behind them, and the preferred reader moved to the front. The buffer is a block of bytes; with
-- SCARD_AUTOALLOCATE it is the caller's pointer variable, of four bytes. `size_t` has 32 bits.
pub mod Order
pub mod Supplied
pub mod Calls
pub mod Allocated
pub mod Kept
use apduplay.Base.{
  Bool, Bytes, List, Option, Outcome, Text, [], drop, false, fault, if◌then◌else◌, leb, length, ltb,
  none, ok, out_of_bounds, pos, replicate, some, suc, take, true, zero, ℕ, ◌%◌, ◌&&◌, ◌++◌, ◌+◌,
  ◌-◌, ◌/◌, ◌==◌, ◌>>=◌, ◌^◌, ◌||◌, ◌∷◌,
}
use apduplay.Status.{scard_e_insufficient_buffer, scard_e_no_readers_available, scard_s_success}
use apduplay.Block.{memcpy, memcpy_to, write_at}
use apduplay.CString.{text_eq}
use apduplay.Separated.{parse_separated_array, req_length, serialize_as_separated_array}
use apduplay.App.{App, Outside, dword}
use apduplay.RemoteReaders.{refresh_virtual_readers}

abbrev pub scard_autoallocate : ℕ
scard_autoallocate = 2 ^ 32 - 1

-- `a - b` in a DWORD.
abbrev pub minus : ℕ → ℕ → ℕ
minus a b = (a + dword - b) % dword

-- `memcmp(what, block + i, length) == 0`
unfoldable pub is_at : Text → Bytes → ℕ → Outcome Bool
unfolding text_eq
is_at what block i =
    if leb (i + length what) (length block)
    then ok (text_eq what (take (length what) (drop i block)))
    else fault out_of_bounds

-- PREFFERED READER FOUND: through a copy of the names.
unfoldable pub move_first : Text → Bytes → ℕ → ℕ → Outcome Bytes
move_first first names len i = do
  readers ← memcpy (replicate len 0) names len
  moved ← memcpy readers (drop i names) (length first)
  ended ← write_at moved (pos (length first)) 0
  shifted ← memcpy_to ended (length first + 1) names i
  memcpy names shifted len

-- The loop over the positions; the first number counts those that are left.
unfoldable pub reorder_from : ℕ → Text → Bytes → ℕ → ℕ → Outcome Bytes
reorder_from zero first names len i = ok names
reorder_from (suc k) first names len i = is_at first names i >>= λ found. elim found [
  | true ↦ move_first first names len i
  | false ↦ reorder_from k first names len (i + 1)
]

-- `if (sREADER_ORDERED_FIRST != "")`
unfoldable pub reorder : Text → Bytes → ℕ → Outcome Bytes
unfolding reorder_from
reorder [] names len = ok names
reorder (c ∷ first) names len =
    reorder_from (minus len (length (c ∷ first))) (c ∷ first) names len 0

-- The virtual readers, put behind the `real` characters of the names that are there (over the zero
-- that ends those): the buffer, and the number of its characters.
unfoldable pub append_virtual : List Text → Bytes → ℕ → ℕ → Outcome (Bytes × ℕ)
append_virtual names buffer real virt_len =
    let offset = if ltb 0 real then real - 1 else 0 in
    serialize_as_separated_array names 0 (some (drop offset buffer)) virt_len >>= λ s.
    let written = take offset buffer ++ elim s.array [ none ↦ [] | some a ↦ a ] in
    let len = (if real == 0 then s.array_size + 1 else real + s.array_size) % dword in
    write_at written (pos (minus len 1)) 0 >>= λ ended. ok (ended, len)

-- The error that there are no readers does not count where there are virtual ones.
abbrev pub suppressed : App → ℕ → Bool
suppressed app status =
    status == scard_e_no_readers_available
    && ltb 0 (length app.winscard_config.list_virtual_readers)

abbrev pub virtual_length : App → ℕ
virtual_length app = req_length app.winscard_config.list_virtual_readers

-- `*(char**) mszReaders = readers`
abbrev pub pointer_bytes : ℕ → Bytes
pointer_bytes p = (p % 256) ∷ (p / 256 % 256) ∷ (p / 65536 % 256) ∷ (p / 16777216 % 256) ∷ []

module _ (outside : Outside) where
  open outside use {World, list_readers_length, list_readers}

  -- What a call leaves: the caller's buffer (absent for NULL) and `*pcchReaders`, and the contents of
  -- the block that was allocated.
  pub record Listed : Type 0 where
    pub app : App
    pub world : World
    pub status : ℕ
    pub buffer : Option Bytes
    pub len : ℕ
    pub block : Bytes

  abbrev pub failed : App → World → Option Bytes → ℕ → ℕ → Listed
  failed app w buffer status len = record {
    app = app;
    world = w;
    status = status;
    buffer = buffer;
    len = len;
    block = [];
  }

  -- The names in the new block, whose address goes to the caller.
  unfoldable pub hand_over : App → World → ℕ → Option Bytes → Bytes → ℕ → Outcome Listed
  hand_over app w p none block len = fault out_of_bounds
  hand_over app w p (some variable) block len = do
    written ← memcpy variable (pointer_bytes p) 4
    _ ← parse_separated_array block (minus len 1) 0 []
    ok (record {
      app = record app { char_allocated_memory_list = app.char_allocated_memory_list ++ p ∷ [] };
      world = w;
      status = scard_s_success;
      buffer = some written;
      len = len;
      block = block;
    })

  -- NO BUFFER IS SUPPLIED. `p` is the address that `new` gives.
  unfoldable pub auto_allocate : App → World → ℕ → Text → ℕ → Option Bytes → Outcome Listed
  unfolding hand_over
  auto_allocate app w h_context groups p buffer =
      let (w1, status1, real) = list_readers_length w h_context groups 0 in
      if suppressed app status1 || status1 == scard_s_success
      then (let asked = if suppressed app status1 then 0 else real in
          let new_len = (asked + virtual_length app + 2) % dword in
          let (w2, status2, block, len2) =
            list_readers w1 h_context groups (replicate new_len 0) new_len in
          if suppressed app status2 || status2 == scard_s_success
          then (append_virtual app.winscard_config.list_virtual_readers block real
                (virtual_length app)
              >>= λ (written, len). hand_over app w2 p buffer written len)
          else ok (failed app w2 buffer status2 len2))
      else ok (failed app w1 buffer status1 real)

  -- COPY REAL AND VIRTUAL READERS, into a buffer that is large enough.
  unfoldable pub fill : App → World → ℕ → Text → Bytes → ℕ → Outcome Listed
  fill app w h_context groups buffer len = memcpy buffer (replicate len 0) len >>= λ cleared.
      let (w1, status, filled, found) = list_readers w h_context groups cleared len in
      let real = if suppressed app status then 0 else found in
      if suppressed app status || status == scard_s_success
      then (do
        done ←
            (if ltb 0 (length app.winscard_config.list_virtual_readers)
              then append_virtual app.winscard_config.list_virtual_readers filled real
                  (virtual_length app)
              else ok (filled, real))
        _ ← parse_separated_array done.0 (minus done.1 1) 0 []
        ok (record {
          app = app;
          world = w1;
          status = scard_s_success;
          buffer = some done.0;
          len = done.1;
          block = [];
        }))
      else ok (failed app w1 (some filled) status len)

  -- BUFFER SUPPLIED
  unfoldable pub supplied : App → World → ℕ → Text → Option Bytes → ℕ → Outcome Listed
  unfolding fill
  supplied app w h_context groups buffer len =
      let (w1, status, found) = list_readers_length w h_context groups len in
      let real = if suppressed app status then 0 else found in
      if suppressed app status || status == scard_s_success
      then elim buffer [
        | none ↦ ok (failed app w1 none scard_s_success ((real + virtual_length app) % dword))
        | some b ↦
            if ltb len ((real + virtual_length app + 2) % dword)
            then ok (
                failed app w1 (some b) scard_e_insufficient_buffer
                  ((real + virtual_length app) % dword))
            else fill app w1 h_context groups b len
      ]
      else ok (failed app w1 buffer status len)

  -- The preferred reader, where the call succeeded and there is a buffer.
  unfoldable pub finish : Listed → Outcome Listed
  unfolding reorder
  finish l = elim l.buffer [
    | none ↦ ok l
    | some b ↦
        if l.status == scard_s_success
        then (reorder l.app.winscard_config.reader_ordered_first b l.len >>= λ ordered.
            ok (record l { buffer = some ordered }))
        else ok l
  ]

  -- `SCardListReaders`
  unfoldable pub scard_list_readers : App → World → ℕ → Text → ℕ → Option Bytes → ℕ → Outcome Listed
  unfolding auto_allocate supplied finish
  scard_list_readers app w h_context groups p buffer len =
      refresh_virtual_readers outside app w >>= λ (app1, w1).
      (if len == scard_autoallocate
        then auto_allocate app1 w1 h_context groups p buffer
        else supplied app1 w1 h_context groups buffer len)
      >>= λ l. finish l
