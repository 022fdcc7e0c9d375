-- ===== src/Socket/ToMemory.antt =====
-- `ReceiveLineToMemory` of Winscard/socket.cpp: samples of one or two bytes, decoded into an array of `int`.
-- A block is the bytes that arrived; behind them `data` holds the zeros of the `memset`.
pub mod Decoded
pub mod Odd
use apduplay.Base.{
  Bool, Bytes, List, Outcome, [], false, fault, get_or, if◌then◌else◌, length, ltb, negsuc, no_fuel,
  ok, out_of_bounds, pos, suc, true, zero, ℕ, ℤ, ◌%◌, ◌&&◌, ◌*◌, ◌++◌, ◌+◌, ◌-◌, ◌==◌, ◌>>=◌, ◌∷◌,
}
use apduplay.App.{dword}
use apduplay.Socket.{Wire, again, closed, failed, got, recvtimeout, timed_out}

-- READ_BUFFER_LENGTH
abbrev pub read_buffer_length : ℕ
read_buffer_length = 65536

-- A sample of one byte.
abbrev pub narrow_sample : ℕ → ℕ
narrow_sample low = 255 - low

-- A sample of two bytes; the lower four bits of the second are its sign and high part. `BASE_OFFSET` is
-- added in the end, so nothing is negative.
unfoldable pub wide_sample : ℕ → ℕ → ℕ
wide_sample low high =
    let nibble = high % 16 in
    if ltb nibble 8 then 255 - low + 4096 - nibble * 256 else 255 - low + 4096 + (16 - nibble) * 256

-- `pData->pData[offset]` with room for so many samples; those so far are in the list.
unfoldable pub store : ℕ → List ℕ → ℕ → Outcome (List ℕ)
store room samples v =
    if ltb (length samples) room then ok (samples ++ v ∷ []) else fault out_of_bounds

-- FORMAT DATA INTO INT, for two bytes: `data[i + 1]` behind an odd number of bytes is a zero.
unfoldable pub format_wide : ℕ → List ℕ → Bytes → Outcome (List ℕ)
unfolding wide_sample store
format_wide room samples [] = ok samples
format_wide room samples (low ∷ []) = store room samples (wide_sample low 0)
format_wide room samples (low ∷ high ∷ rest) =
    store room samples (wide_sample low high) >>= λ stored. format_wide room stored rest

pub format_narrow : ℕ → List ℕ → Bytes → Outcome (List ℕ)
unfolding store
format_narrow room samples [] = ok samples
format_narrow room samples (low ∷ rest) =
    store room samples (narrow_sample low) >>= λ stored. format_narrow room stored rest

-- Whether `i != retStat` after the loop over a block.
pub has_left_byte : Bool → Bytes → Bool
has_left_byte wide block = wide && length block % 2 == 1

-- `data[i - 1]`, where `i` is `retStat + 1`.
pub left_byte : Bytes → ℕ
left_byte block = get_or block (length block) 0

module _ (wire : Wire) where
  open wire use {World}

  pub record Filled : Type 0 where
    pub world : World
    pub samples : List ℕ
    pub act_len : ℕ
    pub status : ℤ

  -- The last eight bytes are not counted as samples.
  abbrev pub filled : World → List ℕ → ℤ → Outcome Filled
  filled w samples status = ok (record {
    world = w;
    samples = samples;
    act_len = (length samples + dword - 4) % dword;
    status = status;
  })

  unfoldable pub format : Bool → ℕ → List ℕ → Bytes → Outcome (List ℕ)
  unfolding format_wide format_narrow
  format true room samples block = format_wide room samples block
  format false room samples block = format_narrow room samples block

  -- `while (retStat > 0)`, on fuel, for the block that has arrived: the samples, and the next block. Behind
  -- a byte that is left, `retStat` counts one more, also where it is an error.
  pub memory_loop : ℕ → Bool → ℕ → ℕ → List ℕ → Bytes → World → Outcome Filled
  unfolding has_left_byte left_byte
  memory_loop zero wide timeout room samples block w = fault no_fuel
  memory_loop (suc fuel) wide timeout room samples block w =
      format wide room samples block >>= λ stored. elim (has_left_byte wide block) [
        | true ↦
            let (w1, arrival) = recvtimeout wire w (read_buffer_length - 1) timeout in
            elim arrival [
              | got c more ↦
                  memory_loop fuel wide timeout room stored (left_byte block ∷ c ∷ more) w1
              | closed ↦ memory_loop fuel wide timeout room stored (left_byte block ∷ []) w1
              | again ↦ filled w1 stored (pos 0)
              | failed ↦ filled w1 stored (pos 0)
              | timed_out ↦ filled w1 stored (negsuc 0)
            ]
        | false ↦
            let (w1, arrival) = recvtimeout wire w read_buffer_length timeout in
            elim arrival [
              | got c more ↦ memory_loop fuel wide timeout room stored (c ∷ more) w1
              | closed ↦ filled w1 stored (pos 0)
              | again ↦ filled w1 stored (negsuc 0)
              | failed ↦ filled w1 stored (negsuc 0)
              | timed_out ↦ filled w1 stored (negsuc 0)
            ]
      ]

  -- `ReceiveLineToMemory`: two bytes for a sample where `wide`, one where not.
  unfoldable pub receive_line_to_memory : ℕ → Bool → ℕ → ℕ → World → Outcome Filled
  unfolding memory_loop
  receive_line_to_memory fuel wide timeout room w =
      let (w1, arrival) = recvtimeout wire w read_buffer_length timeout in
      elim arrival [
        | got c more ↦ memory_loop fuel wide timeout room [] (c ∷ more) w1
        | closed ↦ filled w1 [] (pos 0)
        | again ↦ filled w1 [] (negsuc 0)
        | failed ↦ filled w1 [] (negsuc 0)
        | timed_out ↦ filled w1 [] (negsuc 0)
      ]
