-- ===== src/Socket/ToMemory/Decoded.antt =====
-- The samples do not depend on the blocks that their bytes arrive in, as long as each has an even length.
use apduplay.Base.{
  All, Bytes, List, [], ap, append-nil, append_assoc, arith, false, length, length-append, ok, pos,
  refl, suc, sym, true, zero, ℕ, ◌%◌, ◌++◌, ◌+◌, ◌-◌, ◌<◌, ◌==◌, ◌∙◌, ◌∷◌, ◌≡◌, ◌≤◌,
}
use apduplay.App.{dword}
use apduplay.Socket.{Wire, closed, got, recvtimeout}
use apduplay.Socket.ToMemory.{
  filled, format, format_wide, has_left_byte, memory_loop, read_buffer_length,
  receive_line_to_memory, store, wide_sample,
}

-- The samples of a list of pairs of bytes.
abbrev pub decoded : Bytes → List ℕ
decoded [] = []
decoded (low ∷ []) = wide_sample low 0 ∷ []
decoded (low ∷ high ∷ rest) = wide_sample low high ∷ decoded rest

store-ok :
    (room : ℕ) (samples : List ℕ) (v : ℕ)
    → length samples < room
    → store room samples v ≡ ok (samples ++ v ∷ [])
unfolding store
store-ok room samples v k = ground arith

format_wide-decoded :
    (room : ℕ) (samples : List ℕ) (block : Bytes)
    → length samples + length (decoded block) ≤ room
    → format_wide room samples block ≡ ok (samples ++ decoded block)
unfolding format_wide
format_wide-decoded room samples [] k = ap ok (sym (append-nil samples))
format_wide-decoded room samples (low ∷ []) k =
    store-ok room samples (wide_sample low 0) (omega arith)
format_wide-decoded room samples (low ∷ high ∷ rest) k =
    let stored = samples ++ wide_sample low high ∷ [] in
    let longer : length stored ≡ length samples + 1 =
      length-append samples (wide_sample low high ∷ []) in
    rw (store-ok room samples (wide_sample low high) (omega arith)) (
      format_wide-decoded room stored rest (omega arith)
      ∙ ap ok (append_assoc samples (wide_sample low high ∷ []) (decoded rest)))

decoded-append :
    (block rest : Bytes)
    → length block % 2 ≡ 0
    → decoded (block ++ rest) ≡ decoded block ++ decoded rest
decoded-append [] rest e = refl
decoded-append (low ∷ []) rest e = absurd (omega arith)
decoded-append (low ∷ high ∷ block) rest e =
    ap (λ t. wide_sample low high ∷ t) (decoded-append block rest (omega arith))

abbrev pub all_bytes : List Bytes → Bytes
all_bytes [] = []
all_bytes (b ∷ bs) = b ++ all_bytes bs

module _ (wire : Wire) (timeout : ℕ) where
  open wire use {World}

  -- The blocks that come one after the other, and then the end of the connection.
  abbrev pub Brings : World → List Bytes → World → Type 0
  Brings w [] w' = recvtimeout wire w read_buffer_length timeout ≡ (w', closed)
  Brings w ([] ∷ bs) w' = ⊥
  Brings w ((c ∷ more) ∷ bs) w' =
      (w1 : World) × (recvtimeout wire w read_buffer_length timeout ≡ (w1, got c more))
      × Brings w1 bs w'

  memory_loop-next :
      (fuel room : ℕ) (samples stored : List ℕ) (block : Bytes) (w w1 : World) (c : ℕ)
      (more : Bytes)
      → format wire true room samples block ≡ ok stored
      → length block % 2 ≡ 0
      → recvtimeout wire w read_buffer_length timeout ≡ (w1, got c more)
      → memory_loop wire (suc fuel) true timeout room samples block w
        ≡ memory_loop wire fuel true timeout room stored (c ∷ more) w1
  unfolding memory_loop has_left_byte
  memory_loop-next fuel room samples stored block w w1 c more f even e =
      let whole : (length block % 2 == 1) ≡ false = ground arith in
      rw (f, memory_loop) (rw (whole, e) (rw e refl))

  memory_loop-over :
      (fuel room : ℕ) (samples stored : List ℕ) (block : Bytes) (w w1 : World)
      → format wire true room samples block ≡ ok stored
      → length block % 2 ≡ 0
      → recvtimeout wire w read_buffer_length timeout ≡ (w1, closed)
      → memory_loop wire (suc fuel) true timeout room samples block w
        ≡ filled wire w1 stored (pos 0)
  unfolding memory_loop has_left_byte
  memory_loop-over fuel room samples stored block w w1 f even e =
      let whole : (length block % 2 == 1) ≡ false = ground arith in
      rw (f, memory_loop) (rw (whole, e) (rw e refl))

  format-decoded :
      (room : ℕ) (samples : List ℕ) (block : Bytes)
      → length samples + length (decoded block) ≤ room
      → format wire true room samples block ≡ ok (samples ++ decoded block)
  unfolding format
  format-decoded room samples block k = format_wide-decoded room samples block k

  memory_loop-blocks :
      (blocks : List Bytes) (fuel room : ℕ) (samples : List ℕ) (block : Bytes) (w w' : World)
      → length block % 2 ≡ 0
      → All (λ b. length b % 2 ≡ 0) blocks
      → length blocks < fuel
      → length samples + length (decoded (block ++ all_bytes blocks)) ≤ room
      → Brings w blocks w'
      → memory_loop wire fuel true timeout room samples block w
        ≡ filled wire w' (samples ++ decoded (block ++ all_bytes blocks)) (pos 0)
  memory_loop-blocks blocks zero room samples block w w' even evens k r b = absurd (omega arith)
  memory_loop-blocks [] (suc fuel) room samples block w w' even evens k r b =
      let same : decoded (block ++ []) ≡ decoded block = ap decoded (append-nil block) in
      let fits : length (decoded (block ++ [])) ≡ length (decoded block) = ap length same in
      memory_loop-over fuel room samples (samples ++ decoded block) block w w'
        (format-decoded room samples block (omega arith)) even b
      ∙ ap (λ d. filled wire w' (samples ++ d) (pos 0)) (sym same)
  memory_loop-blocks ([] ∷ blocks) (suc fuel) room samples block w w' even evens k r b = absurd b
  memory_loop-blocks ((c ∷ more) ∷ blocks) (suc fuel) room samples block w w' even evens k r
        (w1, e, b) =
      let rest = (c ∷ more) ++ all_bytes blocks in
      let split : decoded (block ++ rest) ≡ decoded block ++ decoded rest =
        decoded-append block rest even in
      let fits : length (decoded (block ++ rest)) ≡ length (decoded block) + length (decoded rest) =
        ap length split ∙ length-append (decoded block) (decoded rest) in
      let stored : length (samples ++ decoded block) ≡ length samples + length (decoded block) =
        length-append samples (decoded block) in
      memory_loop-next fuel room samples (samples ++ decoded block) block w w1 c more
        (format-decoded room samples block (omega arith)) even e
      ∙ memory_loop-blocks blocks fuel room (samples ++ decoded block) (c ∷ more) w1 w' evens.0
          evens.1 (omega arith) (omega arith) b
      ∙ ap (λ d. filled wire w' d (pos 0))
          (append_assoc samples (decoded block) (decoded rest) ∙ ap (λ d. samples ++ d) (sym split))

  receive-first :
      (fuel room : ℕ) (w w1 : World) (c : ℕ) (more : Bytes)
      → recvtimeout wire w read_buffer_length timeout ≡ (w1, got c more)
      → receive_line_to_memory wire fuel true timeout room w
        ≡ memory_loop wire fuel true timeout room [] (c ∷ more) w1
  unfolding receive_line_to_memory
  receive-first fuel room w w1 c more e = rw (e, receive_line_to_memory) (rw e refl)

  receive-none :
      (fuel room : ℕ) (w w1 : World)
      → recvtimeout wire w read_buffer_length timeout ≡ (w1, closed)
      → receive_line_to_memory wire fuel true timeout room w ≡ filled wire w1 [] (pos 0)
  unfolding receive_line_to_memory
  receive-none fuel room w w1 e = rw (e, receive_line_to_memory) (rw e refl)

  -- Where the bytes come in blocks of even lengths, until the connection is closed, and the array has room
  -- for a sample of every two bytes, ReceiveLineToMemory decodes the bytes in pairs, wherever the blocks
  -- begin and end: the samples are those of all bytes in a row, and it returns 0 with their number less 4.
  pub receive_line_to_memory-decoded :
      (blocks : List Bytes) (fuel room : ℕ) (w w' : World)
      → All (λ b. length b % 2 ≡ 0) blocks
      → length blocks < fuel
      → length (decoded (all_bytes blocks)) ≤ room
      → Brings w blocks w'
      → receive_line_to_memory wire fuel true timeout room w
        ≡ ok (record {
          world = w';
          samples = decoded (all_bytes blocks);
          act_len = (length (decoded (all_bytes blocks)) + dword - 4) % dword;
          status = pos 0;
        })
  receive_line_to_memory-decoded [] fuel room w w' evens k r b = receive-none fuel room w w' b
  receive_line_to_memory-decoded ([] ∷ blocks) fuel room w w' evens k r b = absurd b
  receive_line_to_memory-decoded ((c ∷ more) ∷ blocks) fuel room w w' evens k r (w1, e, b) =
      receive-first fuel room w w1 c more e
      ∙ memory_loop-blocks blocks fuel room [] (c ∷ more) w1 w' evens.0 evens.1 (omega arith)
          (omega arith) b
