-- ===== src/Socket/ToMemory/Odd.antt =====
-- A connection that is closed behind an odd number of bytes.
use apduplay.Base.{
  Bytes, List, [], ap, append-nil, append_assoc, arith, false, fault, get_or, length, length-append,
  length-replicate, ltb, lt→ltb, ok, out_of_bounds, refl, replicate, suc, true, zero, ℕ, ◌%◌, ◌++◌,
  ◌+◌, ◌-◌, ◌<◌, ◌==◌, ◌∙◌, ◌∷◌, ◌≡◌, ◌≤◌,
}
use apduplay.Socket.ToMemory.{
  format, format_wide, has_left_byte, left_byte, memory_loop, read_buffer_length,
  receive_line_to_memory, store, wide_sample,
}
use apduplay.Socket.{Wire, closed, got, recvtimeout}

get_or-length : (bs : Bytes) → get_or bs (length bs) 0 ≡ 0
get_or-length [] = refl
get_or-length (b ∷ bs) = get_or-length bs

-- What each round takes the byte that is left for: a zero and a zero.
abbrev pub phantom_sample : ℕ
phantom_sample = 4351

module _ (wire : Wire) (timeout room : ℕ) where
  open wire use {World}

  store-ok :
      (samples : List ℕ) (v : ℕ)
      → length samples < room
      → store room samples v ≡ ok (samples ++ v ∷ [])
  unfolding store
  store-ok samples v h = rw (lt→ltb (length samples) room h) refl

  store-full :
      (samples : List ℕ) (v : ℕ)
      → length samples ≡ room
      → store room samples v ≡ fault out_of_bounds
  unfolding store
  store-full samples v h =
      let full : ltb (length samples) room ≡ false = ground (arith, h) in rw full refl

  -- A round on a block with a byte that is left, when the connection is closed.
  memory_loop-left :
      (fuel : ℕ) (samples stored : List ℕ) (block : Bytes) (w : World)
      → format wire true room samples block ≡ ok stored
      → (length block % 2 == 1) ≡ true
      → recvtimeout wire w (read_buffer_length - 1) timeout ≡ (w, closed)
      → memory_loop wire (suc fuel) true timeout room samples block w
        ≡ memory_loop wire fuel true timeout room stored (0 ∷ []) w
  unfolding memory_loop has_left_byte left_byte
  memory_loop-left fuel samples stored block w f odd e =
      rw (f, memory_loop)
        (rw (odd, e)
          (rw e (
            ap (λ b. memory_loop wire fuel true timeout room stored (b ∷ []) w)
              (get_or-length block))))

  module _ (w : World)
      (over : recvtimeout wire w (read_buffer_length - 1) timeout ≡ (w, closed)) where
    -- As long as there is room, each round stores one sample more.
    memory_loop-rounds :
        (k fuel : ℕ) (samples : List ℕ)
        → length samples + k ≤ room
        → memory_loop wire (k + fuel) true timeout room samples (0 ∷ []) w
          ≡ memory_loop wire fuel true timeout room
              (samples ++ replicate k phantom_sample)
              (0 ∷ [])
              w
    unfolding format format_wide wide_sample
    memory_loop-rounds zero fuel samples fits =
        let none_more : 0 + fuel ≡ fuel = omega arith in rw (none_more, append-nil samples) refl
    memory_loop-rounds (suc k) fuel samples fits =
        let next : suc k + fuel ≡ suc (k + fuel) = omega arith in
        let longer : length (samples ++ phantom_sample ∷ []) ≡ length samples + 1 =
          length-append samples (phantom_sample ∷ []) in
        rw next (
          memory_loop-left (k + fuel) samples (samples ++ phantom_sample ∷ []) (0 ∷ []) w
            (store-ok samples phantom_sample (omega arith)) refl over
          ∙ memory_loop-rounds k fuel (samples ++ phantom_sample ∷ []) (omega (arith, longer))
          ∙ ap (λ s. memory_loop wire fuel true timeout room s (0 ∷ []) w)
              (append_assoc samples (phantom_sample ∷ []) (replicate k phantom_sample)))

    memory_loop-full :
        (fuel : ℕ) (samples : List ℕ)
        → length samples ≡ room
        → memory_loop wire (suc fuel) true timeout room samples (0 ∷ []) w ≡ fault out_of_bounds
    unfolding memory_loop format format_wide
    memory_loop-full fuel samples full = rw (store-full samples (wide_sample 0 0) full) refl

  -- Where the first block has an odd number of bytes, whose samples fit into the array, and the connection is then closed,
  -- and stays so, ReceiveLineToMemory with two bytes for a sample takes a zero byte to be left in every
  -- round: after k more rounds it has stored k samples 4351 behind those of the block, as far as there is
  -- room, and has the byte left again. It ends by writing past the end of the array, for which as many
  -- rounds as the array has places and two are enough.
  pub receive_line_to_memory-odd :
      (k fuel fuel' : ℕ) (w w1 : World) (c : ℕ) (more : Bytes) (stored : List ℕ)
      → recvtimeout wire w read_buffer_length timeout ≡ (w1, got c more)
      → (length (c ∷ more) % 2 == 1) ≡ true
      → recvtimeout wire w1 (read_buffer_length - 1) timeout ≡ (w1, closed)
      → format wire true room [] (c ∷ more) ≡ ok stored
      → length stored + k ≤ room
      → room + 1 < fuel'
      → (receive_line_to_memory wire (suc (k + fuel)) true timeout room w
          ≡ memory_loop wire fuel true timeout room
              (stored ++ replicate k phantom_sample)
              (0 ∷ [])
              w1)
        × (receive_line_to_memory wire fuel' true timeout room w ≡ fault out_of_bounds)
  unfolding receive_line_to_memory
  receive_line_to_memory-odd k fuel fuel' w w1 c more stored first odd over fits room_left enough =
      let begun : (n : ℕ)
          → receive_line_to_memory wire n true timeout room w
            ≡ memory_loop wire n true timeout room [] (c ∷ more) w1 =
        λ n. rw (first, receive_line_to_memory) (rw first refl) in
      let start : (n : ℕ)
          → receive_line_to_memory wire (suc n) true timeout room w
            ≡ memory_loop wire n true timeout room stored (0 ∷ []) w1 =
        λ n. begun (suc n) ∙ memory_loop-left n [] stored (c ∷ more) w1 fits odd over in
      let free = room - length stored in
      let rest = fuel' - 2 - free in
      let split : fuel' ≡ suc (free + suc rest) = omega arith in
      let full : length (stored ++ replicate free phantom_sample) ≡ room =
        length-append stored (replicate free phantom_sample)
        ∙ omega (arith, length-replicate free phantom_sample) in
      (
        start (k + fuel) ∙ memory_loop-rounds w1 over k fuel stored room_left,
        rw split (
            start (free + suc rest)
            ∙ memory_loop-rounds w1 over free (suc rest) stored (omega arith)
            ∙ memory_loop-full w1 over rest (stored ++ replicate free phantom_sample) full),
      )
