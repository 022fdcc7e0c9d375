-- ===== src/Tests/SocketTests.antt =====
-- Receiving from a socket that gives a fixed list of arrivals, and then the end of the connection.
use apduplay.Base.{
  Bytes, List, Option, Text, [], ap, arith, codes, fault, length, ok, out_of_bounds, pos, refl,
  some, true, ℕ, ◌%◌, ◌++◌, ◌+◌, ◌-◌, ◌<◌, ◌∷◌, ◌≡◌, ◌≤◌,
}
use apduplay.Socket.Pending.Waiting.{block, empty, receive_bytes-Waits}
use apduplay.Socket.Pending.{receive_bytes}
use apduplay.Socket.Answer.{receive_response-answer}
use apduplay.Status.{scard_s_success}
use apduplay.Remote.{remote_parse_response, returned}
use apduplay.Remote.RoundTrip.{answer}
use apduplay.Decimal.{decimal}
use apduplay.Socket.Lines.{Delivers, receive_response-lines}
use apduplay.App.{dword}
use apduplay.Socket.Finite.{receive_response-ends}
use apduplay.Socket.ToMemory.Decoded.{all_bytes, decoded, receive_line_to_memory-decoded}
use apduplay.Socket.ToMemory.Odd.{receive_line_to_memory-odd}
use apduplay.Socket.ToFile.Marker.{
  receive_line_to_file-marker, receive_line_to_file-missed, value_lines,
}
use apduplay.CString.{find}
use apduplay.Socket.ToFile.{receive_line_to_file}
use apduplay.Socket.ToMemory.{
  format, format_wide, memory_loop, receive_line_to_memory, store, wide_sample,
}
use apduplay.Socket.{
  Arrival, Wire, closed, got, is_last, ready, receive_char, receive_response, recvtimeout,
  timed_out,
}

abbrev play : List Arrival → List Arrival × Arrival
play [] = ([], closed)
play (a ∷ rest) = (rest, a)

abbrev tape : Wire
tape = record { World = List Arrival; select = λ w timeout. (w, ready); recv = λ w len. play w }

-- One arrival for each character.
abbrev typed : Text → List Arrival
typed [] = []
typed (c ∷ t) = got c [] ∷ typed t

abbrev inner : Text
inner = codes "1 APDU"

abbrev last : Text
last = codes "9000@@"

receive_response-lines_example :
    receive_response tape 20 (codes "@@") 20 (typed (inner ++ 10 ∷ last ++ 10 ∷ []))
    ≡ ok ([], inner ++ 10 ∷ (last ++ 10 ∷ []))
unfolding receive_char recvtimeout is_last find
receive_response-lines_example =
    receive_response-lines tape 20 (inner ∷ []) 20 (codes "@@") last
      (typed (inner ++ 10 ∷ last ++ 10 ∷ [])) (typed (last ++ 10 ∷ [])) []
      (record { one_line = omega arith; not_last = refl }, tt) (omega arith) refl (omega arith)
      (omega arith) (omega arith)
      (
        _,
        [],
        refl,
        (
          _,
          [],
          refl,
          (_, [], refl, (_, [], refl, (_, [], refl, (_, [], refl, (_, [], refl, refl))))),
        ),
      )
      (
        _,
        [],
        refl,
        (
          _,
          [],
          refl,
          (_, [], refl, (_, [], refl, (_, [], refl, (_, [], refl, (_, [], refl, refl))))),
        ),
      )

tape-taken :
    (w w1 : List Arrival) (c : ℕ) (more : Bytes)
    → receive_char tape 20 w ≡ (w1, got c more)
    → length w1 < length w
unfolding receive_char recvtimeout
tape-taken [] w1 c more e = absurd (cc (ap (λ r. r.1) e))
tape-taken (a ∷ rest) w1 c more e = rw (← ap (λ r. r.0) e) (omega arith)

tape-kept : (w : List Arrival) → length (receive_char tape 20 w).0 ≤ length w
unfolding receive_char recvtimeout
tape-kept [] = omega arith
tape-kept (a ∷ rest) = omega arith

-- Two characters of a line whose end does not come.
receive_response-ends_example :
    (r : List Arrival × Text) × (receive_response tape 6
        (codes "@@")
        20
        (got 52 [] ∷ got 53 [] ∷ timed_out ∷ [])
      ≡ ok r)
receive_response-ends_example =
    receive_response-ends tape 20 length 6 (codes "@@") (got 52 [] ∷ got 53 [] ∷ timed_out ∷ [])
      (record { taken = tape-taken; kept = tape-kept }) (omega arith)

receive_line_to_file-marker_run :
    receive_line_to_file tape 9 (some []) 20 (typed (0xff ∷ 0x88 ∷ 0x77 ∷ 0x66 ∷ 0x55 ∷ 10 ∷ []))
    ≡ ok (record {
      world = [];
      file = some (value_lines (0xff ∷ 0x88 ∷ 0x77 ∷ 0x66 ∷ []));
      written = 4;
      status = pos 0;
    })
unfolding recvtimeout
receive_line_to_file-marker_run =
    receive_line_to_file-marker tape 20 (0xff ∷ []) 9 []
      (typed (0xff ∷ 0x88 ∷ 0x77 ∷ 0x66 ∷ 0x55 ∷ 10 ∷ []))
      (typed (0x88 ∷ 0x77 ∷ 0x66 ∷ 0x55 ∷ 10 ∷ [])) [] 10 (omega arith) (omega arith)
      (_, [], refl, refl)
      (_, [], refl, (_, [], refl, (_, [], refl, (_, [], refl, (_, [], refl, refl)))))

receive_line_to_file-missed_run :
    receive_line_to_file tape 6 (some []) 20 (typed (0x88 ∷ 0x88 ∷ 0x77 ∷ 0x66 ∷ 0x55 ∷ []))
    ≡ ok (record {
      world = [];
      file = some (value_lines (0x88 ∷ 0x88 ∷ 0x77 ∷ 0x66 ∷ 0x55 ∷ []));
      written = 5;
      status = pos 0;
    })
unfolding recvtimeout
receive_line_to_file-missed_run =
    receive_line_to_file-missed tape 20 0 [] (typed (0x88 ∷ 0x88 ∷ 0x77 ∷ 0x66 ∷ 0x55 ∷ [])) [] []
      (_, [], refl, (_, [], refl, (_, [], refl, (_, [], refl, (_, [], refl, refl))))) refl

abbrev two_blocks : List Bytes
two_blocks = (0 ∷ 0 ∷ 1 ∷ 15 ∷ []) ∷ (2 ∷ 1 ∷ []) ∷ []

receive_line_to_memory-decoded_example :
    receive_line_to_memory tape 3 true 20 10 (got 0 (0 ∷ 1 ∷ 15 ∷ []) ∷ got 2 (1 ∷ []) ∷ [])
    ≡ ok (record {
      world = [];
      samples = decoded (all_bytes two_blocks);
      act_len = (length (decoded (all_bytes two_blocks)) + dword - 4) % dword;
      status = pos 0;
    })
unfolding recvtimeout
receive_line_to_memory-decoded_example =
    receive_line_to_memory-decoded tape 20 two_blocks 3 10
      (got 0 (0 ∷ 1 ∷ 15 ∷ []) ∷ got 2 (1 ∷ []) ∷ []) [] (refl, (refl, tt)) (omega arith)
      (omega arith) (_, refl, (_, refl, refl))

-- The samples of the block, and four more for the byte that is left.
receive_line_to_memory-odd_example :
    (receive_line_to_memory tape 8 true 20 10 (got 1 (2 ∷ 3 ∷ []) ∷ [])
      ≡ memory_loop tape 3 true 20 10 (3838 ∷ 4348 ∷ 4351 ∷ 4351 ∷ 4351 ∷ 4351 ∷ []) (0 ∷ []) [])
    × (receive_line_to_memory tape 12 true 20 10 (got 1 (2 ∷ 3 ∷ []) ∷ []) ≡ fault out_of_bounds)
unfolding recvtimeout format format_wide store wide_sample
receive_line_to_memory-odd_example =
    receive_line_to_memory-odd tape 20 10 4 3 12 (got 1 (2 ∷ 3 ∷ []) ∷ []) [] 1 (2 ∷ 3 ∷ [])
      (3838 ∷ 4348 ∷ []) refl refl refl refl (omega arith) (omega arith)

typed-Delivers : (t : Text) → Delivers tape 20 (typed t) t []
unfolding receive_char recvtimeout
typed-Delivers [] = refl
typed-Delivers (c ∷ t) = (typed t, [], refl, typed-Delivers t)

receive_response-answer_example :
    (raw : Text) × (receive_response tape 20
        (codes "@@")
        20
        (typed (answer 17 (codes "9000") [] ++ 10 ∷ []))
      ≡ ok ([], raw))
    × (remote_parse_response raw 17 ≡ returned scard_s_success (some (codes "9000")))
unfolding decimal
receive_response-answer_example =
    receive_response-answer tape 20 17 17 20 (codes "9000")
      (typed (answer 17 (codes "9000") [] ++ 10 ∷ [])) [] (omega arith) (omega arith) (omega arith)
      (omega arith) (typed-Delivers (answer 17 (codes "9000") [] ++ 10 ∷ []))

-- As many bytes as there are arrivals wait.
abbrev waiting : List Arrival → List Arrival × Option ℕ
waiting w = (w, some (length w))

received_bytes :
    receive_bytes tape waiting 4 (codes ">") (typed (codes "abc")) ≡ ok ([], codes ">abc")
received_bytes =
    receive_bytes-Waits tape waiting 4 (codes ">")
      (block _ _ _ _ _ _ _ _ refl refl refl (
        block _ _ _ _ _ _ _ _ refl refl refl
          (block _ _ _ _ _ _ _ _ refl refl refl (empty _ _ refl))))
      (omega arith)
