-- ===== src/Socket/ToFile.antt =====
-- `ReceiveLineToFile` of Winscard/socket.cpp: measured values, one byte each, written to a file as lines of
-- text until the bytes 88 77 66 55. The file is the list of its bytes.
pub mod Marker
use apduplay.Base.{
  Bytes, Option, Outcome, [], false, fault, if◌then◌else◌, negsuc, no_fuel, none, ok, pos, some,
  suc, true, zero, ℕ, ℤ, ◌%◌, ◌++◌, ◌+◌, ◌-◌, ◌/◌, ◌==◌, ◌∷◌,
}
use apduplay.Socket.{Arrival, Wire, again, closed, failed, got, recvtimeout, timed_out}

-- `switch (endState)`
pub end_step : ℕ → ℕ → ℕ
end_step state c =
    if state == 0
    then (if c == 0x88 then 1 else 0)
    else if state == 1
    then (if c == 0x77 then 2 else 0)
    else if state == 2
    then (if c == 0x66 then 3 else 0)
    else if state == 3
    then (if c == 0x55 then 4 else 0)
    else 0

-- `sprintf_s(dataStr, 10, "%03d\n", 0xff - data)`
pub value_line : ℕ → Bytes
value_line c =
    let n = 255 - c in (b'0' + n / 100) ∷ (b'0' + n / 10 % 10) ∷ (b'0' + n % 10) ∷ b'\n' ∷ []

-- `if (retStat < 0) status = -1`
pub final_status : Arrival → ℤ
final_status (got c more) = pos 0
final_status closed = pos 0
final_status again = negsuc 0
final_status failed = negsuc 0
final_status timed_out = negsuc 0

module _ (wire : Wire) where
  open wire use {World}

  -- What is left: the file, `*pWrittenValues` and the status.
  pub record Filed : Type 0 where
    pub world : World
    pub file : Option Bytes
    pub written : ℕ
    pub status : ℤ

  -- The end of the data: one byte more is read.
  pub after_marker : ℕ → Bytes → ℕ → World → Filed
  unfolding final_status
  after_marker timeout file written w =
      let (w1, arrival) = recvtimeout wire w 1 timeout in
      record { world = w1; file = some file; written = written; status = final_status arrival }

  -- The loop, on fuel.
  pub file_loop : ℕ → ℕ → Bytes → ℕ → ℕ → World → Outcome Filed
  unfolding end_step value_line final_status after_marker
  file_loop zero timeout file written state w = fault no_fuel
  file_loop (suc fuel) timeout file written state w =
      let (w1, arrival) = recvtimeout wire w 1 timeout in
      let ended = ok (record {
        world = w1;
        file = some file;
        written = written;
        status = final_status arrival;
      }) in
      elim arrival [
        | closed ↦ ended
        | again ↦ ended
        | failed ↦ ended
        | timed_out ↦ ended
        | got c more ↦ elim (end_step state c == 4) [
          | true ↦ ok (after_marker timeout file written w1)
          | false ↦
              file_loop fuel timeout (file ++ value_line c) (written + 1) (end_step state c) w1
        ]
      ]

  -- `ReceiveLineToFile`; `none` for a file that cannot be opened.
  unfoldable pub receive_line_to_file : ℕ → Option Bytes → ℕ → World → Outcome Filed
  unfolding file_loop
  receive_line_to_file fuel none timeout w =
      ok (record { world = w; file = none; written = 0; status = pos 16 })
  receive_line_to_file fuel (some file) timeout w = file_loop fuel timeout file 0 0 w
