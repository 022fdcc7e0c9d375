-- ===== src/Socket/Pending.antt =====
-- `ReceiveBytes` of Winscard/socket.cpp: what waits at the socket, in blocks of at most 1024 bytes.
pub mod Waiting
use apduplay.Base.{
  Option, Outcome, Text, false, fault, if◌then◌else◌, ltb, no_fuel, none, ok, some, suc, true, zero,
  ℕ, ◌++◌, ◌==◌, ◌∷◌,
}
use apduplay.Socket.{Wire, again, closed, failed, got, timed_out}

-- `pending` is the number of bytes that FIONREAD reports, or none where it fails.
module _ (wire : Wire) (pending : wire.World → wire.World × Option ℕ) where
  open wire use {World, recv}

  -- The size of the next block.
  abbrev pub block_size : ℕ → ℕ
  block_size n = if ltb 1024 n then 1024 else n

  -- `ReceiveBytes`, on fuel, with the characters so far.
  unfoldable pub receive_bytes : ℕ → Text → World → Outcome (World × Text)
  receive_bytes zero ret w = fault no_fuel
  receive_bytes (suc fuel) ret w =
      let (w1, count) = pending w in
      elim count [
        | none ↦ ok (w1, ret)
        | some n ↦
            let (w2, arrival) = recv w1 (block_size n) in
            elim (n == 0) [
              | true ↦ ok (w1, ret)
              | false ↦ elim arrival [
                | got c cs ↦ receive_bytes fuel (ret ++ c ∷ cs) w2
                | closed ↦ ok (w2, ret)
                | again ↦ ok (w2, ret)
                | failed ↦ ok (w2, ret)
                | timed_out ↦ ok (w2, ret)
              ]
            ]
      ]
