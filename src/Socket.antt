-- ===== src/Socket.antt =====
-- The receiving functions of `Socket` (Winscard/socket.cpp). The system's `select` and `recv` are parameters.
pub mod Lines
pub mod Answer
pub mod Finite
pub mod ToFile
pub mod ToMemory
pub mod Counts
pub mod Pending
use apduplay.Base.{
  Bool, Bytes, Outcome, Text, [], false, fault, if◌then◌else◌, no_fuel, none, ok, some, suc, true,
  zero, ℕ, ◌++◌, ◌==◌, ◌>>=◌, ◌∷◌,
}
use apduplay.CString.{find}

-- What `select` finds on the socket within the timeout.
pub data Ready : Type 0 where
  ready : Ready
  no_data : Ready
  select_again : Ready
  select_failed : Ready

-- What `recv` or `recvtimeout` comes to: some bytes, the end of the connection (0), an error (-1), with
-- `errno == EAGAIN` or another, or the timeout (-2).
pub data Arrival : Type 0 where
  got : ℕ → Bytes → Arrival
  closed : Arrival
  again : Arrival
  failed : Arrival
  timed_out : Arrival

-- The socket of the system: `recv` takes the number of bytes that the buffer holds.
pub record Wire : Type 1 where
  pub World : Type 0
  pub select : World → ℕ → World × Ready
  pub recv : World → ℕ → World × Arrival

module _ (wire : Wire) where
  open wire use {World, select, recv}

  pub after_select : Ready → World → ℕ → World × Arrival
  after_select ready w len = recv w len
  after_select no_data w len = (w, timed_out)
  after_select select_again w len = (w, again)
  after_select select_failed w len = (w, failed)

  -- `recvtimeout`
  unfoldable pub recvtimeout : World → ℕ → ℕ → World × Arrival
  unfolding after_select
  recvtimeout w len timeout = let (w1, r) = select w timeout in after_select r w1 len

  -- One character of `ReceiveLine`.
  unfoldable pub receive_char : ℕ → World → World × Arrival
  receive_char timeout w = if timeout == 0 then recv w 1 else recvtimeout w 1 timeout

  -- `ReceiveLine`, on fuel, with the characters so far.
  pub receive_line : ℕ → ℕ → Text → World → Outcome (World × Text)
  receive_line zero timeout ret w = fault no_fuel
  receive_line (suc fuel) timeout ret w =
      let (w1, arrival) = receive_char timeout w in
      elim arrival [
        | closed ↦ ok (w1, [])
        | again ↦ ok (w1, ret)
        | failed ↦ ok (w1, [])
        | timed_out ↦ ok (w1, ret)
        | got r more ↦ elim (r == b'\n') [
          | true ↦ ok (w1, ret ++ r ∷ [])
          | false ↦ receive_line fuel timeout (ret ++ r ∷ []) w1
        ]
      ]

  -- Whether the loop of `ReceiveResponse` ends with this line.
  unfoldable pub is_last : Text → Text → Bool
  is_last end_seq [] = true
  is_last end_seq (c ∷ line) = elim (find end_seq (c ∷ line)) [ none ↦ false | some _ ↦ true ]

  -- The loop of `ReceiveResponse`; the first number bounds its rounds, the second those of `ReceiveLine`.
  pub response_loop : ℕ → ℕ → Text → ℕ → Text → Text → World → Outcome (World × Text)
  unfolding is_last
  response_loop zero fuel end_seq timeout ret line w = fault no_fuel
  response_loop (suc rounds) fuel end_seq timeout ret line w = elim (is_last end_seq line) [
    | true ↦ ok (w, ret ++ line)
    | false ↦ receive_line fuel timeout [] w >>= λ (w1, line1).
        response_loop rounds fuel end_seq timeout (ret ++ line) line1 w1
  ]

  -- `ReceiveResponse`
  unfoldable pub receive_response : ℕ → Text → ℕ → World → Outcome (World × Text)
  receive_response fuel end_seq timeout w = receive_line fuel timeout [] w >>= λ (w1, line).
      response_loop fuel fuel end_seq timeout [] line w1
