-- ===== src/Socket/Counts.antt =====
-- How the objects of class `Socket` share a socket of the system (Winscard/socket.cpp): the counter that the copies
-- of an object have in common, and the number of all objects, by which the socket library is started and
-- cleaned up. What the system gives is a parameter.
pub mod Balanced
pub mod Reached
use apduplay.Base.{
  Bool, List, Option, Outcome, [], dangling, decrement, false, fault, if◌then◌else◌, increment,
  negsuc, none, ok, pos, some, suc, true, zero, ℕ, ℤ, ◌+◌, ◌-◌, ◌==◌, ◌∷◌,
}

-- An object: `s_` and the address of the counter.
pub record Object : Type 0 where
  pub handle : ℕ
  pub counter : ℕ

-- `nofSockets_`; whether the socket library is in use; the counters on the heap, 0 for one that is deleted; the
-- address of the next one; and the sockets that were closed, the last first.
pub record Sockets : Type 0 where
  pub nof_sockets : ℤ
  pub in_use : Bool
  pub counters : ℕ → ℕ
  pub next : ℕ
  pub closed : List ℕ

-- Before the first object.
abbrev pub no_sockets : Sockets
no_sockets = record {
  nof_sockets = pos 0;
  in_use = false;
  counters = λ _. 0;
  next = 0;
  closed = [];
}

pub is_zero : ℤ → Bool
is_zero (pos n) = n == 0
is_zero (negsuc n) = false

-- A counter is given a value.
abbrev pub set_counter : ℕ → ℕ → (ℕ → ℕ) → ℕ → ℕ
set_counter counter value counters c = if c == counter then value else counters c

-- `Start`, which throws where the socket library cannot be started.
pub start : Bool → Sockets → Option Sockets
unfolding is_zero
start starts s =
    if is_zero s.nof_sockets
    then (if starts
        then some (record s { nof_sockets = increment s.nof_sockets; in_use = true })
        else none)
    else some (record s { nof_sockets = increment s.nof_sockets })

-- The counter of a new object is 1.
abbrev pub new_counter : ℕ → Sockets → Sockets × Object
new_counter handle s = (
  record s { counters = set_counter s.next 1 s.counters; next = s.next + 1 },
  record { handle = handle; counter = s.next },
)

-- `Socket()`: the socket that the system gives, or none; no object where it throws.
unfoldable pub create : Bool → Option ℕ → Sockets → Sockets × Option Object
unfolding start
create starts given s = elim (start starts s) [
  | none ↦ (s, none)
  | some s1 ↦ elim given [
    | none ↦ (s1, none)
    | some handle ↦ let (s2, o) = new_counter handle s1 in (s2, some o)
  ]
]

-- `Socket(SOCKET s)`
unfoldable pub wrap : Bool → ℕ → Sockets → Sockets × Option Object
unfolding start
wrap starts handle s = elim (start starts s) [
  | none ↦ (s, none)
  | some s1 ↦ let (s2, o) = new_counter handle s1 in (s2, some o)
]

-- `Socket(const Socket& o)`
unfoldable pub copy : Object → Sockets → Outcome (Sockets × Object)
copy o s =
    if s.counters o.counter == 0
    then fault dangling
    else ok (
      record s {
        nof_sockets = increment s.nof_sockets;
        counters = set_counter o.counter (s.counters o.counter + 1) s.counters;
      },
      o,
    )

-- `operator =`: what the object becomes. Its own counter is left as it is.
unfoldable pub assign : Object → Object → Sockets → Outcome (Sockets × Object)
assign this o s =
    if s.counters o.counter == 0
    then fault dangling
    else ok (
      record s {
        nof_sockets = increment s.nof_sockets;
        counters = set_counter o.counter (s.counters o.counter + 1) s.counters;
      },
      record { handle = o.handle; counter = o.counter },
    )

-- `Close` for the last object with the counter.
abbrev pub let_go : Object → Sockets → Sockets
let_go o s =
    let left = s.counters o.counter - 1 in
    record s {
      counters = set_counter o.counter left s.counters;
      closed = if left == 0 then o.handle ∷ s.closed else s.closed;
    }

-- `End` after the last of all objects.
pub count_down : Sockets → Sockets
unfolding is_zero
count_down s =
    let nof = decrement s.nof_sockets in
    record s { nof_sockets = nof; in_use = if is_zero nof then false else s.in_use }

-- `~Socket`
unfoldable pub destroy : Object → Sockets → Outcome Sockets
unfolding count_down
destroy o s = if s.counters o.counter == 0 then fault dangling else ok (count_down (let_go o s))
