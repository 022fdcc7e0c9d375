-- ===== src/Tests/CountTests.antt =====
-- Objects that share a socket of the system.
use apduplay.Base.{[], arith, false, ok, pos, refl, true, ◌∷◌, ◌≡◌}
use apduplay.Socket.Counts.Reached.{
  Reach, assign-uncounted, begun, cloned, created, destroy-Reach, wrapped,
}
use apduplay.Socket.Counts.{
  Object, Sockets, assign, copy, create, destroy, no_sockets, set_counter, wrap,
}

abbrev object : Object
object = record { handle = 40; counter = 0 }

-- One object was made, and cloned.
abbrev shared : Sockets
shared = record {
  nof_sockets = pos 2;
  in_use = true;
  counters = set_counter 0 2 (set_counter 0 1 (λ _. 0));
  next = 1;
  closed = [];
}

abbrev made : Sockets
made = record {
  nof_sockets = pos 1;
  in_use = true;
  counters = set_counter 0 1 (λ _. 0);
  next = 1;
  closed = [];
}

shared-Reach : Reach (object ∷ object ∷ []) shared
unfolding create copy
shared-Reach =
    cloned [] [] object object made shared (created [] no_sockets true 40 object made begun refl)
      refl

destroy-Reach_example :
    (s' : Sockets) × (destroy object shared ≡ ok s') × (s'.closed ≡ []) × (s'.in_use ≡ true)
destroy-Reach_example = destroy-Reach [] (object ∷ []) object shared shared-Reach

-- The last of them.
left : Reach (object ∷ []) made
unfolding create
left = created [] no_sockets true 40 object made begun refl

destroy-Reach_last :
    (s' : Sockets) × (destroy object made ≡ ok s') × (s'.closed ≡ 40 ∷ []) × (s'.in_use ≡ false)
destroy-Reach_last = destroy-Reach [] [] object made left

-- Another object, which is assigned to the first.
abbrev other : Object
other = record { handle = 41; counter = 1 }

abbrev two : Sockets
two = record {
  nof_sockets = pos 2;
  in_use = true;
  counters = set_counter 1 1 (set_counter 0 1 (λ _. 0));
  next = 2;
  closed = [];
}

two-Reach : Reach (other ∷ object ∷ []) two
unfolding wrap
two-Reach = wrapped (object ∷ []) made true 41 other two left refl

assign-uncounted_run :
    (s' : Sockets) × (assign object other two ≡ ok (s', other))
    × (s'.nof_sockets ≡ pos 3)
    × (s'.counters 0 ≡ 1)
assign-uncounted_run =
    assign-uncounted (other ∷ []) [] object other two two-Reach (omega arith)
      (λ e. ground (arith, e))
