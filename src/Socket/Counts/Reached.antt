-- ===== src/Socket/Counts/Reached.antt =====
-- What the counters do in any order of calls: the last object with a counter closes the socket.
use apduplay.Base.{
  Bool, List, Outcome, [], ap, arith, false, if◌then◌else◌, increment, length, ltb, ok, pos, refl,
  some, suc, sym, ℕ, ◌++◌, ◌+◌, ◌-◌, ◌<◌, ◌==◌, ◌∙◌, ◌∷◌, ◌≡◌, ◌≢◌,
}
use apduplay.Socket.Counts.Balanced.{
  IsBalanced, IsNew-IsBalanced, copy-IsBalanced, destroy-IsBalanced, destroy-ok, length-without,
  occurs, occurs-here, without, wrap-some,
}
use apduplay.Socket.Counts.{
  Object, Sockets, assign, copy, count_down, create, destroy, let_go, no_sockets, set_counter, wrap,
}
use mathlib.Core.Path.{subst}

-- Objects that are alive after some calls, and the state they are left with.
pub data Reach : List Object → Sockets → Type 0 where
  begun : Reach [] no_sockets
  created :
      (os : List Object) (s : Sockets) (starts : Bool) (handle : ℕ) (o : Object) (s' : Sockets)
      → Reach os s
      → create starts (some handle) s ≡ (s', some o)
      → Reach (o ∷ os) s'
  wrapped :
      (os : List Object) (s : Sockets) (starts : Bool) (handle : ℕ) (o : Object) (s' : Sockets)
      → Reach os s
      → wrap starts handle s ≡ (s', some o)
      → Reach (o ∷ os) s'
  cloned :
      (before after : List Object) (o o' : Object) (s s' : Sockets)
      → Reach (before ++ o ∷ after) s
      → copy o s ≡ ok (s', o')
      → Reach (o' ∷ (before ++ o ∷ after)) s'
  destroyed :
      (before after : List Object) (o : Object) (s s' : Sockets)
      → Reach (before ++ o ∷ after) s
      → destroy o s ≡ ok s'
      → Reach (before ++ after) s'

-- The counters count the objects that are alive, whatever was made, cloned and destroyed, in any order.
pub Reach-IsBalanced : {os : List Object} {s : Sockets} → Reach os s → IsBalanced os s
unfolding create wrap
Reach-IsBalanced begun = record {
  number = refl;
  in_use = refl;
  counted = λ c. refl;
  below = λ c h. refl;
}
Reach-IsBalanced (created os s starts handle o s' r e) =
    let b = Reach-IsBalanced r in
    IsNew-IsBalanced os s s' o b (wrap-some os starts handle s s' o b e)
Reach-IsBalanced (wrapped os s starts handle o s' r e) =
    let b = Reach-IsBalanced r in
    IsNew-IsBalanced os s s' o b (wrap-some os starts handle s s' o b e)
Reach-IsBalanced (cloned before after o o' s s' r e) =
    copy-IsBalanced (before ++ o ∷ after) o o' s s' (Reach-IsBalanced r)
      (occurs-here before after o) e
Reach-IsBalanced (destroyed before after o s s' r e) =
    let b = Reach-IsBalanced r in
    let done : ◌≡◌ {A = Outcome Sockets} (ok (count_down (let_go o s))) (ok s') =
      sym (destroy-ok (before ++ o ∷ after) o s b (occurs-here before after o)) ∙ e in
    let same : count_down (let_go o s) ≡ s' = cc in
    subst (IsBalanced (before ++ after)) same (destroy-IsBalanced before after o s b)

-- Whatever was made, cloned and destroyed before: an object can be destroyed, its socket is closed exactly when no
-- object with the same counter is left, and the socket library stays in use exactly while there are objects.
pub destroy-Reach :
    (before after : List Object) (o : Object) (s : Sockets)
    → Reach (before ++ o ∷ after) s
    → (s' : Sockets) × (destroy o s ≡ ok s')
      × (s'.closed
          ≡ (if occurs o.counter (before ++ after) == 0 then o.handle ∷ s.closed else s.closed))
      × (s'.in_use ≡ ltb 0 (length (before ++ after)))
unfolding count_down
destroy-Reach before after o s r =
    let b = Reach-IsBalanced r in
    let left : s.counters o.counter - 1 ≡ occurs o.counter (before ++ after) =
      ground (arith, b.counted o.counter, without before after o o.counter) in
    (
      count_down (let_go o s),
      destroy-ok (before ++ o ∷ after) o s b (occurs-here before after o),
      ap (λ n. if n == 0 then o.handle ∷ s.closed else s.closed) left,
      (destroy-IsBalanced before after o s b).in_use,
    )

-- After an assignment more objects are counted than there are, and the counter that the object had counts it still.
pub assign-uncounted :
    (before after : List Object) (this o : Object) (s : Sockets)
    → Reach (before ++ this ∷ after) s
    → 0 < occurs o.counter (before ++ this ∷ after)
    → this.counter ≢ o.counter
    → (s' : Sockets) × (assign this o s ≡ ok (s', o))
      × (s'.nof_sockets ≡ pos (suc (length (before ++ o ∷ after))))
      × (s'.counters this.counter ≡ suc (occurs this.counter (before ++ o ∷ after)))
unfolding assign
assign-uncounted before after this o s r there other =
    let b = Reach-IsBalanced r in
    let alive : (s.counters o.counter == 0) ≡ false = ground (arith, b.counted o.counter, there) in
    (
      record s {
        nof_sockets = increment s.nof_sockets;
        counters = set_counter o.counter (s.counters o.counter + 1) s.counters;
      },
      rw alive refl,
      ap increment b.number
          ∙ ap pos (omega (arith, length-without before after this, length-without before after o)),
      ground (
        arith,
        other,
        b.counted this.counter,
        without before after this this.counter,
        without before after o this.counter,
      ),
    )
