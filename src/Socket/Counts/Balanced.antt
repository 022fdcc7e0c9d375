-- ===== src/Socket/Counts/Balanced.antt =====
-- The counters of the objects that are alive, and what each call makes of them.
use apduplay.Base.{
  Bool, List, Option, Outcome, [], ap, arith, false, if◌then◌else◌, increment, length,
  length-append, ltb, lt→ltb, none, ok, pos, refl, some, suc, sym, true, ℕ, ◌++◌, ◌+◌, ◌<◌, ◌==◌,
  ◌∙◌, ◌∷◌, ◌≡◌, ◌≤◌,
}
use apduplay.Socket.Counts.{
  Object, Sockets, copy, count_down, destroy, is_zero, let_go, new_counter, set_counter, start,
  wrap,
}
use mathlib.Core.Path.{subst}

-- How many objects have a counter.
abbrev pub occurs : ℕ → List Object → ℕ
occurs c [] = 0
occurs c (o ∷ os) = if o.counter == c then suc (occurs c os) else occurs c os

occurs-append : (c : ℕ) (xs ys : List Object) → occurs c (xs ++ ys) ≡ occurs c xs + occurs c ys
occurs-append c [] ys = omega arith
occurs-append c (x ∷ xs) ys = ground (arith, occurs-append c xs ys)

-- The counters count, none is above the next address, and the socket library is in use while there are objects.
pub record IsBalanced (os : List Object) (s : Sockets) : Type 0 where
  pub number : s.nof_sockets ≡ pos (length os)
  pub in_use : s.in_use ≡ ltb 0 (length os)
  pub counted : (c : ℕ) → s.counters c ≡ occurs c os
  pub below : (c : ℕ) → s.next ≤ c → occurs c os ≡ 0

-- An object that is made, by its counter and the state, is the one that is counted.
pub IsNew : List Object → Sockets → Sockets → Object → Type 0
IsNew os s s' o =
    (s'.nof_sockets ≡ pos (length os + 1))
    × (s'.in_use ≡ true)
    × (s'.counters ≡ set_counter s.next 1 s.counters)
    × (s'.next ≡ s.next + 1)
    × (o.counter ≡ s.next)

IsNew-same :
    (os : List Object) (s s' new : Sockets) (o made : Object)
    → IsNew os s new made
    → ◌≡◌ {A = Sockets × Option Object} (s', some o) (new, some made)
    → IsNew os s s' o
unfolding IsNew
IsNew-same os s s' new o made (number, in_use, counters, next, counter) e =
    let same : s' ≡ new = ap (λ p. p.0) e in
    let same_object : some o ≡ some made = ap (λ p. p.1) e in
    let object : o ≡ made = cc in
    (
      ap (λ t. t.nof_sockets) same ∙ number,
      ap (λ t. t.in_use) same ∙ in_use,
      ap (λ t. t.counters) same ∙ counters,
      ap (λ t. t.next) same ∙ next,
      ap (λ t. t.counter) object ∙ counter,
    )

pub wrap-some :
    (os : List Object) (starts : Bool) (handle : ℕ) (s s' : Sockets) (o : Object)
    → IsBalanced os s
    → wrap starts handle s ≡ (s', some o)
    → IsNew os s s' o
unfolding wrap start is_zero IsNew
wrap-some [] true handle s s' o b e =
    let (new, made) = new_counter handle (record s { nof_sockets = pos 1; in_use = true }) in
    IsNew-same [] s s' new o made (refl, refl, refl, refl, refl) (sym e ∙ rw b.number refl)
wrap-some [] false handle s s' o b e =
    let stopped : wrap false handle s ≡ (s, none) = rw b.number refl in
    let nothing : some o ≡ none = ap (λ p. p.1) (sym e ∙ stopped) in cc
wrap-some (x ∷ xs) starts handle s s' o b e =
    let busy : is_zero s.nof_sockets ≡ false = ap is_zero b.number ∙ ground arith in
    let (new, made) = new_counter handle (record s { nof_sockets = increment s.nof_sockets }) in
    IsNew-same (x ∷ xs) s s' new o made
      (
        ap increment b.number ∙ ap pos (omega arith),
        b.in_use ∙ lt→ltb 0 (suc (length xs)) (omega arith),
        refl,
        refl,
        refl,
      )
      (sym e ∙ rw (busy, wrap, start) refl)

pub IsNew-IsBalanced :
    (os : List Object) (s s' : Sockets) (o : Object)
    → IsBalanced os s
    → IsNew os s s' o
    → IsBalanced (o ∷ os) s'
unfolding IsNew
IsNew-IsBalanced os s s' o b (number, in_use, counters, next, counter) = record {
  number = number ∙ ap pos (omega arith);
  in_use = in_use ∙ sym (lt→ltb 0 (suc (length os)) (omega arith));
  counted = λ c.
      ap (λ f. f c) counters ∙ ground (arith, b.counted c, b.below s.next (omega arith), counter);
  below = λ c h. ground (arith, b.below c, counter, next, h);
}

-- An object among others.
pub occurs-here :
    (before after : List Object) (o : Object) → 0 < occurs o.counter (before ++ o ∷ after)
occurs-here before after o = ground (arith, occurs-append o.counter before (o ∷ after))

copy-ok :
    (os : List Object) (o : Object) (s : Sockets)
    → IsBalanced os s
    → 0 < occurs o.counter os
    → copy o s
      ≡ ok (
        record s {
          nof_sockets = pos (suc (length os));
          counters = set_counter o.counter (s.counters o.counter + 1) s.counters;
        },
        o,
      )
unfolding copy
copy-ok os o s b here =
    let alive : (s.counters o.counter == 0) ≡ false = ground (arith, b.counted o.counter, here) in
    rw (alive, b.number) refl

occurs-length : (c : ℕ) (os : List Object) → occurs c os ≤ length os
occurs-length c [] = omega arith
occurs-length c (o ∷ os) = ground (arith, occurs-length c os)

pub copy-IsBalanced :
    (os : List Object) (o o' : Object) (s s' : Sockets)
    → IsBalanced os s
    → 0 < occurs o.counter os
    → copy o s ≡ ok (s', o')
    → IsBalanced (o' ∷ os) s'
copy-IsBalanced os o o' s s' b here e =
    let copied : Sockets = record s {
      nof_sockets = pos (suc (length os));
      counters = set_counter o.counter (s.counters o.counter + 1) s.counters;
    } in
    let same : ◌≡◌ {A = Outcome (Sockets × Object)} (ok (copied, o)) (ok (s', o')) =
      sym (copy-ok os o s b here) ∙ e in
    let pair : ◌≡◌ {A = Sockets × Object} (copied, o) (s', o') = cc in
    let balanced : IsBalanced (o ∷ os) copied = record {
      number = refl;
      in_use = ground (arith, b.in_use, here, occurs-length o.counter os);
      counted = λ c. ground (arith, b.counted c, b.counted o.counter);
      below = λ c h. ground (arith, b.below c, b.below o.counter, here, h);
    } in
    subst (λ p. IsBalanced (p.1 ∷ os) p.0) pair balanced

pub without :
    (before after : List Object) (o : Object) (c : ℕ)
    → occurs c (before ++ o ∷ after)
      ≡ occurs c (before ++ after) + (if o.counter == c then 1 else 0)
without before after o c =
    ground (arith, occurs-append c before (o ∷ after), occurs-append c before after)

pub length-without :
    (before after : List Object) (o : Object)
    → length (before ++ o ∷ after) ≡ suc (length (before ++ after))
length-without before after o =
    omega (arith, length-append before (o ∷ after), length-append before after)

pub destroy-ok :
    (os : List Object) (o : Object) (s : Sockets)
    → IsBalanced os s
    → 0 < occurs o.counter os
    → destroy o s ≡ ok (count_down (let_go o s))
unfolding destroy
destroy-ok os o s b here =
    let alive : (s.counters o.counter == 0) ≡ false = ground (arith, b.counted o.counter, here) in
    rw alive refl

pub destroy-IsBalanced :
    (before after : List Object) (o : Object) (s : Sockets)
    → IsBalanced (before ++ o ∷ after) s
    → IsBalanced (before ++ after) (count_down (let_go o s))
unfolding count_down is_zero
destroy-IsBalanced before after o s b =
    let number : s.nof_sockets ≡ pos (suc (length (before ++ after))) =
      b.number ∙ ap pos (length-without before after o) in
    record {
      number = rw number refl;
      in_use = rw number (ground (arith, b.in_use, length-without before after o));
      counted = λ c. ground (arith, b.counted c, b.counted o.counter, without before after o c);
      below = λ c h. ground (arith, b.below c h, without before after o c);
    }
