-- ===== src/Memory/Owned.antt =====
-- The blocks of this library's lists are on the heap, as often as they are listed, and each is freed once.
use apduplay.Base.{
  Bool, Bool-cases, List, [], ap, arith, false, if◌then◌else◌, inl, inr, ltb, lt→ltb, not, ok, refl,
  suc, sym, true, ℕ, ◌&&◌, ◌+◌, ◌<◌, ◌==◌, ◌||◌, ◌∙◌, ◌∷◌, ◌≡◌, ◌≢◌, ◌≤◌,
}
use apduplay.App.{App, Outside, SocketPtr, deleted, live, null, shut}
use apduplay.Memory.Destructor.{delete_each, delete_socket, destruct}
use apduplay.Memory.{Freed, delete_block, delete_if, release, scard_free_memory}

-- How often a block stands in a list; NULL is no block.
abbrev pub count : ℕ → List ℕ → ℕ
count p [] = 0
count p (q ∷ qs) = if not (q == 0) && q == p then suc (count p qs) else count p qs

abbrev pub one : Bool → ℕ
one true = 1
one false = 0

-- A block leaves a list once, and where it is in the list.
release-count :
    (p q : ℕ) (qs : List ℕ)
    → count q (release p qs).1 + one ((release p qs).0 && q == p) ≡ count q qs
unfolding release
release-count p q [] = refl
release-count p q (r ∷ qs) = ground (arith, release-count p q qs)

release-found : (p : ℕ) (qs : List ℕ) → (release p qs).0 ≡ ltb 0 (count p qs)
unfolding release
release-found p [] = refl
release-found p (r ∷ qs) = ground (arith, release-found p qs)

-- A block that is on the heap can be deleted.
delete_block-count :
    (p : ℕ) (heap : List ℕ)
    → 0 < count p heap
    → (rest : List ℕ) × (delete_block p heap ≡ ok rest)
      × ((q : ℕ) → count q rest + one (q == p) ≡ count q heap)
unfolding delete_block
delete_block-count p heap there =
    let found : (release p heap).0 ≡ true = release-found p heap ∙ lt→ltb 0 (count p heap) there in
    (
      (release p heap).1,
      rw found refl,
      λ q.
          ap (λ b. count q (release p heap).1 + one (b && q == p)) (sym found)
          ∙ release-count p q heap,
    )

delete_each-count :
    (ps heap : List ℕ)
    → ((q : ℕ) → count q ps ≤ count q heap)
    → (rest : List ℕ) × (delete_each ps heap ≡ ok rest)
      × ((q : ℕ) → count q rest + count q ps ≡ count q heap)
unfolding delete_each
delete_each-count [] heap owned = (heap, refl, λ q. omega arith)
delete_each-count (p ∷ ps) heap owned = elim (Bool-cases (p == 0)) [
  | inl e ↦
      let (rest, deletes, counts) = delete_each-count ps heap (λ q. ground (arith, owned q, e)) in
      (rest, rw e deletes, λ q. ground (arith, counts q, e))
  | inr e ↦
      let (heap1, gone, counted) = delete_block-count p heap (ground (arith, owned p, e)) in
      let (rest, deletes, counts) =
        delete_each-count ps heap1 (λ q. ground (arith, owned q, counted q, e)) in
      (rest, rw e (rw gone deletes), λ q. ground (arith, counts q, counted q, e))
]

delete_if-count :
    (found : Bool) (p : ℕ) (heap : List ℕ)
    → one found ≤ count p heap
    → (rest : List ℕ) × (delete_if found p heap ≡ ok rest)
      × ((q : ℕ) → count q rest + one (found && q == p) ≡ count q heap)
delete_if-count true p heap there = delete_block-count p heap (omega arith)
delete_if-count false p heap there = (heap, refl, λ q. omega arith)

-- A pointer that was found is no NULL, and stood in the list.
release-one : (p : ℕ) (qs : List ℕ) → one ((release p qs).0 && p == p) ≡ one (release p qs).0
release-one p qs = ground arith

-- Every block of the two lists is on the heap, as often as it is listed.
pub record Owned (app : App) (heap : List ℕ) : Type 0 where
  pub covered :
      (p : ℕ)
      → count p app.char_allocated_memory_list + count p app.wchar_allocated_memory_list
        ≤ count p heap

Owned-if :
    (outside : Outside) (b : Bool) (x y : Freed outside)
    → Owned x.app x.heap
    → Owned y.app y.heap
    → Owned (if b then x else y).app (if b then x else y).heap
Owned-if outside true x y h k = h
Owned-if outside false x y h k = k

delete_socket-ok :
    (outside : Outside) (s : SocketPtr) (w : outside.World)
    → s ≢ deleted
    → (r : SocketPtr × outside.World) × (delete_socket outside s w ≡ ok r)
unfolding delete_socket
delete_socket-ok outside null w kept = (_, refl)
delete_socket-ok outside live w kept = (_, refl)
delete_socket-ok outside shut w kept = (_, refl)
delete_socket-ok outside deleted w kept = absurd (kept refl)

module _ (outside : Outside) (app : App) (w : outside.World) (heap : List ℕ)
    (owned : Owned app heap) where
  -- Where the lists are covered by the heap, SCardFreeMemory comes to an end for every pointer, and they are covered by the
  -- heap that it leaves.
  pub scard_free_memory-Owned :
      (h_context p : ℕ)
      → (f : Freed outside) × (scard_free_memory outside app w heap h_context p ≡ ok f)
        × Owned f.app f.heap
  unfolding scard_free_memory delete_block
  scard_free_memory-Owned h_context p =
      let chars = app.char_allocated_memory_list in
      let wchars = app.wchar_allocated_memory_list in
      let in_chars = (release p chars).0 in
      let in_wchars = (release p wchars).0 in
      let (heap1, first, count1) =
        delete_if-count in_chars p heap
          (omega (arith, owned.covered p, release-count p p chars, release-one p chars)) in
      let (heap2, second, count2) = delete_if-count in_wchars p heap1 (
        omega (
          arith,
          owned.covered p,
          release-count p p chars,
          release-one p chars,
          release-count p p wchars,
          release-one p wchars,
          count1 p,
        )) in
      let app' : App = record app {
        char_allocated_memory_list = (release p chars).1;
        wchar_allocated_memory_list = (release p wchars).1;
      } in
      let after : Owned app' heap2 = record {
        covered = λ q. omega (
          arith,
          owned.covered q,
          release-count p q chars,
          release-count p q wchars,
          count1 q,
          count2 q,
        );
      } in
      let own : Freed outside = record { app = app'; world = w; heap = heap2; status = 0 } in
      let other : Freed outside = record {
        app = app';
        world = (outside.free_memory w h_context p).0;
        heap = heap2;
        status = (outside.free_memory w h_context p).1;
      } in
      (
        if in_chars || in_wchars then own else other,
        rw first (rw second refl),
        Owned-if outside (in_chars || in_wchars) own other after after,
      )

  -- The destructor, where the lists are covered by the heap and the socket is not one that was deleted: it comes
  -- to an end, both lists are empty, and each block was deleted as often as they named it and
  -- none besides.
  pub destruct-Owned :
      app.remote_config.socket ≢ deleted
      → (app' : App) × (w' : outside.World) × (rest : List ℕ) × (destruct outside app w heap
          ≡ ok (app', w', rest))
        × (app'.char_allocated_memory_list ≡ [])
        × (app'.wchar_allocated_memory_list ≡ [])
        × ((q : ℕ)
            → count q rest
                + (count q app.char_allocated_memory_list + count q app.wchar_allocated_memory_list)
              ≡ count q heap)
  unfolding destruct
  destruct-Owned kept =
      let ((s, w'), closes) = delete_socket-ok outside app.remote_config.socket w kept in
      let (heap1, first, count1) =
        delete_each-count app.char_allocated_memory_list heap
          (λ q. omega (arith, owned.covered q)) in
      let (heap2, second, count2) =
        delete_each-count app.wchar_allocated_memory_list heap1
          (λ q. omega (arith, owned.covered q, count1 q)) in
      let app' : App = record app {
        remote_config = record (app.remote_config) { socket = s };
        char_allocated_memory_list = [];
        wchar_allocated_memory_list = [];
      } in
      (
        app',
        w',
        heap2,
        rw closes (rw first (rw second refl)),
        refl,
        refl,
        λ q. omega (arith, count1 q, count2 q),
      )
