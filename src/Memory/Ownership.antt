-- ===== src/Memory/Ownership.antt =====
-- Who frees a block in `SCardFreeMemory`.
use apduplay.Base.{All, List, [], arith, false, ok, refl, true, ℕ, ◌++◌, ◌∷◌, ◌≡◌, ◌≢◌, ◌⊎◌}
use apduplay.App.{App, Outside}
use apduplay.Memory.{delete_block, release, scard_free_memory}

-- The list has no entry for the block; entries that were set to NULL do not count.
abbrev pub Foreign : ℕ → List ℕ → Type 0
Foreign p = All (λ q. (q ≡ 0) ⊎ (q ≢ p))

release-Foreign : (p : ℕ) (qs : List ℕ) → Foreign p qs → release p qs ≡ (false, qs)
unfolding release
release-Foreign p [] h = refl
release-Foreign p (q ∷ qs) h = ground (arith, release-Foreign p qs h.1, h.0)

release-owned :
    (p : ℕ) (before after : List ℕ)
    → p ≢ 0
    → Foreign p before
    → release p (before ++ p ∷ after) ≡ (true, before ++ after)
unfolding release
release-owned p [] after n h = ground (arith, n)
release-owned p (q ∷ before) after n h = ground (arith, release-owned p before after n h.1, h.0)

module _ (outside : Outside) (app : App) (w : outside.World) (h_context p : ℕ) where
  -- A block that is in neither list of this library goes to the original library: its status comes
  -- back, and the state and the heap of this library stay as they are.
  pub scard_free_memory-Foreign :
      (heap : List ℕ)
      → Foreign p app.char_allocated_memory_list
      → Foreign p app.wchar_allocated_memory_list
      → scard_free_memory outside app w heap h_context p
        ≡ ok (record {
          app = app;
          world = (outside.free_memory w h_context p).0;
          heap = heap;
          status = (outside.free_memory w h_context p).1;
        })
  unfolding scard_free_memory
  scard_free_memory-Foreign heap hc hw =
      rw (release-Foreign p app.char_allocated_memory_list hc)
        (rw (release-Foreign p app.wchar_allocated_memory_list hw) refl)

  -- A block of the heap that this library allocated for a list of names in `char` is deleted once, with
  -- the status 0: it leaves the list and the heap, the original library is not called, and the rest of the
  -- state stays as it is.
  pub scard_free_memory-owned :
      (before after heap_before heap_after : List ℕ)
      → p ≢ 0
      → app.char_allocated_memory_list ≡ before ++ p ∷ after
      → Foreign p before
      → Foreign p app.wchar_allocated_memory_list
      → Foreign p heap_before
      → scard_free_memory outside app w (heap_before ++ p ∷ heap_after) h_context p
        ≡ ok (record {
          app = record app { char_allocated_memory_list = before ++ after };
          world = w;
          heap = heap_before ++ heap_after;
          status = 0;
        })
  unfolding scard_free_memory delete_block
  scard_free_memory-owned before after heap_before heap_after n owned hb hw hh = rw owned (
      rw (release-owned p before after n hb) (
        rw (release-Foreign p app.wchar_allocated_memory_list hw)
          (rw (release-owned p heap_before heap_after n hh) refl)))
