-- ===== src/Memory.antt =====
-- `SCardFreeMemory` of Winscard/Winscard.cpp: blocks that this library allocated are freed here, all
-- others by the original library. A block is its address; 0 is NULL.
pub mod Ownership
pub mod Kept
pub mod Destructor
pub mod Owned
use apduplay.Base.{
  Bool, List, Outcome, [], dangling, false, fault, if◌then◌else◌, not, ok, true, ℕ, ◌&&◌, ◌==◌,
  ◌>>=◌, ◌||◌, ◌∷◌,
}
use apduplay.App.{App, Outside}

-- The loop over a list of allocations, left at the first entry that is not NULL and is the pointer:
-- whether it was found, and the list without that entry.
pub release : ℕ → List ℕ → Bool × List ℕ
release p [] = (false, [])
release p (q ∷ qs) =
    if not (q == 0) && q == p
    then (true, qs)
    else (let (found, rest) = release p qs in (found, q ∷ rest))

-- The blocks of the heap that are allocated; `delete[]` of another address is a fault.
unfoldable pub delete_block : ℕ → List ℕ → Outcome (List ℕ)
unfolding release
delete_block p heap =
    let (found, rest) = release p heap in if found then ok rest else fault dangling

pub record Freed (outside : Outside) : Type 0 where
  pub app : App
  pub world : outside.World
  pub heap : List ℕ
  pub status : ℕ

abbrev pub delete_if : Bool → ℕ → List ℕ → Outcome (List ℕ)
delete_if found p heap = if found then delete_block p heap else ok heap

module _ (outside : Outside) where
  open outside use {World, free_memory}

  -- `SCardFreeMemory`
  unfoldable pub scard_free_memory : App → World → List ℕ → ℕ → ℕ → Outcome (Freed outside)
  unfolding release delete_block
  scard_free_memory app w heap h_context p =
      let (in_chars, chars) = release p app.char_allocated_memory_list in
      let (in_wchars, wchars) = release p app.wchar_allocated_memory_list in
      let app' = record app {
        char_allocated_memory_list = chars;
        wchar_allocated_memory_list = wchars;
      } in
      delete_if in_chars p heap >>= λ heap1. delete_if in_wchars p heap1 >>= λ heap2.
      let (w', result) = free_memory w h_context p in
      ok (
        if in_chars || in_wchars
        then record { app = app'; world = w; heap = heap2; status = 0 }
        else record { app = app'; world = w'; heap = heap2; status = result })
