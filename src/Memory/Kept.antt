-- ===== src/Memory/Kept.antt =====
-- `SCardFreeMemory` leaves the history and the tables of handles alone.
use apduplay.Base.{
  Bool-cases, List, Whenever, Whenever-any, Whenever-bind, inl, inr, refl, ℕ, ◌||◌, ◌≡◌,
}
use apduplay.Memory.{delete_if, release, scard_free_memory}
use apduplay.App.{App, Outside, core}

module _ (outside : Outside) where
  pub scard_free_memory-core :
      (app : App) (w : outside.World) (heap : List ℕ) (h_context p : ℕ)
      → Whenever (λ f. core f.app ≡ core app) (scard_free_memory outside app w heap h_context p)
  unfolding scard_free_memory
  scard_free_memory-core app w heap h_context p =
      let (in_chars, chars) = release p app.char_allocated_memory_list in
      let (in_wchars, wchars) = release p app.wchar_allocated_memory_list in
      Whenever-bind (λ b. Unit {0}) (λ f. core f.app ≡ core app) (delete_if in_chars p heap) _
        (Whenever-any (delete_if in_chars p heap))
        (λ heap1 t.
          Whenever-bind (λ b. Unit {0}) (λ f. core f.app ≡ core app) (delete_if in_wchars p heap1) _
            (Whenever-any (delete_if in_wchars p heap1))
            (λ heap2 t'. elim (Bool-cases (in_chars || in_wchars)) [
              | inl e ↦ rw e refl
              | inr e ↦ rw e refl
            ]))
