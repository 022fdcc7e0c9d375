-- ===== src/ReadersW/Kept.antt =====
-- `SCardListReadersW` leaves the history and the tables of handles alone.
use apduplay.Base.{
  Bytes, Option, Option-cases, Outcome, Text, Whenever, Whenever-any, Whenever-bind, Whenever-if,
  [], if◌then◌else◌, inl, inr, length, ltb, none, ok, refl, replicate, some, ℕ, ◌%◌, ◌+◌, ◌==◌,
  ◌>>=◌, ◌||◌, ◌∙◌, ◌≡◌,
}
use apduplay.RemoteReaders.Kept.{refresh_virtual_readers-core}
use apduplay.Separated.{parse_separated_array}
use apduplay.Status.{scard_s_success}
use apduplay.RemoteReaders.{refresh_virtual_readers}
use apduplay.Block.{memcpy}
use apduplay.Readers.{Listed, append_virtual, minus, scard_autoallocate, suppressed, virtual_length}
use apduplay.ReadersW.{
  auto_allocate_w, end_variable, fill_w, finish_w, hand_over_w, place_virtual, pointer_units,
  reorder_w, scard_list_readers_w, supplied_w,
}
use apduplay.App.{App, Outside, core, dword}

module _ (outside : Outside) where
  open outside use {World, list_readers_w_length, list_readers_w}

  -- A call that has left the core of the state as it was.
  abbrev Kept : App → Listed outside → Type 0
  Kept app l = core l.app ≡ core app

  hand_over_w-Kept :
      (app : App) (w : World) (p status : ℕ) (buffer : Option Bytes) (block : Bytes) (len : ℕ)
      → Whenever (Kept app) (hand_over_w outside app w p status buffer block len)
  unfolding hand_over_w
  hand_over_w-Kept app w p status none block len = tt
  hand_over_w-Kept app w p status (some variable) block len =
      Whenever-bind (λ b. Unit {0}) (Kept app) (memcpy variable (pointer_units p) 2) _
        (Whenever-any (memcpy variable (pointer_units p) 2))
        (λ b t.
          Whenever-bind (λ n. Unit {0}) (Kept app) (parse_separated_array block len 0 []) _
            (Whenever-any (parse_separated_array block len 0 [])) (λ n t'. refl))

  auto_allocate_w-Kept :
      (app : App) (w : World) (h_context : ℕ) (groups : Text) (p : ℕ) (buffer : Option Bytes)
      → Whenever (Kept app) (auto_allocate_w outside app w h_context groups p buffer)
  unfolding auto_allocate_w
  auto_allocate_w-Kept app w h_context groups p buffer =
      let (w1, status1, real) = list_readers_w_length w h_context groups 0 in
      Whenever-if (Kept app) (suppressed app status1 || status1 == scard_s_success) _ _
        (let asked = if suppressed app status1 then 0 else real in
          let new_len = (asked + virtual_length app + 2) % dword in
          let (w2, status2, block, len2) =
            list_readers_w w1 h_context groups (replicate new_len 0) new_len in
          let placed =
            place_virtual app.winscard_config.list_virtual_readers block real
              (virtual_length app) in
          Whenever-if (Kept app) (suppressed app status2 || status2 == scard_s_success) _ _
            (Whenever-bind (λ b. Unit {0}) (Kept app) placed _ (Whenever-any placed)
              (λ b t.
                Whenever-bind (λ v. Unit {0}) (Kept app) (end_variable outside buffer b.1) _
                  (Whenever-any (end_variable outside buffer b.1))
                  (λ v t'. hand_over_w-Kept app w2 p scard_s_success v b.0 b.1)))
            (hand_over_w-Kept app w2 p status2 buffer block len2))
        refl

  fill_w-Kept :
      (app : App) (w : World) (h_context : ℕ) (groups : Text) (buffer : Bytes) (len : ℕ)
      → Whenever (Kept app) (fill_w outside app w h_context groups buffer len)
  unfolding fill_w
  fill_w-Kept app w h_context groups buffer len =
      Whenever-bind (λ b. Unit {0}) (Kept app) (memcpy buffer (replicate len 0) len) _
        (Whenever-any (memcpy buffer (replicate len 0) len))
        (λ cleared t.
          let (w1, status, filled, found) =
            list_readers_w w h_context groups cleared (minus len 1) in
          let real = if suppressed app status then 0 else found in
          let done : Outcome (Bytes × ℕ) =
            if ltb 0 (length app.winscard_config.list_virtual_readers)
            then append_virtual app.winscard_config.list_virtual_readers filled real
                (virtual_length app)
            else ok (filled, real) in
          Whenever-if (Kept app) (suppressed app status || status == scard_s_success) _ _
            (Whenever-bind (λ b. Unit {0}) (Kept app) done _ (Whenever-any done)
              (λ d t'.
                Whenever-bind (λ n. Unit {0}) (Kept app) (parse_separated_array d.0 d.1 0 []) _
                  (Whenever-any (parse_separated_array d.0 d.1 0 [])) (λ n t2. refl)))
            refl)

  supplied_w-Kept :
      (app : App) (w : World) (h_context : ℕ) (groups : Text) (buffer : Option Bytes) (len : ℕ)
      → Whenever (Kept app) (supplied_w outside app w h_context groups buffer len)
  unfolding supplied_w
  supplied_w-Kept app w h_context groups none len =
      let (w1, status, found) = list_readers_w_length w h_context groups len in
      Whenever-if (Kept app) (suppressed app status || status == scard_s_success) _ _ refl refl
  supplied_w-Kept app w h_context groups (some b) len =
      let (w1, status, found) = list_readers_w_length w h_context groups len in
      let real = if suppressed app status then 0 else found in
      Whenever-if (Kept app) (suppressed app status || status == scard_s_success) _ _
        (Whenever-if (Kept app) (ltb len ((real + virtual_length app + 2) % dword)) _
          (fill_w outside app w1 h_context groups b len) refl
          (fill_w-Kept app w1 h_context groups b len))
        refl

  ordered-Kept :
      (app : App) (l : Listed outside) (o : Outcome Bytes)
      → Kept app l
      → Whenever (Kept app) (o >>= λ ordered. ok (record l { buffer = some ordered }))
  ordered-Kept app l o h = Whenever-bind (λ b. Unit {0}) (Kept app) o _ (Whenever-any o) (λ b t. h)

  finish_w-Kept :
      (app : App) (l : Listed outside) → Kept app l → Whenever (Kept app) (finish_w outside l)
  unfolding finish_w
  finish_w-Kept app l h = elim (Option-cases l.buffer) [
    | inl e ↦ rw (e, finish_w) h
    | inr e ↦
        rw (e.1, finish_w)
          (Whenever-if (Kept app) (l.status == scard_s_success) _ (ok l)
            (ordered-Kept app l (reorder_w l.app.winscard_config.reader_ordered_first e.0 l.len) h)
            h)
  ]

  pub scard_list_readers_w-core :
      (app : App) (w : World) (h_context : ℕ) (groups : Text) (p : ℕ) (buffer : Option Bytes)
      (len : ℕ)
      → Whenever
          (λ l. core l.app ≡ core app)
          (scard_list_readers_w outside app w h_context groups p buffer len)
  unfolding scard_list_readers_w
  scard_list_readers_w-core app w h_context groups p buffer len =
      Whenever-bind (λ r. core r.0 ≡ core app) (Kept app) (refresh_virtual_readers outside app w) _
        (refresh_virtual_readers-core outside app w)
        (λ r h.
          Whenever-bind (Kept r.0) (Kept app)
            (if len == scard_autoallocate
              then auto_allocate_w outside r.0 r.1 h_context groups p buffer
              else supplied_w outside r.0 r.1 h_context groups buffer len)
            _
            (Whenever-if (Kept r.0) (len == scard_autoallocate) _ _
              (auto_allocate_w-Kept r.0 r.1 h_context groups p buffer)
              (supplied_w-Kept r.0 r.1 h_context groups buffer len))
            (λ l k. finish_w-Kept app l (k ∙ h)))
