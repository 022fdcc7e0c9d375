-- ===== src/System/Reachable.antt =====
-- Every state that the calls lead to is valid, and what follows for the next call.
use apduplay.Base.{
  Bool-cases, Option-cases, Text, Whenever-ok, ap, arith, false, if◌then◌else◌, inl, inr, ok, refl,
  sym, true, ℕ, ◌+◌, ◌<◌, ◌==◌, ◌||◌, ◌∙◌, ◌≡◌, ◌⊎◌,
}
use apduplay.Status.{scard_s_success}
use apduplay.Cards.ConnectW.{
  ConnectedW, params_line, prepare_measurement, reset_line, sampling_line, scard_connect_w,
  scard_connect_w-core, scard_connect_w-prepares, scard_protocol_t0, tell,
}
use apduplay.ReadersW.Kept.{scard_list_readers_w-core}
use apduplay.Transmit.Lookup.{is_remote_card-assign, is_remote_card-none, is_remote_card-unknown}
use apduplay.Cards.Handles.{reader_name, reader_name-assign}
use apduplay.Memory.Kept.{scard_free_memory-core}
use apduplay.Readers.Kept.{scard_list_readers-core}
use apduplay.Transmit.Transmitted.{scard_transmit-Transmitted}
use apduplay.Cards.Connect.{connected, scard_connect-local, scard_connect-remote}
use apduplay.System.Valid.{
  Transmitted-IsValid, cleared-IsValid, initial-IsValid, local-IsValid, remote-IsValid,
}
use apduplay.System.{
  IsValid, Reach, Step, connect, connect_w, establish, free_memory, here, initial, list_readers,
  list_readers_w, next, release, transmit,
}
use apduplay.Transmit.{is_remote_card}
use apduplay.Cards.{
  Connected, is_remote_reader, remote_scard_release_context, scard_connect, scard_establish_context,
  scard_release_context,
}
use apduplay.App.{App, Outside, core, dword, find_handle, live}
use mathlib.Core.Path.{subst}

-- A handle beyond the newest is no remote card's.
unissued :
    (app : App) (h_card : ℕ)
    → IsValid (core app)
    → app.next_remote_card_id < h_card
    → is_remote_card app h_card ≡ false
unissued app h_card v beyond = elim (Option-cases (find_handle h_card app.remote_readers_map)) [
  | inl e ↦ is_remote_card-unknown app h_card e
  | inr e ↦ let bounds = v.issued h_card e.0 e.1 in absurd (omega (arith, bounds.1, beyond))
]

-- No remote card has a handle below 2.
too_small :
    (app : App) (h_card : ℕ) → IsValid (core app) → h_card < 2 → is_remote_card app h_card ≡ false
too_small app h_card v small = elim (Option-cases (find_handle h_card app.remote_readers_map)) [
  | inl e ↦ is_remote_card-unknown app h_card e
  | inr e ↦ let bounds = v.issued h_card e.0 e.1 in absurd (omega (arith, bounds.0, small))
]

module _ (outside : Outside) where
  connect-IsValid :
      (a : App) (w : outside.World) (h_context : ℕ) (reader : Text) (share_mode protocols : ℕ)
      (r : Connected outside)
      → scard_connect outside a w h_context reader share_mode protocols ≡ ok r
      → a.next_remote_card_id + 1 < dword
      → (is_remote_reader a reader ≡ true) ⊎ (is_remote_card a r.h_card ≡ false)
      → IsValid (core a)
      → IsValid (core r.app)
  connect-IsValid a w h_context reader share_mode protocols r e room apart v =
      elim (Bool-cases (is_remote_reader a reader)) [
        | inl virtual ↦
            let c =
              scard_connect-remote outside a w h_context reader share_mode protocols r virtual e in
            let handle : r.h_card ≡ a.next_remote_card_id + 1 = c.0 ∙ omega (arith, room) in
            subst IsValid (sym (c.1 ∙ ap (λ h. connected (core a) h reader) handle))
              (remote-IsValid (core a) reader v)
        | inr local ↦
            let c =
              scard_connect-local outside a w h_context reader share_mode protocols r local e in
            let free : is_remote_card a r.h_card ≡ false = elim apart [
              | inl y ↦ absurd cc
              | inr n ↦ n
            ] in
            subst IsValid (sym c)
              (local-IsValid (core a) r.h_card reader (is_remote_card-none a r.h_card free) v)
      ]

  Step-IsValid : (a b : App) → Step outside a b → IsValid (core a) → IsValid (core b)
  unfolding scard_establish_context scard_release_context remote_scard_release_context
  Step-IsValid a b (establish w scope e) v =
      subst IsValid (sym (ap core e)) (cleared-IsValid a.history v.blocks v.paired)
  Step-IsValid a b (release w h_context e) v =
      subst IsValid (sym (ap core e)) (cleared-IsValid a.history v.blocks v.paired)
  Step-IsValid a b (connect w h_context reader share_mode protocols r done room apart e) v =
      subst IsValid (sym (ap core e))
        (connect-IsValid a w h_context reader share_mode protocols r done room apart v)
  Step-IsValid a b (connect_w w h_context reader share_mode protocols r done e) v =
      let same =
        Whenever-ok (λ r. core r.app ≡ core a) _ {a = r}
          (scard_connect_w-core outside a w h_context reader share_mode protocols) done in
      subst IsValid (sym (ap core e ∙ same)) v
  Step-IsValid a b (transmit fuel u w h_card sent len recv recv_length r done e) v =
      subst IsValid (sym (ap core e)) (
        Transmitted-IsValid a r.app sent len
          (scard_transmit-Transmitted outside fuel u a w h_card sent len recv recv_length r v.named
            done)
          v)
  Step-IsValid a b (list_readers w h_context groups p buffer len l done e) v =
      let same =
        Whenever-ok (λ l. core l.app ≡ core a) _ {a = l}
          (scard_list_readers-core outside a w h_context groups p buffer len) done in
      subst IsValid (sym (ap core e ∙ same)) v
  Step-IsValid a b (list_readers_w w h_context groups p buffer len l done e) v =
      let same =
        Whenever-ok (λ l. core l.app ≡ core a) _ {a = l}
          (scard_list_readers_w-core outside a w h_context groups p buffer len) done in
      subst IsValid (sym (ap core e ∙ same)) v
  Step-IsValid a b (free_memory w heap h_context p f done e) v =
      let same =
        Whenever-ok (λ f. core f.app ≡ core a) _ {a = f}
          (scard_free_memory-core outside a w heap h_context p) done in
      subst IsValid (sym (ap core e ∙ same)) v

  Reach-IsValid-from : {a b : App} → Reach outside a b → IsValid (core a) → IsValid (core b)
  Reach-IsValid-from here v = v
  Reach-IsValid-from (next {b} {c} r s) v = Step-IsValid b c s (Reach-IsValid-from r v)

  -- Whatever calls have ended after the start of the library, in any order and with any answers of the
  -- original library and the proxy: the history holds as many commands as responses, all in blocks of
  -- 300 bytes, and every remote card has a handle from 2 to the newest one and is known by the name of
  -- its reader. A connection that would leave the range of the handles, or to which the original library
  -- gives the handle of a remote card, is not among these calls.
  pub Reach-IsValid : (a b : App) → core a ≡ initial → Reach outside a b → IsValid (core b)
  Reach-IsValid a b start r = Reach-IsValid-from r (subst IsValid (sym start) initial-IsValid)

  -- A connection to a virtual reader, from a state that calls lead to: where it comes to an end it gives
  -- a handle that no remote card had. From then on this handle is a remote card's, with the name of the
  -- reader, and every other handle is what it was, with the name it had.
  pub scard_connect-fresh :
      (a b : App) (w : outside.World) (h_context : ℕ) (reader : Text) (share_mode protocols j : ℕ)
      (r : Connected outside)
      → core a ≡ initial
      → Reach outside a b
      → b.next_remote_card_id + 1 < dword
      → is_remote_reader b reader ≡ true
      → scard_connect outside b w h_context reader share_mode protocols ≡ ok r
      → (is_remote_card b r.h_card ≡ false)
        × (is_remote_card r.app j ≡ (j == r.h_card || is_remote_card b j))
        × (reader_name r.app j ≡ (if j == r.h_card then reader else reader_name b j))
  scard_connect-fresh a b w h_context reader share_mode protocols j r start reach room virtual e =
      let v = Reach-IsValid a b start reach in
      let c = scard_connect-remote outside b w h_context reader share_mode protocols r virtual e in
      let handle : r.h_card ≡ b.next_remote_card_id + 1 = c.0 ∙ omega (arith, room) in
      (
        unissued b r.h_card v (omega arith),
        is_remote_card-assign b r.app j r.h_card reader (ap (λ k. k.remote_readers_map) c.1),
        reader_name-assign b r.app j r.h_card reader (ap (λ k. k.card_reader_map) c.1),
      )

  -- A connection by SCardConnectW with redirection and an open socket, from a state that calls lead to,
  -- succeeds and gives the handle 1 and the protocol T0 after three lines to the proxy: a reset, the
  -- parameters and the number of samples, each with its response. But the handle 1 is no remote card's
  -- then, so a transmission with it goes to the original library.
  pub scard_connect_w-unregistered :
      (a b : App) (w : outside.World) (h_context : ℕ) (reader : Text) (share_mode protocols : ℕ)
      → core a ≡ initial
      → Reach outside a b
      → b.remote_config.redirect ≡ true
      → b.remote_config.socket ≡ live
      → (r : ConnectedW outside) × (scard_connect_w outside b w h_context reader share_mode
            protocols
          ≡ ok r)
        × (r.status ≡ scard_s_success)
        × (r.h_card ≡ 1)
        × (r.active_protocol ≡ scard_protocol_t0)
        × (r.world
            ≡ tell outside
                (tell outside (tell outside w reset_line) (params_line b.remote_config))
                (sampling_line b.remote_config))
        × (is_remote_card r.app r.h_card ≡ false)
  unfolding prepare_measurement
  scard_connect_w-unregistered a b w h_context reader share_mode protocols start reach on open_one =
      let v = Reach-IsValid a b start reach in
      let app : App = record b { processed_apdu_byte_counter = 0 } in
      (
        _,
        scard_connect_w-prepares outside b w h_context reader share_mode protocols on open_one,
        refl,
        refl,
        refl,
        refl,
        too_small app 1 v (omega arith),
      )
