-- ===== src/Session/Frame.antt =====
-- What a request to the proxy leaves alone: all of the state but the remote configuration.
use apduplay.Base.{
  Bool, Bytes, Option-cases, Text, Whenever, Whenever-any, Whenever-bind, Whenever-if, [], ap,
  codes, false, if◌then◌else◌, inl, inr, ok, refl, true, ℕ, ◌>>=◌, ◌∙◌, ◌≡◌,
}
use apduplay.CString.{find, trim_right}
use apduplay.Hex.{from_hex, to_hex}
use apduplay.Status.{scard_s_success}
use apduplay.Remote.{Parsed, raised, returned}
use apduplay.App.{App, Outside, RemoteConfig, SocketPtr, core, deleted, live, null, shut}
use apduplay.Session.{
  Answered, ask, connect_over, count_command, finish_request, is_white, open_phase,
  remote_scard_connect, remote_scard_transmit, remote_send_request, store_response, take_response,
  transmit_over,
}

abbrev pub with_remote : App → RemoteConfig → App
with_remote app c = record app { remote_config = c }

-- Only the remote configuration differs.
abbrev pub OnlyRemote : App → App → Type 0
OnlyRemote app app' = (c : RemoteConfig) × (app' ≡ with_remote app c)

pub OnlyRemote-trans : (a b c : App) → OnlyRemote a b → OnlyRemote b c → OnlyRemote a c
OnlyRemote-trans a b c h k = (k.0, k.1 ∙ ap (λ x. with_remote x k.0) h.1)

pub OnlyRemote-core : (a b : App) → OnlyRemote a b → core b ≡ core a
OnlyRemote-core a b h = ap core h.1

module _ (outside : Outside) where
  open outside use {World}

  open_phase-OnlyRemote :
      (every : Bool) (s : SocketPtr) (app : App) (w : World)
      → Whenever (λ r. OnlyRemote app r.0) (open_phase outside every s app w)
  unfolding open_phase
  open_phase-OnlyRemote true null app w = (_, refl)
  open_phase-OnlyRemote true live app w = (_, refl)
  open_phase-OnlyRemote true shut app w = (_, refl)
  open_phase-OnlyRemote true deleted app w = tt
  open_phase-OnlyRemote false null app w = (_, refl)
  open_phase-OnlyRemote false live app w = (_, refl)
  open_phase-OnlyRemote false shut app w = (_, refl)
  open_phase-OnlyRemote false deleted app w = tt

  if-OnlyRemote :
      (app : App) (b : Bool) (x y : Answered outside)
      → OnlyRemote app x.app
      → OnlyRemote app y.app
      → OnlyRemote app (if b then x else y).app
  if-OnlyRemote app true x y hx hy = hx
  if-OnlyRemote app false x y hx hy = hy

  finish_request-OnlyRemote :
      (app : App) (w : World) (response : Text) (p : Parsed)
      → OnlyRemote app (finish_request outside app w response p).app
  unfolding finish_request
  finish_request-OnlyRemote app w response raised = (_, refl)
  finish_request-OnlyRemote app w response (returned status answer) =
      if-OnlyRemote app app.remote_config.open_socket_for_every_command _ _ (_, refl) (_, refl)

  ask-OnlyRemote :
      (app : App) (w : World) (target command content response : Text)
      → OnlyRemote app (ask outside app w target command content response).app
  unfolding ask
  ask-OnlyRemote app w target command content response =
      OnlyRemote-trans app (count_command outside app) _ (_, refl)
        (finish_request-OnlyRemote (count_command outside app) _ response _)

  pub remote_send_request-OnlyRemote :
      (app : App) (w : World) (target command content response : Text)
      → Whenever
          (λ r. OnlyRemote app r.app)
          (remote_send_request outside app w target command content response)
  unfolding remote_send_request
  remote_send_request-OnlyRemote app w target command content response =
      Whenever-bind (λ r. OnlyRemote app r.0) (λ r. OnlyRemote app r.app)
        (open_phase outside app.remote_config.open_socket_for_every_command app.remote_config.socket
          app w)
        _
        (open_phase-OnlyRemote app.remote_config.open_socket_for_every_command
          app.remote_config.socket app w)
        (λ r h.
          Whenever-if (λ a. OnlyRemote app a.app) r.2 _ _
            (OnlyRemote-trans app r.0 _ h (ask-OnlyRemote r.0 r.1 target command content response))
            h)

  reset-OnlyRemote :
      (app : App) (w : World) (target : Text)
      → Whenever
          (λ r. OnlyRemote app r.app)
          (remote_send_request outside app w target (codes "RESET") [] [] >>= λ r.
            ok (record r { status = scard_s_success }))
  reset-OnlyRemote app w target =
      Whenever-bind (λ r. OnlyRemote app r.app) (λ r. OnlyRemote app r.app)
        (remote_send_request outside app w target (codes "RESET") [] []) _
        (remote_send_request-OnlyRemote app w target (codes "RESET") [] []) (λ r h. h)

  connect_over-OnlyRemote :
      (s : SocketPtr) (app : App) (w : World) (target : Text)
      → Whenever (λ r. OnlyRemote app r.app) (connect_over outside s app w target)
  unfolding connect_over
  connect_over-OnlyRemote null app w target = (_, refl)
  connect_over-OnlyRemote live app w target = reset-OnlyRemote app w target
  connect_over-OnlyRemote shut app w target = reset-OnlyRemote app w target
  connect_over-OnlyRemote deleted app w target = reset-OnlyRemote app w target

  pub remote_scard_connect-OnlyRemote :
      (app : App) (w : World) (target : Text)
      → Whenever (λ r. OnlyRemote app r.app) (remote_scard_connect outside app w target)
  unfolding remote_scard_connect
  remote_scard_connect-OnlyRemote app w target =
      connect_over-OnlyRemote app.remote_config.socket app w target

  store_response-OnlyRemote :
      (app : App) (r : Answered outside) (response : Text) (recv : Bytes)
      → OnlyRemote app r.app
      → Whenever (λ a. OnlyRemote app a.app) (store_response outside r response recv)
  unfolding store_response
  store_response-OnlyRemote app r response recv h =
      Whenever-bind (λ c. Unit {0}) (λ a. OnlyRemote app a.app) (from_hex response recv 260) _
        (Whenever-any (from_hex response recv 260)) (λ c t. h)

  take_response-OnlyRemote :
      (app : App) (r : Answered outside) (recv : Bytes) (len : ℕ)
      → OnlyRemote app r.app
      → Whenever (λ a. OnlyRemote app a.app) (take_response outside r recv len)
  unfolding take_response
  take_response-OnlyRemote app r recv len h =
      elim (Option-cases (find (codes "FAIL") (trim_right (is_white outside) r.response))) [
        | inl e ↦
            rw (e, Whenever, take_response)
              (store_response-OnlyRemote app r (trim_right (is_white outside) r.response) recv h)
        | inr e ↦ rw (e.1, Whenever, take_response) h
      ]

  apdu-OnlyRemote :
      (app : App) (w : World) (target : Text) (sent recv : Bytes) (len : ℕ)
      → Whenever
          (λ r. OnlyRemote app r.app)
          (remote_send_request outside
              (count_command outside app)
              w
              target
              (codes "APDU")
              (to_hex false sent)
              []
            >>= λ r. take_response outside r recv len)
  apdu-OnlyRemote app w target sent recv len =
      Whenever-bind (λ r. OnlyRemote (count_command outside app) r.app) (λ r. OnlyRemote app r.app)
        (remote_send_request outside (count_command outside app) w target (codes "APDU")
          (to_hex false sent) [])
        _
        (remote_send_request-OnlyRemote (count_command outside app) w target (codes "APDU")
          (to_hex false sent) [])
        (λ r h.
          take_response-OnlyRemote app r recv len
            (OnlyRemote-trans app (count_command outside app) r.app (_, refl) h))

  transmit_over-OnlyRemote :
      (s : SocketPtr) (app : App) (w : World) (target : Text) (sent recv : Bytes) (len : ℕ)
      → Whenever (λ r. OnlyRemote app r.app) (transmit_over outside s app w target sent recv len)
  unfolding transmit_over
  transmit_over-OnlyRemote null app w target sent recv len = (_, refl)
  transmit_over-OnlyRemote live app w target sent recv len =
      apdu-OnlyRemote app w target sent recv len
  transmit_over-OnlyRemote shut app w target sent recv len =
      apdu-OnlyRemote app w target sent recv len
  transmit_over-OnlyRemote deleted app w target sent recv len =
      apdu-OnlyRemote app w target sent recv len

  pub remote_scard_transmit-OnlyRemote :
      (app : App) (w : World) (target : Text) (sent recv : Bytes) (len : ℕ)
      → Whenever
          (λ r. OnlyRemote app r.app)
          (remote_scard_transmit outside app w target sent recv len)
  unfolding remote_scard_transmit
  remote_scard_transmit-OnlyRemote app w target sent recv len =
      transmit_over-OnlyRemote app.remote_config.socket app w target sent recv len
