-- ===== src/Session/Tag.antt =====
-- What a request to the proxy leaves of the remote configuration: the tag.
use apduplay.Base.{
  Bool, Text, Whenever, Whenever-bind, Whenever-if, false, if◌then◌else◌, refl, true, ◌∙◌, ◌≡◌,
}
use apduplay.Remote.{Parsed, raised, returned}
use apduplay.App.{App, Outside, SocketPtr, deleted, live, null, shut}
use apduplay.Session.{Answered, ask, count_command, finish_request, open_phase, remote_send_request}

abbrev pub tag : App → Text
tag app = app.remote_config.remote_tag

module _ (outside : Outside) where
  open outside use {World}

  open_phase-tag :
      (every : Bool) (s : SocketPtr) (app : App) (w : World)
      → Whenever (λ r. tag r.0 ≡ tag app) (open_phase outside every s app w)
  unfolding open_phase
  open_phase-tag true null app w = refl
  open_phase-tag true live app w = refl
  open_phase-tag true shut app w = refl
  open_phase-tag true deleted app w = tt
  open_phase-tag false null app w = refl
  open_phase-tag false live app w = refl
  open_phase-tag false shut app w = refl
  open_phase-tag false deleted app w = tt

  tag-if :
      (app : App) (b : Bool) (x y : Answered outside)
      → tag x.app ≡ tag app
      → tag y.app ≡ tag app
      → tag (if b then x else y).app ≡ tag app
  tag-if app true x y h k = h
  tag-if app false x y h k = k

  finish_request-tag :
      (app : App) (w : World) (response : Text) (p : Parsed)
      → tag (finish_request outside app w response p).app ≡ tag app
  unfolding finish_request
  finish_request-tag app w response raised = refl
  finish_request-tag app w response (returned status answer) =
      tag-if app app.remote_config.open_socket_for_every_command _ _ refl refl

  ask-tag :
      (app : App) (w : World) (target command content response : Text)
      → tag (ask outside app w target command content response).app ≡ tag app
  unfolding ask
  ask-tag app w target command content response =
      finish_request-tag (count_command outside app) _ response _

  pub remote_send_request-tag :
      (app : App) (w : World) (target command sent response : Text)
      → Whenever
          (λ r. tag r.app ≡ tag app)
          (remote_send_request outside app w target command sent response)
  unfolding remote_send_request
  remote_send_request-tag app w target command sent response =
      Whenever-bind (λ r. tag r.0 ≡ tag app) (λ r. tag r.app ≡ tag app)
        (open_phase outside app.remote_config.open_socket_for_every_command app.remote_config.socket
          app w)
        _
        (open_phase-tag app.remote_config.open_socket_for_every_command app.remote_config.socket app
          w)
        (λ r h.
          Whenever-if (λ a. tag a.app ≡ tag app) r.2 _ _
            (ask-tag r.0 r.1 target command sent response ∙ h) h)
