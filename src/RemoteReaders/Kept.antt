-- ===== src/RemoteReaders/Kept.antt =====
-- A listing of the readers of the proxy leaves the history and the tables of handles alone.
use apduplay.Base.{
  Bool, List, Text, Whenever, Whenever-any, Whenever-bind, Whenever-if, Whenever-weaken, [], codes,
  false, if◌then◌else◌, length, ok, refl, true, ◌++◌, ◌==◌, ◌∙◌, ◌∷◌, ◌≡◌,
}
use apduplay.CString.{trim_right}
use apduplay.Separated.{parse_separated_array}
use apduplay.Cards.{assign_name}
use apduplay.Remote.{cmd_separator}
use apduplay.Status.{scard_s_success}
use apduplay.Session.{remote_scard_connect, remote_send_request}
use apduplay.Session.Frame.{
  OnlyRemote, OnlyRemote-core, remote_scard_connect-OnlyRemote, remote_send_request-OnlyRemote,
}
use apduplay.RemoteReaders.{
  collect_atrs, is_white, list_over, no_reader, refresh_virtual_readers, remote_list_readers,
  set_virtual,
}
use apduplay.App.{App, Core, Outside, SocketPtr, core, deleted, live, null, shut}

module _ (outside : Outside) where
  open outside use {World}

  list_over-live :
      (app : App) (w : World) → Whenever (λ r. core r.app ≡ core app) (list_over outside live app w)
  unfolding list_over
  list_over-live app w =
      let request =
        remote_send_request outside app w no_reader (codes "READERS")
          (app.remote_config.remote_tag ++ (cmd_separator ++ codes "0")) [] in
      Whenever-bind (λ r. OnlyRemote app r.app) (λ r. core r.app ≡ core app) request _
        (remote_send_request-OnlyRemote outside app w no_reader (codes "READERS")
          (app.remote_config.remote_tag ++ (cmd_separator ++ codes "0")) [])
        (λ r h.
          Whenever-bind (λ n. Unit {0}) (λ r. core r.app ≡ core app)
            (parse_separated_array (trim_right is_white r.response ++ 0 ∷ [])
              (length (trim_right is_white r.response)) b'|' [])
            _ (Whenever-any _) (λ names t. OnlyRemote-core app r.app h))

  list_over-core :
      (s : SocketPtr) (app : App) (w : World)
      → Whenever (λ r. core r.app ≡ core app) (list_over outside s app w)
  unfolding list_over
  list_over-core null app w = refl
  list_over-core live app w = list_over-live app w
  list_over-core shut app w = list_over-live app w
  list_over-core deleted app w = list_over-live app w

  pub core-if :
      (b : Bool) (x y : App) (c : Core) → core x ≡ c → core y ≡ c → core (if b then x else y) ≡ c
  core-if true x y c h k = h
  core-if false x y c h k = k

  collect_atrs-core :
      (names : List Text) (app : App) (w : World)
      → Whenever (λ r. core r.0 ≡ core app) (collect_atrs outside app w names)
  unfolding collect_atrs
  collect_atrs-core [] app w = refl
  collect_atrs-core (name ∷ names) app w =
      Whenever-bind (λ r. OnlyRemote app r.app) (λ r. core r.0 ≡ core app)
        (remote_scard_connect outside app w name) _
        (remote_scard_connect-OnlyRemote outside app w name)
        (λ r h.
          let known : App = record (r.app) {
            remote_cards_atr_map = assign_name name r.response r.app.remote_cards_atr_map;
          } in
          let next_app : App = if r.status == scard_s_success then known else r.app in
          let same : core next_app ≡ core app =
            core-if (r.status == scard_s_success) known r.app (core app)
              (OnlyRemote-core app r.app h) (OnlyRemote-core app r.app h) in
          Whenever-weaken (λ x. core x.0 ≡ core next_app) (λ x. core x.0 ≡ core app)
            (collect_atrs outside next_app r.world names) (collect_atrs-core names next_app r.world)
            (λ x k. k ∙ same))

  remote_list_readers-core :
      (app : App) (w : World)
      → Whenever (λ r. core r.app ≡ core app) (remote_list_readers outside app w)
  unfolding remote_list_readers
  remote_list_readers-core app w = list_over-core app.remote_config.socket app w

  pub refresh_virtual_readers-core :
      (app : App) (w : World)
      → Whenever (λ r. core r.0 ≡ core app) (refresh_virtual_readers outside app w)
  unfolding refresh_virtual_readers
  refresh_virtual_readers-core app w =
      Whenever-if (λ r. core r.0 ≡ core app) app.remote_config.redirect _ (ok (app, w))
        (Whenever-bind (λ r. core r.app ≡ core app) (λ r. core r.0 ≡ core app)
          (remote_list_readers outside app w) _ (remote_list_readers-core app w)
          (λ r h.
            let listed : App = record (set_virtual outside (r.app) r.names) {
              remote_cards_atr_map = [];
            } in
            Whenever-if (λ r. core r.0 ≡ core app) (r.status == scard_s_success) _
              (ok (r.app, r.world))
              (Whenever-bind (λ x. core x.0 ≡ core listed) (λ x. core x.0 ≡ core app)
                (collect_atrs outside listed r.world r.names) _
                (collect_atrs-core r.names listed r.world) (λ x k. k ∙ h))
              h))
        refl
