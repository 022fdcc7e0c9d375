-- ===== src/RemoteReaders/Unreached.antt =====
-- What the start leaves of the socket, and what the list of readers then asks the proxy.
use apduplay.Base.{Bool-cases, [], ap, inl, inr, ok, refl, ◌≡◌}
use apduplay.Status.{scard_f_comm_error}
use apduplay.App.{App, Outside, null}
use apduplay.RemoteReaders.{
  list_over, refresh_virtual_readers, remote_connect, remote_list_readers, with_socket,
}

module _ (outside : Outside) where
  open outside use {World, open_socket}

  list-null :
      (app : App) (w : World)
      → app.remote_config.socket ≡ null
      → remote_list_readers outside app w
        ≡ ok (record { app = app; world = w; status = scard_f_comm_error; names = [] })
  unfolding remote_list_readers
  list-null app w closed = ap (λ s. list_over outside s app w) closed

  refresh-null :
      (app : App) (w : World)
      → app.remote_config.socket ≡ null
      → refresh_virtual_readers outside app w ≡ ok (app, w)
  unfolding refresh_virtual_readers
  refresh-null app w closed = elim (Bool-cases app.remote_config.redirect) [
    | inl on ↦ simp (on, list-null app w closed)
    | inr off ↦ simp off
  ]

  -- Without a tag for the proxy, the socket is NULL after `Remote_Connect`, whether the connection on
  -- trial succeeds or not, and a list of readers that follows asks the proxy for nothing and changes
  -- nothing, with redirection too.
  pub remote_connect-refresh :
      (app : App) (w : World)
      → app.remote_config.socket ≡ null
      → app.remote_config.remote_tag ≡ []
      → (r : App × World) × (remote_connect outside app w ≡ ok r)
        × (r.0.remote_config.socket ≡ null)
        × (refresh_virtual_readers outside r.0 r.1 ≡ ok r)
  unfolding remote_connect
  remote_connect-refresh app w closed no_tag = elim (Bool-cases (open_socket w).1) [
    | inl done ↦
        let app1 : App = with_socket outside app null in
        let w1 = outside.close_socket (outside.close_socket (open_socket w).0) in
        ((app1, w1), simp (done, no_tag), refl, refresh-null app1 w1 refl)
    | inr refused ↦
        ((app, (open_socket w).0), simp refused, closed, refresh-null app (open_socket w).0 closed)
  ]
