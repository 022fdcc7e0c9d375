-- ===== src/Cards/Connect.antt =====
-- What a connection does to the tables of handles.
use apduplay.Base.{
  Text, Whenever, Whenever-bind, Whenever-ok, ap, false, ok, refl, true, ℕ, ◌%◌, ◌+◌, ◌≡◌,
}
use apduplay.Session.{remote_scard_connect}
use apduplay.Session.Frame.{OnlyRemote, remote_scard_connect-OnlyRemote}
use apduplay.Cards.{Connected, connect_local, connect_remote, is_remote_reader, scard_connect}
use apduplay.App.{App, Core, Outside, assign_handle, core, dword}

-- A remote card with its handle in both tables.
abbrev pub connected : Core → ℕ → Text → Core
connected c h_card reader = record c {
  next_remote_card_id = h_card;
  remote_readers_map = assign_handle h_card reader c.remote_readers_map;
  card_reader_map = assign_handle h_card reader c.card_reader_map;
}

abbrev pub next_handle : App → ℕ
next_handle app = (app.next_remote_card_id + 1) % dword

module _ (outside : Outside) where
  open outside use {World}

  abbrev pub renamed : App → ℕ → Text → App
  renamed x h_card reader = record x {
    card_reader_map = assign_handle h_card reader x.card_reader_map;
  }

  connect_remote-core :
      (app : App) (w : World) (reader : Text)
      → Whenever
          (λ r. (r.h_card ≡ next_handle app) × (core r.app ≡ connected (core app) r.h_card reader))
          (connect_remote outside app w reader)
  unfolding connect_remote
  connect_remote-core app w reader =
      let app1 : App = record app {
        next_remote_card_id = next_handle app;
        remote_readers_map = assign_handle (next_handle app) reader app.remote_readers_map;
      } in
      Whenever-bind (λ r. OnlyRemote app1 r.app)
        (λ r. (r.h_card ≡ next_handle app) × (core r.app ≡ connected (core app) r.h_card reader))
        (remote_scard_connect outside app1 w reader) _
        (remote_scard_connect-OnlyRemote outside app1 w reader)
        (λ r h. (refl, ap (λ x. core (renamed x (next_handle app) reader)) h.1))

  connects_remote :
      (app : App) (w : World) (h_context : ℕ) (reader : Text) (share_mode protocols : ℕ)
      → is_remote_reader app reader ≡ true
      → Whenever
          (λ r. (r.h_card ≡ next_handle app) × (core r.app ≡ connected (core app) r.h_card reader))
          (scard_connect outside app w h_context reader share_mode protocols)
  unfolding scard_connect
  connects_remote app w h_context reader share_mode protocols virtual =
      rw virtual (connect_remote-core app w reader)

  connects_local :
      (app : App) (w : World) (h_context : ℕ) (reader : Text) (share_mode protocols : ℕ)
      → is_remote_reader app reader ≡ false
      → Whenever
          (λ r. core r.app ≡ core (renamed app r.h_card reader))
          (scard_connect outside app w h_context reader share_mode protocols)
  unfolding scard_connect connect_local
  connects_local app w h_context reader share_mode protocols local = rw local refl

  -- A connection to a virtual reader that comes to an end.
  pub scard_connect-remote :
      (app : App) (w : World) (h_context : ℕ) (reader : Text) (share_mode protocols : ℕ)
      (r : Connected outside)
      → is_remote_reader app reader ≡ true
      → scard_connect outside app w h_context reader share_mode protocols ≡ ok r
      → (r.h_card ≡ next_handle app) × (core r.app ≡ connected (core app) r.h_card reader)
  scard_connect-remote app w h_context reader share_mode protocols r virtual e =
      Whenever-ok
        (λ r. (r.h_card ≡ next_handle app) × (core r.app ≡ connected (core app) r.h_card reader))
        (scard_connect outside app w h_context reader share_mode protocols) {a = r}
        (connects_remote app w h_context reader share_mode protocols virtual) e

  -- A connection to a reader of the original library.
  pub scard_connect-local :
      (app : App) (w : World) (h_context : ℕ) (reader : Text) (share_mode protocols : ℕ)
      (r : Connected outside)
      → is_remote_reader app reader ≡ false
      → scard_connect outside app w h_context reader share_mode protocols ≡ ok r
      → core r.app ≡ core (renamed app r.h_card reader)
  scard_connect-local app w h_context reader share_mode protocols r local e =
      Whenever-ok (λ r. core r.app ≡ core (renamed app r.h_card reader))
        (scard_connect outside app w h_context reader share_mode protocols) {a = r}
        (connects_local app w h_context reader share_mode protocols local) e
