-- ===== src/RemoteReaders.antt =====
-- The readers of the remote proxy: `Remote_Connect` and `Remote_ListReaders` of Winscard/Winscard.cpp, and
-- the first part of `SCardListReaders`, which puts them into the list of virtual readers.
pub mod Unreached
pub mod Kept
use apduplay.Base.{
  Bool, List, Outcome, Text, [], codes, false, if◌then◌else◌, length, ltb, map, ok, ℕ, ◌++◌, ◌==◌,
  ◌>>=◌, ◌||◌, ◌∷◌,
}
use apduplay.Status.{scard_f_comm_error, scard_s_success}
use apduplay.CString.{trim_right}
use apduplay.Base64.{base64_decode}
use apduplay.Separated.{parse_separated_array}
use apduplay.Remote.{cmd_separator}
use apduplay.App.{App, Outside, SocketPtr, null}
use apduplay.Session.{remote_scard_connect, remote_send_request}
use apduplay.Cards.{assign_name}

abbrev pub no_reader : Text
no_reader = codes "*"

abbrev pub is_white : ℕ → Bool
is_white c = c == b' ' || c == b'\n' || c == b'\r' || c == b'\t'

-- `s.at(s.length() - 1) == '='`
abbrev ends_with_pad : Text → Bool
ends_with_pad [] = false
ends_with_pad (c ∷ []) = c == b'='
ends_with_pad (c ∷ d ∷ s) = ends_with_pad (d ∷ s)

-- A name that ends with `=` is taken to be base64.
pub reader_from : Text → Text
unfolding base64_decode
reader_from s = if ends_with_pad s then base64_decode s else s

module _ (outside : Outside) where
  open outside use {World, open_socket, close_socket}

  abbrev pub with_socket : App → SocketPtr → App
  with_socket app s = record app { remote_config = record (app.remote_config) { socket = s } }

  -- `Remote_Connect`: a connection on trial, closed (by `Close` and by the destructor); then the tag, if there is one. Where the
  -- connection fails the pointer keeps what it held.
  unfoldable pub remote_connect : App → World → Outcome (App × World)
  unfolding remote_send_request
  remote_connect app w =
      let (v1, done) = open_socket w in
      if done
      then (let app1 = with_socket app null in
          let v2 = close_socket (close_socket v1) in
          if ltb 0 (length app.remote_config.remote_tag)
          then (remote_send_request outside app1 v2 no_reader (codes "PERSONALIZE")
                app.remote_config.remote_tag []
              >>= λ r. ok (r.app, r.world))
          else ok (app1, v2))
      else ok (app, v1)

  -- What `Remote_ListReaders` leaves: the status and the names.
  pub record RemoteReaders : Type 0 where
    pub app : App
    pub world : World
    pub status : ℕ
    pub names : List Text

  -- `Remote_ListReaders` for a pointer to a socket; the status of the request is not looked at.
  pub list_over : SocketPtr → App → World → Outcome RemoteReaders
  unfolding reader_from
  list_over null app w =
      ok (record { app = app; world = w; status = scard_f_comm_error; names = [] })
  list_over _ app w =
      remote_send_request outside app w no_reader (codes "READERS")
        (app.remote_config.remote_tag ++ (cmd_separator ++ codes "0")) []
      >>= λ r.
          let response = trim_right is_white r.response in
          parse_separated_array (response ++ 0 ∷ []) (length response) b'|' [] >>= λ names.
          ok (record {
            app = r.app;
            world = r.world;
            status = scard_s_success;
            names = map reader_from names;
          })

  -- `Remote_ListReaders`
  unfoldable pub remote_list_readers : App → World → Outcome RemoteReaders
  unfolding list_over
  remote_list_readers app w = list_over app.remote_config.socket app w

  -- The loop that asks every remote reader for its ATR.
  pub collect_atrs : App → World → List Text → Outcome (App × World)
  unfolding assign_name
  collect_atrs app w [] = ok (app, w)
  collect_atrs app w (name ∷ names) = remote_scard_connect outside app w name >>= λ r.
      collect_atrs
        (if r.status == scard_s_success
          then record (r.app) {
            remote_cards_atr_map = assign_name name r.response r.app.remote_cards_atr_map;
          }
          else r.app)
        r.world names

  abbrev pub set_virtual : App → List Text → App
  set_virtual app names = record app {
    winscard_config = record (app.winscard_config) { list_virtual_readers = names };
  }

  -- `if (theApp.m_remoteConfig.bRedirect)`
  unfoldable pub refresh_virtual_readers : App → World → Outcome (App × World)
  refresh_virtual_readers app w =
      if app.remote_config.redirect
      then (remote_list_readers app w >>= λ r.
          if r.status == scard_s_success
          then (collect_atrs (record (set_virtual (r.app) r.names) { remote_cards_atr_map = [] })
                r.world r.names
              >>= λ (app2, v2). ok (
                set_virtual app2 (
                    app2.winscard_config.list_virtual_readers_static
                    ++ app2.winscard_config.list_virtual_readers),
                v2,
              ))
          else ok (r.app, r.world))
      else ok (app, w)
