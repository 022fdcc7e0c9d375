-- ===== src/Cards.antt =====
-- Contexts, readers and card handles: the functions of Winscard/Winscard.cpp that open, close and
-- describe cards. A remote card is told by its handle, a remote reader by its name.
pub mod Handles
pub mod Connect
pub mod ConnectW
use apduplay.Base.{
  Bool, List, Outcome, Text, [], false, if◌then◌else◌, ok, ℕ, ◌%◌, ◌+◌, ◌>>=◌, ◌||◌, ◌∷◌,
}
use apduplay.Status.{scard_s_success}
use apduplay.CString.{text_eq}
use apduplay.App.{App, Outside, assign_handle, dword}
use apduplay.Session.{remote_scard_connect}
use apduplay.Transmit.{is_remote_card}

abbrev pub scard_share_shared : ℕ
scard_share_shared = 2

abbrev pub scard_specific : ℕ
scard_specific = 6

abbrev pub scard_protocol_t1 : ℕ
scard_protocol_t1 = 2

-- `IsRemoteReader`
unfoldable pub contains_name : List Text → Text → Bool
unfolding text_eq
contains_name [] name = false
contains_name (v ∷ vs) name = text_eq v name || contains_name vs name

unfoldable pub is_remote_reader : App → Text → Bool
unfolding contains_name
is_remote_reader app name = contains_name app.winscard_config.list_virtual_readers name

unfoldable pub assign_name : Text → Text → List (Text × Text) → List (Text × Text)
unfolding text_eq
assign_name k v [] = (k, v) ∷ []
assign_name k v ((j, w) ∷ m) = if text_eq j k then (k, v) ∷ m else (j, w) ∷ assign_name k v m

-- `Remote_SCardReleaseContext`
unfoldable pub remote_scard_release_context : App → App
remote_scard_release_context app = record app {
  card_reader_map = [];
  remote_readers_map = [];
  next_remote_card_id = 1;
}

module _ (outside : Outside) where
  open outside use {
    World, establish_context, release_context, connect, reconnect, disconnect, begin_transaction,
    end_transaction, status,
  }

  -- `SCardEstablishContext`: the status and the context.
  unfoldable pub scard_establish_context : App → World → ℕ → App × World × ℕ × ℕ
  unfolding remote_scard_release_context
  scard_establish_context app w scope =
      let (w', result, context) = establish_context w scope in
      (remote_scard_release_context app, w', result, context)

  unfoldable pub scard_release_context : App → World → ℕ → App × World × ℕ
  unfolding remote_scard_release_context
  scard_release_context app w h_context =
      let (w', result) = release_context w h_context in
      (remote_scard_release_context app, w', result)

  -- What a connection leaves: the status and the handle.
  pub record Connected : Type 0 where
    pub app : App
    pub world : World
    pub status : ℕ
    pub h_card : ℕ

  -- `cardReaderMap[*phCard] = szReader`
  abbrev store_reader : App → ℕ → Text → App
  store_reader app h_card reader = record app {
    card_reader_map = assign_handle h_card reader app.card_reader_map;
  }

  -- A remote reader: a new handle, and a RESET of the card.
  pub connect_remote : App → World → Text → Outcome Connected
  unfolding assign_name assign_handle remote_scard_connect
  connect_remote app w reader =
      let h_card = (app.next_remote_card_id + 1) % dword in
      let app1 = record app {
        next_remote_card_id = h_card;
        remote_readers_map = assign_handle h_card reader app.remote_readers_map;
      } in
      remote_scard_connect outside app1 w reader >>= λ r.
      let app2 = record (r.app) {
        remote_cards_atr_map = assign_name reader r.response r.app.remote_cards_atr_map;
      } in
      ok (record {
        app = store_reader app2 h_card reader;
        world = r.world;
        status = r.status;
        h_card = h_card;
      })

  pub connect_local : App → World → ℕ → Text → ℕ → ℕ → Outcome Connected
  unfolding assign_handle
  connect_local app w h_context reader share_mode protocols =
      let (w', result, h_card, _) = connect w h_context reader share_mode protocols in
      ok (record {
        app = store_reader app h_card reader;
        world = w';
        status = result;
        h_card = h_card;
      })

  -- `SCardConnect`
  unfoldable pub scard_connect : App → World → ℕ → Text → ℕ → ℕ → Outcome Connected
  unfolding is_remote_reader connect_remote connect_local
  scard_connect app w h_context reader share_mode protocols =
      let mode =
        if app.winscard_config.force_connect_shared_mode then scard_share_shared else share_mode in
      if is_remote_reader app reader
      then connect_remote app w reader
      else connect_local app w h_context reader mode protocols

  -- `SCardReconnect`: for a remote card the protocol is assigned behind the `return`, so never.
  unfoldable pub scard_reconnect : App → World → ℕ → ℕ → ℕ → ℕ → ℕ → World × ℕ × ℕ
  unfolding is_remote_card
  scard_reconnect app w h_card share_mode protocols initialization active_protocol =
      if is_remote_card app h_card
      then (w, scard_s_success, active_protocol)
      else reconnect w h_card share_mode protocols initialization

  unfoldable pub scard_begin_transaction : App → World → ℕ → World × ℕ
  unfolding is_remote_card
  scard_begin_transaction app w h_card =
      if is_remote_card app h_card then (w, scard_s_success) else begin_transaction w h_card

  unfoldable pub scard_end_transaction : App → World → ℕ → ℕ → World × ℕ
  unfolding is_remote_card
  scard_end_transaction app w h_card disposition =
      if is_remote_card app h_card
      then (w, scard_s_success)
      else end_transaction w h_card disposition

  -- `SCardDisconnect`: no table is touched.
  unfoldable pub scard_disconnect : App → World → ℕ → ℕ → World × ℕ
  unfolding is_remote_card
  scard_disconnect app w h_card disposition =
      if is_remote_card app h_card then (w, scard_s_success) else disconnect w h_card disposition

  -- `SCardStatus`: the status, the state and the protocol.
  unfoldable pub scard_status : App → World → ℕ → World × ℕ × ℕ × ℕ
  unfolding is_remote_card
  scard_status app w h_card =
      if is_remote_card app h_card
      then (w, scard_s_success, scard_specific, scard_protocol_t1)
      else status w h_card
