-- ===== src/System.antt =====
-- The calls of Winscard/Winscard.cpp that change the state of `CWinscardApp`, in any order, and what holds
-- between them. Each call may find the outside world in any state.

pub mod Valid
pub mod Reachable
use apduplay.Base.{
  Bytes, List, Option, Text, [], false, length, ok, some, true, ℕ, ◌+◌, ◌<◌, ◌≡◌, ◌≤◌, ◌⊎◌,
}
use apduplay.Cards.ConnectW.{ConnectedW, scard_connect_w}
use apduplay.ReadersW.{scard_list_readers_w}
use apduplay.Memory.{Freed, scard_free_memory}
use apduplay.Readers.{Listed, scard_list_readers}
use apduplay.Session.{Received}
use apduplay.Transmit.{Unwritten, is_remote_card, scard_transmit}
use apduplay.Cards.{
  Connected, is_remote_reader, scard_connect, scard_establish_context, scard_release_context,
}
use apduplay.Rules.Selection.{IsHistory}
use apduplay.App.{App, Core, Outside, dword, find_handle}

-- Blocks of 300 bytes, as many commands as responses; every remote card has a handle from 2 to the
-- newest, and is known by the name of its reader.
pub record IsValid (c : Core) : Type 0 where
  pub counted : 1 ≤ c.next_remote_card_id
  pub blocks : IsHistory c.history
  pub paired : length c.history.apdu_in_list ≡ length c.history.apdu_out_list
  pub named :
      (h : ℕ) (name : Text)
      → find_handle h c.remote_readers_map ≡ some name
      → find_handle h c.card_reader_map ≡ some name
  pub issued :
      (h : ℕ) (name : Text)
      → find_handle h c.remote_readers_map ≡ some name
      → (1 < h) × (h ≤ c.next_remote_card_id)

-- A call that came to an end. A connection is no step where the number of the remote cards would
-- leave a DWORD, or the original library gives out the handle of a remote card.
pub data Step (outside : Outside) (a b : App) : Type 0 where
  establish :
      (w : outside.World) (scope : ℕ)
      → b ≡ (scard_establish_context outside a w scope).0
      → Step outside a b
  release :
      (w : outside.World) (h_context : ℕ)
      → b ≡ (scard_release_context outside a w h_context).0
      → Step outside a b
  connect :
      (w : outside.World) (h_context : ℕ) (reader : Text) (share_mode protocols : ℕ)
      (r : Connected outside)
      → scard_connect outside a w h_context reader share_mode protocols ≡ ok r
      → a.next_remote_card_id + 1 < dword
      → (is_remote_reader a reader ≡ true) ⊎ (is_remote_card a r.h_card ≡ false)
      → b ≡ r.app
      → Step outside a b
  connect_w :
      (w : outside.World) (h_context : ℕ) (reader : Text) (share_mode protocols : ℕ)
      (r : ConnectedW outside)
      → scard_connect_w outside a w h_context reader share_mode protocols ≡ ok r
      → b ≡ r.app
      → Step outside a b
  transmit :
      (fuel : ℕ) (u : Unwritten) (w : outside.World) (h_card : ℕ) (sent : Bytes) (len : ℕ)
      (recv : Bytes) (recv_length : ℕ) (r : Received outside)
      → scard_transmit outside fuel u a w h_card sent len recv recv_length ≡ ok r
      → b ≡ r.app
      → Step outside a b
  list_readers :
      (w : outside.World) (h_context : ℕ) (groups : Text) (p : ℕ) (buffer : Option Bytes) (len : ℕ)
      (l : Listed outside)
      → scard_list_readers outside a w h_context groups p buffer len ≡ ok l
      → b ≡ l.app
      → Step outside a b
  list_readers_w :
      (w : outside.World) (h_context : ℕ) (groups : Text) (p : ℕ) (buffer : Option Bytes) (len : ℕ)
      (l : Listed outside)
      → scard_list_readers_w outside a w h_context groups p buffer len ≡ ok l
      → b ≡ l.app
      → Step outside a b
  free_memory :
      (w : outside.World) (heap : List ℕ) (h_context p : ℕ) (f : Freed outside)
      → scard_free_memory outside a w heap h_context p ≡ ok f
      → b ≡ f.app
      → Step outside a b

pub data Reach (outside : Outside) (a : App) : App → Type 0 where
  here : Reach outside a a
  next : {b c : App} → Reach outside a b → Step outside b c → Reach outside a c

-- The state of the constructor: no history and no cards.
abbrev pub initial : Core
initial = record {
  history = record { apdu_in_list = []; apdu_out_list = [] };
  card_reader_map = [];
  remote_readers_map = [];
  next_remote_card_id = 1;
}
