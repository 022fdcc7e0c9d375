-- ===== src/Transmit/Transmitted.antt =====
-- The state after a transmission by SCardTransmit of Winscard/Winscard.cpp, from any configuration.
use mathlib.Core.Path.{subst}
use apduplay.Base.{
  Bytes, Whenever, Whenever-any, Whenever-bind, Whenever-if, Whenever-ok, Whenever-weaken, ap,
  fault, leb, length, ok, out_of_bounds, overwrite, refl, replicate, take, ℕ, ◌&&◌, ◌+◌, ◌>>=◌, ◌∙◌,
  ◌∷◌, ◌≡◌,
}
use apduplay.Transmit.Lookup.{Named}
use apduplay.Transmit.Recorded.{
  OnlyRemote-Named, Responded, auto_request-OnlyRemote, first_exchange-OnlyRemote,
  respond-Responded,
}
use apduplay.Rules.{input_apdu, max_apdu_length}
use apduplay.Session.{Received}
use apduplay.Transmit.Local.{recorded}
use apduplay.Session.Frame.{OnlyRemote, OnlyRemote-trans}
use apduplay.Block.{memcpy}
use apduplay.Transmit.{
  Message, Unwritten, apdu_block, auto_request, first_exchange, modify_message, respond, save_input,
  save_output, scard_transmit,
}
use apduplay.App.{App, Outside, RemoteConfig}

-- The states that a transmission can leave: an answer that is kept, a remote configuration and a
-- number of processed bytes are open, everything else is given.
abbrev pub transmitted : App → Bytes → RemoteConfig → ℕ → Bytes → App
transmitted app command c n answer = record app {
  history = record {
    apdu_in_list = command ∷ app.history.apdu_in_list;
    apdu_out_list = answer ∷ app.history.apdu_out_list;
  };
  remote_config = c;
  processed_apdu_byte_counter = n;
  apdu_counter = app.apdu_counter + 1;
}

abbrev pub Transmitted : App → Bytes → App → Type 0
Transmitted app command app' =
    (answer : Bytes) × (c : RemoteConfig) × (n : ℕ) × (length answer ≡ max_apdu_length)
    × (app' ≡ transmitted app command c n answer)

abbrev with_answer : App → Bytes → App
with_answer app a = record (save_output app a) { apdu_counter = app.apdu_counter + 1 }

-- A command that is saved and counted, requests to the proxy, and an answer that is saved.
Transmitted-trans :
    (app a b : App) (command : Bytes) (n : ℕ)
    → OnlyRemote (record (save_input app command) { processed_apdu_byte_counter = n }) a
    → Responded a b
    → Transmitted app command b
Transmitted-trans app a b command n h k = (k.0, h.0, n, k.1, k.2 ∙ ap (λ x. with_answer x k.0) h.1)

apdu_block-is :
    (buffer : Bytes) (len : ℕ) → Whenever (λ a. a ≡ recorded buffer len) (apdu_block buffer len)
unfolding apdu_block memcpy
apdu_block-is buffer len =
    let cleared : Bytes = replicate max_apdu_length 0 in
    Whenever-if {A = Bytes} (λ a. a ≡ recorded buffer len)
      (leb len (length cleared) && leb len (length buffer))
      (ok (overwrite cleared (take len buffer))) (fault out_of_bounds) refl tt

module _ (outside : Outside) (fuel : ℕ) (u : Unwritten) where
  open outside use {World}

  -- From the first exchange on.
  after_exchange :
      (app : App) (w : World) (h_card : ℕ) (command : Bytes) (n : ℕ) (m : Message) (recv : Bytes)
      (recv_length : ℕ)
      → Named app
      → Whenever
          (λ x. Transmitted app command x.app)
          (first_exchange outside
              (record (save_input app command) { processed_apdu_byte_counter = n })
              w
              h_card
              m
              recv
              recv_length
            >>= λ r. auto_request outside fuel h_card r >>= λ r'. respond outside fuel u r')
  after_exchange app w h_card command n m recv recv_length named =
      let app2 : App = record (save_input app command) { processed_apdu_byte_counter = n } in
      Whenever-bind (λ r. OnlyRemote app2 r.app) (λ x. Transmitted app command x.app)
        (first_exchange outside app2 w h_card m recv recv_length) _
        (first_exchange-OnlyRemote outside app2 w h_card m recv recv_length named)
        (λ r h.
          Whenever-bind (λ r'. OnlyRemote r.app r'.app) (λ x. Transmitted app command x.app)
            (auto_request outside fuel h_card r) _
            (auto_request-OnlyRemote outside fuel h_card r (OnlyRemote-Named app2 r.app h named))
            (λ r' k.
              Whenever-weaken (λ x. Responded r'.app x.app) (λ x. Transmitted app command x.app)
                (respond outside fuel u r') (respond-Responded outside fuel u r')
                (λ x l.
                  Transmitted-trans app r'.app x.app command n
                    (OnlyRemote-trans app2 r.app r'.app h k) l)))

  pub transmits :
      (app : App) (w : World) (h_card : ℕ) (sent : Bytes) (len : ℕ) (recv : Bytes) (recv_length : ℕ)
      → Named app
      → Whenever
          (λ x. Transmitted app (recorded sent len) x.app)
          (scard_transmit outside fuel u app w h_card sent len recv recv_length)
  unfolding scard_transmit
  transmits app w h_card sent len recv recv_length named =
      Whenever-bind (λ a. a ≡ recorded sent len) (λ x. Transmitted app (recorded sent len) x.app)
        (apdu_block sent len) _ (apdu_block-is sent len)
        (λ a h.
          Whenever-bind (λ c. Unit {0}) (λ x. Transmitted app (recorded sent len) x.app)
            (memcpy u.send_stack sent len) _ (Whenever-any (memcpy u.send_stack sent len))
            (λ copied t.
              let modified =
                modify_message (save_input app a) u.rand fuel u.in_stack
                  (record { buffer = copied; len = len }) input_apdu in
              Whenever-bind (λ m. Unit {0}) (λ x. Transmitted app (recorded sent len) x.app)
                modified _ (Whenever-any modified)
                (λ m t'.
                  subst
                    (λ c.
                      Whenever (λ x. Transmitted app c x.app)
                        (first_exchange outside
                            (record (save_input app a) {
                              processed_apdu_byte_counter = app.processed_apdu_byte_counter + m.len;
                            })
                            w h_card m recv recv_length
                          >>= λ r. auto_request outside fuel h_card r >>= λ r'.
                              respond outside fuel u r'))
                    h
                    (after_exchange app w h_card a (app.processed_apdu_byte_counter + m.len) m recv
                      recv_length named))))

  -- However the switches are set and whatever the rules, the proxy and the original library do: a
  -- transmission that comes to an end, from a state in which every remote card's handle has the name
  -- of its reader, has put the command with zeros up to 300 bytes before the commands of the history
  -- and one block of 300 bytes before the responses, and has counted one APDU. Beside these only the
  -- counter of bytes and the remote configuration can differ: the rules, the readers, both tables of
  -- handles and the lists of allocations are as they were.
  pub scard_transmit-Transmitted :
      (app : App) (w : World) (h_card : ℕ) (sent : Bytes) (len : ℕ) (recv : Bytes) (recv_length : ℕ)
      (x : Received outside)
      → Named app
      → scard_transmit outside fuel u app w h_card sent len recv recv_length ≡ ok x
      → (answer : Bytes) × (c : RemoteConfig) × (n : ℕ) × (length answer ≡ max_apdu_length)
        × (x.app ≡ transmitted app (recorded sent len) c n answer)
  scard_transmit-Transmitted app w h_card sent len recv recv_length x named e =
      Whenever-ok (λ x. Transmitted app (recorded sent len) x.app)
        (scard_transmit outside fuel u app w h_card sent len recv recv_length)
        (transmits app w h_card sent len recv recv_length named) e
