-- ===== src/Transmit/Recorded.antt =====
-- What every transmission does to the state, whatever the configuration, the rules and the proxy do.
use apduplay.Base.{
  Bool-cases, Bytes, Whenever, Whenever-any, Whenever-bind, Whenever-if, Whenever-weaken, drop,
  fault, if◌then◌else◌, inl, inr, leb, length, length-overwrite, ok, out_of_bounds, overwrite, pos,
  refl, replicate, suc, sym, take, true, zero, ℕ, ◌%◌, ◌&&◌, ◌+◌, ◌-◌, ◌==◌, ◌||◌, ◌≡◌,
}
use apduplay.Transmit.Lookup.{get_reader_name-Named, Named}
use apduplay.Status.{scard_s_success}
use apduplay.Rules.{max_apdu_length}
use apduplay.Session.{Received, remote_scard_transmit}
use apduplay.Block.{memcpy, read}
use apduplay.Session.Frame.{OnlyRemote, OnlyRemote-trans, remote_scard_transmit-OnlyRemote}
use apduplay.App.{App, Outside, dword}
use apduplay.Transmit.{
  Message, Unwritten, apdu_block, auto_request, exchange, first_exchange, force_data, get_data,
  get_reader_name, is_remote_card, modify_message, read_all, request_count, respond, save_output,
  splice,
}
use mathlib.Core.Path.{subst}

pub OnlyRemote-Named : (a b : App) → OnlyRemote a b → Named a → Named b
OnlyRemote-Named a b h n = subst Named (sym h.1) n

apdu_block-length :
    (buffer : Bytes) (len : ℕ) → Whenever (λ a. length a ≡ max_apdu_length) (apdu_block buffer len)
unfolding apdu_block memcpy
apdu_block-length buffer len =
    let cleared : Bytes = replicate max_apdu_length 0 in
    Whenever-if {A = Bytes} (λ a. length a ≡ max_apdu_length)
      (leb len (length cleared) && leb len (length buffer))
      (ok (overwrite cleared (take len buffer))) (fault out_of_bounds)
      (length-overwrite cleared (take len buffer)) tt

-- What an answer leaves of the state: the answer is kept as a block, and counted.
abbrev pub Responded : App → App → Type 0
Responded app app' =
    (a : Bytes) × (length a ≡ max_apdu_length)
    × (app' ≡ record (save_output app a) { apdu_counter = app.apdu_counter + 1 })

module _ (outside : Outside) where
  open outside use {World, transmit}

  exchange-remote :
      (app : App) (w : World) (h_card : ℕ) (sent recv : Bytes) (len : ℕ)
      → Named app
      → is_remote_card app h_card ≡ true
      → Whenever (λ r. OnlyRemote app r.app) (exchange outside app w h_card sent recv len)
  unfolding exchange
  exchange-remote app w h_card sent recv len n remote = rw remote (
      subst
        (λ a.
          Whenever (λ r. OnlyRemote a r.app)
            (remote_scard_transmit outside (get_reader_name app h_card).0 w
              (get_reader_name app h_card).1 sent recv len))
        (get_reader_name-Named app h_card n remote)
        (remote_scard_transmit-OnlyRemote outside (get_reader_name app h_card).0 w
          (get_reader_name app h_card).1 sent recv len))

  exchange-OnlyRemote :
      (app : App) (w : World) (h_card : ℕ) (sent recv : Bytes) (len : ℕ)
      → Named app
      → Whenever (λ r. OnlyRemote app r.app) (exchange outside app w h_card sent recv len)
  unfolding exchange
  exchange-OnlyRemote app w h_card sent recv len n = elim (Bool-cases (is_remote_card app h_card)) [
    | inl remote ↦ exchange-remote app w h_card sent recv len n remote
    | inr local ↦ rw local (_, refl)
  ]

  pub first_exchange-OnlyRemote :
      (app : App) (w : World) (h_card : ℕ) (m : Message) (recv : Bytes) (len : ℕ)
      → Named app
      → Whenever (λ r. OnlyRemote app r.app) (first_exchange outside app w h_card m recv len)
  unfolding first_exchange
  first_exchange-OnlyRemote app w h_card m recv len n =
      Whenever-if (λ r. OnlyRemote app r.app) (is_remote_card app h_card)
        (exchange outside app w h_card (take m.len m.buffer) recv len) _
        (exchange-OnlyRemote app w h_card (take m.len m.buffer) recv len n)
        (Whenever-bind (λ f. Unit {0}) (λ r. OnlyRemote app r.app)
          (force_data app.winscard_config.force_apdu_nonzero_input_data m) _
          (Whenever-any (force_data app.winscard_config.force_apdu_nonzero_input_data m))
          (λ f t. exchange-OnlyRemote app w h_card (take f.len f.buffer) recv len n))

  read_all-OnlyRemote :
      (fuel : ℕ) (app : App) (w : World) (h_card : ℕ) (recv : Bytes) (len result offset : ℕ)
      → Named app
      → Whenever
          (λ r. OnlyRemote app r.app)
          (read_all outside fuel app w h_card recv len result offset)
  unfolding read_all
  read_all-OnlyRemote zero app w h_card recv len result offset n = tt
  read_all-OnlyRemote (suc fuel) app w h_card recv len result offset n =
      Whenever-bind (λ b. Unit {0}) (λ r. OnlyRemote app r.app) (read recv offset) _
        (Whenever-any (read recv offset))
        (λ first t. elim (Bool-cases (first == 0x61 || first == 0x6C)) [
          | inr done ↦ rw done (_, refl)
          | inl more_data ↦ rw more_data (
              Whenever-bind (λ b. Unit {0}) (λ r. OnlyRemote app r.app)
                (read recv ((len + dword - 1) % dword)) _
                (Whenever-any (read recv ((len + dword - 1) % dword)))
                (λ rest t'.
                  Whenever-bind (λ r. OnlyRemote app r.app) (λ r. OnlyRemote app r.app)
                    (exchange outside app w h_card (get_data rest) (drop offset recv)
                      (request_count rest + 2))
                    _
                    (exchange-OnlyRemote app w h_card (get_data rest) (drop offset recv)
                      (request_count rest + 2) n)
                    (λ r h.
                      Whenever-weaken (λ x. OnlyRemote r.app x.app) (λ x. OnlyRemote app x.app)
                        (read_all outside fuel r.app r.world h_card
                          (splice recv offset r.recv_buffer) r.recv_length r.status
                          ((r.recv_length + dword - 2) % dword))
                        (read_all-OnlyRemote fuel r.app r.world h_card
                          (splice recv offset r.recv_buffer) r.recv_length r.status
                          ((r.recv_length + dword - 2) % dword) (OnlyRemote-Named app r.app h n))
                        (λ x k. OnlyRemote-trans app r.app x.app h k))))
        ])

  pub auto_request-OnlyRemote :
      (fuel h_card : ℕ) (r : Received outside)
      → Named r.app
      → Whenever (λ x. OnlyRemote r.app x.app) (auto_request outside fuel h_card r)
  unfolding auto_request
  auto_request-OnlyRemote fuel h_card r n =
      Whenever-if (λ x. OnlyRemote r.app x.app)
        (r.recv_length == 2 && r.app.winscard_config.auto_request_data)
        (read_all outside fuel r.app r.world h_card r.recv_buffer r.recv_length r.status 0) (ok r)
        (read_all-OnlyRemote fuel r.app r.world h_card r.recv_buffer r.recv_length r.status 0 n)
        (_, refl)

  pub respond-Responded :
      (fuel : ℕ) (u : Unwritten) (r : Received outside)
      → Whenever (λ x. Responded r.app x.app) (respond outside fuel u r)
  unfolding respond
  respond-Responded fuel u r =
      let n : ℕ = if r.status == scard_s_success then r.recv_length else 0 in
      Whenever-bind (λ a. length a ≡ max_apdu_length) (λ x. Responded r.app x.app)
        (apdu_block r.recv_buffer n) _ (apdu_block-length r.recv_buffer n)
        (λ a h.
          Whenever-bind (λ m. Unit {0}) (λ x. Responded r.app x.app)
            (modify_message (save_output (r.app) a) u.rand fuel u.out_stack
              (record { buffer = r.recv_buffer; len = n }) (pos 0))
            _
            (Whenever-any (
              modify_message (save_output (r.app) a) u.rand fuel u.out_stack
                (record { buffer = r.recv_buffer; len = n }) (pos 0)))
            (λ m t. (a, h, refl)))
