-- ===== src/Cards/ConnectW.antt =====
-- `SCardConnectW` of Winscard/Winscard.cpp, which knows nothing of virtual readers: with redirection it
-- prepares a measurement at the proxy and gives out a fixed handle.
use apduplay.Base.{
  Outcome, Text, Whenever, Whenever-if, [], ap, codes, dangling, fault, if◌then◌else◌, negsuc, ok,
  pos, refl, true, ℕ, ℤ, ◌++◌, ◌+◌, ◌∙◌, ◌∷◌, ◌≡◌,
}
use apduplay.Status.{scard_s_success}
use apduplay.Decimal.{decimal, format_d}
use apduplay.App.{App, Outside, RemoteConfig, SocketPtr, core, deleted, live, null, shut}

-- HANDLE_VIRTUAL_CARD
abbrev pub handle_virtual_card : ℕ
handle_virtual_card = 1

abbrev pub scard_protocol_t0 : ℕ
scard_protocol_t0 = 1

-- `%d` on an int.
unfoldable pub format_int : ℤ → Text
unfolding decimal
format_int (pos n) = decimal n
format_int (negsuc n) = b'-' ∷ decimal (n + 1)

-- The three lines that are sent, without their line ends.
pub reset_line : Text
reset_line = codes "get reset 1000"

unfoldable pub params_line : RemoteConfig → Text
unfolding format_int
params_line c =
    codes "get params 1 "
    ++ (format_int c.measure_apdu_byte_counter ++ b' ' ∷ format_int c.measure_apdu_byte_delay)

pub sampling_line : RemoteConfig → Text
unfolding format_d
sampling_line c = codes "post sampling " ++ format_d c.num_samples

module _ (outside : Outside) where
  open outside use {World, connect_w, send, receive_response}

  pub record ConnectedW : Type 0 where
    pub app : App
    pub world : World
    pub status : ℕ
    pub h_card : ℕ
    pub active_protocol : ℕ

  -- `SendLine` and `ReceiveResponse`; the response only goes to the log.
  abbrev pub tell : World → Text → World
  tell w line = (receive_response (send w (line ++ b'\n' ∷ []))).0

  unfoldable pub prepare_measurement : App → World → Outcome ConnectedW
  unfolding reset_line params_line sampling_line
  prepare_measurement app w =
      let c = app.remote_config in
      ok (record {
        app = app;
        world = tell (tell (tell w reset_line) (params_line c)) (sampling_line c);
        status = scard_s_success;
        h_card = handle_virtual_card;
        active_protocol = scard_protocol_t0;
      })

  pub connect_original : App → World → ℕ → Text → ℕ → ℕ → Outcome ConnectedW
  connect_original app w h_context reader share_mode protocols =
      let (w', result, h_card, protocol) = connect_w w h_context reader share_mode protocols in
      ok (record {
        app = app;
        world = w';
        status = result;
        h_card = h_card;
        active_protocol = protocol;
      })

  -- `SCardConnectW` for a pointer to a socket, with redirection.
  pub connect_w_over : SocketPtr → App → World → ℕ → Text → ℕ → ℕ → Outcome ConnectedW
  unfolding prepare_measurement connect_original
  connect_w_over null app w h_context reader share_mode protocols =
      connect_original app w h_context reader share_mode protocols
  connect_w_over live app w h_context reader share_mode protocols = prepare_measurement app w
  connect_w_over shut app w h_context reader share_mode protocols = prepare_measurement app w
  connect_w_over deleted app w h_context reader share_mode protocols = fault dangling

  -- `SCardConnectW`
  unfoldable pub scard_connect_w : App → World → ℕ → Text → ℕ → ℕ → Outcome ConnectedW
  unfolding connect_w_over connect_original
  scard_connect_w app w h_context reader share_mode protocols =
      let app1 = record app { processed_apdu_byte_counter = 0 } in
      if app.remote_config.redirect
      then connect_w_over app.remote_config.socket app1 w h_context reader share_mode protocols
      else connect_original app1 w h_context reader share_mode protocols

  connect_w_over-core :
      (s : SocketPtr) (app : App) (w : World) (h_context : ℕ) (reader : Text)
      (share_mode protocols : ℕ)
      → Whenever
          (λ r. core r.app ≡ core app)
          (connect_w_over s app w h_context reader share_mode protocols)
  unfolding connect_w_over connect_original prepare_measurement
  connect_w_over-core null app w h_context reader share_mode protocols = refl
  connect_w_over-core live app w h_context reader share_mode protocols = refl
  connect_w_over-core shut app w h_context reader share_mode protocols = refl
  connect_w_over-core deleted app w h_context reader share_mode protocols = tt

  pub scard_connect_w-core :
      (app : App) (w : World) (h_context : ℕ) (reader : Text) (share_mode protocols : ℕ)
      → Whenever
          (λ r. core r.app ≡ core app)
          (scard_connect_w app w h_context reader share_mode protocols)
  unfolding scard_connect_w connect_original
  scard_connect_w-core app w h_context reader share_mode protocols =
      let app1 : App = record app { processed_apdu_byte_counter = 0 } in
      Whenever-if (λ r. core r.app ≡ core app) app.remote_config.redirect
        (connect_w_over app.remote_config.socket app1 w h_context reader share_mode protocols)
        (connect_original app1 w h_context reader share_mode protocols)
        (connect_w_over-core app.remote_config.socket app1 w h_context reader share_mode protocols)
        refl

  -- With redirection and a socket the measurement is prepared.
  pub scard_connect_w-prepares :
      (app : App) (w : World) (h_context : ℕ) (reader : Text) (share_mode protocols : ℕ)
      → app.remote_config.redirect ≡ true
      → app.remote_config.socket ≡ live
      → scard_connect_w app w h_context reader share_mode protocols
        ≡ prepare_measurement (record app { processed_apdu_byte_counter = 0 }) w
  unfolding scard_connect_w connect_w_over connect_original
  scard_connect_w-prepares app w h_context reader share_mode protocols on open_one =
      let app1 : App = record app { processed_apdu_byte_counter = 0 } in
      ap
        (λ b.
          if b
          then connect_w_over app.remote_config.socket app1 w h_context reader share_mode protocols
          else connect_original app1 w h_context reader share_mode protocols)
        on
      ∙ ap (λ s. connect_w_over s app1 w h_context reader share_mode protocols) open_one
