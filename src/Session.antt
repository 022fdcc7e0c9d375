-- ===== src/Session.antt =====
-- Requests over the socket: `Remote_SendRequest`, `Remote_SCardConnect` and `Remote_SCardTransmit` of
-- Winscard/Winscard.cpp. The log files are left out; a caught exception ends in the status so far.
pub mod Frame
pub mod Tag
use apduplay.Base.{
  Bool, Bytes, Outcome, Text, [], codes, dangling, false, fault, if◌then◌else◌, ltb, none, ok, some,
  true, ℕ, ◌%◌, ◌++◌, ◌+◌, ◌==◌, ◌>>=◌, ◌||◌,
}
use apduplay.Status.{
  scard_f_comm_error, scard_s_success, stat_data_incorrect_length, stat_scard_error,
}
use apduplay.CString.{find, newline_to_space, trim_right}
use apduplay.Hex.{from_hex, to_hex}
use apduplay.Remote.{
  Parsed, cmd_line_separator, raised, remote_format_request, remote_parse_response, returned,
}
use apduplay.App.{App, Outside, SocketPtr, deleted, dword, live, null, shut}

module _ (outside : Outside) where
  open outside use {World, open_socket, close_socket, send, receive_response}

  abbrev set_socket : App → SocketPtr → App
  set_socket app s = record app { remote_config = record (app.remote_config) { socket = s } }

  -- `new SocketClient(..)`: on an exception the pointer keeps what it held.
  abbrev connect_socket : App → SocketPtr → World → App × World × Bool
  connect_socket app held w =
      let (w', done) = open_socket w in (set_socket app (if done then live else held), w', done)

  -- The opening of the socket: with one for every command an object that is there is deleted first.
  pub open_phase : Bool → SocketPtr → App → World → Outcome (App × World × Bool)
  open_phase true null app w = ok (connect_socket app null w)
  open_phase true live app w = ok (connect_socket app deleted (close_socket w))
  open_phase true shut app w = ok (connect_socket app deleted (close_socket w))
  open_phase true deleted app w = fault dangling
  open_phase false null app w = ok (connect_socket app null w)
  open_phase false live app w = ok (app, w, true)
  open_phase false shut app w = ok (app, w, true)
  open_phase false deleted app w = fault dangling

  pub record Answered : Type 0 where
    pub app : App
    pub world : World
    pub status : ℕ
    pub response : Text

  abbrev pub next_id : App → ℕ
  next_id app = (app.remote_config.next_command_id + 1) % dword

  abbrev pub count_command : App → App
  count_command app = record app {
    remote_config = record (app.remote_config) { next_command_id = next_id app };
  }

  -- What is done with the answer; the socket is closed only where no exception was raised.
  pub finish_request : App → World → Text → Parsed → Answered
  finish_request app w response raised = record {
    app = app;
    world = w;
    status = scard_s_success;
    response = response;
  }
  finish_request app w response (returned status answer) =
      let text : Text = elim answer [ none ↦ response | some a ↦ a ] in
      if app.remote_config.open_socket_for_every_command
      then record {
        app = set_socket app shut;
        world = close_socket w;
        status = status;
        response = newline_to_space text;
      }
      else record { app = app; world = w; status = status; response = newline_to_space text }

  -- A request over the socket that is there, and its answer.
  pub ask : App → World → Text → Text → Text → Text → Answered
  unfolding finish_request
  ask app w target_reader command command_data response =
      let app' = count_command app in
      let id = app'.remote_config.next_command_id in
      let line =
        remote_format_request target_reader id command command_data [] cmd_line_separator in
      let (w', raw) = receive_response (send w (line ++ codes "\n")) in
      finish_request app' w' response (remote_parse_response raw id)

  -- `Remote_SendRequest`; `response` is what `*pResponse` holds on entry.
  unfoldable pub remote_send_request : App → World → Text → Text → Text → Text → Outcome Answered
  unfolding open_phase ask
  remote_send_request app w target_reader command command_data response =
      open_phase app.remote_config.open_socket_for_every_command app.remote_config.socket app w
      >>= λ (app1, w1, connected).
          if connected
          then ok (ask app1 w1 target_reader command command_data response)
          else ok (record { app = app1; world = w1; status = scard_s_success; response = response })

  -- `Remote_SCardConnect` for a pointer to a socket: the status of the request is not looked at.
  pub connect_over : SocketPtr → App → World → Text → Outcome Answered
  connect_over null app w target_reader =
      ok (record { app = app; world = w; status = scard_f_comm_error; response = [] })
  connect_over _ app w target_reader =
      remote_send_request app w target_reader (codes "RESET") [] [] >>= λ r.
      ok (record r { status = scard_s_success })

  -- `Remote_SCardConnect`
  unfoldable pub remote_scard_connect : App → World → Text → Outcome Answered
  unfolding connect_over
  remote_scard_connect app w target_reader =
      connect_over app.remote_config.socket app w target_reader

  -- What a transmission leaves: the status, the receive buffer and its length.
  pub record Received : Type 0 where
    pub app : App
    pub world : World
    pub status : ℕ
    pub recv_buffer : Bytes
    pub recv_length : ℕ

  abbrev pub is_white : ℕ → Bool
  is_white c = c == b' ' || c == b'\n' || c == b'\r' || c == b'\t'

  -- The response as bytes in the receive buffer, which is taken to hold 260.
  pub store_response : Answered → Text → Bytes → Outcome Received
  store_response r response recv_buffer = from_hex response recv_buffer 260 >>= λ bytes.
      ok (record {
        app = r.app;
        world = r.world;
        status = if ltb bytes.len 2 then stat_data_incorrect_length else bytes.status;
        recv_buffer = bytes.array;
        recv_length = bytes.len;
      })

  -- A response that holds `FAIL` is an error; any other is stored.
  pub take_response : Answered → Bytes → ℕ → Outcome Received
  unfolding store_response
  take_response r recv_buffer recv_length =
      let response = trim_right is_white r.response in
      elim (find (codes "FAIL") response) [
        | none ↦ store_response r response recv_buffer
        | some _ ↦ ok (record {
          app = r.app;
          world = r.world;
          status = stat_scard_error;
          recv_buffer = recv_buffer;
          recv_length = recv_length;
        })
      ]

  -- `Remote_SCardTransmit` for a pointer to a socket.
  pub transmit_over : SocketPtr → App → World → Text → Bytes → Bytes → ℕ → Outcome Received
  unfolding take_response
  transmit_over null app w target_reader send_bytes recv_buffer recv_length = ok (record {
    app = app;
    world = w;
    status = scard_s_success;
    recv_buffer = recv_buffer;
    recv_length = recv_length;
  })
  transmit_over _ app w target_reader send_bytes recv_buffer recv_length =
      remote_send_request (count_command app) w target_reader (codes "APDU")
        (to_hex false send_bytes) []
      >>= λ r. take_response r recv_buffer recv_length

  -- `Remote_SCardTransmit`
  unfoldable pub remote_scard_transmit : App → World → Text → Bytes → Bytes → ℕ → Outcome Received
  unfolding transmit_over
  remote_scard_transmit app w target_reader send_bytes recv_buffer recv_length =
      transmit_over app.remote_config.socket app w target_reader send_bytes recv_buffer recv_length
