-- ===== src/Transmit/Rewritten.antt =====
-- What goes to the card and comes back from it where the rules are on.
use apduplay.Base.{
  All, All-overwrite, All-take, Bytes, IsByte, arith, false, length, length-overwrite, ok, pos,
  refl, take, ℕ, ◌+◌, ◌∙◌, ◌≡◌, ◌≤◌,
}
use apduplay.Block.Access.{memcpy-ok}
use apduplay.Rules.Later.{All-SafeRule-longer, IsLonger}
use apduplay.Rules.{input_apdu, max_apdu_length}
use apduplay.Rules.Refine.{SafeRule}
use apduplay.Transmit.Local.{
  apdu_block-recorded, auto_request-off, first_exchange-plain, is_remote_card-same, recorded,
}
use apduplay.Session.{Received}
use apduplay.Rules.Selection.{IsHistory}
use apduplay.Rules.Apply.{IsBuffer}
use apduplay.Transmit.Ruled.{
  IsCall, IsReader, IsRewritten, IsRuled, copied, counted, kept, modify_message-IsRewritten,
  recorded-length, respond-IsRewritten, responded,
}
use apduplay.App.{App, Outside}
use apduplay.Transmit.{Message, Unwritten, is_remote_card, save_input, scard_transmit}

copied-IsBuffer :
    (u : Unwritten) (send : Bytes) (len : ℕ) (recv : Bytes) (allowed : ℕ)
    → IsCall u send len recv allowed
    → IsBuffer (copied u send len).buffer len
copied-IsBuffer u send len recv allowed c =
    let size : length (copied u send len).buffer ≡ max_apdu_length =
      length-overwrite u.send_stack (take len send) ∙ c.send_stack in
    record {
      roomy = omega arith;
      within = omega (arith, c.send_short);
      short = c.send_short;
      bytes =
          All-overwrite IsByte u.send_stack (take len send) c.stack_bytes
            (All-take IsByte len send c.send_bytes);
    }

module _ (outside : Outside) (fuel : ℕ) (u : Unwritten) where
  open outside use {World, transmit}

  -- What the card gives back for the command that the rules have made.
  abbrev pub reply : App → World → ℕ → Bytes → ℕ → Bytes → ℕ → Message → Received outside
  reply app w h_card send len recv allowed m =
      let t = transmit w h_card (take m.len m.buffer) recv allowed in
      record {
        app = record (save_input app (recorded send len)) {
          processed_apdu_byte_counter = app.processed_apdu_byte_counter + m.len;
        };
        world = t.0;
        status = t.1;
        recv_buffer = t.2;
        recv_length = t.3;
      }

  reply-IsBuffer :
      (app : App) (w : World) (h_card : ℕ) (send : Bytes) (len : ℕ) (recv : Bytes) (allowed : ℕ)
      (m : Message)
      → IsReader outside h_card recv allowed
      → IsCall u send len recv allowed
      → IsBuffer (reply app w h_card send len recv allowed m).recv_buffer (
          counted
            (reply app w h_card send len recv allowed m).status
            (reply app w h_card send len recv allowed m).recv_length)
  reply-IsBuffer app w h_card send len recv allowed m r c =
      let t = transmit w h_card (take m.len m.buffer) recv allowed in
      let sized : length t.2 ≡ length recv = r.sized w (take m.len m.buffer) in
      let answered : t.3 ≤ allowed = r.answered w (take m.len m.buffer) in
      let less : counted t.1 t.3 ≤ t.3 = ground arith in
      record {
        roomy = omega (arith, c.recv_roomy);
        within = omega (arith, c.recv_within);
        short = omega (arith, c.recv_short);
        bytes = r.bytes w (take m.len m.buffer);
      }

  -- With the rules on, and forced data and the readout off, from a history of whole blocks and with rules
  -- that are safe once the command is recorded (their elements lie inside the buffers and their values are
  -- bytes, they match on commands that there are, or the place before the oldest, and on the newest
  -- response, and no delay is one of 1 to 9 ms), for a command of at most 300 bytes within its buffer, a buffer for the
  -- response of at least 260 bytes of which at most 300 are allowed, and a reader that keeps the buffer's
  -- size, fills it with bytes and answers with no more than is allowed: the transmission to a card of
  -- the original library comes to an end. The card is sent the command as the rules for commands rewrite it, the command itself being the newest
  -- of the history; its response comes back as the rules for responses rewrite it, with the response as
  -- the newest, and as an empty one where the status is an error. The status is the card's. The history
  -- keeps both APDUs as they were before the rules.
  pub scard_transmit-IsRewritten :
      (app : App) (w : World) (h_card : ℕ) (send : Bytes) (len : ℕ) (recv : Bytes) (allowed : ℕ)
      → IsRuled app
      → IsHistory app.history
      → is_remote_card app h_card ≡ false
      → All (SafeRule (save_input app (recorded send len)).history) app.rules_list
      → IsCall u send len recv allowed
      → IsReader outside h_card recv allowed
      → (m : Message) × (m' : Message) × (scard_transmit outside fuel u app w h_card send len recv
            allowed
          ≡ ok (responded outside fuel u (reply app w h_card send len recv allowed m) m'))
        × IsRewritten
            (save_input app (recorded send len)).history
            input_apdu
            app.rules_list
            u.in_stack
            (copied u send len)
            m
        × IsRewritten
            (kept outside fuel u (reply app w h_card send len recv allowed m))
            (pos 0)
            app.rules_list
            u.out_stack
            (record {
              buffer = (reply app w h_card send len recv allowed m).recv_buffer;
              len =
                  counted
                    (reply app w h_card send len recv allowed m).status
                    (reply app w h_card send len recv allowed m).recv_length;
            })
            m'
  unfolding scard_transmit
  scard_transmit-IsRewritten app w h_card send len recv allowed ruled v loc safe c reader =
      let app1 = save_input app (recorded send len) in
      let v1 : IsHistory app1.history = record {
        inputs = (recorded-length send len, v.inputs);
        outputs = v.outputs;
      } in
      let (m, eq, first) =
        modify_message-IsRewritten app1 u.rand fuel u.in_stack (copied u send len) input_apdu
          ruled.rules_on ruled.active v1 safe c.in_stack
          (copied-IsBuffer u send len recv allowed c) in
      let r = reply app w h_card send len recv allowed m in
      let still : IsRuled r.app = record {
        rules_on = ruled.rules_on;
        active = ruled.active;
        no_data = ruled.no_data;
        no_readout = ruled.no_readout;
      } in
      let longer : IsLonger app1.history (kept outside fuel u r) = record {
        more_in = omega arith;
        more_out = omega arith;
      } in
      let (m', answered, second) =
        respond-IsRewritten outside fuel u r still
          (record { inputs = v1.inputs; outputs = v1.outputs })
          (All-SafeRule-longer app1.history (kept outside fuel u r) app.rules_list longer safe)
          c.out_stack (reply-IsBuffer app w h_card send len recv allowed m reader c) in
      (
        m,
        m',
        rw (apdu_block-recorded send len c.send_short c.send_within) (
            rw
              (memcpy-ok u.send_stack send len (omega (arith, c.send_stack, c.send_short))
                c.send_within)
              (rw eq (
                rw
                  (first_exchange-plain outside r.app w h_card m recv allowed r.world r.status
                    r.recv_buffer r.recv_length (is_remote_card-same r.app app h_card refl ∙ loc)
                    ruled.no_data refl)
                  (rw (auto_request-off outside fuel h_card r ruled.no_readout) answered)))),
        first,
        second,
      )
