-- ===== src/Transmit/Ruled.antt =====
-- A transmission to a card of the original library, with the rules on.
use apduplay.Base.{
  All, Bytes, IsByte, List, false, get_or, if◌then◌else◌, length, length-overwrite, ltb, ok,
  overwrite, pos, refl, replicate, take, true, ℕ, ℤ, ◌+◌, ◌==◌, ◌≡◌, ◌≤◌,
}
use apduplay.Session.{Received}
use apduplay.Transmit.Local.{apdu_block-recorded, recorded}
use apduplay.Status.{scard_s_success}
use apduplay.Rules.Writes.{last_byte}
use apduplay.Rules.Refine.{SafeRule, chosen_actions}
use apduplay.Rules.Apply.{IsBuffer, apply_rules-refines, byte_before, expected_len}
use apduplay.Rules.Selection.{IsHistory}
use apduplay.Rules.{Applied, History, Rule, apply_rules, max_apdu_length}
use apduplay.Transmit.{Message, Unwritten, modify_message, respond, save_output}
use apduplay.App.{App, Outside}

-- The rules are on and change APDUs; nothing else does.
pub record IsRuled (app : App) : Type 0 where
  pub rules_on : app.winscard_config.modify_apdu_by_rules ≡ true
  pub active : app.rules_active ≡ true
  pub no_data : app.winscard_config.force_apdu_nonzero_input_data ≡ false
  pub no_readout : app.winscard_config.auto_request_data ≡ false

-- An APDU as the rules rewrite it: its length, its bytes, and the caller's buffer behind it.
pub record IsRewritten (h : History) (direction : ℤ) (rs : List Rule) (stack : Bytes)
    (before after : Message) : Type 0 where
  pub len_is : after.len ≡ expected_len h direction rs before.buffer before.len
  pub same_size : length after.buffer ≡ length before.buffer
  pub byte_is :
      (i : ℕ)
      → get_or after.buffer i 0 ≡ (
          if ltb i after.len
          then last_byte i
              (chosen_actions h direction rs)
              (byte_before stack before.buffer before.len i)
          else get_or before.buffer i 0)

modify_message-on :
    (app : App) (rand : ℕ → ℕ) (fuel : ℕ) (stack : Bytes) (m : Message) (direction : ℤ)
    (r : Applied)
    → app.winscard_config.modify_apdu_by_rules ≡ true
    → app.rules_active ≡ true
    → apply_rules rand fuel true app.rules_list app.history stack m.buffer m.len direction ≡ ok r
    → modify_message app rand fuel stack m direction
      ≡ ok (record { buffer = r.buffer; len = r.len })
unfolding modify_message
modify_message-on app rand fuel stack m direction r on active e = rw on (rw active (rw e refl))

pub modify_message-IsRewritten :
    (app : App) (rand : ℕ → ℕ) (fuel : ℕ) (stack : Bytes) (m : Message) (direction : ℤ)
    → app.winscard_config.modify_apdu_by_rules ≡ true
    → app.rules_active ≡ true
    → IsHistory app.history
    → All (SafeRule app.history) app.rules_list
    → length stack ≡ max_apdu_length
    → IsBuffer m.buffer m.len
    → (m' : Message) × (modify_message app rand fuel stack m direction ≡ ok m')
      × IsRewritten app.history direction app.rules_list stack m m'
modify_message-IsRewritten app rand fuel stack m direction on active v s size b =
    let (r, eq, len_is, same_size, byte_is) =
      apply_rules-refines rand fuel app.rules_list app.history stack m.buffer m.len direction v s
        size b in
    (
      record { buffer = r.buffer; len = r.len },
      modify_message-on app rand fuel stack m direction r on active eq,
      record { len_is = len_is; same_size = same_size; byte_is = byte_is },
    )

pub recorded-length : (buffer : Bytes) (len : ℕ) → length (recorded buffer len) ≡ max_apdu_length
recorded-length buffer len =
    length-overwrite (replicate {A = ℕ} max_apdu_length 0) (take len buffer)

-- What the original library's reader gives back for a card: a buffer of bytes, of the size that it was
-- given, and no more of them than it was allowed.
pub record IsReader (outside : Outside) (h_card : ℕ) (recv : Bytes) (allowed : ℕ) : Type 0 where
  pub sized :
      (w : outside.World) (sent : Bytes)
      → length (outside.transmit w h_card sent recv allowed).2 ≡ length recv
  pub answered :
      (w : outside.World) (sent : Bytes) → (outside.transmit w h_card sent recv allowed).3 ≤ allowed
  pub bytes :
      (w : outside.World) (sent : Bytes)
      → All IsByte (outside.transmit w h_card sent recv allowed).2

-- The buffers of a call: the command within its buffer and within a block, and room for a response.
pub record IsCall (u : Unwritten) (send : Bytes) (len : ℕ) (recv : Bytes) (allowed : ℕ)
    : Type 0 where
  pub send_stack : length u.send_stack ≡ max_apdu_length
  pub in_stack : length u.in_stack ≡ max_apdu_length
  pub out_stack : length u.out_stack ≡ max_apdu_length
  pub stack_bytes : All IsByte u.send_stack
  pub send_bytes : All IsByte send
  pub send_short : len ≤ max_apdu_length
  pub send_within : len ≤ length send
  pub recv_roomy : 260 ≤ length recv
  pub recv_within : allowed ≤ length recv
  pub recv_short : allowed ≤ max_apdu_length

-- The copy of the command that the rules work on.
abbrev pub copied : Unwritten → Bytes → ℕ → Message
copied u send len = record { buffer = overwrite u.send_stack (take len send); len = len }

-- The length that counts: none of a response that is an error.
abbrev pub counted : ℕ → ℕ → ℕ
counted status len = if status == scard_s_success then len else 0

module _ (outside : Outside) (fuel : ℕ) (u : Unwritten) where
  open outside use {World, transmit}

  abbrev pub responded : Received outside → Message → Received outside
  responded r m = record {
    app = record (save_output (r.app) (recorded r.recv_buffer (counted r.status r.recv_length))) {
      apdu_counter = r.app.apdu_counter + 1;
    };
    world = r.world;
    status = r.status;
    recv_buffer = m.buffer;
    recv_length = m.len;
  }

  abbrev pub kept : Received outside → History
  kept r = (save_output (r.app) (recorded r.recv_buffer (counted r.status r.recv_length))).history

  pub respond-IsRewritten :
      (r : Received outside)
      → IsRuled r.app
      → IsHistory r.app.history
      → All (SafeRule (kept r)) r.app.rules_list
      → length u.out_stack ≡ max_apdu_length
      → IsBuffer r.recv_buffer (counted r.status r.recv_length)
      → (m : Message) × (respond outside fuel u r ≡ ok (responded r m))
        × IsRewritten
            (kept r)
            (pos 0)
            r.app.rules_list
            u.out_stack
            (record { buffer = r.recv_buffer; len = counted r.status r.recv_length })
            m
  unfolding respond
  respond-IsRewritten r ruled v s size b =
      let n = counted r.status r.recv_length in
      let app = save_output (r.app) (recorded r.recv_buffer n) in
      let (m, eq, rewritten) =
        modify_message-IsRewritten app u.rand fuel u.out_stack
          (record { buffer = r.recv_buffer; len = n }) (pos 0) ruled.rules_on ruled.active
          (record { inputs = v.inputs; outputs = (recorded-length r.recv_buffer n, v.outputs) }) s
          size b in
      (m, rw (apdu_block-recorded r.recv_buffer n b.short b.within) (rw eq refl), rewritten)
