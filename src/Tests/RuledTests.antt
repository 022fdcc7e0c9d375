-- ===== src/Tests/RuledTests.antt =====
-- A transmission with the rule of the README on.
use apduplay.Base.{
  All-overwrite, Bytes, IsByte, [], arith, false, inl, length-overwrite, ok, overwrite, pos, refl,
  replicate, true, ℕ, ◌∷◌, ◌≡◌,
}
use apduplay.Rules.{input_apdu}
use apduplay.Transmit.Rewritten.{reply, scard_transmit-IsRewritten}
use apduplay.Transmit.Local.{recorded}
use apduplay.Tests.RuleTests.{All-replicate, readme_rule}
use apduplay.Tests.TransmitTests.{silent, start}
use apduplay.Rules.Refine.{SafeRule}
use apduplay.App.{App}
use apduplay.Transmit.{Message, Unwritten, is_remote_card, save_input, scard_transmit}
use apduplay.Transmit.Ruled.{IsCall, IsReader, IsRewritten, copied, kept, responded}

abbrev ruled : App
ruled = record start {
  winscard_config = record (start.winscard_config) { modify_apdu_by_rules = true };
  rules_list = readme_rule ∷ [];
  rules_active = true;
}

abbrev unwritten : Unwritten
unwritten = record {
  send_stack = replicate 300 1;
  in_stack = replicate 300 2;
  out_stack = replicate 300 3;
  rand = λ _. 0;
}

abbrev get_cplc : Bytes
get_cplc = 0x80 ∷ 0xca ∷ 0x9f ∷ 0x17 ∷ 0x00 ∷ []

silent-IsReader : IsReader silent 77 (replicate 260 0) 260
silent-IsReader = record {
  sized = λ w sent. length-overwrite {A = ℕ} (replicate 260 0) (0x90 ∷ 0x00 ∷ []);
  answered = λ w sent. omega arith;
  bytes = λ w sent.
      All-overwrite IsByte (replicate 260 0) (0x90 ∷ 0x00 ∷ []) (All-replicate 260 0 (omega arith))
        (omega arith);
}

buffers-IsCall : IsCall unwritten get_cplc 5 (replicate 260 0) 260
buffers-IsCall = record {
  send_stack = refl;
  in_stack = refl;
  out_stack = refl;
  stack_bytes = All-replicate 300 1 (omega arith);
  send_bytes = omega arith;
  send_short = omega arith;
  send_within = omega arith;
  recv_roomy = omega arith;
  recv_within = omega arith;
  recv_short = omega arith;
}

readme-SafeRule : SafeRule (save_input ruled (recorded get_cplc 5)).history readme_rule
readme-SafeRule = record {
  safe_matches = (
    record { element_in = omega arith; refers = omega arith },
    (record { element_in = omega arith; refers = omega arith }, tt),
  );
  safe_actions = omega arith;
  byte_values = omega arith;
  safe_delay = inl refl;
}

ruled-local : is_remote_card ruled 77 ≡ false
unfolding is_remote_card
ruled-local = refl

scard_transmit-IsRewritten_example :
    (m : Message) × (m' : Message) × (scard_transmit silent 0 unwritten ruled [] 77 get_cplc 5
        (replicate 260 0)
        260
      ≡ ok (
          responded silent 0 unwritten
            (reply silent 0 unwritten ruled [] 77 get_cplc 5 (replicate 260 0) 260 m)
            m'))
    × IsRewritten
        (save_input ruled (recorded get_cplc 5)).history
        input_apdu
        (readme_rule ∷ [])
        (replicate 300 2)
        (copied unwritten get_cplc 5)
        m
    × IsRewritten
        (kept silent 0 unwritten
          (reply silent 0 unwritten ruled [] 77 get_cplc 5 (replicate 260 0) 260 m))
        (pos 0)
        (readme_rule ∷ [])
        (replicate 300 3)
        (record { buffer = overwrite (replicate 260 0) (0x90 ∷ 0x00 ∷ []); len = 2 })
        m'
scard_transmit-IsRewritten_example =
    scard_transmit-IsRewritten silent 0 unwritten ruled [] 77 get_cplc 5 (replicate 260 0) 260
      (record { rules_on = refl; active = refl; no_data = refl; no_readout = refl })
      (record { inputs = tt; outputs = tt }) ruled-local (readme-SafeRule, tt) buffers-IsCall
      silent-IsReader
