-- ===== src/Rules/Lookback.antt =====
-- References to older responses: `while (history > 0) iter++;` changes nothing that it tests.
use apduplay.Base.{
  >>=-eq-ok, Bool, Bytes, Fault, List, Outcome, [], arith, eq_ℤ, false, fault, is_positive, ok, pos,
  refl, replicate, suc, true, zero, ℕ, ℤ, ◌∷◌, ◌≡◌, ◌≢◌,
}
use apduplay.Block.{memcpy}
use apduplay.Rules.{
  Applied, History, Rule, SingleRule, Working, all_match, apply_each, apply_rule, apply_rules,
  get_apdu_from_history, input_apdu, max_apdu_length, single_match, spin, take_output,
}

spin-ne-ok :
    (fuel : ℕ) (history : ℤ) (l l' : List Bytes)
    → is_positive history ≡ true
    → spin fuel history l ≢ ok l'
unfolding spin
spin-ne-ok zero history l l' p e = ground arith
spin-ne-ok (suc f) history [] l' p e = ground arith
spin-ne-ok (suc f) history (x ∷ xs) l' p e = spin-ne-ok f history xs l' p (rw (p, spin) at e)

-- A reference to a response before the newest never comes back with an APDU or a status, whatever
-- the history holds and however long the loop may run.
pub get_apdu-never :
    (fuel : ℕ) (h : History) (buffer : Bytes) (history apdu_direction : ℤ)
    → eq_ℤ apdu_direction input_apdu ≡ false
    → is_positive history ≡ true
    → (r : Bytes × Bool) → get_apdu_from_history fuel h buffer history apdu_direction ≢ ok r
unfolding get_apdu_from_history
get_apdu-never fuel h buffer history apdu_direction out p r e =
    let went =
      >>=-eq-ok (spin fuel history h.apdu_out_list) (take_output buffer)
        (rw (out, get_apdu_from_history) at e) in
    spin-ne-ok fuel history h.apdu_out_list went.0 p went.1

single_match-never :
    (fuel : ℕ) (h : History) (r : SingleRule)
    → eq_ℤ r.apdu_direction input_apdu ≡ false
    → is_positive r.history ≡ true
    → (b : Bool) → single_match fuel h r ≢ ok b
unfolding single_match
single_match-never fuel h r out p b e =
    let went =
      >>=-eq-ok
        (get_apdu_from_history fuel h (replicate max_apdu_length 0) r.history r.apdu_direction) _
        e in
    get_apdu-never fuel h (replicate max_apdu_length 0) r.history r.apdu_direction out p went.0
      went.1

Outcome-fault {ℓ} :
    {A : Type ℓ} (o : Outcome A) → ((a : A) → o ≢ ok a) → (f : Fault) × (o ≡ fault f)
Outcome-fault (ok a) h = absurd (h a refl)
Outcome-fault (fault f) h = (f, refl)

apply_rule-fault :
    (rand : ℕ → ℕ) (fuel : ℕ) (h : History) (direction : ℤ) (w : Working) (rule : Rule) (f : Fault)
    → eq_ℤ rule.direction direction ≡ true
    → eq_ℤ rule.usage (pos 1) ≡ true
    → all_match fuel h rule.match_rules ≡ fault f
    → apply_rule rand fuel h direction w rule ≡ fault f
unfolding apply_rule
apply_rule-fault rand fuel h direction w rule f d u e = rw (d, u) (rw e)

all_match-fault :
    (fuel : ℕ) (h : History) (m : SingleRule) (ms : List SingleRule) (f : Fault)
    → single_match fuel h m ≡ fault f
    → all_match fuel h (m ∷ ms) ≡ fault f
unfolding all_match
all_match-fault fuel h m ms f e = rw e

-- `ApplyRules` does not come to an end when its first rule is in use for the direction and begins with
-- a match rule on a response before the newest.
pub apply_rules-never :
    (rand : ℕ → ℕ) (fuel : ℕ) (rule : Rule) (m : SingleRule) (ms : List SingleRule) (rs : List Rule)
    (h : History) (stack buffer : Bytes) (len : ℕ) (direction : ℤ)
    → eq_ℤ rule.direction direction ≡ true
    → eq_ℤ rule.usage (pos 1) ≡ true
    → rule.match_rules ≡ m ∷ ms
    → eq_ℤ m.apdu_direction input_apdu ≡ false
    → is_positive m.history ≡ true
    → ¬ (
        (r : Applied) × (apply_rules rand fuel true (rule ∷ rs) h stack buffer len direction
          ≡ ok r))
unfolding apply_rules apply_each
apply_rules-never rand fuel rule m ms rs h stack buffer len direction d u eq out p came =
    let (f, failed) = Outcome-fault (single_match fuel h m) (single_match-never fuel h m out p) in
    let no_match : all_match fuel h rule.match_rules ≡ fault f =
      rw eq (all_match-fault fuel h m ms f failed) in
    let (copied, _, after_copy) = >>=-eq-ok (memcpy stack buffer len) _ came.1 in
    let w0 : Working = record {
      new_buffer = copied;
      len = len;
      rule_found = false;
      slept = 0;
      draws = 0;
    } in
    let (w, worked, _) = >>=-eq-ok (apply_each rand fuel h direction w0 (rule ∷ rs)) _ after_copy in
    let (w1, ruled, _) = >>=-eq-ok (apply_rule rand fuel h direction w0 rule) _ worked in
    cc (apply_rule-fault rand fuel h direction w0 rule f d u no_match)
