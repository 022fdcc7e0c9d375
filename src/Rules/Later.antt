-- ===== src/Rules/Later.antt =====
-- Rules that stay inside their buffers still do when the history has grown.
use apduplay.Base.{All, Bool, List, [], arith, eq_ℤ, false, length, true, ℤ, ◌∷◌, ◌≤◌}
use apduplay.Rules.Refine.{SafeRule}
use apduplay.Rules.Selection.{CanRefer, SafeMatch}
use apduplay.Rules.{History, Rule, SingleRule, input_apdu}

-- At least as many commands and responses.
pub record IsLonger (h h' : History) : Type 0 where
  pub more_in : length h.apdu_in_list ≤ length h'.apdu_in_list
  pub more_out : length h.apdu_out_list ≤ length h'.apdu_out_list

CanRefer-longer :
    (b : Bool) (history : ℤ) (h h' : History)
    → IsLonger h h'
    → CanRefer b history h
    → CanRefer b history h'
CanRefer-longer true history h h' l c = omega (arith, l.more_in)
CanRefer-longer false history h h' l c = (c.0, omega (arith, l.more_out, c.1))

SafeMatch-longer :
    (h h' : History) (r : SingleRule) → IsLonger h h' → SafeMatch h r → SafeMatch h' r
SafeMatch-longer h h' r l s = record {
  element_in = s.element_in;
  refers = CanRefer-longer (eq_ℤ r.apdu_direction input_apdu) r.history h h' l s.refers;
}

All-map {ℓ κ ι} :
    {A : Type ℓ} (P : A → Type κ) (Q : A → Type ι) (xs : List A)
    → ((x : A) → P x → Q x)
    → All P xs
    → All Q xs
All-map P Q [] f h = tt
All-map P Q (x ∷ xs) f h = (f x h.0, All-map P Q xs f h.1)

SafeRule-longer : (h h' : History) (r : Rule) → IsLonger h h' → SafeRule h r → SafeRule h' r
SafeRule-longer h h' r l s = record {
  safe_matches =
      All-map (SafeMatch h) (SafeMatch h') r.match_rules (λ x. SafeMatch-longer h h' x l)
        s.safe_matches;
  safe_actions = s.safe_actions;
  byte_values = s.byte_values;
  safe_delay = s.safe_delay;
}

pub All-SafeRule-longer :
    (h h' : History) (rs : List Rule) → IsLonger h h' → All (SafeRule h) rs → All (SafeRule h') rs
All-SafeRule-longer h h' rs l s =
    All-map (SafeRule h) (SafeRule h') rs (λ r. SafeRule-longer h h' r l) s
