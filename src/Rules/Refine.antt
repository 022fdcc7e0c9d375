-- ===== src/Rules/Refine.antt =====
-- `ApplyRules` against its specification: which rules are chosen, and the bytes and the length that
-- their actions leave.
use apduplay.Base.{
  All, Bool, Bool-cases, IsByte, List, Outcome, [], ap, arith, eq_ℤ, false, get_or, if◌then◌else◌,
  inl, inr, length, negsuc, ok, pos, refl, suc, sym, true, zero, ℕ, ℤ, ◌%◌, ◌&&◌, ◌++◌, ◌+◌, ◌/◌,
  ◌>>=◌, ◌||◌, ◌∙◌, ◌∷◌, ◌≡◌, ◌≤◌, ◌⊎◌,
}
use apduplay.Rules.{
  History, Rule, SingleRule, Working, apply_actions, apply_each, apply_rule, max_apdu_length, pause,
}
use apduplay.Rules.Selection.{IsHistory, SafeMatch, all_match-eq, matches}
use apduplay.Rules.Writes.{
  SafeAction, acts, apply_actions-eq, byte-acts, last_byte, last_byte-append, last_len,
  last_len-append, len-acts, size-acts,
}

-- A delay is off or at least 10 ms, since the code divides by a tenth of it.
abbrev SafeDelay : ℤ → Type 0
SafeDelay (negsuc n) = Unit
SafeDelay (pos n) = (n ≡ 0) ⊎ (10 ≤ n)

-- The rule refers to APDUs that exist, to elements inside the buffer, and its values are bytes.
pub record SafeRule (h : History) (r : Rule) : Type 0 where
  pub safe_matches : All (SafeMatch h) r.match_rules
  pub safe_actions : All SafeAction r.action_rules
  pub byte_values : All (λ a. IsByte a.value) r.action_rules
  pub safe_delay : SafeDelay r.ms_delay

-- The rules in use, for this direction, all of whose match rules match.
abbrev pub is_chosen : History → ℤ → Rule → Bool
is_chosen h direction r =
    eq_ℤ r.direction direction && eq_ℤ r.usage (pos 1) && matches h r.match_rules

-- The actions of the chosen rules, in order.
abbrev pub chosen_actions : History → ℤ → List Rule → List SingleRule
chosen_actions h direction [] = []
chosen_actions h direction (r ∷ rs) =
    (if is_chosen h direction r then r.action_rules else []) ++ chosen_actions h direction rs

abbrev pub any_chosen : History → ℤ → List Rule → Bool
any_chosen h direction [] = false
any_chosen h direction (r ∷ rs) = is_chosen h direction r || any_chosen h direction rs

-- What the actions `as` make of `w`; the flag is whether a rule was chosen.
pub record Did (actions : List SingleRule) (flag : Bool) (w w' : Working) : Type 0 where
  pub size : length w'.new_buffer ≡ max_apdu_length
  pub len_is : w'.len ≡ last_len actions w.len
  pub found_is : w'.rule_found ≡ (w.rule_found || flag)
  pub byte_is : (i : ℕ) → get_or w'.new_buffer i 0 ≡ last_byte i actions (get_or w.new_buffer i 0)

Did-nothing : (w : Working) → length w.new_buffer ≡ max_apdu_length → Did [] false w w
Did-nothing w e = record { size = e; len_is = refl; found_is = ground arith; byte_is = λ i. refl }

Did-append :
    {actions bs : List SingleRule} {f g : Bool} {w w1 w2 : Working}
    → Did actions f w w1
    → Did bs g w1 w2
    → Did (actions ++ bs) (f || g) w w2
Did-append {actions} {bs} {f} {g} {w} {w1} {w2} d1 d2 = record {
  size = d2.size;
  len_is = d2.len_is ∙ ap (last_len bs) d1.len_is ∙ sym (last_len-append actions bs w.len);
  found_is = ground (arith, d1.found_is, d2.found_is);
  byte_is = λ i.
      d2.byte_is i
      ∙ ap (last_byte i bs) (d1.byte_is i)
      ∙ sym (last_byte-append i actions bs (get_or w.new_buffer i 0));
}

module _ (rand : ℕ → ℕ) where
  pause-ok :
      (w : Working) (d : ℤ)
      → SafeDelay d
      → (w' : Working) × (pause rand w d ≡ ok w')
        × (w'.new_buffer ≡ w.new_buffer)
        × (w'.len ≡ w.len)
        × (w'.rule_found ≡ w.rule_found)
  unfolding pause
  pause-ok w (negsuc n) s = (w, refl, refl, refl, refl)
  pause-ok w (pos zero) s = (w, refl, refl, refl, refl)
  pause-ok w (pos (suc n)) s = (
    record w { slept = w.slept + suc n + rand w.draws % (suc n / 10); draws = w.draws + 1 },
    ground arith,
    refl,
    refl,
    refl,
  )

  -- The body of a chosen rule.
  chosen_body : Working → Rule → Outcome Working
  chosen_body w r = apply_actions w r.action_rules >>= λ w1.
      pause rand w1 r.ms_delay >>= λ w2. ok (record w2 { rule_found = true })

  chosen_body-Did :
      {h : History} (w : Working) (r : Rule)
      → SafeRule h r
      → length w.new_buffer ≡ max_apdu_length
      → (w' : Working) × (chosen_body w r ≡ ok w') × Did r.action_rules true w w'
  unfolding chosen_body
  chosen_body-Did w r s e =
      let (w', eq, same_buffer, same_len, same_found) =
        pause-ok (acts w r.action_rules) r.ms_delay s.safe_delay in
      (
        record w' { rule_found = true },
        rw (apply_actions-eq w r.action_rules e s.safe_actions) (rw eq),
        record {
          size = ap length same_buffer ∙ size-acts w r.action_rules ∙ e;
          len_is = same_len ∙ len-acts w r.action_rules;
          found_is = ground arith;
          byte_is = λ i.
              ap (λ b. get_or b i 0) same_buffer ∙ byte-acts w r.action_rules i e s.safe_actions;
        },
      )

  apply_rule-eq :
      (fuel : ℕ) (h : History) (direction : ℤ) (w : Working) (r : Rule)
      → IsHistory h
      → SafeRule h r
      → apply_rule rand fuel h direction w r
        ≡ (if is_chosen h direction r then chosen_body w r else ok w)
  unfolding apply_rule chosen_body
  apply_rule-eq fuel h direction w r v s =
      ground (arith, all_match-eq fuel h r.match_rules v s.safe_matches)

  apply_rule-Did :
      (fuel : ℕ) (h : History) (direction : ℤ) (w : Working) (r : Rule)
      → IsHistory h
      → SafeRule h r
      → length w.new_buffer ≡ max_apdu_length
      → (w' : Working) × (apply_rule rand fuel h direction w r ≡ ok w')
        × Did
            (if is_chosen h direction r then r.action_rules else [])
            (is_chosen h direction r)
            w
            w'
  apply_rule-Did fuel h direction w r v s e = elim (Bool-cases (is_chosen h direction r)) [
    | inl c ↦
        let (w', eq, d) = chosen_body-Did w r s e in
        (w', apply_rule-eq fuel h direction w r v s ∙ rw c eq, rw c d)
    | inr c ↦ (w, apply_rule-eq fuel h direction w r v s ∙ rw c, rw c (Did-nothing w e))
  ]

  pub apply_each-Did :
      (fuel : ℕ) (h : History) (direction : ℤ) (w : Working) (rs : List Rule)
      → IsHistory h
      → All (SafeRule h) rs
      → length w.new_buffer ≡ max_apdu_length
      → (w' : Working) × (apply_each rand fuel h direction w rs ≡ ok w')
        × Did (chosen_actions h direction rs) (any_chosen h direction rs) w w'
  unfolding apply_each
  apply_each-Did fuel h direction w [] v s e = (w, refl, Did-nothing w e)
  apply_each-Did fuel h direction w (r ∷ rs) v s e =
      let (w1, eq1, d1) = apply_rule-Did fuel h direction w r v s.0 e in
      let (w2, eq2, d2) = apply_each-Did fuel h direction w1 rs v s.1 d1.size in
      (w2, rw eq1 eq2, Did-append d1 d2)
