-- ===== src/CString/Trim.antt =====
-- Trimming before characters are removed makes no difference to what is left.
use apduplay.Base.{Bool, Text, [], arith, refl, true, ℕ, ◌∷◌, ◌≡◌}
use apduplay.CString.{remove, trim_right}

module _ (p q : ℕ → Bool) (p_in_q : (c : ℕ) → p c ≡ true → q c ≡ true) where
  pub remove-trim_right : (s : Text) → remove q (trim_right p s) ≡ remove q s
  unfolding remove trim_right
  remove-trim_right [] = refl
  remove-trim_right (c ∷ cs) = let ih = remove-trim_right cs in ground (arith, ih, p_in_q c)
