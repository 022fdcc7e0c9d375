-- ===== src/Base/Cuts.antt =====
-- Lists cut and put together: `take`, `drop`, `overwrite` and `set` at the ends of known parts.
use Prim.Native.Nat.{ℕ, zero, suc, ◌+◌, ◌≤◌, ◌<◌}
use mathlib.Core.Path.{◌≡◌, refl, ap}
use mathlib.Core.List.{List, [], ◌∷◌, ◌++◌}
use native.Mathlib.Omega.{arith}
use apduplay.Base.Lists.{length, take, drop, overwrite, set}

module _ {ℓ} {A : Type ℓ} where
  -- What is written over a longer block stands in front of the rest of it.
  pub overwrite-eq :
      (block src : List A)
      → length src ≤ length block
      → overwrite block src ≡ src ++ drop (length src) block
  overwrite-eq block [] h = refl
  overwrite-eq [] (s ∷ src) h = absurd (omega arith)
  overwrite-eq (b ∷ block) (s ∷ src) h = ap (λ t. s ∷ t) (overwrite-eq block src (omega arith))

  pub drop-length : (s m : List A) → drop (length s) (s ++ m) ≡ m
  drop-length [] m = refl
  drop-length (c ∷ s) m = drop-length s m

  pub take-append : (s m : List A) → take (length s) (s ++ m) ≡ s
  take-append [] m = refl
  take-append (c ∷ s) m = ap (λ u. c ∷ u) (take-append s m)

  pub set_behind : (s m : List A) (x y : A) → set (s ++ x ∷ m) (length s) y ≡ s ++ y ∷ m
  set_behind [] m x y = refl
  set_behind (c ∷ s) m x y = ap (λ u. c ∷ u) (set_behind s m x y)

  pub drop-drop : (m n k : ℕ) (xs : List A) → k ≡ n + m → drop m (drop n xs) ≡ drop k xs
  drop-drop m zero k xs e = ap (λ j. drop j xs) (omega arith)
  drop-drop zero (suc n) zero [] e = refl
  drop-drop (suc m) (suc n) zero [] e = refl
  drop-drop zero (suc n) (suc k) [] e = refl
  drop-drop (suc m) (suc n) (suc k) [] e = refl
  drop-drop m (suc n) zero (x ∷ xs) e = absurd (omega arith)
  drop-drop m (suc n) (suc k) (x ∷ xs) e = drop-drop m n k xs (omega arith)

  pub length-drop : (n m : ℕ) (xs : List A) → length xs ≡ n + m → length (drop n xs) ≡ m
  length-drop zero m xs e = omega arith
  length-drop (suc n) m [] e = absurd (omega arith)
  length-drop (suc n) m (x ∷ xs) e = length-drop n m xs (omega arith)

  -- A list that is longer than `n` goes on there.
  pub drop-suc : (n : ℕ) (xs : List A) → n < length xs → (x : A) × (drop n xs ≡ x ∷ drop (suc n) xs)
  drop-suc n [] h = absurd (omega arith)
  drop-suc zero (x ∷ xs) h = (x, refl)
  drop-suc (suc n) (x ∷ xs) h = drop-suc n xs (omega arith)
