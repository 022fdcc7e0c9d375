-- ===== src/Base/Lists.antt =====
-- Lists measured and indexed by native numbers, the blocks of memory of the C++ code, and text.
use Prim.Native.Nat.{ℕ, zero, suc, ◌+◌, ◌≤◌, ◌<◌}
use Prim.Native.Char.{code}
use Prim.Native.String.{String}
use mathlib.Core.Path.{◌≡◌, refl, ap}
use mathlib.Core.Logic.{◌≢◌}
use mathlib.Core.List.{List, [], ◌∷◌, ◌++◌}
use mathlib.Core.Option.{Option, none, some}
use native.Mathlib.Omega.{arith}

module _ {ℓ} {A : Type ℓ} where
  abbrev pub length : List A → ℕ
  length [] = 0
  length (x ∷ xs) = suc (length xs)

  abbrev pub get_elem? : List A → ℕ → Option A
  get_elem? [] i = none
  get_elem? (x ∷ xs) zero = some x
  get_elem? (x ∷ xs) (suc i) = get_elem? xs i

  abbrev pub get_or : List A → ℕ → A → A
  get_or [] i d = d
  get_or (x ∷ xs) zero d = x
  get_or (x ∷ xs) (suc i) d = get_or xs i d

  abbrev pub set : List A → ℕ → A → List A
  set [] i v = []
  set (x ∷ xs) zero v = v ∷ xs
  set (x ∷ xs) (suc i) v = x ∷ set xs i v

  abbrev pub take : ℕ → List A → List A
  take zero xs = []
  take (suc n) [] = []
  take (suc n) (x ∷ xs) = x ∷ take n xs

  abbrev pub drop : ℕ → List A → List A
  drop zero xs = xs
  drop (suc n) [] = []
  drop (suc n) (x ∷ xs) = drop n xs

  abbrev pub replicate : ℕ → A → List A
  replicate zero a = []
  replicate (suc n) a = a ∷ replicate n a

  -- `memcpy` of `src` to the start of a block; what does not fit is dropped.
  abbrev pub overwrite : List A → List A → List A
  overwrite block [] = block
  overwrite [] (s ∷ src) = []
  overwrite (b ∷ block) (s ∷ src) = s ∷ overwrite block src

  abbrev pub All {κ} : (A → Type κ) → List A → Type κ
  All P [] = Unit
  All P (x ∷ xs) = P x × All P xs

module _ {ℓ κ} {A : Type ℓ} (P : A → Type κ) where
  pub All-append : (xs ys : List A) → All P xs → All P ys → All P (xs ++ ys)
  All-append [] ys h k = k
  All-append (x ∷ xs) ys h k = (h.0, All-append xs ys h.1 k)

  pub All-replicate : (n : ℕ) (x : A) → P x → All P (replicate n x)
  All-replicate zero x h = tt
  All-replicate (suc n) x h = (h, All-replicate n x h)

  pub All-take : (n : ℕ) (xs : List A) → All P xs → All P (take n xs)
  All-take zero xs h = tt
  All-take (suc n) [] h = tt
  All-take (suc n) (x ∷ xs) h = (h.0, All-take n xs h.1)

  pub All-overwrite : (block src : List A) → All P block → All P src → All P (overwrite block src)
  All-overwrite block [] h k = h
  All-overwrite [] (s ∷ src) h k = tt
  All-overwrite (b ∷ block) (s ∷ src) h k = (k.0, All-overwrite block src h.1 k.1)

module _ {ℓ} {A : Type ℓ} where
  pub length-append : (xs ys : List A) → length (xs ++ ys) ≡ length xs + length ys
  length-append [] ys = omega arith
  length-append (x ∷ xs) ys = omega (arith, length-append xs ys)

  pub length-set : (xs : List A) (i : ℕ) (v : A) → length (set xs i v) ≡ length xs
  length-set [] i v = refl
  length-set (x ∷ xs) zero v = refl
  length-set (x ∷ xs) (suc i) v = ap suc (length-set xs i v)

  pub length-overwrite : (block src : List A) → length (overwrite block src) ≡ length block
  length-overwrite block [] = refl
  length-overwrite [] (s ∷ src) = refl
  length-overwrite (b ∷ block) (s ∷ src) = ap suc (length-overwrite block src)

  pub take-overwrite :
      (block src : List A)
      → length src ≤ length block
      → take (length src) (overwrite block src) ≡ src
  take-overwrite block [] h = refl
  take-overwrite [] (s ∷ src) h = absurd (omega arith)
  take-overwrite (b ∷ block) (s ∷ src) h = ap (λ t. s ∷ t) (take-overwrite block src (omega arith))

abbrev pub Bytes : Type 0
Bytes = List ℕ

abbrev pub Text : Type 0
Text = List ℕ

abbrev pub IsByte : ℕ → Type 0
IsByte b = b < 256

-- The codes of an ASCII text.
abbrev pub codes : String → Text
codes String.[] = []
codes (String.◌∷◌ c s) = code c ∷ codes s

module _ {ℓ} {A : Type ℓ} where
  pub length-take : (n : ℕ) (xs : List A) → n ≤ length xs → length (take n xs) ≡ n
  length-take zero xs h = refl
  length-take (suc n) [] h = absurd (omega arith)
  length-take (suc n) (x ∷ xs) h = ap suc (length-take n xs (omega arith))

  pub take-all : (n : ℕ) (xs : List A) → length xs ≡ n → take n xs ≡ xs
  take-all zero [] h = refl
  take-all zero (x ∷ xs) h = absurd (omega arith)
  take-all (suc n) [] h = refl
  take-all (suc n) (x ∷ xs) h = ap (λ t. x ∷ t) (take-all n xs (omega arith))

  -- A copy of the same size replaces the block.
  pub overwrite-all : (block src : List A) → length src ≡ length block → overwrite block src ≡ src
  overwrite-all [] [] h = refl
  overwrite-all (b ∷ block) [] h = absurd (omega arith)
  overwrite-all [] (s ∷ src) h = absurd (omega arith)
  overwrite-all (b ∷ block) (s ∷ src) h = ap (λ t. s ∷ t) (overwrite-all block src (omega arith))

  -- Copied cells are those of the source, the others those of the block.
  pub get_or-overwrite_below :
      (block src : List A) (n i : ℕ) (d : A)
      → n ≤ length block
      → n ≤ length src
      → i < n
      → get_or (overwrite block (take n src)) i d ≡ get_or src i d
  get_or-overwrite_below block src zero i d hb hs h = absurd (omega arith)
  get_or-overwrite_below [] src (suc n) i d hb hs h = absurd (omega arith)
  get_or-overwrite_below (b ∷ block) [] (suc n) i d hb hs h = absurd (omega arith)
  get_or-overwrite_below (b ∷ block) (s ∷ src) (suc n) zero d hb hs h = refl
  get_or-overwrite_below (b ∷ block) (s ∷ src) (suc n) (suc i) d hb hs h =
      get_or-overwrite_below block src n i d (omega arith) (omega arith) (omega arith)

  pub get_or-overwrite_above :
      (block src : List A) (n i : ℕ) (d : A)
      → n ≤ i
      → get_or (overwrite block (take n src)) i d ≡ get_or block i d
  get_or-overwrite_above block src zero i d h = refl
  get_or-overwrite_above block [] (suc n) i d h = refl
  get_or-overwrite_above [] (s ∷ src) (suc n) i d h = refl
  get_or-overwrite_above (b ∷ block) (s ∷ src) (suc n) zero d h = absurd (omega arith)
  get_or-overwrite_above (b ∷ block) (s ∷ src) (suc n) (suc i) d h =
      get_or-overwrite_above block src n i d (omega arith)

  pub get_or-set_self :
      (xs : List A) (i : ℕ) (v d : A) → i < length xs → get_or (set xs i v) i d ≡ v
  get_or-set_self [] i v d h = absurd (omega arith)
  get_or-set_self (x ∷ xs) zero v d h = refl
  get_or-set_self (x ∷ xs) (suc i) v d h = get_or-set_self xs i v d (omega arith)

  pub get_or-set_ne :
      (xs : List A) {i j : ℕ} (v d : A) → i ≢ j → get_or (set xs i v) j d ≡ get_or xs j d
  get_or-set_ne [] v d h = refl
  get_or-set_ne (x ∷ xs) {i = zero} {j = zero} v d h = absurd (h refl)
  get_or-set_ne (x ∷ xs) {i = zero} {j = suc j} v d h = refl
  get_or-set_ne (x ∷ xs) {i = suc i} {j = zero} v d h = refl
  get_or-set_ne (x ∷ xs) {i = suc i} {j = suc j} v d h = get_or-set_ne xs v d (λ e. h (ap suc e))

  pub get_elem?-get_or :
      (xs : List A) (i : ℕ) (d : A) → i < length xs → get_elem? xs i ≡ some (get_or xs i d)
  get_elem?-get_or [] i d h = absurd (omega arith)
  get_elem?-get_or (x ∷ xs) zero d h = refl
  get_elem?-get_or (x ∷ xs) (suc i) d h = get_elem?-get_or xs i d (omega arith)

  pub length-replicate : (n : ℕ) (a : A) → length (replicate n a) ≡ n
  length-replicate zero a = refl
  length-replicate (suc n) a = ap suc (length-replicate n a)
