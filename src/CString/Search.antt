-- ===== src/CString/Search.antt =====
-- Finding a separator behind characters that differ from it, and cutting the text there.
use apduplay.Base.{
  All, List, Text, [], arith, drop, length, refl, some, suc, true, ℕ, ◌++◌, ◌∷◌, ◌≡◌, ◌≢◌,
}
use apduplay.CString.{find, is_prefix_of}

pub find-char :
    (x : ℕ) (s m : Text) → All (λ c. c ≢ x) s → find (x ∷ []) (s ++ x ∷ m) ≡ some (length s)
unfolding find
find-char x [] m h = ground arith
find-char x (c ∷ s) m h = ground (arith, find-char x s m h.1, h.0)

-- The first of two equal characters stands where the run of others ends.
pub find-pair :
    (x : ℕ) (s m : Text) → All (λ c. c ≢ x) s → find (x ∷ x ∷ []) (s ++ x ∷ x ∷ m) ≡ some (length s)
unfolding find
find-pair x [] m h = ground arith
find-pair x (c ∷ s) m h = ground (arith, find-pair x s m h.1, h.0)

pub drop-append {ℓ} :
    {A : Type ℓ} (s : List A) (x : A) (m : List A) → drop (suc (length s)) (s ++ x ∷ m) ≡ m
drop-append [] x m = refl
drop-append (c ∷ s) x m = drop-append s x m

is_prefix_of-append : (what m : Text) → is_prefix_of what (what ++ m) ≡ true
unfolding is_prefix_of
is_prefix_of-append [] m = refl
is_prefix_of-append (c ∷ cs) m = ground (arith, is_prefix_of-append cs m)

-- What the text begins with is found there.
pub find-prefix : (c : ℕ) (what m : Text) → find (c ∷ what) (c ∷ (what ++ m)) ≡ some 0
unfolding find
find-prefix c what m = rw (is_prefix_of-append (c ∷ what) m) refl
