-- ===== src/Files/Free.antt =====
-- Which name `File_GetAvailableFileName` finds.
use mathlib.Core.Path.{subst}
use apduplay.Base.{
  Bool, Text, arith, false, length, ltb, lt→ltb, ok, refl, suc, true, zero, ℕ, ◌%◌, ◌+◌, ◌<◌, ◌≡◌,
  ◌≤◌,
}
use apduplay.App.{dword}
use apduplay.Files.{NameParts, file_get_available_file_name, free_from, max_path, numbered}

module _ (exists : Text → Bool) (path : NameParts) where
  free_from-first :
      (k index fuel : ℕ)
      → index + k < dword
      → ((i : ℕ) → i < k → exists (numbered path (index + i)) ≡ true)
      → exists (numbered path (index + k)) ≡ false
      → ((i : ℕ) → i ≤ k → length (numbered path (index + i)) < max_path)
      → k < fuel
      → free_from exists path fuel index ≡ ok (numbered path (index + k))
  unfolding free_from
  free_from-first k index zero small taken free fits enough = absurd (omega arith)
  free_from-first zero index (suc fuel) small taken free fits enough =
      let here : index + 0 ≡ index = omega arith in
      let short : ltb (length (numbered path index)) max_path ≡ true =
        lt→ltb (length (numbered path index)) max_path
          (subst (λ i. length (numbered path i) < max_path) here (fits 0 (omega arith))) in
      let unused : exists (numbered path index) ≡ false =
        subst (λ i. exists (numbered path i) ≡ false) here free in
      rw short (rw unused (rw here refl))
  free_from-first (suc k) index (suc fuel) small taken free fits enough =
      let here : index + 0 ≡ index = omega arith in
      let short : ltb (length (numbered path index)) max_path ≡ true =
        lt→ltb (length (numbered path index)) max_path
          (subst (λ i. length (numbered path i) < max_path) here (fits 0 (omega arith))) in
      let used : exists (numbered path index) ≡ true =
        subst (λ i. exists (numbered path i) ≡ true) here (taken 0 (omega arith)) in
      let no_wrap : (index + 1) % dword ≡ index + 1 = omega arith in
      let after : (i : ℕ) → index + suc i ≡ index + 1 + i = λ i. omega arith in
      rw short (
        rw used (
          rw no_wrap (
            rw (after k) (
              free_from-first k (index + 1) fuel (omega arith)
                (λ i h.
                  subst (λ j. exists (numbered path j) ≡ true) (after i)
                    (taken (suc i) (omega arith)))
                (subst (λ j. exists (numbered path j) ≡ false) (after k) free)
                (λ i h.
                  subst (λ j. length (numbered path j) < max_path) (after i)
                    (fits (suc i) (omega arith)))
                (omega arith)))))

  -- Where the names with the numbers up to k are taken and the next one is free, and none of them has 260 characters,
  -- the name with the next number is found, in k + 1 rounds.
  pub file_get_available_file_name-first :
      (k fuel : ℕ)
      → k + 1 < dword
      → ((i : ℕ) → i < k → exists (numbered path (1 + i)) ≡ true)
      → exists (numbered path (1 + k)) ≡ false
      → ((i : ℕ) → i ≤ k → length (numbered path (1 + i)) < max_path)
      → k < fuel
      → file_get_available_file_name exists path fuel ≡ ok (numbered path (1 + k))
  unfolding file_get_available_file_name
  file_get_available_file_name-first k fuel small taken free fits enough =
      free_from-first k 1 fuel (omega arith) taken free fits enough
