-- ===== src/Files/Matrix.antt =====
-- The lines that `File_SaveMatrixInt` writes, against those of all values in a row.
use apduplay.Base.{
  Bool-cases, List, Option, Text, [], ap, append-nil, append_assoc, arith, false, get_elem?-get_or,
  get_or, inl, inr, length, ok, pos, refl, suc, true, zero, ℕ, ℤ, ◌%◌, ◌++◌, ◌+◌, ◌-◌, ◌==◌, ◌∙◌,
  ◌≡◌, ◌≤◌,
}
use apduplay.Status.{stat_ok}
use apduplay.Files.{IntDataBlob, end_of, file_save_matrix_int_file_offset, int_line, save_loop}

-- The lines of `count` values from `i` on.
abbrev pub lines_of : List ℤ → ℕ → ℕ → Text
lines_of items zero i = []
lines_of items (suc count) i = int_line (get_or items i (pos 0)) ++ lines_of items count (i + 1)

save_loop-lines_of :
    (items : List ℤ) (count i : ℕ) (values file : Text)
    → i + count ≤ length items
    → save_loop items count i values file ≡ ok (file ++ (values ++ lines_of items count i))
unfolding save_loop
save_loop-lines_of items zero i values file room = rw (append-nil values) refl
save_loop-lines_of items (suc count) i values file room =
    let line = int_line (get_or items i (pos 0)) in
    let rest = lines_of items count (i + 1) in
    rw (get_elem?-get_or items i (pos 0) (omega arith), save_loop)
      (elim (Bool-cases (i % 1000 == 0)) [
        | inl e ↦ rw e (
            save_loop-lines_of items count (i + 1) [] (file ++ (values ++ line)) (omega arith)
            ∙ ap ok (
                append_assoc file (values ++ line) rest
                ∙ ap (λ t. file ++ t) (append_assoc values line rest)))
        | inr e ↦ rw e (
            save_loop-lines_of items count (i + 1) (values ++ line) file (omega arith)
            ∙ ap (λ t. ok (file ++ t)) (append_assoc values line rest))
      ])

-- Into a file that can be opened, the values from the first offset to the last, or to the end of the blob, are
-- written as text, one to a line, behind what the file held: the writes in between, at every value whose
-- number is a multiple of 1000, and the offset in the file change nothing.
pub file_save_matrix_int-lines_of :
    (file : Text) (blob : IntDataBlob) (start_offset file_offset : ℕ) (end_offset : Option ℕ)
    → start_offset ≤ end_of end_offset blob
    → end_of end_offset blob ≤ length blob.items
    → file_save_matrix_int_file_offset true file_offset file blob start_offset end_offset false
      ≡ ok (record {
        status = stat_ok;
        file = file ++ lines_of blob.items (end_of end_offset blob - start_offset) start_offset;
      })
unfolding file_save_matrix_int_file_offset
file_save_matrix_int-lines_of file blob start_offset file_offset end_offset order room =
    rw
      (save_loop-lines_of blob.items (end_of end_offset blob - start_offset) start_offset [] file
        (omega arith))
      refl
