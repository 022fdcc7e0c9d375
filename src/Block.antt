-- ===== src/Block.antt =====
-- Blocks of memory: C arrays of a known size, with a fault for every access outside.
pub mod Access
use apduplay.Base.{
  Bytes, Outcome, drop, fault, get_elem?, if◌then◌else◌, leb, length, ltb, negsuc, none, ok,
  out_of_bounds, overwrite, pos, set, some, take, ℕ, ℤ, ◌&&◌, ◌++◌, ◌+◌,
}

unfoldable pub read : Bytes → ℕ → Outcome ℕ
read block i = elim (get_elem? block i) [ none ↦ fault out_of_bounds | some b ↦ ok b ]

unfoldable pub read_at : Bytes → ℤ → Outcome ℕ
unfolding read
read_at block (pos i) = read block i
read_at block (negsuc i) = fault out_of_bounds

unfoldable pub write_at : Bytes → ℤ → ℕ → Outcome Bytes
write_at block (pos i) v = if ltb i (length block) then ok (set block i v) else fault out_of_bounds
write_at block (negsuc i) v = fault out_of_bounds

-- `memcpy(target, source, n)`
unfoldable pub memcpy : Bytes → Bytes → ℕ → Outcome Bytes
memcpy target source n =
    if leb n (length target) && leb n (length source)
    then ok (overwrite target (take n source))
    else fault out_of_bounds

-- `memcpy(target + offset, source, n)`
unfoldable pub memcpy_to : Bytes → ℕ → Bytes → ℕ → Outcome Bytes
memcpy_to target offset source n =
    if leb (offset + n) (length target) && leb n (length source)
    then ok (take offset target ++ overwrite (drop offset target) (take n source))
    else fault out_of_bounds
