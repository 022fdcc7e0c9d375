-- ===== src/Block/Access.antt =====
-- Accesses inside a block succeed.
use apduplay.Base.{
  Bytes, arith, get_elem?-get_or, get_or, length, le→leb, lt→ltb, ok, overwrite, overwrite-all, pos,
  set, take, take-all, ℕ, ◌<◌, ◌∙◌, ◌≡◌, ◌≤◌,
}
use apduplay.Block.{memcpy, read, read_at, write_at}

pub read-ok : (block : Bytes) (i : ℕ) → i < length block → read block i ≡ ok (get_or block i 0)
unfolding read
read-ok block i h = rw (get_elem?-get_or block i 0 h, read)

pub read_at-ok :
    (block : Bytes) (i : ℕ) → i < length block → read_at block (pos i) ≡ ok (get_or block i 0)
unfolding read_at
read_at-ok block i h = read-ok block i h

pub write_at-ok :
    (block : Bytes) (i v : ℕ) → i < length block → write_at block (pos i) v ≡ ok (set block i v)
unfolding write_at
write_at-ok block i v h = rw (lt→ltb i (length block) h)

pub memcpy-ok :
    (target source : Bytes) (n : ℕ)
    → n ≤ length target
    → n ≤ length source
    → memcpy target source n ≡ ok (overwrite target (take n source))
unfolding memcpy
memcpy-ok target source n ht hs = rw (le→leb n (length target) ht, le→leb n (length source) hs)

-- A whole block copied onto another of its size.
pub memcpy-all :
    (target source : Bytes) (n : ℕ)
    → length target ≡ n
    → length source ≡ n
    → memcpy target source n ≡ ok source
memcpy-all target source n ht hs =
    memcpy-ok target source n (omega arith) (omega arith)
    ∙ rw (take-all n source hs, overwrite-all target source (omega arith))
