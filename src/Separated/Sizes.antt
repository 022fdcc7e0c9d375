-- ===== src/Separated/Sizes.antt =====
-- The size of a serialised list, what is written, and the round trip through a cleared buffer.
use apduplay.Base.{
  All, Bytes, List, Text, [], ap, arith, fault, if◌then◌else◌, length, length-append,
  length-replicate, le→leb, ltb, ok, out_of_bounds, overwrite, overwrite-all, refl, replicate, some,
  suc, take-all, zero, ℕ, ◌++◌, ◌+◌, ◌∷◌, ◌≡◌, ◌≤◌,
}
use apduplay.Status.{stat_not_enough_memory, stat_ok}
use apduplay.Block.{memcpy}
use apduplay.Block.Access.{memcpy-ok}
use apduplay.Separated.{
  item_text, items_text, parse_separated_array, req_length, serialize_as_separated_array,
}
use apduplay.Separated.RoundTrip.{IsName, parse-items_text}

-- The length that is computed first is that of the text that is written.
pub length-items_text : (sep : ℕ) (vs : List Text) → length (items_text sep vs) ≡ req_length vs
length-items_text sep [] = refl
length-items_text sep ([] ∷ vs) = ground (arith, length-items_text sep vs)
length-items_text sep ((c ∷ cs) ∷ vs) = ground (
  arith,
  length-append (item_text sep (c ∷ cs)) (items_text sep vs),
  length-append cs (sep ∷ []),
  length-items_text sep vs,
)

overwrite-replicate :
    (text : Bytes) (j n : ℕ)
    → n ≡ length text + j
    → overwrite (replicate n 0) text ≡ text ++ replicate j 0
overwrite-replicate [] j n e = ap (λ k. replicate k 0) (omega arith)
overwrite-replicate (c ∷ text) j zero e = absurd (omega arith)
overwrite-replicate (c ∷ text) j (suc n) e =
    ap (λ u. c ∷ u) (overwrite-replicate text j n (omega arith))

pub serialize-fits :
    (vs : List Text) (sep : ℕ) (out : Bytes)
    → req_length vs ≤ length out
    → serialize_as_separated_array vs sep (some out) (req_length vs)
      ≡ ok (record {
        status = stat_ok;
        array = some (overwrite out (items_text sep vs));
        array_size = req_length vs;
      })
unfolding serialize_as_separated_array
serialize-fits vs sep out h =
    let same = length-items_text sep vs in
    rw (le→leb (req_length vs) (req_length vs) (omega arith)) (
      rw
        (memcpy-ok out (items_text sep vs) (length (items_text sep vs)) (omega arith) (omega arith))
        (rw (same, take-all (req_length vs) (items_text sep vs) same)))

-- A list of names that are not empty and hold no zero, serialised with the length that the call with
-- NULL gives into a cleared buffer with at least two bytes more, succeeds, and parsing that buffer
-- with a size that covers the names gives the names back.
pub parse-serialize :
    (v : Text) (vs : List Text) (spare extra : ℕ)
    → IsName 0 v
    → All (IsName 0) vs
    → (array : Bytes) × (serialize_as_separated_array
          (v ∷ vs)
          0
          (some (replicate (req_length (v ∷ vs) + (spare + 2)) 0))
          (req_length (v ∷ vs))
        ≡ ok (record { status = stat_ok; array = some array; array_size = req_length (v ∷ vs) }))
      × (parse_separated_array array (req_length (v ∷ vs) + extra) 0 [] ≡ ok (v ∷ vs))
parse-serialize v vs spare extra h hs =
    let n = req_length (v ∷ vs) in
    let same = length-items_text 0 (v ∷ vs) in
    let cleared : Bytes = replicate (n + (spare + 2)) 0 in
    let size : length cleared ≡ n + (spare + 2) = length-replicate {A = ℕ} (n + (spare + 2)) 0 in
    let written =
      overwrite-replicate (items_text 0 (v ∷ vs)) (suc (spare + 1)) (n + (spare + 2))
        (omega arith) in
    (
      overwrite cleared (items_text 0 (v ∷ vs)),
      serialize-fits (v ∷ vs) 0 cleared (omega arith),
      rw written (parse-items_text 0 extra (replicate (spare + 1) 0) v vs [] h hs),
    )

-- The size test is the wrong way round. With its own size for `*pArraySize` an array that is smaller than
-- the names need is written past its end; one that is larger is refused, with
-- STAT_NOT_ENOUGH_MEMORY, and left as it was; only one of exactly the size is written.
pub serialize-size_test :
    (vs : List Text) (sep : ℕ) (out : Bytes)
    → serialize_as_separated_array vs sep (some out) (length out) ≡ (
        if ltb (length out) (req_length vs)
        then fault out_of_bounds
        else if ltb (req_length vs) (length out)
        then ok
            (record { status = stat_not_enough_memory; array = some out; array_size = length out })
        else ok (record {
          status = stat_ok;
          array = some (items_text sep vs);
          array_size = req_length vs;
        }))
unfolding serialize_as_separated_array memcpy
serialize-size_test vs sep out =
    let same = length-items_text sep vs in
    ground (
      arith,
      same,
      take-all (length (items_text sep vs)) (items_text sep vs) refl,
      overwrite-all out (items_text sep vs),
    )
