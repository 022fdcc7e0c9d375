-- ===== src/Hex/RoundTrip.antt =====
-- Reading back what was written in hexadecimal.
use apduplay.Base.{
  ==_iff, All, Bool, Bytes, IsByte, Text, [], arith, false, length, ltb, lt→ltb, ok, overwrite,
  passes, passes-below, refl, take-all, true, ℕ, ◌<◌, ◌==◌, ◌||◌, ◌∙◌, ◌∷◌, ◌≡◌, ◌≤◌,
}
use apduplay.Status.{stat_not_enough_memory, stat_ok}
use apduplay.Block.Access.{memcpy-ok}
use apduplay.CString.{newline_to_space, remove, trim_right}
use apduplay.CString.Trim.{remove-trim_right}
use apduplay.Hex.{
  clean, from_hex, hex_byte, hex_items, hex_num_to_byte, hex_pairs, is_blank, skip_leading, to_hex,
  trim_left,
}

byte_table : passes (λ b. hex_num_to_byte (hex_byte b) == b) 256 ≡ true
unfolding passes hex_num_to_byte
byte_table = refl

pub hex_byte-hex_num : (b : ℕ) → IsByte b → hex_num_to_byte (hex_byte b) ≡ b
hex_byte-hex_num b h =
    (==_iff _ b).0 (passes-below (λ b. hex_num_to_byte (hex_byte b) == b) 256 byte_table b h)

-- Characters that are dropped from the text: spaces and line ends.
abbrev pub is_gap : ℕ → Bool
is_gap c = c == b' ' || c == b'\n'

remove-newlines : (s : Text) → remove is_blank (newline_to_space s) ≡ remove is_gap s
unfolding remove
remove-newlines [] = refl
remove-newlines (c ∷ cs) = ground (arith, remove-newlines cs)

remove-skip_leading : (s : Text) → remove is_blank (skip_leading s) ≡ remove is_blank s
unfolding remove skip_leading
remove-skip_leading [] = refl
remove-skip_leading (c ∷ cs) = ground (arith, remove-skip_leading cs)

remove-trim_left : (s : Text) → remove is_blank (trim_left s) ≡ remove is_blank s
unfolding remove
remove-trim_left s = ground (arith, remove-skip_leading s)

-- The trims and replacements amount to dropping every space and line end.
pub clean_lem : (s : Text) → clean s ≡ remove is_gap s
unfolding clean
clean_lem s =
    remove-trim_left (newline_to_space (trim_right is_blank s))
    ∙ remove-newlines (trim_right is_blank s)
    ∙ remove-trim_right is_blank is_gap (λ c h. ground arith) s

pub remove-hex_items :
    (spaced : Bool) (bs : Bytes)
    → All IsByte bs
    → remove is_gap (hex_items spaced bs) ≡ hex_items false bs
unfolding remove hex_items
remove-hex_items spaced [] h = refl
remove-hex_items spaced (b ∷ bs) h = ground (arith, remove-hex_items spaced bs h.1)

pub hex_pairs-hex_items : (bs : Bytes) → All IsByte bs → hex_pairs (hex_items false bs) ≡ bs
unfolding hex_pairs hex_items
hex_pairs-hex_items [] h = refl
hex_pairs-hex_items (b ∷ bs) h = cc (hex_byte-hex_num b h.0, hex_pairs-hex_items bs h.1)

hex_pairs-clean-to_hex :
    (spaced : Bool) (bs : Bytes) → All IsByte bs → hex_pairs (clean (to_hex spaced bs)) ≡ bs
unfolding to_hex
hex_pairs-clean-to_hex spaced bs h = rw (clean_lem (to_hex spaced bs)) (
    rw (remove-trim_right is_blank is_gap (λ c h. ground arith) (hex_items spaced bs))
      (rw (remove-hex_items spaced bs h) (hex_pairs-hex_items bs h)))

-- A text that stands for the bytes is read.
pub from_hex-pairs :
    (text : Text) (bs array : Bytes) (capacity : ℕ)
    → hex_pairs (clean text) ≡ bs
    → length bs ≤ capacity
    → length bs ≤ length array
    → from_hex text array capacity
      ≡ ok (record { status = stat_ok; array = overwrite array bs; len = length bs })
unfolding from_hex
from_hex-pairs text bs array capacity e fits room =
    let enough : ltb capacity (length bs) ≡ false = ground arith in
    rw e (
      rw enough (
        rw (memcpy-ok array bs (length bs) room (omega arith)) (rw (take-all (length bs) bs refl))))

-- Bytes written in hexadecimal, with or without spaces, are read back into any array that holds
-- them, if the capacity given covers them too: the status is STAT_OK, the bytes stand at the start of
-- the array, the rest of it is as it was, and the length is theirs.
pub from_hex-to_hex :
    (spaced : Bool) (bs array : Bytes) (capacity : ℕ)
    → All IsByte bs
    → length bs ≤ capacity
    → length bs ≤ length array
    → from_hex (to_hex spaced bs) array capacity
      ≡ ok (record { status = stat_ok; array = overwrite array bs; len = length bs })
from_hex-to_hex spaced bs array capacity h fits room =
    from_hex-pairs (to_hex spaced bs) bs array capacity (hex_pairs-clean-to_hex spaced bs h) fits
      room

-- Bytes that the capacity does not cover leave the array as it was, with STAT_NOT_ENOUGH_MEMORY and
-- the length that would have been needed.
pub from_hex-to_hex_overflow :
    (spaced : Bool) (bs array : Bytes) (capacity : ℕ)
    → All IsByte bs
    → capacity < length bs
    → from_hex (to_hex spaced bs) array capacity
      ≡ ok (record { status = stat_not_enough_memory; array = array; len = length bs })
unfolding from_hex
from_hex-to_hex_overflow spaced bs array capacity h over =
    rw (hex_pairs-clean-to_hex spaced bs h) (rw (lt→ltb capacity (length bs) over))
