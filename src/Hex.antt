-- ===== src/Hex.antt =====
-- `CCommonFnc` of Winscard/CommonFnc.cpp: bytes as hexadecimal text and back.
pub mod RoundTrip
use apduplay.Base.{
  Bool, Bytes, Outcome, Text, [], if◌then◌else◌, length, ltb, negsuc, ok, overwrite, pos, ℕ, ℤ, ◌%◌,
  ◌++◌, ◌+◌, ◌-◌, ◌/◌, ◌==◌, ◌>>=◌, ◌∷◌,
}
use apduplay.Status.{stat_not_enough_data_type, stat_not_enough_memory, stat_ok}
use apduplay.Block.{memcpy}
use apduplay.CString.{newline_to_space, remove, strtol, trim_right}

abbrev pub hex_digit : ℕ → ℕ
hex_digit d = if ltb d 10 then b'0' + d else b'a' + (d - 10)

-- `string_format("%.2x", b)`
abbrev pub hex_byte : ℕ → Text
hex_byte b = hex_digit (b / 16) ∷ hex_digit (b % 16) ∷ []

-- The loop of `BYTE_ConvertFromArrayToHexString`.
unfoldable pub hex_items : Bool → Bytes → Text
hex_items spaced [] = []
hex_items spaced (b ∷ bs) =
    hex_byte b ++ (if spaced then b' ' ∷ hex_items spaced bs else hex_items spaced bs)

-- `BYTE_ConvertFromArrayToHexString`, with the flag `bAddSpace`.
unfoldable pub to_hex : Bool → Bytes → Text
unfolding hex_items trim_right
to_hex spaced bs = trim_right (λ c. c == b' ') (hex_items spaced bs)

-- `(BYTE)num & 0xFF` for the `long` that `strtol` returns.
abbrev pub low_byte : ℤ → ℕ
low_byte (pos n) = n % 256
low_byte (negsuc n) = 255 - n % 256

-- `BYTE_ConvertFromHexNumToByte`
unfoldable pub hex_num_to_byte : Text → ℕ
unfolding strtol
hex_num_to_byte num = low_byte (strtol 16 num)

-- The `while` loop: two characters at a time, the last alone if their number is odd.
pub hex_pairs : Text → Bytes
unfolding hex_num_to_byte
hex_pairs [] = []
hex_pairs (a ∷ []) = hex_num_to_byte (a ∷ []) ∷ []
hex_pairs (a ∷ b ∷ cs) = hex_num_to_byte (a ∷ b ∷ []) ∷ hex_pairs cs

-- `find_first_not_of(" ")` and `substr`; a text of spaces alone is kept.
pub skip_leading : Text → Text
skip_leading [] = []
skip_leading (c ∷ cs) = let rest = skip_leading cs in if c == b' ' then rest else c ∷ cs

abbrev pub trim_left : Text → Text
trim_left s = elim (skip_leading s) [ [] ↦ s | c ∷ cs ↦ c ∷ cs ]

abbrev pub is_blank : ℕ → Bool
is_blank c = c == b' '

-- Trim, replace the line ends, trim, and drop the spaces inside.
pub clean : Text → Text
unfolding trim_right skip_leading remove
clean s = remove is_blank (trim_left (newline_to_space (trim_right is_blank s)))

-- What a conversion leaves: its status, the target array and the length variable.
pub record Converted : Type 0 where
  pub status : ℕ
  pub array : Bytes
  pub len : ℕ

-- `BYTE_ConvertFromHexStringToArray` with a `DWORD` length, which holds the capacity on entry.
unfoldable pub from_hex : Text → Bytes → ℕ → Outcome Converted
unfolding clean hex_pairs memcpy
from_hex s array capacity =
    let bytes = hex_pairs (clean s) in
    if ltb capacity (length bytes)
    then ok (record { status = stat_not_enough_memory; array = array; len = length bytes })
    else (memcpy array bytes (length bytes) >>= λ written.
        ok (record { status = stat_ok; array = written; len = length bytes }))

-- The overload with a `BYTE` length.
unfoldable pub from_hex_small : Text → Bytes → ℕ → Outcome Converted
unfolding from_hex
from_hex_small s array capacity = from_hex s array capacity >>= λ r.
    ok (
      if ltb 0xFF r.len then record r { status = stat_not_enough_data_type; len = capacity } else r)
