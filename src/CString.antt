-- ===== src/CString.antt =====
-- The operations of `std::string` and of the C library that the program calls on its texts, and
-- its own `compareWithNoCase` (Winscard/CommonFnc.cpp). A text is the list of its character codes.
pub mod Trim
pub mod Search
use apduplay.Base.{
  Bool, Bytes, Option, Outcome, Text, [], false, fault, if◌then◌else◌, leb, length, ltb, map,
  negsuc, none, ok, out_of_bounds, pos, some, true, ℕ, ℤ, ◌&&◌, ◌*◌, ◌+◌, ◌-◌, ◌==◌, ◌>>=◌, ◌^◌,
  ◌||◌, ◌∷◌,
}

-- Equality of two texts (`==`, `strcmp(..) == 0`).
unfoldable pub text_eq : Text → Text → Bool
text_eq [] [] = true
text_eq (x ∷ xs) (y ∷ ys) = x == y && text_eq xs ys
text_eq _ _ = false

pub is_prefix_of : Text → Text → Bool
is_prefix_of [] ys = true
is_prefix_of (x ∷ xs) [] = false
is_prefix_of (x ∷ xs) (y ∷ ys) = x == y && is_prefix_of xs ys

-- `s.find(what)`; `none` is `npos`.
unfoldable pub find : Text → Text → Option ℕ
unfolding is_prefix_of
find what [] = if is_prefix_of what [] then some 0 else none
find what (c ∷ cs) =
    if is_prefix_of what (c ∷ cs)
    then some 0
    else elim (find what cs) [ none ↦ none | some i ↦ some (i + 1) ]

-- `std::remove` and `erase` together: the text without the characters that `p` takes.
unfoldable pub remove : (ℕ → Bool) → Text → Text
remove p [] = []
remove p (c ∷ cs) = if p c then remove p cs else c ∷ remove p cs

-- `s.erase(s.find_last_not_of(set) + 1)`
unfoldable pub trim_right : (ℕ → Bool) → Text → Text
trim_right p [] = []
trim_right p (c ∷ cs) = elim (trim_right p cs) [
  | [] ↦ if p c then [] else c ∷ []
  | d ∷ ds ↦ c ∷ d ∷ ds
]

-- `isspace` in the C locale.
abbrev pub is_space : ℕ → Bool
is_space c = c == b' ' || leb 9 c && leb c 13

abbrev digit_value : ℕ → ℕ
digit_value c =
    if leb b'0' c && leb c b'9'
    then c - b'0'
    else if leb b'a' c && leb c b'z'
    then c - b'a' + 10
    else if leb b'A' c && leb c b'Z'
    then c - b'A' + 10
    else 99

-- The digits at the head of the text, read in the given base.
unfoldable pub read_digits : ℕ → ℕ → Text → ℕ
read_digits base acc [] = acc
read_digits base acc (c ∷ cs) =
    let rest = read_digits base (acc * base + digit_value c) cs in
    if ltb (digit_value c) base then rest else acc

pub skip_spaces : Text → Text
skip_spaces [] = []
skip_spaces (c ∷ cs) = let rest = skip_spaces cs in if is_space c then rest else c ∷ cs

-- `0x` before hexadecimal digits is skipped.
pub skip_hex_prefix : Text → Text
skip_hex_prefix (a ∷ b ∷ cs) = if a == b'0' && (b == b'x' || b == b'X') then cs else a ∷ b ∷ cs
skip_hex_prefix cs = cs

abbrev pub long_max : ℕ
long_max = 2 ^ 31 - 1

-- `LONG_MAX` and `LONG_MIN` for what does not fit a 32-bit `long`.
abbrev pub to_long : Bool → ℕ → ℤ
to_long negative n =
    if negative
    then (if n == 0 then pos 0 else negsuc (if leb n (2 ^ 31) then n - 1 else long_max))
    else pos (if leb n long_max then n else long_max)

pub read_magnitude : ℕ → Text → ℕ
unfolding read_digits skip_hex_prefix
read_magnitude base cs = read_digits base 0 (if base == 16 then skip_hex_prefix cs else cs)

pub read_signed : ℕ → Text → ℤ
unfolding read_magnitude
read_signed base [] = pos 0
read_signed base (c ∷ cs) =
    if c == b'-'
    then to_long true (read_magnitude base cs)
    else if c == b'+'
    then to_long false (read_magnitude base cs)
    else to_long false (read_magnitude base (c ∷ cs))

-- `strtol(s, NULL, base)` for the bases 10 and 16.
unfoldable pub strtol : ℕ → Text → ℤ
unfolding read_signed skip_spaces
strtol base s = read_signed base (skip_spaces s)

-- `toupper` in the C locale.
abbrev pub to_upper : ℕ → ℕ
to_upper c = if leb b'a' c && leb c b'z' then c - 32 else c

-- Whether `compareWithNoCase` gives 0 (on no text it gives the length of the longer one, which is
-- 0 only if both are empty, or the result of `strcmp` on the two in upper case).
unfoldable pub compare_with_no_case : Text → Text → Bool
unfolding text_eq
compare_with_no_case a b =
    if length a == length b then text_eq (map to_upper a) (map to_upper b) else false

-- `std::replace(.., '\n', ' ')`
abbrev pub newline_to_space : Text → Text
newline_to_space [] = []
newline_to_space (c ∷ cs) = (if c == b'\n' then b' ' else c) ∷ newline_to_space cs

-- The end of a C string in a buffer; without one the read goes past the buffer.
unfoldable pub c_string : Bytes → Outcome Text
c_string [] = fault out_of_bounds
c_string (c ∷ cs) = let rest = (c_string cs >>= λ s. ok (c ∷ s)) in if c == 0 then ok [] else rest
