-- ===== src/Base64.antt =====
-- `base64_encode` and `base64_decode` of Winscard/CommonFnc.cpp.
-- The C arrays `char_array_3` and `char_array_4` with their fill `i` are the list of the bytes that
-- wait; a shift by k is a product or quotient by 2 ^ k, and what is stored in a BYTE is taken `% 256`.
pub mod RoundTrip
use apduplay.Base.{
  Bool, Bytes, Text, [], bit_and, codes, false, get_or, if◌then◌else◌, leb, not, true, ℕ, ◌%◌, ◌&&◌,
  ◌*◌, ◌++◌, ◌+◌, ◌/◌, ◌==◌, ◌||◌, ◌∷◌,
}

-- `base64_chars`
abbrev pub base64_chars : Text
base64_chars = codes "ABCDEFGHIJKLMNOPQRSTUVWXYZabcdefghijklmnopqrstuvwxyz0123456789+/"

-- `base64_chars[i]`; the character past the end is the terminating zero.
pub char_of : ℕ → ℕ
char_of i = get_or base64_chars i 0

abbrev index_from : ℕ → Text → ℕ → ℕ
index_from i [] c = 255
index_from i (x ∷ xs) c = elim (x == c) [ true ↦ i | false ↦ index_from (i + 1) xs c ]

-- `(BYTE) base64_chars.find(c)`; `npos` is 255 in a BYTE.
pub index_of : ℕ → ℕ
index_of c = index_from 0 base64_chars c

-- `is_base64`
pub is_base64 : ℕ → Bool
is_base64 c =
    leb b'0' c && leb c b'9'
    || leb b'a' c && leb c b'z'
    || leb b'A' c && leb c b'Z'
    || c == b'+'
    || c == b'/'

abbrev pub sextet0 : ℕ → ℕ
sextet0 a = bit_and a 0xfc / 4

abbrev pub sextet1 : ℕ → ℕ → ℕ
sextet1 a b = (bit_and a 0x03 * 16 + bit_and b 0xf0 / 16) % 256

abbrev pub sextet2 : ℕ → ℕ → ℕ
sextet2 b c = (bit_and b 0x0f * 4 + bit_and c 0xc0 / 64) % 256

abbrev pub sextet3 : ℕ → ℕ
sextet3 c = bit_and c 0x3f

-- The four characters of a full group.
pub encode_group : ℕ → ℕ → ℕ → Text
unfolding char_of
encode_group a b c =
    char_of (sextet0 a) ∷ char_of (sextet1 a b) ∷ char_of (sextet2 b c) ∷ char_of (sextet3 c) ∷ []

-- The bytes of `char_array_3` that are filled.
pub data Waiting : Type 0 where
  w0 : Waiting
  w1 : ℕ → Waiting
  w2 : ℕ → ℕ → Waiting

-- `if (i) ..` behind the loop: the missing bytes are zero, and `=` fills up.
pub encode_rest : Waiting → Text
unfolding char_of
encode_rest w0 = []
encode_rest (w1 a) = char_of (sextet0 a) ∷ char_of (sextet1 a 0) ∷ b'=' ∷ b'=' ∷ []
encode_rest (w2 a b) =
    char_of (sextet0 a) ∷ char_of (sextet1 a b) ∷ char_of (sextet2 b 0) ∷ b'=' ∷ []

-- `while (bufLen--)`
pub encode_loop : Waiting → Bytes → Text
unfolding encode_rest encode_group
encode_loop w [] = encode_rest w
encode_loop w0 (c ∷ cs) = encode_loop (w1 c) cs
encode_loop (w1 a) (c ∷ cs) = encode_loop (w2 a c) cs
encode_loop (w2 a b) (c ∷ cs) = encode_group a b c ++ encode_loop w0 cs

unfoldable pub base64_encode : Bytes → Text
unfolding encode_loop
base64_encode bs = encode_loop w0 bs

abbrev pub octet0 : ℕ → ℕ → ℕ
octet0 i j = (i * 4 + bit_and j 0x30 / 16) % 256

abbrev pub octet1 : ℕ → ℕ → ℕ
octet1 j k = (bit_and j 0xf * 16 + bit_and k 0x3c / 4) % 256

abbrev pub octet2 : ℕ → ℕ → ℕ
octet2 k l = (bit_and k 0x3 * 64 + l) % 256

-- The three bytes of a full group of characters.
pub decode_group : ℕ → ℕ → ℕ → ℕ → Bytes
unfolding index_of
decode_group a b c d =
    octet0 (index_of a) (index_of b)
    ∷ octet1 (index_of b) (index_of c)
    ∷ octet2 (index_of c) (index_of d)
    ∷ []

-- The characters of `char_array_4` that are filled.
pub data Pending : Type 0 where
  p0 : Pending
  p1 : ℕ → Pending
  p2 : ℕ → ℕ → Pending
  p3 : ℕ → ℕ → ℕ → Pending

-- `if (i) ..` behind the loop: `i - 1` bytes come out.
pub decode_rest : Pending → Bytes
unfolding index_of
decode_rest p0 = []
decode_rest (p1 a) = []
decode_rest (p2 a b) = octet0 (index_of a) (index_of b) ∷ []
decode_rest (p3 a b c) = octet0 (index_of a) (index_of b) ∷ octet1 (index_of b) (index_of c) ∷ []

-- The loop stops at the end, at `=` and at a character outside the alphabet.
pub decode_loop : Pending → Text → Bytes
unfolding decode_rest decode_group is_base64
decode_loop p [] = decode_rest p
decode_loop p0 (c ∷ cs) =
    let more = decode_loop (p1 c) cs in
    if not (c == b'=') && is_base64 c then more else decode_rest p0
decode_loop (p1 x) (c ∷ cs) =
    let more = decode_loop (p2 x c) cs in
    if not (c == b'=') && is_base64 c then more else decode_rest (p1 x)
decode_loop (p2 x y) (c ∷ cs) =
    let more = decode_loop (p3 x y c) cs in
    if not (c == b'=') && is_base64 c then more else decode_rest (p2 x y)
decode_loop (p3 x y z) (c ∷ cs) =
    let more = decode_loop p0 cs in
    if not (c == b'=') && is_base64 c then decode_group x y z c ++ more else decode_rest (p3 x y z)

unfoldable pub base64_decode : Text → Bytes
unfolding decode_loop
base64_decode s = decode_loop p0 s
