-- ===== src/Base64/RoundTrip.antt =====
-- Decoding undoes encoding, and the size of a code.
use apduplay.Base.{
  ==_iff, All, Bytes, IsByte, Text, [], arith, bit_and, byte_law, length, not, passes, passes-below,
  refl, true, ℕ, ◌%◌, ◌&&◌, ◌*◌, ◌+◌, ◌/◌, ◌<◌, ◌==◌, ◌∙◌, ◌∷◌, ◌≡◌,
}
use apduplay.Base64.{
  base64_decode, base64_encode, char_of, decode_group, decode_loop, decode_rest, encode_group,
  encode_loop, encode_rest, index_of, is_base64, octet0, octet1, octet2, p0, sextet0, sextet1,
  sextet2, sextet3, w0,
}

-- What the masks and shifts come to on bytes, each checked on all of them.
record Masks (b : ℕ) : Type 0 where
  hi6 : bit_and b 0xfc / 4 ≡ b / 4
  lo2 : bit_and b 0x03 ≡ b % 4
  hi4 : bit_and b 0xf0 / 16 ≡ b / 16
  lo4 : bit_and b 0x0f ≡ b % 16
  hi2 : bit_and b 0xc0 / 64 ≡ b / 64
  lo6 : bit_and b 0x3f ≡ b % 64
  mid2 : bit_and b 0x30 / 16 ≡ b / 16 % 4
  mid4 : bit_and b 0x3c / 4 ≡ b / 4 % 16

masks : (b : ℕ) → b < 256 → Masks b
unfolding passes
masks b h = record {
  hi6 = byte_law (λ b. bit_and b 0xfc / 4) (λ b. b / 4) refl b h;
  lo2 = byte_law (λ b. bit_and b 0x03) (λ b. b % 4) refl b h;
  hi4 = byte_law (λ b. bit_and b 0xf0 / 16) (λ b. b / 16) refl b h;
  lo4 = byte_law (λ b. bit_and b 0x0f) (λ b. b % 16) refl b h;
  hi2 = byte_law (λ b. bit_and b 0xc0 / 64) (λ b. b / 64) refl b h;
  lo6 = byte_law (λ b. bit_and b 0x3f) (λ b. b % 64) refl b h;
  mid2 = byte_law (λ b. bit_and b 0x30 / 16) (λ b. b / 16 % 4) refl b h;
  mid4 = byte_law (λ b. bit_and b 0x3c / 4) (λ b. b / 4 % 16) refl b h;
}

-- A character of the alphabet is found at its index, is accepted, and is not `=`.
index_table : passes (λ i. index_of (char_of i) == i) 64 ≡ true
unfolding passes index_of char_of
index_table = refl

accept_table : passes (λ i. not (char_of i == b'=') && is_base64 (char_of i)) 64 ≡ true
unfolding passes char_of is_base64
accept_table = refl

index_of-char_of : (i : ℕ) → i < 64 → index_of (char_of i) ≡ i
index_of-char_of i h =
    (==_iff _ _).0 (passes-below (λ i. index_of (char_of i) == i) 64 index_table i h)

accepted : (i : ℕ) → i < 64 → (not (char_of i == b'=') && is_base64 (char_of i)) ≡ true
accepted i h =
    passes-below (λ i. not (char_of i == b'=') && is_base64 (char_of i)) 64 accept_table i h

-- The sextets of bytes, by arithmetic; each is below 64.
sextets :
    (a b c : ℕ)
    → a < 256
    → b < 256
    → c < 256
    → (sextet0 a ≡ a / 4)
      × (sextet1 a b ≡ a % 4 * 16 + b / 16)
      × (sextet2 b c ≡ b % 16 * 4 + c / 64)
      × (sextet3 c ≡ c % 64)
sextets a b c ha hb hc = omega (arith, masks a ha, masks b hb, masks c hc)

-- The octets of sextets, by arithmetic.
octets :
    (i j k l : ℕ)
    → i < 64
    → j < 64
    → k < 64
    → l < 64
    → (octet0 i j ≡ i * 4 + j / 16)
      × (octet1 j k ≡ j % 16 * 16 + k / 4)
      × (octet2 k l ≡ k % 4 * 64 + l)
octets i j k l hi hj hk hl =
    omega (arith, masks i (omega arith), masks j (omega arith), masks k (omega arith))

-- Four characters of the alphabet are decoded together.
decode_loop-group :
    (i j k l : ℕ) (rest : Text)
    → i < 64
    → j < 64
    → k < 64
    → l < 64
    → decode_loop p0 (char_of i ∷ char_of j ∷ char_of k ∷ char_of l ∷ rest)
      ≡ octet0 i j ∷ octet1 j k ∷ octet2 k l ∷ decode_loop p0 rest
unfolding decode_loop decode_group
decode_loop-group i j k l rest hi hj hk hl =
    rw (accepted i hi, accepted j hj, accepted k hk, accepted l hl)
      (rw (
        index_of-char_of i hi,
        index_of-char_of j hj,
        index_of-char_of k hk,
        index_of-char_of l hl,
      ))

decode_loop-pair :
    (i j : ℕ) (rest : Text)
    → i < 64
    → j < 64
    → decode_loop p0 (char_of i ∷ char_of j ∷ b'=' ∷ rest) ≡ octet0 i j ∷ []
unfolding decode_loop decode_rest
decode_loop-pair i j rest hi hj =
    rw (accepted i hi, accepted j hj) (rw (index_of-char_of i hi, index_of-char_of j hj))

decode_loop-triple :
    (i j k : ℕ) (rest : Text)
    → i < 64
    → j < 64
    → k < 64
    → decode_loop p0 (char_of i ∷ char_of j ∷ char_of k ∷ b'=' ∷ rest)
      ≡ octet0 i j ∷ octet1 j k ∷ []
unfolding decode_loop decode_rest
decode_loop-triple i j k rest hi hj hk =
    rw (accepted i hi, accepted j hj, accepted k hk)
      (rw (index_of-char_of i hi, index_of-char_of j hj, index_of-char_of k hk))

-- The octets of the sextets of three bytes are those bytes.
regroup :
    (a b c : ℕ)
    → a < 256
    → b < 256
    → c < 256
    → (octet0 (sextet0 a) (sextet1 a b) ≡ a)
      × (octet1 (sextet1 a b) (sextet2 b c) ≡ b)
      × (octet2 (sextet2 b c) (sextet3 c) ≡ c)
      × (sextet0 a < 64)
      × (sextet1 a b < 64)
      × (sextet2 b c < 64)
      × (sextet3 c < 64)
regroup a b c ha hb hc =
    let s = sextets a b c ha hb hc in
    let o =
      octets (a / 4) (a % 4 * 16 + b / 16) (b % 16 * 4 + c / 64) (c % 64) (omega arith)
        (omega arith) (omega arith) (omega arith) in
    rw (s.0, s.1, s.2, s.3) (omega (arith, o))

decode_loop-encode_loop : (bs : Bytes) → All IsByte bs → decode_loop p0 (encode_loop w0 bs) ≡ bs
unfolding encode_loop encode_group encode_rest
decode_loop-encode_loop [] h = unfold decode_loop decode_rest in refl
decode_loop-encode_loop (a ∷ []) h =
    let r = regroup a 0 0 h.0 (omega arith) (omega arith) in
    decode_loop-pair (sextet0 a) (sextet1 a 0) (b'=' ∷ []) (omega arith) (omega arith) ∙ cc
decode_loop-encode_loop (a ∷ b ∷ []) h =
    let r = regroup a b 0 h.0 h.1.0 (omega arith) in
    decode_loop-triple (sextet0 a) (sextet1 a b) (sextet2 b 0) [] (omega arith) (omega arith)
      (omega arith)
    ∙ cc
decode_loop-encode_loop (a ∷ b ∷ c ∷ bs) h =
    let r = regroup a b c h.0 h.1.0 h.1.1.0 in
    let ih = decode_loop-encode_loop bs h.1.1.1 in
    decode_loop-group (sextet0 a) (sextet1 a b) (sextet2 b c) (sextet3 c) (encode_loop w0 bs)
      (omega arith) (omega arith) (omega arith) (omega arith)
    ∙ cc

-- Decoding what was encoded gives the bytes back, for every list of bytes.
pub base64_decode-encode : (bs : Bytes) → All IsByte bs → base64_decode (base64_encode bs) ≡ bs
unfolding base64_decode base64_encode
base64_decode-encode bs h = decode_loop-encode_loop bs h

-- The code of n bytes has four characters for every three bytes begun.
pub length-base64_encode : (bs : Bytes) → length (base64_encode bs) ≡ (length bs + 2) / 3 * 4
unfolding base64_encode encode_loop encode_group encode_rest
length-base64_encode [] = omega arith
length-base64_encode (a ∷ []) = omega arith
length-base64_encode (a ∷ b ∷ []) = omega arith
length-base64_encode (a ∷ b ∷ c ∷ bs) = omega (arith, length-base64_encode bs)
