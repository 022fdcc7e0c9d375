-- ===== src/Tests/Codecs.antt =====
-- Hexadecimal text, base64, separated arrays, parentheses, and the answers of the proxy.
use apduplay.Base.{
  Bytes, [], arith, codes, false, fault, length, ok, out_of_bounds, refl, replicate, some, true,
  ◌*◌, ◌++◌, ◌+◌, ◌/◌, ◌∷◌, ◌≡◌,
}
use apduplay.Status.{scard_s_success, stat_not_enough_memory, stat_ok}
use apduplay.CString.{remove}
use apduplay.Decimal.{decimal}
use apduplay.Hex.{clean, from_hex, to_hex}
use apduplay.Hex.RoundTrip.{clean_lem, from_hex-to_hex, from_hex-to_hex_overflow, is_gap}
use apduplay.Base64.{base64_decode, base64_encode}
use apduplay.Base64.RoundTrip.{base64_decode-encode, length-base64_encode}
use apduplay.Separated.{parse_separated_array, serialize_as_separated_array}
use apduplay.Separated.Sizes.{parse-serialize, serialize-size_test}
use apduplay.Parentheses.{
  Balanced, char, convert_outer_parenthessis, convert_outer_parenthessis-print, group, nil,
}
use apduplay.Remote.{remote_parse_response, returned}
use apduplay.Remote.RoundTrip.{remote_parse_response-answer}

abbrev apdu : Bytes
apdu = 0x00 ∷ 0xA4 ∷ 0x04 ∷ []

abbrev room : Bytes
room = 9 ∷ 9 ∷ 9 ∷ 9 ∷ []

to_hex-apdu : to_hex true apdu ≡ codes "00 a4 04"
unfolding to_hex
to_hex-apdu = refl

from_hex_mixed :
    from_hex (codes " 00A4 4\n") room 4
    ≡ ok (record { status = stat_ok; array = 0 ∷ 0xA4 ∷ 4 ∷ 9 ∷ []; len = 3 })
unfolding from_hex
from_hex_mixed = refl

from_hex-to_hex_example :
    from_hex (to_hex true apdu) room 4
    ≡ ok (record { status = stat_ok; array = 0x00 ∷ 0xA4 ∷ 0x04 ∷ 9 ∷ []; len = 3 })
from_hex-to_hex_example = from_hex-to_hex true apdu room 4 (omega arith) (omega arith) (omega arith)

from_hex-to_hex_overflow_run :
    from_hex (to_hex false apdu) room 2
    ≡ ok (record { status = stat_not_enough_memory; array = room; len = 3 })
from_hex-to_hex_overflow_run =
    from_hex-to_hex_overflow false apdu room 2 (omega arith) (omega arith)

clean_lem_run : clean (codes " 0a\nb ") ≡ remove is_gap (codes " 0a\nb ")
clean_lem_run = clean_lem (codes " 0a\nb ")

encode_man : base64_encode (codes "Man!") ≡ codes "TWFuIQ=="
unfolding base64_encode
encode_man = refl

base64_decode-encode_example : base64_decode (base64_encode (codes "Man!")) ≡ codes "Man!"
base64_decode-encode_example = base64_decode-encode (codes "Man!") (omega arith)

length-base64_encode_run :
    length (base64_encode (codes "Man!")) ≡ (length (codes "Man!") + 2) / 3 * 4
length-base64_encode_run = length-base64_encode (codes "Man!")

parse_readers : parse_separated_array (codes "ab||c" ++ 0 ∷ []) 5 b'|' [] ≡ ok (codes "ab" ∷ [])
unfolding parse_separated_array
parse_readers = refl

parse-serialize_example :
    (array : Bytes) × (serialize_as_separated_array
        (codes "ab" ∷ codes "c" ∷ [])
        0
        (some (replicate 7 0))
        5
      ≡ ok (record { status = stat_ok; array = some array; array_size = 5 }))
    × (parse_separated_array array 6 0 [] ≡ ok (codes "ab" ∷ codes "c" ∷ []))
parse-serialize_example =
    parse-serialize (codes "ab") (codes "c" ∷ []) 0 1 (omega arith) (omega arith)

serialize-size_test_run :
    serialize_as_separated_array (codes "ab" ∷ codes "c" ∷ []) 0 (some room) 4 ≡ fault out_of_bounds
serialize-size_test_run = serialize-size_test (codes "ab" ∷ codes "c" ∷ []) 0 room

abbrev description : Balanced
description = char b'a' (group (group nil nil) (char b'b' nil))

convert_outer_parenthessis-print_run : convert_outer_parenthessis (codes "a(())b") ≡ codes "a[()]b"
convert_outer_parenthessis-print_run = convert_outer_parenthessis-print description (omega arith)

remote_parse_response-answer_run :
    remote_parse_response (codes ">17:9000@@x") 17 ≡ returned scard_s_success (some (codes "9000"))
unfolding decimal
remote_parse_response-answer_run =
    remote_parse_response-answer 17 17 (codes "9000") (codes "x") (omega arith) (omega arith)
