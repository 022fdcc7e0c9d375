-- ===== src/Remote.antt =====
-- Requests to the remote proxy and its answers: `Remote_FormatRequest` and `Remote_ParseResponse` of
-- Winscard/Winscard.cpp.
pub mod RoundTrip
use apduplay.Base.{
  Bool, Option, Text, [], codes, drop, if◌then◌else◌, negsuc, none, pos, some, take, ℕ, ℤ, ◌++◌,
  ◌+◌, ◌-◌, ◌==◌, ◌^◌, ◌∷◌,
}
use apduplay.Status.{scard_f_comm_error, scard_s_success}
use apduplay.CString.{find, strtol}
use apduplay.Decimal.{format_d}

abbrev pub cmd_separator : Text
cmd_separator = codes ":"

abbrev pub cmd_line_separator : Text
cmd_line_separator = codes "|"

abbrev pub remote_socket_endseq : Text
remote_socket_endseq = codes "@@"

-- `Remote_FormatRequest`
unfoldable pub remote_format_request : Text → ℕ → Text → Text → Text → Text → Text
unfolding format_d
remote_format_request target_reader unique_cmd_id command command_data notes line_separator =
    codes ">"
    ++ (target_reader
        ++ (line_separator
            ++ (codes "\n>"
                ++ (format_d unique_cmd_id
                    ++ (cmd_separator
                        ++ (command
                            ++ (cmd_separator
                                ++ (command_data
                                    ++ (line_separator ++ (notes ++ codes "\n"))))))))))

-- What a call can come to: an exception, or a status with the response where it was assigned.
pub data Parsed : Type 0 where
  raised : Parsed
  returned : ℕ → Option Text → Parsed

-- `atoi`, compared with the DWORD that is expected.
abbrev pub is_id : ℤ → ℕ → Bool
is_id (pos n) expected = n == expected
is_id (negsuc n) expected = 2 ^ 32 - 1 - n == expected

-- The text up to the first `@@`, or all of it.
pub until_endseq : Text → Text
unfolding find
until_endseq s = elim (find remote_socket_endseq s) [ none ↦ s | some i ↦ take i s ]

-- The text between the first character and the first `:`, and the text behind it. Without a `:`
-- (`npos`) the first is the whole rest, and the second begins at position 0.
pub split_id : Text → Text → Text × Text
unfolding find
split_id raw rest = elim (find cmd_separator raw) [
  | none ↦ (rest, raw)
  | some i ↦ (take (i - 1) rest, drop (i + 1) raw)
]

-- `Remote_ParseResponse`; `rawResponse.at(0)` raises on an empty text.
unfoldable pub remote_parse_response : Text → ℕ → Parsed
unfolding until_endseq split_id strtol
remote_parse_response [] expected = raised
remote_parse_response (c ∷ rest) expected =
    if c == b'>'
    then (let (id, after) = split_id (c ∷ rest) rest in
        if is_id (strtol 10 id) expected
        then returned scard_s_success (some (until_endseq after))
        else returned scard_f_comm_error none)
    else returned scard_f_comm_error none
