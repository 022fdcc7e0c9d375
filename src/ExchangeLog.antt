-- ===== src/ExchangeLog.antt =====
-- What an exchanged APDU adds to the log of `SCardTransmit` (Winscard/Winscard.cpp), where LOG_EXCHANGED_APDU is
-- on: the parts before and after the exchange, with `DumpMemory` and `WriteDescription`. The time of
-- the response is a parameter.
pub mod Readable
use apduplay.Base.{
  Bytes, Option, Outcome, Text, [], codes, if◌then◌else◌, length, ltb, none, ok, some, suc, take,
  true, zero, ℕ, ◌%◌, ◌++◌, ◌+◌, ◌-◌, ◌/◌, ◌==◌, ◌>>=◌, ◌∷◌,
}
use apduplay.Decimal.{format_d}
use apduplay.RuleFile.{Dictionary}
use apduplay.Block.{read}
use apduplay.Parentheses.{convert_outer_parenthessis}
use apduplay.Hex.{hex_byte, hex_digit, to_hex}
use apduplay.App.{App, dword}
use apduplay.Startup.{Globals}

-- `%X` and `%x` with a fixed number of digits, and `%x` without.
abbrev pub upper_digit : ℕ → ℕ
upper_digit d = if ltb d 10 then b'0' + d else b'A' + (d - 10)

unfoldable pub fixed_hex : ℕ → ℕ → Text
fixed_hex zero n = []
fixed_hex (suc k) n = fixed_hex k (n / 16) ++ (upper_digit (n % 16) ∷ [])

-- The digits of `n` in front of `rest`; the fuel is a bound on their number.
unfoldable pub hex_onto : ℕ → ℕ → Text → Text
hex_onto zero n rest = rest
hex_onto (suc f) n rest =
    let more = hex_onto f (n / 16) (hex_digit (n % 16) ∷ rest) in
    if ltb n 16 then hex_digit n ∷ rest else more

-- `DumpMemory`
unfoldable pub dump_memory : Bytes → Text
unfolding to_hex
dump_memory bytes = to_hex true bytes ++ codes "\n"

-- The text that the file of instructions has for an instruction, empty for none or without the file.
pub description_of : Option Dictionary → ℕ → Text
description_of none ins = []
description_of (some d) ins = d.getstring (codes "instructions:" ++ hex_byte ins) []

-- `WriteDescription`
unfoldable pub write_description : Option Dictionary → ℕ → Text
unfolding description_of convert_outer_parenthessis
write_description d ins =
    let description = description_of d ins in
    if length description == 0
    then []
    else codes "instruction info: " ++ (convert_outer_parenthessis description ++ codes "\n")

-- The description of the second byte, which is read whatever the length is.
pub described : Globals → Bytes → Outcome Text
unfolding write_description read
described g send_buffer =
    if g.write_description
    then (read send_buffer 1 >>= λ ins. ok (write_description g.instruction_dict ins))
    else ok []

-- The lines before the APDU.
pub command_head : App → ℕ → Text → Text
unfolding fixed_hex
command_head app h_card description =
    codes "SCardTransmit (handle 0x"
    ++ (fixed_hex 8 h_card
        ++ (codes ")#\napduCounter:"
            ++ (format_d app.apdu_counter
                ++ (codes "#\ntotalBytesINCounter:"
                    ++ (format_d ((app.processed_apdu_byte_counter + 1) % dword)
                        ++ (codes "#\n" ++ description))))))

-- What is added before the exchange; `send_buffer` has the length of the APDU.
unfoldable pub command_log : App → Globals → ℕ → Bytes → Outcome Text
command_log app g h_card send_buffer = described g send_buffer >>= λ description.
    ok (command_head app h_card description ++ (codes "transmitted:" ++ dump_memory send_buffer))

-- The lines before the response.
unfoldable pub response_head : ℕ → ℕ → Text
unfolding hex_onto
response_head elapsed result =
    codes "responseTime:"
    ++ (format_d elapsed
        ++ (codes "#\nSCardTransmit result:0x" ++ (hex_onto 8 result [] ++ codes "#\n")))

-- What is added after it; of a failed exchange the length is 0.
unfoldable pub response_log : ℕ → ℕ → Bytes → ℕ → Text
response_log elapsed result recv_buffer recv_length =
    response_head elapsed result
    ++ (codes "received:" ++ (dump_memory (take recv_length recv_buffer) ++ codes "\n"))
