-- ===== src/ExchangeLog/Readable.antt =====
-- What can be read back from the log.
use apduplay.Base.{
  All, Bool-cases, Bytes, IsByte, Text, [], arith, codes, false, fault, get_or, inl, inr, length,
  ok, out_of_bounds, overwrite, refl, take, true, ℕ, ◌++◌, ◌<◌, ◌∷◌, ◌≡◌, ◌≤◌, ◌⊎◌,
}
use apduplay.Hex.RoundTrip.{from_hex-to_hex}
use apduplay.Block.Access.{read-ok}
use apduplay.Status.{stat_ok}
use apduplay.App.{App}
use apduplay.Startup.{Globals}
use apduplay.Block.{read}
use apduplay.Hex.{to_hex, from_hex}
use apduplay.ExchangeLog.{
  command_head, command_log, described, dump_memory, response_head, response_log, write_description,
}

-- The bytes are written in hexadecimal, and are read back by the program's own function.
abbrev pub Written : Bytes → Text → Bytes → ℕ → Type 0
Written bytes hex array capacity =
    from_hex hex array capacity
    ≡ ok (record { status = stat_ok; array = overwrite array bytes; len = length bytes })

-- An instruction can be described where the APDU has one.
described-ok :
    (g : Globals) (send_buffer : Bytes)
    → (g.write_description ≡ false) ⊎ (2 ≤ length send_buffer)
    → (description : Text) × (described g send_buffer ≡ ok description)
unfolding described
described-ok g send_buffer (inl off) = ([], rw off refl)
described-ok g send_buffer (inr long) = elim (Bool-cases g.write_description) [
  | inl e ↦ (
    write_description g.instruction_dict (get_or send_buffer 1 0),
    rw e (rw (read-ok send_buffer 1 (omega arith)) refl),
  )
  | inr e ↦ ([], rw e refl)
]

-- The log of an exchange, unless it is to describe the instruction of an APDU of less than two
-- bytes: the command and the response, as far as its length goes, stand behind `transmitted:` and
-- `received:`, each on a line of its own, in hexadecimal that the program reads back as the same
-- bytes, into any array that has room for them.
pub command_log-response_log :
    (app : App) (g : Globals) (h_card elapsed result : ℕ) (sent recv array : Bytes)
    (recv_length capacity : ℕ)
    → (g.write_description ≡ false) ⊎ (2 ≤ length sent)
    → All IsByte sent
    → All IsByte (take recv_length recv)
    → length sent ≤ capacity
    → length (take recv_length recv) ≤ capacity
    → capacity ≤ length array
    → (before command response : Text) × (command_log app g h_card sent
        ≡ ok (before ++ (codes "transmitted:" ++ (command ++ codes "\n"))))
      × Written sent command array capacity
      × (response_log elapsed result recv recv_length
          ≡ response_head elapsed result
            ++ (codes "received:" ++ ((response ++ codes "\n") ++ codes "\n")))
      × Written (take recv_length recv) response array capacity
unfolding command_log response_log dump_memory
command_log-response_log app g h_card elapsed result sent recv array recv_length capacity
      describable bytes received fits fits' room =
    let (description, describes) = described-ok g sent describable in
    (
      command_head app h_card description,
      to_hex true sent,
      to_hex true (take recv_length recv),
      rw describes refl,
      from_hex-to_hex true sent array capacity bytes fits (omega arith),
      refl,
      from_hex-to_hex true (take recv_length recv) array capacity received fits' (omega arith),
    )

-- With descriptions on, the log of an APDU without a second byte reads past its end.
pub command_log-short :
    (app : App) (g : Globals) (h_card : ℕ) (sent : Bytes)
    → g.write_description ≡ true
    → length sent < 2
    → command_log app g h_card sent ≡ fault out_of_bounds
unfolding command_log described read
command_log-short app g h_card [] on short = rw on refl
command_log-short app g h_card (a ∷ []) on short = rw on refl
command_log-short app g h_card (a ∷ b ∷ cs) on short = absurd (omega arith)
