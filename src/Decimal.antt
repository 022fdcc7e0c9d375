-- ===== src/Decimal.antt =====
-- Numbers in decimal: what `%d` prints, and `strtol` (CString) reads.
pub mod RoundTrip
use apduplay.Base.{Text, [], if◌then◌else◌, ltb, suc, zero, ℕ, ◌%◌, ◌+◌, ◌-◌, ◌/◌, ◌^◌, ◌∷◌}

-- The digits of `n` in front of `rest`; the fuel is a bound on their number.
unfoldable pub digits_onto : ℕ → ℕ → Text → Text
digits_onto zero n rest = rest
digits_onto (suc f) n rest =
    let more = digits_onto f (n / 10) ((b'0' + n % 10) ∷ rest) in
    if ltb n 10 then (b'0' + n) ∷ rest else more

-- Ten digits are enough for 32 bits.
unfoldable pub decimal : ℕ → Text
unfolding digits_onto
decimal n = digits_onto 10 n []

-- `%d` on a DWORD, which is read as a signed number.
unfoldable pub format_d : ℕ → Text
unfolding decimal
format_d n = if ltb n (2 ^ 31) then decimal n else b'-' ∷ decimal (2 ^ 32 - n)
