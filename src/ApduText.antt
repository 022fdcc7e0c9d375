-- ===== src/ApduText.antt =====
-- `CARDAPDU` of Shared/globals.h and `APDU_ConvertToString` of Winscard/CommonFnc.cpp.
pub mod Readable
use apduplay.Base.{
  Bool, Bytes, Text, codes, if◌then◌else◌, replicate, take, true, ℕ, ◌%◌, ◌++◌, ◌/◌, ◌∷◌,
}
use apduplay.Hex.{hex_byte, to_hex}

-- `CARDAPDU`: the arrays have 256 bytes each.
pub record CardApdu : Type 0 where
  pub cla : ℕ
  pub ins : ℕ
  pub p1 : ℕ
  pub p2 : ℕ
  pub lc : ℕ
  pub le : ℕ
  pub data_in : Bytes
  pub data_out : Bytes
  pub sw : ℕ

-- `clear`, which the constructor calls.
abbrev pub cleared : CardApdu
cleared = record {
  cla = 0;
  ins = 0;
  p1 = 0;
  p2 = 0;
  lc = 0;
  le = 0;
  data_in = replicate 256 0;
  data_out = replicate 256 0;
  sw = 0;
}

-- A byte in hexadecimal and a space.
abbrev pub spaced_byte : ℕ → Text → Text
spaced_byte b rest = hex_byte b ++ b' ' ∷ rest

-- What stands behind the arrow: the header, LC, the data and LE, or the data and the status word.
unfoldable pub sent_text : CardApdu → Text
sent_text apdu = spaced_byte apdu.cla (
    spaced_byte apdu.ins (
      spaced_byte apdu.p1 (
        spaced_byte apdu.p2 (
          spaced_byte apdu.lc
            (to_hex true (take apdu.lc apdu.data_in) ++ b' ' ∷ hex_byte apdu.le)))))

unfoldable pub received_text : CardApdu → Text
received_text apdu =
    to_hex true (take apdu.le apdu.data_out)
    ++ b' ' ∷ spaced_byte (apdu.sw / 256) (hex_byte (apdu.sw % 256))

-- `APDU_ConvertToString`
unfoldable pub apdu_convert_to_string : CardApdu → Bool → Text
apdu_convert_to_string apdu to_send_apdu =
    if to_send_apdu then codes "-> " ++ sent_text apdu else codes "<- " ++ received_text apdu
