-- ===== src/ApduText/Readable.antt =====
-- That the text of an APDU can be read back.
use apduplay.Base.{
  All, All-append, Bytes, IsByte, Text, [], ap, arith, codes, false, length, ok, overwrite, refl,
  sym, take, true, ℕ, ◌%◌, ◌++◌, ◌/◌, ◌<◌, ◌∙◌, ◌∷◌, ◌≡◌, ◌≤◌,
}
use apduplay.Status.{stat_ok}
use apduplay.CString.Trim.{remove-trim_right}
use apduplay.Hex.RoundTrip.{
  clean_lem, from_hex-pairs, hex_pairs-hex_items, is_gap, remove-hex_items,
}
use apduplay.CString.{remove}
use apduplay.ApduText.{CardApdu, apdu_convert_to_string, received_text, sent_text, spaced_byte}
use apduplay.Hex.{clean, from_hex, hex_byte, hex_items, hex_pairs, is_blank, to_hex}

remove-append : (s t : Text) → remove is_gap (s ++ t) ≡ remove is_gap s ++ remove is_gap t
unfolding remove
remove-append [] t = refl
remove-append (c ∷ s) t = ground (arith, remove-append s t)

hex_items-append :
    (front bs : Bytes) → hex_items false (front ++ bs) ≡ hex_items false front ++ hex_items false bs
unfolding hex_items
hex_items-append [] bs = refl
hex_items-append (a ∷ front) bs = ground (arith, hex_items-append front bs)

-- The text stands for these bytes, with gaps between them.
Stands : Text → Bytes → Type 0
Stands text bs = remove is_gap text ≡ hex_items false bs

Stands-spaced_byte :
    (b : ℕ) (text : Text) (bs : Bytes)
    → IsByte b
    → Stands text bs
    → Stands (spaced_byte b text) (b ∷ bs)
unfolding Stands remove hex_items
Stands-spaced_byte b text bs h e = ground (arith, e)

Stands-hex_byte : (b : ℕ) → IsByte b → Stands (hex_byte b) (b ∷ [])
unfolding Stands remove hex_items
Stands-hex_byte b h = ground arith

Stands-to_hex :
    (front bs : Bytes) (text : Text)
    → All IsByte front
    → Stands text bs
    → Stands (to_hex true front ++ b' ' ∷ text) (front ++ bs)
unfolding Stands remove to_hex
Stands-to_hex front bs text h e =
    remove-append (to_hex true front) (b' ' ∷ text)
    ∙ (ap (λ s. s ++ remove is_gap text)
          (remove-trim_right is_blank is_gap (λ c h. ground arith) (hex_items true front)
            ∙ remove-hex_items true front h)
        ∙ ap (λ s. hex_items false front ++ s) e
        ∙ sym (hex_items-append front bs))

hex_pairs-Stands :
    (text : Text) (bs : Bytes) → All IsByte bs → Stands text bs → hex_pairs (clean text) ≡ bs
unfolding Stands
hex_pairs-Stands text bs h e = ap hex_pairs (clean_lem text ∙ e) ∙ hex_pairs-hex_items bs h

-- Every byte of an APDU is one.
pub record IsApdu (apdu : CardApdu) : Type 0 where
  pub header : All IsByte (apdu.cla ∷ apdu.ins ∷ apdu.p1 ∷ apdu.p2 ∷ apdu.lc ∷ [])
  pub ending : IsByte apdu.le
  pub sent : All IsByte (take apdu.lc apdu.data_in)
  pub received : All IsByte (take apdu.le apdu.data_out)
  pub word : apdu.sw < 65536

abbrev pub sent_bytes : CardApdu → Bytes
sent_bytes apdu =
    apdu.cla ∷ apdu.ins ∷ apdu.p1 ∷ apdu.p2 ∷ apdu.lc ∷ (take apdu.lc apdu.data_in ++ apdu.le ∷ [])

abbrev pub received_bytes : CardApdu → Bytes
received_bytes apdu = take apdu.le apdu.data_out ++ apdu.sw / 256 ∷ apdu.sw % 256 ∷ []

-- Behind `-> ` and `<- ` stand the bytes of the APDU, so that the program's own function reads them back: the header
-- with LC, the data and LE, and the data with the status word.
pub apdu_convert_to_string-from_hex :
    (apdu : CardApdu) (array : Bytes) (capacity : ℕ)
    → IsApdu apdu
    → length (sent_bytes apdu) ≤ capacity
    → length (received_bytes apdu) ≤ capacity
    → capacity ≤ length array
    → (sent received : Text) × (apdu_convert_to_string apdu true ≡ codes "-> " ++ sent)
      × (from_hex sent array capacity
          ≡ ok (record {
            status = stat_ok;
            array = overwrite array (sent_bytes apdu);
            len = length (sent_bytes apdu);
          }))
      × (apdu_convert_to_string apdu false ≡ codes "<- " ++ received)
      × (from_hex received array capacity
          ≡ ok (record {
            status = stat_ok;
            array = overwrite array (received_bytes apdu);
            len = length (received_bytes apdu);
          }))
unfolding apdu_convert_to_string sent_text received_text
apdu_convert_to_string-from_hex apdu array capacity is fits fits' room =
    let (cla, (ins, (p1, (p2, (lc, done))))) = is.header in
    let high : IsByte (apdu.sw / 256) = omega (arith, is.word) in
    let low : IsByte (apdu.sw % 256) = omega arith in
    (
      sent_text apdu,
      received_text apdu,
      refl,
      from_hex-pairs (sent_text apdu) (sent_bytes apdu) array capacity
          (hex_pairs-Stands (sent_text apdu) (sent_bytes apdu)
            (
              cla,
              (
                ins,
                (
                  p1,
                  (
                    p2,
                    (
                      lc,
                      All-append IsByte (take apdu.lc apdu.data_in) (apdu.le ∷ []) is.sent
                          (is.ending, tt),
                    ),
                  ),
                ),
              ),
            )
            (Stands-spaced_byte apdu.cla _ _ cla (
              Stands-spaced_byte apdu.ins _ _ ins (
                Stands-spaced_byte apdu.p1 _ _ p1 (
                  Stands-spaced_byte apdu.p2 _ _ p2 (
                    Stands-spaced_byte apdu.lc _ _ lc (
                      Stands-to_hex (take apdu.lc apdu.data_in) (apdu.le ∷ []) (hex_byte apdu.le)
                        is.sent (Stands-hex_byte apdu.le is.ending))))))))
          fits (omega arith),
      refl,
      from_hex-pairs (received_text apdu) (received_bytes apdu) array capacity
          (hex_pairs-Stands (received_text apdu) (received_bytes apdu)
            (All-append IsByte (take apdu.le apdu.data_out) (apdu.sw / 256 ∷ apdu.sw % 256 ∷ [])
              is.received (high, (low, tt)))
            (Stands-to_hex (take apdu.le apdu.data_out) (apdu.sw / 256 ∷ apdu.sw % 256 ∷ []) _
              is.received
              (Stands-spaced_byte (apdu.sw / 256) _ _ high (Stands-hex_byte (apdu.sw % 256) low))))
          fits' (omega arith),
    )
