-- ===== src/Tests/LogTests.antt =====
-- What is written to files, the names of errors, and the memory that is given back.
use apduplay.Base.{
  Bool, Bool-cases, Bytes, List, Text, [], arith, codes, false, fault, inl, inr, length, negsuc,
  none, ok, out_of_bounds, overwrite, pos, refl, replicate, take, true, ℕ, ◌++◌, ◌+◌, ◌<◌, ◌==◌,
  ◌∷◌, ◌≡◌, ◌≤◌, ◌⊎◌,
}
use apduplay.Hex.{from_hex, to_hex}
use apduplay.ApduText.{CardApdu, apdu_convert_to_string, cleared, sent_text}
use apduplay.ApduText.Readable.{IsApdu, apdu_convert_to_string-from_hex}
use apduplay.ExchangeLog.Readable.{Written, command_log-response_log, command_log-short}
use apduplay.Tests.StartTests.{globals}
use apduplay.Decimal.{format_d}
use apduplay.Cards.ConnectW.{format_int}
use apduplay.ErrorText.Distinct.{error_to_string-injective}
use apduplay.Files.Matrix.{file_save_matrix_int-lines_of}
use apduplay.Files.Free.{file_get_available_file_name-first}
use apduplay.Status.{stat_ok}
use apduplay.Tests.TransmitTests.{silent, start}
use apduplay.Memory.Owned.{Owned, count, destruct-Owned, scard_free_memory-Owned}
use apduplay.Memory.{Freed, delete_block, scard_free_memory}
use apduplay.CString.{text_eq}
use apduplay.ExchangeLog.{command_log, dump_memory, response_head, response_log}
use apduplay.Memory.Destructor.{delete_each, delete_socket, destruct}
use apduplay.App.{App}
use apduplay.ErrorText.{error_to_string, name_in}
use apduplay.Files.{
  IntDataBlob, NameParts, file_get_available_file_name, file_save_matrix_int_file_offset, max_path,
  numbered,
}
use mathlib.Core.Path.{subst}

-- A list of names in char at 5 and 9 and one in WCHAR at 7; 4 is another block.
abbrev lists : App
lists = record start {
  char_allocated_memory_list = 5 ∷ 9 ∷ [];
  wchar_allocated_memory_list = 7 ∷ [];
}

abbrev blocks : List ℕ
blocks = 7 ∷ 4 ∷ 9 ∷ 5 ∷ []

lists-Owned : Owned lists blocks
lists-Owned = record { covered = λ p. ground arith }

scard_free_memory-Owned_example :
    (f : Freed silent) × (scard_free_memory silent lists [] blocks 1 9 ≡ ok f) × Owned f.app f.heap
scard_free_memory-Owned_example = scard_free_memory-Owned silent lists [] blocks lists-Owned 1 9

destruct-Owned_example :
    (app' : App) × (w' : silent.World) × (rest : List ℕ) × (destruct silent lists [] blocks
      ≡ ok (app', w', rest))
    × (app'.char_allocated_memory_list ≡ [])
    × (app'.wchar_allocated_memory_list ≡ [])
    × ((q : ℕ) → count q rest + (count q (5 ∷ 9 ∷ []) + count q (7 ∷ [])) ≡ count q blocks)
destruct-Owned_example = destruct-Owned silent lists [] blocks lists-Owned (λ e. cc)

destructed : destruct silent lists [] blocks ≡ ok (start, [], 4 ∷ [])
unfolding destruct delete_block delete_socket delete_each
destructed = refl

-- An exchange of two bytes and the status word.
abbrev sent : Bytes
sent = 0x00 ∷ 0xA4 ∷ []

abbrev received : Bytes
received = 0x90 ∷ 0x00 ∷ 7 ∷ []

abbrev array : Bytes
array = replicate 4 0

command_log-response_log_example :
    (before command response : Text) × (command_log start globals 5 sent
      ≡ ok (before ++ (codes "transmitted:" ++ (command ++ codes "\n"))))
    × Written sent command array 4
    × (response_log 3 0 received 2
        ≡ response_head 3 0 ++ (codes "received:" ++ ((response ++ codes "\n") ++ codes "\n")))
    × Written (take 2 received) response array 4
command_log-response_log_example =
    command_log-response_log start globals 5 3 0 sent received array 2 4 (inl refl)
      (omega arith, (omega arith, tt)) (omega arith, (omega arith, tt)) (omega arith) (omega arith)
      (omega arith)

response_text :
    response_log 12 0x1F received 2
    ≡ codes "responseTime:12#\nSCardTransmit result:0x1f#\nreceived:90 00\n\n"
unfolding response_log response_head dump_memory format_d
response_text = refl

command_log-short_run :
    command_log start (record globals { write_description = true }) 5 (0x00 ∷ [])
    ≡ fault out_of_bounds
command_log-short_run =
    command_log-short start (record globals { write_description = true }) 5 (0x00 ∷ []) refl
      (omega arith)

abbrev sample : NameParts
sample = record { stem = codes "c:\\card"; ext = codes ".dat" }

-- Only the first name is taken.
abbrev taken : Text → Bool
taken name = text_eq name (codes "c:\\card00001.dat")

first : (i : ℕ) → i ≤ 0 → 0 ≡ i
first i h = omega arith

fits : (i : ℕ) → i ≤ 1 → length (numbered sample (1 + i)) < max_path
unfolding numbered format_d
fits i h = elim (Bool-cases (i == 0)) [
  | inl e ↦
      subst (λ j. length (numbered sample (1 + j)) < max_path) (first i (ground (arith, e)))
        (omega arith)
  | inr e ↦
      let one : 1 ≡ i = ground (arith, e, h) in
      subst (λ j. length (numbered sample (1 + j)) < max_path) one (omega arith)
]

file_get_available_file_name_run :
    file_get_available_file_name taken sample 5 ≡ ok (codes "c:\\card00002.dat")
unfolding numbered text_eq format_d
file_get_available_file_name_run =
    file_get_available_file_name-first taken sample 1 5 (omega arith)
      (λ i h. subst (λ j. taken (numbered sample (1 + j)) ≡ true) (first i (omega arith)) refl) refl
      fits (omega arith)

abbrev values : IntDataBlob
values = record { items = pos 7 ∷ negsuc 11 ∷ pos 0 ∷ []; act_len = 3 }

file_save_matrix_int-lines_of_example :
    file_save_matrix_int_file_offset true 100 (codes "old\n") values 1 none false
    ≡ ok (record { status = stat_ok; file = codes "old\n-12\n0\n" })
unfolding format_int format_d
file_save_matrix_int-lines_of_example =
    file_save_matrix_int-lines_of (codes "old\n") values 1 100 none (omega arith) (omega arith)

error_to_string-injective_example :
    ((◌≡◌ {A = ℕ} 0x6A82 0x6E00) ⊎ (◌≡◌ {A = ℕ} 0x6A82 0x6A82) ⊎ (◌≡◌ {A = ℕ} 0x6E00 0x6A82))
    × (error_to_string 0x6A82 ≡ error_to_string 0x6E00)
unfolding name_in error_to_string
error_to_string-injective_example =
    error_to_string-injective 0x6A82 0x6E00 {s = codes "SW_CLA_NOT_SUPPORTED"}
      {t = codes "SW_CLA_NOT_SUPPORTED"} refl refl refl

-- An APDU with two bytes of data, that is answered by one byte and 9000.
abbrev apdu : CardApdu
apdu = record cleared {
  ins = 0xA4;
  lc = 2;
  le = 1;
  data_in = 0x3F ∷ 0x00 ∷ replicate 254 0;
  data_out = 0x6F ∷ replicate 255 0;
  sw = 0x9000;
}

apdu_text : apdu_convert_to_string apdu true ≡ codes "-> 00 a4 00 00 02 3f 00 01"
unfolding apdu_convert_to_string sent_text to_hex
apdu_text = refl

apdu-IsApdu : IsApdu apdu
apdu-IsApdu = record {
  header = (omega arith, (omega arith, (omega arith, (omega arith, (omega arith, tt)))));
  ending = omega arith;
  sent = (omega arith, (omega arith, tt));
  received = (omega arith, tt);
  word = omega arith;
}

abbrev apdu_array : Bytes
apdu_array = replicate 300 0

apdu_convert_to_string-from_hex_example :
    (sent received : Text) × (apdu_convert_to_string apdu true ≡ codes "-> " ++ sent)
    × (from_hex sent apdu_array 300
        ≡ ok (record {
          status = stat_ok;
          array = overwrite apdu_array (0x00 ∷ 0xA4 ∷ 0x00 ∷ 0x00 ∷ 0x02 ∷ 0x3F ∷ 0x00 ∷ 0x01 ∷ []);
          len = 8;
        }))
    × (apdu_convert_to_string apdu false ≡ codes "<- " ++ received)
    × (from_hex received apdu_array 300
        ≡ ok (record {
          status = stat_ok;
          array = overwrite apdu_array (0x6F ∷ 0x90 ∷ 0x00 ∷ []);
          len = 3;
        }))
apdu_convert_to_string-from_hex_example =
    apdu_convert_to_string-from_hex apdu apdu_array 300 apdu-IsApdu (omega arith) (omega arith)
      (omega arith)
