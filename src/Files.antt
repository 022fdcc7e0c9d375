-- ===== src/Files.antt =====
-- `File_GetAvailableFileName`, `File_SaveMatrixInt` and `File_SaveMatrixIntFileOffset` of Winscard/CommonFnc.cpp.
pub mod Free
pub mod Matrix
use apduplay.Base.{
  Bool, Bytes, List, Option, Outcome, Text, [], codes, false, fault, get_elem?, if◌then◌else◌,
  length, ltb, no_fuel, none, ok, out_of_bounds, some, suc, true, zero, ℕ, ℤ, ◌%◌, ◌++◌, ◌+◌, ◌-◌,
  ◌/◌, ◌==◌, ◌>>=◌, ◌∷◌,
}
use apduplay.RuleFile.Settings.{to_dword}
use apduplay.App.{dword}
use apduplay.Status.{stat_file_open_fail, stat_ok}
use apduplay.Decimal.{format_d}
use apduplay.Cards.ConnectW.{format_int}

-- The zeros before the number.
pub zeroes : ℕ → Text
zeroes index =
    if ltb index 10
    then codes "0000"
    else if ltb index 100
    then codes "000"
    else if ltb index 1000
    then codes "00"
    else if ltb index 10000
    then codes "0"
    else []

-- What `_splitpath_s` makes of the name: the drive, the directory and the name in one, and the extension.
pub record NameParts : Type 0 where
  pub stem : Text
  pub ext : Text

unfoldable pub numbered : NameParts → ℕ → Text
unfolding zeroes
numbered path index = path.stem ++ (zeroes index ++ (format_d index ++ path.ext))

abbrev pub max_path : ℕ
max_path = 260

-- The search from an index on; each name is copied into an array of MAX_PATH characters. `exists` is
-- `GetFileAttributes(fileName) != -1`.
pub free_from : (Text → Bool) → NameParts → ℕ → ℕ → Outcome Text
free_from exists path zero index = fault no_fuel
free_from exists path (suc fuel) index =
    let rest = free_from exists path fuel ((index + 1) % dword) in
    if ltb (length (numbered path index)) max_path
    then (if exists (numbered path index) then rest else ok (numbered path index))
    else fault out_of_bounds

-- `File_GetAvailableFileName`: the name that is found; the status is always STAT_OK.
unfoldable pub file_get_available_file_name : (Text → Bool) → NameParts → ℕ → Outcome Text
unfolding free_from
file_get_available_file_name exists path fuel = free_from exists path fuel 1

-- `INT_DATA_BLOB`, without the size that is allocated.
pub record IntDataBlob : Type 0 where
  pub items : List ℤ
  pub act_len : ℕ

-- The line of a value.
abbrev pub int_line : ℤ → Text
int_line value = format_int value ++ codes "\n"

-- The loop over `count` values from `i` on, with the lines that wait and the content of the file.
pub save_loop : List ℤ → ℕ → ℕ → Text → Text → Outcome Text
save_loop items zero i values file = ok (file ++ values)
save_loop items (suc count) i values file = elim (get_elem? items i) [
  | none ↦ fault out_of_bounds
  | some value ↦
      let values' = values ++ int_line value in
      elim (i % 1000 == 0) [
        | true ↦ save_loop items count (i + 1) [] (file ++ values')
        | false ↦ save_loop items count (i + 1) values' file
      ]
]

-- The four bytes of an `int` in memory.
abbrev pub int_bytes : ℤ → Bytes
int_bytes value =
    let n = to_dword value in n % 256 ∷ n / 256 % 256 ∷ n / 65536 % 256 ∷ n / 16777216 % 256 ∷ []

-- The bytes of `count` values from `i` on.
pub memory_of : List ℤ → ℕ → ℕ → Outcome Bytes
memory_of items zero i = ok []
memory_of items (suc count) i = elim (get_elem? items i) [
  | none ↦ fault out_of_bounds
  | some value ↦ memory_of items count (i + 1) >>= λ rest. ok (int_bytes value ++ rest)
]

-- What a call leaves: the status and the content of the file.
pub record Saved : Type 0 where
  pub status : ℕ
  pub file : Text

-- `endOffset`, which stands for the whole blob where it is -1.
abbrev pub end_of : Option ℕ → IntDataBlob → ℕ
end_of none blob = blob.act_len
end_of (some end_offset) blob = end_offset

-- `File_SaveMatrixInt` on a file that can be opened or not. The file is open for appending, so the position
-- that `seekg` sets does not count; it is taken to succeed. What is written is given as the stream gets it, before
-- a text-mode stream of Windows translates line ends. A negative number of values in binary is one of
-- 64 bits.
unfoldable pub file_save_matrix_int :
    Bool → Text → IntDataBlob → ℕ → Option ℕ → ℕ → Bool → Outcome Saved
unfolding save_loop memory_of
file_save_matrix_int can_open file blob start_offset end_offset file_offset binary =
    let stop = end_of end_offset blob in
    if can_open
    then (if binary
        then (if ltb stop start_offset
            then fault out_of_bounds
            else (memory_of blob.items (stop - start_offset) start_offset >>= λ bytes.
                ok (record { status = stat_ok; file = file ++ bytes })))
        else (save_loop blob.items (stop - start_offset) start_offset [] file >>= λ written.
            ok (record { status = stat_ok; file = written })))
    else ok (record { status = stat_file_open_fail; file = file })

-- `File_SaveMatrixIntFileOffset`
unfoldable pub file_save_matrix_int_file_offset :
    Bool → ℕ → Text → IntDataBlob → ℕ → Option ℕ → Bool → Outcome Saved
unfolding file_save_matrix_int
file_save_matrix_int_file_offset can_open file_offset file blob start_offset end_offset binary =
    file_save_matrix_int can_open file blob start_offset end_offset file_offset binary
