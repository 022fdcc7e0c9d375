-- ===== src/Separated.antt =====
-- `String_ParseSeparatedArray` and `String_SerializeAsSeparatedArray` of Winscard/CommonFnc.cpp: lists
-- of names as one array, each name followed by a separator. The functions for `char` and for `WCHAR`
-- are the same but for the width of a character.
pub mod RoundTrip
pub mod Sizes
use apduplay.Base.{
  Bool, Bytes, List, Option, Outcome, Text, [], false, fault, if◌then◌else◌, leb, length, none, not,
  ok, out_of_bounds, some, suc, true, zero, ℕ, ◌&&◌, ◌++◌, ◌+◌, ◌==◌, ◌>>=◌, ◌∷◌,
}
use apduplay.Status.{stat_not_enough_memory, stat_ok}
use apduplay.Block.{memcpy}

-- `array[pos] != separator || array[pos + 1] != separator`, on the array from `pos` on.
pub goes_on : ℕ → Text → Outcome Bool
goes_on sep [] = fault out_of_bounds
goes_on sep (c ∷ []) = if c == sep then fault out_of_bounds else ok true
goes_on sep (c ∷ d ∷ m) = ok (not (c == sep && d == sep))

abbrev pub push_item : Text → List Text → List Text
push_item [] values = values
push_item (c ∷ item) values = values ++ (c ∷ item) ∷ []

-- The `while` loop with `arraySize - pos` places to go, and the treatment of the last item.
pub parse_loop : ℕ → ℕ → Text → Text → List Text → Outcome (List Text)
unfolding goes_on
parse_loop sep zero m item values = goes_on sep m >>= λ _. ok (push_item item values)
parse_loop sep (suc k) [] item values = fault out_of_bounds
parse_loop sep (suc k) (c ∷ m) item values = goes_on sep (c ∷ m) >>= λ b. elim b [
  | true ↦
      if c == sep
      then parse_loop sep k m [] (push_item item values)
      else parse_loop sep k m (item ++ c ∷ []) values
  | false ↦ ok (push_item item values)
]

-- `String_ParseSeparatedArray`: the names are added to `values`.
unfoldable pub parse_separated_array : Text → ℕ → ℕ → List Text → Outcome (List Text)
unfolding parse_loop
parse_separated_array array array_size sep values =
    if array_size == 0 then ok values else parse_loop sep array_size array [] values

-- The items that are written, each with its separator; empty names are left out.
abbrev pub item_text : ℕ → Text → Text
item_text sep [] = []
item_text sep (c ∷ item) = (c ∷ item) ++ sep ∷ []

abbrev pub items_text : ℕ → List Text → Text
items_text sep [] = []
items_text sep (v ∷ vs) = item_text sep v ++ items_text sep vs

-- `reqLength`
abbrev pub req_length : List Text → ℕ
req_length [] = 0
req_length (v ∷ vs) = (if length v == 0 then 0 else length v + 1) + req_length vs

-- What a serialisation leaves: the status, the array (absent for NULL) and `*pArraySize`.
pub record Serialized : Type 0 where
  pub status : ℕ
  pub array : Option Bytes
  pub array_size : ℕ

-- `String_SerializeAsSeparatedArray`
unfoldable pub serialize_as_separated_array : List Text → ℕ → Option Bytes → ℕ → Outcome Serialized
unfolding memcpy
serialize_as_separated_array values sep none array_size =
    ok (record { status = stat_ok; array = none; array_size = req_length values })
serialize_as_separated_array values sep (some out) array_size =
    let text = items_text sep values in
    if leb array_size (req_length values)
    then (memcpy out text (length text) >>= λ written.
        ok (record { status = stat_ok; array = some written; array_size = length text }))
    else ok (record { status = stat_not_enough_memory; array = some out; array_size = array_size })
