-- ===== src/Tests/ReaderTests.antt =====
-- Lists of readers over a library with one reader, and two virtual readers.
use apduplay.Base.{
  All, Bytes, List, Text, [], arith, codes, drop, false, fault, none, ok, out_of_bounds, refl,
  replicate, some, suc, take, true, zero, ℕ, ◌++◌, ◌<◌, ◌∷◌, ◌≡◌,
}
use apduplay.ReadersW.Allocated.{scard_list_readers_w-allocated}
use apduplay.ReadersW.Supplied.{HasReadersW}
use apduplay.ReadersW.{scard_list_readers_w}
use apduplay.RemoteReaders.Unreached.{remote_connect-refresh}
use apduplay.RemoteReaders.{refresh_virtual_readers, remote_connect}
use apduplay.Block.{memcpy, memcpy_to, write_at}
use apduplay.Status.{scard_e_insufficient_buffer}
use apduplay.Readers.Allocated.{scard_list_readers-allocated, scard_list_readers-preferred}
use apduplay.Readers.Calls.{scard_list_readers-supplied, scard_list_readers-two_calls}
use apduplay.Readers.Order.{multi_string, reorder-multi_string}
use apduplay.Readers.Supplied.{HasReaders}
use apduplay.CString.{text_eq}
use apduplay.Separated.RoundTrip.{IsName}
use apduplay.Readers.{failed, is_at, move_first, reorder, scard_autoallocate, scard_list_readers}
use apduplay.App.{App, null}
use apduplay.Tests.TransmitTests.{silent, start}

abbrev two_virtual : App
two_virtual = record start {
  winscard_config = record (start.winscard_config) {
    list_virtual_readers = codes "V1" ∷ codes "V2" ∷ [];
  };
}

abbrev real : List Text
real = codes "Real" ∷ []

abbrev virtual_names : All (IsName 0) (codes "V1" ∷ codes "V2" ∷ [])
virtual_names = ((omega arith, (omega arith, tt)), ((omega arith, (omega arith, tt)), tt))

abbrev real_names : All (IsName 0) (codes "Real" ∷ [])
real_names = ((omega arith, (omega arith, (omega arith, (omega arith, tt)))), tt)

silent-HasReaders : HasReaders silent [] [] [] 1 [] real
silent-HasReaders = record {
  are_names = real_names;
  tells = λ len. refl;
  writes = λ buffer len h. refl;
}

scard_list_readers-supplied_example :
    (rest : Bytes) × (scard_list_readers silent two_virtual [] 1 [] 7 (some (replicate 20 9)) 16
      ≡ ok (record {
        app = two_virtual;
        world = [];
        status = 0;
        buffer = some (codes "Real" ++ 0 ∷ (codes "V1" ++ 0 ∷ (codes "V2" ++ 0 ∷ 0 ∷ rest)));
        len = 12;
        block = [];
      }))
scard_list_readers-supplied_example =
    scard_list_readers-supplied silent two_virtual [] [] [] 1 [] real silent-HasReaders 7
      (replicate 20 9) 16 refl refl (omega arith) virtual_names (omega arith) (omega arith)
      (omega arith)

scard_list_readers-two_calls_example :
    (scard_list_readers silent two_virtual [] 1 [] 7 none 0
      ≡ ok (failed silent two_virtual [] none 0 12))
    × (scard_list_readers silent two_virtual [] 1 [] 8 (some (replicate 12 9)) 12
        ≡ ok (failed silent two_virtual [] (some (replicate 12 9)) scard_e_insufficient_buffer 12))
scard_list_readers-two_calls_example =
    scard_list_readers-two_calls silent two_virtual [] [] [] 1 [] real silent-HasReaders 7 8 [] []
      (replicate 12 9) 0 silent-HasReaders refl (omega arith) (omega arith)

scard_list_readers-allocated_example :
    (rest : Bytes) × (scard_list_readers silent two_virtual [] 1 [] 7
        (some (replicate 4 9))
        scard_autoallocate
      ≡ ok (record {
        app = record two_virtual { char_allocated_memory_list = 7 ∷ [] };
        world = [];
        status = 0;
        buffer = some (7 ∷ 0 ∷ 0 ∷ 0 ∷ []);
        len = 12;
        block = codes "Real" ++ 0 ∷ (codes "V1" ++ 0 ∷ (codes "V2" ++ 0 ∷ 0 ∷ rest));
      }))
scard_list_readers-allocated_example =
    scard_list_readers-allocated silent two_virtual [] [] [] 1 [] real silent-HasReaders 7
      (replicate 4 9) refl refl refl (omega arith) (real_names.0, virtual_names) (omega arith)

abbrev with_preferred : App
with_preferred = record two_virtual {
  winscard_config = record (two_virtual.winscard_config) { reader_ordered_first = codes "Virtual" };
}

scard_list_readers-preferred_run :
    scard_list_readers silent with_preferred [] 1 [] 7 (some (replicate 4 9)) scard_autoallocate
    ≡ fault out_of_bounds
scard_list_readers-preferred_run =
    scard_list_readers-preferred silent with_preferred [] [] [] 1 [] real silent-HasReaders 7
      (replicate 4 9) refl (omega arith) (omega arith) refl (omega arith)
      (real_names.0, virtual_names) (omega arith)

not_before :
    (j : ℕ)
    → j < 5
    → text_eq (codes "V1") (take 2 (drop j (multi_string (real ++ codes "V1" ∷ codes "V2" ∷ []))))
      ≡ false
unfolding text_eq
not_before zero h = refl
not_before (suc zero) h = refl
not_before (suc (suc zero)) h = refl
not_before (suc (suc (suc zero))) h = refl
not_before (suc (suc (suc (suc zero)))) h = refl
not_before (suc (suc (suc (suc (suc j))))) h = absurd (omega arith)

reorder-multi_string_example :
    reorder (codes "V1") (multi_string (codes "Real" ∷ codes "V1" ∷ codes "V2" ∷ [])) 12
    ≡ ok (multi_string (codes "V1" ∷ codes "Real" ∷ codes "V2" ∷ []))
reorder-multi_string_example =
    reorder-multi_string real (codes "V2" ∷ []) b'V' (codes "1") (omega arith) not_before

-- A preferred reader whose name only begins another one cuts that name.
prefix_cut :
    reorder (codes "A") (multi_string (codes "AB" ∷ codes "C" ∷ [])) 6
    ≡ ok (b'A' ∷ 0 ∷ 0 ∷ b'C' ∷ 0 ∷ 0 ∷ [])
unfolding reorder move_first memcpy memcpy_to write_at is_at text_eq
prefix_cut = refl

abbrev redirected : App
redirected = record start { remote_config = record (start.remote_config) { redirect = true } }

remote_connect-refresh_run :
    (r : App × List Bytes) × (remote_connect silent redirected [] ≡ ok r)
    × (r.0.remote_config.socket ≡ null)
    × (refresh_virtual_readers silent r.0 r.1 ≡ ok r)
remote_connect-refresh_run = remote_connect-refresh silent redirected [] refl refl

silent-HasReadersW : HasReadersW silent [] [] [] 1 [] real
silent-HasReadersW = record {
  are_names = real_names;
  tells = λ len. refl;
  writes = λ buffer len h. refl;
}

scard_list_readers_w-allocated_example :
    scard_list_readers_w silent two_virtual [] 1 [] 7 (some (replicate 2 9)) scard_autoallocate
    ≡ fault out_of_bounds
scard_list_readers_w-allocated_example =
    scard_list_readers_w-allocated silent two_virtual [] [] [] 1 [] real silent-HasReadersW 7
      (replicate 2 9) refl refl (omega arith) (omega arith)
