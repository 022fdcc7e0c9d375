-- ===== src/Forwarding.antt =====
-- The functions of Winscard/Winscard.cpp that call the original library through the pointers
-- `Original_*`. The log files are left out.
pub mod Queries
pub mod Database
pub mod Locations
pub mod Requests
pub mod Interface
pub mod Namesake
pub mod CardCalls
pub mod Remote
pub mod Missing
use apduplay.Base.{List, Outcome, fault, none, null_call, ok, some, ℕ}
use apduplay.Originals.{Slot, Slots}

-- The original library: its functions are called with words, of which some are addresses in the
-- memory that `World` holds with the library's state.
pub record Library : Type 1 where
  pub World : Type 0
  pub Function : Type 0
  pub invoke : Function → World → List ℕ → World × ℕ

-- A call through a pointer, which may be NULL.
pub forward :
    (library : Library)
    → Slots (library.Function)
    → library.World
    → Slot
    → List ℕ
    → Outcome (library.World × ℕ)
forward library slots w s arguments = elim (slots s) [
  | none ↦ fault null_call
  | some f ↦ ok (library.invoke f w arguments)
]
