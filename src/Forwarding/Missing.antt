-- ===== src/Forwarding/Missing.antt =====
-- Calls through pointers that hold nothing.
use apduplay.Base.{
  Option, Text, [], ap, codes, false, fault, none, null_call, refl, some, true, ◌∙◌, ◌≡◌,
}
use apduplay.Forwarding.Namesake.{called, forward-loaded}
use apduplay.Forwarding.Requests.{Request, cancel, dlg_extended_error, serve}
use apduplay.Originals.Initialize.{Platform, initialize, windows}
use apduplay.Originals.{Slots, original_dlg_extended_error, slot_index}
use apduplay.Forwarding.{Library, forward}

module _ (library : Library) (w : library.World) where
  -- On Windows, `initialize` returning TRUE does not give SCardDlgExtendedError the function to call: it is
  -- looked up under its name with a blank behind, and where the library exports no name like that, a call
  -- faults, whatever the library exports besides.
  pub serve-dlg_extended_error :
      (exported : Text → Option (library.Function)) (empty : Slots (library.Function))
      → (initialize windows (some exported) empty).1 ≡ true
      → exported (codes "SCardDlgExtendedError ") ≡ none
      → serve library (initialize windows (some exported) empty).0 w dlg_extended_error
        ≡ fault null_call
  unfolding serve slot_index
  serve-dlg_extended_error exported empty done missing =
      forward-loaded library exported empty w done original_dlg_extended_error [] refl
      ∙ ap (λ o. called library o w []) missing

  -- The pointers before anything is loaded.
  abbrev pub nothing : Slots (library.Function)
  nothing = λ _. none

  -- Where the original library cannot be opened, `initialize` returns FALSE and leaves the pointers alone, so
  -- that on Linux, where the constructor of `CWinscardApp` does not look at the result, every call that
  -- is only forwarded faults.
  pub serve-unopened :
      (platform : Platform) (r : Request)
      → ((initialize platform none nothing).1 ≡ false)
        × (serve library (initialize platform none nothing).0 w r ≡ fault null_call)
  unfolding initialize serve forward
  serve-unopened platform (cancel _) = (refl, refl)
  serve-unopened platform _ = (refl, refl)
