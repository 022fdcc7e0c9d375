-- ===== src/RuleFile.antt =====
-- The configuration file winscard_rules.txt: `CWinscardApp::LoadRule` of Winscard/Winscard.cpp for a section
-- of it, and the loop of `LoadRules` over the sections. `Dictionary` stands for what the library
-- iniparser has read from the file; `Line` has the reading of one line of a rule.
pub mod Settings
pub mod Line
pub mod RuleSection
pub mod RoundTrip
pub mod MatchLines
pub mod Matching
pub mod Absent
use apduplay.Base.{
  Outcome, Text, [], fault, if◌then◌else◌, length, ltb, ok, out_of_bounds, ℤ, ◌++◌, ◌>>=◌,
}
use apduplay.CString.{compare_with_no_case}

-- `iniparser_getboolean` and `iniparser_getstring`: the value of a key, or the last argument.
pub record Dictionary : Type 0 where
  pub getboolean : Text → ℤ → ℤ
  pub getstring : Text → Text → Text

-- `type_copy(sec_and_key, section_name)` and `type_cat(sec_and_key, key)`, in 256 characters.
unfoldable pub sec_and_key : Text → Text → Outcome Text
sec_and_key section key =
    if ltb (length (section ++ key)) 256 then ok (section ++ key) else fault out_of_bounds

-- The string under a key of the section; empty if it is not there.
unfoldable pub string_of : Dictionary → Text → Text → Outcome Text
unfolding sec_and_key
string_of d section key = do k ← sec_and_key section key; ok (d.getstring k [])
