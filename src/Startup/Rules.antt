-- ===== src/Startup/Rules.antt =====
-- Which rule file `LoadRules` takes, and the names of the files that are written.
use apduplay.Base.{
  All, Bool-cases, Bytes, List, Option, Text, Whenever-ok, Whenever-then, [], arith, codes,
  if◌then◌else◌, inl, inr, length, lt→ltb, none, ok, refl, some, true, ℕ, ◌++◌, ◌<◌, ◌==◌, ◌>>=◌,
  ◌∷◌, ◌≡◌,
}
use apduplay.RuleFile.{Dictionary}
use apduplay.CString.{c_string}
use apduplay.App.{App}
use apduplay.RuleFile.RuleSection.{Stack, load_found, load_sections}
use apduplay.Startup.{
  Found, Globals, Machine, base_dir, copy_path, find_by_variable, find_rules, in_directory,
  load_chosen, load_instructions, load_rules, path_capacity, place, prefix_of, rule_file, stamp,
}

-- The places where the rule file is looked for, the first one first.
abbrev by_variable : Option Text → List Found
by_variable none = []
by_variable (some directory) =
    record { path = in_directory directory rule_file; base = directory } ∷ []

abbrev pub candidates : Machine → List Found
candidates m = record { path = rule_file; base = [] } ∷ by_variable (m.getenv (codes "APDUPLAY"))

abbrev pub first_open : Machine → List Found → Option Found
first_open m [] = none
first_open m (c ∷ cs) = if m.can_open c.path then some c else first_open m cs

-- The path and the directory fit into their buffers.
abbrev pub Fits : Found → Type 0
Fits c = (length c.path < path_capacity) × (length c.base < path_capacity)

copy_path-ok : (s : Text) → length s < path_capacity → copy_path s ≡ ok s
unfolding copy_path
copy_path-ok s h = rw (lt→ltb (length s) path_capacity h) refl

find_by_variable-first_open :
    (m : Machine) (o : Option Text)
    → All Fits (by_variable o)
    → find_by_variable m o ≡ ok (first_open m (by_variable o))
unfolding find_by_variable
find_by_variable-first_open m none fits = refl
find_by_variable-first_open m (some directory) (fits, _) =
    elim (Bool-cases (m.can_open (in_directory directory rule_file))) [
      | inl e ↦ rw e (
          rw (copy_path-ok (in_directory directory rule_file) fits.0)
            (rw (copy_path-ok directory fits.1) refl))
      | inr e ↦ rw e refl
    ]

find_rules-first_open :
    (m : Machine) → All Fits (candidates m) → find_rules m ≡ ok (first_open m (candidates m))
unfolding find_rules
find_rules-first_open m (_, fits) = elim (Bool-cases (m.can_open rule_file)) [
  | inl e ↦ rw e refl
  | inr e ↦ rw e (find_by_variable-first_open m (m.getenv (codes "APDUPLAY")) fits)
]

load_found-rules_active :
    (d : Dictionary) (fuel : ℕ) (st : Stack) (sections : List Text) (app : App) {loaded : App}
    → load_found d fuel st sections app ≡ ok loaded
    → loaded.rules_active ≡ true
unfolding load_found
load_found-rules_active d fuel st sections app {loaded} e =
    let on : App → Type 0 = λ a. a.rules_active ≡ true in
    Whenever-ok on (load_found d fuel st sections app)
      (Whenever-then on (load_sections d fuel st sections app) _ (λ a. refl)) e

prefix_of-some :
    (path : Text) (c : Found) (stack : Bytes)
    → prefix_of path (some c) stack ≡ ok (if length path == 0 then c.base else path ++ (b'\\' ∷ []))
unfolding prefix_of base_dir
prefix_of-some path c stack = elim (Bool-cases (length path == 0)) [
  | inl e ↦ rw e refl
  | inr e ↦ rw e refl
]

module _ (m : Machine) (fuel : ℕ) (st : Stack) (stack : Bytes) (app : App) (g : Globals)
    (fits : All Fits (candidates m)) where
  -- What is put before the names: LOG_BASE_PATH with a backslash, or the base that belongs to the rule file,
  -- as it is.
  abbrev pub log_prefix : App → Found → Text
  log_prefix loaded c =
      if length loaded.winscard_config.log_base_path == 0
      then c.base
      else loaded.winscard_config.log_base_path ++ (b'\\' ∷ [])

  -- Where the paths have fewer than 256 characters, the rules are read from the first place that can be
  -- opened, the bare name of the file before the directory that APDUPLAY names; the rules are on afterwards.
  -- The names of the two logs, stamped with the time, and of the file of instructions stand behind
  -- LOG_BASE_PATH and a backslash, or where that is empty directly behind the base: nothing for the bare name, and
  -- for the other place the value of APDUPLAY with no separator.
  pub load_rules-first_open :
      {c : Found} {loaded : App}
      → first_open m (candidates m) ≡ some c
      → load_found (m.iniparser_load c.path).1 fuel st (m.iniparser_load c.path).0 app ≡ ok loaded
      → (load_rules m fuel st stack app g
          ≡ ok (loaded, load_instructions m (place (log_prefix loaded c) (stamp m g))))
        × (loaded.rules_active ≡ true)
  unfolding load_rules load_chosen
  load_rules-first_open {c} {loaded} chosen reads = (
    rw (find_rules-first_open m fits) (
        rw chosen
          (rw reads (rw (prefix_of-some loaded.winscard_config.log_base_path c stack) refl))),
    load_found-rules_active (m.iniparser_load c.path).1 fuel st (m.iniparser_load c.path).0 app
        reads,
  )

  -- Where no rule file can be opened and LOG_BASE_PATH is empty, the state stays as it was, the rules switch included, and the
  -- files are placed behind the string that the unwritten buffer of the base directory happens to
  -- hold; a buffer without the end of a string is read past its end.
  pub load_rules-unopened :
      first_open m (candidates m) ≡ none
      → length app.winscard_config.log_base_path ≡ 0
      → load_rules m fuel st stack app g
        ≡ (c_string stack >>= λ junk. ok (app, load_instructions m (place junk (stamp m g))))
  unfolding load_rules load_chosen prefix_of base_dir
  load_rules-unopened unopened empty =
      let no_path : (length app.winscard_config.log_base_path == 0) ≡ true = ground arith in
      rw (find_rules-first_open m fits) (rw unopened (rw no_path refl))
