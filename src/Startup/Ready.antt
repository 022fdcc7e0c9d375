-- ===== src/Startup/Ready.antt =====
-- What the start of the library on Windows guarantees to the programs that call it.
use mathlib.Core.Path.{subst}
use apduplay.Base.{
  All, Bytes, Option, Outcome, Text, Whenever-ok, Whenever-then, codes, ok, refl, some, sym, true,
  ℕ, ◌↔◌, ◌∙◌, ◌≡◌,
}
use apduplay.Forwarding.Interface.{arguments, export_name, is_listed}
use apduplay.Originals.Pointers.{IsExported, initialize-windows_names, windows_names}
use apduplay.Forwarding.Namesake.{serve-namesake}
use apduplay.Originals.Initialize.{initialize, windows}
use apduplay.Forwarding.Requests.{Request, serve}
use apduplay.Originals.{Slots}
use apduplay.RuleFile.RuleSection.{Stack}
use apduplay.Forwarding.{Library}
use apduplay.App.{App, Outside}
use apduplay.Startup.{
  Globals, Instance, Machine, add_tag, connect_remote_proxy, init_instance, load_rules,
  module_binary, name_binary, or_empty, set_debug_file,
}

module _ (outside : Outside) {F : Type 0} (found : Option (Text → Option F)) (m : Machine)
    (fuel : ℕ) (st : Stack) (stack : Bytes) (app : App) (g : Globals) (w : outside.World)
    (empty : Slots F) where
  abbrev started : Outcome (Instance outside F)
  started = init_instance outside F m found fuel st stack app g w empty

  init_instance-initialize :
      {i : Instance outside F}
      → started ≡ ok i
      → (i.slots ≡ (initialize windows found empty).0)
        × (i.status ≡ (initialize windows found empty).1)
  unfolding init_instance
  init_instance-initialize {i} e =
      let Loaded : Instance outside F → Type 0 = λ i.
        (i.slots ≡ (initialize windows found empty).0)
        × (i.status ≡ (initialize windows found empty).1) in
      let (app1, g1) =
        name_binary (module_binary m.module_file_name) app
          (set_debug_file (m.getenv (codes "APDUPLAY_DEBUG")) g) in
      Whenever-ok Loaded started
        (Whenever-then Loaded (load_rules m fuel st stack app1 g1) _ (λ (app2, g2).
          Whenever-then Loaded
            (connect_remote_proxy outside
              (add_tag (or_empty (m.getenv (codes "APDUPLAY_REMOTE_TAG"))) app2) w)
            _ (λ (app4, w'). (refl, refl))))
        e

  -- Where `InitInstance` comes to an end, it returns TRUE exactly when the original library could be opened and
  -- exports every function that the .def files export from this library itself, and the two that search
  -- for cards by their ATR; the others that the .def files hand to the original library, the rule file and
  -- the remote proxy have no part in it.
  pub init_instance-windows_names :
      {i : Instance outside F}
      → started ≡ ok i
      → (i.status ≡ true) ↔ (
          (exported : Text → Option F) × (found ≡ some exported)
          × All (IsExported exported) windows_names)
  init_instance-windows_names {i} e =
      let (to, from) = initialize-windows_names found empty in
      let status = (init_instance-initialize e).1 in
      (λ h. to (sym status ∙ h), λ h. status ∙ from h)

module _ (outside : Outside) (library : Library) (exported : Text → Option (library.Function))
    (m : Machine) (fuel : ℕ) (st : Stack) (stack : Bytes) (app : App) (g : Globals)
    (w : outside.World) (empty : Slots (library.Function)) where
  -- Once `InitInstance` has returned TRUE with the original library opened, every function that the .def
  -- files export from this library itself and that only forwards calls the function that the original library exports under
  -- the same name, which is there, with the same arguments in the same order.
  pub init_instance-serve :
      {i : Instance outside (library.Function)} (r : Request) (v : library.World)
      → init_instance outside (library.Function) m (some exported) fuel st stack app g w empty
        ≡ ok i
      → i.status ≡ true
      → is_listed r ≡ true
      → (f : library.Function) × (exported (export_name r) ≡ some f)
        × (serve library i.slots v r ≡ ok (library.invoke f v (arguments r)))
  init_instance-serve {i} r v e ready listed =
      let (slots, status) =
        init_instance-initialize outside (some exported) m fuel st stack app g w empty e in
      subst
        (λ s.
          (f : library.Function) × (exported (export_name r) ≡ some f)
          × (serve library s v r ≡ ok (library.invoke f v (arguments r))))
        (sym slots) (serve-namesake library exported empty v (sym status ∙ ready) r listed)
