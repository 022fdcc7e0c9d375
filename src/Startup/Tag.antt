-- ===== src/Startup/Tag.antt =====
-- The tag that `InitInstance` collects for the remote proxy, through all the steps that could change it.
use apduplay.Base.{
  Bytes, List, Option, Text, Whenever, Whenever-bind, Whenever-if, Whenever-ok, Whenever-then,
  Whenever-weaken, [], ap, append-nil, codes, if◌then◌else◌, length, ltb, none, ok, refl, some, sym,
  take, ℕ, ◌++◌, ◌==◌, ◌>>=◌, ◌∙◌, ◌∷◌, ◌≡◌,
}
use apduplay.Session.{remote_send_request}
use apduplay.Originals.{Slots}
use apduplay.RemoteReaders.{no_reader, remote_connect, with_socket}
use apduplay.Session.Tag.{remote_send_request-tag, tag}
use apduplay.Hex.{from_hex_small}
use apduplay.CString.{compare_with_no_case}
use apduplay.RuleFile.Settings.{
  load_remote, load_winscard, set_dword, set_flag, set_measure_apdu, set_number, set_text,
}
use apduplay.App.{App, Outside, RemoteConfig, null}
use apduplay.RuleFile.RuleSection.{Stack, load_found, load_rule, load_rule_section, load_sections}
use apduplay.RuleFile.{Dictionary, string_of}
use apduplay.Startup.{
  Found, Globals, Instance, Machine, add_tag, connect_remote_proxy, find_rules, init_instance,
  load_chosen, load_rules, module_binary, name_binary, or_empty, prefix_of, set_debug_file,
}

module _ (d : Dictionary) (section : Text) where
  abbrev SameTag : RemoteConfig → RemoteConfig → Type 0
  SameTag c c' = c'.remote_tag ≡ c.remote_tag

  set_measure_apdu-remote_tag :
      (c : RemoteConfig) → Whenever (SameTag c) (set_measure_apdu d section c)
  unfolding set_measure_apdu
  set_measure_apdu-remote_tag c =
      Whenever-then (SameTag c) (string_of d section (codes ":MEASURE_APDU")) _ (λ value.
        Whenever-if (SameTag c) (length value == 0) (ok c)
          (from_hex_small value c.measure_apdu 255 >>= λ r.
            ok (record c { measure_apdu = r.array; measure_apdu_len = r.len }))
          refl (Whenever-then (SameTag c) (from_hex_small value c.measure_apdu 255) _ (λ r. refl)))

  load_remote-remote_tag : (c : RemoteConfig) → Whenever (SameTag c) (load_remote d section c)
  unfolding load_remote
  load_remote-remote_tag c =
      Whenever-then (SameTag c) (set_flag d section (codes ":REDIRECT") c.redirect) _ (λ redirect.
        Whenever-then (SameTag c)
          (set_flag d section (codes ":NEW_SOCKET_PER_COMMAND") c.open_socket_for_every_command) _
          (λ every.
            Whenever-then (SameTag c)
              (set_text d section (codes ":REMOTE_READER_PREFIX") c.remote_reader_prefix) _
              (λ prefix. Whenever-then (SameTag c) (set_text d section (codes ":IP") c.ip) _ (λ ip.
                Whenever-then (SameTag c) (set_text d section (codes ":PORT") c.port) _ (λ port.
                  let start : RemoteConfig = record c {
                    redirect = redirect;
                    open_socket_for_every_command = every;
                    remote_reader_prefix = prefix;
                    ip = ip;
                    port = port;
                  } in
                  Whenever-bind (SameTag start) (SameTag c) (set_measure_apdu d section start) _
                    (set_measure_apdu-remote_tag start)
                    (λ measured h.
                      Whenever-then (SameTag c)
                        (set_number d section (codes ":MEASURE_BYTE_COUNTER")
                          c.measure_apdu_byte_counter)
                        _
                        (λ counter.
                          Whenever-then (SameTag c)
                            (set_number d section (codes ":MEASURE_BYTE_DELAY")
                              c.measure_apdu_byte_delay)
                            _
                            (λ delay.
                              Whenever-then (SameTag c)
                                (set_number d section (codes ":READ_RATIO") c.read_ratio) _
                                (λ ratio.
                                  Whenever-then (SameTag c)
                                    (set_dword d section (codes ":NUM_SAMPLES") c.num_samples) _
                                    (λ samples. h))))))))))

  load_rule-tag :
      (fuel : ℕ) (st : Stack) (app : App)
      → Whenever (λ app'. tag app' ≡ tag app) (load_rule d section fuel st app)
  unfolding load_rule
  load_rule-tag fuel st app =
      let Kept : App → Type 0 = λ app'. tag app' ≡ tag app in
      Whenever-then Kept
        (if compare_with_no_case section (codes "WINSCARD")
          then load_winscard d section (app.winscard_config)
          else ok (app.winscard_config))
        _
        (λ config.
          Whenever-bind (SameTag app.remote_config) Kept
            (if compare_with_no_case section (codes "REMOTE")
              then load_remote d section (app.remote_config)
              else ok (app.remote_config))
            _
            (Whenever-if (SameTag app.remote_config) (compare_with_no_case section (codes "REMOTE"))
              (load_remote d section (app.remote_config)) (ok (app.remote_config))
              (load_remote-remote_tag app.remote_config) refl)
            (λ remote h.
              Whenever-then Kept
                (if compare_with_no_case (take 4 section) (codes "RULE")
                  then (load_rule_section d section fuel st >>= λ r. ok (app.rules_list ++ r ∷ []))
                  else ok (app.rules_list))
                _ (λ rules. h)))

load_sections-tag :
    (d : Dictionary) (fuel : ℕ) (st : Stack) (sections : List Text) (app : App)
    → Whenever (λ app'. tag app' ≡ tag app) (load_sections d fuel st sections app)
unfolding load_sections
load_sections-tag d fuel st [] app = refl
load_sections-tag d fuel st (s ∷ ss) app =
    Whenever-bind (λ app'. tag app' ≡ tag app) (λ app'. tag app' ≡ tag app)
      (load_rule d s fuel st app) _ (load_rule-tag d s fuel st app)
      (λ app1 h.
        Whenever-weaken (λ app'. tag app' ≡ tag app1) (λ app'. tag app' ≡ tag app)
          (load_sections d fuel st ss app1) (load_sections-tag d fuel st ss app1) (λ app' k. k ∙ h))

load_chosen-tag :
    (m : Machine) (fuel : ℕ) (st : Stack) (found : Option Found) (app : App)
    → Whenever (λ app'. tag app' ≡ tag app) (load_chosen m fuel st found app)
unfolding load_chosen load_found
load_chosen-tag m fuel st none app = refl
load_chosen-tag m fuel st (some f) app =
    let (sections, d) = m.iniparser_load f.path in
    Whenever-bind (λ app'. tag app' ≡ tag app) (λ app'. tag app' ≡ tag app)
      (load_sections d fuel st sections app) _ (load_sections-tag d fuel st sections app)
      (λ app' h. h)

pub load_rules-tag :
    (m : Machine) (fuel : ℕ) (st : Stack) (stack : Bytes) (app : App) (g : Globals)
    → Whenever (λ r. tag r.0 ≡ tag app) (load_rules m fuel st stack app g)
unfolding load_rules
load_rules-tag m fuel st stack app g =
    let Kept : App × Globals → Type 0 = λ r. tag r.0 ≡ tag app in
    Whenever-then Kept (find_rules m) _ (λ found.
      Whenever-bind (λ app'. tag app' ≡ tag app) Kept (load_chosen m fuel st found app) _
        (load_chosen-tag m fuel st found app)
        (λ loaded h.
          Whenever-then Kept (prefix_of (loaded.winscard_config.log_base_path) found stack) _
            (λ prefix. h)))

-- What the name of the running program puts into the tag.
abbrev pub binary_tag : Option Text → Text
binary_tag none = []
binary_tag (some name) = codes "binary=" ++ name

name_binary-tag :
    (o : Option Text) (app : App) (g : Globals)
    → tag (name_binary o app g).0 ≡ tag app ++ binary_tag o
unfolding name_binary
name_binary-tag none app g = sym (append-nil (tag app))
name_binary-tag (some name) app g = refl

module _ (outside : Outside) where
  remote_connect-tag :
      (app : App) (w : outside.World)
      → Whenever (λ r. tag r.0 ≡ tag app) (remote_connect outside app w)
  unfolding remote_connect
  remote_connect-tag app w =
      let Kept : App × outside.World → Type 0 = λ r. tag r.0 ≡ tag app in
      let app1 = with_socket outside app null in
      Whenever-if Kept (outside.open_socket w).1 _ _
        (Whenever-if Kept (ltb 0 (length app.remote_config.remote_tag)) _ _
          (Whenever-bind (λ r. tag r.app ≡ tag app1) Kept
            (remote_send_request outside app1
              (outside.close_socket (outside.close_socket (outside.open_socket w).0)) no_reader
              (codes "PERSONALIZE") app.remote_config.remote_tag [])
            _
            (remote_send_request-tag outside app1 _ no_reader (codes "PERSONALIZE")
              app.remote_config.remote_tag [])
            (λ r h. h))
          refl)
        refl

  connect_remote_proxy-tag :
      (app : App) (w : outside.World)
      → Whenever (λ r. tag r.0 ≡ tag app) (connect_remote_proxy outside app w)
  connect_remote_proxy-tag app w =
      Whenever-if (λ r. tag r.0 ≡ tag app) app.remote_config.redirect (remote_connect outside app w)
        (ok (app, w)) (remote_connect-tag app w) refl

  -- Where `InitInstance` comes to an end, the tag for the remote proxy is what it was, then `binary=` with the file name of
  -- the running program where its path has a backslash or a slash, then the value of
  -- APDUPLAY_REMOTE_TAG where that is set: neither the rule file nor the connection to the proxy changes it.
  pub init_instance-tag :
      {F : Type 0} (library : Option (Text → Option F)) (m : Machine) (fuel : ℕ) (st : Stack)
      (stack : Bytes) (app : App) (g : Globals) (w : outside.World) (slots : Slots F)
      {i : Instance outside F}
      → init_instance outside F m library fuel st stack app g w slots ≡ ok i
      → tag i.app
        ≡ (tag app ++ binary_tag (module_binary m.module_file_name))
          ++ or_empty (m.getenv (codes "APDUPLAY_REMOTE_TAG"))
  unfolding init_instance
  init_instance-tag {F} library m fuel st stack app g w slots {i} e =
      let env = or_empty (m.getenv (codes "APDUPLAY_REMOTE_TAG")) in
      let name = module_binary m.module_file_name in
      let Tagged : Instance outside F → Type 0 =
        λ i. tag i.app ≡ (tag app ++ binary_tag name) ++ env in
      let g0 = set_debug_file (m.getenv (codes "APDUPLAY_DEBUG")) g in
      let (app1, g1) = name_binary name app g0 in
      Whenever-ok Tagged (init_instance outside F m library fuel st stack app g w slots)
        (Whenever-bind (λ r. tag r.0 ≡ tag app1) Tagged (load_rules m fuel st stack app1 g1) _
          (load_rules-tag m fuel st stack app1 g1)
          (λ (app2, g2) same.
            Whenever-bind (λ r. tag r.0 ≡ tag app2 ++ env) Tagged
              (connect_remote_proxy outside (add_tag env app2) w) _
              (connect_remote_proxy-tag (add_tag env app2) w)
              (λ (app4, w') sent. sent ∙ ap (λ t. t ++ env) (same ∙ name_binary-tag name app g0))))
        e
