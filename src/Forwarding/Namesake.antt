-- ===== src/Forwarding/Namesake.antt =====
-- Every function that only forwards calls its namesake of the original library.
use apduplay.Base.{
  List, Option, Option-cases, Outcome, Text, [], ap, fault, inl, inr, none, null_call, ok, refl,
  some, true, ℕ, ◌∙◌, ◌∷◌, ◌≡◌,
}
use apduplay.Forwarding.Interface.{arguments, export_name, is_listed}
use apduplay.Originals.Pointers.{
  All-contains_name, IsExported, initialize-last_name, windows_needed,
}
use apduplay.Originals.Loaded.{last_name}
use apduplay.CString.{text_eq}
use apduplay.Originals.Initialize.{initialize, loads, windows}
use apduplay.Originals.Names.{exported_names}
use apduplay.Originals.{
  Slot, Slots, original_access_started_event, original_add_reader_to_group_a,
  original_add_reader_to_group_w, original_cancel, original_forget_card_type_a,
  original_forget_card_type_w, original_forget_reader_a, original_forget_reader_group_a,
  original_forget_reader_group_w, original_forget_reader_w, original_get_card_type_provider_name_a,
  original_get_card_type_provider_name_w, original_get_provider_id_a, original_get_provider_id_w,
  original_introduce_card_type_a, original_introduce_card_type_w, original_introduce_reader_a,
  original_introduce_reader_group_a, original_introduce_reader_group_w, original_introduce_reader_w,
  original_is_valid_context, original_list_cards_a, original_list_cards_w,
  original_list_interfaces_a, original_list_interfaces_w, original_list_reader_groups,
  original_list_reader_groups_w, original_locate_cards_a, original_locate_cards_w,
  original_release_started_event, original_remove_reader_from_group_a,
  original_remove_reader_from_group_w, original_set_card_type_provider_name_a,
  original_set_card_type_provider_name_w, slot_index,
}
use apduplay.Forwarding.{Library, forward}
use apduplay.Cards.{contains_name}
use apduplay.Forwarding.Requests.{
  Request, access_started_event, add_reader_to_group_a, add_reader_to_group_w, cancel,
  dlg_extended_error, forget_card_type_a, forget_card_type_w, forget_reader_a,
  forget_reader_group_a, forget_reader_group_w, forget_reader_w, get_card_type_provider_name_a,
  get_card_type_provider_name_w, get_provider_id_a, get_provider_id_w, get_status_change,
  introduce_card_type_a, introduce_card_type_w, introduce_reader_a, introduce_reader_group_a,
  introduce_reader_group_w, introduce_reader_w, is_valid_context, list_cards_a, list_cards_w,
  list_interfaces_a, list_interfaces_w, list_reader_groups, list_reader_groups_w, locate_cards_a,
  locate_cards_by_atr_a, locate_cards_by_atr_w, locate_cards_w, open_card_name_a, open_card_name_w,
  release_started_event, remove_reader_from_group_a, remove_reader_from_group_w, serve,
  set_card_type_provider_name_a, set_card_type_provider_name_w, ui_dlg_select_card_a,
  ui_dlg_select_card_w,
}

-- The call of the namesake, where the library has it.
abbrev pub called :
    (library : Library)
    → Option (library.Function)
    → library.World
    → List ℕ
    → Outcome (library.World × ℕ)
called library none w arguments = fault null_call
called library (some f) w arguments = ok (library.invoke f w arguments)

module _ (library : Library) (exported : Text → Option (library.Function))
    (empty : Slots (library.Function)) (w : library.World)
    (done : (initialize windows (some exported) empty).1 ≡ true) where
  abbrev pub loaded : Slots (library.Function)
  loaded = (initialize windows (some exported) empty).0

  pub forward-loaded :
      (s : Slot) (arguments : List ℕ) {name : Text}
      → last_name s (loads windows) ≡ some name
      → forward library loaded w s arguments ≡ called library (exported name) w arguments
  unfolding forward
  forward-loaded s arguments {name} e =
      let holds = initialize-last_name windows exported empty s done e in
      elim (Option-cases (exported name)) [
        | inl missing ↦ rw (holds ∙ missing, forward) (rw missing refl)
        | inr (f, there) ↦ rw (holds ∙ there, forward) (rw there refl)
      ]

  serve-called :
      (r : Request)
      → is_listed r ≡ true
      → serve library loaded w r ≡ called library (exported (export_name r)) w (arguments r)
  unfolding serve contains_name text_eq slot_index
  serve-called (is_valid_context a) listed = forward-loaded original_is_valid_context (a ∷ []) refl
  serve-called (cancel a) listed = forward-loaded original_cancel (a ∷ []) refl
  serve-called (list_reader_groups a b c) listed =
      forward-loaded original_list_reader_groups (a ∷ b ∷ c ∷ []) refl
  serve-called (list_reader_groups_w a b c) listed =
      forward-loaded original_list_reader_groups_w (a ∷ b ∷ c ∷ []) refl
  serve-called (list_cards_a a b c d e f) listed =
      forward-loaded original_list_cards_a (a ∷ b ∷ c ∷ d ∷ e ∷ f ∷ []) refl
  serve-called (list_cards_w a b c d e f) listed =
      forward-loaded original_list_cards_w (a ∷ b ∷ c ∷ d ∷ e ∷ f ∷ []) refl
  serve-called (list_interfaces_a a b c d) listed =
      forward-loaded original_list_interfaces_a (a ∷ b ∷ c ∷ d ∷ []) refl
  serve-called (list_interfaces_w a b c d) listed =
      forward-loaded original_list_interfaces_w (a ∷ b ∷ c ∷ d ∷ []) refl
  serve-called (get_provider_id_a a b c) listed =
      forward-loaded original_get_provider_id_a (a ∷ b ∷ c ∷ []) refl
  serve-called (get_provider_id_w a b c) listed =
      forward-loaded original_get_provider_id_w (a ∷ b ∷ c ∷ []) refl
  serve-called (get_card_type_provider_name_a a b c d e) listed =
      forward-loaded original_get_card_type_provider_name_a (a ∷ b ∷ c ∷ d ∷ e ∷ []) refl
  serve-called (get_card_type_provider_name_w a b c d e) listed =
      forward-loaded original_get_card_type_provider_name_w (a ∷ b ∷ c ∷ d ∷ e ∷ []) refl
  serve-called (introduce_reader_group_a a b) listed =
      forward-loaded original_introduce_reader_group_a (a ∷ b ∷ []) refl
  serve-called (introduce_reader_group_w a b) listed =
      forward-loaded original_introduce_reader_group_w (a ∷ b ∷ []) refl
  serve-called (forget_reader_group_a a b) listed =
      forward-loaded original_forget_reader_group_a (a ∷ b ∷ []) refl
  serve-called (forget_reader_group_w a b) listed =
      forward-loaded original_forget_reader_group_w (a ∷ b ∷ []) refl
  serve-called (introduce_reader_a a b c) listed =
      forward-loaded original_introduce_reader_a (a ∷ b ∷ c ∷ []) refl
  serve-called (introduce_reader_w a b c) listed =
      forward-loaded original_introduce_reader_w (a ∷ b ∷ c ∷ []) refl
  serve-called (forget_reader_a a b) listed =
      forward-loaded original_forget_reader_a (a ∷ b ∷ []) refl
  serve-called (forget_reader_w a b) listed =
      forward-loaded original_forget_reader_w (a ∷ b ∷ []) refl
  serve-called (add_reader_to_group_a a b c) listed =
      forward-loaded original_add_reader_to_group_a (a ∷ b ∷ c ∷ []) refl
  serve-called (add_reader_to_group_w a b c) listed =
      forward-loaded original_add_reader_to_group_w (a ∷ b ∷ c ∷ []) refl
  serve-called (remove_reader_from_group_a a b c) listed =
      forward-loaded original_remove_reader_from_group_a (a ∷ b ∷ c ∷ []) refl
  serve-called (remove_reader_from_group_w a b c) listed =
      forward-loaded original_remove_reader_from_group_w (a ∷ b ∷ c ∷ []) refl
  serve-called (introduce_card_type_a a b c d e f g h) listed =
      forward-loaded original_introduce_card_type_a (a ∷ b ∷ c ∷ d ∷ e ∷ f ∷ g ∷ h ∷ []) refl
  serve-called (introduce_card_type_w a b c d e f g h) listed =
      forward-loaded original_introduce_card_type_w (a ∷ b ∷ c ∷ d ∷ e ∷ f ∷ g ∷ h ∷ []) refl
  serve-called (set_card_type_provider_name_a a b c d) listed =
      forward-loaded original_set_card_type_provider_name_a (a ∷ b ∷ c ∷ d ∷ []) refl
  serve-called (set_card_type_provider_name_w a b c d) listed =
      forward-loaded original_set_card_type_provider_name_w (a ∷ b ∷ c ∷ d ∷ []) refl
  serve-called (forget_card_type_a a b) listed =
      forward-loaded original_forget_card_type_a (a ∷ b ∷ []) refl
  serve-called (forget_card_type_w a b) listed =
      forward-loaded original_forget_card_type_w (a ∷ b ∷ []) refl
  serve-called (locate_cards_a a b c d) listed =
      forward-loaded original_locate_cards_a (a ∷ b ∷ c ∷ d ∷ []) refl
  serve-called (locate_cards_w a b c d) listed =
      forward-loaded original_locate_cards_w (a ∷ b ∷ c ∷ d ∷ []) refl
  serve-called (locate_cards_by_atr_a a b c d e) listed = cc
  serve-called (locate_cards_by_atr_w a b c d e) listed = cc
  serve-called (ui_dlg_select_card_a a) listed = cc
  serve-called (ui_dlg_select_card_w a) listed = cc
  serve-called (open_card_name_a a) listed = cc
  serve-called (open_card_name_w a) listed = cc
  serve-called dlg_extended_error listed = cc
  serve-called access_started_event listed = forward-loaded original_access_started_event ([]) refl
  serve-called release_started_event listed =
      forward-loaded original_release_started_event ([]) refl
  serve-called (get_status_change a b c d) listed = cc

  -- On Windows, after `initialize` returned TRUE, every function that the .def files export from
  -- this library itself and that only forwards calls the function that the original library exports under the same
  -- name, which is there, with the same arguments in the same order.
  pub serve-namesake :
      (r : Request)
      → is_listed r ≡ true
      → (f : library.Function) × (exported (export_name r) ≡ some f)
        × (serve library loaded w r ≡ ok (library.invoke f w (arguments r)))
  serve-namesake r listed =
      let found : IsExported exported (export_name r) =
        All-contains_name (IsExported exported) exported_names (export_name r) listed
          ((windows_needed exported empty).0 done).1.1 in
      (found.0, found.1, serve-called r listed ∙ ap (λ o. called library o w (arguments r)) found.1)
