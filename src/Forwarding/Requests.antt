-- ===== src/Forwarding/Requests.antt =====
-- A call of one of the functions that only forward, with its arguments, and the function that serves it.
use apduplay.Base.{Outcome, ℕ}
use apduplay.Forwarding.Locations.{
  get_open_card_name_a, get_open_card_name_w, scard_access_started_event, scard_dlg_extended_error,
  scard_get_status_change, scard_locate_cards_a, scard_locate_cards_by_atr_a,
  scard_locate_cards_by_atr_w, scard_locate_cards_w, scard_release_started_event,
  scard_ui_dlg_select_card_a, scard_ui_dlg_select_card_w,
}
use apduplay.Forwarding.Database.{
  scard_add_reader_to_group_a, scard_add_reader_to_group_w, scard_forget_card_type_a,
  scard_forget_card_type_w, scard_forget_reader_a, scard_forget_reader_group_a,
  scard_forget_reader_group_w, scard_forget_reader_w, scard_introduce_card_type_a,
  scard_introduce_card_type_w, scard_introduce_reader_a, scard_introduce_reader_group_a,
  scard_introduce_reader_group_w, scard_introduce_reader_w, scard_remove_reader_from_group_a,
  scard_remove_reader_from_group_w, scard_set_card_type_provider_name_a,
  scard_set_card_type_provider_name_w,
}
use apduplay.Forwarding.Queries.{
  scard_cancel, scard_get_card_type_provider_name_a, scard_get_card_type_provider_name_w,
  scard_get_provider_id_a, scard_get_provider_id_w, scard_is_valid_context, scard_list_cards_a,
  scard_list_cards_w, scard_list_interfaces_a, scard_list_interfaces_w, scard_list_reader_groups,
  scard_list_reader_groups_w,
}
use apduplay.Originals.{Slots}
use apduplay.Forwarding.{Library}

pub data Request : Type 0 where
  is_valid_context cancel : (h_context : ℕ) → Request
  list_reader_groups list_reader_groups_w : (h_context msz_groups pcch_groups : ℕ) → Request
  list_cards_a list_cards_w :
      (h_context pb_atr rgquid_interfaces cguid_interface_count msz_cards pcch_cards : ℕ) → Request
  list_interfaces_a list_interfaces_w :
      (h_context sz_card pguid_interfaces pcguid_interfaces : ℕ) → Request
  get_provider_id_a get_provider_id_w : (h_context sz_card pguid_provider_id : ℕ) → Request
  get_card_type_provider_name_a get_card_type_provider_name_w :
      (h_context sz_card_name dw_provider_id sz_provider pcch_provider : ℕ) → Request
  introduce_reader_group_a introduce_reader_group_w forget_reader_group_a forget_reader_group_w :
      (h_context sz_group_name : ℕ) → Request
  introduce_reader_a introduce_reader_w : (h_context sz_reader_name sz_device_name : ℕ) → Request
  forget_reader_a forget_reader_w : (h_context sz_reader_name : ℕ) → Request
  add_reader_to_group_a add_reader_to_group_w remove_reader_from_group_a
        remove_reader_from_group_w :
      (h_context sz_reader_name sz_group_name : ℕ) → Request
  introduce_card_type_a introduce_card_type_w :
      (h_context sz_card_name pguid_primary_provider rgguid_interfaces dw_interface_count pb_atr
        pb_atr_mask cb_atr_len : ℕ)
      → Request
  set_card_type_provider_name_a set_card_type_provider_name_w :
      (h_context sz_card_name dw_provider_id sz_provider : ℕ) → Request
  forget_card_type_a forget_card_type_w : (h_context sz_card_name : ℕ) → Request
  locate_cards_a locate_cards_w : (h_context msz_cards rg_reader_states c_readers : ℕ) → Request
  locate_cards_by_atr_a locate_cards_by_atr_w :
      (h_context rg_atr_masks c_atrs rg_reader_states c_readers : ℕ) → Request
  ui_dlg_select_card_a ui_dlg_select_card_w open_card_name_a open_card_name_w : (a : ℕ) → Request
  dlg_extended_error access_started_event release_started_event : Request
  get_status_change : (h_context dw_timeout rg_reader_states c_readers : ℕ) → Request

module _ (library : Library) (slots : Slots (library.Function)) (w : library.World) where
  unfoldable pub serve : Request → Outcome (library.World × ℕ)
  unfolding scard_is_valid_context scard_cancel scard_list_reader_groups scard_list_reader_groups_w
      scard_list_cards_a scard_list_cards_w scard_list_interfaces_a scard_list_interfaces_w
      scard_get_provider_id_a scard_get_provider_id_w scard_get_card_type_provider_name_a
      scard_get_card_type_provider_name_w scard_introduce_reader_group_a
      scard_introduce_reader_group_w scard_forget_reader_group_a scard_forget_reader_group_w
      scard_introduce_reader_a scard_introduce_reader_w scard_forget_reader_a scard_forget_reader_w
      scard_add_reader_to_group_a scard_add_reader_to_group_w scard_remove_reader_from_group_a
      scard_remove_reader_from_group_w scard_introduce_card_type_a scard_introduce_card_type_w
      scard_set_card_type_provider_name_a scard_set_card_type_provider_name_w
      scard_forget_card_type_a scard_forget_card_type_w scard_locate_cards_a scard_locate_cards_w
      scard_locate_cards_by_atr_a scard_locate_cards_by_atr_w scard_ui_dlg_select_card_a
      scard_ui_dlg_select_card_w get_open_card_name_a get_open_card_name_w scard_dlg_extended_error
      scard_access_started_event scard_release_started_event scard_get_status_change
  serve (is_valid_context h_context) = scard_is_valid_context library slots w h_context
  serve (cancel h_context) = scard_cancel library slots w h_context
  serve (list_reader_groups h_context msz_groups pcch_groups) =
      scard_list_reader_groups library slots w h_context msz_groups pcch_groups
  serve (list_reader_groups_w h_context msz_groups pcch_groups) =
      scard_list_reader_groups_w library slots w h_context msz_groups pcch_groups
  serve
        (list_cards_a h_context pb_atr rgquid_interfaces cguid_interface_count msz_cards
          pcch_cards) =
      scard_list_cards_a library slots w h_context pb_atr rgquid_interfaces cguid_interface_count
        msz_cards pcch_cards
  serve
        (list_cards_w h_context pb_atr rgquid_interfaces cguid_interface_count msz_cards
          pcch_cards) =
      scard_list_cards_w library slots w h_context pb_atr rgquid_interfaces cguid_interface_count
        msz_cards pcch_cards
  serve (list_interfaces_a h_context sz_card pguid_interfaces pcguid_interfaces) =
      scard_list_interfaces_a library slots w h_context sz_card pguid_interfaces pcguid_interfaces
  serve (list_interfaces_w h_context sz_card pguid_interfaces pcguid_interfaces) =
      scard_list_interfaces_w library slots w h_context sz_card pguid_interfaces pcguid_interfaces
  serve (get_provider_id_a h_context sz_card pguid_provider_id) =
      scard_get_provider_id_a library slots w h_context sz_card pguid_provider_id
  serve (get_provider_id_w h_context sz_card pguid_provider_id) =
      scard_get_provider_id_w library slots w h_context sz_card pguid_provider_id
  serve
        (get_card_type_provider_name_a h_context sz_card_name dw_provider_id sz_provider
          pcch_provider) =
      scard_get_card_type_provider_name_a library slots w h_context sz_card_name dw_provider_id
        sz_provider pcch_provider
  serve
        (get_card_type_provider_name_w h_context sz_card_name dw_provider_id sz_provider
          pcch_provider) =
      scard_get_card_type_provider_name_w library slots w h_context sz_card_name dw_provider_id
        sz_provider pcch_provider
  serve (introduce_reader_group_a h_context sz_group_name) =
      scard_introduce_reader_group_a library slots w h_context sz_group_name
  serve (introduce_reader_group_w h_context sz_group_name) =
      scard_introduce_reader_group_w library slots w h_context sz_group_name
  serve (forget_reader_group_a h_context sz_group_name) =
      scard_forget_reader_group_a library slots w h_context sz_group_name
  serve (forget_reader_group_w h_context sz_group_name) =
      scard_forget_reader_group_w library slots w h_context sz_group_name
  serve (introduce_reader_a h_context sz_reader_name sz_device_name) =
      scard_introduce_reader_a library slots w h_context sz_reader_name sz_device_name
  serve (introduce_reader_w h_context sz_reader_name sz_device_name) =
      scard_introduce_reader_w library slots w h_context sz_reader_name sz_device_name
  serve (forget_reader_a h_context sz_reader_name) =
      scard_forget_reader_a library slots w h_context sz_reader_name
  serve (forget_reader_w h_context sz_reader_name) =
      scard_forget_reader_w library slots w h_context sz_reader_name
  serve (add_reader_to_group_a h_context sz_reader_name sz_group_name) =
      scard_add_reader_to_group_a library slots w h_context sz_reader_name sz_group_name
  serve (add_reader_to_group_w h_context sz_reader_name sz_group_name) =
      scard_add_reader_to_group_w library slots w h_context sz_reader_name sz_group_name
  serve (remove_reader_from_group_a h_context sz_reader_name sz_group_name) =
      scard_remove_reader_from_group_a library slots w h_context sz_reader_name sz_group_name
  serve (remove_reader_from_group_w h_context sz_reader_name sz_group_name) =
      scard_remove_reader_from_group_w library slots w h_context sz_reader_name sz_group_name
  serve
        (introduce_card_type_a h_context sz_card_name pguid_primary_provider rgguid_interfaces
          dw_interface_count pb_atr pb_atr_mask cb_atr_len) =
      scard_introduce_card_type_a library slots w h_context sz_card_name pguid_primary_provider
        rgguid_interfaces dw_interface_count pb_atr pb_atr_mask cb_atr_len
  serve
        (introduce_card_type_w h_context sz_card_name pguid_primary_provider rgguid_interfaces
          dw_interface_count pb_atr pb_atr_mask cb_atr_len) =
      scard_introduce_card_type_w library slots w h_context sz_card_name pguid_primary_provider
        rgguid_interfaces dw_interface_count pb_atr pb_atr_mask cb_atr_len
  serve (set_card_type_provider_name_a h_context sz_card_name dw_provider_id sz_provider) =
      scard_set_card_type_provider_name_a library slots w h_context sz_card_name dw_provider_id
        sz_provider
  serve (set_card_type_provider_name_w h_context sz_card_name dw_provider_id sz_provider) =
      scard_set_card_type_provider_name_w library slots w h_context sz_card_name dw_provider_id
        sz_provider
  serve (forget_card_type_a h_context sz_card_name) =
      scard_forget_card_type_a library slots w h_context sz_card_name
  serve (forget_card_type_w h_context sz_card_name) =
      scard_forget_card_type_w library slots w h_context sz_card_name
  serve (locate_cards_a h_context msz_cards rg_reader_states c_readers) =
      scard_locate_cards_a library slots w h_context msz_cards rg_reader_states c_readers
  serve (locate_cards_w h_context msz_cards rg_reader_states c_readers) =
      scard_locate_cards_w library slots w h_context msz_cards rg_reader_states c_readers
  serve (locate_cards_by_atr_a h_context rg_atr_masks c_atrs rg_reader_states c_readers) =
      scard_locate_cards_by_atr_a library slots w h_context rg_atr_masks c_atrs rg_reader_states
        c_readers
  serve (locate_cards_by_atr_w h_context rg_atr_masks c_atrs rg_reader_states c_readers) =
      scard_locate_cards_by_atr_w library slots w h_context rg_atr_masks c_atrs rg_reader_states
        c_readers
  serve (ui_dlg_select_card_a a) = scard_ui_dlg_select_card_a library slots w a
  serve (ui_dlg_select_card_w a) = scard_ui_dlg_select_card_w library slots w a
  serve (open_card_name_a a) = get_open_card_name_a library slots w a
  serve (open_card_name_w a) = get_open_card_name_w library slots w a
  serve dlg_extended_error = scard_dlg_extended_error library slots w
  serve access_started_event = scard_access_started_event library slots w
  serve release_started_event = scard_release_started_event library slots w
  serve (get_status_change h_context dw_timeout rg_reader_states c_readers) =
      scard_get_status_change library slots w h_context dw_timeout rg_reader_states c_readers
