-- ===== src/Originals.antt =====
-- The pointers `Original_*` of Winscard/Winscard.cpp to the functions of the original PC/SC library, and
-- the loop that stands for the statements of `initialize`: look a name up, store what was found,
-- and give up where a function that is needed is missing.
pub mod Names
pub mod Loaded
pub mod Initialize
pub mod Pointers
use apduplay.Base.{
  Bool, List, Option, Text, [], false, if◌then◌else◌, none, some, true, ℕ, ◌==◌, ◌∷◌,
}

-- One pointer for each function, named after it; all are NULL at the start.
pub data Slot : Type 0 where
  original_establish_context original_release_context original_is_valid_context original_cancel
        original_reconnect original_begin_transaction original_end_transaction original_control
        original_get_attrib original_set_attrib original_free_memory original_disconnect
        original_transmit original_connect original_status original_list_readers
        original_list_readers_w original_list_reader_groups original_connect_w
        original_list_reader_groups_w original_list_cards_a original_list_cards_w
        original_list_interfaces_a original_list_interfaces_w original_get_provider_id_a
        original_get_provider_id_w original_get_card_type_provider_name_a
        original_get_card_type_provider_name_w original_introduce_reader_group_a
        original_introduce_reader_group_w original_forget_reader_group_a
        original_forget_reader_group_w original_introduce_reader_a original_introduce_reader_w
        original_forget_reader_a original_forget_reader_w original_add_reader_to_group_a
        original_add_reader_to_group_w original_remove_reader_from_group_a
        original_remove_reader_from_group_w original_introduce_card_type_a
        original_introduce_card_type_w original_set_card_type_provider_name_a
        original_set_card_type_provider_name_w original_forget_card_type_a
        original_forget_card_type_w original_locate_cards_a original_locate_cards_w
        original_locate_cards_by_atr_a original_locate_cards_by_atr_w original_get_status_change_a
        original_get_status_change_w original_ui_dlg_select_card_a original_ui_dlg_select_card_w
        original_get_open_card_name_a original_get_open_card_name_w original_dlg_extended_error
        original_cancel_transaction original_state original_status_w original_access_started_event
        original_release_started_event original_get_status_change :
      Slot

-- The place of a pointer in the order of the declarations, by which pointers are told apart.
unfoldable pub slot_index : Slot → ℕ
slot_index original_establish_context = 0
slot_index original_release_context = 1
slot_index original_is_valid_context = 2
slot_index original_cancel = 3
slot_index original_reconnect = 4
slot_index original_begin_transaction = 5
slot_index original_end_transaction = 6
slot_index original_control = 7
slot_index original_get_attrib = 8
slot_index original_set_attrib = 9
slot_index original_free_memory = 10
slot_index original_disconnect = 11
slot_index original_transmit = 12
slot_index original_connect = 13
slot_index original_status = 14
slot_index original_list_readers = 15
slot_index original_list_readers_w = 16
slot_index original_list_reader_groups = 17
slot_index original_connect_w = 18
slot_index original_list_reader_groups_w = 19
slot_index original_list_cards_a = 20
slot_index original_list_cards_w = 21
slot_index original_list_interfaces_a = 22
slot_index original_list_interfaces_w = 23
slot_index original_get_provider_id_a = 24
slot_index original_get_provider_id_w = 25
slot_index original_get_card_type_provider_name_a = 26
slot_index original_get_card_type_provider_name_w = 27
slot_index original_introduce_reader_group_a = 28
slot_index original_introduce_reader_group_w = 29
slot_index original_forget_reader_group_a = 30
slot_index original_forget_reader_group_w = 31
slot_index original_introduce_reader_a = 32
slot_index original_introduce_reader_w = 33
slot_index original_forget_reader_a = 34
slot_index original_forget_reader_w = 35
slot_index original_add_reader_to_group_a = 36
slot_index original_add_reader_to_group_w = 37
slot_index original_remove_reader_from_group_a = 38
slot_index original_remove_reader_from_group_w = 39
slot_index original_introduce_card_type_a = 40
slot_index original_introduce_card_type_w = 41
slot_index original_set_card_type_provider_name_a = 42
slot_index original_set_card_type_provider_name_w = 43
slot_index original_forget_card_type_a = 44
slot_index original_forget_card_type_w = 45
slot_index original_locate_cards_a = 46
slot_index original_locate_cards_w = 47
slot_index original_locate_cards_by_atr_a = 48
slot_index original_locate_cards_by_atr_w = 49
slot_index original_get_status_change_a = 50
slot_index original_get_status_change_w = 51
slot_index original_ui_dlg_select_card_a = 52
slot_index original_ui_dlg_select_card_w = 53
slot_index original_get_open_card_name_a = 54
slot_index original_get_open_card_name_w = 55
slot_index original_dlg_extended_error = 56
slot_index original_cancel_transaction = 57
slot_index original_state = 58
slot_index original_status_w = 59
slot_index original_access_started_event = 60
slot_index original_release_started_event = 61
slot_index original_get_status_change = 62

abbrev pub same_slot : Slot → Slot → Bool
same_slot s t = slot_index s == slot_index t

-- What the pointers hold, over the library's functions; `none` is NULL.
abbrev pub Slots : Type 0 → Type 0
Slots F = Slot → Option F

-- A name of the library is looked up and stored: `need` gives up with `return FALSE` where it
-- is missing, `want` only logs that.
pub data Load : Type 0 where
  need : Slot → Text → Load
  want : Slot → Text → Load

module _ {F : Type 0} where
  -- The assignment to a pointer.
  unfoldable pub assign_slot : Slot → Option F → Slots F → Slots F
  assign_slot s f slots = λ t. if same_slot s t then f else slots t

  -- The statements of `initialize` in their order: the pointers, and whether the end was reached.
  -- `exported` is `GetProcAddress` or `dlsym` on the library.
  pub load_each : (Text → Option F) → List Load → Slots F → Slots F × Bool
  load_each exported [] slots = (slots, true)
  load_each exported (need s name ∷ loads) slots = elim (exported name) [
    | none ↦ (assign_slot s none slots, false)
    | some f ↦ load_each exported loads (assign_slot s (some f) slots)
  ]
  load_each exported (want s name ∷ loads) slots =
      load_each exported loads (assign_slot s (exported name) slots)
