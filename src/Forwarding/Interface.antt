-- ===== src/Forwarding/Interface.antt =====
-- The functions that only forward as programs see them: their names and the order of their arguments.
use apduplay.Base.{Bool, List, Text, [], codes, ℕ, ◌∷◌}
use apduplay.Originals.Names.{exported_names}
use apduplay.Cards.{contains_name}
use apduplay.Forwarding.Requests.{
  Request, access_started_event, add_reader_to_group_a, add_reader_to_group_w, cancel,
  dlg_extended_error, forget_card_type_a, forget_card_type_w, forget_reader_a,
  forget_reader_group_a, forget_reader_group_w, forget_reader_w, get_card_type_provider_name_a,
  get_card_type_provider_name_w, get_provider_id_a, get_provider_id_w, get_status_change,
  introduce_card_type_a, introduce_card_type_w, introduce_reader_a, introduce_reader_group_a,
  introduce_reader_group_w, introduce_reader_w, is_valid_context, list_cards_a, list_cards_w,
  list_interfaces_a, list_interfaces_w, list_reader_groups, list_reader_groups_w, locate_cards_a,
  locate_cards_by_atr_a, locate_cards_by_atr_w, locate_cards_w, open_card_name_a, open_card_name_w,
  release_started_event, remove_reader_from_group_a, remove_reader_from_group_w,
  set_card_type_provider_name_a, set_card_type_provider_name_w, ui_dlg_select_card_a,
  ui_dlg_select_card_w,
}

-- The name under which programs call a function: on Windows with the A of the system's header.
abbrev pub export_name : Request → Text
export_name (is_valid_context _) = codes "SCardIsValidContext"
export_name (cancel _) = codes "SCardCancel"
export_name (list_reader_groups _ _ _) = codes "SCardListReaderGroupsA"
export_name (list_reader_groups_w _ _ _) = codes "SCardListReaderGroupsW"
export_name (list_cards_a _ _ _ _ _ _) = codes "SCardListCardsA"
export_name (list_cards_w _ _ _ _ _ _) = codes "SCardListCardsW"
export_name (list_interfaces_a _ _ _ _) = codes "SCardListInterfacesA"
export_name (list_interfaces_w _ _ _ _) = codes "SCardListInterfacesW"
export_name (get_provider_id_a _ _ _) = codes "SCardGetProviderIdA"
export_name (get_provider_id_w _ _ _) = codes "SCardGetProviderIdW"
export_name (get_card_type_provider_name_a _ _ _ _ _) = codes "SCardGetCardTypeProviderNameA"
export_name (get_card_type_provider_name_w _ _ _ _ _) = codes "SCardGetCardTypeProviderNameW"
export_name (introduce_reader_group_a _ _) = codes "SCardIntroduceReaderGroupA"
export_name (introduce_reader_group_w _ _) = codes "SCardIntroduceReaderGroupW"
export_name (forget_reader_group_a _ _) = codes "SCardForgetReaderGroupA"
export_name (forget_reader_group_w _ _) = codes "SCardForgetReaderGroupW"
export_name (introduce_reader_a _ _ _) = codes "SCardIntroduceReaderA"
export_name (introduce_reader_w _ _ _) = codes "SCardIntroduceReaderW"
export_name (forget_reader_a _ _) = codes "SCardForgetReaderA"
export_name (forget_reader_w _ _) = codes "SCardForgetReaderW"
export_name (add_reader_to_group_a _ _ _) = codes "SCardAddReaderToGroupA"
export_name (add_reader_to_group_w _ _ _) = codes "SCardAddReaderToGroupW"
export_name (remove_reader_from_group_a _ _ _) = codes "SCardRemoveReaderFromGroupA"
export_name (remove_reader_from_group_w _ _ _) = codes "SCardRemoveReaderFromGroupW"
export_name (introduce_card_type_a _ _ _ _ _ _ _ _) = codes "SCardIntroduceCardTypeA"
export_name (introduce_card_type_w _ _ _ _ _ _ _ _) = codes "SCardIntroduceCardTypeW"
export_name (set_card_type_provider_name_a _ _ _ _) = codes "SCardSetCardTypeProviderNameA"
export_name (set_card_type_provider_name_w _ _ _ _) = codes "SCardSetCardTypeProviderNameW"
export_name (forget_card_type_a _ _) = codes "SCardForgetCardTypeA"
export_name (forget_card_type_w _ _) = codes "SCardForgetCardTypeW"
export_name (locate_cards_a _ _ _ _) = codes "SCardLocateCardsA"
export_name (locate_cards_w _ _ _ _) = codes "SCardLocateCardsW"
export_name (locate_cards_by_atr_a _ _ _ _ _) = codes "SCardLocateCardsByATRA"
export_name (locate_cards_by_atr_w _ _ _ _ _) = codes "SCardLocateCardsByATRW"
export_name (ui_dlg_select_card_a _) = codes "SCardUIDlgSelectCardA"
export_name (ui_dlg_select_card_w _) = codes "SCardUIDlgSelectCardW"
export_name (open_card_name_a _) = codes "GetOpenCardNameA"
export_name (open_card_name_w _) = codes "GetOpenCardNameW"
export_name dlg_extended_error = codes "SCardDlgExtendedError"
export_name access_started_event = codes "SCardAccessStartedEvent"
export_name release_started_event = codes "SCardReleaseStartedEvent"
export_name (get_status_change _ _ _ _) = codes "SCardGetStatusChange"

-- The arguments of a call in the order of the interface.
abbrev pub arguments : Request → List ℕ
arguments (is_valid_context a) = a ∷ []
arguments (cancel a) = a ∷ []
arguments (list_reader_groups a b c) = a ∷ b ∷ c ∷ []
arguments (list_reader_groups_w a b c) = a ∷ b ∷ c ∷ []
arguments (list_cards_a a b c d e f) = a ∷ b ∷ c ∷ d ∷ e ∷ f ∷ []
arguments (list_cards_w a b c d e f) = a ∷ b ∷ c ∷ d ∷ e ∷ f ∷ []
arguments (list_interfaces_a a b c d) = a ∷ b ∷ c ∷ d ∷ []
arguments (list_interfaces_w a b c d) = a ∷ b ∷ c ∷ d ∷ []
arguments (get_provider_id_a a b c) = a ∷ b ∷ c ∷ []
arguments (get_provider_id_w a b c) = a ∷ b ∷ c ∷ []
arguments (get_card_type_provider_name_a a b c d e) = a ∷ b ∷ c ∷ d ∷ e ∷ []
arguments (get_card_type_provider_name_w a b c d e) = a ∷ b ∷ c ∷ d ∷ e ∷ []
arguments (introduce_reader_group_a a b) = a ∷ b ∷ []
arguments (introduce_reader_group_w a b) = a ∷ b ∷ []
arguments (forget_reader_group_a a b) = a ∷ b ∷ []
arguments (forget_reader_group_w a b) = a ∷ b ∷ []
arguments (introduce_reader_a a b c) = a ∷ b ∷ c ∷ []
arguments (introduce_reader_w a b c) = a ∷ b ∷ c ∷ []
arguments (forget_reader_a a b) = a ∷ b ∷ []
arguments (forget_reader_w a b) = a ∷ b ∷ []
arguments (add_reader_to_group_a a b c) = a ∷ b ∷ c ∷ []
arguments (add_reader_to_group_w a b c) = a ∷ b ∷ c ∷ []
arguments (remove_reader_from_group_a a b c) = a ∷ b ∷ c ∷ []
arguments (remove_reader_from_group_w a b c) = a ∷ b ∷ c ∷ []
arguments (introduce_card_type_a a b c d e f g h) = a ∷ b ∷ c ∷ d ∷ e ∷ f ∷ g ∷ h ∷ []
arguments (introduce_card_type_w a b c d e f g h) = a ∷ b ∷ c ∷ d ∷ e ∷ f ∷ g ∷ h ∷ []
arguments (set_card_type_provider_name_a a b c d) = a ∷ b ∷ c ∷ d ∷ []
arguments (set_card_type_provider_name_w a b c d) = a ∷ b ∷ c ∷ d ∷ []
arguments (forget_card_type_a a b) = a ∷ b ∷ []
arguments (forget_card_type_w a b) = a ∷ b ∷ []
arguments (locate_cards_a a b c d) = a ∷ b ∷ c ∷ d ∷ []
arguments (locate_cards_w a b c d) = a ∷ b ∷ c ∷ d ∷ []
arguments (locate_cards_by_atr_a a b c d e) = a ∷ b ∷ c ∷ d ∷ e ∷ []
arguments (locate_cards_by_atr_w a b c d e) = a ∷ b ∷ c ∷ d ∷ e ∷ []
arguments (ui_dlg_select_card_a a) = a ∷ []
arguments (ui_dlg_select_card_w a) = a ∷ []
arguments (open_card_name_a a) = a ∷ []
arguments (open_card_name_w a) = a ∷ []
arguments dlg_extended_error = []
arguments access_started_event = []
arguments release_started_event = []
arguments (get_status_change a b c d) = a ∷ b ∷ c ∷ d ∷ []

-- Whether the .def files export the function that is called from this library itself.
abbrev pub is_listed : Request → Bool
is_listed r = contains_name exported_names (export_name r)
