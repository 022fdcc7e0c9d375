-- ===== src/Originals/Initialize.antt =====
-- `initialize` of Winscard/Winscard.cpp: the library is opened, and the functions are looked up in it.
-- The text of the debug log is left out. The names stand as the source writes them, with the
-- blank at the end of one.
use apduplay.Base.{Bool, List, Option, Text, [], codes, false, none, some, ◌++◌, ◌∷◌}
use apduplay.Originals.{
  Load, Slots, load_each, need, original_access_started_event, original_add_reader_to_group_a,
  original_add_reader_to_group_w, original_begin_transaction, original_cancel,
  original_cancel_transaction, original_connect, original_connect_w, original_control,
  original_disconnect, original_dlg_extended_error, original_end_transaction,
  original_establish_context, original_forget_card_type_a, original_forget_card_type_w,
  original_forget_reader_a, original_forget_reader_group_a, original_forget_reader_group_w,
  original_forget_reader_w, original_free_memory, original_get_attrib,
  original_get_card_type_provider_name_a, original_get_card_type_provider_name_w,
  original_get_open_card_name_a, original_get_open_card_name_w, original_get_provider_id_a,
  original_get_provider_id_w, original_get_status_change, original_get_status_change_a,
  original_get_status_change_w, original_introduce_card_type_a, original_introduce_card_type_w,
  original_introduce_reader_a, original_introduce_reader_group_a, original_introduce_reader_group_w,
  original_introduce_reader_w, original_is_valid_context, original_list_cards_a,
  original_list_cards_w, original_list_interfaces_a, original_list_interfaces_w,
  original_list_reader_groups, original_list_reader_groups_w, original_list_readers,
  original_list_readers_w, original_locate_cards_a, original_locate_cards_by_atr_a,
  original_locate_cards_by_atr_w, original_locate_cards_w, original_reconnect,
  original_release_context, original_release_started_event, original_remove_reader_from_group_a,
  original_remove_reader_from_group_w, original_set_attrib, original_set_card_type_provider_name_a,
  original_set_card_type_provider_name_w, original_state, original_status, original_status_w,
  original_transmit, original_ui_dlg_select_card_a, original_ui_dlg_select_card_w, want,
}

-- The functions of every build, the first half; `SCardTransmit` is looked up once in each build.
abbrev pub load_calls : List Load
load_calls =
    need original_transmit (codes "SCardTransmit")
    ∷ need original_disconnect (codes "SCardDisconnect")
    ∷ need original_free_memory (codes "SCardFreeMemory")
    ∷ need original_establish_context (codes "SCardEstablishContext")
    ∷ need original_release_context (codes "SCardReleaseContext")
    ∷ need original_is_valid_context (codes "SCardIsValidContext")
    ∷ need original_free_memory (codes "SCardFreeMemory")
    ∷ need original_cancel (codes "SCardCancel")
    ∷ []

-- The functions of every build, the second half.
abbrev pub load_cards : List Load
load_cards =
    need original_reconnect (codes "SCardReconnect")
    ∷ need original_disconnect (codes "SCardDisconnect")
    ∷ need original_begin_transaction (codes "SCardBeginTransaction")
    ∷ need original_end_transaction (codes "SCardEndTransaction")
    ∷ need original_transmit (codes "SCardTransmit")
    ∷ need original_control (codes "SCardControl")
    ∷ need original_get_attrib (codes "SCardGetAttrib")
    ∷ need original_set_attrib (codes "SCardSetAttrib")
    ∷ []

-- Windows: the states and lists of readers and cards.
abbrev pub load_lists : List Load
load_lists =
    need original_status (codes "SCardStatusA")
    ∷ need original_connect_w (codes "SCardConnectW")
    ∷ need original_list_readers_w (codes "SCardListReadersW")
    ∷ need original_list_readers (codes "SCardListReadersA")
    ∷ need original_list_reader_groups (codes "SCardListReaderGroupsA")
    ∷ need original_list_reader_groups_w (codes "SCardListReaderGroupsW")
    ∷ need original_list_readers (codes "SCardListReadersA")
    ∷ need original_list_readers_w (codes "SCardListReadersW")
    ∷ need original_list_cards_a (codes "SCardListCardsA")
    ∷ need original_list_cards_w (codes "SCardListCardsW")
    ∷ need original_list_interfaces_a (codes "SCardListInterfacesA")
    ∷ need original_list_interfaces_w (codes "SCardListInterfacesW")
    ∷ []

-- Windows: the names of providers, readers and groups.
abbrev pub load_names : List Load
load_names =
    need original_get_provider_id_a (codes "SCardGetProviderIdA")
    ∷ need original_get_provider_id_w (codes "SCardGetProviderIdW")
    ∷ need original_get_card_type_provider_name_a (codes "SCardGetCardTypeProviderNameA")
    ∷ need original_get_card_type_provider_name_w (codes "SCardGetCardTypeProviderNameW")
    ∷ need original_introduce_reader_group_a (codes "SCardIntroduceReaderGroupA")
    ∷ need original_introduce_reader_group_w (codes "SCardIntroduceReaderGroupW")
    ∷ need original_forget_reader_group_a (codes "SCardForgetReaderGroupA")
    ∷ need original_forget_reader_group_w (codes "SCardForgetReaderGroupW")
    ∷ need original_introduce_reader_a (codes "SCardIntroduceReaderA")
    ∷ need original_introduce_reader_w (codes "SCardIntroduceReaderW")
    ∷ need original_forget_reader_a (codes "SCardForgetReaderA")
    ∷ need original_forget_reader_w (codes "SCardForgetReaderW")
    ∷ []

-- Windows: groups, types of cards and the events of the service.
abbrev pub load_groups : List Load
load_groups =
    need original_add_reader_to_group_a (codes "SCardAddReaderToGroupA")
    ∷ need original_add_reader_to_group_w (codes "SCardAddReaderToGroupW")
    ∷ need original_remove_reader_from_group_a (codes "SCardRemoveReaderFromGroupA")
    ∷ need original_remove_reader_from_group_w (codes "SCardRemoveReaderFromGroupW")
    ∷ need original_introduce_card_type_a (codes "SCardIntroduceCardTypeA")
    ∷ need original_introduce_card_type_w (codes "SCardIntroduceCardTypeW")
    ∷ need original_set_card_type_provider_name_a (codes "SCardSetCardTypeProviderNameA")
    ∷ need original_set_card_type_provider_name_w (codes "SCardSetCardTypeProviderNameW")
    ∷ need original_forget_card_type_a (codes "SCardForgetCardTypeA")
    ∷ need original_forget_card_type_w (codes "SCardForgetCardTypeW")
    ∷ need original_access_started_event (codes "SCardAccessStartedEvent")
    ∷ need original_release_started_event (codes "SCardReleaseStartedEvent")
    ∷ []

-- Windows: the search for cards, changes and connections.
abbrev pub load_locations : List Load
load_locations =
    need original_locate_cards_a (codes "SCardLocateCardsA")
    ∷ need original_locate_cards_w (codes "SCardLocateCardsW")
    ∷ need original_locate_cards_by_atr_a (codes "SCardLocateCardsByATRA")
    ∷ need original_locate_cards_by_atr_w (codes "SCardLocateCardsByATRW")
    ∷ need original_get_status_change_a (codes "SCardGetStatusChangeA")
    ∷ need original_get_status_change_w (codes "SCardGetStatusChangeW")
    ∷ need original_connect (codes "SCardConnectA")
    ∷ need original_connect_w (codes "SCardConnectW")
    ∷ want original_cancel_transaction (codes "SCardCancelTransaction")
    ∷ need original_state (codes "SCardState")
    ∷ need original_status (codes "SCardStatusA")
    ∷ []

-- Windows: the state of a card, and the dialogs, which may be missing.
abbrev pub load_dialogs : List Load
load_dialogs =
    need original_status_w (codes "SCardStatusW")
    ∷ want original_ui_dlg_select_card_a (codes "SCardUIDlgSelectCardA")
    ∷ want original_ui_dlg_select_card_w (codes "SCardUIDlgSelectCardW")
    ∷ want original_get_open_card_name_a (codes "GetOpenCardNameA")
    ∷ want original_get_open_card_name_w (codes "GetOpenCardNameW")
    ∷ want original_dlg_extended_error (codes "SCardDlgExtendedError ")
    ∷ []

-- Linux: the functions without a variant on wide characters.
abbrev pub load_linux : List Load
load_linux =
    need original_connect (codes "SCardConnect")
    ∷ need original_status (codes "SCardStatus")
    ∷ need original_get_status_change (codes "SCardGetStatusChange")
    ∷ need original_list_readers (codes "SCardListReaders")
    ∷ need original_list_reader_groups (codes "SCardListReaderGroups")
    ∷ []

-- The build, by the system that it is for.
pub data Platform : Type 0 where
  windows linux : Platform

abbrev pub loads : Platform → List Load
loads windows =
    load_calls
    ++ (load_cards
        ++ (load_lists ++ (load_names ++ (load_groups ++ (load_locations ++ load_dialogs)))))
loads linux = load_calls ++ (load_cards ++ load_linux)

-- `initialize`: the pointers afterwards, and TRUE or FALSE. `library` is `none` where
-- `LoadLibrary` or `dlopen` fails.
unfoldable pub initialize :
    {F : Type 0} → Platform → Option (Text → Option F) → Slots F → Slots F × Bool
unfolding load_each
initialize platform none slots = (slots, false)
initialize platform (some exported) slots = load_each exported (loads platform) slots
