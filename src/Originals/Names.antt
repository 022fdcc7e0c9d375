-- ===== src/Originals/Names.antt =====
-- The names that Winscard/Winscard32.def and Winscard/Winscard64.def export from the library itself, the repeated ones
-- once. The names that these files hand to the original library directly are left out.
use apduplay.Base.{List, Text, [], codes, ◌∷◌}

abbrev pub exported_names : List Text
exported_names =
    codes "SCardTransmit"
    ∷ codes "SCardConnectW"
    ∷ codes "SCardDisconnect"
    ∷ codes "SCardListReadersA"
    ∷ codes "SCardListReadersW"
    ∷ codes "SCardFreeMemory"
    ∷ codes "SCardAccessStartedEvent"
    ∷ codes "SCardAddReaderToGroupA"
    ∷ codes "SCardAddReaderToGroupW"
    ∷ codes "SCardBeginTransaction"
    ∷ codes "SCardCancel"
    ∷ codes "SCardConnectA"
    ∷ codes "SCardControl"
    ∷ codes "SCardEndTransaction"
    ∷ codes "SCardEstablishContext"
    ∷ codes "SCardForgetCardTypeA"
    ∷ codes "SCardForgetCardTypeW"
    ∷ codes "SCardForgetReaderA"
    ∷ codes "SCardForgetReaderGroupA"
    ∷ codes "SCardForgetReaderGroupW"
    ∷ codes "SCardForgetReaderW"
    ∷ codes "SCardGetAttrib"
    ∷ codes "SCardGetCardTypeProviderNameA"
    ∷ codes "SCardGetCardTypeProviderNameW"
    ∷ codes "SCardGetProviderIdA"
    ∷ codes "SCardGetProviderIdW"
    ∷ codes "SCardGetStatusChangeA"
    ∷ codes "SCardGetStatusChangeW"
    ∷ codes "SCardIntroduceCardTypeA"
    ∷ codes "SCardIntroduceCardTypeW"
    ∷ codes "SCardIntroduceReaderA"
    ∷ codes "SCardIntroduceReaderGroupA"
    ∷ codes "SCardIntroduceReaderGroupW"
    ∷ codes "SCardIntroduceReaderW"
    ∷ codes "SCardIsValidContext"
    ∷ codes "SCardListCardsA"
    ∷ codes "SCardListCardsW"
    ∷ codes "SCardListInterfacesA"
    ∷ codes "SCardListInterfacesW"
    ∷ codes "SCardListReaderGroupsA"
    ∷ codes "SCardListReaderGroupsW"
    ∷ codes "SCardLocateCardsA"
    ∷ codes "SCardLocateCardsW"
    ∷ codes "SCardReconnect"
    ∷ codes "SCardReleaseContext"
    ∷ codes "SCardReleaseStartedEvent"
    ∷ codes "SCardRemoveReaderFromGroupA"
    ∷ codes "SCardRemoveReaderFromGroupW"
    ∷ codes "SCardSetAttrib"
    ∷ codes "SCardSetCardTypeProviderNameA"
    ∷ codes "SCardSetCardTypeProviderNameW"
    ∷ codes "SCardState"
    ∷ codes "SCardStatusA"
    ∷ codes "SCardStatusW"
    ∷ []
