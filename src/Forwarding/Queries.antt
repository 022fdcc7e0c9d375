-- ===== src/Forwarding/Queries.antt =====
-- Functions of Winscard/Winscard.cpp that only write to the log and call the original library: what the library knows of cards, interfaces and providers. Every argument is a word, a pointer's address included.
use apduplay.Base.{Outcome, [], ℕ, ◌∷◌}
use apduplay.Originals.{
  Slots, original_cancel, original_get_card_type_provider_name_a,
  original_get_card_type_provider_name_w, original_get_provider_id_a, original_get_provider_id_w,
  original_is_valid_context, original_list_cards_a, original_list_cards_w,
  original_list_interfaces_a, original_list_interfaces_w, original_list_reader_groups,
  original_list_reader_groups_w,
}
use apduplay.Forwarding.{Library, forward}

module _ (library : Library) (slots : Slots (library.Function)) (w : library.World) where
  unfoldable pub scard_is_valid_context : ℕ → Outcome (library.World × ℕ)
  scard_is_valid_context h_context =
      forward library slots w original_is_valid_context (h_context ∷ [])

  unfoldable pub scard_cancel : ℕ → Outcome (library.World × ℕ)
  scard_cancel h_context = forward library slots w original_cancel (h_context ∷ [])

  unfoldable pub scard_list_reader_groups : ℕ → ℕ → ℕ → Outcome (library.World × ℕ)
  scard_list_reader_groups h_context msz_groups pcch_groups =
      forward library slots w original_list_reader_groups
        (h_context ∷ msz_groups ∷ pcch_groups ∷ [])

  unfoldable pub scard_list_reader_groups_w : ℕ → ℕ → ℕ → Outcome (library.World × ℕ)
  scard_list_reader_groups_w h_context msz_groups pcch_groups =
      forward library slots w original_list_reader_groups_w
        (h_context ∷ msz_groups ∷ pcch_groups ∷ [])

  unfoldable pub scard_list_cards_a : ℕ → ℕ → ℕ → ℕ → ℕ → ℕ → Outcome (library.World × ℕ)
  scard_list_cards_a h_context pb_atr rgquid_interfaces cguid_interface_count msz_cards pcch_cards =
      forward library slots w original_list_cards_a (
        h_context ∷ pb_atr ∷ rgquid_interfaces ∷ cguid_interface_count ∷ msz_cards ∷ pcch_cards
        ∷ [])

  unfoldable pub scard_list_cards_w : ℕ → ℕ → ℕ → ℕ → ℕ → ℕ → Outcome (library.World × ℕ)
  scard_list_cards_w h_context pb_atr rgquid_interfaces cguid_interface_count msz_cards pcch_cards =
      forward library slots w original_list_cards_w (
        h_context ∷ pb_atr ∷ rgquid_interfaces ∷ cguid_interface_count ∷ msz_cards ∷ pcch_cards
        ∷ [])

  unfoldable pub scard_list_interfaces_a : ℕ → ℕ → ℕ → ℕ → Outcome (library.World × ℕ)
  scard_list_interfaces_a h_context sz_card pguid_interfaces pcguid_interfaces =
      forward library slots w original_list_interfaces_a
        (h_context ∷ sz_card ∷ pguid_interfaces ∷ pcguid_interfaces ∷ [])

  unfoldable pub scard_list_interfaces_w : ℕ → ℕ → ℕ → ℕ → Outcome (library.World × ℕ)
  scard_list_interfaces_w h_context sz_card pguid_interfaces pcguid_interfaces =
      forward library slots w original_list_interfaces_w
        (h_context ∷ sz_card ∷ pguid_interfaces ∷ pcguid_interfaces ∷ [])

  unfoldable pub scard_get_provider_id_a : ℕ → ℕ → ℕ → Outcome (library.World × ℕ)
  scard_get_provider_id_a h_context sz_card pguid_provider_id =
      forward library slots w original_get_provider_id_a
        (h_context ∷ sz_card ∷ pguid_provider_id ∷ [])

  unfoldable pub scard_get_provider_id_w : ℕ → ℕ → ℕ → Outcome (library.World × ℕ)
  scard_get_provider_id_w h_context sz_card pguid_provider_id =
      forward library slots w original_get_provider_id_w
        (h_context ∷ sz_card ∷ pguid_provider_id ∷ [])

  unfoldable pub scard_get_card_type_provider_name_a :
      ℕ → ℕ → ℕ → ℕ → ℕ → Outcome (library.World × ℕ)
  scard_get_card_type_provider_name_a h_context sz_card_name dw_provider_id sz_provider
        pcch_provider =
      forward library slots w original_get_card_type_provider_name_a
        (h_context ∷ sz_card_name ∷ dw_provider_id ∷ sz_provider ∷ pcch_provider ∷ [])

  unfoldable pub scard_get_card_type_provider_name_w :
      ℕ → ℕ → ℕ → ℕ → ℕ → Outcome (library.World × ℕ)
  scard_get_card_type_provider_name_w h_context sz_card_name dw_provider_id sz_provider
        pcch_provider =
      forward library slots w original_get_card_type_provider_name_w
        (h_context ∷ sz_card_name ∷ dw_provider_id ∷ sz_provider ∷ pcch_provider ∷ [])
