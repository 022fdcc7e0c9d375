-- ===== src/Forwarding/Database.antt =====
-- Functions of Winscard/Winscard.cpp that only write to the log and call the original library: the database of readers, groups and types of cards. Every argument is a word, a pointer's address included.
use apduplay.Base.{Outcome, [], ℕ, ◌∷◌}
use apduplay.Originals.{
  Slots, original_add_reader_to_group_a, original_add_reader_to_group_w,
  original_forget_card_type_a, original_forget_card_type_w, original_forget_reader_a,
  original_forget_reader_group_a, original_forget_reader_group_w, original_forget_reader_w,
  original_introduce_card_type_a, original_introduce_card_type_w, original_introduce_reader_a,
  original_introduce_reader_group_a, original_introduce_reader_group_w, original_introduce_reader_w,
  original_remove_reader_from_group_a, original_remove_reader_from_group_w,
  original_set_card_type_provider_name_a, original_set_card_type_provider_name_w,
}
use apduplay.Forwarding.{Library, forward}

module _ (library : Library) (slots : Slots (library.Function)) (w : library.World) where
  unfoldable pub scard_introduce_reader_group_a : ℕ → ℕ → Outcome (library.World × ℕ)
  scard_introduce_reader_group_a h_context sz_group_name =
      forward library slots w original_introduce_reader_group_a (h_context ∷ sz_group_name ∷ [])

  unfoldable pub scard_introduce_reader_group_w : ℕ → ℕ → Outcome (library.World × ℕ)
  scard_introduce_reader_group_w h_context sz_group_name =
      forward library slots w original_introduce_reader_group_w (h_context ∷ sz_group_name ∷ [])

  unfoldable pub scard_forget_reader_group_a : ℕ → ℕ → Outcome (library.World × ℕ)
  scard_forget_reader_group_a h_context sz_group_name =
      forward library slots w original_forget_reader_group_a (h_context ∷ sz_group_name ∷ [])

  unfoldable pub scard_forget_reader_group_w : ℕ → ℕ → Outcome (library.World × ℕ)
  scard_forget_reader_group_w h_context sz_group_name =
      forward library slots w original_forget_reader_group_w (h_context ∷ sz_group_name ∷ [])

  unfoldable pub scard_introduce_reader_a : ℕ → ℕ → ℕ → Outcome (library.World × ℕ)
  scard_introduce_reader_a h_context sz_reader_name sz_device_name =
      forward library slots w original_introduce_reader_a
        (h_context ∷ sz_reader_name ∷ sz_device_name ∷ [])

  unfoldable pub scard_introduce_reader_w : ℕ → ℕ → ℕ → Outcome (library.World × ℕ)
  scard_introduce_reader_w h_context sz_reader_name sz_device_name =
      forward library slots w original_introduce_reader_w
        (h_context ∷ sz_reader_name ∷ sz_device_name ∷ [])

  unfoldable pub scard_forget_reader_a : ℕ → ℕ → Outcome (library.World × ℕ)
  scard_forget_reader_a h_context sz_reader_name =
      forward library slots w original_forget_reader_a (h_context ∷ sz_reader_name ∷ [])

  unfoldable pub scard_forget_reader_w : ℕ → ℕ → Outcome (library.World × ℕ)
  scard_forget_reader_w h_context sz_reader_name =
      forward library slots w original_forget_reader_w (h_context ∷ sz_reader_name ∷ [])

  unfoldable pub scard_add_reader_to_group_a : ℕ → ℕ → ℕ → Outcome (library.World × ℕ)
  scard_add_reader_to_group_a h_context sz_reader_name sz_group_name =
      forward library slots w original_add_reader_to_group_a
        (h_context ∷ sz_reader_name ∷ sz_group_name ∷ [])

  unfoldable pub scard_add_reader_to_group_w : ℕ → ℕ → ℕ → Outcome (library.World × ℕ)
  scard_add_reader_to_group_w h_context sz_reader_name sz_group_name =
      forward library slots w original_add_reader_to_group_w
        (h_context ∷ sz_reader_name ∷ sz_group_name ∷ [])

  unfoldable pub scard_remove_reader_from_group_a : ℕ → ℕ → ℕ → Outcome (library.World × ℕ)
  scard_remove_reader_from_group_a h_context sz_reader_name sz_group_name =
      forward library slots w original_remove_reader_from_group_a
        (h_context ∷ sz_reader_name ∷ sz_group_name ∷ [])

  unfoldable pub scard_remove_reader_from_group_w : ℕ → ℕ → ℕ → Outcome (library.World × ℕ)
  scard_remove_reader_from_group_w h_context sz_reader_name sz_group_name =
      forward library slots w original_remove_reader_from_group_w
        (h_context ∷ sz_reader_name ∷ sz_group_name ∷ [])

  unfoldable pub scard_introduce_card_type_a :
      ℕ → ℕ → ℕ → ℕ → ℕ → ℕ → ℕ → ℕ → Outcome (library.World × ℕ)
  scard_introduce_card_type_a h_context sz_card_name pguid_primary_provider rgguid_interfaces
        dw_interface_count pb_atr pb_atr_mask cb_atr_len =
      forward library slots w original_introduce_card_type_a (
        h_context ∷ sz_card_name ∷ pguid_primary_provider ∷ rgguid_interfaces ∷ dw_interface_count
        ∷ pb_atr ∷ pb_atr_mask ∷ cb_atr_len ∷ [])

  unfoldable pub scard_introduce_card_type_w :
      ℕ → ℕ → ℕ → ℕ → ℕ → ℕ → ℕ → ℕ → Outcome (library.World × ℕ)
  scard_introduce_card_type_w h_context sz_card_name pguid_primary_provider rgguid_interfaces
        dw_interface_count pb_atr pb_atr_mask cb_atr_len =
      forward library slots w original_introduce_card_type_w (
        h_context ∷ sz_card_name ∷ pguid_primary_provider ∷ rgguid_interfaces ∷ dw_interface_count
        ∷ pb_atr ∷ pb_atr_mask ∷ cb_atr_len ∷ [])

  unfoldable pub scard_set_card_type_provider_name_a : ℕ → ℕ → ℕ → ℕ → Outcome (library.World × ℕ)
  scard_set_card_type_provider_name_a h_context sz_card_name dw_provider_id sz_provider =
      forward library slots w original_set_card_type_provider_name_a
        (h_context ∷ sz_card_name ∷ dw_provider_id ∷ sz_provider ∷ [])

  unfoldable pub scard_set_card_type_provider_name_w : ℕ → ℕ → ℕ → ℕ → Outcome (library.World × ℕ)
  scard_set_card_type_provider_name_w h_context sz_card_name dw_provider_id sz_provider =
      forward library slots w original_set_card_type_provider_name_w
        (h_context ∷ sz_card_name ∷ dw_provider_id ∷ sz_provider ∷ [])

  unfoldable pub scard_forget_card_type_a : ℕ → ℕ → Outcome (library.World × ℕ)
  scard_forget_card_type_a h_context sz_card_name =
      forward library slots w original_forget_card_type_a (h_context ∷ sz_card_name ∷ [])

  unfoldable pub scard_forget_card_type_w : ℕ → ℕ → Outcome (library.World × ℕ)
  scard_forget_card_type_w h_context sz_card_name =
      forward library slots w original_forget_card_type_w (h_context ∷ sz_card_name ∷ [])
