-- ===== src/System/Valid.antt =====
-- What holds in every state that the calls of the library lead to.
use apduplay.Base.{
  Bool, Bool-cases, Bytes, Option, Text, [], ap, arith, false, if◌then◌else◌, inl, inr, length,
  length-overwrite, none, refl, replicate, some, suc, sym, take, true, ℕ, ◌+◌, ◌==◌, ◌∙◌, ◌≡◌,
}
use apduplay.Rules.Selection.{IsHistory}
use apduplay.Cards.Handles.{find_handle-assign_handle}
use apduplay.Rules.{History, max_apdu_length}
use apduplay.Transmit.Local.{recorded}
use apduplay.Transmit.Transmitted.{Transmitted}
use apduplay.System.{IsValid, initial}
use apduplay.App.{App, Core, assign_handle, core, find_handle}
use mathlib.Core.Path.{subst}

-- Without cards only the history counts.
pub cleared-IsValid :
    (h : History)
    → IsHistory h
    → length h.apdu_in_list ≡ length h.apdu_out_list
    → IsValid (record {
      history = h;
      card_reader_map = [];
      remote_readers_map = [];
      next_remote_card_id = 1;
    })
unfolding find_handle
cleared-IsValid h v p = record {
  counted = omega arith;
  blocks = v;
  paired = p;
  named = λ j name e. cc;
  issued = λ j name e. cc;
}

pub initial-IsValid : IsValid initial
initial-IsValid = cleared-IsValid initial.history (record { inputs = tt; outputs = tt }) refl

-- The core after the commands of a transmission.
pub Transmitted-IsValid :
    (a b : App) (sent : Bytes) (len : ℕ)
    → Transmitted a (recorded sent len) b
    → IsValid (core a)
    → IsValid (core b)
Transmitted-IsValid a b sent len t v = subst IsValid (sym (ap core t.4)) (record {
  blocks = record {
    inputs =
        (length-overwrite (replicate {A = ℕ} max_apdu_length 0) (take len sent), v.blocks.inputs);
    outputs = (t.3, v.blocks.outputs);
  };
  counted = v.counted;
  paired = ap suc v.paired;
  named = v.named;
  issued = v.issued;
})

-- A card of the original library, whose handle is that of no remote card.
pub local-IsValid :
    (c : Core) (h_card : ℕ) (reader : Text)
    → find_handle h_card c.remote_readers_map ≡ none
    → IsValid c
    → IsValid (record c { card_reader_map = assign_handle h_card reader c.card_reader_map })
local-IsValid c h_card reader new v = record {
  counted = v.counted;
  blocks = v.blocks;
  paired = v.paired;
  issued = v.issued;
  named = λ h name e.
      find_handle-assign_handle h h_card reader c.card_reader_map
      ∙ elim (Bool-cases (h == h_card)) [
        | inl y ↦
            let same : h ≡ h_card = ground arith in
            let found = subst (λ j. find_handle j c.remote_readers_map ≡ some name) same e in cc
        | inr n ↦ rw n (v.named h name e)
      ];
}

if-some :
    (b : Bool) (v name : Text) (o o' : Option Text)
    → (o ≡ some name → o' ≡ some name)
    → (if b then some v else o) ≡ some name
    → (if b then some v else o') ≡ some name
if-some true v name o o' h e = e
if-some false v name o o' h e = h e

-- A remote card with the next handle.
pub remote-IsValid :
    (c : Core) (reader : Text)
    → IsValid c
    → IsValid (record c {
      next_remote_card_id = c.next_remote_card_id + 1;
      remote_readers_map = assign_handle (c.next_remote_card_id + 1) reader c.remote_readers_map;
      card_reader_map = assign_handle (c.next_remote_card_id + 1) reader c.card_reader_map;
    })
remote-IsValid c reader v = record {
  counted = omega arith;
  blocks = v.blocks;
  paired = v.paired;
  named = λ h name e.
      find_handle-assign_handle h (c.next_remote_card_id + 1) reader c.card_reader_map
      ∙ if-some (h == c.next_remote_card_id + 1) reader name (find_handle h c.remote_readers_map)
          (find_handle h c.card_reader_map) (v.named h name)
          (sym (find_handle-assign_handle h (c.next_remote_card_id + 1) reader c.remote_readers_map)
            ∙ e);
  issued = λ h name e. elim (Bool-cases (h == c.next_remote_card_id + 1)) [
    | inl y ↦
        let newest : h ≡ c.next_remote_card_id + 1 = ground arith in
        (omega (arith, v.counted), omega arith)
    | inr n ↦
        let found =
          find_handle-assign_handle h (c.next_remote_card_id + 1) reader c.remote_readers_map in
        let old : find_handle h c.remote_readers_map ≡ some name = sym (found ∙ rw n refl) ∙ e in
        let bounds = v.issued h name old in (bounds.0, omega (arith, bounds.1))
  ];
}
