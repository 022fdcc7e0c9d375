-- ===== src/Readers/Calls.antt =====
-- Whole calls of `SCardListReaders` without redirection, for an application that supplies the buffer.
use apduplay.Base.{
  All, Bytes, List, Option, Text, [], arith, false, length, none, ok, refl, some, ℕ, ◌++◌, ◌+◌, ◌<◌,
  ◌==◌, ◌∷◌, ◌≡◌, ◌≤◌,
}
use apduplay.Separated.{items_text, req_length}
use apduplay.Separated.RoundTrip.{IsName}
use apduplay.Status.{scard_e_insufficient_buffer, scard_s_success}
use apduplay.App.{App, Outside, dword}
use apduplay.RemoteReaders.{refresh_virtual_readers}
use apduplay.Readers.{failed, finish, reorder, scard_autoallocate, scard_list_readers}
use apduplay.Readers.Supplied.{
  HasReaders, fill-multi_string, req_length-append, supplied-fits, supplied-query, supplied-refused,
}

reorder-off : (first : Text) (b : Bytes) (len : ℕ) → first ≡ [] → reorder first b len ≡ ok b
unfolding reorder
reorder-off [] b len e = refl
reorder-off (c ∷ cs) b len e = cc

module _ (outside : Outside) where
  open outside use {World}

  pub refresh-off :
      (app : App) (w : World)
      → app.remote_config.redirect ≡ false
      → refresh_virtual_readers outside app w ≡ ok (app, w)
  unfolding refresh_virtual_readers
  refresh-off app w off = rw off refl

  pub finish-off :
      (app : App) (w : World) (b block : Bytes) (len : ℕ)
      → app.winscard_config.reader_ordered_first ≡ []
      → finish outside (record {
        app = app;
        world = w;
        status = scard_s_success;
        buffer = some b;
        len = len;
        block = block;
      })
        ≡ ok (record {
          app = app;
          world = w;
          status = scard_s_success;
          buffer = some b;
          len = len;
          block = block;
        })
  unfolding finish
  finish-off app w b block len off =
      rw (reorder-off app.winscard_config.reader_ordered_first b len off) refl

  finish-failed :
      (app : App) (w : World) (b : Option Bytes) (status len : ℕ)
      → (status == scard_s_success) ≡ false
      → finish outside (failed outside app w b status len) ≡ ok (failed outside app w b status len)
  unfolding finish
  finish-failed app w none status len bad = refl
  finish-failed app w (some b) status len bad = rw bad refl

  module _ (app : App) (w asked filled : World) (h_context : ℕ) (groups : Text) (real : List Text)
      (has : HasReaders outside w asked filled h_context groups real) where
    abbrev pub readers : List Text
    readers = real ++ app.winscard_config.list_virtual_readers

    -- Where the original library has the readers `real` and virtual readers are configured, without
    -- redirection and without a preferred reader, a call with a buffer for the names and three characters more
    -- succeeds: the buffer begins with the names of the real and then the virtual readers, each
    -- with a zero, and one more zero, and the length is that of these. Nothing of the state changes.
    pub scard_list_readers-supplied :
        (p : ℕ) (buffer : Bytes) (len : ℕ)
        → app.remote_config.redirect ≡ false
        → app.winscard_config.reader_ordered_first ≡ []
        → 0 < length app.winscard_config.list_virtual_readers
        → All (IsName 0) app.winscard_config.list_virtual_readers
        → req_length readers + 3 ≤ len
        → len < scard_autoallocate
        → len ≤ length buffer
        → (rest : Bytes) × (scard_list_readers outside app w h_context groups p (some buffer) len
            ≡ ok (record {
              app = app;
              world = filled;
              status = scard_s_success;
              buffer = some (items_text 0 readers ++ 0 ∷ rest);
              len = req_length readers + 1;
              block = [];
            }))
    unfolding scard_list_readers
    scard_list_readers-supplied p buffer len local no_first some_virt names room small within =
        let sum : req_length readers
            ≡ req_length real + req_length app.winscard_config.list_virtual_readers =
          req_length-append real app.winscard_config.list_virtual_readers in
        let own : (len == scard_autoallocate) ≡ false = ground arith in
        let result =
          fill-multi_string outside app w asked filled h_context groups real has buffer len
            some_virt names (omega arith) within (omega arith) in
        (
          result.0,
          rw (refresh-off app w local) (
              rw own (
                rw
                  (supplied-fits outside app w asked filled h_context groups real has buffer len
                    (omega arith) (omega arith))
                  (rw result.1 (
                    rw (← sum) (
                      finish-off app filled (items_text 0 readers ++ 0 ∷ result.0) []
                        (req_length readers + 1) no_first))))),
        )

    -- The two calls that an application makes, without redirection: with NULL for the buffer the call succeeds and gives
    -- the length of the real and the virtual names with their zeros; but a call with a buffer of exactly that
    -- length is refused, with SCARD_E_INSUFFICIENT_BUFFER and the same length again.
    pub scard_list_readers-two_calls :
        (p q : ℕ) (again filled' : World) (buffer : Bytes) (len : ℕ)
        → HasReaders outside asked again filled' h_context groups real
        → app.remote_config.redirect ≡ false
        → len < scard_autoallocate
        → req_length readers + 3 < dword
        → (scard_list_readers outside app w h_context groups p none len
            ≡ ok (failed outside app asked none scard_s_success (req_length readers + 1)))
          × (scard_list_readers outside app asked h_context groups q
                (some buffer)
                (req_length readers + 1)
              ≡ ok (
                  failed outside app again
                    (some buffer)
                    scard_e_insufficient_buffer
                    (req_length readers + 1)))
    unfolding scard_list_readers finish
    scard_list_readers-two_calls p q again filled' buffer len has' local len_small small =
        let sum : req_length readers
            ≡ req_length real + req_length app.winscard_config.list_virtual_readers =
          req_length-append real app.winscard_config.list_virtual_readers in
        let total : req_length real + 1 + req_length app.winscard_config.list_virtual_readers
            ≡ req_length readers + 1 =
          omega arith in
        let own : (len == scard_autoallocate) ≡ false = ground arith in
        let own' : (req_length readers + 1 == scard_autoallocate) ≡ false = ground arith in
        (
          rw (refresh-off app w local) (
              rw own (
                rw
                  (supplied-query outside app w asked filled h_context groups real has len
                    (omega arith))
                  (rw total refl))),
          rw (refresh-off app asked local) (
              rw own' (
                rw
                  (supplied-refused outside app asked again filled' h_context groups real has'
                    buffer (req_length readers + 1) (omega arith) (omega arith))
                  (rw total refl))),
        )
