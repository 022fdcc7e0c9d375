-- ===== src/Memory/Destructor.antt =====
-- The destructor of `CWinscardApp` (Winscard/Winscard.cpp): the socket and the blocks that are left.
use apduplay.Base.{List, Outcome, [], dangling, fault, if◌then◌else◌, ok, ℕ, ◌==◌, ◌>>=◌, ◌∷◌}
use apduplay.App.{App, Outside, SocketPtr, deleted, live, null, shut}
use apduplay.Memory.{delete_block}

-- The loop over a list of allocations; entries that are NULL are passed over.
unfoldable pub delete_each : List ℕ → List ℕ → Outcome (List ℕ)
delete_each [] heap = ok heap
delete_each (p ∷ ps) heap =
    (if p == 0 then ok heap else delete_block p heap) >>= λ heap'. delete_each ps heap'

module _ (outside : Outside) where
  open outside use {World, close_socket}

  -- `if (pSocket != NULL) delete pSocket;`
  unfoldable pub delete_socket : SocketPtr → World → Outcome (SocketPtr × World)
  delete_socket null w = ok (null, w)
  delete_socket live w = ok (deleted, close_socket w)
  delete_socket shut w = ok (deleted, close_socket w)
  delete_socket deleted w = fault dangling

  -- `~CWinscardApp`, on a heap of allocated blocks, without the calls that give back the dictionary and the
  -- original library.
  unfoldable pub destruct : App → World → List ℕ → Outcome (App × World × List ℕ)
  destruct app w heap = delete_socket app.remote_config.socket w >>= λ (s, w').
      delete_each app.char_allocated_memory_list heap >>= λ heap1.
      delete_each app.wchar_allocated_memory_list heap1 >>= λ heap2. ok (
        record app {
          remote_config = record (app.remote_config) { socket = s };
          char_allocated_memory_list = [];
          wchar_allocated_memory_list = [];
        },
        w',
        heap2,
      )
