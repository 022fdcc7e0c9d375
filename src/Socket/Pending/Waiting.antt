-- ===== src/Socket/Pending/Waiting.antt =====
-- That `ReceiveBytes` gives all that waits.
use apduplay.Base.{
  Option, Text, [], ap, append-nil, append_assoc, arith, false, length, length-append, ok, some,
  suc, sym, zero, ℕ, ◌++◌, ◌<◌, ◌==◌, ◌∙◌, ◌∷◌, ◌≡◌,
}
use apduplay.Socket.Pending.{block_size, receive_bytes}
use apduplay.Socket.{Wire, got}

module _ (wire : Wire) (pending : wire.World → wire.World × Option ℕ) where
  open wire use {World, recv}

  -- The characters that wait at the socket, in the blocks that `recv` gives, until none is left.
  pub data Waits : World → Text → World → Type 0 where
    empty : (w w' : World) → pending w ≡ (w', some 0) → Waits w [] w'
    block :
        (w w1 w2 w' : World) (n c : ℕ) (cs t : Text)
        → pending w ≡ (w1, some n)
        → (n == 0) ≡ false
        → recv w1 (block_size wire pending n) ≡ (w2, got c cs)
        → Waits w2 t w'
        → Waits w (c ∷ cs ++ t) w'

  -- The characters that wait come behind those so far, in their order, whatever the blocks are; one round
  -- more than there are characters is enough.
  pub receive_bytes-Waits :
      (fuel : ℕ) (ret : Text) {w w' : World} {t : Text}
      → Waits w t w'
      → length t < fuel
      → receive_bytes wire pending fuel ret w ≡ ok (w', ret ++ t)
  unfolding receive_bytes
  receive_bytes-Waits zero ret waits enough = absurd (omega arith)
  receive_bytes-Waits (suc fuel) ret (empty w w' e) enough =
      rw (e, receive_bytes) (rw e (ap (λ t. ok (w', t)) (sym (append-nil ret))))
  receive_bytes-Waits (suc fuel) ret (block w w1 w2 w' n c cs t e some_left r rest) enough =
      let later : length t < fuel = omega (arith, length-append cs t) in
      rw (e, receive_bytes)
        (rw some_left (
          rw e (
            rw r (
              rw e (
                rw r (
                  receive_bytes-Waits fuel (ret ++ c ∷ cs) rest later
                  ∙ ap (λ u. ok (w', u)) (append_assoc ret (c ∷ cs) t)))))))
