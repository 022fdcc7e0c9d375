-- ===== src/Socket/Finite.antt =====
-- `ReceiveResponse` comes to an end where the other side sends a finite number of characters.
use apduplay.Base.{
  Bool-cases, Bytes, Text, [], ap, arith, inl, inr, length, length-append, ok, refl, suc, zero, ℕ,
  ◌++◌, ◌+◌, ◌<◌, ◌==◌, ◌∷◌, ◌≡◌, ◌≤◌, ◌⊎◌,
}
use apduplay.Socket.{
  Arrival, Wire, again, closed, failed, got, is_last, receive_char, receive_line, receive_response,
  response_loop, timed_out,
}

-- A number that bounds the characters that are still to come: each that is received takes one of them
-- away, and no call adds any.
pub record IsFinite (wire : Wire) (timeout : ℕ) (supply : wire.World → ℕ) : Type 0 where
  pub taken :
      (w w1 : wire.World) (c : ℕ) (more : Bytes)
      → receive_char wire timeout w ≡ (w1, got c more)
      → supply w1 < supply w
  pub kept : (w : wire.World) → supply (receive_char wire timeout w).0 ≤ supply w

module _ (wire : Wire) (timeout : ℕ) (supply : wire.World → ℕ) where
  open wire use {World}

  -- A line that was read out of the supply.
  abbrev Drawn : World → Text → World × Text → Type 0
  Drawn w ret r =
      (supply r.0 ≤ supply w) × ((r.1 ≡ []) ⊎ (supply r.0 + length r.1 ≤ supply w + length ret))

  line-Drawn :
      (fuel : ℕ) (ret : Text) (w w1 : World) (a : Arrival)
      → ((c : ℕ) (more : Bytes) → a ≡ got c more → supply w1 < supply w)
      → supply w1 ≤ supply w
      → receive_char wire timeout w ≡ (w1, a)
      → ((c : ℕ)
          → supply w1 < supply w
          → (r : World × Text) × (receive_line wire fuel timeout (ret ++ c ∷ []) w1 ≡ ok r)
            × Drawn w1 (ret ++ c ∷ []) r)
      → (r : World × Text) × (receive_line wire (suc fuel) timeout ret w ≡ ok r) × Drawn w ret r
  unfolding receive_line
  line-Drawn fuel ret w w1 closed t k e ih =
      ((w1, []), rw (e, receive_line) (rw e refl), (k, inl refl))
  line-Drawn fuel ret w w1 failed t k e ih =
      ((w1, []), rw (e, receive_line) (rw e refl), (k, inl refl))
  line-Drawn fuel ret w w1 again t k e ih =
      ((w1, ret), rw (e, receive_line) (rw e refl), (k, inr (omega arith)))
  line-Drawn fuel ret w w1 timed_out t k e ih =
      ((w1, ret), rw (e, receive_line) (rw e refl), (k, inr (omega arith)))
  line-Drawn fuel ret w w1 (got c more) t k e ih =
      let less = t c more refl in
      let longer : length (ret ++ c ∷ []) ≡ length ret + 1 = length-append ret (c ∷ []) in
      elim (Bool-cases (c == b'\n')) [
        | inl y ↦
            ((w1, ret ++ c ∷ []), rw (e, receive_line) (rw (y, e) refl), (k, inr (omega arith)))
        | inr n ↦
            let (r, eq, (below, rest)) = ih c less in
            (
              r,
              rw (e, receive_line) (rw (n, e) eq),
              (omega arith, elim rest [ inl empty ↦ inl empty | inr drawn ↦ inr (omega arith) ]),
            )
      ]

  receive_line-Drawn :
      (fuel : ℕ) (ret : Text) (w : World)
      → IsFinite wire timeout supply
      → supply w < fuel
      → (r : World × Text) × (receive_line wire fuel timeout ret w ≡ ok r) × Drawn w ret r
  receive_line-Drawn zero ret w f k = absurd (omega arith)
  receive_line-Drawn (suc fuel) ret w f k =
      let (w1, a) = receive_char wire timeout w in
      line-Drawn fuel ret w w1 a (λ c more e. f.taken w w1 c more (ap (λ x. (w1, x)) e)) (f.kept w)
        refl (λ c less. receive_line-Drawn fuel (ret ++ c ∷ []) w1 f (omega arith))

  loop-empty :
      (rounds fuel : ℕ) (end_seq ret line : Text) (w : World)
      → 0 < rounds
      → line ≡ []
      → response_loop wire rounds fuel end_seq timeout ret line w ≡ ok (w, ret ++ line)
  unfolding response_loop
  loop-empty zero fuel end_seq ret line w k e = absurd (omega arith)
  loop-empty (suc rounds) fuel end_seq ret [] w k e = refl
  loop-empty (suc rounds) fuel end_seq ret (c ∷ line) w k e = cc

  -- A line that was drawn is empty, or it took something away.
  empty_or_less :
      (w : World) (r : World × Text) → Drawn w [] r → (r.1 ≡ []) ⊎ (supply r.0 < supply w)
  empty_or_less w (w1, []) d = inl refl
  empty_or_less w (w1, c ∷ line) (below, inl e) = absurd cc
  empty_or_less w (w1, c ∷ line) (below, inr more) = inr (omega arith)

  loop-ends :
      (rounds fuel : ℕ) (end_seq ret line : Text) (w : World)
      → IsFinite wire timeout supply
      → supply w + 1 < rounds
      → supply w < fuel
      → (r : World × Text) × (response_loop wire rounds fuel end_seq timeout ret line w ≡ ok r)
  unfolding response_loop
  loop-ends zero fuel end_seq ret line w f k kl = absurd (omega arith)
  loop-ends (suc rounds) fuel end_seq ret line w f k kl =
      elim (Bool-cases (is_last wire end_seq line)) [
        | inl y ↦ ((w, ret ++ line), rw (y, response_loop) refl)
        | inr n ↦
            let (l, eq, drawn) = receive_line-Drawn fuel [] w f kl in
            let (r, ended) : (r : World × Text) × (response_loop wire rounds fuel end_seq timeout
                    (ret ++ line) l.1 l.0
                  ≡ ok r) =
              elim (empty_or_less w l drawn) [
                | inl e ↦ (
                  (l.0, (ret ++ line) ++ l.1),
                  loop-empty rounds fuel end_seq (ret ++ line) l.1 l.0 (omega arith) e,
                )
                | inr less ↦
                    loop-ends rounds fuel end_seq (ret ++ line) l.1 l.0 f (omega arith)
                      (omega arith)
              ] in
            (r, rw (n, response_loop) (rw eq ended))
      ]

  -- Where the other side sends a finite number of characters, so that no more than `supply w` of them
  -- are still to come, ReceiveResponse returns: two rounds more than that are enough, whatever the end sequence
  -- is and whether the connection is closed, fails or falls silent.
  pub receive_response-ends :
      (fuel : ℕ) (end_seq : Text) (w : World)
      → IsFinite wire timeout supply
      → supply w + 1 < fuel
      → (r : World × Text) × (receive_response wire fuel end_seq timeout w ≡ ok r)
  unfolding receive_response
  receive_response-ends fuel end_seq w f k =
      let (l, eq, (below, drawn)) = receive_line-Drawn fuel [] w f (omega arith) in
      let (r, ended) = loop-ends fuel fuel end_seq [] l.1 l.0 f (omega arith) (omega arith) in
      (r, rw eq ended)
