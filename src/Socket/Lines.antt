-- ===== src/Socket/Lines.antt =====
-- What `ReceiveResponse` makes of lines that arrive whole.
use mathlib.Core.Path.{subst}
use apduplay.Base.{
  All, Bytes, List, Text, [], ap, append_assoc, arith, false, length, none, ok, refl, suc, sym,
  true, zero, ℕ, ◌++◌, ◌<◌, ◌==◌, ◌>>=◌, ◌∙◌, ◌∷◌, ◌≡◌, ◌≢◌,
}
use apduplay.Socket.{
  Wire, got, is_last, receive_char, receive_line, receive_response, response_loop,
}
use apduplay.CString.{find}

-- The lines, each with its line end.
abbrev pub joined : List Text → Text
joined [] = []
joined (l ∷ ls) = l ++ b'\n' ∷ joined ls

-- A line that is not the last.
pub record IsInner (end_seq line : Text) : Type 0 where
  pub one_line : All (λ c. c ≢ b'\n') line
  pub not_last : find end_seq (line ++ b'\n' ∷ []) ≡ none

module _ (wire : Wire) (timeout : ℕ) where
  open wire use {World}

  -- The socket gives these characters, one at a time and in time.
  abbrev pub Delivers : World → Text → World → Type 0
  Delivers w [] w' = w ≡ w'
  Delivers w (c ∷ t) w' =
      (w1 : World) × (more : Bytes) × (receive_char wire timeout w ≡ (w1, got c more))
      × Delivers w1 t w'

  Delivers-append :
      (w : World) (s t : Text) (w' : World)
      → Delivers w (s ++ t) w'
      → (m : World) × Delivers w s m × Delivers m t w'
  Delivers-append w [] t w' d = (w, refl, d)
  Delivers-append w (c ∷ s) t w' (w1, more, e, d) =
      let (m, before, after) = Delivers-append w1 s t w' d in (m, (w1, more, e, before), after)

  receive_line-line :
      (line : Text) (fuel : ℕ) (ret : Text) (w w' : World)
      → All (λ c. c ≢ b'\n') line
      → length line < fuel
      → Delivers w (line ++ b'\n' ∷ []) w'
      → receive_line wire fuel timeout ret w ≡ ok (w', ret ++ (line ++ b'\n' ∷ []))
  unfolding receive_line
  receive_line-line line zero ret w w' h k d = absurd (omega arith)
  receive_line-line [] (suc fuel) ret w w' h k (w1, more, e, d) =
      rw (e, receive_line) (rw (e, d) refl)
  receive_line-line (c ∷ line) (suc fuel) ret w w' h k (w1, more, e, d) =
      let goes_on : (c == b'\n') ≡ false = ground (arith, h.0) in
      rw (e, receive_line)
        (rw (goes_on, e)
          (receive_line-line line fuel (ret ++ c ∷ []) w1 w' h.1 (omega arith) d
            ∙ ap (λ x. ok (w', x)) (append_assoc ret (c ∷ []) (line ++ b'\n' ∷ []))))

  is_last-inner :
      (end_seq line : Text)
      → find end_seq (line ++ b'\n' ∷ []) ≡ none
      → is_last wire end_seq (line ++ b'\n' ∷ []) ≡ false
  unfolding is_last
  is_last-inner end_seq [] e = rw (e, is_last) refl
  is_last-inner end_seq (c ∷ line) e = rw (e, is_last) refl

  -- One line more, and the text in front of it.
  regroup :
      (ret line rest : Text)
      → (ret ++ (line ++ b'\n' ∷ [])) ++ rest ≡ ret ++ ((line ++ b'\n' ∷ []) ++ rest)
  regroup ret line rest = append_assoc ret (line ++ b'\n' ∷ []) rest

  loop-lines :
      (lines : List Text) (rounds fuel : ℕ) (end_seq last ret : Text) (w m w' : World)
      → All (IsInner end_seq) lines
      → All (λ c. c ≢ b'\n') last
      → is_last wire end_seq (last ++ b'\n' ∷ []) ≡ true
      → All (λ l. length l < fuel) lines
      → length last < fuel
      → length lines < rounds
      → Delivers w (joined lines) m
      → Delivers m (last ++ b'\n' ∷ []) w'
      → (receive_line wire fuel timeout [] w >>= λ (w1, line1).
          response_loop wire rounds fuel end_seq timeout ret line1 w1)
        ≡ ok (w', ret ++ (joined lines ++ (last ++ b'\n' ∷ [])))
  unfolding response_loop
  loop-lines lines zero fuel end_seq last ret w m w' h hl l k kl r d dl = absurd (omega arith)
  loop-lines [] (suc rounds) fuel end_seq last ret w m w' h hl l k kl r d dl =
      rw (receive_line-line last fuel [] w w' hl kl (rw d dl)) (rw (l, response_loop) refl)
  loop-lines (x ∷ lines) (suc rounds) fuel end_seq last ret w m w' h hl l k kl r d dl =
      let shifted : x ++ b'\n' ∷ joined lines ≡ (x ++ b'\n' ∷ []) ++ joined lines =
        sym (append_assoc x (b'\n' ∷ []) (joined lines)) in
      let (m1, first, rest) =
        Delivers-append w (x ++ b'\n' ∷ []) (joined lines) m
          (subst (λ t. Delivers w t m) shifted d) in
      rw (receive_line-line x fuel [] w m1 h.0.one_line k.0 first) (
        rw (is_last-inner end_seq x h.0.not_last, response_loop)
          (loop-lines lines rounds fuel end_seq last (ret ++ (x ++ b'\n' ∷ [])) m1 m w' h.1 hl l k.1
              kl (omega arith) rest dl
            ∙ ap (λ t. ok (w', t))
                (regroup ret x (joined lines ++ (last ++ b'\n' ∷ []))
                  ∙ ap (λ t. ret ++ t)
                      (sym (append_assoc (x ++ b'\n' ∷ []) (joined lines) (last ++ b'\n' ∷ []))
                        ∙ ap (λ t. t ++ (last ++ b'\n' ∷ [])) (sym shifted)))))

  -- Where lines arrive whole and in time, the first ones without the end sequence and one with it,
  -- ReceiveResponse gives exactly these lines, and takes no character behind them from the socket.
  pub receive_response-lines :
      (lines : List Text) (fuel : ℕ) (end_seq last : Text) (w m w' : World)
      → All (IsInner end_seq) lines
      → All (λ c. c ≢ b'\n') last
      → is_last wire end_seq (last ++ b'\n' ∷ []) ≡ true
      → All (λ l. length l < fuel) lines
      → length last < fuel
      → length lines < fuel
      → Delivers w (joined lines) m
      → Delivers m (last ++ b'\n' ∷ []) w'
      → receive_response wire fuel end_seq timeout w ≡ ok (w', joined lines ++ (last ++ b'\n' ∷ []))
  unfolding receive_response
  receive_response-lines lines fuel end_seq last w m w' h hl l k kl r d dl =
      loop-lines lines fuel fuel end_seq last [] w m w' h hl l k kl r d dl
