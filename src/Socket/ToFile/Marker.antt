-- ===== src/Socket/ToFile/Marker.antt =====
-- Where `ReceiveLineToFile` finds the end of the data.
use apduplay.Base.{
  All, Bytes, Outcome, [], ap, append-nil, append_assoc, arith, false, length, ok, pos, refl, some,
  suc, sym, true, zero, ℕ, ◌++◌, ◌+◌, ◌<◌, ◌==◌, ◌∙◌, ◌∷◌, ◌≡◌, ◌≢◌,
}
use apduplay.Socket.ToFile.{
  Filed, after_marker, end_step, file_loop, final_status, receive_line_to_file, value_line,
}
use apduplay.Socket.{Wire, closed, got, recvtimeout}

-- The lines of the values.
abbrev pub value_lines : Bytes → Bytes
value_lines [] = []
value_lines (c ∷ cs) = value_line c ++ value_lines cs

no_marker : (c : ℕ) → c ≢ 0x88 → end_step 0 c ≡ 0
unfolding end_step
no_marker c h = ground (arith, h)

module _ (wire : Wire) (timeout : ℕ) where
  open wire use {World}

  -- The socket gives these bytes, one at a time and in time.
  abbrev pub Gives : World → Bytes → World → Type 0
  Gives w [] w' = w ≡ w'
  Gives w (c ∷ cs) w' =
      (w1 : World) × (more : Bytes) × (recvtimeout wire w 1 timeout ≡ (w1, got c more))
      × Gives w1 cs w'

  -- One value.
  file_loop-value :
      (fuel : ℕ) (file : Bytes) (written state : ℕ) (w w1 : World) (c : ℕ) (more : Bytes)
      → recvtimeout wire w 1 timeout ≡ (w1, got c more)
      → (end_step state c == 4) ≡ false
      → file_loop wire (suc fuel) timeout file written state w
        ≡ file_loop wire fuel timeout (file ++ value_line c) (written + 1) (end_step state c) w1
  unfolding file_loop
  file_loop-value fuel file written state w w1 c more e n = rw (e, file_loop) (rw (n, e) refl)

  -- The last byte of the marker, and the byte behind it.
  file_loop-last :
      (fuel : ℕ) (file : Bytes) (written state : ℕ) (w w1 w2 : World) (c d : ℕ) (more more2 : Bytes)
      → recvtimeout wire w 1 timeout ≡ (w1, got c more)
      → (end_step state c == 4) ≡ true
      → recvtimeout wire w1 1 timeout ≡ (w2, got d more2)
      → file_loop wire (suc fuel) timeout file written state w
        ≡ ok (record { world = w2; file = some file; written = written; status = pos 0 })
  unfolding file_loop after_marker final_status
  file_loop-last fuel file written state w w1 w2 c d more more2 e y e2 =
      rw (e, file_loop) (rw (y, e, e2) refl)

  abbrev filed : World → Bytes → ℕ → Outcome (Filed wire)
  filed w file written =
      ok (record { world = w; file = some file; written = written; status = pos 0 })

  filed-same : (w : World) (a b : Bytes) (m n : ℕ) → a ≡ b → m ≡ n → filed w a m ≡ filed w b n
  filed-same w a b m n e k = ap (λ x. filed w x m) e ∙ ap (λ x. filed w b x) k

  -- The marker, and the byte behind it.
  file_loop-marker :
      (fuel : ℕ) (file : Bytes) (written : ℕ) (w w' : World) (c : ℕ)
      → Gives w (0x88 ∷ 0x77 ∷ 0x66 ∷ 0x55 ∷ c ∷ []) w'
      → file_loop wire (suc (suc (suc (suc fuel)))) timeout file written 0 w
        ≡ filed w' (file ++ value_lines (0x88 ∷ 0x77 ∷ 0x66 ∷ [])) (written + 3)
  unfolding end_step
  file_loop-marker fuel file written w w' c
        (w1, m1, e1, (w2, m2, e2, (w3, m3, e3, (w4, m4, e4, (w5, m5, e5, d))))) =
      let f1 = file ++ value_line 0x88 in
      let f2 = f1 ++ value_line 0x77 in
      let f3 = f2 ++ value_line 0x66 in
      let whole : f3 ≡ file ++ value_lines (0x88 ∷ 0x77 ∷ 0x66 ∷ []) =
        append_assoc f1 (value_line 0x77) (value_line 0x66)
        ∙ append_assoc file (value_line 0x88) (value_line 0x77 ++ value_line 0x66)
        ∙ ap (λ t. file ++ (value_line 0x88 ++ (value_line 0x77 ++ t)))
            (sym (append-nil (value_line 0x66))) in
      file_loop-value (suc (suc (suc fuel))) file written 0 w w1 0x88 m1 e1 refl
      ∙ file_loop-value (suc (suc fuel)) f1 (written + 1) 1 w1 w2 0x77 m2 e2 refl
      ∙ file_loop-value (suc fuel) f2 (written + 1 + 1) 2 w2 w3 0x66 m3 e3 refl
      ∙ file_loop-last fuel f3 (written + 1 + 1 + 1) 3 w3 w4 w5 0x55 c m4 m5 e4 refl e5
      ∙ rw d (
          filed-same w' f3 (file ++ value_lines (0x88 ∷ 0x77 ∷ 0x66 ∷ [])) (written + 1 + 1 + 1)
            (written + 3) whole (omega arith))

  -- From a state in which no byte of the marker was seen: the data, the marker and the byte behind it.
  file_loop-marked :
      (measured : Bytes) (fuel : ℕ) (file : Bytes) (written : ℕ) (w m w' : World) (c : ℕ)
      → All (λ d. d ≢ 0x88) measured
      → length measured + 3 < fuel
      → Gives w measured m
      → Gives m (0x88 ∷ 0x77 ∷ 0x66 ∷ 0x55 ∷ c ∷ []) w'
      → file_loop wire fuel timeout file written 0 w
        ≡ filed w'
            (file ++ value_lines (measured ++ 0x88 ∷ 0x77 ∷ 0x66 ∷ []))
            (written + (length measured + 3))
  file_loop-marked [] (suc (suc (suc (suc fuel)))) file written w m w' c h k d g =
      rw d (file_loop-marker fuel file written m w' c g)
  file_loop-marked (x ∷ xs) (suc fuel) file written w m w' c h k (w1, more, e, d) g =
      let rest = value_lines (xs ++ 0x88 ∷ 0x77 ∷ 0x66 ∷ []) in
      let stays = no_marker x h.0 in
      file_loop-value fuel file written 0 w w1 x more e (rw stays refl)
      ∙ rw stays (
          file_loop-marked xs fuel (file ++ value_line x) (written + 1) w1 m w' c h.1 (omega arith)
            d g
          ∙ filed-same w' ((file ++ value_line x) ++ rest) (file ++ (value_line x ++ rest))
              (written + 1 + (length xs + 3)) (written + (length (x ∷ xs) + 3))
              (append_assoc file (value_line x) rest) (omega arith))
  file_loop-marked [] zero file written w m w' c h k d g = absurd (omega arith)
  file_loop-marked [] (suc zero) file written w m w' c h k d g = absurd (omega arith)
  file_loop-marked [] (suc (suc zero)) file written w m w' c h k d g = absurd (omega arith)
  file_loop-marked [] (suc (suc (suc zero))) file written w m w' c h k d g = absurd (omega arith)
  file_loop-marked (x ∷ xs) zero file written w m w' c h k d g = absurd (omega arith)

  -- Where a socket gives measured bytes, none of them 88, then the marker 88 77 66 55 and one byte more,
  -- ReceiveLineToFile puts a line for each of the measured bytes behind the file, and lines for 88, 77 and
  -- 66 too; it counts these three as values, takes nothing else from the socket, and returns 0.
  pub receive_line_to_file-marker :
      (measured : Bytes) (fuel : ℕ) (file : Bytes) (w m w' : World) (c : ℕ)
      → All (λ d. d ≢ 0x88) measured
      → length measured + 3 < fuel
      → Gives w measured m
      → Gives m (0x88 ∷ 0x77 ∷ 0x66 ∷ 0x55 ∷ c ∷ []) w'
      → receive_line_to_file wire fuel (some file) timeout w
        ≡ ok (record {
          world = w';
          file = some (file ++ value_lines (measured ++ 0x88 ∷ 0x77 ∷ 0x66 ∷ []));
          written = length measured + 3;
          status = pos 0;
        })
  unfolding receive_line_to_file
  receive_line_to_file-marker measured fuel file w m w' c h k d g =
      file_loop-marked measured fuel file 0 w m w' c h k d g
      ∙ filed-same w' (file ++ value_lines (measured ++ 0x88 ∷ 0x77 ∷ 0x66 ∷ []))
          (file ++ value_lines (measured ++ 0x88 ∷ 0x77 ∷ 0x66 ∷ [])) (0 + (length measured + 3))
          (length measured + 3) refl (omega arith)

  file_loop-closed :
      (fuel : ℕ) (file : Bytes) (written state : ℕ) (w w1 : World)
      → recvtimeout wire w 1 timeout ≡ (w1, closed)
      → file_loop wire (suc fuel) timeout file written state w ≡ filed w1 file written
  unfolding file_loop final_status
  file_loop-closed fuel file written state w w1 e = rw (e, file_loop) (rw e refl)

  -- A marker behind a measured byte 88 is missed: where the socket gives 88, then the marker
  -- 88 77 66 55, and then the end of the connection, ReceiveLineToFile writes all five bytes as
  -- values, and returns 0 only for the end of the connection.
  pub receive_line_to_file-missed :
      (fuel : ℕ) (file : Bytes) (w w' end : World)
      → Gives w (0x88 ∷ 0x88 ∷ 0x77 ∷ 0x66 ∷ 0x55 ∷ []) w'
      → recvtimeout wire w' 1 timeout ≡ (end, closed)
      → receive_line_to_file wire (suc (suc (suc (suc (suc (suc fuel)))))) (some file) timeout w
        ≡ ok (record {
          world = end;
          file = some (file ++ value_lines (0x88 ∷ 0x88 ∷ 0x77 ∷ 0x66 ∷ 0x55 ∷ []));
          written = 5;
          status = pos 0;
        })
  unfolding receive_line_to_file end_step
  receive_line_to_file-missed fuel file w w' end
        (w1, m1, e1, (w2, m2, e2, (w3, m3, e3, (w4, m4, e4, (w5, m5, e5, d))))) over =
      let f1 = file ++ value_line 0x88 in
      let f2 = f1 ++ value_line 0x88 in
      let f3 = f2 ++ value_line 0x77 in
      let f4 = f3 ++ value_line 0x66 in
      let whole : f4 ++ value_line 0x55
          ≡ file ++ value_lines (0x88 ∷ 0x88 ∷ 0x77 ∷ 0x66 ∷ 0x55 ∷ []) =
        simp (append_assoc, append-nil) in
      file_loop-value (suc (suc (suc (suc (suc fuel))))) file 0 0 w w1 0x88 m1 e1 refl
      ∙ file_loop-value (suc (suc (suc (suc fuel)))) f1 1 1 w1 w2 0x88 m2 e2 refl
      ∙ file_loop-value (suc (suc (suc fuel))) f2 2 0 w2 w3 0x77 m3 e3 refl
      ∙ file_loop-value (suc (suc fuel)) f3 3 0 w3 w4 0x66 m4 e4 refl
      ∙ file_loop-value (suc fuel) f4 4 0 w4 w5 0x55 m5 e5 refl
      ∙ file_loop-closed fuel (f4 ++ value_line 0x55) 5 0 w5 end (rw d over)
      ∙ filed-same end (f4 ++ value_line 0x55)
          (file ++ value_lines (0x88 ∷ 0x88 ∷ 0x77 ∷ 0x66 ∷ 0x55 ∷ [])) 5 5 whole refl
