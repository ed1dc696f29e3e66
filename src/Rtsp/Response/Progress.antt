-- ===== src/Rtsp/Response/Progress.antt =====
-- `ResponseParser::add` and the loops of the client in src/net/rtsp/mod.rs: every round uses up bytes
-- until the response is complete, so that they come to a result.
use mathlib.Core.Path.{subst}
use arrow_client.Base.{
  ℕ, zero, suc, ◌+◌, ◌≤◌, ◌<◌, ◌≡◌, refl, sym, ap, ◌∙◌, Bool, true, false, not, List, [], ◌∷◌,
  Option, is_some, length, drop, arith, Bool-cases, inl, inr, length-drop, ◌==◌, min,
}
use arrow_client.Base.Parsing.{Parsing, ok, ◌>>=◌, Ends, ok_ends, bind-Ends}
use arrow_client.Http.Fields.{Outside}
use arrow_client.Http.LineReader.Laws.{IsReading}
use arrow_client.Rtsp.Client.{feed}
use arrow_client.Rtsp.Header.{StatusLine}
use arrow_client.Rtsp.Response.{
  ResponseParser, is_complete, process_header_data, add_round, add_loop, add,
}
use arrow_client.Rtsp.Response.Body.{process_body_data_lem, taken}
use arrow_client.Rtsp.Response.Total.{Refuses, Advances, further, header_loop-Ends}

module _ (o : Outside) (status_captures : List ℕ → Option StatusLine)
    (usize_from_str : List ℕ → Option ℕ) where
  abbrev pub Refused : Type 0
  Refused = Refuses o status_captures usize_from_str

  abbrev IsFurther : Bool → ℕ → List ℕ → ResponseParser × ℕ → Type 0
  IsFurther = Advances o status_captures usize_from_str

  add_round-Ends :
      (b : ℕ) (bs : List ℕ) (p : ResponseParser)
      → is_complete p ≡ false
      → IsReading p.line_reader
      → Ends Refused
          (IsFurther true 0 (b ∷ bs))
          (add_round o status_captures usize_from_str (b ∷ bs) p)
  unfolding add_round process_header_data
  add_round-Ends b bs p e w = elim (Bool-cases (is_some p.header)) [
    | inl there ↦
        let expects : (p.expected == 0) ≡ false = ground (arith, there, e) in
        let eq : add_round o status_captures usize_from_str (b ∷ bs) p
            ≡ ok (taken (b ∷ bs) p, min p.expected (length (b ∷ bs))) =
          simp there refl ∙ process_body_data_lem (b ∷ bs) p there in
        subst (Ends Refused (IsFurther true 0 (b ∷ bs))) (sym eq)
          (ok_ends _ (w, omega arith, omega arith, λ wants some'. ground (arith, expects)))
    | inr none_yet ↦
        let eq : add_round o status_captures usize_from_str (b ∷ bs) p
            ≡ process_header_data o status_captures usize_from_str (b ∷ bs) p =
          simp none_yet refl in
        subst (Ends Refused (IsFurther true 0 (b ∷ bs))) (sym eq) (
          subst
            (λ wants.
              Ends Refused (IsFurther wants 0 (b ∷ bs))
                (process_header_data o status_captures usize_from_str (b ∷ bs) p))
            (ap not none_yet)
            (header_loop-Ends o status_captures usize_from_str (length (b ∷ bs)) (b ∷ bs) 0 p
              (omega arith) w))
  ]

  -- What the loop does with the result of a round
  abbrev add_step : ℕ → List ℕ → ℕ → ResponseParser × ℕ → Parsing (ResponseParser × ℕ)
  add_step n bytes pos (p, used) =
      add_loop o status_captures usize_from_str n (drop used bytes) (pos + used) p

  add_loop_round :
      (n b : ℕ) (bs : List ℕ) (pos : ℕ) (p : ResponseParser)
      → is_complete p ≡ false
      → add_loop o status_captures usize_from_str (suc n) (b ∷ bs) pos p
        ≡ (add_round o status_captures usize_from_str (b ∷ bs) p >>= add_step n (b ∷ bs) pos)
  unfolding add_loop
  add_loop_round n b bs pos p e = rw (e, add_loop) refl

  add_loop_done :
      (n b : ℕ) (bs : List ℕ) (pos : ℕ) (p : ResponseParser)
      → is_complete p ≡ true
      → add_loop o status_captures usize_from_str (suc n) (b ∷ bs) pos p ≡ ok (p, pos)
  unfolding add_loop
  add_loop_done n b bs pos p e = rw (e, add_loop) refl

  -- `ResponseParser::add` comes to a result, and uses up some bytes unless its response is complete.
  add_loop-Ends :
      (n : ℕ) (bytes : List ℕ) (pos : ℕ) (p : ResponseParser)
      → length bytes ≤ n
      → IsReading p.line_reader
      → Ends Refused
          (IsFurther (not (is_complete p)) pos bytes)
          (add_loop o status_captures usize_from_str n bytes pos p)
  unfolding add_loop
  add_loop-Ends zero [] pos p h w = ok_ends _ (w, omega arith, omega arith, λ a b. omega arith)
  add_loop-Ends (suc n) [] pos p h w = ok_ends _ (w, omega arith, omega arith, λ a b. omega arith)
  add_loop-Ends zero (b ∷ bs) pos p h w = absurd (omega arith)
  add_loop-Ends (suc n) (b ∷ bs) pos p h w = elim (Bool-cases (is_complete p)) [
    | inl whole ↦
        subst (Ends Refused (IsFurther (not (is_complete p)) pos (b ∷ bs)))
          (sym (add_loop_done n b bs pos p whole))
          (ok_ends _ (
            w,
            omega arith,
            omega arith,
            λ wants some'. (let both = sym (ap not whole) ∙ wants in absurd (ground (arith, both))),
          ))
    | inr part ↦
        subst (Ends Refused (IsFurther (not (is_complete p)) pos (b ∷ bs)))
          (sym (add_loop_round n b bs pos p part))
          (bind-Ends {Q = IsFurther true 0 (b ∷ bs)}
            (add_round o status_captures usize_from_str (b ∷ bs) p) (add_step n (b ∷ bs) pos)
            (add_round-Ends b bs p part w)
            (λ a (v, low, high, some').
              (let used : 0 < a.1 = some' refl (omega arith) in
                let shorter = length-drop a.1 (b ∷ bs) in
                further o status_captures usize_from_str (not (is_complete p))
                  (not (is_complete a.0)) pos a.1 (b ∷ bs) _ used (omega arith)
                  (add_loop-Ends n (drop a.1 (b ∷ bs)) (pos + a.1) a.0 (omega arith) v))))
  ]

  -- The client's inner loop
  pub feed-Ends :
      (n : ℕ) (bytes : List ℕ) (p : ResponseParser)
      → length bytes ≤ n
      → IsReading p.line_reader
      → Ends Refused
          (λ (t : ResponseParser × List ℕ). IsReading t.0.line_reader)
          (feed o status_captures usize_from_str n bytes p)
  unfolding feed add
  feed-Ends zero [] p h w = ok_ends _ w
  feed-Ends (suc n) [] p h w = ok_ends _ w
  feed-Ends zero (b ∷ bs) p h w = absurd (omega arith)
  feed-Ends (suc n) (b ∷ bs) p h w = elim (Bool-cases (is_complete p)) [
    | inl whole ↦
        let eq : feed o status_captures usize_from_str (suc n) (b ∷ bs) p ≡ ok (p, b ∷ bs) =
          rw (whole, feed) refl in
        subst (Ends Refused _) (sym eq) (ok_ends _ w)
    | inr part ↦
        let eq : feed o status_captures usize_from_str (suc n) (b ∷ bs) p ≡ (
            add o status_captures usize_from_str (b ∷ bs) p >>= λ ((q, used) : ResponseParser × ℕ).
            feed o status_captures usize_from_str n (drop used (b ∷ bs)) q) =
          rw (part, feed) refl in
        subst (Ends Refused _) (sym eq) (
          bind-Ends {Q = IsFurther (not (is_complete p)) 0 (b ∷ bs)}
            (add o status_captures usize_from_str (b ∷ bs) p) _
            (add_loop-Ends (length (b ∷ bs)) (b ∷ bs) 0 p (omega arith) w)
            (λ a (v, low, high, some').
              (let used : 0 < a.1 = some' (ap not part) (omega arith) in
                let shorter = length-drop a.1 (b ∷ bs) in
                feed-Ends n (drop a.1 (b ∷ bs)) a.0 (omega arith) v)))
  ]
