-- ===== src/Http/Response/Loop.antt =====
-- The loop of `ResponseParser::add` of src/net/http.rs: its rounds, and the fuel that it takes.
use mathlib.Core.Path.{subst}
use arrow_client.Base.{
  ℕ, zero, suc, ◌≤◌, ◌<◌, ◌≡◌, refl, sym, ap, ◌∙◌, Bool, true, false, Option, List, [], ◌∷◌, ◌++◌,
  length, drop, length-drop, if◌then◌else◌, arith, Bool-cases, ◌⊎◌, inl, inr,
}
use arrow_client.Base.Parsing.{Parsing, ok, err, panic, out_of_fuel, ◌>>=◌, bind_eq, ok_inj}
use arrow_client.Http.Fields.{Outside}
use arrow_client.Http.Header.{StatusLine}
use arrow_client.Http.LineReader
use arrow_client.Http.LineReader.{LineReader}
use arrow_client.Http.LineReader.Chunks.{IsSound, add_progress}
use arrow_client.Http.LineReader.Laws.{IsReading, clear-IsReading}
use arrow_client.Http.Response.{
  ResponseHandler, ResponseParser, process_header, process_header_line, after_line, clear_to_go_on,
  process_body, add_loop,
}

-- A handler that does not see the cuts between the chunks of a body
pub record IsIncremental {S : Type 0} (handler : ResponseHandler S) : Type 0 where
  pub body_append :
      (xs ys : List ℕ) (s : S)
      → handler.body (xs ++ ys) s
        ≡ (let (s', go_on) = handler.body xs s in if go_on then handler.body ys s' else (s', false))

-- The parser has its header, or waits for the rest of a line.
abbrev pub IsOpen : {S : Type 0} → ResponseParser S → Type 0
IsOpen p = (p.header_parser.complete ≡ true) ⊎ IsReading p.line_reader

module _ (o : Outside) (status_captures : List ℕ → Option StatusLine) {S : Type 0}
    (handler : ResponseHandler S) where
  abbrev pub Result : Type 0
  Result = Parsing (ResponseParser S × Bool)

  -- The loop goes on with the bytes that are left, or is left itself.
  abbrev pub resume : ℕ → List ℕ → ResponseParser S × Bool → Result
  resume fuel bytes (p, go_on) = elim go_on [
    | true ↦ add_loop o status_captures handler fuel bytes p
    | false ↦ ok (p, false)
  ]

  -- The round behind the line reader
  abbrev pub step : ℕ → List ℕ → ResponseParser S → LineReader × ℕ → Result
  step fuel bytes p (r, used) =
      after_line o status_captures handler (record p { line_reader = r })
      >>= resume fuel (drop used bytes)

  pub loop_reads :
      (fuel : ℕ) (b : ℕ) (bs : List ℕ) (p : ResponseParser S)
      → p.header_parser.complete ≡ false
      → add_loop o status_captures handler (suc fuel) (b ∷ bs) p
        ≡ (LineReader.add p.line_reader (b ∷ bs) >>= step fuel (b ∷ bs) p)
  unfolding add_loop
  loop_reads fuel b bs p e = ground arith

  pub loop_body :
      (fuel : ℕ) (b : ℕ) (bs : List ℕ) (p : ResponseParser S)
      → p.header_parser.complete ≡ true
      → add_loop o status_captures handler (suc fuel) (b ∷ bs) p
        ≡ process_body o status_captures handler (b ∷ bs) p
  unfolding add_loop
  loop_body fuel b bs p e = ground arith

  process_line_lem :
      (p q : ResponseParser S) (go_on : Bool)
      → process_header_line o status_captures handler p ≡ ok (q, go_on)
      → (q.line_reader ≡ p.line_reader) × (go_on ≡ false → q.header_parser.complete ≡ true)
  unfolding process_header_line process_header
  process_line_lem p q go_on e = ground arith

  pub after_partial :
      (p : ResponseParser S)
      → p.line_reader.complete ≡ false
      → after_line o status_captures handler p ≡ ok (p, true)
  unfolding after_line
  after_partial p e = simp e refl

  pub after-IsOpen :
      (p q : ResponseParser S) (go_on : Bool)
      → IsSound p.line_reader
      → after_line o status_captures handler p ≡ ok (q, go_on)
      → IsOpen q
  unfolding after_line
  after-IsOpen p q go_on (inl w) e =
      let same : p ≡ q =
        ap (λ (t : ResponseParser S × Bool). t.0)
          (ok_inj (sym (after_partial p w.incomplete) ∙ e)) in
      subst IsOpen same (inr w)
  after-IsOpen p q go_on (inr (whole, sep)) e =
      whole_open (process_header_line o status_captures handler p) refl (ground (arith, whole, e))
    where
      whole_open :
          (r : Result)
          → process_header_line o status_captures handler p ≡ r
          → (r >>= clear_to_go_on) ≡ ok (q, go_on)
          → IsOpen q
      whole_open (ok (p', true)) f g =
          let same = ap (λ (t : ResponseParser S × Bool). t.0) (ok_inj g) in
          let (kept, _) = process_line_lem p p' true f in
          subst IsOpen same (
            inr (
              clear-IsReading p'.line_reader
                (subst (λ (r : LineReader). 0 < length r.separator) (sym kept) sep)))
      whole_open (ok (p', false)) f g =
          let same = ap (λ (t : ResponseParser S × Bool). t.0) (ok_inj g) in
          let (_, header) = process_line_lem p p' false f in subst IsOpen same (inl (header refl))
      whole_open err f g = absurd (ground (arith, g))
      whole_open panic f g = absurd (ground (arith, g))
      whole_open out_of_fuel f g = absurd (ground (arith, g))

  pub waiting :
      (p : ResponseParser S) → IsOpen p → p.header_parser.complete ≡ false → IsReading p.line_reader
  waiting p (inl whole) open' = let both = sym whole ∙ open' in absurd (ground (arith, both))
  waiting p (inr w) open' = w

  pub resume_same :
      (n m : ℕ) (bytes : List ℕ) (q : ResponseParser S × Bool)
      → add_loop o status_captures handler n bytes q.0
        ≡ add_loop o status_captures handler m bytes q.0
      → resume n bytes q ≡ resume m bytes q
  resume_same n m bytes (q, true) e = e
  resume_same n m bytes (q, false) e = refl

  -- Enough rounds are as good as any more.
  pub same_fuel :
      (n m : ℕ) (bytes : List ℕ) (p : ResponseParser S)
      → length bytes ≤ n
      → length bytes ≤ m
      → IsOpen p
      → add_loop o status_captures handler n bytes p ≡ add_loop o status_captures handler m bytes p
  unfolding add_loop
  same_fuel zero zero [] p hn hm w = refl
  same_fuel zero (suc m) [] p hn hm w = refl
  same_fuel (suc n) zero [] p hn hm w = refl
  same_fuel (suc n) (suc m) [] p hn hm w = refl
  same_fuel zero m (b ∷ bs) p hn hm w = absurd (omega arith)
  same_fuel (suc n) zero (b ∷ bs) p hn hm w = absurd (omega arith)
  same_fuel (suc n) (suc m) (b ∷ bs) p hn hm w = elim (Bool-cases p.header_parser.complete) [
    | inl whole ↦ loop_body n b bs p whole ∙ sym (loop_body m b bs p whole)
    | inr open' ↦
        let go : (a : LineReader × ℕ)
            → LineReader.add p.line_reader (b ∷ bs) ≡ ok a
            → step n (b ∷ bs) p a ≡ step m (b ∷ bs) p a =
          λ a e.
            (let (pos, within, sound) =
                add_progress p.line_reader a.0 b bs a.1 (waiting p w open') e in
              let rest = drop a.1 (b ∷ bs) in
              let shorter = length-drop a.1 (b ∷ bs) in
              bind_eq (after_line o status_captures handler (record p { line_reader = a.0 }))
                (resume n rest) (resume m rest)
                (λ q f. resume_same n m rest q (
                  same_fuel n m rest q.0 (omega arith) (omega arith)
                    (after-IsOpen (record p { line_reader = a.0 }) q.0 q.1 sound f)))) in
        loop_reads n b bs p open'
        ∙ bind_eq (LineReader.add p.line_reader (b ∷ bs)) (step n (b ∷ bs) p) (step m (b ∷ bs) p) go
        ∙ sym (loop_reads m b bs p open')
  ]
