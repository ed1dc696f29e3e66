-- ===== src/Rtsp/Response/Total.antt =====
-- `ResponseParser::add` of src/net/rtsp/mod.rs comes to a result, and uses up bytes until its response
-- is complete.
use mathlib.Core.Path.{subst}
use arrow_client.Base.{
  ℕ, zero, suc, ◌+◌, ◌≤◌, ◌<◌, ◌≡◌, refl, sym, ap, ◌∙◌, Bool, true, false, not, List, [], ◌∷◌,
  Option, none, some, is_some, length, drop, arith, Bool-cases, Option-cases, inl, inr, ltb, leb,
  length-drop,
}
use arrow_client.Base.Parsing.{
  Parsing, ok, err, panic, ◌>>=◌, Ends, ok_ends, err_ends, panic_ends, bind-Ends, if-Ends,
  settled-Ends,
}
use arrow_client.Base.Text.{codes}
use arrow_client.Http.Fields.{Header, Outside, add_field, index_headers, get}
use arrow_client.Http.Fields.Index.{get_str-last_value, last_value}
use arrow_client.Http.LineReader
use arrow_client.Http.LineReader.{LineReader}
use arrow_client.Http.LineReader.Chunks.{IsSound, add_progress}
use arrow_client.Http.LineReader.Laws.{IsReading, clear-IsReading}
use arrow_client.Http.Response.Total.{add_reader-IsSettled, add_field-IsSettled}
use arrow_client.Rtsp.Header as Lines
use arrow_client.Rtsp.Header.{ResponseHeader, StatusLine, HeaderParser}
use arrow_client.Rtsp.Response.{ResponseParser, take_header, process_line, after_line, header_loop}

-- Whatever is known of a value when nothing is asked
abbrev pub Any : {A : Type 0} → A → Type 0
Any a = Unit {0}

module _ (o : Outside) (status_captures : List ℕ → Option StatusLine)
    (usize_from_str : List ℕ → Option ℕ) where
  -- Some text is no number, which is what a panic takes.
  abbrev pub Refuses : Type 0
  Refuses = (t : List ℕ) × (usize_from_str t ≡ none)

  get-Ends :
      (name : List ℕ) (hs : List Header)
      → Ends Refuses Any (get o usize_from_str name hs (index_headers o 0 hs []))
  unfolding get
  get-Ends name hs = elim (Option-cases (last_value o (o.to_lowercase name) hs)) [
    | inl no' ↦
        let eq : get o usize_from_str name hs (index_headers o 0 hs []) ≡ ok none =
          rw (get_str-last_value o name hs) (rw no' refl) in
        subst (Ends Refuses Any) (sym eq) (ok_ends _ tt)
    | inr (v, e) ↦ elim (Option-cases (usize_from_str v)) [
      | inl no'' ↦
          let eq : get o usize_from_str name hs (index_headers o 0 hs []) ≡ panic =
            rw (get_str-last_value o name hs) (rw e (rw no'' refl)) in
          subst (Ends Refuses Any) (sym eq) (panic_ends (v, no''))
      | inr (n, e') ↦
          let eq : get o usize_from_str name hs (index_headers o 0 hs []) ≡ ok (some n) =
            rw (get_str-last_value o name hs) (rw e (rw e' refl)) in
          subst (Ends Refuses Any) (sym eq) (ok_ends _ tt)
    ]
  ]

  abbrev IsIndexed : ResponseHeader → Type 0
  IsIndexed h = h.header_map ≡ index_headers o 0 h.headers []

  abbrev SameReader : ResponseParser → ResponseParser → Type 0
  SameReader p p' = p'.line_reader ≡ p.line_reader

  take_header-Ends :
      (p : ResponseParser)
      → Ends Refuses (SameReader p) (take_header o status_captures usize_from_str p)
  unfolding take_header Lines.parsed_header Lines.new
  take_header-Ends p =
      bind-Ends {Q = IsIndexed} (Lines.parsed_header o status_captures p.header_parser) _
        (if-Ends p.header_parser.complete (ok_ends _ refl) err_ends)
        (λ header e.
          bind-Ends {Q = Any}
            (get o usize_from_str (codes "content-length") header.headers header.header_map) _
            (subst
              (λ m.
                Ends Refuses Any (get o usize_from_str (codes "content-length") header.headers m))
              (sym e) (get-Ends (codes "content-length") header.headers))
            (λ len u. ok_ends _ refl))

  status-Ends :
      (line : List ℕ) (p : HeaderParser)
      → Ends Refuses Any (Lines.parse_status_line o status_captures line p)
  unfolding Lines.parse_status_line
  status-Ends line p = elim (Option-cases (status_captures line)) [
    | inl no' ↦
        let eq : Lines.parse_status_line o status_captures line p ≡ err = ground (arith, no') in
        subst (Ends Refuses Any) (sym eq) err_ends
    | inr (caps, e) ↦ elim (Option-cases (o.i32_from_str caps.code)) [
      | inl no'' ↦
          let eq : Lines.parse_status_line o status_captures line p ≡ err =
            ground (arith, e, no'') in
          subst (Ends Refuses Any) (sym eq) err_ends
      | inr (code, e') ↦
          let eq : Lines.parse_status_line o status_captures line p
              ≡ ok (record p { status_code = code; status_line = caps.text }) =
            ground (arith, e, e') in
          subst (Ends Refuses Any) (sym eq) (ok_ends _ tt)
    ]
  ]

  header_line-Ends :
      (line : List ℕ) (p : HeaderParser)
      → Ends Refuses Any (Lines.parse_header_line o status_captures line p)
  unfolding Lines.parse_header_line
  header_line-Ends [] p = ok_ends _ tt
  header_line-Ends (c ∷ line) p =
      bind-Ends {Q = Any} (add_field o (c ∷ line) p.headers) _
        (settled-Ends (add_field o (c ∷ line) p.headers)
          (add_field-IsSettled o (c ∷ line) p.headers) (λ hs e. tt))
        (λ hs e. ok_ends _ tt)

  add_line-Ends :
      (line : List ℕ) (p : HeaderParser)
      → Ends Refuses Any (Lines.add_line o status_captures line p)
  unfolding Lines.add_line
  add_line-Ends line p = if-Ends (leb p.max_lines p.lines) err_ends (
      bind-Ends {Q = Any} _ _
        (if-Ends (ltb 0 p.lines) (header_line-Ends line p) (status-Ends line p))
        (λ q e. ok_ends _ tt))

  process_line-Ends :
      (p : ResponseParser)
      → Ends Refuses (SameReader p) (process_line o status_captures usize_from_str p)
  unfolding process_line
  process_line-Ends p =
      if-Ends (o.is_utf8 p.line_reader.buffer)
        (bind-Ends {Q = Any} (Lines.add_line o status_captures p.line_reader.buffer p.header_parser)
          _ (add_line-Ends p.line_reader.buffer p.header_parser)
          (λ hp u.
            if-Ends hp.complete (take_header-Ends (record p { header_parser = hp }))
              (ok_ends _ refl)))
        err_ends

  -- The parser waits for a line, or for its end.
  abbrev pub IsOpen : ResponseParser → Type 0
  IsOpen p = IsReading p.line_reader

  after_line-Ends :
      (p : ResponseParser)
      → IsSound p.line_reader
      → Ends Refuses IsOpen (after_line o status_captures usize_from_str p)
  unfolding after_line
  after_line-Ends p (inl w) =
      let eq : after_line o status_captures usize_from_str p ≡ ok p = simp w.incomplete refl in
      subst (Ends Refuses IsOpen) (sym eq) (ok_ends p w)
  after_line-Ends p (inr (whole, sep)) =
      let clear_line : ResponseParser → Parsing ResponseParser =
        λ (q : ResponseParser). ok (record q { line_reader = LineReader.clear q.line_reader }) in
      let eq : after_line o status_captures usize_from_str p
          ≡ (process_line o status_captures usize_from_str p >>= clear_line) =
        simp whole refl in
      subst (Ends Refuses IsOpen) (sym eq) (
        bind-Ends {Q = SameReader p} (process_line o status_captures usize_from_str p) _
          (process_line-Ends p)
          (λ q same. ok_ends _ (
            clear-IsReading q.line_reader
              (subst (λ (r : LineReader). 0 < length r.separator) (sym same) sep))))

  -- A reader of bytes from a place on leaves the parser open, at a place that is no earlier, or later if
  -- bytes are wanted and there.
  abbrev pub Advances : Bool → ℕ → List ℕ → ResponseParser × ℕ → Type 0
  Advances wants pos bytes (p, pos') =
      IsOpen p
      × (pos ≤ pos')
      × (pos' ≤ pos + length bytes)
      × (wants ≡ true → 0 < length bytes → pos < pos')

  -- What the loop does with what the reader has given
  abbrev header_step :
      ℕ → List ℕ → ℕ → ResponseParser → LineReader × ℕ → Parsing (ResponseParser × ℕ)
  header_step n bytes pos p (line_reader, used) =
      after_line o status_captures usize_from_str (record p { line_reader = line_reader }) >>= λ p.
      header_loop o status_captures usize_from_str n (drop used bytes) (pos + used) p

  header_loop_reads :
      (n b : ℕ) (bs : List ℕ) (pos : ℕ) (p : ResponseParser)
      → is_some p.header ≡ false
      → header_loop o status_captures usize_from_str (suc n) (b ∷ bs) pos p
        ≡ (LineReader.add p.line_reader (b ∷ bs) >>= header_step n (b ∷ bs) pos p)
  unfolding header_loop
  header_loop_reads n b bs pos p e = ground (arith, e)

  header_loop_done :
      (n b : ℕ) (bs : List ℕ) (pos : ℕ) (p : ResponseParser)
      → is_some p.header ≡ true
      → header_loop o status_captures usize_from_str (suc n) (b ∷ bs) pos p ≡ ok (p, pos)
  unfolding header_loop
  header_loop_done n b bs pos p e = ground (arith, e)

  -- Going on from behind some bytes
  pub further :
      (wants wants' : Bool) (pos used : ℕ) (bytes : List ℕ) (r : Parsing (ResponseParser × ℕ))
      → 0 < used
      → used ≤ length bytes
      → Ends Refuses (Advances wants' (pos + used) (drop used bytes)) r
      → Ends Refuses (Advances wants pos bytes) r
  further wants wants' pos used bytes _ h k (ok_ends a (w, low, high, q)) =
      let shorter = length-drop used bytes in
      ok_ends a (w, omega arith, omega arith, λ u v. omega arith)
  further wants wants' pos used bytes _ h k err_ends = err_ends
  further wants wants' pos used bytes _ h k (panic_ends p) = panic_ends p

  pub header_loop-Ends :
      (n : ℕ) (bytes : List ℕ) (pos : ℕ) (p : ResponseParser)
      → length bytes ≤ n
      → IsOpen p
      → Ends Refuses
          (Advances (not (is_some p.header)) pos bytes)
          (header_loop o status_captures usize_from_str n bytes pos p)
  unfolding header_loop
  header_loop-Ends zero [] pos p h w = ok_ends _ (w, omega arith, omega arith, λ a b. omega arith)
  header_loop-Ends (suc n) [] pos p h w =
      ok_ends _ (w, omega arith, omega arith, λ a b. omega arith)
  header_loop-Ends zero (b ∷ bs) pos p h w = absurd (omega arith)
  header_loop-Ends (suc n) (b ∷ bs) pos p h w = elim (Bool-cases (is_some p.header)) [
    | inl there ↦
        subst (Ends Refuses (Advances (not (is_some p.header)) pos (b ∷ bs)))
          (sym (header_loop_done n b bs pos p there))
          (ok_ends _ (
            w,
            omega arith,
            omega arith,
            λ wants some'. (let both = sym (ap not there) ∙ wants in absurd (ground (arith, both))),
          ))
    | inr none_yet ↦
        subst (Ends Refuses (Advances (not (is_some p.header)) pos (b ∷ bs)))
          (sym (header_loop_reads n b bs pos p none_yet))
          (bind-Ends {Q = λ (a : LineReader × ℕ). (0 < a.1) × (a.1 ≤ length (b ∷ bs)) × IsSound a.0}
            (LineReader.add p.line_reader (b ∷ bs)) (header_step n (b ∷ bs) pos p)
            (settled-Ends (LineReader.add p.line_reader (b ∷ bs))
              (add_reader-IsSettled p.line_reader (b ∷ bs) w)
              (λ a e. add_progress p.line_reader a.0 b bs a.1 w e))
            (λ a (used, within, sound).
              (let shorter = length-drop a.1 (b ∷ bs) in
                bind-Ends {Q = IsOpen}
                  (after_line o status_captures usize_from_str (record p { line_reader = a.0 })) _
                  (after_line-Ends (record p { line_reader = a.0 }) sound)
                  (λ q v.
                    further (not (is_some p.header)) (not (is_some q.header)) pos (a.1) (b ∷ bs) _
                      used within
                      (header_loop-Ends n (drop a.1 (b ∷ bs)) (pos + a.1) q (omega arith) v)))))
  ]
