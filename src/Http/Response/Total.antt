-- ===== src/Http/Response/Total.antt =====
-- Reading a response comes to a result, and does not depend on how the bytes come.
use mathlib.Core.Path.{subst}
use arrow_client.Base.{
  ℕ, zero, suc, ◌≤◌, ◌≡◌, ◌≢◌, refl, sym, ap, ◌∙◌, Bool, true, false, Option, none, some, List, [],
  ◌∷◌, ◌++◌, map, All, length, drop, length-drop, append-nil, if◌then◌else◌, leb, ltb, arith,
  Bool-cases, Option-cases, inl, inr,
}
use arrow_client.Base.Parsing.{
  Parsing, ok, err, ◌>>=◌, bind_eq, bind_assoc, ok_inj, bind_inv, IsSettled, bind-IsSettled,
  if-IsSettled,
}
use arrow_client.Http.Fields.{Header, Outside, continue_last, add_field}
use arrow_client.Http.Header as Lines
use arrow_client.Http.Header.{
  StatusLine, HeaderParser, add_line, parse_header_line, parse_status_line,
}
use arrow_client.Http.LineReader
use arrow_client.Http.LineReader.{LineReader}
use arrow_client.Http.LineReader.Chunks.{
  completes, continues, fails, add-Added, add_whole, add_progress,
}
use arrow_client.Http.LineReader.Laws.{IsReading}
use arrow_client.Http.Response.{
  ResponseHandler, ResponseParser, process_header, process_header_line, after_line, process_body,
  add_loop, add, read_response,
}
use arrow_client.Http.Response.Loop.{
  IsIncremental, IsOpen, resume, step, waiting, after-IsOpen, loop_reads, loop_body,
}
use arrow_client.Http.Response.Chunks.{add_loop-append}

-- The reader comes to a result.
pub add_reader-IsSettled :
    (r : LineReader) (bytes : List ℕ) → IsReading r → IsSettled (LineReader.add r bytes)
add_reader-IsSettled r bytes w = elim (add-Added r bytes w) [
  | completes line used pos within h ↦
      subst IsSettled (sym (h []) ∙ ap (LineReader.add r) (append-nil bytes)) tt
  | continues w' h ↦ subst IsSettled (sym (add_whole r bytes w' h)) tt
  | fails h ↦ subst IsSettled (sym (h []) ∙ ap (LineReader.add r) (append-nil bytes)) tt
]

pub continue_last-IsSettled :
    (cont : List ℕ) (headers : List Header) → IsSettled (continue_last cont headers)
unfolding continue_last
continue_last-IsSettled cont [] = tt
continue_last-IsSettled cont (h ∷ []) = tt
continue_last-IsSettled cont (h ∷ h' ∷ hs) =
    bind-IsSettled (continue_last cont (h' ∷ hs)) (λ hs. ok (h ∷ hs))
      (continue_last-IsSettled cont (h' ∷ hs)) (λ hs e. tt)

pub add_field-IsSettled :
    (o : Outside) (line : List ℕ) (headers : List Header) → IsSettled (add_field o line headers)
unfolding add_field
add_field-IsSettled o line headers = elim (Option-cases (o.header_captures line)) [
  | inr (h, e) ↦
      let eq : add_field o line headers ≡ ok (headers ++ h ∷ []) = ground (arith, e) in
      subst IsSettled (sym eq) tt
  | inl no' ↦ elim (Option-cases (o.cont_captures line)) [
    | inr (cont, e) ↦
        let eq : add_field o line headers ≡ continue_last cont headers = ground (arith, no', e) in
        subst IsSettled (sym eq) (continue_last-IsSettled cont headers)
    | inl no'' ↦
        let eq : add_field o line headers ≡ err = ground (arith, no', no'') in
        subst IsSettled (sym eq) tt
  ]
]

abbrev pub concat : List (List ℕ) → List ℕ
concat [] = []
concat (c ∷ cs) = c ++ concat cs

module _ (o : Outside) (status_captures : List ℕ → Option StatusLine) {S : Type 0}
    (handler : ResponseHandler S) where
  status-IsSettled :
      (line : List ℕ) (p : HeaderParser) → IsSettled (parse_status_line o status_captures line p)
  unfolding parse_status_line
  status-IsSettled line p = elim (Option-cases (status_captures line)) [
    | inl no' ↦
        let eq : parse_status_line o status_captures line p ≡ err = ground (arith, no') in
        subst IsSettled (sym eq) tt
    | inr (caps, e) ↦ elim (Option-cases (o.i32_from_str caps.code)) [
      | inl no'' ↦
          let eq : parse_status_line o status_captures line p ≡ err = ground (arith, e, no'') in
          subst IsSettled (sym eq) tt
      | inr (code, e') ↦
          let new_header = record (p.header) {
            code = code;
            text = caps.text;
            version = caps.version;
          } in
          let eq : parse_status_line o status_captures line p
              ≡ ok (record p { header = new_header }) =
            ground (arith, e, e') in
          subst IsSettled (sym eq) tt
    ]
  ]

  header_line-IsSettled :
      (line : List ℕ) (p : HeaderParser) → IsSettled (parse_header_line o status_captures line p)
  unfolding parse_header_line
  header_line-IsSettled [] p = tt
  header_line-IsSettled (c ∷ line) p =
      bind-IsSettled (add_field o (c ∷ line) p.header.headers) _
        (add_field-IsSettled o (c ∷ line) p.header.headers) (λ headers e. tt)

  add_line-IsSettled :
      (line : List ℕ) (p : HeaderParser) → IsSettled (add_line o status_captures line p)
  unfolding add_line
  add_line-IsSettled line p = if-IsSettled (leb p.max_lines p.lines) err _ tt (
      bind-IsSettled _ _
        (if-IsSettled (ltb 0 p.lines) _ _ (header_line-IsSettled line p) (status-IsSettled line p))
        (λ p e. tt))

  process_header-IsSettled :
      (p : ResponseParser S) → IsSettled (process_header o status_captures handler p)
  unfolding process_header
  process_header-IsSettled p =
      bind-IsSettled (Lines.parsed_header p.header_parser) _
        (if-IsSettled p.header_parser.complete _ err tt tt) (λ header e. tt)

  after_line-IsSettled : (p : ResponseParser S) → IsSettled (after_line o status_captures handler p)
  unfolding after_line process_header_line
  after_line-IsSettled p =
      if-IsSettled p.line_reader.complete _ _
        (bind-IsSettled (process_header_line o status_captures handler p) _
          (if-IsSettled (o.is_utf8 p.line_reader.buffer) _ err
            (bind-IsSettled (add_line o status_captures p.line_reader.buffer p.header_parser) _
              (add_line-IsSettled p.line_reader.buffer p.header_parser)
              (λ hp e.
                if-IsSettled hp.complete _ _
                  (process_header-IsSettled (record p { header_parser = hp })) tt))
            tt)
          (λ q e. tt))
        tt

  resume-IsSettled :
      (n : ℕ) (bytes : List ℕ) (q : ResponseParser S × Bool)
      → IsSettled (add_loop o status_captures handler n bytes q.0)
      → IsSettled (resume o status_captures handler n bytes q)
  resume-IsSettled n bytes (p, true) s = s
  resume-IsSettled n bytes (p, false) s = tt

  -- The loop comes to a result, and leaves the parser open.
  pub add_loop-IsSettled :
      (n : ℕ) (bytes : List ℕ) (p : ResponseParser S)
      → length bytes ≤ n
      → IsOpen p
      → IsSettled (add_loop o status_captures handler n bytes p)
  unfolding add_loop process_body
  add_loop-IsSettled zero [] p hn w = tt
  add_loop-IsSettled (suc n) [] p hn w = tt
  add_loop-IsSettled zero (b ∷ bs) p hn w = absurd (omega arith)
  add_loop-IsSettled (suc n) (b ∷ bs) p hn w = elim (Bool-cases p.header_parser.complete) [
    | inl whole ↦ subst IsSettled (sym (loop_body o status_captures handler n b bs p whole)) tt
    | inr open' ↦
        let r = waiting o status_captures handler p w open' in
        subst IsSettled (sym (loop_reads o status_captures handler n b bs p open')) (
          bind-IsSettled (LineReader.add p.line_reader (b ∷ bs))
            (step o status_captures handler n (b ∷ bs) p)
            (add_reader-IsSettled p.line_reader (b ∷ bs) r)
            (λ a e.
              (let (pos, within, sound) = add_progress p.line_reader a.0 b bs a.1 r e in
                let rest = drop a.1 (b ∷ bs) in
                let shorter = length-drop a.1 (b ∷ bs) in
                let p' = record p { line_reader = a.0 } in
                bind-IsSettled (after_line o status_captures handler p')
                  (resume o status_captures handler n rest) (after_line-IsSettled p')
                  (λ q f. resume-IsSettled n rest q (
                    add_loop-IsSettled n rest q.0 (omega arith)
                      (after-IsOpen o status_captures handler p' q.0 q.1 sound f))))))
  ]

  resumed :
      (n : ℕ) (bytes : List ℕ) (c : ResponseParser S × Bool) (q : ResponseParser S) (go_on : Bool)
      → IsOpen c.0
      → (add_loop o status_captures handler n bytes c.0 ≡ ok (q, go_on) → IsOpen q)
      → resume o status_captures handler n bytes c ≡ ok (q, go_on)
      → IsOpen q
  resumed n bytes (c, true) q go_on w h e = h e
  resumed n bytes (c, false) q go_on w h e =
      subst IsOpen (ap (λ (t : ResponseParser S × Bool). t.0) (ok_inj e)) w

  add-IsOpen :
      (n : ℕ) (bytes : List ℕ) (p q : ResponseParser S) (go_on : Bool)
      → IsOpen p
      → add_loop o status_captures handler n bytes p ≡ ok (q, go_on)
      → IsOpen q
  unfolding add_loop process_body
  add-IsOpen zero [] p q go_on w e =
      subst IsOpen (ap (λ (t : ResponseParser S × Bool). t.0) (ok_inj e)) w
  add-IsOpen (suc n) [] p q go_on w e =
      subst IsOpen (ap (λ (t : ResponseParser S × Bool). t.0) (ok_inj e)) w
  add-IsOpen zero (b ∷ bs) p q go_on w e = cc
  add-IsOpen (suc n) (b ∷ bs) p q go_on w e = elim (Bool-cases p.header_parser.complete) [
    | inl whole ↦
        let e' = sym (loop_body o status_captures handler n b bs p whole) ∙ e in
        inl (
          ap (λ (t : ResponseParser S × Bool). t.0.header_parser.complete) (sym (ok_inj e'))
          ∙ whole)
    | inr open' ↦
        let e' = sym (loop_reads o status_captures handler n b bs p open') ∙ e in
        let (a, f, g) = bind_inv (LineReader.add p.line_reader (b ∷ bs)) _ (q, go_on) e' in
        let p' = record p { line_reader = a.0 } in
        let (c, f', g') = bind_inv (after_line o status_captures handler p') _ (q, go_on) g in
        let r = waiting o status_captures handler p w open' in
        let (_, _, sound) = add_progress p.line_reader a.0 b bs a.1 r f in
        let v = after-IsOpen o status_captures handler p' c.0 c.1 sound f' in
        resumed n (drop a.1 (b ∷ bs)) c q go_on v (add-IsOpen n (drop a.1 (b ∷ bs)) c.0 q go_on v)
          g'
  ]

  -- The state of the handler when the stream has come to its end
  abbrev pub handled : ResponseParser S × Bool → Parsing S
  handled (p, go_on) = ok p.response_handler

  -- Reading a response, by a parser that has its header or waits for the rest of a line, comes to a
  -- result, whatever the reads of the stream give: no bytes make the
  -- parser panic or run on forever.
  pub read_response-IsSettled :
      (reads : List (Option (List ℕ))) (p : ResponseParser S)
      → IsOpen p
      → IsSettled (read_response o status_captures handler reads p)
  unfolding read_response add
  read_response-IsSettled [] p w = tt
  read_response-IsSettled (none ∷ reads) p w = tt
  read_response-IsSettled (some [] ∷ reads) p w = tt
  read_response-IsSettled (some (b ∷ bs) ∷ reads) p w =
      bind-IsSettled (add o status_captures handler (b ∷ bs) p) _
        (add_loop-IsSettled (length (b ∷ bs)) (b ∷ bs) p (omega arith) w)
        (λ q e.
          if-IsSettled q.1 _ _
            (read_response-IsSettled reads q.0
              (add-IsOpen (length (b ∷ bs)) (b ∷ bs) p q.0 q.1 w e))
            tt)

  rest_handled :
      (chunks : List (List ℕ)) (q : ResponseParser S × Bool)
      → read_response o status_captures handler (map some chunks) q.0
        ≡ (add o status_captures handler (concat chunks) q.0 >>= handled)
      → (if q.1
          then read_response o status_captures handler (map some chunks) q.0
          else ok q.0.response_handler)
        ≡ (resume o status_captures handler (length (concat chunks)) (concat chunks) q >>= handled)
  unfolding add
  rest_handled chunks (q, true) e = e
  rest_handled chunks (q, false) e = refl

  -- However the bytes of a response are cut into chunks that are not empty, reading them comes to what the parser makes
  -- of all of them at once, where its handler takes the parts of a body like the whole, and the parser
  -- has its header or waits for the rest of a line.
  pub read_response-concat :
      (chunks : List (List ℕ)) (p : ResponseParser S)
      → IsIncremental handler
      → IsOpen p
      → All (λ c. c ≢ []) chunks
      → read_response o status_captures handler (map some chunks) p
        ≡ (add o status_captures handler (concat chunks) p >>= handled)
  unfolding read_response add add_loop
  read_response-concat [] p inc w some_bytes = refl
  read_response-concat ([] ∷ chunks) p inc w some_bytes = absurd (some_bytes.0 refl)
  read_response-concat ((b ∷ bs) ∷ chunks) p inc w some_bytes =
      let c = b ∷ bs in
      let rest = concat chunks in
      bind_eq (add o status_captures handler c p) _
        (λ q. resume o status_captures handler (length rest) rest q >>= handled)
        (λ q e. rest_handled chunks q (
          read_response-concat chunks q.0 inc (add-IsOpen (length c) c p q.0 q.1 w e) some_bytes.1))
      ∙ sym (
          bind_assoc (add o status_captures handler c p)
            (resume o status_captures handler (length rest) rest) handled)
      ∙ ap (λ t. t >>= handled)
          (sym (
            add_loop-append o status_captures handler (length (c ++ rest)) (length c) (length rest)
              c rest p (omega arith) (omega arith) (omega arith) inc w))
