-- ===== src/Rtsp/Client/Total.antt =====
-- A request of the RTSP client of src/net/rtsp/mod.rs comes to a result.
use mathlib.Core.Path.{subst}
use arrow_client.Base.{
  ℕ, ◌-◌, ◌≡◌, refl, sym, Bool, true, false, List, [], ◌∷◌, ◌++◌, Option, none, some, length, drop,
  arith, Bool-cases, Option-cases, inl, inr, if◌then◌else◌, leb, ◌==◌,
}
use arrow_client.Base.Parsing.{Parsing, ok, err, ◌>>=◌, Ends, ok_ends, err_ends, bind-Ends, if-Ends}
use arrow_client.Http.Fields.{Outside}
use arrow_client.Http.LineReader.Laws.{IsReading, clear-IsReading}
use arrow_client.Rtsp.Client.{
  Client, Request, show_request, feed, process_buffered, keep_rest, read_loop, perform_request,
}
use arrow_client.Rtsp.Header.{StatusLine}
use arrow_client.Rtsp.Response.{Response, ResponseParser, is_complete, response}
use arrow_client.Rtsp.Response.Progress.{Refused, feed-Ends}

-- A client between two requests, or in one: its parser waits for a line.
abbrev pub IsUsable : Client → Type 0
IsUsable c = IsReading c.parser.line_reader

keep_rest-IsUsable : (left : List ℕ) (c : Client) → IsUsable c → IsUsable (keep_rest left c)
unfolding keep_rest
keep_rest-IsUsable left c w = kept (leb (length c.buffer) (length c.buffer - length left)) w
  where
    kept :
        (b : Bool)
        → IsUsable c
        → IsUsable (
            if b
            then record c { buffer = []; offset = 0 }
            else record c { offset = length c.buffer - length left })
    kept true v = v
    kept false v = v

module _ (o : Outside) (status_captures : List ℕ → Option StatusLine)
    (usize_from_str : List ℕ → Option ℕ) where
  abbrev EndsWith : {A : Type 0} → (A → Type 0) → Parsing A → Type 0
  EndsWith Q r = Ends (Refused o status_captures usize_from_str) Q r

  process_buffered-Ends :
      (c : Client)
      → IsUsable c
      → EndsWith IsUsable (process_buffered o status_captures usize_from_str c)
  unfolding process_buffered
  process_buffered-Ends c w =
      let waiting = drop c.offset c.buffer in
      bind-Ends (feed o status_captures usize_from_str (length waiting) waiting c.parser) _
        (feed-Ends o status_captures usize_from_str (length waiting) waiting c.parser (omega arith)
          w)
        (λ t v. ok_ends _ (keep_rest-IsUsable t.1 (record c { parser = t.0 }) v))

  read_loop-Ends :
      (reads : List (Option (List ℕ))) (c : Client)
      → IsUsable c
      → EndsWith IsUsable (read_loop o status_captures usize_from_str reads c)
  unfolding read_loop
  read_loop-Ends [] c w = ok_ends c w
  read_loop-Ends (none ∷ reads) c w = if-Ends (is_complete c.parser) (ok_ends c w) err_ends
  read_loop-Ends (some [] ∷ reads) c w = ok_ends c w
  read_loop-Ends (some (b ∷ bs) ∷ reads) c w = elim (Bool-cases (is_complete c.parser)) [
    | inl whole ↦
        let eq : read_loop o status_captures usize_from_str (some (b ∷ bs) ∷ reads) c ≡ ok c =
          rw (whole, read_loop) refl in
        subst (EndsWith IsUsable) (sym eq) (ok_ends c w)
    | inr part ↦
        let eq : read_loop o status_captures usize_from_str (some (b ∷ bs) ∷ reads) c ≡ (
            feed o status_captures usize_from_str (length (b ∷ bs)) (b ∷ bs) c.parser
            >>= λ ((parser, left) : ResponseParser × List ℕ).
                read_loop o status_captures usize_from_str reads
                  (record c { parser = parser; buffer = c.buffer ++ left })) =
          rw (part, read_loop) refl in
        subst (EndsWith IsUsable) (sym eq) (
          bind-Ends (feed o status_captures usize_from_str (length (b ∷ bs)) (b ∷ bs) c.parser) _
            (feed-Ends o status_captures usize_from_str (length (b ∷ bs)) (b ∷ bs) c.parser
              (omega arith) w)
            (λ t v. read_loop-Ends reads (record c { parser = t.0; buffer = c.buffer ++ t.1 }) v))
  ]

  response-Ends : (p : ResponseParser) → EndsWith (λ (r : Response). Unit {0}) (response p)
  unfolding response
  response-Ends p = elim (Option-cases p.header) [
    | inl no' ↦
        let eq : response p ≡ err = ground (arith, no') in
        subst (EndsWith (λ r. Unit {0})) (sym eq) err_ends
    | inr (h, there) ↦
        let eq : response p
            ≡ (if p.expected == 0 then ok (record { header = h; body = p.body }) else err) =
          ground (arith, there) in
        subst (EndsWith (λ r. Unit {0})) (sym eq)
          (if-Ends (p.expected == 0) (ok_ends _ tt) err_ends)
  ]

  -- A request of a client whose parser waits for a line comes to a result, whatever the reads of the stream give: the client does not run on
  -- forever, it panics only if there is a text that is refused as a number, and afterwards it is ready
  -- for the next request.
  pub perform_request-Ends :
      (request : Request) (c : Client)
      → IsUsable c
      → Ends
          ((t : List ℕ) × (usize_from_str t ≡ none))
          (λ (t : Client × Response). IsUsable t.0)
          (perform_request o status_captures usize_from_str request c)
  unfolding perform_request
  perform_request-Ends request c w =
      if-Ends (c.stream.writes (show_request request))
        (bind-Ends {Q = IsUsable}
          (process_buffered o status_captures usize_from_str c
            >>= read_loop o status_captures usize_from_str (c.stream.reads (show_request request)))
          _
          (bind-Ends {Q = IsUsable} (process_buffered o status_captures usize_from_str c) _
            (process_buffered-Ends c w) (read_loop-Ends (c.stream.reads (show_request request))))
          (λ d v.
            bind-Ends (response d.parser) _ (response-Ends d.parser)
              (λ r u. ok_ends _ (clear-IsReading d.parser.line_reader v.some_separator))))
        err_ends
