-- ===== src/Http/Client/RoundTrip.antt =====
-- A response that is written is read back.
use arrow_client.Base.{
  ℕ, zero, suc, ◌+◌, ◌-◌, ◌≤◌, ◌<◌, ◌≡◌, ◌≢◌, refl, sym, ap, ◌∙◌, true, false, Option, none, some,
  List, [], ◌∷◌, ◌++◌, map, All, length, length-append, append_assoc, if◌then◌else◌, arith, inr,
}
use arrow_client.Base.Parsing.{Parsing, ok, err, ◌>>=◌}
use arrow_client.Http.Client.{show_headers, show_header, show_response}
use arrow_client.Http.Fields.{Header, Outside, index_headers}
use arrow_client.Http.Header as Lines
use arrow_client.Http.Header.{
  ResponseHeader, StatusLine, HeaderParser, add_line, parse_header_line, parse_status_line,
}
use arrow_client.Http.Response.{
  ResponseParser, Response, process_header, process_header_line, after_line, process_body, add_loop,
  add, read_response, crlf, response_builder,
}
use arrow_client.Http.Response.Loop.{IsIncremental, loop_body}
use arrow_client.Http.Client.Documented.{KeepsUtf8, status_line, IsDocumented, IsSendable}
use arrow_client.Http.Client.{
  Client, get_method, create_request, add_headers, perform_request, get, show_request,
}
use arrow_client.Http.Response.Total.{read_response-concat, handled, concat}
use arrow_client.Http.Response.{ResponseBuilder, response}
use arrow_client.Http.Client.Written.{
  round, after_header, read_headers, status_added, line_of_status, with_line, at_line, with_headers,
  new-IsReading, length-show_headers,
}

module _ (o : Outside) (status_captures : List ℕ → Option StatusLine) (show_i32 : ℕ → List ℕ)
    (doc : IsDocumented o status_captures show_i32) where
  abbrev ended : HeaderParser → HeaderParser
  ended hp = record hp {
    header = record (hp.header) {
      header_map = index_headers o 0 hp.header.headers hp.header.header_map;
    };
    lines = hp.lines + 1;
    complete = true;
  }

  abbrev builder : Option ResponseHeader → List ℕ → ResponseBuilder
  builder header body = record { header = header; body = body }

  after_end :
      (hp : HeaderParser)
      → 0 < hp.lines
      → hp.lines < hp.max_lines
      → after_line o status_captures response_builder (with_line [] hp (builder none []))
        ≡ ok (at_line (ended hp) (builder (some (ended hp).header) []), true)
  unfolding after_line process_header_line process_header add_line parse_header_line
  after_end hp some_line few = ground (arith, doc.ascii [] tt, some_line, few)

  read_body :
      (n : ℕ) (body : List ℕ) (hp : HeaderParser) (header : ResponseHeader)
      → length body ≤ n
      → hp.complete ≡ true
      → (add_loop o status_captures response_builder n body (at_line hp (builder (some header) []))
          >>= handled o status_captures response_builder
          >>= response)
        ≡ ok (record { header = header; body = body })
  unfolding add_loop process_body
  read_body zero [] hp header fuel whole = refl
  read_body (suc n) [] hp header fuel whole = refl
  read_body zero (b ∷ bs) hp header fuel whole = absurd (omega arith)
  read_body (suc n) (b ∷ bs) hp header fuel whole =
      ap (λ t. t >>= handled o status_captures response_builder >>= response)
        (loop_body o status_captures response_builder n b bs (at_line hp (builder (some header) []))
          whole)

  -- Behind the headers comes the empty line, and then the body.
  read_end :
      (n : ℕ) (body : List ℕ) (hp : HeaderParser)
      → length body ≤ n
      → 0 < hp.lines
      → hp.lines < hp.max_lines
      → hp.complete ≡ false
      → (add_loop o status_captures response_builder
            (suc n)
            (crlf ++ body)
            (at_line hp (builder none []))
          >>= handled o status_captures response_builder
          >>= response)
        ≡ ok (record { header = (ended hp).header; body = body })
  read_end n body hp fuel some_line few open' =
      ap (λ t. t >>= handled o status_captures response_builder >>= response)
        (round o status_captures show_i32 doc response_builder n [] body hp (ended hp)
          (builder none []) (builder (some (ended hp).header) []) tt (omega arith) open'
          (after_end hp some_line few))
      ∙ read_body n body (ended hp) (ended hp).header fuel refl

  -- The response with the index of its headers, as the parser builds it
  abbrev pub indexed : Response → Response
  indexed r = record r {
    header = record (r.header) { header_map = index_headers o 0 r.header.headers [] };
  }

  written :
      (from_utf8_lossy : List ℕ → List ℕ) (r : Response)
      → from_utf8_lossy r.body ≡ r.body
      → show_response from_utf8_lossy show_i32 r
        ≡ status_line r.header.version (show_i32 r.header.code) r.header.text
          ++ (crlf ++ (show_headers r.header.headers ++ (crlf ++ r.body)))
  unfolding show_response show_header
  written from_utf8_lossy r kept =
      let h = r.header in ap (λ body. show_header show_i32 h ++ body) kept ∙ simp append_assoc refl

  read_written :
      (n : ℕ) (r : Response)
      → length r.body ≤ n
      → IsSendable show_i32 r.header
      → (add_loop o status_captures response_builder
            (suc (length r.header.headers + suc n))
            (status_line r.header.version (show_i32 r.header.code) r.header.text
              ++ (crlf ++ (show_headers r.header.headers ++ (crlf ++ r.body))))
            (at_line (Lines.new_parser 256) (builder none []))
          >>= handled o status_captures response_builder
          >>= response)
        ≡ ok (indexed r)
  read_written n r fuel w =
      let h = r.header in
      let hp : HeaderParser = record (Lines.new_parser 256) {
        header = record Lines.new { code = h.code; text = h.text; version = h.version };
        lines = 1;
      } in
      let (in_line, ascii) = line_of_status o status_captures show_i32 doc h w in
      let s = builder none [] in
      ap (λ t. t >>= handled o status_captures response_builder >>= response)
        (round o status_captures show_i32 doc response_builder (length h.headers + suc n)
            (status_line h.version (show_i32 h.code) h.text)
            (show_headers h.headers ++ (crlf ++ r.body)) (Lines.new_parser 256) hp s s in_line
            w.short refl
            (after_header o status_captures show_i32 doc response_builder
              (status_line h.version (show_i32 h.code) h.text) (Lines.new_parser 256) hp s ascii
              (status_added o status_captures show_i32 doc h w) refl)
          ∙ read_headers o status_captures show_i32 doc response_builder h.headers (suc n)
              (crlf ++ r.body) hp s w.headers (omega arith) (omega (arith, w.few)) refl)
      ∙ read_end n r.body (with_headers hp h.headers) fuel (omega arith) (omega (arith, w.few)) refl

  add-written :
      (from_utf8_lossy : List ℕ → List ℕ) (r : Response)
      → from_utf8_lossy r.body ≡ r.body
      → IsSendable show_i32 r.header
      → (add o status_captures response_builder
            (show_response from_utf8_lossy show_i32 r)
            (at_line (Lines.new_parser 256) (builder none []))
          >>= handled o status_captures response_builder
          >>= response)
        ≡ ok (indexed r)
  unfolding add
  add-written from_utf8_lossy r kept w =
      let h = r.header in
      let line = status_line h.version (show_i32 h.code) h.text in
      let bytes = line ++ (crlf ++ (show_headers h.headers ++ (crlf ++ r.body))) in
      let n = length bytes - (length h.headers + 2) in
      let size = length-append line (crlf ++ (show_headers h.headers ++ (crlf ++ r.body))) in
      let size' = length-append (show_headers h.headers) (crlf ++ r.body) in
      let more = length-show_headers h.headers in
      let fuel : length bytes ≡ suc (length h.headers + suc n) = omega arith in
      ap
        (λ bytes.
          add_loop o status_captures response_builder (length bytes) bytes
            (at_line (Lines.new_parser 256) (builder none []))
          >>= handled o status_captures response_builder
          >>= response)
        (written from_utf8_lossy r kept)
      ∙ ap
          (λ k.
            add_loop o status_captures response_builder k bytes
              (at_line (Lines.new_parser 256) (builder none []))
            >>= handled o status_captures response_builder
            >>= response)
          fuel
      ∙ read_written n r (omega arith) w

  builder-IsIncremental : IsIncremental response_builder
  builder-IsIncremental = record {
    body_append =
        λ xs ys b. ap (λ body. (record b { body = body }, true)) (sym (append_assoc b.body xs ys));
  }

  -- A GET whose request is written, and which a camera answers with the text of a response in chunks
  -- that are not empty, gives that response with the index of its headers, wherever the chunks are
  -- cut. The body of the response is UTF-8, its header can be written in lines that are not too long
  -- nor too many, and the code from outside does what is documented of it: the expressions, the
  -- numbers, the test for UTF-8, and the lossy conversion, which changes no text that is UTF-8.
  pub get-show_response :
      (c : Client) (path : List ℕ) (headers : List Header) (r : Response) (chunks : List (List ℕ))
      (from_utf8_lossy : List ℕ → List ℕ)
      → KeepsUtf8 o from_utf8_lossy
      → o.is_utf8 r.body ≡ true
      → IsSendable show_i32 r.header
      → All (λ chunk. chunk ≢ []) chunks
      → concat chunks ≡ show_response from_utf8_lossy show_i32 r
      → c.stream.writes (show_request (add_headers headers (create_request c get_method path)))
        ≡ true
      → c.stream.reads (show_request (add_headers headers (create_request c get_method path)))
        ≡ map some chunks
      → get o status_captures path headers c ≡ ok (indexed r)
  unfolding get perform_request
  get-show_response c path headers r chunks from_utf8_lossy keeps utf8 w some_bytes text writes
        reads =
      let request = show_request (add_headers headers (create_request c get_method path)) in
      let start : ResponseParser ResponseBuilder =
        at_line (Lines.new_parser 256) (builder none []) in
      ap (λ (t : Parsing ResponseBuilder). t >>= response)
        (ap
            (λ b.
              if b
              then read_response o status_captures response_builder (c.stream.reads request) start
              else err)
            writes
          ∙ ap (λ rs. read_response o status_captures response_builder rs start) reads
          ∙ read_response-concat o status_captures response_builder chunks start
              builder-IsIncremental (inr new-IsReading) some_bytes)
      ∙ ap
          (λ bytes.
            add o status_captures response_builder bytes start
            >>= handled o status_captures response_builder
            >>= response)
          text
      ∙ add-written from_utf8_lossy r (keeps r.body utf8) w
