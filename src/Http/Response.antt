-- ===== src/Http/Response.antt =====
-- `ResponseParser` of src/net/http.rs, its handlers, and the loop of `Client::perform_request` that
-- feeds it.
pub mod Loop
pub mod Chunks
pub mod Total
use arrow_client.Base.{
  ℕ, zero, suc, ◌+◌, Bool, true, false, Option, none, some, List, [], ◌∷◌, ◌++◌, length, drop,
  if◌then◌else◌,
}
use arrow_client.Base.Parsing.{Parsing, ok, err, out_of_fuel, ◌>>=◌}
use arrow_client.Http.Fields.{Header, Outside}
use arrow_client.Http.Header as Lines
use arrow_client.Http.Header.{ResponseHeader, StatusLine, HeaderParser}
use arrow_client.Http.LineReader
use arrow_client.Http.LineReader.{LineReader}

-- The trait `ResponseHandler`, over the state of a handler; `end` does nothing in both.
pub record ResponseHandler (S : Type 0) : Type 0 where
  pub header : ResponseHeader → S → S × Bool
  pub body : List ℕ → S → S × Bool

-- `ResponseBuilder`
pub record ResponseBuilder : Type 0 where
  pub header : Option ResponseHeader
  pub body : List ℕ

abbrev pub response_builder : ResponseHandler ResponseBuilder
response_builder = record {
  header = λ header b. (record b { header = some header }, true);
  body = λ bytes b. (record b { body = b.body ++ bytes }, true);
}

-- `ResponseHeaderBuilder`, which is an `Option<ResponseHeader>`
abbrev pub header_builder : ResponseHandler (Option ResponseHeader)
header_builder = record { header = λ header b. (some header, false); body = λ bytes b. (b, false) }

pub record Response : Type 0 where
  pub header : ResponseHeader
  pub body : List ℕ

-- `ResponseBuilder::response`
abbrev pub response : ResponseBuilder → Parsing Response
response b = elim b.header [
  | none ↦ err
  | some header ↦ ok (record { header = header; body = b.body })
]

-- `ResponseHeaderBuilder::header`
abbrev pub built_header : Option ResponseHeader → Parsing ResponseHeader
built_header none = err
built_header (some header) = ok header

pub record ResponseParser (S : Type 0) : Type 0 where
  pub line_reader : LineReader
  pub header_parser : HeaderParser
  pub response_handler : S

-- "\r\n"
abbrev pub crlf : List ℕ
crlf = 13 ∷ 10 ∷ []

abbrev pub new : {S : Type 0} → S → ℕ → ℕ → ResponseParser S
new rhandler max_line_length max_lines = record {
  line_reader = LineReader.new max_line_length crlf;
  header_parser = Lines.new_parser max_lines;
  response_handler = rhandler;
}

-- `self.line_reader.clear()`, or the end of `add`
abbrev pub clear_to_go_on :
    {S : Type 0} → ResponseParser S × Bool → Parsing (ResponseParser S × Bool)
clear_to_go_on (p, go_on) =
    ok (if go_on then record p { line_reader = LineReader.clear p.line_reader } else p, go_on)

module _ (o : Outside) (status_captures : List ℕ → Option StatusLine) {S : Type 0}
    (handler : ResponseHandler S) where
  unfoldable pub process_header : ResponseParser S → Parsing (ResponseParser S × Bool)
  process_header p = Lines.parsed_header p.header_parser >>= λ header.
      (let (s, go_on) = handler.header header p.response_handler in
        ok (record p { response_handler = s }, go_on))

  unfoldable pub process_header_line : ResponseParser S → Parsing (ResponseParser S × Bool)
  unfolding process_header Lines.add_line
  process_header_line p =
      let line = LineReader.line p.line_reader in
      if o.is_utf8 line
      then (Lines.add_line o status_captures line p.header_parser >>= λ header_parser.
          (let p' = record p { header_parser = header_parser } in
            if Lines.is_complete header_parser then process_header p' else ok (p', true)))
      else err

  -- What follows a call of the line reader: a whole line is processed, and cleared to go on.
  unfoldable pub after_line : ResponseParser S → Parsing (ResponseParser S × Bool)
  unfolding process_header_line
  after_line p =
      if LineReader.is_complete p.line_reader
      then (process_header_line p >>= clear_to_go_on)
      else ok (p, true)

  -- The handler gets the rest of the chunk.
  unfoldable pub process_body : List ℕ → ResponseParser S → Parsing (ResponseParser S × Bool)
  process_body bytes p =
      let (s, go_on) = handler.body bytes p.response_handler in
      ok (record p { response_handler = s }, go_on)

  -- The loop of `add`, over the bytes that are left. The first argument bounds the rounds.
  unfoldable pub add_loop : ℕ → List ℕ → ResponseParser S → Parsing (ResponseParser S × Bool)
  unfolding LineReader.add after_line process_body
  add_loop fuel [] p = ok (p, true)
  add_loop zero (b ∷ bs) p = out_of_fuel
  add_loop (suc fuel) (b ∷ bs) p = elim (Lines.is_complete p.header_parser) [
    | true ↦ process_body (b ∷ bs) p
    | false ↦ LineReader.add p.line_reader (b ∷ bs) >>= λ (line_reader, used).
        (after_line (record p { line_reader = line_reader }) >>= λ (p, go_on). elim go_on [
          | true ↦ add_loop fuel (drop used (b ∷ bs)) p
          | false ↦ ok (p, false)
        ])
  ]

  -- `ResponseParser::add`, with a round for each byte
  unfoldable pub add : List ℕ → ResponseParser S → Parsing (ResponseParser S × Bool)
  unfolding add_loop
  add chunk p = add_loop (length chunk) chunk p

  -- The loop of `perform_request`, over what the reads of the stream give: `none` is an I/O error, and
  -- no bytes are the end of the stream.
  unfoldable pub read_response : List (Option (List ℕ)) → ResponseParser S → Parsing S
  unfolding add
  read_response [] p = ok p.response_handler
  read_response (none ∷ reads) p = err
  read_response (some [] ∷ reads) p = ok p.response_handler
  read_response (some (b ∷ bs) ∷ reads) p =
      add (b ∷ bs) p >>= λ q. if q.1 then read_response reads (q.0) else ok (q.0.response_handler)
