-- ===== src/Rtsp/Response.antt =====
-- `ResponseParser` of src/net/rtsp/mod.rs. An error leaves a parser that no caller in the program uses
-- again; its state is left out.
pub mod Total
pub mod Body
pub mod Progress
use arrow_client.Base.{
  ℕ, zero, suc, ◌+◌, ◌-◌, Bool, true, false, ◌&&◌, Option, none, some, is_some, List, [], ◌∷◌, ◌++◌,
  length, take, drop, ltb, ◌==◌, if◌then◌else◌,
}
use arrow_client.Base.Parsing.{Parsing, ok, err, out_of_fuel, ◌>>=◌}
use arrow_client.Base.Text.{codes}
use arrow_client.Http.Fields.{Outside, get}
use arrow_client.Http.LineReader
use arrow_client.Http.LineReader.{LineReader}
use arrow_client.Http.Response.{crlf}
use arrow_client.Protocol.Service.{unwrap_or}
use arrow_client.Rtsp.Header as Lines
use arrow_client.Rtsp.Header.{ResponseHeader, StatusLine, HeaderParser}

pub record Response : Type 0 where
  pub header : ResponseHeader
  pub body : List ℕ

pub record ResponseParser : Type 0 where
  pub line_reader : LineReader
  pub header_parser : HeaderParser
  pub header : Option ResponseHeader
  pub body : List ℕ
  pub expected : ℕ

abbrev pub new : ℕ → ℕ → ResponseParser
new max_line_length max_lines = record {
  line_reader = LineReader.new max_line_length crlf;
  header_parser = Lines.new_parser max_lines;
  header = none;
  body = [];
  expected = 0;
}

abbrev pub is_complete : ResponseParser → Bool
is_complete p = is_some p.header && p.expected == 0

-- `ResponseParser::response`
unfoldable pub response : ResponseParser → Parsing Response
response p = elim p.header [
  | none ↦ err
  | some header ↦ if p.expected == 0 then ok (record { header = header; body = p.body }) else err
]

abbrev pub clear : ResponseParser → ResponseParser
clear p = record {
  line_reader = LineReader.clear p.line_reader;
  header_parser = Lines.clear p.header_parser;
  body = [];
  header = none;
  expected = 0;
}

-- A round of the loop of `process_body_data`: the bytes that are expected, as far as they are there
unfoldable pub take_body : List ℕ → ResponseParser → ResponseParser × ℕ
take_body buffer p =
    let len = if ltb (length buffer) p.expected then length buffer else p.expected in
    (record p { body = p.body ++ take len buffer; expected = p.expected - len }, len)

-- The loop of `process_body_data`, over the bytes that are left, with those that are used. The first
-- argument bounds the rounds.
unfoldable pub body_loop : ℕ → List ℕ → ℕ → ResponseParser → Parsing (ResponseParser × ℕ)
unfolding take_body
body_loop fuel [] pos p = ok (p, pos)
body_loop zero (b ∷ bs) pos p = if is_complete p then ok (p, pos) else out_of_fuel
body_loop (suc fuel) (b ∷ bs) pos p = elim (is_complete p) [
  | true ↦ ok (p, pos)
  | false ↦
      (let (p', len) = take_body (b ∷ bs) p in body_loop fuel (drop len (b ∷ bs)) (pos + len) p')
]

unfoldable pub process_body_data : List ℕ → ResponseParser → Parsing (ResponseParser × ℕ)
unfolding body_loop
process_body_data bytes p = body_loop (length bytes) bytes 0 p

-- `usize::from_str` is an argument too.
module _ (o : Outside) (status_captures : List ℕ → Option StatusLine)
    (usize_from_str : List ℕ → Option ℕ) where
  -- The header is complete: the length of the body is looked up in it. An absent one counts as 0.
  unfoldable pub take_header : ResponseParser → Parsing ResponseParser
  unfolding Lines.parsed_header get
  take_header p = Lines.parsed_header o status_captures p.header_parser >>= λ header.
      (get o usize_from_str (codes "content-length") header.headers header.header_map >>= λ len.
      ok (record p { expected = unwrap_or len 0; header = some header }))

  -- The line that the reader has
  unfoldable pub process_line : ResponseParser → Parsing ResponseParser
  unfolding Lines.add_line take_header
  process_line p =
      let line = LineReader.line p.line_reader in
      if o.is_utf8 line
      then (Lines.add_line o status_captures line p.header_parser >>= λ header_parser.
          (let p' = record p { header_parser = header_parser } in
            if Lines.is_complete header_parser then take_header p' else ok p'))
      else err

  -- What follows a call of the line reader
  unfoldable pub after_line : ResponseParser → Parsing ResponseParser
  unfolding process_line
  after_line p =
      if LineReader.is_complete p.line_reader
      then (process_line p >>= λ p. ok (record p { line_reader = LineReader.clear p.line_reader }))
      else ok p

  -- The loop of `process_header_data`, over the bytes that are left
  unfoldable pub header_loop : ℕ → List ℕ → ℕ → ResponseParser → Parsing (ResponseParser × ℕ)
  unfolding LineReader.add after_line
  header_loop fuel [] pos p = ok (p, pos)
  header_loop zero (b ∷ bs) pos p = if is_some p.header then ok (p, pos) else out_of_fuel
  header_loop (suc fuel) (b ∷ bs) pos p = elim (is_some p.header) [
    | true ↦ ok (p, pos)
    | false ↦ LineReader.add p.line_reader (b ∷ bs) >>= λ (line_reader, used).
        (after_line (record p { line_reader = line_reader }) >>= λ p.
        header_loop fuel (drop used (b ∷ bs)) (pos + used) p)
  ]

  unfoldable pub process_header_data : List ℕ → ResponseParser → Parsing (ResponseParser × ℕ)
  unfolding header_loop
  process_header_data bytes p = header_loop (length bytes) bytes 0 p

  -- A round of the loop of `add`
  unfoldable pub add_round : List ℕ → ResponseParser → Parsing (ResponseParser × ℕ)
  unfolding process_header_data process_body_data
  add_round bytes p =
      if is_some p.header then process_body_data bytes p else process_header_data bytes p

  -- The loop of `add`, over the bytes that are left
  unfoldable pub add_loop : ℕ → List ℕ → ℕ → ResponseParser → Parsing (ResponseParser × ℕ)
  unfolding add_round
  add_loop fuel [] pos p = ok (p, pos)
  add_loop zero (b ∷ bs) pos p = if is_complete p then ok (p, pos) else out_of_fuel
  add_loop (suc fuel) (b ∷ bs) pos p = elim (is_complete p) [
    | true ↦ ok (p, pos)
    | false ↦
        add_round (b ∷ bs) p >>= λ (p, used). add_loop fuel (drop used (b ∷ bs)) (pos + used) p
  ]

  -- `ResponseParser::add`: the number of bytes that are used
  unfoldable pub add : List ℕ → ResponseParser → Parsing (ResponseParser × ℕ)
  unfolding add_loop
  add chunk p = add_loop (length chunk) chunk 0 p
