-- ===== src/Http/Header.antt =====
-- `ResponseHeader` and `ResponseHeaderParser` of src/net/http.rs.
use arrow_client.Base.{
  ℕ, ◌+◌, Bool, true, false, Option, none, some, List, [], ◌∷◌, ltb, leb, if◌then◌else◌,
}
use arrow_client.Base.Dict.{Dict}
use arrow_client.Base.Parsing.{Parsing, ok, err, ◌>>=◌}
use arrow_client.Http.Fields.{Header, Outside, add_field, index_headers}

pub record ResponseHeader : Type 0 where
  pub version : List ℕ
  pub code : ℕ
  pub text : List ℕ
  pub headers : List Header
  pub header_map : Dict (List ℕ) ℕ

abbrev pub new : ResponseHeader
new = record { version = []; code = 0; text = []; headers = []; header_map = [] }

-- The groups of the expression for the status line
pub record StatusLine : Type 0 where
  pub version : List ℕ
  pub code : List ℕ
  pub text : List ℕ

-- `ResponseHeaderParser`, without its expressions
pub record HeaderParser : Type 0 where
  pub header : ResponseHeader
  pub max_lines : ℕ
  pub lines : ℕ
  pub complete : Bool

abbrev pub new_parser : ℕ → HeaderParser
new_parser max_lines = record { header = new; max_lines = max_lines; lines = 0; complete = false }

abbrev pub is_complete : HeaderParser → Bool
is_complete p = p.complete

-- `ResponseHeaderParser::header`
abbrev pub parsed_header : HeaderParser → Parsing ResponseHeader
parsed_header p = if p.complete then ok p.header else err

-- The captures of `^HTTP/(\d\.\d) (\d+) (.*)$` in a line are an argument.
module _ (o : Outside) (status_captures : List ℕ → Option StatusLine) where
  unfoldable pub parse_status_line : List ℕ → HeaderParser → Parsing HeaderParser
  parse_status_line line p = elim (status_captures line) [
    | none ↦ err
    | some caps ↦ elim (o.i32_from_str caps.code) [
      | none ↦ err
      | some code ↦ ok (record p {
        header = record (p.header) { code = code; text = caps.text; version = caps.version };
      })
    ]
  ]

  unfoldable pub parse_header_line : List ℕ → HeaderParser → Parsing HeaderParser
  unfolding index_headers add_field
  parse_header_line [] p = ok (record p {
    header = record (p.header) {
      header_map = index_headers o 0 p.header.headers p.header.header_map;
    };
    complete = true;
  })
  parse_header_line (c ∷ line) p = add_field o (c ∷ line) p.header.headers >>= λ headers.
      ok (record p { header = record (p.header) { headers = headers } })

  -- `ResponseHeaderParser::add`
  unfoldable pub add_line : List ℕ → HeaderParser → Parsing HeaderParser
  unfolding parse_status_line parse_header_line
  add_line line p =
      if leb p.max_lines p.lines
      then err
      else ((if ltb 0 p.lines then parse_header_line line p else parse_status_line line p) >>= λ p.
          ok (record p { lines = p.lines + 1 }))
