-- ===== src/Rtsp/Header.antt =====
-- `ResponseHeader` and `ResponseHeaderParser` of src/net/rtsp/mod.rs. The lines of fields are read as
-- in src/net/http.rs.
use arrow_client.Base.{
  ℕ, ◌+◌, Bool, true, false, Option, none, some, List, [], ◌∷◌, ltb, leb, if◌then◌else◌,
}
use arrow_client.Base.Dict.{Dict}
use arrow_client.Base.Parsing.{Parsing, ok, err, ◌>>=◌}
use arrow_client.Http.Fields.{Header, Outside, add_field, index_headers}

pub record ResponseHeader : Type 0 where
  pub code : ℕ
  pub text : List ℕ
  pub headers : List Header
  pub header_map : Dict (List ℕ) ℕ

-- The groups of the expression for the status line
pub record StatusLine : Type 0 where
  pub code : List ℕ
  pub text : List ℕ

-- `ResponseHeaderParser`, without its expressions
pub record HeaderParser : Type 0 where
  pub status_code : ℕ
  pub status_line : List ℕ
  pub headers : List Header
  pub max_lines : ℕ
  pub lines : ℕ
  pub complete : Bool

abbrev pub new_parser : ℕ → HeaderParser
new_parser max_lines = record {
  status_code = 0;
  status_line = [];
  headers = [];
  max_lines = max_lines;
  lines = 0;
  complete = false;
}

abbrev pub is_complete : HeaderParser → Bool
is_complete p = p.complete

abbrev pub clear : HeaderParser → HeaderParser
clear p = record p { status_code = 0; status_line = []; lines = 0; complete = false; headers = [] }

-- The captures of `^RTSP/1.0 (\d+) (.*)$` in a line are an argument.
module _ (o : Outside) (status_captures : List ℕ → Option StatusLine) where
  -- `ResponseHeader::new`
  unfoldable pub new : ℕ → List ℕ → List Header → ResponseHeader
  unfolding index_headers
  new code text headers = record {
    code = code;
    text = text;
    headers = headers;
    header_map = index_headers o 0 headers [];
  }

  unfoldable pub parse_status_line : List ℕ → HeaderParser → Parsing HeaderParser
  parse_status_line line p = elim (status_captures line) [
    | none ↦ err
    | some caps ↦ elim (o.i32_from_str caps.code) [
      | none ↦ err
      | some code ↦ ok (record p { status_code = code; status_line = caps.text })
    ]
  ]

  unfoldable pub parse_header_line : List ℕ → HeaderParser → Parsing HeaderParser
  unfolding add_field
  parse_header_line [] p = ok (record p { complete = true })
  parse_header_line (c ∷ line) p =
      add_field o (c ∷ line) p.headers >>= λ headers. ok (record p { headers = headers })

  -- `ResponseHeaderParser::add`
  unfoldable pub add_line : List ℕ → HeaderParser → Parsing HeaderParser
  unfolding parse_status_line parse_header_line
  add_line line p =
      if leb p.max_lines p.lines
      then err
      else ((if ltb 0 p.lines then parse_header_line line p else parse_status_line line p) >>= λ p.
          ok (record p { lines = p.lines + 1 }))

  -- `ResponseHeaderParser::header`
  unfoldable pub parsed_header : HeaderParser → Parsing ResponseHeader
  unfolding new
  parsed_header p = if p.complete then ok (new p.status_code p.status_line p.headers) else err
