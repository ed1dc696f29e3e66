-- ===== src/Http/Client.antt =====
-- Requests, the texts of messages, and `Client` of src/net/http.rs. A string is the list of its bytes.
pub mod Lines
pub mod Documented
pub mod Written
pub mod RoundTrip
use arrow_client.Base.{ℕ, Bool, List, Option, none, [], ◌∷◌, ◌++◌, if◌then◌else◌}
use arrow_client.Base.Parsing.{Parsing, err, ◌>>=◌}
use arrow_client.Base.Text.{codes}
use arrow_client.Http.Fields.{Header, Outside}
use arrow_client.Http.Header.{ResponseHeader, StatusLine}
use arrow_client.Http.Response.{
  ResponseHandler, Response, crlf, response_builder, header_builder, response, built_header, new,
  read_response,
}

-- `Method`
pub data Method : Type 0 where
  head_method get_method : Method

abbrev pub name : Method → List ℕ
name head_method = codes "HEAD"
name get_method = codes "GET"

pub record Request : Type 0 where
  pub method : Method
  pub path : List ℕ
  pub headers : List Header

-- `Request::new`
abbrev pub new_request : Method → List ℕ → Request
new_request method path = record { method = method; path = path; headers = [] }

abbrev pub add_header : List ℕ → List ℕ → Request → Request
add_header name value r = record r { headers = r.headers ++ (name, value) ∷ [] }

-- The loop over the headers in each `fmt`
unfoldable pub show_headers : List Header → List ℕ
show_headers [] = []
show_headers ((name, val) ∷ hs) = name ++ (codes ": " ++ (val ++ (crlf ++ show_headers hs)))

-- `fmt` of a request
unfoldable pub show_request : Request → List ℕ
unfolding show_headers
show_request r =
    name r.method
    ++ (codes " " ++ (r.path ++ (codes " HTTP/1.0" ++ (crlf ++ (show_headers r.headers ++ crlf)))))

-- `fmt` of a response header, with that of an `i32`
unfoldable pub show_header : (ℕ → List ℕ) → ResponseHeader → List ℕ
unfolding show_headers
show_header show_i32 h =
    codes "HTTP/"
    ++ (h.version
        ++ (codes " "
            ++ (show_i32 h.code
                ++ (codes " " ++ (h.text ++ (crlf ++ (show_headers h.headers ++ crlf)))))))

-- `fmt` of a response, with `String::from_utf8_lossy`
unfoldable pub show_response : (List ℕ → List ℕ) → (ℕ → List ℕ) → Response → List ℕ
unfolding show_header
show_response from_utf8_lossy show_i32 r = show_header show_i32 r.header ++ from_utf8_lossy r.body

-- The stream of a client: whether `write_all` succeeds for a request, and what the reads give then.
pub record Stream : Type 0 where
  pub writes : List ℕ → Bool
  pub reads : List ℕ → List (Option (List ℕ))

-- `host` and the version of the package
pub record Client : Type 0 where
  pub stream : Stream
  pub host : List ℕ
  pub version : List ℕ

unfoldable pub create_request : Client → Method → List ℕ → Request
create_request c method path =
    add_header (codes "User-Agent") (codes "ArrowClient/" ++ c.version)
      (add_header (codes "Host") c.host (new_request method path))

abbrev pub add_headers : List Header → Request → Request
add_headers [] r = r
add_headers ((name, value) ∷ hs) r = add_headers hs (add_header name value r)

module _ (o : Outside) (status_captures : List ℕ → Option StatusLine) where
  unfoldable pub perform_request :
      {S : Type 0} → ResponseHandler S → Client → Request → S → Parsing S
  unfolding show_request read_response
  perform_request handler c request s =
      let bytes = show_request request in
      if c.stream.writes bytes
      then read_response o status_captures handler (c.stream.reads bytes) (new s 4096 256)
      else err

  unfoldable pub head : List ℕ → Client → Parsing ResponseHeader
  unfolding perform_request create_request
  head path c =
      let request = add_header (codes "Accept") (codes "*/*") (create_request c head_method path) in
      perform_request header_builder c request none >>= built_header

  unfoldable pub get : List ℕ → List Header → Client → Parsing Response
  unfolding perform_request create_request
  get path headers c =
      let request = add_headers headers (create_request c get_method path) in
      perform_request response_builder c request (record { header = none; body = [] }) >>= response

  unfoldable pub get_header : List ℕ → Client → Parsing ResponseHeader
  unfolding perform_request create_request
  get_header path c =
      let request = add_header (codes "Accept") (codes "*/*") (create_request c get_method path) in
      perform_request header_builder c request none >>= built_header
