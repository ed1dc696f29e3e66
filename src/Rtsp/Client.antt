-- ===== src/Rtsp/Client.antt =====
-- Requests, the texts of messages, and `Client` of src/net/rtsp/mod.rs.
pub mod Total
use arrow_client.Base.{
  ℕ, zero, suc, ◌+◌, ◌-◌, Bool, true, false, Option, none, some, List, [], ◌∷◌, ◌++◌, length, drop,
  leb, if◌then◌else◌,
}
use arrow_client.Base.Parsing.{Parsing, ok, err, out_of_fuel, ◌>>=◌}
use arrow_client.Base.Text.{codes}
use arrow_client.Http.Client.{Stream, show_headers}
use arrow_client.Http.Fields.{Header, Outside}
use arrow_client.Http.Response.{crlf}
use arrow_client.Rtsp.Header.{ResponseHeader, StatusLine}
use arrow_client.Rtsp.Response.{Response, ResponseParser, new, is_complete, response, clear, add}

-- `Method`
pub data Method : Type 0 where
  options_method describe_method : Method

abbrev pub name : Method → List ℕ
name options_method = codes "OPTIONS"
name describe_method = codes "DESCRIBE"

pub record Request : Type 0 where
  pub method : Method
  pub endpoint : List ℕ
  pub headers : List Header

-- `Request::new`
abbrev pub new_request : Method → List ℕ → Request
new_request method endpoint = record { method = method; endpoint = endpoint; headers = [] }

abbrev pub add_header : List ℕ → List ℕ → Request → Request
add_header name value r = record r { headers = r.headers ++ (name, value) ∷ [] }

-- `fmt` of a request
unfoldable pub show_request : Request → List ℕ
unfolding show_headers
show_request r =
    name r.method
    ++ (codes " "
        ++ (r.endpoint ++ (codes " RTSP/1.0" ++ (crlf ++ (show_headers r.headers ++ crlf)))))

-- `fmt` of a response header, with that of an `i32`
unfoldable pub show_header : (ℕ → List ℕ) → ResponseHeader → List ℕ
unfolding show_headers
show_header show_i32 h =
    codes "RTSP/1.0 "
    ++ (show_i32 h.code ++ (codes " " ++ (h.text ++ (crlf ++ (show_headers h.headers ++ crlf)))))

-- `Client`, with the version of the package; the port is a text.
pub record Client : Type 0 where
  pub parser : ResponseParser
  pub stream : Stream
  pub host : List ℕ
  pub port : List ℕ
  pub buffer : List ℕ
  pub offset : ℕ
  pub version : List ℕ

-- `Client::new`, with the stream of the connection
abbrev pub new_client : Stream → List ℕ → List ℕ → List ℕ → Client
new_client stream host port version = record {
  parser = new 4096 256;
  stream = stream;
  host = host;
  port = port;
  buffer = [];
  offset = 0;
  version = version;
}

-- The sequence number is 1 in every call.
unfoldable pub create_request : Client → Method → List ℕ → Request
create_request c method path =
    let endpoint = codes "rtsp://" ++ (c.host ++ (codes ":" ++ (c.port ++ path))) in
    add_header (codes "User-Agent") (codes "ArrowClient/" ++ c.version)
      (add_header (codes "CSeq") (codes "1") (new_request method endpoint))

-- What is left of the internal buffer
unfoldable pub keep_rest : List ℕ → Client → Client
keep_rest left c =
    let offset = length c.buffer - length left in
    if leb (length c.buffer) offset
    then record c { buffer = []; offset = 0 }
    else record c { offset = offset }

module _ (o : Outside) (status_captures : List ℕ → Option StatusLine)
    (usize_from_str : List ℕ → Option ℕ) where
  -- The two inner loops of `perform_request`: the bytes that are left when the response is complete. The
  -- first argument bounds the rounds.
  unfoldable pub feed : ℕ → List ℕ → ResponseParser → Parsing (ResponseParser × List ℕ)
  unfolding add
  feed fuel [] p = ok (p, [])
  feed zero (b ∷ bs) p = if is_complete p then ok (p, b ∷ bs) else out_of_fuel
  feed (suc fuel) (b ∷ bs) p = elim (is_complete p) [
    | true ↦ ok (p, b ∷ bs)
    | false ↦ add o status_captures usize_from_str (b ∷ bs) p >>= λ (p, used).
        feed fuel (drop used (b ∷ bs)) p
  ]

  -- The buffered data
  unfoldable pub process_buffered : Client → Parsing Client
  unfolding feed keep_rest
  process_buffered c =
      let waiting = drop c.offset c.buffer in
      feed (length waiting) waiting c.parser >>= λ (parser, left).
      ok (keep_rest left (record c { parser = parser }))

  -- The loop over the reads of the stream: `none` is an I/O error, and no bytes are its end.
  unfoldable pub read_loop : List (Option (List ℕ)) → Client → Parsing Client
  unfolding feed
  read_loop [] c = ok c
  read_loop (none ∷ reads) c = if is_complete c.parser then ok c else err
  read_loop (some [] ∷ reads) c = ok c
  read_loop (some (b ∷ bs) ∷ reads) c = elim (is_complete c.parser) [
    | true ↦ ok c
    | false ↦ feed (length (b ∷ bs)) (b ∷ bs) c.parser >>= λ (parser, left).
        read_loop reads (record c { parser = parser; buffer = c.buffer ++ left })
  ]

  -- The response, and the client for the next request
  unfoldable pub perform_request : Request → Client → Parsing (Client × Response)
  unfolding show_request process_buffered read_loop response
  perform_request request c =
      let bytes = show_request request in
      if c.stream.writes bytes
      then (process_buffered c >>= read_loop (c.stream.reads bytes) >>= λ c.
          (response c.parser >>= λ r. ok (record c { parser = clear c.parser }, r)))
      else err

  unfoldable pub options : Client → Parsing (Client × Response)
  unfolding create_request perform_request
  options c = perform_request (create_request c options_method (codes "/")) c

  unfoldable pub describe : List ℕ → Client → Parsing (Client × Response)
  unfolding create_request perform_request
  describe path c =
      perform_request
        (add_header (codes "Accept") (codes "application/sdp")
          (create_request c describe_method path))
        c
