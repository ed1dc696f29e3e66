-- ===== src/Http/Tests.antt =====
-- Tests of the HTTP client of src/net/http.rs.
use native.Mathlib.Decide.{ℕ_discrete}
use arrow_client.Base.{
  ℕ, ◌≤◌, ◌<◌, ◌≡◌, refl, inr, none, some, List, [], ◌∷◌, ◌++◌, map, true, arith, ap, sym,
  append_assoc,
}
use arrow_client.Base.Dict.{insert}
use arrow_client.Base.Parsing.{ok, IsSettled, ◌>>=◌}
use arrow_client.Base.Text.{codes}
use arrow_client.Http.Fields.{Header, Text-discrete, index_headers}
use arrow_client.Http.LineReader
use arrow_client.Http.LineReader.{LineReader}
use arrow_client.Http.LineReader.Laws.{IsReading, add_lem, cut, seen}
use arrow_client.Http.LineReader.Search.{position}
use arrow_client.Http.Client.{Client, get, show_response}
use arrow_client.Http.Client.Documented.{IsNameCharacter, IsTextCharacter, IsSendable}
use arrow_client.Http.Client.RoundTrip.{get-show_response}
use arrow_client.Http.Plain.{plain, lossy, status_of, show_plain}
use arrow_client.Http.Plain.Documented.{plain-IsDocumented, lossy-KeepsUtf8}
use arrow_client.Http.Response.{
  Response, ResponseBuilder, ResponseParser, response_builder, new, add, read_response, crlf,
}
use arrow_client.Http.Response.Loop.{IsIncremental}
use arrow_client.Http.Response.Total.{
  read_response-IsSettled, read_response-concat, concat, handled,
}

abbrev chunks : List (List ℕ)
chunks =
    codes "HTTP/1.1 200 O"
    ∷ (codes "K" ++ crlf ++ codes "Server: x" ++ (13 ∷ []))
    ∷ ((10 ∷ []) ++ codes "SERVER:  cam" ++ (crlf ++ crlf) ++ codes "abc")
    ∷ codes "def"
    ∷ []

abbrev server : List Header
server = (codes "Server", codes "x") ∷ (codes "SERVER", codes "cam") ∷ []

abbrev start : ResponseParser ResponseBuilder
start = new (record { header = none; body = [] }) 40 5

abbrev reader : LineReader
reader = record (LineReader.new 8 crlf) { buffer = codes "ab" ++ (13 ∷ []) }

reader-IsReading : IsReading reader
unfolding LineReader.find_from
reader-IsReading = record {
  incomplete = refl;
  within = omega arith;
  absent = refl;
  some_separator = omega arith;
}

start-IsReading : IsReading start.line_reader
unfolding LineReader.find_from
start-IsReading = record {
  incomplete = refl;
  within = omega arith;
  absent = refl;
  some_separator = omega arith;
}

response_builder-IsIncremental : IsIncremental response_builder
response_builder-IsIncremental = record {
  body_append =
      λ xs ys b. ap (λ body. (record b { body = body }, true)) (sym (append_assoc b.body xs ys));
}

add_lem_example :
    LineReader.add reader (10 ∷ 99 ∷ [])
    ≡ cut reader (10 ∷ 99 ∷ []) (position crlf (seen reader (10 ∷ 99 ∷ [])))
add_lem_example = add_lem reader (10 ∷ 99 ∷ []) reader-IsReading

read_response-IsSettled_example :
    IsSettled (read_response plain status_of response_builder (map some chunks) start)
read_response-IsSettled_example =
    read_response-IsSettled plain status_of response_builder (map some chunks) start
      (inr start-IsReading)

read_response-concat_example :
    read_response plain status_of response_builder (map some chunks) start ≡ (
      add plain status_of response_builder (concat chunks) start
      >>= handled plain status_of response_builder)
read_response-concat_example =
    read_response-concat plain status_of response_builder chunks start
      response_builder-IsIncremental (inr start-IsReading)
      ((λ e. cc), ((λ e. cc), ((λ e. cc), ((λ e. cc), tt))))

-- What the chunks are read as
reads_chunks :
    read_response plain status_of response_builder (map some chunks) start
    ≡ ok (record {
      header = some (record {
        version = codes "1.1";
        code = 200;
        text = codes "OK";
        headers = server;
        header_map = (codes "server", 1) ∷ [];
      });
      body = codes "abcdef";
    })
unfolding read_response insert Text-discrete ℕ_discrete
reads_chunks = refl

-- A response of a camera, in chunks
abbrev shown : Response
shown = record {
  header = record {
    version = codes "1.1";
    code = 401;
    text = codes "No";
    headers = (codes "Server", codes "cam") ∷ [];
    header_map = [];
  };
  body = codes "hi";
}

abbrev parts : List (List ℕ)
parts =
    (codes "HTTP/1.1 401 No" ++ crlf ++ codes "Ser")
    ∷ (codes "ver: cam" ++ crlf ++ crlf ++ codes "h")
    ∷ codes "i"
    ∷ []

abbrev camera : Client
camera = record {
  stream = record { writes = λ bytes. true; reads = λ bytes. map some parts };
  host = codes "cam";
  version = codes "1";
}

letter : (c : ℕ) → 64 ≤ c → c < 128 → IsNameCharacter c
letter c h k = ((λ e. omega arith), (λ e. omega arith), (λ e. omega arith), k)

word : (c : ℕ) → 32 ≤ c → c < 128 → IsTextCharacter c
word c h k = ((λ e. omega arith), k)

shown-IsSendable : IsSendable show_plain shown.header
shown-IsSendable = record {
  version = (49, 49, refl, (omega arith, omega arith), (omega arith, omega arith));
  code = omega arith;
  text = (word 78 (omega arith) (omega arith), (word 111 (omega arith) (omega arith), tt));
  short = omega arith;
  headers = (
    (
      (λ e. cc),
      (
        letter 83 (omega arith) (omega arith),
        (
          letter 101 (omega arith) (omega arith),
          (
            letter 114 (omega arith) (omega arith),
            (
              letter 118 (omega arith) (omega arith),
              (
                letter 101 (omega arith) (omega arith),
                (letter 114 (omega arith) (omega arith), tt),
              ),
            ),
          ),
        ),
      ),
      (
        word 99 (omega arith) (omega arith),
        (word 97 (omega arith) (omega arith), (word 109 (omega arith) (omega arith), tt)),
      ),
      omega arith,
      omega arith,
    ),
    tt,
  );
  few = omega arith;
}

get-show_response_example :
    get plain status_of (codes "/") [] camera
    ≡ ok (record shown { header = record (shown.header) { header_map = (codes "server", 0) ∷ [] } })
unfolding insert Text-discrete ℕ_discrete show_response index_headers
get-show_response_example =
    get-show_response plain status_of show_plain plain-IsDocumented camera (codes "/") [] shown
      parts lossy lossy-KeepsUtf8 refl shown-IsSendable ((λ e. cc), ((λ e. cc), ((λ e. cc), tt)))
      refl refl refl
