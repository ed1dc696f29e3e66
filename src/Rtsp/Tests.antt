-- ===== src/Rtsp/Tests.antt =====
-- Tests of the RTSP client of src/net/rtsp.
use native.Mathlib.Decide.{ℕ_discrete}
use arrow_client.Base.{ℕ, ◌≡◌, refl, none, some, List, [], ◌∷◌, ◌++◌, arith}
use arrow_client.Base.Dict.{lookup, insert}
use arrow_client.Base.Parsing.{ok, panic, Ends}
use arrow_client.Base.Text.{codes}
use arrow_client.Http.Fields.{Text-discrete}
use arrow_client.Http.LineReader
use arrow_client.Http.Plain.{plain, number_of}
use arrow_client.Http.Response.{crlf}
use arrow_client.Rtsp.Client.{Client, create_request, options_method, perform_request, options}
use arrow_client.Rtsp.Client.Total.{IsUsable, perform_request-Ends}
use arrow_client.Rtsp.Plain.{status_of, answered}
use arrow_client.Rtsp.Response.{Response, ResponseParser, new, process_body_data}
use arrow_client.Rtsp.Response.Body.{process_body_data_lem}

abbrev camera : Client
camera = answered (
    (codes "RTSP/1.0 200 OK" ++ crlf ++ codes "Content-Le")
    ∷ (codes "ngth: 3" ++ crlf ++ crlf ++ codes "ab")
    ∷ codes "cd"
    ∷ [])

camera-IsUsable : IsUsable camera
unfolding LineReader.find_from
camera-IsUsable = record {
  incomplete = refl;
  within = omega arith;
  absent = refl;
  some_separator = omega arith;
}

perform_request-Ends_example :
    Ends
      ((t : List ℕ) × (number_of t ≡ none))
      (λ (t : Client × Response). IsUsable t.0)
      (perform_request plain status_of number_of
        (create_request camera options_method (codes "/"))
        camera)
perform_request-Ends_example =
    perform_request-Ends plain status_of number_of
      (create_request camera options_method (codes "/")) camera camera-IsUsable

-- A parser that expects three bytes
abbrev expecting : ResponseParser
expecting = record (new 4096 256) {
  header = some (record { code = 200; text = codes "OK"; headers = []; header_map = [] });
  expected = 3;
}

process_body_data_lem_example :
    process_body_data (codes "abcd") expecting
    ≡ ok (record expecting { body = codes "abc"; expected = 0 }, 3)
process_body_data_lem_example = process_body_data_lem (codes "abcd") expecting refl

-- A response whose length is no number makes the client panic.
bad_length :
    options plain status_of number_of (
      answered
        ((codes "RTSP/1.0 200 OK" ++ crlf ++ codes "Content-Length: x" ++ crlf ++ crlf) ∷ []))
    ≡ panic
unfolding options lookup insert Text-discrete ℕ_discrete
bad_length = refl
