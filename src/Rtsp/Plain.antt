-- ===== src/Rtsp/Plain.antt =====
-- A plain reading of the status line of src/net/rtsp/mod.rs, and clients with fixed answers.
use arrow_client.Base.{ℕ, true, Option, none, some, List, map, drop, if◌then◌else◌}
use arrow_client.Base.Text.{codes, starts_with}
use arrow_client.Http.Plain.{before, behind}
use arrow_client.Rtsp.Client.{Client, new_client}
use arrow_client.Rtsp.Header.{StatusLine}

-- `RTSP/1.0 code text`
abbrev pub status_of : List ℕ → Option StatusLine
status_of line =
    if starts_with line (codes "RTSP/1.0 ")
    then some (record { code = before 32 (drop 9 line); text = behind 32 (drop 9 line) })
    else none

-- A client whose every request is answered with some chunks
abbrev pub answered : List (List ℕ) → Client
answered chunks =
    new_client (record { writes = λ bytes. true; reads = λ bytes. map some chunks }) (codes "cam")
      (codes "554") (codes "1")
