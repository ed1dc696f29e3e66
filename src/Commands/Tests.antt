-- ===== src/Commands/Tests.antt =====
-- The main program at concrete inputs.
use arrow_client.Base.{
  ℕ, ◌+◌, ◌*◌, ◌-◌, ◌≡◌, ◌≢◌, refl, true, false, Option, none, some, List, [], ◌∷◌, ◌++◌, All,
  if◌then◌else◌, ltb, leb, replicate, length-replicate, ◌==◌, arith,
}
use arrow_client.Base.Int.{pos}
use arrow_client.Base.Outcome.{unauthorized, connection_error}
use arrow_client.Base.Text.{codes}
use arrow_client.Commands.Arguments.{tcp_service, parse_options}
use arrow_client.Commands.Arguments.Written.{parse_options-all_written}
use arrow_client.Commands.Parser.{Parser, Outside, syslog}
use arrow_client.Commands.Parser as Exits
use arrow_client.Commands.Arguments.Settings.{
  Setting, value, verbose, file, number, log_file, log_file_size, all_written, all_meaning, IsDigit,
  IsInLine, IsDocumented,
}
use arrow_client.Commands.Handler.{
  Handler, new, finished, panicked, wrapped, scan_completed, start_scan, notify,
  periodical_network_scan, network_scanner_thread,
}
use arrow_client.Commands.Handler.Dead.{IsDead, Run-IsDead}
use arrow_client.Commands.Handler.Scans.{
  System, Run, stay, step, posted, received, timer, scanned, with_scanner, IsConsistent,
  Run-IsConsistent,
}
use arrow_client.Commands.Retry.{
  failed, Client, Readings, again, round, settle, get_unauthorized_timeout, get_next_retry_timeout,
  unauthorized_state, disconnected,
}
use arrow_client.Commands.Retry.Laws.{Short, stay, then_round, round-Short}
use arrow_client.Commands.Seconds.{Float}
use arrow_client.Commands.Services.{Captures, Urls, parse_rtsp_url, parse_url, get_fake_mac_address}
use arrow_client.Commands.Services.Errors.{Reads, parse_rtsp_url_lem}
use arrow_client.Config
use arrow_client.Config.{AppContext}
use arrow_client.Connection.State.{scan_network}
use arrow_client.Net.Addr.{sock4}
use arrow_client.Protocol.Service.{locked_rtsp}
use arrow_client.Protocol.Payload.{Bytes16}
use arrow_client.Protocol.ServiceTable

-- Times in whole milliseconds
abbrev milliseconds : Float
milliseconds = record {
  F64 = ℕ;
  of_nat = λ n. n * 1000;
  half = 500;
  add = λ a b. a + b;
  sub = λ a b. a - b;
  lt = ltb;
  le = leb;
  millis = λ t. t;
}

abbrev zeros : Bytes16
zeros = record { octets = replicate 16 0; size = length-replicate {A = ℕ} 16 0 }

abbrev context : AppContext
context = record (Config.new_context (Config.new zeros zeros)) { discovery = true }

abbrev idle : Handler milliseconds
idle = new milliseconds ServiceTable.new context 1_000_000

abbrev at_start : System milliseconds
at_start = record { handler = idle; inbox = [] }

-- The timer starts a scan.
abbrev scanning : System milliseconds
scanning = record at_start {
  handler = (periodical_network_scan milliseconds 1_000_000 1_000_001 idle).0;
}

abbrev scan_over : System milliseconds
scan_over = record {
  handler = with_scanner scanning (scanning.handler.app_context) finished;
  inbox = scan_completed ∷ [];
}

abbrev scan_noted : System milliseconds
scan_noted = record {
  handler = notify milliseconds 1_000_900 scan_completed scan_over.handler;
  inbox = [];
}

whole_scan : Run at_start scan_noted
unfolding periodical_network_scan start_scan network_scanner_thread
whole_scan = step (timer 1_000_000 1_000_001) (
    step (scanned (pos 0) none (scanning.handler.app_context) refl refl)
      (step (received 1_000_900 scan_completed [] refl) stay))

Run-IsConsistent_example : IsConsistent scan_noted
Run-IsConsistent_example = Run-IsConsistent milliseconds whole_scan (refl, refl)

abbrev dead : System milliseconds
dead = record scanning { handler = with_scanner scanning (scanning.handler.app_context) panicked }

abbrev asked : System milliseconds
asked = record dead { inbox = wrapped scan_network ∷ [] }

abbrev asked_in_vain : System milliseconds
asked_in_vain = record {
  handler = notify milliseconds 9_000_000 (wrapped scan_network) dead.handler;
  inbox = [];
}

asking : Run dead asked_in_vain
asking =
    step (posted scan_network) (
      step {t = asked_in_vain} (received {s = asked} 9_000_000 (wrapped scan_network) [] refl) stay)

dead_start : IsDead {f = milliseconds} 1_000_001 dead
unfolding periodical_network_scan start_scan
dead_start = (refl, refl, refl)

Run-IsDead_example : IsDead {f = milliseconds} 1_000_001 asked_in_vain
Run-IsDead_example = Run-IsDead milliseconds 1_000_001 asking dead_start

-- A client whose timeout is 1200 seconds after its start
abbrev client : Client milliseconds
client = record { addr = 97 ∷ []; cur_addr = 97 ∷ []; unauthorized_timeout = 1_200_000 }

abbrev readings : ℕ → Readings milliseconds
readings t = record { attempt = t; after = t + 5; retry = t + 6; late = t + 7 }

refused : Short client client
unfolding round settle get_unauthorized_timeout get_next_retry_timeout
refused =
    then_round {c = client} {d = client} (readings 100) (failed connection_error) (some 59_993)
      disconnected refl refl stay

-- The first UNAUTHORIZED is answered with ten hours.
round-Short_example :
    round milliseconds false (readings 1_200_000) client (failed unauthorized)
    ≡ again client (some 36_000_000) unauthorized_state
round-Short_example = round-Short milliseconds refused (readings 1_200_000)

-- What stands behind a prefix
strip : List ℕ → List ℕ → Option (List ℕ)
strip [] s = some s
strip (p ∷ prefix) [] = none
strip (p ∷ prefix) (c ∷ s) = if c == p then strip prefix s else none

strip-append : (prefix s : List ℕ) → strip prefix (prefix ++ s) ≡ some s
unfolding strip
strip-append [] s = refl
strip-append (p ∷ prefix) s = ground (arith, strip-append prefix s)

abbrev outside : Outside
outside = record {
  discovery_feature = false;
  devices = [];
  capture_text = strip;
  capture_digits = strip;
  usize_from_str = λ digits. some 12;
}

abbrev documented : IsDocumented outside
documented = record {
  captures_text = λ prefix text lines. strip-append prefix text;
  captures_digits = λ prefix digits e d. strip-append prefix digits;
}

abbrev parser : Parser
parser = record {
  arrow_mac = record { a = 0; b = 1; c = 2; d = 3; e = 4; f = 5 };
  arrow_svc_addr = [];
  ca_certificates = [];
  rtsp_services = [];
  mjpeg_services = [];
  http_services = [];
  tcp_services = [];
  logger_type = syslog;
  config_file = [];
  state_file = [];
  rtsp_paths_file = [];
  mjpeg_paths_file = [];
  log_file = [];
  discovery = false;
  verbose = false;
  diagnostic_mode = false;
  log_file_size = 10;
  log_file_rotations = 1;
}

abbrev settings : List Setting
settings =
    value tcp_service (codes "10.0.0.1:80")
    ∷ verbose
    ∷ file log_file (codes "a")
    ∷ number log_file_size (codes "12") 12
    ∷ []

a_line : All IsInLine (codes "a")
a_line = ((λ e. omega (arith, e)), tt)

two_digits : codes "12" ≢ []
two_digits e = ground arith

digits : All IsDigit (codes "12")
digits = ((omega arith, omega arith), ((omega arith, omega arith), tt))

parse_options-all_written_example :
    parse_options outside (all_written settings) parser ≡ all_meaning outside settings parser
parse_options-all_written_example =
    parse_options-all_written outside settings parser documented
      (tt, (tt, (a_line, ((two_digits, digits, refl), tt))))

-- A URL with a host alone
abbrev host_only : Captures
host_only = record { credentials = none; host = codes "cam"; port = none; path = none }

-- The expressions take any text for a host.
abbrev urls : Urls
urls = record {
  rtsp_captures = λ url. some (record host_only { host = url });
  http_captures = λ url. some (record host_only { host = url });
  u16_from_str = λ s. none;
  get_socket_address = λ host port. none;
  get_socket_address_of = λ addr. none;
}

no_path_panics : parse_rtsp_url urls (codes "cam") ≡ Exits.panic
unfolding parse_rtsp_url parse_url
no_path_panics = refl

-- A URL with credentials, and no port
abbrev locked_url : Captures
locked_url = record host_only { credentials = some (codes "me:pw@"); path = some (codes "/") }

abbrev found : Urls
found = record urls {
  rtsp_captures = λ url. some locked_url;
  get_socket_address = λ host port. some (sock4 (record { a = 10; b = 0; c = 0; d = 7 }) port);
}

parse_rtsp_url_lem_example : Reads found (some locked_url) (parse_rtsp_url found (codes "cam"))
parse_rtsp_url_lem_example = parse_rtsp_url_lem found (codes "cam")

-- It names a locked service behind the port 554.
named_locked :
    parse_rtsp_url found (codes "cam")
    ≡ Exits.done (
        some (
          locked_rtsp
            (record { a = 255; b = 255; c = 10; d = 0; e = 0; f = 7 })
            (sock4 (record { a = 10; b = 0; c = 0; d = 7 }) 554)))
unfolding parse_rtsp_url parse_url get_fake_mac_address
named_locked = refl
