-- ===== src/Connection/Tests.antt =====
-- Runs of the connection handler at concrete inputs.
use mathlib.Core.Option
use native.Mathlib.Decide.{ℕ_discrete}
use arrow_client.Base.{
  List, ℕ, ◌*◌, ◌≡◌, ◌↔◌, ◌⊎◌, refl, true, false, none, some, [], ◌∷◌, ◌++◌, length, replicate,
  length-replicate, take, drop, min, if◌then◌else◌, arith,
}
use arrow_client.Base.Dict.{lookup, insert, remove}
use arrow_client.Base.Outcome.{ok, err, panic, other}
use arrow_client.Config
use arrow_client.Config.{AppContext}
use arrow_client.Net.Addr.{MacAddr}
use arrow_client.Net.ByteQueue
use arrow_client.Net.Timeout
use arrow_client.Protocol.Control.{MessageType}
use arrow_client.Protocol.Message
use arrow_client.Protocol.Message.{raw_body}
use arrow_client.Protocol.Parser
use arrow_client.Protocol.Payload.{
  Bytes16, empty, register_body, hup_body, status_body, create_ping_message,
}
use arrow_client.Protocol.ScanReport.Laws.{scan_report_body}
use arrow_client.Protocol.ServiceTable
use arrow_client.Protocol.ServiceTable.{table_body}
use arrow_client.Connection.Events.{connected, read_loop, read_request, check_session_timeout}
use arrow_client.Connection.Events.Loop.{Settled, read_request_settles, new-IsOpen}
use arrow_client.Connection.Events.Messages.{stream, process_messages, read_loop-process_messages}
use arrow_client.Connection.Events.Timers.{IsChecked, check_session_timeout_lem}
use arrow_client.Connection.Pump.{SslResult, Io, move_input, fill_output_buffer}
use arrow_client.Connection.Pump.Laws.{move_input_lem}
use arrow_client.Connection.Requests.{process_request, process_service_request, dispatch}
use arrow_client.Connection.SessionMap.{get_session_context}
use arrow_client.Connection.Requests.Handshake.{is_confirmation, dispatch_in_handshake}
use arrow_client.Connection.Requests.Total.{returns, process_request_total}
use arrow_client.Connection.Send.{
  send_unconfirmed_control_message, send_ping_message, send_hup_message, send_status,
  send_scan_report, send_update_message, create_register_request,
}
use arrow_client.Connection.Send.Ids.{IsSent, Takes, IsTimed, unconfirmed-IsTimed, next_msg_id}
use arrow_client.Connection.Served.{IsServed, insert-Served, has}
use arrow_client.Connection.Pump.{session_socket_ready}
use arrow_client.Connection.Served.Close.{session_socket_ready-IsServed}
use arrow_client.Connection.Served.Rounds.{fill_output_buffer-IsServed, service_request-IsServed}
use arrow_client.Connection.Session
use arrow_client.Connection.Session.{
  session2token, token2session, token2session-session2token, input_ready,
}
use arrow_client.Connection.State.{SessionContext, established, Handler, Env}

abbrev fake_mac : MacAddr
fake_mac = record { a = 1; b = 2; c = 3; d = 4; e = 5; f = 6 }

abbrev zeros : Bytes16
zeros = record { octets = replicate 16 0; size = length-replicate {A = ℕ} 16 0 }

abbrev env : Env
env = record {
  now = 5_000_000_000;
  app = Config.new_context (Config.new zeros zeros);
  connects = λ addr. true;
  accepts = λ cmd. true;
  overflow_checks = true;
  memory_behind = 0 ∷ [];
  from_utf8_lossy = λ bytes. bytes;
}

-- A session that has read four bytes.
abbrev session : SessionContext
session = record (Session.new 7 5) {
  input_buffer = ByteQueue.write (1 ∷ 2 ∷ 3 ∷ 4 ∷ []) (ByteQueue.new (256 * 1024));
}

-- A handler with that session, whose REGISTER request has been confirmed.
abbrev running : Handler
running = record connected {
  sessions = (5, session) ∷ [];
  session_queue = 5 ∷ [];
  state = established;
  msg_id = 1;
}

abbrev registering : Handler
registering = record connected { msg_id = 1; expected_acks = 0 ∷ [] }

abbrev io : Io
io = record {
  read_result =
      SslResult.ssl_done (1 ∷ 0 ∷ 0 ∷ 0 ∷ 0 ∷ 0 ∷ 0 ∷ 0 ∷ 0 ∷ 0 ∷ 4 ∷ 0 ∷ 8 ∷ 0 ∷ 1 ∷ 1 ∷ []);
  write_result = SslResult.ssl_done 0;
  error = false;
  session = record {
    read_result = Session.read_would_block;
    write_result = Session.write_would_block;
    error = false;
  };
}

-- A PING, and the first byte of the next message.
read_request_settles_example : Settled (read_request env io running)
read_request_settles_example = read_request_settles env io running new-IsOpen

dispatch_in_handshake_example :
    let (h', r) = dispatch env MessageType.ack 0 (0 ∷ 0 ∷ 0 ∷ 0 ∷ []) registering in
    (h'.sessions ≡ [])
    × (h'.session_queue ≡ [])
    × ((h'.state ≡ established) ↔ (
        (MessageType.ack ≡ MessageType.ack)
        × (is_confirmation 0 (0 ∷ 0 ∷ 0 ∷ 0 ∷ []) (0 ∷ []) ≡ true)))
    × ((service_id session_id : ℕ)
        → process_service_request env service_id session_id registering ≡ (registering, err other))
dispatch_in_handshake_example =
    dispatch_in_handshake env registering refl MessageType.ack 0 (0 ∷ 0 ∷ 0 ∷ 0 ∷ [])

process_request_total_example :
    (returns ((process_request env running).1) ≡ true)
    × ((process_request env running).1 ≡ ok none
        → (process_request env running).0.req_parser ≡ Parser.new)
process_request_total_example = process_request_total env running

running-IsServed : IsServed running
unfolding insert lookup has
running-IsServed = insert-Served 5 session [] [] (5 ∷ []) (λ k ctx e. cc) refl refl (λ j q n. cc)

fill_output_buffer-IsServed_example : IsServed (fill_output_buffer env running)
fill_output_buffer-IsServed_example = fill_output_buffer-IsServed env running running-IsServed

service_request-IsServed_example : IsServed ((process_service_request env 7 5 running).0)
service_request-IsServed_example = service_request-IsServed env 7 5 running running-IsServed

move_input_lem_example :
    let h' = move_input env 3 5 session running in
    let bytes = session.input_buffer.bytes in
    let moved = take (min 3 (length bytes)) bytes in
    let left = drop (min 3 (length bytes)) bytes in
    (moved ++ left ≡ bytes)
    × (h'.output_buffer.bytes
        ≡ running.output_buffer.bytes
          ++ (if input_ready session
              then Message.serialize raw_body (Message.new 7 5 moved)
              else []))
    × (Option.map (λ (c : SessionContext). c.input_buffer.bytes) (get_session_context 5 h')
        ≡ some left)
move_input_lem_example = move_input_lem env 3 5 session running

no_acks : IsTimed running
unfolding Timeout.new
no_acks = refl

unconfirmed-IsTimed_example :
    let (h', r) = send_unconfirmed_control_message env empty (create_ping_message 1) running in
    (h'.ack_tout ≡ record { timeout = some 25_000_000_000 })
    × (h'.expected_acks ≡ 1 ∷ [])
    × IsSent empty (create_ping_message 1) running h'
    × IsTimed h'
    × (r ≡ ok tt)
unconfirmed-IsTimed_example = unconfirmed-IsTimed env empty (create_ping_message 1) running no_acks

abbrev last_id : Handler
last_id = record running { msg_id = 65535 }

next_msg_id_example :
    (let (h', r) = create_register_request env fake_mac last_id in
      Takes register_body 2 last_id h' × (r ≡ ok tt))
    × (let (h', r) = send_update_message env ServiceTable.new last_id in
        Takes table_body 4 last_id h' × (r ≡ ok tt))
    × (let (h', r) = send_ping_message env last_id in Takes empty 1 last_id h' × (r ≡ ok tt))
    × (let (h', r) = send_hup_message env 5 0 last_id in Takes hup_body 5 last_id h' × (r ≡ ok tt))
    × (let (h', r) = send_status env 3 last_id in Takes status_body 9 last_id h' × (r ≡ ok tt))
    × (let (h', r) = send_scan_report env 3 last_id in
        ((true ≡ true) × (last_id.msg_id ≡ 65535) × (h' ≡ last_id) × (r ≡ panic))
        ⊎ (((true ≡ true) × (last_id.msg_id ≡ 65535) → ⊥)
            × Takes scan_report_body 11 last_id h'
            × (r ≡ ok tt)))
next_msg_id_example = next_msg_id env fake_mac ServiceTable.new 3 5 0 last_id (omega arith)

-- The timeout of the session 5 has expired.
abbrev late : Handler
late = record running {
  sessions = (5, record session { write_tout = record { timeout = some 4_000_000_000 } }) ∷ [];
}

check_session_timeout_lem_example : IsChecked env 5 late (check_session_timeout env 5 late)
check_session_timeout_lem_example = check_session_timeout_lem env 5 late

-- It is removed.
late_removed : (check_session_timeout env 5 late).0.sessions ≡ []
unfolding check_session_timeout remove lookup ℕ_discrete
late_removed = refl

-- A PING and a request for the service 7.
abbrev messages : List (Message.Message (List ℕ))
messages = Message.new 0 0 (0 ∷ 8 ∷ 0 ∷ 1 ∷ []) ∷ Message.new 7 5 (1 ∷ 2 ∷ []) ∷ []

read_loop-process_messages_example :
    read_loop 2 env (stream messages) running ≡ process_messages env messages running
read_loop-process_messages_example =
    read_loop-process_messages env messages 2 running
      (
        record { service = omega arith; size = omega arith },
        (record { service = omega arith; size = omega arith }, tt),
      )
      refl (omega arith)

abbrev hang_up : Session.EventSet
hang_up = record { readable = true; writable = false; error = false; hup = true }

session_socket_ready-IsServed_example : IsServed ((session_socket_ready env io 5 hang_up running).0)
session_socket_ready-IsServed_example =
    session_socket_ready-IsServed env io 5 hang_up running running-IsServed
