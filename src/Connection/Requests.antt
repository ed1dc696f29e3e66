-- ===== src/Connection/Requests.antt =====
-- How `ConnectionHandler` (src/net/arrow/mod.rs) processes the messages of the Arrow Service.
pub mod Handshake
pub mod Total
use native.Mathlib.Decide.{ℕ_discrete}
use arrow_client.Base.{
  ℕ, suc, ◌+◌, Bool, true, false, Option, none, some, List, [], ◌∷◌, ◌++◌, length, drop, ◌==◌,
  if◌then◌else◌,
}
use arrow_client.Base.Dict.{lookup, contains_key, insert, remove}
use arrow_client.Base.Outcome.{
  Outcome, ok, err, panic, other, unauthorized, unsupported_protocol_version, arrow_server_error,
  ◌>>=◌ as and_then,
}
use arrow_client.Base.Stateful.{Stateful, pure, fail, then_do, ◌>>=◌, ◌>>◌, modify, read}
use arrow_client.Config
use arrow_client.Config.{AppContext}
use arrow_client.Net.Addr.{SocketAddr}
use arrow_client.Net.Timeout
use arrow_client.Protocol.Control
use arrow_client.Protocol.Control.{
  ControlHeader, MessageType, ack, ping, redirect, hup, reset_svc_table, scan_network, get_status,
  get_scan_report, register, update, status, scan_report, unknown, message_type,
}
use arrow_client.Protocol.Message.{Header}
use arrow_client.Protocol.Parser
use arrow_client.Protocol.Payload.{
  HupMessage, hup_from_bytes, parse_ack_message, ack_no_error, ack_unauthorized,
  ack_unsupported_protocol_version, ack_unsupported_method, ack_internal_server_error,
}
use arrow_client.Protocol.Service
use arrow_client.Connection.Send.{send_hup_message, send_status, send_scan_report, send_ack_message}
use arrow_client.Connection.Session
use arrow_client.Connection.Session.{S, Live, session2token}
use arrow_client.Connection.State.{
  Command, Call, register_socket, deregister_socket, timeout_ms, send_command, TimerEvent,
  timeout_check, SessionContext, ProtocolState, handshake, established, Handler, Env, M, call,
  timeout_check_period, update_check_period, ping_period, connection_timeout,
}
use arrow_client.Connection.SessionMap.{
  SocketEventResult, get_session_context, in_session, open_session, service_address,
  create_session_context, remove_session_context,
}

unfoldable pub process_handshake_ack : Env → List ℕ → SocketEventResult
unfolding parse_ack_message
process_handshake_ack env msg h = elim (h.state) [
  | established ↦ (h, panic)
  | handshake ↦
      (do
        code ← fail (parse_ack_message msg)
        if code == ack_no_error
            then (do
              modify (λ h. record h { state = established })
              call (timeout_ms TimerEvent.update update_check_period)
              call (timeout_ms TimerEvent.ping ping_period)
              pure (if env.app.diagnostic_mode then some [] else none))
            else if code == ack_unauthorized
            then fail (err unauthorized)
            else if code == ack_unsupported_protocol_version
            then fail (err unsupported_protocol_version)
            else if code == ack_internal_server_error
            then fail (err arrow_server_error)
            else fail (err other))
        h
]

-- `pop_front` of the expected IDs, and the timeout for the next of them.
unfoldable pub pop_expected_ack : Env → M (Option ℕ)
pop_expected_ack env h = elim (h.expected_acks) [
  | [] ↦ (record h { ack_tout = Timeout.clear h.ack_tout }, ok none)
  | expected_ack ∷ acks ↦ (
    record h {
      expected_acks = acks;
      ack_tout =
          if length acks == 0
          then Timeout.clear h.ack_tout
          else Timeout.set env.now connection_timeout h.ack_tout;
    },
    ok (some expected_ack),
  )
]

unfoldable pub acknowledged : Env → List ℕ → SocketEventResult
unfolding process_handshake_ack
acknowledged env msg h = elim (h.state) [
  | handshake ↦ process_handshake_ack env msg h
  | established ↦ (h, ok none)
]

unfoldable pub check_ack : Env → ℕ → List ℕ → Option ℕ → SocketEventResult
unfolding acknowledged
check_ack env msg_id msg none = fail (err other)
check_ack env msg_id msg (some expected_ack) =
    if msg_id == expected_ack then acknowledged env msg else fail (err other)

unfoldable pub process_ack_message : Env → ℕ → List ℕ → SocketEventResult
unfolding pop_expected_ack check_ack
process_ack_message env msg_id msg = pop_expected_ack env >>= check_ack env msg_id msg

unfoldable pub process_ping_message : Env → ℕ → SocketEventResult
unfolding send_ack_message
process_ping_message env msg_id h = elim (h.state) [
  | established ↦ (send_ack_message env msg_id 0 >> pure none) h
  | handshake ↦ (h, err other)
]

-- `CStr::from_ptr`: the bytes up to the first zero, wherever in memory it stands. To run off the
-- memory given, which has no defined outcome, counts as a panic.
unfoldable pub until_nul : List ℕ → Outcome (List ℕ)
until_nul [] = panic
until_nul (b ∷ bs) =
    let rest = until_nul bs in if b == 0 then ok [] else and_then rest (λ cs. ok (b ∷ cs))

unfoldable pub process_redirect_message : Env → List ℕ → SocketEventResult
unfolding until_nul
process_redirect_message env msg h = elim (h.state) [
  | established ↦
      (do
        addr ← fail (until_nul (msg ++ env.memory_behind))
        pure (some (env.from_utf8_lossy addr)))
        h
  | handshake ↦ (h, err other)
]

unfoldable pub process_hup_message : Env → List ℕ → SocketEventResult
unfolding hup_from_bytes remove_session_context
process_hup_message env msg h = elim (h.state) [
  | established ↦
      (do hup_msg ← fail (hup_from_bytes msg); remove_session_context hup_msg.session_id; pure none)
        h
  | handshake ↦ (h, err other)
]

-- A command that the channel does not take is only logged.
unfoldable pub process_command : Env → Command → SocketEventResult
process_command env cmd =
    if env.accepts cmd then call (send_command cmd) >> pure none else pure none

unfoldable pub process_status_request : Env → ℕ → SocketEventResult
unfolding send_status
process_status_request env msg_id = send_status env msg_id >> pure none

unfoldable pub process_scan_report_request : Env → ℕ → SocketEventResult
unfolding send_scan_report send_ack_message
process_scan_report_request env msg_id =
    if env.app.discovery
    then send_scan_report env msg_id >> pure none
    else send_ack_message env msg_id ack_unsupported_method >> pure none

-- The session that a request is for gets its bytes; without one, the service is told.
unfoldable pub deliver : Env → ℕ → List ℕ → Option SessionContext → SocketEventResult
unfolding send_hup_message Session.send_message
deliver env session_id request none = send_hup_message env session_id 1 >> pure none
deliver env session_id request (some ctx) =
    in_session session_id ctx (Session.send_message env.now request) >> pure none

unfoldable pub process_service_request : Env → ℕ → ℕ → SocketEventResult
unfolding create_session_context deliver
process_service_request env service_id session_id h = elim (h.state) [
  | handshake ↦ (h, err other)
  | established ↦ elim (Parser.body h.req_parser) [
    | none ↦ (h, panic)
    | some request ↦
        (do
          modify (λ h. record h { req_parser = Parser.clear h.req_parser })
          ctx ← create_session_context env service_id session_id
          deliver env session_id request ctx)
          h
  ]
]

unfoldable pub control_parts : Control.ControlParser → Outcome (ControlHeader × List ℕ)
unfolding message_type
control_parts parser = and_then (Control.parsed_header parser) (λ header.
    and_then (Control.parsed_body parser)
      (λ body. elim (message_type header) [ unknown ↦ err other | _ ↦ ok (header, body) ]))

unfoldable pub parse_control_message : Parser.Parser → Outcome (ControlHeader × List ℕ)
unfolding Control.process control_parts
parse_control_message req_parser = elim (Parser.body req_parser) [
  | none ↦ panic
  | some body ↦
      let (parser, res) = Control.process Control.new_parser body in
      and_then res (λ u. control_parts parser)
]

unfoldable pub dispatch : Env → MessageType → ℕ → List ℕ → SocketEventResult
unfolding process_ack_message process_ping_message process_redirect_message process_hup_message
    process_command process_status_request process_scan_report_request
dispatch env ack msg_id body = process_ack_message env msg_id body
dispatch env ping msg_id body = process_ping_message env msg_id
dispatch env redirect msg_id body = process_redirect_message env body
dispatch env hup msg_id body = process_hup_message env body
dispatch env reset_svc_table msg_id body = process_command env Command.reset_service_table
dispatch env scan_network msg_id body = process_command env Command.scan_network
dispatch env get_status msg_id body = process_status_request env msg_id
dispatch env get_scan_report msg_id body = process_scan_report_request env msg_id
dispatch env register msg_id body = fail (err other)
dispatch env update msg_id body = fail (err other)
dispatch env status msg_id body = fail (err other)
dispatch env scan_report msg_id body = fail (err other)
dispatch env unknown msg_id body = fail (err other)

-- The parser is cleared whatever the message came to.
abbrev pub then_clear : Handler × Outcome (Option (List ℕ)) → Handler × Outcome (Option (List ℕ))
then_clear (h, panic) = (h, panic)
then_clear (h, res) = (record h { req_parser = Parser.clear h.req_parser }, res)

-- The message is handled if it could be parsed.
unfoldable pub handle_parsed : Env → Outcome (ControlHeader × List ℕ) → SocketEventResult
unfolding dispatch
handle_parsed env (ok (header, body)) h =
    then_clear (dispatch env (message_type header) header.msg_id body h)
handle_parsed env (err e) h = (h, err e)
handle_parsed env panic h = (h, panic)
handle_parsed env Outcome.out_of_fuel h = (h, Outcome.out_of_fuel)

unfoldable pub process_control_message : Env → SocketEventResult
unfolding parse_control_message handle_parsed
process_control_message env h = handle_parsed env (parse_control_message h.req_parser) h

unfoldable pub process_request : Env → SocketEventResult
unfolding process_control_message process_service_request
process_request env h = elim (h.req_parser.header) [
  | none ↦ (h, panic)
  | some header ↦
      if header.service == 0
      then process_control_message env h
      else process_service_request env header.service header.session h
]
