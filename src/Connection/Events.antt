-- ===== src/Connection/Events.antt =====
-- The events of the connection in src/net/arrow/mod.rs: the sockets and the timers.
pub mod Loop
pub mod Messages
pub mod Timers
use arrow_client.Base.{
  ℕ, zero, suc, ◌+◌, ◌*◌, Bool, true, false, ◌&&◌, ◌||◌, not, Option, none, some, is_some, List, [],
  ◌∷◌, ◌++◌, length, drop, ◌==◌, if◌then◌else◌,
}
use arrow_client.Base.Outcome.{Outcome, ok, err, panic, out_of_fuel, connection_error, other}
use arrow_client.Base.Stateful.{Stateful, pure, fail, then_do, ◌>>=◌, ◌>>◌, modify, read}
use arrow_client.Net.Addr.{MacAddr}
use arrow_client.Net.ByteQueue
use arrow_client.Net.Timeout
use arrow_client.Protocol.Parser
use arrow_client.Connection.Pump.{
  SslResult, Io, stream_read, can_read, can_write, send_response, session_socket_ready,
}
use arrow_client.Connection.Requests.{process_request}
use arrow_client.Connection.SessionMap.{
  SocketEventResult, get_session_context, remove_session_context,
}
use arrow_client.Connection.Send.{
  create_register_request, send_ping_message, send_hup_message, check_update,
}
use arrow_client.Connection.Session.{EventSet, session2token, token2session}
use arrow_client.Connection.State.{
  Call, register_socket, timeout_ms, TimerEvent, timeout_check, SessionContext, StreamState,
  ProtocolState, handshake, Handler, Env, M, call, timeout_check_period, update_check_period,
  ping_period,
}

-- `self.req_parser.add`
unfoldable pub add_to_parser : List ℕ → M ℕ
unfolding Parser.add
add_to_parser bytes h =
    let (p, r) = Parser.add h.req_parser bytes in (record h { req_parser = p }, r)

unfoldable pub process_complete : Env → SocketEventResult
unfolding process_request
process_complete env h =
    if Parser.is_complete h.req_parser then process_request env h else (h, ok none)

abbrev pub or_else : SocketEventResult → Option (List ℕ) → SocketEventResult
or_else next none = next
or_else next (some redirect) = pure (some redirect)

-- The loop of `read_request` over the bytes that are not consumed yet. The first argument bounds
-- the rounds; `read_request` gives one for each byte.
unfoldable pub read_loop : ℕ → Env → List ℕ → SocketEventResult
unfolding add_to_parser process_complete
read_loop fuel env [] = pure none
read_loop zero env (b ∷ bs) = fail out_of_fuel
read_loop (suc fuel) env (b ∷ bs) = do
  consumed ← add_to_parser (b ∷ bs)
  res ← process_complete env
  or_else (read_loop fuel env (drop consumed (b ∷ bs))) res

unfoldable pub read_request : Env → Io → SocketEventResult
unfolding stream_read read_loop
read_request env io = do bytes ← stream_read io.read_result; read_loop (length bytes) env bytes

unfoldable pub check_arrow_read_event : Env → Io → EventSet → SocketEventResult
unfolding can_read read_request
check_arrow_read_event env io ev h =
    if can_read h.stream_state ev then read_request env io h else (h, ok none)

unfoldable pub check_arrow_write_event : Env → Io → EventSet → SocketEventResult
unfolding can_write send_response
check_arrow_write_event env io ev h =
    if can_write h.stream_state ev then send_response env io h else (h, ok none)

-- `unwrap_err` of a socket that has no error panics.
unfoldable pub check_arrow_error : Io → EventSet → SocketEventResult
check_arrow_error io ev =
    if ev.error
    then (if io.error then fail (err connection_error) else fail panic)
    else if ev.hup
    then fail (err connection_error)
    else pure none

unfoldable pub arrow_socket_ready : Env → Io → EventSet → SocketEventResult
unfolding check_arrow_read_event check_arrow_write_event check_arrow_error
arrow_socket_ready env io ev =
    check_arrow_read_event env io ev
    >>= or_else (check_arrow_write_event env io ev >>= or_else (check_arrow_error io ev))

unfoldable pub te_check_update : Env → M (Unit {0})
unfolding check_update
te_check_update env = check_update env >> call (timeout_ms TimerEvent.update update_check_period)

unfoldable pub te_check_connection : Env → M (Unit {0})
unfolding send_ping_message
te_check_connection env = send_ping_message env >> call (timeout_ms TimerEvent.ping ping_period)

unfoldable pub check_arrow_timeout : Env → M (Unit {0})
unfolding Timeout.check
check_arrow_timeout env h =
    if not (Timeout.check env.now h.write_tout) || not (Timeout.check env.now h.ack_tout)
    then (h, err connection_error)
    else call (timeout_ms (timeout_check 0) timeout_check_period) h

-- A session that is gone has not timed out.
unfoldable pub is_timed_out : Env → Option SessionContext → Bool
unfolding Timeout.check
is_timed_out env none = false
is_timed_out env (some ctx) = not (Timeout.check env.now ctx.write_tout)

unfoldable pub check_session_timeout : Env → ℕ → M (Unit {0})
unfolding is_timed_out send_hup_message remove_session_context session2token
check_session_timeout env session_id h =
    if is_timed_out env (get_session_context session_id h)
    then (send_hup_message env session_id 0 >> remove_session_context session_id) h
    else call (timeout_ms (timeout_check (session2token session_id)) timeout_check_period) h

unfoldable pub te_check_timeout : Env → ℕ → M (Unit {0})
unfolding check_arrow_timeout check_session_timeout token2session
te_check_timeout env token =
    if token == 0
    then check_arrow_timeout env
    else fail (token2session token) >>= check_session_timeout env

-- `self.result`, and the shutdown of the event loop once there is one.
abbrev shutdown_with : Handler → Handler
shutdown_with h = if is_some h.result then record h { calls = h.calls ++ Call.shutdown ∷ [] } else h

unfoldable pub finish_ready : Handler × Outcome (Option (List ℕ)) → Handler × Outcome (Unit {0})
finish_ready (h, ok none) = (shutdown_with h, ok tt)
finish_ready (h, ok (some redirect)) =
    (shutdown_with (record h { result = some (ok redirect) }), ok tt)
finish_ready (h, err e) = (shutdown_with (record h { result = some (err e) }), ok tt)
finish_ready (h, panic) = (h, panic)
finish_ready (h, out_of_fuel) = (h, out_of_fuel)

unfoldable pub finish_timeout : Handler × Outcome (Unit {0}) → Handler × Outcome (Unit {0})
finish_timeout (h, ok u) = (shutdown_with h, ok tt)
finish_timeout (h, err e) = (shutdown_with (record h { result = some (err e) }), ok tt)
finish_timeout (h, panic) = (h, panic)
finish_timeout (h, out_of_fuel) = (h, out_of_fuel)

unfoldable pub socket_ready : Env → Io → ℕ → EventSet → SocketEventResult
unfolding arrow_socket_ready session_socket_ready token2session
socket_ready env io token ev =
    if token == 0
    then arrow_socket_ready env io ev
    else fail (token2session token) >>= λ session_id. session_socket_ready env io session_id ev

unfoldable pub ready : Env → Io → ℕ → EventSet → M (Unit {0})
unfolding socket_ready finish_ready
ready env io token ev h = finish_ready (socket_ready env io token ev h)

unfoldable pub timer_event : Env → TimerEvent → M (Unit {0})
unfolding te_check_update te_check_connection te_check_timeout
timer_event env TimerEvent.update = te_check_update env
timer_event env TimerEvent.ping = te_check_connection env
timer_event env (timeout_check token) = te_check_timeout env token

unfoldable pub timeout : Env → TimerEvent → M (Unit {0})
unfolding timer_event finish_timeout
timeout env event h = finish_timeout (timer_event env event h)

-- The handler once the TLS stream is connected.
abbrev pub connected : Handler
connected = record {
  stream_state = StreamState.stream_ok;
  sessions = [];
  session_queue = [];
  req_parser = Parser.new;
  output_buffer = ByteQueue.new (256 * 1024);
  result = none;
  state = handshake;
  last_update = none;
  write_tout = Timeout.new;
  ack_tout = Timeout.new;
  msg_id = 0;
  expected_acks = [];
  calls = register_socket 0 true true ∷ [];
}

-- `new`, whose result is an error if the stream cannot be connected.
unfoldable pub new : Env → MacAddr → Bool → Outcome Handler
unfolding create_register_request
new env arrow_mac connects =
    if connects
    then ok
        ((create_register_request env arrow_mac
            >> call (timeout_ms (timeout_check 0) timeout_check_period))
          connected).0
    else err connection_error
