-- ===== src/Connection/Pump.antt =====
-- How bytes move between the sessions, the output buffer and the TLS stream in
-- src/net/arrow/mod.rs.
pub mod Laws
use arrow_client.Base.{
  ℕ, zero, suc, ◌+◌, ◌*◌, Bool, true, false, ◌&&◌, not, Option, none, some, List, [], ◌∷◌, ◌++◌,
  length, take, ltb, ◌==◌, if◌then◌else◌, min,
}
use arrow_client.Base.Outcome.{Outcome, ok, err, panic, out_of_fuel, connection_error}
use arrow_client.Base.Stateful.{Stateful, pure, fail, then_do, ◌>>=◌, ◌>>◌, modify, read}
use arrow_client.Net.ByteQueue
use arrow_client.Net.Timeout
use arrow_client.Protocol.Message
use arrow_client.Protocol.Message.{raw_body}
use arrow_client.Connection.SessionMap.{
  SocketEventResult, get_session_context, in_session, remove_session_context,
}
use arrow_client.Connection.Send.{buffer_message, send_hup_message}
use arrow_client.Connection.Session
use arrow_client.Connection.Session.{EventSet, SessionIo, input_ready, drop_input_bytes}
use arrow_client.Connection.State.{
  StreamState, stream_ok, reader_want_read, reader_want_write, writer_want_read, writer_want_write,
  SessionContext, Handler, Env, M, enable_socket_events, connection_timeout,
}

-- What `ssl_read` or `ssl_write` comes to.
pub data SslResult (A : Type 0) : Type 0 where
  want_read want_write ssl_failed : SslResult A
  ssl_done : A → SslResult A

-- The answers of the TLS stream and of a session's socket during one event; `error` says whether
-- the Arrow socket has an error.
pub record Io : Type 0 where
  pub read_result : SslResult (List ℕ)
  pub write_result : SslResult ℕ
  pub error : Bool
  pub session : SessionIo

abbrev set_stream_state : StreamState → M (Unit {0})
set_stream_state s = modify (λ h. record h { stream_state = s })

unfoldable pub stream_read : SslResult (List ℕ) → M (List ℕ)
stream_read want_read = do
  set_stream_state reader_want_read
  enable_socket_events true false
  pure []
stream_read want_write = do
  set_stream_state reader_want_write
  enable_socket_events false true
  pure []
stream_read ssl_failed = do
  set_stream_state stream_ok
  enable_socket_events true true
  fail (err connection_error)
stream_read (ssl_done bytes) = do
  set_stream_state stream_ok
  enable_socket_events true true
  pure bytes

unfoldable pub stream_write : SslResult ℕ → M ℕ
stream_write want_read = do
  set_stream_state writer_want_read
  enable_socket_events true false
  pure 0
stream_write want_write = do
  set_stream_state writer_want_write
  enable_socket_events false true
  pure 0
stream_write ssl_failed = do
  set_stream_state stream_ok
  enable_socket_events true true
  fail (err connection_error)
stream_write (ssl_done len) = do
  set_stream_state stream_ok
  enable_socket_events true true
  pure len

unfoldable pub can_read : StreamState → EventSet → Bool
can_read stream_ok ev = ev.readable
can_read reader_want_read ev = ev.readable
can_read reader_want_write ev = ev.writable
can_read writer_want_read ev = false
can_read writer_want_write ev = false

unfoldable pub can_write : StreamState → EventSet → Bool
can_write stream_ok ev = ev.writable
can_write writer_want_read ev = ev.readable
can_write writer_want_write ev = ev.writable
can_write reader_want_read ev = false
can_write reader_want_write ev = false

-- The first `limit` bytes of a session's input buffer leave it as one message, unless it is empty.
unfoldable pub move_input : Env → ℕ → ℕ → SessionContext → Handler → Handler
unfolding buffer_message drop_input_bytes
move_input env limit session_id ctx h =
    let bytes = ctx.input_buffer.bytes in
    let len = if input_ready ctx then min limit (length bytes) else 0 in
    let h' =
      if input_ready ctx
      then buffer_message env raw_body (Message.new ctx.service_id ctx.session_id (take len bytes))
          h
      else h in
    (in_session session_id ctx (drop_input_bytes len) h').0

-- One round of the loop of `fill_output_buffer`: the first session of the queue goes to its end,
-- and an ID without a session leaves the queue.
unfoldable pub pump_next : Env → Handler → Handler
unfolding move_input
pump_next env h = elim (h.session_queue) [
  | [] ↦ h
  | session_id ∷ queue ↦
      let h' : Handler = record h { session_queue = queue } in
      elim (get_session_context session_id h) [
        | none ↦ h'
        | some ctx ↦
            let moved = move_input env 32768 session_id ctx h' in
            record moved { session_queue = moved.session_queue ++ session_id ∷ [] }
      ]
]

-- The loop of `fill_output_buffer`; the first argument is `queue_size`.
unfoldable pub fill : ℕ → Env → Handler → Handler
unfolding pump_next
fill zero env h = h
fill (suc queue_size) env h =
    let rest = fill queue_size env (pump_next env h) in
    if ByteQueue.is_full h.output_buffer then h else rest

unfoldable pub fill_output_buffer : Env → Handler → Handler
unfolding fill
fill_output_buffer env h = fill (length h.session_queue) env h

-- After the bytes that the TLS stream took.
unfoldable pub sent_bytes : Env → ℕ → Handler → Handler
sent_bytes env len h =
    if ltb 0 len
    then record h {
      write_tout = Timeout.set env.now connection_timeout h.write_tout;
      output_buffer = ByteQueue.discard len h.output_buffer;
    }
    else h

-- At most the 16384 bytes of the write buffer are passed to the stream at once.
unfoldable pub send_response : Env → Io → SocketEventResult
unfolding fill_output_buffer stream_write sent_bytes
send_response env io h =
    let filled = fill_output_buffer env h in
    if ByteQueue.is_empty filled.output_buffer
    then (do
      enable_socket_events true false
      modify (λ h. record h { write_tout = Timeout.clear h.write_tout })
      pure none)
        filled
    else (do len ← stream_write io.write_result; modify (sent_bytes env len); pure none) filled

-- All that is left in the input buffer of a session becomes one message.
unfoldable pub flush_session : Env → ℕ → M (Unit {0})
unfolding move_input
flush_session env session_id h = elim (get_session_context session_id h) [
  | none ↦ (h, ok tt)
  | some ctx ↦
      enable_socket_events true true
        (move_input env (length ctx.input_buffer.bytes) session_id ctx h)
]

-- The end of a session: what it has read is sent, then the reason, and its context is removed.
unfoldable pub close_session : Env → ℕ → ℕ → M (Unit {0})
unfolding flush_session send_hup_message remove_session_context
close_session env session_id error_code = do
  flush_session env session_id
  send_hup_message env session_id error_code
  remove_session_context session_id

unfoldable pub session_event :
    Env → ℕ → Handler × Outcome (Option ℕ) → Handler × Outcome (Option (List ℕ))
unfolding close_session
session_event env session_id (h, err e) = (close_session env session_id 2 >> pure none) h
session_event env session_id (h, ok none) = (close_session env session_id 0 >> pure none) h
session_event env session_id (h, ok (some size)) =
    if ltb 0 size then (enable_socket_events true true >> pure none) h else (h, ok none)
session_event env session_id (h, panic) = (h, panic)
session_event env session_id (h, out_of_fuel) = (h, out_of_fuel)

unfoldable pub session_socket_ready : Env → Io → ℕ → EventSet → SocketEventResult
unfolding session_event Session.socket_ready
session_socket_ready env io session_id ev h = elim (get_session_context session_id h) [
  | none ↦ session_event env session_id (h, ok (some 0))
  | some ctx ↦
      session_event env session_id
        (in_session session_id ctx (Session.socket_ready env.now ev io.session) h)
]
