-- ===== src/Connection/Session.antt =====
-- `SessionContext` of src/net/arrow/mod.rs: the connection to one local service and its buffers.
use arrow_client.Base.{
  ℕ, ◌+◌, ◌*◌, ◌/◌, ◌%◌, ◌^◌, ◌<◌, ◌≡◌, ◌≢◌, ◌⊎◌, arith, Bool, ◌&&◌, ◌||◌, not, Option, none, some,
  List, [], ◌∷◌, ◌++◌, length, ltb, ◌==◌, if◌then◌else◌,
}
use arrow_client.Base.Outcome.{Outcome, ok, err, panic, other, service_connection_error}
use arrow_client.Base.Stateful.{Stateful, pure, fail, ◌>>=◌, ◌>>◌, modify, read}
use arrow_client.Net.ByteQueue
use arrow_client.Net.Timeout
use arrow_client.Connection.State.{Call, reregister_socket, SessionContext, connection_timeout}

-- `(session_id as usize) | (1 << 24)`
unfoldable pub session2token : ℕ → ℕ
session2token session_id = if session_id / 2 ^ 24 % 2 == 1 then session_id else session_id + 2 ^ 24

-- The assertion is `(token_id & !mask) == (1 << 24)` for the mask of the lower 24 bits.
unfoldable pub token2session : ℕ → Outcome ℕ
token2session token_id = if token_id / 2 ^ 24 == 1 then ok (token_id % 2 ^ 24) else panic

-- `mio::EventSet`
pub record EventSet : Type 0 where
  pub readable : Bool
  pub writable : Bool
  pub error : Bool
  pub hup : Bool

-- What a non-blocking read or write of a service's socket comes to.
pub data ReadResult : Type 0 where
  read_would_block read_failed : ReadResult
  read_bytes : List ℕ → ReadResult

pub data WriteResult : Type 0 where
  write_would_block write_failed : WriteResult
  written : ℕ → WriteResult

-- The answers of a session's socket during one event; `error` says whether the socket has an error.
pub record SessionIo : Type 0 where
  pub read_result : ReadResult
  pub write_result : WriteResult
  pub error : Bool

-- `ServiceStream::read` and `write` ignore EWOULDBLOCK; `try_svc_io!` translates an error.
unfoldable pub stream_read : ReadResult → Outcome (List ℕ)
stream_read read_would_block = ok []
stream_read read_failed = err service_connection_error
stream_read (read_bytes bytes) = ok bytes

unfoldable pub stream_write : WriteResult → Outcome ℕ
stream_write write_would_block = ok 0
stream_write write_failed = err service_connection_error
stream_write (written len) = ok len

-- A session together with the calls to the event loop so far.
pub record Live : Type 0 where
  pub ctx : SessionContext
  pub calls : List Call

abbrev pub S : Type 0 → Type 0
S A = Stateful Live A

abbrev pub update_ctx : (SessionContext → SessionContext) → S (Unit {0})
update_ctx f = modify (λ l. record l { ctx = f l.ctx })

-- `SessionContext::new`, once the connection is open; the socket is registered beside it.
abbrev pub new : ℕ → ℕ → SessionContext
new service_id session_id = record {
  service_id = service_id;
  session_id = session_id;
  input_buffer = ByteQueue.new (256 * 1024);
  output_buffer = ByteQueue.new 0;
  write_tout = Timeout.new;
}

unfoldable pub update_socket_events : S (Unit {0})
update_socket_events = modify λ l. record l {
  calls =
      l.calls
      ++ reregister_socket (session2token l.ctx.session_id)
          (not (ByteQueue.is_full l.ctx.input_buffer))
          (not (ByteQueue.is_empty l.ctx.output_buffer))
        ∷ [];
}

unfoldable pub check_read_event : EventSet → SessionIo → S ℕ
unfolding update_socket_events stream_read
check_read_event ev io l =
    if ev.readable
    then (if not (ByteQueue.is_full l.ctx.input_buffer) || ev.hup
        then (do
          bytes ← fail (stream_read io.read_result)
          update_ctx (λ c. record c { input_buffer = ByteQueue.write bytes c.input_buffer })
          pure (length bytes))
            l
        else (update_socket_events >> pure 0) l)
    else (l, ok 0)

unfoldable pub check_write_event : ℕ → EventSet → SessionIo → S (Unit {0})
unfolding update_socket_events stream_write
check_write_event now ev io l =
    if ev.writable
    then (if ByteQueue.is_empty l.ctx.output_buffer
        then (do
          update_socket_events
          update_ctx (λ c. record c { write_tout = Timeout.clear c.write_tout }))
            l
        else (do
          len ← fail (stream_write io.write_result)
          update_ctx (λ c.
              if ltb 0 len
              then record c {
                output_buffer = ByteQueue.discard len c.output_buffer;
                write_tout = Timeout.set now connection_timeout c.write_tout;
              }
              else c))
            l)
    else (l, ok tt)

-- The size of the input buffer, or `none` if the connection has been closed.
unfoldable pub socket_ready : ℕ → EventSet → SessionIo → S (Option ℕ)
unfolding check_read_event check_write_event
socket_ready now ev io = do
  got ← check_read_event ev io
  check_write_event now ev io
  if ev.error
      then fail (if io.error then err service_connection_error else err other)
      else if ev.hup && got == 0
      then pure none
      else read (λ l. some (length l.ctx.input_buffer.bytes))

abbrev pub input_ready : SessionContext → Bool
input_ready c = not (ByteQueue.is_empty c.input_buffer)

unfoldable pub drop_input_bytes : ℕ → S (Unit {0})
unfolding update_socket_events
drop_input_bytes count l =
    let was_full = ByteQueue.is_full l.ctx.input_buffer in
    let l' : Live = record l {
      ctx = record (l.ctx) { input_buffer = ByteQueue.discard count l.ctx.input_buffer };
    } in
    if was_full && not (ByteQueue.is_full l'.ctx.input_buffer)
    then update_socket_events l'
    else (l', ok tt)

unfoldable pub send_message : ℕ → List ℕ → S (Unit {0})
unfolding update_socket_events
send_message now bytes l =
    let was_empty = ByteQueue.is_empty l.ctx.output_buffer in
    let l' : Live = record l {
      ctx = record (l.ctx) { output_buffer = ByteQueue.write bytes l.ctx.output_buffer };
    } in
    if was_empty
    then (do
      update_ctx (λ c. record c { write_tout = Timeout.set now connection_timeout c.write_tout })
      update_socket_events)
        l'
    else (l', ok tt)

-- A session ID of 24 bits is recovered from its token, which is neither that of the Arrow socket
-- nor that of another session. A token outside the range of session tokens panics.
pub token2session-session2token :
    (session_id token : ℕ)
    → session_id < 2 ^ 24
    → (token2session (session2token session_id) ≡ ok session_id)
      × (session2token session_id ≢ 0)
      × ((token2session token ≡ panic) ⊎ (session2token (token % 2 ^ 24) ≡ token))
unfolding session2token token2session
token2session-session2token session_id token h = (ground arith, ground arith, ground arith)
