-- ===== src/Commands/Retry.antt =====
-- Reconnecting to the Arrow Service: the loop of `arrow_thread` in src/main.rs and its timeouts.
pub mod Laws
use arrow_client.Base.{ℕ, Bool, true, false, Option, none, some, List, [], ◌∷◌, if◌then◌else◌}
use arrow_client.Base.Outcome.{
  ErrorKind, connection_error, unsupported_protocol_version, unauthorized, service_connection_error,
  arrow_server_error, other,
}
use arrow_client.Commands.Seconds.{Float}

-- `Result<String, ArrowError>` of a connection: the address that the service redirects to, or an
-- error.
pub data ConnectionResult : Type 0 where
  redirected : List ℕ → ConnectionResult
  failed : ErrorKind → ConnectionResult

-- The states that `save_connection_state` writes: `CONN_STATE_*`
pub data ConnectionState : Type 0 where
  connected unauthorized_state disconnected : ConnectionState

-- `diagnose_connection_result`: the code that the process exits with
abbrev pub diagnose_connection_result : ConnectionResult → ℕ
diagnose_connection_result (redirected addr) = 0
diagnose_connection_result (failed unauthorized) = 0
diagnose_connection_result (failed _) = 1

-- The state that is saved after an error
abbrev pub state_after : ErrorKind → ConnectionState
state_after unauthorized = unauthorized_state
state_after _ = disconnected

module _ (f : Float) where
  -- `RETRY_TIMEOUT`
  abbrev pub retry_timeout : f.F64
  retry_timeout = f.of_nat 60

  -- `last_connection_attempt + RETRY_TIMEOUT < t`
  abbrev pub lasted : f.F64 → f.F64 → Bool
  lasted last_connection_attempt t = f.lt (f.add last_connection_attempt retry_timeout) t

  unfoldable pub get_unauthorized_timeout : ConnectionResult → f.F64 → f.F64 → f.F64 → f.F64
  get_unauthorized_timeout (redirected addr) last_connection_attempt current_timeout t =
      f.add t (f.of_nat 1200)
  get_unauthorized_timeout (failed unauthorized) last_connection_attempt current_timeout t =
      current_timeout
  get_unauthorized_timeout (failed _) last_connection_attempt current_timeout t =
      if lasted last_connection_attempt t then f.add t (f.of_nat 1200) else current_timeout

  -- The clock is read a second time in the last case.
  unfoldable pub get_next_retry_timeout : ErrorKind → f.F64 → f.F64 → f.F64 → f.F64 → f.F64
  get_next_retry_timeout unauthorized last_connection_attempt timeout t now =
      if f.lt t (f.sub timeout (f.of_nat 600))
      then f.of_nat 10
      else if f.lt t timeout
      then f.of_nat 30
      else f.of_nat 36000
  get_next_retry_timeout unsupported_protocol_version last_connection_attempt timeout t now =
      f.of_nat 36000
  get_next_retry_timeout _ last_connection_attempt timeout t now =
      f.sub (f.add retry_timeout last_connection_attempt) now

  -- The variables of the loop of `arrow_thread`
  pub record Client : Type 0 where
    pub addr : List ℕ
    pub cur_addr : List ℕ
    pub unauthorized_timeout : f.F64

  -- The clock readings of one round: before the connection, in `get_unauthorized_timeout`, and the
  -- two in `get_next_retry_timeout`.
  pub record Readings : Type 0 where
    pub attempt : f.F64
    pub after : f.F64
    pub retry : f.F64
    pub late : f.F64

  -- What a round does: it goes on after a sleep of some milliseconds or without one, and leaves a
  -- state in the file; or the process exits.
  pub data Round : Type 0 where
    again : Client → Option ℕ → ConnectionState → Round
    exit : ℕ → Round

  -- The sleep before the next round
  abbrev pub sleep : f.F64 → Option ℕ
  sleep t = if f.lt f.half t then some (f.millis t) else none

  -- What follows the timeouts and the diagnosis in a round
  unfoldable pub settle : Readings → Client → ConnectionResult → Round
  settle r c (redirected addr) = again (record c { cur_addr = addr }) none connected
  settle r c (failed kind) =
      again (record c { cur_addr = c.addr })
        (sleep (get_next_retry_timeout kind r.attempt c.unauthorized_timeout r.retry r.late))
        (state_after kind)

  -- One round of the loop of `arrow_thread`, for the result of its connection
  unfoldable pub round : Bool → Readings → Client → ConnectionResult → Round
  unfolding settle
  round diagnostic_mode r c res =
      let timeout = get_unauthorized_timeout res r.attempt c.unauthorized_timeout r.after in
      if diagnostic_mode
      then exit (diagnose_connection_result res)
      else settle r (record c { unauthorized_timeout = timeout }) res
