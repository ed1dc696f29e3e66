-- ===== src/Connection/SessionMap.antt =====
-- The sessions of `ConnectionHandler` (src/net/arrow/mod.rs): how they are found, opened and removed.
use native.Mathlib.Decide.{ℕ_discrete}
use arrow_client.Base.{ℕ, true, Option, none, some, List, [], ◌∷◌, ◌++◌, if◌then◌else◌}
use arrow_client.Base.Dict.{lookup, contains_key, insert, remove}
use arrow_client.Base.Outcome.{ok}
use arrow_client.Config
use arrow_client.Config.{AppContext}
use arrow_client.Net.Addr.{SocketAddr}
use arrow_client.Protocol.Service
use arrow_client.Connection.Session
use arrow_client.Connection.Session.{S, Live, session2token}
use arrow_client.Connection.State.{
  register_socket, deregister_socket, timeout_ms, timeout_check, SessionContext, Handler, Env, M,
  timeout_check_period,
}

-- What a handler's method answers: the address of a redirect, if there was one.
abbrev pub SocketEventResult : Type 0
SocketEventResult = M (Option (List ℕ))

abbrev pub get_session_context : ℕ → Handler → Option SessionContext
get_session_context session_id h = lookup ℕ_discrete session_id h.sessions

-- A method of a session that is in the map changes it in place.
abbrev pub in_session : {A : Type 0} → ℕ → SessionContext → S A → M A
in_session session_id ctx op h =
    let (l, r) = op (record { ctx = ctx; calls = h.calls }) in
    (record h { sessions = insert ℕ_discrete session_id l.ctx h.sessions; calls = l.calls }, r)

-- The arm of a connection that was opened: the session is stored, and its timer is started.
unfoldable pub open_session : ℕ → ℕ → Handler → Handler
open_session service_id session_id h = record h {
  sessions = insert ℕ_discrete session_id (Session.new service_id session_id) h.sessions;
  session_queue = h.session_queue ++ session_id ∷ [];
  calls =
      h.calls
      ++ register_socket (session2token session_id) true true
        ∷ timeout_ms (timeout_check (session2token session_id)) timeout_check_period
        ∷ [];
}

-- The address of the service that a session is for, if a connection to it can be opened.
unfoldable pub service_address : Env → ℕ → Option SocketAddr
service_address env service_id = elim (Config.get env.app.config service_id) [
  | none ↦ none
  | some svc ↦ elim (Service.address svc) [
    | none ↦ none
    | some addr ↦ if env.connects addr then some addr else none
  ]
]

unfoldable pub create_session_context : Env → ℕ → ℕ → M (Option SessionContext)
unfolding service_address open_session
create_session_context env service_id session_id h =
    let h' =
      if contains_key ℕ_discrete session_id h.sessions
      then h
      else elim (service_address env service_id) [
        | none ↦ h
        | some addr ↦ open_session service_id session_id h
      ] in
    (h', ok (get_session_context session_id h'))

-- `dispose` deregisters the socket of the session.
unfoldable pub remove_session_context : ℕ → M (Unit {0})
remove_session_context session_id h = elim (get_session_context session_id h) [
  | none ↦ (h, ok tt)
  | some ctx ↦ (
    record h {
      sessions = remove ℕ_discrete session_id h.sessions;
      calls = h.calls ++ deregister_socket (session2token ctx.session_id) ∷ [];
    },
    ok tt,
  )
]
