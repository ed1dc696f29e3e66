-- ===== src/Connection/State.antt =====
-- The state of `ConnectionHandler`, what it reads from outside, and the monad of its methods.
use arrow_client.Base.{ℕ, Bool, Option, List, [], ◌∷◌, ◌++◌}
use arrow_client.Base.Dict.{Dict}
use arrow_client.Base.Outcome.{Outcome}
use arrow_client.Base.Stateful.{Stateful, modify}
use arrow_client.Config.{AppContext}
use arrow_client.Net.Addr.{SocketAddr}
use arrow_client.Net.ByteQueue.{ByteQueue}
use arrow_client.Net.Timeout.{Timeout}
use arrow_client.Protocol.Parser.{Parser}

-- In milliseconds.
abbrev pub update_check_period : ℕ
update_check_period = 5000

abbrev pub timeout_check_period : ℕ
timeout_check_period = 1000

abbrev pub ping_period : ℕ
ping_period = 60000

abbrev pub connection_timeout : ℕ
connection_timeout = 20000

pub data Command : Type 0 where
  reset_service_table scan_network : Command

pub data TimerEvent : Type 0 where
  update ping : TimerEvent
  timeout_check : ℕ → TimerEvent

-- The calls that leave the handler: to the event loop, by the token of the socket, and to the
-- command channel. Only their order is modelled.
pub data Call : Type 0 where
  register_socket reregister_socket : ℕ → Bool → Bool → Call
  deregister_socket : ℕ → Call
  timeout_ms : TimerEvent → ℕ → Call
  shutdown : Call
  send_command : Command → Call

-- `ArrowStreamState`
pub data StreamState : Type 0 where
  stream_ok reader_want_read reader_want_write writer_want_read writer_want_write : StreamState

pub data ProtocolState : Type 0 where
  handshake established : ProtocolState

-- `SessionContext`. The buffers are the byte queues that `WriteBuffer` refines.
pub record SessionContext : Type 0 where
  pub service_id : ℕ
  pub session_id : ℕ
  pub input_buffer : ByteQueue
  pub output_buffer : ByteQueue
  pub write_tout : Timeout

-- `ConnectionHandler`, and the calls that it has made so far. A redirect address is a list of
-- bytes.
pub record Handler : Type 0 where
  pub stream_state : StreamState
  pub sessions : Dict ℕ SessionContext
  pub session_queue : List ℕ
  pub req_parser : Parser
  pub output_buffer : ByteQueue
  pub result : Option (Outcome (List ℕ))
  pub state : ProtocolState
  pub last_update : Option ℕ
  pub write_tout : Timeout
  pub ack_tout : Timeout
  pub msg_id : ℕ
  pub expected_acks : List ℕ
  pub calls : List Call

-- What the methods read from outside during one event: the clock, the shared context, whether a
-- connection to an address can be opened and whether a command is accepted. `overflow_checks` says
-- whether the build panics where plain integer arithmetic overflows; without it the sum wraps.
-- `memory_behind` is what stands in memory behind a message's bytes, and `from_utf8_lossy` is the
-- library's conversion to a string.
pub record Env : Type 0 where
  pub now : ℕ
  pub app : AppContext
  pub connects : SocketAddr → Bool
  pub accepts : Command → Bool
  pub overflow_checks : Bool
  pub memory_behind : List ℕ
  pub from_utf8_lossy : List ℕ → List ℕ

-- A method of the handler.
abbrev pub M : Type 0 → Type 0
M A = Stateful Handler A

abbrev pub call : Call → M (Unit {0})
call c = modify (λ h. record h { calls = h.calls ++ c ∷ [] })

-- `self.stream.enable_socket_events`: the token of the Arrow socket is 0.
abbrev pub enable_socket_events : Bool → Bool → M (Unit {0})
enable_socket_events readable writable = call (reregister_socket 0 readable writable)
