-- ===== src/Connection/Send/Ids.antt =====
-- The messages that are sent: their bytes, their IDs and the ACKs that are expected for them.
use arrow_client.Base.{
  ℕ, ◌+◌, ◌%◌, ◌^◌, ◌≡◌, ◌⊎◌, inl, inr, refl, true, ◌&&◌, not, is_some, some, List, [], ◌∷◌, ◌++◌,
  length, length-append, ◌==◌, ltb, Bool-cases, arith,
}
use arrow_client.Base.Bytes.{IsU16}
use arrow_client.Base.Outcome.{ok, panic}
use arrow_client.Net.Addr.{MacAddr}
use arrow_client.Net.Timeout
use arrow_client.Net.Timeout.{Timeout}
use arrow_client.Protocol.Control.{ControlMessage, control_body}
use arrow_client.Protocol.Message
use arrow_client.Protocol.Message.{Body}
use arrow_client.Protocol.Payload.{empty, register_body, hup_body, status_body}
use arrow_client.Protocol.ScanReport.Laws.{scan_report_body}
use arrow_client.Protocol.ServiceTable.{ServiceTable, table_body}
use arrow_client.Connection.Send.{
  expect_ack, send_unconfirmed_control_message, take_msg_id_checked, send_scan_report, send_status,
  send_hup_message, send_ping_message, send_update_message, create_register_request,
}
use arrow_client.Connection.State.{Handler, Env}

-- The ACK timeout runs exactly while an ACK is expected.
abbrev pub IsTimed : Handler → Type 0
IsTimed h = is_some h.ack_tout.timeout ≡ not (length h.expected_acks == 0)

-- The output buffer has taken the bytes of a control message, which are for the service 0 and the
-- session 0.
abbrev pub IsSent : {B : Type 0} → Body B → ControlMessage B → Handler → Handler → Type 0
IsSent i m h h' =
    h'.output_buffer.bytes
    ≡ h.output_buffer.bytes ++ Message.serialize (control_body i) (Message.new 0 0 m)

-- The ACK timeout after a message, by the ACKs that were expected before: a timeout of 20 seconds
-- when there were none, else the one that is running
abbrev pub started : ℕ → List ℕ → Timeout → Timeout
started now [] t = record { timeout = some ((now + 20_000_000_000) % 2 ^ 64) }
started now (id ∷ ids) t = t

ack_tout-started :
    (env : Env) (msg_id : ℕ) (h : Handler) (acks : List ℕ)
    → h.expected_acks ≡ acks
    → (expect_ack env msg_id h).ack_tout ≡ started env.now acks h.ack_tout
unfolding expect_ack Timeout.set
ack_tout-started env msg_id h [] e = rw e refl
ack_tout-started env msg_id h (id ∷ ids) e = rw e (ground arith)

-- A message that has to be confirmed is sent and goes to the end of the queue of expected ACKs. The
-- ACK timeout is set to 20 seconds when no other ACK is expected, and else left as it is; if it ran
-- exactly while ACKs were expected, it still does.
pub unconfirmed-IsTimed :
    {B : Type 0} (env : Env) (i : Body B) (m : ControlMessage B) (h : Handler)
    → IsTimed h
    → let (h', r) = send_unconfirmed_control_message env i m h in
      (h'.ack_tout ≡ started env.now h.expected_acks h.ack_tout)
      × (h'.expected_acks ≡ h.expected_acks ++ m.header.msg_id ∷ [])
      × IsSent i m h h'
      × IsTimed h'
      × (r ≡ ok tt)
unfolding send_unconfirmed_control_message expect_ack Timeout.set
unconfirmed-IsTimed env i m h timed = (
  ack_tout-started env m.header.msg_id h h.expected_acks refl,
  refl,
  refl,
  ground (arith, length-append h.expected_acks (m.header.msg_id ∷ [])),
  refl,
)

-- A control message of some type was sent with the ID of the handler, which then has the next one.
abbrev pub Takes : {B : Type 0} → Body B → ℕ → Handler → Handler → Type 0
Takes {B} i msg_type h h' =
    (m : ControlMessage B) × (m.header.msg_id ≡ h.msg_id)
    × (m.header.msg_type ≡ msg_type)
    × IsSent i m h h'
    × (h'.msg_id ≡ (h.msg_id + 1) % 2 ^ 16)

-- Sending REGISTER, UPDATE, PING, HUP, STATUS or SCAN_REPORT sends a message of that type with the
-- ID of the handler, whose next ID is one more, after 65535 the ID 0, and does not fail; but a scan
-- report panics and sends nothing if arithmetic is checked and the ID is 65535.
pub next_msg_id :
    (env : Env) (mac : MacAddr) (table : ServiceTable) (request_id session_id e : ℕ) (h : Handler)
    → IsU16 h.msg_id
    → (let (h', r) = create_register_request env mac h in Takes register_body 2 h h' × (r ≡ ok tt))
      × (let (h', r) = send_update_message env table h in Takes table_body 4 h h' × (r ≡ ok tt))
      × (let (h', r) = send_ping_message env h in Takes empty 1 h h' × (r ≡ ok tt))
      × (let (h', r) = send_hup_message env session_id e h in Takes hup_body 5 h h' × (r ≡ ok tt))
      × (let (h', r) = send_status env request_id h in Takes status_body 9 h h' × (r ≡ ok tt))
      × (let (h', r) = send_scan_report env request_id h in
          ((env.overflow_checks ≡ true) × (h.msg_id ≡ 65535) × (h' ≡ h) × (r ≡ panic))
          ⊎ (((env.overflow_checks ≡ true) × (h.msg_id ≡ 65535) → ⊥)
              × Takes scan_report_body 11 h h'
              × (r ≡ ok tt)))
unfolding create_register_request send_update_message send_ping_message send_hup_message send_status
    send_scan_report take_msg_id_checked
next_msg_id env mac table request_id session_id e h u = (
  ((_, refl, refl, refl, refl), refl),
  ((_, refl, refl, refl, refl), refl),
  ((_, refl, refl, refl, refl), refl),
  ((_, refl, refl, refl, refl), refl),
  ((_, refl, refl, refl, refl), refl),
  elim (Bool-cases (env.overflow_checks && not (ltb (h.msg_id + 1) (2 ^ 16)))) [
    | inl last ↦ rw last (inl (ground arith, ground arith, refl, refl))
    | inr free ↦
        rw free
          (inr ((λ both. (let (c, m) = both in ground arith)), (_, refl, refl, refl, refl), refl))
  ],
)
