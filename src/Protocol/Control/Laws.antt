-- ===== src/Protocol/Control/Laws.antt =====
-- What the control message parser and the message types guarantee.
use arrow_client.Base.{
  ℕ, ◌≤◌, ◌<◌, ◌≡◌, ◌≢◌, ◌↔◌, refl, sym, ap, ◌⊎◌, inl, inr, length-take, ◌∙◌, some, List, length,
  drop, arith,
}
use arrow_client.Base.Bytes.{IsU16, from_be16-be16}
use arrow_client.Base.Outcome.{ok, err, other}
use arrow_client.Protocol.Message.{Body}
use arrow_client.Protocol.Control.{
  MessageType, ack, ping, register, redirect, update, hup, reset_svc_table, scan_network,
  get_status, status, unknown, get_scan_report, scan_report, ControlHeader, ControlMessage,
  ControlParser, message_type, serialize, process, control_header_size,
}

-- The number of each message type on the wire; the type that stands for all others has none.
abbrev pub code : MessageType → ℕ
code ack = 0
code ping = 1
code register = 2
code redirect = 3
code update = 4
code hup = 5
code reset_svc_table = 6
code scan_network = 7
code get_status = 8
code status = 9
code get_scan_report = 10
code scan_report = 11
code unknown = 12

classified :
    (h : ControlHeader)
    → ((message_type h ≡ unknown) × (12 ≤ h.msg_type))
      ⊎ ((h.msg_type ≡ code (message_type h)) × (message_type h ≢ unknown))
unfolding message_type
classified h = ground arith

forward :
    (h : ControlHeader) (t : MessageType) → t ≢ unknown → message_type h ≡ t → h.msg_type ≡ code t
forward h t known e = elim (classified h) [
  | inl (u, _) ↦ absurd (known (sym e ∙ u))
  | inr (c, _) ↦ c ∙ ap code e
]

above : (h : ControlHeader) → message_type h ≡ unknown → 12 ≤ h.msg_type
above h e = elim (classified h) [ inl (_, ge) ↦ ge | inr (_, known) ↦ absurd (known e) ]

backward :
    (h : ControlHeader) (t : MessageType) → t ≢ unknown → h.msg_type ≡ code t → message_type h ≡ t
unfolding message_type
backward h ack known e = ground arith
backward h unknown known e = absurd (known refl)
backward h _ known e = ground arith

-- Every known message type is recognized by its number and by no other, and each number from 12 on
-- is unknown.
pub message_type-code :
    (h : ControlHeader) (t : MessageType)
    → (t ≢ unknown → ((message_type h ≡ t) ↔ (h.msg_type ≡ code t)))
      × ((message_type h ≡ unknown) ↔ (12 ≤ h.msg_type))
unfolding message_type
message_type-code h t =
    (λ known. (λ e. forward h t known e, λ e. backward h t known e), (above h, ground arith))

-- A control message that was serialized is read back by any parser, whatever it read before: the
-- header comes back, and the bytes of the payload. The ID and the type fit 16 bits.
pub process-serialize :
    {B : Type 0} (i : Body B) (m : ControlMessage B) (p : ControlParser)
    → IsU16 m.header.msg_id
    → IsU16 m.header.msg_type
    → process p (serialize i m)
      ≡ (record { header = some m.header; body = some (i.serialize m.body) }, ok tt)
unfolding process serialize
process-serialize i m p hi ht =
    ground (arith, from_be16-be16 m.header.msg_id hi, from_be16-be16 m.header.msg_type ht)

-- Input that is too short for a header is an error that leaves the parser as it was; any other
-- input is accepted, and the payload is all that follows the header.
pub process_total :
    (p : ControlParser) (input : List ℕ)
    → (length input < control_header_size → process p input ≡ (p, err other))
      × (control_header_size ≤ length input
          → ((process p input).1 ≡ ok tt)
            × ((process p input).0.body ≡ some (drop control_header_size input)))
unfolding process
process_total p input =
    (λ lt. ground arith, λ ge. ground (arith, length-take control_header_size input))
