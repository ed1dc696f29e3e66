-- ===== src/Protocol/Control.antt =====
-- The Arrow Control Protocol of src/net/arrow/protocol/control.rs: message types, the header, the
-- envelope and the parser. The payloads stand in Payload.
pub mod Laws
use arrow_client.Base.{
  ℕ, suc, ◌+◌, ◌≡◌, refl, ap, ◌∙◌, Option, none, some, List, [], ◌∷◌, ◌++◌, length, take, drop,
  length-append, ltb, ◌==◌, if◌then◌else◌, arith,
}
use arrow_client.Base.Bytes.{be16, from_be16}
use arrow_client.Base.Outcome.{Outcome, ok, err, panic, out_of_fuel, other}
use arrow_client.Protocol.Message.{Body}

-- `ControlMessageType`
pub data MessageType : Type 0 where
  ack ping register redirect update hup reset_svc_table scan_network : MessageType
  get_status status unknown get_scan_report scan_report : MessageType

-- The `CMSG_*` constants.
abbrev pub cmsg_ack : ℕ
cmsg_ack = 0x0000

abbrev pub cmsg_ping : ℕ
cmsg_ping = 0x0001

abbrev pub cmsg_register : ℕ
cmsg_register = 0x0002

abbrev pub cmsg_redirect : ℕ
cmsg_redirect = 0x0003

abbrev pub cmsg_update : ℕ
cmsg_update = 0x0004

abbrev pub cmsg_hup : ℕ
cmsg_hup = 0x0005

abbrev pub cmsg_reset_svc_table : ℕ
cmsg_reset_svc_table = 0x0006

abbrev pub cmsg_scan_network : ℕ
cmsg_scan_network = 0x0007

abbrev pub cmsg_get_status : ℕ
cmsg_get_status = 0x0008

abbrev pub cmsg_status : ℕ
cmsg_status = 0x0009

abbrev pub cmsg_get_scan_report : ℕ
cmsg_get_scan_report = 0x000a

abbrev pub cmsg_scan_report : ℕ
cmsg_scan_report = 0x000b

-- `ControlMessageHeader`
pub record ControlHeader : Type 0 where
  pub msg_id : ℕ
  pub msg_type : ℕ

-- `size_of::<ControlMessageHeader>()`
abbrev pub control_header_size : ℕ
control_header_size = 4

unfoldable pub from_bytes : List ℕ → Outcome ControlHeader
from_bytes slice =
    if length slice == control_header_size
    then ok (record { msg_id = from_be16 slice; msg_type = from_be16 (drop 2 slice) })
    else panic

unfoldable pub message_type : ControlHeader → MessageType
message_type h =
    if h.msg_type == cmsg_ack
    then ack
    else if h.msg_type == cmsg_ping
    then ping
    else if h.msg_type == cmsg_register
    then register
    else if h.msg_type == cmsg_redirect
    then redirect
    else if h.msg_type == cmsg_update
    then update
    else if h.msg_type == cmsg_hup
    then hup
    else if h.msg_type == cmsg_reset_svc_table
    then reset_svc_table
    else if h.msg_type == cmsg_scan_network
    then scan_network
    else if h.msg_type == cmsg_get_status
    then get_status
    else if h.msg_type == cmsg_status
    then status
    else if h.msg_type == cmsg_get_scan_report
    then get_scan_report
    else if h.msg_type == cmsg_scan_report
    then scan_report
    else unknown

unfoldable pub serialize_header : ControlHeader → List ℕ
serialize_header h = be16 h.msg_id ++ be16 h.msg_type

pub record ControlMessage (B : Type 0) : Type 0 where
  pub header : ControlHeader
  pub body : B

abbrev pub new : {B : Type 0} → ℕ → ℕ → B → ControlMessage B
new msg_id msg_type body = record {
  header = record { msg_id = msg_id; msg_type = msg_type };
  body = body;
}

unfoldable pub serialize : {B : Type 0} → Body B → ControlMessage B → List ℕ
unfolding serialize_header
serialize i m = serialize_header m.header ++ i.serialize m.body

unfoldable pub len : {B : Type 0} → Body B → ControlMessage B → ℕ
len i m = control_header_size + i.len m.body

pub length-serialize :
    {B : Type 0} (i : Body B) (m : ControlMessage B) → length (serialize i m) ≡ len i m
unfolding serialize len
length-serialize i m = ap (λ n. suc (suc (suc (suc n)))) (i.length-serialize m.body) ∙ omega arith

-- A control message is a payload of an Arrow Message.
abbrev pub control_body : {B : Type 0} → Body B → Body (ControlMessage B)
control_body i = record {
  serialize = serialize i;
  len = len i;
  length-serialize = length-serialize i;
}

-- `ControlMessageParser`
pub record ControlParser : Type 0 where
  pub header : Option ControlHeader
  pub body : Option (List ℕ)

abbrev pub new_parser : ControlParser
new_parser = record { header = none; body = none }

-- `self.header = Some(header); self.body = Some(body_data);`
abbrev processed :
    ControlParser → List ℕ → Outcome ControlHeader → ControlParser × Outcome (Unit {0})
processed p body_data (ok h) = (record { header = some h; body = some body_data }, ok tt)
processed p body_data (err e) = (p, err e)
processed p body_data panic = (p, panic)
processed p body_data out_of_fuel = (p, out_of_fuel)

unfoldable pub process : ControlParser → List ℕ → ControlParser × Outcome (Unit {0})
unfolding from_bytes
process p input =
    if ltb (length input) control_header_size
    then (p, err other)
    else processed p (drop control_header_size input) (from_bytes (take control_header_size input))

-- Both accessors panic before a message has been processed.
abbrev pub parsed_header : ControlParser → Outcome ControlHeader
parsed_header p = elim p.header [ none ↦ panic | some h ↦ ok h ]

abbrev pub parsed_body : ControlParser → Outcome (List ℕ)
parsed_body p = elim p.body [ none ↦ panic | some b ↦ ok b ]
