-- ===== src/Protocol/Payload.antt =====
-- The payloads of the Control Protocol in src/net/arrow/protocol/control.rs, and the messages that
-- carry them.
use arrow_client.Base.{
  ℕ, ◌+◌, ◌%◌, ◌^◌, ◌≡◌, ◌≢◌, refl, ap, List, [], ◌++◌, length, drop, length-append, ◌==◌,
  if◌then◌else◌, arith,
}
use arrow_client.Base.Bytes.{IsU32, be16, be32, from_be32, from_be32-be32}
use arrow_client.Base.Outcome.{Outcome, ok, err, other}
use arrow_client.Net.Addr.{MacAddr, octets}
use arrow_client.Protocol.Message.{Body}
use arrow_client.Protocol.Control.{
  ControlMessage, cmsg_ack, cmsg_ping, cmsg_register, cmsg_update, cmsg_hup, cmsg_status,
}
use arrow_client.Protocol.Control
use arrow_client.Protocol.ServiceTable
use arrow_client.Protocol.ServiceTable.{ServiceTable}

-- `u32`, the payload of an ACK
abbrev pub u32_body : Body ℕ
u32_body = record { serialize = be32; len = λ n. 4; length-serialize = λ n. refl }

-- `EmptyBody`
pub data EmptyBody : Type 0 where
  empty_body : EmptyBody

abbrev pub empty : Body EmptyBody
empty = record { serialize = λ b. []; len = λ b. 0; length-serialize = λ b. refl }

-- `[u8; 16]`: a UUID or a password
pub record Bytes16 : Type 0 where
  pub octets : List ℕ
  pub size : length octets ≡ 16

-- `RegisterMessage`, with the fields of its header
pub record RegisterMessage : Type 0 where
  pub uuid : Bytes16
  pub mac_addr : MacAddr
  pub passwd : Bytes16
  pub table : ServiceTable

-- `size_of::<RegisterMessageHeader>()`
abbrev pub register_header_size : ℕ
register_header_size = 38

unfoldable pub serialize_register : RegisterMessage → List ℕ
serialize_register m =
    (m.uuid.octets ++ (octets m.mac_addr ++ m.passwd.octets)) ++ ServiceTable.serialize m.table

unfoldable pub len_register : RegisterMessage → ℕ
len_register m = register_header_size + ServiceTable.len m.table

pub length-serialize_register :
    (m : RegisterMessage) → length (serialize_register m) ≡ len_register m
unfolding serialize_register len_register
length-serialize_register m = omega (
  arith,
  length-append (m.uuid.octets ++ (octets m.mac_addr ++ m.passwd.octets))
      (ServiceTable.serialize m.table),
  length-append m.uuid.octets (octets m.mac_addr ++ m.passwd.octets),
  ServiceTable.length-serialize m.table,
  m.uuid.size,
  m.passwd.size,
)

abbrev pub register_body : Body RegisterMessage
register_body = record {
  serialize = serialize_register;
  len = len_register;
  length-serialize = length-serialize_register;
}

pub record HupMessage : Type 0 where
  pub session_id : ℕ
  pub error_code : ℕ

-- `HupMessage::new` masks the session ID; parsing one does not.
abbrev pub new_hup : ℕ → ℕ → HupMessage
new_hup session_id error_code = record { session_id = session_id % 2 ^ 24; error_code = error_code }

-- `size_of::<HupMessage>()`
abbrev pub hup_size : ℕ
hup_size = 8

unfoldable pub hup_from_bytes : List ℕ → Outcome HupMessage
hup_from_bytes input =
    if length input == hup_size
    then ok (record { session_id = from_be32 input; error_code = from_be32 (drop 4 input) })
    else err other

abbrev pub hup_body : Body HupMessage
hup_body = record {
  serialize = λ m. be32 m.session_id ++ be32 m.error_code;
  len = λ m. hup_size;
  length-serialize = λ m. refl;
}

-- `STATUS_FLAG_SCAN`
abbrev pub status_flag_scan : ℕ
status_flag_scan = 0x00000001

pub record StatusMessage : Type 0 where
  pub request_id : ℕ
  pub status_flags : ℕ
  pub active_sessions : ℕ

abbrev pub status_body : Body StatusMessage
status_body = record {
  serialize = λ m. be16 m.request_id ++ (be32 m.status_flags ++ be32 m.active_sessions);
  len = λ m. 10;
  length-serialize = λ m. refl;
}

abbrev pub create_ack_message : ℕ → ℕ → ControlMessage ℕ
create_ack_message msg_id e = Control.new msg_id cmsg_ack e

abbrev pub create_ping_message : ℕ → ControlMessage EmptyBody
create_ping_message msg_id = Control.new msg_id cmsg_ping empty_body

abbrev pub create_register_message : ℕ → RegisterMessage → ControlMessage RegisterMessage
create_register_message msg_id m = Control.new msg_id cmsg_register m

abbrev pub create_update_message : ℕ → ServiceTable → ControlMessage ServiceTable
create_update_message msg_id svc_table = Control.new msg_id cmsg_update svc_table

abbrev pub create_hup_message : ℕ → ℕ → ℕ → ControlMessage HupMessage
create_hup_message msg_id session_id error_code =
    Control.new msg_id cmsg_hup (new_hup session_id error_code)

abbrev pub create_status_message : ℕ → StatusMessage → ControlMessage StatusMessage
create_status_message msg_id m = Control.new msg_id cmsg_status m

unfoldable pub parse_ack_message : List ℕ → Outcome ℕ
parse_ack_message input = if length input == 4 then ok (from_be32 input) else err other

-- The error codes of an ACK.
abbrev pub ack_no_error : ℕ
ack_no_error = 0x00000000

abbrev pub ack_unsupported_protocol_version : ℕ
ack_unsupported_protocol_version = 0x00000001

abbrev pub ack_unauthorized : ℕ
ack_unauthorized = 0x00000002

abbrev pub ack_connection_error : ℕ
ack_connection_error = 0x00000003

abbrev pub ack_unsupported_method : ℕ
ack_unsupported_method = 0x00000004

abbrev pub ack_internal_server_error : ℕ
ack_internal_server_error = 0xffffffff

-- The payloads that the client both sends and reads come back from their bytes: the code of an ACK
-- that fits 32 bits, and a HUP message with the lower 24 bits of the session ID that it was made
-- for. Input of any other size is an error.
pub payload_round_trip :
    (code session_id : ℕ) (input : List ℕ)
    → IsU32 code
    → (parse_ack_message (u32_body.serialize code) ≡ ok code)
      × (hup_from_bytes (hup_body.serialize (new_hup session_id code))
          ≡ ok (record { session_id = session_id % 16777216; error_code = code }))
      × (length input ≢ 4 → parse_ack_message input ≡ err other)
      × (length input ≢ 8 → hup_from_bytes input ≡ err other)
unfolding parse_ack_message hup_from_bytes
payload_round_trip code session_id input h = (
  ap ok (from_be32-be32 code h),
  ground (arith, from_be32-be32 code h, from_be32-be32 (session_id % 2 ^ 24) (omega arith)),
  λ n. ground arith,
  λ n. ground arith,
)
