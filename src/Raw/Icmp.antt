-- ===== src/Raw/Icmp.antt =====
-- ICMP packets: src/net/raw/icmp.rs.
pub mod Wire
pub mod Scanner
pub mod Checked
use arrow_client.Base.{
  ℕ, ◌+◌, ◌*◌, ◌/◌, ◌%◌, ◌^◌, List, [], ◌∷◌, ◌++◌, length, drop, ltb, ◌==◌, if◌then◌else◌,
}
use arrow_client.Base.Bytes.{be16, be32, from_be32, from_u8}
use arrow_client.Raw.Checksum.{sum_raw_be, sum_to_checksum}
use arrow_client.Raw.Ether.{PacketResult, ok, parse_error, panic, ◌>>=◌}
use arrow_client.Raw.Ip
use arrow_client.Raw.Ip.{Ipv4Header, Ipv4Body}

-- `IcmpPacketType`
pub data IcmpPacketType : Type 0 where
  echo echo_reply unknown : IcmpPacketType

-- `IcmpPacketType::code`
abbrev pub type_code : IcmpPacketType → PacketResult ℕ
type_code echo = ok 8
type_code echo_reply = ok 0
type_code unknown = panic

-- `IcmpPacketType::from`
abbrev pub type_from : ℕ → IcmpPacketType
type_from n = if n == 8 then echo else if n == 0 then echo_reply else unknown

-- `IcmpPacket`
pub record IcmpPacket (B : Type 0) : Type 0 where
  pub icmp_type : IcmpPacketType
  pub code : ℕ
  pub rest : ℕ
  pub body : B

-- `IcmpPacketBody`. `borrow` gives the bytes that the checksum covers, `serialize` those that are
-- written.
pub record IcmpBody (B : Type 0) : Type 0 where
  pub parse : List ℕ → PacketResult B
  pub borrow : B → List ℕ
  pub serialize : B → List ℕ
  pub len : B → ℕ

-- `EmptyPayload`
pub data EmptyPayload : Type 0 where
  empty_payload : EmptyPayload

abbrev pub empty_body : IcmpBody EmptyPayload
empty_body = record {
  parse = λ bytes. if length bytes == 0 then ok empty_payload else parse_error;
  borrow = λ b. [];
  serialize = λ b. [];
  len = λ b. 0;
}

-- `Vec<u8>`
abbrev pub vec_body : IcmpBody (List ℕ)
vec_body = record {
  parse = λ bytes. ok bytes;
  borrow = λ bytes. bytes;
  serialize = λ bytes. bytes;
  len = λ bytes. length bytes;
}

-- `size_of::<RawIcmpPacketHeader>()`
abbrev pub header_size : ℕ
header_size = 8

module _ {B : Type 0} where
  -- `IcmpPacket::new_echo_request`
  abbrev pub new_echo_request : ℕ → ℕ → B → IcmpPacket B
  new_echo_request id seq payload = record {
    icmp_type = echo;
    code = 0;
    rest = id * 2 ^ 16 % 2 ^ 32 + seq;
    body = payload;
  }

  -- `IcmpEchoPacket::identifier`
  unfoldable pub identifier : IcmpPacket B → ℕ
  identifier p = p.rest / 2 ^ 16 % 2 ^ 16

  -- `IcmpEchoPacket::seq_number`
  unfoldable pub seq_number : IcmpPacket B → ℕ
  seq_number p = p.rest % 2 ^ 8

module _ {B : Type 0} (i : IcmpBody B) where
  -- `IcmpPacket::checksum`, with the code of the type known; it takes eight bits of the sequence
  -- number.
  unfoldable pub checksum : IcmpPacket B → ℕ → ℕ
  checksum p icmp_type =
      let sum = icmp_type * 2 ^ 8 % 2 ^ 16 + p.code in
      let sum = (sum + p.rest / 2 ^ 16) % 2 ^ 32 in
      let sum = (sum + p.rest % 2 ^ 8) % 2 ^ 32 in
      let sum = (sum + sum_raw_be (i.borrow p.body)) % 2 ^ 32 in sum_to_checksum sum

  -- The bytes of `IcmpPacket::raw_header`
  unfoldable pub raw_header : IcmpPacket B → PacketResult (List ℕ)
  unfolding checksum
  raw_header p = type_code p.icmp_type >>= λ icmp_type.
      ok (icmp_type ∷ p.code ∷ (be16 (checksum p icmp_type) ++ be32 p.rest))

  unfoldable pub parse : List ℕ → PacketResult (IcmpPacket B)
  parse bytes =
      if ltb (length bytes) header_size
      then parse_error
      else (i.parse (drop header_size bytes) >>= λ body. ok (record {
        icmp_type = type_from (from_u8 bytes);
        code = from_u8 (drop 1 bytes);
        rest = from_be32 (drop 4 bytes);
        body = body;
      }))

  unfoldable pub serialize : Ipv4Header → IcmpPacket B → PacketResult (List ℕ)
  unfolding raw_header
  serialize iph p = raw_header p >>= λ rh. ok (rh ++ i.serialize p.body)

  -- `Ipv4PacketBody` for `IcmpPacket<B>`
  abbrev pub icmp_body : Ipv4Body (IcmpPacket B)
  icmp_body = record {
    parse = parse;
    serialize = serialize;
    packet_type = λ p. Ip.icmp;
    len = λ p. header_size + i.len p.body;
  }

-- `IcmpPacket::new_empty_echo_request`
abbrev pub new_empty_echo_request : ℕ → ℕ → IcmpPacket EmptyPayload
new_empty_echo_request id seq = new_echo_request id seq empty_payload
