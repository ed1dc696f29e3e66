-- ===== src/Raw/Ip.antt =====
-- IPv4 packets: src/net/raw/ip.rs.
pub mod Header
pub mod Checked
pub mod Wire
use arrow_client.Base.{
  ℕ, ◌+◌, ◌-◌, ◌*◌, ◌/◌, ◌%◌, ◌^◌, Bool, true, false, ◌||◌, List, [], ◌∷◌, ◌++◌, length, take, drop,
  ltb, ◌==◌, if◌then◌else◌,
}
use arrow_client.Base.Bytes.{be16, from_be16, from_u8, usize_mod}
use arrow_client.Net.Addr.{Ipv4Addr, octets4}
use arrow_client.Raw.Checksum.{sum_raw_be, sum_to_checksum, first_octets}
use arrow_client.Raw.Ether
use arrow_client.Raw.Ether.{
  PacketResult, ok, parse_error, panic, ◌>>=◌, plain_add, EtherBody, EtherHeader,
}
use arrow_client.Raw.Words.{words_as_bytes, words_from_bytes}

-- `IP_PROTO_ICMP`
abbrev pub ip_proto_icmp : ℕ
ip_proto_icmp = 0x01

-- `IP_PROTO_TCP`
abbrev pub ip_proto_tcp : ℕ
ip_proto_tcp = 0x06

-- `IP_PROTO_UDP`
abbrev pub ip_proto_udp : ℕ
ip_proto_udp = 0x11

-- `Ipv4PacketHeader`
pub record Ipv4Header : Type 0 where
  pub version : ℕ
  pub dscp : ℕ
  pub ecn : ℕ
  pub ident : ℕ
  pub flags : ℕ
  pub foffset : ℕ
  pub ttl : ℕ
  pub protocol : ℕ
  pub src : Ipv4Addr
  pub dst : Ipv4Addr
  pub options : List ℕ
  pub length : ℕ

-- `Ipv4PacketHeader::new`
abbrev pub new_header : Ipv4Addr → Ipv4Addr → ℕ → ℕ → Ipv4Header
new_header src dst protocol ttl = record {
  version = 4;
  dscp = 0;
  ecn = 0;
  ident = 0;
  flags = 0;
  foffset = 0;
  ttl = ttl;
  protocol = protocol;
  src = src;
  dst = dst;
  options = [];
  length = 0;
}

-- `size_of::<RawIpv4PacketHeader>()`
abbrev pub header_size : ℕ
header_size = 20

-- The bytes of a `RawIpv4PacketHeader`: those before its checksum, and those after it.
unfoldable pub before_checksum : Ipv4Header → ℕ → ℕ → List ℕ
before_checksum h ihl length =
    (h.version * 2 ^ 4 % 2 ^ 8 + ihl % 2 ^ 4)
    ∷ (h.dscp * 2 ^ 2 % 2 ^ 8 + h.ecn % 2 ^ 2)
    ∷ (be16 (length % 2 ^ 16)
        ++ (be16 h.ident
            ++ (be16 (h.flags * 2 ^ 13 % 2 ^ 16 + h.foffset % 2 ^ 13)
                ++ (h.ttl ∷ h.protocol ∷ []))))

abbrev pub after_checksum : Ipv4Header → List ℕ
after_checksum h = octets4 h.src ++ octets4 h.dst

-- The rest of `RawIpv4PacketHeader::new`, with the words of the header and the length known.
unfoldable pub raw_header : Ipv4Header → ℕ → ℕ → List ℕ
unfolding before_checksum
raw_header h ihl length =
    let pre = before_checksum h ihl length in
    let post = after_checksum h in
    let sum =
      (sum_raw_be (pre ++ (be16 0 ++ post)) + sum_raw_be (words_as_bytes h.options)) % 2 ^ 32 in
    pre ++ (be16 (sum_to_checksum sum) ++ post)

-- `RawIpv4PacketHeader::new`; the sum of `length` and its shift do not reach 2 ^ 64.
unfoldable pub new_raw_header : Bool → Ipv4Header → ℕ → PacketResult (List ℕ)
unfolding raw_header
new_raw_header overflow_checks h dlen =
    let options_len = length h.options in
    let total = header_size + options_len * 4 + dlen in
    plain_add overflow_checks (2 ^ 8) 5 (options_len % 2 ^ 8) >>= λ ihl. ok (raw_header h ihl total)

-- `Ipv4PacketHeader::serialize`
unfoldable pub serialize_header : Bool → Ipv4Header → ℕ → PacketResult (List ℕ)
unfolding new_raw_header
serialize_header overflow_checks h dlen =
    new_raw_header overflow_checks h dlen >>= λ rh. ok (rh ++ words_as_bytes h.options)

-- The fields that `Ipv4PacketHeader::parse` reads, with the number of options known.
unfoldable pub read_fields : ℕ → List ℕ → Ipv4Header
read_fields options_len bytes =
    let vihl = from_u8 bytes in
    let dscp_ecn = from_u8 (drop 1 bytes) in
    let flags_foffset = from_be16 (drop 6 bytes) in
    record {
      version = vihl / 2 ^ 4;
      dscp = dscp_ecn / 2 ^ 2;
      ecn = dscp_ecn % 2 ^ 2;
      ident = from_be16 (drop 4 bytes);
      flags = flags_foffset / 2 ^ 13 % 2 ^ 8;
      foffset = flags_foffset % 2 ^ 13;
      ttl = from_u8 (drop 8 bytes);
      protocol = from_u8 (drop 9 bytes);
      src = first_octets (drop 12 bytes);
      dst = first_octets (drop 16 bytes);
      options = words_from_bytes options_len (drop header_size bytes);
      length = from_be16 (drop 2 bytes);
    }

-- `Ipv4PacketHeader::parse`. A header of fewer than five words makes `ihl as usize - (size >> 2)`
-- overflow: with overflow checks this panics there; without them the vector of options gets a
-- length that no vector can have, which panics too.
unfoldable pub parse_header : List ℕ → PacketResult Ipv4Header
unfolding read_fields
parse_header bytes =
    let ihl = from_u8 bytes % 2 ^ 4 in
    if ltb (length bytes) header_size
    then parse_error
    else if ltb ihl 5
    then panic
    else if ltb (length bytes) (header_size + (ihl - 5) * 4)
    then parse_error
    else ok (read_fields (ihl - 5) bytes)

-- `Ipv4PacketType`
pub data Ipv4PacketType : Type 0 where
  icmp tcp udp unknown : Ipv4PacketType

-- `Ipv4PacketType::code`
abbrev pub code : Ipv4PacketType → PacketResult ℕ
code icmp = ok ip_proto_icmp
code tcp = ok ip_proto_tcp
code udp = ok ip_proto_udp
code unknown = panic

-- `Ipv4PacketType::from`
abbrev pub type_from : ℕ → Ipv4PacketType
type_from n =
    if n == ip_proto_icmp
    then icmp
    else if n == ip_proto_tcp
    then tcp
    else if n == ip_proto_udp
    then udp
    else unknown

-- The derived `==` of `Ipv4PacketType`
abbrev pub same_type : Ipv4PacketType → Ipv4PacketType → Bool
same_type icmp icmp = true
same_type tcp tcp = true
same_type udp udp = true
same_type unknown unknown = true
same_type _ _ = false

-- `Ipv4PacketBody`
pub record Ipv4Body (B : Type 0) : Type 0 where
  pub parse : List ℕ → PacketResult B
  pub serialize : Ipv4Header → B → PacketResult (List ℕ)
  pub packet_type : B → Ipv4PacketType
  pub len : B → ℕ

-- `Vec<u8>`
abbrev pub raw_body : Ipv4Body (List ℕ)
raw_body = record {
  parse = λ bytes. ok bytes;
  serialize = λ h bytes. ok bytes;
  packet_type = λ bytes. unknown;
  len = λ bytes. length bytes;
}

-- `Ipv4Packet`
pub record Ipv4Packet (B : Type 0) : Type 0 where
  pub header : Ipv4Header
  pub body : B

module _ {B : Type 0} (i : Ipv4Body B) where
  -- `Ipv4Packet::create`
  abbrev pub create : Ipv4Addr → Ipv4Addr → ℕ → B → PacketResult (Ipv4Packet B)
  create saddr daddr ttl body = code (i.packet_type body) >>= λ protocol.
      ok (record { header = new_header saddr daddr protocol ttl; body = body })

  -- The comparison of the two types at the end of `Ipv4Packet::parse`
  abbrev accept : Ipv4Header → B → PacketResult (Ipv4Packet B)
  accept header body =
      let btype = i.packet_type body in
      if same_type btype unknown || same_type btype (type_from header.protocol)
      then ok (record { header = header; body = body })
      else parse_error

  unfoldable pub parse : List ℕ → PacketResult (Ipv4Packet B)
  unfolding parse_header
  parse bytes =
      if ltb (length bytes) header_size
      then parse_error
      else (parse_header bytes >>= λ header.
          i.parse (drop (header_size + length header.options * 4) bytes) >>= λ body.
          accept header body)

module _ {B : Type 0} (overflow_checks : Bool) (i : Ipv4Body B) where
  unfoldable pub serialize : EtherHeader → Ipv4Packet B → PacketResult (List ℕ)
  unfolding serialize_header
  serialize eh p = serialize_header overflow_checks p.header (i.len p.body) >>= λ head.
      i.serialize p.header p.body >>= λ bytes. ok (head ++ bytes)

  -- `EtherPacketBody` for `Ipv4Packet<B>`
  abbrev pub ipv4_body : EtherBody (Ipv4Packet B)
  ipv4_body = record { parse = parse i; serialize = serialize; packet_type = λ p. Ether.ipv4 }
