-- ===== src/Raw/Arp.antt =====
-- ARP packets: src/net/raw/arp.rs.
pub mod Wire
pub mod Scanner
use arrow_client.Base.{
  ℕ, ◌+◌, ◌*◌, ◌^◌, List, ◌∷◌, [], ◌++◌, length, take, drop, ltb, ◌==◌, if◌then◌else◌,
}
use arrow_client.Base.Bytes.{be16, from_be16, from_u8}
use arrow_client.Net.Addr.{MacAddr, octets, Ipv4Addr, octets4}
use arrow_client.Raw.Ether
use arrow_client.Raw.Ether.{PacketResult, ok, parse_error, panic, ◌>>=◌, EtherBody, EtherHeader}

-- `ArpOperation`
pub data ArpOperation : Type 0 where
  request reply : ArpOperation

-- `ArpOperation::from`
abbrev pub operation_from : ℕ → PacketResult ArpOperation
operation_from v = if v == 1 then ok request else if v == 2 then ok reply else panic

-- `self as u16`
abbrev pub operation_code : ArpOperation → ℕ
operation_code request = 1
operation_code reply = 2

-- `ArpPacket`
pub record ArpPacket : Type 0 where
  pub htype : ℕ
  pub ptype : ℕ
  pub hlen : ℕ
  pub plen : ℕ
  pub oper : ArpOperation
  pub sha : List ℕ
  pub spa : List ℕ
  pub tha : List ℕ
  pub tpa : List ℕ

-- `ArpPacket::ipv4_over_ethernet`
abbrev pub ipv4_over_ethernet : ArpOperation → MacAddr → Ipv4Addr → MacAddr → Ipv4Addr → ArpPacket
ipv4_over_ethernet oper sha spa tha tpa = record {
  htype = 0x0001;
  ptype = 0x0800;
  hlen = 6;
  plen = 4;
  oper = oper;
  sha = octets sha;
  spa = octets4 spa;
  tha = octets tha;
  tpa = octets4 tpa;
}

-- `size_of::<RawArpPacketHeader>()`
abbrev pub header_size : ℕ
header_size = 8

-- The packet that `ArpPacket::parse` builds, with the lengths and the operation known.
unfoldable pub read_fields : ℕ → ℕ → ArpOperation → List ℕ → ArpPacket
read_fields hlen plen oper bytes =
    let offset_1 = header_size in
    let offset_2 = offset_1 + hlen in
    let offset_3 = offset_2 + plen in
    let offset_4 = offset_3 + hlen in
    record {
      htype = from_be16 bytes;
      ptype = from_be16 (drop 2 bytes);
      hlen = hlen;
      plen = plen;
      oper = oper;
      sha = take hlen (drop offset_1 bytes);
      spa = take plen (drop offset_2 bytes);
      tha = take hlen (drop offset_3 bytes);
      tpa = take plen (drop offset_4 bytes);
    }

-- `ArpPacket::parse`
unfoldable pub parse : List ℕ → PacketResult ArpPacket
unfolding read_fields
parse bytes =
    let hlen = from_u8 (drop 4 bytes) in
    let plen = from_u8 (drop 5 bytes) in
    if ltb (length bytes) header_size
    then parse_error
    else if ltb (length bytes) (header_size + hlen * 2 + plen * 2)
    then parse_error
    else (operation_from (from_be16 (drop 6 bytes)) >>= λ oper.
        ok (read_fields hlen plen oper bytes))

-- The bytes of `RawArpPacketHeader::new`
unfoldable pub raw_header : ArpPacket → List ℕ
raw_header p = be16 p.htype ++ (be16 p.ptype ++ (p.hlen ∷ p.plen ∷ be16 (operation_code p.oper)))

unfoldable pub serialize : EtherHeader → ArpPacket → PacketResult (List ℕ)
unfolding raw_header
serialize eh p = ok (raw_header p ++ (p.sha ++ (p.spa ++ (p.tha ++ p.tpa))))

-- `EtherPacketBody` for `ArpPacket`
abbrev pub arp_body : EtherBody ArpPacket
arp_body = record { parse = parse; serialize = serialize; packet_type = λ p. Ether.arp }
