-- ===== src/Raw/Ip/Wire.antt =====
-- IPv4 packets survive the way over the wire when their bodies do.
use arrow_client.Base.{
  ℕ, ◌+◌, ◌*◌, ◌%◌, ◌^◌, ◌≡◌, refl, ap, ◌∙◌, ◌⊎◌, Bool, true, ◌||◌, List, ◌++◌, length,
  length-append, arith,
}
use arrow_client.Raw.Ether.{ok, EtherHeader}
use arrow_client.Raw.Ether.Laws
use arrow_client.Raw.Ip.{
  Ipv4Header, Ipv4PacketType, icmp, tcp, udp, unknown, Ipv4Body, Ipv4Packet, type_from, same_type,
  header_size, parse, serialize, ipv4_body,
}
use arrow_client.Raw.Ip.Header.{
  IsWire, wire, total_length, serialize_header_ok, length-wire, parse_header-wire,
}

-- What a body turns into that is sent under some header, and the length that it announces.
pub record IsLawful {B : Type 0} (i : Ipv4Body B) : Type 1 where
  pub IsSendable : Ipv4Header → B → Type 0
  pub read : B → B
  pub written :
      (h : Ipv4Header) (body : B)
      → IsSendable h body
      → (bytes : List ℕ) × (i.serialize h body ≡ ok bytes) × (i.parse bytes ≡ ok (read body))
  pub read_type : (body : B) → i.packet_type (read body) ≡ i.packet_type body

-- The parser takes a body of a type that fits the header.
abbrev pub Fits : {B : Type 0} → Ipv4Body B → Ipv4Packet B → Type 0
Fits i p = (i.packet_type p.body ≡ unknown) ⊎ (i.packet_type p.body ≡ type_from p.header.protocol)

accepted :
    (a b : Ipv4PacketType) → (a ≡ unknown) ⊎ (a ≡ b) → same_type a unknown || same_type a b ≡ true
accepted icmp icmp h = refl
accepted icmp _ h = ground arith
accepted tcp tcp h = refl
accepted tcp _ h = ground arith
accepted udp udp h = refl
accepted udp _ h = ground arith
accepted unknown _ h = refl

-- The header comes back with the length field filled in.
abbrev pub received : {B : Type 0} (i : Ipv4Body B) → IsLawful i → Ipv4Packet B → Ipv4Packet B
received i lawful p = record {
  header = record (p.header) { length = total_length p.header (i.len p.body) % 2 ^ 16 };
  body = lawful.read p.body;
}

pub record IsSendable {B : Type 0} (i : Ipv4Body B) (lawful : IsLawful i) (p : Ipv4Packet B)
    : Type 0 where
  pub header : IsWire p.header
  pub body : lawful.IsSendable p.header p.body
  pub fits : Fits i p

-- An IPv4 packet whose body is of a type that fits the header is read back from its bytes, with the
-- length of the packet in the header.
pub parse-serialize :
    {B : Type 0} (overflow_checks : Bool) (i : Ipv4Body B) (lawful : IsLawful i) (eh : EtherHeader)
    (p : Ipv4Packet B)
    → IsSendable i lawful p
    → (bytes : List ℕ) × (serialize overflow_checks i eh p ≡ ok bytes)
      × (parse i bytes ≡ ok (received i lawful p))
unfolding parse serialize
parse-serialize checks i lawful eh p sendable =
    let dlen = i.len p.body in
    let w = sendable.header in
    let (bytes, sent, got) = lawful.written p.header p.body sendable.body in
    let (hd, rest) = parse_header-wire p.header dlen bytes w in
    let known = accepted (i.packet_type p.body) (type_from p.header.protocol) sendable.fits in
    let size : length (wire p.header dlen ++ bytes)
        ≡ header_size + length p.header.options * 4 + length bytes =
      length-append (wire p.header dlen) bytes
      ∙ ap (λ m. m + length bytes) (length-wire p.header dlen) in
    (
      wire p.header dlen ++ bytes,
      ground (arith, serialize_header_ok checks p.header dlen w.few, sent),
      ground (arith, hd, rest, got, known, size, lawful.read_type p.body),
    )

-- So IPv4 packets are bodies that an Ethernet packet can carry.
abbrev pub ipv4_lawful :
    {B : Type 0} (overflow_checks : Bool) (i : Ipv4Body B)
    → IsLawful i
    → Laws.IsLawful (ipv4_body overflow_checks i)
ipv4_lawful checks i lawful = record {
  IsSendable = λ eh p. IsSendable i lawful p;
  read = received i lawful;
  written = parse-serialize checks i lawful;
  read_type = λ p. refl;
}
