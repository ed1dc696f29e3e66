-- ===== src/Raw/Ether.antt =====
-- Ethernet packets: src/net/raw/ether.rs.
pub mod Laws
use arrow_client.Base.{
  ℕ, ◌+◌, ◌%◌, ◌^◌, ◌<◌, ◌≡◌, refl, Bool, true, false, ◌&&◌, ◌||◌, not, List, [], ◌∷◌, ◌++◌, length,
  take, drop, ltb, ◌==◌, if◌then◌else◌, arith,
}
use arrow_client.Base.Bytes.{be16, from_be16}
use arrow_client.Net.Addr.{MacAddr, octets}

-- `Result<T>` of the parsers. A `PacketParseError` is only a text for the log, which is left out.
pub data PacketResult {ℓ} (A : Type ℓ) : Type ℓ where
  ok : A → PacketResult A
  parse_error : PacketResult A
  panic : PacketResult A

infixl 5 ◌>>=◌
abbrev pub ◌>>=◌ {ℓ κ} :
    {A : Type ℓ} {B : Type κ} → PacketResult A → (A → PacketResult B) → PacketResult B
ok a >>= f = f a
parse_error >>= f = parse_error
panic >>= f = panic

-- A sum of two machine integers of a type with `modulus` values. A build with overflow checks panics
-- where it overflows; without them the sum wraps.
abbrev pub plain_add : Bool → ℕ → ℕ → ℕ → PacketResult ℕ
plain_add overflow_checks modulus a b =
    if overflow_checks && not (ltb (a + b) modulus) then panic else ok ((a + b) % modulus)

-- `MacAddr::from_slice`
abbrev pub mac_from_slice : List ℕ → PacketResult MacAddr
mac_from_slice (a ∷ b ∷ c ∷ d ∷ e ∷ f ∷ []) =
    ok (record { a = a; b = b; c = c; d = d; e = e; f = f })
mac_from_slice _ = panic

-- `ETYPE_ARP`
abbrev pub etype_arp : ℕ
etype_arp = 0x0806

-- `ETYPE_IPV4`
abbrev pub etype_ipv4 : ℕ
etype_ipv4 = 0x0800

-- `EtherPacketType`
pub data EtherPacketType : Type 0 where
  arp ipv4 unknown : EtherPacketType

-- `EtherPacketType::code`
abbrev pub code : EtherPacketType → PacketResult ℕ
code arp = ok etype_arp
code ipv4 = ok etype_ipv4
code unknown = panic

-- `EtherPacketType::from`
abbrev pub type_from : ℕ → EtherPacketType
type_from n = if n == etype_arp then arp else if n == etype_ipv4 then ipv4 else unknown

-- The derived `==` of `EtherPacketType`
abbrev pub same_type : EtherPacketType → EtherPacketType → Bool
same_type arp arp = true
same_type ipv4 ipv4 = true
same_type unknown unknown = true
same_type _ _ = false

-- `EtherPacketHeader`
pub record EtherHeader : Type 0 where
  pub src : MacAddr
  pub dst : MacAddr
  pub etype : ℕ

-- `EtherPacketHeader::packet_type`
abbrev pub header_type : EtherHeader → EtherPacketType
header_type h = type_from h.etype

-- `size_of::<RawEtherPacketHeader>()`
abbrev pub header_size : ℕ
header_size = 14

-- The bytes of `raw_header`
unfoldable pub serialize_header : EtherHeader → List ℕ
serialize_header h = octets h.dst ++ (octets h.src ++ be16 h.etype)

unfoldable pub parse_header : List ℕ → PacketResult EtherHeader
parse_header bytes =
    if length bytes == header_size
    then (mac_from_slice (take 6 (drop 6 bytes)) >>= λ src. mac_from_slice (take 6 bytes) >>= λ dst.
        ok (record { src = src; dst = dst; etype = from_be16 (drop 12 bytes) }))
    else panic

-- `EtherPacketBody`: what a body of an Ethernet packet can do. `serialize` gives the bytes that are
-- written; the writer never fails.
pub record EtherBody (B : Type 0) : Type 0 where
  pub parse : List ℕ → PacketResult B
  pub serialize : EtherHeader → B → PacketResult (List ℕ)
  pub packet_type : B → EtherPacketType

-- `Vec<u8>`
abbrev pub raw_body : EtherBody (List ℕ)
raw_body = record {
  parse = λ bytes. ok bytes;
  serialize = λ h bytes. ok bytes;
  packet_type = λ bytes. unknown;
}

-- `EtherPacket`
pub record EtherPacket (B : Type 0) : Type 0 where
  pub header : EtherHeader
  pub body : B

module _ {B : Type 0} (i : EtherBody B) where
  -- `EtherPacket::create`
  abbrev pub create : MacAddr → MacAddr → B → PacketResult (EtherPacket B)
  create src dst body = code (i.packet_type body) >>= λ etype.
      ok (record { header = record { src = src; dst = dst; etype = etype }; body = body })

  -- The comparison of the two types at the end of `EtherPacket::parse`
  abbrev accept : EtherHeader → B → PacketResult (EtherPacket B)
  accept header body =
      let btype = i.packet_type body in
      if same_type btype unknown || same_type btype (type_from header.etype)
      then ok (record { header = header; body = body })
      else parse_error

  unfoldable pub parse : List ℕ → PacketResult (EtherPacket B)
  unfolding parse_header
  parse bytes =
      if ltb (length bytes) header_size
      then parse_error
      else (parse_header (take header_size bytes) >>= λ header.
          i.parse (drop header_size bytes) >>= λ body. accept header body)

  unfoldable pub serialize : EtherPacket B → PacketResult (List ℕ)
  unfolding serialize_header
  serialize p = i.serialize p.header p.body >>= λ bytes. ok (serialize_header p.header ++ bytes)
