-- ===== src/Raw/Ether/Laws.antt =====
-- Ethernet packets survive the way over the wire when their bodies do.
use arrow_client.Base.{
  ℕ, ◌≤◌, ◌≡◌, refl, ◌∙◌, ◌⊎◌, inl, inr, true, ◌||◌, List, ◌++◌, length, take, drop, arith,
}
use arrow_client.Base.Bytes.{IsU16, from_be16-be16}
use arrow_client.Raw.Ether.{
  ok, EtherPacketType, arp, ipv4, unknown, EtherHeader, EtherBody, EtherPacket, type_from,
  header_size, same_type, serialize_header, parse_header, parse, serialize,
}

-- What a body that is sent under some header turns into: what `read` says. `IsSendable` is the
-- condition on a body and its header.
pub record IsLawful {B : Type 0} (i : EtherBody B) : Type 1 where
  pub IsSendable : EtherHeader → B → Type 0
  pub read : B → B
  pub written :
      (h : EtherHeader) (body : B)
      → IsSendable h body
      → (bytes : List ℕ) × (i.serialize h body ≡ ok bytes) × (i.parse bytes ≡ ok (read body))
  pub read_type : (body : B) → i.packet_type (read body) ≡ i.packet_type body

-- The parser takes a body of a type that fits the header.
abbrev pub Fits : {B : Type 0} → EtherBody B → EtherPacket B → Type 0
Fits i p = (i.packet_type p.body ≡ unknown) ⊎ (i.packet_type p.body ≡ type_from p.header.etype)

parse_header-serialize_header :
    (h : EtherHeader) (bytes : List ℕ)
    → IsU16 h.etype
    → (parse_header (take header_size (serialize_header h ++ bytes)) ≡ ok h)
      × (drop header_size (serialize_header h ++ bytes) ≡ bytes)
unfolding parse_header serialize_header
parse_header-serialize_header h bytes u = (ground (arith, from_be16-be16 h.etype u), refl)

length-serialize_header :
    (h : EtherHeader) (bytes : List ℕ) → header_size ≤ length (serialize_header h ++ bytes)
unfolding serialize_header
length-serialize_header h bytes = omega arith

accepted :
    (a b : EtherPacketType) → (a ≡ unknown) ⊎ (a ≡ b) → same_type a unknown || same_type a b ≡ true
accepted arp _ (inl e) = ground arith
accepted arp arp h = refl
accepted arp ipv4 (inr e) = ground arith
accepted arp unknown (inr e) = ground arith
accepted ipv4 _ (inl e) = ground arith
accepted ipv4 arp (inr e) = ground arith
accepted ipv4 ipv4 h = refl
accepted ipv4 unknown (inr e) = ground arith
accepted unknown _ h = refl

-- A frame is read back when the bytes behind its header are those of a body that fits it.
pub parse-frame :
    {B : Type 0} (i : EtherBody B) (p : EtherPacket B) (bytes : List ℕ)
    → i.parse bytes ≡ ok p.body
    → IsU16 p.header.etype
    → Fits i p
    → parse i (serialize_header p.header ++ bytes) ≡ ok p
unfolding parse
parse-frame i p bytes got etype fits =
    let (hd, rest) = parse_header-serialize_header p.header bytes etype in
    ground (
      arith,
      hd,
      rest,
      got,
      length-serialize_header p.header bytes,
      accepted (i.packet_type p.body) (type_from p.header.etype) fits,
    )

-- A packet whose body is of a type that fits the header is read back from its bytes: the header is
-- the one that was sent, and the body is what reading its bytes makes of it.
pub parse-serialize :
    {B : Type 0} (i : EtherBody B) (lawful : IsLawful i) (p : EtherPacket B)
    → lawful.IsSendable p.header p.body
    → IsU16 p.header.etype
    → Fits i p
    → (bytes : List ℕ) × (serialize i p ≡ ok bytes)
      × (parse i bytes ≡ ok (record { header = p.header; body = lawful.read p.body }))
unfolding serialize
parse-serialize i lawful p sendable etype fits =
    let (bytes, sent, got) = lawful.written p.header p.body sendable in
    let read : EtherPacket _ = record { header = p.header; body = lawful.read p.body } in
    let same = lawful.read_type p.body in
    let fits' : Fits i read = elim fits [ inl e ↦ inl (same ∙ e) | inr e ↦ inr (same ∙ e) ] in
    (serialize_header p.header ++ bytes, rw sent refl, parse-frame i read bytes got etype fits')
