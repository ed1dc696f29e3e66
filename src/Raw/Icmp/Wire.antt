-- ===== src/Raw/Icmp/Wire.antt =====
-- ICMP packets on the wire.
use arrow_client.Base.{
  ℕ, ◌%◌, ◌^◌, ◌≡◌, ◌≢◌, refl, List, ◌∷◌, ◌++◌, length, false, ltb, ge→ltb, arith,
}
use arrow_client.Base.Bytes.{IsU8, IsU16, IsU32, be16, be32, from_be32-be32}
use arrow_client.Raw.Ether.{ok}
use arrow_client.Raw.Ip.{Ipv4Header}
use arrow_client.Raw.Ip.Wire
use arrow_client.Raw.Icmp.{
  IcmpPacketType, echo, echo_reply, unknown, type_code, type_from, IcmpPacket, IcmpBody, checksum,
  header_size, raw_header, parse, serialize, icmp_body, EmptyPayload, empty_payload, empty_body,
  vec_body, new_echo_request, identifier, seq_number,
}

-- A body is read back from its bytes, and the checksum covers the bytes that are written.
pub record IsLawful {B : Type 0} (i : IcmpBody B) : Type 0 where
  pub parse-serialize : (body : B) → i.parse (i.serialize body) ≡ ok body
  pub borrow-serialize : (body : B) → i.borrow body ≡ i.serialize body

empty-parse : (body : EmptyPayload) → empty_body.parse (empty_body.serialize body) ≡ ok body
empty-parse empty_payload = refl

pub empty_lawful : IsLawful empty_body
empty_lawful = record { parse-serialize = empty-parse; borrow-serialize = λ body. refl }

abbrev pub vec_lawful : IsLawful vec_body
vec_lawful = record { parse-serialize = λ body. refl; borrow-serialize = λ body. refl }

-- The type is one that has a code, and the fields fit the bits that the wire has for them.
pub record IsWire {B : Type 0} (p : IcmpPacket B) : Type 0 where
  pub icmp_type : p.icmp_type ≢ unknown
  pub code : IsU8 p.code
  pub rest : IsU32 p.rest

-- The number of a type; the type that stands for all others has none.
abbrev pub type_number : IcmpPacketType → ℕ
type_number echo = 8
type_number echo_reply = 0
type_number unknown = 0

type_code_ok : (t : IcmpPacketType) → t ≢ unknown → type_code t ≡ ok (type_number t)
type_code_ok echo h = refl
type_code_ok echo_reply h = refl
type_code_ok unknown h = absurd (h refl)

type_from-number : (t : IcmpPacketType) → t ≢ unknown → type_from (type_number t) ≡ t
type_from-number echo h = refl
type_from-number echo_reply h = refl
type_from-number unknown h = absurd (h refl)

module _ {B : Type 0} (i : IcmpBody B) where
  -- The bytes that `serialize` writes
  abbrev pub wire : IcmpPacket B → List ℕ
  wire p =
      let t = type_number p.icmp_type in
      t ∷ p.code ∷ (be16 (checksum i p t) ++ (be32 p.rest ++ i.serialize p.body))

  pub serialize_ok :
      (iph : Ipv4Header) (p : IcmpPacket B) → IsWire p → serialize i iph p ≡ ok (wire p)
  unfolding serialize raw_header
  serialize_ok iph p w = rw (type_code_ok p.icmp_type w.icmp_type) refl

  pub parse-wire : (p : IcmpPacket B) → IsLawful i → IsWire p → parse i (wire p) ≡ ok p
  unfolding parse
  parse-wire p lawful w =
      let whole : ltb (length (wire p)) header_size ≡ false = ge→ltb _ _ (omega arith) in
      rw whole (
        rw (lawful.parse-serialize p.body) (λ k. ok (record {
          icmp_type = type_from-number p.icmp_type w.icmp_type k;
          code = p.code;
          rest = from_be32-be32 p.rest w.rest k;
          body = p.body;
        })))

  -- So ICMP packets are bodies that an IPv4 packet can carry.
  abbrev pub icmp_lawful : IsLawful i → Wire.IsLawful (icmp_body i)
  icmp_lawful lawful = record {
    IsSendable = λ iph p. IsWire p;
    read = λ p. p;
    written = λ iph p w. (wire p, serialize_ok iph p w, parse-wire p lawful w);
    read_type = λ p. refl;
  }

-- The identifier of an echo request is read back, and so is the low byte of its sequence number:
-- the high byte is lost.
pub echo_request-identifier :
    {B : Type 0} (id seq : ℕ) (body : B)
    → IsU16 id
    → IsU16 seq
    → (identifier (new_echo_request id seq body) ≡ id)
      × (seq_number (new_echo_request id seq body) ≡ seq % 2 ^ 8)
unfolding identifier seq_number
echo_request-identifier id seq body hi hs = (omega arith, omega arith)
