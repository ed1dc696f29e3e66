-- ===== src/Raw/Stack.antt =====
-- Whole frames: an Ethernet packet that carries an IPv4 packet, as the ICMP scanner and the TCP
-- scanner send and receive them.
pub mod Segments
use arrow_client.Base.{ℕ, ◌^◌, ◌<◌, ◌≡◌, ◌∙◌, sym, ap, inr, Bool, List, arith}
use mathlib.Core.Path.{subst}
use arrow_client.Raw.Ether.{ok, EtherPacket, etype_ipv4, serialize, parse, type_from}
use arrow_client.Raw.Ether.Laws
use arrow_client.Raw.Ip.{Ipv4Body, Ipv4Packet, ipv4_body}
use arrow_client.Raw.Ip.Wire.{IsLawful, IsSendable, received, ipv4_lawful}

ok_inj : {A : Type 0} {a b : A} → ok a ≡ ok b → a ≡ b
ok_inj h = cc

module _ {B : Type 0} (overflow_checks : Bool) (i : Ipv4Body B) (lawful : IsLawful i) where
  -- The Ethernet header announces IPv4, and the IPv4 packet fits its wire form.
  pub record IsSent (p : EtherPacket (Ipv4Packet B)) : Type 0 where
    pub etype : p.header.etype ≡ etype_ipv4
    pub body : IsSendable i lawful p.body

  -- The packet that a receiver reads: the length of the IPv4 packet is filled in, and the body is
  -- what reading its bytes makes of it.
  abbrev pub arrived : EtherPacket (Ipv4Packet B) → EtherPacket (Ipv4Packet B)
  arrived p = record { header = p.header; body = received i lawful p.body }

  fits : (p : EtherPacket (Ipv4Packet B)) → IsSent p → Laws.Fits (ipv4_body overflow_checks i) p
  fits p sent = inr (sym (ap type_from sent.etype))

  -- A frame is written, and what has arrived is parsed from its bytes.
  pub parse-serialize_frame :
      (p : EtherPacket (Ipv4Packet B))
      → IsSent p
      → (bytes : List ℕ) × (serialize (ipv4_body overflow_checks i) p ≡ ok bytes)
        × (parse (ipv4_body overflow_checks i) bytes ≡ ok (arrived p))
  parse-serialize_frame p sent =
      Laws.parse-serialize (ipv4_body overflow_checks i) (ipv4_lawful overflow_checks i lawful) p
        sent.body (subst (λ n. n < 2 ^ 16) (sym sent.etype) (omega arith)) (fits p sent)

  pub parse-sent :
      (p : EtherPacket (Ipv4Packet B)) (bytes : List ℕ)
      → IsSent p
      → serialize (ipv4_body overflow_checks i) p ≡ ok bytes
      → parse (ipv4_body overflow_checks i) bytes ≡ ok (arrived p)
  parse-sent p bytes sent e =
      let (bytes', e', got) = parse-serialize_frame p sent in
      let same : bytes' ≡ bytes = ok_inj (sym e' ∙ e) in
      subst (λ b. parse (ipv4_body overflow_checks i) b ≡ ok (arrived p)) same got
