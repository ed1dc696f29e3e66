-- ===== src/Raw/Icmp/Scanner.antt =====
-- The ICMP scanner: `scanner` of src/net/raw/icmp.rs.
pub mod Laws
pub mod Answers
use Prim.Native.Nat.{bit_and, bit_or}
use arrow_client.Base.{
  ℕ, ◌+◌, ◌-◌, ◌/◌, ◌%◌, ◌^◌, Bool, Option, none, some, List, [], ◌∷◌, ltb, ◌==◌, if◌then◌else◌,
}
use arrow_client.Net.Addr.{MacAddr, Ipv4Addr}
use arrow_client.Raw.Arp.Scanner.{bcast_addr, Host}
use arrow_client.Raw.Checksum.{ipv4addr_to_u32, ipv4addr_from}
use arrow_client.Raw.Ether.{
  PacketResult, ok, parse_error, panic, ◌>>=◌, plain_add, EtherBody, create, serialize, parse,
}
use arrow_client.Raw.Icmp.{
  IcmpPacket, EmptyPayload, empty_body, vec_body, icmp_body, new_empty_echo_request,
}
use arrow_client.Raw.Ip
use arrow_client.Raw.Ip.{Ipv4Packet, ipv4_body}
use arrow_client.Raw.Pcap.{EthernetDevice, PacketGenerator, PcapResult, SrEnv, scan_with}

-- `IcmpPacketGenerator`; of its buffer, the bytes in it.
pub record Generator : Type 0 where
  pub device : EthernetDevice
  pub bcast : MacAddr
  pub current : ℕ
  pub last : ℕ
  pub buffer : List ℕ

module _ (overflow_checks : Bool) where
  -- The packets that are sent
  abbrev pub sent_body : EtherBody (Ipv4Packet (IcmpPacket EmptyPayload))
  sent_body = ipv4_body overflow_checks (icmp_body empty_body)

  -- `ParsePacketType`
  abbrev pub received_body : EtherBody (Ipv4Packet (IcmpPacket (List ℕ)))
  received_body = ipv4_body overflow_checks (icmp_body vec_body)

  -- `IcmpPacketGenerator::new`
  unfoldable pub new : EthernetDevice → PacketResult Generator
  new device =
      let mask = ipv4addr_to_u32 device.netmask in
      let addr = ipv4addr_to_u32 device.ip_addr in
      let current = bit_and addr mask in
      let last = bit_or current (2 ^ 32 - 1 - mask) in
      plain_add overflow_checks (2 ^ 32) current 1 >>= λ current.
      ok (record {
        device = device;
        bcast = bcast_addr;
        current = current;
        last = last;
        buffer = [];
      })

  -- `IcmpPacketGenerator::next`
  unfoldable pub next : Generator → PacketResult (Option (List ℕ) × Generator)
  next g =
      let icmp_id = g.current / 2 ^ 16 % 2 ^ 16 in
      let icmp_seq = g.current % 2 ^ 8 in
      let pdst = ipv4addr_from g.current in
      let icmpp = new_empty_echo_request icmp_id icmp_seq in
      if ltb g.current g.last
      then (Ip.create (icmp_body empty_body) (g.device).ip_addr pdst 64 icmpp >>= λ ipp.
          create sent_body (g.device).mac_addr g.bcast ipp >>= λ pkt.
          serialize sent_body pkt >>= λ bytes.
          plain_add overflow_checks (2 ^ 32) g.current 1 >>= λ current.
          ok (some bytes, record g { buffer = bytes; current = current }))
      else ok (none, g)

  abbrev pub generator : PacketGenerator Generator
  generator = record { next = next }

  -- The loop of `scan` over the captured packets, with the `mask` and the `network` of the scanner
  unfoldable pub collect : ℕ → ℕ → List (List ℕ) → PacketResult (List Host)
  collect mask network [] = ok []
  collect mask network (p ∷ packets) =
      let rest = collect mask network packets in
      elim (parse received_body p) [
        | ok ep ↦
            let spa = ((ep.body).header).src in
            if bit_and (ipv4addr_to_u32 spa) mask == network
            then (rest >>= λ hosts. ok (((ep.header).src, spa) ∷ hosts))
            else rest
        | parse_error ↦ rest
        | panic ↦ panic
      ]

  -- `IcmpScanner::scan`, for the scanner that `new` makes for the device
  unfoldable pub scan : EthernetDevice → SrEnv → ℕ → PcapResult (List Host)
  unfolding new collect
  scan device env fuel =
      let mask = ipv4addr_to_u32 device.netmask in
      let network = bit_and (ipv4addr_to_u32 device.ip_addr) mask in
      scan_with generator (collect mask network) env fuel (new device)
