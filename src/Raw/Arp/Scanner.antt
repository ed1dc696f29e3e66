-- ===== src/Raw/Arp/Scanner.antt =====
-- The ARP scanner: `scanner` of src/net/raw/arp.rs.
pub mod Laws
use Prim.Native.Nat.{bit_and, bit_or}
use arrow_client.Base.{
  ℕ, ◌+◌, ◌-◌, ◌^◌, Bool, Option, none, some, List, [], ◌∷◌, ltb, if◌then◌else◌,
}
use arrow_client.Net.Addr.{MacAddr, Ipv4Addr}
use arrow_client.Raw.Arp.{ArpPacket, request, ipv4_over_ethernet, arp_body}
use arrow_client.Raw.Checksum.{ipv4addr_to_u32, ipv4addr_from, slice_to_ipv4addr}
use arrow_client.Raw.Ether
use arrow_client.Raw.Ether.{
  PacketResult, ok, parse_error, panic, ◌>>=◌, plain_add, mac_from_slice, EtherPacket, create,
  serialize, parse,
}
use arrow_client.Raw.Pcap
use arrow_client.Raw.Pcap.{EthernetDevice, PacketGenerator, PcapResult, SrEnv, scan_with}

-- `Ipv4ArpScannerPacketGenerator`; of its buffer, the bytes in it.
pub record Generator : Type 0 where
  pub device : EthernetDevice
  pub hdst : MacAddr
  pub bcast : MacAddr
  pub current : ℕ
  pub last : ℕ
  pub buffer : List ℕ

abbrev pub bcast_addr : MacAddr
bcast_addr = record { a = 0xff; b = 0xff; c = 0xff; d = 0xff; e = 0xff; f = 0xff }

abbrev pub zero_addr : MacAddr
zero_addr = record { a = 0; b = 0; c = 0; d = 0; e = 0; f = 0 }

-- The ARP request for an address
abbrev pub request_for : EthernetDevice → ℕ → ArpPacket
request_for device n =
    ipv4_over_ethernet request device.mac_addr device.ip_addr zero_addr (ipv4addr_from n)

-- `Host`
abbrev pub Host : Type 0
Host = MacAddr × Ipv4Addr

module _ (overflow_checks : Bool) where
  -- `Ipv4ArpScannerPacketGenerator::new`
  unfoldable pub new : EthernetDevice → PacketResult Generator
  new device =
      let mask = ipv4addr_to_u32 device.netmask in
      let addr = ipv4addr_to_u32 device.ip_addr in
      let current = bit_and addr mask in
      let last = bit_or current (2 ^ 32 - 1 - mask) in
      plain_add overflow_checks (2 ^ 32) current 1 >>= λ current. ok (record {
        device = device;
        hdst = zero_addr;
        bcast = bcast_addr;
        current = current;
        last = last;
        buffer = [];
      })

  -- `Ipv4ArpScannerPacketGenerator::next`
  unfoldable pub next : Generator → PacketResult (Option (List ℕ) × Generator)
  next g =
      let pdst = ipv4addr_from g.current in
      let arpp = ipv4_over_ethernet request (g.device).mac_addr (g.device).ip_addr g.hdst pdst in
      if ltb g.current g.last
      then (create arp_body (g.device).mac_addr g.bcast arpp >>= λ pkt.
          serialize arp_body pkt >>= λ bytes.
          plain_add overflow_checks (2 ^ 32) g.current 1 >>= λ current.
          ok (some bytes, record g { buffer = bytes; current = current }))
      else ok (none, g)

  abbrev pub generator : PacketGenerator Generator
  generator = record { next = next }

-- The loop of `scan` over the captured packets
unfoldable pub collect : List (List ℕ) → PacketResult (List Host)
collect [] = ok []
collect (p ∷ packets) =
    let rest = collect packets in
    elim (parse arp_body p) [
      | ok ep ↦ mac_from_slice (ep.body).sha >>= λ sha.
          slice_to_ipv4addr (ep.body).spa >>= λ spa. rest >>= λ hosts. ok ((sha, spa) ∷ hosts)
      | parse_error ↦ rest
      | panic ↦ panic
    ]

-- `Ipv4ArpScanner::scan`
unfoldable pub scan : Bool → EthernetDevice → SrEnv → ℕ → PcapResult (List Host)
unfolding new collect
scan overflow_checks device env fuel =
    scan_with (generator overflow_checks) collect env fuel (new overflow_checks device)
