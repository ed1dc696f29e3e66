-- ===== src/Raw/Tcp/Scanner.antt =====
-- The TCP scanner: `scanner` of src/net/raw/tcp.rs.
pub mod Laws
pub mod Answers
use arrow_client.Base.{ℕ, Bool, Option, none, some, List, [], ◌∷◌}
use arrow_client.Net.Addr.{MacAddr, Ipv4Addr}
use arrow_client.Raw.Arp.Scanner.{Host}
use arrow_client.Raw.Ether.{
  PacketResult, ok, parse_error, panic, ◌>>=◌, EtherBody, create, serialize, parse,
}
use arrow_client.Raw.Ip
use arrow_client.Raw.Ip.{Ipv4Packet, ipv4_body}
use arrow_client.Raw.Pcap.{EthernetDevice, PacketGenerator, PcapResult, SrEnv, scan_with}
use arrow_client.Raw.Ports.{PortCollection, PortIterator, iter_of}
use arrow_client.Raw.Ports
use arrow_client.Raw.Tcp
use arrow_client.Raw.Tcp.{TcpPacket, tcp_body, tcp_flag_syn}

-- `Service`
abbrev pub Service : Type 0
Service = MacAddr × (Ipv4Addr × ℕ)

-- `TcpPortScannerPacketGenerator`; the hosts are those that its iterator has left, and of its buffer
-- there are the bytes in it.
pub record Generator : Type 0 where
  pub device : EthernetDevice
  pub hosts : List Host
  pub sport : ℕ
  pub endpoints : PortCollection
  pub host : Option Host
  pub ports : PortIterator
  pub buffer : List ℕ

-- `TcpPortScannerPacketGenerator::new`
abbrev pub new : EthernetDevice → List Host → ℕ → PortCollection → Generator
new device [] sport endpoints = record {
  device = device;
  hosts = [];
  sport = sport;
  endpoints = endpoints;
  host = none;
  ports = iter_of endpoints;
  buffer = [];
}
new device (h ∷ hosts) sport endpoints = record {
  device = device;
  hosts = hosts;
  sport = sport;
  endpoints = endpoints;
  host = some h;
  ports = iter_of endpoints;
  buffer = [];
}

module _ (overflow_checks : Bool) where
  abbrev pub packet_body : EtherBody (Ipv4Packet TcpPacket)
  packet_body = ipv4_body overflow_checks (tcp_body overflow_checks)

  -- The packet that `next` makes for a port
  unfoldable pub syn_packet : Generator → Host → ℕ → PacketResult (List ℕ)
  syn_packet g host port =
      let tcpp = Tcp.new g.sport port tcp_flag_syn [] in
      Ip.create (tcp_body overflow_checks) (g.device).ip_addr host.1 64 tcpp >>= λ ipp.
      create packet_body (g.device).mac_addr host.0 ipp >>= λ pkt. serialize packet_body pkt

  -- The rest of `next` once the iterator has given its next port, if it has one; `go_on` is what
  -- follows where it has none.
  abbrev pub with_port :
      Generator
      → Host
      → Option ℕ × PortIterator
      → PacketResult (Option (List ℕ) × Generator)
      → PacketResult (Option (List ℕ) × Generator)
  with_port g host (some port, ports) go_on = syn_packet g host port >>= λ bytes.
      ok (some bytes, record g { ports = ports; buffer = bytes })
  with_port g host (none, ports) go_on = go_on

  -- `next` for a current host, when the iterator has these hosts left; the call of itself is on the
  -- next of them.
  unfoldable pub next_from :
      List Host → Host → Generator → PacketResult (Option (List ℕ) × Generator)
  unfolding syn_packet
  next_from [] host g = Ports.next overflow_checks g.ports >>= λ given.
      with_port g host given
        (ok (none, record g { host = none; ports = iter_of g.endpoints; hosts = [] }))
  next_from (h ∷ hosts) host g =
      let g' = record g { host = some h; ports = iter_of g.endpoints; hosts = hosts } in
      let go_on = next_from hosts h g' in
      Ports.next overflow_checks g.ports >>= λ given. with_port g host given go_on

  -- `TcpPortScannerPacketGenerator::next`
  unfoldable pub next : Generator → PacketResult (Option (List ℕ) × Generator)
  unfolding next_from
  next g = elim (g.host) [ none ↦ ok (none, g) | some host ↦ next_from g.hosts host g ]

  abbrev pub generator : PacketGenerator Generator
  generator = record { next = next }

  -- The loop of `scan` over the captured packets
  unfoldable pub collect : List (List ℕ) → PacketResult (List Service)
  collect [] = ok []
  collect (p ∷ packets) =
      let rest = collect packets in
      elim (parse packet_body p) [
        | ok ep ↦
            let ipp = ep.body in
            rest >>= λ services.
            ok (((ep.header).src, ((ipp.header).src, (ipp.body).sport)) ∷ services)
        | parse_error ↦ rest
        | panic ↦ panic
      ]

  -- `TcpPortScanner::scan`
  unfoldable pub scan :
      EthernetDevice → List Host → PortCollection → SrEnv → ℕ → PcapResult (List Service)
  unfolding collect next
  scan device hosts endpoints env fuel =
      scan_with generator collect env fuel (ok (new device hosts 61234 endpoints))
