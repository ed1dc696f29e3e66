-- ===== src/Raw/Tcp/Scanner/Laws.antt =====
-- The TCP scanner tries every port of every host.
use arrow_client.Base.{ℕ, ◌≡◌, refl, ◌∙◌, Bool, none, some, List, [], ◌∷◌, ◌++◌, All, arith}
use arrow_client.Raw.Arp.Scanner.{Host}
use arrow_client.Raw.Ether.{ok, EtherHeader, etype_ipv4, serialize_header, serialize}
use arrow_client.Raw.Ip
use arrow_client.Raw.Ip.{Ipv4Packet, Ipv4Header, new_header, ip_proto_tcp}
use arrow_client.Raw.Ip.Header.{serialize_header_ok}
use arrow_client.Raw.Ip.Header
use arrow_client.Raw.Pcap.{EthernetDevice}
use arrow_client.Raw.Pcap.Laws.{Emits, finished, emitted}
use arrow_client.Raw.Ports
use arrow_client.Raw.Ports.{PortCollection, PortIterator, PortRange, iter_of, add_all}
use arrow_client.Raw.Ports.Laws
use arrow_client.Raw.Ports.Laws.{Gives, IsProper, all_ports, add_all-Gives}
use arrow_client.Raw.Tcp
use arrow_client.Raw.Tcp.{TcpPacket, tcp_flag_syn}
use arrow_client.Raw.Tcp.Scanner.{Generator, syn_packet, new, next_from, next, generator}
use arrow_client.Raw.Tcp.Wire

-- The connection request for a port, and the headers that it goes under
abbrev pub request_for : ℕ → ℕ → TcpPacket
request_for sport port = Tcp.new sport port tcp_flag_syn []

abbrev pub ip_header : EthernetDevice → Host → Ipv4Header
ip_header device host = new_header device.ip_addr host.1 ip_proto_tcp 64

abbrev pub ether_header : EthernetDevice → Host → EtherHeader
ether_header device host = record { src = device.mac_addr; dst = host.0; etype = etype_ipv4 }

abbrev pub frame : EthernetDevice → ℕ → Host → ℕ → List ℕ
frame device sport host port =
    serialize_header (ether_header device host)
    ++ (Header.wire (ip_header device host) 20
        ++ Wire.wire (ip_header device host) (request_for sport port))

-- The frames for some ports of a host, and for all ports of some hosts
abbrev pub host_frames : EthernetDevice → ℕ → Host → List ℕ → List (List ℕ)
host_frames device sport host [] = []
host_frames device sport host (port ∷ ports) =
    frame device sport host port ∷ host_frames device sport host ports

abbrev pub all_frames : EthernetDevice → ℕ → List Host → List ℕ → List (List ℕ)
all_frames device sport [] ports = []
all_frames device sport (host ∷ hosts) ports =
    host_frames device sport host ports ++ all_frames device sport hosts ports

syn_ok :
    (checks : Bool) (iph : Ipv4Header) (sport port : ℕ)
    → Tcp.serialize checks iph (request_for sport port)
      ≡ ok (Wire.wire iph (request_for sport port))
unfolding Tcp.serialize Tcp.new_raw_header
syn_ok checks iph sport port = ground arith

syn_packet_ok :
    (checks : Bool) (g : Generator) (host : Host) (port : ℕ)
    → syn_packet checks g host port ≡ ok (frame g.device g.sport host port)
unfolding syn_packet serialize Ip.serialize
syn_packet_ok checks g host port =
    rw (serialize_header_ok checks (ip_header g.device host) 20 (omega arith))
      (rw (syn_ok checks (ip_header g.device host) g.sport port) refl)

Emits-same :
    (checks : Bool) {s s' : Generator} {pkts : List (List ℕ)}
    → next checks s ≡ next checks s'
    → Emits (generator checks) s' pkts
    → Emits (generator checks) s pkts
Emits-same checks same (finished e) = finished (same ∙ e)
Emits-same checks same (emitted e rest) = emitted (same ∙ e) rest

module _ (checks : Bool) (device : EthernetDevice) (sport : ℕ) (endpoints : PortCollection) where
  abbrev at : List Host → Host → PortIterator → List ℕ → Generator
  at hosts host ports buffer = record {
    device = device;
    hosts = hosts;
    sport = sport;
    endpoints = endpoints;
    host = some host;
    ports = ports;
    buffer = buffer;
  }

  next_given :
      (hosts : List Host) (host : Host) (it it' : PortIterator) (port : ℕ) (buffer : List ℕ)
      → Ports.next checks it ≡ ok (some port, it')
      → next checks (at hosts host it buffer)
        ≡ ok (some (frame device sport host port), at hosts host it' (frame device sport host port))
  unfolding next next_from
  next_given [] host it it' port buffer e =
      rw e (rw (syn_packet_ok checks (at [] host it buffer) host port) refl)
  next_given (h ∷ hosts) host it it' port buffer e =
      rw e (rw (syn_packet_ok checks (at (h ∷ hosts) host it buffer) host port) refl)

  next_over :
      (host : Host) (it it' : PortIterator) (buffer : List ℕ)
      → Ports.next checks it ≡ ok (none, it')
      → next checks (at [] host it buffer)
        ≡ ok (none, record (at [] host (iter_of endpoints) buffer) { host = none })
  unfolding next next_from
  next_over host it it' buffer e = rw e refl

  -- The frames for the ports that are left come before what follows when they are used up.
  host_frames-Emits :
      (hosts : List Host) (host : Host) (pkts : List (List ℕ))
      → ((it it' : PortIterator) (buffer : List ℕ)
          → Ports.next checks it ≡ ok (none, it')
          → Emits (generator checks) (at hosts host it buffer) pkts)
      → {it : PortIterator} {ports : List ℕ} → Gives checks it ports
      → (buffer : List ℕ)
      → Emits
          (generator checks)
          (at hosts host it buffer)
          (host_frames device sport host ports ++ pkts)
  host_frames-Emits hosts host pkts over (Laws.finished e) buffer = over _ _ buffer e
  host_frames-Emits hosts host pkts over (Laws.given {it = it} {it'} {p} e rest) buffer =
      emitted (next_given hosts host it it' p buffer e)
        (host_frames-Emits hosts host pkts over rest (frame device sport host p))

  all_frames-Emits :
      (hosts : List Host) (host : Host) (ports : List ℕ)
      → Gives checks (iter_of endpoints) ports
      → (buffer : List ℕ)
      → Emits
          (generator checks)
          (at hosts host (iter_of endpoints) buffer)
          (host_frames device sport host ports ++ all_frames device sport hosts ports)
  unfolding next next_from
  all_frames-Emits [] host ports gives buffer =
      host_frames-Emits [] host [] (λ it it' buffer e. finished (next_over host it it' buffer e))
        gives buffer
  all_frames-Emits (h ∷ hosts) host ports gives buffer =
      host_frames-Emits (h ∷ hosts) host (all_frames device sport (h ∷ hosts) ports)
        (λ it it' buffer e.
          Emits-same checks (rw e refl) (all_frames-Emits hosts h ports gives buffer))
        gives buffer

-- The generator of the TCP scanner gives one connection request for each port of a collection of
-- proper ranges on each host: host after host, the ports of each in the order of the collection, and
-- ends.
pub new-Emits :
    (overflow_checks : Bool) (device : EthernetDevice) (hosts : List Host) (sport : ℕ)
    (rs : List PortRange)
    → All IsProper rs
    → Emits
        (generator overflow_checks)
        (new device hosts sport (add_all [] rs))
        (all_frames device sport hosts (all_ports rs))
unfolding next
new-Emits checks device [] sport rs proper = finished refl
new-Emits checks device (host ∷ hosts) sport rs proper =
    all_frames-Emits checks device sport (add_all [] rs) hosts host (all_ports rs)
      (add_all-Gives checks rs proper) []
