-- ===== src/Raw/Icmp/Scanner/Laws.antt =====
-- The ICMP scanner asks every address of the network once.
use arrow_client.Base.{
  ℕ, ◌+◌, ◌-◌, ◌/◌, ◌%◌, ◌^◌, ◌≤◌, ◌<◌, ◌≡◌, refl, Bool, none, some, List, [], ◌++◌, arith,
}
use arrow_client.Raw.Arp.Scanner.{bcast_addr}
use arrow_client.Raw.Checksum.{ipv4addr_from}
use arrow_client.Raw.Ether.{ok, EtherHeader, etype_ipv4, serialize_header, serialize}
use arrow_client.Raw.Icmp.{IcmpPacket, EmptyPayload, empty_body, new_empty_echo_request}
use arrow_client.Raw.Icmp.Scanner.{Generator, sent_body, new, next, generator}
use arrow_client.Raw.Icmp.Wire
use arrow_client.Raw.Ip
use arrow_client.Raw.Ip.{Ipv4Packet, Ipv4Header, new_header, ip_proto_icmp}
use arrow_client.Raw.Ip.Header.{serialize_header_ok}
use arrow_client.Raw.Ip.Header
use arrow_client.Raw.Pcap.{EthernetDevice}
use arrow_client.Raw.Pcap.Laws.{Emits}
use arrow_client.Raw.Sweep.{
  IsDevice, network, broadcast, broadcast_lem, frames, IsSweep, frames-Emits,
}

-- The echo request for an address, and the headers that it goes under
abbrev pub request_for : ℕ → IcmpPacket EmptyPayload
request_for n = new_empty_echo_request (n / 2 ^ 16 % 2 ^ 16) (n % 2 ^ 8)

abbrev pub ip_header : EthernetDevice → ℕ → Ipv4Header
ip_header device n = new_header device.ip_addr (ipv4addr_from n) ip_proto_icmp 64

abbrev pub ether_header : EthernetDevice → EtherHeader
ether_header device = record { src = device.mac_addr; dst = bcast_addr; etype = etype_ipv4 }

abbrev pub frame : EthernetDevice → ℕ → List ℕ
frame device n =
    serialize_header (ether_header device)
    ++ (Header.wire (ip_header device n) 8 ++ Wire.wire empty_body (request_for n))

request-IsWire : (n : ℕ) → Wire.IsWire (request_for n)
request-IsWire n = record { icmp_type = λ e. ground arith; code = omega arith; rest = omega arith }

frame_lem :
    (checks : Bool) (device : EthernetDevice) (n : ℕ)
    → serialize (sent_body checks) (record {
      header = ether_header device;
      body = record { header = ip_header device n; body = request_for n };
    })
      ≡ ok (frame device n)
unfolding serialize Ip.serialize
frame_lem checks device n =
    rw (serialize_header_ok checks (ip_header device n) 8 (omega arith)) (
      rw (Wire.serialize_ok empty_body (ip_header device n) (request_for n) (request-IsWire n))
        refl)

abbrev at : EthernetDevice → ℕ → ℕ → List ℕ → Generator
at device current last buffer = record {
  device = device;
  bcast = bcast_addr;
  current = current;
  last = last;
  buffer = buffer;
}

next_within :
    (checks : Bool) (device : EthernetDevice) (current last : ℕ) (buffer : List ℕ)
    → current < last
    → last < 2 ^ 32
    → next checks (at device current last buffer)
      ≡ ok (some (frame device current), at device (current + 1) last (frame device current))
unfolding next
next_within checks device current last buffer lt small =
    ground (arith, frame_lem checks device current)

next_end :
    (checks : Bool) (device : EthernetDevice) (current last : ℕ) (buffer : List ℕ)
    → last ≤ current
    → next checks (at device current last buffer) ≡ ok (none, at device current last buffer)
unfolding next
next_end checks device current last buffer le = ground arith

sweep :
    (checks : Bool) (device : EthernetDevice) (last : ℕ)
    → last < 2 ^ 32
    → IsSweep (generator checks) (λ n buffer. at device n last buffer) (frame device) last
sweep checks device last small = record {
  within = λ n buffer lt. next_within checks device n last buffer lt small;
  over = λ n buffer le. next_end checks device n last buffer le;
}

-- On a network with at least two addresses, the generator of the ICMP scanner gives one echo request
-- for each address strictly between the network's and the broadcast address, in rising order, and
-- ends.
pub new-Emits :
    (overflow_checks : Bool) (device : EthernetDevice)
    → IsDevice device
    → network device < broadcast device
    → (g : Generator) × (new overflow_checks device ≡ ok g)
      × Emits
          (generator overflow_checks)
          g
          (frames (frame device) (network device + 1) (broadcast device - (network device + 1)))
unfolding new
new-Emits checks device d lt =
    let last = broadcast device in
    let small = (broadcast_lem device d).1 in
    let first = network device + 1 in
    (
      at device first last [],
      ground arith,
      frames-Emits (generator checks) (λ n buffer. at device n last buffer) (frame device) last
          (sweep checks device last small) (last - first) first [] (omega arith),
    )
