-- ===== src/Raw/Tests.antt =====
-- Runs of the packets at concrete inputs; those of the scanners stand in Scans.
mod Scans
use arrow_client.Base.{
  ℕ, ◌+◌, ◌-◌, ◌%◌, ◌^◌, ◌<◌, ◌≡◌, ◌≢◌, ◌↔◌, inr, Bool, false, Option, none, some, List, [], ◌∷◌,
  ◌++◌, arith,
}
use arrow_client.Net.Addr.{MacAddr, Ipv4Addr}
use arrow_client.Raw.Checksum.{fold_carries, carry_rounds, sum_to_checksum, sum_raw_be}
use arrow_client.Raw.Checksum.Laws.{fold_carries_lem}
use arrow_client.Raw.Ether.{EtherHeader, etype_ipv4}
use arrow_client.Raw.Icmp.{IcmpPacket, vec_body, icmp_body, new_echo_request}
use arrow_client.Raw.Icmp.Checked.{checksum-wire}
use arrow_client.Raw.Icmp.Wire as IcmpWire
use arrow_client.Raw.Ip.{Ipv4Packet, Ipv4Header, new_header}
use arrow_client.Raw.Ip.Checked.{sum_to_checksum-header}
use arrow_client.Raw.Ip.Header
use arrow_client.Raw.Pcap.{EthernetDevice}
use arrow_client.Raw.Sweep.{IsDevice}
use arrow_client.Raw.Tcp
use arrow_client.Raw.Tcp.{TcpPacket}
use arrow_client.Raw.Tcp.Checked.{expected_pseudo, sum_to_checksum-segment}
use arrow_client.Raw.Tcp.Wire
use arrow_client.Raw.Tcp.Wire.{tcp_lawful}

abbrev pub mac : MacAddr
mac = record { a = 1; b = 2; c = 3; d = 4; e = 5; f = 6 }

abbrev pub camera_mac : MacAddr
camera_mac = record { a = 2; b = 2; c = 3; d = 4; e = 5; f = 7 }

abbrev pub addr : Ipv4Addr
addr = record { a = 192; b = 168; c = 3; d = 9 }

abbrev pub camera_addr : Ipv4Addr
camera_addr = record { a = 192; b = 168; c = 3; d = 10 }

-- 192.168.3.8/30
abbrev pub device : EthernetDevice
device = record {
  name = [];
  mac_addr = mac;
  ip_addr = addr;
  netmask = record { a = 255; b = 255; c = 255; d = 252 };
}

pub device-IsDevice : IsDevice device
device-IsDevice = record {
  ip_addr = (omega arith, (omega arith, (omega arith, (omega arith, tt))));
  netmask = (omega arith, (omega arith, (omega arith, (omega arith, tt))));
}

abbrev ip_header : Ipv4Header
ip_header = record (new_header addr camera_addr 6 64) { dscp = 46; flags = 2; options = 7 ∷ [] }

-- 24 bytes of which the first says that the header has four words
abbrev short_header : List ℕ
short_header = 0x44 ∷ Header.wire ip_header 0

abbrev segment : TcpPacket
segment = record (Tcp.new 554 61234 18 (1 ∷ [])) { seq = 70000; options = 9 ∷ 10 ∷ [] }

segment-IsWire : Wire.IsWire segment
segment-IsWire = record {
  sport = omega arith;
  dport = omega arith;
  seq = omega arith;
  ack = omega arith;
  flags = omega arith;
  wsize = omega arith;
  options = (omega arith, (omega arith, tt));
  few = omega arith;
  size = omega arith;
}

sum_to_checksum-segment_example :
    sum_to_checksum
      (sum_raw_be (expected_pseudo ip_header (Tcp.len segment) ++ Wire.wire ip_header segment))
    ≡ 0
sum_to_checksum-segment_example = sum_to_checksum-segment ip_header segment segment-IsWire (record {
  src = (omega arith, (omega arith, (omega arith, (omega arith, tt))));
  dst = (omega arith, (omega arith, (omega arith, (omega arith, tt))));
  protocol = omega arith;
  payload = (omega arith, tt);
})

-- An echo request whose sequence number has a high byte
abbrev ping : IcmpPacket (List ℕ)
ping = new_echo_request 7 0x0102 (5 ∷ [])

checksum-wire_example :
    (sum_to_checksum (sum_raw_be (IcmpWire.wire vec_body ping)) ≡ 0) ↔ (ping.rest % 2 ^ 16 < 2 ^ 8)
checksum-wire_example =
    checksum-wire vec_body ping IcmpWire.vec_lawful
      (record { icmp_type = λ e. ground arith; code = omega arith; rest = omega arith })
      (omega arith, tt) (omega arith)

abbrev answer_header : EtherHeader
answer_header = record { src = camera_mac; dst = mac; etype = etype_ipv4 }

abbrev urgent : TcpPacket
urgent = record segment { uptr = 77 }
