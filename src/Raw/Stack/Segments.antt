-- ===== src/Raw/Stack/Segments.antt =====
-- The frames of the TCP scanner: an Ethernet packet with an IPv4 packet with a TCP segment.
use arrow_client.Raw.Ether.{EtherHeader, EtherPacket}
use arrow_client.Raw.Ip as Ip
use arrow_client.Raw.Ip.{Ipv4Header, Ipv4Packet}
use arrow_client.Raw.Ip.Header
use arrow_client.Raw.Tcp.{TcpPacket}
use arrow_client.Raw.Tcp.Wire

abbrev pub segment_frame : EtherHeader → Ipv4Header → TcpPacket → EtherPacket (Ipv4Packet TcpPacket)
segment_frame eh iph p = record { header = eh; body = record { header = iph; body = p } }
