-- ===== src/Raw.antt =====
-- Raw network packets: src/net/raw.
pub mod Checksum
pub mod Ether
pub mod Words
pub mod Ip
pub mod Pcap
pub mod Ports
pub mod Sweep
pub mod Stack
pub mod Tcp
pub mod Icmp
pub mod Arp
mod Tests
