-- ===== src/Raw/Tcp.antt =====
-- TCP packets: src/net/raw/tcp.rs.
pub mod Wire
pub mod Scanner
pub mod Checked
use arrow_client.Base.{
  ℕ, ◌+◌, ◌-◌, ◌*◌, ◌/◌, ◌%◌, ◌^◌, Bool, true, false, List, [], ◌∷◌, ◌++◌, length, drop, ltb,
  if◌then◌else◌,
}
use arrow_client.Base.Bytes.{be16, be32, from_be16, from_be32}
use arrow_client.Net.Addr.{octets4}
use arrow_client.Raw.Checksum.{sum_raw_be, sum_to_checksum}
use arrow_client.Raw.Ether.{PacketResult, ok, parse_error, panic, ◌>>=◌, plain_add}
use arrow_client.Raw.Ip
use arrow_client.Raw.Ip.{Ipv4Header, Ipv4Body}
use arrow_client.Raw.Words.{words_as_bytes, words_from_bytes}

-- `TCP_FLAG_SYN`
abbrev pub tcp_flag_syn : ℕ
tcp_flag_syn = 2

-- `TcpPacket`; the field `payload` is its `data`.
pub record TcpPacket : Type 0 where
  pub sport : ℕ
  pub dport : ℕ
  pub seq : ℕ
  pub ack : ℕ
  pub flags : ℕ
  pub wsize : ℕ
  pub uptr : ℕ
  pub options : List ℕ
  pub payload : List ℕ

-- `TcpPacket::new`
abbrev pub new : ℕ → ℕ → ℕ → List ℕ → TcpPacket
new sport dport flags payload = record {
  sport = sport;
  dport = dport;
  seq = 0;
  ack = 0;
  flags = flags;
  wsize = 8192;
  uptr = 0;
  options = [];
  payload = payload;
}

-- `size_of::<RawTcpPacketHeader>()`
abbrev pub header_size : ℕ
header_size = 20

-- The fields that `parse` reads, with the number of options known.
unfoldable pub read_fields : ℕ → List ℕ → TcpPacket
read_fields options_len bytes = record {
  sport = from_be16 bytes;
  dport = from_be16 (drop 2 bytes);
  seq = from_be32 (drop 4 bytes);
  ack = from_be32 (drop 8 bytes);
  flags = from_be16 (drop 12 bytes) % 2 ^ 9;
  wsize = from_be16 (drop 14 bytes);
  uptr = from_be16 (drop 18 bytes);
  options = words_from_bytes options_len (drop header_size bytes);
  payload = drop (header_size + options_len * 4) bytes;
}

-- `TcpPacket::parse`. A header of fewer than five words panics, as that of an IPv4 packet does.
unfoldable pub parse : List ℕ → PacketResult TcpPacket
unfolding read_fields
parse bytes =
    let doffset = from_be16 (drop 12 bytes) / 2 ^ 12 in
    if ltb (length bytes) header_size
    then parse_error
    else if ltb doffset 5
    then panic
    else if ltb (length bytes) (header_size + (doffset - 5) * 4)
    then parse_error
    else ok (read_fields (doffset - 5) bytes)

-- `PseudoIpv4PacketHeader` with its `tcp_len`
unfoldable pub pseudo_header : Ipv4Header → ℕ → List ℕ
pseudo_header iph tcp_len =
    octets4 iph.src ++ (octets4 iph.dst ++ (0 ∷ iph.protocol ∷ be16 tcp_len))

-- The bytes of a `RawTcpPacketHeader`, with its checksum between them; the urgent pointer is 0.
unfoldable pub before_checksum : TcpPacket → ℕ → List ℕ
before_checksum p doffset =
    be16 p.sport
    ++ (be16 p.dport
        ++ (be32 p.seq
            ++ (be32 p.ack
                ++ (be16 (doffset * 2 ^ 12 % 2 ^ 16 + p.flags % 2 ^ 9) ++ be16 p.wsize))))

abbrev pub after_checksum : List ℕ
after_checksum = be16 0

-- The rest of `RawTcpPacketHeader::new`, with the lengths known.
unfoldable pub raw_header : Ipv4Header → TcpPacket → ℕ → ℕ → List ℕ
unfolding pseudo_header before_checksum
raw_header iph p doffset tcp_len =
    let pre = before_checksum p doffset in
    let sum = sum_raw_be (pseudo_header iph tcp_len) in
    let sum = (sum + sum_raw_be (pre ++ (be16 0 ++ after_checksum))) % 2 ^ 32 in
    let sum = (sum + sum_raw_be (words_as_bytes p.options)) % 2 ^ 32 in
    let sum = (sum + sum_raw_be p.payload) % 2 ^ 32 in
    pre ++ (be16 (sum_to_checksum sum) ++ after_checksum)

-- `RawTcpPacketHeader::new`
unfoldable pub new_raw_header : Bool → Ipv4Header → TcpPacket → PacketResult (List ℕ)
unfolding raw_header
new_raw_header overflow_checks iph p =
    plain_add overflow_checks (2 ^ 16) 5 (length p.options % 2 ^ 16) >>= λ doffset.
    plain_add overflow_checks (2 ^ 16) (doffset * 2 ^ 2 % 2 ^ 16) (length p.payload % 2 ^ 16)
    >>= λ tcp_len. ok (raw_header iph p doffset tcp_len)

-- `TcpPacket::serialize`
unfoldable pub serialize : Bool → Ipv4Header → TcpPacket → PacketResult (List ℕ)
unfolding new_raw_header
serialize overflow_checks iph p = new_raw_header overflow_checks iph p >>= λ rh.
    ok (rh ++ (words_as_bytes p.options ++ p.payload))

-- `TcpPacket::len`
abbrev pub len : TcpPacket → ℕ
len p = header_size + 4 * length p.options + length p.payload

-- `Ipv4PacketBody` for `TcpPacket`
abbrev pub tcp_body : Bool → Ipv4Body TcpPacket
tcp_body overflow_checks = record {
  parse = parse;
  serialize = serialize overflow_checks;
  packet_type = λ p. Ip.tcp;
  len = len;
}
