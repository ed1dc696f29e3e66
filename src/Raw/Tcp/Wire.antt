-- ===== src/Raw/Tcp/Wire.antt =====
-- TCP packets on the wire: what reading them back gives, and that their checksum is right.
use arrow_client.Base.{
  ℕ, ◌+◌, ◌-◌, ◌*◌, ◌/◌, ◌%◌, ◌^◌, ◌<◌, ◌≤◌, ◌≡◌, refl, ap, ◌∙◌, sym, Bool, List, ◌++◌, length,
  drop, drop-drop, All, length-append, arith,
}
use arrow_client.Base.Bytes.{IsU16, IsU32, from_be16, from_be16-be16, from_be32-be32}
use arrow_client.Raw.Ether.{ok}
use arrow_client.Raw.Ip.{Ipv4Header}
use arrow_client.Raw.Ip.Wire.{IsLawful}
use arrow_client.Raw.Tcp.{
  TcpPacket, header_size, read_fields, parse, before_checksum, raw_header, new_raw_header,
  serialize, len, tcp_body,
}
use arrow_client.Raw.Words.{
  words_as_bytes, length-words_as_bytes, words_from_bytes-words_as_bytes, drop-words_as_bytes,
}

-- The fields fit the bits that the wire has for them, there are at most ten options, and the length
-- of the packet fits 16 bits.
pub record IsWire (p : TcpPacket) : Type 0 where
  pub sport : IsU16 p.sport
  pub dport : IsU16 p.dport
  pub seq : IsU32 p.seq
  pub ack : IsU32 p.ack
  pub flags : p.flags < 2 ^ 9
  pub wsize : IsU16 p.wsize
  pub options : All IsU32 p.options
  pub few : length p.options ≤ 10
  pub size : IsU16 (len p)

-- The bytes that `serialize` writes
abbrev pub wire : Ipv4Header → TcpPacket → List ℕ
wire iph p =
    raw_header iph p (5 + length p.options) (len p) ++ (words_as_bytes p.options ++ p.payload)

-- The packet that a receiver reads: the urgent pointer is not sent.
abbrev pub received : TcpPacket → TcpPacket
received p = record p { uptr = 0 }

pub serialize_ok :
    (overflow_checks : Bool) (iph : Ipv4Header) (p : TcpPacket)
    → IsWire p
    → serialize overflow_checks iph p ≡ ok (wire iph p)
unfolding serialize new_raw_header
serialize_ok checks iph p w =
    let few : length p.options ≤ 10 = w.few in
    let size : IsU16 (len p) = w.size in
    let doffset : (5 + length p.options % 2 ^ 16) % 2 ^ 16 ≡ 5 + length p.options = omega arith in
    let tcp_len : ((5 + length p.options) * 2 ^ 2 % 2 ^ 16 + length p.payload % 2 ^ 16) % 2 ^ 16
        ≡ len p =
      omega arith in
    ground (arith, doffset, tcp_len)

pub length-wire : (iph : Ipv4Header) (p : TcpPacket) → length (wire iph p) ≡ len p
unfolding raw_header before_checksum
length-wire iph p =
    omega
      (arith, length-append (words_as_bytes p.options) p.payload, length-words_as_bytes p.options)

doffset-wire :
    (iph : Ipv4Header) (p : TcpPacket)
    → IsWire p
    → from_be16 (drop 12 (wire iph p)) / 2 ^ 12 ≡ 5 + length p.options
unfolding raw_header before_checksum
doffset-wire iph p w =
    let few : length p.options ≤ 10 = w.few in
    let packed = (5 + length p.options) * 2 ^ 12 % 2 ^ 16 + p.flags % 2 ^ 9 in
    let word : packed / 256 % 256 * 256 + packed % 256 ≡ packed =
      from_be16-be16 packed (omega arith) in
    let top : packed / 2 ^ 12 ≡ 5 + length p.options = omega arith in
    ap (λ x. x / 2 ^ 12) word ∙ top

drop-wire :
    (iph : Ipv4Header) (p : TcpPacket)
    → drop (length p.options * 4) (drop header_size (wire iph p)) ≡ p.payload
unfolding raw_header before_checksum
drop-wire iph p = drop-words_as_bytes p.options p.payload

read_fields-wire :
    (iph : Ipv4Header) (p : TcpPacket)
    → IsWire p
    → read_fields (length p.options) (wire iph p) ≡ received p
unfolding read_fields raw_header before_checksum
read_fields-wire iph p w =
    let few : length p.options ≤ 10 = w.few in
    let packed = (5 + length p.options) * 2 ^ 12 % 2 ^ 16 + p.flags % 2 ^ 9 in
    let word : packed / 256 % 256 * 256 + packed % 256 ≡ packed =
      from_be16-be16 packed (omega arith) in
    let flags : packed % 2 ^ 9 ≡ p.flags = omega arith in
    let rest = sym (drop-drop (length p.options * 4) header_size (wire iph p)) ∙ drop-wire iph p in
    λ k. record {
      sport = from_be16-be16 p.sport w.sport k;
      dport = from_be16-be16 p.dport w.dport k;
      seq = from_be32-be32 p.seq w.seq k;
      ack = from_be32-be32 p.ack w.ack k;
      flags = (ap (λ x. x % 2 ^ 9) word ∙ flags) k;
      wsize = from_be16-be16 p.wsize w.wsize k;
      uptr = 0;
      options = words_from_bytes-words_as_bytes p.options p.payload w.options k;
      payload = rest k;
    }

pub parse-wire :
    (iph : Ipv4Header) (p : TcpPacket) → IsWire p → parse (wire iph p) ≡ ok (received p)
unfolding parse
parse-wire iph p w =
    let n = length p.options in
    let less : 5 + n - 5 ≡ n = omega arith in
    ground (arith, doffset-wire iph p w, less, length-wire iph p, read_fields-wire iph p w)

-- So TCP packets are bodies that an IPv4 packet can carry.
abbrev pub tcp_lawful : (overflow_checks : Bool) → IsLawful (tcp_body overflow_checks)
tcp_lawful checks = record {
  IsSendable = λ iph p. IsWire p;
  read = received;
  written = λ iph p w. (wire iph p, serialize_ok checks iph p w, parse-wire iph p w);
  read_type = λ p. refl;
}
