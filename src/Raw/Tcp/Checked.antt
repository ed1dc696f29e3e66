-- ===== src/Raw/Tcp/Checked.antt =====
-- The checksum of TCP packets.
use arrow_client.Base.{
  ℕ, List, [], ◌∷◌, ◌/◌, ◌+◌, ◌-◌, ◌*◌, ◌%◌, ◌^◌, ◌≤◌, ◌≡◌, refl, ◌++◌, length, All, arith,
}
use arrow_client.Base.Bytes.{IsU8, be16}
use arrow_client.Net.Addr.{octets4}
use arrow_client.Raw.Checksum.{sum_raw_be, sum_to_checksum}
use arrow_client.Raw.Checksum.Laws.{
  total, sum_to_checksum-sealed, total_le, sum_raw_be-total, total-append,
}
use arrow_client.Raw.Ip.{Ipv4Header}
use arrow_client.Raw.Tcp.{
  TcpPacket, pseudo_header, before_checksum, after_checksum, raw_header, len,
}
use arrow_client.Raw.Tcp.Wire.{IsWire, wire}
use arrow_client.Raw.Words.{words_as_bytes, length-words_as_bytes, words_as_bytes-IsU8}

-- The addresses and the protocol of the IPv4 header, and the payload, are bytes.
pub record IsBytes (iph : Ipv4Header) (p : TcpPacket) : Type 0 where
  pub src : All IsU8 (octets4 iph.src)
  pub dst : All IsU8 (octets4 iph.dst)
  pub protocol : IsU8 iph.protocol
  pub payload : All IsU8 p.payload

pseudo_le :
    (iph : Ipv4Header) (p : TcpPacket)
    → IsBytes iph p
    → total (pseudo_header iph (len p)) ≤ 6 * (2 ^ 16 - 1)
unfolding pseudo_header
pseudo_le iph p b = let s = b.src in let d = b.dst in let k = b.protocol in omega arith

head_le :
    (p : TcpPacket) → IsWire p → total (before_checksum p (5 + length p.options)) ≤ 8 * (2 ^ 16 - 1)
unfolding before_checksum
head_le p w = omega arith

options_le : (p : TcpPacket) → IsWire p → total (words_as_bytes p.options) ≤ 20 * (2 ^ 16 - 1)
options_le p w = omega (
  arith,
  w.few,
  total_le (words_as_bytes p.options) (words_as_bytes-IsU8 p.options),
  length-words_as_bytes p.options,
)

payload_le :
    (iph : Ipv4Header) (p : TcpPacket)
    → IsWire p
    → IsBytes iph p
    → total p.payload ≤ 2 ^ 15 * (2 ^ 16 - 1)
payload_le iph p w b = omega (arith, w.size, total_le p.payload b.payload)

options-payload :
    (p : TcpPacket)
    → total (words_as_bytes p.options ++ p.payload)
      ≡ total (words_as_bytes p.options) + total p.payload
options-payload p =
    total-append (words_as_bytes p.options) p.payload
      (omega (arith, length-words_as_bytes p.options))

-- The pseudo header that a receiver makes: the addresses, a zero octet, the protocol of the IPv4 header
-- and the length of the packet in two octets
abbrev pub expected_pseudo : Ipv4Header → ℕ → List ℕ
expected_pseudo iph tcp_len =
    iph.src.a
    ∷ iph.src.b
    ∷ iph.src.c
    ∷ iph.src.d
    ∷ iph.dst.a
    ∷ iph.dst.b
    ∷ iph.dst.c
    ∷ iph.dst.d
    ∷ 0
    ∷ iph.protocol
    ∷ tcp_len / 256 % 256
    ∷ tcp_len % 256
    ∷ []

-- A receiver who sums the pseudo header, for the length of the packet, and the bytes of the packet
-- finds no error.
pub sum_to_checksum-segment :
    (iph : Ipv4Header) (p : TcpPacket)
    → IsWire p
    → IsBytes iph p
    → sum_to_checksum (sum_raw_be (expected_pseudo iph (len p) ++ wire iph p)) ≡ 0
unfolding raw_header before_checksum pseudo_header
sum_to_checksum-segment iph p w b =
    let pseudo = pseudo_header iph (len p) in
    let pre = before_checksum p (5 + length p.options) in
    let words = words_as_bytes p.options in
    let post = after_checksum ++ (words ++ p.payload) in
    let sum0 = sum_raw_be pseudo in
    let sum1 = (sum0 + sum_raw_be (pre ++ (be16 0 ++ after_checksum))) % 2 ^ 32 in
    let sum2 = (sum1 + sum_raw_be words) % 2 ^ 32 in
    let sum = (sum2 + sum_raw_be p.payload) % 2 ^ 32 in
    let split : sum ≡ total (pseudo ++ pre) + total post = omega (
      arith,
      pseudo_le iph p b,
      head_le p w,
      options_le p w,
      payload_le iph p w b,
      options-payload p,
      sum_raw_be-total pseudo,
      sum_raw_be-total (pre ++ (be16 0 ++ after_checksum)),
      sum_raw_be-total words,
      sum_raw_be-total p.payload,
      total-append pseudo pre refl,
      total-append pre (be16 0 ++ after_checksum) refl,
    ) in
    sum_to_checksum-sealed (pseudo ++ pre) post sum refl split (
      omega (
        arith,
        pseudo_le iph p b,
        head_le p w,
        options_le p w,
        payload_le iph p w b,
        options-payload p,
        split,
        total-append pseudo pre refl,
      ))
