-- ===== src/Raw/Ip/Header.antt =====
-- The IPv4 header on the wire: what reading it back gives, and that its checksum is right.
use arrow_client.Base.{
  ℕ, ◌+◌, ◌-◌, ◌*◌, ◌/◌, ◌%◌, ◌^◌, ◌<◌, ◌≤◌, ◌≡◌, ap, ◌∙◌, sym, Bool, List, ◌++◌, length, drop, All,
  length-append, drop-drop, arith,
}
use arrow_client.Base.Bytes.{IsU8, IsU16, IsU32, from_u8, from_be16-be16}
use arrow_client.Net.Addr.{octets4}
use arrow_client.Raw.Ether.{ok}
use arrow_client.Raw.Ip.{
  Ipv4Header, header_size, before_checksum, raw_header, new_raw_header, serialize_header,
  read_fields, parse_header,
}
use arrow_client.Raw.Words.{
  words_as_bytes, length-words_as_bytes, words_from_bytes-words_as_bytes, drop-words_as_bytes,
}

-- The fields fit the bits that the wire has for them, and there are at most ten options.
pub record IsWire (h : Ipv4Header) : Type 0 where
  pub version : h.version < 2 ^ 4
  pub dscp : h.dscp < 2 ^ 6
  pub ecn : h.ecn < 2 ^ 2
  pub ident : IsU16 h.ident
  pub flags : h.flags < 2 ^ 3
  pub foffset : h.foffset < 2 ^ 13
  pub ttl : IsU8 h.ttl
  pub protocol : IsU8 h.protocol
  pub src : All IsU8 (octets4 h.src)
  pub dst : All IsU8 (octets4 h.dst)
  pub options : All IsU32 h.options
  pub few : length h.options ≤ 10

-- The length of a packet whose header carries that many bytes of data
abbrev pub total_length : Ipv4Header → ℕ → ℕ
total_length h dlen = header_size + length h.options * 4 + dlen

-- The header that `serialize` writes
abbrev pub wire : Ipv4Header → ℕ → List ℕ
wire h dlen = raw_header h (5 + length h.options) (total_length h dlen) ++ words_as_bytes h.options

pub serialize_header_ok :
    (overflow_checks : Bool) (h : Ipv4Header) (dlen : ℕ)
    → length h.options ≤ 10
    → serialize_header overflow_checks h dlen ≡ ok (wire h dlen)
unfolding serialize_header new_raw_header
serialize_header_ok checks h dlen few = ground arith

pub length-wire :
    (h : Ipv4Header) (dlen : ℕ) → length (wire h dlen) ≡ header_size + length h.options * 4
unfolding raw_header before_checksum
length-wire h dlen = omega (arith, length-words_as_bytes h.options)

read_fields-wire :
    (h : Ipv4Header) (dlen : ℕ) (rest : List ℕ)
    → IsWire h
    → read_fields (length h.options) (wire h dlen ++ rest)
      ≡ record h { length = total_length h dlen % 2 ^ 16 }
unfolding raw_header before_checksum read_fields
read_fields-wire h dlen rest w =
    let n = length h.options in
    let version : (h.version * 2 ^ 4 % 2 ^ 8 + (5 + n) % 2 ^ 4) / 2 ^ 4 ≡ h.version = omega arith in
    let dscp : (h.dscp * 2 ^ 2 % 2 ^ 8 + h.ecn % 2 ^ 2) / 2 ^ 2 ≡ h.dscp = omega arith in
    let ecn : (h.dscp * 2 ^ 2 % 2 ^ 8 + h.ecn % 2 ^ 2) % 2 ^ 2 ≡ h.ecn = omega arith in
    let packed = h.flags * 2 ^ 13 % 2 ^ 16 + h.foffset % 2 ^ 13 in
    let word : packed / 256 % 256 * 256 + packed % 256 ≡ packed =
      from_be16-be16 packed (omega arith) in
    let flags : packed / 2 ^ 13 % 2 ^ 8 ≡ h.flags = omega arith in
    let foffset : packed % 2 ^ 13 ≡ h.foffset = omega arith in
    let size = total_length h dlen % 2 ^ 16 in
    λ k. record {
      version = version k;
      dscp = dscp k;
      ecn = ecn k;
      ident = from_be16-be16 h.ident w.ident k;
      flags = (ap (λ x. x / 2 ^ 13 % 2 ^ 8) word ∙ flags) k;
      foffset = (ap (λ x. x % 2 ^ 13) word ∙ foffset) k;
      ttl = h.ttl;
      protocol = h.protocol;
      src = h.src;
      dst = h.dst;
      options = words_from_bytes-words_as_bytes h.options rest w.options k;
      length = from_be16-be16 size (omega arith) k;
    }

ihl-wire :
    (h : Ipv4Header) (dlen : ℕ) (rest : List ℕ)
    → IsWire h
    → from_u8 (wire h dlen ++ rest) % 2 ^ 4 ≡ 5 + length h.options
unfolding raw_header before_checksum
ihl-wire h dlen rest w = omega arith

drop-wire :
    (h : Ipv4Header) (dlen : ℕ) (rest : List ℕ)
    → drop (length h.options * 4) (drop header_size (wire h dlen ++ rest)) ≡ rest
unfolding raw_header before_checksum
drop-wire h dlen rest = drop-words_as_bytes h.options rest

pub parse_header-wire :
    (h : Ipv4Header) (dlen : ℕ) (rest : List ℕ)
    → IsWire h
    → (parse_header (wire h dlen ++ rest) ≡ ok (record h { length = total_length h dlen % 2 ^ 16 }))
      × (drop (header_size + length h.options * 4) (wire h dlen ++ rest) ≡ rest)
unfolding parse_header
parse_header-wire h dlen rest w =
    let n = length h.options in
    let few : n ≤ 10 = w.few in
    let ihl : from_u8 (wire h dlen ++ rest) % 2 ^ 4 ≡ 5 + n = ihl-wire h dlen rest w in
    let size : length (wire h dlen ++ rest) ≡ header_size + n * 4 + length rest =
      length-append (wire h dlen) rest ∙ ap (λ m. m + length rest) (length-wire h dlen) in
    let less : 5 + n - 5 ≡ n = omega arith in
    (
      ground (arith, ihl, size, less, read_fields-wire h dlen rest w),
      sym (drop-drop (n * 4) header_size (wire h dlen ++ rest)) ∙ drop-wire h dlen rest,
    )
