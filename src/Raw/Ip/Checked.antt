-- ===== src/Raw/Ip/Checked.antt =====
-- The checksum of the IPv4 header.
use arrow_client.Base.{ℕ, ◌+◌, ◌-◌, ◌*◌, ◌%◌, ◌^◌, ◌≤◌, ◌≡◌, refl, ◌++◌, length, arith}
use arrow_client.Base.Bytes.{be16}
use arrow_client.Raw.Checksum.{sum_raw_be, sum_to_checksum}
use arrow_client.Raw.Checksum.Laws.{
  total, sum_to_checksum-sealed, total_le, sum_raw_be-total, total-append,
}
use arrow_client.Raw.Ip.{Ipv4Header, before_checksum, after_checksum, raw_header}
use arrow_client.Raw.Ip.Header.{IsWire, wire, total_length}
use arrow_client.Raw.Words.{words_as_bytes, length-words_as_bytes, words_as_bytes-IsU8}

head_le :
    (h : Ipv4Header) (dlen : ℕ)
    → IsWire h
    → total (before_checksum h (5 + length h.options) (total_length h dlen)) ≤ 5 * (2 ^ 16 - 1)
unfolding before_checksum
head_le h dlen w = omega arith

tail_le : (h : Ipv4Header) → IsWire h → total (after_checksum h) ≤ 4 * (2 ^ 16 - 1)
tail_le h w = let s = w.src in let d = w.dst in omega arith

options_le : (h : Ipv4Header) → IsWire h → total (words_as_bytes h.options) ≤ 20 * (2 ^ 16 - 1)
options_le h w = omega (
  arith,
  w.few,
  total_le (words_as_bytes h.options) (words_as_bytes-IsU8 h.options),
  length-words_as_bytes h.options,
)

-- A receiver of a header whose fields fit their bits sums it with its checksum and its options and
-- finds no error.
pub sum_to_checksum-header :
    (h : Ipv4Header) (dlen : ℕ) → IsWire h → sum_to_checksum (sum_raw_be (wire h dlen)) ≡ 0
unfolding raw_header before_checksum
sum_to_checksum-header h dlen w =
    let pre = before_checksum h (5 + length h.options) (total_length h dlen) in
    let post = after_checksum h in
    let words = words_as_bytes h.options in
    let sum = (sum_raw_be (pre ++ (be16 0 ++ post)) + sum_raw_be words) % 2 ^ 32 in
    let split : sum ≡ total pre + total (post ++ words) = omega (
      arith,
      sum_raw_be-total (pre ++ (be16 0 ++ post)),
      total-append pre (be16 0 ++ post) refl,
      sum_raw_be-total words,
      total-append post words refl,
      head_le h dlen w,
      tail_le h w,
      options_le h w,
    ) in
    sum_to_checksum-sealed pre (post ++ words) sum refl split (
      omega
        (arith, split, total-append post words refl, head_le h dlen w, tail_le h w, options_le h w))
