-- ===== src/Raw/Icmp/Checked.antt =====
-- The checksum of ICMP packets.
use arrow_client.Base.{
  ◌+◌, ◌-◌, ◌*◌, ◌/◌, ◌%◌, ◌^◌, ◌<◌, ◌≤◌, ◌≡◌, ◌↔◌, ap, ◌∙◌, length, All, arith,
}
use arrow_client.Base.Bytes.{IsU8}
use arrow_client.Raw.Checksum.{sum_raw_be, sum_to_checksum}
use arrow_client.Raw.Checksum.Laws.{
  total, sum-sum_to_checksum, sum_to_checksum-IsU16, sum_to_checksum_zero, total_le,
  sum_raw_be-total,
}
use arrow_client.Raw.Icmp.{
  IcmpPacketType, echo, echo_reply, unknown, IcmpPacket, IcmpBody, checksum,
}
use arrow_client.Raw.Icmp.Wire.{IsLawful, IsWire, type_number, wire}

type_number_lt : (t : IcmpPacketType) → type_number t ≤ 8
type_number_lt echo = omega arith
type_number_lt echo_reply = omega arith
type_number_lt unknown = omega arith

module _ {B : Type 0} (i : IcmpBody B) where
  -- A receiver sums the bytes of an ICMP packet and finds no error exactly when the high byte of the
  -- sequence number is 0. The payload has at most 65507 bytes.
  pub checksum-wire :
      (p : IcmpPacket B)
      → IsLawful i
      → IsWire p
      → All IsU8 (i.serialize p.body)
      → length (i.serialize p.body) ≤ 65507
      → (sum_to_checksum (sum_raw_be (wire i p)) ≡ 0) ↔ (p.rest % 2 ^ 16 < 2 ^ 8)
  unfolding checksum
  checksum-wire p lawful w bytes small =
      let t = type_number p.icmp_type in
      let body = i.serialize p.body in
      let sum = t * 2 ^ 8 + p.code + p.rest / 2 ^ 16 + p.rest % 2 ^ 8 + total body in
      let le : total body ≤ 2 ^ 15 * (2 ^ 16 - 1) = omega (arith, total_le body bytes) in
      let t8 : t ≤ 8 = type_number_lt p.icmp_type in
      let same : i.borrow p.body ≡ body = lawful.borrow-serialize p.body in
      let covered : sum_raw_be (i.borrow p.body) ≡ total body =
        ap sum_raw_be same ∙ omega (arith, sum_raw_be-total body) in
      let c : checksum i p t ≡ sum_to_checksum sum = ap sum_to_checksum (omega (arith, covered)) in
      let c16 : checksum i p t < 2 ^ 16 = sum_to_checksum-IsU16 _ in
      let whole : sum_raw_be (wire i p) ≡ sum + checksum i p t + p.rest % 2 ^ 16 / 2 ^ 8 * 2 ^ 8 =
        omega (arith, sum_raw_be-total (wire i p)) in
      let (pos, div) = sum-sum_to_checksum sum (omega arith) in
      let zero = sum_to_checksum_zero (sum_raw_be (wire i p)) (omega arith) in
      (
        λ e. let (_, d) = zero.0 e in omega (arith, c),
        λ lt. zero.1 (omega (arith, c), omega (arith, c)),
      )
