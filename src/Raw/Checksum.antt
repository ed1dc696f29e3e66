-- ===== src/Raw/Checksum.antt =====
-- The Internet checksum and the address helpers of src/net/raw/utils.rs.
pub mod Laws
use arrow_client.Base.{
  ℕ, zero, suc, ◌+◌, ◌-◌, ◌*◌, ◌/◌, ◌%◌, ◌^◌, ◌≤◌, ◌<◌, ◌≡◌, refl, ◌↔◌, true, false, List, [], ◌∷◌,
  ◌++◌, length, All, ltb, if◌then◌else◌, arith,
}
use arrow_client.Base.Bytes.{IsU8, IsU32, from_be32, be32}
use arrow_client.Net.Addr.{Ipv4Addr, octets4}
use arrow_client.Raw.Ether.{PacketResult, ok, panic}

-- The loop of `sum_raw_be` over 16-bit words; an odd last byte is the high half of a word.
unfoldable pub add_words : ℕ → List ℕ → ℕ
add_words sum [] = sum
add_words sum (b ∷ []) = (sum + b * 2 ^ 8) % 2 ^ 32
add_words sum (hi ∷ lo ∷ bytes) = add_words ((sum + (hi * 2 ^ 8 + lo)) % 2 ^ 32) bytes

-- `sum_raw_be`, by which `sum_type` and `sum_slice` sum the bytes of their argument.
unfoldable pub sum_raw_be : List ℕ → ℕ
sum_raw_be bytes = add_words 0 bytes

-- The loop of `sum_to_checksum`, with the rounds that are left.
unfoldable pub fold_carries : ℕ → ℕ → ℕ
fold_carries zero checksum = checksum
fold_carries (suc rounds) checksum = elim (ltb checksum (2 ^ 16)) [
  | true ↦ checksum
  | false ↦ fold_carries rounds (checksum % 2 ^ 16 + checksum / 2 ^ 16)
]

abbrev pub carry_rounds : ℕ
carry_rounds = 2

-- `!checksum as u16` of a number that fits 16 bits
unfoldable pub sum_to_checksum : ℕ → ℕ
sum_to_checksum sum = 2 ^ 16 - 1 - fold_carries carry_rounds sum % 2 ^ 16

-- The address in the first four octets of a slice that has as many.
abbrev pub first_octets : List ℕ → Ipv4Addr
first_octets (a ∷ b ∷ c ∷ d ∷ _) = record { a = a; b = b; c = c; d = d }
first_octets _ = record { a = 0; b = 0; c = 0; d = 0 }

-- `slice_to_ipv4addr`
unfoldable pub slice_to_ipv4addr : List ℕ → PacketResult Ipv4Addr
slice_to_ipv4addr slice = if ltb (length slice) 4 then panic else ok (first_octets slice)

-- `ipv4addr_to_u32`
unfoldable pub ipv4addr_to_u32 : Ipv4Addr → ℕ
ipv4addr_to_u32 addr = from_be32 (octets4 addr)

-- `Ipv4Addr::from` of a `u32`
unfoldable pub ipv4addr_from : ℕ → Ipv4Addr
ipv4addr_from n = record {
  a = n / 2 ^ 24 % 256;
  b = n / 2 ^ 16 % 256;
  c = n / 2 ^ 8 % 256;
  d = n % 256;
}
