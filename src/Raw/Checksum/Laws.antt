-- ===== src/Raw/Checksum/Laws.antt =====
-- What the checksum of src/net/raw/utils.rs promises to a receiver.
use arrow_client.Base.{
  ℕ, ◌+◌, ◌-◌, ◌*◌, ◌/◌, ◌%◌, ◌^◌, ◌≤◌, ◌<◌, ◌≡◌, refl, ◌∙◌, ap, ◌↔◌, List, [], ◌∷◌, ◌++◌, length,
  All, arith,
}
use arrow_client.Base.Bytes.{IsU8, IsU16, IsU32, be16}
use arrow_client.Raw.Checksum.{
  add_words, sum_raw_be, fold_carries, carry_rounds, sum_to_checksum, ipv4addr_to_u32,
  ipv4addr_from,
}

-- Two rounds bring any `u32` below 2 ^ 16, and keep what it is modulo 65535 and whether it is 0.
pub fold_carries_lem :
    (n : ℕ)
    → IsU32 n
    → (fold_carries carry_rounds n < 2 ^ 16)
      × (fold_carries carry_rounds n % (2 ^ 16 - 1) ≡ n % (2 ^ 16 - 1))
      × ((fold_carries carry_rounds n ≡ 0) ↔ (n ≡ 0))
unfolding fold_carries
fold_carries_lem n h = ground arith

-- The sum of the words as a number that does not wrap.
abbrev pub total : List ℕ → ℕ
total [] = 0
total (b ∷ []) = b * 2 ^ 8
total (hi ∷ lo ∷ bytes) = hi * 2 ^ 8 + lo + total bytes

-- An even number of bytes, so that what follows starts a word.
abbrev pub IsEven : List ℕ → Type 0
IsEven bytes = length bytes % 2 ≡ 0

pub total-append : (xs ys : List ℕ) → IsEven xs → total (xs ++ ys) ≡ total xs + total ys
total-append [] ys h = omega arith
total-append (x ∷ []) ys h = absurd (omega arith)
total-append (x ∷ y ∷ xs) ys h = omega (arith, total-append xs ys (omega arith))

add_words-total :
    (sum : ℕ) (bytes : List ℕ) → IsU32 sum → add_words sum bytes ≡ (sum + total bytes) % 2 ^ 32
unfolding add_words
add_words-total sum [] h = omega arith
add_words-total sum (b ∷ []) h = refl
add_words-total sum (hi ∷ lo ∷ bytes) h =
    omega (arith, add_words-total ((sum + (hi * 2 ^ 8 + lo)) % 2 ^ 32) bytes (omega arith))

pub sum_raw_be-total : (bytes : List ℕ) → sum_raw_be bytes ≡ total bytes % 2 ^ 32
unfolding sum_raw_be
sum_raw_be-total bytes = omega (arith, add_words-total 0 bytes (omega arith))

-- Each word is at most 65535.
pub total_le :
    (bytes : List ℕ) → All IsU8 bytes → total bytes ≤ (length bytes + 1) / 2 * (2 ^ 16 - 1)
total_le [] h = omega arith
total_le (b ∷ []) h = let h0 = h.0 in omega arith
total_le (hi ∷ lo ∷ bytes) h = let h0 = h.0 in let h1 = h.1.0 in omega (arith, total_le bytes h.1.1)

pub sum_to_checksum-IsU16 : (sum : ℕ) → IsU16 (sum_to_checksum sum)
unfolding sum_to_checksum
sum_to_checksum-IsU16 sum = omega arith

-- A receiver finds no error exactly when the sum is a positive multiple of 65535.
pub sum_to_checksum_zero :
    (sum : ℕ) → IsU32 sum → (sum_to_checksum sum ≡ 0) ↔ ((0 < sum) × (sum % (2 ^ 16 - 1) ≡ 0))
unfolding sum_to_checksum
sum_to_checksum_zero sum h = ground (arith, fold_carries_lem sum h)

-- A sum and its checksum together are a positive multiple of 65535.
pub sum-sum_to_checksum :
    (sum : ℕ)
    → IsU32 sum
    → (0 < sum + sum_to_checksum sum) × ((sum + sum_to_checksum sum) % (2 ^ 16 - 1) ≡ 0)
unfolding sum_to_checksum
sum-sum_to_checksum sum h =
    let (lt, same, _) = fold_carries_lem sum h in
    (ground (arith, fold_carries_lem sum h), omega arith)

pub sum_to_checksum-add :
    (sum : ℕ) → sum + 2 ^ 16 ≤ 2 ^ 32 → sum_to_checksum (sum + sum_to_checksum sum) ≡ 0
sum_to_checksum-add sum h =
    (sum_to_checksum_zero (sum + sum_to_checksum sum) (omega (arith, sum_to_checksum-IsU16 sum))).1
      (sum-sum_to_checksum sum (omega arith))

-- A message whose checksum field, which starts a word, holds the checksum of the rest: a receiver
-- who sums it whole finds no error.
pub sum_to_checksum-sealed :
    (pre post : List ℕ) (sum : ℕ)
    → IsEven pre
    → sum ≡ total pre + total post
    → sum + 2 ^ 16 ≤ 2 ^ 32
    → sum_to_checksum (sum_raw_be (pre ++ (be16 (sum_to_checksum sum) ++ post))) ≡ 0
sum_to_checksum-sealed pre post sum even split small =
    let c = sum_to_checksum sum in
    let whole : sum_raw_be (pre ++ (be16 c ++ post)) ≡ sum + c = omega (
      arith,
      sum_raw_be-total (pre ++ (be16 c ++ post)),
      total-append pre (be16 c ++ post) even,
      sum_to_checksum-IsU16 sum,
    ) in
    ap sum_to_checksum whole ∙ sum_to_checksum-add sum small

-- The number of an address and the address of a number are inverse to each other.
pub ipv4addr_to_u32-ipv4addr_from : (n : ℕ) → IsU32 n → ipv4addr_to_u32 (ipv4addr_from n) ≡ n
unfolding ipv4addr_to_u32 ipv4addr_from
ipv4addr_to_u32-ipv4addr_from n h = omega arith
