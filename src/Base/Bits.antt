-- ===== src/Base/Bits.antt =====
-- Masks: `a & m`, `a | b` and `!m` of machine integers, by their lowest digits.
use Prim.Native.Nat.{
  ℕ, zero, suc, ◌+◌, ◌-◌, ◌*◌, ◌/◌, ◌%◌, ◌^◌, ◌≤◌, ◌<◌, min, max, bit_and, bit_or, bit_and-bitwise,
  bit_or-bitwise, digits,
}
use mathlib.Core.Path.{◌≡◌, refl, ap, ap₂}
use native.Mathlib.Omega.{arith}

-- More rounds than the first number has digits change nothing.
rounds-digits :
    (z : ℕ → ℕ) (f : ℕ → ℕ → ℕ) (n a b : ℕ) → a ≤ n → digits z f (suc n) a b ≡ digits z f n a b
rounds-digits z f zero zero b h = refl
rounds-digits z f zero (suc a) b h = absurd (omega arith)
rounds-digits z f (suc n) zero b h = refl
rounds-digits z f (suc n) (suc a) b h =
    omega (arith, rounds-digits z f n (suc a / 2) (b / 2) (omega arith))

enough-digits :
    (z : ℕ → ℕ) (f : ℕ → ℕ → ℕ) (more a b : ℕ) → digits z f (more + a) a b ≡ digits z f a a b
enough-digits z f zero a b = let e : 0 + a ≡ a = omega arith in rw e refl
enough-digits z f (suc more) a b =
    let e : suc more + a ≡ suc (more + a) = omega arith in
    rw e (omega (arith, rounds-digits z f (more + a) a b (omega arith), enough-digits z f more a b))

halved-digits :
    (z : ℕ → ℕ) (f : ℕ → ℕ → ℕ) (a b : ℕ)
    → digits z f (suc a) (suc a) b
      ≡ digits z f (suc a / 2) (suc a / 2) (b / 2) * 2 + f (suc a % 2) (b % 2)
halved-digits z f a b =
    let e : a ≡ (a - suc a / 2) + suc a / 2 = omega arith in
    omega (
      arith,
      enough-digits z f (a - suc a / 2) (suc a / 2) (b / 2),
      ap (λ n. digits z f n (suc a / 2) (b / 2)) e,
    )

pub bit_and_half : (a b : ℕ) → bit_and a b ≡ bit_and (a / 2) (b / 2) * 2 + min (a % 2) (b % 2)
bit_and_half zero b = simp bit_and-bitwise (omega arith)
bit_and_half (suc a) b = simp bit_and-bitwise (halved-digits (λ n. 0) min a b)

pub bit_or_half : (a b : ℕ) → bit_or a b ≡ bit_or (a / 2) (b / 2) * 2 + max (a % 2) (b % 2)
bit_or_half zero b = simp bit_or-bitwise (omega arith)
bit_or_half (suc a) b = simp bit_or-bitwise (halved-digits (λ n. n) max a b)

zero-bit_and : (m : ℕ) → bit_and 0 m ≡ 0
zero-bit_and m = simp bit_and-bitwise refl

-- What a mask leaves is no more than the mask.
pub bit_and_le : (w a m : ℕ) → a < 2 ^ w → bit_and a m ≤ m
bit_and_le zero zero m h = omega (arith, zero-bit_and m)
bit_and_le zero (suc a) m h = absurd (omega arith)
bit_and_le (suc w) a m h =
    omega (arith, bit_and_half a m, bit_and_le w (a / 2) (m / 2) (omega arith))

-- The bits that a mask leaves and the complement of the mask share none.
pub bit_or-complement :
    (w a m : ℕ)
    → a < 2 ^ w
    → m < 2 ^ w
    → bit_or (bit_and a m) (2 ^ w - 1 - m) ≡ bit_and a m + (2 ^ w - 1 - m)
bit_or-complement zero zero zero ha hm = refl
bit_or-complement zero zero (suc m) ha hm = absurd (omega arith)
bit_or-complement zero (suc a) m ha hm = absurd (omega arith)
bit_or-complement (suc w) a m ha hm =
    let both = bit_and a m in
    let both' = bit_and (a / 2) (m / 2) in
    let rest = 2 ^ suc w - 1 - m in
    let rest' = 2 ^ w - 1 - m / 2 in
    let low : both ≡ both' * 2 + min (a % 2) (m % 2) = bit_and_half a m in
    let both_half : both / 2 ≡ both' = omega arith in
    let rest_half : rest / 2 ≡ rest' = omega arith in
    omega (
      arith,
      bit_or_half both rest,
      ap₂ bit_or both_half rest_half,
      bit_or-complement w (a / 2) (m / 2) (omega arith) (omega arith),
    )
