-- ===== src/Raw/Words.antt =====
-- The options of IP and TCP headers, `Vec<u32>`: each is four bytes as they stand in memory, which
-- `utils::slice_as_bytes` writes and `utils::vec_from_raw_parts` reads. The machine is
-- little-endian.
use arrow_client.Base.{
  ℕ, zero, suc, ◌+◌, ◌*◌, ◌/◌, ◌%◌, ◌^◌, ◌≡◌, refl, ap₂, List, [], ◌∷◌, ◌++◌, length, drop, All,
  arith,
}
use arrow_client.Base.Bytes.{IsU8, IsU32}

-- The bytes of a `u32` in memory
abbrev pub le32 : ℕ → List ℕ
le32 n = n % 256 ∷ n / 2 ^ 8 % 256 ∷ n / 2 ^ 16 % 256 ∷ n / 2 ^ 24 % 256 ∷ []

abbrev pub from_le32 : List ℕ → ℕ
from_le32 (a ∷ b ∷ c ∷ d ∷ _) = a + b * 2 ^ 8 + c * 2 ^ 16 + d * 2 ^ 24
from_le32 _ = 0

-- `utils::slice_as_bytes` of a `[u32]`
abbrev pub words_as_bytes : List ℕ → List ℕ
words_as_bytes [] = []
words_as_bytes (w ∷ ws) = le32 w ++ words_as_bytes ws

-- `utils::vec_from_raw_parts` of that many `u32`
abbrev pub words_from_bytes : ℕ → List ℕ → List ℕ
words_from_bytes zero bytes = []
words_from_bytes (suc n) bytes = from_le32 bytes ∷ words_from_bytes n (drop 4 bytes)

pub length-words_as_bytes : (ws : List ℕ) → length (words_as_bytes ws) ≡ length ws * 4
length-words_as_bytes [] = refl
length-words_as_bytes (w ∷ ws) = omega (arith, length-words_as_bytes ws)

pub words_as_bytes-IsU8 : (ws : List ℕ) → All IsU8 (words_as_bytes ws)
words_as_bytes-IsU8 [] = tt
words_as_bytes-IsU8 (w ∷ ws) =
    (omega arith, (omega arith, (omega arith, (omega arith, words_as_bytes-IsU8 ws))))

pub words_from_bytes-words_as_bytes :
    (ws rest : List ℕ)
    → All IsU32 ws
    → words_from_bytes (length ws) (words_as_bytes ws ++ rest) ≡ ws
words_from_bytes-words_as_bytes [] rest h = refl
words_from_bytes-words_as_bytes (w ∷ ws) rest h =
    let u = h.0 in
    let same : from_le32 (le32 w) ≡ w = omega arith in
    ap₂ ◌∷◌ same (words_from_bytes-words_as_bytes ws rest h.1)

pub drop-words_as_bytes :
    (ws rest : List ℕ) → drop (length ws * 4) (words_as_bytes ws ++ rest) ≡ rest
drop-words_as_bytes [] rest = refl
drop-words_as_bytes (w ∷ ws) rest =
    let four : length (w ∷ ws) * 4 ≡ suc (suc (suc (suc (length ws * 4)))) = omega arith in
    rw four (drop-words_as_bytes ws rest)
