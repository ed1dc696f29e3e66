-- ===== src/Http/LineReader/Search.antt =====
-- Searching a separator from an offset.
use arrow_client.Base.{
  ℕ, zero, suc, ◌+◌, ◌≤◌, ◌<◌, ◌≡◌, refl, ap, ◌∙◌, true, Option, none, some, List, [], ◌∷◌, ◌++◌,
  length, drop, arith, Bool-cases, inl, inr,
}
use arrow_client.Base.Text.{starts_with}
use arrow_client.Http.LineReader.{find_from}

-- A separator that fits the first part starts there or not, whatever follows.
pub starts_with-append :
    (sep xs ys : List ℕ) → length sep ≤ length xs → starts_with (xs ++ ys) sep ≡ starts_with xs sep
unfolding starts_with
starts_with-append [] [] ys h = elim ys [ [] ↦ refl | y ∷ ys ↦ refl ]
starts_with-append [] (x ∷ xs) ys h = refl
starts_with-append (p ∷ sep) [] ys h = absurd (omega arith)
starts_with-append (p ∷ sep) (x ∷ xs) ys h = ground (arith, starts_with-append sep xs ys)

starts_with-grow :
    (sep xs ys : List ℕ) → starts_with xs sep ≡ true → starts_with (xs ++ ys) sep ≡ true
unfolding starts_with
starts_with-grow [] [] ys h = elim ys [ [] ↦ refl | y ∷ ys ↦ refl ]
starts_with-grow [] (x ∷ xs) ys h = refl
starts_with-grow (p ∷ sep) [] ys h = ground arith
starts_with-grow (p ∷ sep) (x ∷ xs) ys h = ground (arith, starts_with-grow sep xs ys)

starts_with-length : (sep xs : List ℕ) → starts_with xs sep ≡ true → length sep ≤ length xs
unfolding starts_with
starts_with-length [] xs h = omega arith
starts_with-length (p ∷ sep) [] h = ground arith
starts_with-length (p ∷ sep) (x ∷ xs) h = ground (arith, starts_with-length sep xs)

-- The first occurrence
abbrev pub position : List ℕ → List ℕ → Option ℕ
position sep s = find_from sep s 0

-- Bytes in which the separator does not occur are skipped, but for its length at their end.
pub find_from-skip :
    (sep : List ℕ) (k : ℕ) (xs ys : List ℕ) (i : ℕ)
    → k + length sep ≤ length xs
    → find_from sep xs i ≡ none
    → find_from sep (xs ++ ys) i ≡ find_from sep (drop k xs ++ ys) (i + k)
unfolding find_from
find_from-skip sep zero xs ys i h n = ap (find_from sep (xs ++ ys)) (omega arith)
find_from-skip sep (suc k) [] ys i h n = absurd (omega arith)
find_from-skip sep (suc k) (x ∷ xs) ys i h n =
    let same = starts_with-append sep (x ∷ xs) ys (omega arith) in
    elim (Bool-cases (starts_with (x ∷ xs) sep)) [
      | inl yes' ↦ ground (arith, yes')
      | inr no' ↦
          let n' : find_from sep xs (i + 1) ≡ none = ground (arith, no') in
          let e : i + 1 + k ≡ i + suc k = omega arith in
          rw (same ∙ no') (
            find_from-skip sep k xs ys (i + 1) (omega arith) n'
            ∙ ap (find_from sep (drop k xs ++ ys)) e)
    ]

-- An occurrence lies within the bytes.
pub find_from_lem :
    (sep xs : List ℕ) (i p : ℕ)
    → find_from sep xs i ≡ some p
    → (i ≤ p) × (p + length sep ≤ i + length xs)
unfolding find_from
find_from_lem sep [] i p h = ground arith
find_from_lem sep (x ∷ xs) i p h =
    ground (arith, starts_with-length sep (x ∷ xs), find_from_lem sep xs (i + 1) p)

-- An occurrence stays the first one when bytes follow.
pub find_from-grow :
    (sep xs ys : List ℕ) (i p : ℕ)
    → find_from sep xs i ≡ some p
    → find_from sep (xs ++ ys) i ≡ some p
unfolding find_from
find_from-grow sep [] ys i p h = ground arith
find_from-grow sep (x ∷ xs) ys i p h = elim (Bool-cases (starts_with (x ∷ xs) sep)) [
  | inl yes' ↦
      let h' : i ≡ p = ground (arith, yes') in
      rw (starts_with-grow sep (x ∷ xs) ys yes') (ap some h')
  | inr no' ↦
      let h' : find_from sep xs (i + 1) ≡ some p = ground (arith, no') in
      let same =
        starts_with-append sep (x ∷ xs) ys (omega (arith, find_from_lem sep xs (i + 1) p h')) in
      rw (same ∙ no') (find_from-grow sep xs ys (i + 1) p h')
]

-- An occurrence within the first part does not need the rest.
pub find_from-shrink :
    (sep xs ys : List ℕ) (i p : ℕ)
    → find_from sep (xs ++ ys) i ≡ some p
    → 0 < length sep
    → p + length sep ≤ i + length xs
    → find_from sep xs i ≡ some p
unfolding find_from
find_from-shrink sep [] ys i p h s e = absurd (omega (arith, find_from_lem sep ys i p h))
find_from-shrink sep (x ∷ xs) ys i p h s e = elim (Bool-cases (starts_with (x ∷ xs) sep)) [
  | inl yes' ↦
      let h' : i ≡ p = ground (arith, yes', starts_with-grow sep (x ∷ xs) ys yes') in
      rw yes' (ap some h')
  | inr no' ↦ elim (Bool-cases (starts_with ((x ∷ xs) ++ ys) sep)) [
    | inl late ↦
        let h' : i ≡ p = ground (arith, late) in
        let same = starts_with-append sep (x ∷ xs) ys (omega (arith, h')) in
        absurd (ground (arith, late, no', same))
    | inr no'' ↦
        let h' : find_from sep (xs ++ ys) (i + 1) ≡ some p = ground (arith, no'') in
        rw no' (find_from-shrink sep xs ys (i + 1) p h' s (omega arith))
  ]
]
