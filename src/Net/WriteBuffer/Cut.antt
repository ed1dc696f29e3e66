-- ===== src/Net/WriteBuffer/Cut.antt =====
-- Windows of a list: what a write and a shift do to the bytes between two positions.
use arrow_client.Base.{
  ℕ, zero, suc, ◌+◌, ◌-◌, ◌≤◌, ◌≡◌, sym, ap, ◌∙◌, List, [], ◌∷◌, ◌++◌, length, take, drop, take_all,
  drop_all, drop-drop, take-append_le, take-append_ge, drop-append_le, length-take, length-drop,
  arith,
}

module _ {ℓ} {A : Type ℓ} where
  pub drop-take : (o u : ℕ) (xs : List A) → drop o (take (o + u) xs) ≡ take u (drop o xs)
  drop-take zero u xs = ap (λ k. take k xs) (omega arith)
  drop-take (suc o) u [] = drop_all (suc o) (take (suc o + u) []) (no_more u) ∙ sym (no_more' u)
    where
      no_more : (n : ℕ) → length (take {A = A} (suc o + n) []) ≤ suc o
      no_more n = omega (arith, length-take {ℓ} {A = A} (suc o + n) [])

      no_more' : (n : ℕ) → take {A = A} n [] ≡ []
      no_more' n = take_all n [] (omega arith)
  drop-take (suc o) u (x ∷ xs) =
      let e : suc o + u ≡ suc (o + u) = omega arith in rw e (drop-take o u xs)

  -- Bytes that are written behind a window extend it.
  pub window-write :
      (o u : ℕ) (xs added rest : List A)
      → o + u ≤ length xs
      → take (u + length added) (drop o (take (o + u) xs ++ (added ++ rest)))
        ≡ take u (drop o xs) ++ added
  window-write o u xs added rest h =
      ap (take (u + length added)) (
        drop-append_le o (take (o + u) xs) (added ++ rest) (omega (arith, length-take (o + u) xs))
        ∙ ap (λ l. l ++ (added ++ rest)) (drop-take o u xs))
      ∙ take-append_ge (u + length added) (take u (drop o xs)) (added ++ rest)
          (omega (arith, length-take u (drop o xs)))
      ∙ ap (λ l. take u (drop o xs) ++ l)
          (ap (λ k. take k (added ++ rest))
              (omega (arith, length-take u (drop o xs), length-drop o xs))
            ∙ take-append_le (length added) added rest (omega arith)
            ∙ take_all (length added) added (omega arith))

  -- What stands behind the list is out of the window.
  pub window-append :
      (o u : ℕ) (xs rest : List A)
      → o + u ≤ length xs
      → take u (drop o (xs ++ rest)) ≡ take u (drop o xs)
  window-append o u xs rest h =
      ap (take u) (drop-append_le o xs rest (omega arith))
      ∙ take-append_le u (drop o xs) rest (omega (arith, length-drop o xs))

  -- A window that is moved to the front is the new front.
  pub take_shifted :
      (o u : ℕ) (xs rest : List A)
      → o + u ≤ length xs
      → take u (take u (drop o xs) ++ rest) ≡ take u (drop o xs)
  take_shifted o u xs rest h =
      take-append_le u (take u (drop o xs)) rest
        (omega (arith, length-take u (drop o xs), length-drop o xs))
      ∙ take_all u (take u (drop o xs)) (omega (arith, length-take u (drop o xs)))

  pub drop-take_window :
      (n o u : ℕ) (xs : List A)
      → n ≤ u
      → drop n (take u (drop o xs)) ≡ take (u - n) (drop (o + n) xs)
  drop-take_window n o u xs h =
      ap (λ k. drop n (take k (drop o xs))) (omega arith)
      ∙ drop-take n (u - n) (drop o xs)
      ∙ ap (take (u - n)) (drop-drop n o xs)
