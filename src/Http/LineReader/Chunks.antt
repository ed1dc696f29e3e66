-- ===== src/Http/LineReader/Chunks.antt =====
-- The line reader does not see where one chunk ends and the next begins.
use mathlib.Core.Path.{subst}
use arrow_client.Base.{
  ℕ, ◌+◌, ◌-◌, ◌≤◌, ◌<◌, ◌≡◌, refl, sym, ap, ap₂, ◌∙◌, true, Option, none, some, List, [], ◌∷◌,
  ◌++◌, length, take, length-append, length-take, take_all, take-append_ge, take-append_le,
  append-nil, append_assoc, ltb, arith, tests, Bool-cases, Option-cases, ◌⊎◌, inl, inr, ge→ltb,
  lt→ltb, ltb→lt, ltb→ge,
}
use arrow_client.Base.Parsing.{Parsing, ok, err, ◌>>=◌, ok_inj}
use arrow_client.Http.LineReader.{LineReader, add}
use arrow_client.Http.LineReader.Laws.{IsReading, seen, cut, add_lem}
use arrow_client.Http.LineReader.Search.{position, find_from-grow, find_from-shrink, find_from_lem}

-- A count of bytes before others
abbrev pub shift : ℕ → Parsing (LineReader × ℕ) → Parsing (LineReader × ℕ)
shift k m = m >>= λ (r, n). ok (r, k + n)

-- What a chunk does to a reader that waits, with and without bytes behind it: it completes the line,
-- is a part of the line, or makes the line too long.
pub data Added (r : LineReader) (xs : List ℕ) : Type 0 where
  completes :
      (line : List ℕ) (n : ℕ)
      → 0 < n
      → n ≤ length xs
      → ((ys : List ℕ) → add r (xs ++ ys) ≡ ok (record r { buffer = line; complete = true }, n))
      → Added r xs
  continues :
      IsReading (record r { buffer = r.buffer ++ xs })
      → ((ys : List ℕ)
          → add r (xs ++ ys) ≡ shift (length xs) (add (record r { buffer = r.buffer ++ xs }) ys))
      → Added r xs
  fails : ((ys : List ℕ) → add r (xs ++ ys) ≡ err) → Added r xs

abbrev pub grown : LineReader → List ℕ → LineReader
grown r xs = record r { buffer = r.buffer ++ xs }

seen_long :
    (r : LineReader) (xs ys : List ℕ)
    → r.max_len ≤ length r.buffer + length xs
    → seen r (xs ++ ys) ≡ seen r xs
seen_long r xs ys long =
    ap (take r.max_len) (sym (append_assoc r.buffer xs ys))
    ∙ take-append_le r.max_len (r.buffer ++ xs) ys (omega (arith, length-append r.buffer xs))

seen_short :
    (r : LineReader) (xs ys : List ℕ)
    → length r.buffer + length xs ≤ r.max_len
    → seen r (xs ++ ys) ≡ seen r xs ++ take (r.max_len - length (r.buffer ++ xs)) ys
seen_short r xs ys short =
    let fits : length (r.buffer ++ xs) ≤ r.max_len = omega (arith, length-append r.buffer xs) in
    ap (take r.max_len) (sym (append_assoc r.buffer xs ys))
    ∙ take-append_ge r.max_len (r.buffer ++ xs) ys fits
    ∙ ap (λ s. s ++ take (r.max_len - length (r.buffer ++ xs)) ys)
        (sym (take_all r.max_len (r.buffer ++ xs) fits))

-- The bytes that are looked at only grow.
seen_grows : (r : LineReader) (xs ys : List ℕ) → (t : List ℕ) × (seen r (xs ++ ys) ≡ seen r xs ++ t)
seen_grows r xs ys = elim (Bool-cases (ltb r.max_len (length r.buffer + length xs))) [
  | inl long ↦ ([], seen_long r xs ys (omega (tests, long)) ∙ sym (append-nil (seen r xs)))
  | inr short ↦
      (take (r.max_len - length (r.buffer ++ xs)) ys, seen_short r xs ys (omega (tests, short)))
]

-- A separator that is found ends behind the bytes that the reader had, and within the new ones.
found_bounds :
    (r : LineReader) (xs : List ℕ) (pos : ℕ)
    → IsReading r
    → position r.separator (seen r xs) ≡ some pos
    → (length r.buffer < pos + length r.separator)
      × (pos + length r.separator ≤ length r.buffer + length xs)
      × (pos ≤ length (seen r xs))
found_bounds r xs pos w found =
    let (_, fits) = find_from_lem r.separator (seen r xs) 0 pos found in
    let size = length-take r.max_len (r.buffer ++ xs) in
    (past, omega (arith, size, length-append r.buffer xs), omega arith)
  where
    past : length r.buffer < pos + length r.separator
    past = elim (Bool-cases (ltb (length r.buffer) (pos + length r.separator))) [
      | inl yes' ↦ ltb→lt _ _ yes'
      | inr no' ↦
          let t = take (r.max_len - length r.buffer) xs in
          let split = take-append_ge r.max_len r.buffer xs w.within in
          let found' : position r.separator (r.buffer ++ t) ≡ some pos =
            ap (position r.separator) (sym split) ∙ found in
          let old =
            find_from-shrink r.separator r.buffer t 0 pos found' w.some_separator
              (omega (tests, no')) in
          let both = sym w.absent ∙ old in absurd (ground (arith, both))
    ]

add_completes :
    (r : LineReader) (xs : List ℕ) (pos : ℕ)
    → IsReading r
    → position r.separator (seen r xs) ≡ some pos
    → Added r xs
unfolding cut
add_completes r xs pos w found =
    let (after, before, inside) = found_bounds r xs pos w found in
    completes (take pos (seen r xs)) (pos + length r.separator - length r.buffer) (omega arith)
      (omega arith)
      (λ ys.
        (let (t, grows) = seen_grows r xs ys in
          let found' : position r.separator (seen r (xs ++ ys)) ≡ some pos =
            ap (position r.separator) grows
            ∙ find_from-grow r.separator (seen r xs) t 0 pos found in
          add_lem r (xs ++ ys) w
          ∙ ap (cut r (xs ++ ys)) found'
          ∙ ap
              (λ line. ok (
                record r { buffer = line; complete = true },
                pos + length r.separator - length r.buffer,
              ))
              (ap (take pos) grows ∙ take-append_le pos (seen r xs) t inside)))

add_fails :
    (r : LineReader) (xs : List ℕ)
    → IsReading r
    → position r.separator (seen r xs) ≡ none
    → r.max_len < length r.buffer + length xs
    → Added r xs
unfolding cut
add_fails r xs w absent long = fails (λ ys.
    (let absent' = ap (position r.separator) (seen_long r xs ys (omega arith)) ∙ absent in
      let long' =
        lt→ltb r.max_len (length r.buffer + length (xs ++ ys))
          (omega (arith, length-append xs ys)) in
      add_lem r (xs ++ ys) w ∙ ap (cut r (xs ++ ys)) absent' ∙ rw long' refl))

shift-cut :
    (r : LineReader) (xs ys : List ℕ) (found : Option ℕ)
    → ((pos : ℕ) → found ≡ some pos → length r.buffer + length xs ≤ pos + length r.separator)
    → cut r (xs ++ ys) found ≡ shift (length xs) (cut (grown r xs) ys found)
unfolding cut
shift-cut r xs ys (some pos) h =
    let same : seen r (xs ++ ys) ≡ seen (grown r xs) ys =
      ap (take r.max_len) (sym (append_assoc r.buffer xs ys)) in
    let count : pos + length r.separator - length r.buffer
        ≡ length xs + (pos + length r.separator - length (r.buffer ++ xs)) =
      omega (arith, length-append r.buffer xs, h pos refl) in
    ap₂ (λ bs n. ok (record r { buffer = take pos bs; complete = true }, n)) same count
shift-cut r xs ys none h =
    let e : length r.buffer + length (xs ++ ys) ≡ length (r.buffer ++ xs) + length ys =
      omega (arith, length-append r.buffer xs, length-append xs ys) in
    elim (Bool-cases (ltb r.max_len (length (r.buffer ++ xs) + length ys))) [
      | inl long ↦ rw (ap (ltb r.max_len) e ∙ long) (rw long refl)
      | inr short ↦ rw (ap (ltb r.max_len) e ∙ short) (
          rw short (
            ap₂ (λ bs n. ok (record r { buffer = bs }, n)) (sym (append_assoc r.buffer xs ys))
              (length-append xs ys)))
    ]

add_continues :
    (r : LineReader) (xs : List ℕ)
    → IsReading r
    → position r.separator (seen r xs) ≡ none
    → length r.buffer + length xs ≤ r.max_len
    → Added r xs
add_continues r xs w absent short =
    let whole = take_all r.max_len (r.buffer ++ xs) (omega (arith, length-append r.buffer xs)) in
    let w' : IsReading (grown r xs) = record {
      incomplete = w.incomplete;
      within = omega (arith, length-append r.buffer xs);
      absent = ap (position r.separator) (sym whole) ∙ absent;
      some_separator = w.some_separator;
    } in
    continues w' (λ ys.
      (let same : seen r (xs ++ ys) ≡ seen (grown r xs) ys =
          ap (take r.max_len) (sym (append_assoc r.buffer xs ys)) in
        add_lem r (xs ++ ys) w
        ∙ ap (λ s. cut r (xs ++ ys) (position r.separator s)) same
        ∙ shift-cut r xs ys (position r.separator (seen (grown r xs) ys)) (λ pos found.
          omega (arith, (found_bounds (grown r xs) ys pos w' found).0, length-append r.buffer xs))
        ∙ ap (shift (length xs)) (sym (add_lem (grown r xs) ys w'))))

-- Every chunk is of one of the three kinds.
pub add-Added : (r : LineReader) (xs : List ℕ) → IsReading r → Added r xs
add-Added r xs w = elim (Option-cases (position r.separator (seen r xs))) [
  | inr (pos, found) ↦ add_completes r xs pos w found
  | inl absent ↦ elim (Bool-cases (ltb r.max_len (length r.buffer + length xs))) [
    | inl long ↦ add_fails r xs w absent (ltb→lt _ _ long)
    | inr short ↦ add_continues r xs w absent (ltb→ge _ _ short)
  ]
]

-- The reader behind a chunk waits for more, or has its line.
abbrev pub IsSound : LineReader → Type 0
IsSound r = IsReading r ⊎ ((r.complete ≡ true) × (0 < length r.separator))

add_nil : (r : LineReader) → IsReading r → add r [] ≡ ok (r, 0)
unfolding cut
add_nil r w =
    let whole = ap (take r.max_len) (append-nil r.buffer) ∙ take_all r.max_len r.buffer w.within in
    let fits = ge→ltb r.max_len (length r.buffer + 0) (omega (arith, w.within)) in
    add_lem r [] w
    ∙ ap (λ s. cut r [] (position r.separator s)) whole
    ∙ ap (cut r []) w.absent
    ∙ rw fits (ap (λ bs. ok (record r { buffer = bs }, 0)) (append-nil r.buffer))

-- A chunk that is a part of the line is used whole.
pub add_whole :
    (r : LineReader) (xs : List ℕ)
    → IsReading (grown r xs)
    → ((ys : List ℕ) → add r (xs ++ ys) ≡ shift (length xs) (add (grown r xs) ys))
    → add r xs ≡ ok (grown r xs, length xs)
add_whole r xs w h =
    ap (add r) (sym (append-nil xs))
    ∙ h []
    ∙ ap (shift (length xs)) (add_nil (grown r xs) w)
    ∙ ap (λ n. ok (grown r xs, n)) (omega arith)

abbrev IsProgress : List ℕ → LineReader × ℕ → Type 0
IsProgress bytes (r, used) = (0 < used) × (used ≤ length bytes) × IsSound r

-- Bytes are used up, and no more than there are.
pub add_progress :
    (r r' : LineReader) (b : ℕ) (bs : List ℕ) (used : ℕ)
    → IsReading r
    → add r (b ∷ bs) ≡ ok (r', used)
    → (0 < used) × (used ≤ length (b ∷ bs)) × IsSound r'
add_progress r r' b bs used w e = elim (add-Added r (b ∷ bs) w) [
  | completes line n pos within h ↦
      let known : add r (b ∷ bs) ≡ ok (record r { buffer = line; complete = true }, n) =
        ap (add r) (sym (append-nil (b ∷ bs))) ∙ h [] in
      subst (IsProgress (b ∷ bs)) (ok_inj (sym known ∙ e))
        (pos, within, inr (refl, w.some_separator))
  | continues w' h ↦
      subst (IsProgress (b ∷ bs)) (ok_inj (sym (add_whole r (b ∷ bs) w' h) ∙ e))
        (omega arith, omega arith, inl w')
  | fails h ↦
      let known : add r (b ∷ bs) ≡ err = ap (add r) (sym (append-nil (b ∷ bs))) ∙ h [] in
      let both = sym known ∙ e in absurd (ground (arith, both))
]
