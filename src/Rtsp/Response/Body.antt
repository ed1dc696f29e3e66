-- ===== src/Rtsp/Response/Body.antt =====
-- The body of an RTSP response in src/net/rtsp/mod.rs: `process_body_data` takes the bytes that are
-- expected, as far as they are there, and no more.
use arrow_client.Base.{
  ℕ, zero, suc, ◌+◌, ◌-◌, ◌≤◌, ◌≡◌, refl, sym, ap, ◌∙◌, true, false, List, [], ◌∷◌, ◌++◌, is_some,
  length, take, drop, take_all, drop_all, ap₂, ge→ltb, ltb→lt, ltb→ge, ==→eq, ◌<◌, min, append-nil,
  arith, tests, Bool-cases, inl, inr, ltb, if◌then◌else◌, ◌==◌,
}
use arrow_client.Base.Parsing.{Parsing, ok}
use arrow_client.Rtsp.Response.{
  ResponseParser, is_complete, take_body, body_loop, process_body_data,
}

-- A parser with other values for its body
abbrev with_body : ResponseParser → List ℕ → ℕ → ResponseParser
with_body p body expected = record p { body = body; expected = expected }

-- The parser that has taken what it expects of some bytes
abbrev pub taken : List ℕ → ResponseParser → ResponseParser
taken bytes p = with_body p (p.body ++ take p.expected bytes) (p.expected - length bytes)

is_complete-expected :
    (p : ResponseParser) → is_some p.header ≡ true → is_complete p ≡ (p.expected == 0)
is_complete-expected p s = rw s refl

body_loop_complete :
    (fuel : ℕ) (bytes : List ℕ) (pos : ℕ) (p : ResponseParser)
    → is_complete p ≡ true
    → body_loop fuel bytes pos p ≡ ok (p, pos)
unfolding body_loop
body_loop_complete fuel [] pos p e = refl
body_loop_complete zero (b ∷ bs) pos p e = rw (e, body_loop) refl
body_loop_complete (suc fuel) (b ∷ bs) pos p e = rw (e, body_loop) refl

-- A parser that expects nothing takes nothing.
taken_none : (bytes : List ℕ) (p : ResponseParser) → p.expected ≡ 0 → p ≡ taken bytes p
taken_none bytes p e =
    ap₂ (with_body p) (sym (append-nil p.body) ∙ ap (λ n. p.body ++ take n bytes) (sym e))
      (omega arith)

taken_nil : (p : ResponseParser) → p ≡ taken [] p
taken_nil p =
    ap₂ (with_body p)
      (sym (append-nil p.body) ∙ ap (◌++◌ p.body) (sym (take_all p.expected [] (omega arith))))
      (omega arith)

-- A round that takes a number of bytes
abbrev round : List ℕ → ResponseParser → ℕ → ResponseParser × ℕ
round bytes p len = (with_body p (p.body ++ take len bytes) (p.expected - len), len)

take_body_short :
    (bytes : List ℕ) (p : ResponseParser)
    → length bytes < p.expected
    → take_body bytes p ≡ (taken bytes p, length bytes)
unfolding take_body
take_body_short bytes p h =
    let test : ltb (length bytes) p.expected ≡ true = omega tests in
    let all : take (length bytes) bytes ≡ take p.expected bytes =
      take_all (length bytes) bytes (omega arith) ∙ sym (take_all p.expected bytes (omega arith)) in
    ap (λ b. round bytes p (if b then length bytes else p.expected)) test
    ∙ ap (λ l. (with_body p (p.body ++ l) (p.expected - length bytes), length bytes)) all

take_body_enough :
    (bytes : List ℕ) (p : ResponseParser)
    → p.expected ≤ length bytes
    → take_body bytes p ≡ (taken bytes p, p.expected)
unfolding take_body
take_body_enough bytes p h =
    let test : ltb (length bytes) p.expected ≡ false = ge→ltb (length bytes) p.expected h in
    let nothing : p.expected - p.expected ≡ p.expected - length bytes = omega arith in
    ap (λ b. round bytes p (if b then length bytes else p.expected)) test
    ∙ ap (λ e. (with_body p (p.body ++ take p.expected bytes) e, p.expected)) nothing

-- The loop takes what one round takes.
body_loop_lem :
    (fuel : ℕ) (bytes : List ℕ) (pos : ℕ) (p : ResponseParser)
    → length bytes ≤ fuel
    → is_some p.header ≡ true
    → body_loop fuel bytes pos p ≡ ok (taken bytes p, pos + min p.expected (length bytes))
unfolding body_loop
body_loop_lem fuel [] pos p h s = ap₂ (λ q n. ok (q, n)) (taken_nil p) (omega arith)
body_loop_lem zero (b ∷ bs) pos p h s = absurd (omega arith)
body_loop_lem (suc fuel) (b ∷ bs) pos p h s = elim (Bool-cases (p.expected == 0)) [
  | inl none_left ↦
      body_loop_complete (suc fuel) (b ∷ bs) pos p (is_complete-expected p s ∙ none_left)
      ∙ ap₂ (λ q n. ok (q, n)) (taken_none (b ∷ bs) p (==→eq _ _ none_left))
          (ground (arith, none_left))
  | inr some_left ↦
      let open' : is_complete p ≡ false = is_complete-expected p s ∙ some_left in
      let go_on : (ResponseParser × ℕ) → Parsing (ResponseParser × ℕ) =
        λ (t : ResponseParser × ℕ). body_loop fuel (drop t.1 (b ∷ bs)) (pos + t.1) t.0 in
      let step : body_loop (suc fuel) (b ∷ bs) pos p ≡ go_on (take_body (b ∷ bs) p) =
        rw (open', body_loop) refl in
      elim (Bool-cases (ltb (length (b ∷ bs)) p.expected)) [
        | inl short ↦
            let lt = ltb→lt (length (b ∷ bs)) p.expected short in
            step
            ∙ ap go_on (take_body_short (b ∷ bs) p lt)
            ∙ ap (λ l. body_loop fuel l (pos + length (b ∷ bs)) (taken (b ∷ bs) p))
                (drop_all (length (b ∷ bs)) (b ∷ bs) (omega arith))
            ∙ ap (λ n. ok (taken (b ∷ bs) p, n)) (omega arith)
        | inr enough ↦
            let le = ltb→ge (length (b ∷ bs)) p.expected enough in
            let nothing : p.expected - length (b ∷ bs) ≡ 0 = omega arith in
            step
            ∙ ap go_on (take_body_enough (b ∷ bs) p le)
            ∙ body_loop_complete fuel (drop p.expected (b ∷ bs)) (pos + p.expected)
                (taken (b ∷ bs) p)
                (is_complete-expected (taken (b ∷ bs) p) s ∙ ap (λ n. n == 0) nothing)
            ∙ ap (λ n. ok (taken (b ∷ bs) p, n)) (omega arith)
      ]
]

-- Once the header is there, the parser takes the bytes that it expects as far as they are there, and
-- leaves the others to the next response.
pub process_body_data_lem :
    (bytes : List ℕ) (p : ResponseParser)
    → is_some p.header ≡ true
    → process_body_data bytes p ≡ ok (taken bytes p, min p.expected (length bytes))
unfolding process_body_data
process_body_data_lem bytes p s =
    body_loop_lem (length bytes) bytes 0 p (omega arith) s
    ∙ ap (λ n. ok (taken bytes p, n)) (omega arith)
