-- ===== src/Http/Plain/Documented.antt =====
-- The plain functions do what is documented of the code that src/net/http.rs calls.
use mathlib.Core.Path.{subst}
use arrow_client.Base.{
  ℕ, zero, suc, ◌+◌, ◌-◌, ◌*◌, ◌/◌, ◌%◌, ◌≤◌, ◌<◌, ◌≡◌, ◌≢◌, refl, sym, ap, ap₂, ◌∙◌, true, false,
  ◌&&◌, none, some, List, [], ◌∷◌, ◌++◌, All, All-append, leb, ltb, ◌==◌, if◌then◌else◌, arith,
  ltb→lt, ltb→ge, Bool-cases, inl, inr,
}
use arrow_client.Base.Text.{starts_with}
use arrow_client.Http.Client.Documented.{
  IsAscii, KeepsUtf8, IsDigit, IsNameCharacter, IsTrimmed, IsVersion, header_line, status_line,
  IsDocumented,
}
use arrow_client.Http.Plain.{
  before, behind, has, trim_left, value, number_of, digits, is_ascii, lossy, header_of, plain,
  status_of, show_plain,
}

-- A text is cut at the first place of a character.
cut_at :
    (c : ℕ) (xs ys : List ℕ)
    → All (λ x. x ≢ c) xs
    → (before c (xs ++ c ∷ ys) ≡ xs)
      × (behind c (xs ++ c ∷ ys) ≡ ys)
      × (has c (xs ++ c ∷ ys) ≡ true)
cut_at c [] ys h = (ground arith, ground arith, ground arith)
cut_at c (x ∷ xs) ys h =
    let other : (x == c) ≡ false = ground (arith, h.0) in
    let (left, right, there) = cut_at c xs ys h.1 in
    (rw other (ap (◌∷◌ x) left), rw other right, rw other there)

trim_left_lem : (val : List ℕ) → IsTrimmed val → trim_left (32 ∷ val) ≡ val
trim_left_lem [] h = refl
trim_left_lem (c ∷ s) h = ground arith

-- A digit behind others
value-append :
    (n : ℕ) (ds : List ℕ) (d v : ℕ)
    → value n ds ≡ some v
    → IsDigit d
    → value n (ds ++ d ∷ []) ≡ some (v * 10 + (d - 48))
value-append n [] d v e h = ground arith
value-append n (x ∷ ds) d v e h = elim (Bool-cases (leb 48 x && leb x 57)) [
  | inl digit ↦
      let open' : value n (x ∷ ds) ≡ value (n * 10 + (x - 48)) ds =
        ap (λ b. if b then value (n * 10 + (x - 48)) ds else none) digit in
      ap (λ b. if b then value (n * 10 + (x - 48)) (ds ++ d ∷ []) else none) digit
      ∙ value-append (n * 10 + (x - 48)) ds d v (sym open' ∙ e) h
  | inr other ↦
      let open' : value n (x ∷ ds) ≡ none =
        ap (λ b. if b then value (n * 10 + (x - 48)) ds else none) other in
      let both : none ≡ some v = sym open' ∙ e in absurd (ground (arith, both))
]

-- A text of digits for a number
abbrev IsNumber : ℕ → List ℕ → Type 0
IsNumber n ds = (value 0 ds ≡ some n) × (ds ≢ []) × All IsDigit ds

one_digit : (n : ℕ) → n < 10 → IsNumber n ((48 + n) ∷ [])
one_digit n h = (ground arith, (λ e. cc), ((omega arith, omega arith), tt))

append-ne : (ds : List ℕ) (d : ℕ) → ds ++ d ∷ [] ≢ []
append-ne [] d e = cc
append-ne (x ∷ ds) d e = cc

digits-IsNumber : (k n : ℕ) → n ≤ k → IsNumber n (digits k n)
digits-IsNumber zero n h = one_digit n (omega arith)
digits-IsNumber (suc k) n h = elim (Bool-cases (ltb n 10)) [
  | inl small ↦
      subst (IsNumber n)
        (sym (ap (λ b. if b then (48 + n) ∷ [] else digits k (n / 10) ++ (48 + n % 10) ∷ []) small))
        (one_digit n (ltb→lt n 10 small))
  | inr large ↦
      let le = ltb→ge n 10 large in
      let (val, some', all) = digits-IsNumber k (n / 10) (omega arith) in
      let last : IsDigit (48 + n % 10) = (omega arith, omega arith) in
      let sum : n / 10 * 10 + (48 + n % 10 - 48) ≡ n = omega arith in
      subst (IsNumber n)
        (sym (ap (λ b. if b then (48 + n) ∷ [] else digits k (n / 10) ++ (48 + n % 10) ∷ []) large))
        (
          value-append 0 (digits k (n / 10)) (48 + n % 10) (n / 10) val last ∙ ap some sum,
          append-ne (digits k (n / 10)) (48 + n % 10),
          All-append IsDigit (digits k (n / 10)) ((48 + n % 10) ∷ []) all (last, tt),
        )
]

number_of_lem : (ds : List ℕ) → ds ≢ [] → number_of ds ≡ value 0 ds
number_of_lem [] h = absurd (h refl)
number_of_lem (d ∷ ds) h = refl

header_lem :
    (name val : List ℕ)
    → All IsNameCharacter name
    → IsTrimmed val
    → header_of (header_line (name, val)) ≡ some (name, val)
header_lem name val h w =
    let (left, right, there) = cut_at 58 name (32 ∷ val) (All_colon name h) in
    ap
      (λ b.
        if b
        then some
            (before 58 (header_line (name, val)), trim_left (behind 58 (header_line (name, val))))
        else none)
      there
    ∙ ap₂ (λ n v. some (n, v)) left (ap trim_left right ∙ trim_left_lem val w)
  where
    All_colon : (xs : List ℕ) → All IsNameCharacter xs → All (λ x. x ≢ 58) xs
    All_colon [] u = tt
    All_colon (x ∷ xs) u = (u.0.1, All_colon xs u.1)

status_lem :
    (version code text : List ℕ)
    → IsVersion version
    → All IsDigit code
    → status_of (status_line version code text)
      ≡ some (record { version = version; code = code; text = text })
unfolding starts_with
status_lem version code text (a, b, e, da, db) h =
    subst
      (λ v.
        status_of (status_line v code text)
        ≡ some (record { version = v; code = code; text = text }))
      (sym e)
      (let (left, right, there) = cut_at 32 code text (All_digit code h) in
        ap₂ (λ c t. some (record { version = a ∷ 46 ∷ b ∷ []; code = c; text = t })) left right)
  where
    All_digit : (xs : List ℕ) → All IsDigit xs → All (λ x. x ≢ 32) xs
    All_digit [] u = tt
    All_digit (x ∷ xs) u = ((λ q. (let low = u.0.0 in omega arith)), All_digit xs u.1)

is_ascii_lem : (s : List ℕ) → All IsAscii s → is_ascii s ≡ true
is_ascii_lem [] h = refl
is_ascii_lem (x ∷ xs) h = let rest = is_ascii_lem xs h.1 in ground (arith, h.0)

pub lossy-KeepsUtf8 : KeepsUtf8 plain lossy
lossy-KeepsUtf8 [] h = refl
lossy-KeepsUtf8 (x ∷ xs) h = elim (Bool-cases (ltb x 128)) [
  | inl small ↦
      let tail : is_ascii xs ≡ true = sym (ap (λ b. b && is_ascii xs) small) ∙ h in
      ap₂ ◌∷◌ (ap (λ b. if b then x else 63) small) (lossy-KeepsUtf8 xs tail)
  | inr large ↦ let wrong : false ≡ true = sym (ap (λ b. b && is_ascii xs) large) ∙ h in cc
]

pub plain-IsDocumented : IsDocumented plain status_of show_plain
plain-IsDocumented = record {
  ascii = is_ascii_lem;
  header = λ name val some' h t w. header_lem name val h w;
  status = λ version code text v some' h t. status_lem version code text v h;
  number = λ n h.
      (let (val, some', all) = digits-IsNumber n n (omega arith) in
        (number_of_lem (digits n n) some' ∙ val, some', all));
}
