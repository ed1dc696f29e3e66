-- ===== src/Http/Plain.antt =====
-- Plain readings of what the parsers of src/net/http.rs take from outside, for lines of ASCII.
pub mod Documented
use arrow_client.Base.{
  ℕ, zero, suc, ◌+◌, ◌-◌, ◌*◌, ◌/◌, ◌%◌, Bool, true, false, ◌&&◌, Option, none, some, List, [], ◌∷◌,
  ◌++◌, leb, ltb, ◌==◌, if◌then◌else◌, take, drop,
}
use arrow_client.Base.Text.{codes, starts_with}
use arrow_client.Http.Fields.{Header, Outside}
use arrow_client.Http.Header.{StatusLine}

-- The part of a text before a character, and the part behind it
abbrev pub before : ℕ → List ℕ → List ℕ
before c [] = []
before c (x ∷ xs) = let rest = before c xs in if x == c then [] else x ∷ rest

abbrev pub behind : ℕ → List ℕ → List ℕ
behind c [] = []
behind c (x ∷ xs) = let rest = behind c xs in if x == c then xs else rest

abbrev pub has : ℕ → List ℕ → Bool
has c [] = false
has c (x ∷ xs) = let rest = has c xs in if x == c then true else rest

abbrev pub trim_left : List ℕ → List ℕ
trim_left [] = []
trim_left (x ∷ xs) = let rest = trim_left xs in if leb x 32 then rest else x ∷ xs

abbrev pub to_lower : List ℕ → List ℕ
to_lower [] = []
to_lower (x ∷ xs) = (if leb 65 x && leb x 90 then x + 32 else x) ∷ to_lower xs

-- The number of a text of digits, behind others
abbrev pub value : ℕ → List ℕ → Option ℕ
value n [] = some n
value n (d ∷ ds) =
    let rest = value (n * 10 + (d - 48)) ds in if leb 48 d && leb d 57 then rest else none

abbrev pub number_of : List ℕ → Option ℕ
number_of [] = none
number_of (d ∷ ds) = value 0 (d ∷ ds)

-- The digits of a number, of which there are at most so many
abbrev pub digits : ℕ → ℕ → List ℕ
digits zero n = (48 + n) ∷ []
digits (suc k) n =
    let rest = digits k (n / 10) in if ltb n 10 then (48 + n) ∷ [] else rest ++ (48 + n % 10) ∷ []

abbrev pub header_of : List ℕ → Option Header
header_of line = if has 58 line then some (before 58 line, trim_left (behind 58 line)) else none

abbrev pub cont_of : List ℕ → Option (List ℕ)
cont_of line = if starts_with line (codes " ") then some (trim_left line) else none

abbrev pub is_ascii : List ℕ → Bool
is_ascii [] = true
is_ascii (x ∷ xs) = ltb x 128 && is_ascii xs

-- A question mark for each byte that is not ASCII
abbrev pub lossy : List ℕ → List ℕ
lossy [] = []
lossy (x ∷ xs) = (if ltb x 128 then x else 63) ∷ lossy xs

abbrev pub plain : Outside
plain = record {
  is_utf8 = is_ascii;
  to_lowercase = to_lower;
  i32_from_str = number_of;
  header_captures = header_of;
  cont_captures = cont_of;
}

-- `HTTP/d.d code text`
abbrev pub status_of : List ℕ → Option StatusLine
status_of line =
    if starts_with line (codes "HTTP/")
    then some (record {
      version = take 3 (drop 5 line);
      code = before 32 (drop 9 line);
      text = behind 32 (drop 9 line);
    })
    else none

-- The decimal digits of a number
abbrev pub show_plain : ℕ → List ℕ
show_plain n = digits n n
