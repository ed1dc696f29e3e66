-- ===== src/Http/Client/Lines.antt =====
-- A whole line before its reader.
use arrow_client.Base.{
  ℕ, suc, ◌+◌, ◌-◌, ◌≤◌, ◌≡◌, ◌≢◌, refl, ap, ap₂, ◌∙◌, true, false, some, List, [], ◌∷◌, ◌++◌, All,
  length, take, take_all, take-append_ge, take-append_le, arith,
}
use arrow_client.Base.Parsing.{ok}
use arrow_client.Base.Text.{starts_with}
use arrow_client.Http.LineReader
use arrow_client.Http.LineReader.{LineReader, find_from}
use arrow_client.Http.LineReader.Laws.{IsReading, seen, cut, add_lem}
use arrow_client.Http.LineReader.Search.{position}
use arrow_client.Http.Response.{crlf}

-- A character of a line, which `.` of an expression matches
abbrev pub IsInLine : ℕ → Type 0
IsInLine c = c ≢ 10

find_step :
    (sep : List ℕ) (c : ℕ) (s : List ℕ) (i : ℕ)
    → starts_with (c ∷ s) sep ≡ false
    → find_from sep (c ∷ s) i ≡ find_from sep s (i + 1)
unfolding find_from
find_step sep c s i e = rw e refl

find_hit :
    (sep : List ℕ) (c : ℕ) (s : List ℕ) (i : ℕ)
    → starts_with (c ∷ s) sep ≡ true
    → find_from sep (c ∷ s) i ≡ some i
unfolding find_from
find_hit sep c s i e = rw e refl

not_end : (c c' : ℕ) (s : List ℕ) → c' ≢ 10 → starts_with (c ∷ c' ∷ s) crlf ≡ false
unfolding starts_with
not_end c c' s h = ground arith

crlf_starts : (s : List ℕ) → starts_with (crlf ++ s) crlf ≡ true
unfolding starts_with
crlf_starts [] = refl
crlf_starts (x ∷ s) = refl

-- The first line end behind characters of a line is where the line ends.
line_end :
    (line rest : List ℕ) (i : ℕ)
    → All IsInLine line
    → find_from crlf (line ++ (crlf ++ rest)) i ≡ some (i + length line)
line_end [] rest i h = find_hit crlf 13 (10 ∷ rest) i (crlf_starts rest) ∙ ap some (omega arith)
line_end (c ∷ []) rest i h =
    find_step crlf c (crlf ++ rest) i (not_end c 13 (10 ∷ rest) (λ e. omega (arith, e)))
    ∙ line_end [] rest (i + 1) tt
    ∙ ap some (omega arith)
line_end (c ∷ c' ∷ line) rest i h =
    find_step crlf c (c' ∷ (line ++ (crlf ++ rest))) i (not_end c c' (line ++ (crlf ++ rest)) h.1.0)
    ∙ line_end (c' ∷ line) rest (i + 1) h.1
    ∙ ap some (omega arith)

-- A reader at the start of a line takes the line and its end.
pub add_whole_line :
    (r : LineReader) (line rest : List ℕ)
    → IsReading r
    → r.buffer ≡ []
    → r.separator ≡ crlf
    → All IsInLine line
    → length line + 2 ≤ r.max_len
    → LineReader.add r (line ++ (crlf ++ rest))
      ≡ ok (record r { buffer = line; complete = true }, length line + 2)
unfolding cut
add_whole_line r line rest w empty sep h fits =
    let k = r.max_len - (length line + 2) in
    let whole : r.max_len ≡ length line + suc (suc k) = omega arith in
    let behind : length line + suc (suc k) - length line ≡ suc (suc k) = omega arith in
    let first : take r.max_len (line ++ (crlf ++ rest)) ≡ line ++ (crlf ++ take k rest) =
      ap (λ n. take n (line ++ (crlf ++ rest))) whole
      ∙ take-append_ge (length line + suc (suc k)) line (crlf ++ rest) (omega arith)
      ∙ ap (λ n. line ++ take n (crlf ++ rest)) behind in
    let looked : seen r (line ++ (crlf ++ rest)) ≡ line ++ (crlf ++ take k rest) =
      ap (λ b. take r.max_len (b ++ (line ++ (crlf ++ rest)))) empty ∙ first in
    let found : position r.separator (seen r (line ++ (crlf ++ rest))) ≡ some (length line) =
      ap₂ position sep looked ∙ line_end line (take k rest) 0 h ∙ ap some (omega arith) in
    let cut_line : take (length line) (seen r (line ++ (crlf ++ rest))) ≡ line =
      ap (take (length line)) looked
      ∙ take-append_le (length line) line (crlf ++ take k rest) (omega arith)
      ∙ take_all (length line) line (omega arith) in
    let count : length line + length r.separator - length r.buffer ≡ length line + 2 =
      omega (arith, ap length sep, ap length empty) in
    add_lem r (line ++ (crlf ++ rest)) w
    ∙ ap (cut r (line ++ (crlf ++ rest))) found
    ∙ ap₂ (λ l n. ok (record r { buffer = l; complete = true }, n)) cut_line count
