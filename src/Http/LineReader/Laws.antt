-- ===== src/Http/LineReader/Laws.antt =====
-- What the line reader does: the bytes since the last line are cut at the first separator within the
-- limit, however they come.
use arrow_client.Base.{
  ℕ, ◌+◌, ◌-◌, ◌≤◌, ◌<◌, ◌≡◌, refl, sym, ap, ap₂, ◌∙◌, Bool, true, false, Option, none, some, List,
  ◌++◌, length, take, drop, length-append, take_all, take-append_ge, drop-append_le, if◌then◌else◌,
  ltb, ge→ltb, arith, tests, Bool-cases, inl, inr,
}
use arrow_client.Base.Parsing.{Parsing, ok, err}
use arrow_client.Http.LineReader.{LineReader, clear, find_from, added, add}
use arrow_client.Http.LineReader.Search.{position, find_from-skip}

-- The reader waits for the rest of a line.
pub record IsReading (r : LineReader) : Type 0 where
  pub incomplete : r.complete ≡ false
  pub within : length r.buffer ≤ r.max_len
  pub absent : position r.separator r.buffer ≡ none
  pub some_separator : 0 < length r.separator

pub clear-IsReading : (r : LineReader) → 0 < length r.separator → IsReading (clear r)
unfolding find_from
clear-IsReading r h = record {
  incomplete = refl;
  within = omega arith;
  absent = refl;
  some_separator = h;
}

-- The bytes of the line that are looked at, when others come
abbrev pub seen : LineReader → List ℕ → List ℕ
seen r bytes = take r.max_len (r.buffer ++ bytes)

-- The result for the place of the separator in the bytes that are looked at
unfoldable pub cut : LineReader → List ℕ → Option ℕ → Parsing (LineReader × ℕ)
cut r bytes (some pos) = ok (
  record r { buffer = take pos (seen r bytes); complete = true },
  pos + length r.separator - length r.buffer,
)
cut r bytes none =
    if ltb r.max_len (length r.buffer + length bytes)
    then err
    else ok (record r { buffer = r.buffer ++ bytes }, length bytes)

start_skips :
    (r : LineReader) (more : List ℕ)
    → position r.separator r.buffer ≡ none
    → let start =
        if ltb (length r.separator) (length r.buffer)
        then length r.buffer - length r.separator
        else 0 in
      find_from r.separator (drop start (r.buffer ++ more)) start
      ≡ position r.separator (r.buffer ++ more)
start_skips r more absent = elim (Bool-cases (ltb (length r.separator) (length r.buffer))) [
  | inl past ↦
      let k = length r.buffer - length r.separator in
      let fits : k + length r.separator ≤ length r.buffer = omega (tests, past) in
      rw past (
        ap (λ s. find_from r.separator s k) (drop-append_le k r.buffer more (omega arith))
        ∙ ap (find_from r.separator (drop k r.buffer ++ more)) (omega arith)
        ∙ sym (find_from-skip r.separator k r.buffer more 0 fits absent))
  | inr near ↦ rw near refl
]

taken :
    (r : LineReader) (bytes : List ℕ)
    → length r.buffer ≤ r.max_len
    → let available = r.max_len - length r.buffer in
      r.buffer ++ take (if ltb (length bytes) available then length bytes else available) bytes
      ≡ seen r bytes
taken r bytes within =
    let available = r.max_len - length r.buffer in
    elim (Bool-cases (ltb (length bytes) available)) [
      | inl all ↦ rw all (
          ap (r.buffer ++◌) (
            take_all (length bytes) bytes (omega arith)
            ∙ sym (take_all available bytes (omega (tests, all))))
          ∙ sym (take-append_ge r.max_len r.buffer bytes within))
      | inr cut' ↦ rw cut' (sym (take-append_ge r.max_len r.buffer bytes within))
    ]

short_of :
    (r : LineReader) (bytes : List ℕ)
    → length r.buffer ≤ r.max_len
    → let available = r.max_len - length r.buffer in
      ltb (if ltb (length bytes) available then length bytes else available) (length bytes)
      ≡ ltb r.max_len (length r.buffer + length bytes)
short_of r bytes within = ground arith

short_all :
    (r : LineReader) (bytes : List ℕ)
    → length r.buffer ≤ r.max_len
    → let available = r.max_len - length r.buffer in
      ltb r.max_len (length r.buffer + length bytes) ≡ false
      → (if ltb (length bytes) available then length bytes else available) ≡ length bytes
short_all r bytes within all = ground arith

-- What the search finds decides.
added_lem :
    (r : LineReader) (bytes buffer : List ℕ) (consume : ℕ) (short : Bool) (found : Option ℕ)
    → buffer ≡ seen r bytes
    → short ≡ ltb r.max_len (length r.buffer + length bytes)
    → (short ≡ false → consume ≡ length bytes)
    → added (record r { buffer = buffer }) (length r.buffer) consume short found ≡ cut r bytes found
unfolding added cut
added_lem r bytes buffer consume short (some pos) b s c =
    ap
      (λ bs. ok (
        record r { buffer = take pos bs; complete = true },
        pos + length r.separator - length r.buffer,
      ))
      b
added_lem r bytes buffer consume true none b s c = rw (sym s) refl
added_lem r bytes buffer consume false none b s c =
    let whole =
      take_all r.max_len (r.buffer ++ bytes) (omega (tests, length-append r.buffer bytes, sym s)) in
    rw (sym s) (ap₂ (λ bs n. ok (record r { buffer = bs }, n)) (b ∙ whole) (c refl))

-- A reader that waits has room.
add_open :
    (r : LineReader) (bytes : List ℕ)
    → IsReading r
    → let available = r.max_len - length r.buffer in
      let consume = if ltb (length bytes) available then length bytes else available in
      let start =
        if ltb (length r.separator) (length r.buffer)
        then length r.buffer - length r.separator
        else 0 in
      let buffer = r.buffer ++ take consume bytes in
      add r bytes
      ≡ added
          (record r { buffer = buffer })
          (length r.buffer)
          consume
          (ltb consume (length bytes))
          (find_from r.separator (drop start buffer) start)
unfolding add
add_open r bytes w = simp w.incomplete (simp (ge→ltb r.max_len (length r.buffer) w.within) refl)

-- `add` of a reader that waits for more of a line is the cut at the first separator of its bytes and
-- those that come, as far as the length of a line allows.
pub add_lem :
    (r : LineReader) (bytes : List ℕ)
    → IsReading r
    → add r bytes ≡ cut r bytes (position r.separator (seen r bytes))
add_lem r bytes w =
    let available = r.max_len - length r.buffer in
    let consume = if ltb (length bytes) available then length bytes else available in
    let fill = taken r bytes w.within in
    add_open r bytes w
    ∙ added_lem r bytes (r.buffer ++ take consume bytes) consume (ltb consume (length bytes)) _ fill
        (short_of r bytes w.within)
        (λ all. short_all r bytes w.within (sym (short_of r bytes w.within) ∙ all))
    ∙ ap (cut r bytes)
        (start_skips r (take consume bytes) w.absent ∙ ap (position r.separator) fill)
