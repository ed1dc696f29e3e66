-- ===== src/Http/Client/Written.antt =====
-- The lines of a response that is written, as the parser reads them one by one.
use mathlib.Core.Path.{subst}
use arrow_client.Base.{
  ℕ, suc, ◌+◌, ◌-◌, ◌≤◌, ◌<◌, ◌≡◌, refl, sym, ap, ap₂, ◌∙◌, true, false, Option, List, [], ◌∷◌,
  ◌++◌, All, All-append, length, drop, length-append, drop-append_ge, append-nil, append_assoc,
  arith,
}
use arrow_client.Base.Parsing.{ok, ◌>>=◌}
use arrow_client.Base.Text.{codes}
use arrow_client.Http.Client.{show_headers}
use arrow_client.Http.Fields.{Header, Outside, add_field}
use arrow_client.Http.Header as Lines
use arrow_client.Http.Header.{
  ResponseHeader, StatusLine, HeaderParser, add_line, parse_header_line, parse_status_line,
}
use arrow_client.Http.LineReader
use arrow_client.Http.LineReader.{LineReader, find_from}
use arrow_client.Http.LineReader.Laws.{IsReading}
use arrow_client.Http.Response.{
  ResponseHandler, ResponseParser, process_header_line, after_line, add_loop, crlf,
}
use arrow_client.Http.Response.Loop.{resume, step, loop_reads}
use arrow_client.Http.Client.Lines.{IsInLine, add_whole_line}
use arrow_client.Http.Client.Documented.{
  IsAscii, IsDigit, IsNameCharacter, IsTextCharacter, header_line, status_line, IsDocumented,
  IsWritable, IsSendable,
}

module _ {A : Type 0} (P Q : A → Type 0) (weaker : (a : A) → P a → Q a) where
  All-weaker : (xs : List A) → All P xs → All Q xs
  All-weaker [] h = tt
  All-weaker (x ∷ xs) h = (weaker x h.0, All-weaker xs h.1)

status_All :
    (P : ℕ → Type 0) (version code text : List ℕ)
    → All P version
    → All P code
    → All P text
    → All P (codes "HTTP/")
    → P 32
    → All P (status_line version code text)
status_All P version code text hv hc ht hh h32 =
    All-append P (codes "HTTP/") (version ++ (codes " " ++ (code ++ (codes " " ++ text)))) hh (
      All-append P version (codes " " ++ (code ++ (codes " " ++ text))) hv
        (h32, All-append P code (codes " " ++ text) hc (h32, ht)))

line_of_header :
    (h : Header) → IsWritable h → All IsInLine (header_line h) × All IsAscii (header_line h)
line_of_header (name, val) w = (
  All-append IsInLine name (codes ": " ++ val)
      (All-weaker IsNameCharacter IsInLine (λ c h. h.2) name w.1)
      (
        (λ e. omega (arith, e)),
        ((λ e. omega (arith, e)), All-weaker IsTextCharacter IsInLine (λ c h. h.0) val w.2),
      ),
  All-append IsAscii name (codes ": " ++ val)
      (All-weaker IsNameCharacter IsAscii (λ c h. h.3) name w.1)
      (omega arith, (omega arith, All-weaker IsTextCharacter IsAscii (λ c h. h.1) val w.2)),
)

-- The parser at the start of a line
abbrev pub at_line : {S : Type 0} → HeaderParser → S → ResponseParser S
at_line hp s = record {
  line_reader = LineReader.new 4096 crlf;
  header_parser = hp;
  response_handler = s;
}

-- The parser with a whole line
abbrev pub with_line : {S : Type 0} → List ℕ → HeaderParser → S → ResponseParser S
with_line line hp s = record (at_line hp s) {
  line_reader = record (LineReader.new 4096 crlf) { buffer = line; complete = true };
}

pub new-IsReading : IsReading (LineReader.new 4096 crlf)
unfolding find_from
new-IsReading = record {
  incomplete = refl;
  within = omega arith;
  absent = refl;
  some_separator = omega arith;
}

-- Headers behind those of a parser
abbrev pub with_headers : HeaderParser → List Header → HeaderParser
with_headers hp hs = record hp {
  header = record (hp.header) { headers = hp.header.headers ++ hs };
  lines = hp.lines + length hs;
}

pub length-show_headers : (hs : List Header) → length hs ≤ length (show_headers hs)
unfolding show_headers
length-show_headers [] = omega arith
length-show_headers ((name, val) ∷ hs) = omega (
  arith,
  length-append name (codes ": " ++ (val ++ (crlf ++ show_headers hs))),
  length-append val (crlf ++ show_headers hs),
  length-show_headers hs,
)

shown :
    (h : Header) (hs : List Header) (rest : List ℕ)
    → show_headers (h ∷ hs) ++ rest ≡ header_line h ++ (crlf ++ (show_headers hs ++ rest))
unfolding show_headers
shown h hs rest = simp append_assoc refl

module _ (o : Outside) (status_captures : List ℕ → Option StatusLine) (show_i32 : ℕ → List ℕ)
    (doc : IsDocumented o status_captures show_i32) where
  header_added :
      (h : Header) (hp : HeaderParser)
      → IsWritable h
      → 0 < hp.lines
      → hp.lines < hp.max_lines
      → add_line o status_captures (header_line h) hp ≡ ok (with_headers hp (h ∷ []))
  unfolding add_line parse_header_line add_field
  header_added ([], val) hp w some_line few = absurd (w.0 refl)
  header_added (c ∷ name, val) hp w some_line few =
      let caps = doc.header (c ∷ name) val w.0 w.1 w.2 w.3 in ground (arith, caps, some_line, few)

  module _ {S : Type 0} (handler : ResponseHandler S) where
    -- A round of the loop that reads a line
    pub round :
        (n : ℕ) (line rest : List ℕ) (hp hp' : HeaderParser) (s s' : S)
        → All IsInLine line
        → length line + 2 ≤ 4096
        → hp.complete ≡ false
        → after_line o status_captures handler (with_line line hp s) ≡ ok (at_line hp' s', true)
        → add_loop o status_captures handler (suc n) (line ++ (crlf ++ rest)) (at_line hp s)
          ≡ add_loop o status_captures handler n rest (at_line hp' s')
    round n line rest hp hp' s s' h fits open' e =
        reads line
        ∙ ap (λ t. t >>= step o status_captures handler n (line ++ (crlf ++ rest)) (at_line hp s))
            (add_whole_line (LineReader.new 4096 crlf) line rest new-IsReading refl refl h fits)
        ∙ ap
            (λ t.
              t
              >>= resume o status_captures handler n
                  (drop (length line + 2) (line ++ (crlf ++ rest))))
            e
        ∙ ap (λ bytes. add_loop o status_captures handler n bytes (at_line hp' s')) behind
      where
        reads :
            (l : List ℕ)
            → add_loop o status_captures handler (suc n) (l ++ (crlf ++ rest)) (at_line hp s) ≡ (
                LineReader.add (LineReader.new 4096 crlf) (l ++ (crlf ++ rest))
                >>= step o status_captures handler n (l ++ (crlf ++ rest)) (at_line hp s))
        reads [] = loop_reads o status_captures handler n 13 (10 ∷ rest) (at_line hp s) open'
        reads (c ∷ l) =
            loop_reads o status_captures handler n c (l ++ (crlf ++ rest)) (at_line hp s) open'

        behind : drop (length line + 2) (line ++ (crlf ++ rest)) ≡ rest
        behind =
            let two : length line + 2 - length line ≡ 2 = omega arith in
            drop-append_ge (length line + 2) line (crlf ++ rest) (omega arith)
            ∙ ap (λ k. drop k (crlf ++ rest)) two

    pub after_header :
        (line : List ℕ) (hp hp' : HeaderParser) (s : S)
        → All IsAscii line
        → add_line o status_captures line hp ≡ ok hp'
        → hp'.complete ≡ false
        → after_line o status_captures handler (with_line line hp s) ≡ ok (at_line hp' s, true)
    unfolding after_line process_header_line
    after_header line hp hp' s ascii added open' = ground (arith, doc.ascii line ascii)

    -- The headers are read one by one.
    pub read_headers :
        (hs : List Header) (n : ℕ) (rest : List ℕ) (hp : HeaderParser) (s : S)
        → All IsWritable hs
        → 0 < hp.lines
        → hp.lines + length hs ≤ hp.max_lines
        → hp.complete ≡ false
        → add_loop o status_captures handler
            (length hs + n)
            (show_headers hs ++ rest)
            (at_line hp s)
          ≡ add_loop o status_captures handler n rest (at_line (with_headers hp hs) s)
    unfolding show_headers
    read_headers [] n rest hp s w some_line few open' =
        let none_left : 0 + n ≡ n = omega arith in
        let same_lines : hp.lines ≡ hp.lines + 0 = omega arith in
        ap₂ (λ k (hp' : HeaderParser). add_loop o status_captures handler k rest (at_line hp' s))
          none_left
          (ap₂ (λ hs l. record hp { header = record (hp.header) { headers = hs }; lines = l })
            (sym (append-nil hp.header.headers)) same_lines)
    read_headers (h ∷ hs) n rest hp s w some_line few open' =
        let hp' = with_headers hp (h ∷ []) in
        let (in_line, ascii) = line_of_header h w.0 in
        let added = header_added h hp w.0 some_line (omega arith) in
        let size = length-append (h.0) (codes ": " ++ (h.1)) in
        let one : suc (length hs) + n ≡ suc (length hs + n) = omega arith in
        let count : hp.lines + 1 + length hs ≡ hp.lines + suc (length hs) = omega arith in
        ap₂ (λ k bytes. add_loop o status_captures handler k bytes (at_line hp s)) one
          (shown h hs rest)
        ∙ round (length hs + n) (header_line h) (show_headers hs ++ rest) hp hp' s s in_line
            (omega arith) open' (after_header (header_line h) hp hp' s ascii added open')
        ∙ read_headers hs n rest hp' s w.1 (omega arith) (omega arith) open'
        ∙ ap₂
            (λ hs l.
              add_loop o status_captures handler n rest
                (at_line (record hp { header = record (hp.header) { headers = hs }; lines = l }) s))
            (append_assoc hp.header.headers (h ∷ []) hs) count

  -- The first line
  pub status_added :
      (h : ResponseHeader)
      → IsSendable show_i32 h
      → add_line o status_captures
          (status_line h.version (show_i32 h.code) h.text)
          (Lines.new_parser 256)
        ≡ ok (record (Lines.new_parser 256) {
          header = record Lines.new { code = h.code; text = h.text; version = h.version };
          lines = 1;
        })
  unfolding add_line parse_status_line
  status_added h w =
      let (read, some_digits, digits) = doc.number h.code w.code in
      let caps =
        doc.status h.version (show_i32 h.code) h.text w.version some_digits digits w.text in
      ground (arith, caps, read)

  pub line_of_status :
      (h : ResponseHeader)
      → IsSendable show_i32 h
      → All IsInLine (status_line h.version (show_i32 h.code) h.text)
        × All IsAscii (status_line h.version (show_i32 h.code) h.text)
  line_of_status h w =
      let (a, b, e, da, db) = w.version in
      let (_, _, digits) = doc.number h.code w.code in
      let version_in : All IsInLine h.version =
        subst (All IsInLine) (sym e)
          ((λ q. omega (arith, q)), ((λ q. omega (arith, q)), ((λ q. omega (arith, q)), tt))) in
      let version_ascii : All IsAscii h.version =
        subst (All IsAscii) (sym e) (omega arith, (omega arith, (omega arith, tt))) in
      (
        status_All IsInLine h.version (show_i32 h.code) h.text version_in
            (All-weaker IsDigit IsInLine (λ c d q. omega (arith, q, d.0, d.1)) (show_i32 h.code)
              digits)
            (All-weaker IsTextCharacter IsInLine (λ c t. t.0) h.text w.text)
            (
              (λ q. omega (arith, q)),
              (
                (λ q. omega (arith, q)),
                ((λ q. omega (arith, q)), ((λ q. omega (arith, q)), ((λ q. omega (arith, q)), tt))),
              ),
            )
            (λ q. omega (arith, q)),
        status_All IsAscii h.version (show_i32 h.code) h.text version_ascii
            (All-weaker IsDigit IsAscii (λ c d. omega (arith, d.1)) (show_i32 h.code) digits)
            (All-weaker IsTextCharacter IsAscii (λ c t. t.1) h.text w.text)
            (omega arith, (omega arith, (omega arith, (omega arith, (omega arith, tt)))))
            (omega arith),
      )
