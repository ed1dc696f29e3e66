-- ===== src/Http/Response/Chunks.antt =====
-- The response parser does not see where one chunk ends and the next begins.
use arrow_client.Base.{
  ℕ, zero, suc, ◌+◌, ◌≤◌, ◌<◌, ◌≡◌, refl, sym, ap, ◌∙◌, Bool, true, false, Option, List, [], ◌∷◌,
  ◌++◌, length, drop, length-append, length-drop, drop_all, drop-append_le, drop-append_ge,
  append-nil, arith, Bool-cases, inl, inr,
}
use arrow_client.Base.Parsing.{ok, err, panic, out_of_fuel, ◌>>=◌, bind_eq, bind_assoc}
use arrow_client.Http.Fields.{Outside}
use arrow_client.Http.Header.{StatusLine}
use arrow_client.Http.LineReader
use arrow_client.Http.LineReader.{LineReader}
use arrow_client.Http.LineReader.Chunks.{
  completes, continues, fails, shift, grown, add-Added, IsSound, add_whole, add_progress,
}
use arrow_client.Http.LineReader.Laws.{IsReading}
use arrow_client.Http.Response.{ResponseHandler, ResponseParser, after_line, process_body, add_loop}
use arrow_client.Http.Response.Loop.{
  IsIncremental, IsOpen, Result, resume, step, loop_reads, loop_body, after_partial, after-IsOpen,
  waiting, same_fuel, resume_same,
}

module _ (o : Outside) (status_captures : List ℕ → Option StatusLine) {S : Type 0}
    (handler : ResponseHandler S) where
  -- No bytes are left.
  resume_nil :
      (m : ℕ) (q : ResponseParser S × Bool) → resume o status_captures handler m [] q ≡ ok q
  unfolding add_loop
  resume_nil zero (p, true) = refl
  resume_nil (suc m) (p, true) = refl
  resume_nil m (p, false) = refl

  bind_nil :
      (m : ℕ) (r : Result o status_captures handler)
      → (r >>= resume o status_captures handler m []) ≡ r
  bind_nil m (ok q) = resume_nil m q
  bind_nil m err = refl
  bind_nil m panic = refl
  bind_nil m out_of_fuel = refl

  resume_append :
      (n k m : ℕ) (xs ys zs : List ℕ) (q : ResponseParser S × Bool)
      → add_loop o status_captures handler n zs q.0
        ≡ (add_loop o status_captures handler k xs q.0 >>= resume o status_captures handler m ys)
      → resume o status_captures handler n zs q
        ≡ (resume o status_captures handler k xs q >>= resume o status_captures handler m ys)
  resume_append n k m xs ys zs (p, true) e = e
  resume_append n k m xs ys zs (p, false) e = refl

  body_append :
      (m : ℕ) (xs : List ℕ) (y : ℕ) (ys : List ℕ) (p : ResponseParser S)
      → IsIncremental handler
      → p.header_parser.complete ≡ true
      → process_body o status_captures handler (xs ++ y ∷ ys) p ≡ (
          process_body o status_captures handler xs p
          >>= resume o status_captures handler (suc m) (y ∷ ys))
  unfolding process_body
  body_append m xs y ys p inc whole =
      let q = handler.body xs p.response_handler in
      let split = inc.body_append xs (y ∷ ys) p.response_handler in
      let f : S × Bool → Result o status_captures handler =
        λ t. ok (record p { response_handler = t.0 }, t.1) in
      elim (Bool-cases q.1) [
        | inl on ↦
            ap f split
            ∙ rw on (
                sym (
                  loop_body o status_captures handler m y ys (record p { response_handler = q.0 })
                    whole))
        | inr off ↦ ap f split ∙ rw off refl
      ]

  -- The rest of a chunk behind the line reader, for two ways to have come there
  rest_same :
      (n m b : ℕ) (bs : List ℕ) (k : ℕ) (all : List ℕ) (p : ResponseParser S)
      → IsReading p.line_reader
      → ((used : ℕ) → drop (k + used) all ≡ drop used (b ∷ bs))
      → length (b ∷ bs) ≤ suc n
      → length (b ∷ bs) ≤ suc m
      → (shift k (LineReader.add p.line_reader (b ∷ bs)) >>= step o status_captures handler n all p)
        ≡ (LineReader.add p.line_reader (b ∷ bs) >>= step o status_captures handler m (b ∷ bs) p)
  rest_same n m b bs k all p w same hn hm =
      bind_assoc (LineReader.add p.line_reader (b ∷ bs)) _ (step o status_captures handler n all p)
      ∙ bind_eq (LineReader.add p.line_reader (b ∷ bs)) _
          (step o status_captures handler m (b ∷ bs) p)
          (λ (a : LineReader × ℕ) e.
            (let (pos, within, sound) = add_progress p.line_reader a.0 b bs a.1 w e in
              let rest = drop a.1 (b ∷ bs) in
              let shorter = length-drop a.1 (b ∷ bs) in
              ap
                (λ bytes.
                  after_line o status_captures handler (record p { line_reader = a.0 })
                  >>= resume o status_captures handler n bytes)
                (same a.1)
              ∙ bind_eq (after_line o status_captures handler (record p { line_reader = a.0 }))
                  (resume o status_captures handler n rest)
                  (resume o status_captures handler m rest)
                  (λ q f. resume_same o status_captures handler n m rest q (
                    same_fuel o status_captures handler n m rest q.0 (omega arith) (omega arith) (
                      after-IsOpen o status_captures handler (record p { line_reader = a.0 }) q.0
                        q.1 sound f)))))

  -- The first chunk is a part of a line.
  part_append :
      (n k m b : ℕ) (bs : List ℕ) (y : ℕ) (ys : List ℕ) (p : ResponseParser S)
      → length ((b ∷ bs) ++ y ∷ ys) ≤ suc n
      → length (y ∷ ys) ≤ suc m
      → p.header_parser.complete ≡ false
      → IsReading (grown p.line_reader (b ∷ bs))
      → ((zs : List ℕ)
          → LineReader.add p.line_reader ((b ∷ bs) ++ zs)
            ≡ shift (length (b ∷ bs)) (LineReader.add (grown p.line_reader (b ∷ bs)) zs))
      → (LineReader.add p.line_reader ((b ∷ bs) ++ y ∷ ys)
          >>= step o status_captures handler n ((b ∷ bs) ++ y ∷ ys) p)
        ≡ (LineReader.add p.line_reader (b ∷ bs)
            >>= step o status_captures handler k (b ∷ bs) p
            >>= resume o status_captures handler (suc m) (y ∷ ys))
  part_append n k m b bs y ys p hn hm open' w h =
      let xs = b ∷ bs in
      let all = xs ++ y ∷ ys in
      let p' = record p { line_reader = grown p.line_reader xs } in
      let behind : (used : ℕ) → drop (length xs + used) all ≡ drop used (y ∷ ys) = λ used.
        drop-append_ge (length xs + used) xs (y ∷ ys) (omega arith)
        ∙ ap (λ i. drop i (y ∷ ys)) (omega arith) in
      let empty = drop_all (length xs) xs (omega arith) in
      ap (λ t. t >>= step o status_captures handler n all p) (h (y ∷ ys))
      ∙ rest_same n m y ys (length xs) all p' w behind (omega (arith, length-append bs (y ∷ ys))) hm
      ∙ sym (loop_reads o status_captures handler m y ys p' open')
      ∙ ap (λ t. t >>= resume o status_captures handler (suc m) (y ∷ ys))
          (sym (resume_nil k (p', true)))
      ∙ ap
          (λ bytes.
            resume o status_captures handler k bytes (p', true)
            >>= resume o status_captures handler (suc m) (y ∷ ys))
          (sym empty)
      ∙ ap
          (λ t.
            t
            >>= resume o status_captures handler k (drop (length xs) xs)
            >>= resume o status_captures handler (suc m) (y ∷ ys))
          (sym (after_partial o status_captures handler p' w.incomplete))
      ∙ ap
          (λ t.
            t
            >>= step o status_captures handler k xs p
            >>= resume o status_captures handler (suc m) (y ∷ ys))
          (sym (add_whole p.line_reader xs w h))

  -- The first chunk completes a line.
  line_append :
      (n k m b : ℕ) (bs ys : List ℕ) (p : ResponseParser S) (line : List ℕ) (used : ℕ)
      → 0 < length p.line_reader.separator
      → used ≤ length (b ∷ bs)
      → ((zs : List ℕ)
          → LineReader.add p.line_reader ((b ∷ bs) ++ zs)
            ≡ ok (record (p.line_reader) { buffer = line; complete = true }, used))
      → ((q : ResponseParser S)
          → IsOpen q
          → add_loop o status_captures handler n (drop used (b ∷ bs) ++ ys) q ≡ (
              add_loop o status_captures handler k (drop used (b ∷ bs)) q
              >>= resume o status_captures handler m ys))
      → (LineReader.add p.line_reader ((b ∷ bs) ++ ys)
          >>= step o status_captures handler n ((b ∷ bs) ++ ys) p)
        ≡ (LineReader.add p.line_reader (b ∷ bs)
            >>= step o status_captures handler k (b ∷ bs) p
            >>= resume o status_captures handler m ys)
  line_append n k m b bs ys p line used sep within h ih =
      let xs = b ∷ bs in
      let p' = record p {
        line_reader = record (p.line_reader) { buffer = line; complete = true };
      } in
      let alone = ap (LineReader.add p.line_reader) (sym (append-nil xs)) ∙ h [] in
      let sound : IsSound p'.line_reader = inr (refl, sep) in
      ap (λ t. t >>= step o status_captures handler n (xs ++ ys) p) (h ys)
      ∙ ap
          (λ bytes.
            after_line o status_captures handler p' >>= resume o status_captures handler n bytes)
          (drop-append_le used xs ys within)
      ∙ bind_eq (after_line o status_captures handler p')
          (resume o status_captures handler n (drop used xs ++ ys))
          (λ q.
            resume o status_captures handler k (drop used xs) q
            >>= resume o status_captures handler m ys)
          (λ q f.
            resume_append n k m (drop used xs) ys (drop used xs ++ ys) q
              (ih q.0 (after-IsOpen o status_captures handler p' q.0 q.1 sound f)))
      ∙ sym (
          bind_assoc (after_line o status_captures handler p')
            (resume o status_captures handler k (drop used xs))
            (resume o status_captures handler m ys))
      ∙ ap
          (λ t.
            t >>= step o status_captures handler k xs p >>= resume o status_captures handler m ys)
          (sym alone)

  fail_append :
      (n k m b : ℕ) (bs ys : List ℕ) (p : ResponseParser S)
      → ((zs : List ℕ) → LineReader.add p.line_reader ((b ∷ bs) ++ zs) ≡ err)
      → (LineReader.add p.line_reader ((b ∷ bs) ++ ys)
          >>= step o status_captures handler n ((b ∷ bs) ++ ys) p)
        ≡ (LineReader.add p.line_reader (b ∷ bs)
            >>= step o status_captures handler k (b ∷ bs) p
            >>= resume o status_captures handler m ys)
  fail_append n k m b bs ys p h =
      let alone = ap (LineReader.add p.line_reader) (sym (append-nil (b ∷ bs))) ∙ h [] in
      ap (λ t. t >>= step o status_captures handler n ((b ∷ bs) ++ ys) p) (h ys)
      ∙ ap
          (λ t.
            t
            >>= step o status_captures handler k (b ∷ bs) p
            >>= resume o status_captures handler m ys)
          (sym alone)

  -- The loop over two chunks is the loop over the second behind the loop over the first.
  pub add_loop-append :
      (n k m : ℕ) (xs ys : List ℕ) (p : ResponseParser S)
      → length (xs ++ ys) ≤ n
      → length xs ≤ k
      → length ys ≤ m
      → IsIncremental handler
      → IsOpen p
      → add_loop o status_captures handler n (xs ++ ys) p
        ≡ (add_loop o status_captures handler k xs p >>= resume o status_captures handler m ys)
  unfolding add_loop
  add_loop-append n k m xs [] p hn hk hm inc w =
      ap (λ bytes. add_loop o status_captures handler n bytes p) (append-nil xs)
      ∙ same_fuel o status_captures handler n k xs p (omega (arith, length-append {0} xs [])) hk w
      ∙ sym (bind_nil m (add_loop o status_captures handler k xs p))
  add_loop-append n zero m [] (y ∷ ys) p hn hk hm inc w =
      same_fuel o status_captures handler n m (y ∷ ys) p hn hm w
  add_loop-append n (suc k) m [] (y ∷ ys) p hn hk hm inc w =
      same_fuel o status_captures handler n m (y ∷ ys) p hn hm w
  add_loop-append zero k m (b ∷ bs) (y ∷ ys) p hn hk hm inc w = absurd (omega arith)
  add_loop-append (suc n) zero m (b ∷ bs) (y ∷ ys) p hn hk hm inc w = absurd (omega arith)
  add_loop-append (suc n) k zero (b ∷ bs) (y ∷ ys) p hn hk hm inc w = absurd (omega arith)
  add_loop-append (suc n) (suc k) (suc m) (b ∷ bs) (y ∷ ys) p hn hk hm inc w =
      elim (Bool-cases p.header_parser.complete) [
        | inl whole ↦
            loop_body o status_captures handler n b (bs ++ y ∷ ys) p whole
            ∙ body_append m (b ∷ bs) y ys p inc whole
            ∙ ap (λ t. t >>= resume o status_captures handler (suc m) (y ∷ ys))
                (sym (loop_body o status_captures handler k b bs p whole))
        | inr open' ↦
            let first : (LineReader.add p.line_reader ((b ∷ bs) ++ y ∷ ys)
                  >>= step o status_captures handler n ((b ∷ bs) ++ y ∷ ys) p)
                ≡ (LineReader.add p.line_reader (b ∷ bs)
                    >>= step o status_captures handler k (b ∷ bs) p
                    >>= resume o status_captures handler (suc m) (y ∷ ys)) =
              elim (add-Added p.line_reader (b ∷ bs)
                (waiting o status_captures handler p w open')) [
                  | completes line used pos within h ↦
                      let shorter = length-drop used (b ∷ bs) in
                      let sum = length-append (drop used (b ∷ bs)) (y ∷ ys) in
                      let whole_sum = length-append bs (y ∷ ys) in
                      line_append n k (suc m) b bs (y ∷ ys) p line used
                        (waiting o status_captures handler p w open').some_separator within h
                        (λ q v.
                          add_loop-append n k (suc m) (drop used (b ∷ bs)) (y ∷ ys) q (omega arith)
                            (omega arith) hm inc v)
                  | continues w' h ↦ part_append n k m b bs y ys p hn hm open' w' h
                  | fails h ↦ fail_append n k (suc m) b bs (y ∷ ys) p h
                ] in
            loop_reads o status_captures handler n b (bs ++ y ∷ ys) p open'
            ∙ first
            ∙ ap (λ t. t >>= resume o status_captures handler (suc m) (y ∷ ys))
                (sym (loop_reads o status_captures handler k b bs p open'))
      ]
