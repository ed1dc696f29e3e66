-- ===== src/Protocol/Parser/Frame.antt =====
-- Messages in the stream: where the parser finds the end of a message, however it arrives.
use mathlib.Core.List.{flatten}
use mathlib.Core.Path.{subst}
use native.Mathlib.Decide.{dec_lt}
use arrow_client.Base.{
  ℕ, ◌+◌, ◌-◌, ◌≤◌, ◌<◌, ◌≡◌, refl, sym, ap, ◌∙◌, inl, inr, true, some, List, [], ◌∷◌, ◌++◌, length,
  take, drop, length-append, length-take, take-append_le, take-append_ge, take_all, arith,
  append_assoc, append-nil, take-append-drop, map, ap₂,
}
use arrow_client.Base.Bytes.{from_u8}
use arrow_client.Base.Outcome.{Outcome, ok}
use arrow_client.Protocol.Message.{Header, header_size, from_bytes, protocol_version}
use arrow_client.Protocol.Parser.{Parser, is_complete, add}
use arrow_client.Protocol.Parser.Stream.{
  Holds, in_header, in_body, Added, refused, taken, add-Added, from_u8-append, from_bytes_cases,
}

-- One whole message as it stands in the stream.
pub record IsFrame (frame : List ℕ) (h : Header) : Type 0 where
  pub decoded : from_bytes (take header_size frame) ≡ ok h
  pub whole : length frame ≡ header_size + h.size

-- Two byte strings that share a header's worth of bytes have one header.
pub take_header :
    (s t u : List ℕ) → header_size ≤ length s → s ++ t ≡ u → take header_size s ≡ take header_size u
take_header s t u h e = sym (take-append_le header_size s t h) ∙ ap (take header_size) e

pub Holds-size :
    (p : Parser) (s frame : List ℕ) (h : Header)
    → Holds p s
    → header_size ≤ length s
    → IsFrame frame h
    → take header_size s ≡ take header_size frame
    → (p.header ≡ some h) × (p.buffer ≡ s) × (length s + p.expected ≡ length frame)
Holds-size p s frame h (in_header held parsed short zero) ge f e = absurd (omega arith)
Holds-size p s frame h (in_body h' held parsed decoded lacking enough) ge f e =
    ground (arith, decoded, f.decoded, ap from_bytes e)

-- The first byte of a message is the protocol version.
from_u8-frame : (frame : List ℕ) (h : Header) → IsFrame frame h → from_u8 frame ≡ protocol_version
from_u8-frame frame h f =
    let head = take header_size frame in
    let same : from_u8 head ≡ from_u8 frame =
      sym (
        from_u8-append head (drop header_size frame)
          (omega (arith, length-take header_size frame, f.whole)))
      ∙ ap from_u8 (take-append-drop header_size frame) in
    elim (from_bytes_cases head (omega (arith, length-take header_size frame, f.whole))) [
      | inl (version, e) ↦ sym same ∙ version
      | inr (version, e) ↦ cc f.decoded
    ]

Holds-complete :
    (p : Parser) (s : List ℕ)
    → Holds p s
    → is_complete p ≡ true
    → (header_size ≤ length s) × (p.expected ≡ 0)
Holds-complete p s (in_header held parsed short zero) c = absurd (ground arith)
Holds-complete p s (in_body h held parsed decoded lacking enough) c = ground arith

-- The parser holds the message `frame` whole, after a call that took `n` bytes.
pub record Completed (h : Header) (frame : List ℕ) (n : ℕ) (x : Parser × Outcome ℕ) : Type 0 where
  pub result : x.1 ≡ ok n
  pub header : x.0.header ≡ some h
  pub buffer : x.0.buffer ≡ frame
  pub expected : x.0.expected ≡ 0

module _ (p : Parser) (seen a rest : List ℕ) (h : Header) (f : IsFrame (seen ++ a) h) (n : ℕ) where
  -- A parser is not complete before the message is.
  too_early : n < length a → Holds p (seen ++ take n (a ++ rest)) → is_complete p ≡ true → ⊥
  too_early lt holds c =
      let got = seen ++ take n (a ++ rest) in
      let cut : take n (a ++ rest) ≡ take n a = take-append_le n a rest (omega arith) in
      let (enough, zero) = Holds-complete p got holds c in
      let whole : got ++ drop n a ≡ seen ++ a =
        append_assoc seen (take n (a ++ rest)) (drop n a)
        ∙ ap (◌++◌ seen) (ap (λ l. l ++ drop n a) cut ∙ take-append-drop n a) in
      let (_, _, total) =
        Holds-size p got (seen ++ a) h holds enough f
          (take_header got (drop n a) (seen ++ a) enough whole) in
      omega (
        arith,
        length-append seen (take n (a ++ rest)),
        length-append seen a,
        ap length cut,
        length-take n a,
      )

  -- Once it has all bytes of the message, it has its header and knows what is missing.
  at_end :
      length a ≤ n
      → Holds p (seen ++ take n (a ++ rest))
      → (p.header ≡ some h)
        × (p.buffer ≡ seen ++ take n (a ++ rest))
        × (length (seen ++ take n (a ++ rest)) + p.expected ≡ length (seen ++ a))
  at_end ge holds =
      let got = seen ++ take n (a ++ rest) in
      let more = take (n - length a) rest in
      let split : got ≡ (seen ++ a) ++ more =
        ap (◌++◌ seen) (take-append_ge n a rest ge) ∙ sym (append_assoc seen a more) in
      let enough : header_size ≤ length got =
        omega (arith, ap length split, length-append (seen ++ a) more, f.whole) in
      Holds-size p got (seen ++ a) h holds enough f (
        ap (take header_size) split
        ∙ take-append_le header_size (seen ++ a) more (omega (arith, f.whole)))

Added-frame :
    (seen a rest : List ℕ) (h : Header) (x : Parser × Outcome ℕ)
    → IsFrame (seen ++ a) h
    → Added seen (a ++ rest) x
    → Completed h (seen ++ a) (length a) x
Added-frame seen a rest h x f (refused e version short enough) = absurd (
    version (
      ap from_u8 (sym (append_assoc seen a rest))
      ∙ from_u8-append (seen ++ a) rest (omega (arith, f.whole))
      ∙ from_u8-frame (seen ++ a) h f))
Added-frame seen a rest h x f (taken {p = p} n e le holds complete) = elim (dec_lt n (length a)) [
  | yes lt ↦ absurd (too_early p seen a rest h f n lt holds (complete (omega (arith, lengths))))
  | no ge ↦
      let (parsed, held, total) = at_end p seen a rest h f n (omega arith) holds in
      let n_eq : n ≡ length a = omega (
        arith,
        lengths,
        length-append seen a,
        length-append seen (take n (a ++ rest)),
        length-take n (a ++ rest),
      ) in
      record {
        result = e ∙ ap ok n_eq;
        header = parsed;
        buffer =
            held
            ∙ ap (◌++◌ seen) (
                ap (λ k. take k (a ++ rest)) n_eq
                ∙ take-append_le (length a) a rest (omega arith)
                ∙ take_all (length a) a (omega arith));
        expected = omega (
          arith,
          length-append seen a,
          length-append seen (take n (a ++ rest)),
          length-take n (a ++ rest),
          lengths,
        );
      }
]
  where
    lengths : length (a ++ rest) ≡ length a + length rest
    lengths = length-append a rest

-- From a parser that holds the bytes `seen` of a message, one call of `add` on the other bytes of
-- the message, whatever follows them in the same chunk, takes exactly those bytes; the parser then
-- has the message's header, all its bytes, and none to expect.
pub add-frame :
    (p : Parser) (seen a rest : List ℕ) (h : Header)
    → Holds p seen
    → IsFrame (seen ++ a) h
    → Completed h (seen ++ a) (length a) (add p (a ++ rest))
add-frame p seen a rest h holds f =
    Added-frame seen a rest h (add p (a ++ rest)) f (add-Added p seen (a ++ rest) holds)

module _ (seen c more : List ℕ) (h : Header) (f : IsFrame (seen ++ (c ++ more)) h) where
  Added-part :
      (x : Parser × Outcome ℕ) → Added seen c x → (x.1 ≡ ok (length c)) × Holds x.0 (seen ++ c)
  Added-part x (refused e version short enough) = absurd (
      version (
        sym (from_u8-append (seen ++ c) more (omega arith))
        ∙ ap from_u8 (append_assoc seen c more)
        ∙ from_u8-frame (seen ++ (c ++ more)) h f))
  Added-part x (taken {p = p} n e le holds complete) = elim (dec_lt n (length c)) [
    | yes lt ↦
        let same : take n ((c ++ more) ++ []) ≡ take n c =
          ap (take n) (append-nil (c ++ more)) ∙ take-append_le n c more le in
        absurd (
          too_early p seen (c ++ more) [] h f n (omega (arith, length-append c more))
            (subst (λ l. Holds p (seen ++ l)) (sym same) holds) (complete lt))
    | no ge ↦
        let n_eq : n ≡ length c = omega arith in
        (
          e ∙ ap ok n_eq,
          subst (λ l. Holds p (seen ++ l))
              (ap (λ k. take k c) n_eq ∙ take_all (length c) c (omega arith)) holds,
        )
  ]

-- A stream that arrives in chunks, each offered once: what the calls return, and the last parser.
pub offer : Parser → List (List ℕ) → List (Outcome ℕ) × Parser
offer p [] = ([], p)
offer p (c ∷ cs) = let (p', r) = add p c in let (rs, q) = offer p' cs in (r ∷ rs, q)

-- However the rest of a message is cut into chunks, `add` takes every chunk whole, and the parser
-- ends with the message's header, its bytes, and none to expect.
pub offer-frame :
    (p : Parser) (seen : List ℕ) (chunks : List (List ℕ)) (h : Header)
    → Holds p seen
    → IsFrame (seen ++ flatten chunks) h
    → let (rs, q) = offer p chunks in
      (rs ≡ map (λ c. ok (length c)) chunks)
      × (q.header ≡ some h)
      × (q.buffer ≡ seen ++ flatten chunks)
      × (q.expected ≡ 0)
unfolding offer flatten
offer-frame p seen [] h holds f =
    let whole = append-nil seen in
    let (parsed, held, total) =
      Holds-size p seen (seen ++ []) h holds (omega (arith, ap length whole, f.whole)) f
        (ap (take header_size) (sym whole)) in
    (refl, parsed, held ∙ sym whole, omega (arith, ap length whole))
offer-frame p seen (c ∷ cs) h holds f =
    let (r, holds') = Added-part seen c (flatten cs) h f (add p c) (add-Added p seen c holds) in
    let assoc = append_assoc seen c (flatten cs) in
    let (rs, parsed, held, zero) =
      offer-frame (add p c).0 (seen ++ c) cs h holds' (subst (λ l. IsFrame l h) (sym assoc) f) in
    (ap₂ ◌∷◌ r rs, parsed, held ∙ assoc, zero)
