-- ===== src/Protocol/Parser/Stream.antt =====
-- The parser against the stream: its state is a function of the bytes that it took in.
use arrow_client.Base.{
  ℕ, ◌+◌, ◌-◌, ◌≤◌, ◌<◌, ◌≡◌, ◌≢◌, refl, sym, ap, ◌∙◌, ◌⊎◌, inl, inr, Bool-cases, true, none, some,
  List, [], ◌∷◌, ◌++◌, length, take, drop, length-append, length-take, length-drop, take-append_le,
  take_all, ==→eq, ◌==◌, arith, append_assoc, take-append-drop, take-add,
}
use mathlib.Core.Path.{subst}
use native.Mathlib.Decide.{dec_lt}
use arrow_client.Base.Bytes.{from_u8, sub_usize}
use arrow_client.Base.Outcome.{Outcome, ok, err, unsupported_protocol_version}
use arrow_client.Protocol.Message.{Header, header_size, from_bytes, protocol_version, read_fields}
use arrow_client.Protocol.Parser.{
  Parser, is_complete, clip, read_header, read_body, add, parse_header,
}

-- What a parser holds that took in the bytes `seen` of one message: all of them, the header as soon
-- as they are enough for one, and the number of bytes that the body still lacks.
pub data Holds (p : Parser) (seen : List ℕ) : Type 0 where
  in_header :
      p.buffer ≡ seen → p.header ≡ none → length seen < header_size → p.expected ≡ 0 → Holds p seen
  in_body :
      (h : Header)
      → p.buffer ≡ seen
      → p.header ≡ some h
      → from_bytes (take header_size seen) ≡ ok h
      → length seen + p.expected ≡ header_size + h.size
      → header_size ≤ length seen
      → Holds p seen

-- What one call of `add` may come to on `input`: it refuses a header of another protocol version,
-- or it takes a prefix of the input, all of it unless the message is complete.
pub data Added (seen input : List ℕ) : Parser × Outcome ℕ → Type 0 where
  refused :
      {p : Parser} {r : Outcome ℕ}
      → r ≡ err unsupported_protocol_version
      → from_u8 (seen ++ input) ≢ protocol_version
      → length seen < header_size
      → header_size ≤ length (seen ++ input)
      → Added seen input (p, r)
  taken :
      {p : Parser} {r : Outcome ℕ} (n : ℕ)
      → r ≡ ok n
      → n ≤ length input
      → Holds p (seen ++ take n input)
      → (n < length input → is_complete p ≡ true)
      → Added seen input (p, r)

module _ (p : Parser) (seen : List ℕ) (h : Header) (input : List ℕ) (held : p.buffer ≡ seen)
    (parsed : p.header ≡ some h) (decoded : from_bytes (take header_size seen) ≡ ok h)
    (lacking : length seen + p.expected ≡ header_size + h.size)
    (enough : header_size ≤ length seen) where
  read_body_lem :
      let (p', n) = read_body p input in
      (n ≤ length input)
      × Holds p' (seen ++ take n input)
      × (n < length input → is_complete p' ≡ true)
  unfolding read_body
  read_body_lem =
      let n = clip p.expected input in
      (
        ground arith,
        in_body h (rw held) parsed
            (ap from_bytes (take-append_le header_size seen (take n input) enough) ∙ decoded)
            (ground (arith, length-append seen (take n input), length-take n input))
            (omega (arith, length-append seen (take n input))),
        λ lt. rw parsed (ground arith),
      )

pub from_bytes_cases :
    (s : List ℕ)
    → length s ≡ header_size
    → ((from_u8 s ≡ protocol_version) × (from_bytes s ≡ ok (read_fields s)))
      ⊎ ((from_u8 s ≢ protocol_version) × (from_bytes s ≡ err unsupported_protocol_version))
unfolding from_bytes
from_bytes_cases s e = elim (Bool-cases (from_u8 s == protocol_version)) [
  | inl v ↦ inl (==→eq _ _ v, rw v (ground arith))
  | inr v ↦ inr (λ q. ground arith, rw v (ground arith))
]

-- The three ways through `add`, as equations.
module _ (p : Parser) (input : List ℕ) where
  add_body :
      (h : Header)
      → p.header ≡ some h
      → add p input ≡ ((read_body p input).0, ok (0 + (read_body p input).1))
  unfolding add
  add_body h parsed = ground arith

  add_short :
      p.header ≡ none
      → length p.buffer + length input < header_size
      → add p input
        ≡ (record p { buffer = p.buffer ++ take (length input) input }, ok (length input))
  unfolding add read_header
  add_short parsed lt =
      ground (
        arith,
        length-append p.buffer (take (length input) input),
        length-take (length input) input,
      )

  module _ (parsed : p.header ≡ none) (short : length p.buffer < header_size)
      (whole : header_size ≤ length p.buffer + length input) where
    abbrev rest_of_header : ℕ
    rest_of_header = header_size - length p.buffer

    abbrev header_bytes : List ℕ
    header_bytes = p.buffer ++ take rest_of_header input

    length-header_bytes : length header_bytes ≡ header_size
    length-header_bytes = omega (
      arith,
      length-append p.buffer (take rest_of_header input),
      length-take rest_of_header input,
    )

    read_header_lem :
        read_header p input
        ≡ parse_header (record p { buffer = header_bytes }) rest_of_header (from_bytes header_bytes)
    unfolding read_header
    read_header_lem =
        let c : clip (sub_usize header_size (length p.buffer)) input ≡ rest_of_header =
          ground arith in
        rw c (rw length-header_bytes)

    add_refused :
        from_bytes header_bytes ≡ err unsupported_protocol_version
        → add p input ≡ (record p { buffer = header_bytes }, err unsupported_protocol_version)
    unfolding add
    add_refused e = ground (arith, read_header_lem)

    add_parsed :
        (h : Header)
        → from_bytes header_bytes ≡ ok h
        → let q = record p { header = some h; buffer = header_bytes; expected = h.size } in
          let (q', n) = read_body q (drop rest_of_header input) in
          add p input ≡ (q', ok (rest_of_header + n))
    unfolding add
    add_parsed h e = ground (arith, read_header_lem)

pub from_u8-append : (s t : List ℕ) → 0 < length s → from_u8 (s ++ t) ≡ from_u8 s
from_u8-append [] t h = absurd (omega arith)
from_u8-append (x ∷ s) t h = refl

header_done :
    (p : Parser) (input : List ℕ)
    → p.header ≡ none
    → length p.buffer < header_size
    → header_size ≤ length p.buffer + length input
    → Added p.buffer input (add p input)
header_done p input parsed short whole =
    let k = header_size - length p.buffer in
    let bytes = p.buffer ++ take k input in
    let size = length-header_bytes p input parsed short whole in
    let total = length-append p.buffer input in
    elim (from_bytes_cases bytes size) [
      | inl (version, e) ↦
          let q : Parser = record {
            header = some (read_fields bytes);
            buffer = bytes;
            expected = (read_fields bytes).size;
          } in
          let (le, holds, complete) =
            read_body_lem q bytes (read_fields bytes) (drop k input) refl refl
              (ap from_bytes (take_all header_size bytes (omega arith)) ∙ e) (omega arith)
              (omega arith) in
          rw (add_parsed p input parsed short whole (read_fields bytes) e) (
            taken (k + (read_body q (drop k input)).1) refl (omega (arith, length-drop k input))
              (subst (Holds (read_body q (drop k input)).0)
                (append_assoc p.buffer (take k input)
                    (take (read_body q (drop k input)).1 (drop k input))
                  ∙ ap (◌++◌ p.buffer) (sym (take-add k (read_body q (drop k input)).1 input)))
                holds)
              (λ lt. complete (omega (arith, length-drop k input))))
      | inr (version, e) ↦ rw (add_refused p input parsed short whole e) (
          refused refl
            (λ same. version (
              sym (from_u8-append bytes (drop k input) (omega arith))
              ∙ ap from_u8 (
                  append_assoc p.buffer (take k input) (drop k input)
                  ∙ ap (◌++◌ p.buffer) (take-append-drop k input))
              ∙ same))
            short (omega arith))
    ]

-- From a parser that holds `seen`, one call of `add` either refuses a foreign protocol version or
-- takes a prefix of its input; the parser then holds the bytes of `seen` and that prefix, and bytes
-- are left over only if the message is complete.
pub add-Added : (p : Parser) (seen input : List ℕ) → Holds p seen → Added seen input (add p input)
add-Added p seen input (in_body h held parsed decoded lacking enough) =
    let (le, holds, complete) = read_body_lem p seen h input held parsed decoded lacking enough in
    rw (add_body p input h parsed)
      (taken (read_body p input).1 (ap ok (omega arith)) le holds complete)
add-Added p seen input (in_header held parsed short zero) =
    rw (← held) (elim (dec_lt (length p.buffer + length input) header_size) [
      | yes lt ↦ rw (add_short p input parsed lt) (
          taken (length input) refl (omega arith)
            (in_header refl parsed
              (omega (
                arith,
                length-append p.buffer (take (length input) input),
                length-take (length input) input,
              ))
              zero)
            (λ lt'. absurd (omega arith)))
      | no ge ↦ header_done p input parsed (rw held short) (omega arith)
    ])
