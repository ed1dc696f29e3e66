-- ===== src/Protocol/Parser/RoundTrip.antt =====
-- A message that was serialized is read back.
use mathlib.Core.List.{flatten}
use mathlib.Core.Path.{subst}
use arrow_client.Base.{
  ℕ, ◌-◌, ◌^◌, ◌<◌, ◌≡◌, refl, sym, ap, ◌∙◌, some, List, [], ◌++◌, length, take, drop,
  length-append, take-append_le, take_all, drop-append_ge, arith, map,
}
use arrow_client.Base.Bytes.{IsU16}
use arrow_client.Base.Outcome.{ok}
use arrow_client.Protocol.Message.{
  Body, Header, Message, header_size, new_header, serialize, serialize_header, from_bytes,
  from_bytes-serialize_header, new_header-IsHeader,
}
use arrow_client.Protocol.Parser.{Parser, new, body, add}
use arrow_client.Protocol.Parser.Stream.{Holds, in_header}
use arrow_client.Protocol.Parser.Frame.{IsFrame, add-frame, offer, offer-frame}

pub new-Holds : Holds new []
new-Holds = in_header refl refl (omega arith) refl

length-serialize_header : (h : Header) → length (serialize_header h) ≡ header_size
unfolding serialize_header
length-serialize_header h = refl

body_complete :
    (p : Parser) (h : Header)
    → p.header ≡ some h
    → p.expected ≡ 0
    → body p ≡ some (drop header_size p.buffer)
body_complete p h e z = ground arith

module _ {B : Type 0} (i : Body B) (m : Message B) where
  -- The header that goes out: the size is that of the body.
  abbrev pub sent : Header
  sent = new_header m.header.service m.header.session (i.len m.body)

  module _ (service : IsU16 m.header.service) (fits : i.len m.body < 2 ^ 32) where
    serialize_split : serialize i m ≡ serialize_header sent ++ i.serialize m.body
    unfolding serialize
    serialize_split =
        ap
          (λ k.
            serialize_header (new_header m.header.service m.header.session k) ++ i.serialize m.body)
          (omega arith)

    pub serialize-IsFrame : IsFrame (serialize i m) sent
    serialize-IsFrame =
        let head = serialize_header sent in
        let n = length-serialize_header sent in
        record {
          decoded =
              ap (λ l. from_bytes (take header_size l)) serialize_split
              ∙ ap from_bytes (
                  take-append_le header_size head (i.serialize m.body) (omega (arith, n))
                  ∙ take_all header_size head (omega (arith, n)))
              ∙ from_bytes-serialize_header sent (
                  new_header-IsHeader m.header.service m.header.session (i.len m.body) service
                    fits);
          whole =
              ap length serialize_split
              ∙ length-append head (i.serialize m.body)
              ∙ omega (arith, n, i.length-serialize m.body);
        }

    body-serialize : drop header_size (serialize i m) ≡ i.serialize m.body
    body-serialize =
        let head = serialize_header sent in
        let n = length-serialize_header sent in
        let z : header_size - length head ≡ 0 = omega (arith, n) in
        ap (drop header_size) serialize_split
        ∙ drop-append_ge header_size head (i.serialize m.body) (omega (arith, n))
        ∙ ap (λ k. drop k (i.serialize m.body)) z

    -- A fresh parser that is given a serialized message takes exactly its bytes, whatever follows
    -- them, and then hands out the header that was sent and the bytes of the body. The service ID
    -- fits 16 bits and the body's size 32.
    pub add-serialize :
        (rest : List ℕ)
        → let (p, r) = add new (serialize i m ++ rest) in
          (r ≡ ok (length (serialize i m)))
          × (p.header ≡ some sent)
          × (body p ≡ some (i.serialize m.body))
    add-serialize rest =
        let c = add-frame new [] (serialize i m) rest sent new-Holds serialize-IsFrame in
        (
          c.result,
          c.header,
          body_complete (add new (serialize i m ++ rest)).0 sent c.header c.expected
              ∙ ap (λ l. some (drop header_size l)) c.buffer
              ∙ ap some body-serialize,
        )

    -- However a serialized message is cut into chunks, a fresh parser takes each chunk whole, and
    -- ends with the header that was sent and the bytes of the body.
    pub offer-serialize :
        (chunks : List (List ℕ))
        → flatten chunks ≡ serialize i m
        → let (rs, p) = offer new chunks in
          (rs ≡ map (λ c. ok (length c)) chunks)
          × (p.header ≡ some sent)
          × (body p ≡ some (i.serialize m.body))
    offer-serialize chunks e =
        let (rs, parsed, held, zero) =
          offer-frame new [] chunks sent new-Holds
            (subst (λ l. IsFrame l sent) (sym e) serialize-IsFrame) in
        (
          rs,
          parsed,
          body_complete (offer new chunks).1 sent parsed zero
              ∙ ap (λ l. some (drop header_size l)) (held ∙ e)
              ∙ ap some body-serialize,
        )
