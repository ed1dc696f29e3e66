-- ===== src/Connection/Events/Messages.antt =====
-- `read_request` (src/net/arrow/mod.rs) over whole messages: they are processed one by one, in
-- order.
use arrow_client.Base.{
  ℕ, zero, suc, ◌-◌, ◌^◌, ◌≤◌, ◌<◌, ◌≡◌, refl, ap, ◌∙◌, Option, none, some, List, [], ◌∷◌, ◌++◌,
  length, drop, All, arith, drop-append_ge,
}
use arrow_client.Base.Bytes.{IsU16}
use arrow_client.Base.Outcome.{Outcome, ok, err, panic, out_of_fuel}
use arrow_client.Base.Stateful.{then_do}
use arrow_client.Connection.Events.{add_to_parser, process_complete, or_else, read_loop}
use arrow_client.Connection.Requests.{process_request}
use arrow_client.Connection.Requests.Total.{process_request_total}
use arrow_client.Connection.State.{Handler, Env}
use arrow_client.Protocol.Message.{Message, raw_body, serialize, serialize_header}
use arrow_client.Protocol.Parser
use arrow_client.Protocol.Parser.{Parser}
use arrow_client.Protocol.Parser.Frame.{Completed, add-frame}
use arrow_client.Protocol.Parser.RoundTrip.{sent, new-Holds, serialize-IsFrame}

-- A message whose service ID fits 16 bits and whose size fits 32.
pub record Fits (m : Message (List ℕ)) : Type 0 where
  pub service : IsU16 m.header.service
  pub size : length m.body < 2 ^ 32

-- The parser when it has read exactly the bytes of a message.
abbrev pub whole : Message (List ℕ) → Parser
whole m = record { header = some (sent raw_body m); buffer = serialize raw_body m; expected = 0 }

-- The messages one by one, until one of them ends the connection.
unfoldable pub process_messages :
    Env → List (Message (List ℕ)) → Handler → Handler × Outcome (Option (List ℕ))
process_messages env [] h = (h, ok none)
process_messages env (m ∷ ms) h =
    then_do (or_else (process_messages env ms))
      (process_request env (record h { req_parser = whole m }))

-- Their bytes, one message behind the other.
unfoldable pub stream : List (Message (List ℕ)) → List ℕ
stream [] = []
stream (m ∷ ms) = serialize raw_body m ++ stream ms

completed :
    (m : Message (List ℕ)) (n : ℕ) (x : Parser × Outcome ℕ)
    → Completed (sent raw_body m) (serialize raw_body m) n x
    → x ≡ (whole m, ok n)
completed m n (p, r) c =
    ap (λ h. (record p { header = h }, r)) c.header
    ∙ ap (λ b. (record (whole m) { buffer = b; expected = p.expected }, r)) c.buffer
    ∙ ap (λ e. (record (whole m) { expected = e }, r)) c.expected
    ∙ ap (λ q. (whole m, q)) c.result

add_whole :
    (m : Message (List ℕ)) (rest : List ℕ)
    → Fits m
    → Parser.add Parser.new (serialize raw_body m ++ rest)
      ≡ (whole m, ok (length (serialize raw_body m)))
add_whole m rest f =
    completed m (length (serialize raw_body m))
      (Parser.add Parser.new (serialize raw_body m ++ rest))
      (add-frame Parser.new [] (serialize raw_body m) rest (sent raw_body m) new-Holds
        (serialize-IsFrame raw_body m f.service f.size))

drop_message : (s rest : List ℕ) → drop (length s) (s ++ rest) ≡ rest
drop_message s rest =
    let z : length s - length s ≡ 0 = omega arith in
    drop-append_ge (length s) s rest (omega arith) ∙ ap (λ k. drop k rest) z

module _ (env : Env) where
  -- One round of the loop takes a message whole.
  round :
      (fuel : ℕ) (m : Message (List ℕ)) (rest : List ℕ) (h : Handler)
      → Fits m
      → h.req_parser ≡ Parser.new
      → read_loop (suc fuel) env (serialize raw_body m ++ rest) h
        ≡ then_do
            (or_else (read_loop fuel env rest))
            (process_request env (record h { req_parser = whole m }))
  unfolding read_loop add_to_parser process_complete serialize serialize_header
  round fuel m rest h f fresh =
      let bytes = serialize raw_body m ++ rest in
      ap
        (λ (x : Parser × Outcome ℕ).
          then_do
            (λ n k. then_do (or_else (read_loop fuel env (drop n bytes))) (process_complete env k))
            (record h { req_parser = x.0 }, x.1))
        (ap (λ p. Parser.add p bytes) fresh ∙ add_whole m rest f)
      ∙ ap
          (λ l.
            then_do (or_else (read_loop fuel env l))
              (process_request env (record h { req_parser = whole m })))
          (drop_message (serialize raw_body m) rest)

  then_same :
      (x : Handler × Outcome (Option (List ℕ)))
      (next next' : Handler → Handler × Outcome (Option (List ℕ)))
      → (x.1 ≡ ok none → x.0.req_parser ≡ Parser.new)
      → ((k : Handler) → k.req_parser ≡ Parser.new → next k ≡ next' k)
      → then_do (or_else next) x ≡ then_do (or_else next') x
  then_same (h, ok none) next next' fresh same = same h (fresh refl)
  then_same (h, ok (some r)) next next' fresh same = refl
  then_same (h, err _) next next' fresh same = refl
  then_same (h, panic) next next' fresh same = refl
  then_same (h, out_of_fuel) next next' fresh same = refl

  -- From a fresh parser, reading the bytes of messages that stand one behind the other processes
  -- these messages one by one, in their order and each whole, until one of them ends the
  -- connection. A round for each message is enough.
  pub read_loop-process_messages :
      (ms : List (Message (List ℕ))) (fuel : ℕ) (h : Handler)
      → All Fits ms
      → h.req_parser ≡ Parser.new
      → length ms ≤ fuel
      → read_loop fuel env (stream ms) h ≡ process_messages env ms h
  unfolding stream process_messages read_loop
  read_loop-process_messages [] fuel h fits fresh le = refl
  read_loop-process_messages (m ∷ ms) zero h fits fresh le = absurd (omega arith)
  read_loop-process_messages (m ∷ ms) (suc fuel) h (f, fits) fresh le =
      let x = process_request env (record h { req_parser = whole m }) in
      round fuel m (stream ms) h f fresh
      ∙ then_same x (read_loop fuel env (stream ms)) (process_messages env ms)
          (process_request_total env (record h { req_parser = whole m })).1
          (λ k e. read_loop-process_messages ms fuel k fits e (omega arith))
