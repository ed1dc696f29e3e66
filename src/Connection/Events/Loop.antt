-- ===== src/Connection/Events/Loop.antt =====
-- The loop of `read_request`: it ends, and leaves the parser ready for more.
use arrow_client.Base.{
  ℕ, zero, suc, ◌≤◌, ◌<◌, ◌≡◌, refl, sym, ◌⊎◌, inl, inr, Bool-cases, true, false, Option, none,
  some, List, [], ◌∷◌, length, drop, length-drop, append-nil, arith,
}
use mathlib.Core.Path.{subst}
use arrow_client.Base.Outcome.{Outcome, ok, err, panic, out_of_fuel}
use arrow_client.Base.Stateful.{then_do}
use arrow_client.Protocol.Parser
use arrow_client.Protocol.Parser.{Parser, is_complete}
use arrow_client.Protocol.Parser.Stream.{
  Holds, in_header, in_body, Added, refused, taken, add-Added,
}
use arrow_client.Protocol.Parser.RoundTrip.{new-Holds}
use arrow_client.Connection.Requests.{process_request}
use arrow_client.Connection.Requests.Total.{returns, process_request_total}
use arrow_client.Connection.Events.{
  add_to_parser, process_complete, or_else, read_loop, read_request,
}
use arrow_client.Connection.Pump.{SslResult, Io, stream_read}
use arrow_client.Connection.State.{Handler, Env}

-- A parser in the middle of a message, or before one.
pub record IsOpen (p : Parser) : Type 0 where
  pub seen : List ℕ
  pub holds : Holds p seen
  pub unfinished : is_complete p ≡ false

pub new-IsOpen : IsOpen Parser.new
new-IsOpen = record { seen = []; holds = new-Holds; unfinished = refl }

-- Without another byte, a message that is not complete does not become so.
no_progress :
    (p q : Parser) (seen : List ℕ)
    → Holds p seen
    → is_complete p ≡ false
    → Holds q seen
    → is_complete q ≡ true
    → ⊥
no_progress p q seen (in_header _ parsed short _) unfinished (in_header _ parsed' _ _) done =
    ground arith
no_progress p q seen (in_header _ parsed short _) unfinished (in_body h' _ parsed' _ _ enough)
      done =
    omega arith
no_progress p q seen (in_body h _ parsed _ _ enough) unfinished (in_header _ parsed' short _) done =
    omega arith
no_progress p q seen (in_body h _ parsed decoded lacking _) unfinished
      (in_body h' _ parsed' decoded' lacking' _) done =
    ground arith

-- What `add` comes to in a round of the loop: an error, or at least one byte.
data Step : Parser × Outcome ℕ → Type 0 where
  failed : {p : Parser} {r : Outcome ℕ} (e : _) → r ≡ err e → Step (p, r)
  stepped :
      {p : Parser} {r : Outcome ℕ} (n : ℕ)
      → r ≡ ok n
      → 0 < n
      → ((is_complete p ≡ true) ⊎ IsOpen p)
      → Step (p, r)

complete_or_IsOpen : (p : Parser) (seen : List ℕ) → Holds p seen → (is_complete p ≡ true) ⊎ IsOpen p
complete_or_IsOpen p seen holds = elim (Bool-cases (is_complete p)) [
  | inl e ↦ inl e
  | inr e ↦ inr (record { seen = seen; holds = holds; unfinished = e })
]

Added-Step :
    (p : Parser) (o : IsOpen p) (b : ℕ) (bs : List ℕ) (x : Parser × Outcome ℕ)
    → Added o.seen (b ∷ bs) x
    → Step x
Added-Step p o b bs (q, r) (refused e _ _ _) = failed _ e
Added-Step p o b bs (q, r) (taken zero e le holds complete) = absurd (
    no_progress p q o.seen o.holds o.unfinished (subst (Holds q) (append-nil o.seen) holds)
      (complete (omega arith)))
Added-Step p o b bs (q, r) (taken (suc n) e le holds complete) =
    stepped (suc n) e (omega arith) (complete_or_IsOpen q _ holds)

-- The loop comes to a result, and if it lets the connection go on, the parser is open again.
abbrev pub Settled : Handler × Outcome (Option (List ℕ)) → Type 0
Settled x = (returns (x.1) ≡ true) × (x.1 ≡ ok none → IsOpen x.0.req_parser)

module _ (env : Env) where
  process_complete_settles :
      (h : Handler)
      → (is_complete h.req_parser ≡ true) ⊎ IsOpen h.req_parser
      → Settled (process_complete env h)
  unfolding process_complete
  process_complete_settles h (inl e) =
      let same : process_complete env h ≡ process_request env h = ground (arith, e) in
      let (result, clears) = process_request_total env h in
      subst Settled (sym same) (result, λ none. subst IsOpen (sym (clears none)) new-IsOpen)
  process_complete_settles h (inr o) =
      let same : process_complete env h ≡ (h, ok none) = ground (arith, o.unfinished) in
      subst Settled (sym same) (refl, λ none. o)

  then_settles :
      (x : Handler × Outcome (Option (List ℕ)))
      (next : Handler → Handler × Outcome (Option (List ℕ)))
      → Settled x
      → ((h : Handler) → IsOpen h.req_parser → Settled (next h))
      → Settled (then_do (or_else next) x)
  then_settles (h, ok none) next (e, o) k = k h (o refl)
  then_settles (h, ok (some r)) next (e, o) k = (refl, λ none. ground arith)
  then_settles (h, err _) next (e, o) k = (refl, λ none. ground arith)
  then_settles (h, panic) next (e, o) k = (refl, λ none. ground arith)
  then_settles (h, out_of_fuel) next (e, o) k = (e, λ none. ground arith)

  round_settles :
      (h : Handler) (x : Parser × Outcome ℕ)
      (next : ℕ → Handler → Handler × Outcome (Option (List ℕ)))
      → Step x
      → ((n : ℕ) → 0 < n → (k : Handler) → IsOpen k.req_parser → Settled (next n k))
      → Settled (
          then_do
            (λ n k. then_do (or_else (next n)) (process_complete env k))
            (record h { req_parser = x.0 }, x.1))
  round_settles h (q, r) next (failed e failure) k = rw failure (refl, λ none. ground arith)
  round_settles h (q, r) next (stepped n e progress cases) k = rw e (
      then_settles (process_complete env (record h { req_parser = q })) (next n)
        (process_complete_settles (record h { req_parser = q }) cases) (k n progress))

  -- From an open parser, as many rounds as there are bytes are enough for the loop. It comes to a
  -- result, and if it lets the connection go on, the parser is open again.
  pub read_loop_settles :
      (fuel : ℕ) (bytes : List ℕ) (h : Handler)
      → IsOpen h.req_parser
      → length bytes ≤ fuel
      → Settled (read_loop fuel env bytes h)
  unfolding read_loop add_to_parser
  read_loop_settles fuel [] h o le = (refl, λ none. o)
  read_loop_settles zero (b ∷ bs) h o le = absurd (omega arith)
  read_loop_settles (suc fuel) (b ∷ bs) h o le =
      round_settles h (Parser.add h.req_parser (b ∷ bs)) (λ n. read_loop fuel env (drop n (b ∷ bs)))
        (Added-Step h.req_parser o b bs (Parser.add h.req_parser (b ∷ bs))
          (add-Added h.req_parser o.seen (b ∷ bs) o.holds))
        (λ n progress k o'.
          read_loop_settles fuel (drop n (b ∷ bs)) k o' (omega (arith, length-drop n (b ∷ bs))))

read_settles :
    (env : Env) (answer : SslResult (List ℕ)) (h : Handler)
    → IsOpen h.req_parser
    → Settled (then_do (λ bytes. read_loop (length bytes) env bytes) (stream_read answer h))
unfolding stream_read read_loop
read_settles env SslResult.want_read h o = (refl, λ e. o)
read_settles env SslResult.want_write h o = (refl, λ e. o)
read_settles env SslResult.ssl_failed h o = (refl, λ e. ground arith)
read_settles env (SslResult.ssl_done bytes) h o =
    read_loop_settles env (length bytes) bytes _ o (omega arith)

-- Whatever the TLS stream hands over, `read_request` with an open parser comes to a result, and if
-- it lets the connection go on, the parser is open again: no bytes make the loop run on forever.
pub read_request_settles :
    (env : Env) (io : Io) (h : Handler) → IsOpen h.req_parser → Settled (read_request env io h)
unfolding read_request
read_request_settles env io h o = read_settles env io.read_result h o
