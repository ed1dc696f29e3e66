-- ===== src/Raw/Ports/Laws.antt =====
-- What the iterator over a port collection gives.
use mathlib.Core.Path.{subst}
use arrow_client.Base.{
  ℕ, zero, suc, ◌+◌, ◌-◌, ◌^◌, ◌≤◌, ◌<◌, ◌≡◌, refl, ap, ◌∙◌, sym, Bool, true, false, none, some,
  List, [], ◌∷◌, ◌++◌, append_assoc, append-nil, All, arith,
}
use arrow_client.Raw.Ether.{ok, panic}
use arrow_client.Raw.Ports.{
  Range, PortRange, single, range, PortCollection, new, add, add_all, PortIterator, iter_of,
  to_range, refill, next,
}

-- That many numbers from the first one on
abbrev pub count_up : ℕ → ℕ → List ℕ
count_up first zero = []
count_up first (suc n) = first ∷ count_up (first + 1) n

-- The ports that a range stands for
abbrev pub ports : PortRange → List ℕ
ports (single p) = p ∷ []
ports (range r) = count_up r.first (r.end - r.first)

abbrev pub all_ports : List PortRange → List ℕ
all_ports [] = []
all_ports (r ∷ rs) = ports r ++ all_ports rs

-- A range that has a port, and no port that ends the numbers of 16 bits.
abbrev pub IsProper : PortRange → Type 0
IsProper (single p) = p + 1 < 2 ^ 16
IsProper (range r) = (r.first < r.end) × (r.end < 2 ^ 16)

-- The ports that an iterator has still to give
abbrev pub pending : PortIterator → List ℕ
pending it = count_up it.port (it.last - it.port) ++ all_ports it.iter

-- The iterator gives these ports, one per call, and then none.
pub data Gives (overflow_checks : Bool) : PortIterator → List ℕ → Type 0 where
  finished :
      {it it' : PortIterator}
      → next overflow_checks it ≡ ok (none, it')
      → Gives overflow_checks it []
  given :
      {it it' : PortIterator} {p : ℕ} {ps : List ℕ}
      → next overflow_checks it ≡ ok (some p, it')
      → Gives overflow_checks it' ps
      → Gives overflow_checks it (p ∷ ps)

pub add_all-append : (c : PortCollection) (vs : List PortRange) → add_all c vs ≡ c ++ vs
unfolding add_all add
add_all-append c [] = sym (append-nil c)
add_all-append c (v ∷ vs) = add_all-append (c ++ v ∷ []) vs ∙ append_assoc c (v ∷ []) vs

next_within :
    (checks : Bool) (iter : List PortRange) (last port : ℕ)
    → port < last
    → next checks (record { iter = iter; last = last; port = port })
      ≡ ok (some port, record { iter = iter; last = last; port = port + 1 })
unfolding next refill
next_within checks [] last port h = ground arith
next_within checks (r ∷ rs) last port h = ground arith

-- The range that a proper one stands for
abbrev as_range : PortRange → Range
as_range (single p) = record { first = p; end = p + 1 }
as_range (range r) = r

to_range_ok : (checks : Bool) (r : PortRange) → IsProper r → to_range checks r ≡ ok (as_range r)
unfolding to_range
to_range_ok checks (single p) proper = ground arith
to_range_ok checks (range r) proper = refl

as_range_lt : (r : PortRange) → IsProper r → (as_range r).first < (as_range r).end
as_range_lt (single p) proper = omega arith
as_range_lt (range r) proper = proper.0

ports-as_range :
    (r : PortRange)
    → IsProper r
    → ports r ≡ count_up (as_range r).first ((as_range r).end - (as_range r).first)
ports-as_range (single p) proper = let one : p + 1 - p ≡ 1 = omega arith in rw one refl
ports-as_range (range r) proper = refl

abbrev first_to_end : Range → List ℕ
first_to_end g = count_up g.first (g.end - g.first)

count_up_lt :
    (g : Range)
    → g.first < g.end
    → first_to_end g ≡ g.first ∷ count_up (g.first + 1) (g.end - (g.first + 1))
count_up_lt g lt =
    let split : g.end - g.first ≡ suc (g.end - (g.first + 1)) = omega arith in rw split refl

next_over :
    (checks : Bool) (r : PortRange) (rs : List PortRange) (last port : ℕ)
    → last ≤ port
    → IsProper r
    → next checks (record { iter = r ∷ rs; last = last; port = port })
      ≡ ok (
        some (as_range r).first,
        record { iter = rs; last = (as_range r).end; port = (as_range r).first + 1 },
      )
unfolding next refill
next_over checks r rs last port h proper =
    ground (arith, to_range_ok checks r proper, as_range_lt r proper)

next_end :
    (checks : Bool) (last port : ℕ)
    → last ≤ port
    → next checks (record { iter = []; last = last; port = port })
      ≡ ok (none, record { iter = []; last = last; port = port })
unfolding next refill
next_end checks last port h = ground arith

-- The ports that are left of a range come before those of the ranges that follow.
run_down :
    (checks : Bool) (iter : List PortRange) (ps : List ℕ) (last : ℕ)
    → ((port : ℕ)
        → last ≤ port
        → Gives checks (record { iter = iter; last = last; port = port }) ps)
    → (n port : ℕ) → last ≡ port + n
    → Gives checks (record { iter = iter; last = last; port = port }) (count_up port n ++ ps)
run_down checks iter ps last rest zero port e = rest port (omega arith)
run_down checks iter ps last rest (suc n) port e =
    given (next_within checks iter last port (omega arith))
      (run_down checks iter ps last rest n (port + 1) (omega arith))

gives :
    (checks : Bool) (iter : List PortRange) (last port : ℕ)
    → All IsProper iter
    → last ≤ port
    → Gives checks (record { iter = iter; last = last; port = port }) (all_ports iter)
gives checks [] last port proper h = finished (next_end checks last port h)
gives checks (r ∷ rs) last port proper h =
    let g = as_range r in
    let lt : g.first < g.end = as_range_lt r proper.0 in
    let n = g.end - (g.first + 1) in
    let all : first_to_end g ≡ g.first ∷ count_up (g.first + 1) n = count_up_lt g lt in
    let whole : ports r ++ all_ports rs ≡ g.first ∷ (count_up (g.first + 1) n ++ all_ports rs) =
      ap (λ ps. ps ++ all_ports rs) (ports-as_range r proper.0 ∙ all) in
    subst (Gives checks (record { iter = r ∷ rs; last = last; port = port })) (sym whole) (
      given (next_over checks r rs last port h proper.0) (
        run_down checks rs (all_ports rs) g.end
          (λ port over. gives checks rs g.end port proper.1 over) n (g.first + 1) (omega arith)))

-- The iterator over a collection of proper ranges gives their ports one by one, range after range in
-- the order in which they were added, and then ends.
pub add_all-Gives :
    (overflow_checks : Bool) (rs : List PortRange)
    → All IsProper rs
    → Gives overflow_checks (iter_of (add_all new rs)) (all_ports rs)
add_all-Gives checks rs proper =
    subst (λ c. Gives checks (iter_of c) (all_ports rs)) (sym (add_all-append new rs))
      (gives checks rs 0 0 proper (omega arith))

-- A range without a port ends the iteration, whatever ranges follow it. Without overflow checks the
-- port 65535 is such a range; with them it panics.
pub next_empty :
    (rs : List PortRange) (r : Range)
    → r.end ≤ r.first
    → ((overflow_checks : Bool)
        → next overflow_checks (iter_of (range r ∷ rs))
          ≡ ok (none, record { iter = rs; last = r.end; port = r.first }))
      × (next false (iter_of (single 65535 ∷ rs))
          ≡ ok (none, record { iter = rs; last = 0; port = 65535 }))
      × (next true (iter_of (single 65535 ∷ rs)) ≡ panic)
unfolding next refill to_range
next_empty rs r h = ((λ checks. ground arith), refl, refl)
