-- ===== src/Raw/Ports.antt =====
-- Port collections of the TCP scanner: `PortRange`, `PortCollection` and `PortCollectionIterator` of
-- src/net/raw/tcp.rs.
pub mod Laws
use arrow_client.Base.{
  ℕ, ◌+◌, ◌^◌, Bool, Option, none, some, List, [], ◌∷◌, ◌++◌, ltb, leb, if◌then◌else◌,
}
use arrow_client.Raw.Ether.{PacketResult, ok, ◌>>=◌, plain_add}

-- `Range<u16>`: its first number, and the number after its last.
pub record Range : Type 0 where
  pub first : ℕ
  pub end : ℕ

-- `PortRange`
pub data PortRange : Type 0 where
  single : ℕ → PortRange
  range : Range → PortRange

-- `PortCollection`, by its ranges
abbrev pub PortCollection : Type 0
PortCollection = List PortRange

abbrev pub new : PortCollection
new = []

-- `PortCollection::add` of a port or a range that has been converted
unfoldable pub add : PortCollection → PortRange → PortCollection
add c v = c ++ v ∷ []

-- `PortCollection::add_all`
unfoldable pub add_all : PortCollection → List PortRange → PortCollection
unfolding add
add_all c [] = c
add_all c (v ∷ vs) = add_all (add c v) vs

-- `PortCollectionIterator`; the ranges are those that its `iter` has left.
pub record PortIterator : Type 0 where
  pub iter : List PortRange
  pub last : ℕ
  pub port : ℕ

-- `PortCollection::iter`
abbrev pub iter_of : PortCollection → PortIterator
iter_of c = record { iter = c; last = 0; port = 0 }

module _ (overflow_checks : Bool) where
  -- `PortRange::to_range`
  unfoldable pub to_range : PortRange → PacketResult Range
  to_range (range r) = ok r
  to_range (single p) =
      plain_add overflow_checks (2 ^ 16) p 1 >>= λ end. ok (record { first = p; end = end })

  -- The first part of `next`: take the next range when this one is used up.
  unfoldable pub refill : PortIterator → List PortRange → PacketResult PortIterator
  unfolding to_range
  refill it [] = ok it
  refill it (r ∷ rs) =
      if leb it.last it.port
      then (to_range r >>= λ r. ok (record { iter = rs; last = r.end; port = r.first }))
      else ok it

  -- The second part of `next`
  abbrev pub take_port : PortIterator → Option ℕ × PortIterator
  take_port it =
      if ltb it.port it.last then (some it.port, record it { port = it.port + 1 }) else (none, it)

  -- `PortCollectionIterator::next`
  unfoldable pub next : PortIterator → PacketResult (Option ℕ × PortIterator)
  unfolding refill
  next it = refill it it.iter >>= λ it. ok (take_port it)
