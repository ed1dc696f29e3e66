-- ===== src/Net/ByteQueue.antt =====
-- What a client may rely on of `WriteBuffer` (src/net/utils.rs): a queue of bytes with a soft
-- limit.
use arrow_client.Base.{ℕ, ◌-◌, Bool, List, [], ◌∷◌, ◌++◌, length, drop, leb, ◌==◌}

pub record ByteQueue : Type 0 where
  pub bytes : List ℕ
  pub capacity : ℕ

abbrev pub new : ℕ → ByteQueue
new capacity = record { bytes = []; capacity = capacity }

abbrev pub is_full : ByteQueue → Bool
is_full q = leb q.capacity (length q.bytes)

abbrev pub is_empty : ByteQueue → Bool
is_empty q = length q.bytes == 0

abbrev pub available : ByteQueue → ℕ
available q = q.capacity - length q.bytes

abbrev pub write : List ℕ → ByteQueue → ByteQueue
write added q = record q { bytes = q.bytes ++ added }

abbrev pub discard : ℕ → ByteQueue → ByteQueue
discard count q = record q { bytes = drop count q.bytes }

abbrev pub clear : ByteQueue → ByteQueue
clear q = record q { bytes = [] }

-- The calls that change a queue.
pub data Op : Type 0 where
  put : List ℕ → Op
  get : ℕ → Op
  empty : Op

abbrev pub run : ByteQueue → List Op → ByteQueue
run q [] = q
run q (put added ∷ ops) = run (write added q) ops
run q (get count ∷ ops) = run (discard count q) ops
run q (empty ∷ ops) = run (clear q) ops
