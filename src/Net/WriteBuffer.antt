-- ===== src/Net/WriteBuffer.antt =====
-- `WriteBuffer` of src/net/utils.rs over the vector that it manages. The vector's length is kept
-- equal to its capacity by `set_len`, so one list stands for both; bytes that nothing has written
-- yet, and how much more than asked for an allocation gives, come from the parameter `Allocator`.
mod Cut
pub mod Refine
use arrow_client.Base.{
  ℕ, ◌+◌, ◌-◌, ◌≤◌, Bool, List, [], ◌∷◌, ◌++◌, length, take, drop, ltb, leb, ◌==◌, if◌then◌else◌,
}
use arrow_client.Base.Outcome.{Outcome, ok, panic, ◌>>=◌}
use arrow_client.Net.ByteQueue.{Op, put, get, empty}

-- `Vec::with_capacity` and `Vec::reserve`: `spare held n` is the tail that a vector that holds
-- `held` has after a request for `n` more bytes.
pub record Allocator : Type 0 where
  pub spare : List ℕ → ℕ → List ℕ
  pub spare_enough : (held : List ℕ) (n : ℕ) → n ≤ length (spare held n)

pub record WriteBuffer : Type 0 where
  pub buffer : List ℕ
  pub capacity : ℕ
  pub offset : ℕ
  pub used : ℕ

pub is_full : WriteBuffer → Bool
is_full b = leb b.capacity b.used

pub is_empty : WriteBuffer → Bool
is_empty b = b.used == 0

pub available : WriteBuffer → ℕ
unfolding is_full
available b = if is_full b then 0 else b.capacity - b.used

pub buffered : WriteBuffer → ℕ
buffered b = b.used

-- Slicing past the end of the vector panics.
pub as_bytes : WriteBuffer → Outcome (List ℕ)
as_bytes b =
    if ltb (length b.buffer) (b.offset + b.used)
    then panic
    else ok (take b.used (drop b.offset b.buffer))

-- `WriteBuffer::drop`
pub discard : WriteBuffer → ℕ → WriteBuffer
discard b count =
    if ltb b.used count
    then record b { offset = b.offset + b.used; used = 0 }
    else record b { offset = b.offset + count; used = b.used - count }

pub clear : WriteBuffer → WriteBuffer
clear b = record b { offset = b.offset + b.used; used = 0 }

module _ (a : Allocator) where
  pub new : ℕ → WriteBuffer
  new capacity = record { buffer = a.spare [] capacity; capacity = capacity; offset = 0; used = 0 }

  -- the first part of `write`: expand the buffer if needed
  expand : WriteBuffer → ℕ → WriteBuffer
  expand b n =
      if ltb (length b.buffer) (b.used + n)
      then record b { buffer = b.buffer ++ a.spare b.buffer (b.used + n - length b.buffer) }
      else b

-- the second part: shift the buffered data to the left if needed (`ptr::copy` of `used` bytes)
shift : WriteBuffer → ℕ → WriteBuffer
shift b n =
    if ltb (length b.buffer) (b.offset + b.used + n)
    then record b {
      buffer = take b.used (drop b.offset b.buffer) ++ drop b.used b.buffer;
      offset = 0;
    }
    else b

-- the last part: `write_all` into the slice behind the buffered data, whose error is unwrapped
store : WriteBuffer → List ℕ → Outcome (ℕ × WriteBuffer)
store b added =
    let start = b.offset + b.used in
    if ltb (length b.buffer) (start + length added)
    then panic
    else ok (
      length added,
      record b {
        buffer = take start b.buffer ++ (added ++ drop (start + length added) b.buffer);
        used = b.used + length added;
      },
    )

pub write : Allocator → WriteBuffer → List ℕ → Outcome (ℕ × WriteBuffer)
unfolding expand shift store
write a b added = store (shift (expand a b (length added)) (length added)) added

-- A client's calls in order.
pub run : Allocator → WriteBuffer → List Op → Outcome WriteBuffer
run a b [] = ok b
run a b (put added ∷ ops) = write a b added >>= λ (n, b'). run a b' ops
run a b (get count ∷ ops) = run a (discard b count) ops
run a b (empty ∷ ops) = run a (clear b) ops
