-- ===== src/Net/Tests.antt =====
-- Runs of the buffer, the timeout and the addresses at concrete inputs.
use arrow_client.Base.{ℕ, ◌≡◌, refl, false, List, [], ◌∷◌, replicate, length-replicate, arith}
use arrow_client.Base.Outcome.{ok}
use arrow_client.Net.ByteQueue
use arrow_client.Net.Timeout
use arrow_client.Net.Timeout.{Timeout, check-set, check_expired}
use arrow_client.Net.WriteBuffer
use arrow_client.Net.WriteBuffer.{Allocator, WriteBuffer}
use arrow_client.Net.WriteBuffer.Refine.{IsValid, view, run-new}

-- An allocator that gives as much room as was asked for.
abbrev exact : Allocator
exact = record {
  spare = λ held n. replicate n 0;
  spare_enough = λ held n. omega (arith, length-replicate {A = ℕ} n 0);
}

abbrev script : List ByteQueue.Op
script = ByteQueue.put (1 ∷ 2 ∷ 3 ∷ []) ∷ ByteQueue.get 2 ∷ ByteQueue.put (4 ∷ []) ∷ []

run-new_example :
    (c : WriteBuffer) × (WriteBuffer.run exact (WriteBuffer.new exact 2) script ≡ ok c)
    × (view c ≡ ByteQueue.run (ByteQueue.new 2) script)
    × (WriteBuffer.as_bytes c ≡ ok (ByteQueue.run (ByteQueue.new 2) script).bytes)
run-new_example = run-new exact 2 script

-- A buffer of four bytes that holds two behind one that is dropped.
abbrev shifted : WriteBuffer
shifted = record { buffer = 9 ∷ 1 ∷ 2 ∷ 0 ∷ []; capacity = 3; offset = 1; used = 2 }

shifted-IsValid : IsValid shifted
shifted-IsValid = record { inside = omega arith }

still_late : Timeout.check 30_000_000_000 (Timeout.set 7 20_000 Timeout.new) ≡ false
unfolding Timeout.check Timeout.set Timeout.new
still_late = refl
