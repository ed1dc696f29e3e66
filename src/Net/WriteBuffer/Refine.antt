-- ===== src/Net/WriteBuffer/Refine.antt =====
-- A valid `WriteBuffer` behaves as the byte queue of the bytes that it holds.
use arrow_client.Base.{
  ℕ, ◌+◌, ◌-◌, ◌≤◌, ◌≡◌, refl, sym, ap, ◌∙◌, Bool-cases, inl, inr, List, [], ◌∷◌, ◌++◌, length, ltb,
  leb, ◌==◌, take, drop, length-take, length-drop, length-append, drop_all, ltb→lt, ltb→ge, arith,
}
use arrow_client.Base.Outcome.{ok, ◌>>=◌}
use arrow_client.Net.ByteQueue
use arrow_client.Net.ByteQueue.{ByteQueue}
use arrow_client.Net.WriteBuffer.Cut.{window-write, window-append, take_shifted, drop-take_window}
use arrow_client.Net.WriteBuffer.{
  Allocator, WriteBuffer, is_full, is_empty, available, buffered, as_bytes, discard, clear, new,
  expand, shift, store, write, run,
}

-- The buffered data lies inside the vector.
pub record IsValid (b : WriteBuffer) : Type 0 where
  pub inside : b.offset + b.used ≤ length b.buffer

-- The queue that a buffer stands for.
abbrev pub view : WriteBuffer → ByteQueue
view b = record { bytes = take b.used (drop b.offset b.buffer); capacity = b.capacity }

pub length-view : (b : WriteBuffer) → IsValid b → length (view b).bytes ≡ b.used
length-view b v =
    omega (arith, length-take b.used (drop b.offset b.buffer), length-drop b.offset b.buffer)

module _ (a : Allocator) (b : WriteBuffer) (v : IsValid b) (n : ℕ) where
  expand_lem :
      IsValid (expand a b n)
      × (view (expand a b n) ≡ view b)
      × ((expand a b n).used ≡ b.used)
      × (b.used + n ≤ length (expand a b n).buffer)
  unfolding expand
  expand_lem = ground (
    arith,
    length-append b.buffer (a.spare b.buffer (b.used + n - length b.buffer)),
    a.spare_enough b.buffer (b.used + n - length b.buffer),
    window-append b.offset b.used b.buffer (a.spare b.buffer (b.used + n - length b.buffer)),
  )

  shift_lem :
      b.used + n ≤ length b.buffer
      → IsValid (shift b n)
        × (view (shift b n) ≡ view b)
        × ((shift b n).used ≡ b.used)
        × ((shift b n).offset + b.used + n ≤ length (shift b n).buffer)
  unfolding shift
  shift_lem h = ground (
    arith,
    length-append (take b.used (drop b.offset b.buffer)) (drop b.used b.buffer),
    length-take b.used (drop b.offset b.buffer),
    length-drop b.offset b.buffer,
    length-drop b.used b.buffer,
    take_shifted b.offset b.used b.buffer (drop b.used b.buffer),
  )

store_lem :
    (b : WriteBuffer) (added : List ℕ)
    → IsValid b
    → b.offset + b.used + length added ≤ length b.buffer
    → (c : WriteBuffer) × (store b added ≡ ok (length added, c))
      × IsValid c
      × (view c ≡ ByteQueue.write added (view b))
unfolding store
store_lem b added v h =
    let start = b.offset + b.used in
    let c : WriteBuffer = record b {
      buffer = take start b.buffer ++ (added ++ drop (start + length added) b.buffer);
      used = b.used + length added;
    } in
    (
      c,
      ground arith,
      ground (
        arith,
        length-append (take start b.buffer) (added ++ drop (start + length added) b.buffer),
        length-append added (drop (start + length added) b.buffer),
        length-take start b.buffer,
        length-drop (start + length added) b.buffer,
      ),
      ap (λ l. record { bytes = l; capacity = b.capacity })
          (window-write b.offset b.used b.buffer added (drop (start + length added) b.buffer)
            (omega arith)),
    )

-- `write` never fails: whatever the vector's spare room, it appends the data to the buffered bytes
-- (growing the vector, or shifting what it holds to the front, when there is no room behind them)
-- and returns their number. The soft limit stays, and the buffered bytes stay inside the vector.
pub write_refines :
    (a : Allocator) (b : WriteBuffer) (added : List ℕ)
    → IsValid b
    → (c : WriteBuffer) × (write a b added ≡ ok (length added, c))
      × IsValid c
      × (view c ≡ ByteQueue.write added (view b))
unfolding write
write_refines a b added v =
    let n = length added in
    let (v1, e1, u1, r1) = expand_lem a b v n in
    let (v2, e2, u2, r2) = shift_lem a (expand a b n) v1 n (omega arith) in
    let (c, w, vc, ec) = store_lem (shift (expand a b n) n) added v2 (omega arith) in
    (c, w, vc, ec ∙ ap (ByteQueue.write added) (e2 ∙ e1))

-- `drop` removes as many bytes as asked for from the front, or all; `clear` removes all.
pub discard_refines :
    (b : WriteBuffer) (count : ℕ)
    → IsValid b
    → IsValid (discard b count)
      × (view (discard b count) ≡ ByteQueue.discard count (view b))
      × IsValid (clear b)
      × (view (clear b) ≡ ByteQueue.clear (view b))
unfolding discard clear
discard_refines b count v = elim (Bool-cases (ltb b.used count)) [
  | inl more ↦ rw more (
    record { inside = omega (arith, v.inside) },
    ap (λ l. record { bytes = l; capacity = b.capacity })
        (sym (drop_all count (view b).bytes (omega (arith, length-view b v, ltb→lt _ _ more)))),
    record { inside = omega (arith, v.inside) },
    refl,
  )
  | inr fits ↦ rw fits (
    record { inside = omega (arith, v.inside, ltb→ge _ _ fits) },
    ap (λ l. record { bytes = l; capacity = b.capacity })
        (sym (drop-take_window count b.offset b.used b.buffer (ltb→ge _ _ fits))),
    record { inside = omega (arith, v.inside) },
    refl,
  )
]

-- What a client can read of a valid buffer: no slice is out of bounds, and each answer is that of
-- the byte queue.
pub reads_refine :
    (b : WriteBuffer)
    → IsValid b
    → (as_bytes b ≡ ok (view b).bytes)
      × (is_full b ≡ ByteQueue.is_full (view b))
      × (is_empty b ≡ ByteQueue.is_empty (view b))
      × (available b ≡ ByteQueue.available (view b))
      × (buffered b ≡ length (view b).bytes)
unfolding as_bytes is_full is_empty available buffered
reads_refine b v = (
  ground arith,
  ap (λ k. leb b.capacity k) (sym n),
  ap (λ k. k == 0) (sym n),
  rw n (ground arith),
  sym n,
)
  where
    n : length (view b).bytes ≡ b.used
    n = length-view b v

run_refines :
    (a : Allocator) (b : WriteBuffer) (ops : List ByteQueue.Op)
    → IsValid b
    → (c : WriteBuffer) × (run a b ops ≡ ok c) × IsValid c × (view c ≡ ByteQueue.run (view b) ops)
unfolding run
run_refines a b [] v = (b, refl, v, refl)
run_refines a b (ByteQueue.Op.put added ∷ ops) v =
    let (b', w, v', e') = write_refines a b added v in
    let (c, r, vc, e) = run_refines a b' ops v' in
    (c, rw (w, ◌>>=◌) r, vc, e ∙ ap (λ q. ByteQueue.run q ops) e')
run_refines a b (ByteQueue.Op.get count ∷ ops) v =
    let (v', e', _, _) = discard_refines b count v in
    let (c, r, vc, e) = run_refines a (discard b count) ops v' in
    (c, r, vc, e ∙ ap (λ q. ByteQueue.run q ops) e')
run_refines a b (ByteQueue.Op.empty ∷ ops) v =
    let (_, _, v', e') = discard_refines b 0 v in
    let (c, r, vc, e) = run_refines a (clear b) ops v' in
    (c, r, vc, e ∙ ap (λ q. ByteQueue.run q ops) e')

-- Any script of writes, drops and clears on a new buffer runs through, for every allocator, and
-- leaves the buffer with the bytes and the soft limit that the same script leaves in an empty byte
-- queue; reading it then gives those bytes.
pub run-new :
    (a : Allocator) (capacity : ℕ) (ops : List ByteQueue.Op)
    → (c : WriteBuffer) × (run a (new a capacity) ops ≡ ok c)
      × (view c ≡ ByteQueue.run (ByteQueue.new capacity) ops)
      × (as_bytes c ≡ ok (ByteQueue.run (ByteQueue.new capacity) ops).bytes)
unfolding new
run-new a capacity ops =
    let (c, r, v, e) = run_refines a (new a capacity) ops (record { inside = omega arith }) in
    (c, r, e, (reads_refine c v).0 ∙ ap (λ (q : ByteQueue). ok q.bytes) e)
