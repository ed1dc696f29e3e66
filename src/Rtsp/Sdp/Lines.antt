-- ===== src/Rtsp/Sdp/Lines.antt =====
-- `LineReader` and `LineIterator` of src/net/rtsp/sdp.rs.
use arrow_client.Base.{
  ℕ, zero, suc, ◌+◌, Bool, true, false, ◌||◌, Option, none, some, List, [], ◌∷◌, ◌++◌, length, drop,
  leb, ◌==◌, if◌then◌else◌,
}
use arrow_client.Base.Parsing.{Parsing, ok, err, out_of_fuel, ◌>>=◌}

pub record LineReader : Type 0 where
  pub buffer : List ℕ
  pub capacity : ℕ
  pub complete : Bool
  pub partial : Bool

abbrev pub new : ℕ → LineReader
new limit = record { buffer = []; capacity = limit; complete = false; partial = false }

abbrev pub line : LineReader → Option (List ℕ)
line r = if r.partial then some r.buffer else none

abbrev pub clear : LineReader → LineReader
clear r = record r { buffer = []; complete = false; partial = false }

-- The loop of `append`, over the bytes that are left
unfoldable pub append_loop : List ℕ → ℕ → LineReader → Parsing (LineReader × ℕ)
append_loop [] pos r = ok (r, pos)
append_loop (c ∷ s) pos r = elim r.complete [
  | true ↦ ok (r, pos)
  | false ↦
      let r' = record r { partial = true } in
      let pushed = record r' { buffer = r.buffer ++ c ∷ [] } in
      let rest = append_loop s (pos + 1) pushed in
      if leb r.capacity (length r.buffer)
      then err
      else if c == 0x0d || c == 0x0a
      then ok (record r' { complete = true }, pos + 1)
      else rest
]

unfoldable pub append : List ℕ → LineReader → Parsing (LineReader × ℕ)
unfolding append_loop
append bytes r = append_loop bytes 0 r

-- `LineIterator`, with the content from its offset on
pub record LineIterator : Type 0 where
  pub reader : LineReader
  pub content : List ℕ

abbrev pub new_iterator : LineReader → List ℕ → LineIterator
new_iterator reader content = record { reader = reader; content = content }

-- The loop of `next`, over the content that is left. The first argument bounds the rounds.
unfoldable pub next_loop : ℕ → List ℕ → LineReader → Parsing (LineReader × List ℕ)
unfolding append
next_loop fuel [] r = ok (r, [])
next_loop zero (b ∷ bs) r = if r.complete then ok (r, b ∷ bs) else out_of_fuel
next_loop (suc fuel) (b ∷ bs) r = elim r.complete [
  | true ↦ ok (r, b ∷ bs)
  | false ↦ append (b ∷ bs) r >>= λ (r, used). next_loop fuel (drop used (b ∷ bs)) r
]

-- `LineIterator::next`: the next line, if there is one
unfoldable pub next : LineIterator → Parsing (LineIterator × Option (List ℕ))
unfolding next_loop
next it = next_loop (length it.content) it.content (clear it.reader) >>= λ (r, rest).
    ok (record { reader = r; content = rest }, line r)
