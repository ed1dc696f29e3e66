-- ===== src/Http/LineReader.antt =====
-- `LineReader` of src/net/http.rs, which the RTSP client uses as well.
pub mod Search
pub mod Laws
pub mod Chunks
use arrow_client.Base.{
  ℕ, ◌+◌, ◌-◌, Bool, true, false, Option, none, some, List, [], ◌∷◌, ◌++◌, length, take, drop, ltb,
  if◌then◌else◌,
}
use arrow_client.Base.Parsing.{Parsing, ok, err, panic}
use arrow_client.Base.Text.{starts_with}

pub record LineReader : Type 0 where
  pub buffer : List ℕ
  pub separator : List ℕ
  pub max_len : ℕ
  pub complete : Bool

abbrev pub new : ℕ → List ℕ → LineReader
new max_length separator = record {
  buffer = [];
  separator = separator;
  max_len = max_length;
  complete = false;
}

abbrev pub is_complete : LineReader → Bool
is_complete r = r.complete

abbrev pub line : LineReader → List ℕ
line r = r.buffer

abbrev pub clear : LineReader → LineReader
clear r = record r { buffer = []; complete = false }

-- The loop of `find_separator`, with the bytes from the offset on
unfoldable pub find_from : List ℕ → List ℕ → ℕ → Option ℕ
unfolding starts_with
find_from separator [] i = none
find_from separator (c ∷ s) i =
    if starts_with (c ∷ s) separator then some i else find_from separator s (i + 1)

abbrev pub find_separator : LineReader → ℕ → Option ℕ
find_separator r offset = find_from r.separator (drop offset r.buffer) offset

-- What follows the search in `add`
unfoldable pub added : LineReader → ℕ → ℕ → Bool → Option ℕ → Parsing (LineReader × ℕ)
added r buf_len consume short (some pos) =
    ok
      (record r { buffer = take pos r.buffer; complete = true }, pos + length r.separator - buf_len)
added r buf_len consume true none = err
added r buf_len consume false none = ok (r, consume)

-- `self.max_len - buf_len` panics where it would be negative; a build without overflow checks wraps
-- there.
unfoldable pub add : LineReader → List ℕ → Parsing (LineReader × ℕ)
unfolding find_from added
add r bytes =
    let buf_len = length r.buffer in
    let sep_len = length r.separator in
    let available = r.max_len - buf_len in
    let consume = if ltb (length bytes) available then length bytes else available in
    let start = if ltb sep_len buf_len then buf_len - sep_len else 0 in
    let r' = record r { buffer = r.buffer ++ take consume bytes } in
    if r.complete
    then ok (r, 0)
    else if ltb r.max_len buf_len
    then panic
    else added r' buf_len consume (ltb consume (length bytes)) (find_separator r' start)
