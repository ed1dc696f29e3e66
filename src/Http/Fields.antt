-- ===== src/Http/Fields.antt =====
-- The header fields that src/net/http.rs and src/net/rtsp/mod.rs read in the same way, and the index
-- over them. A string is the list of its UTF-8 bytes.
pub mod Index
use native.Mathlib.Decide.{ℕ_discrete}
use arrow_client.Base.{ℕ, ◌+◌, Bool, Option, none, some, List, [], ◌∷◌, ◌++◌, get_elem?}
use arrow_client.Base.Dict.{Dict, lookup, insert}
use arrow_client.Base.Parsing.{Parsing, ok, err, panic, ◌>>=◌}

-- `Header`
abbrev pub Header : Type 0
Header = List ℕ × List ℕ

-- What the parsers take from outside: `str::from_utf8`, `str::to_lowercase`, `i32::from_str`, and what
-- the expressions `^([^ :]+):\s*(.*)$` and `^\s+(.*)$` capture in a line.
pub record Outside : Type 0 where
  pub is_utf8 : List ℕ → Bool
  pub to_lowercase : List ℕ → List ℕ
  pub i32_from_str : List ℕ → Option ℕ
  pub header_captures : List ℕ → Option Header
  pub cont_captures : List ℕ → Option (List ℕ)

unfoldable pub Text-discrete : Discrete (List ℕ)
Text-discrete = hlevel ℕ_discrete

-- The value of the last header is continued.
unfoldable pub continue_last : List ℕ → List Header → Parsing (List Header)
continue_last cont [] = err
continue_last cont ((name, val) ∷ []) = ok ((name, val ++ cont) ∷ [])
continue_last cont (h ∷ h' ∷ hs) = continue_last cont (h' ∷ hs) >>= λ hs. ok (h ∷ hs)

module _ (o : Outside) where
  -- The line of a header that is not empty
  unfoldable pub add_field : List ℕ → List Header → Parsing (List Header)
  unfolding continue_last
  add_field line headers = elim (o.header_captures line) [
    | some h ↦ ok (headers ++ h ∷ [])
    | none ↦ elim (o.cont_captures line) [ some cont ↦ continue_last cont headers | none ↦ err ]
  ]

  -- The loop that fills `header_map`, from the place of the first of the headers on
  unfoldable pub index_headers : ℕ → List Header → Dict (List ℕ) ℕ → Dict (List ℕ) ℕ
  index_headers i [] m = m
  index_headers i ((name, val) ∷ hs) m =
      index_headers (i + 1) hs (insert Text-discrete (o.to_lowercase name) i m)

  -- `get_str`
  unfoldable pub get_str : List ℕ → List Header → Dict (List ℕ) ℕ → Parsing (Option (List ℕ))
  get_str name headers header_map = elim (lookup Text-discrete (o.to_lowercase name) header_map) [
    | none ↦ ok none
    | some i ↦ elim (get_elem? headers i) [ none ↦ panic | some h ↦ ok (some (h.1)) ]
  ]

  -- `get`, with the `from_str` of its type
  unfoldable pub get :
      (List ℕ → Option ℕ) → List ℕ → List Header → Dict (List ℕ) ℕ → Parsing (Option ℕ)
  unfolding get_str
  get from_str name headers header_map = get_str name headers header_map >>= λ val. elim val [
    | none ↦ ok none
    | some v ↦ elim (from_str v) [ none ↦ panic | some n ↦ ok (some n) ]
  ]
