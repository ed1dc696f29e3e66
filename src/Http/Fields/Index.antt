-- ===== src/Http/Fields/Index.antt =====
-- The index over the headers finds the last header of a name.
use mathlib.Core.Logic.{ite, if_pos, if_neg}
use arrow_client.Base.{
  ℕ, ◌+◌, ◌≡◌, refl, sym, ap, ◌∙◌, Option, none, some, List, [], ◌∷◌, ◌++◌, length, get_elem?,
  length-append, get_elem?-append_lt, get_elem?-append_self, append_assoc, arith, ◌⊎◌, inl, inr,
}
use arrow_client.Base.Dict.{Dict, lookup, insert, lookup-insert_self, lookup-insert_ne}
use arrow_client.Base.Parsing.{ok}
use arrow_client.Http.Fields.{Header, Outside, Text-discrete, index_headers, get_str}

-- The first of two values that is there
abbrev or_value {ℓ} : {A : Type ℓ} → Option A → Option A → Option A
or_value (some a) o = some a
or_value none o = o

or_some {ℓ} :
    {A : Type ℓ} (o : Option A) (a : A) (o' : Option A)
    → or_value o (some a) ≡ or_value (or_value o (some a)) o'
or_some none a o' = refl
or_some (some b) a o' = refl

or_none {ℓ} :
    {A : Type ℓ} (o : Option A) (o' : Option A) → or_value o o' ≡ or_value (or_value o none) o'
or_none none o' = refl
or_none (some b) o' = refl

module _ (o : Outside) where
  -- The value of the last header whose name is the given one, in small letters
  unfoldable pub last_value : List ℕ → List Header → Option (List ℕ)
  last_value key [] = none
  last_value key ((name, val) ∷ hs) =
      or_value (last_value key hs) (ite (Text-discrete (o.to_lowercase name) key) (some val) none)

  unfoldable last_index : List ℕ → ℕ → List Header → Option ℕ
  last_index key i [] = none
  last_index key i ((name, val) ∷ hs) =
      or_value (last_index key (i + 1) hs)
        (ite (Text-discrete (o.to_lowercase name) key) (some i) none)

  index_lem :
      (key : List ℕ) (i : ℕ) (hs : List Header) (m : Dict (List ℕ) ℕ)
      → lookup Text-discrete key (index_headers o i hs m)
        ≡ or_value (last_index key i hs) (lookup Text-discrete key m)
  unfolding index_headers last_index
  index_lem key i [] m = refl
  index_lem key i ((name, val) ∷ hs) m =
      index_lem key (i + 1) hs (insert Text-discrete (o.to_lowercase name) i m)
      ∙ (elim (Text-discrete (o.to_lowercase name) key) [
        | yes e ↦
            let here =
              ap (λ k. lookup Text-discrete key (insert Text-discrete k i m)) e
              ∙ lookup-insert_self Text-discrete key i m in
            ap (or_value (last_index key (i + 1) hs)) here
            ∙ or_some (last_index key (i + 1) hs) i (lookup Text-discrete key m)
            ∙ ap
                (λ t.
                  or_value (or_value (last_index key (i + 1) hs) t) (lookup Text-discrete key m))
                (sym (if_pos (Text-discrete (o.to_lowercase name) key) e (some i) none))
        | no n ↦
            ap (or_value (last_index key (i + 1) hs))
              (lookup-insert_ne Text-discrete (o.to_lowercase name) key i m n)
            ∙ or_none (last_index key (i + 1) hs) (lookup Text-discrete key m)
            ∙ ap
                (λ t.
                  or_value (or_value (last_index key (i + 1) hs) t) (lookup Text-discrete key m))
                (sym (if_neg (Text-discrete (o.to_lowercase name) key) n (some i) none))
      ])

  -- The index and the value come from one header.
  same_header :
      (key : List ℕ) (pre hs : List Header)
      → ((last_index key (length pre) hs ≡ none) × (last_value key hs ≡ none))
        ⊎ ((j : ℕ) × (h : Header) × (last_index key (length pre) hs ≡ some j)
            × (get_elem? (pre ++ hs) j ≡ some h)
            × (last_value key hs ≡ some (h.1)))
  unfolding last_index last_value
  same_header key pre [] = inl (refl, refl)
  same_header key pre (h ∷ hs) =
      let d = Text-discrete (o.to_lowercase (h.0)) key in
      let next : last_index key (length (pre ++ h ∷ [])) hs ≡ last_index key (length pre + 1) hs =
        ap (λ i. last_index key i hs) (length-append pre (h ∷ [])) in
      let moved = append_assoc pre (h ∷ []) hs in
      elim (same_header key (pre ++ h ∷ []) hs) [
        | inr (j, h', index, elem, val) ↦ inr (
          j,
          h',
          ap (λ t. or_value t (ite d (some (length pre)) none)) (sym next ∙ index),
          ap (λ hs. get_elem? hs j) (sym moved) ∙ elem,
          ap (λ t. or_value t (ite d (some (h.1)) none)) val,
        )
        | inl (index, val) ↦ elim (Text-discrete (o.to_lowercase (h.0)) key) [
          | yes e ↦ inr (
            length pre,
            h,
            ap (λ t. or_value t (ite d (some (length pre)) none)) (sym next ∙ index)
                ∙ if_pos d e (some (length pre)) none,
            ap (λ hs. get_elem? hs (length pre)) (sym moved)
                ∙ get_elem?-append_lt (pre ++ h ∷ []) hs (length pre)
                    (omega (arith, length-append pre (h ∷ [])))
                ∙ get_elem?-append_self pre h,
            ap (λ t. or_value t (ite d (some (h.1)) none)) val ∙ if_pos d e (some (h.1)) none,
          )
          | no n ↦ inl (
            ap (λ t. or_value t (ite d (some (length pre)) none)) (sym next ∙ index)
                ∙ if_neg d n (some (length pre)) none,
            ap (λ t. or_value t (ite d (some (h.1)) none)) val ∙ if_neg d n (some (h.1)) none,
          )
        ]
      ]

  or_nothing : (key : List ℕ) (i : Option ℕ) → or_value i (lookup {V = ℕ} Text-discrete key []) ≡ i
  unfolding lookup
  or_nothing key none = refl
  or_nothing key (some i) = refl

  -- Asking for a header in the index that the parser builds gives the value of the last header of that
  -- name, in whatever letters, and never panics.
  pub get_str-last_value :
      (name : List ℕ) (hs : List Header)
      → get_str o name hs (index_headers o 0 hs []) ≡ ok (last_value (o.to_lowercase name) hs)
  unfolding get_str
  get_str-last_value name hs =
      let key = o.to_lowercase name in
      let found : lookup Text-discrete key (index_headers o 0 hs []) ≡ last_index key 0 hs =
        index_lem key 0 hs [] ∙ or_nothing key (last_index key 0 hs) in
      elim (same_header key [] hs) [
        | inl (index, val) ↦ ground (arith, found, index, val)
        | inr (j, h, index, elem, val) ↦ ground (arith, found, index, elem, val)
      ]
