-- ===== src/Protocol/ServiceTable/Index.antt =====
-- The service table and its index: every operation keeps them in step, and IDs are stable.

use native.Mathlib.Decide.{dec_lt, ℕ_discrete}
use arrow_client.Base.{
  ℕ, ◌+◌, ◌%◌, ◌^◌, ◌<◌, ◌≡◌, ◌≢◌, ◌⊎◌, sym, ap, ◌∙◌, Option, none, some, List, [], ◌∷◌, ◌++◌,
  length, get_elem?, set, length-append, arith, inl, inr, get_elem?_ge, get_elem?-append_lt,
  get_elem?-append_self, get_elem?-set_self, get_elem?-set_ne, some_inj,
}
use arrow_client.Base.Dict.{lookup, lookup-insert_self, lookup-insert_ne}
use arrow_client.Protocol.Service.{ServiceKey, ServiceKey-discrete, key}
use arrow_client.Protocol.ServiceTable.{Element, ServiceTable, new, next_id, push}

abbrev pub find_key : ServiceTable → ServiceKey → Option ℕ
find_key t k = lookup ServiceKey-discrete k t.map

-- The index maps the key of every element to its position, and nothing else; an element's ID is its
-- position from 1.
pub record IsValid (t : ServiceTable) : Type 0 where
  pub indexed :
      (i : ℕ) (e : Element)
      → get_elem? t.services i ≡ some e
      → (find_key t (key e.service) ≡ some i) × (e.service_id ≡ (i + 1) % 2 ^ 16)
  pub found :
      (k : ServiceKey) (i : ℕ)
      → find_key t k ≡ some i
      → (e : Element) × (get_elem? t.services i ≡ some e) × (key e.service ≡ k)

pub new-IsValid : IsValid new
unfolding lookup
new-IsValid = record { indexed = λ i e h. cc; found = λ k i h. cc }

pub get_elem?-lt :
    {A : Type 0} (xs : List A) (i : ℕ) {a : A} → get_elem? xs i ≡ some a → i < length xs
get_elem?-lt xs i h = elim (dec_lt i (length xs)) [
  | yes lt ↦ lt
  | no ge ↦ cc (get_elem?_ge xs i (omega arith))
]

get_elem?-push_cases :
    {A : Type 0} (xs : List A) (y : A) (i : ℕ) {a : A}
    → get_elem? (xs ++ y ∷ []) i ≡ some a
    → (get_elem? xs i ≡ some a) ⊎ ((i ≡ length xs) × (y ≡ a))
get_elem?-push_cases xs y i h = elim (dec_lt i (length xs)) [
  | yes lt ↦ inl (sym (get_elem?-append_lt xs (y ∷ []) i lt) ∙ h)
  | no ge ↦
      let at_end : i ≡ length xs =
        omega (arith, get_elem?-lt (xs ++ y ∷ []) i h, length-append xs (y ∷ [])) in
      inr (
        at_end,
        some_inj
            (sym (get_elem?-append_self xs y) ∙ ap (get_elem? (xs ++ y ∷ [])) (sym at_end) ∙ h),
      )
]

-- A new element goes to the end, under a key that the index lacks.
module _ (t : ServiceTable) (v : IsValid t) (e : Element)
    (absent : find_key t (key e.service) ≡ none) where
  pub find_key-push_self : find_key (push t e) (key e.service) ≡ some (length t.services)
  find_key-push_self =
      lookup-insert_self ServiceKey-discrete (key e.service) (length t.services) t.map

  pub find_key-push_ne : (k : ServiceKey) → key e.service ≢ k → find_key (push t e) k ≡ find_key t k
  find_key-push_ne k n =
      lookup-insert_ne ServiceKey-discrete (key e.service) k (length t.services) t.map n

  pub push-IsValid : e.service_id ≡ next_id t → IsValid (push t e)
  push-IsValid id = record {
    indexed = λ i e' h. elim (get_elem?-push_cases t.services e i h) [
      | inl old ↦
          let (at, its_id) = v.indexed i e' old in
          (find_key-push_ne (key e'.service) (λ same. cc (ap (find_key t) same)) ∙ at, its_id)
      | inr (at_end, same) ↦ (
        ap (λ (x : Element). find_key (push t e) (key x.service)) (sym same)
            ∙ find_key-push_self
            ∙ ap some (sym at_end),
        ap (λ (x : Element). x.service_id) (sym same)
            ∙ id
            ∙ ap (λ n. (n + 1) % 2 ^ 16) (sym at_end),
      )
    ];
    found = λ k i h. elim (ServiceKey-discrete (key e.service) k) [
      | yes same ↦
          let at_end : length t.services ≡ i =
            some_inj (sym find_key-push_self ∙ ap (find_key (push t e)) same ∙ h) in
          (
            e,
            ap (get_elem? (t.services ++ e ∷ [])) (sym at_end) ∙ get_elem?-append_self t.services e,
            same,
          )
      | no n ↦
          let (e', at, its_key) = v.found k i (sym (find_key-push_ne k n) ∙ h) in
          (
            e',
            get_elem?-append_lt t.services (e ∷ []) i (get_elem?-lt t.services i at) ∙ at,
            its_key,
          )
    ];
  }

-- An element that is replaced keeps its key, its position and its ID.
module _ (t : ServiceTable) (v : IsValid t) (i : ℕ) (e e' : Element)
    (there : get_elem? t.services i ≡ some e) (same_key : key e'.service ≡ key e.service)
    (same_id : e'.service_id ≡ e.service_id) where
  abbrev pub replaced : ServiceTable
  replaced = record t { services = set t.services i e' }

  pub get_elem?-replaced : get_elem? (set t.services i e') i ≡ some e'
  get_elem?-replaced = get_elem?-set_self t.services i e' (get_elem?-lt t.services i there)

  pub replaced-IsValid : IsValid replaced
  replaced-IsValid = record {
    indexed = λ j x h. elim (ℕ_discrete i j) [
      | yes same ↦
          let is_new : e' ≡ x =
            some_inj (sym get_elem?-replaced ∙ ap (get_elem? (set t.services i e')) same ∙ h) in
          let (at, its_id) = v.indexed i e there in
          (
            ap (λ (y : Element). find_key t (key y.service)) (sym is_new)
                ∙ ap (find_key t) same_key
                ∙ at
                ∙ ap some same,
            ap (λ (y : Element). y.service_id) (sym is_new)
                ∙ same_id
                ∙ its_id
                ∙ ap (λ n. (n + 1) % 2 ^ 16) same,
          )
      | no n ↦ v.indexed j x (sym (get_elem?-set_ne t.services i j e' n) ∙ h)
    ];
    found = λ k j h.
        let (x, at, its_key) = v.found k j h in
        elim (ℕ_discrete i j) [
          | yes same ↦
              let is_old : e ≡ x = some_inj (sym there ∙ ap (get_elem? t.services) same ∙ at) in
              (
                e',
                ap (get_elem? (set t.services i e')) (sym same) ∙ get_elem?-replaced,
                same_key ∙ ap (λ (y : Element). key y.service) is_old ∙ its_key,
              )
          | no n ↦ (x, get_elem?-set_ne t.services i j e' n ∙ at, its_key)
        ];
  }
