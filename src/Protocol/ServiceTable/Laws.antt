-- ===== src/Protocol/ServiceTable/Laws.antt =====
-- What adding and finding services guarantees: the index stays right and IDs are stable.
use mathlib.Core.Option
use native.Mathlib.Decide.{ℕ_discrete}
use arrow_client.Base.{
  ℕ, ◌+◌, ◌-◌, ◌^◌, ◌≤◌, ◌<◌, ◌≡◌, ◌≢◌, ◌⊎◌, refl, sym, ap, ◌∙◌, Bool, true, false, none, some, [],
  ◌∷◌, ◌++◌, length, get_elem?, length-append, arith, Option-cases, inl, inr, Bool-cases,
  get_elem?-append_lt, get_elem?-append_self, get_elem?-set_ne, some_inj, length-set, ◌==◌,
  if◌then◌else◌,
}
use arrow_client.Base.Int.{ℤ}
use arrow_client.Base.Outcome.{ok}
use arrow_client.Protocol.Service.{Service, control_protocol, key}
use arrow_client.Protocol.ServiceTable.{
  Element, ServiceTable, is_control, find, contains, get, get_id, next_id, push, add_element,
  add_internal,
}
use arrow_client.Protocol.ServiceTable.Index.{
  IsValid, find_key, get_elem?-lt, push-IsValid, replaced-IsValid, find_key-push_self,
  find_key-push_ne, get_elem?-replaced, replaced,
}

is_control-eq : (svc : Service) → is_control svc ≡ true → svc ≡ control_protocol
is_control-eq control_protocol h = refl
is_control-eq _ h = cc

get_of_elem :
    (t : ServiceTable) (i : ℕ) (e : Element)
    → get_elem? t.services i ≡ some e
    → get t (i + 1) ≡ some e.service
unfolding get
get_of_elem t i e h =
    let later : (i + 1 == 0) ≡ false = ground arith in
    let back : i + 1 - 1 ≡ i = omega arith in rw (later, back, h)

get_id_of_find :
    (t : ServiceTable) (svc : Service) (i : ℕ)
    → is_control svc ≡ false
    → i + 1 < 2 ^ 16
    → find t svc ≡ some i
    → get_id t svc ≡ some (i + 1)
unfolding get_id
get_id_of_find t svc i service small h = rw (service, h) (ap some (omega arith))

find_of_get_id :
    (t : ServiceTable) (svc : Service) (id : ℕ)
    → IsValid t
    → length t.services < 2 ^ 16 - 1
    → is_control svc ≡ false
    → get_id t svc ≡ some id
    → (i : ℕ) × (find t svc ≡ some i) × (i < length t.services) × (id ≡ i + 1)
unfolding get_id
find_of_get_id t svc id v room service h = elim (Option-cases (find t svc)) [
  | inl absent ↦ let h' = rw (service, absent) at h in cc
  | inr (i, at) ↦
      let h' = rw (service, at) at h in
      let (e, there, _) = v.found (key svc) i at in
      let lt = get_elem?-lt t.services i there in (i, at, lt, omega (arith, some_inj h'))
]

get_control :
    (t : ServiceTable) (svc : Service) (id : ℕ)
    → is_control svc ≡ true
    → get_id t svc ≡ some id
    → get t id ≡ some control_protocol
unfolding get get_id
get_control t svc id control h = let h' = rw control at h in ap (get t) (sym (some_inj h'))

-- Looking a service up by the ID that the table has for it gives a service of the same key, in a
-- valid table of less than 65535 services.
pub get-get_id :
    (t : ServiceTable) (svc : Service) (id : ℕ)
    → IsValid t
    → length t.services < 2 ^ 16 - 1
    → get_id t svc ≡ some id
    → (found : Service) × (get t id ≡ some found) × (key found ≡ key svc)
get-get_id t svc id v room h = elim (Bool-cases (is_control svc)) [
  | inl control ↦
      (control_protocol, get_control t svc id control h, ap key (sym (is_control-eq svc control)))
  | inr service ↦
      let (i, at, lt, id_eq) = find_of_get_id t svc id v room service h in
      let (e, there, its_key) = v.found (key svc) i at in
      (e.service, ap (get t) id_eq ∙ get_of_elem t i e there, its_key)
]

-- What a table knows after `svc` has been put under the ID `id`: the service is found, by its key
-- and by its ID; the other keys keep their IDs, and the other IDs their services.
pub record Knows (t t' : ServiceTable) (svc : Service) (id : ℕ) : Type 0 where
  pub valid : IsValid t'
  pub known : contains t' svc ≡ true
  pub its_id : get_id t' svc ≡ some id
  pub stored : get t' id ≡ some svc
  pub other_keys : (other : Service) → key other ≢ key svc → get_id t' other ≡ get_id t other
  pub other_ids : (j : ℕ) → j ≤ length t.services → j ≢ id → get t' j ≡ get t j

module _ (t t' : ServiceTable) (svc : Service) where
  contains_of_find :
      (i : ℕ) → is_control svc ≡ false → find t' svc ≡ some i → contains t' svc ≡ true
  unfolding contains
  contains_of_find i service h = rw (service, h)

  get_id_same_find : find t' svc ≡ find t svc → get_id t' svc ≡ get_id t svc
  unfolding get_id
  get_id_same_find e = rw e

  get_same_elem :
      (j : ℕ)
      → ((i : ℕ) → j ≡ i + 1 → get_elem? t'.services i ≡ get_elem? t.services i)
      → get t' j ≡ get t j
  unfolding get
  get_same_elem j h = elim (ℕ_discrete j 0) [
    | yes z ↦ rw z
    | no n ↦
        ap
          (λ o. if j == 0 then some control_protocol else Option.map (λ (e : Element). e.service) o)
          (h (j - 1) (omega arith))
  ]

-- The element that `add_internal` makes for a service that the table lacks.
abbrev pub fresh_element : Bool → Service → ℤ → ServiceTable → Element
fresh_element static_svc svc now t = record {
  service_id = next_id t;
  service = svc;
  static_service = static_svc;
  last_seen = now;
  active = true;
}

module _ (static_svc : Bool) (svc : Service) (now : ℤ) (t : ServiceTable) (v : IsValid t)
    (room : length t.services < 2 ^ 16 - 1) (service : is_control svc ≡ false) where
  -- A service whose key the table lacks gets the next ID.
  pub add_new :
      find t svc ≡ none
      → (t' : ServiceTable) × (add_internal static_svc svc now t
          ≡ ok (t', some (length t.services + 1)))
        × Knows t t' svc (length t.services + 1)
        × (t'.services ≡ t.services ++ fresh_element static_svc svc now t ∷ [])
  unfolding add_internal
  add_new absent =
      let e = fresh_element static_svc svc now t in
      let t' = push t e in
      let n = length t.services in
      let here = find_key-push_self t v e absent in
      (
        t',
        rw (service, absent) (ap (λ (k : ℕ). ok (t', some k)) (omega arith)),
        record {
          valid = push-IsValid t v e absent refl;
          known = contains_of_find t t' svc n service here;
          its_id = get_id_of_find t' svc n service (omega arith) here;
          stored = get_of_elem t' n e (get_elem?-append_self t.services e);
          other_keys = λ other differs.
              get_id_same_find t t' other
                (find_key-push_ne t v e absent (key other) (λ q. differs (sym q)));
          other_ids = λ j le differs.
              get_same_elem t t' svc j
                (λ i e'. get_elem?-append_lt t.services (e ∷ []) i (omega arith));
        },
        refl,
      )

  -- A service whose key the table has keeps its ID; its address and the time are renewed.
  pub add_known :
      (id : ℕ)
      → get_id t svc ≡ some id
      → (t' : ServiceTable) × (add_internal static_svc svc now t ≡ ok (t', none))
        × Knows t t' svc id
        × (length t'.services ≡ length t.services)
  unfolding add_internal
  add_known id h =
      let (i, at, lt, id_eq) = find_of_get_id t svc id v room service h in
      let (e, there, its_key) = v.found (key svc) i at in
      let e' : Element = record e { last_seen = now; service = svc } in
      let t' = replaced t v i e e' there (sym its_key) refl in
      (
        t',
        rw (service, at, there),
        record {
          valid = replaced-IsValid t v i e e' there (sym its_key) refl;
          known = contains_of_find t t' svc i service at;
          its_id = get_id_same_find t t' svc refl ∙ h;
          stored =
              ap (get t') id_eq
              ∙ get_of_elem t' i e' (get_elem?-replaced t v i e e' there (sym its_key) refl);
          other_keys = λ other differs. get_id_same_find t t' other refl;
          other_ids = λ j le differs.
              get_same_elem t t' svc j
                (λ k k_eq. get_elem?-set_ne t.services i k e' (λ same. differs (omega arith)));
        },
        length-set t.services i e',
      )

-- Adding a service to a valid table with room never panics. The Control Protocol service is left
-- out. Any other service gets the ID after the last and is reported by it, if the table lacks its
-- key; otherwise nothing is reported, and the service keeps the ID that it has. In both cases the
-- table then finds the service by its key and by its ID, no other key and no other ID is touched,
-- and the index stays right.
pub add_internal_lem :
    (static_svc : Bool) (svc : Service) (now : ℤ) (t : ServiceTable)
    → IsValid t
    → length t.services < 2 ^ 16 - 1
    → ((is_control svc ≡ true) × (add_internal static_svc svc now t ≡ ok (t, none)))
      ⊎ (((t' : ServiceTable) × (contains t svc ≡ false)
            × (add_internal static_svc svc now t ≡ ok (t', some (length t.services + 1)))
            × Knows t t' svc (length t.services + 1)
            × (length t'.services ≡ length t.services + 1))
          ⊎ ((t' : ServiceTable) × (id : ℕ) × (contains t svc ≡ true)
              × (get_id t svc ≡ some id)
              × (add_internal static_svc svc now t ≡ ok (t', none))
              × Knows t t' svc id
              × (length t'.services ≡ length t.services)))
unfolding add_internal contains
add_internal_lem static_svc svc now t v room = elim (Bool-cases (is_control svc)) [
  | inl control ↦ inl (control, rw control)
  | inr service ↦ inr (elim (Option-cases (find t svc)) [
    | inl absent ↦
        let (t', run, knows, services) = add_new static_svc svc now t v room service absent in
        inl (t', rw (service, absent), run, knows, ap length services ∙ length-append t.services _)
    | inr (i, at) ↦
        let (e, there, _) = v.found (key svc) i at in
        let its_id =
          get_id_of_find t svc i service (omega (arith, get_elem?-lt t.services i there)) at in
        let (t', run, knows, size) = add_known static_svc svc now t v room service (i + 1) its_id in
        inr (t', i + 1, rw (service, at), its_id, run, knows, size)
  ])
]

-- An element from a configuration is added under the next ID unless its key is there, and the index
-- stays right.
pub add_element-IsValid : (t : ServiceTable) (e : Element) → IsValid t → IsValid (add_element t e)
unfolding add_element
add_element-IsValid t e v = elim (Option-cases (find_key t (key e.service))) [
  | inl absent ↦ rw absent (push-IsValid t v (record e { service_id = next_id t }) absent refl)
  | inr (i, at) ↦ rw at v
]
