-- ===== src/Protocol/ServiceTable.antt =====
-- `ServiceTable` of src/net/arrow/protocol/svc_table.rs. The clock `get_utc_timestamp` is an
-- argument of the calls that read it. Timestamps are far from the ends of an `i64`.
pub mod Index
pub mod Laws
pub mod Active
use mathlib.Core.Option
use mathlib.Core.Bool.{xor}
use arrow_client.Base.{
  ℕ, suc, ◌+◌, ◌-◌, ◌%◌, ◌^◌, ◌≡◌, refl, Bool, true, false, ◌||◌, Option, none, some, List, [], ◌∷◌,
  ◌++◌, length, get_elem?, set, length-append, ◌==◌, if◌then◌else◌, arith,
}
use arrow_client.Base.Dict.{Dict, lookup, contains_key, insert}
use arrow_client.Base.Int.{ℤ, pos, ◌+ℤ◌, le_int}
use arrow_client.Base.Outcome.{Outcome, ok, panic}
use arrow_client.Protocol.Message.{Body}
use arrow_client.Protocol.Service
use arrow_client.Protocol.Service.{
  Service, control_protocol, rtsp, locked_rtsp, unknown_rtsp, unsupported_rtsp, http, mjpeg,
  locked_mjpeg, tcp, ServiceKey, ServiceKey-discrete, key,
}

-- `svc == Service::ControlProtocol`
abbrev pub is_control : Service → Bool
is_control control_protocol = true
is_control (rtsp _ _ _) = false
is_control (locked_rtsp _ _) = false
is_control (unknown_rtsp _ _) = false
is_control (unsupported_rtsp _ _ _) = false
is_control (http _ _) = false
is_control (mjpeg _ _ _) = false
is_control (locked_mjpeg _ _) = false
is_control (tcp _ _) = false

-- `ACTIVE_THRESHOLD`, in seconds
abbrev pub active_threshold : ℕ
active_threshold = 1200

-- `ServiceTableElement`
pub record Element : Type 0 where
  pub service_id : ℕ
  pub service : Service
  pub static_service : Bool
  pub last_seen : ℤ
  pub active : Bool

-- The element with its new flag, and whether the flag changed.
unfoldable pub update_active_flag : ℤ → Element → Element × Bool
update_active_flag timestamp e =
    let now_active = e.static_service || le_int timestamp (e.last_seen +ℤ pos active_threshold) in
    (record e { active = now_active }, xor now_active e.active)

pub record ServiceTable : Type 0 where
  pub services : List Element
  pub map : Dict ServiceKey ℕ

abbrev pub new : ServiceTable
new = record { services = []; map = [] }

abbrev pub find : ServiceTable → Service → Option ℕ
find t svc = lookup ServiceKey-discrete (key svc) t.map

unfoldable pub contains : ServiceTable → Service → Bool
contains t svc = if is_control svc then true else contains_key ServiceKey-discrete (key svc) t.map

-- `id` is a `u16`, so the subtraction does not wrap.
unfoldable pub get : ServiceTable → ℕ → Option Service
get t id =
    if id == 0
    then some control_protocol
    else Option.map (λ (e : Element). e.service) (get_elem? t.services (id - 1))

unfoldable pub get_id : ServiceTable → Service → Option ℕ
get_id t svc = if is_control svc then some 0 else Option.map (λ i. (i + 1) % 2 ^ 16) (find t svc)

-- The ID that the next element gets, `(self.services.len() + 1) as u16`.
abbrev pub next_id : ServiceTable → ℕ
next_id t = (length t.services + 1) % 2 ^ 16

-- `self.map.insert(key, self.services.len()); self.services.push(elem);`
abbrev pub push : ServiceTable → Element → ServiceTable
push t e = record {
  services = t.services ++ e ∷ [];
  map = insert ServiceKey-discrete (key e.service) (length t.services) t.map;
}

unfoldable pub add_element : ServiceTable → Element → ServiceTable
add_element t e =
    if contains_key ServiceKey-discrete (key e.service) t.map
    then t
    else push t (record e { service_id = next_id t })

-- `let elem = &mut self.services[index]`, which panics out of range, and its two updates.
abbrev pub refresh :
    ServiceTable → ℕ → Service → ℤ → Option Element → Outcome (ServiceTable × Option ℕ)
refresh t index svc now none = panic
refresh t index svc now (some e) = ok (
  record t { services = set t.services index (record e { last_seen = now; service = svc }) },
  none,
)

unfoldable pub add_internal : Bool → Service → ℤ → ServiceTable → Outcome (ServiceTable × Option ℕ)
add_internal static_svc svc now t =
    let fresh : Element = record {
      service_id = next_id t;
      service = svc;
      static_service = static_svc;
      last_seen = now;
      active = true;
    } in
    if is_control svc then ok (t, none) else elim (find t svc) [
      | some index ↦ refresh t index svc now (get_elem? t.services index)
      | none ↦ ok (push t fresh, some (next_id t))
    ]

abbrev pub add : Service → ℤ → ServiceTable → Outcome (ServiceTable × Option ℕ)
add = add_internal false

abbrev pub add_static : Service → ℤ → ServiceTable → Outcome (ServiceTable × Option ℕ)
add_static = add_internal true

-- The fold over `services.iter_mut()`, with the elements that are left.
unfoldable pub update_flags : ℤ → Bool → List Element → List Element × Bool
update_flags timestamp acc [] = ([], acc)
update_flags timestamp acc (e ∷ es) =
    let (e', changed) = update_active_flag timestamp e in
    let (es', res) = update_flags timestamp (changed || acc) es in (e' ∷ es', res)

unfoldable pub update_active_services : ℤ → ServiceTable → ServiceTable × Bool
unfolding update_flags
update_active_services timestamp t =
    let (services, changed) = update_flags timestamp false t.services in
    (record t { services = services }, changed)

unfoldable pub push_active : List Service → List Element → List Service
push_active res [] = res
push_active res (e ∷ es) = push_active (if e.active then res ++ e.service ∷ [] else res) es

unfoldable pub active_services : ServiceTable → List Service
unfolding push_active
active_services t = push_active (control_protocol ∷ []) t.services

unfoldable pub serialize_services : List Element → List ℕ
serialize_services [] = []
serialize_services (e ∷ es) =
    (if e.active then Service.serialize e.service e.service_id else []) ++ serialize_services es

unfoldable pub serialize : ServiceTable → List ℕ
unfolding serialize_services
serialize t = serialize_services t.services ++ Service.serialize control_protocol 0

unfoldable pub sum_len : ℕ → List Element → ℕ
sum_len sum [] = sum
sum_len sum (e ∷ es) = sum_len (if e.active then sum + Service.len e.service else sum) es

unfoldable pub len : ServiceTable → ℕ
unfolding sum_len
len t = Service.len control_protocol + sum_len 0 t.services

sum_len-length :
    (sum : ℕ) (es : List Element) → sum_len sum es ≡ sum + length (serialize_services es)
unfolding sum_len serialize_services
sum_len-length sum [] = omega arith
sum_len-length sum (e ∷ es) = ground (
  arith,
  sum_len-length (sum + Service.len e.service) es,
  sum_len-length sum es,
  length-append (Service.serialize e.service e.service_id) (serialize_services es),
  Service.length-serialize e.service e.service_id,
)

-- The size that a table announces is the number of bytes that it writes.
pub length-serialize : (t : ServiceTable) → length (serialize t) ≡ len t
unfolding serialize len
length-serialize t = omega (
  arith,
  length-append (serialize_services t.services) (Service.serialize control_protocol 0),
  sum_len-length 0 t.services,
  Service.length-serialize control_protocol 0,
)

abbrev pub table_body : Body ServiceTable
table_body = record { serialize = serialize; len = len; length-serialize = length-serialize }
