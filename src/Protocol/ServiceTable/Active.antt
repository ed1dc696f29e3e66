-- ===== src/Protocol/ServiceTable/Active.antt =====
-- The active flags of a service table.
use mathlib.Core.Bool.{xor}
use arrow_client.Base.{
  ◌≡◌, ◌↔◌, ◌∙◌, refl, ap, ap₂, Bool, true, false, ◌||◌, List, [], ◌∷◌, ◌++◌, arith, Bool-cases,
  inl, inr, if◌then◌else◌, append_assoc, append-nil, sym,
}
use arrow_client.Base.Int.{ℤ, pos, negsuc, ◌+ℤ◌, le_int}
use arrow_client.Protocol.Service.{Service, control_protocol}
use arrow_client.Protocol.ServiceTable.{
  Element, ServiceTable, update_active_flag, update_flags, update_active_services, push_active,
  active_services,
}

-- Whether a service is static or was last seen at `now` - 1200 seconds or later, also later than `now`
abbrev pub seen_since : ℤ → Element → Bool
seen_since now e = if e.static_service then true else le_int (now +ℤ negsuc 1199) e.last_seen

-- The services that were seen since then, in the order of the table
abbrev pub seen_services : ℤ → List Element → List Service
seen_services now [] = []
seen_services now (e ∷ es) =
    let rest = seen_services now es in if seen_since now e then e.service ∷ rest else rest

le_int_shift :
    (now last_seen : ℤ) → le_int (now +ℤ negsuc 1199) last_seen ≡ le_int now (last_seen +ℤ pos 1200)
le_int_shift (pos n) (pos m) = ground arith
le_int_shift (pos n) (negsuc m) = ground arith
le_int_shift (negsuc n) (pos m) = ground arith
le_int_shift (negsuc n) (negsuc m) = ground arith

flag-seen_since : (now : ℤ) (e : Element) → (update_active_flag now e).0.active ≡ seen_since now e
unfolding update_active_flag
flag-seen_since now e = ground (arith, le_int_shift now e.last_seen)

flag_same :
    (now : ℤ) (e : Element)
    → (update_active_flag now e).1 ≡ false
    → (update_active_flag now e).0 ≡ e
unfolding update_active_flag xor
flag_same now e h = ground arith

flag_kept :
    (now : ℤ) (e : Element)
    → (update_active_flag now e).0 ≡ e
    → (update_active_flag now e).1 ≡ false
unfolding update_active_flag xor
flag_kept now e h = let same = ap (λ (x : Element). x.active) h in ground (arith, same)

update_flags-true : (now : ℤ) (es : List Element) → (update_flags now true es).1 ≡ true
unfolding update_flags
update_flags-true now [] = refl
update_flags-true now (e ∷ es) = elim (Bool-cases (update_active_flag now e).1) [
  | inl yes' ↦ rw yes' (update_flags-true now es)
  | inr no' ↦ rw no' (update_flags-true now es)
]

update_flags_same :
    (now : ℤ) (es : List Element)
    → (update_flags now false es).1 ≡ false
    → (update_flags now false es).0 ≡ es
unfolding update_flags
update_flags_same now [] h = refl
update_flags_same now (e ∷ es) h = elim (Bool-cases (update_active_flag now e).1) [
  | inl changed ↦ let h' = rw changed at h in cc (update_flags-true now es)
  | inr kept ↦
      let h' = rw kept at h in
      rw kept (ap₂ ◌∷◌ (flag_same now e kept) (update_flags_same now es h'))
]

same_parts : {e e' : Element} {es es' : List Element} → e ∷ es ≡ e' ∷ es' → (e ≡ e') × (es ≡ es')
same_parts h = (cc, cc)

update_flags_kept :
    (now : ℤ) (es : List Element)
    → (update_flags now false es).0 ≡ es
    → (update_flags now false es).1 ≡ false
unfolding update_flags
update_flags_kept now [] h = refl
update_flags_kept now (e ∷ es) h =
    let (first, later) = same_parts h in
    let unchanged = flag_kept now e first in
    let tail : (update_flags now false es).0 ≡ es = rw unchanged at later in
    rw unchanged (update_flags_kept now es tail)

-- The services of the active elements, in the order of their IDs.
abbrev pub active_of : List Element → List Service
active_of [] = []
active_of (e ∷ es) = if e.active then e.service ∷ active_of es else active_of es

push_active-append :
    (es : List Element) (res : List Service) → push_active res es ≡ res ++ active_of es
unfolding push_active
push_active-append [] res = sym (append-nil res)
push_active-append (e ∷ es) res = ground (
  arith,
  push_active-append es (res ++ e.service ∷ []),
  push_active-append es res,
  append_assoc res (e.service ∷ []) (active_of es),
)

active_services-active_of :
    (t : ServiceTable) → active_services t ≡ control_protocol ∷ active_of t.services
unfolding active_services
active_services-active_of t = push_active-append t.services (control_protocol ∷ [])

update_flags-seen_services :
    (now : ℤ) (acc : Bool) (es : List Element)
    → active_of (update_flags now acc es).0 ≡ seen_services now es
unfolding update_flags update_active_flag
update_flags-seen_services now acc [] = refl
update_flags-seen_services now acc (e ∷ es) =
    let rest = update_flags-seen_services now ((update_active_flag now e).1 || acc) es in
    ap₂ (λ b l. if b then e.service ∷ l else l) (flag-seen_since now e) rest

-- Just after an update at the time `now`, the active services are the Control Protocol service and
-- then, in the order of the table, the services that are static or were last seen at `now` - 1200
-- seconds or later, also those last seen later than `now`. The update reports no change exactly when
-- it leaves the table as it was.
pub update_active_services_lem :
    (now : ℤ) (t : ServiceTable)
    → (active_services (update_active_services now t).0
        ≡ control_protocol ∷ seen_services now t.services)
      × (((update_active_services now t).1 ≡ false) ↔ ((update_active_services now t).0 ≡ t))
unfolding update_active_services
update_active_services_lem now t = (
  active_services-active_of (update_active_services now t).0
      ∙ ap (◌∷◌ control_protocol) (update_flags-seen_services now false t.services),
  (
    λ h. ap (λ l. record t { services = l }) (update_flags_same now t.services h),
    λ h. update_flags_kept now t.services (ap (λ (t : ServiceTable). t.services) h),
  ),
)
