-- ===== src/Discovery/Hosts/Filter.antt =====
-- The services that src/net/discovery.rs keeps of each host: `filter_duplicit_services` against the
-- first service of the host with the highest priority.
use native.Mathlib.Omega.{arith}
use mathlib.Core.Logic.{ite, if_pos, if_neg, ◌≢◌}
use mathlib.Core.Path.{◌≡◌, refl, sym, ap, subst, ◌∙◌}
use arrow_client.Base.{
  ℕ, Bool, true, false, Option, none, some, List, [], ◌∷◌, map, ltb, if◌then◌else◌,
}
use arrow_client.Base.Dict.{
  Dict, lookup, insert, lookup_hit, lookup_miss, lookup-insert_self, lookup-insert_ne,
}
use arrow_client.Discovery.Hosts.{
  IpAddr-discrete, Entry, priority, place, filter_service, filter_services, entry_addr,
  filter_duplicit_services,
}
use arrow_client.Net.Addr.{MacAddr, IpAddr, v4, v6, SocketAddr, ip, port}

abbrev pub Services : Type 0
Services = List (MacAddr × SocketAddr)

-- The services of a list that are at a host
unfoldable pub of_host : IpAddr → Services → Services
of_host a [] = []
of_host a (s ∷ services) =
    ite (IpAddr-discrete (ip (s.1)) a) (s ∷ of_host a services) (of_host a services)

either : {A : Type 0} (P : A → Type 0) (b : Bool) {x y : A} → P x → P y → P (if b then x else y)
either P true p q = p
either P false p q = q

either_both :
    {A B : Type 0} (f : A → B) (b : Bool) {x y : A} {u v : B}
    → f x ≡ u
    → f y ≡ v
    → f (if b then x else y) ≡ (if b then u else v)
either_both f true p q = p
either_both f false p q = q

module _ (prios : Dict ℕ ℕ) where
  -- The better of two services: the second one only if its priority is higher
  unfoldable pub better : Option Entry → Option Entry → Option Entry
  better none b = b
  better (some a) none = some a
  better (some a) (some b) =
      if ltb (priority prios (a.2)) (priority prios (b.2)) then some b else some a

  -- The first service of a host with the highest priority
  unfoldable pub best : IpAddr → Services → Option Entry
  unfolding better
  best a [] = none
  best a ((mac, saddr) ∷ services) =
      ite (IpAddr-discrete (ip saddr) a)
        (better (some (mac, ip saddr, port saddr)) (best a services)) (best a services)

  better-none : (x : Option Entry) → better x none ≡ x
  unfolding better
  better-none none = refl
  better-none (some a) = refl

  better_assoc : (x y z : Option Entry) → better (better x y) z ≡ better x (better y z)
  unfolding better
  better_assoc none y z = refl
  better_assoc (some a) none z = refl
  better_assoc (some a) (some b) none = better-none (better (some a) (some b))
  better_assoc (some a) (some b) (some c) = ground (arith, better)

  -- An entry is one more for its host, and no other host sees it.
  lookup-place_self :
      (e : Entry) (m : Dict IpAddr Entry) (o : Option Entry)
      → lookup IpAddr-discrete (e.1) m ≡ o
      → lookup IpAddr-discrete (e.1) (place prios e m o) ≡ better o (some e)
  unfolding place better
  lookup-place_self e m none q = lookup-insert_self IpAddr-discrete (e.1) e m
  lookup-place_self e m (some old) q =
      either_both (lookup IpAddr-discrete (e.1))
        (ltb (priority prios (old.2)) (priority prios (e.2)))
        (lookup-insert_self IpAddr-discrete (e.1) e m) q

  lookup-place_ne :
      (a : IpAddr) (e : Entry) (m : Dict IpAddr Entry) (o : Option Entry)
      → e.1 ≢ a
      → lookup IpAddr-discrete a (place prios e m o) ≡ lookup IpAddr-discrete a m
  unfolding place
  lookup-place_ne a e m none n = lookup-insert_ne IpAddr-discrete (e.1) a e m n
  lookup-place_ne a e m (some old) n =
      either (λ t. lookup IpAddr-discrete a t ≡ lookup IpAddr-discrete a m)
        (ltb (priority prios (old.2)) (priority prios (e.2)))
        (lookup-insert_ne IpAddr-discrete (e.1) a e m n) refl

  -- The loop finds the best service of each host, after those that it starts with.
  lookup-filter_services :
      (a : IpAddr) (services : Services) (m : Dict IpAddr Entry)
      → lookup IpAddr-discrete a (filter_services prios services m)
        ≡ better (lookup IpAddr-discrete a m) (best a services)
  unfolding filter_services filter_service best
  lookup-filter_services a [] m = sym (better-none (lookup IpAddr-discrete a m))
  lookup-filter_services a ((mac, saddr) ∷ services) m =
      lookup-filter_services a services (filter_service prios (mac, saddr) m)
      ∙ elim (IpAddr-discrete (ip saddr) a) [
        | yes e ↦
            ap (λ o. better o (best a services))
              (subst
                (λ b.
                  lookup IpAddr-discrete b (
                    place prios (mac, ip saddr, port saddr) m (lookup IpAddr-discrete (ip saddr) m))
                  ≡ better (lookup IpAddr-discrete b m) (some (mac, ip saddr, port saddr)))
                e (lookup-place_self (mac, ip saddr, port saddr) m _ refl))
            ∙ better_assoc (lookup IpAddr-discrete a m) _ (best a services)
            ∙ ap (better (lookup IpAddr-discrete a m))
                (sym (if_pos (IpAddr-discrete (ip saddr) a) e _ _))
        | no n ↦
            ap (λ o. better o (best a services))
              (lookup-place_ne a (mac, ip saddr, port saddr) m _ n)
            ∙ ap (better (lookup IpAddr-discrete a m))
                (sym (if_neg (IpAddr-discrete (ip saddr) a) n _ _))
      ]

-- The addresses of a map whose keys are those of its entries, each of them once
IsKeyed : Dict IpAddr Entry → Type 0
IsKeyed [] = Unit
IsKeyed ((k, e) ∷ m) = (e.1 ≡ k) × (lookup IpAddr-discrete k m ≡ none) × IsKeyed m

insert-IsKeyed :
    (k : IpAddr) (e : Entry) (m : Dict IpAddr Entry)
    → e.1 ≡ k
    → IsKeyed m
    → IsKeyed (insert IpAddr-discrete k e m)
unfolding insert IsKeyed lookup
insert-IsKeyed k e [] q h = (q, refl, tt)
insert-IsKeyed k e ((j, f) ∷ m) q (p, u, h) = elim (IpAddr-discrete j k) [
  | yes r ↦
      subst IsKeyed (sym (if_pos (IpAddr-discrete j k) r _ _))
        (q, subst (λ i. lookup IpAddr-discrete i m ≡ none) r u, h)
  | no n ↦
      subst IsKeyed (sym (if_neg (IpAddr-discrete j k) n _ _))
        (p, lookup-insert_ne IpAddr-discrete k j e m (λ r. n (sym r)) ∙ u, insert-IsKeyed k e m q h)
]

place-IsKeyed :
    (prios : Dict ℕ ℕ) (e : Entry) (m : Dict IpAddr Entry) (o : Option Entry)
    → IsKeyed m
    → IsKeyed (place prios e m o)
unfolding place
place-IsKeyed prios e m none h = insert-IsKeyed (e.1) e m refl h
place-IsKeyed prios e m (some old) h =
    either IsKeyed (ltb (priority prios (old.2)) (priority prios (e.2)))
      (insert-IsKeyed (e.1) e m refl h) h

filter_services-IsKeyed :
    (prios : Dict ℕ ℕ) (services : Services) (m : Dict IpAddr Entry)
    → IsKeyed m
    → IsKeyed (filter_services prios services m)
unfolding filter_services filter_service
filter_services-IsKeyed prios [] m h = h
filter_services-IsKeyed prios ((mac, saddr) ∷ services) m h =
    filter_services-IsKeyed prios services (filter_service prios (mac, saddr) m)
      (place-IsKeyed prios (mac, ip saddr, port saddr) m _ h)

ip-entry_addr : (k : IpAddr) (e : Entry) → ip ((entry_addr (k, e)).1) ≡ e.1
unfolding entry_addr
ip-entry_addr k (mac, v4 a, p) = refl
ip-entry_addr k (mac, v6 a, p) = refl

-- The address of an entry of a host, in a list
unfoldable pub kept : IpAddr → Option Entry → Services
unfolding entry_addr
kept a none = []
kept a (some e) = entry_addr (a, e) ∷ []

of_host-map :
    (a : IpAddr) (m : Dict IpAddr Entry)
    → IsKeyed m
    → of_host a (map entry_addr m) ≡ kept a (lookup IpAddr-discrete a m)
unfolding of_host IsKeyed lookup kept
of_host-map a [] h = refl
of_host-map a ((k, e) ∷ m) (p, u, h) = elim (IpAddr-discrete k a) [
  | yes r ↦
      let rest : of_host a (map entry_addr m) ≡ [] =
        of_host-map a m h ∙ ap (kept a) (subst (λ i. lookup IpAddr-discrete i m ≡ none) r u) in
      if_pos (IpAddr-discrete (ip ((entry_addr (k, e)).1)) a) (ip-entry_addr k e ∙ p ∙ r) _ _
      ∙ ap (λ more. entry_addr (k, e) ∷ more) rest
      ∙ ap (λ i. entry_addr (i, e) ∷ []) r
      ∙ sym (ap (kept a) (lookup_hit IpAddr-discrete a k e m r))
  | no n ↦
      if_neg (IpAddr-discrete (ip ((entry_addr (k, e)).1)) a)
        (λ q. n (sym p ∙ sym (ip-entry_addr k e) ∙ q)) _ _
      ∙ of_host-map a m h
      ∙ sym (ap (kept a) (lookup_miss IpAddr-discrete a k e m n))
]

-- Of the services of any host, what is kept is the first one with the highest priority, at its port,
-- and nothing else: one service for a host that has one, and none for any other host.
pub filter_duplicit_services_lem :
    (a : IpAddr) (services : Services) (prios : Dict ℕ ℕ)
    → of_host a (filter_duplicit_services services prios) ≡ kept a (best prios a services)
unfolding filter_duplicit_services better lookup IsKeyed
filter_duplicit_services_lem a services prios =
    of_host-map a (filter_services prios services []) (filter_services-IsKeyed prios services [] tt)
    ∙ ap (kept a) (lookup-filter_services prios a services [])
