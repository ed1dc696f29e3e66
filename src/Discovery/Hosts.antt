-- ===== src/Discovery/Hosts.antt =====
-- One service for each host: the pure functions of src/net/discovery.rs.
pub mod Filter
use native.Mathlib.Decide.{ℕ_discrete}
use mathlib.Core.Logic.{ite}
use arrow_client.Base.{
  ℕ, ◌+◌, ◌-◌, Bool, true, false, Option, none, some, is_some, List, [], ◌∷◌, ◌++◌, length, map,
  ltb, if◌then◌else◌,
}
use arrow_client.Base.Dict.{Dict, lookup, insert, contains_key}
use arrow_client.Net.Addr.{MacAddr, IpAddr, v4, v6, SocketAddr, sock4, sock6, ip, port}
use arrow_client.Protocol.ScanReport.{insert_set, extend_set}
use arrow_client.Protocol.Service
use arrow_client.Protocol.Service.{Service, http, unwrap_or}

unfoldable pub IpAddr-discrete : Discrete IpAddr
IpAddr-discrete = hlevel ℕ_discrete

-- The loop of `get_port_priorities`, with the number of the ports that are left
unfoldable pub get_port_priorities : List ℕ → Dict ℕ ℕ → Dict ℕ ℕ
get_port_priorities [] res = res
get_port_priorities (p ∷ ports) res =
    get_port_priorities ports (insert ℕ_discrete p (length ports + 1) res)

-- An entry of `svc_map`
abbrev pub Entry : Type 0
Entry = MacAddr × IpAddr × ℕ

abbrev pub priority : Dict ℕ ℕ → ℕ → ℕ
priority port_priorities p = unwrap_or (lookup ℕ_discrete p port_priorities) 0

-- What is kept after an entry, where there is an old entry of its host or none
unfoldable pub place : Dict ℕ ℕ → Entry → Dict IpAddr Entry → Option Entry → Dict IpAddr Entry
place port_priorities entry svc_map none = insert IpAddr-discrete (entry.1) entry svc_map
place port_priorities entry svc_map (some old) =
    if ltb (priority port_priorities (old.2)) (priority port_priorities (entry.2))
    then insert IpAddr-discrete (entry.1) entry svc_map
    else svc_map

-- A round of the loop of `filter_duplicit_services`
unfoldable pub filter_service :
    Dict ℕ ℕ → MacAddr × SocketAddr → Dict IpAddr Entry → Dict IpAddr Entry
unfolding place
filter_service port_priorities (mac, saddr) svc_map =
    place port_priorities (mac, ip saddr, port saddr) svc_map
      (lookup IpAddr-discrete (ip saddr) svc_map)

unfoldable pub filter_services :
    Dict ℕ ℕ → List (MacAddr × SocketAddr) → Dict IpAddr Entry → Dict IpAddr Entry
unfolding filter_service
filter_services port_priorities [] svc_map = svc_map
filter_services port_priorities (s ∷ services) svc_map =
    filter_services port_priorities services (filter_service port_priorities s svc_map)

-- The address of an entry
unfoldable pub entry_addr : IpAddr × Entry → MacAddr × SocketAddr
entry_addr (key, (mac, v4 a, p)) = (mac, sock4 a p)
entry_addr (key, (mac, v6 a, p)) = (mac, sock6 a p 0 0)

unfoldable pub filter_duplicit_services :
    List (MacAddr × SocketAddr) → Dict ℕ ℕ → List (MacAddr × SocketAddr)
unfolding filter_services entry_addr
filter_duplicit_services services port_priorities =
    map entry_addr (filter_services port_priorities services [])

-- The loop of `get_hosts`
unfoldable pub get_hosts : List Service → List IpAddr → List IpAddr
unfolding Service.address insert_set
get_hosts [] hosts = hosts
get_hosts (svc ∷ services) hosts = get_hosts services (elim (Service.address svc) [
  | none ↦ hosts
  | some saddr ↦ insert_set IpAddr-discrete (ip saddr) hosts
])

-- `HashSet::contains`
unfoldable pub has_host : IpAddr → List IpAddr → Bool
has_host a [] = false
has_host a (h ∷ hs) = ite (IpAddr-discrete h a) true (has_host a hs)

-- The loop of `find_http_services`
unfoldable pub find_http_services : List (MacAddr × SocketAddr) → List IpAddr → List Service
unfolding has_host
find_http_services [] hosts = []
find_http_services ((mac, saddr) ∷ http_ports) hosts =
    let rest = find_http_services http_ports hosts in
    if has_host (ip saddr) hosts then http mac saddr ∷ rest else rest
