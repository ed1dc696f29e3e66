-- ===== src/Commands/Services/Errors.antt =====
-- When the URLs of the command line panic, and when they name a service.
use mathlib.Core.Path.{subst}
use arrow_client.Base.{
  ℕ, ◌/◌, ◌%◌, ◌≡◌, ◌⊎◌, inl, inr, refl, ap, ◌∙◌, sym, Option, none, some, List, arith,
  Option-cases,
}
use arrow_client.Commands.Parser.{Exit, done, exit, panic}
use arrow_client.Commands.Services.{
  Captures, Urls, port_or, url_service, get_fake_mac_address, parse_url, parse_rtsp_url,
}
use arrow_client.Net.Addr.{MacAddr, SocketAddr, sock4, sock6}
use arrow_client.Protocol.Service.{Service, rtsp, locked_rtsp}

-- A port that is given, but is no `u16`
abbrev pub IsBadPort : Urls → Option (List ℕ) → Type 0
IsBadPort o none = ⊥
IsBadPort o (some port_str) = o.u16_from_str port_str ≡ none

-- Captures whose reading panics
abbrev pub IsUnreadable : Urls → Option Captures → Type 0
IsUnreadable o none = ⊥
IsUnreadable o (some caps) = (caps.path ≡ none) ⊎ IsBadPort o caps.port

-- The port that a URL asks for: 554 where it has none
abbrev pub IsPort : Urls → Option (List ℕ) → ℕ → Type 0
IsPort o none port = port ≡ 554
IsPort o (some port_str) port = o.u16_from_str port_str ≡ some port

-- The octets ff:ff and then the IPv4 address, or the last two groups of the IPv6 address
abbrev pub address_mac : SocketAddr → MacAddr
address_mac (sock4 ip port) = record { a = 255; b = 255; c = ip.a; d = ip.b; e = ip.c; f = ip.d }
address_mac (sock6 ip port flowinfo scope_id) = record {
  a = 255;
  b = 255;
  c = ip.s6 / 256 % 256;
  d = ip.s6 % 256;
  e = ip.s7 / 256 % 256;
  f = ip.s7 % 256;
}

-- The RTSP service at an address: with its path, or locked where there are credentials
abbrev pub rtsp_service : Option (List ℕ) → List ℕ → SocketAddr → Service
rtsp_service none path addr = rtsp (address_mac addr) addr path
rtsp_service (some credentials) path addr = locked_rtsp (address_mac addr) addr

-- The service that captures name: they have a path and a port, and the address of the host is found.
abbrev pub Names : Urls → Option Captures → Service → Type 0
Names o none svc = ⊥
Names o (some caps) svc =
    (path : List ℕ) × (port : ℕ) × (addr : SocketAddr) × (caps.path ≡ some path)
    × IsPort o caps.port port
    × (o.get_socket_address caps.host port ≡ some addr)
    × (svc ≡ rtsp_service caps.credentials path addr)

-- What reading captures comes to, with the reasons
abbrev pub Reads : Urls → Option Captures → Exit (Option Service) → Type 0
Reads o caps panic = IsUnreadable o caps
Reads o caps (exit n) = ⊥
Reads o caps (done (some svc)) = Names o caps svc
Reads o caps (done none) = (IsUnreadable o caps → ⊥) × ((svc : Service) → Names o caps svc → ⊥)

IsPort-cases :
    (o : Urls) (port : Option (List ℕ))
    → ((port_or o 554 port ≡ panic) × IsBadPort o port)
      ⊎ ((n : ℕ) × (port_or o 554 port ≡ done n) × IsPort o port n × (IsBadPort o port → ⊥))
IsPort-cases o none = inr (554, refl, refl, λ bad. bad)
IsPort-cases o (some s) = elim (Option-cases (o.u16_from_str s)) [
  | inl bad ↦ inl (rw bad refl, bad)
  | inr (n, e) ↦ inr (n, rw e refl, e, λ bad. ground arith)
]

IsPort-inj :
    (o : Urls) (port : Option (List ℕ)) (n n' : ℕ) → IsPort o port n → IsPort o port n' → n ≡ n'
IsPort-inj o none n n' e e' = e ∙ sym e'
IsPort-inj o (some s) n n' e e' = let both : some n ≡ some n' = sym e ∙ e' in cc

get_fake_mac_address-address_mac :
    (addr : SocketAddr) → get_fake_mac_address 0xffff addr ≡ address_mac addr
unfolding get_fake_mac_address
get_fake_mac_address-address_mac (sock4 ip port) = refl
get_fake_mac_address-address_mac (sock6 ip port flowinfo scope_id) = refl

url_service-rtsp_service :
    (o : Urls) (caps : Captures) (path : List ℕ) (addr : SocketAddr)
    → url_service o locked_rtsp rtsp caps path addr ≡ rtsp_service caps.credentials path addr
url_service-rtsp_service o caps path addr =
    let mac = get_fake_mac_address-address_mac addr in
    elim (Option-cases caps.credentials) [
      | inl e ↦ rw e (ap (λ mac. rtsp mac addr path) mac)
      | inr (credentials, e) ↦ rw e (ap (λ mac. locked_rtsp mac addr) mac)
    ]

readable :
    (o : Urls) (caps : Captures) (path : List ℕ)
    → caps.path ≡ some path
    → (IsBadPort o caps.port → ⊥)
    → IsUnreadable o (some caps)
    → ⊥
readable o caps path p good (inl n) = let e = sym n ∙ p in cc
readable o caps path p good (inr bad) = good bad

no_name :
    (o : Urls) (caps : Captures) (port : ℕ)
    → IsPort o caps.port port
    → o.get_socket_address caps.host port ≡ none
    → (svc : Service) → Names o (some caps) svc
    → ⊥
no_name o caps port e lost svc (path', port', addr, p', e', found, s) =
    let same : port ≡ port' = IsPort-inj o caps.port port port' e e' in
    let found' : none ≡ some addr = sym lost ∙ ap (o.get_socket_address caps.host) same ∙ found in
    cc

parse_url-Reads :
    (o : Urls) (caps : Option Captures) → Reads o caps (parse_url o 554 locked_rtsp rtsp caps)
unfolding parse_url
parse_url-Reads o none = ((λ bad. bad), (λ svc named. named))
parse_url-Reads o (some caps) = elim (Option-cases caps.path) [
  | inl p ↦
      let eq : parse_url o 554 locked_rtsp rtsp (some caps) ≡ panic = rw p refl in
      subst (Reads o (some caps)) (sym eq) (inl p)
  | inr (path, p) ↦ elim (IsPort-cases o caps.port) [
    | inl (e, bad) ↦
        let eq : parse_url o 554 locked_rtsp rtsp (some caps) ≡ panic = rw p (rw e refl) in
        subst (Reads o (some caps)) (sym eq) (inr bad)
    | inr (port, e, asked, good) ↦ elim (Option-cases (o.get_socket_address caps.host port)) [
      | inl lost ↦
          let eq : parse_url o 554 locked_rtsp rtsp (some caps) ≡ done none =
            rw p (rw e (rw lost refl)) in
          subst (Reads o (some caps)) (sym eq)
            (readable o caps path p good, no_name o caps port asked lost)
      | inr (addr, found) ↦
          let svc = url_service o locked_rtsp rtsp caps path addr in
          let eq : parse_url o 554 locked_rtsp rtsp (some caps) ≡ done (some svc) =
            rw p (rw e (rw found refl)) in
          subst (Reads o (some caps)) (sym eq)
            (path, port, addr, p, asked, found, url_service-rtsp_service o caps path addr)
    ]
  ]
]

-- Reading an RTSP URL panics only when the expression matches it and it has no path or has a port that
-- is no `u16`. It gives a service only when the expression matches and a path, a port, which is 554
-- where the URL has none, and an address are found; the service is the locked one at that address when
-- the URL has credentials, and otherwise the one at that address with that path; its MAC address is
-- ff:ff and the IPv4 address, or the last four octets of the IPv6 address. Reading gives an error only
-- when it can give neither, and it never ends the process by itself.
pub parse_rtsp_url_lem :
    (o : Urls) (url : List ℕ) → Reads o (o.rtsp_captures url) (parse_rtsp_url o url)
unfolding parse_rtsp_url
parse_rtsp_url_lem o url = parse_url-Reads o (o.rtsp_captures url)
