-- ===== src/Discovery/Scan.antt =====
-- The threads of src/net/discovery.rs and `scan_network`. A thread is the result that it is joined for.
pub mod Panics
use native.Mathlib.Decide.{ℕ_discrete}
use arrow_client.Base.{
  ℕ, Bool, true, false, not, Option, none, some, List, [], ◌∷◌, ◌++◌, map, if◌then◌else◌, ◌||◌,
  ◌==◌,
}
use arrow_client.Base.Parsing.{Parsing, ok, err, panic, out_of_fuel, ◌>>=◌}
use arrow_client.Base.Text.{codes, starts_with}
use arrow_client.Discovery.Hosts.{
  get_port_priorities, filter_duplicit_services, get_hosts, find_http_services,
}
use arrow_client.Discovery.Probe.{
  Network, is_rtsp_service, is_http_service, find_rtsp_path, find_mjpeg_path,
}
use arrow_client.Net.Addr.{MacAddr, IpAddr, v4, v6, Ipv4Addr, SocketAddr, sock4, ip, port}
use arrow_client.Protocol.ScanReport
use arrow_client.Protocol.ScanReport.{
  ScanReport, HostKey, hinfo_flag_arp, hinfo_flag_icmp, socket_addrs, host_infos, extend_set,
}
use arrow_client.Protocol.Service.{Service}

-- `handle.join()`: a thread that has panicked is an error.
abbrev pub join : {A : Type 0} → Parsing A → Parsing A
join (ok a) = ok a
join err = err
join panic = err
join out_of_fuel = out_of_fuel

-- The results of threads, joined in their order up to the first error
unfoldable pub join_all : {A : Type 0} → List (Parsing A) → Parsing (List A)
join_all [] = ok []
join_all (t ∷ threads) = join t >>= λ a. (join_all threads >>= λ rest. ok (a ∷ rest))

-- `RTSP_PORT_CANDIDATES`
abbrev pub rtsp_port_candidates : List ℕ
rtsp_port_candidates = 554 ∷ 88 ∷ 81 ∷ 555 ∷ 7447 ∷ 8554 ∷ 7070 ∷ 10554 ∷ 80 ∷ 6667 ∷ []

-- `HTTP_PORT_CANDIDATES`
abbrev pub http_port_candidates : List ℕ
http_port_candidates = 80 ∷ 81 ∷ 8080 ∷ 8081 ∷ 8090 ∷ []

-- The set of all candidates
abbrev pub port_set : List ℕ
port_set =
    extend_set ℕ_discrete (extend_set ℕ_discrete [] rtsp_port_candidates) http_port_candidates

-- The loop of `load_paths` over the lines of a file; `none` is an I/O error.
unfoldable pub load_lines : List (Option (List ℕ)) → Parsing (List (List ℕ))
load_lines [] = ok []
load_lines (none ∷ lines) = err
load_lines (some path ∷ lines) =
    load_lines lines >>= λ paths. ok (if starts_with path (codes "#") then paths else path ∷ paths)

-- `load_paths`, where the file may not be there
unfoldable pub load_paths : Option (List (Option (List ℕ))) → Parsing (List (List ℕ))
unfolding load_lines
load_paths none = err
load_paths (some lines) = load_lines lines

-- `HashSet::contains`
unfoldable pub has_port : ℕ → List ℕ → Bool
has_port p [] = false
has_port p (q ∷ qs) = q == p || has_port p qs

-- The addresses that are probed
unfoldable pub with_port : List ℕ → List (MacAddr × SocketAddr) → List (MacAddr × SocketAddr)
unfolding has_port
with_port ports [] = []
with_port ports ((mac, addr) ∷ addrs) =
    let rest = with_port ports addrs in
    if has_port (port addr) ports then (mac, addr) ∷ rest else rest

-- The addresses whose probe says yes
unfoldable pub chosen : List ((MacAddr × SocketAddr) × Bool) → List (MacAddr × SocketAddr)
chosen [] = []
chosen ((a, yes') ∷ rest) = let more = chosen rest in if yes' then a ∷ more else more

-- The threads and the joins of `find_rtsp_ports` and `find_http_ports`, for their probe
unfoldable pub find_ports :
    (SocketAddr → Parsing Bool) → ScanReport → List ℕ → Parsing (List (MacAddr × SocketAddr))
unfolding join_all with_port chosen
find_ports probe report ports =
    join_all (
      map (λ (a : MacAddr × SocketAddr). probe (a.1) >>= λ yes'. ok (a, yes'))
        (with_port ports (socket_addrs report)))
    >>= λ res. ok (chosen res)

-- The services of the answers that name one
unfoldable pub some_services : List (Option Service) → List Service
some_services [] = []
some_services (none ∷ res) = some_services res
some_services (some svc ∷ res) = svc ∷ some_services res

-- `add_host` for what the ARP and ICMP scanners find
unfoldable pub add_hosts : List (MacAddr × Ipv4Addr) → ℕ → ScanReport → ScanReport
unfolding ScanReport.add_host
add_hosts [] flags r = r
add_hosts ((mac, ip) ∷ hosts) flags r =
    add_hosts hosts flags (ScanReport.add_host (record { mac = mac; ip = v4 ip }) flags r)

-- The hosts with an IPv4 address
unfoldable pub ipv4_hosts : List ScanReport.HostInfo → List (MacAddr × Ipv4Addr)
ipv4_hosts [] = []
ipv4_hosts (h ∷ hs) = elim h.ip_addr [
  | v4 ip ↦ (h.mac_addr, ip) ∷ ipv4_hosts hs
  | v6 ip ↦ ipv4_hosts hs
]

unfoldable pub add_ports : List (MacAddr × SocketAddr) → ScanReport → ScanReport
unfolding ScanReport.add_port
add_ports [] r = r
add_ports ((mac, addr) ∷ open_ports) r =
    add_ports open_ports (ScanReport.add_port (record { mac = mac; ip = ip addr }) (port addr) r)

-- What the scanners of a device give: the ARP and the ICMP scanner, and that of ports for some hosts
pub record Device : Type 0 where
  pub arp_scan : Parsing (List (MacAddr × Ipv4Addr))
  pub icmp_scan : Parsing (List (MacAddr × Ipv4Addr))
  pub tcp_scan : List (MacAddr × Ipv4Addr) → Parsing (List (MacAddr × Ipv4Addr × ℕ))

-- `find_open_ports`
unfoldable pub find_open_ports :
    Device → List (MacAddr × Ipv4Addr) → Parsing (List (MacAddr × SocketAddr))
find_open_ports device hosts = device.tcp_scan hosts >>= λ res.
    ok (map (λ (t : MacAddr × Ipv4Addr × ℕ). (t.0, sock4 (t.1) (t.2))) res)

unfoldable pub find_open_ports_in_network : Device → Parsing ScanReport
unfolding add_hosts ipv4_hosts find_open_ports add_ports
find_open_ports_in_network device = device.arp_scan >>= (λ arp. device.icmp_scan >>= (λ icmp.
    (let report = add_hosts icmp hinfo_flag_icmp (add_hosts arp hinfo_flag_arp ScanReport.new) in
      find_open_ports device (ipv4_hosts (host_infos report)) >>= λ open_ports.
      ok (add_ports open_ports report))))

-- The loop of `find_all_open_ports` over its threads
unfoldable pub merge_all : List (Parsing ScanReport) → ScanReport → Parsing ScanReport
unfolding ScanReport.merge
merge_all [] report = ok report
merge_all (t ∷ threads) report =
    join t >>= λ other. merge_all threads (ScanReport.merge report other)

unfoldable pub find_all_open_ports : List Device → Parsing ScanReport
unfolding find_open_ports_in_network merge_all
find_all_open_ports devices = merge_all (map find_open_ports_in_network devices) ScanReport.new

unfoldable pub add_services : List Service → ScanReport → ScanReport
unfolding ScanReport.add_service
add_services [] r = r
add_services (svc ∷ services) r = add_services services (ScanReport.add_service svc r)

module _ (net : Network) where
  unfoldable pub find_rtsp_ports : ScanReport → List ℕ → Parsing (List (MacAddr × SocketAddr))
  unfolding find_ports is_rtsp_service
  find_rtsp_ports = find_ports (is_rtsp_service net)

  unfoldable pub find_http_ports : ScanReport → List ℕ → Parsing (List (MacAddr × SocketAddr))
  unfolding find_ports is_http_service
  find_http_ports = find_ports (is_http_service net)

  unfoldable pub find_rtsp_services :
      Option (List (Option (List ℕ))) → List (MacAddr × SocketAddr) → Parsing (List Service)
  unfolding load_paths join_all find_rtsp_path
  find_rtsp_services file rtsp_ports = load_paths file >>= λ paths.
      join_all (map (λ (a : MacAddr × SocketAddr). find_rtsp_path net (a.0) (a.1) paths) rtsp_ports)

  unfoldable pub find_mjpeg_services :
      Option (List (Option (List ℕ))) → List (MacAddr × SocketAddr) → Parsing (List Service)
  unfolding load_paths join_all find_mjpeg_path some_services
  find_mjpeg_services file mjpeg_ports = load_paths file >>= (λ paths.
      join_all
        (map (λ (a : MacAddr × SocketAddr). find_mjpeg_path net (a.0) (a.1) paths) mjpeg_ports)
      >>= λ res. ok (some_services res))

  -- `scan_network`, for the devices that are listed; the candidates for ports are part of what their
  -- scanners give.
  unfoldable pub scan_network :
      List Device
      → Option (List (Option (List ℕ)))
      → Option (List (Option (List ℕ)))
      → Parsing ScanReport
  unfolding find_all_open_ports find_rtsp_ports find_http_ports find_rtsp_services
      find_mjpeg_services add_services get_port_priorities filter_duplicit_services get_hosts
      find_http_services
  scan_network devices rtsp_paths_file mjpeg_paths_file = find_all_open_ports devices >>= (λ report.
      find_rtsp_ports report rtsp_port_candidates >>= (λ all_rtsp_ports.
        (let rtsp_ports =
            filter_duplicit_services all_rtsp_ports (get_port_priorities rtsp_port_candidates []) in
          find_http_ports report http_port_candidates >>= (λ all_http_ports.
            (let http_ports =
                filter_duplicit_services all_http_ports
                  (get_port_priorities http_port_candidates []) in
              find_rtsp_services rtsp_paths_file rtsp_ports >>= (λ rtsp_services.
                find_mjpeg_services mjpeg_paths_file http_ports >>= (λ mjpeg_services.
                  (let hosts = get_hosts rtsp_services [] ++ get_hosts mjpeg_services [] in
                    let http_services = find_http_services http_ports hosts in
                    ok (
                      add_services http_services
                        (add_services mjpeg_services (add_services rtsp_services report)))))))))))
