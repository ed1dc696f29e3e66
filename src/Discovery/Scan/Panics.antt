-- ===== src/Discovery/Scan/Panics.antt =====
-- What one device can do to a scan of src/net/discovery.rs: the joins of the probing threads.
use mathlib.Core.List.{map-append}
use arrow_client.Base.{◌≡◌, refl, ap, ◌∙◌, ℕ, Bool, Option, List, [], ◌∷◌, ◌++◌, map, All}
use arrow_client.Base.Parsing.{Parsing, ok, err, panic, out_of_fuel, ◌>>=◌}
use arrow_client.Discovery.Probe.{Network, is_rtsp_service}
use arrow_client.Discovery.Scan.{
  join, join_all, with_port, chosen, find_ports, find_rtsp_ports, rtsp_port_candidates, Device,
  find_all_open_ports, scan_network,
}
use arrow_client.Net.Addr.{MacAddr, SocketAddr}
use arrow_client.Protocol.ScanReport.{ScanReport, socket_addrs}

-- A thread that comes to an end, be it by a panic
abbrev pub IsEnded {ℓ} : {A : Type ℓ} → Parsing A → Type 0
IsEnded (ok a) = Unit {0}
IsEnded err = Unit {0}
IsEnded panic = Unit {0}
IsEnded out_of_fuel = ⊥

join_all-err :
    {A : Type 0} (pre : List (Parsing A)) (t : Parsing A) (post : List (Parsing A))
    → All IsEnded pre
    → join t ≡ err
    → join_all (pre ++ t ∷ post) ≡ err
unfolding join_all
join_all-err [] t post ends e = rw e refl
join_all-err (ok a ∷ pre) t post ends e = rw (join_all-err pre t post ends.1 e) refl
join_all-err (err ∷ pre) t post ends e = refl
join_all-err (panic ∷ pre) t post ends e = refl
join_all-err (out_of_fuel ∷ pre) t post ends e = absurd ends.0

-- The thread of an address
abbrev thread :
    (SocketAddr → Parsing Bool) → MacAddr × SocketAddr → Parsing ((MacAddr × SocketAddr) × Bool)
thread probe a = probe (a.1) >>= λ yes'. ok (a, yes')

thread-IsEnded :
    (a : MacAddr × SocketAddr) (r : Parsing Bool)
    → IsEnded r
    → IsEnded
        (let res : Parsing ((MacAddr × SocketAddr) × Bool) = (r >>= λ yes'. ok (a, yes')) in res)
thread-IsEnded a (ok b) h = tt
thread-IsEnded a err h = tt
thread-IsEnded a panic h = tt
thread-IsEnded a out_of_fuel h = h

threads-IsEnded :
    (probe : SocketAddr → Parsing Bool) (addrs : List (MacAddr × SocketAddr))
    → All (λ (b : MacAddr × SocketAddr). IsEnded (probe (b.1))) addrs
    → All IsEnded (map (thread probe) addrs)
threads-IsEnded probe [] h = tt
threads-IsEnded probe (a ∷ addrs) h =
    (thread-IsEnded a (probe (a.1)) h.0, threads-IsEnded probe addrs h.1)

-- A probe that panics makes the probing of all addresses an error, whatever the others answer, where
-- those before it come to an end.
find_ports-err :
    (probe : SocketAddr → Parsing Bool) (report : ScanReport) (ports : List ℕ)
    (pre post : List (MacAddr × SocketAddr)) (a : MacAddr × SocketAddr)
    → with_port ports (socket_addrs report) ≡ pre ++ a ∷ post
    → All (λ (b : MacAddr × SocketAddr). IsEnded (probe (b.1))) pre
    → probe (a.1) ≡ panic
    → find_ports probe report ports ≡ err
unfolding find_ports
find_ports-err probe report ports pre post a e ends p =
    let joined : join_all (map (thread probe) (with_port ports (socket_addrs report))) ≡ err =
      ap (λ l. join_all (map (thread probe) l)) e
      ∙ ap join_all (map-append (thread probe) pre (a ∷ post))
      ∙ join_all-err (map (thread probe) pre) (thread probe a) (map (thread probe) post)
          (threads-IsEnded probe pre ends)
          (ap (λ (r : Parsing Bool). join (r >>= λ yes'. ok (a, yes'))) p) in
    ap (λ r. r >>= λ res. ok (chosen res)) joined

-- A device that makes the RTSP client panic makes the scan of the whole network an error, whatever the
-- other devices answer, where the probes before it come to an end: no service of any device is
-- reported.
pub scan_network-err :
    (net : Network) (devices : List Device) (rtsp_file mjpeg_file : Option (List (Option (List ℕ))))
    (report : ScanReport) (pre post : List (MacAddr × SocketAddr)) (a : MacAddr × SocketAddr)
    → find_all_open_ports devices ≡ ok report
    → with_port rtsp_port_candidates (socket_addrs report) ≡ pre ++ a ∷ post
    → All (λ (b : MacAddr × SocketAddr). IsEnded (is_rtsp_service net (b.1))) pre
    → is_rtsp_service net (a.1) ≡ panic
    → scan_network net devices rtsp_file mjpeg_file ≡ err
unfolding scan_network find_rtsp_ports
scan_network-err net devices rtsp_file mjpeg_file report pre post a found e ends p =
    let ports : find_rtsp_ports net report rtsp_port_candidates ≡ err =
      find_ports-err (is_rtsp_service net) report rtsp_port_candidates pre post a e ends p in
    rw found (rw ports refl)
