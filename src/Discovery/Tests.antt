-- ===== src/Discovery/Tests.antt =====
-- Tests of the network scanner of src/net/discovery.rs.
use native.Mathlib.Decide.{ℕ_discrete}
use mathlib.Core.Path.{subst}
use arrow_client.Base.{
  sym, ℕ, ◌≡◌, refl, true, none, some, List, [], ◌∷◌, ◌++◌, ◌==◌, if◌then◌else◌,
}
use arrow_client.Base.Dict.{lookup, insert}
use arrow_client.Base.Parsing.{ok, err, panic}
use arrow_client.Base.Text.{codes}
use arrow_client.Discovery.Hosts.{IpAddr-discrete, get_port_priorities, filter_duplicit_services}
use arrow_client.Discovery.Hosts.Filter.{of_host, filter_duplicit_services_lem, kept, best}
use arrow_client.Discovery.Probe.{Network, is_rtsp_service}
use arrow_client.Discovery.Scan.{
  Device, scan_network, find_all_open_ports, with_port, rtsp_port_candidates,
}
use arrow_client.Discovery.Scan.Panics.{IsEnded, scan_network-err}
use arrow_client.Http.Fields.{Text-discrete}
use arrow_client.Http.Plain.{plain, number_of, to_lower}
use arrow_client.Http.Plain as Http
use arrow_client.Http.Response.{crlf}
use arrow_client.Net.Addr.{MacAddr, SocketAddr, Ipv4Addr, IpAddr, v4, v6, sock4, ip}
use arrow_client.Protocol.ScanReport
use arrow_client.Rtsp.Plain.{status_of, answered}

abbrev mac : MacAddr
mac = record { a = 0; b = 1; c = 2; d = 3; e = 4; f = 5 }

abbrev host : ℕ → Ipv4Addr
host n = record { a = 10; b = 0; c = 0; d = n }

-- A host with services at the ports 80 and 554, and another one
abbrev services : List (MacAddr × SocketAddr)
services = (mac, sock4 (host 1) 80) ∷ (mac, sock4 (host 2) 80) ∷ (mac, sock4 (host 1) 554) ∷ []

filter_duplicit_services_lem_example :
    of_host
      (v4 (host 1))
      (filter_duplicit_services services (get_port_priorities rtsp_port_candidates []))
    ≡ (mac, sock4 (host 1) 554) ∷ []
unfolding kept best get_port_priorities insert lookup IpAddr-discrete ℕ_discrete
filter_duplicit_services_lem_example =
    filter_duplicit_services_lem (v4 (host 1)) services
      (get_port_priorities rtsp_port_candidates [])

-- Two hosts with an open port 554; the second one answers with a length that is no number.
abbrev device : Device
device = record {
  arp_scan = ok ((mac, host 1) ∷ (mac, host 2) ∷ []);
  icmp_scan = ok [];
  tcp_scan = λ hosts. ok ((mac, host 1, 554) ∷ (mac, host 2, 554) ∷ []);
}

abbrev good_answer : List (List ℕ)
good_answer = (codes "RTSP/1.0 200 OK" ++ crlf ++ crlf) ∷ []

abbrev bad_answer : List (List ℕ)
bad_answer = (codes "RTSP/1.0 200 OK" ++ crlf ++ codes "Content-Length: x" ++ crlf ++ crlf) ∷ []

abbrev answer : IpAddr → List (List ℕ)
answer (v4 a) = if a.d == 2 then bad_answer else good_answer
answer (v6 a) = good_answer

abbrev network : Network
network = record {
  fields = plain;
  sdp = record {
    is_whitespace = λ c. c == 32;
    from_utf8_lossy = λ s. s;
    to_lowercase = to_lower;
    split_whitespace = λ s. s ∷ [];
    i32_from_str = number_of;
    u16_from_str = number_of;
    u32_from_str = number_of;
    version_captures = λ s. none;
    media_captures = λ s. none;
    attribute_captures = λ s. none;
    map_captures = λ s. none;
  };
  rtsp_status = status_of;
  http_status = Http.status_of;
  usize_from_str = number_of;
  to_uppercase = λ s. s;
  rtsp_client = λ addr path. some (answered (answer (ip addr)));
  http_client = λ addr path. none;
  sets_timeout = λ addr. true;
}

-- What the scanners of the device find
abbrev report : ScanReport.ScanReport
report =
    ScanReport.add_port (record { mac = mac; ip = v4 (host 2) }) 554
      (ScanReport.add_port (record { mac = mac; ip = v4 (host 1) }) 554
        (ScanReport.add_host (record { mac = mac; ip = v4 (host 2) }) 1
          (ScanReport.add_host (record { mac = mac; ip = v4 (host 1) }) 1 ScanReport.new)))

report_found : find_all_open_ports (device ∷ []) ≡ ok report
unfolding find_all_open_ports ScanReport.merge ScanReport.extend_set ScanReport.all_socket_addrs
    ScanReport.add_port lookup ScanReport.add_host insert ScanReport.HostKey-discrete ℕ_discrete
    ScanReport.insert_set ScanReport.socket_addr
report_found = refl

rtsp_addrs :
    with_port rtsp_port_candidates (ScanReport.socket_addrs report)
    ≡ (mac, sock4 (host 1) 554) ∷ (mac, sock4 (host 2) 554) ∷ []
unfolding with_port ScanReport.all_socket_addrs ScanReport.add_port lookup ScanReport.add_host
    insert ScanReport.HostKey-discrete ℕ_discrete ScanReport.insert_set ScanReport.socket_addr
rtsp_addrs = refl

bad_panics : is_rtsp_service network (sock4 (host 2) 554) ≡ panic
unfolding is_rtsp_service lookup insert Text-discrete ℕ_discrete
bad_panics = refl

good_is_service : is_rtsp_service network (sock4 (host 1) 554) ≡ ok true
unfolding is_rtsp_service lookup insert Text-discrete ℕ_discrete
good_is_service = refl

scan_network-err_example : scan_network network (device ∷ []) none none ≡ err
scan_network-err_example =
    scan_network-err network (device ∷ []) none none report ((mac, sock4 (host 1) 554) ∷ []) []
      (mac, sock4 (host 2) 554) report_found rtsp_addrs (subst IsEnded (sym good_is_service) tt, tt)
      bad_panics
