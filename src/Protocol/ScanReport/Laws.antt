-- ===== src/Protocol/ScanReport/Laws.antt =====
-- What holds of the report of src/net/arrow/protocol/scan_report.rs and of its message.
use arrow_client.Base.{
  ℕ, ◌+◌, ◌*◌, ◌%◌, ◌^◌, ◌≡◌, refl, List, [], ◌∷◌, ◌++◌, length, length-append, arith,
}
use arrow_client.Base.Bytes.{be16}
use arrow_client.Net.Addr.{bytes, length-bytes}
use arrow_client.Protocol.Control
use arrow_client.Protocol.Control.{ControlMessage, cmsg_scan_report}
use arrow_client.Protocol.Message.{Body}
use arrow_client.Protocol.Service
use arrow_client.Protocol.Service.{Service, control_protocol, unwrap_or}
use arrow_client.Protocol.ServiceTable
use arrow_client.Protocol.ServiceTable.{ServiceTable}
use arrow_client.Protocol.ScanReport.{
  HostInfo, host_size, serialize_host_header, serialize_ports, serialize_host, host_infos,
  ScanReportMessage, message_header_size, serialize_header, serialize_hosts, serialize_services,
  serialize, add_host_sizes, add_service_sizes, len,
}

length-serialize_ports : (ps : List ℕ) → length (serialize_ports ps) ≡ length ps * 2
unfolding serialize_ports
length-serialize_ports [] = refl
length-serialize_ports (p ∷ ps) = omega (arith, length-serialize_ports ps)

length-serialize_host : (h : HostInfo) → length (serialize_host h) ≡ host_size h
unfolding serialize_host host_size serialize_host_header
length-serialize_host h = omega (
  arith,
  length-append (serialize_host_header h) (serialize_ports h.ports),
  length-append (bytes h.ip_addr) (be16 (length h.ports % 2 ^ 16)),
  length-bytes h.ip_addr,
  length-serialize_ports h.ports,
)

add_host_sizes-length :
    (size : ℕ) (hs : List HostInfo) → add_host_sizes size hs ≡ size + length (serialize_hosts hs)
unfolding add_host_sizes serialize_hosts
add_host_sizes-length size [] = omega arith
add_host_sizes-length size (h ∷ hs) = omega (
  arith,
  add_host_sizes-length (size + host_size h) hs,
  length-serialize_host h,
  length-append (serialize_host h) (serialize_hosts hs),
)

add_service_sizes-length :
    (size : ℕ) (t : ServiceTable) (svcs : List Service)
    → add_service_sizes size svcs ≡ size + length (serialize_services t svcs)
unfolding add_service_sizes serialize_services
add_service_sizes-length size t [] = omega arith
add_service_sizes-length size t (svc ∷ svcs) =
    let id = unwrap_or (ServiceTable.get_id t svc) 0xffff in
    omega (
      arith,
      add_service_sizes-length (size + Service.len svc) t svcs,
      Service.length-serialize svc id,
      length-append (Service.serialize svc id) (serialize_services t svcs),
    )

-- The size that a scan report message announces is the number of bytes that it writes, whatever
-- hosts, ports and services the report holds.
pub length-serialize_report : (m : ScanReportMessage) → length (serialize m) ≡ len m
unfolding serialize len serialize_header
length-serialize_report m =
    let hosts = host_infos m.scan_report in
    let svcs = m.scan_report.services in
    omega (
      arith,
      length-append (serialize_hosts hosts)
          (serialize_services m.svc_table svcs ++ Service.serialize control_protocol 0),
      length-append (serialize_services m.svc_table svcs) (Service.serialize control_protocol 0),
      Service.length-serialize control_protocol 0,
      add_host_sizes-length message_header_size hosts,
      add_service_sizes-length (add_host_sizes message_header_size hosts) m.svc_table svcs,
    )

abbrev pub scan_report_body : Body ScanReportMessage
scan_report_body = record {
  serialize = serialize;
  len = len;
  length-serialize = length-serialize_report;
}

abbrev pub create_scan_report_message : ℕ → ScanReportMessage → ControlMessage ScanReportMessage
create_scan_report_message msg_id m = Control.new msg_id cmsg_scan_report m
