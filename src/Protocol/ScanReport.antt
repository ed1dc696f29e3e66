-- ===== src/Protocol/ScanReport.antt =====
-- The scan report of src/net/arrow/protocol/scan_report.rs and its message. The order of the
-- entries of a hash map or set, which its iterators follow, is the order of the list that stands
-- for it.
pub mod Laws
use Prim.Native.Nat.{bit_or}
use mathlib.Core.Option
use mathlib.Core.Logic.{ite}
use native.Mathlib.Decide.{ℕ_discrete}
use arrow_client.Base.{
  ℕ, suc, ◌+◌, ◌*◌, ◌%◌, ◌^◌, ◌≡◌, refl, Option, none, some, List, [], ◌∷◌, ◌++◌, length, map,
  length-append, arith,
}
use arrow_client.Base.Bytes.{be16, be32}
use arrow_client.Base.Dict.{Dict, lookup, insert}
use arrow_client.Net.Addr.{
  MacAddr, IpAddr, v4, v6, SocketAddr, sock4, sock6, octets, bytes, version, length-bytes,
}
use arrow_client.Protocol.Message.{Body}
use arrow_client.Protocol.Control.{ControlMessage, cmsg_scan_report}
use arrow_client.Protocol.Control
use arrow_client.Protocol.Service
use arrow_client.Protocol.Service.{
  Service, control_protocol, MacAddr-discrete, Service-discrete, unwrap_or,
}
use arrow_client.Protocol.ServiceTable
use arrow_client.Protocol.ServiceTable.{ServiceTable}

-- `HashSet::insert`
unfoldable pub insert_set {ℓ} : {A : Type ℓ} → Discrete A → A → List A → List A
insert_set d a [] = a ∷ []
insert_set d a (x ∷ xs) = ite (d x a) (x ∷ xs) (x ∷ insert_set d a xs)

-- `HashSet::extend`
unfoldable pub extend_set {ℓ} : {A : Type ℓ} → Discrete A → List A → List A → List A
unfolding insert_set
extend_set d xs [] = xs
extend_set d xs (y ∷ ys) = extend_set d (insert_set d y xs) ys

abbrev pub hinfo_flag_arp : ℕ
hinfo_flag_arp = 0x01

abbrev pub hinfo_flag_icmp : ℕ
hinfo_flag_icmp = 0x02

pub record HostInfo : Type 0 where
  pub flags : ℕ
  pub mac_addr : MacAddr
  pub ip_addr : IpAddr
  pub ports : List ℕ

abbrev pub new_host : MacAddr → IpAddr → ℕ → HostInfo
new_host mac ip flags = record { flags = flags; mac_addr = mac; ip_addr = ip; ports = [] }

unfoldable pub add_host_port : ℕ → HostInfo → HostInfo
add_host_port port h = record h { ports = insert_set ℕ_discrete port h.ports }

unfoldable pub add_host_ports : List ℕ → HostInfo → HostInfo
add_host_ports ports h = record h { ports = extend_set ℕ_discrete h.ports ports }

-- `host_info::SocketAddrIterator`
unfoldable pub socket_addr : MacAddr → IpAddr → ℕ → MacAddr × SocketAddr
socket_addr mac (v4 addr) port = (mac, sock4 addr port)
socket_addr mac (v6 addr) port = (mac, sock6 addr port 0 0)

abbrev pub host_socket_addrs : HostInfo → List (MacAddr × SocketAddr)
host_socket_addrs h = map (socket_addr h.mac_addr h.ip_addr) h.ports

-- `size_of::<HostInfoHeader>()`
abbrev pub host_header_size : ℕ
host_header_size = 26

unfoldable pub host_size : HostInfo → ℕ
host_size h = host_header_size + length h.ports * 2

unfoldable pub serialize_host_header : HostInfo → List ℕ
serialize_host_header h =
    h.flags
    ∷ (octets h.mac_addr
        ++ (version h.ip_addr ∷ (bytes h.ip_addr ++ be16 (length h.ports % 2 ^ 16))))

unfoldable pub serialize_ports : List ℕ → List ℕ
serialize_ports [] = []
serialize_ports (p ∷ ps) = be16 p ++ serialize_ports ps

unfoldable pub serialize_host : HostInfo → List ℕ
unfolding serialize_host_header serialize_ports
serialize_host h = serialize_host_header h ++ serialize_ports h.ports

-- `HostInfoKey`
pub record HostKey : Type 0 where
  pub mac : MacAddr
  pub ip : IpAddr

unfoldable pub HostKey-discrete : Discrete HostKey
unfolding MacAddr-discrete
HostKey-discrete = hlevel (ℕ_discrete, MacAddr-discrete)

pub record ScanReport : Type 0 where
  pub hosts : Dict HostKey HostInfo
  pub services : List Service

abbrev pub new : ScanReport
new = record { hosts = []; services = [] }

abbrev pub get_host : HostKey → ScanReport → Option HostInfo
get_host k r = lookup HostKey-discrete k r.hosts

-- The write through `get_mut`: the entry of the key, if there is one, is changed in place.
abbrev pub set_host : HostKey → HostInfo → ScanReport → ScanReport
set_host k h r = record r { hosts = insert HostKey-discrete k h r.hosts }

-- `host.flags |= flags`
abbrev pub or_flags : ℕ → HostInfo → HostInfo
or_flags flags h = record h { flags = bit_or h.flags flags }

unfoldable pub add_host : HostKey → ℕ → ScanReport → ScanReport
add_host k flags r = elim (get_host k r) [
  | none ↦ set_host k (new_host k.mac k.ip flags) r
  | some h ↦ set_host k (or_flags flags h) r
]

unfoldable pub add_port : HostKey → ℕ → ScanReport → ScanReport
unfolding add_host_port
add_port k port r = elim (get_host k r) [
  | none ↦ set_host k (add_host_port port (new_host k.mac k.ip 0)) r
  | some h ↦ set_host k (add_host_port port h) r
]

unfoldable pub add_service : Service → ScanReport → ScanReport
add_service svc r = record r { services = insert_set Service-discrete svc r.services }

-- One round of the loop of `merge`.
unfoldable pub merge_host : HostKey → HostInfo → ScanReport → ScanReport
unfolding add_host_ports
merge_host k other r = elim (get_host k r) [
  | none ↦ set_host k other r
  | some h ↦ set_host k (or_flags other.flags (add_host_ports other.ports h)) r
]

unfoldable pub merge_hosts : Dict HostKey HostInfo → ScanReport → ScanReport
unfolding merge_host
merge_hosts [] r = r
merge_hosts ((k, h) ∷ m) r = merge_hosts m (merge_host k h r)

unfoldable pub merge : ScanReport → ScanReport → ScanReport
unfolding merge_hosts
merge r other =
    let r' = merge_hosts other.hosts r in
    record r' { services = extend_set Service-discrete r'.services other.services }

-- The values of the map, in its order.
abbrev pub host_infos : ScanReport → List HostInfo
host_infos r = map (λ (kv : HostKey × HostInfo). kv.1) r.hosts

-- `SocketAddrIterator`: the addresses of the hosts that are left behind those of the current host.
unfoldable pub all_socket_addrs : List HostInfo → List (MacAddr × SocketAddr)
all_socket_addrs [] = []
all_socket_addrs (h ∷ hs) = host_socket_addrs h ++ all_socket_addrs hs

abbrev pub socket_addrs : ScanReport → List (MacAddr × SocketAddr)
socket_addrs r = all_socket_addrs (host_infos r)

pub record ScanReportMessage : Type 0 where
  pub request_id : ℕ
  pub scan_report : ScanReport
  pub svc_table : ServiceTable

-- `size_of::<ScanReportMesssageHeader>()`
abbrev pub message_header_size : ℕ
message_header_size = 6

unfoldable pub serialize_header : ScanReportMessage → List ℕ
serialize_header m = be16 m.request_id ++ be32 (length m.scan_report.hosts % 2 ^ 32)

unfoldable pub serialize_hosts : List HostInfo → List ℕ
serialize_hosts [] = []
serialize_hosts (h ∷ hs) = serialize_host h ++ serialize_hosts hs

-- A service that the table lacks is sent under the ID 0xffff.
unfoldable pub serialize_services : ServiceTable → List Service → List ℕ
serialize_services t [] = []
serialize_services t (svc ∷ svcs) =
    Service.serialize svc (unwrap_or (ServiceTable.get_id t svc) 0xffff)
    ++ serialize_services t svcs

unfoldable pub serialize : ScanReportMessage → List ℕ
unfolding serialize_header serialize_hosts serialize_services
serialize m =
    serialize_header m
    ++ (serialize_hosts (host_infos m.scan_report)
        ++ (serialize_services m.svc_table m.scan_report.services
            ++ Service.serialize control_protocol 0))

unfoldable pub add_host_sizes : ℕ → List HostInfo → ℕ
add_host_sizes size [] = size
add_host_sizes size (h ∷ hs) = add_host_sizes (size + host_size h) hs

unfoldable pub add_service_sizes : ℕ → List Service → ℕ
add_service_sizes size [] = size
add_service_sizes size (svc ∷ svcs) = add_service_sizes (size + Service.len svc) svcs

unfoldable pub len : ScanReportMessage → ℕ
unfolding add_host_sizes add_service_sizes
len m =
    add_service_sizes (add_host_sizes message_header_size (host_infos m.scan_report))
      m.scan_report.services
    + Service.len control_protocol
