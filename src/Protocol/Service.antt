-- ===== src/Protocol/Service.antt =====
-- The services of src/net/arrow/protocol/svc_table.rs and their entries in a service table. A
-- `String` is the list of its UTF-8 bytes.
use mathlib.Core.Option
use native.Mathlib.Decide.{ℕ_discrete}
use arrow_client.Base.{
  ℕ, ◌+◌, ◌≡◌, Option, none, some, List, [], ◌∷◌, ◌++◌, length, length-append, arith,
}
use arrow_client.Base.Bytes.{be16}
use arrow_client.Net.Addr.{
  MacAddr, SocketAddr, sock4, octets, ip, port, bytes, version, length-bytes,
}

-- The `SVC_TYPE_*` constants.
abbrev pub svc_type_control_protocol : ℕ
svc_type_control_protocol = 0x0000

abbrev pub svc_type_rtsp : ℕ
svc_type_rtsp = 0x0001

abbrev pub svc_type_locked_rtsp : ℕ
svc_type_locked_rtsp = 0x0002

abbrev pub svc_type_unknown_rtsp : ℕ
svc_type_unknown_rtsp = 0x0003

abbrev pub svc_type_unsupported_rtsp : ℕ
svc_type_unsupported_rtsp = 0x0004

abbrev pub svc_type_http : ℕ
svc_type_http = 0x0005

abbrev pub svc_type_mjpeg : ℕ
svc_type_mjpeg = 0x0006

abbrev pub svc_type_locked_mjpeg : ℕ
svc_type_locked_mjpeg = 0x0007

abbrev pub svc_type_tcp : ℕ
svc_type_tcp = 0xffff

pub data Service : Type 0 where
  control_protocol : Service
  rtsp : MacAddr → SocketAddr → List ℕ → Service
  locked_rtsp : MacAddr → SocketAddr → Service
  unknown_rtsp : MacAddr → SocketAddr → Service
  unsupported_rtsp : MacAddr → SocketAddr → List ℕ → Service
  http : MacAddr → SocketAddr → Service
  mjpeg : MacAddr → SocketAddr → List ℕ → Service
  locked_mjpeg : MacAddr → SocketAddr → Service
  tcp : MacAddr → SocketAddr → Service

unfoldable pub type_id : Service → ℕ
type_id control_protocol = svc_type_control_protocol
type_id (rtsp _ _ _) = svc_type_rtsp
type_id (locked_rtsp _ _) = svc_type_locked_rtsp
type_id (unknown_rtsp _ _) = svc_type_unknown_rtsp
type_id (unsupported_rtsp _ _ _) = svc_type_unsupported_rtsp
type_id (http _ _) = svc_type_http
type_id (mjpeg _ _ _) = svc_type_mjpeg
type_id (locked_mjpeg _ _) = svc_type_locked_mjpeg
type_id (tcp _ _) = svc_type_tcp

unfoldable pub mac : Service → Option MacAddr
mac control_protocol = none
mac (rtsp addr _ _) = some addr
mac (locked_rtsp addr _) = some addr
mac (unknown_rtsp addr _) = some addr
mac (unsupported_rtsp addr _ _) = some addr
mac (http addr _) = some addr
mac (mjpeg addr _ _) = some addr
mac (locked_mjpeg addr _) = some addr
mac (tcp addr _) = some addr

unfoldable pub address : Service → Option SocketAddr
address control_protocol = none
address (rtsp _ addr _) = some addr
address (locked_rtsp _ addr) = some addr
address (unknown_rtsp _ addr) = some addr
address (unsupported_rtsp _ addr _) = some addr
address (http _ addr) = some addr
address (mjpeg _ addr _) = some addr
address (locked_mjpeg _ addr) = some addr
address (tcp _ addr) = some addr

unfoldable pub path : Service → Option (List ℕ)
path (rtsp _ _ p) = some p
path (unsupported_rtsp _ _ p) = some p
path (mjpeg _ _ p) = some p
path _ = none

-- `ServiceHeader`
pub record ServiceHeader : Type 0 where
  pub svc_id : ℕ
  pub svc_type : ℕ
  pub mac_addr : List ℕ
  pub ip_version : ℕ
  pub ip_addr : List ℕ
  pub port : ℕ

-- `size_of::<ServiceHeader>()`
abbrev pub service_header_size : ℕ
service_header_size = 29

abbrev pub new_header : ℕ → ℕ → MacAddr → SocketAddr → ServiceHeader
new_header svc_id svc_type haddr saddr = record {
  svc_id = svc_id;
  svc_type = svc_type;
  mac_addr = octets haddr;
  ip_version = version (ip saddr);
  ip_addr = bytes (ip saddr);
  port = port saddr;
}

unfoldable pub serialize_header : ServiceHeader → List ℕ
serialize_header h =
    be16 h.svc_id
    ++ (be16 h.svc_type ++ (h.mac_addr ++ (h.ip_version ∷ (h.ip_addr ++ be16 h.port))))

abbrev default_mac : MacAddr
default_mac = record { a = 0; b = 0; c = 0; d = 0; e = 0; f = 0 }

abbrev default_addr : SocketAddr
default_addr = sock4 (record { a = 0; b = 0; c = 0; d = 0 }) 0

abbrev pub unwrap_or {ℓ} : {A : Type ℓ} → Option A → A → A
unwrap_or none a = a
unwrap_or (some b) a = b

-- The path's bytes, if there is one.
abbrev pub path_bytes : Service → List ℕ
path_bytes svc = unwrap_or (path svc) []

unfoldable pub serialize : Service → ℕ → List ℕ
unfolding serialize_header
serialize svc id =
    serialize_header (
      new_header id (type_id svc) (unwrap_or (mac svc) default_mac)
        (unwrap_or (address svc) default_addr))
    ++ (path_bytes svc ++ 0 ∷ [])

unfoldable pub len : Service → ℕ
len svc = service_header_size + length (path_bytes svc) + 1

-- An entry is as long as it says: the header, the path, and the zero that ends it.
pub length-serialize : (svc : Service) (id : ℕ) → length (serialize svc id) ≡ len svc
unfolding serialize len
length-serialize svc id =
    let saddr = unwrap_or (address svc) default_addr in
    omega (
      arith,
      length-append (bytes (ip saddr)) (be16 (port saddr)),
      length-bytes (ip saddr),
      length-append (path_bytes svc) (0 ∷ []),
      length-append (bytes (ip saddr) ++ be16 (port saddr)) (path_bytes svc ++ 0 ∷ []),
    )

-- `ServiceTableKey`, (svc_type, mac_addr, port, path): the IP address is no part of it.
pub record ServiceKey : Type 0 where
  pub svc_type : ℕ
  pub mac_addr : Option MacAddr
  pub port : Option ℕ
  pub path : Option (List ℕ)

unfoldable pub key : Service → ServiceKey
unfolding type_id mac address path
key svc = record {
  svc_type = type_id svc;
  mac_addr = mac svc;
  port = Option.map port (address svc);
  path = path svc;
}

unfoldable pub MacAddr-discrete : Discrete MacAddr
MacAddr-discrete = hlevel ℕ_discrete

unfoldable pub ServiceKey-discrete : Discrete ServiceKey
unfolding MacAddr-discrete
ServiceKey-discrete = hlevel (ℕ_discrete, MacAddr-discrete)

unfoldable pub Service-discrete : Discrete Service
unfolding MacAddr-discrete
Service-discrete = hlevel (ℕ_discrete, MacAddr-discrete)
