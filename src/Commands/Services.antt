-- ===== src/Commands/Services.antt =====
-- The services of the command line: `parse_rtsp_url`, `parse_mjpeg_url`, `get_fake_mac_address` and
-- `AppConfiguration::add_*_service` of src/main.rs.
pub mod Errors
use arrow_client.Base.{ℕ, ◌/◌, ◌%◌, ◌^◌, Option, none, some, List, is_some, if◌then◌else◌}
use arrow_client.Base.Int.{ℤ}
use arrow_client.Base.Outcome.{Outcome, ok, err, panic, out_of_fuel}
use arrow_client.Commands.Parser.{Exit, done, ◌>>=◌, exit_code_usage, result_or_error, unwrap}
use arrow_client.Commands.Parser as Parser
use arrow_client.Config
use arrow_client.Config.{AppContext}
use arrow_client.Net.Addr.{MacAddr, SocketAddr, sock4, sock6}
use arrow_client.Protocol.Service.{Service, rtsp, locked_rtsp, mjpeg, locked_mjpeg, http, tcp}
use arrow_client.Protocol.ServiceTable
use arrow_client.Protocol.ServiceTable.{ServiceTable}

-- What the expression for URLs captures: its groups 1, 2, 4 and 5
pub record Captures : Type 0 where
  pub credentials : Option (List ℕ)
  pub host : List ℕ
  pub port : Option (List ℕ)
  pub path : Option (List ℕ)

-- What is taken from outside: the two expressions, `u16::from_str`, and the resolution of a host and
-- a port, or of the text of an address.
pub record Urls : Type 0 where
  pub rtsp_captures : List ℕ → Option Captures
  pub http_captures : List ℕ → Option Captures
  pub u16_from_str : List ℕ → Option ℕ
  pub get_socket_address : List ℕ → ℕ → Option SocketAddr
  pub get_socket_address_of : List ℕ → Option SocketAddr

-- `get_fake_mac_address`, `_v4` and `_v6`
unfoldable pub get_fake_mac_address : ℕ → SocketAddr → MacAddr
get_fake_mac_address prefix (sock4 ip port) = record {
  a = prefix / 2 ^ 8 % 2 ^ 8;
  b = prefix % 2 ^ 8;
  c = ip.a;
  d = ip.b;
  e = ip.c;
  f = ip.d;
}
get_fake_mac_address prefix (sock6 ip port flowinfo scope_id) = record {
  a = prefix / 2 ^ 8 % 2 ^ 8;
  b = prefix % 2 ^ 8;
  c = ip.s6 / 2 ^ 8 % 2 ^ 8;
  d = ip.s6 % 2 ^ 8;
  e = ip.s7 / 2 ^ 8 % 2 ^ 8;
  f = ip.s7 % 2 ^ 8;
}

-- The fields of `AppConfiguration` that the services are added to
pub record AppConfiguration : Type 0 where
  pub app_context : AppContext
  pub default_svc_table : ServiceTable

-- Adding a service to a table has no errors but panics.
abbrev pub settled : {A : Type 0} → Outcome A → Exit A
settled (ok a) = done a
settled (err e) = Parser.panic
settled panic = Parser.panic
settled out_of_fuel = Parser.panic

-- The two calls of `add_static` at the end of each `add_*_service`
unfoldable pub add_service : ℤ → Service → AppConfiguration → Exit AppConfiguration
add_service now svc c = settled (Config.add_static svc now (c.app_context).config) >>= (λ added.
    settled (ServiceTable.add_static svc now c.default_svc_table) >>= (λ default. done (record {
      app_context = record (c.app_context) { config = added.0 };
      default_svc_table = default.0;
    })))

module _ (o : Urls) where
  -- The number of a port, or the default
  abbrev pub port_or : ℕ → Option (List ℕ) → Exit ℕ
  port_or default none = done default
  port_or default (some port_str) = unwrap (o.u16_from_str port_str)

  -- A service at an address, with a path or locked
  abbrev pub url_service :
      (MacAddr → SocketAddr → Service)
      → (MacAddr → SocketAddr → List ℕ → Service)
      → Captures
      → List ℕ
      → SocketAddr
      → Service
  url_service locked open_service caps path addr =
      let mac = get_fake_mac_address 0xffff addr in
      if is_some caps.credentials then locked mac addr else open_service mac addr path

  -- What `parse_rtsp_url` and `parse_mjpeg_url` do with the captures of a URL; `none` is an `Err`.
  unfoldable pub parse_url :
      ℕ
      → (MacAddr → SocketAddr → Service)
      → (MacAddr → SocketAddr → List ℕ → Service)
      → Option Captures
      → Exit (Option Service)
  parse_url default locked open_service none = done none
  parse_url default locked open_service (some caps) = unwrap caps.path >>= (λ path.
      port_or default caps.port >>= (λ port. elim (o.get_socket_address caps.host port) [
        | none ↦ done none
        | some addr ↦ done (some (url_service locked open_service caps path addr))
      ]))

  unfoldable pub parse_rtsp_url : List ℕ → Exit (Option Service)
  unfolding parse_url
  parse_rtsp_url url = parse_url 554 locked_rtsp rtsp (o.rtsp_captures url)

  unfoldable pub parse_mjpeg_url : List ℕ → Exit (Option Service)
  unfolding parse_url
  parse_mjpeg_url url = parse_url 80 locked_mjpeg mjpeg (o.http_captures url)

  unfoldable pub add_rtsp_service : ℤ → List ℕ → AppConfiguration → Exit AppConfiguration
  unfolding parse_rtsp_url add_service
  add_rtsp_service now url c =
      parse_rtsp_url url
      >>= (λ service. result_or_error exit_code_usage service >>= (λ svc. add_service now svc c))

  unfoldable pub add_mjpeg_service : ℤ → List ℕ → AppConfiguration → Exit AppConfiguration
  unfolding parse_mjpeg_url add_service
  add_mjpeg_service now url c =
      parse_mjpeg_url url
      >>= (λ service. result_or_error exit_code_usage service >>= (λ svc. add_service now svc c))

  unfoldable pub add_http_service : ℤ → List ℕ → AppConfiguration → Exit AppConfiguration
  unfolding add_service
  add_http_service now addr c =
      result_or_error exit_code_usage (o.get_socket_address_of addr)
      >>= (λ addr. add_service now (http (get_fake_mac_address 0xffff addr) addr) c)

  unfoldable pub add_tcp_service : ℤ → List ℕ → AppConfiguration → Exit AppConfiguration
  unfolding add_service
  add_tcp_service now addr c =
      result_or_error exit_code_usage (o.get_socket_address_of addr)
      >>= (λ addr. add_service now (tcp (get_fake_mac_address 0xffff addr) addr) c)
