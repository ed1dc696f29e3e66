-- ===== src/Commands/Parser.antt =====
-- What the command line is parsed into: `AppConfigurationParser` of src/main.rs. Strings are lists of
-- character codes.
use arrow_client.Base.{ℕ, ◌*◌, Bool, false, Option, none, some, List, [], ◌∷◌, if◌then◌else◌}
use arrow_client.Base.Text.{codes, same_text}
use arrow_client.Net.Addr.{MacAddr}
use arrow_client.Raw.Pcap.{EthernetDevice}

-- What a function comes to that may end the process
pub data Exit (A : Type 0) : Type 0 where
  done : A → Exit A
  exit : ℕ → Exit A
  panic : Exit A

infixl 5 ◌>>=◌
abbrev pub ◌>>=◌ : {A B : Type 0} → Exit A → (A → Exit B) → Exit B
done a >>= f = f a
exit n >>= f = exit n
panic >>= f = panic

abbrev pub exit_code_usage : ℕ
exit_code_usage = 1

abbrev pub exit_code_network_error : ℕ
exit_code_network_error = 2

-- `LoggerType`
pub data LoggerType : Type 0 where
  syslog stderr stderr_pretty file_logger : LoggerType

-- `AppConfigurationParser`
pub record Parser : Type 0 where
  pub arrow_mac : MacAddr
  pub arrow_svc_addr : List ℕ
  pub ca_certificates : List (List ℕ)
  pub rtsp_services : List (List ℕ)
  pub mjpeg_services : List (List ℕ)
  pub http_services : List (List ℕ)
  pub tcp_services : List (List ℕ)
  pub logger_type : LoggerType
  pub config_file : List ℕ
  pub state_file : List ℕ
  pub rtsp_paths_file : List ℕ
  pub mjpeg_paths_file : List ℕ
  pub log_file : List ℕ
  pub discovery : Bool
  pub verbose : Bool
  pub diagnostic_mode : Bool
  pub log_file_size : ℕ
  pub log_file_rotations : ℕ

-- What the parser takes from outside: whether the program was built with the feature for discovery,
-- the devices of the machine, what the expressions `^<prefix>(.*)$` and `^<prefix>(\d+)$` capture in
-- an argument, and `usize::from_str`.
pub record Outside : Type 0 where
  pub discovery_feature : Bool
  pub devices : List EthernetDevice
  pub capture_text : List ℕ → List ℕ → Option (List ℕ)
  pub capture_digits : List ℕ → List ℕ → Option (List ℕ)
  pub usize_from_str : List ℕ → Option ℕ

-- `get_first_mac`
abbrev pub get_first_mac : List EthernetDevice → Option MacAddr
get_first_mac [] = none
get_first_mac (dev ∷ devices) = some dev.mac_addr

-- `get_mac`
unfoldable pub get_mac : List ℕ → List EthernetDevice → Option MacAddr
get_mac iface [] = none
get_mac iface (dev ∷ devices) =
    if same_text dev.name iface then some dev.mac_addr else get_mac iface devices

-- `utils::result_or_error`, and `result_or_usage` with the code of a wrong usage
abbrev pub result_or_error : {A : Type 0} → ℕ → Option A → Exit A
result_or_error code none = exit code
result_or_error code (some a) = done a

-- `unwrap` of what an expression captures
abbrev pub unwrap : {A : Type 0} → Option A → Exit A
unwrap none = panic
unwrap (some a) = done a

-- `AppConfigurationParser::new`
abbrev pub new : Outside → Exit Parser
new o = result_or_error exit_code_network_error (get_first_mac o.devices) >>= λ arrow_mac.
    done (record {
      arrow_mac = arrow_mac;
      arrow_svc_addr = [];
      ca_certificates = [];
      rtsp_services = [];
      mjpeg_services = [];
      http_services = [];
      tcp_services = [];
      logger_type = syslog;
      config_file = codes "/etc/arrow/config.json";
      state_file = codes "/var/lib/arrow/state";
      rtsp_paths_file = codes "/etc/arrow/rtsp-paths";
      mjpeg_paths_file = codes "/etc/arrow/mjpeg-paths";
      log_file = [];
      discovery = false;
      verbose = false;
      diagnostic_mode = false;
      log_file_size = 10 * 1024;
      log_file_rotations = 1;
    })
