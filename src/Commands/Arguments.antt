-- ===== src/Commands/Arguments.antt =====
-- The command line arguments: `parse` of `AppConfigurationParser` in src/main.rs, and the methods that it
-- calls.
pub mod Settings
pub mod Written
use Prim.Native.String.{String}
use arrow_client.Base.{
  ℕ, ◌*◌, Bool, true, false, Option, none, some, List, [], ◌∷◌, ◌++◌, if◌then◌else◌,
}
use arrow_client.Base.Text.{codes, same_text, starts_with}
use arrow_client.Net.Addr.{MacAddr}
use arrow_client.Raw.Pcap.{EthernetDevice}
use arrow_client.Commands.Parser.{
  Exit, done, exit, panic, ◌>>=◌, exit_code_usage, exit_code_network_error, LoggerType, syslog,
  stderr, stderr_pretty, file_logger, Parser, Outside, get_mac, result_or_error, unwrap, new,
}

-- The options that take the next argument
pub data Valued : Type 0 where
  ca_certificates interface rtsp_service mjpeg_service http_service tcp_service : Valued

unfoldable pub valued : List ℕ → Option Valued
valued arg =
    if same_text arg (codes "-c")
    then some ca_certificates
    else if same_text arg (codes "-i")
    then some interface
    else if same_text arg (codes "-r")
    then some rtsp_service
    else if same_text arg (codes "-m")
    then some mjpeg_service
    else if same_text arg (codes "-h")
    then some http_service
    else if same_text arg (codes "-t")
    then some tcp_service
    else none

module _ (o : Outside) where
  -- The methods for the options that take the next argument, with that argument
  unfoldable pub set_value : Valued → List ℕ → Parser → Exit Parser
  set_value ca_certificates path p =
      done (record p { ca_certificates = p.ca_certificates ++ path ∷ [] })
  set_value interface iface p =
      result_or_error exit_code_network_error (get_mac iface o.devices) >>= λ mac.
      done (record p { arrow_mac = mac })
  set_value rtsp_service url p = done (record p { rtsp_services = p.rtsp_services ++ url ∷ [] })
  set_value mjpeg_service url p = done (record p { mjpeg_services = p.mjpeg_services ++ url ∷ [] })
  set_value http_service addr p = done (record p { http_services = p.http_services ++ addr ∷ [] })
  set_value tcp_service addr p = done (record p { tcp_services = p.tcp_services ++ addr ∷ [] })

  -- `discovery`
  abbrev pub set_discovery : Parser → Exit Parser
  set_discovery p =
      if o.discovery_feature then done (record p { discovery = true }) else exit exit_code_usage

  abbrev pub text_after : List ℕ → List ℕ → Exit (List ℕ)
  text_after prefix arg = unwrap (o.capture_text prefix arg)

  abbrev pub number_after : List ℕ → List ℕ → Exit ℕ
  number_after prefix arg =
      result_or_error exit_code_usage (o.capture_digits prefix arg) >>= λ digits.
      unwrap (o.usize_from_str digits)

  -- `config_file`
  abbrev pub set_config_file : List ℕ → Parser → Exit Parser
  set_config_file arg p =
      text_after (codes "--config-file=") arg >>= λ file. done (record p { config_file = file })

  -- `conn_state_file`
  abbrev pub set_conn_state_file : List ℕ → Parser → Exit Parser
  set_conn_state_file arg p =
      text_after (codes "--conn-state-file=") arg >>= λ file. done (record p { state_file = file })

  -- `rtsp_paths`
  abbrev pub set_rtsp_paths : List ℕ → Parser → Exit Parser
  set_rtsp_paths arg p =
      if o.discovery_feature
      then (text_after (codes "--rtsp-paths=") arg >>= λ file.
          done (record p { rtsp_paths_file = file }))
      else exit exit_code_usage

  -- `mjpeg_paths`
  abbrev pub set_mjpeg_paths : List ℕ → Parser → Exit Parser
  set_mjpeg_paths arg p =
      if o.discovery_feature
      then (text_after (codes "--mjpeg-paths=") arg >>= λ file.
          done (record p { mjpeg_paths_file = file }))
      else exit exit_code_usage

  -- `log_file`
  abbrev pub set_log_file : List ℕ → Parser → Exit Parser
  set_log_file arg p = text_after (codes "--log-file=") arg >>= λ file.
      done (record p { logger_type = file_logger; log_file = file })

  -- `log_file_size`
  abbrev pub set_log_file_size : List ℕ → Parser → Exit Parser
  set_log_file_size arg p =
      number_after (codes "--log-file-size=") arg >>= λ n. done (record p { log_file_size = n })

  -- `log_file_rotations`
  abbrev pub set_log_file_rotations : List ℕ → Parser → Exit Parser
  set_log_file_rotations arg p = number_after (codes "--log-file-rotations=") arg >>= λ n.
      done (record p { log_file_rotations = n })

  -- The cases of `parse` that take no other argument
  unfoldable pub set_flag : List ℕ → Parser → Exit Parser
  set_flag arg p =
      if same_text arg (codes "-d")
      then set_discovery p
      else if same_text arg (codes "-v")
      then done (record p { verbose = true })
      else if same_text arg (codes "--diagnostic-mode")
      then done (record p { diagnostic_mode = true })
      else if same_text arg (codes "--log-stderr")
      then done (record p { logger_type = stderr })
      else if same_text arg (codes "--log-stderr-pretty")
      then done (record p { logger_type = stderr_pretty })
      else if starts_with arg (codes "--config-file=")
      then set_config_file arg p
      else if starts_with arg (codes "--conn-state-file=")
      then set_conn_state_file arg p
      else if starts_with arg (codes "--rtsp-paths=")
      then set_rtsp_paths arg p
      else if starts_with arg (codes "--mjpeg-paths=")
      then set_mjpeg_paths arg p
      else if starts_with arg (codes "--log-file=")
      then set_log_file arg p
      else if starts_with arg (codes "--log-file-size=")
      then set_log_file_size arg p
      else if starts_with arg (codes "--log-file-rotations=")
      then set_log_file_rotations arg p
      else exit exit_code_usage

  -- The loop of `parse`; `next_argument` ends the process where no argument is left.
  unfoldable pub parse_options : List (List ℕ) → Parser → Exit Parser
  unfolding set_flag set_value valued
  parse_options [] p = done p
  parse_options (arg ∷ []) p = elim (valued arg) [
    | none ↦ set_flag arg p
    | some v ↦ exit exit_code_usage
  ]
  parse_options (arg ∷ value ∷ args) p = elim (valued arg) [
    | none ↦ set_flag arg p >>= parse_options (value ∷ args)
    | some v ↦ set_value v value p >>= parse_options args
  ]

  -- `AppConfigurationParser::parse`; the first argument is the application's name.
  unfoldable pub parse : List (List ℕ) → Exit Parser
  unfolding parse_options
  parse (name ∷ arrow_svc_addr ∷ args) =
      new o >>= λ p. parse_options args (record p { arrow_svc_addr = arrow_svc_addr })
  parse _ = new o >>= λ p. exit exit_code_usage
