-- ===== src/Commands/Arguments/Settings.antt =====
-- What the command line means: settings, how they are written as arguments, and what each does.
use arrow_client.Base.{ℕ, ◌≤◌, ◌≡◌, ◌≢◌, true, none, some, List, [], ◌∷◌, ◌++◌, All, if◌then◌else◌}
use arrow_client.Base.Text.{codes}
use arrow_client.Commands.Parser.{
  Exit, done, exit, ◌>>=◌, exit_code_usage, exit_code_network_error, stderr, stderr_pretty,
  file_logger, Parser, Outside, get_mac,
}
use arrow_client.Commands.Arguments.{
  Valued, ca_certificates, interface, rtsp_service, mjpeg_service, http_service, tcp_service,
}

-- The options that name a file
pub data Named : Type 0 where
  config_file conn_state_file rtsp_paths mjpeg_paths log_file : Named

-- The options that give a number
pub data Numbered : Type 0 where
  log_file_size log_file_rotations : Numbered

-- A setting; a number comes with its digits.
pub data Setting : Type 0 where
  value : Valued → List ℕ → Setting
  discovery verbose diagnostic_mode log_stderr log_stderr_pretty : Setting
  file : Named → List ℕ → Setting
  number : Numbered → List ℕ → ℕ → Setting

abbrev pub flag_of : Valued → List ℕ
flag_of ca_certificates = codes "-c"
flag_of interface = codes "-i"
flag_of rtsp_service = codes "-r"
flag_of mjpeg_service = codes "-m"
flag_of http_service = codes "-h"
flag_of tcp_service = codes "-t"

abbrev pub file_prefix : Named → List ℕ
file_prefix config_file = codes "--config-file="
file_prefix conn_state_file = codes "--conn-state-file="
file_prefix rtsp_paths = codes "--rtsp-paths="
file_prefix mjpeg_paths = codes "--mjpeg-paths="
file_prefix log_file = codes "--log-file="

abbrev pub number_prefix : Numbered → List ℕ
number_prefix log_file_size = codes "--log-file-size="
number_prefix log_file_rotations = codes "--log-file-rotations="

-- The arguments that stand for a setting, before others
abbrev pub written : Setting → List (List ℕ) → List (List ℕ)
written (value v text) rest = flag_of v ∷ text ∷ rest
written discovery rest = codes "-d" ∷ rest
written verbose rest = codes "-v" ∷ rest
written diagnostic_mode rest = codes "--diagnostic-mode" ∷ rest
written log_stderr rest = codes "--log-stderr" ∷ rest
written log_stderr_pretty rest = codes "--log-stderr-pretty" ∷ rest
written (file f text) rest = (file_prefix f ++ text) ∷ rest
written (number n digits m) rest = (number_prefix n ++ digits) ∷ rest

abbrev pub all_written : List Setting → List (List ℕ)
all_written [] = []
all_written (s ∷ settings) = written s (all_written settings)

-- What naming a file does
abbrev pub name_file : Outside → Named → List ℕ → Parser → Exit Parser
name_file o config_file text p = done (record p { config_file = text })
name_file o conn_state_file text p = done (record p { state_file = text })
name_file o rtsp_paths text p =
    if o.discovery_feature then done (record p { rtsp_paths_file = text }) else exit exit_code_usage
name_file o mjpeg_paths text p =
    if o.discovery_feature
    then done (record p { mjpeg_paths_file = text })
    else exit exit_code_usage
name_file o log_file text p = done (record p { logger_type = file_logger; log_file = text })

-- What a setting does
abbrev pub meaning : Outside → Setting → Parser → Exit Parser
meaning o (value ca_certificates text) p =
    done (record p { ca_certificates = p.ca_certificates ++ text ∷ [] })
meaning o (value interface text) p = elim (get_mac text o.devices) [
  | none ↦ exit exit_code_network_error
  | some mac ↦ done (record p { arrow_mac = mac })
]
meaning o (value rtsp_service text) p =
    done (record p { rtsp_services = p.rtsp_services ++ text ∷ [] })
meaning o (value mjpeg_service text) p =
    done (record p { mjpeg_services = p.mjpeg_services ++ text ∷ [] })
meaning o (value http_service text) p =
    done (record p { http_services = p.http_services ++ text ∷ [] })
meaning o (value tcp_service text) p =
    done (record p { tcp_services = p.tcp_services ++ text ∷ [] })
meaning o discovery p =
    if o.discovery_feature then done (record p { discovery = true }) else exit exit_code_usage
meaning o verbose p = done (record p { verbose = true })
meaning o diagnostic_mode p = done (record p { diagnostic_mode = true })
meaning o log_stderr p = done (record p { logger_type = stderr })
meaning o log_stderr_pretty p = done (record p { logger_type = stderr_pretty })
meaning o (file f text) p = name_file o f text p
meaning o (number log_file_size digits m) p = done (record p { log_file_size = m })
meaning o (number log_file_rotations digits m) p = done (record p { log_file_rotations = m })

-- The settings one after another, up to the first that ends the process
abbrev pub all_meaning : Outside → List Setting → Parser → Exit Parser
all_meaning o [] p = done p
all_meaning o (s ∷ settings) p = meaning o s p >>= all_meaning o settings

-- A character but the newline, which `.` of an expression matches.
abbrev pub IsInLine : ℕ → Type 0
IsInLine c = c ≢ 10

-- A decimal digit
abbrev pub IsDigit : ℕ → Type 0
IsDigit c = (48 ≤ c) × (c ≤ 57)

-- What the documentation of the expressions says of the two that the parser uses.
pub record IsDocumented (o : Outside) : Type 0 where
  pub captures_text :
      (prefix text : List ℕ)
      → All IsInLine text
      → o.capture_text prefix (prefix ++ text) ≡ some text
  pub captures_digits :
      (prefix digits : List ℕ)
      → digits ≢ []
      → All IsDigit digits
      → o.capture_digits prefix (prefix ++ digits) ≡ some digits

-- A setting that can be written: the name of a file stands on one line, and a number has digits that
-- are read as its value.
abbrev pub IsWritable : Outside → Setting → Type 0
IsWritable o (file f text) = All IsInLine text
IsWritable o (number n digits m) =
    (digits ≢ []) × (All IsDigit digits) × (o.usize_from_str digits ≡ some m)
IsWritable o _ = Unit {0}
