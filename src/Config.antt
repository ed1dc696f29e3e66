-- ===== src/Config.antt =====
-- `ArrowConfig` and `AppContext` of src/utils/config.rs: the state that the client's threads share.
use arrow_client.Base.{ℕ, ◌+◌, Bool, false, Option, List}
use arrow_client.Base.Int.{ℤ}
use arrow_client.Base.Outcome.{Outcome, ok, ◌>>=◌}
use arrow_client.Protocol.Payload.{Bytes16}
use arrow_client.Protocol.ScanReport
use arrow_client.Protocol.ScanReport.{ScanReport}
use arrow_client.Protocol.Service.{Service}
use arrow_client.Protocol.ServiceTable
use arrow_client.Protocol.ServiceTable.{ServiceTable}

pub record ArrowConfig : Type 0 where
  pub uuid : Bytes16
  pub passwd : Bytes16
  pub version : ℕ
  pub svc_table : ServiceTable

-- The two identifiers are drawn at random.
abbrev pub new : Bytes16 → Bytes16 → ArrowConfig
new uuid passwd = record { uuid = uuid; passwd = passwd; version = 0; svc_table = ServiceTable.new }

abbrev pub get : ArrowConfig → ℕ → Option Service
get c id = ServiceTable.get c.svc_table id

abbrev with_table : ArrowConfig → ServiceTable × Option ℕ → Outcome (ArrowConfig × Option ℕ)
with_table c (t, id) = ok (record c { svc_table = t }, id)

abbrev pub add : Service → ℤ → ArrowConfig → Outcome (ArrowConfig × Option ℕ)
add svc now c = ServiceTable.add svc now c.svc_table >>= with_table c

abbrev pub add_static : Service → ℤ → ArrowConfig → Outcome (ArrowConfig × Option ℕ)
add_static svc now c = ServiceTable.add_static svc now c.svc_table >>= with_table c

abbrev pub update_active_services : ℤ → ArrowConfig → ArrowConfig × Bool
update_active_services now c =
    let (t, changed) = ServiceTable.update_active_services now c.svc_table in
    (record c { svc_table = t }, changed)

abbrev pub active_services : ArrowConfig → List Service
active_services c = ServiceTable.active_services c.svc_table

abbrev pub bump_version : ArrowConfig → ArrowConfig
bump_version c = record c { version = c.version + 1 }

abbrev pub reinit : ServiceTable → ArrowConfig → ArrowConfig
reinit t c = record c { svc_table = t }

pub record AppContext : Type 0 where
  pub config : ArrowConfig
  pub scanning : Bool
  pub diagnostic_mode : Bool
  pub discovery : Bool
  pub scan_report : ScanReport

abbrev pub new_context : ArrowConfig → AppContext
new_context config = record {
  config = config;
  scanning = false;
  diagnostic_mode = false;
  discovery = false;
  scan_report = ScanReport.new;
}
