-- ===== src/Commands/Handler.antt =====
-- The command handler of src/main.rs: it runs one network scanner at a time, on demand and
-- periodically, and keeps the shared configuration.
pub mod Scans
pub mod Dead
pub mod Changes
use mathlib.Core.Logic.{ite}
use arrow_client.Base.{
  ℕ, Bool, true, false, ◌&&◌, not, Option, none, some, List, [], ◌∷◌, ◌++◌, is_some, if◌then◌else◌,
}
use arrow_client.Base.Int.{ℤ}
use arrow_client.Base.Outcome.{Outcome, ok, ◌>>=◌}
use arrow_client.Commands.Seconds.{Float}
use arrow_client.Config
use arrow_client.Config.{AppContext, ArrowConfig}
use arrow_client.Connection.State.{Command, reset_service_table, scan_network}
use arrow_client.Protocol.ScanReport.{ScanReport}
use arrow_client.Protocol.Service.{Service, Service-discrete}
use arrow_client.Protocol.ServiceTable.{ServiceTable}

-- `CommandWrapper`
pub data CommandWrapper : Type 0 where
  wrapped : Command → CommandWrapper
  scan_completed : CommandWrapper

-- The thread that a join handle is for: it runs, or has come to an end in one of two ways.
pub data Thread : Type 0 where
  running finished panicked : Thread

-- The comparison of two lists of services
unfoldable pub same_services : List Service → List Service → Bool
unfolding Service-discrete
same_services [] [] = true
same_services [] (t ∷ ts) = false
same_services (s ∷ ss) [] = false
same_services (s ∷ ss) (t ∷ ts) = ite (Service-discrete s t) (same_services ss ts) false

-- The loop of `network_scanner_thread` over the services of a report
unfoldable pub add_services : ℤ → List Service → ArrowConfig → Outcome ArrowConfig
add_services now [] c = ok c
add_services now (svc ∷ services) c =
    Config.add svc now c >>= λ added. add_services now services added.0

-- `network_scanner_thread` with the report of the scan, if there is one
unfoldable pub network_scanner_thread : ℤ → Option ScanReport → AppContext → Outcome AppContext
unfolding add_services
network_scanner_thread now none context = ok context
network_scanner_thread now (some report) context =
    add_services now report.services context.config >>= λ config.
    ok (record context {
      config = (Config.update_active_services now config).0;
      scan_report = report;
    })

module _ (f : Float) where
  -- `NETWORK_SCAN_PERIOD`
  abbrev pub network_scan_period : f.F64
  network_scan_period = f.of_nat 300

  -- `CommandHandler`, with the shared context that it locks and the thread of its scanner; the paths
  -- of files are left out.
  pub record Handler : Type 0 where
    pub default_svc_table : ServiceTable
    pub active_services : List Service
    pub app_context : AppContext
    pub scanner : Option Thread
    pub last_scan : f.F64

  -- `CommandHandler::new`
  abbrev pub new : ServiceTable → AppContext → f.F64 → Handler
  new default_svc_table app_context now = record {
    default_svc_table = default_svc_table;
    active_services = Config.active_services app_context.config;
    app_context = app_context;
    scanner = none;
    last_scan = f.sub now network_scan_period;
  }

  -- `CommandHandler::scan_network`
  unfoldable pub start_scan : f.F64 → Handler → Handler
  start_scan now h =
      if (h.app_context).discovery && not (is_some h.scanner)
      then record h {
        last_scan = now;
        app_context = record (h.app_context) { scanning = true };
        scanner = some running;
      }
      else h

  -- `CommandHandler::periodical_network_scan`: with the clock as `scan_network` reads it, and the
  -- time after which the event comes again.
  unfoldable pub periodical_network_scan : f.F64 → f.F64 → Handler → Handler × ℕ
  unfolding start_scan
  periodical_network_scan now scan_now h =
      let elapsed = f.sub now h.last_scan in
      let delta = f.sub network_scan_period elapsed in
      if f.le delta (f.of_nat 0)
      then (start_scan scan_now h, f.millis network_scan_period)
      else (h, f.millis delta)

  -- The comparison of the active services in `scan_completed`
  unfoldable pub notice_changes : Handler → Handler
  unfolding same_services
  notice_changes h =
      let config = (h.app_context).config in
      let active = Config.active_services config in
      if same_services h.active_services active then h else record h {
        active_services = active;
        app_context = record (h.app_context) { config = Config.bump_version config };
      }

  -- `CommandHandler::scan_completed`; what joining the thread gives is only logged.
  unfoldable pub complete_scan : Handler → Handler
  unfolding notice_changes
  complete_scan h =
      let noticed = notice_changes (record h { scanner = none }) in
      record noticed { app_context = record (noticed.app_context) { scanning = false } }

  -- `CommandHandler::reset_svc_table`
  unfoldable pub reset_svc_table : Handler → Handler
  reset_svc_table h =
      let config = Config.bump_version (Config.reinit h.default_svc_table (h.app_context).config) in
      record h { app_context = record (h.app_context) { config = config } }

  -- `Handler::notify`
  unfoldable pub notify : f.F64 → CommandWrapper → Handler → Handler
  unfolding start_scan complete_scan reset_svc_table
  notify now scan_completed h = complete_scan h
  notify now (wrapped reset_service_table) h = reset_svc_table h
  notify now (wrapped scan_network) h = start_scan now h
