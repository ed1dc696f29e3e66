-- ===== src/Commands/Handler/Scans.antt =====
-- The scans of a running program: the command handler, the thread of its scanner, and the messages
-- that wait for the handler.
use mathlib.Core.Path.{subst}
use arrow_client.Base.{
  ℕ, suc, ◌+◌, ◌≡◌, ◌⊎◌, inl, inr, refl, ap, ◌∙◌, sym, true, false, Option, none, some, List, [],
  ◌∷◌, ◌++◌, is_some, arith, Bool-cases,
}
use arrow_client.Base.Int.{ℤ}
use arrow_client.Base.Outcome.{ok}
use arrow_client.Commands.Seconds.{Float}
use arrow_client.Commands.Handler.{
  CommandWrapper, wrapped, scan_completed, Thread, running, finished, panicked,
  network_scanner_thread, Handler, network_scan_period, new, start_scan, periodical_network_scan,
  notice_changes, complete_scan, reset_svc_table, notify,
}
use arrow_client.Config.{AppContext}
use arrow_client.Connection.State.{Command, reset_service_table, scan_network}
use arrow_client.Protocol.ScanReport.{ScanReport}
use arrow_client.Protocol.ServiceTable.{ServiceTable}

-- The command handler and the messages that wait for it. A thread that panics before it sends its
-- message leaves the context as it was, or as its report has made it; a panic with the lock held is
-- left out.
pub record System (f : Float) : Type 0 where
  pub handler : Handler f
  pub inbox : List CommandWrapper

abbrev pub with_scanner : {f : Float} → System f → AppContext → Thread → Handler f
with_scanner s context t = record (s.handler) { app_context = context; scanner = some t }

pub data Step {f : Float} : System f → System f → Type 0 where
  -- The connection handler sends a command.
  posted :
      {s : System f} (cmd : Command) → Step s (record s { inbox = s.inbox ++ wrapped cmd ∷ [] })
  -- The handler takes the first message.
  received :
      {s : System f} (now : f.F64) (cmd : CommandWrapper) (rest : List CommandWrapper)
      → s.inbox ≡ cmd ∷ rest
      → Step s (record { handler = notify f now cmd s.handler; inbox = rest })
  -- The timer expires.
  timer :
      {s : System f} (now scan_now : f.F64)
      → Step s (record s { handler = (periodical_network_scan f now scan_now s.handler).0 })
  -- The scanner's thread ends, with a report or without one, and sends its message.
  scanned :
      {s : System f} (now : ℤ) (report : Option ScanReport) (context : AppContext)
      → s.handler.scanner ≡ some running
      → network_scanner_thread now report s.handler.app_context ≡ ok context
      → Step s (record {
        handler = with_scanner s context finished;
        inbox = s.inbox ++ scan_completed ∷ [];
      })
  -- The scanner's thread panics while it scans.
  scan_panicked :
      {s : System f}
      → s.handler.scanner ≡ some running
      → Step s (record s { handler = with_scanner s s.handler.app_context panicked })
  -- The scanner's thread cannot send its message and panics.
  send_panicked :
      {s : System f} (now : ℤ) (report : Option ScanReport) (context : AppContext)
      → s.handler.scanner ≡ some running
      → network_scanner_thread now report s.handler.app_context ≡ ok context
      → Step s (record s { handler = with_scanner s context panicked })

pub data Run {f : Float} : System f → System f → Type 0 where
  stay : {s : System f} → Run s s
  step : {s t u : System f} → Step s t → Run t u → Run s u

-- The messages of scanners in a queue
abbrev pub completions : List CommandWrapper → ℕ
completions [] = 0
completions (scan_completed ∷ rest) = suc (completions rest)
completions (wrapped cmd ∷ rest) = completions rest

-- The message that a scanner's thread has sent, if it has come to its end.
abbrev pub pending : Option Thread → ℕ
pending (some finished) = 1
pending (some running) = 0
pending (some panicked) = 0
pending none = 0

-- The context says that a scan is running exactly while the handler holds a scanner, and the message
-- of the scanner waits exactly when its thread has come to its end.
abbrev pub IsConsistent : {f : Float} → System f → Type 0
IsConsistent s =
    (s.handler.app_context.scanning ≡ is_some s.handler.scanner)
    × (completions s.inbox ≡ pending s.handler.scanner)

pub completions-append :
    (xs ys : List CommandWrapper) → completions (xs ++ ys) ≡ completions xs + completions ys
completions-append [] ys = omega arith
completions-append (scan_completed ∷ xs) ys = omega (arith, completions-append xs ys)
completions-append (wrapped cmd ∷ xs) ys = completions-append xs ys

network_scanner_thread-scanning :
    (now : ℤ) (report : Option ScanReport) (context context' : AppContext)
    → network_scanner_thread now report context ≡ ok context'
    → context'.scanning ≡ context.scanning
unfolding network_scanner_thread
network_scanner_thread-scanning now none context context' e = ground arith
network_scanner_thread-scanning now (some report) context context' e = ground arith

-- A scan starts only when no scanner is held.
start_scan_cases :
    (f : Float) (now : f.F64) (h : Handler f)
    → (start_scan f now h ≡ h)
      ⊎ ((h.scanner ≡ none)
          × ((start_scan f now h).scanner ≡ some running)
          × ((start_scan f now h).app_context.scanning ≡ true))
unfolding start_scan
start_scan_cases f now h = ground arith

notice_changes_lem :
    (f : Float) (h : Handler f)
    → ((notice_changes f h).scanner ≡ h.scanner) × ((notice_changes f h).last_scan ≡ h.last_scan)
unfolding notice_changes
notice_changes_lem f h = ground arith

complete_scan-scanner :
    (f : Float) (h : Handler f)
    → ((complete_scan f h).scanner ≡ none) × ((complete_scan f h).app_context.scanning ≡ false)
unfolding complete_scan
complete_scan-scanner f h = ((notice_changes_lem f (record h { scanner = none })).0, refl)

-- The parts of `IsConsistent`, for a handler and a number of messages
abbrev Agrees : (f : Float) → Handler f → ℕ → Type 0
Agrees f h n = (h.app_context.scanning ≡ is_some h.scanner) × (n ≡ pending h.scanner)

start_scan-Agrees :
    (f : Float) (now : f.F64) (h : Handler f) (n : ℕ)
    → Agrees f h n
    → Agrees f (start_scan f now h) n
start_scan-Agrees f now h n (flag, count) = elim (start_scan_cases f now h) [
  | inl same ↦ subst (λ h'. Agrees f h' n) (sym same) (flag, count)
  | inr (idle, started, on) ↦
      (on ∙ ap is_some (sym started), count ∙ ap pending idle ∙ ap pending (sym started))
]

periodical-Agrees :
    (f : Float) (now scan_now : f.F64) (h : Handler f) (n : ℕ)
    → Agrees f h n
    → Agrees f (periodical_network_scan f now scan_now h).0 n
unfolding periodical_network_scan
periodical-Agrees f now scan_now h n a =
    elim (Bool-cases (f.le (f.sub (network_scan_period f) (f.sub now h.last_scan)) (f.of_nat 0))) [
      | inl due ↦ rw due (start_scan-Agrees f scan_now h n a)
      | inr early ↦ rw early a
    ]

one_pending : (t : Option Thread) (n : ℕ) → suc n ≡ pending t → n ≡ 0
one_pending t n e = ground arith

notify-Agrees :
    (f : Float) (now : f.F64) (h : Handler f) (cmd : CommandWrapper) (rest : List CommandWrapper)
    → Agrees f h (completions (cmd ∷ rest))
    → Agrees f (notify f now cmd h) (completions rest)
unfolding notify reset_svc_table
notify-Agrees f now h scan_completed rest (flag, count) =
    let (gone, off) = complete_scan-scanner f h in
    (
      off ∙ ap is_some (sym gone),
      one_pending h.scanner (completions rest) count ∙ ap pending (sym gone),
    )
notify-Agrees f now h (wrapped reset_service_table) rest a = a
notify-Agrees f now h (wrapped scan_network) rest a = start_scan-Agrees f now h (completions rest) a

Step-IsConsistent : (f : Float) {s t : System f} → Step s t → IsConsistent s → IsConsistent t
Step-IsConsistent f (posted {s} cmd) (flag, count) =
    (flag, omega (arith, completions-append s.inbox (wrapped cmd ∷ [])))
Step-IsConsistent f (received {s} now cmd rest e) (flag, count) =
    notify-Agrees f now s.handler cmd rest (flag, sym (ap completions e) ∙ count)
Step-IsConsistent f (timer {s} now scan_now) a =
    periodical-Agrees f now scan_now s.handler (completions s.inbox) a
Step-IsConsistent f (scanned {s} now report context held e) (flag, count) = (
  network_scanner_thread-scanning now report s.handler.app_context context e
      ∙ flag
      ∙ ap is_some held,
  omega (arith, completions-append s.inbox (scan_completed ∷ []), count ∙ ap pending held),
)
Step-IsConsistent f (scan_panicked {s} held) (flag, count) =
    (flag ∙ ap is_some held, count ∙ ap pending held)
Step-IsConsistent f (send_panicked {s} now report context held e) (flag, count) = (
  network_scanner_thread-scanning now report s.handler.app_context context e
      ∙ flag
      ∙ ap is_some held,
  count ∙ ap pending held,
)

-- In every run of the program, the flag of the shared context says that a scan is running exactly
-- while the handler holds a scanner, and the message that a scan is complete waits exactly once when
-- the scanner's thread has come to its end and never otherwise.
pub Run-IsConsistent : (f : Float) {s t : System f} → Run s t → IsConsistent s → IsConsistent t
Run-IsConsistent f stay a = a
Run-IsConsistent f (step e run) a = Run-IsConsistent f run (Step-IsConsistent f e a)

-- The program starts with nothing to do, when its context says that no scan is running.
pub new-IsConsistent :
    (f : Float) (table : ServiceTable) (context : AppContext) (now : f.F64)
    → context.scanning ≡ false
    → IsConsistent {f = f} (record { handler = new f table context now; inbox = [] })
new-IsConsistent f table context now off = (off, refl)
