-- ===== src/Commands/Handler/Dead.antt =====
-- What follows a panic of the scanner's thread.
use arrow_client.Base.{◌≡◌, refl, ap, ◌∙◌, sym, some, List, [], ◌∷◌, arith, Bool-cases, inl, inr}
use arrow_client.Commands.Seconds.{Float}
use arrow_client.Commands.Handler.{
  CommandWrapper, wrapped, scan_completed, panicked, Handler, network_scan_period, start_scan,
  periodical_network_scan, reset_svc_table, notify,
}
use arrow_client.Commands.Handler.Scans.{
  System, Step, posted, received, timer, scanned, scan_panicked, send_panicked, Run, stay, step,
  completions, completions-append,
}
use arrow_client.Connection.State.{reset_service_table, scan_network}

-- The scanner's thread has panicked and no message of it waits.
abbrev pub IsDead : {f : Float} → f.F64 → System f → Type 0
IsDead last_scan s =
    (s.handler.scanner ≡ some panicked)
    × (completions s.inbox ≡ 0)
    × (s.handler.last_scan ≡ last_scan)

start_scan_held :
    (f : Float) (now : f.F64) (h : Handler f) → h.scanner ≡ some panicked → start_scan f now h ≡ h
unfolding start_scan
start_scan_held f now h held = ground arith

notify_held :
    (f : Float) (now : f.F64) (h : Handler f) (cmd : CommandWrapper) (rest : List CommandWrapper)
    → h.scanner ≡ some panicked
    → completions (cmd ∷ rest) ≡ 0
    → ((notify f now cmd h).scanner ≡ some panicked)
      × (completions rest ≡ 0)
      × ((notify f now cmd h).last_scan ≡ h.last_scan)
unfolding notify reset_svc_table
notify_held f now h scan_completed rest held count = absurd (omega arith)
notify_held f now h (wrapped reset_service_table) rest held count = (held, count, refl)
notify_held f now h (wrapped scan_network) rest held count =
    let same = start_scan_held f now h held in
    (ap (λ h. h.scanner) same ∙ held, count, ap (λ h. h.last_scan) same)

periodical_held :
    (f : Float) (now scan_now : f.F64) (h : Handler f)
    → h.scanner ≡ some panicked
    → (periodical_network_scan f now scan_now h).0 ≡ h
unfolding periodical_network_scan
periodical_held f now scan_now h held =
    elim (Bool-cases (f.le (f.sub (network_scan_period f) (f.sub now h.last_scan)) (f.of_nat 0))) [
      | inl due ↦ rw due (start_scan_held f scan_now h held)
      | inr early ↦ rw early refl
    ]

Step-IsDead :
    (f : Float) (last_scan : f.F64) {s t : System f}
    → Step s t
    → IsDead last_scan s
    → IsDead last_scan t
Step-IsDead f last_scan (posted {s} cmd) (held, count, same) =
    (held, omega (arith, completions-append s.inbox (wrapped cmd ∷ [])), same)
Step-IsDead f last_scan (received {s} now cmd rest e) (held, count, same) =
    let (held', count', kept) =
      notify_held f now s.handler cmd rest held (sym (ap completions e) ∙ count) in
    (held', count', kept ∙ same)
Step-IsDead f last_scan (timer {s} now scan_now) (held, count, same) =
    let kept = periodical_held f now scan_now s.handler held in
    (ap (λ h. h.scanner) kept ∙ held, count, ap (λ h. h.last_scan) kept ∙ same)
Step-IsDead f last_scan (scanned {s} now report context alive e) (held, count, same) =
    absurd (ground arith)
Step-IsDead f last_scan (scan_panicked {s} alive) (held, count, same) = absurd (ground arith)
Step-IsDead f last_scan (send_panicked {s} now report context alive e) (held, count, same) =
    absurd (ground arith)

-- Once the scanner's thread has panicked, the program never scans again, whatever commands and timer
-- events follow: the handler holds the dead thread for ever, no message says that its scan is
-- complete, and the time of the last scan stays what it is.
pub Run-IsDead :
    (f : Float) (last_scan : f.F64) {s t : System f}
    → Run s t
    → IsDead last_scan s
    → IsDead last_scan t
Run-IsDead f last_scan stay d = d
Run-IsDead f last_scan (step e run) d = Run-IsDead f last_scan run (Step-IsDead f last_scan e d)
