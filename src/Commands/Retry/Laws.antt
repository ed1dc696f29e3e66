-- ===== src/Commands/Retry/Laws.antt =====
-- The timeout of the unauthorized state over the rounds of `arrow_thread`.
use arrow_client.Base.{ℕ, ◌≡◌, refl, ap, ◌∙◌, sym, true, false, Option, if◌then◌else◌, arith}
use arrow_client.Base.Outcome.{
  connection_error, unsupported_protocol_version, unauthorized, service_connection_error,
  arrow_server_error, other,
}
use arrow_client.Commands.Seconds.{Float}
use arrow_client.Commands.Retry.{
  ConnectionResult, redirected, failed, ConnectionState, unauthorized_state, lasted,
  get_unauthorized_timeout, get_next_retry_timeout, Client, Readings, Round, again, sleep, settle,
  round,
}

-- A result that does not let the client take itself for authorized: an UNAUTHORIZED, or another error
-- at most a minute after the attempt.
abbrev pub IsShort : {f : Float} → Readings f → ConnectionResult → Type 0
IsShort r (redirected addr) = false ≡ true
IsShort r (failed unauthorized) = Unit {0}
IsShort {f} r (failed _) = lasted f r.attempt r.after ≡ false

-- Rounds with such results, one after another
pub data Short {f : Float} : Client f → Client f → Type 0 where
  stay : {c : Client f} → Short c c
  then_round :
      {c d e : Client f} (r : Readings f) (res : ConnectionResult) (slept : Option ℕ)
      (state : ConnectionState)
      → IsShort r res
      → round f false r c res ≡ again d slept state
      → Short d e
      → Short c e

again_client :
    (f : Float) {c d : Client f} {s t : Option ℕ} {x y : ConnectionState}
    → (let r : Round f = again c s x in r) ≡ again d t y
    → c ≡ d
again_client f e = cc

short_keeps :
    (f : Float) (r : Readings f) (res : ConnectionResult) (c : Client f)
    → IsShort r res
    → get_unauthorized_timeout f res r.attempt c.unauthorized_timeout r.after
      ≡ c.unauthorized_timeout
unfolding get_unauthorized_timeout
short_keeps f r (redirected addr) c s = absurd (ground arith)
short_keeps f r (failed unauthorized) c s = refl
short_keeps f r (failed connection_error) c s = rw s refl
short_keeps f r (failed unsupported_protocol_version) c s = rw s refl
short_keeps f r (failed service_connection_error) c s = rw s refl
short_keeps f r (failed arrow_server_error) c s = rw s refl
short_keeps f r (failed other) c s = rw s refl

round_timeout :
    (f : Float) (r : Readings f) (res : ConnectionResult) (c d : Client f) (slept : Option ℕ)
    (state : ConnectionState)
    → round f false r c res ≡ again d slept state
    → d.unauthorized_timeout
      ≡ get_unauthorized_timeout f res r.attempt c.unauthorized_timeout r.after
unfolding round settle
round_timeout f r (redirected addr) c d slept state e =
    sym (ap (λ c. c.unauthorized_timeout) (again_client f e))
round_timeout f r (failed kind) c d slept state e =
    sym (ap (λ c. c.unauthorized_timeout) (again_client f e))

Short-timeout :
    (f : Float) {c d : Client f} → Short c d → d.unauthorized_timeout ≡ c.unauthorized_timeout
Short-timeout f stay = refl
Short-timeout f (then_round {c} {d} r res slept state short e rest) =
    Short-timeout f rest ∙ round_timeout f r res c d slept state e ∙ short_keeps f r res c short

-- After rounds none of which lets the client take itself for authorized, an UNAUTHORIZED puts off the
-- next attempt by the time that has passed since the timeout was set, however many UNAUTHORIZED the
-- rounds had: when more than ten minutes of the timeout are left the client sleeps for ten seconds,
-- before the timeout for 30 seconds, and from then on for ten hours, so even the first UNAUTHORIZED
-- can be answered with ten hours.
pub round-Short :
    (f : Float) {c d : Client f}
    → Short c d
    → (r : Readings f)
    → round f false r d (failed unauthorized)
      ≡ again
          (record d { cur_addr = d.addr })
          (sleep f (
            if f.lt r.retry (f.sub c.unauthorized_timeout (f.of_nat 600))
            then f.of_nat 10
            else if f.lt r.retry c.unauthorized_timeout
            then f.of_nat 30
            else f.of_nat 36000))
          unauthorized_state
unfolding round settle get_unauthorized_timeout get_next_retry_timeout
round-Short f run r = rw (sym (Short-timeout f run)) refl
