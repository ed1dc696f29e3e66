-- ===== src/Connection/Events/Timers.antt =====
-- What the timers of the connection do.
use native.Mathlib.Decide.{ℕ_discrete}
use mathlib.Core.Path.{subst}
use arrow_client.Base.{
  ℕ, ◌+◌, ◌%◌, ◌^◌, ◌<◌, ◌≡◌, ◌≢◌, ◌⊎◌, inl, inr, refl, sym, ap, ◌∙◌, true, false, none, some, [],
  ◌∷◌, ◌++◌, arith, Option-cases, Bool-cases, if◌then◌else◌, append_assoc,
}
use arrow_client.Base.Dict.{remove, lookup-remove_self, lookup-remove_ne}
use arrow_client.Base.Outcome.{Outcome, ok}
use arrow_client.Base.Stateful.{◌>>◌}
use arrow_client.Net.Timeout
use arrow_client.Protocol.Payload.{hup_body, create_hup_message}
use arrow_client.Connection.Events.{check_session_timeout, is_timed_out}
use arrow_client.Connection.SessionMap.{get_session_context, remove_session_context}
use arrow_client.Connection.Send.{send_hup_message}
use arrow_client.Connection.Send.Ids.{IsSent}
use arrow_client.Connection.Session.{session2token}
use arrow_client.Connection.State.{
  timeout_ms, reregister_socket, deregister_socket, timeout_check, timeout_check_period,
  SessionContext, Handler, Env, call,
}

-- The timer of a token is started for one second, which is the period of the checks.
abbrev pub restarted : ℕ → Handler → Handler
restarted token h = record h { calls = h.calls ++ timeout_ms (timeout_check token) 1000 ∷ [] }

-- The write timeout of the session has expired.
abbrev pub IsExpired : Env → ℕ → Handler → Type 0
IsExpired env k h =
    (ctx : SessionContext) × (deadline : ℕ) × (get_session_context k h ≡ some ctx)
    × (ctx.write_tout.timeout ≡ some deadline)
    × (deadline < env.now)

-- What is done to an expired session: a HUP message without an error code is sent for it, and it is
-- gone, with its socket and without its timer. The other sessions are kept.
abbrev pub IsToldOff : ℕ → Handler → Handler → Type 0
IsToldOff k h h' =
    (ctx : SessionContext) × (get_session_context k h ≡ some ctx)
    × IsSent hup_body (create_hup_message h.msg_id k 0) h h'
    × (h'.msg_id ≡ (h.msg_id + 1) % 2 ^ 16)
    × (get_session_context k h' ≡ none)
    × ((j : ℕ) → k ≢ j → get_session_context j h' ≡ get_session_context j h)
    × (h'.calls
        ≡ h.calls
          ++ reregister_socket 0 true true ∷ deregister_socket (session2token ctx.session_id) ∷ [])

abbrev pub IsChecked : Env → ℕ → Handler → Handler × Outcome (Unit {0}) → Type 0
IsChecked env k h (h', r) =
    ((IsExpired env k h × IsToldOff k h h')
      ⊎ ((IsExpired env k h → ⊥) × (h' ≡ restarted (session2token k) h)))
    × (r ≡ ok tt)

-- What a check does by the answer of the test
check_kept :
    (env : Env) (k : ℕ) (h : Handler)
    → is_timed_out env (get_session_context k h) ≡ false
    → check_session_timeout env k h ≡ (restarted (session2token k) h, ok tt)
unfolding check_session_timeout
check_kept env k h e =
    ap
      (λ b.
        if b
        then (send_hup_message env k 0 >> remove_session_context k) h
        else call (timeout_ms (timeout_check (session2token k)) timeout_check_period) h)
      e

check_removes :
    (env : Env) (k : ℕ) (h : Handler) (ctx : SessionContext)
    → get_session_context k h ≡ some ctx
    → is_timed_out env (get_session_context k h) ≡ true
    → let h' = (send_hup_message env k 0 h).0 in
      check_session_timeout env k h ≡ (
        record h' {
          sessions = remove ℕ_discrete k h.sessions;
          calls = h'.calls ++ deregister_socket (session2token ctx.session_id) ∷ [];
        },
        ok tt,
      )
unfolding check_session_timeout send_hup_message remove_session_context
check_removes env k h ctx e late =
    ap
      (λ b.
        if b
        then (send_hup_message env k 0 >> remove_session_context k) h
        else call (timeout_ms (timeout_check (session2token k)) timeout_check_period) h)
      late
    ∙ rw (e, remove_session_context) refl

not_expired :
    (env : Env) (k : ℕ) (h : Handler)
    → is_timed_out env (get_session_context k h) ≡ false
    → IsExpired env k h
    → ⊥
unfolding is_timed_out Timeout.check
not_expired env k h e (ctx, deadline, found, set', late) = ground (arith, e, found, set', late)

-- The check ends with a HUP message for the session and its removal if the write timeout of the session
-- has expired, and then the timer is not started again. If it has not, or there is no such session, the
-- timer is started again, and nothing else changes.
pub check_session_timeout_lem :
    (env : Env) (k : ℕ) (h : Handler) → IsChecked env k h (check_session_timeout env k h)
unfolding is_timed_out Timeout.check send_hup_message
check_session_timeout_lem env k h = elim (Bool-cases (is_timed_out env (get_session_context k h))) [
  | inr kept ↦
      subst (IsChecked env k h) (sym (check_kept env k h kept))
        (inr (not_expired env k h kept, refl), refl)
  | inl late ↦ elim (Option-cases (get_session_context k h)) [
    | inl gone ↦ absurd (ground (arith, late, gone))
    | inr (ctx, e) ↦ elim (Option-cases ctx.write_tout.timeout) [
      | inl unset ↦ absurd (ground (arith, late, e, unset))
      | inr (deadline, d) ↦ subst (IsChecked env k h) (sym (check_removes env k h ctx e late)) (
        inl (
          (ctx, deadline, e, d, ground (arith, late, e, d)),
          (
            ctx,
            e,
            refl,
            refl,
            lookup-remove_self ℕ_discrete k h.sessions,
            λ j n. lookup-remove_ne ℕ_discrete k j h.sessions n,
            append_assoc h.calls (reregister_socket 0 true true ∷ []) _,
          ),
        ),
        refl,
      )
    ]
  ]
]
