-- ===== src/Connection/Served/Close.antt =====
-- The events of a session's socket keep every open session in the queue.
use arrow_client.Base.{
  ℕ, ◌≡◌, sym, ◌∙◌, inl, inr, Option-cases, Bool-cases, ltb, Option, none, some, length, arith,
}
use mathlib.Core.Path.{subst}
use arrow_client.Base.Outcome.{Outcome, ok, err, panic, out_of_fuel}
use arrow_client.Base.Stateful.{Stateful, pure, then_do, ◌>>◌}
use arrow_client.Connection.Pump.{
  Io, move_input, flush_session, close_session, session_event, session_socket_ready,
}
use arrow_client.Connection.SessionMap.{get_session_context, in_session, remove_session_context}
use arrow_client.Connection.Send.{send_hup_message}
use arrow_client.Connection.Served.{Served, IsServed, in_session-Served}
use arrow_client.Connection.Served.Rounds.{moved-Served, moved_queue, remove-IsServed}
use arrow_client.Connection.Session
use arrow_client.Connection.Session.{EventSet, SessionIo, Live}
use arrow_client.Connection.State.{Handler, Env}

socket_ready_keeps :
    (now : ℕ) (ev : EventSet) (io : SessionIo) (l : Live)
    → (Session.socket_ready now ev io l).0.ctx.session_id ≡ l.ctx.session_id
unfolding Session.socket_ready Session.check_read_event Session.check_write_event
    Session.update_socket_events Session.stream_read Session.stream_write
socket_ready_keeps now ev io l = ground arith

then-IsServed :
    {A B : Type 0} (x : Handler × Outcome A) (f : A → Stateful Handler B)
    → IsServed x.0
    → ((h : Handler) (a : A) → IsServed h → IsServed ((f a h).0))
    → IsServed ((then_do f x).0)
then-IsServed (h, ok a) f served k = k h a served
then-IsServed (h, err _) f served k = served
then-IsServed (h, panic) f served k = served
then-IsServed (h, out_of_fuel) f served k = served

module _ (env : Env) where
  flush-IsServed : (k : ℕ) (h : Handler) → IsServed h → IsServed ((flush_session env k h).0)
  unfolding flush_session
  flush-IsServed k h served = elim (Option-cases (get_session_context k h)) [
    | inl e ↦
        let same : h ≡ (flush_session env k h).0 = ground (arith, e) in subst IsServed same served
    | inr (ctx, e) ↦
        let limit = length ctx.input_buffer.bytes in
        let moved = move_input env limit k ctx h in
        let sessions : moved.sessions ≡ (flush_session env k h).0.sessions = ground (arith, e) in
        let queue : moved.session_queue ≡ (flush_session env k h).0.session_queue =
          ground (arith, e) in
        let (own, queued) = served k ctx e in
        subst (λ m. Served m ((flush_session env k h).0.session_queue)) sessions
          (subst (Served moved.sessions) (sym (moved_queue env limit k ctx h) ∙ queue) (
            moved-Served env limit k ctx h h.session_queue h.session_queue served own queued
              (λ j q n. q)))
  ]

  close-IsServed :
      (k code : ℕ) (h : Handler) → IsServed h → IsServed ((close_session env k code h).0)
  unfolding close_session send_hup_message
  close-IsServed k code h served =
      then-IsServed (flush_session env k h)
        (λ u. send_hup_message env k code >> remove_session_context k) (flush-IsServed k h served)
        (λ h' u served'.
          then-IsServed (send_hup_message env k code h') (λ u. remove_session_context k) served'
            (λ h'' u served''. remove-IsServed k h'' served''))

  event-IsServed :
      (k : ℕ) (x : Handler × Outcome (Option ℕ))
      → IsServed x.0
      → IsServed ((session_event env k x).0)
  unfolding session_event
  event-IsServed k (h, err _) served =
      then-IsServed (close_session env k 2 h) (λ u. pure none) (close-IsServed k 2 h served)
        (λ h u v. v)
  event-IsServed k (h, ok none) served =
      then-IsServed (close_session env k 0 h) (λ u. pure none) (close-IsServed k 0 h served)
        (λ h u v. v)
  event-IsServed k (h, ok (some size)) served = elim (Bool-cases (ltb 0 size)) [
    | inl e ↦ rw e served
    | inr e ↦ rw e served
  ]
  event-IsServed k (h, panic) served = served
  event-IsServed k (h, out_of_fuel) served = served

  -- Whatever happens on the socket of a session, data, an error or the end of the connection, every
  -- session that is then open is under its own ID and in the queue.
  pub session_socket_ready-IsServed :
      (io : Io) (k : ℕ) (ev : EventSet) (h : Handler)
      → IsServed h
      → IsServed ((session_socket_ready env io k ev h).0)
  unfolding session_socket_ready
  session_socket_ready-IsServed io k ev h served = elim (Option-cases (get_session_context k h)) [
    | inl e ↦
        let same : session_event env k (h, ok (some 0)) ≡ session_socket_ready env io k ev h =
          ground (arith, e) in
        subst (λ x. IsServed x.0) same (event-IsServed k (h, ok (some 0)) served)
    | inr (ctx, e) ↦
        let x = in_session k ctx (Session.socket_ready env.now ev io.session) h in
        let same : session_event env k x ≡ session_socket_ready env io k ev h = ground (arith, e) in
        let (own, queued) = served k ctx e in
        subst (λ y. IsServed y.0) same
          (event-IsServed k x (
            in_session-Served k ctx (Session.socket_ready env.now ev io.session)
              (socket_ready_keeps env.now ev io.session) h h.session_queue h.session_queue served
              own queued (λ j q n. q)))
  ]
