-- ===== src/Connection/Served/Rounds.antt =====
-- The rounds of `fill_output_buffer` and the requests for a service keep every open session in the
-- queue.
use native.Mathlib.Decide.{ℕ_discrete}
use arrow_client.Base.{
  ℕ, zero, suc, ◌≡◌, ◌≢◌, refl, sym, ap, ◌∙◌, ◌⊎◌, inl, inr, Bool-cases, Option-cases, true, Option,
  none, some, List, [], ◌∷◌, ◌++◌, take, min, length, if◌then◌else◌, arith,
}
use mathlib.Core.Path.{subst}
use arrow_client.Base.Dict.{remove}
use arrow_client.Base.Outcome.{ok}
use arrow_client.Net.ByteQueue
use arrow_client.Connection.Pump.{move_input, pump_next, fill, fill_output_buffer}
use arrow_client.Connection.Requests.{process_service_request, deliver}
use arrow_client.Connection.SessionMap.{
  get_session_context, in_session, create_session_context, remove_session_context,
}
use arrow_client.Connection.Served.{
  has, Served, IsServed, in_session-Served, remove-Served, has_rotated, create-IsServed,
  drop_input_bytes_keeps, send_message_keeps,
}
use arrow_client.Connection.Send.{buffer_message}
use arrow_client.Connection.Session
use arrow_client.Connection.Session.{input_ready}
use arrow_client.Protocol.Parser
use arrow_client.Protocol.Message
use arrow_client.Protocol.Message.{raw_body}
use arrow_client.Connection.State.{
  SessionContext, ProtocolState, handshake, established, Handler, Env,
}

ProtocolState-cases : (s : ProtocolState) → (s ≡ handshake) ⊎ (s ≡ established)
ProtocolState-cases handshake = inl refl
ProtocolState-cases established = inr refl

has_behind : (j k : ℕ) (queue : List ℕ) → has j (k ∷ queue) ≡ true → k ≢ j → has j queue ≡ true
unfolding has
has_behind j k queue e n = ground arith

module _ (env : Env) where
  abbrev moved_len : ℕ → SessionContext → ℕ
  moved_len limit ctx = if input_ready ctx then min limit (length ctx.input_buffer.bytes) else 0

  -- The handler whose output buffer has taken the message of a session, if there was one.
  abbrev buffered : ℕ → SessionContext → Handler → Handler
  buffered limit ctx h =
      let bytes = take (moved_len limit ctx) ctx.input_buffer.bytes in
      if input_ready ctx
      then buffer_message env raw_body (Message.new ctx.service_id ctx.session_id bytes) h
      else h

  buffered_same :
      (limit : ℕ) (ctx : SessionContext) (h : Handler)
      → ((buffered limit ctx h).sessions ≡ h.sessions)
        × ((buffered limit ctx h).session_queue ≡ h.session_queue)
  unfolding buffer_message
  buffered_same limit ctx h = (ground arith, ground arith)

  -- A session whose input has been moved is served by any queue that has its ID and those of the
  -- others.
  pub moved-Served :
      (limit k : ℕ) (ctx : SessionContext) (h : Handler) (queue more : List ℕ)
      → Served h.sessions queue
      → ctx.session_id ≡ k
      → has k more ≡ true
      → ((j : ℕ) → has j queue ≡ true → j ≢ k → has j more ≡ true)
      → Served ((move_input env limit k ctx h).sessions) more
  unfolding move_input
  moved-Served limit k ctx h queue more served own queued kept =
      in_session-Served k ctx (Session.drop_input_bytes (moved_len limit ctx))
        (drop_input_bytes_keeps (moved_len limit ctx)) (buffered limit ctx h) queue more
        (subst (λ m. Served m queue) (sym ((buffered_same limit ctx h).0)) served) own queued kept

  pub moved_queue :
      (limit k : ℕ) (ctx : SessionContext) (h : Handler)
      → (move_input env limit k ctx h).session_queue ≡ h.session_queue
  unfolding move_input
  moved_queue limit k ctx h = (buffered_same limit ctx h).1

  -- A round of `fill_output_buffer` loses no session, although it takes IDs without a session away.
  pump_from :
      (queue : List ℕ) (h : Handler)
      → h.session_queue ≡ queue
      → IsServed h
      → IsServed (pump_next env h)
  unfolding pump_next
  pump_from [] h e served =
      let skipped : h ≡ pump_next env h = ground (arith, e) in subst IsServed skipped served
  pump_from (k ∷ queue) h e served =
      let h' : Handler = record h { session_queue = queue } in
      let front : (j : ℕ) (c : SessionContext)
          → get_session_context j h ≡ some c
          → has j (k ∷ queue) ≡ true =
        λ j c q. ap (has j) (sym e) ∙ (served j c q).1 in
      elim (Option-cases (get_session_context k h)) [
        | inl gone ↦
            let skipped : h' ≡ pump_next env h = ground (arith, e, gone) in
            subst IsServed skipped (λ j found q. (
              (served j found q).0,
              has_behind j k queue (front j found q) (λ same. ground (arith, gone, q, same)),
            ))
        | inr (ctx, there) ↦
            let moved = move_input env 32768 k ctx h' in
            let rotated : record moved { session_queue = moved.session_queue ++ k ∷ [] }
                ≡ pump_next env h =
              ground (arith, e, there) in
            subst IsServed rotated (
              subst (Served moved.sessions)
                (ap (λ q. q ++ k ∷ []) (sym (moved_queue 32768 k ctx h')))
                (moved-Served 32768 k ctx h' (k ∷ queue) (queue ++ k ∷ [])
                  (λ j found q. ((served j found q).0, front j found q)) (served k ctx there).0
                  (has_rotated k k queue (front k ctx there)) (λ j q n. has_rotated k j queue q)))
      ]

  fill-IsServed : (n : ℕ) (h : Handler) → IsServed h → IsServed (fill n env h)
  unfolding fill
  fill-IsServed zero h served = served
  fill-IsServed (suc n) h served = elim (Bool-cases (ByteQueue.is_full h.output_buffer)) [
    | inl e ↦ rw e served
    | inr e ↦ rw e (fill-IsServed n (pump_next env h) (pump_from h.session_queue h refl served))
  ]

  create_result :
      (service_id session_id : ℕ) (h : Handler)
      → let (h', r) = create_session_context env service_id session_id h in
        r ≡ ok (get_session_context session_id h')
  unfolding create_session_context
  create_result service_id session_id h = refl

  deliver-IsServed :
      (k : ℕ) (request : List ℕ) (found : Option SessionContext) (h : Handler)
      → IsServed h
      → get_session_context k h ≡ found
      → IsServed ((deliver env k request found h).0)
  unfolding deliver Session.send_message Session.update_socket_events
  deliver-IsServed k request none h served e = served
  deliver-IsServed k request (some ctx) h served e =
      let (own, queued) = served k ctx e in
      let same : (in_session k ctx (Session.send_message env.now request) h).0
          ≡ (deliver env k request (some ctx) h).0 =
        ground arith in
      subst IsServed same (
        in_session-Served k ctx (Session.send_message env.now request)
          (send_message_keeps env.now request) h h.session_queue h.session_queue served own queued
          (λ j q n. q))

  -- A request for a service keeps every open session under its own ID and in the queue, whether it
  -- opens a session, uses one, is refused by the service's address, or comes too early.
  pub service_request-IsServed :
      (service_id session_id : ℕ) (h : Handler)
      → IsServed h
      → IsServed ((process_service_request env service_id session_id h).0)
  unfolding process_service_request
  service_request-IsServed service_id session_id h served = elim (ProtocolState-cases h.state) [
    | inl e ↦
        let refused : h ≡ (process_service_request env service_id session_id h).0 =
          ground (arith, e) in
        subst IsServed refused served
    | inr e ↦ elim (Option-cases (Parser.body h.req_parser)) [
      | inl b ↦
          let panics : h ≡ (process_service_request env service_id session_id h).0 =
            ground (arith, e, b) in
          subst IsServed panics served
      | inr (request, b) ↦
          let h' : Handler = record h { req_parser = Parser.clear h.req_parser } in
          let created = (create_session_context env service_id session_id h').0 in
          let found = get_session_context session_id created in
          let delivered : (deliver env session_id request found created).0
              ≡ (process_service_request env service_id session_id h).0 =
            ground (arith, e, b, create_result service_id session_id h') in
          subst IsServed delivered (
            deliver-IsServed session_id request found created
              (create-IsServed env service_id session_id h' served) refl)
    ]
  ]

pub remove-IsServed : (k : ℕ) (h : Handler) → IsServed h → IsServed ((remove_session_context k h).0)
unfolding remove_session_context
remove-IsServed k h served = elim (Option-cases (get_session_context k h)) [
  | inl e ↦
      let same : h ≡ (remove_session_context k h).0 = ground (arith, e) in
      subst IsServed same served
  | inr (ctx, e) ↦
      let same : remove ℕ_discrete k h.sessions ≡ (remove_session_context k h).0.sessions =
        ground (arith, e) in
      let queue : h.session_queue ≡ (remove_session_context k h).0.session_queue =
        ground (arith, e) in
      subst (λ m. Served m ((remove_session_context k h).0.session_queue)) same
        (subst (Served (remove ℕ_discrete k h.sessions)) queue
          (remove-Served k h.sessions h.session_queue served))
]

-- Filling the output buffer keeps every open session under its own ID and in the queue, however
-- many sessions it visits before the buffer is full.
pub fill_output_buffer-IsServed :
    (env : Env) (h : Handler) → IsServed h → IsServed (fill_output_buffer env h)
unfolding fill_output_buffer
fill_output_buffer-IsServed env h served = fill-IsServed env (length h.session_queue) h served
