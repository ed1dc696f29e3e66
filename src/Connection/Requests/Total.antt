-- ===== src/Connection/Requests/Total.antt =====
-- Every request comes to a result, and a request that lets the loop go on leaves a fresh parser.
use arrow_client.Base.{ℕ, ◌≡◌, refl, Bool, true, false, Option, none, List, [], ◌∷◌, ◌++◌, arith}
use arrow_client.Base.Outcome.{Outcome, ok, err, panic, out_of_fuel}
use arrow_client.Base.Stateful.{Stateful, then_do}
use arrow_client.Protocol.Control
use arrow_client.Protocol.Control.{ControlHeader, MessageType, message_type}
use arrow_client.Protocol.Control.Laws.{process_total}
use arrow_client.Protocol.Parser
use arrow_client.Protocol.Payload.{hup_from_bytes, parse_ack_message}
use arrow_client.Connection.Requests.{
  process_handshake_ack, pop_expected_ack, acknowledged, check_ack, process_ack_message,
  process_ping_message, until_nul, process_redirect_message, process_hup_message, process_command,
  process_status_request, process_scan_report_request, deliver, process_service_request,
  control_parts, parse_control_message, dispatch, then_clear, handle_parsed,
  process_control_message, process_request,
}
use arrow_client.Connection.SessionMap.{create_session_context, remove_session_context}
use arrow_client.Connection.Send.{take_msg_id_checked, send_scan_report}
use arrow_client.Connection.State.{Handler, Env}

-- Whether a result is one of the program's own.
abbrev pub returns : {A : Type 0} → Outcome A → Bool
returns (ok a) = true
returns (err e) = true
returns panic = true
returns out_of_fuel = false

then_do-returns :
    {S A B : Type 0} (f : A → Stateful S B) (x : S × Outcome A)
    → returns (x.1) ≡ true
    → ((s : S) (a : A) → returns ((f a s).1) ≡ true)
    → returns ((then_do f x).1) ≡ true
then_do-returns f (s, ok a) e k = k s a
then_do-returns f (s, err _) e k = refl
then_do-returns f (s, panic) e k = refl
then_do-returns f (s, out_of_fuel) e k = e

until_nul-returns : (bs : List ℕ) → returns (until_nul bs) ≡ true
unfolding until_nul
until_nul-returns [] = refl
until_nul-returns (b ∷ bs) = ground (arith, until_nul-returns bs)

parse_ack_message-returns : (bs : List ℕ) → returns (parse_ack_message bs) ≡ true
unfolding parse_ack_message
parse_ack_message-returns bs = ground arith

hup_from_bytes-returns : (bs : List ℕ) → returns (hup_from_bytes bs) ≡ true
unfolding hup_from_bytes
hup_from_bytes-returns bs = ground arith

module _ (env : Env) where
  handshake_ack-returns :
      (msg : List ℕ) (h : Handler) → returns ((process_handshake_ack env msg h).1) ≡ true
  unfolding process_handshake_ack
  handshake_ack-returns msg h = ground (arith, parse_ack_message-returns msg)

  ack-returns :
      (msg_id : ℕ) (msg : List ℕ) (h : Handler)
      → returns ((process_ack_message env msg_id msg h).1) ≡ true
  unfolding process_ack_message pop_expected_ack check_ack acknowledged process_handshake_ack
  ack-returns msg_id msg h = ground (arith, parse_ack_message-returns msg)

  redirect-returns :
      (msg : List ℕ) (h : Handler) → returns ((process_redirect_message env msg h).1) ≡ true
  unfolding process_redirect_message
  redirect-returns msg h = ground (arith, until_nul-returns (msg ++ env.memory_behind))

  hup-returns : (msg : List ℕ) (h : Handler) → returns ((process_hup_message env msg h).1) ≡ true
  unfolding process_hup_message remove_session_context
  hup-returns msg h = ground (arith, hup_from_bytes-returns msg)

  scan_report-returns : (id : ℕ) (h : Handler) → returns ((send_scan_report env id h).1) ≡ true
  unfolding send_scan_report take_msg_id_checked
  scan_report-returns id h = ground arith

  dispatch-returns :
      (t : MessageType) (msg_id : ℕ) (body : List ℕ) (h : Handler)
      → returns ((dispatch env t msg_id body h).1) ≡ true
  unfolding dispatch process_ping_message process_command process_status_request
      process_scan_report_request
  dispatch-returns MessageType.ack msg_id body h = ack-returns msg_id body h
  dispatch-returns MessageType.ping msg_id body h = ground arith
  dispatch-returns MessageType.redirect msg_id body h = redirect-returns body h
  dispatch-returns MessageType.hup msg_id body h = hup-returns body h
  dispatch-returns MessageType.reset_svc_table msg_id body h = ground arith
  dispatch-returns MessageType.scan_network msg_id body h = ground arith
  dispatch-returns MessageType.get_status msg_id body h = refl
  dispatch-returns MessageType.get_scan_report msg_id body h =
      ground (arith, scan_report-returns msg_id h)
  dispatch-returns MessageType.register msg_id body h = refl
  dispatch-returns MessageType.update msg_id body h = refl
  dispatch-returns MessageType.status msg_id body h = refl
  dispatch-returns MessageType.scan_report msg_id body h = refl
  dispatch-returns MessageType.unknown msg_id body h = refl

  parse-returns : (p : Parser.Parser) → returns (parse_control_message p) ≡ true
  unfolding parse_control_message control_parts Control.process
  parse-returns p = ground (arith, λ (body : List ℕ). process_total Control.new_parser body)

  then_clear-returns :
      (x : Handler × Outcome (Option (List ℕ)))
      → returns (x.1) ≡ true
      → returns ((then_clear x).1) ≡ true
  then_clear-returns (h, ok a) e = refl
  then_clear-returns (h, err _) e = refl
  then_clear-returns (h, panic) e = refl
  then_clear-returns (h, out_of_fuel) e = e

  handle_parsed-returns :
      (r : Outcome (ControlHeader × List ℕ)) (h : Handler)
      → returns r ≡ true
      → returns ((handle_parsed env r h).1) ≡ true
  unfolding handle_parsed
  handle_parsed-returns (ok (header, body)) h e =
      then_clear-returns (dispatch env (message_type header) header.msg_id body h)
        (dispatch-returns (message_type header) header.msg_id body h)
  handle_parsed-returns (err _) h e = refl
  handle_parsed-returns panic h e = refl
  handle_parsed-returns out_of_fuel h e = e

  control-returns : (h : Handler) → returns ((process_control_message env h).1) ≡ true
  unfolding process_control_message
  control-returns h =
      handle_parsed-returns (parse_control_message h.req_parser) h (parse-returns h.req_parser)

  control-clears :
      (h : Handler)
      → (process_control_message env h).1 ≡ ok none
      → (process_control_message env h).0.req_parser ≡ Parser.new
  unfolding process_control_message handle_parsed
  control-clears h e = ground arith

  service-returns :
      (service_id session_id : ℕ) (h : Handler)
      → returns ((process_service_request env service_id session_id h).1) ≡ true
  unfolding process_service_request create_session_context deliver
  service-returns service_id session_id h = ground arith

  service-clears :
      (service_id session_id : ℕ) (h : Handler)
      → (process_service_request env service_id session_id h).1 ≡ ok none
      → (process_service_request env service_id session_id h).0.req_parser ≡ Parser.new
  unfolding process_service_request create_session_context deliver
  service-clears service_id session_id h e = ground arith

  -- A request comes to a result: it never waits for a loop. If it lets the connection go on without
  -- a redirect, the parser is as new.
  pub process_request_total :
      (h : Handler)
      → (returns ((process_request env h).1) ≡ true)
        × ((process_request env h).1 ≡ ok none → (process_request env h).0.req_parser ≡ Parser.new)
  unfolding process_request
  process_request_total h = (
    ground (arith, control-returns h, λ (id sid : ℕ). service-returns id sid h),
    λ e. ground (arith, control-clears h, λ (id sid : ℕ). service-clears id sid h),
  )
