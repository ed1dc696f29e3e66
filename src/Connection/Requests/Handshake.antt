-- ===== src/Connection/Requests/Handshake.antt =====
-- The protocol states: what is refused before the REGISTER request is confirmed, and what confirms
-- it.
use arrow_client.Base.{
  ℕ, sym, ◌≡◌, ◌≢◌, ◌↔◌, ◌⊎◌, inl, inr, refl, Bool, true, false, ◌&&◌, List, [], ◌∷◌, ◌==◌, arith,
}
use mathlib.Core.Path.{subst}
use arrow_client.Base.Outcome.{ok, err, other}
use arrow_client.Protocol.Control.{MessageType}
use arrow_client.Protocol.Payload.{parse_ack_message, ack_no_error}
use arrow_client.Connection.Requests.{
  process_handshake_ack, pop_expected_ack, acknowledged, check_ack, process_ack_message,
  process_ping_message, process_redirect_message, process_hup_message, process_command,
  process_status_request, process_scan_report_request, process_service_request, dispatch,
}
use arrow_client.Connection.Send.{send_scan_report, take_msg_id_checked}
use arrow_client.Connection.State.{handshake, established, Handler, Env}

-- Whether an ACK confirms the message that is expected next, without an error.
unfoldable pub is_confirmation : ℕ → List ℕ → List ℕ → Bool
unfolding parse_ack_message
is_confirmation msg_id msg [] = false
is_confirmation msg_id msg (expected_ack ∷ acks) = elim (parse_ack_message msg) [
  | ok code ↦ msg_id == expected_ack && code == ack_no_error
  | _ ↦ false
]

module _ (env : Env) (h : Handler) (before : h.state ≡ handshake) where
  ack_in_handshake :
      (msg_id : ℕ) (msg : List ℕ)
      → let (h', r) = process_ack_message env msg_id msg h in
        (h'.sessions ≡ h.sessions)
        × (h'.session_queue ≡ h.session_queue)
        × ((h'.state ≡ established) ↔ (is_confirmation msg_id msg h.expected_acks ≡ true))
  unfolding process_ack_message pop_expected_ack check_ack acknowledged process_handshake_ack
      is_confirmation
  ack_in_handshake msg_id msg = (ground arith, ground arith, (λ e. ground arith, λ e. ground arith))

  -- What a message of another type leaves alone.
  other_in_handshake :
      (t : MessageType) (msg_id : ℕ) (body : List ℕ)
      → let (h', r) = dispatch env t msg_id body h in
        (t ≡ MessageType.ack)
        ⊎ ((t ≢ MessageType.ack)
            × (h'.sessions ≡ h.sessions)
            × (h'.session_queue ≡ h.session_queue)
            × (h'.state ≡ handshake))
  unfolding dispatch process_ping_message process_redirect_message process_hup_message
      process_command process_status_request process_scan_report_request send_scan_report
      take_msg_id_checked
  other_in_handshake MessageType.ack id body = inl refl
  other_in_handshake MessageType.ping id body =
      inr (λ q. ground arith, ground arith, ground arith, ground arith)
  other_in_handshake MessageType.redirect id body =
      inr (λ q. ground arith, ground arith, ground arith, ground arith)
  other_in_handshake MessageType.hup id body =
      inr (λ q. ground arith, ground arith, ground arith, ground arith)
  other_in_handshake MessageType.reset_svc_table id body =
      inr (λ q. ground arith, ground arith, ground arith, ground arith)
  other_in_handshake MessageType.scan_network id body =
      inr (λ q. ground arith, ground arith, ground arith, ground arith)
  other_in_handshake MessageType.get_status id body =
      inr (λ q. ground arith, ground arith, ground arith, ground arith)
  other_in_handshake MessageType.get_scan_report id body =
      inr (λ q. ground arith, ground arith, ground arith, ground arith)
  other_in_handshake MessageType.register id body =
      inr (λ q. ground arith, ground arith, ground arith, ground arith)
  other_in_handshake MessageType.update id body =
      inr (λ q. ground arith, ground arith, ground arith, ground arith)
  other_in_handshake MessageType.status id body =
      inr (λ q. ground arith, ground arith, ground arith, ground arith)
  other_in_handshake MessageType.scan_report id body =
      inr (λ q. ground arith, ground arith, ground arith, ground arith)
  other_in_handshake MessageType.unknown id body =
      inr (λ q. ground arith, ground arith, ground arith, ground arith)

  -- In the Handshake state no Control Protocol message opens or closes a session, and exactly an
  -- ACK of the message that is expected next, with the code for no error, establishes the
  -- connection. A service request is refused and changes nothing.
  pub dispatch_in_handshake :
      (t : MessageType) (msg_id : ℕ) (body : List ℕ)
      → let (h', r) = dispatch env t msg_id body h in
        (h'.sessions ≡ h.sessions)
        × (h'.session_queue ≡ h.session_queue)
        × ((h'.state ≡ established)
            ↔ ((t ≡ MessageType.ack) × (is_confirmation msg_id body h.expected_acks ≡ true)))
        × ((service_id session_id : ℕ)
            → process_service_request env service_id session_id h ≡ (h, err other))
  unfolding dispatch process_service_request
  dispatch_in_handshake t msg_id body = elim (other_in_handshake t msg_id body) [
    | inl e ↦
        let (sessions, queue, confirmed) = ack_in_handshake msg_id body in
        subst
          (λ u.
            let (h', r) = dispatch env u msg_id body h in
            (h'.sessions ≡ h.sessions)
            × (h'.session_queue ≡ h.session_queue)
            × ((h'.state ≡ established)
                ↔ ((u ≡ MessageType.ack) × (is_confirmation msg_id body h.expected_acks ≡ true)))
            × ((service_id session_id : ℕ)
                → process_service_request env service_id session_id h ≡ (h, err other)))
          (sym e)
          (
            sessions,
            queue,
            (λ q. (refl, confirmed.0 q), λ (q, c). confirmed.1 c),
            λ i k. ground arith,
          )
    | inr (n, sessions, queue, same) ↦
        (sessions, queue, (λ q. ground arith, λ (q, c). absurd (n q)), λ i k. ground arith)
  ]
