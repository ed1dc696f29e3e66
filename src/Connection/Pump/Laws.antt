-- ===== src/Connection/Pump/Laws.antt =====
-- The bytes of a session on their way to the Arrow Service.
use mathlib.Core.Option
use native.Mathlib.Decide.{ℕ_discrete}
use arrow_client.Base.{
  ℕ, ◌≡◌, ap, ◌∙◌, some, [], ◌++◌, length, take, drop, take-append-drop, min, if◌then◌else◌,
  append-nil, arith,
}
use arrow_client.Base.Dict.{lookup-insert_self}
use arrow_client.Protocol.Message
use arrow_client.Protocol.Message.{raw_body}
use arrow_client.Connection.Pump.{move_input}
use arrow_client.Connection.SessionMap.{get_session_context}
use arrow_client.Connection.Send.{buffer_message}
use arrow_client.Connection.Session.{input_ready, drop_input_bytes, update_socket_events}
use arrow_client.Connection.State.{SessionContext, Handler, Env}

abbrev moved_len : ℕ → SessionContext → ℕ
moved_len limit ctx = if input_ready ctx then min limit (length ctx.input_buffer.bytes) else 0

dropped :
    (n : ℕ) (l : _)
    → (drop_input_bytes n l).0.ctx.input_buffer.bytes ≡ drop n l.ctx.input_buffer.bytes
unfolding drop_input_bytes update_socket_events
dropped n l = ground arith

-- When a session's input is moved, what leaves its input buffer is what the Arrow Service gets: the
-- first bytes, up to the limit, are added to the output as the body of one message with the
-- session's IDs, the others stay in the session's buffer, and a session without input adds nothing.
pub move_input_lem :
    (env : Env) (limit k : ℕ) (ctx : SessionContext) (h : Handler)
    → let h' = move_input env limit k ctx h in
      let bytes = ctx.input_buffer.bytes in
      let moved = take (min limit (length bytes)) bytes in
      let left = drop (min limit (length bytes)) bytes in
      (moved ++ left ≡ bytes)
      × (h'.output_buffer.bytes
          ≡ h.output_buffer.bytes
            ++ (if input_ready ctx
                then Message.serialize raw_body (Message.new ctx.service_id ctx.session_id moved)
                else []))
      × (Option.map (λ (c : SessionContext). c.input_buffer.bytes) (get_session_context k h')
          ≡ some left)
unfolding move_input buffer_message
move_input_lem env limit k ctx h =
    let bytes = ctx.input_buffer.bytes in
    let left : drop (moved_len limit ctx) bytes ≡ drop (min limit (length bytes)) bytes =
      ground arith in
    (
      take-append-drop (min limit (length bytes)) bytes,
      ground (arith, append-nil h.output_buffer.bytes),
      rw (lookup-insert_self ℕ_discrete k _ _) (ap some (dropped (moved_len limit ctx) _ ∙ left)),
    )
