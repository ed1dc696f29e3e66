-- ===== src/Connection/Send.antt =====
-- The messages that `ConnectionHandler` (src/net/arrow/mod.rs) sends to the Arrow Service.
pub mod Ids
use arrow_client.Base.{
  ℕ, ◌+◌, ◌%◌, ◌^◌, Bool, true, false, ◌&&◌, not, Option, none, some, List, [], ◌∷◌, ◌++◌, length,
  ltb, ◌==◌, if◌then◌else◌,
}
use arrow_client.Base.Outcome.{Outcome, ok, err, panic}
use arrow_client.Base.Stateful.{Stateful, pure, fail, then_do, ◌>>=◌, ◌>>◌, modify, read}
use arrow_client.Config.{AppContext, ArrowConfig}
use arrow_client.Net.Addr.{MacAddr}
use arrow_client.Net.ByteQueue
use arrow_client.Net.Timeout
use arrow_client.Protocol.Control.{ControlMessage, control_body}
use arrow_client.Protocol.Message
use arrow_client.Protocol.Message.{Body, Message}
use arrow_client.Protocol.Payload.{
  u32_body, empty, RegisterMessage, register_body, hup_body, StatusMessage, status_body,
  status_flag_scan, create_ack_message, create_ping_message, create_register_message,
  create_update_message, create_hup_message, create_status_message,
}
use arrow_client.Protocol.ScanReport.{ScanReportMessage}
use arrow_client.Protocol.ScanReport.Laws.{scan_report_body, create_scan_report_message}
use arrow_client.Protocol.ServiceTable.{ServiceTable, table_body}
use arrow_client.Connection.State.{Handler, Env, M, enable_socket_events, connection_timeout}

-- The bytes of a message go to the output buffer, whose write never fails.
unfoldable pub buffer_message : {B : Type 0} → Env → Body B → Message B → Handler → Handler
buffer_message env i arrow_msg h = record h {
  write_tout =
      if ByteQueue.is_empty h.output_buffer
      then Timeout.set env.now connection_timeout h.write_tout
      else h.write_tout;
  output_buffer = ByteQueue.write (Message.serialize i arrow_msg) h.output_buffer;
}

unfoldable pub send_message : {B : Type 0} → Env → Body B → Message B → M (Unit {0})
unfolding buffer_message
send_message env i arrow_msg = do
  modify (buffer_message env i arrow_msg)
  enable_socket_events true true

unfoldable pub send_control_message : {B : Type 0} → Env → Body B → ControlMessage B → M (Unit {0})
unfolding send_message
send_control_message env i control_msg =
    send_message env (control_body i) (Message.new 0 0 control_msg)

unfoldable pub expect_ack : Env → ℕ → Handler → Handler
expect_ack env msg_id h = record h {
  ack_tout =
      if length h.expected_acks == 0
      then Timeout.set env.now connection_timeout h.ack_tout
      else h.ack_tout;
  expected_acks = h.expected_acks ++ msg_id ∷ [];
}

unfoldable pub send_unconfirmed_control_message :
    {B : Type 0} → Env → Body B → ControlMessage B → M (Unit {0})
unfolding expect_ack send_control_message
send_unconfirmed_control_message env i control_msg = do
  modify (expect_ack env control_msg.header.msg_id)
  send_control_message env i control_msg

-- `self.msg_id = self.msg_id.wrapping_add(1)`; the result is the ID of the message to send.
unfoldable pub take_msg_id : M ℕ
take_msg_id h = (record h { msg_id = (h.msg_id + 1) % 2 ^ 16 }, ok h.msg_id)

-- `self.msg_id += 1`
unfoldable pub take_msg_id_checked : Env → M ℕ
unfolding take_msg_id
take_msg_id_checked env h =
    if env.overflow_checks && not (ltb (h.msg_id + 1) (2 ^ 16)) then (h, panic) else take_msg_id h

unfoldable pub create_register_request : Env → MacAddr → M (Unit {0})
unfolding take_msg_id send_unconfirmed_control_message
create_register_request env arrow_mac =
    let config = env.app.config in
    let msg : RegisterMessage = record {
      uuid = config.uuid;
      mac_addr = arrow_mac;
      passwd = config.passwd;
      table = config.svc_table;
    } in
    do
      modify (λ h. record h { last_update = some config.version })
      msg_id ← take_msg_id
      send_unconfirmed_control_message env register_body (create_register_message msg_id msg)

unfoldable pub send_update_message : Env → ServiceTable → M (Unit {0})
unfolding take_msg_id send_control_message
send_update_message env svc_table = do
  msg_id ← take_msg_id
  send_control_message env table_body (create_update_message msg_id svc_table)

unfoldable pub send_ping_message : Env → M (Unit {0})
unfolding take_msg_id send_unconfirmed_control_message
send_ping_message env = do
  msg_id ← take_msg_id
  send_unconfirmed_control_message env empty (create_ping_message msg_id)

unfoldable pub send_hup_message : Env → ℕ → ℕ → M (Unit {0})
unfolding take_msg_id send_control_message
send_hup_message env session_id error_code = do
  msg_id ← take_msg_id
  send_control_message env hup_body (create_hup_message msg_id session_id error_code)

unfoldable pub status_message : Env → ℕ → Handler → StatusMessage
status_message env request_id h = record {
  request_id = request_id;
  status_flags = if env.app.scanning then status_flag_scan else 0;
  active_sessions = length h.sessions % 2 ^ 32;
}

unfoldable pub send_status : Env → ℕ → M (Unit {0})
unfolding status_message take_msg_id send_control_message
send_status env request_id = do
  status_msg ← read (status_message env request_id)
  msg_id ← take_msg_id
  send_control_message env status_body (create_status_message msg_id status_msg)

unfoldable pub send_scan_report : Env → ℕ → M (Unit {0})
unfolding take_msg_id_checked send_control_message
send_scan_report env request_id =
    let scan_report : ScanReportMessage = record {
      request_id = request_id;
      scan_report = env.app.scan_report;
      svc_table = env.app.config.svc_table;
    } in
    do
      msg_id ← take_msg_id_checked env
      send_control_message env scan_report_body (create_scan_report_message msg_id scan_report)

unfoldable pub send_ack_message : Env → ℕ → ℕ → M (Unit {0})
unfolding send_control_message
send_ack_message env msg_id error_code =
    send_control_message env u32_body (create_ack_message msg_id error_code)

-- Whether the table has changed since it was last sent.
unfoldable pub is_outdated : Option ℕ → ℕ → Bool
is_outdated none cur_version = true
is_outdated (some sent_version) cur_version = ltb sent_version cur_version

unfoldable pub check_update : Env → M (Unit {0})
unfolding is_outdated send_update_message
check_update env h =
    if is_outdated h.last_update env.app.config.version
    then (do
      send_update_message env env.app.config.svc_table
      modify (λ h. record h { last_update = some env.app.config.version }))
        h
    else (h, ok tt)
