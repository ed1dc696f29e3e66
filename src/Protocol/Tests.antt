-- ===== src/Protocol/Tests.antt =====
-- Runs of the parsers, the payloads and the tables at concrete inputs.
use mathlib.Core.List.{flatten}
use arrow_client.Base.{
  ℕ, ◌+◌, ◌≡◌, ◌↔◌, ◌≢◌, ◌⊎◌, refl, true, false, some, none, List, [], ◌∷◌, length, map, arith,
}
use arrow_client.Base.Dict.{lookup, insert}
use native.Mathlib.Decide.{ℕ_discrete}
use arrow_client.Base.Int.{pos}
use arrow_client.Base.Outcome.{ok, err, other}
use arrow_client.Net.Addr.{MacAddr, sock4, v4}
use arrow_client.Protocol.Control
use arrow_client.Protocol.Control.{ControlHeader, MessageType, message_type}
use arrow_client.Protocol.Control.Laws.{process-serialize}
use arrow_client.Protocol.Message
use arrow_client.Protocol.Message.{Message, Header, raw_body, header_size, serialize}
use arrow_client.Protocol.Parser
use arrow_client.Protocol.Parser.{Parser, body, is_complete}
use arrow_client.Protocol.Parser.Frame.{IsFrame, offer}
use arrow_client.Protocol.Parser.RoundTrip.{sent, new-Holds, serialize-IsFrame, offer-serialize}
use arrow_client.Protocol.Parser.Stream.{Added, add-Added}
use arrow_client.Protocol.Payload.{
  u32_body, create_ack_message, parse_ack_message, hup_from_bytes, hup_body, new_hup,
  payload_round_trip,
}
use arrow_client.Protocol.Service
use arrow_client.Protocol.Service.{Service, key, tcp, control_protocol}
use arrow_client.Protocol.ServiceTable
use arrow_client.Protocol.ServiceTable.{
  ServiceTable, Element, is_control, add_internal, add_element, contains, get_id, get,
  update_active_services, active_services,
}
use arrow_client.Protocol.ServiceTable.Active.{seen_services, update_active_services_lem}
use arrow_client.Protocol.ServiceTable.Index.{IsValid, new-IsValid}
use arrow_client.Protocol.ServiceTable.Laws.{Knows, add_internal_lem, add_element-IsValid}
use arrow_client.Protocol.ScanReport
use arrow_client.Protocol.ScanReport.{ScanReport, ScanReportMessage}

abbrev request : Message (List ℕ)
request = Message.new 7 5 (10 ∷ 20 ∷ 30 ∷ [])

-- The bytes of `request`, cut within the header and within the body.
abbrev chunks : List (List ℕ)
chunks = (1 ∷ 0 ∷ 7 ∷ 0 ∷ []) ∷ (0 ∷ 0 ∷ 5 ∷ 0 ∷ 0 ∷ 0 ∷ 3 ∷ 10 ∷ []) ∷ (20 ∷ 30 ∷ []) ∷ []

chunks_whole : flatten chunks ≡ serialize raw_body request
unfolding Message.serialize Message.serialize_header flatten
chunks_whole = refl

offer-serialize_example :
    let (rs, p) = offer Parser.new chunks in
    (rs ≡ map (λ c. ok (length c)) chunks)
    × (p.header ≡ some (sent raw_body request))
    × (body p ≡ some (10 ∷ 20 ∷ 30 ∷ []))
offer-serialize_example =
    offer-serialize raw_body request (omega arith) (omega arith) chunks chunks_whole

request-IsFrame : IsFrame (serialize raw_body request) (sent raw_body request)
request-IsFrame = serialize-IsFrame raw_body request (omega arith) (omega arith)

add-Added_example : Added [] (1 ∷ 0 ∷ 7 ∷ []) (Parser.add Parser.new (1 ∷ 0 ∷ 7 ∷ []))
add-Added_example = add-Added Parser.new [] (1 ∷ 0 ∷ 7 ∷ []) new-Holds

process-serialize_example :
    Control.process Control.new_parser (Control.serialize u32_body (create_ack_message 9 2)) ≡ (
      record {
        header = some (record { msg_id = 9; msg_type = 0 });
        body = some (0 ∷ 0 ∷ 0 ∷ 2 ∷ []);
      },
      ok tt,
    )
process-serialize_example =
    process-serialize u32_body (create_ack_message 9 2) Control.new_parser (omega arith)
      (omega arith)

abbrev short : List ℕ
short = 1 ∷ []

payload_round_trip_example :
    (parse_ack_message (u32_body.serialize 2) ≡ ok 2)
    × (hup_from_bytes (hup_body.serialize (new_hup 0x0100_0005 2))
        ≡ ok (record { session_id = 5; error_code = 2 }))
    × (length short ≢ 4 → parse_ack_message short ≡ err other)
    × (length short ≢ 8 → hup_from_bytes short ≡ err other)
payload_round_trip_example = payload_round_trip 2 0x0100_0005 short (omega arith)

abbrev mac : MacAddr
mac = record { a = 0; b = 1; c = 2; d = 3; e = 4; f = 5 }

abbrev camera : Service
camera = tcp mac (sock4 (record { a = 10; b = 0; c = 0; d = 7 }) 554)

abbrev other_camera : Service
other_camera = tcp mac (sock4 (record { a = 10; b = 0; c = 0; d = 8 }) 8554)

abbrev camera_element : Element
camera_element = record {
  service_id = 1;
  service = camera;
  static_service = false;
  last_seen = pos 100;
  active = true;
}

abbrev table : ServiceTable
table = ServiceTable.push ServiceTable.new camera_element

table-IsValid : IsValid table
unfolding add_element lookup
table-IsValid = add_element-IsValid ServiceTable.new camera_element new-IsValid

camera_id : get_id table camera ≡ some 1
unfolding get_id lookup insert Service.ServiceKey-discrete ℕ_discrete key
camera_id = refl

abbrev next_element : Element
next_element = record {
  service_id = 2;
  service = other_camera;
  static_service = true;
  last_seen = pos 200;
  active = true;
}

add_internal_lem_example :
    ((is_control other_camera ≡ true)
      × (add_internal true other_camera (pos 200) table ≡ ok (table, none)))
    ⊎ (((t' : ServiceTable) × (contains table other_camera ≡ false)
          × (add_internal true other_camera (pos 200) table
              ≡ ok (t', some (length table.services + 1)))
          × Knows table t' other_camera (length table.services + 1)
          × (length t'.services ≡ length table.services + 1))
        ⊎ ((t' : ServiceTable) × (id : ℕ) × (contains table other_camera ≡ true)
            × (get_id table other_camera ≡ some id)
            × (add_internal true other_camera (pos 200) table ≡ ok (t', none))
            × Knows table t' other_camera id
            × (length t'.services ≡ length table.services)))
add_internal_lem_example =
    add_internal_lem true other_camera (pos 200) table table-IsValid (omega arith)

-- A service last seen long ago, one last seen within the last 1200 seconds, and one seen later than the
-- update
abbrev aged : ServiceTable
aged = record ServiceTable.new {
  services =
      camera_element
      ∷ record camera_element { service = other_camera; last_seen = pos 900 }
      ∷ record camera_element { service_id = 3; last_seen = pos 2500; active = false }
      ∷ [];
}

aged_services : seen_services (pos 2000) aged.services ≡ other_camera ∷ camera ∷ []
aged_services = refl

update_active_services_lem_example :
    (active_services (update_active_services (pos 2000) aged).0
      ≡ control_protocol ∷ seen_services (pos 2000) aged.services)
    × (((update_active_services (pos 2000) aged).1 ≡ false)
        ↔ ((update_active_services (pos 2000) aged).0 ≡ aged))
update_active_services_lem_example = update_active_services_lem (pos 2000) aged

abbrev report : ScanReport
report = ScanReport.add_service camera (
    ScanReport.add_port (record { mac = mac; ip = v4 (record { a = 10; b = 0; c = 0; d = 7 }) }) 554
      ScanReport.new)

abbrev report_message : ScanReportMessage
report_message = record { request_id = 3; scan_report = report; svc_table = table }
