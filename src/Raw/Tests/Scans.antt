-- ===== src/Raw/Tests/Scans.antt =====
-- Runs of the scanners at concrete inputs.
use arrow_client.Base.{ℕ, ◌+◌, ◌-◌, ◌≡◌, ◌⊎◌, ◌==◌, refl, true, false, List, [], ◌∷◌, arith}
use arrow_client.Raw.Arp.Scanner as ArpScanner
use arrow_client.Raw.Arp.Scanner.Laws as ArpLaws
use arrow_client.Raw.Arp.Scanner.Laws.{reply_frames, sent_by, scan-reply_frames}
use arrow_client.Raw.Checksum.{ipv4addr_to_u32}
use arrow_client.Raw.Ether.{EtherPacket, etype_ipv4}
use arrow_client.Raw.Icmp.{IcmpPacket, echo_reply}
use arrow_client.Raw.Icmp.Scanner as IcmpScanner
use arrow_client.Raw.Icmp.Scanner.{received_body}
use arrow_client.Raw.Icmp.Scanner.Answers as IcmpAnswers
use arrow_client.Raw.Ip.{Ipv4Packet, new_header}
use arrow_client.Raw.Pcap
use arrow_client.Raw.Pcap.{
  SrEnv, PacketGenerator, Round, captured, nothing, listen, listening, returned, send_requests, sr,
  join,
}
use arrow_client.Raw.Pcap.Laws.{Emits, IsQuiet, taken, sr_lem}
use arrow_client.Raw.Ports.{PortRange, single, range, add_all}
use arrow_client.Raw.Ports.Laws.{all_ports}
use arrow_client.Raw.Sweep.{network, broadcast, frames}
use arrow_client.Raw.Tcp.Scanner as TcpScanner
use arrow_client.Raw.Tcp.Scanner.Laws.{all_frames, new-Emits}
use arrow_client.Raw.Tests.{mac, camera_mac, addr, camera_addr, device, device-IsDevice}

abbrev quiet : List (List ℕ) → SrEnv
quiet answers = record {
  listener_starts = true;
  activated = true;
  inject = λ n pkt. true;
  listener = returned answers;
}

quiet-IsQuiet : (answers : List (List ℕ)) → IsQuiet (quiet answers) answers
quiet-IsQuiet answers = record {
  listener_starts = refl;
  activated = refl;
  taken = λ n pkt. refl;
  heard = refl;
}

abbrev self : ArpScanner.Host
self = (mac, addr)

abbrev camera : ArpScanner.Host
camera = (camera_mac, camera_addr)

device_bounds : (network device ≡ 3232236296) × (broadcast device ≡ 3232236299)
unfolding ipv4addr_to_u32
device_bounds = (refl, refl)

scan-reply_frames_example :
    (sent_by true device (quiet (reply_frames self (camera ∷ []))) 4
      ≡ frames
          (ArpLaws.frame device)
          (network device + 1)
          (broadcast device - (network device + 1)))
    × (ArpScanner.scan true device (quiet (reply_frames self (camera ∷ []))) 4
        ≡ Pcap.ok (camera ∷ []))
scan-reply_frames_example =
    scan-reply_frames true device (quiet (reply_frames self (camera ∷ []))) 4 self (camera ∷ [])
      device-IsDevice (omega (arith, device_bounds.0, device_bounds.1))
      (omega (arith, device_bounds.0, device_bounds.1)) (quiet-IsQuiet _)

-- The TCP scanner on one host, with a port and a range
abbrev some_ports : List PortRange
some_ports = single 554 ∷ range (record { first = 80; end = 82 }) ∷ []

new-Emits_example :
    Emits
      (TcpScanner.generator true)
      (TcpScanner.new device (camera ∷ []) 61234 (add_all [] some_ports))
      (all_frames device 61234 (camera ∷ []) (all_ports some_ports))
new-Emits_example =
    new-Emits true device (camera ∷ []) 61234 some_ports
      (omega arith, ((omega arith, omega arith), tt))

abbrev round : Round
round = record { now = 10; capture = captured (1 ∷ []); end_indicator = false; later = 11 }

-- A device that refuses the second packet
abbrev refusing : SrEnv
refusing = record (quiet []) { inject = λ n pkt. n == 0 }

abbrev syns : List (List ℕ)
syns = all_frames device 61234 (camera ∷ []) (all_ports some_ports)

abbrev scanner : TcpScanner.Generator
scanner = TcpScanner.new device (camera ∷ []) 61234 (add_all [] some_ports)

sr_lem_example :
    let tcp = TcpScanner.generator true in
    let sent = taken refusing.inject 0 syns in
    ((send_requests tcp refusing.inject true 9 scanner).0 ≡ sent)
    × (((true ≡ true)
          × (true ≡ true)
          × (sent ≡ syns)
          × (sr tcp refusing 9 scanner ≡ (true, join (returned []))))
        ⊎ (((true ≡ true) × (true ≡ true) × (sent ≡ syns) → ⊥)
            × (sr tcp refusing 9 scanner ≡ (false, Pcap.pcap_error))
            × (listen 20 0 false [] (round ∷ []) ≡ listening ((1 ∷ []) ∷ []))))
sr_lem_example =
    sr_lem (TcpScanner.generator true) refusing 9 scanner syns 20 0 (round ∷ []) new-Emits_example
      (omega arith) (record { seen = λ e. cc; works = λ e. cc }, tt)

-- The answer of a camera to an echo request
abbrev echo_answer : EtherPacket (Ipv4Packet (IcmpPacket (List ℕ)))
echo_answer = record {
  header = record { src = camera_mac; dst = mac; etype = etype_ipv4 };
  body = record {
    header = new_header camera_addr addr 1 64;
    body = record { icmp_type = echo_reply; code = 0; rest = 10; body = [] };
  };
}
