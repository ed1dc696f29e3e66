-- ===== src/Raw/Tcp/Scanner/Answers.antt =====
-- What the TCP scanner collects from the answers that it hears.
use mathlib.Core.Path.{subst}
use arrow_client.Base.{
  ℕ, ◌+◌, ◌*◌, ◌<◌, ◌≡◌, refl, ap₂, sym, ◌∙◌, Bool, List, [], ◌∷◌, length, length-append, All,
  arith,
}
use arrow_client.Raw.Arp.Scanner.{Host}
use arrow_client.Raw.Ether.{ok, EtherPacket, serialize}
use arrow_client.Raw.Ip.{Ipv4Packet}
use arrow_client.Raw.Pcap
use arrow_client.Raw.Pcap.{EthernetDevice, SrEnv}
use arrow_client.Raw.Pcap.Laws.{IsQuiet, scan_with-IsQuiet}
use arrow_client.Raw.Ports.{PortRange, add_all}
use arrow_client.Raw.Ports.Laws.{IsProper, all_ports}
use arrow_client.Raw.Stack.{IsSent, parse-sent}
use arrow_client.Raw.Tcp.{TcpPacket, tcp_body}
use arrow_client.Raw.Tcp.Scanner.{Service, packet_body, new, generator, collect, scan}
use arrow_client.Raw.Tcp.Scanner.Laws.{host_frames, all_frames, new-Emits}
use arrow_client.Raw.Tcp.Wire.{tcp_lawful}

-- The bytes of well-formed TCP packets, whatever they are, and the services that sent them.
pub data Answers (overflow_checks : Bool) : List (List ℕ) → List Service → Type 0 where
  silence : Answers overflow_checks [] []
  answer :
      {bytes : List ℕ} {packets : List (List ℕ)} {services : List Service}
      (p : EtherPacket (Ipv4Packet TcpPacket))
      → IsSent overflow_checks (tcp_body overflow_checks) (tcp_lawful overflow_checks) p
      → serialize (packet_body overflow_checks) p ≡ ok bytes
      → Answers overflow_checks packets services
      → Answers overflow_checks
          (bytes ∷ packets)
          ((p.header.src, (p.body.header.src, p.body.body.sport)) ∷ services)

pub collect-Answers :
    (checks : Bool) {packets : List (List ℕ)} {services : List Service}
    → Answers checks packets services
    → collect checks packets ≡ ok services
unfolding collect
collect-Answers checks silence = refl
collect-Answers checks (answer {bytes} p sent e rest) =
    rw (parse-sent checks (tcp_body checks) (tcp_lawful checks) p bytes sent e, collect)
      (rw (collect-Answers checks rest) refl)

length-host_frames :
    (device : EthernetDevice) (sport : ℕ) (host : Host) (ports : List ℕ)
    → length (host_frames device sport host ports) ≡ length ports
length-host_frames device sport host [] = refl
length-host_frames device sport host (port ∷ ports) =
    omega (arith, length-host_frames device sport host ports)

length-all_frames :
    (device : EthernetDevice) (sport : ℕ) (hosts : List Host) (ports : List ℕ)
    → length (all_frames device sport hosts ports) ≡ length hosts * length ports
length-all_frames device sport [] ports = omega arith
length-all_frames device sport (host ∷ hosts) ports =
    length-append (host_frames device sport host ports) (all_frames device sport hosts ports)
    ∙ ap₂ ◌+◌ (length-host_frames device sport host ports)
        (length-all_frames device sport hosts ports)
    ∙ omega arith

-- A scan of some hosts for the ports of proper ranges in which nothing fails returns exactly the
-- services that answered, in the order in which they did. One round of sending more than there are
-- pairs of a host and a port is enough fuel.
pub scan-Answers :
    (overflow_checks : Bool) (device : EthernetDevice) (hosts : List Host) (rs : List PortRange)
    (env : SrEnv) (fuel : ℕ) {packets : List (List ℕ)} {services : List Service}
    → All IsProper rs
    → length hosts * length (all_ports rs) < fuel
    → IsQuiet env packets
    → Answers overflow_checks packets services
    → scan overflow_checks device hosts (add_all [] rs) env fuel ≡ Pcap.ok services
unfolding scan
scan-Answers checks device hosts rs env fuel {packets} {services} proper enough quiet answers =
    let ports = all_ports rs in
    let size = length-all_frames device 61234 hosts ports in
    scan_with-IsQuiet (generator checks) (collect checks) env fuel
      (new device hosts 61234 (add_all [] rs)) (all_frames device 61234 hosts ports) packets
      services quiet (new-Emits checks device hosts 61234 rs proper)
      (subst (λ n. n < fuel) (sym size) enough) (collect-Answers checks answers)
