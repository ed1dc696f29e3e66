-- ===== src/Raw/Arp/Scanner/Laws.antt =====
-- The ARP scanner asks for every address of the network once, and collects the answers.
use arrow_client.Base.{
  ℕ, ◌+◌, ◌-◌, ◌^◌, ◌≤◌, ◌<◌, ◌≡◌, refl, inr, Bool, none, some, List, [], ◌∷◌, ◌++◌, length, arith,
}
use arrow_client.Raw.Arp.{ArpPacket, reply, ipv4_over_ethernet, arp_body}
use arrow_client.Raw.Arp.Scanner.{
  Generator, bcast_addr, zero_addr, request_for, Host, new, next, generator, collect, scan,
}
use arrow_client.Raw.Arp.Wire
use arrow_client.Raw.Arp.Wire.{wire, serialize-wire, arp_lawful}
use arrow_client.Raw.Checksum.{slice_to_ipv4addr}
use arrow_client.Raw.Ether.{
  ok, parse_error, panic, EtherPacket, etype_arp, serialize_header, serialize, parse,
}
use arrow_client.Raw.Ether.Laws.{parse-frame}
use arrow_client.Raw.Pcap
use arrow_client.Raw.Pcap.{EthernetDevice, SrEnv, send_requests}
use arrow_client.Raw.Pcap.Laws.{Emits, send_loop-Emits, IsQuiet, scan_with-IsQuiet}
use arrow_client.Raw.Sweep.{
  IsDevice, network, broadcast, broadcast_lem, frames, length-frames, IsSweep, frames-Emits,
}

-- The frame that asks for an address, to all devices of the network
abbrev pub request_packet : EthernetDevice → ℕ → EtherPacket ArpPacket
request_packet device n = record {
  header = record { src = device.mac_addr; dst = bcast_addr; etype = etype_arp };
  body = request_for device n;
}

abbrev pub frame : EthernetDevice → ℕ → List ℕ
frame device n = serialize_header (request_packet device n).header ++ wire (request_for device n) []

frame_lem :
    (device : EthernetDevice) (n : ℕ)
    → serialize arp_body (request_packet device n) ≡ ok (frame device n)
unfolding serialize
frame_lem device n =
    rw (serialize-wire (request_packet device n).header (request_for device n)) refl

abbrev at : EthernetDevice → ℕ → ℕ → List ℕ → Generator
at device current last buffer = record {
  device = device;
  hdst = zero_addr;
  bcast = bcast_addr;
  current = current;
  last = last;
  buffer = buffer;
}

next_within :
    (checks : Bool) (device : EthernetDevice) (current last : ℕ) (buffer : List ℕ)
    → current < last
    → last < 2 ^ 32
    → next checks (at device current last buffer)
      ≡ ok (some (frame device current), at device (current + 1) last (frame device current))
unfolding next
next_within checks device current last buffer lt small = ground (arith, frame_lem device current)

next_end :
    (checks : Bool) (device : EthernetDevice) (current last : ℕ) (buffer : List ℕ)
    → last ≤ current
    → next checks (at device current last buffer) ≡ ok (none, at device current last buffer)
unfolding next
next_end checks device current last buffer le = ground arith

sweep :
    (checks : Bool) (device : EthernetDevice) (last : ℕ)
    → last < 2 ^ 32
    → IsSweep (generator checks) (λ n buffer. at device n last buffer) (frame device) last
sweep checks device last small = record {
  within = λ n buffer lt. next_within checks device n last buffer lt small;
  over = λ n buffer le. next_end checks device n last buffer le;
}

-- On a network with at least two addresses, the generator of the ARP scanner gives one request for
-- each address strictly between the network's and the broadcast address, in rising order, and ends.
pub new-Emits :
    (overflow_checks : Bool) (device : EthernetDevice)
    → IsDevice device
    → network device < broadcast device
    → (g : Generator) × (new overflow_checks device ≡ ok g)
      × Emits
          (generator overflow_checks)
          g
          (frames (frame device) (network device + 1) (broadcast device - (network device + 1)))
unfolding new
new-Emits checks device d lt =
    let last = broadcast device in
    let small = (broadcast_lem device d).1 in
    let first = network device + 1 in
    (
      at device first last [],
      ground arith,
      frames-Emits (generator checks) (λ n buffer. at device n last buffer) (frame device) last
          (sweep checks device last small) (last - first) first [] (omega arith),
    )

-- The frame by which a host answers, to some device
abbrev pub reply_frame : Host → Host → List ℕ
reply_frame to from =
    serialize_header (record { src = from.0; dst = to.0; etype = etype_arp })
    ++ wire (ipv4_over_ethernet reply from.0 from.1 to.0 to.1) []

abbrev pub reply_frames : Host → List Host → List (List ℕ)
reply_frames to [] = []
reply_frames to (from ∷ hosts) = reply_frame to from ∷ reply_frames to hosts

reply-IsWire : (to from : Host) → Wire.IsWire (ipv4_over_ethernet reply from.0 from.1 to.0 to.1)
reply-IsWire to from = record {
  htype = omega arith;
  ptype = omega arith;
  hlen = omega arith;
  plen = omega arith;
  sha = refl;
  spa = refl;
  tha = refl;
  tpa = refl;
}

parse-reply_frame :
    (to from : Host)
    → parse arp_body (reply_frame to from)
      ≡ ok (record {
        header = record { src = from.0; dst = to.0; etype = etype_arp };
        body = ipv4_over_ethernet reply from.0 from.1 to.0 to.1;
      })
parse-reply_frame to from =
    parse-frame arp_body _ (wire (ipv4_over_ethernet reply from.0 from.1 to.0 to.1) [])
      (Wire.parse-wire _ [] (reply-IsWire to from)) (omega arith) (inr refl)

-- From the answers of any hosts, the scanner collects their addresses in the order in which they
-- answered.
pub collect-reply_frames :
    (to : Host) (hosts : List Host) → collect (reply_frames to hosts) ≡ ok hosts
unfolding collect slice_to_ipv4addr
collect-reply_frames to [] = refl
collect-reply_frames to (from ∷ hosts) =
    rw (parse-reply_frame to from, collect) (rw (collect-reply_frames to hosts) refl)

-- The packets that a scan sends
abbrev pub sent_by : Bool → EthernetDevice → SrEnv → ℕ → List (List ℕ)
sent_by checks device env fuel = elim (new checks device) [
  | ok g ↦ (send_requests (generator checks) env.inject env.activated fuel g).0
  | parse_error ↦ []
  | panic ↦ []
]

-- A scan of a network with at least two addresses in which nothing fails sends one request for each
-- address strictly between the network's and the broadcast address, in rising order, and returns
-- exactly the hosts that answered, in the order in which they did. One round of sending more than
-- there are addresses is enough fuel.
pub scan-reply_frames :
    (overflow_checks : Bool) (device : EthernetDevice) (env : SrEnv) (fuel : ℕ) (to : Host)
    (hosts : List Host)
    → IsDevice device
    → network device < broadcast device
    → broadcast device < network device + fuel
    → IsQuiet env (reply_frames to hosts)
    → (sent_by overflow_checks device env fuel
        ≡ frames (frame device) (network device + 1) (broadcast device - (network device + 1)))
      × (scan overflow_checks device env fuel ≡ Pcap.ok hosts)
unfolding scan send_requests
scan-reply_frames checks device env fuel to hosts d lt enough quiet =
    let (g, made, emits) = new-Emits checks device d lt in
    let first = network device + 1 in
    let n = broadcast device - first in
    let enough' : length (frames (frame device) first n) < fuel =
      omega (arith, length-frames (frame device) first n) in
    let sent = send_loop-Emits (generator checks) env.inject quiet.taken emits fuel 0 enough' in
    (
      ground (arith, made, sent, quiet.activated),
      rw made (
          scan_with-IsQuiet (generator checks) collect env fuel g (frames (frame device) first n)
            (reply_frames to hosts) hosts quiet emits enough' (collect-reply_frames to hosts)),
    )
