-- ===== src/Raw/Pcap.antt =====
-- The send-receive service of src/net/raw/pcap.rs: packet generators, the loop that sends their
-- packets, and the thread that listens meanwhile. What libpcap answers is an argument.
pub mod Laws
use arrow_client.Base.{
  ℕ, zero, suc, ◌+◌, Bool, true, false, ◌&&◌, ◌||◌, not, Option, none, some, List, [], ◌∷◌, ◌++◌,
  ltb, if◌then◌else◌,
}
use arrow_client.Net.Addr.{MacAddr, Ipv4Addr}
use arrow_client.Raw.Ether
use arrow_client.Raw.Ether.{PacketResult}

-- `EthernetDevice` of src/net/raw/devices.rs
pub record EthernetDevice : Type 0 where
  pub name : List ℕ
  pub mac_addr : MacAddr
  pub ip_addr : Ipv4Addr
  pub netmask : Ipv4Addr

-- `PacketGenerator`: the method of a generator whose state is an `S`.
pub record PacketGenerator (S : Type 0) : Type 0 where
  pub next : S → PacketResult (Option (List ℕ) × S)

-- `Result<T>` of src/net/raw/pcap.rs, whose errors are texts for the log. `out_of_fuel` is a loop
-- of the model that ran out of rounds.
pub data PcapResult (A : Type 0) : Type 0 where
  ok : A → PcapResult A
  pcap_error : PcapResult A
  panic : PcapResult A
  out_of_fuel : PcapResult A

module _ {S : Type 0} (gen : PacketGenerator S) (inject : ℕ → List ℕ → Bool) where
  -- The loop of `send_requests`: `inject` says whether libpcap takes a packet after that many others.
  -- The packets that were sent are kept beside the result.
  unfoldable pub send_loop : ℕ → ℕ → S → List (List ℕ) × PcapResult (Unit {0})
  send_loop zero sent s = ([], out_of_fuel)
  send_loop (suc fuel) sent s = elim (gen.next s) [
    | Ether.ok (none, s') ↦ ([], ok tt)
    | Ether.ok (some pkt, s') ↦
        let rest = send_loop fuel (sent + 1) s' in
        if inject sent pkt then (pkt ∷ rest.0, rest.1) else ([], pcap_error)
    | Ether.parse_error ↦ ([], panic)
    | Ether.panic ↦ ([], panic)
  ]

  -- `Scanner::send_requests`, whose capture handle is there or could not be made.
  unfoldable pub send_requests : Bool → ℕ → S → List (List ℕ) × PcapResult (Unit {0})
  unfolding send_loop
  send_requests activated fuel s = if activated then send_loop fuel 0 s else ([], pcap_error)

-- What `Capture::next` gives
pub data Captured : Type 0 where
  captured : List ℕ → Captured
  nothing failed : Captured

-- What one round of `packet_listener` reads: the clock in the loop's test, the capture, the end
-- indicator, and the clock again.
pub record Round : Type 0 where
  pub now : ℕ
  pub capture : Captured
  pub end_indicator : Bool
  pub later : ℕ

-- `listening` is a thread that has not come to an end within the rounds that were looked at.
pub data Listener : Type 0 where
  listening returned : List (List ℕ) → Listener
  panicked : Listener

-- The loop of `packet_listener` with its variables `t`, `end` and `vec`
unfoldable pub listen : ℕ → ℕ → Bool → List (List ℕ) → List Round → Listener
listen timeout t end vec [] = listening vec
listen timeout t end vec (r ∷ rounds) =
    let ended = not end && r.end_indicator in
    let t' = if ended then r.later else t in
    let end' = end || ended in
    if not end || ltb r.now (t + timeout)
    then elim (r.capture) [
      | captured pkt ↦ listen timeout t' end' (vec ++ pkt ∷ []) rounds
      | nothing ↦ listen timeout t' end' vec rounds
      | failed ↦ panicked
    ]
    else returned vec

-- `thread.join()`; a thread that goes on is waited for.
abbrev pub join : Listener → PcapResult (List (List ℕ))
join (listening vec) = out_of_fuel
join (returned vec) = ok vec
join panicked = pcap_error

-- What `sr` meets: whether the listener starts, whether the handle to send with can be made, which
-- packets are taken, and what the listener comes to when it is joined.
pub record SrEnv : Type 0 where
  pub listener_starts : Bool
  pub activated : Bool
  pub inject : ℕ → List ℕ → Bool
  pub listener : Listener

-- What follows `send_requests` in `Scanner::sr`
abbrev after_sending : SrEnv → PcapResult (Unit {0}) → Bool × PcapResult (List (List ℕ))
after_sending env (ok _) = (true, join env.listener)
after_sending env pcap_error = (false, pcap_error)
after_sending env panic = (false, panic)
after_sending env out_of_fuel = (false, out_of_fuel)

-- `Scanner::sr`: the end indicator that it leaves, and its result.
unfoldable pub sr :
    {S : Type 0} → PacketGenerator S → SrEnv → ℕ → S → Bool × PcapResult (List (List ℕ))
unfolding send_requests
sr gen env fuel s =
    if env.listener_starts
    then after_sending env ((send_requests gen env.inject env.activated fuel s).1)
    else (false, pcap_error)

-- The end of the scanners' `scan`: what they collect from the packets that `sr` returns.
abbrev pub collected :
    {H : Type 0}
    → (List (List ℕ) → PacketResult (List H))
    → PcapResult (List (List ℕ))
    → PcapResult (List H)
collected collect (ok packets) = elim (collect packets) [
  | Ether.ok hosts ↦ ok hosts
  | Ether.parse_error ↦ panic
  | Ether.panic ↦ panic
]
collected collect pcap_error = pcap_error
collected collect panic = panic
collected collect out_of_fuel = out_of_fuel

-- `scan` with a generator that `new` gave
abbrev pub scan_with :
    {S H : Type 0}
    → PacketGenerator S
    → (List (List ℕ) → PacketResult (List H))
    → SrEnv
    → ℕ
    → PacketResult S
    → PcapResult (List H)
scan_with gen collect env fuel (Ether.ok s) = collected collect ((sr gen env fuel s).1)
scan_with gen collect env fuel Ether.parse_error = panic
scan_with gen collect env fuel Ether.panic = panic
