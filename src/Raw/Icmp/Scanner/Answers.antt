-- ===== src/Raw/Icmp/Scanner/Answers.antt =====
-- What the ICMP scanner collects from the answers that it hears.
use Prim.Native.Nat.{bit_and}
use arrow_client.Base.{ℕ, ◌≡◌, refl, Bool, List, [], ◌∷◌, ◌==◌, if◌then◌else◌, Bool-cases, inl, inr}
use arrow_client.Raw.Arp.Scanner.{Host}
use arrow_client.Raw.Checksum.{ipv4addr_to_u32}
use arrow_client.Raw.Ether.{ok, EtherPacket, serialize}
use arrow_client.Raw.Icmp.{IcmpPacket, vec_body, icmp_body}
use arrow_client.Raw.Icmp.Scanner.{received_body, collect}
use arrow_client.Raw.Icmp.Wire.{icmp_lawful, vec_lawful}
use arrow_client.Raw.Ip.{Ipv4Packet}
use arrow_client.Raw.Pcap
use arrow_client.Raw.Stack.{IsSent, parse-sent}

-- The hosts of a network
abbrev pub within : ℕ → ℕ → List Host → List Host
within mask net [] = []
within mask net (h ∷ hosts) =
    let rest = within mask net hosts in
    if bit_and (ipv4addr_to_u32 h.1) mask == net then h ∷ rest else rest

-- The bytes of well-formed ICMP packets, whatever they are, and the hosts that sent them.
pub data Answers (overflow_checks : Bool) : List (List ℕ) → List Host → Type 0 where
  silence : Answers overflow_checks [] []
  answer :
      {bytes : List ℕ} {packets : List (List ℕ)} {hosts : List Host}
      (p : EtherPacket (Ipv4Packet (IcmpPacket (List ℕ))))
      → IsSent overflow_checks (icmp_body vec_body) (icmp_lawful vec_body vec_lawful) p
      → serialize (received_body overflow_checks) p ≡ ok bytes
      → Answers overflow_checks packets hosts
      → Answers overflow_checks (bytes ∷ packets) ((p.header.src, p.body.header.src) ∷ hosts)

-- From the answers of any hosts, the scanner collects those of its network, in the order in which
-- they answered.
pub collect-Answers :
    (checks : Bool) (mask net : ℕ) {packets : List (List ℕ)} {hosts : List Host}
    → Answers checks packets hosts
    → collect checks mask net packets ≡ ok (within mask net hosts)
unfolding collect
collect-Answers checks mask net silence = refl
collect-Answers checks mask net (answer {bytes} {packets} {hosts} p sent e rest) =
    let got =
      parse-sent checks (icmp_body vec_body) (icmp_lawful vec_body vec_lawful) p bytes sent e in
    let later = collect-Answers checks mask net rest in
    elim (Bool-cases (bit_and (ipv4addr_to_u32 p.body.header.src) mask == net)) [
      | inl same ↦ rw (got, collect) (rw same (rw later refl))
      | inr other ↦ rw (got, collect) (rw other later)
    ]
