-- ===== src/Raw/Pcap/Laws.antt =====
-- What the send-receive service does with the packets of a generator.
use arrow_client.Base.{
  ℕ, zero, suc, ◌+◌, ◌<◌, ◌≡◌, ◌≢◌, ◌⊎◌, inl, inr, refl, ap, ◌∙◌, Bool, true, false, Bool-cases,
  if◌then◌else◌, none, some, List, [], ◌∷◌, ◌++◌, length, append-nil, append_assoc, sym, All, arith,
}
use mathlib.Core.Path.{subst}
use arrow_client.Raw.Ether
use arrow_client.Raw.Ether.{PacketResult}
use arrow_client.Raw.Pcap.{
  PacketGenerator, PcapResult, pcap_error, join, ok, send_loop, send_requests, Captured, captured,
  nothing, failed, Round, listening, returned, listen, SrEnv, sr, scan_with,
}

-- The generator gives these packets, one per call, and then none.
pub data Emits {S : Type 0} (gen : PacketGenerator S) : S → List (List ℕ) → Type 0 where
  finished : {s s' : S} → gen.next s ≡ Ether.ok (none, s') → Emits gen s []
  emitted :
      {s s' : S} {pkt : List ℕ} {pkts : List (List ℕ)}
      → gen.next s ≡ Ether.ok (some pkt, s')
      → Emits gen s' pkts
      → Emits gen s (pkt ∷ pkts)

-- When libpcap takes every packet, all the packets of a generator are sent, in their order, and
-- sending ends; one round more than there are packets is enough fuel.
pub send_loop-Emits :
    {S : Type 0} (gen : PacketGenerator S) (inject : ℕ → List ℕ → Bool) {s : S}
    {pkts : List (List ℕ)}
    → ((n : ℕ) (pkt : List ℕ) → inject n pkt ≡ true)
    → Emits gen s pkts
    → (fuel sent : ℕ) → length pkts < fuel
    → send_loop gen inject fuel sent s ≡ (pkts, ok tt)
unfolding send_loop
send_loop-Emits gen inject taken _ zero sent h = absurd (omega arith)
send_loop-Emits gen inject taken (finished e) (suc fuel) sent h = rw (e, send_loop) refl
send_loop-Emits gen inject taken (emitted {s' = s'} {pkt} e rest) (suc fuel) sent h =
    rw (e, send_loop)
      (rw (taken sent pkt)
        (rw (send_loop-Emits gen inject taken rest fuel (sent + 1) (omega arith)) refl))

Captured-cases :
    (c : Captured) → ((pkt : List ℕ) × (c ≡ captured pkt)) ⊎ ((c ≡ nothing) ⊎ (c ≡ failed))
Captured-cases (captured pkt) = inl (pkt, refl)
Captured-cases nothing = inr (inl refl)
Captured-cases failed = inr (inr refl)

-- The packets of the rounds
abbrev pub packets : List Round → List (List ℕ)
packets [] = []
packets (r ∷ rounds) = elim (r.capture) [
  | captured pkt ↦ pkt ∷ packets rounds
  | nothing ↦ packets rounds
  | failed ↦ packets rounds
]

-- A round before the end of sending
pub record IsWaiting (r : Round) : Type 0 where
  pub unended : r.end_indicator ≡ false
  pub works : r.capture ≢ failed

-- The listener never returns while the end indicator is not set, however late it is, and collects
-- every packet in its order.
pub listen-packets :
    (timeout t : ℕ) (vec : List (List ℕ)) (rounds : List Round)
    → All IsWaiting rounds
    → listen timeout t false vec rounds ≡ listening (vec ++ packets rounds)
unfolding listen
listen-packets timeout t vec [] h = ap listening (sym (append-nil vec))
listen-packets timeout t vec (r ∷ rounds) h =
    let unended : r.end_indicator ≡ false = h.0.unended in
    elim (Captured-cases r.capture) [
      | inl (pkt, e) ↦
          let rest : listen timeout t false (vec ++ pkt ∷ []) rounds
              ≡ listening (vec ++ (pkt ∷ packets rounds)) =
            listen-packets timeout t (vec ++ pkt ∷ []) rounds h.1
            ∙ ap listening (append_assoc vec (pkt ∷ []) (packets rounds)) in
          ground (arith, unended, e, rest)
      | inr (inl e) ↦
          let rest = listen-packets timeout t vec rounds h.1 in ground (arith, unended, e, rest)
      | inr (inr e) ↦ absurd (h.0.works e)
    ]

-- The packets that libpcap takes, up to the first that it refuses; `n` packets were taken before.
abbrev pub taken : (ℕ → List ℕ → Bool) → ℕ → List (List ℕ) → List (List ℕ)
taken inject n [] = []
taken inject n (pkt ∷ pkts) =
    let rest = taken inject (n + 1) pkts in if inject n pkt then pkt ∷ rest else []

-- What sending some packets comes to
abbrev Sends : (ℕ → List ℕ → Bool) → ℕ → List (List ℕ) → List (List ℕ) × PcapResult Unit → Type 0
Sends inject n pkts (sent, res) =
    (sent ≡ taken inject n pkts)
    × (((res ≡ ok tt) × (sent ≡ pkts)) ⊎ ((res ≡ pcap_error) × (sent ≢ pkts)))

same_tail : {x y : List ℕ} {xs ys : List (List ℕ)} → x ∷ xs ≡ y ∷ ys → xs ≡ ys
same_tail h = cc

none_of : {x : List ℕ} {xs : List (List ℕ)} → [] ≢ x ∷ xs
none_of h = cc

send_loop-Sends :
    {S : Type 0} (gen : PacketGenerator S) (inject : ℕ → List ℕ → Bool) {s : S}
    {pkts : List (List ℕ)}
    → Emits gen s pkts
    → (fuel n : ℕ) → length pkts < fuel
    → Sends inject n pkts (send_loop gen inject fuel n s)
unfolding send_loop
send_loop-Sends gen inject _ zero n h = absurd (omega arith)
send_loop-Sends gen inject (finished e) (suc fuel) n h = rw (e, send_loop) (refl, inl (refl, refl))
send_loop-Sends gen inject (emitted {s' = s'} {pkt} {pkts} e rest) (suc fuel) n h =
    let (sent, res) = send_loop-Sends gen inject rest fuel (n + 1) (omega arith) in
    let last = send_loop gen inject fuel (n + 1) s' in
    elim (Bool-cases (inject n pkt)) [
      | inl takes ↦
          let eq : send_loop gen inject (suc fuel) n _ ≡ (pkt ∷ last.0, last.1) =
            rw (e, send_loop) (rw takes refl) in
          let more = ap (λ b. if b then pkt ∷ taken inject (n + 1) pkts else []) takes in
          subst (Sends inject n (pkt ∷ pkts)) (sym eq) (
            ap (◌∷◌ pkt) sent ∙ sym more,
            elim res [
              | inl (done, all) ↦ inl (done, ap (◌∷◌ pkt) all)
              | inr (failed', lost) ↦ inr (failed', λ all. lost (same_tail all))
            ],
          )
      | inr refuses ↦
          let eq : send_loop gen inject (suc fuel) n _ ≡ ([], pcap_error) =
            rw (e, send_loop) (rw refuses refl) in
          let none' = ap (λ b. if b then pkt ∷ taken inject (n + 1) pkts else []) refuses in
          subst (Sends inject n (pkt ∷ pkts)) (sym eq) (sym none', inr (refl, none_of))
    ]

-- A round whose capture works, and which sees the end indicator only when it is set
pub record Hears (ended : Bool) (r : Round) : Type 0 where
  pub seen : r.end_indicator ≡ true → ended ≡ true
  pub works : r.capture ≢ failed

Hears-IsWaiting :
    (ended : Bool) (rounds : List Round)
    → ended ≡ false
    → All (Hears ended) rounds
    → All IsWaiting rounds
Hears-IsWaiting ended [] unset h = tt
Hears-IsWaiting ended (r ∷ rounds) unset h = (
  record {
    unended = elim (Bool-cases r.end_indicator) [
      | inl set ↦ let e = h.0.seen set in cc
      | inr unset' ↦ unset'
    ];
    works = h.0.works;
  },
  Hears-IsWaiting ended rounds unset h.1,
)

-- `send_requests` hands the packets of a generator to libpcap in their order, up to the first that is
-- refused, and none when the handle could not be made. When the listener starts, the handle can be
-- made and every packet is taken, `sr` sets the end indicator and returns what the listener comes to.
-- Otherwise it returns an error, and leaves the indicator unset; a listener that sees it only when it
-- is set, and whose captures work, is then still listening after any rounds, however late, with every
-- packet that was captured. One round of the loop more than there are packets is enough fuel.
pub sr_lem :
    {S : Type 0} (gen : PacketGenerator S) (env : SrEnv) (fuel : ℕ) (s : S) (pkts : List (List ℕ))
    (timeout t : ℕ) (rounds : List Round)
    → Emits gen s pkts
    → length pkts < fuel
    → All (Hears ((sr gen env fuel s).0)) rounds
    → let sent = taken env.inject 0 pkts in
      ((send_requests gen env.inject env.activated fuel s).0 ≡ (if env.activated then sent else []))
      × (((env.listener_starts ≡ true)
            × (env.activated ≡ true)
            × (sent ≡ pkts)
            × (sr gen env fuel s ≡ (true, join env.listener)))
          ⊎ (((env.listener_starts ≡ true) × (env.activated ≡ true) × (sent ≡ pkts) → ⊥)
              × (sr gen env fuel s ≡ (false, pcap_error))
              × (listen timeout t false [] rounds ≡ listening (packets rounds))))
unfolding sr send_requests
sr_lem gen env fuel s pkts timeout t rounds emits enough hears =
    let (sent, res) = send_loop-Sends gen env.inject emits fuel 0 enough in
    let stopped : sr gen env fuel s ≡ (false, pcap_error)
        → listen timeout t false [] rounds ≡ listening (packets rounds) =
      λ e.
        listen-packets timeout t [] rounds
          (Hears-IsWaiting ((sr gen env fuel s).0) rounds (ap (λ r. r.0) e) hears) in
    (
      ground (arith, sent),
      elim (Bool-cases env.listener_starts) [
        | inr off ↦
            let eq : sr gen env fuel s ≡ (false, pcap_error) = ground (arith, off) in
            inr ((λ h. (let on = h.0 in cc)), eq, stopped eq)
        | inl on ↦ elim (Bool-cases env.activated) [
          | inr off ↦
              let eq : sr gen env fuel s ≡ (false, pcap_error) = rw (on, off) refl in
              inr ((λ h. (let on' = h.1 in cc)), eq, stopped eq)
          | inl act ↦ elim res [
            | inl (done, all) ↦ inl (on, act, sym sent ∙ all, rw (on, act, done) refl)
            | inr (failed', lost) ↦
                let eq : sr gen env fuel s ≡ (false, pcap_error) = rw (on, act, failed') refl in
                inr ((λ h. lost (sent ∙ h.2)), eq, stopped eq)
          ]
        ]
      ],
    )

-- What a scanner meets when nothing fails: libpcap takes every packet, and the listener returns some
-- answers.
pub record IsQuiet (env : SrEnv) (answers : List (List ℕ)) : Type 0 where
  pub listener_starts : env.listener_starts ≡ true
  pub activated : env.activated ≡ true
  pub taken : (n : ℕ) (pkt : List ℕ) → env.inject n pkt ≡ true
  pub heard : env.listener ≡ returned answers

-- Then a scan returns what it collects from the answers.
pub scan_with-IsQuiet :
    {S H : Type 0} (gen : PacketGenerator S) (collect : List (List ℕ) → PacketResult (List H))
    (env : SrEnv) (fuel : ℕ) (s : S) (pkts answers : List (List ℕ)) (hosts : List H)
    → IsQuiet env answers
    → Emits gen s pkts
    → length pkts < fuel
    → collect answers ≡ Ether.ok hosts
    → scan_with gen collect env fuel (Ether.ok s) ≡ ok hosts
unfolding sr send_requests
scan_with-IsQuiet gen collect env fuel s pkts answers hosts quiet emits enough found =
    let sent = send_loop-Emits gen env.inject quiet.taken emits fuel 0 enough in
    ground (arith, sent, quiet.listener_starts, quiet.activated, quiet.heard, found)
