-- ===== src/Raw/Sweep.antt =====
-- The addresses of a device's network that the ARP scanner and the ICMP scanner go through, as both
-- of their generators compute them in `new`.
use Prim.Native.Nat.{bit_and, bit_or}
use arrow_client.Base.{
  ℕ, zero, suc, ◌+◌, ◌-◌, ◌^◌, ◌≤◌, ◌<◌, ◌≡◌, refl, ap, none, some, List, [], ◌∷◌, length, All,
  arith,
}
use arrow_client.Base.Bits.{bit_and_le, bit_or-complement}
use arrow_client.Base.Bytes.{IsU8, IsU32}
use arrow_client.Net.Addr.{Ipv4Addr, octets4}
use arrow_client.Raw.Checksum.{ipv4addr_to_u32}
use arrow_client.Raw.Ether.{ok}
use arrow_client.Raw.Pcap.{EthernetDevice, PacketGenerator}
use arrow_client.Raw.Pcap.Laws.{Emits, finished, emitted}

-- `addr & mask`
abbrev pub network : EthernetDevice → ℕ
network device = bit_and (ipv4addr_to_u32 device.ip_addr) (ipv4addr_to_u32 device.netmask)

-- `current | !mask`
abbrev pub broadcast : EthernetDevice → ℕ
broadcast device = bit_or (network device) (2 ^ 32 - 1 - ipv4addr_to_u32 device.netmask)

-- A device whose addresses are made of bytes
pub record IsDevice (device : EthernetDevice) : Type 0 where
  pub ip_addr : All IsU8 (octets4 device.ip_addr)
  pub netmask : All IsU8 (octets4 device.netmask)

pub ipv4addr_to_u32_lt : (addr : Ipv4Addr) → All IsU8 (octets4 addr) → IsU32 (ipv4addr_to_u32 addr)
unfolding ipv4addr_to_u32
ipv4addr_to_u32_lt addr h = omega arith

-- The broadcast address lies as far above the network's as the mask says, and within 32 bits.
pub broadcast_lem :
    (device : EthernetDevice)
    → IsDevice device
    → (broadcast device ≡ network device + (2 ^ 32 - 1 - ipv4addr_to_u32 device.netmask))
      × IsU32 (broadcast device)
broadcast_lem device d =
    let a = ipv4addr_to_u32 device.ip_addr in
    let m = ipv4addr_to_u32 device.netmask in
    let ha : a < 2 ^ 32 = ipv4addr_to_u32_lt device.ip_addr d.ip_addr in
    let hm : m < 2 ^ 32 = ipv4addr_to_u32_lt device.netmask d.netmask in
    let split = bit_or-complement 32 a m ha hm in
    (split, omega (arith, split, bit_and_le 32 a m ha))

-- That many frames, for the addresses from the first one on
abbrev pub frames : (ℕ → List ℕ) → ℕ → ℕ → List (List ℕ)
frames frame first zero = []
frames frame first (suc n) = frame first ∷ frames frame (first + 1) n

pub length-frames : (frame : ℕ → List ℕ) (first n : ℕ) → length (frames frame first n) ≡ n
length-frames frame first zero = refl
length-frames frame first (suc n) = ap suc (length-frames frame (first + 1) n)

-- A generator that goes through the addresses below `last`, with a frame for each; `at` is its state
-- at an address with some bytes in its buffer.
pub record IsSweep {S : Type 0} (gen : PacketGenerator S) (at : ℕ → List ℕ → S) (frame : ℕ → List ℕ)
    (last : ℕ) : Type 0 where
  pub within :
      (n : ℕ) (buffer : List ℕ)
      → n < last
      → gen.next (at n buffer) ≡ ok (some (frame n), at (n + 1) (frame n))
  pub over : (n : ℕ) (buffer : List ℕ) → last ≤ n → gen.next (at n buffer) ≡ ok (none, at n buffer)

pub frames-Emits :
    {S : Type 0} (gen : PacketGenerator S) (at : ℕ → List ℕ → S) (frame : ℕ → List ℕ) (last : ℕ)
    → IsSweep gen at frame last
    → (n first : ℕ) (buffer : List ℕ) → last ≡ first + n
    → Emits gen (at first buffer) (frames frame first n)
frames-Emits gen at frame last sweep zero first buffer e =
    finished (sweep.over first buffer (omega arith))
frames-Emits gen at frame last sweep (suc n) first buffer e =
    emitted (sweep.within first buffer (omega arith))
      (frames-Emits gen at frame last sweep n (first + 1) (frame first) (omega arith))
