-- ===== src/Net/Addr.antt =====
-- Addresses: `MacAddr` of src/net/raw/ether.rs, the standard library's IP and socket addresses, and
-- the byte forms that `IpAddrEx` of src/net/utils.rs gives them.
use arrow_client.Base.{
  ℕ, ◌+◌, ◌*◌, ◌/◌, ◌%◌, ◌≡◌, refl, List, [], ◌∷◌, ◌++◌, length, set, replicate,
}
use arrow_client.Base.Bytes.{be16}

-- `[u8; 6]`
pub record MacAddr : Type 0 where
  pub a : ℕ
  pub b : ℕ
  pub c : ℕ
  pub d : ℕ
  pub e : ℕ
  pub f : ℕ

abbrev pub octets : MacAddr → List ℕ
octets m = m.a ∷ m.b ∷ m.c ∷ m.d ∷ m.e ∷ m.f ∷ []

-- `Ipv4Addr`, by its octets.
pub record Ipv4Addr : Type 0 where
  pub a : ℕ
  pub b : ℕ
  pub c : ℕ
  pub d : ℕ

-- `Ipv6Addr`, by its 16-bit segments.
pub record Ipv6Addr : Type 0 where
  pub s0 : ℕ
  pub s1 : ℕ
  pub s2 : ℕ
  pub s3 : ℕ
  pub s4 : ℕ
  pub s5 : ℕ
  pub s6 : ℕ
  pub s7 : ℕ

pub data IpAddr : Type 0 where
  v4 : Ipv4Addr → IpAddr
  v6 : Ipv6Addr → IpAddr

-- An IPv6 socket address also has a flow label and a scope.
pub data SocketAddr : Type 0 where
  sock4 : Ipv4Addr → ℕ → SocketAddr
  sock6 : Ipv6Addr → ℕ → ℕ → ℕ → SocketAddr

abbrev pub ip : SocketAddr → IpAddr
ip (sock4 addr port) = v4 addr
ip (sock6 addr port flowinfo scope_id) = v6 addr

abbrev pub port : SocketAddr → ℕ
port (sock4 addr p) = p
port (sock6 addr p flowinfo scope_id) = p

abbrev pub octets4 : Ipv4Addr → List ℕ
octets4 addr = addr.a ∷ addr.b ∷ addr.c ∷ addr.d ∷ []

abbrev pub segments : Ipv6Addr → List ℕ
segments addr = addr.s0 ∷ addr.s1 ∷ addr.s2 ∷ addr.s3 ∷ addr.s4 ∷ addr.s5 ∷ addr.s6 ∷ addr.s7 ∷ []

-- The loop of `Ipv4Addr::bytes`, with the octets that are left.
abbrev pub copy_octets : ℕ → List ℕ → List ℕ → List ℕ
copy_octets i [] res = res
copy_octets i (o ∷ os) res = copy_octets (i + 1) os (set res i o)

-- The loop of `Ipv6Addr::bytes`, with the segments that are left.
abbrev pub copy_segments : ℕ → List ℕ → List ℕ → List ℕ
copy_segments i [] res = res
copy_segments i (s ∷ ss) res =
    copy_segments (i + 1) ss (set (set res (i * 2) (s / 256 % 256)) (i * 2 + 1) (s % 256))

unfoldable pub bytes : IpAddr → List ℕ
bytes (v4 addr) = copy_octets 0 (octets4 addr) (replicate 16 0)
bytes (v6 addr) = copy_segments 0 (segments addr) (replicate 16 0)

abbrev pub version : IpAddr → ℕ
version (v4 addr) = 4
version (v6 addr) = 6

-- The bytes of an address fill 16 places: an IPv4 address stands left-aligned before zeros, an IPv6
-- address as its segments in network order.
pub bytes_layout :
    (a4 : Ipv4Addr) (a6 : Ipv6Addr)
    → (bytes (v4 a4) ≡ octets4 a4 ++ replicate 12 0)
      × (bytes (v6 a6)
          ≡ be16 a6.s0
            ++ (be16 a6.s1
                ++ (be16 a6.s2
                    ++ (be16 a6.s3 ++ (be16 a6.s4 ++ (be16 a6.s5 ++ (be16 a6.s6 ++ be16 a6.s7)))))))
unfolding bytes
bytes_layout a4 a6 = (refl, refl)

pub length-bytes : (addr : IpAddr) → length (bytes addr) ≡ 16
unfolding bytes
length-bytes (v4 addr) = refl
length-bytes (v6 addr) = refl
