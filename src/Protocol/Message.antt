-- ===== src/Protocol/Message.antt =====
-- The Arrow Message header and envelope of src/net/arrow/protocol/mod.rs.
use arrow_client.Base.{
  ℕ, ◌%◌, ◌^◌, ◌<◌, ◌≡◌, refl, List, ◌∷◌, ◌++◌, length, drop, ◌==◌, if◌then◌else◌, arith,
}
use arrow_client.Base.Bytes.{
  IsU16, IsU32, be16, be32, from_u8, from_be16, from_be32, from_be16-be16, from_be32-be32,
}
use arrow_client.Base.Outcome.{Outcome, ok, err, panic, unsupported_protocol_version}

-- `ArrowMessageBody` and `ControlMessageBody`: a payload that knows its size. The law is what the
-- trait leaves unsaid, and every payload of the protocol has to meet.
pub record Body (B : Type 0) : Type 0 where
  pub serialize : B → List ℕ
  pub len : B → ℕ
  pub length-serialize : (b : B) → length (serialize b) ≡ len b

-- `ARROW_PROTOCOL_VERSION`
abbrev pub protocol_version : ℕ
protocol_version = 1

pub record Header : Type 0 where
  pub version : ℕ
  pub service : ℕ
  pub session : ℕ
  pub size : ℕ

-- `size_of::<ArrowMessageHeader>()` of the packed structure
abbrev pub header_size : ℕ
header_size = 11

-- `ArrowMessageHeader::new`; the mask keeps the lower 24 bits of the session ID.
abbrev pub new_header : ℕ → ℕ → ℕ → Header
new_header service session size = record {
  version = protocol_version;
  service = service;
  session = session % 2 ^ 24;
  size = size;
}

-- The cast of the bytes to the packed structure, and `from_be` of each field.
abbrev pub read_fields : List ℕ → Header
read_fields slice = record {
  version = from_u8 slice;
  service = from_be16 (drop 1 slice);
  session = from_be32 (drop 3 slice) % 2 ^ 24;
  size = from_be32 (drop 7 slice);
}

unfoldable pub from_bytes : List ℕ → Outcome Header
from_bytes slice =
    let res = read_fields slice in
    if length slice == header_size
    then if res.version == protocol_version then ok res else err unsupported_protocol_version
    else panic

unfoldable pub serialize_header : Header → List ℕ
serialize_header h = h.version ∷ (be16 h.service ++ (be32 h.session ++ be32 h.size))

pub record Message (B : Type 0) : Type 0 where
  pub header : Header
  pub body : B

abbrev pub new : {B : Type 0} → ℕ → ℕ → B → Message B
new service session body = record { header = new_header service session 0; body = body }

-- The size goes into the header only here: `self.body.len() as u32`.
unfoldable pub serialize : {B : Type 0} → Body B → Message B → List ℕ
unfolding serialize_header
serialize i m =
    serialize_header (new_header m.header.service m.header.session (i.len m.body % 2 ^ 32))
    ++ i.serialize m.body

-- The impls for `Vec<u8>` and `&[u8]`.
abbrev pub raw_body : Body (List ℕ)
raw_body = record { serialize = λ b. b; len = length; length-serialize = λ b. refl }

pub record IsHeader (h : Header) : Type 0 where
  pub version : h.version ≡ protocol_version
  pub service : IsU16 h.service
  pub session : h.session < 2 ^ 24
  pub size : IsU32 h.size

-- A header of this protocol version comes back from its bytes.
pub from_bytes-serialize_header : (h : Header) → IsHeader h → from_bytes (serialize_header h) ≡ ok h
unfolding from_bytes serialize_header
from_bytes-serialize_header h v = ground (
  arith,
  from_be16-be16 h.service v.service,
  from_be32-be32 h.session (omega arith),
  from_be32-be32 h.size v.size,
)

pub new_header-IsHeader :
    (service session size : ℕ)
    → IsU16 service
    → IsU32 size
    → IsHeader (new_header service session size)
new_header-IsHeader service session size hs hz = record {
  version = refl;
  service = hs;
  session = omega arith;
  size = hz;
}
