-- ===== src/Rtsp/Sdp/Parser.antt =====
-- `SessionDescription` and its parser, and `RTPMap`, of src/net/rtsp/sdp.rs.
use arrow_client.Base.{
  ℕ, zero, suc, ◌+◌, ◌*◌, Bool, true, false, Option, none, some, List, [], ◌∷◌, ◌++◌, length, ◌==◌,
  if◌then◌else◌,
}
use arrow_client.Base.Parsing.{Parsing, ok, err, panic, out_of_fuel, ◌>>=◌}
use arrow_client.Base.Text.{codes, same_text}
use arrow_client.Protocol.Service.{unwrap_or}
use arrow_client.Rtsp.Sdp.Lines as Lines
use arrow_client.Rtsp.Sdp.Lines.{LineIterator, next}

pub data MediaType : Type 0 where
  audio video text application message : MediaType
  other : List ℕ → MediaType

pub record Attribute : Type 0 where
  pub name : List ℕ
  pub value : Option (List ℕ)

pub record MediaDescription : Type 0 where
  pub media_type : MediaType
  pub port : ℕ
  pub nb_ports : Option ℕ
  pub protocol : List ℕ
  pub formats : List (List ℕ)
  pub attributes : List Attribute

pub record SessionDescription : Type 0 where
  pub version : ℕ
  pub media_descriptions : List MediaDescription

abbrev pub new : SessionDescription
new = record { version = 0; media_descriptions = [] }

-- The groups of the expression for a media line
pub record MediaLine : Type 0 where
  pub kind : List ℕ
  pub port : List ℕ
  pub nb_ports : Option (List ℕ)
  pub protocol : List ℕ
  pub formats : Option (List ℕ)

-- The groups of the expression for an "rtpmap" attribute
pub record MapLine : Type 0 where
  pub payload_type : Option (List ℕ)
  pub encoding : Option (List ℕ)
  pub clock_rate : Option (List ℕ)
  pub encoding_params : Option (List ℕ)

pub record RtpMap : Type 0 where
  pub payload_type : ℕ
  pub encoding : List ℕ
  pub clock_rate : ℕ
  pub encoding_params : Option (List ℕ)

-- What is taken from outside: the functions of the standard library, and what the expressions capture
-- in a line.
pub record Outside : Type 0 where
  pub is_whitespace : ℕ → Bool
  pub from_utf8_lossy : List ℕ → List ℕ
  pub to_lowercase : List ℕ → List ℕ
  pub split_whitespace : List ℕ → List (List ℕ)
  pub i32_from_str : List ℕ → Option ℕ
  pub u16_from_str : List ℕ → Option ℕ
  pub u32_from_str : List ℕ → Option ℕ
  pub version_captures : List ℕ → Option (List ℕ)
  pub media_captures : List ℕ → Option MediaLine
  pub attribute_captures : List ℕ → Option Attribute
  pub map_captures : List ℕ → Option MapLine

abbrev pub unwrap : {A : Type 0} → Option A → Parsing A
unwrap none = panic
unwrap (some a) = ok a

-- The first character of `trim_left`
unfoldable pub first_character : Outside → List ℕ → Option ℕ
first_character o [] = none
first_character o (c ∷ s) = if o.is_whitespace c then first_character o s else some c

-- `MediaType::from`
unfoldable pub media_type : Outside → List ℕ → MediaType
media_type o s =
    let small = o.to_lowercase s in
    if same_text small (codes "audio")
    then audio
    else if same_text small (codes "video")
    then video
    else if same_text small (codes "text")
    then text
    else if same_text small (codes "application")
    then application
    else if same_text small (codes "message")
    then message
    else other s

-- `RTPMap::parse`
unfoldable pub parse_map : Outside → Attribute → Parsing RtpMap
parse_map o attr =
    if same_text (o.to_lowercase attr.name) (codes "rtpmap")
    then (elim attr.value [
      | none ↦ err
      | some val ↦ elim (o.map_captures val) [
        | none ↦ err
        | some cap ↦
            unwrap (o.u32_from_str (unwrap_or cap.payload_type (codes "0"))) >>= (λ payload_type.
              unwrap (o.u32_from_str (unwrap_or cap.clock_rate (codes "0"))) >>= (λ clock_rate.
                ok (record {
                  payload_type = payload_type;
                  encoding = unwrap_or cap.encoding [];
                  clock_rate = clock_rate;
                  encoding_params = cap.encoding_params;
                })))
      ]
    ])
    else err

-- The last media description gets an attribute.
unfoldable pub push_attribute : Attribute → List MediaDescription → Parsing (List MediaDescription)
push_attribute attr [] = panic
push_attribute attr (md ∷ []) = ok (record md { attributes = md.attributes ++ attr ∷ [] } ∷ [])
push_attribute attr (md ∷ md' ∷ mds) = push_attribute attr (md' ∷ mds) >>= λ mds. ok (md ∷ mds)

module _ (o : Outside) where
  unfoldable pub process_version : List ℕ → SessionDescription → Parsing SessionDescription
  process_version line sdp = elim (o.version_captures (o.from_utf8_lossy line)) [
    | none ↦ err
    | some ver ↦ unwrap (o.i32_from_str ver) >>= λ version. ok (record sdp { version = version })
  ]

  unfoldable pub process_media_attribute : List ℕ → SessionDescription → Parsing SessionDescription
  unfolding push_attribute
  process_media_attribute line sdp = elim (o.attribute_captures (o.from_utf8_lossy line)) [
    | none ↦ err
    | some attr ↦ push_attribute attr sdp.media_descriptions >>= λ mds.
        ok (record sdp { media_descriptions = mds })
  ]

  abbrev nb_ports_of : Option (List ℕ) → Parsing (Option ℕ)
  nb_ports_of none = ok none
  nb_ports_of (some n) = unwrap (o.u16_from_str n) >>= λ n. ok (some n)

  -- The first part of `process_media_description`
  unfoldable pub push_media : List ℕ → SessionDescription → Parsing SessionDescription
  unfolding media_type
  push_media line sdp = elim (o.media_captures (o.from_utf8_lossy line)) [
    | none ↦ err
    | some cap ↦ unwrap (o.u16_from_str cap.port) >>= (λ port.
        nb_ports_of cap.nb_ports >>= (λ nb_ports. ok (record sdp {
          media_descriptions =
              sdp.media_descriptions
              ++ (record {
                media_type = media_type o cap.kind;
                port = port;
                nb_ports = nb_ports;
                protocol = cap.protocol;
                formats = o.split_whitespace (unwrap_or cap.formats []);
                attributes = [];
              }
                  ∷ []);
        })))
  ]

  -- The description so far, and the lines that are left
  abbrev pub State : Type 0
  State = SessionDescription × LineIterator

  -- The lines that the loop of a media description passes over
  abbrev pub is_media_detail : ℕ → Bool
  is_media_detail c =
      if c == b'i' then true else if c == b'c' then true else if c == b'b' then true else c == b'k'

  -- The first argument of the functions that call each other bounds the calls. `process_time` is
  -- `process_time_description`, and `media_loop` the loop of `process_media_description`.
  unfoldable mutual
    unfolding first_character process_version process_media_attribute push_media next

    pub process_lines : ℕ → State → Parsing State
    process_lines zero st = out_of_fuel
    process_lines (suc fuel) (sdp, lines) = next lines >>= λ (lines, line). elim line [
      | none ↦ ok (sdp, lines)
      | some l ↦ process_line fuel l (sdp, lines) >>= process_lines fuel
    ]

    pub process_line : ℕ → List ℕ → State → Parsing State
    process_line zero line st = out_of_fuel
    process_line (suc fuel) line (sdp, lines) = elim (first_character o line) [
      | none ↦ ok (sdp, lines)
      | some c ↦ elim (c == b'v') [
        | true ↦ process_version line sdp >>= λ sdp. ok (sdp, lines)
        | false ↦ elim (c == b't') [
          | true ↦ process_time fuel (sdp, lines)
          | false ↦ elim (c == b'm') [
            | true ↦ push_media line sdp >>= λ sdp. media_loop fuel (sdp, lines)
            | false ↦ ok (sdp, lines)
          ]
        ]
      ]
    ]

    pub process_time : ℕ → State → Parsing State
    process_time zero st = out_of_fuel
    process_time (suc fuel) (sdp, lines) = next lines >>= λ (lines, line). elim line [
      | none ↦ ok (sdp, lines)
      | some l ↦ elim (first_character o l) [
        | none ↦ process_time fuel (sdp, lines)
        | some c ↦ elim (c == b'r') [
          | true ↦ process_time fuel (sdp, lines)
          | false ↦ process_line fuel l (sdp, lines) >>= process_time fuel
        ]
      ]
    ]

    pub media_loop : ℕ → State → Parsing State
    media_loop zero st = out_of_fuel
    media_loop (suc fuel) (sdp, lines) = next lines >>= λ (lines, line). elim line [
      | none ↦ ok (sdp, lines)
      | some l ↦ elim (first_character o l) [
        | none ↦ media_loop fuel (sdp, lines)
        | some c ↦ elim (is_media_detail c) [
          | true ↦ media_loop fuel (sdp, lines)
          | false ↦ elim (c == b'a') [
            | true ↦ process_media_attribute l sdp >>= λ sdp. media_loop fuel (sdp, lines)
            | false ↦ process_line fuel l (sdp, lines) >>= media_loop fuel
          ]
        ]
      ]
    ]

  -- `SessionDescription::parse`. A line takes at most three calls.
  unfoldable pub parse : List ℕ → Parsing SessionDescription
  unfolding process_lines
  parse sdp =
      process_lines (3 * length sdp + 1) (new, Lines.new_iterator (Lines.new 4096) sdp)
      >>= λ (sdp, lines). ok sdp
