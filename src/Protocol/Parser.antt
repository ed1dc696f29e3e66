-- ===== src/Protocol/Parser.antt =====
-- `ArrowMessageParser` of src/net/arrow/protocol/mod.rs, which reads messages from a stream of
-- chunks. A call that fails leaves the parser changed, so each call returns the parser and its
-- result.
pub mod Frame
pub mod RoundTrip
pub mod Stream
use arrow_client.Base.{
  ℕ, ◌+◌, ◌-◌, Bool, ◌&&◌, Option, none, some, is_some, List, [], ◌++◌, length, take, drop, ltb,
  ◌==◌, if◌then◌else◌,
}
use arrow_client.Base.Bytes.{sub_usize}
use arrow_client.Base.Outcome.{Outcome, ok, err, panic, out_of_fuel}
use arrow_client.Protocol.Message.{Header, header_size, from_bytes}

pub record Parser : Type 0 where
  pub header : Option Header
  pub buffer : List ℕ
  pub expected : ℕ

abbrev pub new : Parser
new = record { header = none; buffer = []; expected = 0 }

abbrev pub is_complete : Parser → Bool
is_complete p = is_some p.header && p.expected == 0

abbrev pub clear : Parser → Parser
clear p = record { header = none; buffer = []; expected = 0 }

abbrev pub body : Parser → Option (List ℕ)
body p = if is_complete p then some (drop header_size p.buffer) else none

-- How much of the input a call takes that wants so many bytes.
abbrev pub clip : ℕ → List ℕ → ℕ
clip wanted input = if ltb (length input) wanted then length input else wanted

-- `self.header = Some(try!(from_bytes(&self.buffer)))`
abbrev pub parse_header : Parser → ℕ → Outcome Header → Parser × Outcome ℕ
parse_header p consumed (ok h) = (record p { header = some h }, ok consumed)
parse_header p consumed (err e) = (p, err e)
parse_header p consumed panic = (p, panic)
parse_header p consumed out_of_fuel = (p, out_of_fuel)

unfoldable pub read_header : Parser → List ℕ → Parser × Outcome ℕ
read_header p input =
    let consumed = clip (sub_usize header_size (length p.buffer)) input in
    let p' : Parser = record p { buffer = p.buffer ++ take consumed input } in
    if header_size == length p'.buffer
    then parse_header p' consumed (from_bytes p'.buffer)
    else (p', ok consumed)

unfoldable pub read_body : Parser → List ℕ → Parser × ℕ
read_body p input =
    let consumed = clip p.expected input in
    (
      record p { buffer = p.buffer ++ take consumed input; expected = p.expected - consumed },
      consumed,
    )

-- `if let Some(header) = self.header { self.expected = header.size as usize; }`
abbrev pub expect_body : Parser → Parser
expect_body p = elim p.header [ none ↦ p | some h ↦ record p { expected = h.size } ]

-- `consumed += self.read_body(&data[consumed..])`, if there is a header
abbrev pub go_on : Parser → List ℕ → ℕ → Parser × Outcome ℕ
go_on p input consumed = elim p.header [
  | none ↦ (p, ok consumed)
  | some h ↦ let (p', more) = read_body p (drop consumed input) in (p', ok (consumed + more))
]

abbrev pub after_header : Parser × Outcome ℕ → List ℕ → Parser × Outcome ℕ
after_header (p, ok consumed) input = go_on (expect_body p) input consumed
after_header (p, err e) input = (p, err e)
after_header (p, panic) input = (p, panic)
after_header (p, out_of_fuel) input = (p, out_of_fuel)

unfoldable pub add : Parser → List ℕ → Parser × Outcome ℕ
add p input = elim p.header [
  | none ↦ after_header (read_header p input) input
  | some h ↦ go_on p input 0
]
