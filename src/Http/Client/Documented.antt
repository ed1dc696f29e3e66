-- ===== src/Http/Client/Documented.antt =====
-- Responses that can be written, and what is documented of the code that the parser calls.
use arrow_client.Base.{
  ℕ, ◌+◌, ◌^◌, ◌≤◌, ◌<◌, ◌≡◌, ◌≢◌, true, Option, some, List, [], ◌∷◌, ◌++◌, All, length,
}
use arrow_client.Base.Text.{codes}
use arrow_client.Http.Fields.{Header, Outside}
use arrow_client.Http.Header.{ResponseHeader, StatusLine}

-- A character of ASCII
abbrev pub IsAscii : ℕ → Type 0
IsAscii c = c < 128

-- A decimal digit
abbrev pub IsDigit : ℕ → Type 0
IsDigit c = (48 ≤ c) × (c ≤ 57)

-- A character of the name of a header, which `[^ :]` matches
abbrev pub IsNameCharacter : ℕ → Type 0
IsNameCharacter c = (c ≢ 32) × (c ≢ 58) × (c ≢ 10) × (c < 128)

-- A character of a text that stands on a line
abbrev pub IsTextCharacter : ℕ → Type 0
IsTextCharacter c = (c ≢ 10) × (c < 128)

-- A text that does not begin with white space, so that `\s*` before it matches nothing of it
abbrev pub IsTrimmed : List ℕ → Type 0
IsTrimmed [] = Unit {0}
IsTrimmed (c ∷ s) = 33 ≤ c

-- A version as `\d\.\d` matches it
abbrev pub IsVersion : List ℕ → Type 0
IsVersion v = (a : ℕ) × (b : ℕ) × (v ≡ a ∷ 46 ∷ b ∷ []) × IsDigit a × IsDigit b

-- The line of a header, and the first line
abbrev pub header_line : Header → List ℕ
header_line (name, val) = name ++ (codes ": " ++ val)

abbrev pub status_line : List ℕ → List ℕ → List ℕ → List ℕ
status_line version code text =
    codes "HTTP/" ++ (version ++ (codes " " ++ (code ++ (codes " " ++ text))))

-- What the documentation says of the standard library and of the expressions.
pub record IsDocumented (o : Outside) (status_captures : List ℕ → Option StatusLine)
    (show_i32 : ℕ → List ℕ) : Type 0 where
  pub ascii : (s : List ℕ) → All IsAscii s → o.is_utf8 s ≡ true
  pub header :
      (name val : List ℕ)
      → name ≢ []
      → All IsNameCharacter name
      → All IsTextCharacter val
      → IsTrimmed val
      → o.header_captures (header_line (name, val)) ≡ some (name, val)
  pub status :
      (version code text : List ℕ)
      → IsVersion version
      → code ≢ []
      → All IsDigit code
      → All IsTextCharacter text
      → status_captures (status_line version code text)
        ≡ some (record { version = version; code = code; text = text })
  pub number :
      (n : ℕ)
      → n < 2 ^ 31
      → (o.i32_from_str (show_i32 n) ≡ some n) × (show_i32 n ≢ []) × All IsDigit (show_i32 n)

-- What the documentation says of `String::from_utf8_lossy`: it changes no text that is UTF-8.
abbrev pub KeepsUtf8 : Outside → (List ℕ → List ℕ) → Type 0
KeepsUtf8 o from_utf8_lossy = (s : List ℕ) → o.is_utf8 s ≡ true → from_utf8_lossy s ≡ s

-- A header that can be written on a line that is not too long
abbrev pub IsWritable : Header → Type 0
IsWritable (name, val) =
    (name ≢ [])
    × All IsNameCharacter name
    × All IsTextCharacter val
    × IsTrimmed val
    × (length name + length val + 4 ≤ 4096)

-- A response header that can be written
pub record IsSendable (show_i32 : ℕ → List ℕ) (h : ResponseHeader) : Type 0 where
  pub version : IsVersion h.version
  pub code : h.code < 2 ^ 31
  pub text : All IsTextCharacter h.text
  pub short : length (status_line h.version (show_i32 h.code) h.text) + 2 ≤ 4096
  pub headers : All IsWritable h.headers
  pub few : length h.headers + 2 ≤ 256
