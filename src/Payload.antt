-- ===== src/Payload.antt =====
-- payload/encoding.go and payload/payload.go: an encoded payload. A nil slice and an empty one are
-- the same list of bytes, and only the three named encodings are modelled.
pub mod Text
pub mod Points
use webwire_go.Base.{[]}
use webwire_go.Runtime.{Bytes}

pub data Encoding : Type 0 where
  binary utf8 utf16 : Encoding

pub record Payload : Type 0 where
  pub encoding : Encoding
  pub bytes : Bytes

-- `pld.Payload{}`
abbrev pub empty_payload : Payload
empty_payload = record { encoding = binary; bytes = [] }
