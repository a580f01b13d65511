-- ===== src/Payload/Text.antt =====
-- payload/payload.go: `Utf8`, the conversion of a payload to UTF8 text. Go's utf16.Decode and
-- utf8.EncodeRune are written out for the single unit that the code hands to them.
use webwire_go.Base.{
  Bool, ltb, leb, ◌==◌, if◌then◌else◌, length, ℕ, ◌+◌, ◌*◌, ◌/◌, ◌%◌, not, ◌&&◌, Option, none, some,
  [], ◌∷◌, ◌++◌,
}
use webwire_go.Payload.{Encoding, binary, utf8, utf16, Payload}
use webwire_go.Runtime.{Bytes, out_of_range, Go, value, panic, ◌>>=◌}

-- A unit between 0xD800 and 0xDFFF is half of a surrogate pair.
abbrev pub is_surrogate : ℕ → Bool
is_surrogate unit = leb 0xd800 unit && ltb unit 0xe000

-- `utf16.Decode` of one unit
unfoldable pub decode_unit : ℕ → ℕ
decode_unit unit = if is_surrogate unit then 0xfffd else unit

-- `utf8.EncodeRune` of a code point below 0x10000 that is no surrogate
unfoldable pub encode_rune : ℕ → Bytes
encode_rune r =
    if ltb r 0x80
    then r ∷ []
    else if ltb r 0x800
    then (0xc0 + r / 64) ∷ (0x80 + r % 64) ∷ []
    else (0xe0 + r / 4096) ∷ (0x80 + r / 64 % 64) ∷ (0x80 + r % 64) ∷ []

-- The loop over the data, two bytes at a time, the lower one first.
unfoldable pub convert : Bytes → Go Bytes
convert [] = value []
convert (low ∷ []) = panic out_of_range
convert (low ∷ high ∷ rest) = do
  converted ← convert rest
  value (encode_rune (decode_unit (low + high * 256)) ++ converted)

abbrev utf16_text : Bytes → Go (Option Bytes)
utf16_text bytes =
    if not (length bytes % 2 == 0) then value none else (do text ← convert bytes; value (some text))

abbrev text_of : Encoding → Bytes → Go (Option Bytes)
text_of binary bytes = value (some bytes)
text_of utf8 bytes = value (some bytes)
text_of utf16 bytes = utf16_text bytes

-- `none` is the error.
unfoldable pub utf8_text : Payload → Go (Option Bytes)
utf8_text pld = text_of pld.encoding pld.bytes
