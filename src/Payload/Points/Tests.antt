-- ===== src/Payload/Points/Tests.antt =====
-- The conversion of a UTF16 payload, with letters of one, two and three bytes, and half a surrogate
-- pair.
use webwire_go.Base.{◌%◌, ◌≡◌, length, none, refl, some, [], ◌∷◌, arith}
use webwire_go.Payload.{binary, utf8, utf16}
use webwire_go.Payload.Points.{points, replaced, units, utf8_text-points}
use webwire_go.Payload.Text.{convert, decode_unit, encode_rune, utf8_text}
use webwire_go.Runtime.{Bytes, value}

-- "A", U+0451, U+20AC and the first half of the pair of U+1F600.
abbrev mixed : Bytes
mixed = 0x41 ∷ 0x00 ∷ 0x51 ∷ 0x04 ∷ 0xac ∷ 0x20 ∷ 0x3d ∷ 0xd8 ∷ []

mixed_text :
    utf8_text (record { encoding = utf16; bytes = mixed })
    ≡ value (some (0x41 ∷ 0xd1 ∷ 0x91 ∷ 0xe2 ∷ 0x82 ∷ 0xac ∷ 0xef ∷ 0xbf ∷ 0xbd ∷ []))
unfolding utf8_text convert decode_unit encode_rune
mixed_text = refl

utf8_text-points_example :
    (utf8_text (record { encoding = binary; bytes = mixed }) ≡ value (some mixed))
    × (utf8_text (record { encoding = utf8; bytes = mixed }) ≡ value (some mixed))
    × (length mixed % 2 ≡ 1 → utf8_text (record { encoding = utf16; bytes = mixed }) ≡ value none)
    × (length mixed % 2 ≡ 0
        → (text : Bytes) × (utf8_text (record { encoding = utf16; bytes = mixed })
            ≡ value (some text))
          × (points text ≡ some (replaced (units mixed))))
utf8_text-points_example = utf8_text-points mixed (omega arith)
