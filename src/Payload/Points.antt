-- ===== src/Payload/Points.antt =====
-- What the text of a UTF16 payload says: payload/payload.go.
mod Tests
use webwire_go.Base.{
  ltb, leb, ◌==◌, if◌then◌else◌, length, ℕ, ◌+◌, ◌-◌, ◌*◌, ◌/◌, ◌%◌, ◌<◌, ◌≤◌, ◌≡◌, refl, not, ◌&&◌,
  Option, none, some, [], ◌∷◌, ◌++◌, List, Bool, true, false, arith, Bool-cases, inl, inr, ap, ◌∙◌,
}
use webwire_go.Payload.{Encoding, binary, utf8, utf16, Payload}
use webwire_go.Payload.Text.{is_surrogate, decode_unit, encode_rune, convert, utf8_text}
use webwire_go.Runtime.{Bytes, Go, value, panic}
use mathlib.Core.Option

-- The code points below 0x10000 that UTF8 text stands for; `none` if it is malformed, or stands for a
-- code point above.
abbrev pub is_lead : ℕ → ℕ → ℕ → Bool
is_lead low high a = leb low a && ltb a high

abbrev pub is_tail : ℕ → Bool
is_tail a = leb 0x80 a && ltb a 0xc0

pub points : Bytes → Option (List ℕ)
points [] = some []
points (a ∷ []) = if ltb a 0x80 then some (a ∷ []) else none
points (a ∷ b ∷ []) = elim (ltb a 0x80) [
  | true ↦ Option.map (◌∷◌ a) (points (b ∷ []))
  | false ↦
      if is_lead 0xc0 0xe0 a && is_tail b then some (((a - 0xc0) * 64 + (b - 0x80)) ∷ []) else none
]
points (a ∷ b ∷ c ∷ rest) = elim (ltb a 0x80) [
  | true ↦ Option.map (◌∷◌ a) (points (b ∷ c ∷ rest))
  | false ↦ elim (is_lead 0xc0 0xe0 a && is_tail b) [
    | true ↦ Option.map (◌∷◌ ((a - 0xc0) * 64 + (b - 0x80))) (points (c ∷ rest))
    | false ↦ elim (is_lead 0xe0 0xf0 a && is_tail b && is_tail c) [
      | true ↦ Option.map (◌∷◌ ((a - 0xe0) * 4096 + (b - 0x80) * 64 + (c - 0x80))) (points rest)
      | false ↦ none
    ]
  ]
]

-- The units of UTF16 data, the lower byte first.
abbrev pub units : Bytes → List ℕ
units [] = []
units (low ∷ []) = []
units (low ∷ high ∷ rest) = (low + high * 256) ∷ units rest

abbrev pub replaced : List ℕ → List ℕ
replaced [] = []
replaced (u ∷ us) = (if is_surrogate u then 0xfffd else u) ∷ replaced us

abbrev pub IsBytes : Bytes → Type 0
IsBytes [] = Unit
IsBytes (b ∷ bs) = (b < 256) × IsBytes bs

points-one :
    (a : ℕ) (text : Bytes)
    → ltb a 0x80 ≡ true
    → points (a ∷ text) ≡ Option.map (◌∷◌ a) (points text)
unfolding points
points-one a [] h = rw h
points-one a (b ∷ []) h = rw (points, h)
points-one a (b ∷ c ∷ rest) h = rw (points, h)

points-two :
    (a b : ℕ) (text : Bytes)
    → ltb a 0x80 ≡ false
    → (is_lead 0xc0 0xe0 a && is_tail b) ≡ true
    → points (a ∷ b ∷ text) ≡ Option.map (◌∷◌ ((a - 0xc0) * 64 + (b - 0x80))) (points text)
unfolding points
points-two a b [] h k = rw (points, h, k)
points-two a b (c ∷ rest) h k = rw (points, h, k)

points-three :
    (a b c : ℕ) (text : Bytes)
    → ltb a 0x80 ≡ false
    → (is_lead 0xc0 0xe0 a && is_tail b) ≡ false
    → (is_lead 0xe0 0xf0 a && is_tail b && is_tail c) ≡ true
    → points (a ∷ b ∷ c ∷ text)
      ≡ Option.map (◌∷◌ ((a - 0xe0) * 4096 + (b - 0x80) * 64 + (c - 0x80))) (points text)
unfolding points
points-three a b c text h k l = rw (points, h, k, l)

-- One encoded code point, with text behind it.
points-encode_rune :
    (r : ℕ) (text : Bytes)
    → r < 0x10000
    → points (encode_rune r ++ text) ≡ Option.map (◌∷◌ r) (points text)
unfolding encode_rune
points-encode_rune r text h = elim (Bool-cases (ltb r 0x80)) [
  | inl one ↦ rw one (points-one r text one)
  | inr more ↦ elim (Bool-cases (ltb r 0x800)) [
    | inl two ↦
        rw (more, two)
          (points-two _ _ text (ground arith) (ground arith)
            ∙ ap (λ u. Option.map (◌∷◌ u) (points text)) (ground arith))
    | inr three ↦
        rw (more, three)
          (points-three _ _ _ text (ground arith) (ground arith) (ground arith)
            ∙ ap (λ u. Option.map (◌∷◌ u) (points text)) (ground arith))
  ]
]

convert-points :
    (data_bytes : Bytes)
    → IsBytes data_bytes
    → length data_bytes % 2 ≡ 0
    → (text : Bytes) × (convert data_bytes ≡ value text)
      × (points text ≡ some (replaced (units data_bytes)))
unfolding convert
convert-points [] b e = ([], refl, unfold points in refl)
convert-points (low ∷ []) b e = absurd (omega arith)
convert-points (low ∷ high ∷ rest) (l, (h, b)) e =
    let (text, converted, says) = convert-points rest b (omega arith) in
    (
      _,
      rw converted refl,
      points-encode_rune (decode_unit (low + high * 256)) text (unfold decode_unit in ground arith)
          ∙ rw says (unfold decode_unit in refl),
    )

-- Utf8 returns binary and UTF8 data as it is. Of UTF16 data it is an error exactly if their length is
-- odd, and otherwise text that stands for the units of the data one by one, each half of a surrogate
-- pair replaced by the code point 0xFFFD.
pub utf8_text-points :
    (content : Bytes)
    → IsBytes content
    → (utf8_text (record { encoding = binary; bytes = content }) ≡ value (some content))
      × (utf8_text (record { encoding = utf8; bytes = content }) ≡ value (some content))
      × (length content % 2 ≡ 1
          → utf8_text (record { encoding = utf16; bytes = content }) ≡ value none)
      × (length content % 2 ≡ 0
          → (text : Bytes) × (utf8_text (record { encoding = utf16; bytes = content })
              ≡ value (some text))
            × (points text ≡ some (replaced (units content))))
unfolding utf8_text
utf8_text-points content b = (
  refl,
  refl,
  (λ odd. ground (arith, odd)),
  λ even.
      let (text, converted, says) = convert-points content b even in
      (text, simp (even, converted), says),
)
