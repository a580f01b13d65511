-- ===== src/Message/Silent.antt =====
-- Signals with no payload, which `NewSignalMessage` composes and `Parse` does not accept.
use webwire_go.Base.{
  ◌==◌, Bool-cases, length, ℕ, ◌%◌, ◌≤◌, ◌≡◌, refl, ◌≢◌, inl, inr, true, none, some, [], ◌∷◌, arith,
}
use webwire_go.Message.{zero_message}
use webwire_go.Message.Bodies.{
  ParseError, too_short, too_short_for_name, Outcome, parse_signal, parse_signal_utf16,
}
use webwire_go.Message.Compose.{new_signal_message}
use webwire_go.Message.Layout.{signal_layout}
use webwire_go.Message.Parse.{Form, signal, form_of, parse_form, label, Parsed, parse_kind, parse}
use webwire_go.Message.Validity.{IsPrintable, IsAligned, new_signal_message-eq_value}
use webwire_go.Message.Whole.{named_signal, length-named_signal, named_signal-flag}
use webwire_go.Payload.{Encoding, binary, utf8, utf16}
use webwire_go.Runtime.{Bytes, Go, value, read_byte-append}

-- The outcome of a parser that has found an error and has filled nothing.
abbrev Rejects : Go Outcome → Type 0
Rejects r = (e : ParseError) × (r ≡ value (zero_message, some e))

module _ (kind : ℕ) where
  parse_signal-Rejects :
      (name : Bytes) → Rejects (parse_signal zero_message (named_signal kind name []))
  unfolding parse_signal
  parse_signal-Rejects [] = (too_short, refl)
  parse_signal-Rejects (c ∷ cs) = (
    too_short_for_name (length (c ∷ cs)),
    ground (arith, length-named_signal kind (c ∷ cs) [], named_signal-flag kind (c ∷ cs) []),
  )

  parse_signal_utf16-even-Rejects :
      (name : Bytes)
      → length name % 2 ≡ 0
      → Rejects (parse_signal_utf16 zero_message (named_signal kind name []))
  unfolding parse_signal_utf16
  parse_signal_utf16-even-Rejects [] h = (too_short, refl)
  parse_signal_utf16-even-Rejects (c ∷ cs) h = (
    too_short_for_name (length (c ∷ cs)),
    ground (arith, length-named_signal kind (c ∷ cs) [], named_signal-flag kind (c ∷ cs) []),
  )

  parse_signal_utf16-odd-Rejects :
      (name : Bytes)
      → length name % 2 ≡ 1
      → Rejects (parse_signal_utf16 zero_message (named_signal kind name (0 ∷ [])))
  unfolding parse_signal_utf16
  parse_signal_utf16-odd-Rejects name h = (
    too_short_for_name (length name),
    ground (arith, length-named_signal kind name (0 ∷ []), named_signal-flag kind name (0 ∷ [])),
  )

parse_form-Rejects :
    (form : Form) (kind : ℕ) (rest : Bytes)
    → form_of kind ≡ some form
    → Rejects (parse_form form zero_message (kind ∷ rest))
    → (p : Parsed) × (parse zero_message (kind ∷ rest) ≡ value p)
      × (p.type_parsed ≡ true)
      × (p.error ≢ none)
unfolding parse parse_kind
parse_form-Rejects form kind rest hk (e, hf) = (
  record { message = label kind form zero_message; type_parsed = true; error = some e },
  rw (read_byte-append [] rest kind 0 refl, hk, parse_kind, hf) (ground arith),
  refl,
  λ h. cc,
)

signal_layout_rejects :
    (name : Bytes) (encoding : Encoding)
    → (p : Parsed) × (parse zero_message (signal_layout name encoding []) ≡ value p)
      × (p.type_parsed ≡ true)
      × (p.error ≢ none)
unfolding form_of parse_form
signal_layout_rejects name binary =
    parse_form-Rejects (signal binary) _ _ refl (parse_signal-Rejects _ name)
signal_layout_rejects name utf8 =
    parse_form-Rejects (signal utf8) _ _ refl (parse_signal-Rejects _ name)
signal_layout_rejects name utf16 = elim (Bool-cases (length name % 2 == 0)) [
  | inl even ↦ rw even (
      parse_form-Rejects (signal utf16) _ _ refl
        (parse_signal_utf16-even-Rejects _ name (ground arith)))
  | inr odd ↦ rw odd (
      parse_form-Rejects (signal utf16) _ _ refl
        (parse_signal_utf16-odd-Rejects _ name (ground arith)))
]

-- `NewSignalMessage` composes a signal of a valid name with no payload, and `Parse` reports an error
-- on what it composed, in each encoding.
silent_signal :
    (name : Bytes) (encoding : Encoding)
    → length name ≤ 255
    → IsPrintable name
    → (m : Bytes) × (new_signal_message name encoding [] ≡ value m)
      × ((p : Parsed) × (parse zero_message m ≡ value p)
          × (p.type_parsed ≡ true)
          × (p.error ≢ none))
silent_signal name encoding short printable = (
  signal_layout name encoding [],
  (new_signal_message-eq_value name encoding [] _).1
      (record { short = short; aligned = aligned_empty encoding; printable = printable }, refl),
  signal_layout_rejects name encoding,
)
  where
    aligned_empty : (e : Encoding) → IsAligned e []
    aligned_empty binary = tt
    aligned_empty utf8 = tt
    aligned_empty utf16 = refl
