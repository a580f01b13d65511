-- ===== src/Message/Whole.antt =====
-- What the parsers read from a message that is laid out as documented.
use webwire_go.Base.{
  length, length-append, take-append, ℕ, ◌+◌, ◌≡◌, refl, [], ◌∷◌, ◌++◌, append_assoc, arith,
}
use webwire_go.Message.Bodies.{read_identifier}
use webwire_go.Message.Memory.{read_identifier-eq_value}
use webwire_go.Runtime.{
  Bytes, value, slice, slice_from, read_byte, slice-append, slice_from-append, read_byte-append,
}

-- A message with an identifier, a length flag, a text of that length and something behind it.
abbrev pub named_message : ℕ → Bytes → Bytes → Bytes → Bytes
named_message kind identifier name tail = kind ∷ (identifier ++ (length name ∷ (name ++ tail)))

module _ (kind : ℕ) (identifier name tail : Bytes) (id_length : length identifier ≡ 8) where
  abbrev whole : Bytes
  whole = named_message kind identifier name tail

  abbrev header : Bytes
  header = (kind ∷ identifier) ++ (length name ∷ [])

  split_header : whole ≡ header ++ (name ++ tail)
  split_header = simp append_assoc

  length-header : length header ≡ 10
  length-header = omega (arith, length-append (kind ∷ identifier) (length name ∷ []))

  pub length-named_message : length whole ≡ 10 + length name + length tail
  length-named_message =
      omega
        (arith, length-append identifier (length name ∷ (name ++ tail)), length-append name tail)

  pub named_message-identifier : read_identifier whole ≡ value identifier
  named_message-identifier = rw (
    read_identifier-eq_value whole (omega (arith, length-named_message)),
    take-append identifier (length name ∷ (name ++ tail)) 8 id_length,
  )

  pub named_message-flag : read_byte whole 9 ≡ value (length name)
  named_message-flag =
      read_byte-append (kind ∷ identifier) (name ++ tail) (length name) 9 (omega arith)

  pub named_message-name : slice whole 10 (10 + length name) ≡ value name
  named_message-name =
      rw split_header
        (slice-append header name tail 10 (10 + length name) (omega (arith, length-header)) refl)

  pub named_message-body : slice_from whole 10 ≡ value (name ++ tail)
  named_message-body =
      rw split_header (slice_from-append header (name ++ tail) 10 (omega (arith, length-header)))

  pub named_message-tail : slice_from whole (10 + length name) ≡ value tail
  named_message-tail =
      rw (split_header, ← append_assoc header name tail)
        (slice_from-append (header ++ name) tail (10 + length name)
          (omega (arith, length-header, length-append header name)))

-- A signal: as above, with no identifier.
abbrev pub named_signal : ℕ → Bytes → Bytes → Bytes
named_signal kind name tail = kind ∷ (length name ∷ (name ++ tail))

module _ (kind : ℕ) (name tail : Bytes) where
  abbrev whole_signal : Bytes
  whole_signal = named_signal kind name tail

  pub length-named_signal : length whole_signal ≡ 2 + length name + length tail
  length-named_signal = omega (arith, length-append name tail)

  pub named_signal-flag : read_byte whole_signal 1 ≡ value (length name)
  named_signal-flag = read_byte-append (kind ∷ []) (name ++ tail) (length name) 1 refl

  pub named_signal-name : slice whole_signal 2 (2 + length name) ≡ value name
  named_signal-name = slice-append (kind ∷ length name ∷ []) name tail 2 (2 + length name) refl refl

  pub named_signal-body : slice_from whole_signal 2 ≡ value (name ++ tail)
  named_signal-body = slice_from-append (kind ∷ length name ∷ []) (name ++ tail) 2 refl

  pub named_signal-tail : slice_from whole_signal (2 + length name) ≡ value tail
  named_signal-tail =
      rw (← append_assoc (kind ∷ length name ∷ []) name tail)
        (slice_from-append (kind ∷ length name ∷ name) tail (2 + length name) (omega arith))

-- Behind one byte of padding.
pub named_message-padded :
    (kind : ℕ) (identifier name content : Bytes) (pad : ℕ)
    → length identifier ≡ 8
    → slice_from (named_message kind identifier name (pad ∷ content)) (10 + length name + 1)
      ≡ value content
named_message-padded kind identifier name content pad id_length =
    let front : Bytes = ((kind ∷ identifier) ++ (length name ∷ name)) ++ (pad ∷ []) in
    let split : named_message kind identifier name (pad ∷ content) ≡ front ++ content =
      simp append_assoc in
    rw split (
      slice_from-append front content (10 + length name + 1) (
        omega (
          arith,
          length-append ((kind ∷ identifier) ++ (length name ∷ name)) (pad ∷ []),
          length-append (kind ∷ identifier) (length name ∷ name),
        )))

pub named_signal-padded :
    (kind : ℕ) (name content : Bytes) (pad : ℕ)
    → slice_from (named_signal kind name (pad ∷ content)) (2 + length name + 1) ≡ value content
named_signal-padded kind name content pad =
    let front : Bytes = (kind ∷ length name ∷ name) ++ (pad ∷ []) in
    let split : named_signal kind name (pad ∷ content) ≡ front ++ content = simp append_assoc in
    rw split (
      slice_from-append front content (2 + length name + 1)
        (omega (arith, length-append (kind ∷ length name ∷ name) (pad ∷ []))))

-- A message of a type, an identifier and something behind it: replies, and requests with no name.
abbrev pub plain_message : ℕ → Bytes → Bytes → Bytes
plain_message kind identifier tail = kind ∷ (identifier ++ tail)

module _ (kind : ℕ) (identifier tail : Bytes) (id_length : length identifier ≡ 8) where
  abbrev whole_plain : Bytes
  whole_plain = plain_message kind identifier tail

  pub length-plain_message : length whole_plain ≡ 9 + length tail
  length-plain_message = omega (arith, length-append identifier tail)

  pub plain_message-identifier : read_identifier whole_plain ≡ value identifier
  plain_message-identifier = rw (
    read_identifier-eq_value whole_plain (omega (arith, length-plain_message)),
    take-append identifier tail 8 id_length,
  )

  pub plain_message-tail : slice_from whole_plain 9 ≡ value tail
  plain_message-tail = slice_from-append (kind ∷ identifier) tail 9 (omega arith)

pub plain_message-padded :
    (kind : ℕ) (identifier content : Bytes) (pad : ℕ)
    → length identifier ≡ 8
    → slice_from (plain_message kind identifier (pad ∷ content)) 10 ≡ value content
plain_message-padded kind identifier content pad id_length =
    let front : Bytes = (kind ∷ identifier) ++ (pad ∷ []) in
    let split : plain_message kind identifier (pad ∷ content) ≡ front ++ content =
      simp append_assoc in
    rw split (
      slice_from-append front content 10
        (omega (arith, length-append (kind ∷ identifier) (pad ∷ []))))
