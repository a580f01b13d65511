-- ===== src/Message/Validity.antt =====
-- When a constructor of message/new*.go returns a message, and which one.
use webwire_go.Base.{
  ◌==◌, length, ℕ, ◌+◌, ◌%◌, ◌≤◌, ◌≡◌, refl, ◌↔◌, false, not, ◌&&◌, Option, none, some, List, [],
  ◌∷◌, arith,
}
use webwire_go.Message.Compose.{
  is_utf16, new_request_message, new_signal_message, new_reply_message, new_error_reply_message,
}
use webwire_go.Message.Layout.{
  request_layout, signal_layout, reply_layout, error_reply_layout, fill_request-layout,
  fill_error_reply-layout, fill_reply-layout, fill_signal-layout,
}
use webwire_go.Payload.{Encoding, binary, utf8, utf16}
use webwire_go.Runtime.{Bytes, value}
use webwire_go.Runtime.Buffers.{first_unsupported, checked}

module _ {ℓ} {A : Type ℓ} where
  abbrev pub All {κ} : (A → Type κ) → List A → Type κ
  All P [] = Unit {κ}
  All P (x ∷ xs) = P x × All P xs

-- 7-bit ASCII with no control character.
abbrev pub IsPrintable : Bytes → Type 0
IsPrintable = All (λ c. (32 ≤ c) × (c ≤ 126))

-- UTF16 code units come in pairs of bytes.
abbrev pub IsAligned : Encoding → Bytes → Type 0
IsAligned utf16 content = length content % 2 ≡ 0
IsAligned _ content = Unit {0}

first_unsupported-eq_none : (name : Bytes) → first_unsupported name ≡ none → IsPrintable name
unfolding first_unsupported
first_unsupported-eq_none [] h = tt
first_unsupported-eq_none (c ∷ cs) h = ground (arith, first_unsupported-eq_none cs)

IsPrintable-first_unsupported : (name : Bytes) → IsPrintable name → first_unsupported name ≡ none
unfolding first_unsupported
IsPrintable-first_unsupported [] h = refl
IsPrintable-first_unsupported (c ∷ cs) h = ground (arith, IsPrintable-first_unsupported cs h.1)

checked-eq_value :
    (name buf m : Bytes)
    → (checked (first_unsupported name) buf ≡ value m) ↔ (IsPrintable name × (m ≡ buf))
checked-eq_value name buf m = (to, from)
  where
    split :
        (o : Option ℕ)
        → first_unsupported name ≡ o
        → checked o buf ≡ value m
        → IsPrintable name × (m ≡ buf)
    split none e h = (first_unsupported-eq_none name e, cc)
    split (some c) e h = cc

    to : checked (first_unsupported name) buf ≡ value m → IsPrintable name × (m ≡ buf)
    to = split (first_unsupported name) refl

    from : IsPrintable name × (m ≡ buf) → checked (first_unsupported name) buf ≡ value m
    from (p, e) = rw (IsPrintable-first_unsupported name p, e)

pub record IsRequest (name : Bytes) (encoding : Encoding) (content : Bytes) : Type 0 where
  pub something : 1 ≤ length name + length content
  pub short : length name ≤ 255
  pub aligned : IsAligned encoding content
  pub printable : IsPrintable name

pub record IsSignal (name : Bytes) (encoding : Encoding) (content : Bytes) : Type 0 where
  pub short : length name ≤ 255
  pub aligned : IsAligned encoding content
  pub printable : IsPrintable name

pub record IsErrorCode (code : Bytes) : Type 0 where
  pub something : 1 ≤ length code
  pub short : length code ≤ 255
  pub printable : IsPrintable code

-- The even length that the UTF16 check asks for.
IsAligned-iff :
    (encoding : Encoding) (content : Bytes)
    → ((is_utf16 encoding && not (length content % 2 == 0)) ≡ false) ↔ IsAligned encoding content
IsAligned-iff binary content = (λ h. tt, λ h. refl)
IsAligned-iff utf8 content = (λ h. tt, λ h. refl)
IsAligned-iff utf16 content = ground arith

module _ (identifier : Bytes) (id_length : length identifier ≡ 8) where
  -- `NewRequestMessage` returns exactly for a name or a payload, a printable name of at most 255
  -- bytes and an even payload if it is UTF16, and then it returns the documented layout.
  pub new_request_message-eq_value :
      (name : Bytes) (encoding : Encoding) (content m : Bytes)
      → (new_request_message identifier name encoding content ≡ value m)
        ↔ (IsRequest name encoding content × (m ≡ request_layout identifier name encoding content))
  unfolding new_request_message
  new_request_message-eq_value name encoding content m = (to, from)
    where
      buf : Bytes
      buf = request_layout identifier name encoding content

      to :
          new_request_message identifier name encoding content ≡ value m
          → IsRequest name encoding content × (m ≡ buf)
      to h = ground (
        arith,
        fill_request-layout identifier id_length name encoding content,
        (checked-eq_value name buf m).0,
        (IsAligned-iff encoding content).0,
      )

      from :
          IsRequest name encoding content × (m ≡ buf)
          → new_request_message identifier name encoding content ≡ value m
      from (v, e) = ground (
        arith,
        fill_request-layout identifier id_length name encoding content,
        (checked-eq_value name buf m).1,
        (IsAligned-iff encoding content).1,
      )

  -- `NewErrorReplyMessage` returns exactly for a printable code of 1 to 255 bytes, and then it
  -- returns the documented layout.
  pub new_error_reply_message-eq_value :
      (code text m : Bytes)
      → (new_error_reply_message identifier code text ≡ value m)
        ↔ (IsErrorCode code × (m ≡ error_reply_layout identifier code text))
  unfolding new_error_reply_message
  new_error_reply_message-eq_value code text m = (to, from)
    where
      buf : Bytes
      buf = error_reply_layout identifier code text

      to : new_error_reply_message identifier code text ≡ value m → IsErrorCode code × (m ≡ buf)
      to h = ground (
        arith,
        fill_error_reply-layout identifier id_length code text,
        (checked-eq_value code buf m).0,
      )

      from : IsErrorCode code × (m ≡ buf) → new_error_reply_message identifier code text ≡ value m
      from (v, e) = ground (
        arith,
        fill_error_reply-layout identifier id_length code text,
        (checked-eq_value code buf m).1,
      )

  -- `NewReplyMessage` returns exactly if a UTF16 payload is even, and then it returns the documented
  -- layout.
  pub new_reply_message-eq_value :
      (encoding : Encoding) (content m : Bytes)
      → (new_reply_message identifier encoding content ≡ value m)
        ↔ (IsAligned encoding content × (m ≡ reply_layout identifier encoding content))
  unfolding new_reply_message
  new_reply_message-eq_value encoding content m = (
    λ h. ground (
      arith,
      fill_reply-layout identifier id_length encoding content,
      (IsAligned-iff encoding content).0,
    ),
    λ h. ground (
      arith,
      fill_reply-layout identifier id_length encoding content,
      (IsAligned-iff encoding content).1,
    ),
  )

-- `NewSignalMessage` returns exactly for a printable name of at most 255 bytes and an even payload
-- if it is UTF16, and then it returns the documented layout.
pub new_signal_message-eq_value :
    (name : Bytes) (encoding : Encoding) (content m : Bytes)
    → (new_signal_message name encoding content ≡ value m)
      ↔ (IsSignal name encoding content × (m ≡ signal_layout name encoding content))
unfolding new_signal_message
new_signal_message-eq_value name encoding content m = (to, from)
  where
    buf : Bytes
    buf = signal_layout name encoding content

    to :
        new_signal_message name encoding content ≡ value m
        → IsSignal name encoding content × (m ≡ buf)
    to h = ground (
      arith,
      fill_signal-layout name encoding content,
      (checked-eq_value name buf m).0,
      (IsAligned-iff encoding content).0,
    )

    from :
        IsSignal name encoding content × (m ≡ buf)
        → new_signal_message name encoding content ≡ value m
    from (v, e) = ground (
      arith,
      fill_signal-layout name encoding content,
      (checked-eq_value name buf m).1,
      (IsAligned-iff encoding content).1,
    )
