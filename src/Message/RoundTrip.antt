-- ===== src/Message/RoundTrip.antt =====
-- What the constructors of message/new*.go compose, `Parse` of message/parse.go reads back.
use webwire_go.Base.{
  ◌==◌, Bool-cases, length, ℕ, ◌%◌, ◌≤◌, ◌≡◌, refl, inl, inr, true, none, some, [], ◌∷◌, append-nil,
  arith,
}
use webwire_go.Message.{msg_error_reply, msg_restore_session, zero_message}
use webwire_go.Message.Compose.{
  request_type, signal_type, reply_type, new_request_message, new_signal_message, new_reply_message,
  new_error_reply_message, new_nameless_request_message, is_special,
  new_special_request_reply_message,
}
use webwire_go.Message.Layout.{
  request_layout, signal_layout, reply_layout, new_nameless_request_message-layout,
  new_special_request_reply_message-layout,
}
use webwire_go.Message.Parse.{
  Form, error_reply, restore, special, signal, request, reply, form_of, payload_encoding,
  parse_form, Parsed, parse_kind, parse,
}
use webwire_go.Message.Reading.{
  parse_request-named_message, parse_request_utf16-even_name, parse_request_utf16-odd_name,
  parse_error_reply-named_message, parse_reply-plain_message, parse_reply_utf16-plain_message,
  parse_restore_session-plain_message, parse_special_reply_message-plain_message,
  parse_signal-named_signal, parse_signal_utf16-even_name, parse_signal_utf16-odd_name,
}
use webwire_go.Message.Validity.{
  IsAligned, IsRequest, IsSignal, new_request_message-eq_value, new_error_reply_message-eq_value,
  new_reply_message-eq_value, new_signal_message-eq_value,
}
use webwire_go.Message.Whole.{plain_message}
use webwire_go.Payload.{Encoding, binary, utf8, utf16}
use webwire_go.Runtime.{Bytes, value, make, read_byte-append}

abbrev pub received : ℕ → Bytes → Bytes → Encoding → Bytes → Parsed
received kind identifier name encoding content = record {
  message = record {
    kind = kind;
    identifier = identifier;
    name = name;
    payload = record { encoding = encoding; bytes = content };
  };
  type_parsed = true;
  error = none;
}

pub parse-of_form :
    (kind : ℕ) (rest : Bytes) (form : Form) (identifier name : Bytes) (e : Encoding)
    (content : Bytes)
    → form_of kind ≡ some form
    → parse_form form zero_message (kind ∷ rest)
      ≡ value (
        record {
          kind = 0;
          identifier = identifier;
          name = name;
          payload = record { encoding = e; bytes = content };
        },
        none,
      )
    → parse zero_message (kind ∷ rest)
      ≡ value (received kind identifier name (payload_encoding form) content)
unfolding parse parse_kind
parse-of_form kind rest form identifier name e content hk hf =
    rw (read_byte-append [] rest kind 0 refl, hk, parse_kind, hf) (ground arith)

module _ (identifier : Bytes) (id_length : length identifier ≡ 8) where
  parse-request_layout :
      (name : Bytes) (encoding : Encoding) (content : Bytes)
      → IsRequest name encoding content
      → parse zero_message (request_layout identifier name encoding content)
        ≡ value (received (request_type encoding) identifier name encoding content)
  unfolding form_of parse_form
  parse-request_layout name binary content v =
      parse-of_form _ _ (request binary) identifier name binary content refl
        (parse_request-named_message _ identifier id_length name content v.something)
  parse-request_layout name utf8 content v =
      parse-of_form _ _ (request utf8) identifier name binary content refl
        (parse_request-named_message _ identifier id_length name content v.something)
  parse-request_layout name utf16 content v = elim (Bool-cases (length name % 2 == 0)) [
    | inl even ↦ rw even (
        parse-of_form _ _ (request utf16) identifier name binary content refl (
          parse_request_utf16-even_name _ identifier id_length name content (ground arith) v.aligned
            v.something))
    | inr odd ↦ rw odd (
        parse-of_form _ _ (request utf16) identifier name binary content refl (
          parse_request_utf16-odd_name _ identifier id_length name content 0 (ground arith)
            v.aligned))
  ]

  -- Whatever `NewRequestMessage` returns, `Parse` accepts and takes apart again: the type for the
  -- encoding, the identifier, the name and the payload.
  pub parse-new_request_message :
      (name : Bytes) (encoding : Encoding) (content m : Bytes)
      → new_request_message identifier name encoding content ≡ value m
      → parse zero_message m
        ≡ value (received (request_type encoding) identifier name encoding content)
  parse-new_request_message name encoding content m h =
      let (v, e) =
        (new_request_message-eq_value identifier id_length name encoding content m).0 h in
      rw e (parse-request_layout name encoding content v)

  parse-reply_layout :
      (encoding : Encoding) (content : Bytes)
      → IsAligned encoding content
      → parse zero_message (reply_layout identifier encoding content)
        ≡ value (received (reply_type encoding) identifier [] encoding content)
  unfolding form_of parse_form
  parse-reply_layout binary content v =
      parse-of_form _ _ (reply binary) identifier [] binary content refl
        (parse_reply-plain_message _ identifier id_length content)
  parse-reply_layout utf8 content v =
      parse-of_form _ _ (reply utf8) identifier [] binary content refl
        (parse_reply-plain_message _ identifier id_length content)
  parse-reply_layout utf16 content v =
      let (e, read) = parse_reply_utf16-plain_message _ identifier id_length content 0 v in
      parse-of_form _ _ (reply utf16) identifier [] e content refl read

  -- Whatever `NewReplyMessage` returns, `Parse` accepts and takes apart again: the type for the
  -- encoding, the identifier and the payload, be it empty or not.
  pub parse-new_reply_message :
      (encoding : Encoding) (content m : Bytes)
      → new_reply_message identifier encoding content ≡ value m
      → parse zero_message m ≡ value (received (reply_type encoding) identifier [] encoding content)
  parse-new_reply_message encoding content m h =
      let (v, e) = (new_reply_message-eq_value identifier id_length encoding content m).0 h in
      rw e (parse-reply_layout encoding content v)

  -- Whatever `NewErrorReplyMessage` returns, `Parse` accepts: the code becomes the name and the text
  -- the payload. The payload is labelled binary, not UTF8.
  pub parse-new_error_reply_message :
      (code text m : Bytes)
      → new_error_reply_message identifier code text ≡ value m
      → parse zero_message m ≡ value (received msg_error_reply identifier code binary text)
  unfolding form_of parse_form
  parse-new_error_reply_message code text m h =
      let (v, e) = (new_error_reply_message-eq_value identifier id_length code text m).0 h in
      rw e (
        parse-of_form _ _ error_reply identifier code utf8 text refl
          (parse_error_reply-named_message _ identifier id_length code text v.something))

  special_form : (kind : ℕ) → is_special kind ≡ true → form_of kind ≡ some special
  unfolding form_of
  special_form kind h = ground arith

  -- `NewSpecialRequestReplyMessage` panics on a type that is not one of the six special replies;
  -- what it returns for one of those, `Parse` accepts, with its type and identifier.
  pub parse-new_special_request_reply_message :
      (kind : ℕ) (m : Bytes)
      → new_special_request_reply_message kind identifier ≡ value m
      → (is_special kind ≡ true)
        × (parse zero_message m ≡ value (received kind identifier [] binary []))
  unfolding parse_form
  parse-new_special_request_reply_message kind m h = elim (Bool-cases (is_special kind)) [
    | inl known ↦
        let e : m ≡ plain_message kind identifier [] = ground (
          arith,
          new_special_request_reply_message-layout identifier id_length kind,
          append-nil identifier,
        ) in
        (
          known,
          rw e (
              parse-of_form _ _ special identifier [] binary [] (special_form kind known)
                (parse_special_reply_message-plain_message kind identifier id_length [])),
        )
    | inr unknown ↦
        cc (h, new_special_request_reply_message-layout identifier id_length kind, unknown)
  ]

  -- A session restoration request carries the session key as its payload.
  pub parse-restore_request :
      (key m : Bytes)
      → 1 ≤ length key
      → new_nameless_request_message msg_restore_session identifier key ≡ value m
      → parse zero_message m ≡ value (received msg_restore_session identifier [] binary key)
  unfolding form_of parse_form
  parse-restore_request key m h c =
      let e : m ≡ plain_message msg_restore_session identifier key =
        cc (c, new_nameless_request_message-layout identifier id_length msg_restore_session key) in
      rw e (
        parse-of_form _ _ restore identifier [] binary key refl
          (parse_restore_session-plain_message _ identifier id_length key h))

parse-signal_layout :
    (name : Bytes) (encoding : Encoding) (content : Bytes)
    → IsSignal name encoding content
    → 1 ≤ length content
    → parse zero_message (signal_layout name encoding content)
      ≡ value (received (signal_type encoding) (make 8) name encoding content)
unfolding form_of parse_form
parse-signal_layout name binary content v h =
    parse-of_form _ _ (signal binary) (make 8) name binary content refl
      (parse_signal-named_signal _ name content h)
parse-signal_layout name utf8 content v h =
    parse-of_form _ _ (signal utf8) (make 8) name binary content refl
      (parse_signal-named_signal _ name content h)
parse-signal_layout name utf16 content v h = elim (Bool-cases (length name % 2 == 0)) [
  | inl even ↦ rw even (
      parse-of_form _ _ (signal utf16) (make 8) name binary content refl
        (parse_signal_utf16-even_name _ name content (ground arith) v.aligned h))
  | inr odd ↦ rw odd (
      parse-of_form _ _ (signal utf16) (make 8) name binary content refl
        (parse_signal_utf16-odd_name _ name content 0 (ground arith) v.aligned h))
]

-- What `NewSignalMessage` returns for a payload that is not empty, `Parse` accepts and takes apart
-- again; the identifier of a signal stays zero.
pub parse-new_signal_message :
    (name : Bytes) (encoding : Encoding) (content m : Bytes)
    → 1 ≤ length content
    → new_signal_message name encoding content ≡ value m
    → parse zero_message m ≡ value (received (signal_type encoding) (make 8) name encoding content)
parse-new_signal_message name encoding content m h c =
    let (v, e) = (new_signal_message-eq_value name encoding content m).0 c in
    rw e (parse-signal_layout name encoding content v h)
