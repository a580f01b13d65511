-- ===== src/Message/Reading.antt =====
-- What the parsers of message/parse.go make of a message that is laid out as documented.
use webwire_go.Base.{length, ℕ, ◌+◌, ◌%◌, ◌≤◌, ◌≡◌, none, [], ◌∷◌, arith}
use webwire_go.Message.{Message, zero_message}
use webwire_go.Message.Bodies.{
  raw, parse_signal, parse_signal_utf16, parse_request_body, parse_request,
  parse_request_utf16_body, parse_request_utf16, parse_reply, parse_reply_utf16, parse_error_reply,
  parse_restore_session, parse_close_session, parse_special_reply_message,
}
use webwire_go.Message.Whole.{
  named_message, length-named_message, named_message-identifier, named_message-flag,
  named_message-name, named_message-body, named_message-tail, named_signal, length-named_signal,
  named_signal-flag, named_signal-name, named_signal-body, named_signal-tail, named_message-padded,
  named_signal-padded, plain_message, length-plain_message, plain_message-identifier,
  plain_message-tail, plain_message-padded,
}
use webwire_go.Payload.{Encoding, binary, utf8, utf16}
use webwire_go.Runtime.{Bytes, value, make}

-- The message that a parser has filled, starting from the zero value.
abbrev pub filled : Bytes → Bytes → Bytes → Message
filled identifier name content = record {
  kind = 0;
  identifier = identifier;
  name = name;
  payload = raw content;
}

module _ (kind : ℕ) (identifier : Bytes) (id_length : length identifier ≡ 8) where
  pub parse_request-named_message :
      (name content : Bytes)
      → 1 ≤ length name + length content
      → parse_request zero_message (named_message kind identifier name content)
        ≡ value (filled identifier name content, none)
  unfolding parse_request parse_request_body
  parse_request-named_message [] content h = ground (
    arith,
    length-named_message kind identifier [] content id_length,
    named_message-identifier kind identifier [] content id_length,
    named_message-flag kind identifier [] content id_length,
    named_message-body kind identifier [] content id_length,
  )
  parse_request-named_message (c ∷ cs) [] h = ground (
    arith,
    length-named_message kind identifier (c ∷ cs) [] id_length,
    named_message-identifier kind identifier (c ∷ cs) [] id_length,
    named_message-flag kind identifier (c ∷ cs) [] id_length,
    named_message-name kind identifier (c ∷ cs) [] id_length,
  )
  parse_request-named_message (c ∷ cs) (b ∷ bs) h = ground (
    arith,
    length-named_message kind identifier (c ∷ cs) (b ∷ bs) id_length,
    named_message-identifier kind identifier (c ∷ cs) (b ∷ bs) id_length,
    named_message-flag kind identifier (c ∷ cs) (b ∷ bs) id_length,
    named_message-name kind identifier (c ∷ cs) (b ∷ bs) id_length,
    named_message-tail kind identifier (c ∷ cs) (b ∷ bs) id_length,
  )

  -- The padding byte is there exactly if the name has an odd length.
  pub parse_request_utf16-even_name :
      (name content : Bytes)
      → length name % 2 ≡ 0
      → length content % 2 ≡ 0
      → 1 ≤ length name + length content
      → parse_request_utf16 zero_message (named_message kind identifier name content)
        ≡ value (filled identifier name content, none)
  unfolding parse_request_utf16 parse_request_utf16_body
  parse_request_utf16-even_name [] content hn hc h = ground (
    arith,
    length-named_message kind identifier [] content id_length,
    named_message-identifier kind identifier [] content id_length,
    named_message-flag kind identifier [] content id_length,
    named_message-body kind identifier [] content id_length,
  )
  parse_request_utf16-even_name (c ∷ cs) [] hn hc h = ground (
    arith,
    length-named_message kind identifier (c ∷ cs) [] id_length,
    named_message-identifier kind identifier (c ∷ cs) [] id_length,
    named_message-flag kind identifier (c ∷ cs) [] id_length,
    named_message-name kind identifier (c ∷ cs) [] id_length,
  )
  parse_request_utf16-even_name (c ∷ cs) (b ∷ bs) hn hc h = ground (
    arith,
    length-named_message kind identifier (c ∷ cs) (b ∷ bs) id_length,
    named_message-identifier kind identifier (c ∷ cs) (b ∷ bs) id_length,
    named_message-flag kind identifier (c ∷ cs) (b ∷ bs) id_length,
    named_message-name kind identifier (c ∷ cs) (b ∷ bs) id_length,
    named_message-tail kind identifier (c ∷ cs) (b ∷ bs) id_length,
  )

  pub parse_request_utf16-odd_name :
      (name content : Bytes) (pad : ℕ)
      → length name % 2 ≡ 1
      → length content % 2 ≡ 0
      → parse_request_utf16 zero_message (named_message kind identifier name (pad ∷ content))
        ≡ value (filled identifier name content, none)
  unfolding parse_request_utf16 parse_request_utf16_body
  parse_request_utf16-odd_name name [] pad hn hc = ground (
    arith,
    length-named_message kind identifier name (pad ∷ []) id_length,
    named_message-identifier kind identifier name (pad ∷ []) id_length,
    named_message-flag kind identifier name (pad ∷ []) id_length,
    named_message-name kind identifier name (pad ∷ []) id_length,
  )
  parse_request_utf16-odd_name name (b ∷ bs) pad hn hc = ground (
    arith,
    length-named_message kind identifier name (pad ∷ b ∷ bs) id_length,
    named_message-identifier kind identifier name (pad ∷ b ∷ bs) id_length,
    named_message-flag kind identifier name (pad ∷ b ∷ bs) id_length,
    named_message-name kind identifier name (pad ∷ b ∷ bs) id_length,
    named_message-padded kind identifier name (b ∷ bs) pad id_length,
  )

  pub parse_error_reply-named_message :
      (code text : Bytes)
      → 1 ≤ length code
      → parse_error_reply zero_message (named_message kind identifier code text)
        ≡ value (
          record (filled identifier code text) {
            payload = record { encoding = utf8; bytes = text };
          },
          none,
        )
  unfolding parse_error_reply
  parse_error_reply-named_message code text h = ground (
    arith,
    length-named_message kind identifier code text id_length,
    named_message-identifier kind identifier code text id_length,
    named_message-flag kind identifier code text id_length,
    named_message-name kind identifier code text id_length,
    named_message-tail kind identifier code text id_length,
  )

  pub parse_reply-plain_message :
      (content : Bytes)
      → parse_reply zero_message (plain_message kind identifier content)
        ≡ value (filled identifier [] content, none)
  unfolding parse_reply
  parse_reply-plain_message [] = ground (
    arith,
    length-plain_message kind identifier [] id_length,
    plain_message-identifier kind identifier [] id_length,
  )
  parse_reply-plain_message (b ∷ bs) = ground (
    arith,
    length-plain_message kind identifier (b ∷ bs) id_length,
    plain_message-identifier kind identifier (b ∷ bs) id_length,
    plain_message-tail kind identifier (b ∷ bs) id_length,
  )

  pub parse_reply_utf16-plain_message :
      (content : Bytes) (pad : ℕ)
      → length content % 2 ≡ 0
      → (e : Encoding) × (parse_reply_utf16 zero_message
            (plain_message kind identifier (pad ∷ content))
          ≡ value (
            record (filled identifier [] content) {
              payload = record { encoding = e; bytes = content };
            },
            none,
          ))
  unfolding parse_reply_utf16
  parse_reply_utf16-plain_message [] pad hc = (
    utf16,
    ground (
      arith,
      length-plain_message kind identifier (pad ∷ []) id_length,
      plain_message-identifier kind identifier (pad ∷ []) id_length,
    ),
  )
  parse_reply_utf16-plain_message (b ∷ bs) pad hc = (
    binary,
    ground (
      arith,
      length-plain_message kind identifier (pad ∷ b ∷ bs) id_length,
      plain_message-identifier kind identifier (pad ∷ b ∷ bs) id_length,
      plain_message-padded kind identifier (b ∷ bs) pad id_length,
    ),
  )

  pub parse_restore_session-plain_message :
      (content : Bytes)
      → 1 ≤ length content
      → parse_restore_session zero_message (plain_message kind identifier content)
        ≡ value (filled identifier [] content, none)
  unfolding parse_restore_session
  parse_restore_session-plain_message content h = ground (
    arith,
    length-plain_message kind identifier content id_length,
    plain_message-identifier kind identifier content id_length,
    plain_message-tail kind identifier content id_length,
  )

  pub parse_close_session-plain_message :
      parse_close_session zero_message (plain_message kind identifier [])
      ≡ value (filled identifier [] [], none)
  unfolding parse_close_session
  parse_close_session-plain_message = ground (
    arith,
    length-plain_message kind identifier [] id_length,
    plain_message-identifier kind identifier [] id_length,
  )

  pub parse_special_reply_message-plain_message :
      (tail : Bytes)
      → parse_special_reply_message zero_message (plain_message kind identifier tail)
        ≡ value (filled identifier [] [], none)
  unfolding parse_special_reply_message
  parse_special_reply_message-plain_message tail = ground (
    arith,
    length-plain_message kind identifier tail id_length,
    plain_message-identifier kind identifier tail id_length,
  )

-- The identifier of a signal stays the zero value.
module _ (kind : ℕ) where
  pub parse_signal-named_signal :
      (name content : Bytes)
      → 1 ≤ length content
      → parse_signal zero_message (named_signal kind name content)
        ≡ value (filled (make 8) name content, none)
  unfolding parse_signal
  parse_signal-named_signal [] content h = ground (
    arith,
    length-named_signal kind [] content,
    named_signal-flag kind [] content,
    named_signal-body kind [] content,
  )
  parse_signal-named_signal (c ∷ cs) content h = ground (
    arith,
    length-named_signal kind (c ∷ cs) content,
    named_signal-flag kind (c ∷ cs) content,
    named_signal-name kind (c ∷ cs) content,
    named_signal-tail kind (c ∷ cs) content,
  )

  pub parse_signal_utf16-even_name :
      (name content : Bytes)
      → length name % 2 ≡ 0
      → length content % 2 ≡ 0
      → 1 ≤ length content
      → parse_signal_utf16 zero_message (named_signal kind name content)
        ≡ value (filled (make 8) name content, none)
  unfolding parse_signal_utf16
  parse_signal_utf16-even_name [] content hn hc h = ground (
    arith,
    length-named_signal kind [] content,
    named_signal-flag kind [] content,
    named_signal-body kind [] content,
  )
  parse_signal_utf16-even_name (c ∷ cs) content hn hc h = ground (
    arith,
    length-named_signal kind (c ∷ cs) content,
    named_signal-flag kind (c ∷ cs) content,
    named_signal-name kind (c ∷ cs) content,
    named_signal-tail kind (c ∷ cs) content,
  )

  pub parse_signal_utf16-odd_name :
      (name content : Bytes) (pad : ℕ)
      → length name % 2 ≡ 1
      → length content % 2 ≡ 0
      → 1 ≤ length content
      → parse_signal_utf16 zero_message (named_signal kind name (pad ∷ content))
        ≡ value (filled (make 8) name content, none)
  unfolding parse_signal_utf16
  parse_signal_utf16-odd_name name content pad hn hc h = ground (
    arith,
    length-named_signal kind name (pad ∷ content),
    named_signal-flag kind name (pad ∷ content),
    named_signal-name kind name (pad ∷ content),
    named_signal-padded kind name content pad,
  )
