-- ===== src/Message/Compose.antt =====
-- The constructors of binary messages: message/new*.go. A buffer is made, and each part is written
-- into it at an index; a write out of range and each call of `panic` end the call.
use webwire_go.Base.{
  ltb, ◌==◌, if◌then◌else◌, length, ℕ, ◌+◌, ◌%◌, Bool, true, false, not, ◌&&◌, ◌||◌,
}
use webwire_go.Message.{
  msg_error_reply, msg_reply_shutdown, msg_internal_error, msg_session_not_found,
  msg_max_sess_conns_reached, msg_sessions_disabled, msg_reply_protocol_error, msg_signal_binary,
  msg_signal_utf8, msg_signal_utf16, msg_request_binary, msg_request_utf8, msg_request_utf16,
  msg_reply_binary, msg_reply_utf8, msg_reply_utf16,
}
use webwire_go.Payload.{Encoding, binary, utf8, utf16}
use webwire_go.Runtime.{
  Bytes, missing_name_and_payload, name_too_long, odd_utf16_payload, missing_error_code,
  error_code_too_long, not_a_special_reply, Go, value, panic, ◌>>=◌, write, make,
}
use webwire_go.Runtime.Buffers.{write_bytes, write_name}

abbrev pub is_utf16 : Encoding → Bool
is_utf16 utf16 = true
is_utf16 _ = false

-- `payloadEncoding == pld.Utf16 && len(name)%2 != 0`
abbrev pub needs_padding : Encoding → Bytes → Bool
needs_padding e name = is_utf16 e && not (length name % 2 == 0)

abbrev pub request_type : Encoding → ℕ
request_type binary = msg_request_binary
request_type utf8 = msg_request_utf8
request_type utf16 = msg_request_utf16

abbrev pub signal_type : Encoding → ℕ
signal_type binary = msg_signal_binary
signal_type utf8 = msg_signal_utf8
signal_type utf16 = msg_signal_utf16

abbrev pub reply_type : Encoding → ℕ
reply_type binary = msg_reply_binary
reply_type utf8 = msg_reply_utf8
reply_type utf16 = msg_reply_utf16

-- `msg[payloadOffset] = 0`, if a header padding is necessary.
unfoldable pub write_padding : Bool → Bytes → ℕ → Go Bytes
write_padding padded msg i = if padded then write msg i 0 else value msg

-- `NewRequestMessage` after its checks.
unfoldable pub fill_request : Bytes → Bytes → Encoding → Bytes → Go Bytes
fill_request identifier name encoding content = do
  let padded = needs_padding encoding name
  let size = 10 + length name + length content
  let message_size = if padded then size + 1 else size
  let payload_offset = if padded then 10 + length name + 1 else 10 + length name
  typed ← write (make message_size) 0 (request_type encoding)
  identified ← write_bytes typed 1 identifier
  flagged ← write identified 9 (length name % 256)
  named ← write_name flagged 10 name
  aligned ← write_padding padded named (10 + length name)
  write_bytes aligned payload_offset content

unfoldable pub new_request_message : Bytes → Bytes → Encoding → Bytes → Go Bytes
new_request_message identifier name encoding content =
    if ltb (length name) 1 && ltb (length content) 1
    then panic missing_name_and_payload
    else if ltb 255 (length name)
    then panic (name_too_long (length name))
    else if is_utf16 encoding && not (length content % 2 == 0)
    then panic (odd_utf16_payload (length content))
    else fill_request identifier name encoding content

-- `NewSignalMessage` after its checks.
unfoldable pub fill_signal : Bytes → Encoding → Bytes → Go Bytes
fill_signal name encoding content = do
  let padded = needs_padding encoding name
  let size = 2 + length name + length content
  let message_size = if padded then size + 1 else size
  let payload_offset = if padded then 2 + length name + 1 else 2 + length name
  typed ← write (make message_size) 0 (signal_type encoding)
  flagged ← write typed 1 (length name % 256)
  named ← write_name flagged 2 name
  aligned ← write_padding padded named (2 + length name)
  write_bytes aligned payload_offset content

unfoldable pub new_signal_message : Bytes → Encoding → Bytes → Go Bytes
new_signal_message name encoding content =
    if ltb 255 (length name)
    then panic (name_too_long (length name))
    else if is_utf16 encoding && not (length content % 2 == 0)
    then panic (odd_utf16_payload (length content))
    else fill_signal name encoding content

-- `NewReplyMessage` after its check.
unfoldable pub fill_reply : Bytes → Encoding → Bytes → Go Bytes
fill_reply identifier encoding content = do
  let padded = is_utf16 encoding
  let message_size = if padded then 9 + length content + 1 else 9 + length content
  let payload_offset = if padded then 10 else 9
  typed ← write (make message_size) 0 (reply_type encoding)
  identified ← write_bytes typed 1 identifier
  aligned ← write_padding padded identified 9
  write_bytes aligned payload_offset content

unfoldable pub new_reply_message : Bytes → Encoding → Bytes → Go Bytes
new_reply_message identifier encoding content =
    if is_utf16 encoding && not (length content % 2 == 0)
    then panic (odd_utf16_payload (length content))
    else fill_reply identifier encoding content

-- `NewErrorReplyMessage` after its checks.
unfoldable pub fill_error_reply : Bytes → Bytes → Bytes → Go Bytes
fill_error_reply identifier code text = do
  typed ← write (make (10 + length code + length text)) 0 msg_error_reply
  identified ← write_bytes typed 1 identifier
  flagged ← write identified 9 (length code % 256)
  coded ← write_name flagged 10 code
  write_bytes coded (10 + length code) text

unfoldable pub new_error_reply_message : Bytes → Bytes → Bytes → Go Bytes
new_error_reply_message identifier code text =
    if ltb (length code) 1
    then panic missing_error_code
    else if ltb 255 (length code)
    then panic (error_code_too_long (length code))
    else fill_error_reply identifier code text

unfoldable pub new_empty_request_message : ℕ → Bytes → Go Bytes
new_empty_request_message kind identifier = do
  typed ← write (make 9) 0 kind
  write_bytes typed 1 identifier

unfoldable pub new_nameless_request_message : ℕ → Bytes → Bytes → Go Bytes
new_nameless_request_message kind identifier content = do
  typed ← write (make (9 + length content)) 0 kind
  identified ← write_bytes typed 1 identifier
  write_bytes identified 9 content

abbrev pub is_special : ℕ → Bool
is_special kind =
    kind == msg_internal_error
    || kind == msg_max_sess_conns_reached
    || kind == msg_session_not_found
    || kind == msg_sessions_disabled
    || kind == msg_reply_shutdown
    || kind == msg_reply_protocol_error

unfoldable pub new_special_request_reply_message : ℕ → Bytes → Go Bytes
new_special_request_reply_message kind identifier =
    if is_special kind
    then (do typed ← write (make 9) 0 kind; write_bytes typed 1 identifier)
    else panic (not_a_special_reply kind)
