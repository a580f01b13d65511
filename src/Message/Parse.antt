-- ===== src/Message/Parse.antt =====
-- message/parse.go: `Parse`, which chooses the parser by the first byte and then labels the message.
-- One constructor for each parser that `Parse` chooses from, with the payload encoding it sets.
use webwire_go.Base.{
  ltb, ◌==◌, if◌then◌else◌, length, ℕ, Bool, true, false, ◌||◌, Option, none, some,
}
use webwire_go.Message.{
  msg_error_reply, msg_reply_shutdown, msg_internal_error, msg_session_not_found,
  msg_max_sess_conns_reached, msg_sessions_disabled, msg_reply_protocol_error, msg_session_created,
  msg_session_closed, msg_close_session, msg_restore_session, msg_signal_binary, msg_signal_utf8,
  msg_signal_utf16, msg_request_binary, msg_request_utf8, msg_request_utf16, msg_reply_binary,
  msg_reply_utf8, msg_reply_utf16, Message,
}
use webwire_go.Message.Bodies.{
  ParseError, Outcome, parse_signal, parse_signal_utf16, parse_request, parse_request_utf16,
  parse_reply, parse_reply_utf16, parse_error_reply, parse_restore_session, parse_close_session,
  parse_session_created, parse_session_closed, parse_special_reply_message,
}
use webwire_go.Payload.{Encoding, binary, utf8, utf16}
use webwire_go.Runtime.{Bytes, Go, value, ◌>>=◌, read_byte}

pub data Form : Type 0 where
  error_reply created closed close restore special : Form
  signal request reply : Encoding → Form

-- The `switch` of `Parse`, in the order of its cases.
unfoldable pub form_of : ℕ → Option Form
form_of kind =
    if kind == msg_error_reply
    then some error_reply
    else if kind == msg_session_created
    then some created
    else if kind == msg_session_closed
    then some closed
    else if kind == msg_close_session
    then some close
    else if kind == msg_signal_binary
    then some (signal binary)
    else if kind == msg_signal_utf8
    then some (signal utf8)
    else if kind == msg_signal_utf16
    then some (signal utf16)
    else if kind == msg_request_binary
    then some (request binary)
    else if kind == msg_request_utf8
    then some (request utf8)
    else if kind == msg_request_utf16
    then some (request utf16)
    else if kind == msg_reply_binary
    then some (reply binary)
    else if kind == msg_reply_utf8
    then some (reply utf8)
    else if kind == msg_reply_utf16
    then some (reply utf16)
    else if kind == msg_restore_session
    then some restore
    else if kind == msg_reply_shutdown
        || kind == msg_internal_error
        || kind == msg_session_not_found
        || kind == msg_max_sess_conns_reached
        || kind == msg_sessions_disabled
        || kind == msg_reply_protocol_error
    then some special
    else none

-- `payloadEncoding`, which stays the zero value where the case does not set it.
abbrev pub payload_encoding : Form → Encoding
payload_encoding (signal e) = e
payload_encoding (request e) = e
payload_encoding (reply e) = e
payload_encoding _ = binary

unfoldable pub parse_form : Form → Message → Bytes → Go Outcome
parse_form error_reply = parse_error_reply
parse_form created = parse_session_created
parse_form closed = parse_session_closed
parse_form close = parse_close_session
parse_form restore = parse_restore_session
parse_form special = parse_special_reply_message
parse_form (signal utf16) = parse_signal_utf16
parse_form (signal _) = parse_signal
parse_form (request utf16) = parse_request_utf16
parse_form (request _) = parse_request
parse_form (reply utf16) = parse_reply_utf16
parse_form (reply _) = parse_reply

-- `msg.Type = msgType; msg.Payload.Encoding = payloadEncoding`, also after an error.
abbrev pub label : ℕ → Form → Message → Message
label kind form msg = record msg {
  kind = kind;
  payload = record { encoding = payload_encoding form; bytes = msg.payload.bytes };
}

pub record Parsed : Type 0 where
  pub message : Message
  pub type_parsed : Bool
  pub error : Option ParseError

unfoldable pub parse_kind : Option Form → ℕ → Message → Bytes → Go Parsed
parse_kind none kind msg message =
    value (record { message = msg; type_parsed = false; error = none })
parse_kind (some form) kind msg message = do
  (filled, error) ← parse_form form msg message
  value (record { message = label kind form filled; type_parsed = true; error = error })

unfoldable pub parse : Message → Bytes → Go Parsed
parse msg message =
    if ltb (length message) 1
    then value (record { message = msg; type_parsed = false; error = none })
    else do kind ← read_byte message 0; parse_kind (form_of kind) kind msg message
