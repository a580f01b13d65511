-- ===== src/Client.antt =====
-- client/handle.go: what a client does about a message that it has received.
-- One constructor for each call that the `switch` makes, and for the two errors that it returns
-- before. The calls on the request manager are its `Fulfill` and `Fail`.
pub mod Understanding
pub mod Reconnection
pub mod Attempts
pub mod Sessions
pub mod Requests
pub mod Sending
pub mod Link
pub mod Readers
pub mod Connecting
mod Tests
use webwire_go.Base.{ltb, ◌==◌, if◌then◌else◌, length, ℕ, not, ◌||◌, none, some}
use webwire_go.Errors.{
  RequestError, req_srv_shutdown_err, req_internal_err, req_err, sessions_disabled_err,
  sess_not_found_err, max_sess_conns_reached_err,
}
use webwire_go.Message.{
  msg_error_reply, msg_reply_shutdown, msg_internal_error, msg_session_not_found,
  msg_max_sess_conns_reached, msg_sessions_disabled, msg_session_created, msg_session_closed,
  msg_signal_binary, msg_signal_utf8, msg_signal_utf16, msg_reply_binary, msg_reply_utf8,
  msg_reply_utf16, Message, zero_message,
}
use webwire_go.Message.Bodies.{ParseError}
use webwire_go.Message.Parse.{Parsed, parse}
use webwire_go.Payload.{Payload}
use webwire_go.Runtime.{Bytes, Go, value, ◌>>=◌}

pub data Reaction : Type 0 where
  ignored : Reaction
  undetermined : Reaction
  malformed : ParseError → Reaction
  fulfills : Bytes → Payload → Reaction
  fails : Bytes → RequestError → Reaction
  on_signal : Message → Reaction
  on_session_created : Payload → Reaction
  on_session_closed : Reaction
  strange : ℕ → Reaction

unfoldable pub react : Message → Reaction
react msg =
    if msg.kind == msg_reply_binary || msg.kind == msg_reply_utf8 || msg.kind == msg_reply_utf16
    then fulfills msg.identifier msg.payload
    else if msg.kind == msg_reply_shutdown
    then fails msg.identifier req_srv_shutdown_err
    else if msg.kind == msg_session_not_found
    then fails msg.identifier sess_not_found_err
    else if msg.kind == msg_max_sess_conns_reached
    then fails msg.identifier max_sess_conns_reached_err
    else if msg.kind == msg_sessions_disabled
    then fails msg.identifier sessions_disabled_err
    else if msg.kind == msg_error_reply
    then fails msg.identifier (req_err msg.name (msg.payload.bytes))
    else if msg.kind == msg_internal_error
    then fails msg.identifier req_internal_err
    else if msg.kind == msg_signal_binary
        || msg.kind == msg_signal_utf8
        || msg.kind == msg_signal_utf16
    then on_signal msg
    else if msg.kind == msg_session_created
    then on_session_created msg.payload
    else if msg.kind == msg_session_closed
    then on_session_closed
    else strange msg.kind

abbrev after_parse : Parsed → Reaction
after_parse p =
    if not p.type_parsed
    then undetermined
    else elim p.error [ none ↦ react p.message | some e ↦ malformed e ]

unfoldable pub handle_message : Bytes → Go Reaction
handle_message message =
    if ltb (length message) 1
    then value ignored
    else (do parsed ← parse zero_message message; value (after_parse parsed))
