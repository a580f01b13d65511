-- ===== src/Message.antt =====
-- message/message.go: the message types, the minimum lengths and the parsed message.
pub mod Bodies
pub mod Parse
pub mod Memory
pub mod Compose
pub mod Layout
mod Whole
mod Reading
pub mod Validity
pub mod RoundTrip
pub mod Silent
pub mod Generators
mod Tests
use webwire_go.Base.{ℕ, Bool, ◌||◌, [], ◌==◌}
use webwire_go.Runtime.{Bytes, make}
use webwire_go.Payload.{Payload, empty_payload}

abbrev pub msg_min_len_signal : ℕ
msg_min_len_signal = 3

abbrev pub msg_min_len_signal_utf16 : ℕ
msg_min_len_signal_utf16 = 4

abbrev pub msg_min_len_request : ℕ
msg_min_len_request = 11

abbrev pub msg_min_len_request_utf16 : ℕ
msg_min_len_request_utf16 = 11

abbrev pub msg_min_len_reply : ℕ
msg_min_len_reply = 9

abbrev pub msg_min_len_reply_utf16 : ℕ
msg_min_len_reply_utf16 = 10

abbrev pub msg_min_len_error_reply : ℕ
msg_min_len_error_reply = 11

abbrev pub msg_min_len_restore_session : ℕ
msg_min_len_restore_session = 10

abbrev pub msg_min_len_close_session : ℕ
msg_min_len_close_session = 9

abbrev pub msg_min_len_session_created : ℕ
msg_min_len_session_created = 2

abbrev pub msg_min_len_session_closed : ℕ
msg_min_len_session_closed = 1

abbrev pub msg_error_reply : ℕ
msg_error_reply = 0

abbrev pub msg_reply_shutdown : ℕ
msg_reply_shutdown = 1

abbrev pub msg_internal_error : ℕ
msg_internal_error = 2

abbrev pub msg_session_not_found : ℕ
msg_session_not_found = 3

abbrev pub msg_max_sess_conns_reached : ℕ
msg_max_sess_conns_reached = 4

abbrev pub msg_sessions_disabled : ℕ
msg_sessions_disabled = 5

abbrev pub msg_reply_protocol_error : ℕ
msg_reply_protocol_error = 6

abbrev pub msg_session_created : ℕ
msg_session_created = 21

abbrev pub msg_session_closed : ℕ
msg_session_closed = 22

abbrev pub msg_close_session : ℕ
msg_close_session = 31

abbrev pub msg_restore_session : ℕ
msg_restore_session = 32

abbrev pub msg_signal_binary : ℕ
msg_signal_binary = 63

abbrev pub msg_signal_utf8 : ℕ
msg_signal_utf8 = 64

abbrev pub msg_signal_utf16 : ℕ
msg_signal_utf16 = 65

abbrev pub msg_request_binary : ℕ
msg_request_binary = 127

abbrev pub msg_request_utf8 : ℕ
msg_request_utf8 = 128

abbrev pub msg_request_utf16 : ℕ
msg_request_utf16 = 129

abbrev pub msg_reply_binary : ℕ
msg_reply_binary = 191

abbrev pub msg_reply_utf8 : ℕ
msg_reply_utf8 = 192

abbrev pub msg_reply_utf16 : ℕ
msg_reply_utf16 = 193

-- `type` is written `kind`. The identifier is Go's `[8]byte`, a list of eight bytes.
pub record Message : Type 0 where
  pub kind : ℕ
  pub identifier : Bytes
  pub name : Bytes
  pub payload : Payload

-- `var parsedMessage msg.Message`
abbrev pub zero_message : Message
zero_message = record { kind = 0; identifier = make 8; name = []; payload = empty_payload }

unfoldable pub requires_reply : Message → Bool
requires_reply msg =
    msg.kind == msg_close_session
    || msg.kind == msg_restore_session
    || msg.kind == msg_request_binary
    || msg.kind == msg_request_utf8
    || msg.kind == msg_request_utf16
