-- ===== src/Server/Replies.antt =====
-- handleMessage.go: what the server sends for a message that it fails or fulfills. The result is what
-- is handed to `con.sock.Write`, or nothing.
-- The error is `none` for Go's nil. A `ReqErr` and a pointer to one are the same error.
use webwire_go.Base.{if◌then◌else◌, not, Option, none, some}
use webwire_go.Errors.{
  RequestError, req_err, sessions_disabled_err, sess_not_found_err, max_sess_conns_reached_err,
  protocol_err,
}
use webwire_go.Message.{
  msg_reply_shutdown, msg_internal_error, msg_session_not_found, msg_max_sess_conns_reached,
  msg_sessions_disabled, msg_reply_protocol_error, Message, requires_reply,
}
use webwire_go.Message.Compose.{
  new_reply_message, new_error_reply_message, new_special_request_reply_message,
}
use webwire_go.Payload.{Encoding}
use webwire_go.Runtime.{Bytes, Go, value, ◌>>=◌}

unfoldable pub error_reply_for : Bytes → Option RequestError → Go Bytes
error_reply_for identifier (some (req_err code text)) = new_error_reply_message identifier code text
error_reply_for identifier (some max_sess_conns_reached_err) =
    new_special_request_reply_message msg_max_sess_conns_reached identifier
error_reply_for identifier (some sess_not_found_err) =
    new_special_request_reply_message msg_session_not_found identifier
error_reply_for identifier (some sessions_disabled_err) =
    new_special_request_reply_message msg_sessions_disabled identifier
error_reply_for identifier (some protocol_err) =
    new_special_request_reply_message msg_reply_protocol_error identifier
error_reply_for identifier _ = new_special_request_reply_message msg_internal_error identifier

unfoldable pub fail_msg : Message → Option RequestError → Go (Option Bytes)
fail_msg message err =
    if not (requires_reply message)
    then value none
    else (do reply_msg ← error_reply_for message.identifier err; value (some reply_msg))

unfoldable pub fulfill_msg : Message → Encoding → Bytes → Go Bytes
fulfill_msg message encoding content = new_reply_message message.identifier encoding content

unfoldable pub fail_msg_shutdown : Message → Go Bytes
fail_msg_shutdown message = new_special_request_reply_message msg_reply_shutdown message.identifier
