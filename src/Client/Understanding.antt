-- ===== src/Client/Understanding.antt =====
-- What the replies of the server, in handleMessage.go, mean to the client, in client/handle.go.
-- What the client makes of an error that its request failed with on the server.
use webwire_go.Base.{ltb, length, ℕ, ◌≡◌, refl, true, false, Option, none, some, [], arith}
use webwire_go.Client.{Reaction, fulfills, fails, strange, react, handle_message}
use webwire_go.Errors.{
  RequestError, conn_incomp_err, req_trans_err, req_srv_shutdown_err, req_internal_err, timeout_err,
  deadline_exceeded_err, req_err, sessions_disabled_err, sess_not_found_err,
  max_sess_conns_reached_err, disconnected_err, protocol_err, canceled_err, other_err,
}
use webwire_go.Message.{
  msg_reply_shutdown, msg_internal_error, msg_session_not_found, msg_max_sess_conns_reached,
  msg_sessions_disabled, msg_reply_protocol_error, Message, zero_message,
}
use webwire_go.Message.Compose.{new_special_request_reply_message}
use webwire_go.Message.Parse.{Parsed, parse}
use webwire_go.Message.RoundTrip.{
  received, parse-new_reply_message, parse-new_error_reply_message,
  parse-new_special_request_reply_message,
}
use webwire_go.Payload.{Encoding, binary, utf8, utf16, Payload}
use webwire_go.Runtime.{Bytes, value}
use webwire_go.Server.Replies.{error_reply_for, fail_msg, fulfill_msg, fail_msg_shutdown}

abbrev pub understood : Bytes → Option RequestError → Reaction
understood identifier (some (req_err code text)) = fails identifier (req_err code text)
understood identifier (some max_sess_conns_reached_err) =
    fails identifier max_sess_conns_reached_err
understood identifier (some sess_not_found_err) = fails identifier sess_not_found_err
understood identifier (some sessions_disabled_err) = fails identifier sessions_disabled_err
understood identifier (some protocol_err) = strange msg_reply_protocol_error
understood identifier _ = fails identifier req_internal_err

-- What the client makes of a reply with a payload.
abbrev pub understood_reply : Bytes → Payload → Reaction
understood_reply = fulfills

abbrev pub Understands : Bytes → Reaction → Type 0
Understands m r = handle_message m ≡ value r

long_enough :
    (m : Bytes) (p : Parsed)
    → parse zero_message m ≡ value p
    → p.type_parsed ≡ true
    → ltb (length m) 1 ≡ false
unfolding parse
long_enough m p h k = ground (arith, h)

pub handle_message-received :
    (kind : ℕ) (identifier name : Bytes) (encoding : Encoding) (content m : Bytes) (r : Reaction)
    → parse zero_message m ≡ value (received kind identifier name encoding content)
    → react (received kind identifier name encoding content).message ≡ r
    → Understands m r
unfolding handle_message
handle_message-received kind identifier name encoding content m r h k =
    rw (long_enough m _ h refl, h, k) refl

module _ (message : Message) (id_length : length message.identifier ≡ 8) where
  -- A client understands whatever fulfillMsg sends as the reply to the request of that identifier,
  -- with the payload and its encoding as they were given.
  pub fulfill_msg-understood :
      (encoding : Encoding) (content m : Bytes)
      → fulfill_msg message encoding content ≡ value m
      → Understands m
          (fulfills message.identifier (record { encoding = encoding; bytes = content }))
  unfolding fulfill_msg react
  fulfill_msg-understood binary content m h =
      handle_message-received _ _ _ _ _ m _
        (parse-new_reply_message message.identifier id_length binary content m h) refl
  fulfill_msg-understood utf8 content m h =
      handle_message-received _ _ _ _ _ m _
        (parse-new_reply_message message.identifier id_length utf8 content m h) refl
  fulfill_msg-understood utf16 content m h =
      handle_message-received _ _ _ _ _ m _
        (parse-new_reply_message message.identifier id_length utf16 content m h) refl

  special_understood :
      (kind : ℕ) (m : Bytes) (r : Reaction)
      → new_special_request_reply_message kind message.identifier ≡ value m
      → react (received kind message.identifier [] binary []).message ≡ r
      → Understands m r
  special_understood kind m r h k =
      handle_message-received kind message.identifier [] binary [] m r
        (parse-new_special_request_reply_message message.identifier id_length kind m h).1 k

  error_reply_for-understood :
      (err : Option RequestError) (m : Bytes)
      → error_reply_for message.identifier err ≡ value m
      → Understands m (understood message.identifier err)
  unfolding error_reply_for react
  error_reply_for-understood (some (req_err code text)) m h =
      handle_message-received _ _ _ _ _ m _
        (parse-new_error_reply_message message.identifier id_length code text m h) refl
  error_reply_for-understood (some max_sess_conns_reached_err) m h =
      special_understood msg_max_sess_conns_reached m _ h refl
  error_reply_for-understood (some sess_not_found_err) m h =
      special_understood msg_session_not_found m _ h refl
  error_reply_for-understood (some sessions_disabled_err) m h =
      special_understood msg_sessions_disabled m _ h refl
  error_reply_for-understood (some protocol_err) m h =
      special_understood msg_reply_protocol_error m _ h refl
  error_reply_for-understood (some conn_incomp_err) m h =
      special_understood msg_internal_error m _ h refl
  error_reply_for-understood (some req_trans_err) m h =
      special_understood msg_internal_error m _ h refl
  error_reply_for-understood (some req_srv_shutdown_err) m h =
      special_understood msg_internal_error m _ h refl
  error_reply_for-understood (some req_internal_err) m h =
      special_understood msg_internal_error m _ h refl
  error_reply_for-understood (some timeout_err) m h =
      special_understood msg_internal_error m _ h refl
  error_reply_for-understood (some deadline_exceeded_err) m h =
      special_understood msg_internal_error m _ h refl
  error_reply_for-understood (some disconnected_err) m h =
      special_understood msg_internal_error m _ h refl
  error_reply_for-understood (some canceled_err) m h =
      special_understood msg_internal_error m _ h refl
  error_reply_for-understood (some other_err) m h = special_understood msg_internal_error m _ h refl
  error_reply_for-understood none m h = special_understood msg_internal_error m _ h refl

  -- A client understands what failMsg sends as the failure of the request of that identifier, with
  -- the same error if it is a ReqErr or one of the three errors about sessions, and with an internal
  -- error for any other, a protocol error excepted: that one is a message of an unknown type to it.
  pub fail_msg-understood :
      (err : Option RequestError) (m : Bytes)
      → fail_msg message err ≡ value (some m)
      → Understands m (understood message.identifier err)
  unfolding fail_msg
  fail_msg-understood err m h = error_reply_for-understood err m (ground arith)

  -- A client understands what failMsgShutdown sends as the shutdown of the server.
  pub fail_msg_shutdown-understood :
      (m : Bytes)
      → fail_msg_shutdown message ≡ value m
      → Understands m (fails message.identifier req_srv_shutdown_err)
  unfolding fail_msg_shutdown react
  fail_msg_shutdown-understood m h = special_understood msg_reply_shutdown m _ h refl
