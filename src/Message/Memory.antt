-- ===== src/Message/Memory.antt =====
-- No parser of message/parse.go reads outside the message that it is given.
use webwire_go.Base.{
  length, get_or, take, drop, length-take, length-drop, ℕ, ◌+◌, ◌≤◌, ◌≡◌, ◌≢◌, Option, none, some,
  arith,
}
use webwire_go.Message.{Message}
use webwire_go.Message.Bodies.{
  read_identifier, parse_signal, parse_signal_utf16, parse_request_body, parse_request,
  parse_request_utf16_body, parse_request_utf16, parse_reply, parse_reply_utf16, parse_error_reply,
  parse_restore_session, parse_close_session, parse_session_created, parse_session_closed,
  parse_special_reply_message,
}
use webwire_go.Message.Parse.{
  Form, error_reply, created, closed, close, restore, special, signal, request, reply, form_of,
  parse_form, parse_kind, parse,
}
use webwire_go.Payload.{utf16}
use webwire_go.Runtime.{
  Bytes, Panic, value, panic, make, slice-eq_value, slice_from-eq_value, read_byte-eq_value,
  copy-eq_src,
}

pub read_identifier-eq_value :
    (s : Bytes) → 9 ≤ length s → read_identifier s ≡ value (take 8 (drop 1 s))
unfolding read_identifier
read_identifier-eq_value s h =
    let src = take 8 (drop 1 s) in
    let full : length src ≡ 8 = omega (arith, length-take 8 (drop 1 s), length-drop 1 s) in
    ground (arith, copy-eq_src (make 8) src full)

module _ (msg : Message) (s : Bytes) (p : Panic) where
  parse_signal-ne-panic : parse_signal msg s ≢ panic p
  unfolding parse_signal
  parse_signal-ne-panic e = ground (
    arith,
    read_byte-eq_value s 1,
    slice-eq_value s 2 (2 + get_or s 1 0),
    slice_from-eq_value s (2 + get_or s 1 0),
    slice_from-eq_value s 2,
  )

  parse_signal_utf16-ne-panic : parse_signal_utf16 msg s ≢ panic p
  unfolding parse_signal_utf16
  parse_signal_utf16-ne-panic e = ground (
    arith,
    read_byte-eq_value s 1,
    slice-eq_value s 2 (2 + get_or s 1 0),
    slice_from-eq_value s (2 + get_or s 1 0),
    slice_from-eq_value s (2 + get_or s 1 0 + 1),
    slice_from-eq_value s 2,
  )

  parse_request_body-ne-panic : (n : ℕ) → 10 ≤ length s → parse_request_body msg s n ≢ panic p
  unfolding parse_request_body
  parse_request_body-ne-panic n h e = ground (
    arith,
    slice-eq_value s 10 (10 + n),
    slice_from-eq_value s (10 + n),
    slice_from-eq_value s 10,
  )

  parse_request_utf16_body-ne-panic :
      (n : ℕ) → 10 ≤ length s → parse_request_utf16_body msg s n ≢ panic p
  unfolding parse_request_utf16_body
  parse_request_utf16_body-ne-panic n h e = ground (
    arith,
    slice-eq_value s 10 (10 + n),
    slice_from-eq_value s (10 + n),
    slice_from-eq_value s (10 + n + 1),
    slice_from-eq_value s 10,
  )

  parse_reply-ne-panic : parse_reply msg s ≢ panic p
  unfolding parse_reply
  parse_reply-ne-panic e = ground (arith, read_identifier-eq_value s, slice_from-eq_value s 9)

  parse_reply_utf16-ne-panic : parse_reply_utf16 msg s ≢ panic p
  unfolding parse_reply_utf16
  parse_reply_utf16-ne-panic e =
      ground (arith, read_identifier-eq_value s, slice_from-eq_value s 10)

  parse_error_reply-ne-panic : parse_error_reply msg s ≢ panic p
  unfolding parse_error_reply
  parse_error_reply-ne-panic e = ground (
    arith,
    read_identifier-eq_value s,
    read_byte-eq_value s 9,
    slice-eq_value s 10 (10 + get_or s 9 0),
    slice_from-eq_value s (10 + get_or s 9 0),
  )

  parse_restore_session-ne-panic : parse_restore_session msg s ≢ panic p
  unfolding parse_restore_session
  parse_restore_session-ne-panic e =
      ground (arith, read_identifier-eq_value s, slice_from-eq_value s 9)

  parse_close_session-ne-panic : parse_close_session msg s ≢ panic p
  unfolding parse_close_session
  parse_close_session-ne-panic e = ground (arith, read_identifier-eq_value s)

  parse_session_created-ne-panic : parse_session_created msg s ≢ panic p
  unfolding parse_session_created
  parse_session_created-ne-panic e = ground (arith, slice_from-eq_value s 1)

  parse_session_closed-ne-panic : parse_session_closed msg s ≢ panic p
  unfolding parse_session_closed
  parse_session_closed-ne-panic e = ground arith

  parse_special_reply_message-ne-panic : parse_special_reply_message msg s ≢ panic p
  unfolding parse_special_reply_message
  parse_special_reply_message-ne-panic e = ground (arith, read_identifier-eq_value s)

module _ (msg : Message) (s : Bytes) (p : Panic) where
  parse_request-ne-panic : parse_request msg s ≢ panic p
  unfolding parse_request
  parse_request-ne-panic e = ground (
    arith,
    read_identifier-eq_value s,
    read_byte-eq_value s 9,
    parse_request_body-ne-panic (record msg { identifier = take 8 (drop 1 s) }) s p (get_or s 9 0),
  )

  parse_request_utf16-ne-panic : parse_request_utf16 msg s ≢ panic p
  unfolding parse_request_utf16
  parse_request_utf16-ne-panic e = ground (
    arith,
    read_identifier-eq_value s,
    read_byte-eq_value s 9,
    parse_request_utf16_body-ne-panic (record msg { identifier = take 8 (drop 1 s) }) s p
        (get_or s 9 0),
  )

parse_form-ne-panic :
    (form : Form) (msg : Message) (s : Bytes) (p : Panic) → parse_form form msg s ≢ panic p
unfolding parse_form
parse_form-ne-panic error_reply = parse_error_reply-ne-panic
parse_form-ne-panic created = parse_session_created-ne-panic
parse_form-ne-panic closed = parse_session_closed-ne-panic
parse_form-ne-panic close = parse_close_session-ne-panic
parse_form-ne-panic restore = parse_restore_session-ne-panic
parse_form-ne-panic special = parse_special_reply_message-ne-panic
parse_form-ne-panic (signal utf16) = parse_signal_utf16-ne-panic
parse_form-ne-panic (signal _) = parse_signal-ne-panic
parse_form-ne-panic (request utf16) = parse_request_utf16-ne-panic
parse_form-ne-panic (request _) = parse_request-ne-panic
parse_form-ne-panic (reply utf16) = parse_reply_utf16-ne-panic
parse_form-ne-panic (reply _) = parse_reply-ne-panic

parse_kind-ne-panic :
    (form : Option Form) (kind : ℕ) (msg : Message) (s : Bytes) (p : Panic)
    → parse_kind form kind msg s ≢ panic p
unfolding parse_kind
parse_kind-ne-panic none kind msg s p e = cc
parse_kind-ne-panic (some form) kind msg s p e = ground (arith, parse_form-ne-panic form msg s p)

-- `Parse` returns on every sequence of bytes, whatever lengths the message claims for its parts:
-- no slice expression, index or copy in it leaves the message.
pub parse-ne-panic : (msg : Message) (s : Bytes) (p : Panic) → parse msg s ≢ panic p
unfolding parse
parse-ne-panic msg s p e = ground (
  arith,
  read_byte-eq_value s 0,
  parse_kind-ne-panic (form_of (get_or s 0 0)) (get_or s 0 0) msg s p,
)
