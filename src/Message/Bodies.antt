-- ===== src/Message/Bodies.antt =====
-- message/parse.go, the parser of each kind of message. Each parser returns the message as it has been filled so far, also beside an
-- error; a slice expression out of range would panic. The texts of the errors are not modelled.
use webwire_go.Base.{
  ltb, ◌==◌, if◌then◌else◌, length, ℕ, ◌+◌, ◌-◌, ◌%◌, not, ◌&&◌, Option, none, some, [],
}
use webwire_go.Message.{
  msg_min_len_signal, msg_min_len_signal_utf16, msg_min_len_request, msg_min_len_request_utf16,
  msg_min_len_reply, msg_min_len_reply_utf16, msg_min_len_error_reply, msg_min_len_restore_session,
  msg_min_len_close_session, msg_min_len_session_created, msg_min_len_session_closed, Message,
}
use webwire_go.Payload.{binary, utf8, utf16, Payload}
use webwire_go.Runtime.{Bytes, Go, value, ◌>>=◌, slice, slice_from, make, copy, read_byte}

pub data ParseError : Type 0 where
  too_short : ParseError
  too_short_for_name : ℕ → ParseError
  unaligned : ParseError
  zero_code_length : ParseError
  too_short_for_code : ℕ → ParseError

-- The message so far, and the error if there is one.
abbrev pub Outcome : Type 0
Outcome = Message × Option ParseError

-- `pld.Payload{Data: ...}`
abbrev pub raw : Bytes → Payload
raw s = record { encoding = binary; bytes = s }

-- `var id [8]byte; copy(id[:], message[1:9])`
unfoldable pub read_identifier : Bytes → Go Bytes
unfolding slice
read_identifier message = do part ← slice message 1 9; value (copy (make 8) part)

unfoldable pub parse_signal : Message → Bytes → Go Outcome
parse_signal msg message =
    if ltb (length message) msg_min_len_signal then value (msg, some too_short) else do
      name_len ← read_byte message 1
      let payload_offset = 2 + name_len
      if ltb (length message) (msg_min_len_signal + name_len)
          then value (msg, some (too_short_for_name name_len))
          else if ltb 0 name_len
          then (do
            name ← slice message 2 payload_offset
            rest ← slice_from message payload_offset
            value (record msg { name = name; payload = raw rest }, none))
          else do rest ← slice_from message 2; value (record msg { payload = raw rest }, none)

unfoldable pub parse_signal_utf16 : Message → Bytes → Go Outcome
parse_signal_utf16 msg message =
    if ltb (length message) msg_min_len_signal_utf16
    then value (msg, some too_short)
    else if not (length message % 2 == 0)
    then value (msg, some unaligned)
    else do
      name_len ← read_byte message 1
      let padded = not (name_len % 2 == 0)
      let min_msg_size =
          if padded
          then msg_min_len_signal_utf16 + name_len + 1
          else msg_min_len_signal_utf16 + name_len
      let payload_offset = if padded then 2 + name_len + 1 else 2 + name_len
      if ltb (length message) min_msg_size
          then value (msg, some (too_short_for_name name_len))
          else if ltb 0 name_len
          then (do
            name ← slice message 2 (2 + name_len)
            rest ← slice_from message payload_offset
            value (record msg { name = name; payload = raw rest }, none))
          else do rest ← slice_from message 2; value (record msg { payload = raw rest }, none)

-- The rest of `parseRequest`, once the identifier and the name length are read.
unfoldable pub parse_request_body : Message → Bytes → ℕ → Go Outcome
parse_request_body msg message name_len =
    let payload_offset = 10 + name_len in
    if ltb 0 name_len
    then if ltb (length message) (msg_min_len_request + name_len - 1)
      then value (msg, some (too_short_for_name name_len))
      else (do
        name ← slice message 10 (10 + name_len)
        if ltb (msg_min_len_request + name_len - 1) (length message)
            then (do
              rest ← slice_from message payload_offset
              value (record msg { name = name; payload = raw rest }, none))
            else value (record msg { name = name }, none))
    else do rest ← slice_from message 10; value (record msg { payload = raw rest }, none)

unfoldable pub parse_request : Message → Bytes → Go Outcome
unfolding parse_request_body
parse_request msg message =
    if ltb (length message) msg_min_len_request then value (msg, some too_short) else do
      id ← read_identifier message
      name_len ← read_byte message 9
      parse_request_body (record msg { identifier = id }) message name_len

-- The rest of `parseRequestUtf16`. A padding byte is expected only if something follows the name.
unfoldable pub parse_request_utf16_body : Message → Bytes → ℕ → Go Outcome
parse_request_utf16_body msg message name_len =
    let min_unpadded = if ltb 0 name_len then 10 + name_len else 12 in
    let padded = ltb (10 + name_len) (length message) && not (name_len % 2 == 0) in
    let min_required_msg_size = if padded then min_unpadded + 1 else min_unpadded in
    let payload_offset = if padded then 10 + name_len + 1 else 10 + name_len in
    if ltb 0 name_len
    then if ltb (length message) min_required_msg_size
      then value (msg, some (too_short_for_name name_len))
      else (do
        name ← slice message 10 (10 + name_len)
        if ltb min_required_msg_size (length message)
            then (do
              rest ← slice_from message payload_offset
              value (record msg { name = name; payload = raw rest }, none))
            else value (record msg { name = name }, none))
    else do rest ← slice_from message 10; value (record msg { payload = raw rest }, none)

unfoldable pub parse_request_utf16 : Message → Bytes → Go Outcome
unfolding parse_request_utf16_body
parse_request_utf16 msg message =
    if ltb (length message) msg_min_len_request_utf16
    then value (msg, some too_short)
    else if not (length message % 2 == 0)
    then value (msg, some unaligned)
    else do
      id ← read_identifier message
      name_len ← read_byte message 9
      parse_request_utf16_body (record msg { identifier = id }) message name_len

unfoldable pub parse_reply : Message → Bytes → Go Outcome
parse_reply msg message =
    if ltb (length message) msg_min_len_reply then value (msg, some too_short) else do
      id ← read_identifier message
      if length message == msg_min_len_reply
          then value (record msg { identifier = id }, none)
          else do
            rest ← slice_from message 9
            value (record msg { identifier = id; payload = raw rest }, none)

unfoldable pub parse_reply_utf16 : Message → Bytes → Go Outcome
parse_reply_utf16 msg message =
    if ltb (length message) msg_min_len_reply_utf16
    then value (msg, some too_short)
    else if not (length message % 2 == 0)
    then value (msg, some unaligned)
    else do
      id ← read_identifier message
      if length message == msg_min_len_reply_utf16
          then value (
            record msg { identifier = id; payload = record { encoding = utf16; bytes = [] } },
            none,
          )
          else do
            rest ← slice_from message 10
            value (record msg { identifier = id; payload = raw rest }, none)

unfoldable pub parse_error_reply : Message → Bytes → Go Outcome
parse_error_reply msg message =
    if ltb (length message) msg_min_len_error_reply then value (msg, some too_short) else do
      id ← read_identifier message
      err_code_len ← read_byte message 9
      let err_message_offset = 10 + err_code_len
      let identified = record msg { identifier = id }
      if ltb err_code_len 1
          then value (identified, some zero_code_length)
          else if ltb (length message) (msg_min_len_error_reply + err_code_len - 1)
          then value (identified, some (too_short_for_code err_code_len))
          else do
            code ← slice message 10 (10 + err_code_len)
            rest ← slice_from message err_message_offset
            value (
              record identified { name = code; payload = record { encoding = utf8; bytes = rest } },
              none,
            )

unfoldable pub parse_restore_session : Message → Bytes → Go Outcome
parse_restore_session msg message =
    if ltb (length message) msg_min_len_restore_session then value (msg, some too_short) else do
      id ← read_identifier message
      rest ← slice_from message 9
      value (record msg { identifier = id; payload = raw rest }, none)

unfoldable pub parse_close_session : Message → Bytes → Go Outcome
parse_close_session msg message =
    if not (length message == msg_min_len_close_session)
    then value (msg, some too_short)
    else do id ← read_identifier message; value (record msg { identifier = id }, none)

unfoldable pub parse_session_created : Message → Bytes → Go Outcome
parse_session_created msg message =
    if ltb (length message) msg_min_len_session_created
    then value (msg, some too_short)
    else do rest ← slice_from message 1; value (record msg { payload = raw rest }, none)

unfoldable pub parse_session_closed : Message → Bytes → Go Outcome
parse_session_closed msg message =
    if not (length message == msg_min_len_session_closed)
    then value (msg, some too_short)
    else value (msg, none)

unfoldable pub parse_special_reply_message : Message → Bytes → Go Outcome
parse_special_reply_message msg message =
    if ltb (length message) 9
    then value (msg, some too_short)
    else do id ← read_identifier message; value (record msg { identifier = id }, none)
