-- ===== src/Client/Requests.antt =====
-- client/sendRequest.go, client/sendNamelessRequest.go, client/client.go and client/scanPayloadEncoding.go: what a client writes for
-- a request or a signal of the program, up to the call of the socket's Write.
use webwire_go.Base.{if◌then◌else◌, ltb, length, ℕ, Bool, ◌&&◌, Option, none, some, []}
use webwire_go.Errors.{ContextError, RequestError, protocol_err, translate_context_error}
use webwire_go.Message.{msg_request_binary, msg_request_utf8, msg_request_utf16}
use webwire_go.Message.Compose.{
  new_request_message, new_nameless_request_message, new_signal_message,
}
use webwire_go.Payload.{Encoding, Payload, binary, utf8, utf16}
use webwire_go.RequestManager.{Request, RequestManager, create}
use webwire_go.Runtime.{Bytes, Go, value, ◌>>=◌}

abbrev pub encoding_of : Option Payload → Encoding
encoding_of none = binary
encoding_of (some payload) = payload.encoding

abbrev pub data_of : Option Payload → Bytes
data_of none = []
data_of (some payload) = payload.bytes

-- `len(name) < 1 && (payload == nil || len(payload.Data()) < 1)`
abbrev pub is_missing : Bytes → Option Payload → Bool
is_missing name payload = ltb (length name) 1 && ltb (length (data_of payload)) 1

request_type_for : Encoding → ℕ
request_type_for binary = msg_request_binary
request_type_for utf8 = msg_request_utf8
request_type_for utf16 = msg_request_utf16

unfoldable pub scan_payload_encoding : Option Payload → ℕ
unfolding request_type_for
scan_payload_encoding payload = request_type_for (encoding_of payload)

-- The request was refused, or stands in the manager and its message is to be written.
pub data Prepared : Type 0 where
  refused : RequestError → Prepared
  ready : RequestManager → Request → Bytes → Prepared

abbrev pub compose : Bytes → Option Payload → RequestManager × Request → Go Prepared
compose name payload (manager, request) = do
  m ← new_request_message request.identifier name (encoding_of payload) (data_of payload)
  value (ready manager request m)

-- `sendRequest` up to the write, where the context is done or not.
unfoldable pub prepare_request :
    Option ContextError → Bytes → Option Payload → ℕ → RequestManager → Go Prepared
prepare_request done name payload timeout manager =
    if is_missing name payload then value (refused protocol_err) else elim done [
      | some e ↦ value (refused (translate_context_error e))
      | none ↦ compose name payload (create manager timeout)
    ]

abbrev pub compose_nameless :
    ℕ → Bytes → RequestManager × Request → Go (RequestManager × Request × Bytes)
compose_nameless message_type content (manager, request) = do
  m ← new_nameless_request_message message_type request.identifier content
  value (manager, request, m)

-- `sendNamelessRequest` up to the write.
unfoldable pub prepare_nameless_request :
    ℕ → Bytes → ℕ → RequestManager → Go (RequestManager × Request × Bytes)
prepare_nameless_request message_type content timeout manager =
    compose_nameless message_type content (create manager timeout)

pub data PreparedSignal : Type 0 where
  invalid : RequestError → PreparedSignal
  signal : Bytes → PreparedSignal

-- `Signal` up to the write, on a connected client.
unfoldable pub prepare_signal : Bytes → Option Payload → Go PreparedSignal
prepare_signal name payload =
    if is_missing name payload
    then value (invalid protocol_err)
    else (do m ← new_signal_message name (encoding_of payload) (data_of payload); value (signal m))
