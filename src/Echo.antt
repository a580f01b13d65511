-- ===== src/Echo.antt =====
-- examples/echo/server/server.go: the application of the echo example, and a request of a client to it
-- from its name and payload to its reply.
mod Tests
use webwire_go.Base.{
  length, ℕ, ◌+◌, ◌^◌, ◌<◌, ◌≡◌, refl, ap, sym, ◌∙◌, true, false, Option, none, some, List, [], ◌∷◌,
  ◌++◌, arith,
}
use webwire_go.Client.{fulfills}
use webwire_go.Client.Requests.{data_of, encoding_of, prepare_request, ready, scan_payload_encoding}
use webwire_go.Client.Sending.{identifier_length, prepare_request-ready}
use webwire_go.Client.Understanding.{Understands, understood_reply}
use webwire_go.Map.{find}
use webwire_go.Message.{Message}
use webwire_go.Message.Layout.{reply_layout}
use webwire_go.Message.RoundTrip.{received}
use webwire_go.Message.Validity.{IsRequest, new_reply_message-eq_value}
use webwire_go.Payload.{Payload, Encoding, binary, utf8, utf16}
use webwire_go.RequestManager.{Request, RequestManager, create}
use webwire_go.RequestManager.Identifiers.{IsIssued}
use webwire_go.Runtime.{Bytes, bytes_discrete, value}
use webwire_go.Server.Dispatch.{handle_message}
use webwire_go.Server.Handlers.{World, Setup, RequestResult, answered}
use webwire_go.Server.Replies.{fulfill_msg}
use webwire_go.Server.Service.{IsReady, Behaves, is_request, request_served}

-- `OnRequest`, without its log
unfoldable pub on_request : Message → World → World × RequestResult
on_request message w = (w, answered (some message.payload))

-- A server with this application.
abbrev pub echoing : Setup → Setup
echoing srv = record srv { on_request = on_request }

scanned-is_request :
    (payload : Option Payload) (id name : Bytes) (encoding : Encoding) (content : Bytes)
    → is_request (received (scan_payload_encoding payload) id name encoding content).message ≡ true
unfolding scan_payload_encoding
scanned-is_request none id name encoding content = refl
scanned-is_request (some payload) id name encoding content = ground arith

echoing-Behaves :
    (srv : Setup) (message : Message)
    → ((m : Bytes) (w : World) → srv.write_fails m w ≡ false)
    → Behaves (echoing srv) message (answered (some message.payload))
unfolding on_request
echoing-Behaves srv message works = record { answers = λ w. refl; writes = works }

-- Every request that a client can send, with a name or a payload or both, a printable name of at most
-- 255 bytes and an even payload if it is UTF16: an echo server, with room for its handler and a
-- socket that works, answers it with exactly one message, which the client takes as the fulfilment of
-- that request, which was not pending before, with the encoding and the payload that it has sent;
-- and all counters are as before.
pub echoes :
    (srv : Setup) (name : Bytes) (payload : Option Payload) (timeout : ℕ) (manager : RequestManager)
    (w : World)
    → IsRequest name (encoding_of payload) (data_of payload)
    → IsIssued manager
    → manager.last_id + 1 < 2 ^ 64
    → IsReady w
    → ((m : Bytes) (w : World) → srv.write_fails m w ≡ false)
    → (after : RequestManager) × (request : Request) × (m reply : Bytes) × (prepare_request none
          name payload timeout manager
        ≡ value (ready after request m))
      × (find bytes_discrete request.identifier manager.pending ≡ none)
      × (handle_message (echoing srv) m w
          ≡ value (some (record w { sent = w.sent ++ (reply ∷ []) })))
      × Understands reply (
          fulfills request.identifier
            (record { encoding = encoding_of payload; bytes = data_of payload }))
unfolding fulfill_msg
echoes srv name payload timeout manager w v i few r works =
    let about = prepare_request-ready name payload timeout manager i few in
    let (after, request, m, h) = about.0.1 v in
    let (same, fresh, parsed) = about.1 after request m h in
    let n : length request.identifier ≡ 8 =
      sym (ap (λ x. length x.1.identifier) same) ∙ identifier_length manager timeout in
    let message =
      (received (scan_payload_encoding payload) request.identifier name (encoding_of payload)
        (data_of payload)).message in
    let reply = reply_layout request.identifier (encoding_of payload) (data_of payload) in
    let made =
      (new_reply_message-eq_value request.identifier n (encoding_of payload) (data_of payload)
          reply).1
        (v.aligned, refl) in
    let served =
      request_served (echoing srv) m message message.payload w reply n
        (scanned-is_request payload request.identifier name (encoding_of payload) (data_of payload))
        parsed r (echoing-Behaves srv message works) made in
    (after, request, m, reply, h, fresh, served.0, served.1)
