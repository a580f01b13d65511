-- ===== src/Client/Sending.antt =====
-- When a client sends a request, and what the server reads: client/sendRequest.go.
use webwire_go.Base.{
  Bool-cases, inl, inr, length, ℕ, ◌+◌, ◌^◌, ◌<◌, ◌≡◌, ◌↔◌, refl, false, Option, none, some, arith,
  ap, ◌∙◌,
}
use webwire_go.Client.Requests.{
  Prepared, data_of, encoding_of, is_missing, prepare_request, ready, refused,
  scan_payload_encoding,
}
use webwire_go.Errors.{RequestError}
use webwire_go.Map.{find}
use webwire_go.Message.{zero_message}
use webwire_go.Message.Compose.{new_request_message, request_type}
use webwire_go.Message.Layout.{request_layout}
use webwire_go.Message.Parse.{parse}
use webwire_go.Message.RoundTrip.{received, parse-new_request_message}
use webwire_go.Message.Validity.{IsRequest, new_request_message-eq_value}
use webwire_go.Payload.{Payload}
use webwire_go.RequestManager.{Request, RequestManager, create}
use webwire_go.RequestManager.Identifiers.{
  IsIssued, create-fresh, create_identifier, length-little_endian,
}
use webwire_go.Runtime.{Bytes, Go, panic, value, ◌>>=◌, bytes_discrete}

not_missing :
    (name : Bytes) (payload : Option Payload)
    → 0 < length name + length (data_of payload)
    → is_missing name payload ≡ false
not_missing name payload h = ground (arith, h)

pub identifier_length :
    (manager : RequestManager) (timeout : ℕ) → length (create manager timeout).1.identifier ≡ 8
identifier_length manager timeout =
    ap length (create_identifier manager timeout) ∙ length-little_endian 8 _

unready :
    {e : RequestError} {after : RequestManager} {request : Request} {m : Bytes}
    → ◌≡◌ {A = Go Prepared} (value (refused e)) (value (ready after request m))
    → ⊥
unready h = cc

composed_from :
    (r : Go Bytes) (manager after : RequestManager) (request created : Request) (m : Bytes)
    → (r >>= (λ x. value (ready manager created x))) ≡ value (ready after request m)
    → (r ≡ value m) × (◌≡◌ {A = RequestManager × Request} (manager, created) (after, request))
composed_from (value x) manager after request created m h = (cc, ground (arith, h))
composed_from (panic p) manager after request created m h = cc

prepared :
    (name : Bytes) (payload : Option Payload) (timeout : ℕ) (manager after : RequestManager)
    (request : Request) (m : Bytes)
    → prepare_request none name payload timeout manager ≡ value (ready after request m)
    → (is_missing name payload ≡ false)
      × (new_request_message
            (create manager timeout).1.identifier
            name
            (encoding_of payload)
            (data_of payload)
          ≡ value m)
      × (create manager timeout ≡ (after, request))
unfolding prepare_request
prepared name payload timeout manager after request m h =
    elim (Bool-cases (is_missing name payload)) [
      | inl missing ↦ absurd (unready (simp missing at h))
      | inr there ↦
          let (made, same) = composed_from _ _ after request _ m (simp there at h) in
          (there, made, same)
    ]

request_type_scanned :
    (payload : Option Payload) → request_type (encoding_of payload) ≡ scan_payload_encoding payload
unfolding scan_payload_encoding
request_type_scanned none = refl
request_type_scanned (some payload) = ground arith

-- sendRequest, with a context that is not done, has a message to write exactly for a name or a payload
-- or both, a printable name of at most 255 bytes and an even payload if it is UTF16; and then the
-- request is a new one in the manager, no pending request has its identifier, and the server parses
-- the message to that identifier, the name, the payload, and the type that scanPayloadEncoding tells.
pub prepare_request-ready :
    (name : Bytes) (payload : Option Payload) (timeout : ℕ) (manager : RequestManager)
    → IsIssued manager
    → manager.last_id + 1 < 2 ^ 64
    → (((after : RequestManager) × (request : Request) × (m : Bytes) × (prepare_request none name
              payload timeout manager
            ≡ value (ready after request m)))
        ↔ IsRequest name (encoding_of payload) (data_of payload))
      × ((after : RequestManager) (request : Request) (m : Bytes)
          → prepare_request none name payload timeout manager ≡ value (ready after request m)
          → (create manager timeout ≡ (after, request))
            × (find bytes_discrete request.identifier manager.pending ≡ none)
            × (parse zero_message m
                ≡ value (
                    received
                      (scan_payload_encoding payload)
                      request.identifier
                      name
                      (encoding_of payload)
                      (data_of payload))))
unfolding prepare_request
prepare_request-ready name payload timeout manager i few =
    let id = (create manager timeout).1.identifier in
    let long = identifier_length manager timeout in
    (
      (
        λ (after, request, m, h).
            let (there, made, same) = prepared name payload timeout manager after request m h in
            ((new_request_message-eq_value id long name (encoding_of payload) (data_of payload) m).0
              made).0,
        λ s.
            let made =
              (new_request_message-eq_value id long name (encoding_of payload) (data_of payload)
                  _).1
                (s, refl) in
            (
              (create manager timeout).0,
              (create manager timeout).1,
              request_layout id name (encoding_of payload) (data_of payload),
              simp (not_missing name payload s.something, made),
            ),
      ),
      λ after request m h.
          let (there, made, same) = prepared name payload timeout manager after request m h in
          let id_of : id ≡ request.identifier = ap (λ r. r.1.identifier) same in
          (
            same,
            rw (← id_of) (create-fresh manager timeout i few).0,
            rw (← id_of, ← request_type_scanned payload)
                (parse-new_request_message id long name (encoding_of payload) (data_of payload) m
                  made),
          ),
    )
