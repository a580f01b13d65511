-- ===== src/Client/Tests.antt =====
-- The first request of a client, and the theorem on it.
use webwire_go.Base.{◌≡◌, ◌↔◌, arith, none, [], ◌∷◌}
use webwire_go.Client.Requests.{prepare_request, ready, scan_payload_encoding}
use webwire_go.Client.Sending.{prepare_request-ready}
use webwire_go.Map.{find}
use webwire_go.Message.{zero_message}
use webwire_go.Message.Parse.{parse}
use webwire_go.Message.RoundTrip.{received}
use webwire_go.Message.Validity.{IsRequest}
use webwire_go.Payload.{binary}
use webwire_go.RequestManager.{Request, RequestManager, create, new_request_manager}
use webwire_go.RequestManager.Identifiers.{new_request_manager-IsIssued}
use webwire_go.Runtime.{Bytes, bytes_discrete, value}

prepare_request-ready_example :
    (((after : RequestManager) × (request : Request) × (m : Bytes) × (prepare_request none
            (b'a' ∷ [])
            none
            5
            new_request_manager
          ≡ value (ready after request m)))
      ↔ IsRequest (b'a' ∷ []) binary [])
    × ((after : RequestManager) (request : Request) (m : Bytes)
        → prepare_request none (b'a' ∷ []) none 5 new_request_manager
          ≡ value (ready after request m)
        → (create new_request_manager 5 ≡ (after, request))
          × (find bytes_discrete request.identifier new_request_manager.pending ≡ none)
          × (parse zero_message m ≡ value (received 127 request.identifier (b'a' ∷ []) binary [])))
unfolding scan_payload_encoding
prepare_request-ready_example =
    prepare_request-ready (b'a' ∷ []) none 5 new_request_manager new_request_manager-IsIssued
      (unfold new_request_manager in omega arith)
