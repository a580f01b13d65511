-- ===== src/Echo/Tests.antt =====
-- A request to an echo server, and the theorem on it.
use webwire_go.Base.{◌≡◌, refl, arith, none, some, [], ◌∷◌, ◌++◌}
use webwire_go.Client.{fulfills}
use webwire_go.Client.Requests.{prepare_request, ready}
use webwire_go.Client.Understanding.{Understands}
use webwire_go.Echo.{echoing, echoes}
use webwire_go.Map.{find}
use webwire_go.Message.Validity.{IsRequest}
use webwire_go.Payload.{Payload, utf16}
use webwire_go.RequestManager.{Request, RequestManager, new_request_manager}
use webwire_go.RequestManager.Identifiers.{new_request_manager-IsIssued}
use webwire_go.Runtime.{Bytes, bytes_discrete, value}
use webwire_go.Server.Dispatch.{handle_message}
use webwire_go.Server.Examples.{opened, opened-IsReady, setup}
use webwire_go.Server.Handlers.{Setup, answered}

abbrev srv : Setup
srv = setup (answered none)

abbrev greeting : Payload
greeting = record { encoding = utf16; bytes = 0x41 ∷ 0 ∷ [] }

echoes_example :
    (after : RequestManager) × (request : Request) × (m reply : Bytes) × (prepare_request none
        (b'a' ∷ [])
        (some greeting)
        5
        new_request_manager
      ≡ value (ready after request m))
    × (find bytes_discrete request.identifier new_request_manager.pending ≡ none)
    × (handle_message (echoing srv) m opened
        ≡ value (some (record opened { sent = opened.sent ++ (reply ∷ []) })))
    × Understands reply (fulfills request.identifier greeting)
echoes_example =
    let valid : IsRequest (b'a' ∷ []) utf16 (0x41 ∷ 0 ∷ []) = record {
      something = omega arith;
      short = omega arith;
      aligned = refl;
      printable = ((omega arith, omega arith), tt);
    } in
    echoes srv (b'a' ∷ []) (some greeting) 5 new_request_manager opened valid
      new_request_manager-IsIssued (unfold new_request_manager in omega arith) opened-IsReady
      (λ m w. refl)
