-- ===== src/Client/Connecting/Versions.antt =====
-- client/verifyProtocolVersion.go against handleMetadata.go and serveHttp.go: what a client makes of
-- the answer of a server.
use webwire_go.Base.{
  if◌then◌else◌, ◌≡◌, refl, ap, ◌≢◌, Bool, true, false, Option, none, some, [], ◌∷◌, ◌++◌, arith,
  Bool-cases, inl, inr,
}
use webwire_go.Client.Connecting.{Response, check_response, verify_protocol_version}
use webwire_go.Errors.{disconnected_err}
use webwire_go.Runtime.{Bytes, bytes_discrete, value}
use webwire_go.Serving.{
  webwire_method, Call, http_error, writes_metadata, status_service_unavailable, Exchange, Serving,
  serve_http, handle_metadata, protocol_version,
}

-- What HTTP makes of a call of the server: a status, and a body that can be read.
abbrev pub IsResponse : Call → Response → Type 0
IsResponse (http_error code) r = (r.status_code ≡ code) × (r.body ≢ none)
IsResponse (writes_metadata encoded) r = (r.status_code ≡ 200) × (r.body ≡ some encoded)
IsResponse _ r = ⊥

unavailable :
    (unmarshal : Bytes → Option Bytes) (r : Response) (body : Option Bytes)
    → r.body ≡ body
    → IsResponse (http_error status_service_unavailable) r
    → check_response unmarshal (some r) ≡ some disconnected_err
unfolding check_response
unavailable unmarshal r none e h = absurd (h.1 e)
unavailable unmarshal r (some b) e h = ground (arith, e, h.0)

compatible :
    (encode : Bytes → Bytes) (unmarshal : Bytes → Option Bytes)
    → ((version : Bytes) → unmarshal (encode version) ≡ some version)
    → (r : Response) → IsResponse (handle_metadata encode) r
    → check_response unmarshal (some r) ≡ none
unfolding check_response handle_metadata bytes_discrete
compatible encode unmarshal j r h = rw (h.1, h.0, j protocol_version) refl

metadata_or_error :
    (encode : Bytes → Bytes) (x : Exchange) (srv : Serving)
    → x.method ≡ webwire_method
    → serve_http encode x srv ≡ record srv {
      calls =
          srv.calls
          ++ ((if srv.ops.shutdown
                then http_error status_service_unavailable
                else handle_metadata encode)
              ∷ []);
    }
unfolding serve_http bytes_discrete
metadata_or_error encode x srv h = elim (Bool-cases srv.ops.shutdown) [
  | inl stopping ↦ simp stopping
  | inr running ↦ rw h (simp running)
]

verdict :
    (encode : Bytes → Bytes) (unmarshal : Bytes → Option Bytes)
    → ((version : Bytes) → unmarshal (encode version) ≡ some version)
    → (stopping : Bool) (r : Response)
    → IsResponse
        (if stopping then http_error status_service_unavailable else handle_metadata encode)
        r
    → check_response unmarshal (some r) ≡ (if stopping then some disconnected_err else none)
verdict encode unmarshal j true r h = unavailable unmarshal r r.body refl h
verdict encode unmarshal j false r h = compatible encode unmarshal j r h

-- Where the JSON library finds in what it has encoded the version that was encoded: the server
-- answers a request for the metadata by one call and changes nothing else, and the client's check
-- returns: without an error if the server is not stopping, and with a DisconnectedErr if it is.
pub verifies_server :
    (encode : Bytes → Bytes) (unmarshal : Bytes → Option Bytes)
    → ((version : Bytes) → unmarshal (encode version) ≡ some version)
    → (x : Exchange) (srv : Serving) → x.method ≡ webwire_method
    → (call : Call) × (serve_http encode x srv ≡ record srv { calls = srv.calls ++ (call ∷ []) })
      × ((r : Response)
          → IsResponse call r
          → verify_protocol_version unmarshal true (some r)
            ≡ value (if srv.ops.shutdown then some disconnected_err else none))
unfolding verify_protocol_version
verifies_server encode unmarshal j x srv h = (
  _,
  metadata_or_error encode x srv h,
  λ r k. ap value (verdict encode unmarshal j srv.ops.shutdown r k),
)
