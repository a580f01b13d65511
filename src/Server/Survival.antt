-- ===== src/Server/Survival.antt =====
-- client/connect.go, client/requestSessionRestoration.go and handleSessionRestore.go: the session of a
-- client that has connected anew.
use webwire_go.Connection.Encoded.{VarMap, EncodedSession}
use webwire_go.Base.{length, ◌≡◌, ◌≤◌, refl, ℕ, Option, some, []}
use webwire_go.Client.{fulfills}
use webwire_go.Client.Sessions.{held}
use webwire_go.Client.Understanding.{Understands}
use webwire_go.Connection.{Session}
use webwire_go.Message.Parse.{parse}
use webwire_go.Payload.{Payload, binary}
use webwire_go.Registry.{ConnId, Key}
use webwire_go.Registry.View.{registered}
use webwire_go.Runtime.{Bytes, bytes_discrete, value}
use webwire_go.Server.Handlers.{World, Setup, handle_session_restore, sock_write}
use webwire_go.Server.Restored.{IsFound, stored, with_session}
use mathlib.Core.Logic.{ite}
use native.Mathlib.Decide.{ℕ_discrete}
use webwire_go.Client.Requests.{prepare_nameless_request}
use webwire_go.Client.Sending.{identifier_length}
use webwire_go.Client.Sessions.{session_after_connect}
use webwire_go.Message.{zero_message, msg_restore_session}
use webwire_go.Message.Layout.{new_nameless_request_message-layout}
use webwire_go.Message.RoundTrip.{received, parse-restore_request}
use webwire_go.RequestManager.{RequestManager, create}
use webwire_go.Server.Synchrony.{restored_synchronised}

prepared_restoration :
    (manager : RequestManager) (timeout : ℕ) (key : Bytes)
    → 1 ≤ length key
    → let (after, request) = create manager timeout in
      (m : Bytes) × (prepare_nameless_request msg_restore_session key timeout manager
        ≡ value (after, request, m))
      × (parse zero_message m
          ≡ value (received msg_restore_session request.identifier [] binary key))
unfolding prepare_nameless_request
prepared_restoration manager timeout key h =
    let request = (create manager timeout).1 in
    let long = identifier_length manager timeout in
    let made =
      new_nameless_request_message-layout request.identifier long msg_restore_session key in
    (_, rw made refl, parse-restore_request request.identifier long key _ h made)

-- A client with a session connects anew, to a server with sessions and room for one more connection, at
-- the check and at the registration, where the lookup finds the session, it can be encoded and the
-- client decodes it to the same: the server parses the client's request to one for that session's
-- key, gives the connection the session, registers it under the key, changes nothing else in the
-- registry as it is then, and writes a reply, after which a client that gets it holds the key of its
-- session as before, the creation that the server knows, and the information by its own parser.
pub session_survives :
    (unmarshal : Bytes → Option EncodedSession) (parser : Option (VarMap → ℕ))
    (manager : RequestManager) (timeout : ℕ) (old : Session) (srv : Setup) (w v : World)
    (creation last_lookup : ℕ) (info : Option VarMap) (encoded reply : Bytes)
    → let (after, request) = create manager timeout in
      let arrived = received msg_restore_session request.identifier [] binary old.key in
      let u = with_session srv arrived.message v creation last_lookup info in
      1 ≤ length old.key
      → IsFound srv arrived.message w v creation last_lookup info encoded reply
      → unmarshal encoded ≡ some (stored arrived.message creation last_lookup info)
      → ((m : Bytes) × (prepare_nameless_request msg_restore_session old.key timeout manager
            ≡ value (after, request, m))
          × (parse zero_message m ≡ value arrived))
        × (handle_session_restore srv arrived.message w ≡ value (sock_write srv reply u).0)
        × ((k : Key) (c : ConnId)
            → registered u.asr k c
              ≡ ite
                  (bytes_discrete old.key k)
                  (ite (ℕ_discrete v.con.id c) (some tt) (registered (srv.before_register v) k c))
                  (registered (srv.before_register v) k c))
        × ((payload : Payload) × Understands reply (fulfills request.identifier payload)
            × (session_after_connect unmarshal parser (some payload) (some old)
                ≡ some (held parser (stored arrived.message creation last_lookup info))))
unfolding session_after_connect
session_survives unmarshal parser manager timeout old srv w v creation last_lookup info encoded
      reply h f dec =
    let request = (create manager timeout).1 in
    let arrived = received msg_restore_session request.identifier [] binary old.key in
    let (done, view, told) =
      restored_synchronised unmarshal parser srv arrived.message w v creation last_lookup info
        encoded reply f (identifier_length manager timeout) dec in
    (prepared_restoration manager timeout old.key h, done, view, told)
