-- ===== src/Server/Synchrony.antt =====
-- A session on the server and on its client: connection.go, handleSessionClosure.go,
-- handleSessionRestore.go and client/handle.go.
use webwire_go.Connection.Encoded.{
  VarMap, EncodedSession, var_map_of, encoded_form, field_of, field_in, var_map_of-fields,
}
use webwire_go.Base.{
  length, ◌≡◌, refl, ◌<◌, true, false, ℕ, Option, none, some, [], ◌∷◌, ◌++◌, arith,
}
use webwire_go.Client.{fulfills, on_session_created, on_session_closed, react, handle_message}
use webwire_go.Client.Sessions.{handle_session_created, zero_time, held, receive, restored_session}
use webwire_go.Client.Understanding.{Understands, fulfill_msg-understood}
use webwire_go.Connection.{Session, has_session}
use webwire_go.Message.{Message, msg_session_created, msg_session_closed}
use webwire_go.Message.Bodies.{parse_session_closed}
use webwire_go.Message.Parse.{form_of, parse, parse_form, parse_kind}
use webwire_go.Payload.{Payload, binary, utf8}
use webwire_go.Registry.{ConnId, Key, deregister, register}
use webwire_go.Registry.View.{registered}
use webwire_go.Runtime.{Bytes, bytes_discrete, value, read_byte}
use webwire_go.Server.Created.{create_session-created}
use webwire_go.Server.Creation.{create_session}
use webwire_go.Server.Handlers.{
  parse_info, World, Setup, after_notice, fulfill_with, handle_session_closure,
  handle_session_restore, sock_write,
}
use webwire_go.Server.Replies.{fulfill_msg}
use webwire_go.Server.Restored.{IsFound, session_restored, stored, with_session}
use mathlib.Core.Logic.{ite}
use native.Mathlib.Decide.{ℕ_discrete}

holds_session :
    (w : World) (session : Session) → w.con.session ≡ some session → has_session w.con ≡ true
unfolding has_session
holds_session w session e = ground arith

written :
    (srv : Setup) (m : Bytes) (w : World)
    → srv.write_fails m w ≡ false
    → sock_write srv m w ≡ (record w { sent = w.sent ++ (m ∷ []) }, false)
unfolding sock_write
written srv m w h = ground (arith, h)

module _ (unmarshal : Bytes → Option EncodedSession) (parser : Option (VarMap → ℕ)) where
  received_created :
      (m encoded : Bytes) (session : EncodedSession) (before : Option Session)
      → Understands m (on_session_created (record { encoding = binary; bytes = encoded }))
      → unmarshal encoded ≡ some session
      → receive unmarshal parser m before ≡ value (some (held parser session))
  unfolding receive
  received_created m encoded session before u e = rw u (rw (handle_session_created, e) refl)

  -- A session that CreateSession creates, on a connection without one, with a key, a socket that works
  -- and a JSON that the client decodes to what was encoded: the connection has the session, one message
  -- was sent, and a client that receives it holds the session's key and creation, and, by the
  -- client's own parser, the information of a map that has the fields that the session's information
  -- lists, each with its value, and no other, whatever session the client held before.
  pub created_synchronised :
      (srv : Setup) (hook : World → World) (attachment : Option ℕ) (key : Key) (now : ℕ) (w : World)
      (encoded : Bytes) (before : Option Session)
      → let session : Session = record {
        key = key;
        creation = now;
        last_lookup = now;
        info = attachment;
      } in
        srv.sessions_enabled ≡ true
        → w.con.session ≡ none
        → 0 < length key
        → srv.marshal (encoded_form srv.info_methods session) ≡ some encoded
        → unmarshal encoded ≡ some (encoded_form srv.info_methods session)
        → 0 < length encoded
        → srv.write_fails (msg_session_created ∷ encoded) w ≡ false
        → (m : Bytes) × (create_session srv true hook attachment key now w
            ≡ value (
              hook (record w {
                con = record (w.con) { session = some session };
                asr = (register w.asr key w.con.id).0;
                sent = w.sent ++ (m ∷ []);
              }),
              none,
            ))
          × ((info : Option VarMap) × (receive unmarshal parser m before
                ≡ value (
                    some (record {
                      key = key;
                      creation = now;
                      last_lookup = zero_time;
                      info = parse_info parser info;
                    })))
              × ((field : Bytes)
                  → field_in info field ≡ field_of srv.info_methods attachment field))
  created_synchronised srv hook attachment key now w encoded before on e k enc dec l wr =
      let (made, u) =
        create_session-created srv hook attachment key now w encoded on e k enc l wr in
      (
        msg_session_created ∷ encoded,
        made,
        (
          var_map_of srv.info_methods attachment,
          received_created _ encoded _ before u dec,
          var_map_of-fields srv.info_methods attachment,
        ),
      )

  closed-understood : Understands (msg_session_closed ∷ []) on_session_closed
  unfolding handle_message react parse parse_kind form_of parse_form parse_session_closed read_byte
  closed-understood = refl

  -- A client's request to close the session of its connection, with sessions enabled and a socket that
  -- works: the connection leaves the session's registry entry and has no session, the notice is sent
  -- and after it the reply, a client that receives the notice holds no session, whatever it held, and
  -- takes the reply as the fulfilment of its request.
  pub closed_synchronised :
      (srv : Setup) (message : Message) (w : World) (session : Session) (reply : Bytes)
      (before : Option Session)
      → length message.identifier ≡ 8
      → srv.sessions_enabled ≡ true
      → w.con.session ≡ some session
      → ((m : Bytes) (v : World) → srv.write_fails m v ≡ false)
      → fulfill_msg message binary [] ≡ value reply
      → (handle_session_closure srv message w
          ≡ value (record w {
            con = record (w.con) { session = none };
            asr = (deregister w.asr (some session.key) w.con.id).0;
            sent = (w.sent ++ ((msg_session_closed ∷ []) ∷ [])) ++ (reply ∷ []);
          }))
        × (receive unmarshal parser (msg_session_closed ∷ []) before ≡ value none)
        × Understands reply (fulfills message.identifier (record { encoding = binary; bytes = [] }))
  unfolding handle_session_closure fulfill_with after_notice receive
  closed_synchronised srv message w session reply before n on e wr f = (
    simp (on, holds_session w session e, written srv _ _ (wr _ _), f) (rw e refl),
    rw closed-understood refl,
    fulfill_msg-understood message n binary [] reply f,
  )

  -- On a server with sessions and room for one more connection, at the check and at the registration,
  -- where the lookup finds the session, it can be encoded and the client decodes it to the same:
  -- handleSessionRestore gives the connection that session, registers it under the key, changes
  -- nothing else in the registry as it is then, and writes a reply, from which a client that gets it
  -- holds the session's key and creation, and its information by its own parser.
  pub restored_synchronised :
      (srv : Setup) (message : Message) (w v : World) (creation last_lookup : ℕ)
      (info : Option VarMap) (encoded reply : Bytes)
      → IsFound srv message w v creation last_lookup info encoded reply
      → length message.identifier ≡ 8
      → unmarshal encoded ≡ some (stored message creation last_lookup info)
      → let u = with_session srv message v creation last_lookup info in
        (handle_session_restore srv message w ≡ value (sock_write srv reply u).0)
        × ((k : Key) (c : ConnId)
            → registered u.asr k c
              ≡ ite
                  (bytes_discrete message.payload.bytes k)
                  (ite (ℕ_discrete v.con.id c) (some tt) (registered (srv.before_register v) k c))
                  (registered (srv.before_register v) k c))
        × ((payload : Payload) × Understands reply (fulfills message.identifier payload)
            × (restored_session unmarshal parser (some payload)
                ≡ some (held parser (stored message creation last_lookup info))))
  unfolding restored_session
  restored_synchronised srv message w v creation last_lookup info encoded reply f n dec =
      let (done, view, u) =
        session_restored srv message w v creation last_lookup info encoded reply f n in
      (
        done,
        view,
        (record { encoding = utf8; bytes = encoded }, u, rw (restored_session, dec) refl),
      )
