-- ===== src/Server/Restored.antt =====
-- handleSessionRestore.go: what a restored session is, for the connection, for the registry and for
-- the client.
use webwire_go.Connection.Encoded.{VarMap, EncodedSession}
use webwire_go.Base.{
  Bool-cases, inl, inr, length, ◌≡◌, refl, ◌≢◌, ℕ, true, false, Option, none, some, ap, ◌∙◌,
}
use webwire_go.Client.{fulfills}
use webwire_go.Client.Understanding.{Understands, fulfill_msg-understood}
use webwire_go.Connection.{Session, key_of}
use webwire_go.Message.{Message}
use webwire_go.Payload.{utf8}
use webwire_go.Registry.{ConnId, Key, register, SessionRegistry, RegisterError}
use webwire_go.Registry.View.{registered, register-registered}
use webwire_go.Runtime.{Bytes, value, bytes_discrete}
use webwire_go.Server.Handlers.{
  World, found, Setup, sock_write, fulfill_with, is_crowded, parsed, after_register,
  restore_session, after_lookup, handle_session_restore,
}
use webwire_go.Server.Replies.{fulfill_msg}
use webwire_go.Server.Restoration.{is_crowded-register}
use mathlib.Core.Logic.{ite, if_pos, if_neg}
use native.Mathlib.Decide.{ℕ_discrete}

-- The lookup has found the session, from this world on.
abbrev pub stored : Message → ℕ → ℕ → Option VarMap → EncodedSession
stored message creation last_lookup info = record {
  key = message.payload.bytes;
  creation = creation;
  last_lookup = last_lookup;
  info = info;
}

-- A lookup that finds the session on a server with sessions, with room for one more connection before
-- it and at the registration, a session that can be encoded, and the reply that carries it.
pub record IsFound (srv : Setup) (message : Message) (w v : World) (creation last_lookup : ℕ)
    (info : Option VarMap) (encoded reply : Bytes) : Type 0 where
  pub enabled : srv.sessions_enabled ≡ true
  pub room : is_crowded w.asr message.payload.bytes ≡ false
  pub looked_up :
      srv.on_session_lookup message.payload.bytes w ≡ (v, found creation last_lookup info)
  pub marshalled : srv.marshal (stored message creation last_lookup info) ≡ some encoded
  pub still_room : is_crowded (srv.before_register v) message.payload.bytes ≡ false
  pub composed : fulfill_msg message utf8 encoded ≡ value reply

-- The connection with the restored session, and the registry with the connection.
abbrev pub with_session : Setup → Message → World → ℕ → ℕ → Option VarMap → World
with_session srv message v creation last_lookup info = record v {
  con = record (v.con) {
    session = some (parsed srv.session_info_parser (stored message creation last_lookup info));
  };
  asr = (register (srv.before_register v) message.payload.bytes v.con.id).0;
}

after_register-works :
    (srv : Setup) (message : Message) (encoded : Bytes) (w : World)
    (r : SessionRegistry × Option RegisterError)
    → r.1 ≡ none
    → after_register srv message encoded w r
      ≡ fulfill_with srv message utf8 encoded (record w { asr = r.0 })
unfolding after_register
after_register-works srv message encoded w (asr, none) h = refl
after_register-works srv message encoded w (asr, some err) h = cc

sock_write-keeps :
    (srv : Setup) (m : Bytes) (w : World)
    → ((sock_write srv m w).0.con ≡ w.con) × ((sock_write srv m w).0.asr ≡ w.asr)
unfolding sock_write
sock_write-keeps srv m w = elim (Bool-cases (srv.write_fails m w)) [
  | inl fails ↦ rw fails (refl, refl)
  | inr works ↦ rw works (refl, refl)
]

sent_reply :
    (srv : Setup) (message : Message) (encoded reply : Bytes) (w : World)
    → fulfill_msg message utf8 encoded ≡ value reply
    → fulfill_with srv message utf8 encoded w ≡ value (sock_write srv reply w).0
unfolding fulfill_with
sent_reply srv message encoded reply w h = rw h

module _ (srv : Setup) (message : Message) (w v : World) (creation last_lookup : ℕ)
    (info : Option VarMap) (encoded reply : Bytes)
    (f : IsFound srv message w v creation last_lookup info encoded reply) where
  register-ok : (register (srv.before_register v) message.payload.bytes v.con.id).1 ≡ none
  register-ok =
      (is_crowded-register (srv.before_register v) message.payload.bytes v.con.id).1 f.still_room

  restored :
      handle_session_restore srv message w
      ≡ value (sock_write srv reply (with_session srv message v creation last_lookup info)).0
  unfolding handle_session_restore restore_session fulfill_with
  restored =
      let key : Key = message.payload.bytes in
      let given : World = record v {
        con = record (v.con) {
          session =
              some (parsed srv.session_info_parser (stored message creation last_lookup info));
        };
      } in
      simp (f.enabled, f.room, f.looked_up)
        (rw (after_lookup, f.marshalled)
          (after_register-works srv message encoded given
              (register (srv.before_register v) key v.con.id) register-ok
            ∙ sent_reply srv message encoded reply _ f.composed))

  -- Then handleSessionRestore gives the connection the session of that key as the lookup has found it,
  -- registers the connection under the key, changes nothing else in the registry as it is then, and
  -- sends a reply, which the client takes as the fulfilment of its request with the encoded session.
  pub session_restored :
      length message.identifier ≡ 8
      → let u = with_session srv message v creation last_lookup info in
        (handle_session_restore srv message w ≡ value (sock_write srv reply u).0)
        × ((k : Key) (c : ConnId)
            → registered u.asr k c
              ≡ ite
                  (bytes_discrete message.payload.bytes k)
                  (ite (ℕ_discrete v.con.id c) (some tt) (registered (srv.before_register v) k c))
                  (registered (srv.before_register v) k c))
        × Understands reply
            (fulfills message.identifier (record { encoding = utf8; bytes = encoded }))
  session_restored n = (
    restored,
    register-registered (srv.before_register v) message.payload.bytes v.con.id register-ok,
    fulfill_msg-understood message n utf8 encoded reply f.composed,
  )

  -- On a server with sessions and room for one more connection, where the lookup finds the session and
  -- it can be encoded: a connection that has another session, and is registered for it, has the
  -- restored session after handleSessionRestore, and is registered for both.
  keeps_old_registration :
      (old : Session)
      → v.con.session ≡ some old
      → message.payload.bytes ≢ old.key
      → registered (srv.before_register v) old.key v.con.id ≡ some tt
      → (u : World) × (handle_session_restore srv message w ≡ value u)
        × (key_of u.con.session ≡ some message.payload.bytes)
        × (registered u.asr old.key v.con.id ≡ some tt)
        × (registered u.asr message.payload.bytes v.con.id ≡ some tt)
  keeps_old_registration old e ne there =
      let u = with_session srv message v creation last_lookup info in
      let view =
        register-registered (srv.before_register v) message.payload.bytes v.con.id register-ok in
      (
        (sock_write srv reply u).0,
        restored,
        ap (λ con. key_of con.session) (sock_write-keeps srv reply u).0,
        ap (λ asr. registered asr old.key v.con.id) (sock_write-keeps srv reply u).1
            ∙ view old.key v.con.id
            ∙ rw (if_neg _ ne) there,
        ap (λ asr. registered asr message.payload.bytes v.con.id) (sock_write-keeps srv reply u).1
            ∙ view message.payload.bytes v.con.id
            ∙ rw
                (
                  if_pos (bytes_discrete message.payload.bytes message.payload.bytes) refl,
                  if_pos (ℕ_discrete v.con.id v.con.id) refl,
                )
                refl,
      )
