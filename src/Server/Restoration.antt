-- ===== src/Server/Restoration.antt =====
-- handleSessionRestore.go: the limit of a session's connections, checked before the lookup and again
-- by the registration.
use webwire_go.Connection.Encoded.{VarMap, EncodedSession}
use webwire_go.Base.{
  ℕ, true, Bool-cases, Option-cases, length, ◌≤◌, ◌≡◌, refl, ◌≢◌, ◌↔◌, inl, inr, false, Option,
  none, some, arith,
}
use webwire_go.Connection.{Session}
use webwire_go.Errors.{RequestError, sessions_disabled_err, max_sess_conns_reached_err}
use webwire_go.Map.{find}
use webwire_go.Message.{Message}
use webwire_go.Message.Validity.{new_reply_message-eq_value}
use webwire_go.Payload.{Encoding, utf8}
use webwire_go.Registry.{
  ConnId, Key, ConnSet, SessionRegistry, RegisterError, register_at, register,
  session_connections_num,
}
use webwire_go.Runtime.{Bytes, Panic, panic, session_connections_exceeded, bytes_discrete}
use webwire_go.Server.Answers.{IsSendable, error_reply-sent}
use webwire_go.Server.Handlers.{
  World, LookupResult, lookup_failed, not_found, found, Setup, fail_with, fulfill_with, is_crowded,
  parsed, is_crowded_by, after_register, restore_session, after_lookup, handle_session_restore,
}
use webwire_go.Server.Replies.{fail_msg, fulfill_msg}

is_crowded-register_at :
    (asr : SessionRegistry) (key : Key) (con : ConnId) (o : Option ConnSet)
    → find bytes_discrete key asr.registry ≡ o
    → (register_at asr key con o).1 ≡ none ↔ is_crowded asr key ≡ false
unfolding register_at session_connections_num
is_crowded-register_at asr key con none e = rw (is_crowded, e) ((λ h. refl), λ h. refl)
is_crowded-register_at asr key con (some s) e = rw (is_crowded, e) (ground arith)

-- The registration fails exactly where the check before the lookup would have.
pub is_crowded-register :
    (asr : SessionRegistry) (key : Key) (con : ConnId)
    → (register asr key con).1 ≡ none ↔ is_crowded asr key ≡ false
unfolding register
is_crowded-register asr key con = is_crowded-register_at asr key con _ refl

abbrev json : Encoding
json = utf8

fulfill_with-returns :
    (srv : Setup) (message : Message) (content : Bytes) (w : World) (p : Panic)
    → length message.identifier ≡ 8
    → fulfill_with srv message json content w ≢ panic p
unfolding fulfill_with fulfill_msg
fulfill_with-returns srv message content w p n h =
    let e = (new_reply_message-eq_value message.identifier n json content _).1 (tt, refl) in
    cc (e, h)

fail_with-returns :
    (srv : Setup) (message : Message) (err : Option RequestError) (w : World) (p : Panic)
    → length message.identifier ≡ 8
    → IsSendable err
    → fail_with srv message err w ≢ panic p
unfolding fail_with fail_msg
fail_with-returns srv message err w p n s h =
    let (m, e) = error_reply-sent message.identifier n err s in ground (arith, h, e)

after_register-returns :
    (srv : Setup) (message : Message) (encoded : Bytes) (w : World)
    (r : SessionRegistry × Option RegisterError) (p : Panic)
    → length message.identifier ≡ 8
    → r.1 ≡ none
    → after_register srv message encoded w r ≢ panic p
unfolding after_register
after_register-returns srv message encoded w (asr, some err) p n h = λ e. cc
after_register-returns srv message encoded w (asr, none) p n h =
    fulfill_with-returns srv message encoded (record w { asr = asr }) p n

restore_session-returns :
    (srv : Setup) (message : Message) (session : Session) (encoded : Bytes) (w : World) (p : Panic)
    → length message.identifier ≡ 8
    → is_crowded (srv.before_register w) session.key ≡ false
    → restore_session srv message session encoded w ≢ panic p
unfolding restore_session
restore_session-returns srv message session encoded w p n c =
    after_register-returns srv message encoded
      (record w { con = record (w.con) { session = some session } })
      (register (srv.before_register w) session.key w.con.id) p n
      ((is_crowded-register (srv.before_register w) session.key w.con.id).1 c)

after_lookup-returns :
    (srv : Setup) (message : Message) (key : Key) (w : World) (r : LookupResult) (p : Panic)
    → length message.identifier ≡ 8
    → is_crowded (srv.before_register w) key ≡ false
    → after_lookup srv message key (w, r) ≢ panic p
unfolding after_lookup
after_lookup-returns srv message key w lookup_failed p n c =
    fail_with-returns srv message none w p n tt
after_lookup-returns srv message key w not_found p n c = fail_with-returns srv message _ w p n tt
after_lookup-returns srv message key w (found creation last_lookup info) p n c =
    let stored : EncodedSession = record {
      key = key;
      creation = creation;
      last_lookup = last_lookup;
      info = info;
    } in
    elim (Option-cases (srv.marshal stored)) [
      | inl failed ↦ rw (after_lookup, failed) (fail_with-returns srv message none w p n tt)
      | inr (encoded, e) ↦
          rw (after_lookup, e)
            (restore_session-returns srv message (parsed srv.session_info_parser stored) encoded w p
              n c)
    ]

abbrev counted : Option ℕ → ℕ
counted none = 0
counted (some n) = n

-- The number of connections that a session has.
abbrev pub connections_of : SessionRegistry → Key → ℕ
connections_of asr key = counted (session_connections_num asr key)

is_crowded_by_mono :
    (max_conns : ℕ) (o o' : Option ℕ)
    → counted o' ≤ counted o
    → is_crowded_by max_conns o ≡ false
    → is_crowded_by max_conns o' ≡ false
is_crowded_by_mono max_conns o none h c = refl
is_crowded_by_mono max_conns none (some n) h c = ground (arith, h)
is_crowded_by_mono max_conns (some m) (some n) h c = ground (arith, h, c)

is_crowded_mono :
    (before after : SessionRegistry) (key : Key)
    → after.max_conns ≡ before.max_conns
    → connections_of after key ≤ connections_of before key
    → is_crowded before key ≡ false
    → is_crowded after key ≡ false
unfolding session_connections_num
is_crowded_mono before after key e h c = rw e (is_crowded_by_mono before.max_conns _ _ h c)

-- If nothing else is done to the connection meanwhile, and, when handleSessionRestore registers it, the
-- limit is the same and the session of the key has at most as many connections as when the limit was
-- checked, whatever other goroutines have done to the registry in the lookup and after it, then
-- handleSessionRestore returns: it does not panic, whatever the session key, the lookup's result and
-- the registry are.
pub handle_session_restore-returns :
    (srv : Setup) (message : Message) (w : World) (p : Panic)
    → let key : Key = message.payload.bytes in
      let later : SessionRegistry = srv.before_register (srv.on_session_lookup key w).0 in
      length message.identifier ≡ 8
      → later.max_conns ≡ w.asr.max_conns
      → connections_of later key ≤ connections_of w.asr key
      → handle_session_restore srv message w ≢ panic p
unfolding handle_session_restore
handle_session_restore-returns srv message w p n same few =
    let key : Key = message.payload.bytes in
    elim (Bool-cases srv.sessions_enabled) [
      | inr off ↦ simp off (fail_with-returns srv message (some sessions_disabled_err) w p n tt)
      | inl on ↦ elim (Bool-cases (is_crowded w.asr key)) [
        | inl full ↦
            simp (on, full)
              (fail_with-returns srv message (some max_sess_conns_reached_err) w p n tt)
        | inr room ↦
            let r = srv.on_session_lookup key w in
            simp (on, room)
              (after_lookup-returns srv message key r.0 r.1 p n
                (is_crowded_mono w.asr (srv.before_register r.0) key same few room))
      ]
    ]

register-crowded :
    (asr : SessionRegistry) (key : Key) (con : ConnId)
    → is_crowded asr key ≡ true
    → (e : RegisterError) × ((register asr key con).1 ≡ some e)
register-crowded asr key con h = elim (Option-cases ((register asr key con).1)) [
  | inl none_left ↦ let room = (is_crowded-register asr key con).0 none_left in cc
  | inr failed ↦ failed
]

after_register-fails :
    (srv : Setup) (message : Message) (encoded : Bytes) (w : World)
    (r : SessionRegistry × Option RegisterError) (e : RegisterError)
    → r.1 ≡ some e
    → after_register srv message encoded w r ≡ panic session_connections_exceeded
unfolding after_register
after_register-fails srv message encoded w (asr, some err) e h = refl
after_register-fails srv message encoded w (asr, none) e h = cc

-- handleSessionRestore panics if the session was not crowded when it looked, the lookup finds the
-- session and it can be encoded, and meanwhile other connections have taken the last place.
restore_race :
    (srv : Setup) (message : Message) (w v : World) (creation last_lookup : ℕ)
    (info : Option VarMap) (encoded : Bytes)
    → srv.sessions_enabled ≡ true
    → is_crowded w.asr message.payload.bytes ≡ false
    → srv.on_session_lookup message.payload.bytes w ≡ (v, found creation last_lookup info)
    → srv.marshal (record {
      key = message.payload.bytes;
      creation = creation;
      last_lookup = last_lookup;
      info = info;
    })
      ≡ some encoded
    → is_crowded (srv.before_register v) message.payload.bytes ≡ true
    → handle_session_restore srv message w ≡ panic session_connections_exceeded
unfolding handle_session_restore restore_session
restore_race srv message w v creation last_lookup info encoded on room look enc full =
    let key : Key = message.payload.bytes in
    let (e, failed) = register-crowded (srv.before_register v) key v.con.id full in
    simp (on, room, look)
      (rw (after_lookup, enc)
        (after_register-fails srv message encoded
          (record v {
            con = record (v.con) {
              session = some (
                  parsed srv.session_info_parser (record {
                    key = key;
                    creation = creation;
                    last_lookup = last_lookup;
                    info = info;
                  }));
            };
          })
          (register (srv.before_register v) key v.con.id) e failed))
