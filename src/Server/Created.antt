-- ===== src/Server/Created.antt =====
-- When CreateSession of connection.go succeeds, what it leaves, and what its errors leave.
use webwire_go.Connection.Encoded.{encoded_form}
use webwire_go.Base.{
  ltb, length, ◌≡◌, refl, ◌<◌, Bool, true, false, ℕ, Option, none, some, [], ◌∷◌, ◌++◌, arith,
  Bool-cases, inl, inr, ap, sym,
}
use webwire_go.Client.{on_session_created, react, handle_message}
use webwire_go.Client.Understanding.{Understands, handle_message-received}
use webwire_go.Connection.{Session, has_session}
use webwire_go.Message.{msg_session_created}
use webwire_go.Message.Bodies.{parse_session_created}
use webwire_go.Message.Parse.{created, form_of, parse, parse_form, parse_kind}
use webwire_go.Message.RoundTrip.{parse-of_form}
use webwire_go.Payload.{binary}
use webwire_go.Registry.{Key, register}
use webwire_go.Runtime.{
  make, Bytes, Panic, Go, value, panic, ◌>>=◌, read_byte, slice_from, value-injective,
  value-ne-panic,
}
use webwire_go.Server.Creation.{
  CreateError, after_notification, create_session, new_session, notify_encoded,
  notify_session_created, unwritten_if,
}
use webwire_go.Server.Handlers.{World, Setup, sock_write}

none-ne-some : {A : Type 0} {a : A} → ◌≡◌ {A = Option A} none (some a) → ⊥
none-ne-some h = cc

sock_write-fails :
    (srv : Setup) (m : Bytes) (w v : World) (err : CreateError)
    → unwritten_if (sock_write srv m w) ≡ (v, some err)
    → v ≡ w
unfolding sock_write
sock_write-fails srv m w v err h = elim (Bool-cases (srv.write_fails m w)) [
  | inl fails ↦ sym (ap (λ r. r.0) (simp fails at h))
  | inr works ↦ absurd (none-ne-some (ap (λ r. r.1) (simp works at h)))
]

notify_encoded-fails :
    (srv : Setup) (o : Option Bytes) (w v : World) (err : CreateError)
    → notify_encoded srv o w ≡ (v, some err)
    → v ≡ w
unfolding notify_encoded
notify_encoded-fails srv none w v err h = sym (ap (λ r. r.0) h)
notify_encoded-fails srv (some encoded) w v err h =
    sock_write-fails srv (msg_session_created ∷ encoded) w v err h

after_notification-fails :
    (hook : World → World) (session : Session) (r : World × Option CreateError) (v : World)
    (err : CreateError)
    → after_notification hook session r ≡ (v, some err)
    → r ≡ (v, some err)
unfolding after_notification
after_notification-fails hook session (w, some e) v err h = h
after_notification-fails hook session (w, none) v err h = absurd (none-ne-some (ap (λ r. r.1) h))

same :
    {w v : World} {e err : CreateError}
    → ◌≡◌ {A = Go (World × Option CreateError)} (value (w, some e)) (value (v, some err))
    → v ≡ w
same h = sym (ap (λ r. r.0) (value-injective h))

abbrev make_session :
    Setup → (World → World) → Option ℕ → Key → ℕ → World → Go (World × Option CreateError)
make_session srv hook attachment key now w = new_session attachment key now >>= λ session.
    value (after_notification hook session (notify_session_created srv session w))

made_fails :
    (srv : Setup) (hook : World → World) (attachment : Option ℕ) (key : Key) (now : ℕ) (w v : World)
    (err : CreateError)
    → make_session srv hook attachment key now w ≡ value (v, some err)
    → v ≡ w
unfolding new_session notify_session_created
made_fails srv hook attachment key now w v err h = elim (Bool-cases (ltb (length key) 1)) [
  | inl empty ↦ absurd (value-ne-panic (sym (simp empty at h)))
  | inr long ↦
      notify_encoded-fails srv _ w v err
        (after_notification-fails hook _ _ v err (value-injective (simp long at h)))
]

made_panics :
    (srv : Setup) (hook : World → World) (attachment : Option ℕ) (key : Key) (now : ℕ) (w : World)
    (p : Panic)
    → make_session srv hook attachment key now w ≡ panic p
    → key ≡ []
unfolding new_session
made_panics srv hook attachment [] now w p h = refl
made_panics srv hook attachment (x ∷ key) now w p h = absurd (ground (arith, h))

-- Whatever error CreateSession returns, the connection, the registry and what was sent are as they
-- were; and it panics only for an empty key.
pub create_session_fails :
    (srv : Setup) (is_connected : Bool) (hook : World → World) (attachment : Option ℕ) (key : Key)
    (now : ℕ) (w : World)
    → ((v : World) (err : CreateError)
        → create_session srv is_connected hook attachment key now w ≡ value (v, some err)
        → v ≡ w)
      × ((p : Panic)
          → create_session srv is_connected hook attachment key now w ≡ panic p
          → key ≡ [])
unfolding create_session
create_session_fails srv is_connected hook attachment key now w =
    elim (Bool-cases srv.sessions_enabled) [
      | inr off ↦
          ((λ v err h. same (simp off at h)), (λ p h. absurd (value-ne-panic (simp off at h))))
      | inl on ↦ elim (Bool-cases is_connected) [
        | inr away ↦ (
          (λ v err h. same (simp (on, away) at h)),
          (λ p h. absurd (value-ne-panic (simp (on, away) at h))),
        )
        | inl here ↦ elim (Bool-cases (has_session w.con)) [
          | inl busy ↦ (
            (λ v err h. same (simp (on, here, busy) at h)),
            (λ p h. absurd (value-ne-panic (simp (on, here, busy) at h))),
          )
          | inr free ↦ (
            (λ v err h.
                made_fails srv hook attachment key now w v err (simp (on, here, free) at h)),
            (λ p h. made_panics srv hook attachment key now w p (simp (on, here, free) at h)),
          )
        ]
      ]
    ]

-- What is sent for a session whose JSON is not empty, a client takes as the session's creation.
created-understood :
    (encoded : Bytes)
    → 0 < length encoded
    → Understands
        (msg_session_created ∷ encoded)
        (on_session_created (record { encoding = binary; bytes = encoded }))
unfolding handle_message react parse parse_kind form_of parse_form parse_session_created read_byte
    slice_from
created-understood (x ∷ encoded) h =
    handle_message-received msg_session_created (make 8) [] binary (x ∷ encoded)
      (msg_session_created ∷ x ∷ encoded) _
      (parse-of_form _ (x ∷ encoded) created (make 8) [] binary (x ∷ encoded) refl (ground arith))
      refl
created-understood [] h = absurd (omega arith)

new_session-eq_value :
    (attachment : Option ℕ) (key : Key) (now : ℕ)
    → 0 < length key
    → new_session attachment key now
      ≡ value (record { key = key; creation = now; last_lookup = now; info = attachment })
unfolding new_session
new_session-eq_value attachment [] now h = absurd (omega arith)
new_session-eq_value attachment (x ∷ key) now h = ground arith

notified :
    (srv : Setup) (session : Session) (w : World) (encoded : Bytes)
    → srv.marshal (encoded_form srv.info_methods session) ≡ some encoded
    → srv.write_fails (msg_session_created ∷ encoded) w ≡ false
    → notify_session_created srv session w
      ≡ (record w { sent = w.sent ++ ((msg_session_created ∷ encoded) ∷ []) }, none)
unfolding notify_session_created sock_write
notified srv session w encoded enc wr = rw (enc, notify_encoded) (ground (arith, wr))

lacks_session : (w : World) → w.con.session ≡ none → has_session w.con ≡ false
unfolding has_session
lacks_session w e = ground arith

-- CreateSession on a connection without a session, with sessions enabled, a key, an encodable session
-- and a socket that works: the connection has the session, the registry has been asked to register
-- it, and the one message that was sent means the session's creation to the client; then the hook
-- has run.
pub create_session-created :
    (srv : Setup) (hook : World → World) (attachment : Option ℕ) (key : Key) (now : ℕ) (w : World)
    (encoded : Bytes)
    → let session : Session = record {
      key = key;
      creation = now;
      last_lookup = now;
      info = attachment;
    } in
      srv.sessions_enabled ≡ true
      → w.con.session ≡ none
      → 0 < length key
      → srv.marshal (encoded_form srv.info_methods session) ≡ some encoded
      → 0 < length encoded
      → srv.write_fails (msg_session_created ∷ encoded) w ≡ false
      → (create_session srv true hook attachment key now w
          ≡ value (
            hook (record w {
              con = record (w.con) { session = some session };
              asr = (register w.asr key w.con.id).0;
              sent = w.sent ++ ((msg_session_created ∷ encoded) ∷ []);
            }),
            none,
          ))
        × Understands
            (msg_session_created ∷ encoded)
            (on_session_created (record { encoding = binary; bytes = encoded }))
unfolding create_session after_notification
create_session-created srv hook attachment key now w encoded on e k enc l wr = (
  simp (
    on,
    lacks_session w e,
    new_session-eq_value attachment key now k,
    notified srv _ w encoded enc wr,
  ),
  created-understood encoded l,
)
