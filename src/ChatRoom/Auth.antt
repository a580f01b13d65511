-- ===== src/ChatRoom/Auth.antt =====
-- examples/chatroom/server/implementation.go: whom `handleAuth` lets in.
use webwire_go.Connection.Encoded.{encoded_form}
use webwire_go.Base.{◌≡◌, refl, ap, true, false, Option, none, some, length, ◌<◌, [], ◌∷◌, ◌++◌}
use webwire_go.ChatRoom.{
  Credentials, Environment, after_creation, check_password, check_credentials, check_text,
  handle_auth,
}
use webwire_go.Connection.{Session, session_key}
use webwire_go.Errors.{RequestError}
use mathlib.Core.Path.{subst}
use mathlib.Core.Logic.{ite, if_pos}
use webwire_go.Map.{find}
use webwire_go.Message.{Message, msg_session_created}
use webwire_go.Payload.{Payload, binary}
use webwire_go.Payload.Text.{utf8_text}
use webwire_go.Registry.{register}
use webwire_go.Runtime.{Bytes, bytes_discrete, Go, value, panic, ◌>>=◌}
use webwire_go.Server.Created.{create_session_fails, create_session-created}
use webwire_go.Server.Creation.{CreateError}
use webwire_go.Server.Handlers.{World, Setup, RequestResult, answered, rejected}

-- The message carries the name and the password of an account.
abbrev pub IsAuthentic : Environment → Message → Type 0
IsAuthentic env message =
    (text : Bytes) × (credentials : Credentials) × (utf8_text message.payload ≡ value (some text))
    × (env.unmarshal text ≡ some credentials)
    × (find bytes_discrete credentials.name env.accounts ≡ some (credentials.password))

-- A rejection has changed nothing, and an answer is for the authentic.
abbrev Judged : Type 0 → World → Go (World × RequestResult) → Type 0
Judged Good w (panic p) = Unit {0}
Judged Good w (value (v, rejected err)) = v ≡ w
Judged Good w (value (v, answered p)) = Good

creation-Judged :
    (env : Environment) (srv : Setup) (Good : Type 0) (w : World)
    (g : Go (World × Option CreateError))
    → ((v : World) (err : CreateError) → g ≡ value (v, some err) → v ≡ w)
    → Good
    → Judged Good w (g >>= after_creation env srv)
unfolding after_creation
creation-Judged env srv Good w (panic p) h good = tt
creation-Judged env srv Good w (value (v, some err)) h good = h v err refl
creation-Judged env srv Good w (value (v, none)) h good = good

ite-Judged :
    (Good : Type 0) (w : World) {P : Type 0} (d : Dec P) (a b : Go (World × RequestResult))
    → (P → Judged Good w a)
    → Judged Good w b
    → Judged Good w (ite d a b)
ite-Judged Good w (yes p) a b h k = h p
ite-Judged Good w (no n) a b h k = k

password-Judged :
    (env : Environment) (srv : Setup) (Good : Type 0) (c : Credentials) (w : World)
    (o : Option Bytes)
    → (o ≡ some (c.password) → Good)
    → Judged Good w (check_password env srv c w o)
unfolding check_password
password-Judged env srv Good c w none good = refl
password-Judged env srv Good c w (some password) good =
    ite-Judged Good w (bytes_discrete password c.password) _ _
      (λ same.
        creation-Judged env srv Good w _
          (create_session_fails srv env.is_connected env.hook (some (env.info_of c.name)) env.key
            env.now w).0
          (good (ap some same)))
      refl

credentials-Judged :
    (env : Environment) (srv : Setup) (Good : Type 0) (w : World) (o : Option Credentials)
    → ((c : Credentials)
        → o ≡ some c
        → find bytes_discrete c.name env.accounts ≡ some (c.password)
        → Good)
    → Judged Good w (check_credentials env srv w o)
unfolding check_credentials
credentials-Judged env srv Good w none good = refl
credentials-Judged env srv Good w (some c) good = password-Judged env srv Good c w _ (good c refl)

text-Judged :
    (env : Environment) (srv : Setup) (message : Message) (w : World) (g : Go (Option Bytes))
    → utf8_text message.payload ≡ g
    → Judged (IsAuthentic env message) w (g >>= check_text env srv w)
unfolding check_text
text-Judged env srv message w (panic p) e = tt
text-Judged env srv message w (value none) e = refl
text-Judged env srv message w (value (some text)) e =
    credentials-Judged env srv _ w (env.unmarshal text) (λ c u f. (text, c, e, u, f))

handle_auth-Judged :
    (env : Environment) (srv : Setup) (message : Message) (w : World)
    → Judged (IsAuthentic env message) w (handle_auth env srv message w)
unfolding handle_auth
handle_auth-Judged env srv message w = text-Judged env srv message w _ refl

-- An authentication that is rejected has changed nothing, and one that is answered came with the name
-- and the password of an account.
pub handle_auth-safe :
    (env : Environment) (srv : Setup) (message : Message) (w v : World)
    → ((err : RequestError) → handle_auth env srv message w ≡ value (v, rejected err) → v ≡ w)
      × ((p : Option Payload)
          → handle_auth env srv message w ≡ value (v, answered p)
          → IsAuthentic env message)
handle_auth-safe env srv message w v =
    let j = handle_auth-Judged env srv message w in
    ((λ err e. subst (Judged _ w) e j), λ p e. subst (Judged _ w) e j)

-- With the name and the password of an account, on a connection without a session, with sessions
-- enabled, a key, a session that can be encoded and a socket that works: the connection has a new
-- session, which was registered and which the client was notified of, and the request is answered
-- with the key of the session that the connection has once the hook has run.
pub handle_auth-answers :
    (env : Environment) (srv : Setup) (message : Message) (w : World) (text encoded : Bytes)
    (c : Credentials)
    → let session : Session = record {
      key = env.key;
      creation = env.now;
      last_lookup = env.now;
      info = some (env.info_of c.name);
    } in
      let created : World = env.hook (record w {
        con = record (w.con) { session = some session };
        asr = (register w.asr env.key w.con.id).0;
        sent = w.sent ++ ((msg_session_created ∷ encoded) ∷ []);
      }) in
      utf8_text message.payload ≡ value (some text)
      → env.unmarshal text ≡ some c
      → find bytes_discrete c.name env.accounts ≡ some (c.password)
      → env.is_connected ≡ true
      → srv.sessions_enabled ≡ true
      → w.con.session ≡ none
      → 0 < length env.key
      → srv.marshal (encoded_form srv.info_methods session) ≡ some encoded
      → 0 < length encoded
      → srv.write_fails (msg_session_created ∷ encoded) w ≡ false
      → handle_auth env srv message w
        ≡ value (
          created,
          answered (some (record { encoding = binary; bytes = session_key created.con })),
        )
unfolding handle_auth check_text check_credentials check_password after_creation
handle_auth-answers env srv message w text encoded c t u f on enabled free k m l wr =
    let made =
      (create_session-created srv env.hook (some (env.info_of c.name)) env.key env.now w encoded
        enabled free k m l wr).0 in
    rw (t, u, f, if_pos (bytes_discrete c.password c.password) refl, on, made) refl
