-- ===== src/Server/Creation.antt =====
-- connection.go and session.go: `CreateSession`, by which the application gives a connection a new
-- session, and what the client learns of it.
-- The generator's key and the time are arguments, `is_connected` is what the socket says, and the
-- hook is the session manager's `OnSessionCreated`, whose error is only logged.
use webwire_go.Connection.Encoded.{encoded_form}
use webwire_go.Base.{if◌then◌else◌, ltb, length, Bool, not, ℕ, Option, none, some, [], ◌∷◌}
use webwire_go.Connection.{Session, has_session}
use webwire_go.Message.{msg_session_created}
use webwire_go.Registry.{Key, register}
use webwire_go.Runtime.{Bytes, empty_session_key, Go, value, panic, ◌>>=◌}
use webwire_go.Server.Handlers.{World, Setup, sock_write}

pub data CreateError : Type 0 where
  sessions_disabled disconnected unmarshalled unwritten : CreateError
  already_active : Key → CreateError

-- `NewSession`
unfoldable pub new_session : Option ℕ → Key → ℕ → Go Session
new_session info key now =
    if ltb (length key) 1
    then panic empty_session_key
    else value (record { key = key; creation = now; last_lookup = now; info = info })

abbrev pub unwritten_if : World × Bool → World × Option CreateError
unwritten_if (w, fails) = if fails then (w, some unwritten) else (w, none)

-- The JSON of the session decides whether there is a message.
unfoldable pub notify_encoded : Setup → Option Bytes → World → World × Option CreateError
unfolding sock_write
notify_encoded srv none w = (w, some unmarshalled)
notify_encoded srv (some encoded) w =
    unwritten_if (sock_write srv (msg_session_created ∷ encoded) w)

unfoldable pub notify_session_created : Setup → Session → World → World × Option CreateError
unfolding notify_encoded
notify_session_created srv session w =
    notify_encoded srv (srv.marshal (encoded_form srv.info_methods session)) w

-- The client has been notified of the session, or could not be. The error of `register` is dropped.
unfoldable pub after_notification :
    (World → World) → Session → World × Option CreateError → World × Option CreateError
after_notification hook session (w, some err) = (w, some err)
after_notification hook session (w, none) = (
  hook (record w {
    con = record (w.con) { session = some session };
    asr = (register w.asr session.key w.con.id).0;
  }),
  none,
)

abbrev pub active_key : Option Session → Key
active_key none = []
active_key (some session) = session.key

unfoldable pub create_session :
    Setup → Bool → (World → World) → Option ℕ → Key → ℕ → World → Go (World × Option CreateError)
unfolding new_session after_notification notify_session_created
create_session srv is_connected hook attachment key now w =
    if not srv.sessions_enabled
    then value (w, some sessions_disabled)
    else if not is_connected
    then value (w, some disconnected)
    else if has_session w.con
    then value (w, some (already_active (active_key w.con.session)))
    else (do
      session ← new_session attachment key now
      value (after_notification hook session (notify_session_created srv session w)))
