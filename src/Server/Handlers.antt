-- ===== src/Server/Handlers.antt =====
-- handleMessage.go, handleRequest.go, handleSessionClosure.go and handleSessionRestore.go: one
-- goroutine that handles a message, from its start to its end. What other goroutines do meanwhile
-- can happen in the calls of the application, and to the registry between the lookup of a session and
-- its registration.
-- What one connection's handler reads and changes. `sent` is what the socket was given.
use webwire_go.Connection.Encoded.{VarMap, EncodedSession, InfoMethods}
use webwire_go.Base.{
  ltb, if◌then◌else◌, ℕ, ◌+◌, Bool, true, false, not, ◌&&◌, Option, none, some, List, [], ◌∷◌, ◌++◌,
}
use webwire_go.Connection.{Session, Connection, key_of, has_session}
use webwire_go.Errors.{
  RequestError, sessions_disabled_err, sess_not_found_err, max_sess_conns_reached_err,
}
use webwire_go.Message.{msg_session_closed, Message}
use webwire_go.Payload.{Encoding, binary, utf8, Payload}
use webwire_go.Registry.{
  Key, SessionRegistry, RegisterError, register, deregister, session_connections_num,
}
use webwire_go.Runtime.{Bytes, session_connections_exceeded, Go, value, panic, ◌>>=◌}
use webwire_go.Server.Operations.{Operations}
use webwire_go.Server.Replies.{fail_msg, fulfill_msg}

pub record World : Type 0 where
  pub ops : Operations
  pub con : Connection
  pub asr : SessionRegistry
  pub sent : List Bytes

pub data RequestResult : Type 0 where
  answered : Option Payload → RequestResult
  rejected : RequestError → RequestResult

pub data LookupResult : Type 0 where
  lookup_failed not_found : LookupResult
  found : ℕ → ℕ → Option VarMap → LookupResult

-- The server's options, the application's callbacks, `json.Marshal` and the socket's `Write`, which
-- are not this program's.
pub record Setup : Type 0 where
  pub sessions_enabled : Bool
  pub on_request : Message → World → World × RequestResult
  pub on_signal : Message → World → World
  pub on_session_lookup : Key → World → World × LookupResult
  pub info_methods : InfoMethods
  pub marshal : EncodedSession → Option Bytes
  pub session_info_parser : Option (VarMap → ℕ)
  -- the registry at the registration of a restored session, after what other goroutines have done to
  -- it since the lookup returned
  pub before_register : World → SessionRegistry
  pub write_fails : Bytes → World → Bool

-- `con.sock.Write`; the second component says that it returned an error.
unfoldable pub sock_write : Setup → Bytes → World → World × Bool
sock_write srv m w =
    if srv.write_fails m w then (w, true) else (record w { sent = w.sent ++ (m ∷ []) }, false)

unfoldable pub fail_with : Setup → Message → Option RequestError → World → Go World
unfolding sock_write
fail_with srv message err w = do
  reply ← fail_msg message err
  elim reply [ none ↦ value w | some m ↦ value (sock_write srv m w).0 ]

unfoldable pub fulfill_with : Setup → Message → Encoding → Bytes → World → Go World
unfolding sock_write
fulfill_with srv message encoding content w = do
  m ← fulfill_msg message encoding content
  value (sock_write srv m w).0

unfoldable pub after_request : Setup → Message → World × RequestResult → Go World
after_request srv message (w, answered none) = fulfill_with srv message binary [] w
after_request srv message (w, answered (some payload)) =
    fulfill_with srv message payload.encoding payload.bytes w
after_request srv message (w, rejected err) = fail_with srv message (some err) w

unfoldable pub handle_request : Setup → Message → World → Go World
unfolding after_request
handle_request srv message w = after_request srv message (srv.on_request message w)

-- `notifySessionClosed` has been called.
unfoldable pub after_notice : Setup → Message → World × Bool → Go World
after_notice srv message (w, fails) =
    if fails
    then fail_with srv message none w
    else fulfill_with srv message binary [] (record w { con = record (w.con) { session = none } })

unfoldable pub handle_session_closure : Setup → Message → World → Go World
unfolding after_notice
handle_session_closure srv message w =
    if not srv.sessions_enabled
    then fail_with srv message (some sessions_disabled_err) w
    else if not (has_session w.con)
    then fulfill_with srv message binary [] w
    else after_notice srv message (
        sock_write srv (msg_session_closed ∷ [])
          (record w { asr = (deregister w.asr (key_of w.con.session) w.con.id).0 }))

-- `sessConsNum >= 0 && maxConns > 0 && uint(sessConsNum+1) > maxConns`
abbrev pub is_crowded_by : ℕ → Option ℕ → Bool
is_crowded_by max_conns none = false
is_crowded_by max_conns (some n) = ltb 0 max_conns && ltb max_conns (n + 1)

abbrev pub is_crowded : SessionRegistry → Key → Bool
is_crowded asr key = is_crowded_by asr.max_conns (session_connections_num asr key)

abbrev pub parse_info : Option (VarMap → ℕ) → Option VarMap → Option ℕ
parse_info (some parser) (some info) = some (parser info)
parse_info _ _ = none

-- The session of what was found.
abbrev pub parsed : Option (VarMap → ℕ) → EncodedSession → Session
parsed parser stored = record {
  key = stored.key;
  creation = stored.creation;
  last_lookup = stored.last_lookup;
  info = parse_info parser stored.info;
}

-- `sessionRegistry.register(con)` has been called, on a connection that has its session.
unfoldable pub after_register :
    Setup → Message → Bytes → World → SessionRegistry × Option RegisterError → Go World
after_register srv message encoded w (asr, some err) = panic session_connections_exceeded
after_register srv message encoded w (asr, none) =
    fulfill_with srv message utf8 encoded (record w { asr = asr })

-- The session was found, and this is its JSON.
unfoldable pub restore_session : Setup → Message → Session → Bytes → World → Go World
unfolding after_register
restore_session srv message session encoded w =
    let with_session = record w { con = record (w.con) { session = some session } } in
    after_register srv message encoded with_session
      (register (srv.before_register w) session.key w.con.id)

unfoldable pub after_lookup : Setup → Message → Key → World × LookupResult → Go World
unfolding restore_session
after_lookup srv message key (w, lookup_failed) = fail_with srv message none w
after_lookup srv message key (w, not_found) = fail_with srv message (some sess_not_found_err) w
after_lookup srv message key (w, found creation last_lookup info) =
    let stored : EncodedSession = record {
      key = key;
      creation = creation;
      last_lookup = last_lookup;
      info = info;
    } in
    elim (srv.marshal stored) [
      | none ↦ fail_with srv message none w
      | some encoded ↦ restore_session srv message (parsed srv.session_info_parser stored) encoded w
    ]

unfoldable pub handle_session_restore : Setup → Message → World → Go World
unfolding after_lookup
handle_session_restore srv message w =
    let key = message.payload.bytes in
    if not srv.sessions_enabled
    then fail_with srv message (some sessions_disabled_err) w
    else if is_crowded w.asr key
    then fail_with srv message (some max_sess_conns_reached_err) w
    else after_lookup srv message key (srv.on_session_lookup key w)
