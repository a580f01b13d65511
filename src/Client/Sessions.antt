-- ===== src/Client/Sessions.antt =====
-- client/handle.go, client/client.go, client/connect.go and client/requestSessionRestoration.go: the
-- session that a client holds. `json.Unmarshal` is an argument, as is the parser of the session information.
use webwire_go.Connection.Encoded.{VarMap, EncodedSession}
use webwire_go.Base.{if◌then◌else◌, ℕ, Bool, Option, none, some}
use webwire_go.Client.{Reaction, on_session_created, on_session_closed, handle_message}
use webwire_go.Connection.{Session}
use webwire_go.Payload.{Payload}
use webwire_go.Runtime.{Bytes, Go, value, ◌>>=◌}
use webwire_go.Server.Handlers.{parse_info}

-- `time.Time{}`, which stands for the last lookup that a client does not know.
abbrev pub zero_time : ℕ
zero_time = 0

abbrev pub held : Option (VarMap → ℕ) → EncodedSession → Session
held parser encoded = record {
  key = encoded.key;
  creation = encoded.creation;
  last_lookup = zero_time;
  info = parse_info parser encoded.info;
}

module _ (unmarshal : Bytes → Option EncodedSession) (parser : Option (VarMap → ℕ)) where
  unfoldable pub handle_session_created : Payload → Option Session → Option Session
  handle_session_created msg_payload session = elim (unmarshal msg_payload.bytes) [
    | none ↦ session
    | some encoded ↦ some (held parser encoded)
  ]

  unfoldable pub handle_session_closed : Option Session → Option Session
  handle_session_closed session = none

  -- What a message of the server does to the session.
  unfoldable pub after_reaction : Reaction → Option Session → Option Session
  unfolding handle_session_created handle_session_closed
  after_reaction (on_session_created payload) session = handle_session_created payload session
  after_reaction on_session_closed session = handle_session_closed session
  after_reaction _ session = session

  unfoldable pub receive : Bytes → Option Session → Go (Option Session)
  unfolding after_reaction
  receive message session = do
    reaction ← handle_message message
    value (after_reaction reaction session)

  -- `requestSessionRestoration`, by what the request has returned: the session, or an error. The
  -- parser is set in every client.
  unfoldable pub restored_session : Option Payload → Option Session
  restored_session none = none
  restored_session (some reply) = elim (unmarshal reply.bytes) [
    | none ↦ none
    | some encoded ↦ some (held parser encoded)
  ]

  -- `RestoreSession` on a connected client; the second component says that it returned an error.
  unfoldable pub restore_session : Option Payload → Option Session → Option Session × Bool
  unfolding restored_session
  restore_session reply (some session) = (some session, Bool.true)
  restore_session reply none = elim (restored_session reply) [
    | none ↦ (none, Bool.true)
    | some session ↦ (some session, Bool.false)
  ]

  -- `connect` after it has dialed, by what the request to restore the session, if it sends one, has
  -- returned.
  unfoldable pub session_after_connect : Option Payload → Option Session → Option Session
  unfolding restored_session
  session_after_connect reply none = none
  session_after_connect reply (some session) = restored_session reply

-- `CloseSession`, by whether the client is connected and its request has failed.
unfoldable pub close_session : Bool → Bool → Option Session → Option Session × Bool
close_session is_connected request_fails none = (none, Bool.false)
close_session is_connected request_fails (some session) =
    if is_connected
    then if request_fails then (some session, Bool.true) else (none, Bool.false)
    else (none, Bool.false)

-- `Session`, without the last lookup, which a client does not know; `copy` is the `Copy` of the
-- information.
unfoldable pub session_copy : (ℕ → ℕ) → Option Session → Option Session
session_copy copy none = none
session_copy copy (some session) = some (record session {
  last_lookup = zero_time;
  info = elim session.info [ none ↦ none | some info ↦ some (copy info) ];
})

-- `SessionInfo`; `value_of` is the `Value` of the information.
unfoldable pub session_info : (ℕ → Bytes → Option ℕ) → Option Session → Bytes → Option ℕ
session_info value_of none name = none
session_info value_of (some session) name = elim session.info [
  | none ↦ none
  | some info ↦ value_of info name
]
