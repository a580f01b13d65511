-- ===== src/ChatRoom.antt =====
-- examples/chatroom/server/implementation.go: the application of the chatroom example, as it uses the
-- library: authentication by CreateSession, and messages that are broadcast as signals.
-- JSON and fmt.Sprintf are arguments, as are the user accounts, the key and the time of a new session,
-- and the reference to its information. Strings are their ASCII codes. What is logged is left out.
pub mod Strings
mod Tests
pub mod Auth
pub mod Broadcast
use webwire_go.Base.{if◌then◌else◌, ℕ, Bool, true, Option, none, some, List, [], ◌∷◌}
use webwire_go.ChatRoom.Strings.*
use webwire_go.Connection.{Connection, has_session, session_key}
use webwire_go.Errors.{RequestError, req_err, other_err}
use webwire_go.Map.{find, insert, delete}
use webwire_go.Message.{Message}
use webwire_go.Message.Compose.{new_signal_message}
use webwire_go.Payload.{binary, utf8}
use webwire_go.Payload.Text.{utf8_text}
use webwire_go.Registry.{ConnId, ConnSet, Key}
use webwire_go.Runtime.{
  Bytes, bytes_discrete, Go, value, panic, failed_assertion, unmarshalled_message, ◌>>=◌,
}
use webwire_go.Server.Creation.{CreateError, create_session}
use webwire_go.Server.Handlers.{World, Setup, RequestResult, answered, rejected}
use mathlib.Core.Logic.{ite}
use native.Mathlib.Decide.{ℕ_discrete}

pub record Credentials : Type 0 where
  pub name : Bytes
  pub password : Bytes

-- `decoding_error` is the text of the error of `Utf8`.
pub record Environment : Type 0 where
  pub unmarshal : Bytes → Option Credentials
  pub marshal_chat : Bytes → Bytes → Option Bytes
  pub sprintf : Bytes → Bytes → Bytes
  pub decoding_error : Bytes
  pub accounts : List (Bytes × Bytes)
  pub is_connected : Bool
  pub hook : World → World
  pub info_of : Bytes → ℕ
  pub username : ℕ → Option Bytes
  pub key : Key
  pub now : ℕ

-- `OnClientConnected` and `OnClientDisconnected`, on the map of the connected clients.
unfoldable pub on_client_connected : ConnId → ConnSet → ConnSet
on_client_connected id room = insert ℕ_discrete id tt room

unfoldable pub on_client_disconnected : ConnId → ConnSet → ConnSet
on_client_disconnected id room = delete ℕ_discrete id room

-- The loop of `broadcastMessage`: what is written to each client. A failed write is only logged.
unfoldable pub send_all : Bytes → ConnSet → Go (List (ConnId × Bytes))
send_all encoded [] = value []
send_all encoded ((id, u) ∷ room) = do
  m ← new_signal_message [] utf8 encoded
  rest ← send_all encoded room
  value ((id, m) ∷ rest)

module _ (env : Environment) (srv : Setup) where
  unfoldable pub broadcast_message : Bytes → Bytes → ConnSet → Go (List (ConnId × Bytes))
  unfolding send_all
  broadcast_message name text room = elim (env.marshal_chat name text) [
    | none ↦ panic unmarshalled_message
    | some encoded ↦ send_all encoded room
  ]

  -- CreateSession has returned.
  unfoldable pub after_creation : World × Option CreateError → Go (World × RequestResult)
  after_creation (w, some err) = value (w, rejected other_err)
  after_creation (w, none) =
      value (w, answered (some (record { encoding = binary; bytes = session_key w.con })))

  -- The password that the account has, if it exists.
  unfoldable pub check_password : Credentials → World → Option Bytes → Go (World × RequestResult)
  unfolding after_creation
  check_password credentials w none =
      value (w, rejected (req_err inexistent_user (env.sprintf inexistent_format credentials.name)))
  check_password credentials w (some password) =
      ite (bytes_discrete password credentials.password)
        (do
          created ←
              create_session srv env.is_connected env.hook (some (env.info_of credentials.name))
                env.key env.now w
          after_creation created)
        (value (w, rejected (req_err wrong_password wrong_text)))

  unfoldable pub check_credentials : World → Option Credentials → Go (World × RequestResult)
  unfolding check_password
  check_credentials w none = value (w, rejected other_err)
  check_credentials w (some credentials) =
      check_password credentials w (find bytes_discrete credentials.name env.accounts)

  unfoldable pub check_text : World → Option Bytes → Go (World × RequestResult)
  unfolding check_credentials
  check_text w none =
      value
        (w, rejected (req_err decoding_failure (env.sprintf decoding_format env.decoding_error)))
  check_text w (some text) = check_credentials w (env.unmarshal text)

  unfoldable pub handle_auth : Message → World → Go (World × RequestResult)
  unfolding check_text
  handle_auth message w = do text ← utf8_text message.payload; check_text w text

  -- The name that the session has, by a type assertion.
  unfoldable pub user_of : Connection → Go Bytes
  user_of con = elim con.session [
    | none ↦ value anonymous
    | some session ↦ elim session.info [
      | none ↦ panic failed_assertion
      | some info ↦ elim (env.username info) [
        | none ↦ panic failed_assertion
        | some name ↦ value name
      ]
    ]
  ]

  -- What is sent to whom for a message; its reply is empty.
  unfoldable pub handle_message : Message → ConnSet → World → Go (List (ConnId × Bytes))
  unfolding user_of broadcast_message
  handle_message message room w = do
    decoded ← utf8_text message.payload
    elim decoded [
      | none ↦ value []
      | some text ↦ (do name ← user_of w.con; broadcast_message name text room)
    ]

  -- `OnRequest`: the connection afterwards, the result, and what was sent to the clients.
  unfoldable pub on_request :
      Message → ConnSet → World → Go ((World × RequestResult) × List (ConnId × Bytes))
  unfolding handle_auth handle_message
  on_request message room w =
      ite (bytes_discrete message.name auth) (do r ← handle_auth message w; value (r, []))
        (ite (bytes_discrete message.name msg)
          (do sent ← handle_message message room w; value ((w, answered none), sent))
          (value (
            (w, rejected (req_err bad_request (env.sprintf unsupported_format message.name))),
            [],
          )))
