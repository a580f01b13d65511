-- ===== src/Client/Connecting.antt =====
-- client/newClient.go, client/verifyProtocolVersion.go, client/connect.go and client/client.go: a
-- client, the check of the server's protocol version, and its connection, up to the end of `connect`
-- and without the reader that it starts.
-- What HTTP and the JSON library return is an argument, as is the result of the websocket library's
-- dialer. The autoconnect status and the status are the constants of the source.
pub mod Versions
pub mod Connects
pub mod Lives
mod Tests
use webwire_go.Connection.Encoded.{
  VarMap, EncodedSession, InfoMethods, var_map_of, encoded_form, field_of, field_in,
  var_map_of-fields,
}
use webwire_go.Base.{
  if◌then◌else◌, ◌==◌, ℕ, ◌+◌, Bool, true, false, not, Option, none, some, List, [], ◌∷◌,
}
use webwire_go.Client.Link.{disabled, disconnected, connected}
use webwire_go.Client.Sessions.{session_after_connect}
use webwire_go.Connection.{Session}
use webwire_go.Errors.{RequestError, disconnected_err, protocol_err, conn_incomp_err}
use webwire_go.Options.{ClientOptions, Objects, set_client_defaults, option_disabled}
use webwire_go.Payload.{Payload}
use webwire_go.Runtime.{Bytes, bytes_discrete, Go, value, panic, no_metadata_request, ◌>>=◌}
use webwire_go.Socket.{Socket, new_socket, dial, close_socket}
use mathlib.Core.Logic.{ite}

abbrev pub autoconnect_disabled : ℕ
autoconnect_disabled = 0

abbrev pub autoconnect_deactivated : ℕ
autoconnect_deactivated = 1

abbrev pub autoconnect_enabled : ℕ
autoconnect_enabled = 2

-- `readers` counts the reader goroutines that were started.
pub record Client : Type 0 where
  pub status : ℕ
  pub autoconnect : ℕ
  pub session : Option Session
  pub conn : Socket
  pub readers : ℕ

-- `NewClient` with an implementation, without which it panics; the second component says that it starts to connect.
unfoldable pub new_client : Objects → ClientOptions → Client × Bool
new_client objects options =
    let opts = set_client_defaults objects options in
    let autoconnect =
      if opts.autoconnect == option_disabled then autoconnect_disabled else autoconnect_enabled in
    (
      record {
        status = disconnected;
        autoconnect = autoconnect;
        session = none;
        conn = new_socket;
        readers = 0;
      },
      autoconnect == autoconnect_enabled,
    )

-- `supportedProtocolVersion`
abbrev pub supported_protocol_version : Bytes
supported_protocol_version = 49 ∷ 46 ∷ 52 ∷ []

-- The body is missing if it cannot be read.
pub record Response : Type 0 where
  pub status_code : ℕ
  pub body : Option Bytes

abbrev after_unmarshal : Option Bytes → Option RequestError
after_unmarshal none = some protocol_err
after_unmarshal (some version) =
    ite (bytes_discrete version supported_protocol_version) none (some conn_incomp_err)

-- The response to the request for the metadata, if there is one; the JSON library finds the version
-- in a body. Nothing stands for nil.
unfoldable pub check_response : (Bytes → Option Bytes) → Option Response → Option RequestError
check_response unmarshal none = some disconnected_err
check_response unmarshal (some response) = elim response.body [
  | none ↦ some protocol_err
  | some encoded_data ↦
      if response.status_code == 503
      then some disconnected_err
      else after_unmarshal (unmarshal encoded_data)
]

-- `verifyProtocolVersion`; whether the request can be made depends on the address.
unfoldable pub verify_protocol_version :
    (Bytes → Option Bytes) → Bool → Option Response → Go (Option RequestError)
unfolding check_response
verify_protocol_version unmarshal is_address response =
    if is_address then value (check_response unmarshal response) else panic no_metadata_request

-- What `connect` meets: the result of the check of the version, which has returned, of the dialer, and
-- of the request to restore the session.
pub record Attempt : Type 0 where
  pub version_err : Option RequestError
  pub dialed : Option ℕ
  pub restoration : Option Payload

module _ (unmarshal : Bytes → Option EncodedSession) (parser : Option (VarMap → ℕ)) where
  unfoldable pub after_dialing : Attempt → Client → Socket × Bool → Client × Option RequestError
  after_dialing a clt (sock, fails) =
      if fails then (record clt { conn = sock }, some disconnected_err) else (
        record clt {
          conn = sock;
          readers = clt.readers + 1;
          status = connected;
          session = session_after_connect unmarshal parser a.restoration clt.session;
        },
        none,
      )

  -- `connect`
  unfoldable pub connect : Attempt → Client → Go (Client × Option RequestError)
  unfolding after_dialing
  connect a clt = if clt.status == connected then value (clt, none) else elim a.version_err [
    | some err ↦ value (clt, some err)
    | none ↦ (do d ← dial a.dialed clt.conn; value (after_dialing a clt d))
  ]

  -- `Connect`
  unfoldable pub connect_client : Attempt → Client → Go (Client × Option RequestError)
  connect_client a clt = connect a (
      if clt.autoconnect == autoconnect_deactivated
      then record clt { autoconnect = autoconnect_enabled }
      else clt)

abbrev deactivated : Client → Client
deactivated clt =
    if clt.autoconnect == autoconnect_disabled
    then clt
    else record clt { autoconnect = autoconnect_deactivated }

-- `Close` up to its wait for the reader. The error of the socket's `Close` is only logged.
unfoldable pub close : Bool → Client → Go Client
close fails clt =
    let off = record (deactivated clt) { status = disabled } in
    if not (clt.status == connected)
    then value off
    else (do s ← close_socket fails clt.conn; value (record off { conn = s.0 }))
