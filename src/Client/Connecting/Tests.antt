-- ===== src/Client/Connecting/Tests.antt =====
-- A client that connects, loses its connection and is closed, and the theorems on it.
use webwire_go.Base.{
  if◌then◌else◌, ◌==◌, ◌≡◌, refl, ◌≢◌, ◌↔◌, ◌+◌, true, false, not, some, none, [], ◌∷◌, ◌++◌, Bool,
  Option,
}
use webwire_go.Client.Connecting.{
  Client, Attempt, Response, connect, connect_client, after_dialing, close, new_client,
  verify_protocol_version, autoconnect_disabled, autoconnect_deactivated, autoconnect_enabled,
}
use webwire_go.Client.Connecting.Connects.{connect_lem, reconnect_panics}
use webwire_go.Client.Connecting.Lives.{Life, begins, connects, closes, autoconnect_follows}
use webwire_go.Client.Connecting.Versions.{IsResponse, verifies_server}
use webwire_go.Client.Link.{disconnected, connected}
use webwire_go.Client.Sessions.{session_after_connect}
use webwire_go.Errors.{RequestError, disconnected_err}
use webwire_go.Options.{
  ClientOptions, Objects, option_unset, option_disabled, pos, set_client_defaults,
}
use webwire_go.Runtime.{value, panic, nil_dereference, ◌>>=◌}
use webwire_go.Serving.{Call, Exchange, new_serving, serve_http, webwire_method}
use webwire_go.Socket.{dial, close_socket}

abbrev unset : ClientOptions
unset = record {
  session_info_parser = none;
  default_request_timeout = pos 0;
  autoconnect = option_unset;
  reconnection_interval = pos 0;
  warn_log = none;
  error_log = none;
}

abbrev objects : Objects
objects = record { manager = value 1; generator = 2; parser = 3; warn = 4; error = 5 }

abbrev fresh : Client
fresh = record {
  status = disconnected;
  autoconnect = autoconnect_enabled;
  session = none;
  conn = record { connected = false; conn = none };
  readers = 0;
}

-- The version is the right one, and the dialer gives a connection, or none.
abbrev dials : Attempt
dials = record { version_err = none; dialed = some 3; restoration = none }

abbrev fails_to_dial : Attempt
fails_to_dial = record { version_err = none; dialed = none; restoration = none }

abbrev online : Client
online = record fresh {
  status = connected;
  conn = record { connected = true; conn = some 3 };
  readers = 1;
}

connect_lem_example :
    (after : Client) × (err : Option RequestError) × (connect (λ m. none) none dials fresh
      ≡ value (after, err))
    × ((err ≡ none) ↔ ((dials.version_err ≡ none) × (dials.dialed ≢ none)))
    × (err ≡ none
        → (after.status ≡ connected)
          × (after.readers ≡ fresh.readers + 1)
          × (after.conn ≡ record { connected = true; conn = dials.dialed }))
    × (err ≢ none
        → (after ≡ record fresh { conn = after.conn })
          × (err ≡ (elim dials.version_err [ none ↦ some disconnected_err | some e ↦ some e ])))
connect_lem_example = connect_lem (λ m. none) none dials fresh (λ h. cc) (λ h. cc)

fresh-connects : connect (λ m. none) none dials fresh ≡ value (online, none)
unfolding connect after_dialing dial session_after_connect
fresh-connects = refl

reconnect_panics_example :
    (connect (λ m. none) none fails_to_dial (record online { status = disconnected })
      >>= (λ r. connect (λ m. none) none dials r.0))
    ≡ panic nil_dereference
reconnect_panics_example =
    reconnect_panics (λ m. none) none dials fails_to_dial dials fresh online (λ h. cc)
      fresh-connects refl refl refl

-- It connects and is closed.
closed-Life :
    Life
      (λ m. none)
      none
      (new_client objects unset).0
      true
      (record online {
        status = 0;
        autoconnect = autoconnect_deactivated;
        conn = record { connected = false; conn = some 3 };
      })
unfolding new_client connect_client connect after_dialing dial close set_client_defaults
    close_socket session_after_connect
closed-Life = closes false (connects dials none begins refl) refl

autoconnect_follows_example :
    let t : Client = record online {
      status = 0;
      autoconnect = autoconnect_deactivated;
      conn = record { connected = false; conn = some 3 };
    } in
    (unset.autoconnect ≡ option_disabled → t.autoconnect ≡ autoconnect_disabled)
    × (unset.autoconnect ≢ option_disabled
        → t.autoconnect ≡ (if true then autoconnect_deactivated else autoconnect_enabled))
    × ((new_client objects unset).1 ≡ not (unset.autoconnect == option_disabled))
    × ((fails : Bool) → (u : Client) × (close fails t ≡ value u))
autoconnect_follows_example = autoconnect_follows (λ m. none) none objects unset closed-Life

abbrev asks : Exchange
asks = record {
  method = webwire_method;
  before_upgrade = none;
  upgrade_fails = false;
  deadline_fails = false;
  id = 1;
  messages = [];
  abnormal = false;
}

verifies_server_example :
    let srv = new_serving 1 in
    (call : Call) × (serve_http (λ v. v) asks srv ≡ record srv { calls = srv.calls ++ (call ∷ []) })
    × ((r : Response)
        → IsResponse call r
        → verify_protocol_version (λ m. some m) true (some r)
          ≡ value (if srv.ops.shutdown then some disconnected_err else none))
verifies_server_example =
    verifies_server (λ v. v) (λ m. some m) (λ v. refl) asks (new_serving 1) refl
