-- ===== src/Serving.antt =====
-- serveHttp.go, heartbeat.go, handleMetadata.go and connectionOptions.go: what the server does about
-- one HTTP request, which may become a connection that is read until it ends.
-- What the application, the HTTP server and the websocket library do is an argument; the calls that
-- the server makes of them, and the goroutines that it starts, are recorded in their order. The text
-- of a method is its ASCII codes.
pub mod Added
pub mod Runs
pub mod Interleaved
pub mod Deadlines
mod Tests
use webwire_go.Base.{
  if◌then◌else◌, ◌==◌, ℕ, Bool, true, false, not, Option, none, some, List, [], ◌∷◌, ◌++◌,
}
use webwire_go.Connection.{Connection, accept_connection}
use webwire_go.Options.{option_enabled}
use webwire_go.Registry.{ConnId}
use webwire_go.Runtime.{Bytes, bytes_discrete}
use webwire_go.Server.Operations.{Operations, new_operations}
use mathlib.Core.List.{map}
use mathlib.Core.Logic.{ite}

pub record ConnectionOptions : Type 0 where
  pub accept : Bool
  pub concurrency_limit : ℕ

-- `AcceptConnection` and `RefuseConnection`
unfoldable pub accept_options : ℕ → ConnectionOptions
accept_options concurrency_limit = record { accept = true; concurrency_limit = concurrency_limit }

unfoldable pub refuse_options : Bytes → ConnectionOptions
refuse_options reason = record { accept = false; concurrency_limit = 0 }

abbrev limit_of : Option ConnectionOptions → ℕ
limit_of none = 0
limit_of (some options) = options.concurrency_limit

-- `newConnection`; without a socket a connection counts as closed.
unfoldable pub new_connection : Bool → Option ConnectionOptions → ConnId → Connection
new_connection has_socket options id = record (accept_connection (limit_of options) id) {
  is_active = has_socket;
}

-- `protocolVersion`
abbrev pub protocol_version : Bytes
protocol_version = 49 ∷ 46 ∷ 52 ∷ []

-- "OPTIONS" and "WEBWIRE"
abbrev pub options_method : Bytes
options_method = 79 ∷ 80 ∷ 84 ∷ 73 ∷ 79 ∷ 78 ∷ 83 ∷ []

abbrev pub webwire_method : Bytes
webwire_method = 87 ∷ 69 ∷ 66 ∷ 87 ∷ 73 ∷ 82 ∷ 69 ∷ []

abbrev pub status_service_unavailable : ℕ
status_service_unavailable = 503

pub data Call : Type 0 where
  http_error : ℕ → Call
  on_options asks_before_upgrade : Call
  -- the metadata that was encoded for the response
  writes_metadata : Bytes → Call
  upgrade_failed deadline_failed : Call
  on_client_connected : Connection → Call
  starts_heartbeat stops_heartbeat : Call
  starts_handler : ConnId → Bytes → Call
  warns_abnormal : Call
  -- `connection.Close` and the deferred `conn.Close`
  closes_connection : ConnId → Call
  on_client_disconnected : ConnId → Call
  closes_socket : Call

-- A request: its method, what `BeforeUpgrade` returns, whether the upgrade and the first deadline
-- fail, the connection that it may become, the messages that are read from it, and whether the error
-- that ends the reading is one of an abnormal closure.
pub record Exchange : Type 0 where
  pub method : Bytes
  pub before_upgrade : Option ConnectionOptions
  pub upgrade_fails : Bool
  pub deadline_fails : Bool
  pub id : ConnId
  pub messages : List Bytes
  pub abnormal : Bool

pub record Serving : Type 0 where
  pub ops : Operations
  pub heartbeat : ℕ
  pub connections : List ConnId
  pub calls : List Call

unfoldable pub new_serving : ℕ → Serving
new_serving heartbeat = record {
  ops = new_operations;
  heartbeat = heartbeat;
  connections = [];
  calls = [];
}

abbrev pub when : {A : Type 0} → Bool → List A → List A
when b xs = if b then xs else []

-- `handleMetadata`, without the headers that it sets; the encoder is the JSON library's.
unfoldable pub handle_metadata : (Bytes → Bytes) → Call
handle_metadata encode = writes_metadata (encode protocol_version)

-- The loop over what is read: a handler for every message, until an error ends it.
unfoldable pub read_loop : ConnId → Bool → List Bytes → List Call
read_loop id abnormal [] =
    when abnormal (warns_abnormal ∷ []) ++ (closes_connection id ∷ on_client_disconnected id ∷ [])
read_loop id abnormal (message ∷ messages) =
    starts_handler id message ∷ read_loop id abnormal messages

-- The read deadline is set: from the registration of the connection to the deferred `conn.Close`.
unfoldable pub run_connection : ConnectionOptions → Exchange → Serving → Serving
unfolding new_connection
run_connection options x srv =
    let beats = srv.heartbeat == option_enabled in
    record srv {
      connections = srv.connections ++ (x.id ∷ []);
      calls =
          srv.calls
          ++ ((on_client_connected (new_connection true (some options) x.id) ∷ [])
              ++ (when beats (starts_heartbeat ∷ [])
                  ++ (read_loop x.id x.abnormal x.messages
                      ++ (when beats (stops_heartbeat ∷ []) ++ (closes_socket ∷ [])))));
    }

-- The upgrade has succeeded.
unfoldable pub serve_connection : ConnectionOptions → Exchange → Serving → Serving
unfolding run_connection
serve_connection options x srv =
    if x.deadline_fails
    then record srv { calls = srv.calls ++ (deadline_failed ∷ closes_socket ∷ []) }
    else run_connection options x srv

-- `BeforeUpgrade` has been called.
abbrev pub asked : Serving → Serving
asked srv = record srv { calls = srv.calls ++ (asks_before_upgrade ∷ []) }

-- A method that is neither "OPTIONS" nor "WEBWIRE".
unfoldable pub upgrade : Exchange → Serving → Serving
unfolding serve_connection
upgrade x srv = elim x.before_upgrade [
  | none ↦ asked srv
  | some options ↦
      if not options.accept
      then asked srv
      else if x.upgrade_fails
      then record (asked srv) { calls = (asked srv).calls ++ (upgrade_failed ∷ []) }
      else serve_connection options x (asked srv)
]

unfoldable pub serve_http : (Bytes → Bytes) → Exchange → Serving → Serving
unfolding upgrade handle_metadata
serve_http encode x srv =
    if srv.ops.shutdown
    then record srv { calls = srv.calls ++ (http_error status_service_unavailable ∷ []) }
    else ite (bytes_discrete x.method options_method)
        (record srv { calls = srv.calls ++ (on_options ∷ []) })
        (ite (bytes_discrete x.method webwire_method)
          (record srv { calls = srv.calls ++ (handle_metadata encode ∷ []) }) (upgrade x srv))

-- One request after the other.
unfoldable pub serve_all : (Bytes → Bytes) → List Exchange → Serving → Serving
serve_all encode [] srv = srv
serve_all encode (x ∷ xs) srv = serve_all encode xs (serve_http encode x srv)
