-- ===== src/Server/Sessions.antt =====
-- server.go and connection.go: the closure of a session from the server's side, on every connection
-- that shares it.
-- The registry, and the session and what was sent of every connection of the server.
use webwire_go.Base.{if◌then◌else◌, ◌+◌, ltb, Bool, not, Option, none, some, List, [], ◌∷◌, ◌++◌, ℕ}
use webwire_go.Connection.{Session}
use webwire_go.Message.{msg_session_closed}
use webwire_go.Registry.{ConnId, ConnSet, Key, SessionRegistry, deregister, session_connections}
use webwire_go.Runtime.{Bytes}
use mathlib.Core.Logic.{ite}
use native.Mathlib.Decide.{ℕ_discrete}

pub record Connections : Type 0 where
  pub asr : SessionRegistry
  pub session : ConnId → Option Session
  pub sent : ConnId → List Bytes

-- The errors that `CloseSession` of a connection returns.
pub data CloseError : Type 0 where
  disabled unnotified : CloseError

abbrev pub put : {A : Type 0} → (ConnId → A) → ConnId → A → ConnId → A
put f con a k = ite (ℕ_discrete con k) a (f k)

-- `write_fails` says for which connections the socket's `Write` returns an error.
unfoldable pub notify_session_closed :
    (ConnId → Bool) → Connections → ConnId → Connections × Option CloseError
notify_session_closed write_fails p con =
    if write_fails con
    then (p, some unnotified)
    else (record p { sent = put p.sent con (p.sent con ++ ((msg_session_closed ∷ []) ∷ [])) }, none)

-- The connection's session decides what `CloseSession` does.
unfoldable pub close_at :
    (ConnId → Bool) → Connections → ConnId → Option Session → Connections × Option CloseError
unfolding notify_session_closed
close_at write_fails p con none = (p, none)
close_at write_fails p con (some session) =
    notify_session_closed write_fails
      (record p {
        asr = (deregister p.asr (some session.key) con).0;
        session = put p.session con none;
      })
      con

unfoldable pub close_connection_session :
    Bool → (ConnId → Bool) → Connections → ConnId → Connections × Option CloseError
unfolding close_at
close_connection_session sessions_enabled write_fails p con =
    if not sessions_enabled then (p, some disabled) else close_at write_fails p con (p.session con)

-- The loop of the server's `CloseSession` over the connections, which are in the registry's own map:
-- closing the session of one removes only that one, which has been visited.
unfoldable pub close_each :
    Bool → (ConnId → Bool) → Connections → ConnSet → Connections × List (Option CloseError)
close_each sessions_enabled write_fails p [] = (p, [])
close_each sessions_enabled write_fails p ((con, u) ∷ rest) =
    let (q, err) = close_connection_session sessions_enabled write_fails p con in
    let (r, errors) = close_each sessions_enabled write_fails q rest in (r, err ∷ errors)

abbrev pub error_count : List (Option CloseError) → ℕ
error_count [] = 0
error_count (none ∷ errors) = error_count errors
error_count (some e ∷ errors) = error_count errors + 1

abbrev pub ids : ConnSet → List ConnId
ids [] = []
ids ((con, u) ∷ rest) = con ∷ ids rest

-- `affectedConnections`, `errors` and the number that `generalError` tells, if it is not nil.
pub record ClosedSession : Type 0 where
  pub affected_connections : List ConnId
  pub errors : List (Option CloseError)
  pub general_error : Option ℕ

abbrev pub general : ℕ → Option ℕ
general n = if ltb 0 n then some n else none

unfoldable pub close_set :
    Bool → (ConnId → Bool) → Connections → Option ConnSet → Connections × ClosedSession
unfolding close_each
close_set sessions_enabled write_fails p none =
    (p, record { affected_connections = []; errors = []; general_error = none })
close_set sessions_enabled write_fails p (some conns) =
    let (q, errors) = close_each sessions_enabled write_fails p conns in
    (
      q,
      record {
        affected_connections = ids conns;
        errors = errors;
        general_error = general (error_count errors);
      },
    )

unfoldable pub close_session :
    Bool → (ConnId → Bool) → Connections → Key → Connections × ClosedSession
unfolding close_set
close_session sessions_enabled write_fails p key =
    close_set sessions_enabled write_fails p (session_connections p.asr key)
