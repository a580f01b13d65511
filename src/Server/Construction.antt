-- ===== src/Server/Construction.antt =====
-- newServer.go: the construction of a server from its options, and `SessionConnections` of server.go.
use webwire_go.Base.{
  length, if◌then◌else◌, ◌==◌, ◌≡◌, refl, ◌≢◌, Bool, true, false, ◌↔◌, ◌⊎◌, Option, none, some,
  List, [], ◌∷◌, ℕ, ap, arith,
}
use webwire_go.Options.{
  ServerOptions, Objects, set_defaults, set_others, option_enabled, option_unset,
}
use webwire_go.Options.Defaults.{IsComplete, set_defaults-returns, set_defaults-IsComplete}
use webwire_go.Registry.{ConnId, Key, SessionRegistry, new_session_registry, session_connections}
use webwire_go.Runtime.{Bytes, Panic, Go, value, panic, no_implementation, ◌>>=◌}
use webwire_go.Server.Operations.{Operations, new_operations}
use mathlib.Core.List.{map}
use mathlib.Core.Option

-- What the server keeps of its options is read from `options`. `httpServer` is its `Addr`, and a listener is a
-- reference; a headless server has neither.
pub record Server : Type 0 where
  pub options : ServerOptions
  pub sessions_enabled : Bool
  pub ops : Operations
  pub connections : List ConnId
  pub asr : SessionRegistry
  pub http_server : Option Bytes
  pub listener : Option ℕ
  pub addr : Option Bytes

abbrev pub headless : ServerOptions → Server
headless opts = record {
  options = opts;
  sessions_enabled = opts.sessions == option_enabled;
  ops = new_operations;
  connections = [];
  asr = new_session_registry opts.max_session_connections;
  http_server = none;
  listener = none;
  addr = none;
}

-- `NewHeadlessServer`
unfoldable pub new_headless_server : Objects → Bool → ServerOptions → Go Server
new_headless_server objects has_implementation options =
    if has_implementation
    then (do opts ← set_defaults objects options; value (headless opts))
    else panic no_implementation

-- "", for which it is ":http"
abbrev pub final_address : Bytes → Bytes
final_address [] = b':' ∷ b'h' ∷ b't' ∷ b't' ∷ b'p' ∷ []
final_address (x ∷ address) = x ∷ address

abbrev pub headed : Bytes → (ℕ → Bytes) → Server → ℕ → Server
headed address addr_of srv listener = record srv {
  http_server = some address;
  listener = some listener;
  addr = some (addr_of listener);
}

-- `NewServer`, with `opts.Address`: nothing for the error of a listener that cannot be set up. `listen`
-- is net.Listen, and `addr_of` is the listener's `Addr`.
unfoldable pub new_server :
    Objects → Bool → Bytes → (Bytes → Option ℕ) → (ℕ → Bytes) → ServerOptions → Go (Option Server)
unfolding new_headless_server
new_server objects has_implementation address listen addr_of options = do
  opts ← set_defaults objects options
  srv ← new_headless_server objects has_implementation opts
  value (
      Option.map (headed address addr_of (record srv { options = opts }))
        (listen (final_address address)))

-- `SessionConnections`
unfoldable pub list_connections : SessionRegistry → Key → Option (List ConnId)
list_connections asr key = elim (session_connections asr key) [
  | none ↦ none
  | some conns ↦ some (map (λ entry. entry.0) conns)
]

abbrev Enables : ServerOptions → Type 0
Enables options = (options.sessions ≡ option_unset) ⊎ (options.sessions ≡ option_enabled)

set_sessions :
    (objects : Objects) (options set : ServerOptions)
    → set_defaults objects options ≡ value set
    → ((set.sessions ≡ option_enabled) ↔ Enables options)
      × (set.max_session_connections ≡ options.max_session_connections)
unfolding set_others
set_sessions objects options set h =
    let (manager, made, same) = set_defaults-returns objects options set h in
    rw same (ground arith, refl)

final_address_lem :
    (address : Bytes)
    → final_address address
      ≡ (if length address == 0 then b':' ∷ b'h' ∷ b't' ∷ b't' ∷ b'p' ∷ [] else address)
final_address_lem [] = refl
final_address_lem (x ∷ address) = ground arith

-- With an implementation, if SetDefaults returns: NewHeadlessServer returns a server whose options are
-- complete; sessions are enabled exactly if they were enabled in the options or not set, and then
-- there is a session manager and a key generator; it is not stopping, no session and no connection
-- is known, and it has no HTTP server, no listener and no address. NewServer applies the defaults
-- twice and sets up a listener for the given address, or ":http" for an empty one; it returns the same
-- server but for an HTTP server with the given address, the listener and its address, or an
-- error if there is no listener. Without an implementation both panic.
pub new_server_lem :
    (objects : Objects) (options set : ServerOptions) (address : Bytes) (listen : Bytes → Option ℕ)
    (addr_of : ℕ → Bytes)
    → set_defaults objects options ≡ value set
    → ((srv : Server) × (new_headless_server objects true options ≡ value srv)
        × (new_server objects true address listen addr_of options
            ≡ value (
                Option.map
                  (λ l. record srv {
                    http_server = some address;
                    listener = some l;
                    addr = some (addr_of l);
                  })
                  (listen (
                    if length address == 0
                    then b':' ∷ b'h' ∷ b't' ∷ b't' ∷ b'p' ∷ []
                    else address))))
        × IsComplete srv.options
        × ((srv.sessions_enabled ≡ true)
            ↔ ((options.sessions ≡ option_unset) ⊎ (options.sessions ≡ option_enabled)))
        × (srv.sessions_enabled ≡ true
            → (srv.options.session_manager ≢ none) × (srv.options.session_key_generator ≢ none))
        × (srv.ops ≡ new_operations)
        × (srv.connections ≡ [])
        × (srv.asr ≡ new_session_registry options.max_session_connections)
        × (srv.http_server ≡ none)
        × (srv.listener ≡ none)
        × (srv.addr ≡ none))
      × (new_headless_server objects false options ≡ panic no_implementation)
      × (new_server objects false address listen addr_of options ≡ panic no_implementation)
unfolding new_server new_headless_server
new_server_lem objects options set address listen addr_of h =
    let (complete, again) = set_defaults-IsComplete objects options set h in
    let (sets, max_kept) = set_sessions objects options set h in
    (
      (
        headless set,
        rw h refl,
        rw (h, again, final_address_lem address) refl,
        complete,
        (λ e. sets.0 (ground (arith, e)), λ e. ground (arith, sets.1 e)),
        (λ e.
            let on : set.sessions ≡ option_enabled = ground (arith, e) in
            (complete.manager_set on, complete.generator_set on)),
        refl,
        refl,
        ap new_session_registry max_kept,
        refl,
        refl,
        refl,
      ),
      refl,
      rw h refl,
    )

-- Where the default session manager cannot be made, both panic.
new_server-panics :
    (objects : Objects) (options : ServerOptions) (address : Bytes) (listen : Bytes → Option ℕ)
    (addr_of : ℕ → Bytes) (p : Panic)
    → set_defaults objects options ≡ panic p
    → (new_headless_server objects true options ≡ panic p)
      × ((given : Bool) → new_server objects given address listen addr_of options ≡ panic p)
unfolding new_server new_headless_server
new_server-panics objects options address listen addr_of p h = (rw h refl, λ given. rw h refl)
