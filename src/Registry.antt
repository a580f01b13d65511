-- ===== src/Registry.antt =====
-- sessionRegistry.go: which connections share which active session. Every method holds the lock
-- from its first to its last access, so each is one step. A connection pointer is a number, and a
-- session key is the bytes of the string.
pub mod Invariant
pub mod View
mod Tests
use webwire_go.Base.{
  ltb, if◌then◌else◌, length, ℕ, ◌+◌, Bool, ◌&&◌, Option, none, some, List, [], ◌∷◌,
}
use webwire_go.Map.{find, insert, delete}
use webwire_go.Runtime.{Bytes, bytes_discrete}
use native.Mathlib.Decide.{ℕ_discrete}

abbrev pub ConnId : Type 0
ConnId = ℕ

abbrev pub Key : Type 0
Key = Bytes

-- `map[*connection]struct{}`
abbrev pub ConnSet : Type 0
ConnSet = List (ConnId × Unit {0})

pub record SessionRegistry : Type 0 where
  pub max_conns : ℕ
  pub registry : List (Key × ConnSet)

pub data RegisterError : Type 0 where
  max_conns_reached : ℕ → Key → RegisterError

pub new_session_registry : ℕ → SessionRegistry
new_session_registry max_conns = record { max_conns = max_conns; registry = [] }

-- `asr.maxConns > 0 && uint(len(connSet)+1) > asr.maxConns`
abbrev pub is_full : ℕ → ConnSet → Bool
is_full max_conns conn_set = ltb 0 max_conns && ltb max_conns (length conn_set + 1)

-- The entry that `con.session.Key` has in the map, if it exists, decides what `register` does.
unfoldable pub register_at :
    SessionRegistry → Key → ConnId → Option ConnSet → SessionRegistry × Option RegisterError
register_at asr key con (some conn_set) =
    if is_full asr.max_conns conn_set then (asr, some (max_conns_reached asr.max_conns key)) else (
      record asr {
        registry = insert bytes_discrete key (insert ℕ_discrete con tt conn_set) asr.registry;
      },
      none,
    )
register_at asr key con none =
    (record asr { registry = insert bytes_discrete key ((con, tt) ∷ []) asr.registry }, none)

unfoldable pub register : SessionRegistry → Key → ConnId → SessionRegistry × Option RegisterError
unfolding register_at
register asr key con = register_at asr key con (find bytes_discrete key asr.registry)

-- The number of connections left; `none` stands for −1.
pub deregister_at : SessionRegistry → Key → ConnId → Option ConnSet → SessionRegistry × Option ℕ
deregister_at asr key con (some conn_set) =
    if ltb (length conn_set) 2
    then (record asr { registry = delete bytes_discrete key asr.registry }, some 0)
    else let left = delete ℕ_discrete con conn_set in
      (record asr { registry = insert bytes_discrete key left asr.registry }, some (length left))
deregister_at asr key con none = (asr, none)

-- The key is that of `conn.session`, which may be nil.
unfoldable pub deregister : SessionRegistry → Option Key → ConnId → SessionRegistry × Option ℕ
unfolding deregister_at
deregister asr none con = (asr, none)
deregister asr (some key) con = deregister_at asr key con (find bytes_discrete key asr.registry)

unfoldable pub active_sessions_num : SessionRegistry → ℕ
active_sessions_num asr = length asr.registry

unfoldable pub session_connections : SessionRegistry → Key → Option ConnSet
session_connections asr key = find bytes_discrete key asr.registry

abbrev size_of : Option ConnSet → Option ℕ
size_of none = none
size_of (some conn_set) = some (length conn_set)

-- `none` stands for −1.
unfoldable pub session_connections_num : SessionRegistry → Key → Option ℕ
session_connections_num asr key = size_of (find bytes_discrete key asr.registry)
