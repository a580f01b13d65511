-- ===== src/Connection.antt =====
-- connection.go and connectionOptions.go: a client's connection on the server, the tasks that keep
-- it alive, and the session that it has. Every critical section of `stateLock` is one function.
-- `tasks` is Go's int32 in two's complement. A reference to the application's session information
-- is a number, and so is a time.
pub mod Tasks
pub mod Encoded
mod Tests
use webwire_go.Base.{
  leb, ◌==◌, if◌then◌else◌, ℕ, ◌+◌, ◌-◌, ◌%◌, ◌^◌, Bool, true, false, not, ◌&&◌, ◌||◌, Option, none,
  some, [],
}
use webwire_go.Runtime.{Bytes, Go, value, panic, no_session_key}
use webwire_go.Registry.{ConnId, Key, SessionRegistry, deregister}

pub record Session : Type 0 where
  pub key : Key
  pub creation : ℕ
  pub last_lookup : ℕ
  pub info : Option ℕ

-- `slots_used` is what is taken of the semaphore `handlerSlots`, whose size is the limit.
-- `sock_closed` counts the calls of `con.sock.Close`.
pub record Connection : Type 0 where
  pub id : ConnId
  pub concurrency_limit : ℕ
  pub is_active : Bool
  pub tasks : ℕ
  pub slots_used : ℕ
  pub session : Option Session
  pub sock_closed : ℕ

-- `AcceptConnection`, and a connection upgraded with it over a socket.
abbrev pub accept_connection : ℕ → ConnId → Connection
accept_connection concurrency_limit id = record {
  id = id;
  concurrency_limit = concurrency_limit;
  is_active = true;
  tasks = 0;
  slots_used = 0;
  session = none;
  sock_closed = 0;
}

unfoldable pub register_task : Connection → Connection
register_task con = record con { tasks = (con.tasks + 1) % 2 ^ 32 }

-- `con.tasks < 1`
abbrev pub no_tasks : ℕ → Bool
no_tasks tasks = tasks == 0 || leb (2 ^ 31) tasks

-- The critical section of `deregisterTask`; the second component is `unlink`.
unfoldable pub deregister_task : Connection → Connection × Bool
deregister_task con =
    let left = (con.tasks + (2 ^ 32 - 1)) % 2 ^ 32 in
    (record con { tasks = left }, not con.is_active && no_tasks left)

-- The critical section of `Close`; the second component is `unlink`.
unfoldable pub close_connection : Connection → Connection × Bool
close_connection con =
    if not con.is_active
    then (con, false)
    else (record con { is_active = false }, no_tasks con.tasks)

abbrev pub key_of : Option Session → Option Key
key_of none = none
key_of (some session) = some (session.key)

unfoldable pub unlink : SessionRegistry → Connection → SessionRegistry × Connection
unlink asr con = (
  (deregister asr (key_of con.session) con.id).0,
  record con { session = none; sock_closed = con.sock_closed + 1 },
)

-- What follows a critical section that has decided on `unlink`.
abbrev pub unlink_if : SessionRegistry → Connection × Bool → SessionRegistry × Connection
unlink_if asr (con, unlinks) = if unlinks then unlink asr con else (asr, con)

-- `HasSession`, `SessionKey` and `SessionCreation`
unfoldable pub has_session : Connection → Bool
has_session con = elim con.session [ none ↦ false | some _ ↦ true ]

unfoldable pub session_key : Connection → Key
session_key con = elim con.session [ none ↦ [] | some session ↦ session.key ]

unfoldable pub session_creation : Connection → ℕ
session_creation con = elim con.session [ none ↦ 0 | some session ↦ session.creation ]

-- `Clone`; `copy` is the `Copy` of the session information, which works on references.
unfoldable pub clone : (ℕ → ℕ) → Option Session → Option Session
clone copy none = none
clone copy (some session) =
    some
      (record session { info = elim session.info [ none ↦ none | some info ↦ some (copy info) ] })

-- `IsActive` and `Session`
abbrev pub is_active : Connection → Bool
is_active con = con.is_active

unfoldable pub session_copy : (ℕ → ℕ) → Connection → Option Session
unfolding clone
session_copy copy con = clone copy con.session

-- `SessionInfo`; `value_of` is the `Value` of the information.
unfoldable pub session_info : (ℕ → Key → Option ℕ) → Connection → Key → Option ℕ
session_info value_of con name = elim con.session [
  | none ↦ none
  | some session ↦ elim session.info [ none ↦ none | some info ↦ value_of info name ]
]

-- `generateSessionKey`, by the random bytes that it gets, or an error; `encode` is base64's.
unfoldable pub generate_session_key : (Bytes → Bytes) → Option Bytes → Go Key
generate_session_key encode none = panic no_session_key
generate_session_key encode (some random) = value (encode random)
