-- ===== src/Client/Reconnection.antt =====
-- client/tryAutoconnect.go, client/backgroundReconnect.go and client/dam.go: goroutines that wait
-- until a reconnector has connected the client, counted by where they stand.
-- What the goroutines share. `entering` have called backgroundReconnect and not yet await; `waiting`
-- wait at the barrier, which is open; `released` hold the dam's read lock at the closed barrier. A
-- reconnector is in `connect` or between two attempts (`dialing`), has connected (`succeeded`), has
-- met another error than DisconnectedErr (`failed`), or has closed the barrier and is about to
-- replace it (`replacing` under connectingLock, `clearing` after an error).
use webwire_go.Base.{
  if◌then◌else◌, ℕ, ◌+◌, ◌-◌, ◌<◌, ◌≡◌, Bool, true, false, not, Option, none, some,
}
use webwire_go.Errors.{RequestError, disconnected_err}
use webwire_go.Runtime.{close_of_closed_channel, Go, value, panic}

pub record Reconnection : Type 0 where
  pub is_connected : Bool
  pub autoconnects : Bool
  pub connecting : Bool
  pub barrier_closed : Bool
  pub entering : ℕ
  pub waiting : ℕ
  pub released : ℕ
  pub dialing : ℕ
  pub succeeded : ℕ
  pub replacing : ℕ
  pub failed : ℕ
  pub clearing : ℕ

-- A new client, with autoconnect or without.
abbrev pub new_client : Bool → Reconnection
new_client autoconnects = record {
  is_connected = false;
  autoconnects = autoconnects;
  connecting = false;
  barrier_closed = false;
  entering = 0;
  waiting = 0;
  released = 0;
  dialing = 0;
  succeeded = 0;
  replacing = 0;
  failed = 0;
  clearing = 0;
}

-- What `tryAutoconnect` does first: it returns nil or an error, or goes on to wait.
pub data Attempt : Type 0 where
  returns : Option RequestError → Attempt
  waits : Attempt

unfoldable pub try_autoconnect : Reconnection → Attempt
try_autoconnect s =
    if s.is_connected
    then returns none
    else if not s.autoconnects
    then returns (some disconnected_err)
    else waits

-- The critical section of `backgroundReconnect`, which starts a reconnector unless one is said to run.
unfoldable pub background_reconnect : Reconnection → Reconnection
background_reconnect s =
    if s.connecting then s else record s { connecting = true; dialing = s.dialing + 1 }

-- `await` up to its `select`.
unfoldable pub await_barrier : Reconnection → Reconnection
await_barrier s =
    if s.barrier_closed
    then record s { released = s.released + 1 }
    else record s { waiting = s.waiting + 1 }

-- `close(dam.barrier)`: whoever waits at the barrier goes on, with the nil of a closed channel.
unfoldable pub close_barrier : Reconnection → Go Reconnection
close_barrier s =
    if s.barrier_closed
    then panic close_of_closed_channel
    else value (record s { barrier_closed = true; waiting = 0; released = s.released + s.waiting })

abbrev pub Closed : Reconnection → Reconnection → Type 0
Closed s t = close_barrier s ≡ value t

pub data ReconnectionStep : Reconnection → Reconnection → Type 0 where
  -- `tryAutoconnect` and the critical section of `backgroundReconnect`, while connectingLock is free
  attempts :
      (s : Reconnection)
      → try_autoconnect s ≡ waits
      → s.replacing ≡ 0
      → ReconnectionStep s
          (record (background_reconnect s) { entering = (background_reconnect s).entering + 1 })
  awaits :
      (s : Reconnection)
      → 0 < s.entering
      → ReconnectionStep s (await_barrier (record s { entering = s.entering - 1 }))
  -- `await` returns at the closed barrier
  passes :
      (s : Reconnection)
      → 0 < s.released
      → ReconnectionStep s (record s { released = s.released - 1 })
  -- `await` returns because its timer or its context is done
  expires :
      (s : Reconnection) → 0 < s.waiting → ReconnectionStep s (record s { waiting = s.waiting - 1 })
  -- `connect` returns nil, or an error that is no DisconnectedErr; after a DisconnectedErr the
  -- reconnector sleeps and tries again
  connects :
      (s : Reconnection)
      → 0 < s.dialing
      → ReconnectionStep s
          (record s { dialing = s.dialing - 1; succeeded = s.succeeded + 1; is_connected = true })
  errs :
      (s : Reconnection)
      → 0 < s.dialing
      → ReconnectionStep s (record s { dialing = s.dialing - 1; failed = s.failed + 1 })
  -- `flush(nil)`, under connectingLock: closing and replacing the barrier, with nobody left at it
  flushes :
      (s t : Reconnection)
      → 0 < s.succeeded
      → s.replacing ≡ 0
      → Closed s t
      → ReconnectionStep s (record t { succeeded = t.succeeded - 1; replacing = t.replacing + 1 })
  renews :
      (s : Reconnection)
      → 0 < s.replacing
      → s.released ≡ 0
      → ReconnectionStep s
          (record s { replacing = s.replacing - 1; barrier_closed = false; connecting = false })
  -- `flush(err)`, without connectingLock
  flushes_error :
      (s t : Reconnection)
      → 0 < s.failed
      → Closed s t
      → ReconnectionStep s (record t { failed = t.failed - 1; clearing = t.clearing + 1 })
  renews_error :
      (s : Reconnection)
      → 0 < s.clearing
      → s.released ≡ 0
      → ReconnectionStep s (record s { clearing = s.clearing - 1; barrier_closed = false })
  -- the connection is lost or closed, or the program connects, closes or re-enables the client
  changes :
      (s : Reconnection) (is_connected autoconnects : Bool)
      → ReconnectionStep s (record s { is_connected = is_connected; autoconnects = autoconnects })

pub data Reconnects (s : Reconnection) : Reconnection → Type 0 where
  here : Reconnects s s
  next : {t u : Reconnection} → Reconnects s t → ReconnectionStep t u → Reconnects s u
