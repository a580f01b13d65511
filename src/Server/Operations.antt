-- ===== src/Server/Operations.antt =====
-- The counter of running operations and the shutdown: server.go, handleMessage.go and
-- handleSignal.go. Each critical section of `opsLock` is one function.
-- `current_ops` is Go's uint32, and `close` of a closed channel panics.
use webwire_go.Base.{ltb, if◌then◌else◌, ℕ, ◌+◌, ◌-◌, ◌%◌, ◌^◌, Bool, true, false, not, ◌&&◌, ◌||◌}
use webwire_go.Runtime.{close_of_closed_channel, Go, value, panic}

pub record Operations : Type 0 where
  pub shutdown : Bool
  pub current_ops : ℕ
  pub shutdown_rdy_closed : Bool

abbrev pub new_operations : Operations
new_operations = record { shutdown = false; current_ops = 0; shutdown_rdy_closed = false }

-- `srv.currentOps++` and `srv.currentOps--`
abbrev pub increment : Operations → Operations
increment srv = record srv { current_ops = (srv.current_ops + 1) % 2 ^ 32 }

abbrev pub decrement : Operations → Operations
decrement srv = record srv { current_ops = (srv.current_ops + (2 ^ 32 - 1)) % 2 ^ 32 }

-- The critical section of `registerHandler`; the second component is `failMsg`.
unfoldable pub enter_handler : Bool → Operations → Operations × Bool
enter_handler is_active srv =
    if srv.shutdown || not is_active then (srv, true) else (increment srv, false)

-- `registerHandler` goes on to return true.
unfoldable pub is_registered : Bool → Bool → Bool
is_registered fail_msg replies = not (fail_msg && replies)

-- The first critical section of `handleSignal`; the second component says that it goes on.
unfoldable pub enter_signal : Operations → Operations × Bool
enter_signal srv = if srv.shutdown then (srv, false) else (increment srv, true)

-- The critical section of `deregisterHandler` and the second one of `handleSignal`.
unfoldable pub leave : Operations → Go Operations
leave srv =
    let left = decrement srv in
    if left.shutdown && ltb left.current_ops 1
    then if left.shutdown_rdy_closed
      then panic close_of_closed_channel
      else value (record left { shutdown_rdy_closed = true })
    else value left

-- The critical section of `Shutdown`; the second component says that it waits for `shutdownRdy`.
unfoldable pub begin_shutdown : Operations → Operations × Bool
begin_shutdown srv = (record srv { shutdown = true }, not (ltb srv.current_ops 1))
