-- ===== src/Server/Goroutines.antt =====
-- The goroutines of `handleMessage` and of `Shutdown` between their critical sections: how many
-- stand where. The scheduler may let any of them go on.
-- `counted` handlers have returned true from `registerHandler` and have incremented the counter;
-- `uncounted` ones have returned true without that. `signals` are in `OnSignal`. `discounted` counts
-- the uncounted ones that have left, and `waiting` the calls of `Shutdown` that wait.
use webwire_go.Base.{if◌then◌else◌, ℕ, ◌+◌, ◌-◌, ◌^◌, ◌<◌, ◌≡◌, Bool, true}
use webwire_go.Runtime.{Go, value}
use webwire_go.Server.Operations.{
  Operations, new_operations, enter_handler, is_registered, enter_signal, leave, begin_shutdown,
}

pub record Goroutines : Type 0 where
  pub ops : Operations
  pub counted : ℕ
  pub uncounted : ℕ
  pub signals : ℕ
  pub discounted : ℕ
  pub waiting : ℕ

abbrev pub idle : Goroutines
idle = record {
  ops = new_operations;
  counted = 0;
  uncounted = 0;
  signals = 0;
  discounted = 0;
  waiting = 0;
}

-- A handler in `registerHandler`, by what the critical section has decided.
abbrev pub after_enter : Bool → Goroutines → Operations × Bool → Goroutines
after_enter replies s (ops, fail_msg) =
    if is_registered fail_msg replies
    then if fail_msg
      then record s { ops = ops; uncounted = s.uncounted + 1 }
      else record s { ops = ops; counted = s.counted + 1 }
    else record s { ops = ops }

abbrev pub after_signal : Goroutines → Operations × Bool → Goroutines
after_signal s (ops, goes_on) =
    if goes_on then record s { ops = ops; signals = s.signals + 1 } else record s { ops = ops }

abbrev pub after_shutdown : Goroutines → Operations × Bool → Goroutines
after_shutdown s (ops, waits) =
    if waits then record s { ops = ops; waiting = s.waiting + 1 } else record s { ops = ops }

abbrev pub Left : Go Operations → Operations → Type 0
Left result ops = result ≡ value ops

pub data Step : Goroutines → Goroutines → Type 0 where
  -- `registerHandler`, for a message that requires a reply or not, on an active connection or not
  registers :
      (replies is_active : Bool) (s : Goroutines)
      → Step s (after_enter replies s (enter_handler is_active s.ops))
  -- `handleSignal` up to `OnSignal`
  signals_in : (s : Goroutines) → Step s (after_signal s (enter_signal s.ops))
  -- `handleSignal` after `OnSignal`
  signals_out :
      (s : Goroutines) (ops : Operations)
      → 0 < s.signals
      → Left (leave s.ops) ops
      → Step s (record s { ops = ops; signals = s.signals - 1 })
  -- `deregisterHandler` of a counted handler and of another one
  deregisters :
      (s : Goroutines) (ops : Operations)
      → 0 < s.counted
      → Left (leave s.ops) ops
      → Step s (record s { ops = ops; counted = s.counted - 1 })
  discounts :
      (s : Goroutines) (ops : Operations)
      → 0 < s.uncounted
      → Left (leave s.ops) ops
      → Step s (record s { ops = ops; uncounted = s.uncounted - 1; discounted = s.discounted + 1 })
  shuts_down : (s : Goroutines) → Step s (after_shutdown s (begin_shutdown s.ops))
  -- `<-srv.shutdownRdy` on the closed channel
  wakes :
      (s : Goroutines)
      → 0 < s.waiting
      → s.ops.shutdown_rdy_closed ≡ true
      → Step s (record s { waiting = s.waiting - 1 })

-- Fewer goroutines run at a time than a uint32 can count.
pub data Reachable : Goroutines → Type 0 where
  start : Reachable idle
  step : {s t : Goroutines} → Reachable s → Step s t → t.counted + t.signals < 2 ^ 32 → Reachable t
