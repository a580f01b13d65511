-- ===== src/Server/Uncounted.antt =====
-- The handlers that `registerHandler` lets in without counting them: signals that arrive during a
-- shutdown, or on a connection that is closed meanwhile.
use webwire_go.Base.{◌+◌, ◌^◌, ◌<◌, ◌≡◌, refl, true, false, arith}
use webwire_go.Server.Goroutines.{
  Step, Goroutines, after_enter, after_shutdown, Left, registers, discounts, shuts_down, Reachable,
  step,
}
use webwire_go.Server.Operations.{leave, Operations, enter_handler, is_registered, begin_shutdown}
use webwire_go.Server.Counting.{Reachable-Balance, Reachable-Orderly}
use mathlib.Core.Path.{subst}

abbrev shut : Goroutines → Goroutines
shut s = record s { ops = record (s.ops) { shutdown = true }; waiting = s.waiting + 1 }

abbrev joined : Goroutines → Goroutines
joined s = record s { uncounted = s.uncounted + 1 }

shuts_down_waiting : (s : Goroutines) → 0 < s.ops.current_ops → Step s (shut s)
unfolding begin_shutdown
shuts_down_waiting s h =
    let e : after_shutdown s (begin_shutdown s.ops) ≡ shut s = ground arith in
    subst (Step s) e (shuts_down s)

signal_joins : (s : Goroutines) → s.ops.shutdown ≡ true → Step s (joined s)
unfolding enter_handler is_registered
signal_joins s h =
    let e : after_enter false s (enter_handler true s.ops) ≡ joined s = ground arith in
    subst (Step s) e (registers false true s)

last_leaves :
    (ops : Operations)
    → ops.shutdown ≡ true
    → ops.current_ops ≡ 1
    → ops.shutdown_rdy_closed ≡ false
    → Left (leave ops) (record ops { current_ops = 0; shutdown_rdy_closed = true })
unfolding leave
last_leaves ops h k c = ground arith

-- From every reachable state in which one counted handler runs, no shutdown has begun, and only
-- counted handlers have left, a state is reachable in which a call of Shutdown can go on while that
-- handler runs: a signal arrives during the shutdown, and leaves.
premature_shutdown :
    {s : Goroutines}
    → Reachable s
    → s.discounted ≡ 0
    → s.counted ≡ 1
    → s.signals ≡ 0
    → s.ops.shutdown ≡ false
    → (t : Goroutines) × Reachable t
      × (t.ops.shutdown_rdy_closed ≡ true)
      × (t.waiting ≡ s.waiting + 1)
      × (t.counted ≡ 1)
premature_shutdown {s = s} r z c g h =
    let one : s.ops.current_ops ≡ 1 = omega (arith, Reachable-Balance r) in
    let still_open : s.ops.shutdown_rdy_closed ≡ false = ground (arith, Reachable-Orderly r z) in
    let few : s.counted + s.signals < 2 ^ 32 = omega arith in
    let r1 = step r (shuts_down_waiting s (omega arith)) few in
    let r2 = step r1 (signal_joins (shut s) refl) few in
    let closed = last_leaves (shut s).ops refl one still_open in
    let out = discounts (joined (shut s)) _ (omega arith) closed in
    (_, step r2 out few, refl, refl, c)

-- In every reachable state in which exactly one handler that was not counted has left, and nothing
-- that was counted runs, Shutdown waits.
shutdown_hangs :
    {s : Goroutines}
    → Reachable s
    → s.discounted ≡ 1
    → s.counted + s.signals ≡ 0
    → (begin_shutdown s.ops).1 ≡ true
unfolding begin_shutdown
shutdown_hangs r z n = ground (arith, Reachable-Balance r)
