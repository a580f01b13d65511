-- ===== src/Server/Counting.antt =====
-- How the counter of running operations relates to the handlers that run, and what the end of a
-- shutdown means, over every interleaving.
use webwire_go.Base.{◌+◌, ◌-◌, ◌%◌, ◌^◌, ◌<◌, ◌≡◌, refl, ◌≢◌, true, arith}
use webwire_go.Server.Goroutines.{
  Step, start, Goroutines, registers, signals_in, signals_out, deregisters, discounts, shuts_down,
  wakes, Reachable, step,
}
use webwire_go.Server.Operations.{leave, enter_handler, is_registered, enter_signal, begin_shutdown}
use webwire_go.Runtime.{Panic, panic}

abbrev Balance : Goroutines → Type 0
Balance s =
    (s.ops.current_ops < 2 ^ 32)
    × ((s.ops.current_ops + s.discounted) % 2 ^ 32 ≡ s.counted + s.signals)
    × (s.counted + s.signals < 2 ^ 32)

step-Balance :
    {s t : Goroutines} → Step s t → t.counted + t.signals < 2 ^ 32 → Balance s → Balance t
unfolding enter_handler enter_signal leave begin_shutdown is_registered
step-Balance (registers replies is_active s) h b = ground (arith, b)
step-Balance (signals_in s) h b = ground (arith, b)
step-Balance (signals_out s ops p e) h b = ground (arith, b)
step-Balance (deregisters s ops p e) h b = ground (arith, b)
step-Balance (discounts s ops p e) h b = ground (arith, b)
step-Balance (shuts_down s) h b = ground (arith, b)
step-Balance (wakes s p e) h b = b

pub Reachable-Balance : {s : Goroutines} → Reachable s → Balance s
Reachable-Balance start = (omega arith, refl, omega arith)
Reachable-Balance (step r e h) = step-Balance e h (Reachable-Balance r)

-- In every reachable state, the counter is short of the handlers and signals that run by the number
-- of handlers that have left without having been counted, modulo 2^32.
pub current_ops-balance :
    {s : Goroutines}
    → Reachable s
    → (s.ops.current_ops + s.discounted) % 2 ^ 32 ≡ s.counted + s.signals
current_ops-balance r = (Reachable-Balance r).1

-- Closed means that a shutdown has begun and that nothing runs.
abbrev Orderly : Goroutines → Type 0
Orderly s =
    s.discounted ≡ 0
    → (s.ops.shutdown_rdy_closed ≡ true → (s.ops.shutdown ≡ true) × (s.counted + s.signals ≡ 0))
      × (0 < s.waiting
          → (s.ops.shutdown ≡ true)
            × (s.counted + s.signals ≡ 0 → s.ops.shutdown_rdy_closed ≡ true))

step-Orderly : {s t : Goroutines} → Step s t → Balance s → Orderly s → Orderly t
unfolding enter_handler enter_signal leave begin_shutdown is_registered
step-Orderly (registers replies is_active s) (b, c, d) o = ground (arith, o, b, c, d)
step-Orderly (signals_in s) (b, c, d) o = ground (arith, o, b, c, d)
step-Orderly (signals_out s ops p e) (b, c, d) o = ground (arith, o, b, c, d)
step-Orderly (deregisters s ops p e) (b, c, d) o = ground (arith, o, b, c, d)
step-Orderly (discounts s ops p e) b o = λ z. absurd (omega arith)
step-Orderly (shuts_down s) (b, c, d) o = ground (arith, o, b, c, d)
step-Orderly (wakes s p e) (b, c, d) o = ground (arith, o, b, c, d)

pub Reachable-Orderly : {s : Goroutines} → Reachable s → Orderly s
Reachable-Orderly start = λ z. ((λ c. cc), (λ w. absurd (omega arith)))
Reachable-Orderly (step r e h) = step-Orderly e (Reachable-Balance r) (Reachable-Orderly r)

-- As long as only counted handlers have left, in every reachable state: if `shutdownRdy` is closed, a
-- shutdown has begun and no handler and no signal that was counted runs any more; if a call of Shutdown
-- waits and nothing that was counted runs, the call can go on; and whoever leaves while something that
-- was counted runs does not close the channel a second time.
pub shutdown_graceful :
    {s : Goroutines}
    → Reachable s
    → s.discounted ≡ 0
    → (s.ops.shutdown_rdy_closed ≡ true
        → (s.ops.shutdown ≡ true) × (s.counted ≡ 0) × (s.signals ≡ 0))
      × (0 < s.waiting
          → s.counted + s.signals ≡ 0
          → (t : Goroutines) × Step s t × (t.waiting + 1 ≡ s.waiting))
      × (0 < s.counted + s.signals → (p : Panic) → leave s.ops ≢ panic p)
unfolding leave
shutdown_graceful {s = s} r z =
    let (o, w) = Reachable-Orderly r z in
    (
      λ c. ((o c).0, omega (arith, (o c).1), omega (arith, (o c).1)),
      λ h n. (record s { waiting = s.waiting - 1 }, wakes s h ((w h).1 n), omega arith),
      λ n p e. ground (arith, o, Reachable-Balance r),
    )
