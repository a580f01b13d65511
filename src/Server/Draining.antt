-- ===== src/Server/Draining.antt =====
-- handleMessage.go and server.go: how a shutdown comes to its end once no more messages arrive.
use webwire_go.Base.{ℕ, zero, suc, ◌+◌, ◌^◌, ◌≤◌, ◌<◌, ◌≡◌, inl, inr, true, arith}
use webwire_go.Runtime.{Go-cases, value}
use webwire_go.Server.Counting.{shutdown_graceful, Reachable-Balance, Reachable-Orderly}
use native.Mathlib.Decide.{dec_lt}
use webwire_go.Server.Goroutines.{
  Step, Goroutines, registers, signals_in, signals_out, deregisters, discounts, shuts_down, wakes,
  Reachable, step,
}
use webwire_go.Server.Operations.{Operations, leave}

-- A handler or a signal ends, or a call of Shutdown goes on: the steps that need no new message.
abbrev pub Ends : {s t : Goroutines} → Step s t → Type 0
Ends (signals_out s ops p e) = Unit {0}
Ends (deregisters s ops p e) = Unit {0}
Ends (discounts s ops p e) = Unit {0}
Ends (wakes s p e) = Unit {0}
Ends (registers replies is_active s) = ⊥
Ends (signals_in s) = ⊥
Ends (shuts_down s) = ⊥

-- So many of these steps.
pub data Drains (s : Goroutines) : ℕ → Goroutines → Type 0 where
  still : Drains s zero s
  then_ends :
      {n : ℕ} {t u : Goroutines} → Drains s n t → (e : Step t u) → Ends e → Drains s (suc n) u

-- What has to end.
abbrev pub remaining : Goroutines → ℕ
remaining s = s.counted + s.uncounted + s.signals + s.waiting

Ends-remaining : {s t : Goroutines} (e : Step s t) → Ends e → remaining t + 1 ≡ remaining s
Ends-remaining (signals_out s ops p e) h = omega arith
Ends-remaining (deregisters s ops p e) h = omega arith
Ends-remaining (discounts s ops p e) h = omega arith
Ends-remaining (wakes s p e) h = omega arith
Ends-remaining (registers replies is_active s) h = absurd h
Ends-remaining (signals_in s) h = absurd h
Ends-remaining (shuts_down s) h = absurd h

Drains-remaining :
    {s : Goroutines} {n : ℕ} {t : Goroutines} → Drains s n t → remaining t + n ≡ remaining s
Drains-remaining still = omega arith
Drains-remaining (then_ends d e h) = omega (arith, Drains-remaining d, Ends-remaining e h)

-- A shutdown has begun, and every handler that runs or has left was counted.
pub record IsStopping (s : Goroutines) : Type 0 where
  pub reachable : Reachable s
  pub begun : s.ops.shutdown ≡ true
  pub all_counted : s.uncounted + s.discounted ≡ 0

leave-shutdown : (ops left : Operations) → leave ops ≡ value left → left.shutdown ≡ ops.shutdown
unfolding leave
leave-shutdown ops left h = ground arith

few : {s : Goroutines} → Reachable s → s.counted + s.signals < 2 ^ 32
few r = (Reachable-Balance r).2

Ends-IsStopping : {s t : Goroutines} (e : Step s t) → Ends e → IsStopping s → IsStopping t
Ends-IsStopping (signals_out s ops p e) h i = record {
  reachable = step i.reachable (signals_out s ops p e) (omega (arith, few i.reachable));
  begun = ground (arith, leave-shutdown s.ops ops, i.begun);
  all_counted = i.all_counted;
}
Ends-IsStopping (deregisters s ops p e) h i = record {
  reachable = step i.reachable (deregisters s ops p e) (omega (arith, few i.reachable));
  begun = ground (arith, leave-shutdown s.ops ops, i.begun);
  all_counted = i.all_counted;
}
Ends-IsStopping (discounts s ops p e) h i = absurd (omega (arith, i.all_counted))
Ends-IsStopping (wakes s p e) h i = record {
  reachable = step i.reachable (wakes s p e) (few i.reachable);
  begun = i.begun;
  all_counted = i.all_counted;
}
Ends-IsStopping (registers replies is_active s) h i = absurd h
Ends-IsStopping (signals_in s) h i = absurd h
Ends-IsStopping (shuts_down s) h i = absurd h

Drains-IsStopping :
    {s : Goroutines} {n : ℕ} {t : Goroutines} → Drains s n t → IsStopping s → IsStopping t
Drains-IsStopping still i = i
Drains-IsStopping (then_ends d e h) i = Ends-IsStopping e h (Drains-IsStopping d i)

Progress : Goroutines → Type 0
Progress s = (t : Goroutines) × (e : Step s t) × Ends e

-- Whoever leaves finds the channel open.
left :
    {s : Goroutines}
    → IsStopping s
    → 0 < s.counted + s.signals
    → (ops : Operations) × (leave s.ops ≡ value ops)
left {s} i h = elim (Go-cases (leave s.ops)) [
  | inl ok ↦ ok
  | inr (p, e) ↦ absurd ((shutdown_graceful i.reachable (omega (arith, i.all_counted))).2 h p e)
]

goes_on : {s : Goroutines} → IsStopping s → 0 < remaining s → Progress s
unfolding Progress
goes_on {s} i h = elim (dec_lt 0 s.signals) [
  | yes p ↦ let (ops, e) = left i (omega arith) in (_, signals_out s ops p e, tt)
  | no p ↦ elim (dec_lt 0 s.counted) [
    | yes q ↦ let (ops, e) = left i (omega arith) in (_, deregisters s ops q e, tt)
    | no q ↦
        let w : 0 < s.waiting = omega (arith, i.all_counted) in
        let closed =
          ((Reachable-Orderly i.reachable (omega (arith, i.all_counted))).1 w).1 (omega arith) in
        (_, wakes s w closed, tt)
  ]
]

-- In every reachable state in which a shutdown has begun and every handler was counted: as long as
-- something is left to end, some step without a new message can be made; every such step leaves
-- one less, so there are no more of them than handlers, signals and waiting calls of Shutdown; and
-- when as many have been made, nothing runs and no call of Shutdown waits.
pub shutdown_terminates :
    {s : Goroutines} {n : ℕ} {t : Goroutines}
    → IsStopping s
    → Drains s n t
    → (n ≤ remaining s)
      × (n < remaining s → (u : Goroutines) × (e : Step t u) × Ends e)
      × (n ≡ remaining s → (t.counted ≡ 0) × (t.signals ≡ 0) × (t.waiting ≡ 0))
unfolding Progress
shutdown_terminates i d =
    let m = Drains-remaining d in
    (
      omega arith,
      λ h. goes_on (Drains-IsStopping d i) (omega arith),
      λ h. (omega arith, omega arith, omega arith),
    )
