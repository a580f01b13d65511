-- ===== src/Client/Attempts.antt =====
-- How many reconnectors run, and who is left waiting, over every interleaving: tryAutoconnect.go,
-- backgroundReconnect.go and dam.go of client/.
mod Tests
use webwire_go.Base.{
  if◌then◌else◌, ℕ, ◌+◌, ◌-◌, ◌<◌, ◌≤◌, ◌≡◌, ◌≢◌, refl, Bool, true, false, arith, none, some,
}
use webwire_go.Client.Reconnection.{
  Reconnection, new_client, try_autoconnect, waits, background_reconnect, await_barrier,
  close_barrier, Closed, ReconnectionStep, attempts, awaits, passes, expires, connects, errs,
  flushes, renews, flushes_error, renews_error, changes, Reconnects, here, next,
}
use webwire_go.Runtime.{Panic, panic}

abbrev pub reconnectors : Reconnection → ℕ
reconnectors s = s.dialing + s.succeeded + s.replacing + s.failed + s.clearing

record Inv (s : Reconnection) : Type 0 where
  one : reconnectors s ≤ 1
  claimed : 0 < reconnectors s → s.connecting ≡ true
  closing : s.barrier_closed ≡ true → s.replacing + s.clearing ≡ 1
  closed : 0 < s.replacing + s.clearing → s.barrier_closed ≡ true
  emptied : s.barrier_closed ≡ true → s.waiting ≡ 0
  left : 0 < s.released → s.barrier_closed ≡ true

new_client-Inv : (autoconnects : Bool) → Inv (new_client autoconnects)
new_client-Inv autoconnects = ground arith

Step-Inv : {s t : Reconnection} → ReconnectionStep s t → Inv s → Inv t
unfolding background_reconnect await_barrier close_barrier
Step-Inv (attempts s w l) i = ground (arith, i)
Step-Inv (awaits s p) i = ground (arith, i)
Step-Inv (passes s p) i = ground (arith, i)
Step-Inv (expires s p) i = ground (arith, i)
Step-Inv (connects s p) i = ground (arith, i)
Step-Inv (errs s p) i = ground (arith, i)
Step-Inv (flushes s t p l c) i = ground (arith, i)
Step-Inv (renews s p l) i = ground (arith, i)
Step-Inv (flushes_error s t p c) i = ground (arith, i)
Step-Inv (renews_error s p l) i = ground (arith, i)
Step-Inv (changes s b a) i = ground (arith, i)

Reconnects-Inv : {a : Bool} {s : Reconnection} → Reconnects (new_client a) s → Inv s
Reconnects-Inv {a} here = new_client-Inv a
Reconnects-Inv (next r st) = Step-Inv st (Reconnects-Inv r)

-- Over every interleaving, at most one reconnector runs at a time, `connecting` is set while one runs,
-- and no reconnector that is about to flush the dam closes a closed barrier.
pub single_reconnector :
    {a : Bool} {s : Reconnection}
    → Reconnects (new_client a) s
    → (reconnectors s ≤ 1)
      × (0 < reconnectors s → s.connecting ≡ true)
      × (0 < s.succeeded + s.failed → (p : Panic) → close_barrier s ≢ panic p)
unfolding close_barrier
single_reconnector r =
    let i = Reconnects-Inv r in (i.one, i.claimed, λ h p e. ground (arith, i, h, e))

-- No reconnector runs that could clear `connecting`.
abbrev Stalled : Reconnection → Type 0
Stalled s = (s.connecting ≡ true) × (s.dialing + s.succeeded + s.replacing ≡ 0)

Step-Stalled : {s t : Reconnection} → ReconnectionStep s t → Stalled s → Stalled t
unfolding background_reconnect await_barrier close_barrier
Step-Stalled (attempts s w l) i = ground (arith, i)
Step-Stalled (awaits s p) i = ground (arith, i)
Step-Stalled (passes s p) i = ground (arith, i)
Step-Stalled (expires s p) i = ground (arith, i)
Step-Stalled (connects s p) i = ground (arith, i)
Step-Stalled (errs s p) i = ground (arith, i)
Step-Stalled (flushes s t p l c) i = ground (arith, i)
Step-Stalled (renews s p l) i = ground (arith, i)
Step-Stalled (flushes_error s t p c) i = ground (arith, i)
Step-Stalled (renews_error s p l) i = ground (arith, i)
Step-Stalled (changes s b a) i = ground (arith, i)

Reconnects-Stalled : {s t : Reconnection} → Reconnects s t → Stalled s → Stalled t
Reconnects-Stalled here i = i
Reconnects-Stalled (next r st) i = Step-Stalled st (Reconnects-Stalled r i)

-- Once a reconnector has met an error that is no DisconnectedErr, no reconnector tries to connect in
-- any later state, and `connecting` stays set.
pub stalled_for_good :
    {a : Bool} {s t : Reconnection}
    → Reconnects (new_client a) s
    → 0 < s.failed
    → Reconnects s t
    → (t.connecting ≡ true) × (t.dialing ≡ 0) × (t.succeeded ≡ 0)
stalled_for_good r h q =
    let i = Reconnects-Inv r in
    let st = Reconnects-Stalled q (ground (arith, i, h)) in
    (st.0, omega (arith, st), omega (arith, st))

-- From every reachable state in which a reconnector has connected the client, nobody is at the dam,
-- and a goroutine has called backgroundReconnect and not yet await, a state is reachable in which
-- that goroutine waits at the barrier although the client is connected and no reconnector runs.
missed_flush :
    {a : Bool} {s : Reconnection}
    → Reconnects (new_client a) s
    → 0 < s.succeeded
    → s.is_connected ≡ true
    → s.waiting + s.released ≡ 0
    → 0 < s.entering
    → (t : Reconnection) × Reconnects s t
      × (t.is_connected ≡ true)
      × (reconnectors t ≡ 0)
      × (t.waiting ≡ 1)
unfolding close_barrier await_barrier
missed_flush {s = s} r h c w n =
    let i = Reconnects-Inv r in
    let r1 = next here (
      flushes s (record s { barrier_closed = true; waiting = 0; released = s.released + s.waiting })
        h (omega (arith, i)) (ground (arith, i, h))) in
    let r2 = next r1 (renews _ (omega arith) (omega arith)) in
    let r3 = next r2 (awaits _ n) in (_, r3, c, omega (arith, i), refl)
