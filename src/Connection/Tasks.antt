-- ===== src/Connection/Tasks.antt =====
-- The tasks of a connection and its closure, over every interleaving of the critical sections.
-- `unlinking` counts the goroutines that have decided to unlink the connection and have not yet.
use webwire_go.Base.{
  if◌then◌else◌, Bool-cases, ℕ, ◌+◌, ◌-◌, ◌^◌, ◌<◌, ◌≡◌, refl, ◌⊎◌, Bool, true, false, arith,
}
use webwire_go.Connection.{
  Connection, accept_connection, register_task, deregister_task, close_connection, unlink,
}
use webwire_go.Registry.{SessionRegistry}

pub record Working : Type 0 where
  pub con : Connection
  pub asr : SessionRegistry
  pub running : ℕ
  pub unlinking : ℕ
  pub late : ℕ

abbrev after_decision : Working → ℕ → Connection × Bool → Working
after_decision s running (con, unlinks) = record s {
  con = con;
  running = running;
  unlinking = if unlinks then s.unlinking + 1 else s.unlinking;
}

-- `registerHandler` looks at `isActive` before it calls `registerTask`, and the connection may be
-- closed in between: `late` counts the tasks that have begun on a closed connection.
pub data WorkStep : Working → Working → Type 0 where
  begins :
      (s : Working)
      → s.running + 1 < 2 ^ 31
      → WorkStep s (record s {
        con = register_task s.con;
        running = s.running + 1;
        late = if s.con.is_active then s.late else s.late + 1;
      })
  ends :
      (s : Working)
      → 0 < s.running
      → WorkStep s (after_decision s (s.running - 1) (deregister_task s.con))
  closes : (s : Working) → WorkStep s (after_decision s s.running (close_connection s.con))
  unlinks_now :
      (s : Working)
      → 0 < s.unlinking
      → WorkStep s (record s {
        asr = (unlink s.asr s.con).0;
        con = (unlink s.asr s.con).1;
        unlinking = s.unlinking - 1;
      })

pub data Works (asr : SessionRegistry) (con : Connection) : Working → Type 0 where
  fresh : Works asr con (record { con = con; asr = asr; running = 0; unlinking = 0; late = 0 })
  work : {s t : Working} → Works asr con s → WorkStep s t → Works asr con t

abbrev Sound : Working → Type 0
Sound s =
    (s.con.tasks ≡ s.running)
    × (s.running < 2 ^ 31)
    × (s.late ≡ 0
        → ((s.con.is_active ≡ true → s.con.sock_closed + s.unlinking ≡ 0)
            × (s.con.is_active ≡ false → 0 < s.running → s.con.sock_closed + s.unlinking ≡ 0)
            × (s.con.is_active ≡ false → s.running ≡ 0 → s.con.sock_closed + s.unlinking ≡ 1)))

step-Sound : {s t : Working} → WorkStep s t → Sound s → Sound t
unfolding register_task deregister_task close_connection unlink
step-Sound (begins s few) (a, b, o) = ground (arith, a, b, o)
step-Sound (ends s p) (a, b, o) = ground (arith, a, b, o)
step-Sound (closes s) (a, b, o) = ground (arith, a, b, o)
step-Sound (unlinks_now s p) (a, b, o) = ground (arith, a, b, o)

Works-Sound :
    {asr : SessionRegistry} {limit id : ℕ} {s : Working}
    → Works asr (accept_connection limit id) s
    → Sound s
Works-Sound fresh = (refl, omega arith, λ z. ((λ h. refl), (λ h k. absurd (omega arith)), λ h. cc))
Works-Sound (work r e) = step-Sound e (Works-Sound r)

-- Over every interleaving of tasks, calls of Close and the unlinking that these decide on, as long
-- as no task began on the closed connection: it is unlinked while neither active nor at work, and
-- then once, by the one goroutine that has closed its socket or is about to.
pub unlinked_once :
    {asr : SessionRegistry} {limit id : ℕ} {s : Working}
    → Works asr (accept_connection limit id) s
    → s.late ≡ 0
    → ((s.con.is_active ≡ false) × (s.running ≡ 0) → s.con.sock_closed + s.unlinking ≡ 1)
      × ((s.con.is_active ≡ true) ⊎ (0 < s.running) → s.con.sock_closed + s.unlinking ≡ 0)
unlinked_once {s = s} r z =
    let o = (Works-Sound r).2 z in
    (λ (h, k). o.2 h k, λ h. ground (arith, o, h, Bool-cases s.con.is_active))

last_task_unlinks :
    (con : Connection)
    → con.is_active ≡ false
    → con.tasks ≡ 1
    → deregister_task con ≡ (record con { tasks = 0 }, true)
unfolding deregister_task
last_task_unlinks con h k = ground arith

-- From every reachable state of a closed connection without tasks, a task that has looked at the
-- connection before begins, ends, and unlinks the connection once more.
unlinked_again :
    {asr : SessionRegistry} {limit id : ℕ} {s : Working}
    → Works asr (accept_connection limit id) s
    → s.con.is_active ≡ false
    → s.running ≡ 0
    → (t : Working) × Works asr (accept_connection limit id) t
      × (t.con.sock_closed + t.unlinking ≡ s.con.sock_closed + s.unlinking + 1)
unfolding register_task
unlinked_again {s = s} r h z =
    let one : register_task s.con ≡ record (s.con) { tasks = 1 } = ground (arith, Works-Sound r) in
    let r1 = work r (begins s (omega arith)) in
    let r2 = work r1 (ends _ (omega arith)) in
    (_, r2, rw (one, last_task_unlinks (record (s.con) { tasks = 1 }) h refl) (omega arith))
