-- ===== src/Server/Slots.antt =====
-- handleMessage.go: the slots of a connection with a limit of concurrent handlers, over every
-- interleaving of its handlers.
-- `deciding` handlers have a slot and have not yet looked whether the server or the connection is
-- closing, `registered` ones go on to run, and `refused` counts those that were answered with the
-- reply about the shutdown and did not register.
use webwire_go.Base.{ℕ, ◌+◌, ◌-◌, ◌≤◌, ◌<◌, ◌≡◌, refl, ◌↔◌, none, some, arith}
use webwire_go.Connection.{Connection, accept_connection}
use webwire_go.Registry.{ConnId}
use webwire_go.Server.Dispatch.{acquire_slot, release_slot}

pub record Handling : Type 0 where
  pub con : Connection
  pub deciding : ℕ
  pub registered : ℕ
  pub refused : ℕ

pub data SlotStep : Handling → Handling → Type 0 where
  acquires :
      (s : Handling) (con : Connection)
      → acquire_slot s.con ≡ some con
      → SlotStep s (record s { con = con; deciding = s.deciding + 1 })
  goes_on :
      (s : Handling)
      → 0 < s.deciding
      → SlotStep s (record s { deciding = s.deciding - 1; registered = s.registered + 1 })
  refuses :
      (s : Handling)
      → 0 < s.deciding
      → SlotStep s (record s { deciding = s.deciding - 1; refused = s.refused + 1 })
  -- `deregisterHandler`
  leaves :
      (s : Handling)
      → 0 < s.registered
      → SlotStep s (record s { con = release_slot s.con; registered = s.registered - 1 })

pub data Handles (s : Handling) : Handling → Type 0 where
  here : Handles s s
  next : {t u : Handling} → Handles s t → SlotStep t u → Handles s u

abbrev pub new_handling : ℕ → ConnId → Handling
new_handling limit id = record {
  con = accept_connection limit id;
  deciding = 0;
  registered = 0;
  refused = 0;
}

-- Every slot that is taken is accounted for.
record IsAccounted (limit : ℕ) (s : Handling) : Type 0 where
  same_limit : s.con.concurrency_limit ≡ limit
  taken : 0 < limit → s.con.slots_used ≡ s.deciding + s.registered + s.refused
  free : 0 < limit → s.con.slots_used ≤ limit

SlotStep-IsAccounted :
    {limit : ℕ} {s t : Handling} → SlotStep s t → IsAccounted limit s → IsAccounted limit t
unfolding acquire_slot release_slot
SlotStep-IsAccounted (acquires s con e) i = ground (arith, i.same_limit, i.taken, i.free)
SlotStep-IsAccounted (goes_on s h) i = ground (arith, i.same_limit, i.taken, i.free)
SlotStep-IsAccounted (refuses s h) i = ground (arith, i.same_limit, i.taken, i.free)
SlotStep-IsAccounted (leaves s h) i = ground (arith, i.same_limit, i.taken, i.free)

Handles-IsAccounted :
    {limit : ℕ} {id : ConnId} {s : Handling}
    → Handles (new_handling limit id) s
    → IsAccounted limit s
Handles-IsAccounted here = record { same_limit = refl; taken = λ h. refl; free = λ h. omega arith }
Handles-IsAccounted (next r e) = SlotStep-IsAccounted e (Handles-IsAccounted r)

acquire_slot-eq_none :
    (con : Connection)
    → 0 < con.concurrency_limit
    → (acquire_slot con ≡ none) ↔ (con.concurrency_limit ≤ con.slots_used)
unfolding acquire_slot
acquire_slot-eq_none con h = ground arith

-- Over every interleaving, on a connection with a limit: the handlers that have a slot and the
-- requests that were refused are never more than the limit; a handler has to wait for a slot exactly
-- if they are as many; and whoever leaves releases a slot that is taken.
pub slots_bounded :
    {limit : ℕ} {id : ConnId} {s : Handling}
    → Handles (new_handling limit id) s
    → 0 < limit
    → (s.deciding + s.registered + s.refused ≤ limit)
      × ((acquire_slot s.con ≡ none) ↔ (s.deciding + s.registered + s.refused ≡ limit))
      × (0 < s.registered → 0 < s.con.slots_used)
slots_bounded {limit} {id} {s} r h =
    let i = Handles-IsAccounted r in
    let e = i.taken h in
    let f = i.free h in
    let w = acquire_slot-eq_none s.con (omega (arith, i.same_limit)) in
    (
      omega arith,
      (λ x. omega (arith, w.0 x, i.same_limit), λ x. w.1 (omega (arith, i.same_limit))),
      λ x. omega arith,
    )

SlotStep-refused : {s t : Handling} → SlotStep s t → s.refused ≤ t.refused
SlotStep-refused (acquires s con e) = omega arith
SlotStep-refused (goes_on s h) = omega arith
SlotStep-refused (refuses s h) = omega arith
SlotStep-refused (leaves s h) = omega arith

Handles-refused : {s t : Handling} → Handles s t → s.refused ≤ t.refused
Handles-refused here = omega arith
Handles-refused (next r e) = omega (arith, Handles-refused r, SlotStep-refused e)

Handles-join : {s t u : Handling} → Handles s t → Handles t u → Handles s u
Handles-join r here = r
Handles-join r (next q e) = next (Handles-join r q) e

-- A refused request keeps its slot: once as many requests were refused as the limit allows handlers,
-- every later handler of the connection waits for ever.
pub starved :
    {limit : ℕ} {id : ConnId} {s t : Handling}
    → Handles (new_handling limit id) s
    → 0 < limit
    → s.refused ≡ limit
    → Handles s t
    → (acquire_slot t.con ≡ none) × (t.registered ≡ 0) × (t.deciding ≡ 0)
starved r h e q =
    let (few, waits, taken) = slots_bounded (Handles-join r q) h in
    let kept = Handles-refused q in (waits.1 (omega arith), omega arith, omega arith)
