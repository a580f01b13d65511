-- ===== src/Client/Readers.antt =====
-- What the status of a client says of its connection, over every interleaving: client/connect.go.
use webwire_go.Base.{◌+◌, ◌<◌, ◌≤◌, ◌≡◌, ◌⊎◌, refl, true, false, arith}
use mathlib.Core.Path.{subst}
use webwire_go.Client.Link.{
  Link, LinkStep, Links, close_client, closes, connect_dials, connected, dials, disconnected, fails,
  fails_late, adopts, stale_reader_fails, here, leaves, new_link, next, reader_fails, reader_leaves,
  stores,
}

record Inv (s : Link) : Type 0 where
  known : (s.status ≡ disconnected) ⊎ (s.status ≡ connected)
  one : s.storing ≤ 1
  read : s.live ≡ true → 0 < s.reading

new_link-Inv : Inv new_link
new_link-Inv = ground arith

Step-Inv : {s t : Link} → LinkStep s t → Inv s → Inv t
unfolding connect_dials reader_fails stale_reader_fails reader_leaves close_client
Step-Inv (dials s p) i = ground (arith, i)
Step-Inv (stores s p) i = ground (arith, i)
Step-Inv (fails s p) i = ground (arith, i)
Step-Inv (fails_late s p) i = ground (arith, i)
Step-Inv (adopts s p) i = ground (arith, i)
Step-Inv (leaves s p) i = ground (arith, i)
Step-Inv (closes s) i = ground (arith, i)

Links-Inv : {s : Link} → Links new_link s → Inv s
Links-Inv here = new_link-Inv
Links-Inv (next r st) = Step-Inv st (Links-Inv r)

-- In every reachable state the client is connected or disconnected, which is the status of a closed
-- client too, and while the connection that was dialed last works, some goroutine reads from it.
live_is_read :
    {s : Link}
    → Links new_link s
    → ((s.status ≡ disconnected) ⊎ (s.status ≡ connected))
      × ((close_client s).status ≡ disconnected)
      × (s.live ≡ true → 0 < s.reading)
unfolding close_client
live_is_read r = let i = Links-Inv r in (i.known, ground arith, i.read)

-- From every reachable state with a reader, in which no connect is under way, a state is reachable in
-- which the client counts as disconnected, although the connection works, a goroutine reads from it,
-- and no connect or end of a reader is under way that was not before: the reader's deferred function
-- sets the status after the reconnection.
status_lost :
    {s : Link}
    → Links new_link s
    → 0 < s.reading
    → s.storing ≡ 0
    → (t : Link) × Links s t
      × (t.status ≡ disconnected)
      × (t.live ≡ true)
      × (t.reading ≡ 1)
      × (t.leaving ≡ s.leaving)
      × (t.storing ≡ 0)
unfolding reader_fails connect_dials reader_leaves
status_lost {s = s} r h z =
    let r1 = next here (fails s h) in
    let r2 = next r1 (dials _ z) in
    let r3 = next r2 (stores _ (omega arith)) in
    let r4 = next r3 (leaves _ (omega arith)) in (_, r4, refl, refl, refl, omega arith, omega arith)

-- From every reachable state in which the client is not connected and no connect is under way, a
-- state is reachable in which it counts as connected although the connection is lost and nobody reads
-- from it: the reader that connect has started fails before connect sets the
-- status.
status_stale :
    {s : Link}
    → Links new_link s
    → s.status ≡ disconnected
    → s.storing ≡ 0
    → (t : Link) × Links s t
      × (t.status ≡ connected)
      × (t.live ≡ false)
      × (t.reading ≡ 0)
      × (t.storing ≡ 0)
unfolding reader_fails connect_dials
status_stale {s = s} r d z =
    let dialed : Link = record s {
      live = true;
      reading = 1;
      stale = s.stale + s.reading;
      storing = s.storing + 1;
    } in
    let first : connect_dials s ≡ dialed = ground (arith, d) in
    let r1 = next here (subst (LinkStep s) first (dials s z)) in
    let r2 = next r1 (fails dialed (omega arith)) in
    let r3 = next r2 (stores _ (omega arith)) in (_, r3, refl, refl, omega arith, omega arith)
