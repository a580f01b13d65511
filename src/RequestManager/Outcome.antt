-- ===== src/RequestManager/Outcome.antt =====
-- How requests end, over every interleaving of the goroutines around a request manager.
use webwire_go.Base.{Bool-cases, ◌≡◌, refl, ◌≢◌, inl, inr, true, false, arith}
use webwire_go.Errors.{req_trans_err}
use webwire_go.RequestManager.{RequestIdentifier, is_pending}
use webwire_go.RequestManager.Settled.{
  is_pending-create, is_pending-deregister, IsGone, Inv, initial-Inv, start_unused, Step-Inv,
  Reach-Inv,
}
use webwire_go.RequestManager.Steps.{
  Reply, Result, errored, sending, finished, idle, delivering, cleaning, State, update, Step, start,
  send, send_fails, expire, leave, look_up, miss, hand_over, clean, initial, Reach, here, next,
}
use mathlib.Core.Logic.{if_pos}

Step-finished :
    {s t : State}
    → Step s t
    → Inv s
    → (id : RequestIdentifier) (r : Result) → s.phase id ≡ finished r
    → t.phase id ≡ finished r
Step-finished {s} (start timeout h) i id r e = ground (arith, start_unused s timeout i h)
Step-finished (send e) i id r f = ground arith
Step-finished (send_fails e) i id r f = ground arith
Step-finished (expire e x) i id r f = ground arith
Step-finished (leave e) i id r f = ground arith
Step-finished (look_up k q e p) i id r f = f
Step-finished (miss k e p) i id r f = f
Step-finished (hand_over d w) i id r f = ground arith
Step-finished (clean c) i id r f = f

-- Over every interleaving, a request ends once: whatever `AwaitReply` has returned for an identifier stays its result in
-- every later state, so no second reply, timeout or other request replaces it.
pub finished_once :
    {s t : State}
    → Reach initial s
    → Reach s t
    → (id : RequestIdentifier) (r : Result) → s.phase id ≡ finished r
    → t.phase id ≡ finished r
finished_once a here id r f = f
finished_once a (next b st) id r f =
    Step-finished st (Reach-Inv b (Reach-Inv a initial-Inv)) id r (finished_once a b id r f)

-- While the reader is between two messages, a request that has ended is not pending any more, but
-- for one whose message could not be written.
finished-not_pending :
    {s : State}
    → Reach initial s
    → s.reader ≡ idle
    → (id : RequestIdentifier) (r : Result) → s.phase id ≡ finished r
    → r ≢ errored req_trans_err
    → is_pending s.manager id ≡ false
finished-not_pending {s} a e id r f ne = elim (Bool-cases (is_pending s.manager id)) [
  | inr gone ↦ gone
  | inl still ↦ ground (arith, (Reach-Inv a initial-Inv).tidy id r f still)
]

Step-stuck :
    {s t : State}
    → Step s t
    → Inv s
    → (id : RequestIdentifier) (r : Reply) → s.reader ≡ delivering id r
    → IsGone (s.phase id)
    → (t.reader ≡ delivering id r) × IsGone (t.phase id)
Step-stuck {s} (start timeout h) i id r e g = (e, ground (arith, start_unused s timeout i h))
Step-stuck (send e) i id r d g = (d, ground arith)
Step-stuck (send_fails e) i id r d g = (d, ground arith)
Step-stuck (expire e x) i id r d g = (d, ground arith)
Step-stuck (leave e) i id r d g = (d, ground arith)
Step-stuck (look_up k q e p) i id r d g = cc
Step-stuck (miss k e p) i id r d g = (d, g)
Step-stuck (hand_over e w) i id r d g = absurd (ground arith)
Step-stuck (clean c) i id r d g = cc

-- If a request gives up between the reader's look at the pending requests and the hand-over of its
-- reply, the reader waits for it in every later state, and handles no other message again.
pub reader_stuck :
    {s t : State}
    → Reach initial s
    → Reach s t
    → (id : RequestIdentifier) (r : Reply) → s.reader ≡ delivering id r
    → IsGone (s.phase id)
    → t.reader ≡ delivering id r
reader_stuck {s} a b id r d g = (stuck b).0
  where
    stuck : {t : State} → Reach s t → (t.reader ≡ delivering id r) × IsGone (t.phase id)
    stuck here = (d, g)
    stuck (next c st) =
        let (e, h) = stuck c in Step-stuck st (Reach-Inv c (Reach-Inv a initial-Inv)) id r e h

-- Ended, still pending, and not by a reply.
abbrev IsLeaked : State → RequestIdentifier → Type 0
IsLeaked s id =
    (s.phase id ≡ finished (errored req_trans_err))
    × (is_pending s.manager id ≡ true)
    × (s.reader ≢ cleaning id)

Step-IsLeaked :
    {s t : State} → Step s t → Inv s → (id : RequestIdentifier) → IsLeaked s id → IsLeaked t id
Step-IsLeaked {s} (start timeout h) i id (f, p, c) = (
  ground (arith, start_unused s timeout i h),
  ground (arith, is_pending-create s.manager timeout id),
  c,
)
Step-IsLeaked (send e) i id (f, p, c) = (ground arith, p, c)
Step-IsLeaked (send_fails e) i id (f, p, c) = (ground arith, p, c)
Step-IsLeaked (expire e x) i id (f, p, c) = (ground arith, p, c)
Step-IsLeaked {s} (leave {id = k} e) i id (f, p, c) =
    (ground arith, ground (arith, is_pending-deregister s.manager k id i.issued), c)
Step-IsLeaked (look_up k q e p') i id (f, p, c) = (f, p, λ x. cc)
Step-IsLeaked (miss k e p') i id l = l
Step-IsLeaked (hand_over d w) i id (f, p, c) = (ground arith, p, λ x. ground arith)
Step-IsLeaked {s} (clean {id = k} e) i id (f, p, c) =
    (f, ground (arith, is_pending-deregister s.manager k id i.issued), λ x. cc)

-- The state after the message of a request could not be written.
abbrev pub unsent : State → RequestIdentifier → State
unsent s id = record s { phase = update s.phase id (finished (errored req_trans_err)) }

sending-IsLeaked :
    (s : State) (id : RequestIdentifier) → Inv s → s.phase id ≡ sending → IsLeaked (unsent s id) id
sending-IsLeaked s id i e =
    (rw (if_pos _ refl), i.live id (rw e tt), λ c. let (r, f) = i.cleaner id c in cc)

-- If writing the message of a request fails, its requester returns a transmission error, and the
-- request is counted as pending in every later state.
unsent_leaks :
    {s t : State}
    → Reach initial s
    → (id : RequestIdentifier) → s.phase id ≡ sending
    → Reach (unsent s id) t
    → (t.phase id ≡ finished (errored req_trans_err)) × (is_pending t.manager id ≡ true)
unsent_leaks {s} a id e b = let (f, p, c) = leaked b in (f, p)
  where
    i : Inv s
    i = Reach-Inv a initial-Inv

    leaked : {t : State} → Reach (unsent s id) t → IsLeaked t id
    leaked here = sending-IsLeaked s id i e
    leaked (next c st) = Step-IsLeaked st (Reach-Inv c (Step-Inv (send_fails e) i)) id (leaked c)
