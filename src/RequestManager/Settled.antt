-- ===== src/RequestManager/Settled.antt =====
-- What holds in every state that the goroutines around a request manager reach.
use webwire_go.Base.{
  ℕ, ◌+◌, ◌^◌, ◌≤◌, ◌<◌, ◌≡◌, refl, sym, ap, ◌∙◌, ◌≢◌, ◌⊎◌, inl, inr, true, false, arith,
}
use webwire_go.Errors.{RequestError, req_trans_err}
use webwire_go.Map.{find-insert, find-delete}
use webwire_go.RequestManager.{
  deregister, RequestIdentifier, RequestManager, put_uint64, create, is_pending,
}
use webwire_go.RequestManager.Identifiers.{
  put_uint64-injective, create_identifier, IsIssued, new_request_manager-IsIssued, create-IsIssued,
  deregister-IsIssued,
}
use webwire_go.RequestManager.Steps.{
  Reply, Result, errored, result_of, Phase, absent, sending, awaiting, leaving, finished, idle,
  delivering, cleaning, State, update, Step, start, send, send_fails, expire, leave, look_up, miss,
  hand_over, clean, initial, Reach, here, next,
}
use webwire_go.Runtime.{bytes_discrete}
use mathlib.Core.Logic.{ite, if_pos, if_neg}

pub is_pending-create :
    (manager : RequestManager) (timeout : ℕ) (k : RequestIdentifier)
    → is_pending (create manager timeout).0 k
      ≡ ite (bytes_discrete (create manager timeout).1.identifier k) true (is_pending manager k)
unfolding is_pending create
is_pending-create manager timeout k = ground (
  arith,
  find-insert bytes_discrete k (create manager timeout).1.identifier (create manager timeout).1
      manager.pending,
)

pub is_pending-deregister :
    (manager : RequestManager) (id k : RequestIdentifier)
    → IsIssued manager
    → is_pending (deregister manager id) k ≡ ite (bytes_discrete id k) false (is_pending manager k)
unfolding is_pending deregister
is_pending-deregister manager id k i =
    ground (arith, find-delete bytes_discrete k id manager.pending i.distinct)

-- The message is not sent yet, or its sender still takes part.
abbrev IsLive : Phase → Type 0
IsLive sending = Unit
IsLive awaiting = Unit
IsLive (leaving _) = Unit
IsLive _ = ⊥

-- The requester will not receive from its channel any more.
abbrev pub IsGone : Phase → Type 0
IsGone (leaving _) = Unit
IsGone (finished _) = Unit
IsGone _ = ⊥

abbrev Known : ℕ → RequestIdentifier → Type 0
Known last id = (j : ℕ) × (1 ≤ j) × (j ≤ last) × (id ≡ put_uint64 j)

pub record Inv (s : State) : Type 0 where
  pub issued : IsIssued s.manager
  pub known : (id : RequestIdentifier) → s.phase id ≢ absent → Known s.manager.last_id id
  pub live : (id : RequestIdentifier) → IsLive (s.phase id) → is_pending s.manager id ≡ true
  pub cleaner :
      (id : RequestIdentifier) → s.reader ≡ cleaning id → (r : Result) × (s.phase id ≡ finished r)
  pub tidy :
      (id : RequestIdentifier) (r : Result)
      → s.phase id ≡ finished r
      → is_pending s.manager id ≡ true
      → (r ≡ errored req_trans_err) ⊎ (s.reader ≡ cleaning id)

pub initial-Inv : Inv initial
unfolding initial
initial-Inv = record {
  issued = new_request_manager-IsIssued;
  known = λ id h. absurd (h refl);
  live = λ id h. absurd h;
  cleaner = λ id h. cc;
  tidy = λ id r h. cc;
}

absent-cases : (p : Phase) → (p ≡ absent) ⊎ (p ≢ absent)
absent-cases absent = inl refl
absent-cases sending = inr (λ e. cc)
absent-cases awaiting = inr (λ e. cc)
absent-cases (leaving x) = inr (λ e. cc)
absent-cases (finished x) = inr (λ e. cc)

-- A new request has an identifier that was never used.
pub start_unused :
    (s : State) (timeout : ℕ)
    → Inv s
    → s.manager.last_id + 1 < 2 ^ 64
    → s.phase (create s.manager timeout).1.identifier ≡ absent
start_unused s timeout i h = elim (absent-cases (s.phase (create s.manager timeout).1.identifier)) [
  | inl e ↦ e
  | inr used ↦
      let (j, lo, hi, e) = i.known (create s.manager timeout).1.identifier used in
      absurd (
        omega (
          arith,
          put_uint64-injective j (s.manager.last_id + 1) (omega arith) h
              (sym e ∙ create_identifier s.manager timeout ∙ ap put_uint64 (omega arith)),
        ))
]

last_id-create :
    (manager : RequestManager) (timeout : ℕ)
    → manager.last_id + 1 < 2 ^ 64
    → (create manager timeout).0.last_id ≡ manager.last_id + 1
unfolding create
last_id-create manager timeout h = omega arith

Known-update :
    (s : State) (id k : RequestIdentifier) (p : Phase) (last : ℕ)
    → Inv s
    → s.manager.last_id ≤ last
    → Known last id
    → update s.phase id p k ≢ absent
    → Known last k
Known-update s id k p last i h (j, lo, hi, e) used = elim (bytes_discrete id k) [
  | yes same ↦ (j, lo, hi, sym same ∙ e)
  | no differ ↦
      let (m, low, high, f) = i.known k (λ a. used (rw (if_neg _ differ) a)) in
      (m, low, omega arith, f)
]

Known-id :
    (s : State) (id : RequestIdentifier) (p : Phase)
    → Inv s
    → s.phase id ≡ p
    → p ≢ absent
    → Known s.manager.last_id id
Known-id s id p i e ne = i.known id (λ a. ne (sym e ∙ a))

-- One requester moves on, and neither the manager nor the reader takes part.
move-Inv :
    (s : State) (id : RequestIdentifier) (q : Phase)
    → Inv s
    → s.phase id ≢ absent
    → IsLive (s.phase id)
    → ((r : Result) → s.phase id ≢ finished r)
    → ((r : Result) → q ≡ finished r → r ≡ errored req_trans_err)
    → Inv (record s { phase = update s.phase id q })
move-Inv s id q i used l busy to = record {
  issued = i.issued;
  known = λ k h. Known-update s id k q s.manager.last_id i (omega arith) (i.known id used) h;
  live = λ k m. elim (bytes_discrete id k) [
    | yes same ↦ ap (is_pending s.manager) (sym same) ∙ i.live id l
    | no differ ↦ i.live k (rw (if_neg _ differ) at m)
  ];
  cleaner = λ k c. let (r, f) = i.cleaner k c in (r, ground (arith, busy r));
  tidy = λ k r f m. elim (bytes_discrete id k) [
    | yes same ↦ inl (to r (rw (if_pos _ same) at f))
    | no differ ↦ i.tidy k r (rw (if_neg _ differ) at f) m
  ];
}

start-Inv :
    (s : State) (timeout : ℕ) (h : s.manager.last_id + 1 < 2 ^ 64)
    → Inv s
    → Inv (record s {
      manager = (create s.manager timeout).0;
      phase = update s.phase (create s.manager timeout).1.identifier sending;
    })
start-Inv s timeout h i = record {
  issued = create-IsIssued s.manager i.issued timeout h;
  known = λ k used.
      let last = last_id-create s.manager timeout h in
      Known-update s (create s.manager timeout).1.identifier k sending
        (create s.manager timeout).0.last_id i (omega arith)
        (
          s.manager.last_id + 1,
          omega arith,
          omega arith,
          create_identifier s.manager timeout ∙ ap put_uint64 (omega arith),
        )
        used;
  live = λ id l. ground (arith, is_pending-create s.manager timeout id, i.live id);
  cleaner = λ id e. let (r, p) = i.cleaner id e in (r, ground (arith, start_unused s timeout i h));
  tidy = λ id r f p. ground (arith, is_pending-create s.manager timeout id, i.tidy id r);
}

leave-Inv :
    (s : State) (id : RequestIdentifier) (e : RequestError)
    → Inv s
    → s.phase id ≡ leaving e
    → Inv (record s {
      manager = deregister s.manager id;
      phase = update s.phase id (finished (errored e));
    })
leave-Inv s id e i at = record {
  issued = deregister-IsIssued s.manager i.issued id;
  known = λ k used.
      unfold deregister in
      Known-update s id k (finished (errored e)) s.manager.last_id i (omega arith)
        (Known-id s id (leaving e) i at (λ a. cc)) used;
  live = λ k l. ground (arith, is_pending-deregister s.manager id k i.issued, i.live k);
  cleaner = λ k c. let (r, f) = i.cleaner k c in (r, ground arith);
  tidy = λ k r f m. ground (arith, is_pending-deregister s.manager id k i.issued, i.tidy k r);
}

hand_over-Inv :
    (s : State) (id : RequestIdentifier) (r : Reply)
    → Inv s
    → s.reader ≡ delivering id r
    → s.phase id ≡ awaiting
    → Inv (record s { phase = update s.phase id (finished (result_of r)); reader = cleaning id })
hand_over-Inv s id r i d w = record {
  issued = i.issued;
  known = λ k used.
      Known-update s id k (finished (result_of r)) s.manager.last_id i (omega arith)
        (Known-id s id awaiting i w (λ a. cc)) used;
  live = λ k l. ground (arith, i.live k);
  cleaner = λ k c. (result_of r, ground arith);
  tidy = λ k q f m. ground (arith, i.tidy k q);
}

clean-Inv :
    (s : State) (id : RequestIdentifier)
    → Inv s
    → s.reader ≡ cleaning id
    → Inv (record s { manager = deregister s.manager id; reader = idle })
clean-Inv s id i c = record {
  issued = deregister-IsIssued s.manager i.issued id;
  known = λ k used. unfold deregister in i.known k used;
  live = λ k l.
      ground (arith, is_pending-deregister s.manager id k i.issued, i.live k, i.cleaner id c);
  cleaner = λ k e. cc;
  tidy = λ k r f m. ground (arith, is_pending-deregister s.manager id k i.issued, i.tidy k r);
}

pub Step-Inv : {s t : State} → Step s t → Inv s → Inv t
Step-Inv {s} (start timeout h) i = start-Inv s timeout h i
Step-Inv {s} (send {id} e) i = move-Inv s id awaiting i (λ a. cc) (rw e tt) (λ r a. cc) (λ r a. cc)
Step-Inv {s} (send_fails {id} e) i =
    move-Inv s id (finished (errored req_trans_err)) i (λ a. cc) (rw e tt) (λ r a. cc) (λ r a. cc)
Step-Inv {s} (expire {id} {e = err} e x) i =
    move-Inv s id (leaving err) i (λ a. cc) (rw e tt) (λ r a. cc) (λ r a. cc)
Step-Inv {s} (leave {id} {e = err} e) i = leave-Inv s id err i e
Step-Inv {s} (look_up id r e p) i = record {
  issued = i.issued;
  known = i.known;
  live = i.live;
  cleaner = λ k c. cc;
  tidy = λ k q f m. ground (arith, i.tidy k q);
}
Step-Inv (miss id e p) i = i
Step-Inv {s} (hand_over {id} {r} d w) i = hand_over-Inv s id r i d w
Step-Inv {s} (clean {id} c) i = clean-Inv s id i c

pub Reach-Inv : {s t : State} → Reach s t → Inv s → Inv t
Reach-Inv here i = i
Reach-Inv (next r st) i = Step-Inv st (Reach-Inv r i)
