-- ===== src/Server/Closure.antt =====
-- What the server's CloseSession leaves of a session: server.go and connection.go.
mod Tests
use webwire_go.Base.{
  Bool-cases, inl, inr, if◌then◌else◌, length, ◌≡◌, refl, ap, ◌∙◌, Bool, true, false, not, Option,
  none, some, List, [], ◌∷◌, ◌++◌, arith,
}
use webwire_go.Connection.{Session}
use webwire_go.Map.{find, insert, delete, Distinct, find-insert, delete-insert}
use webwire_go.Message.{msg_session_closed}
use webwire_go.Registry.{ConnId, ConnSet, Key, SessionRegistry, deregister, session_connections}
use webwire_go.Registry.Invariant.{IsConsistent}
use webwire_go.Runtime.{Bytes, bytes_discrete}
use webwire_go.Server.Sessions.{
  CloseError, ClosedSession, Connections, close_at, close_connection_session, close_each,
  close_session, close_set, error_count, general, ids, notify_session_closed, put, unnotified,
}
use mathlib.Core.Path.{ap₂, subst}
use mathlib.Core.Logic.{ite}
use native.Mathlib.Decide.{ℕ_discrete}

abbrev pub cleared : Option (Unit {0}) → Option Session → Option Session
cleared none session = session
cleared (some _) session = none

abbrev pub told : Option (Unit {0}) → Bool → List Bytes → List Bytes
told (some _) false sent = sent ++ ((msg_session_closed ∷ []) ∷ [])
told _ _ sent = sent

abbrev pub failure : Bool → Option CloseError
failure write_fails = if write_fails then some unnotified else none

abbrev pub failures : (ConnId → Bool) → ConnSet → List (Option CloseError)
failures write_fails [] = []
failures write_fails ((con, u) ∷ rest) = failure (write_fails con) ∷ failures write_fails rest

-- Every connection of the set has a session with this key.
abbrev pub Share : Connections → Key → ConnSet → Type 0
Share p key conns =
    (con : ConnId)
    → find ℕ_discrete con conns ≡ some tt
    → (t : Session) × (p.session con ≡ some t) × (t.key ≡ key)

abbrev without : SessionRegistry → Key → SessionRegistry
without asr key = record asr { registry = delete bytes_discrete key asr.registry }

without-left :
    (asr left : SessionRegistry) (key : Key) (rest : ConnSet)
    → left ≡ record asr { registry = insert bytes_discrete key rest asr.registry }
    → without left key ≡ without asr key
without-left asr left key rest e =
    rw e
      (ap (λ m. record asr { registry = m }) (delete-insert bytes_discrete key rest asr.registry))

find-after :
    (asr : SessionRegistry) (key : Key) (rest : ConnSet)
    → find bytes_discrete key (insert bytes_discrete key rest asr.registry) ≡ some rest
find-after asr key rest = ground (arith, find-insert bytes_discrete key key rest asr.registry)

-- What closing the sessions of these connections leaves, with this registry: their sessions are gone,
-- each has been told unless its socket failed, and the others are as before.
abbrev pub Closes :
    (ConnId → Bool)
    → Connections
    → ConnSet
    → SessionRegistry
    → Connections × List (Option CloseError)
    → Type 0
Closes write_fails p conns asr r =
    (r.0.asr ≡ asr)
    × ((k : ConnId) → r.0.session k ≡ cleared (find ℕ_discrete k conns) (p.session k))
    × ((k : ConnId) → r.0.sent k ≡ told (find ℕ_discrete k conns) (write_fails k) (p.sent k))
    × (r.1 ≡ failures write_fails conns)

module _ (write_fails : ConnId → Bool) where
  -- One round of the loop.
  round :
      (p : Connections) (con : ConnId) (t : Session)
      → p.session con ≡ some t
      → let q = close_connection_session true write_fails p con in
        (q.0.asr ≡ (deregister p.asr (some t.key) con).0)
        × ((k : ConnId) → q.0.session k ≡ ite (ℕ_discrete con k) none (p.session k))
        × ((k : ConnId)
            → q.0.sent k ≡ told (ite (ℕ_discrete con k) (some tt) none) (write_fails k) (p.sent k))
        × (q.1 ≡ failure (write_fails con))
  unfolding close_connection_session close_at notify_session_closed
  round p con t e =
      rw (e, close_at)
        (elim (Bool-cases (write_fails con)) [
          | inl fails ↦ rw fails (refl, (λ k. refl), (λ k. ground arith), refl)
          | inr works ↦ rw works (refl, (λ k. refl), (λ k. ground arith), refl)
        ])

  deregister-last :
      (asr : SessionRegistry) (key : Key) (con : ConnId)
      → find bytes_discrete key asr.registry ≡ some ((con, tt) ∷ [])
      → (deregister asr (some key) con).0 ≡ without asr key
  unfolding deregister
  deregister-last asr key con e = rw e

  deregister-head :
      (asr : SessionRegistry) (key : Key) (con next : ConnId) (rest : ConnSet)
      → find bytes_discrete key asr.registry ≡ some ((con, tt) ∷ (next, tt) ∷ rest)
      → (deregister asr (some key) con).0
        ≡ record asr { registry = insert bytes_discrete key ((next, tt) ∷ rest) asr.registry }
  unfolding deregister delete
  deregister-head asr key con next rest e = rw e (ground arith)

  last-Closes :
      (key : Key) (con : ConnId) (p : Connections) (t : Session)
      → find bytes_discrete key p.asr.registry ≡ some ((con, tt) ∷ [])
      → p.session con ≡ some t
      → t.key ≡ key
      → Closes write_fails p
          ((con, tt) ∷ [])
          (without p.asr key)
          (close_each true write_fails p ((con, tt) ∷ []))
  unfolding close_each find
  last-Closes key con p t e et ek =
      let (ra, rs, rt, re) = round p con t et in
      (
        ra ∙ rw ek (deregister-last p.asr key con e),
        (λ k. ground (arith, rs k)),
        (λ k. ground (arith, rt k)),
        ap (λ x. x ∷ []) re,
      )

  -- A round, and what the rounds after it leave.
  head-Closes :
      (con : ConnId) (rest : ConnSet) (p : Connections) (t : Session) (asr : SessionRegistry)
      → p.session con ≡ some t
      → find ℕ_discrete con rest ≡ none
      → Closes write_fails
          (close_connection_session true write_fails p con).0
          rest
          asr
          (close_each true write_fails (close_connection_session true write_fails p con).0 rest)
      → Closes write_fails p
          ((con, tt) ∷ rest)
          asr
          (close_each true write_fails p ((con, tt) ∷ rest))
  unfolding close_each find
  head-Closes con rest p t asr et fresh (ia, is, it, ie) =
      let (ra, rs, rt, re) = round p con t et in
      (ia, (λ k. ground (arith, rs k, is k)), (λ k. ground (arith, rt k, it k)), ap₂ ◌∷◌ re ie)

  Share-tail :
      (key : Key) (con : ConnId) (rest : ConnSet) (p : Connections)
      → find ℕ_discrete con rest ≡ none
      → Share p key ((con, tt) ∷ rest)
      → Share (close_connection_session true write_fails p con).0 key rest
  unfolding find
  Share-tail key con rest p fresh share k there =
      let (t, et, ek) = share con (ground arith) in
      let (v, ev, ekv) = share k (ground arith) in
      let (ra, rs, rt, re) = round p con t et in (v, ground (arith, rs k), ekv)

  -- The loop, on all the connections that the registry has for the key.
  close_each-Closes :
      (key : Key) (con : ConnId) (rest : ConnSet) (p : Connections)
      → find bytes_discrete key p.asr.registry ≡ some ((con, tt) ∷ rest)
      → Distinct ℕ_discrete ((con, tt) ∷ rest)
      → Share p key ((con, tt) ∷ rest)
      → Closes write_fails p
          ((con, tt) ∷ rest)
          (without p.asr key)
          (close_each true write_fails p ((con, tt) ∷ rest))
  close_each-Closes key con [] p e d share =
      let (t, et, ek) = share con (unfold find in ground arith) in last-Closes key con p t e et ek
  close_each-Closes key con ((next, u) ∷ rest) p e (fresh, d) share =
      let (t, et, ek) = share con (unfold find in ground arith) in
      let (ra, rs, rt, re) = round p con t et in
      let q : Connections = (close_connection_session true write_fails p con).0 in
      let left : q.asr ≡ record (p.asr) {
        registry = insert bytes_discrete key ((next, u) ∷ rest) p.asr.registry;
      } =
        ra ∙ rw ek (deregister-head p.asr key con next rest e) in
      head-Closes con ((next, u) ∷ rest) p t (without p.asr key) et fresh (
        subst
          (λ a.
            Closes write_fails q ((next, u) ∷ rest) a
              (close_each true write_fails q ((next, u) ∷ rest)))
          (without-left p.asr q.asr key ((next, u) ∷ rest) left)
          (close_each-Closes key next rest q (rw left (find-after p.asr key ((next, u) ∷ rest))) d
            (Share-tail key con ((next, u) ∷ rest) p fresh share)))

  -- If every connection that the registry has for a key has a session with it, the server's
  -- CloseSession of that key, with sessions enabled, takes the key out of the registry and the session
  -- from exactly these connections, sends each a notice unless its socket fails, and returns these
  -- connections with an error for each whose socket fails, and a general error with their number if
  -- there is one.
  pub close_session-Closes :
      (p : Connections) (key : Key) (conns : ConnSet)
      → IsConsistent p.asr
      → find bytes_discrete key p.asr.registry ≡ some conns
      → Share p key conns
      → let r = close_session true write_fails p key in
        Closes write_fails p conns (without p.asr key) (r.0, r.1.errors)
        × (r.1.affected_connections ≡ ids conns)
        × (r.1.general_error ≡ general (error_count (failures write_fails conns)))
  unfolding close_session session_connections
  close_session-Closes p key [] c e share = absurd (omega (arith, (c.sets key [] e).1))
  close_session-Closes p key ((con, u) ∷ rest) c e share =
      let h = close_each-Closes key con rest p e (c.sets key ((con, u) ∷ rest) e).0 share in
      rw (e, close_set) (h, refl, ap (λ x. general (error_count x)) h.3)
