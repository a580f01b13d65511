-- ===== src/Registry/View.antt =====
-- The registry as a relation between session keys and connections, which is what its clients see.
use webwire_go.Base.{
  length, ◌-◌, ◌≤◌, ◌<◌, ◌≡◌, refl, sym, ◌∙◌, ◌≢◌, ◌↔◌, Option, none, some, [], ◌∷◌, arith,
}
use webwire_go.Map.{find, insert, delete, find-insert, find-delete, length-delete_old}
use webwire_go.Registry.{
  ConnId, Key, ConnSet, SessionRegistry, register_at, register, deregister_at, deregister,
}
use webwire_go.Registry.Invariant.{IsConsistent}
use webwire_go.Runtime.{bytes_discrete}
use mathlib.Core.Logic.{ite}
use native.Mathlib.Decide.{ℕ_discrete}
use mathlib.Core.Option.{some-injective}

abbrev in_set : Option ConnSet → ConnId → Option (Unit {0})
in_set none con = none
in_set (some s) con = find ℕ_discrete con s

-- `some tt` if the connection is registered under the key.
abbrev pub registered : SessionRegistry → Key → ConnId → Option (Unit {0})
registered asr key con = in_set (find bytes_discrete key asr.registry) con

find_one :
    (con c : ConnId)
    → find ℕ_discrete c ((con, tt {0}) ∷ []) ≡ ite (ℕ_discrete con c) (some (tt {0})) none
unfolding find
find_one con c = refl

register_at-registered :
    (asr : SessionRegistry) (key : Key) (con : ConnId) (o : Option ConnSet)
    → find bytes_discrete key asr.registry ≡ o
    → (register_at asr key con o).1 ≡ none
    → (k : Key) (c : ConnId)
    → registered (register_at asr key con o).0 k c
      ≡ ite
          (bytes_discrete key k)
          (ite (ℕ_discrete con c) (some tt) (registered asr k c))
          (registered asr k c)
unfolding register_at
register_at-registered asr key con none e ok k c =
    ground (arith, find-insert bytes_discrete k key ((con, tt) ∷ []) asr.registry, find_one con c)
register_at-registered asr key con (some s) e ok k c = ground (
  arith,
  find-insert bytes_discrete k key (insert ℕ_discrete con tt s) asr.registry,
  find-insert ℕ_discrete c con tt s,
)

-- A successful `register` adds its connection to its session, and changes nothing else.
pub register-registered :
    (asr : SessionRegistry) (key : Key) (con : ConnId)
    → (register asr key con).1 ≡ none
    → (k : Key) (c : ConnId)
    → registered (register asr key con).0 k c
      ≡ ite
          (bytes_discrete key k)
          (ite (ℕ_discrete con c) (some tt) (registered asr k c))
          (registered asr k c)
unfolding register
register-registered asr key con ok k c = register_at-registered asr key con _ refl ok k c

register_at_cases :
    (asr : SessionRegistry) (key : Key) (con : ConnId) (o : Option ConnSet)
    → find bytes_discrete key asr.registry ≡ o
    → ((register_at asr key con o).1 ≢ none) ↔ (
        (s : ConnSet) × (find bytes_discrete key asr.registry ≡ some s)
        × (0 < asr.max_conns)
        × (asr.max_conns ≤ length s))
unfolding register_at
register_at_cases asr key con none e = (λ h. absurd (h refl), λ (s, es, a, b). cc)
register_at_cases asr key con (some s) e = (
  λ h. (s, e, ground arith, ground arith),
  λ (t, et, a, b). ground (arith, some-injective (sym e ∙ et)),
)

-- `register` fails exactly if there is a limit and the session has reached it, and a failure leaves
-- the registry as it was.
register_fails :
    (asr : SessionRegistry) (key : Key) (con : ConnId)
    → (((register asr key con).1 ≢ none) ↔ (
        (s : ConnSet) × (find bytes_discrete key asr.registry ≡ some s)
        × (0 < asr.max_conns)
        × (asr.max_conns ≤ length s)))
      × ((register asr key con).1 ≢ none → (register asr key con).0 ≡ asr)
unfolding register
register_fails asr key con =
    (register_at_cases asr key con _ refl, unchanged (find bytes_discrete key asr.registry))
  where
    unchanged :
        (o : Option ConnSet)
        → (register_at asr key con o).1 ≢ none
        → (register_at asr key con o).0 ≡ asr
    unchanged none h = absurd (unfold register_at in h refl)
    unchanged (some s) h = unfold register_at in ground arith

-- A set of one connection holds no other.
singleton :
    (con c : ConnId) (s : ConnSet)
    → find ℕ_discrete con s ≡ some tt
    → length s < 2
    → con ≢ c
    → find ℕ_discrete c s ≡ none
unfolding find
singleton con c [] h l ne = refl
singleton con c ((a, tt) ∷ []) h l ne = ground arith
singleton con c ((a, tt) ∷ b ∷ s) h l ne = absurd (omega arith)

deregister_at-registered :
    (asr : SessionRegistry) (key : Key) (con : ConnId) (s : ConnSet)
    → find bytes_discrete key asr.registry ≡ some s
    → IsConsistent asr
    → find ℕ_discrete con s ≡ some tt
    → (k : Key) (c : ConnId)
    → registered (deregister_at asr key con (some s)).0 k c
      ≡ ite
          (bytes_discrete key k)
          (ite (ℕ_discrete con c) none (registered asr k c))
          (registered asr k c)
unfolding deregister_at
deregister_at-registered asr key con s e i here k c = ground (
  arith,
  find-delete bytes_discrete k key asr.registry i.distinct,
  find-insert bytes_discrete k key (delete ℕ_discrete con s) asr.registry,
  find-delete ℕ_discrete c con s (i.sets key s e).0,
  singleton con c s here,
)

-- In a consistent registry, deregistering a connection that is registered under its session's key
-- removes it from that session, changes nothing else, and returns how many connections the session has left.
pub deregister-registered :
    (asr : SessionRegistry) (key : Key) (con : ConnId) (s : ConnSet)
    → IsConsistent asr
    → find bytes_discrete key asr.registry ≡ some s
    → find ℕ_discrete con s ≡ some tt
    → ((k : Key) (c : ConnId)
        → registered (deregister asr (some key) con).0 k c
          ≡ ite
              (bytes_discrete key k)
              (ite (ℕ_discrete con c) none (registered asr k c))
              (registered asr k c))
      × ((deregister asr (some key) con).1 ≡ some (length s - 1))
unfolding deregister
deregister-registered asr key con s i e here = rw e (
  deregister_at-registered asr key con s e i here,
  unfold deregister_at in
      ground (arith, i.sets key s e, length-delete_old ℕ_discrete con tt s here),
)

-- A session whose only connection is another one is removed with it: `deregister` does not look
-- whether the connection that it is given is in the set.
deregister_stranger :
    (asr : SessionRegistry) (key : Key) (con other : ConnId)
    → IsConsistent asr
    → find bytes_discrete key asr.registry ≡ some ((other, tt) ∷ [])
    → other ≢ con
    → (registered asr key con ≡ none)
      × (registered asr key other ≡ some tt)
      × ((deregister asr (some key) con).1 ≡ some 0)
      × (registered (deregister asr (some key) con).0 key other ≡ none)
unfolding deregister deregister_at
deregister_stranger asr key con other i e ne = rw e (
  ground (arith, find_one other con),
  ground (arith, find_one other other),
  refl,
  ground (arith, find-delete bytes_discrete key key asr.registry i.distinct),
)
