-- ===== src/Registry/Tests.antt =====
-- Concrete registries, and the theorems on them.
use webwire_go.Base.{set, ◌≡◌, refl, none, some, [], ◌∷◌, arith}
use webwire_go.Map.{find}
use webwire_go.Registry.{
  ConnId, Key, ConnSet, SessionRegistry, new_session_registry, register, deregister,
}
use webwire_go.Registry.Invariant.{
  IsConsistent, Reachable, created, registers, deregisters, Reachable-IsConsistent,
}
use webwire_go.Registry.View.{registered, register-registered, deregister-registered}
use webwire_go.Runtime.{bytes_discrete}
use mathlib.Core.Logic.{ite}
use native.Mathlib.Decide.{ℕ_discrete}

abbrev key_a : Key
key_a = b'a' ∷ []

-- Two connections share a session, which is the limit.
abbrev two_conns : ConnSet
two_conns = (1, tt) ∷ (2, tt) ∷ []

abbrev full_registry : SessionRegistry
full_registry = record { max_conns = 2; registry = (key_a, two_conns) ∷ [] }

abbrev lone_registry : SessionRegistry
lone_registry = record { max_conns = 2; registry = (key_a, (2, tt) ∷ []) ∷ [] }

only_key :
    (set s : ConnSet) (key : Key) → find bytes_discrete key ((key_a, set) ∷ []) ≡ some s → s ≡ set
unfolding find
only_key set s key h = ground arith

full_registry-IsConsistent : IsConsistent full_registry
full_registry-IsConsistent = record {
  distinct = (unfold find in refl, tt);
  sets = λ key s h.
      let e = only_key two_conns s key h in
      rw e (
        (unfold find ℕ_discrete in refl, (unfold find in refl, tt)),
        omega arith,
        λ limited. omega arith,
      );
}

lone_registry-IsConsistent : IsConsistent lone_registry
lone_registry-IsConsistent = record {
  distinct = (unfold find in refl, tt);
  sets = λ key s h.
      let e = only_key ((2, tt) ∷ []) s key h in
      rw e ((unfold find in refl, tt), omega arith, λ limited. omega arith);
}

-- A third connection tries to join a session that two share, and one leaves it.
crowded-Reachable :
    Reachable 2
      (deregister
        (register (register (register (new_session_registry 2) key_a 1).0 key_a 2).0 key_a 3).0
        (some key_a)
        1).0
crowded-Reachable =
    deregisters (registers (registers (registers created key_a 1) key_a 2) key_a 3) (some key_a) 1

Reachable-IsConsistent_example :
    IsConsistent
      (deregister
        (register (register (register (new_session_registry 2) key_a 1).0 key_a 2).0 key_a 3).0
        (some key_a)
        1).0
Reachable-IsConsistent_example = Reachable-IsConsistent crowded-Reachable

register-registered_example :
    registered (register lone_registry key_a 1).0 key_a 2
    ≡ ite
        (bytes_discrete key_a key_a)
        (ite (ℕ_discrete 1 2) (some tt) (registered lone_registry key_a 2))
        (registered lone_registry key_a 2)
unfolding register find bytes_discrete
register-registered_example = register-registered lone_registry key_a 1 refl key_a 2

deregister-registered_example :
    ((k : Key) (c : ConnId)
      → registered (deregister full_registry (some key_a) 1).0 k c
        ≡ ite
            (bytes_discrete key_a k)
            (ite (ℕ_discrete 1 c) none (registered full_registry k c))
            (registered full_registry k c))
    × ((deregister full_registry (some key_a) 1).1 ≡ some 1)
unfolding find bytes_discrete
deregister-registered_example =
    deregister-registered full_registry key_a 1 two_conns full_registry-IsConsistent refl refl
