-- ===== src/Registry/Invariant.antt =====
-- What every operation of the session registry keeps.
use webwire_go.Base.{
  ltb, Bool-cases, Option-cases, length, ℕ, ◌≤◌, ◌<◌, ◌≡◌, refl, inl, inr, false, Option, none,
  some, [], ◌∷◌, arith,
}
use webwire_go.Map.{
  find, insert, delete, Distinct, find-insert, find-delete, insert-Distinct, delete-Distinct,
  length-insert_new, length-insert_old, length-delete_old, delete-absent,
}
use webwire_go.Registry.{
  ConnId, Key, ConnSet, SessionRegistry, new_session_registry, is_full, register_at, register,
  deregister_at, deregister,
}
use webwire_go.Runtime.{bytes_discrete}
use native.Mathlib.Decide.{ℕ_discrete}

abbrev FitsIn : ℕ → ConnSet → Type 0
FitsIn max s = Distinct ℕ_discrete s × (1 ≤ length s) × (0 < max → length s ≤ max)

-- No session is kept without a connection, and none has more than the limit allows. A limit of zero
-- stands for no limit.
pub record IsConsistent (asr : SessionRegistry) : Type 0 where
  pub distinct : Distinct bytes_discrete asr.registry
  pub sets :
      (key : Key) (s : ConnSet)
      → find bytes_discrete key asr.registry ≡ some s
      → Distinct ℕ_discrete s × (1 ≤ length s) × (0 < asr.max_conns → length s ≤ asr.max_conns)

pub new_session_registry-IsConsistent : (max : ℕ) → IsConsistent (new_session_registry max)
unfolding new_session_registry find
new_session_registry-IsConsistent max = record { distinct = tt; sets = λ key s h. cc }

-- A set that fits may take the place of any other, or be added.
put-IsConsistent :
    (asr : SessionRegistry) (key : Key) (s : ConnSet)
    → IsConsistent asr
    → FitsIn asr.max_conns s
    → IsConsistent (record asr { registry = insert bytes_discrete key s asr.registry })
put-IsConsistent asr key s c fits = record {
  distinct = insert-Distinct bytes_discrete key s asr.registry c.distinct;
  sets = λ other t h.
      ground (arith, find-insert bytes_discrete other key s asr.registry, c.sets other t);
}

insert-FitsIn :
    (max : ℕ) (con : ConnId) (s : ConnSet)
    → FitsIn max s
    → is_full max s ≡ false
    → FitsIn max (insert ℕ_discrete con tt s)
insert-FitsIn max con s fits room = elim (Option-cases (find ℕ_discrete con s)) [
  | inl new ↦
      let n = length-insert_new ℕ_discrete con tt s new in
      (insert-Distinct ℕ_discrete con tt s fits.0, omega arith, λ limited. ground arith)
  | inr (u, old) ↦
      let n = length-insert_old ℕ_discrete con tt u s old in
      (insert-Distinct ℕ_discrete con tt s fits.0, omega arith, λ limited. ground arith)
]

delete-FitsIn :
    (max : ℕ) (con : ConnId) (s : ConnSet)
    → FitsIn max s
    → 2 ≤ length s
    → FitsIn max (delete ℕ_discrete con s)
delete-FitsIn max con s fits two = elim (Option-cases (find ℕ_discrete con s)) [
  | inl absent ↦ rw (delete-absent ℕ_discrete con s absent) fits
  | inr (u, old) ↦
      let n = length-delete_old ℕ_discrete con u s old in
      (delete-Distinct ℕ_discrete con s fits.0, omega arith, λ limited. ground arith)
]

register_at-IsConsistent :
    (asr : SessionRegistry) (key : Key) (con : ConnId) (o : Option ConnSet)
    → find bytes_discrete key asr.registry ≡ o
    → IsConsistent asr
    → IsConsistent (register_at asr key con o).0
unfolding register_at
register_at-IsConsistent asr key con none e c =
    put-IsConsistent asr key ((con, tt) ∷ []) c
      ((unfold find in refl, tt), omega arith, λ limited. omega arith)
register_at-IsConsistent asr key con (some s) e c = elim (Bool-cases (is_full asr.max_conns s)) [
  | inl full ↦ rw full c
  | inr room ↦ rw room (
      put-IsConsistent asr key (insert ℕ_discrete con tt s) c
        (insert-FitsIn asr.max_conns con s (c.sets key s e) room))
]

deregister_at-IsConsistent :
    (asr : SessionRegistry) (key : Key) (con : ConnId) (o : Option ConnSet)
    → find bytes_discrete key asr.registry ≡ o
    → IsConsistent asr
    → IsConsistent (deregister_at asr key con o).0
unfolding deregister_at
deregister_at-IsConsistent asr key con none e c = c
deregister_at-IsConsistent asr key con (some s) e c = elim (Bool-cases (ltb (length s) 2)) [
  | inl last ↦ rw last (record {
    distinct = delete-Distinct bytes_discrete key asr.registry c.distinct;
    sets = λ other t h.
        ground
          (arith, find-delete bytes_discrete other key asr.registry c.distinct, c.sets other t);
  })
  | inr more ↦ rw more (
      put-IsConsistent asr key (delete ℕ_discrete con s) c
        (delete-FitsIn asr.max_conns con s (c.sets key s e) (ground arith)))
]

register-IsConsistent :
    (asr : SessionRegistry) (key : Key) (con : ConnId)
    → IsConsistent asr
    → IsConsistent (register asr key con).0
unfolding register
register-IsConsistent asr key con c = register_at-IsConsistent asr key con _ refl c

deregister-IsConsistent :
    (asr : SessionRegistry) (key : Option Key) (con : ConnId)
    → IsConsistent asr
    → IsConsistent (deregister asr key con).0
unfolding deregister
deregister-IsConsistent asr none con c = c
deregister-IsConsistent asr (some key) con c = deregister_at-IsConsistent asr key con _ refl c

-- The registries that a server with this limit can come to have.
pub data Reachable (max : ℕ) : SessionRegistry → Type 0 where
  created : Reachable max (new_session_registry max)
  registers :
      {asr : SessionRegistry}
      → Reachable max asr
      → (key : Key) (con : ConnId) → Reachable max (register asr key con).0
  deregisters :
      {asr : SessionRegistry}
      → Reachable max asr
      → (key : Option Key) (con : ConnId) → Reachable max (deregister asr key con).0

-- Every registry that registrations, be they successful or not, and deregistrations, of connections
-- with or without a session, make of a new one is consistent: distinct keys and connections, no
-- session without a connection, and none beyond the limit.
pub Reachable-IsConsistent :
    {max : ℕ} {asr : SessionRegistry} → Reachable max asr → IsConsistent asr
Reachable-IsConsistent {max} created = new_session_registry-IsConsistent max
Reachable-IsConsistent (registers {asr = asr} r key con) =
    register-IsConsistent asr key con (Reachable-IsConsistent r)
Reachable-IsConsistent (deregisters {asr = asr} r key con) =
    deregister-IsConsistent asr key con (Reachable-IsConsistent r)
