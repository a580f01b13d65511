-- ===== src/Server/Closure/Tests.antt =====
-- Two connections that share a session, a third without one, and the closure of the session while
-- the socket of the second fails.
use webwire_go.Base.{◌==◌, if◌then◌else◌, ◌≡◌, refl, Bool, true, none, some, [], ◌∷◌, arith}
use webwire_go.Connection.{Session}
use webwire_go.Map.{find, delete}
use webwire_go.Registry.{ConnId, ConnSet, Key}
use webwire_go.Registry.Invariant.{IsConsistent}
use webwire_go.Runtime.{bytes_discrete}
use webwire_go.Server.Closure.{Closes, Share, close_session-Closes}
use webwire_go.Server.Sessions.{Connections, close_session}
use native.Mathlib.Decide.{ℕ_discrete}

abbrev key_a : Key
key_a = b'a' ∷ []

abbrev two_conns : ConnSet
two_conns = (1, tt) ∷ (2, tt) ∷ []

abbrev shared : Session
shared = record { key = key_a; creation = 5; last_lookup = 6; info = none }

abbrev three : Connections
three = record {
  asr = record { max_conns = 2; registry = (key_a, two_conns) ∷ [] };
  session = λ con. if con == 3 then none else some shared;
  sent = λ con. [];
}

only_key :
    (s : ConnSet) (key : Key)
    → find bytes_discrete key ((key_a, two_conns) ∷ []) ≡ some s
    → s ≡ two_conns
unfolding find
only_key s key h = ground arith

three-IsConsistent : IsConsistent three.asr
three-IsConsistent = record {
  distinct = (unfold find in refl, tt);
  sets = λ key s h. rw (only_key s key h) (
    (unfold find ℕ_discrete in refl, (unfold find in refl, tt)),
    omega arith,
    λ limited. omega arith,
  );
}

three-Share : Share three key_a two_conns
unfolding find ℕ_discrete
three-Share con h = (shared, ground arith, refl)

abbrev second_fails : ConnId → Bool
second_fails con = con == 2

close_session-Closes_example :
    let r = close_session true second_fails three key_a in
    Closes second_fails three two_conns (record { max_conns = 2; registry = [] }) (r.0, r.1.errors)
    × (r.1.affected_connections ≡ 1 ∷ 2 ∷ [])
    × (r.1.general_error ≡ some 1)
unfolding find bytes_discrete delete
close_session-Closes_example =
    close_session-Closes second_fails three key_a two_conns three-IsConsistent refl three-Share
