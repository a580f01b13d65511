-- ===== src/Connection/Tests.antt =====
-- A connection with a task, closed meanwhile, and the theorems on it.
use webwire_go.Base.{◌<◌, ◌≡◌, refl, ◌⊎◌, true, false, []}
use webwire_go.Connection.{accept_connection, close_connection}
use webwire_go.Connection.Tasks.{Working, closes, Works, fresh, work, unlinked_once}
use webwire_go.Registry.{SessionRegistry}

abbrev no_sessions : SessionRegistry
no_sessions = record { max_conns = 0; registry = [] }

abbrev accepted : Working
accepted = record {
  con = accept_connection 0 7;
  asr = no_sessions;
  running = 0;
  unlinking = 0;
  late = 0;
}

abbrev closed_early : Working
closed_early = record accepted {
  con = record (accept_connection 0 7) { is_active = false };
  unlinking = 1;
}

closed_early-Works : Works no_sessions (accept_connection 0 7) closed_early
unfolding close_connection
closed_early-Works = work fresh (closes accepted)

unlinked_once_example :
    ((false ≡ false) × (closed_early.running ≡ 0) → closed_early.unlinking ≡ 1)
    × ((closed_early.con.is_active ≡ true) ⊎ (0 < closed_early.running)
        → closed_early.unlinking ≡ 0)
unlinked_once_example = unlinked_once closed_early-Works refl
