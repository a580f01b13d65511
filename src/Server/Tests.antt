-- ===== src/Server/Tests.antt =====
-- A handler that runs, a shutdown that waits for it, and the theorems on them.
use webwire_go.Base.{
  ℕ, Option, ◌∷◌, some, [], ◌⊎◌, false, ◌<◌, ◌≤◌, ◌+◌, ◌≡◌, ◌↔◌, none, refl, ◌≢◌, true, arith,
}
use webwire_go.Server.Goroutines.{
  idle, Step, start, Goroutines, registers, deregisters, shuts_down, Reachable, step,
}
use webwire_go.Server.Operations.{
  leave, new_operations, enter_handler, is_registered, begin_shutdown,
}
use webwire_go.Connection.{accept_connection}
use webwire_go.Runtime.{Bytes, Panic, panic, value, no_implementation}
use webwire_go.Server.Counting.{shutdown_graceful}
use webwire_go.Server.Draining.{
  Ends, Drains, still, then_ends, remaining, IsStopping, shutdown_terminates,
}
use webwire_go.Server.Dispatch.{acquire_slot}
use webwire_go.Options.{
  pos, option_unset, option_enabled, ServerOptions, Objects, set_defaults, set_others,
  default_manager,
}
use webwire_go.Options.Defaults.{IsComplete}
use webwire_go.Registry.{new_session_registry}
use webwire_go.Server.Construction.{Server, new_server, new_headless_server, new_server_lem}
use webwire_go.Server.Slots.{
  Handling, acquires, goes_on, refuses, Handles, here, next, new_handling, slots_bounded, starved,
}

-- One counted handler runs, on an active connection.
abbrev busy : Goroutines
busy = record idle { ops = record new_operations { current_ops = 1 }; counted = 1 }

busy-Reachable : Reachable busy
unfolding enter_handler is_registered
busy-Reachable = step start (registers true true idle) (omega arith)

-- A call of Shutdown waits for it.
abbrev stopping : Goroutines
stopping = record busy {
  ops = record new_operations { current_ops = 1; shutdown = true };
  waiting = 1;
}

stopping-Reachable : Reachable stopping
unfolding begin_shutdown
stopping-Reachable = step busy-Reachable (shuts_down busy) (omega arith)

abbrev stopped : Goroutines
stopped = record idle {
  ops = record { current_ops = 0; shutdown = true; shutdown_rdy_closed = true };
  waiting = 1;
}

stopped-Reachable : Reachable stopped
unfolding leave
stopped-Reachable =
    step stopping-Reachable (deregisters stopping stopped.ops (omega arith) refl) (omega arith)

shutdown_graceful_example :
    (stopped.ops.shutdown_rdy_closed ≡ true
      → (stopped.ops.shutdown ≡ true) × (stopped.counted ≡ 0) × (stopped.signals ≡ 0))
    × (0 < stopped.waiting
        → stopped.counted + stopped.signals ≡ 0
        → (t : Goroutines) × Step stopped t × (t.waiting + 1 ≡ stopped.waiting))
    × (0 < stopped.counted + stopped.signals → (p : Panic) → leave stopped.ops ≢ panic p)
shutdown_graceful_example = shutdown_graceful stopped-Reachable refl

stopping-IsStopping : IsStopping stopping
stopping-IsStopping = record { reachable = stopping-Reachable; begun = refl; all_counted = refl }

stopping-Drains : Drains stopping 1 stopped
unfolding leave
stopping-Drains = then_ends still (deregisters stopping stopped.ops (omega arith) refl) tt

shutdown_terminates_example :
    (1 ≤ remaining stopping)
    × (1 < remaining stopping → (u : Goroutines) × (e : Step stopped u) × Ends e)
    × (1 ≡ remaining stopping
        → (stopped.counted ≡ 0) × (stopped.signals ≡ 0) × (stopped.waiting ≡ 0))
shutdown_terminates_example = shutdown_terminates stopping-IsStopping stopping-Drains

-- A connection with one slot: one handler has it.
abbrev one_acquired : Handling
one_acquired = record (new_handling 1 7) {
  con = record (accept_connection 1 7) { slots_used = 1 };
  deciding = 1;
}

one_acquired-Handles : Handles (new_handling 1 7) one_acquired
unfolding acquire_slot
one_acquired-Handles =
    next here (acquires (new_handling 1 7) (record (accept_connection 1 7) { slots_used = 1 }) refl)

abbrev one_registered : Handling
one_registered = record one_acquired { deciding = 0; registered = 1 }

one_registered-Handles : Handles (new_handling 1 7) one_registered
one_registered-Handles = next one_acquired-Handles (goes_on one_acquired (omega arith))

slots_bounded_example :
    let s = one_registered in
    (s.deciding + s.registered + s.refused ≤ 1)
    × ((acquire_slot s.con ≡ none) ↔ (s.deciding + s.registered + s.refused ≡ 1))
    × (0 < s.registered → 0 < s.con.slots_used)
slots_bounded_example = slots_bounded one_registered-Handles (omega arith)

abbrev one_refused : Handling
one_refused = record one_acquired { deciding = 0; refused = 1 }

one_refused-Handles : Handles (new_handling 1 7) one_refused
one_refused-Handles = next one_acquired-Handles (refuses one_acquired (omega arith))

starved_example :
    (acquire_slot one_refused.con ≡ none)
    × (one_refused.registered ≡ 0)
    × (one_refused.deciding ≡ 0)
starved_example = starved one_refused-Handles (omega arith) refl here

abbrev objects : Objects
objects = record { manager = value 1; generator = 2; parser = 3; warn = 4; error = 5 }

abbrev limited : ServerOptions
limited = record {
  sessions = option_unset;
  session_manager = none;
  session_key_generator = some 8;
  session_info_parser = none;
  max_session_connections = 3;
  heartbeat = option_enabled;
  heartbeat_timeout = pos 0;
  heartbeat_interval = pos 5_000_000_000;
  warn_log = none;
  error_log = none;
}

abbrev limited_set : ServerOptions
limited_set = record {
  sessions = option_enabled;
  session_manager = some 1;
  session_key_generator = some 8;
  session_info_parser = some 3;
  max_session_connections = 3;
  heartbeat = option_enabled;
  heartbeat_timeout = pos 60_000_000_000;
  heartbeat_interval = pos 5_000_000_000;
  warn_log = some 4;
  error_log = some 5;
}

abbrev listens : Bytes → Option ℕ
listens address = some 6

abbrev told : ℕ → Bytes
told listener = b':' ∷ b'8' ∷ b'0' ∷ []

new_server_lem_example :
    ((srv : Server) × (new_headless_server objects true limited ≡ value srv)
      × (new_server objects true [] listens told limited
          ≡ value (
              some (record srv { http_server = some []; listener = some 6; addr = some (told 6) })))
      × IsComplete srv.options
      × ((srv.sessions_enabled ≡ true)
          ↔ ((limited.sessions ≡ option_unset) ⊎ (limited.sessions ≡ option_enabled)))
      × (srv.sessions_enabled ≡ true
          → (srv.options.session_manager ≢ none) × (srv.options.session_key_generator ≢ none))
      × (srv.ops ≡ new_operations)
      × (srv.connections ≡ [])
      × (srv.asr ≡ new_session_registry limited.max_session_connections)
      × (srv.http_server ≡ none)
      × (srv.listener ≡ none)
      × (srv.addr ≡ none))
    × (new_headless_server objects false limited ≡ panic no_implementation)
    × (new_server objects false [] listens told limited ≡ panic no_implementation)
unfolding set_defaults set_others default_manager
new_server_lem_example = new_server_lem objects limited limited_set [] listens told refl
