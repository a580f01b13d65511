-- ===== src/Client/Attempts/Tests.antt =====
-- A client that is connecting for one goroutine, and the theorems on it.
use webwire_go.Base.{◌+◌, ◌≤◌, ◌<◌, ◌≡◌, ◌≢◌, refl, true, arith}
use webwire_go.Client.Attempts.{reconnectors, single_reconnector, stalled_for_good}
use webwire_go.Client.Reconnection.{
  Reconnection, Reconnects, attempts, background_reconnect, close_barrier, connects, errs,
  flushes_error, here, new_client, next, try_autoconnect,
}
use webwire_go.Runtime.{Panic, panic}

abbrev asked : Reconnection
asked = record (new_client true) { connecting = true; entering = 1; dialing = 1 }

asked-Reconnects : Reconnects (new_client true) asked
unfolding try_autoconnect background_reconnect
asked-Reconnects = next here (attempts (new_client true) refl refl)

abbrev connected : Reconnection
connected = record asked { is_connected = true; dialing = 0; succeeded = 1 }

connected-Reconnects : Reconnects (new_client true) connected
connected-Reconnects = next asked-Reconnects (connects asked (omega arith))

abbrev refused : Reconnection
refused = record asked { dialing = 0; failed = 1 }

refused-Reconnects : Reconnects (new_client true) refused
refused-Reconnects = next asked-Reconnects (errs asked (omega arith))

abbrev gave_up : Reconnection
gave_up = record refused { barrier_closed = true; failed = 0; clearing = 1 }

single_reconnector_example :
    (reconnectors connected ≤ 1)
    × (0 < reconnectors connected → connected.connecting ≡ true)
    × (0 < connected.succeeded + connected.failed → (p : Panic) → close_barrier connected ≢ panic p)
single_reconnector_example = single_reconnector connected-Reconnects

stalled_for_good_example :
    (gave_up.connecting ≡ true) × (gave_up.dialing ≡ 0) × (gave_up.succeeded ≡ 0)
unfolding close_barrier
stalled_for_good_example = stalled_for_good refused-Reconnects (omega arith) (
    next here (flushes_error refused (record refused { barrier_closed = true }) (omega arith) refl))
