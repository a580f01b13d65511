-- ===== src/Serving/Tests.antt =====
-- A server that gets requests of every kind, a connection with a heartbeat and one without, and the
-- theorems on them.
use webwire_go.Runtime.{bytes_discrete, value}
use webwire_go.Base.{
  if◌then◌else◌, ◌≡◌, refl, ap, ◌==◌, ◌*◌, true, false, some, none, [], ◌∷◌, List, arith, inl,
}
use webwire_go.Options.{
  option_enabled, option_unset, pos, second, ServerOptions, Objects, set_defaults, set_others,
  default_manager, option_disabled,
}
use webwire_go.Serving.{Exchange, options_method, serve_http, serve_all, new_serving}
use webwire_go.Serving.Runs.{connected, disconnected, handled, all_read, accepted, serve_all_lem}
use webwire_go.Serving.Interleaved.{
  own_calls, Shuffle, left, right, both_done, Interleaves, no_request, alongside, AreDistinct,
  about, lifetime, interleaved,
}
use webwire_go.Serving.Added.{is_served}
use webwire_go.Serving.{Call, on_options}
use webwire_go.Serving.Deadlines.{
  message, pong, Arrival, read_connection, message_of, heartbeat, next_tick,
}
use webwire_go.Serving.Deadlines.Alive.{Answers, EndsBy, heartbeat_keeps_alive}
use webwire_go.Serving.Deadlines.Quiet.{messages_before, default_deadline}
use mathlib.Core.List.{flat_map, Memᴰ}

-- A connection over which two messages are read.
abbrev chatting : Exchange
chatting = record {
  method = 71 ∷ 69 ∷ 84 ∷ [];
  before_upgrade = some (record { accept = true; concurrency_limit = 3 });
  upgrade_fails = false;
  deadline_fails = false;
  id = 5;
  messages = (63 ∷ []) ∷ (31 ∷ []) ∷ [];
  abnormal = true;
}

abbrev requests : List Exchange
requests =
    chatting
    ∷ record chatting { method = options_method; id = 6 }
    ∷ record chatting { before_upgrade = none; id = 7 }
    ∷ record chatting { id = 8; messages = [] }
    ∷ []

serve_all_lem_example :
    let srv = serve_all (λ v. v) requests (new_serving option_enabled) in
    (flat_map connected srv.calls ≡ flat_map accepted requests)
    × (flat_map disconnected srv.calls ≡ flat_map accepted requests)
    × (flat_map handled srv.calls ≡ flat_map all_read requests)
    × (srv.connections ≡ flat_map accepted requests)
serve_all_lem_example = serve_all_lem (λ v. v) option_enabled requests

-- Pings at 0 and at 30, each answered after one unit, and a message after the timeout of 40.
abbrev answered : List Arrival
answered = (1, pong) ∷ (31, pong) ∷ (45, message (31 ∷ [])) ∷ []

answered-Answers : Answers 1 (heartbeat 30 0 1) answered
unfolding heartbeat
answered-Answers p (Memᴰ.head e) = inl (1, Memᴰ.head refl, omega (arith, e), omega (arith, e))
answered-Answers p (Memᴰ.tail (Memᴰ.head e)) =
    inl (31, Memᴰ.tail (Memᴰ.head refl), omega (arith, e), omega (arith, e))
answered-Answers p (Memᴰ.tail (Memᴰ.tail m)) = elim m [ ]

answered-EndsBy : EndsBy 60 answered
answered-EndsBy a (Memᴰ.head e) = omega (arith, ap (λ x. x.0) e)
answered-EndsBy a (Memᴰ.tail (Memᴰ.head e)) = omega (arith, ap (λ x. x.0) e)
answered-EndsBy a (Memᴰ.tail (Memᴰ.tail (Memᴰ.head e))) = omega (arith, ap (λ x. x.0) e)
answered-EndsBy a (Memᴰ.tail (Memᴰ.tail (Memᴰ.tail m))) = elim m [ ]

heartbeat_keeps_alive_example : read_connection 40 0 answered ≡ flat_map message_of answered
unfolding next_tick
heartbeat_keeps_alive_example =
    heartbeat_keeps_alive 40 0 30 1 1 answered (omega arith)
      (omega arith, (omega arith, (omega arith, tt))) answered-EndsBy answered-Answers

abbrev unset : ServerOptions
unset = record {
  sessions = option_unset;
  session_manager = none;
  session_key_generator = none;
  session_info_parser = none;
  max_session_connections = 0;
  heartbeat = option_unset;
  heartbeat_timeout = pos 0;
  heartbeat_interval = pos 0;
  warn_log = none;
  error_log = none;
}

abbrev objects : Objects
objects = record { manager = value 1; generator = 2; parser = 3; warn = 4; error = 5 }

abbrev unset_set : ServerOptions
unset_set = record {
  sessions = option_enabled;
  session_manager = some 1;
  session_key_generator = some 2;
  session_info_parser = some 3;
  max_session_connections = 0;
  heartbeat = option_disabled;
  heartbeat_timeout = pos (60 * second);
  heartbeat_interval = pos (30 * second);
  warn_log = some 4;
  error_log = some 5;
}

-- Messages after 10 seconds and after 70.
abbrev late : List Arrival
late = (10 * second, message (31 ∷ [])) ∷ (70 * second, message (31 ∷ [])) ∷ []

default_deadline_example :
    ((unset_set.heartbeat == option_enabled) ≡ false)
    × (unset_set.heartbeat_timeout ≡ pos (60 * second))
    × (read_connection (60 * second) 0 late ≡ flat_map (messages_before (60 * second)) late)
unfolding set_defaults set_others default_manager
default_deadline_example =
    default_deadline objects unset unset_set 0 late refl refl refl (omega arith, (omega arith, tt))
      tt

-- The connection, and a request for the options of the server.
abbrev asking : Exchange
asking = record chatting { method = options_method; id = 6 }

after_all : (xs : List Call) → Shuffle xs [] xs
after_all [] = both_done
after_all (x ∷ xs) = left x (after_all xs)

abbrev both : List Call
both = on_options ∷ own_calls (λ v. v) option_enabled chatting

both-Interleaves : Interleaves (λ v. v) option_enabled (chatting ∷ asking ∷ []) both
unfolding serve_http new_serving bytes_discrete
both-Interleaves =
    alongside chatting (alongside asking no_request (left on_options both_done))
      (right on_options (after_all (own_calls (λ v. v) option_enabled chatting)))

chatting-AreDistinct : AreDistinct (chatting ∷ asking ∷ [])
chatting-AreDistinct = ((λ y m e. differs y m e), ((λ y m e. elim m [ ]), tt))
  where
    differs : (y : Exchange) → Memᴰ y (asking ∷ []) → 5 ≡ y.id → ⊥
    differs y (Memᴰ.head e) h = omega (arith, ap (λ z. z.id) e)
    differs y (Memᴰ.tail m) h = elim m [ ]

interleaved_example :
    flat_map (about 5) both ≡ (if is_served chatting then lifetime chatting else [])
interleaved_example = interleaved both-Interleaves chatting-AreDistinct (Memᴰ.head refl)
