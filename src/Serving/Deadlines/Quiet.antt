-- ===== src/Serving/Deadlines/Quiet.antt =====
-- serveHttp.go and serverOptions.go: what is read from a connection over which no ping and no pong
-- comes before its deadline.
use webwire_go.Base.{
  if◌then◌else◌, ltb, ◌==◌, ℕ, ◌+◌, ◌*◌, ◌≤◌, ◌≡◌, refl, false, List, [], ◌∷◌, arith,
}
use webwire_go.Options.Defaults.{set_defaults-returns}
use webwire_go.Options.{
  pos, second, option_unset, option_enabled, ServerOptions, Objects, set_defaults, set_others,
}
use webwire_go.Runtime.{Bytes, value}
use webwire_go.Serving.Deadlines.{
  message, ping, pong, Arrival, on_frame, message_of, read_frames, read_connection, Ordered,
}
use mathlib.Core.List.{flat_map}
use native.Mathlib.Decide.{dec_lt}

-- Messages that come before a time.
abbrev pub messages_before : ℕ → Arrival → List Bytes
messages_before deadline a = if ltb a.0 deadline then message_of a else []

-- No ping and no pong comes before the deadline.
abbrev pub IsQuiet : ℕ → List Arrival → Type 0
IsQuiet deadline [] = Unit {0}
IsQuiet deadline ((t, message m) ∷ arrivals) = IsQuiet deadline arrivals
IsQuiet deadline ((t, ping) ∷ arrivals) = (deadline ≤ t) × IsQuiet deadline arrivals
IsQuiet deadline ((t, pong) ∷ arrivals) = (deadline ≤ t) × IsQuiet deadline arrivals

none_before :
    (from deadline : ℕ) (arrivals : List Arrival)
    → deadline ≤ from
    → Ordered from arrivals
    → flat_map (messages_before deadline) arrivals ≡ []
unfolding flat_map
none_before from deadline [] h o = refl
none_before from deadline (a ∷ arrivals) h o =
    let rest = none_before a.0 deadline arrivals (omega (arith, o.0)) o.1 in
    ground (arith, rest, h, o.0)

read_frames-IsQuiet :
    (timeout from deadline : ℕ) (arrivals : List Arrival)
    → Ordered from arrivals
    → IsQuiet deadline arrivals
    → read_frames timeout deadline arrivals ≡ flat_map (messages_before deadline) arrivals
unfolding read_frames on_frame flat_map
read_frames-IsQuiet timeout from deadline [] o q = refl
read_frames-IsQuiet timeout from deadline ((t, message m) ∷ arrivals) o q =
    elim (dec_lt t deadline) [
      | yes early ↦ ground (arith, early, read_frames-IsQuiet timeout t deadline arrivals o.1 q)
      | no late ↦ ground (arith, late, none_before t deadline arrivals (omega arith) o.1)
    ]
read_frames-IsQuiet timeout from deadline ((t, ping) ∷ arrivals) o q =
    ground (arith, q.0, none_before t deadline arrivals q.0 o.1)
read_frames-IsQuiet timeout from deadline ((t, pong) ∷ arrivals) o q =
    ground (arith, q.0, none_before t deadline arrivals q.0 o.1)

-- With the default options, if SetDefaults returns, a server sends no heartbeat and sets the read deadline all the same: if the
-- client sends no ping and no pong in the first 60 seconds, the messages that are read from the
-- connection are those that come in these 60 seconds, however many come later.
pub default_deadline :
    (objects : Objects) (opts set : ServerOptions) (start : ℕ) (arrivals : List Arrival)
    → opts.heartbeat ≡ option_unset
    → opts.heartbeat_timeout ≡ pos 0
    → set_defaults objects opts ≡ value set
    → Ordered start arrivals
    → IsQuiet (start + 60 * second) arrivals
    → ((set.heartbeat == option_enabled) ≡ false)
      × (set.heartbeat_timeout ≡ pos (60 * second))
      × (read_connection (60 * second) start arrivals
          ≡ flat_map (messages_before (start + 60 * second)) arrivals)
unfolding set_others read_connection
default_deadline objects opts set start arrivals h t r o q =
    let (manager, made, same) = set_defaults-returns objects opts set r in
    (
      rw (same, h) refl,
      rw (same, t) refl,
      read_frames-IsQuiet (60 * second) start (start + 60 * second) arrivals o q,
    )
