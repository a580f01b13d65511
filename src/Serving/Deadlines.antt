-- ===== src/Serving/Deadlines.antt =====
-- serveHttp.go and heartbeat.go: the read deadline of a connection, which is set before the first read, and by every
-- ping and every pong, but by no message.
-- `Read` of the library returns a message only before the deadline, and an error from then on; a
-- control frame that is read calls its handler. Times are numbers of nanoseconds, the timeout is
-- `HeartbeatTimeout`, which is positive once the defaults are set, and no frame comes at the very
-- time of a deadline. The time that the hook OnClientConnected takes, which is called after the first
-- deadline is set and before anything is read or a ping is sent, is taken as none; a hook that takes
-- longer leaves less time before the first deadline.
pub mod Alive
pub mod Quiet
use webwire_go.Base.{if◌then◌else◌, ltb, ℕ, zero, suc, ◌+◌, ◌≤◌, List, [], ◌∷◌, ◌++◌}
use webwire_go.Runtime.{Bytes}

pub data Frame : Type 0 where
  message : Bytes → Frame
  ping pong : Frame

-- A frame and the time at which it comes.
abbrev pub Arrival : Type 0
Arrival = ℕ × Frame

-- `SetReadDeadline(time.Now().Add(timeout))`
abbrev pub set_read_deadline : ℕ → ℕ → ℕ
set_read_deadline timeout now = now + timeout

-- What the handlers of pings and pongs do to the deadline.
unfoldable pub on_frame : ℕ → ℕ → Arrival → ℕ
on_frame timeout deadline (t, message m) = deadline
on_frame timeout deadline (t, ping) = set_read_deadline timeout t
on_frame timeout deadline (t, pong) = set_read_deadline timeout t

abbrev pub message_of : Arrival → List Bytes
message_of (t, message m) = m ∷ []
message_of (t, ping) = []
message_of (t, pong) = []

-- The messages that are read before the error.
unfoldable pub read_frames : ℕ → ℕ → List Arrival → List Bytes
unfolding on_frame
read_frames timeout deadline [] = []
read_frames timeout deadline (a ∷ arrivals) =
    let rest = read_frames timeout (on_frame timeout deadline a) arrivals in
    if ltb a.0 deadline then message_of a ++ rest else []

-- From the establishment of the connection on.
unfoldable pub read_connection : ℕ → ℕ → List Arrival → List Bytes
read_connection timeout start arrivals =
    read_frames timeout (set_read_deadline timeout start) arrivals

-- In the order of time, from a time on.
abbrev pub Ordered : ℕ → List Arrival → Type 0
Ordered from [] = Unit {0}
Ordered from (a ∷ arrivals) = (from ≤ a.0) × Ordered a.0 arrivals

-- `heartbeat`, as the times of its pings: one at once, and one at each of so many ticks before it is
-- stopped. A ping that cannot be written is only logged.
unfoldable pub heartbeat : ℕ → ℕ → ℕ → List ℕ
heartbeat interval now zero = now ∷ []
heartbeat interval now (suc ticks) = now ∷ heartbeat interval (now + interval) ticks

-- The tick that would come next.
unfoldable pub next_tick : ℕ → ℕ → ℕ → ℕ
next_tick interval now zero = now + interval
next_tick interval now (suc ticks) = next_tick interval (now + interval) ticks
