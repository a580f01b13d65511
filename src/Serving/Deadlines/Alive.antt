-- ===== src/Serving/Deadlines/Alive.antt =====
-- serveHttp.go and heartbeat.go: which messages are read from a connection, by the pings and pongs
-- that come over it.
use webwire_go.Base.{
  ℕ, ◌+◌, ◌≤◌, ◌<◌, ◌≡◌, refl, ap, zero, suc, ◌⊎◌, inl, inr, List, [], ◌∷◌, ◌++◌, arith,
}
use webwire_go.Serving.Deadlines.{
  message, ping, pong, Arrival, on_frame, message_of, read_frames, read_connection, Ordered,
  heartbeat, next_tick,
}
use mathlib.Core.List.{flat_map}
use mathlib.Core.List.{Memᴰ}
use mathlib.Core.Path.{subst, sym}
use native.Mathlib.Decide.{dec_lt}

-- The time of the last control frame, or the start.
abbrev last_control : ℕ → List Arrival → ℕ
last_control start [] = start
last_control start ((t, message m) ∷ arrivals) = last_control start arrivals
last_control start ((t, ping) ∷ arrivals) = last_control t arrivals
last_control start ((t, pong) ∷ arrivals) = last_control t arrivals

-- Every frame comes sooner after the control frame before it than the timeout.
abbrev IsFrequent : ℕ → ℕ → List Arrival → Type 0
IsFrequent timeout start arrivals =
    (before : List Arrival) (a : Arrival) (after : List Arrival)
    → arrivals ≡ before ++ (a ∷ after)
    → a.0 < last_control start before + timeout

read_frames-IsFrequent :
    (timeout start : ℕ) (arrivals : List Arrival)
    → IsFrequent timeout start arrivals
    → read_frames timeout (start + timeout) arrivals ≡ flat_map message_of arrivals
unfolding read_frames on_frame flat_map
read_frames-IsFrequent timeout start [] h = refl
read_frames-IsFrequent timeout start ((t, message m) ∷ arrivals) h =
    let soon = h [] (t, message m) arrivals refl in
    let rest =
      read_frames-IsFrequent timeout start arrivals (λ before a after e.
        h ((t, message m) ∷ before) a after (ap (λ k. (t, message m) ∷ k) e)) in
    ground (arith, soon, rest)
read_frames-IsFrequent timeout start ((t, ping) ∷ arrivals) h =
    let soon = h [] (t, ping) arrivals refl in
    let rest =
      read_frames-IsFrequent timeout t arrivals
        (λ before a after e. h ((t, ping) ∷ before) a after (ap (λ k. (t, ping) ∷ k) e)) in
    ground (arith, soon, rest)
read_frames-IsFrequent timeout start ((t, pong) ∷ arrivals) h =
    let soon = h [] (t, pong) arrivals refl in
    let rest =
      read_frames-IsFrequent timeout t arrivals
        (λ before a after e. h ((t, pong) ∷ before) a after (ap (λ k. (t, pong) ∷ k) e)) in
    ground (arith, soon, rest)

last_control-ge :
    (from start : ℕ) (arrivals : List Arrival)
    → start ≤ from
    → Ordered from arrivals
    → start ≤ last_control start arrivals
last_control-ge from start [] h o = omega arith
last_control-ge from start ((t, message m) ∷ arrivals) h o =
    last_control-ge t start arrivals (omega (arith, o.0)) o.1
last_control-ge from start ((t, ping) ∷ arrivals) h o =
    omega (arith, o.0, last_control-ge t t arrivals (omega arith) o.1)
last_control-ge from start ((t, pong) ∷ arrivals) h o =
    omega (arith, o.0, last_control-ge t t arrivals (omega arith) o.1)

last_control-mem :
    {c : ℕ} (from start : ℕ) (arrivals : List Arrival)
    → Ordered from arrivals
    → Memᴰ (c, pong) arrivals
    → c ≤ last_control start arrivals
last_control-mem from start [] o m = elim m [ ]
last_control-mem from start ((t, message b) ∷ arrivals) o (Memᴰ.head e) = cc
last_control-mem from start ((t, message b) ∷ arrivals) o (Memᴰ.tail m) =
    last_control-mem t start arrivals o.1 m
last_control-mem from start ((t, ping) ∷ arrivals) o (Memᴰ.head e) = cc
last_control-mem from start ((t, ping) ∷ arrivals) o (Memᴰ.tail m) =
    last_control-mem t t arrivals o.1 m
last_control-mem from start ((t, pong) ∷ arrivals) o (Memᴰ.head e) =
    omega (arith, ap (λ x. x.0) e, last_control-ge t t arrivals (omega arith) o.1)
last_control-mem from start ((t, pong) ∷ arrivals) o (Memᴰ.tail m) =
    last_control-mem t t arrivals o.1 m

Ordered-mem :
    {x : Arrival} (from : ℕ) (arrivals : List Arrival)
    → Ordered from arrivals
    → Memᴰ x arrivals
    → from ≤ x.0
Ordered-mem from [] o m = elim m [ ]
Ordered-mem from (a ∷ arrivals) o (Memᴰ.head e) = omega (arith, o.0, ap (λ x. x.0) e)
Ordered-mem from (a ∷ arrivals) o (Memᴰ.tail m) = omega (arith, o.0, Ordered-mem a.0 arrivals o.1 m)

Ordered-front :
    (from : ℕ) (before after : List Arrival) → Ordered from (before ++ after) → Ordered from before
Ordered-front from [] after o = tt
Ordered-front from (a ∷ before) after o = (o.0, Ordered-front a.0 before after o.1)

mem-earlier :
    {x : Arrival} (from : ℕ) (a : Arrival) (before after : List Arrival)
    → Ordered from (before ++ (a ∷ after))
    → Memᴰ x (before ++ (a ∷ after))
    → x.0 < a.0
    → Memᴰ x before
mem-earlier from a [] after o (Memᴰ.head e) h = absurd (omega (arith, ap (λ x. x.0) e))
mem-earlier from a [] after o (Memᴰ.tail m) h = absurd (omega (arith, Ordered-mem _ after o.1 m))
mem-earlier from a (b ∷ before) after o (Memᴰ.head e) h = Memᴰ.head e
mem-earlier from a (b ∷ before) after o (Memᴰ.tail m) h =
    Memᴰ.tail (mem-earlier b.0 a before after o.1 m h)

-- Every ping is answered by a pong not later than the delay, unless nothing comes after that.
abbrev pub Answers : ℕ → List ℕ → List Arrival → Type 0
Answers delay pings arrivals =
    (p : ℕ)
    → Memᴰ p pings
    → ((c : ℕ) × Memᴰ (c, pong) arrivals × (p ≤ c) × (c ≤ p + delay))
      ⊎ ((a : Arrival) → Memᴰ a arrivals → a.0 ≤ p + delay)

-- Nothing comes after this time.
abbrev pub EndsBy : ℕ → List Arrival → Type 0
EndsBy end arrivals = (a : Arrival) → Memᴰ a arrivals → a.0 ≤ end

-- The last ping that has to have been answered at a time.
latest_ping :
    (interval delay now ticks t : ℕ)
    → now + delay < t
    → t ≤ next_tick interval now ticks
    → (p : ℕ) × Memᴰ p (heartbeat interval now ticks) × (p + delay < t) × (t ≤ p + interval + delay)
unfolding heartbeat next_tick
latest_ping interval delay now zero t h k = (now, Memᴰ.head refl, h, omega (arith, k))
latest_ping interval delay now (suc ticks) t h k = elim (dec_lt (now + interval + delay) t) [
  | yes later ↦
      let (p, m, low, high) = latest_ping interval delay (now + interval) ticks t later k in
      (p, Memᴰ.tail m, low, high)
  | no sooner ↦ (now, Memᴰ.head refl, h, omega arith)
]

mem-middle :
    (before : List Arrival) (a : Arrival) (after : List Arrival) → Memᴰ a (before ++ (a ∷ after))
mem-middle [] a after = Memᴰ.head refl
mem-middle (b ∷ before) a after = Memᴰ.tail (mem-middle before a after)

beats-IsFrequent :
    (timeout start interval delay ticks : ℕ) (arrivals : List Arrival)
    → interval + delay < timeout
    → Ordered start arrivals
    → EndsBy (next_tick interval start ticks) arrivals
    → Answers delay (heartbeat interval start ticks) arrivals
    → IsFrequent timeout start arrivals
beats-IsFrequent timeout start interval delay ticks arrivals q o ends h before a after e =
    let o' : Ordered start (before ++ (a ∷ after)) = subst (Ordered start) e o in
    let o'' = Ordered-front start before (a ∷ after) o' in
    let here = subst (Memᴰ a) (sym e) (mem-middle before a after) in
    elim (dec_lt a.0 (start + timeout)) [
      | yes early ↦ omega (arith, last_control-ge start start before (omega arith) o'')
      | no late ↦
          let (p, m, low, high) =
            latest_ping interval delay start ticks a.0 (omega arith) (ends a here) in
          elim (h p m) [
            | inl (c, answer, sent, soon) ↦
                let earlier =
                  mem-earlier start a before after o' (subst (Memᴰ (c, pong)) e answer)
                    (omega arith) in
                omega (arith, last_control-mem start start before o'' earlier)
            | inr none_later ↦ absurd (omega (arith, none_later a here))
          ]
    ]

-- A connection with a heartbeat, whose peer answers every ping within a delay, which ends before the
-- tick after the last one, and over which frames come in the order of time: if the interval and
-- the delay are together less than the timeout, every message is read.
pub heartbeat_keeps_alive :
    (timeout start interval delay ticks : ℕ) (arrivals : List Arrival)
    → interval + delay < timeout
    → Ordered start arrivals
    → EndsBy (next_tick interval start ticks) arrivals
    → Answers delay (heartbeat interval start ticks) arrivals
    → read_connection timeout start arrivals ≡ flat_map message_of arrivals
unfolding read_connection
heartbeat_keeps_alive timeout start interval delay ticks arrivals q o ends h =
    read_frames-IsFrequent timeout start arrivals
      (beats-IsFrequent timeout start interval delay ticks arrivals q o ends h)
