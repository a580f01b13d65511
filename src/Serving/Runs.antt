-- ===== src/Serving/Runs.antt =====
-- serveHttp.go: what the calls of the application amount to after any number of requests.
use webwire_go.Base.{
  if◌then◌else◌, Bool, true, ℕ, ◌≡◌, refl, ap, ◌∙◌, false, List, [], ◌∷◌, ◌++◌, append_assoc,
  append-nil,
}
use webwire_go.Registry.{ConnId}
use webwire_go.Runtime.{Bytes}
use webwire_go.Serving.{
  new_connection, Call, on_client_connected, starts_handler, on_client_disconnected, read_loop,
  Exchange, Serving, new_serving, when, serve_http, serve_all,
}
use mathlib.Core.List.{map, flat_map}
use webwire_go.Serving.Added.{is_served, IsSilent, calls_of, serve_http-Adds}

-- The connections that the application was told of, those that it was told the end of, and the
-- messages that were given to handlers.
abbrev pub connected : Call → List ConnId
connected (on_client_connected con) = con.id ∷ []
connected _ = []

abbrev pub disconnected : Call → List ConnId
disconnected (on_client_disconnected id) = id ∷ []
disconnected _ = []

abbrev pub handled : Call → List (ConnId × Bytes)
handled (starts_handler id message) = (id, message) ∷ []
handled _ = []

abbrev pub all_read : Exchange → List (ConnId × Bytes)
all_read x = if is_served x then map (λ m. (x.id, m)) x.messages else []

read_loop-connected :
    (id : ConnId) (abnormal : Bool) (ms : List Bytes)
    → flat_map connected (read_loop id abnormal ms) ≡ []
unfolding flat_map read_loop
read_loop-connected id true [] = refl
read_loop-connected id false [] = refl
read_loop-connected id abnormal (m ∷ ms) = read_loop-connected id abnormal ms

read_loop-disconnected :
    (id : ConnId) (abnormal : Bool) (ms : List Bytes)
    → flat_map disconnected (read_loop id abnormal ms) ≡ id ∷ []
unfolding flat_map read_loop
read_loop-disconnected id true [] = refl
read_loop-disconnected id false [] = refl
read_loop-disconnected id abnormal (m ∷ ms) = read_loop-disconnected id abnormal ms

read_loop-handled :
    (id : ConnId) (abnormal : Bool) (ms : List Bytes)
    → flat_map handled (read_loop id abnormal ms) ≡ map (λ m. (id, m)) ms
unfolding flat_map read_loop
read_loop-handled id true [] = refl
read_loop-handled id false [] = refl
read_loop-handled id abnormal (m ∷ ms) = ap (λ k. (id, m) ∷ k) (read_loop-handled id abnormal ms)

connected-IsSilent : IsSilent connected
connected-IsSilent = record {
  options = refl;
  asking = refl;
  metadata = λ e. refl;
  upgrading = refl;
  deadline = refl;
  starts = refl;
  stops = refl;
  closing = refl;
}

disconnected-IsSilent : IsSilent disconnected
disconnected-IsSilent = record {
  options = refl;
  asking = refl;
  metadata = λ e. refl;
  upgrading = refl;
  deadline = refl;
  starts = refl;
  stops = refl;
  closing = refl;
}

handled-IsSilent : IsSilent handled
handled-IsSilent = record {
  options = refl;
  asking = refl;
  metadata = λ e. refl;
  upgrading = refl;
  deadline = refl;
  starts = refl;
  stops = refl;
  closing = refl;
}

calls_of-connected :
    (b : Bool) (x : Exchange) → flat_map connected (when b (calls_of x)) ≡ when b (x.id ∷ [])
unfolding flat_map new_connection
calls_of-connected true x = rw (read_loop-connected x.id x.abnormal x.messages) refl
calls_of-connected false x = refl

calls_of-disconnected :
    (b : Bool) (x : Exchange) → flat_map disconnected (when b (calls_of x)) ≡ when b (x.id ∷ [])
unfolding flat_map
calls_of-disconnected true x = rw (read_loop-disconnected x.id x.abnormal x.messages) refl
calls_of-disconnected false x = refl

calls_of-handled :
    (b : Bool) (x : Exchange)
    → flat_map handled (when b (calls_of x)) ≡ (if b then map (λ m. (x.id, m)) x.messages else [])
unfolding flat_map
calls_of-handled true x = rw (read_loop-handled x.id x.abnormal x.messages) refl
calls_of-handled false x = refl

abbrev pub accepted : Exchange → List ConnId
accepted x = when (is_served x) (x.id ∷ [])

-- What the server and the application know of the requests so far.
record Knows (ids : List ConnId) (read : List (ConnId × Bytes)) (srv : Serving) : Type 0 where
  running : srv.ops.shutdown ≡ false
  kept : srv.connections ≡ ids
  begun : flat_map connected srv.calls ≡ ids
  over : flat_map disconnected srv.calls ≡ ids
  given : flat_map handled srv.calls ≡ read

serve_http-Knows :
    {ids : List ConnId} {read : List (ConnId × Bytes)} (encode : Bytes → Bytes) (x : Exchange)
    (srv : Serving)
    → Knows ids read srv
    → Knows (ids ++ accepted x) (read ++ all_read x) (serve_http encode x srv)
serve_http-Knows encode x srv i =
    let a = serve_http-Adds encode x srv i.running in
    record {
      running = ap (λ o. o.shutdown) a.same_ops ∙ i.running;
      kept = rw (a.kept, i.kept);
      begun = rw (
        a.collected ConnId connected connected-IsSilent,
        calls_of-connected (is_served x) x,
        i.begun,
      );
      over = rw (
        a.collected ConnId disconnected disconnected-IsSilent,
        calls_of-disconnected (is_served x) x,
        i.over,
      );
      given = rw (
        a.collected (ConnId × Bytes) handled handled-IsSilent,
        calls_of-handled (is_served x) x,
        i.given,
      );
    }

serve_all-Knows :
    (encode : Bytes → Bytes) (xs : List Exchange) {ids : List ConnId} {read : List (ConnId × Bytes)}
    (srv : Serving)
    → Knows ids read srv
    → Knows (ids ++ flat_map accepted xs) (read ++ flat_map all_read xs) (serve_all encode xs srv)
unfolding serve_all flat_map
serve_all-Knows encode [] {ids} {read} srv i = rw (append-nil ids, append-nil read) i
serve_all-Knows encode (x ∷ xs) {ids} {read} srv i =
    rw⁻¹
      (
        append_assoc ids (accepted x) (flat_map accepted xs),
        append_assoc read (all_read x) (flat_map all_read xs),
      )
      (serve_all-Knows encode xs {ids = ids ++ accepted x} {read = read ++ all_read x} _
        (serve_http-Knows encode x srv i))

-- Over any requests, one after the other, to a server that is not stopping: the application is told of the beginning and of
-- the end of exactly the connections that were accepted, in the order of the requests; the messages
-- that were given to handlers are all those that were read from these connections, in their order;
-- and the server keeps every one of these connections in its list, although each has ended.
pub serve_all_lem :
    (encode : Bytes → Bytes) (heartbeat : ℕ) (xs : List Exchange)
    → let srv = serve_all encode xs (new_serving heartbeat) in
      (flat_map connected srv.calls ≡ flat_map accepted xs)
      × (flat_map disconnected srv.calls ≡ flat_map accepted xs)
      × (flat_map handled srv.calls ≡ flat_map all_read xs)
      × (srv.connections ≡ flat_map accepted xs)
unfolding new_serving flat_map
serve_all_lem encode heartbeat xs =
    let start : Knows [] [] (new_serving heartbeat) = record {
      running = refl;
      kept = refl;
      begun = refl;
      over = refl;
      given = refl;
    } in
    let i = serve_all-Knows encode xs {ids = []} {read = []} (new_serving heartbeat) start in
    (i.begun, i.over, i.given, i.kept)
