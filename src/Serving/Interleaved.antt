-- ===== src/Serving/Interleaved.antt =====
-- serveHttp.go: requests that are served at the same time, each in a goroutine of its own, in any order
-- of their calls.
use webwire_go.Base.{
  if◌then◌else◌, ◌==◌, ℕ, ◌≡◌, refl, sym, ◌≢◌, ◌∙◌, ap, Bool, true, false, List, [], ◌∷◌, ◌++◌,
  arith,
}
use webwire_go.Registry.{ConnId}
use webwire_go.Runtime.{Bytes}
use webwire_go.Serving.{
  Call, on_client_connected, starts_handler, closes_connection, on_client_disconnected, Exchange,
  new_serving, when, read_loop, new_connection, serve_http,
}
use webwire_go.Serving.Added.{is_served, IsSilent, calls_of, serve_http-Adds}
use mathlib.Core.List.{map, flat_map, Memᴰ}
use mathlib.Core.Path.{subst}

-- The calls of two goroutines, one or the other's next call first.
pub data Shuffle : List Call → List Call → List Call → Type 0 where
  both_done : Shuffle [] [] []
  left : {xs ys zs : List Call} (c : Call) → Shuffle xs ys zs → Shuffle (c ∷ xs) ys (c ∷ zs)
  right : {xs ys zs : List Call} (c : Call) → Shuffle xs ys zs → Shuffle xs (c ∷ ys) (c ∷ zs)

-- The calls that serving one request makes.
abbrev pub own_calls : (Bytes → Bytes) → ℕ → Exchange → List Call
own_calls encode heartbeat x = (serve_http encode x (new_serving heartbeat)).calls

-- The calls of any number of goroutines.
pub data Interleaves (encode : Bytes → Bytes) (heartbeat : ℕ)
    : List Exchange → List Call → Type 0 where
  no_request : Interleaves encode heartbeat [] []
  alongside :
      {xs : List Exchange} {calls all : List Call} (x : Exchange)
      → Interleaves encode heartbeat xs calls
      → Shuffle (own_calls encode heartbeat x) calls all
      → Interleaves encode heartbeat (x ∷ xs) all

-- No two connections are the same.
abbrev pub AreDistinct : List Exchange → Type 0
AreDistinct [] = Unit {0}
AreDistinct (x ∷ xs) = ((y : Exchange) → Memᴰ y xs → x.id ≢ y.id) × AreDistinct xs

-- The calls that are about a connection: its beginning, the start of its handlers, its closing and
-- its end.
abbrev pub about : ConnId → Call → List Call
about id (on_client_connected con) = when (con.id == id) (on_client_connected con ∷ [])
about id (starts_handler i message) = when (i == id) (starts_handler i message ∷ [])
about id (closes_connection i) = when (i == id) (closes_connection i ∷ [])
about id (on_client_disconnected i) = when (i == id) (on_client_disconnected i ∷ [])
about id _ = []

-- The calls about a connection from its beginning to its end.
abbrev pub lifetime : Exchange → List Call
lifetime x =
    on_client_connected (new_connection true x.before_upgrade x.id)
    ∷ (map (λ m. starts_handler x.id m) x.messages
        ++ (closes_connection x.id ∷ on_client_disconnected x.id ∷ []))

about-IsSilent : (id : ConnId) → IsSilent (about id)
about-IsSilent id = record {
  options = refl;
  asking = refl;
  metadata = λ e. refl;
  upgrading = refl;
  deadline = refl;
  starts = refl;
  stops = refl;
  closing = refl;
}

same_id : (i : ℕ) → (i == i) ≡ true
same_id i = ground arith

other_id : (i j : ℕ) → i ≢ j → (i == j) ≡ false
other_id i j h = ground (arith, h)

read_loop-same :
    (id : ConnId) (abnormal : Bool) (ms : List Bytes)
    → flat_map (about id) (read_loop id abnormal ms)
      ≡ map (λ m. starts_handler id m) ms ++ (closes_connection id ∷ on_client_disconnected id ∷ [])
unfolding flat_map read_loop
read_loop-same id true [] = rw (same_id id) refl
read_loop-same id false [] = rw (same_id id) refl
read_loop-same id abnormal (m ∷ ms) = rw (same_id id, read_loop-same id abnormal ms) refl

read_loop-other :
    (i id : ConnId) (abnormal : Bool) (ms : List Bytes)
    → i ≢ id
    → flat_map (about id) (read_loop i abnormal ms) ≡ []
unfolding flat_map read_loop
read_loop-other i id true [] h = rw (other_id i id h) refl
read_loop-other i id false [] h = rw (other_id i id h) refl
read_loop-other i id abnormal (m ∷ ms) h =
    rw (other_id i id h, read_loop-other i id abnormal ms h) refl

calls_of-same :
    (b : Bool) (x : Exchange) → flat_map (about x.id) (when b (calls_of x)) ≡ when b (lifetime x)
unfolding flat_map new_connection
calls_of-same true x = rw (same_id x.id, read_loop-same x.id x.abnormal x.messages) refl
calls_of-same false x = refl

calls_of-other :
    (b : Bool) (x : Exchange) (id : ConnId)
    → x.id ≢ id
    → flat_map (about id) (when b (calls_of x)) ≡ []
unfolding flat_map new_connection
calls_of-other true x id h =
    rw (other_id x.id id h, read_loop-other x.id id x.abnormal x.messages h) refl
calls_of-other false x id h = refl

own_calls-about :
    (encode : Bytes → Bytes) (heartbeat : ℕ) (x : Exchange) (id : ConnId)
    → flat_map (about id) (own_calls encode heartbeat x)
      ≡ flat_map (about id) (when (is_served x) (calls_of x))
unfolding flat_map new_serving
own_calls-about encode heartbeat x id =
    (serve_http-Adds encode x (new_serving heartbeat) refl).collected Call (about id)
      (about-IsSilent id)

append-eq_nil : {A : Type 0} (xs ys : List A) → xs ++ ys ≡ [] → (xs ≡ []) × (ys ≡ [])
append-eq_nil [] ys h = (refl, h)
append-eq_nil (x ∷ xs) ys h = cc

-- A collector that sees nothing in one list sees of both what it sees in the other.
shuffle_left :
    (f : Call → List Call) {xs ys zs : List Call}
    → Shuffle xs ys zs
    → flat_map f ys ≡ []
    → flat_map f zs ≡ flat_map f xs
unfolding flat_map
shuffle_left f both_done h = refl
shuffle_left f (left c s) h = ap (λ k. f c ++ k) (shuffle_left f s h)
shuffle_left f (right c s) h =
    let (p, q) = append-eq_nil (f c) _ h in rw (p, shuffle_left f s q) refl

shuffle_right :
    (f : Call → List Call) {xs ys zs : List Call}
    → Shuffle xs ys zs
    → flat_map f xs ≡ []
    → flat_map f zs ≡ flat_map f ys
unfolding flat_map
shuffle_right f both_done h = refl
shuffle_right f (right c s) h = ap (λ k. f c ++ k) (shuffle_right f s h)
shuffle_right f (left c s) h =
    let (p, q) = append-eq_nil (f c) _ h in rw (p, shuffle_right f s q) refl

absent :
    {encode : Bytes → Bytes} {heartbeat : ℕ} {xs : List Exchange} {all : List Call} (id : ConnId)
    → Interleaves encode heartbeat xs all
    → ((y : Exchange) → Memᴰ y xs → y.id ≢ id)
    → flat_map (about id) all ≡ []
unfolding flat_map
absent id no_request h = refl
absent {encode} {heartbeat} id (alongside x i s) h =
    let own =
      own_calls-about encode heartbeat x id
      ∙ calls_of-other (is_served x) x id (h x (Memᴰ.head refl)) in
    shuffle_right (about id) s own ∙ absent id i (λ y m. h y (Memᴰ.tail m))

-- Over any interleaving of the calls of requests for different connections, on a server that is not
-- stopping: the calls about a connection are, if its request is accepted, its beginning, the start
-- of a goroutine that handles it for each of its messages in their order, its closing and its end,
-- each once and in this order, and none if it is not. The calls for an HTTP request alone
-- (OnOptions, the metadata and BeforeUpgrade) are not among them, nor is what the handlers do.
pub interleaved :
    {encode : Bytes → Bytes} {heartbeat : ℕ} {xs : List Exchange} {all : List Call} {x : Exchange}
    → Interleaves encode heartbeat xs all
    → AreDistinct xs
    → Memᴰ x xs
    → flat_map (about x.id) all ≡ (if is_served x then lifetime x else [])
interleaved {x = x} no_request d m = elim m [ ]
interleaved {encode} {heartbeat} {all = all} {x = x} (alongside y i s) d (Memᴰ.head e) =
    subst (λ z. flat_map (about z.id) all ≡ when (is_served z) (lifetime z)) (sym e)
      (shuffle_left (about y.id) s (absent y.id i (λ z m h. d.0 z m (sym h)))
        ∙ own_calls-about encode heartbeat y y.id
        ∙ calls_of-same (is_served y) y)
interleaved {encode} {heartbeat} {x = x} (alongside y i s) d (Memᴰ.tail m) =
    shuffle_right (about x.id) s
      (own_calls-about encode heartbeat y x.id ∙ calls_of-other (is_served y) y x.id (d.0 x m))
    ∙ interleaved i d.1 m
