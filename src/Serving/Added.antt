-- ===== src/Serving/Added.antt =====
-- serveHttp.go: what one request adds to the calls of the application and to the list of connections.
use webwire_go.Base.{
  ◌==◌, ◌≡◌, refl, Bool, true, false, not, ◌&&◌, Option, none, some, List, [], ◌∷◌, ◌++◌,
  append-nil, flat_map-append, arith, Bool-cases, inl, inr,
}
use webwire_go.Options.{option_enabled}
use webwire_go.Runtime.{Bytes, bytes_discrete}
use webwire_go.Serving.{
  ConnectionOptions, options_method, webwire_method, Call, on_options, asks_before_upgrade, asked,
  writes_metadata, upgrade_failed, deadline_failed, on_client_connected, starts_heartbeat,
  stops_heartbeat, closes_socket, Exchange, Serving, when, read_loop, handle_metadata,
  protocol_version, run_connection, serve_connection, upgrade, serve_http, new_connection,
}
use mathlib.Core.List.{flat_map}
use mathlib.Core.Logic.{ite}

-- The request asks for a connection, and nothing of what the application and the library do prevents it.
abbrev pub is_served : Exchange → Bool
is_served x = ite (bytes_discrete x.method options_method) false (
    ite (bytes_discrete x.method webwire_method) false (elim x.before_upgrade [
      | none ↦ false
      | some options ↦ options.accept && not x.upgrade_fails && not x.deadline_fails
    ]))

-- A collector that sees only what is about a connection.
pub record IsSilent {A : Type 0} (f : Call → List A) : Type 0 where
  pub options : f on_options ≡ []
  pub asking : f asks_before_upgrade ≡ []
  pub metadata : (encoded : Bytes) → f (writes_metadata encoded) ≡ []
  pub upgrading : f upgrade_failed ≡ []
  pub deadline : f deadline_failed ≡ []
  pub starts : f starts_heartbeat ≡ []
  pub stops : f stops_heartbeat ≡ []
  pub closing : f closes_socket ≡ []

-- The calls about the connection that a request becomes.
abbrev pub calls_of : Exchange → List Call
calls_of x =
    on_client_connected (new_connection true x.before_upgrade x.id)
    ∷ read_loop x.id x.abnormal x.messages

-- What one more request adds.
pub record Adds (x : Exchange) (srv done : Serving) : Type 1 where
  pub same_ops : done.ops ≡ srv.ops
  pub kept : done.connections ≡ srv.connections ++ when (is_served x) (x.id ∷ [])
  pub collected :
      (A : Type 0) (f : Call → List A)
      → IsSilent f
      → flat_map f done.calls ≡ flat_map f srv.calls ++ flat_map f (when (is_served x) (calls_of x))

-- The calls of a connection, as one collector sees them.
collect_calls :
    {A : Type 0} (f : Call → List A) (b : Bool) (first : Call) (before loop : List Call)
    → f starts_heartbeat ≡ []
    → f stops_heartbeat ≡ []
    → f closes_socket ≡ []
    → flat_map f (
        before
        ++ ((first ∷ [])
            ++ (when b (starts_heartbeat ∷ [])
                ++ (loop ++ (when b (stops_heartbeat ∷ []) ++ (closes_socket ∷ []))))))
      ≡ flat_map f before ++ (f first ++ flat_map f loop)
unfolding flat_map
collect_calls f true first before loop s t c =
    rw (flat_map-append f before, s, flat_map-append f loop, t, c, append-nil)
collect_calls f false first before loop s t c =
    rw (flat_map-append f before, flat_map-append f loop, c, append-nil)

adds_nothing :
    (x : Exchange) (srv : Serving) (rest : List Call)
    → is_served x ≡ false
    → ((A : Type 0) (f : Call → List A) → IsSilent f → flat_map f rest ≡ [])
    → Adds x srv (record srv { calls = srv.calls ++ rest })
unfolding flat_map
adds_nothing x srv rest n h = record {
  same_ops = refl;
  kept = rw (n, append-nil);
  collected = λ A f q. rw (n, flat_map-append f srv.calls rest, h A f q);
}

run_connection-Adds :
    (options : ConnectionOptions) (x : Exchange) (srv : Serving)
    → x.before_upgrade ≡ some options
    → is_served x ≡ true
    → Adds x srv (run_connection options x srv)
unfolding run_connection flat_map
run_connection-Adds options x srv given served = record {
  same_ops = refl;
  kept = rw served;
  collected = λ A f q. rw (
    served,
    given,
    collect_calls f (srv.heartbeat == option_enabled) _ srv.calls
        (read_loop x.id x.abnormal x.messages) q.starts q.stops q.closing,
  );
}

refused :
    (x : Exchange) (srv done : Serving) (rest : List Call)
    → done ≡ record srv { calls = srv.calls ++ rest }
    → is_served x ≡ false
    → ((A : Type 0) (f : Call → List A) → IsSilent f → flat_map f rest ≡ [])
    → Adds x srv done
refused x srv done rest e n h = rw e (adds_nothing x srv rest n h)

same-Adds :
    {x : Exchange} {srv done done' : Serving} → done ≡ done' → Adds x srv done' → Adds x srv done
same-Adds e a = rw e a

serve_connection-Adds :
    (options : ConnectionOptions) (x : Exchange) (srv : Serving)
    → x.before_upgrade ≡ some options
    → is_served x ≡ not x.deadline_fails
    → Adds x srv (serve_connection options x srv)
unfolding serve_connection flat_map
serve_connection-Adds options x srv e h = elim (Bool-cases x.deadline_fails) [
  | inl fails ↦
      refused x srv _ (deadline_failed ∷ closes_socket ∷ []) (ground (arith, fails))
        (ground (arith, h, fails)) (λ A f q. rw (q.deadline, q.closing) refl)
  | inr goes_on ↦
      same-Adds (ground (arith, goes_on))
        (run_connection-Adds options x srv e (ground (arith, h, goes_on)))
]

unchanged : (x : Exchange) (srv : Serving) → is_served x ≡ false → Adds x srv srv
unfolding flat_map
unchanged x srv n = record {
  same_ops = refl;
  kept = rw (n, append-nil);
  collected = λ A f q. rw (n, append-nil);
}

after_asking : {x : Exchange} {srv done : Serving} → Adds x (asked srv) done → Adds x srv done
unfolding flat_map
after_asking {srv = srv} a = record {
  same_ops = a.same_ops;
  kept = a.kept;
  collected = λ A f q. rw (
    a.collected A f q,
    flat_map-append f srv.calls (asks_before_upgrade ∷ []),
    q.asking,
    append-nil,
  );
}

-- What is_served says of a request for a connection.
Upgrades : Exchange → Type 0
Upgrades x = is_served x ≡ (elim x.before_upgrade [
  | none ↦ false
  | some options ↦ options.accept && not x.upgrade_fails && not x.deadline_fails
])

upgrade-Adds :
    (x : Exchange) (srv : Serving) (answer : Option ConnectionOptions)
    → x.before_upgrade ≡ answer
    → Upgrades x
    → Adds x (asked srv) (upgrade x srv)
unfolding Upgrades upgrade flat_map
upgrade-Adds x srv none e h = same-Adds (rw e refl) (unchanged x (asked srv) (ground (arith, h, e)))
upgrade-Adds x srv (some options) e h = elim (Bool-cases options.accept) [
  | inr refuses ↦
      same-Adds (ground (arith, e, refuses))
        (unchanged x (asked srv) (ground (arith, h, e, refuses)))
  | inl accepts ↦ elim (Bool-cases x.upgrade_fails) [
    | inl fails ↦
        refused x (asked srv) _ (upgrade_failed ∷ []) (ground (arith, e, accepts, fails))
          (ground (arith, h, e, fails)) (λ A f q. rw q.upgrading refl)
    | inr works ↦
        same-Adds (ground (arith, e, accepts, works))
          (serve_connection-Adds options x (asked srv) e (ground (arith, h, e, accepts, works)))
  ]
]

pub serve_http-Adds :
    (encode : Bytes → Bytes) (x : Exchange) (srv : Serving)
    → srv.ops.shutdown ≡ false
    → Adds x srv (serve_http encode x srv)
unfolding serve_http handle_metadata flat_map Upgrades
serve_http-Adds encode x srv h = elim (bytes_discrete x.method options_method) [
  | yes p ↦
      refused x srv _ (on_options ∷ []) (ground (arith, h, p)) (ground (arith, p))
        (λ A f q. rw q.options refl)
  | no p ↦ elim (bytes_discrete x.method webwire_method) [
    | yes q ↦
        refused x srv _ (writes_metadata (encode protocol_version) ∷ []) (ground (arith, h, p, q))
          (ground (arith, p, q)) (λ A f s. rw (s.metadata (encode protocol_version)) refl)
    | no q ↦
        same-Adds (ground (arith, h, p, q))
          (after_asking (upgrade-Adds x srv x.before_upgrade refl (ground (arith, p, q))))
  ]
]
