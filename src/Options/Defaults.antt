-- ===== src/Options/Defaults.antt =====
-- What SetDefaults of serverOptions.go and client/options.go leaves: NewServer applies it, and
-- NewHeadlessServer, which it calls, applies it again.
use webwire_go.Base.{
  sym, ◌∙◌, Bool-cases, inl, inr, ltb, ◌==◌, ℕ, ◌*◌, ◌≡◌, ◌≢◌, refl, false, Option, none, some,
  arith,
}
use webwire_go.Runtime.{Go, value, Go-cases, value-injective, value-ne-panic}
use mathlib.Core.Path.{subst}
use webwire_go.Options.{
  default_manager, set_others, ℤ, is_below, second, option_unset, option_disabled, option_enabled,
  ServerOptions, Objects, or_default, if_enabled, set_option, at_least, set_defaults, ClientOptions,
  set_client_defaults,
}

at_least-at_least :
    (duration : ℤ) (least d : ℕ)
    → ltb d least ≡ false
    → at_least (at_least duration least d) least d ≡ at_least duration least d
at_least-at_least duration least d h = elim (Bool-cases (is_below duration least)) [
  | inl below ↦ simp (below, h)
  | inr above ↦ simp (above, above)
]

at_least-reached :
    (duration : ℤ) (least d : ℕ)
    → ltb d least ≡ false
    → is_below (at_least duration least d) least ≡ false
at_least-reached duration least d h = elim (Bool-cases (is_below duration least)) [
  | inl below ↦ simp (below, h)
  | inr above ↦ simp (above, above)
]

or_default-or_default : (o : Option ℕ) (d : ℕ) → or_default (or_default o d) d ≡ or_default o d
or_default-or_default none d = refl
or_default-or_default (some a) d = refl

or_default-ne-none : (o : Option ℕ) (d : ℕ) → or_default o d ≢ none
or_default-ne-none none d = λ h. cc
or_default-ne-none (some a) d = λ h. cc

if_enabled-if_enabled :
    (n : ℕ) (o : Option ℕ) (d : ℕ) → if_enabled n (if_enabled n o d) d ≡ if_enabled n o d
if_enabled-if_enabled n o d = elim (Bool-cases (n == option_enabled)) [
  | inl on ↦ simp (on, or_default-or_default)
  | inr off ↦ simp off
]

if_enabled-ne-none : (n : ℕ) (o : Option ℕ) (d : ℕ) → n ≡ option_enabled → if_enabled n o d ≢ none
if_enabled-ne-none n o d e = rw e (or_default-ne-none o d)

set_option-set_option :
    (n d : ℕ) → d ≢ option_unset → set_option (set_option n d) d ≡ set_option n d
set_option-set_option n d h = ground arith

-- Every option of a server that has to be set.
pub record IsComplete (opts : ServerOptions) : Type 0 where
  pub sessions_set : opts.sessions ≢ option_unset
  pub heartbeat_set : opts.heartbeat ≢ option_unset
  pub manager_set : opts.sessions ≡ option_enabled → opts.session_manager ≢ none
  pub generator_set : opts.sessions ≡ option_enabled → opts.session_key_generator ≢ none
  pub parser_set : opts.session_info_parser ≢ none
  pub timeout_long : is_below opts.heartbeat_timeout (2 * second) ≡ false
  pub interval_long : is_below opts.heartbeat_interval (1 * second) ≡ false
  pub logs_set : (opts.warn_log ≢ none) × (opts.error_log ≢ none)

set_others-IsComplete :
    (objects : Objects) (opts : ServerOptions) (manager : Option ℕ)
    → default_manager (set_option opts.sessions option_enabled) manager objects.manager
      ≡ value manager
    → (set_option opts.sessions option_enabled ≡ option_enabled → manager ≢ none)
    → IsComplete (set_others objects opts manager)
      × (set_defaults objects (set_others objects opts manager)
          ≡ value (set_others objects opts manager))
unfolding set_defaults set_others
set_others-IsComplete objects opts manager kept needed = (
  record {
    sessions_set = ground arith;
    heartbeat_set = ground arith;
    manager_set = needed;
    generator_set = λ e. if_enabled-ne-none _ opts.session_key_generator objects.generator e;
    parser_set = or_default-ne-none opts.session_info_parser objects.parser;
    timeout_long = at_least-reached opts.heartbeat_timeout (2 * second) (60 * second) refl;
    interval_long = at_least-reached opts.heartbeat_interval (1 * second) (30 * second) refl;
    logs_set = (
      or_default-ne-none opts.warn_log objects.warn,
      or_default-ne-none opts.error_log objects.error,
    );
  },
  (let once = set_option-set_option opts.sessions option_enabled (λ h. ground arith) in
      let beats = set_option-set_option opts.heartbeat option_disabled (λ h. ground arith) in
      let timeout = at_least-at_least opts.heartbeat_timeout (2 * second) (60 * second) refl in
      let interval = at_least-at_least opts.heartbeat_interval (1 * second) (30 * second) refl in
      simp (once, kept, beats, timeout, interval, if_enabled-if_enabled, or_default-or_default)),
)

some-ne-none : {A : Type 0} {a : A} → ◌≡◌ {A = Option A} (some a) none → ⊥
some-ne-none h = cc

-- Once the defaults have set a session manager, they leave it.
default_manager-default_manager :
    (n : ℕ) (o : Option ℕ) (d : Go ℕ) (m : Option ℕ)
    → default_manager n o d ≡ value m
    → (default_manager n m d ≡ value m) × (n ≡ option_enabled → m ≢ none)
unfolding default_manager
default_manager-default_manager n (some a) d m e =
    let given = value-injective e in
    (subst (λ k. default_manager n k d ≡ value k) given refl, λ on h. some-ne-none (given ∙ h))
default_manager-default_manager n none d m e = elim (Bool-cases (n == option_enabled)) [
  | inr off ↦
      let left = value-injective (simp off at e) in
      (
        subst (λ k. default_manager n k d ≡ value k) left (ground (arith, off)),
        λ on. absurd (ground (arith, on, off)),
      )
  | inl on ↦ elim (Go-cases d) [
    | inl (a, f) ↦
        let made = value-injective (simp (on, f) at e) in
        (subst (λ k. default_manager n k d ≡ value k) made refl, λ h k. some-ne-none (made ∙ k))
    | inr (p, f) ↦ absurd (value-ne-panic (sym (simp (on, f) at e)))
  ]
]

-- What `SetDefaults` returns, if it returns.
pub set_defaults-returns :
    (objects : Objects) (opts set : ServerOptions)
    → set_defaults objects opts ≡ value set
    → (manager : Option ℕ) × (default_manager
          (set_option opts.sessions option_enabled)
          opts.session_manager
          objects.manager
        ≡ value manager)
      × (set ≡ set_others objects opts manager)
unfolding set_defaults
set_defaults-returns objects opts set e =
    elim (Go-cases (
      default_manager (set_option opts.sessions option_enabled) opts.session_manager
        objects.manager)) [
          | inl (manager, f) ↦ (manager, f, sym (value-injective (rw f at e)))
          | inr (p, f) ↦ absurd (value-ne-panic (sym (rw f at e)))
        ]

-- If SetDefaults of the server's options returns, it has set all that has to be set: sessions and
-- heartbeat, a session manager and a key generator where sessions are enabled, the parser and the
-- loggers, and durations of at least two seconds and one second; and applying it again changes nothing.
pub set_defaults-IsComplete :
    (objects : Objects) (opts set : ServerOptions)
    → set_defaults objects opts ≡ value set
    → IsComplete set × (set_defaults objects set ≡ value set)
set_defaults-IsComplete objects opts set e =
    let (manager, made, same) = set_defaults-returns objects opts set e in
    let (again, kept) = default_manager-default_manager _ _ _ manager made in
    subst (λ s. IsComplete s × (set_defaults objects s ≡ value s)) (sym same)
      (set_others-IsComplete objects opts manager again kept)

-- SetDefaults of the client's options leaves positive durations, sets the parser and the loggers, and
-- changes nothing when it is applied again.
set_client_defaults-IsComplete :
    (objects : Objects) (opts : ClientOptions)
    → let set = set_client_defaults objects opts in
      (is_below set.default_request_timeout 1 ≡ false)
      × (is_below set.reconnection_interval 1 ≡ false)
      × (set.autoconnect ≢ option_unset)
      × (set.session_info_parser ≢ none)
      × (set_client_defaults objects set ≡ set)
unfolding set_client_defaults
set_client_defaults-IsComplete objects opts = (
  at_least-reached opts.default_request_timeout 1 (60 * second) refl,
  at_least-reached opts.reconnection_interval 1 (2 * second) refl,
  ground arith,
  or_default-ne-none opts.session_info_parser objects.parser,
  (let once = set_option-set_option opts.autoconnect option_enabled (λ h. ground arith) in
      let timeout = at_least-at_least opts.default_request_timeout 1 (60 * second) refl in
      let interval = at_least-at_least opts.reconnection_interval 1 (2 * second) refl in
      simp (once, timeout, interval, or_default-or_default)),
)
