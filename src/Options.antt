-- ===== src/Options.antt =====
-- serverOptions.go and client/options.go: the options of a server and of a client, and the defaults
-- for those that are not set, without the addresses. References to the program's objects are numbers, nil is `none`.
-- A duration is Go's signed number of nanoseconds.
pub mod Defaults
use webwire_go.Runtime.{Go, value, ◌>>=◌}
use webwire_go.Base.{if◌then◌else◌, ltb, ◌==◌, ℕ, ◌*◌, Bool, true, ◌&&◌, Option, none, some}

-- `negsuc n` is -(n + 1).
pub data ℤ : Type 0 where
  pos : ℕ → ℤ
  negsuc : ℕ → ℤ

-- `duration < n`
abbrev pub is_below : ℤ → ℕ → Bool
is_below (pos k) n = ltb k n
is_below (negsuc k) n = true

abbrev pub second : ℕ
second = 1_000_000_000

-- `OptionUnset`, `Disabled` and `Enabled`
abbrev pub option_unset : ℕ
option_unset = 0

abbrev pub option_disabled : ℕ
option_disabled = 1

abbrev pub option_enabled : ℕ
option_enabled = 2

pub record ServerOptions : Type 0 where
  pub sessions : ℕ
  pub session_manager : Option ℕ
  pub session_key_generator : Option ℕ
  pub session_info_parser : Option ℕ
  pub max_session_connections : ℕ
  pub heartbeat : ℕ
  pub heartbeat_timeout : ℤ
  pub heartbeat_interval : ℤ
  pub warn_log : Option ℕ
  pub error_log : Option ℕ

-- The objects that the defaults create. The default session manager is made in a directory of the
-- file system, and NewDefaultSessionManager panics where that fails.
pub record Objects : Type 0 where
  pub manager : Go ℕ
  pub generator : ℕ
  pub parser : ℕ
  pub warn : ℕ
  pub error : ℕ

abbrev pub or_default : Option ℕ → ℕ → Option ℕ
or_default none d = some d
or_default (some a) d = some a

-- `option == Enabled && object == nil`
abbrev pub if_enabled : ℕ → Option ℕ → ℕ → Option ℕ
if_enabled sessions object d = if sessions == option_enabled then or_default object d else object

abbrev pub set_option : ℕ → ℕ → ℕ
set_option option d = if option == option_unset then d else option

abbrev pub at_least : ℤ → ℕ → ℕ → ℤ
at_least duration least d = if is_below duration least then pos d else duration

unfoldable pub default_manager : ℕ → Option ℕ → Go ℕ → Go (Option ℕ)
default_manager sessions (some manager) d = value (some manager)
default_manager sessions none d =
    if sessions == option_enabled then (do manager ← d; value (some manager)) else value none

-- All but the session manager.
unfoldable pub set_others : Objects → ServerOptions → Option ℕ → ServerOptions
set_others objects opts manager =
    let sessions = set_option opts.sessions option_enabled in
    record {
      sessions = sessions;
      session_manager = manager;
      session_key_generator = if_enabled sessions opts.session_key_generator objects.generator;
      session_info_parser = or_default opts.session_info_parser objects.parser;
      max_session_connections = opts.max_session_connections;
      heartbeat = set_option opts.heartbeat option_disabled;
      heartbeat_timeout = at_least opts.heartbeat_timeout (2 * second) (60 * second);
      heartbeat_interval = at_least opts.heartbeat_interval (1 * second) (30 * second);
      warn_log = or_default opts.warn_log objects.warn;
      error_log = or_default opts.error_log objects.error;
    }

-- `SetDefaults` of the server's options
unfoldable pub set_defaults : Objects → ServerOptions → Go ServerOptions
unfolding default_manager set_others
set_defaults objects opts = do
  let sessions = set_option opts.sessions option_enabled
  manager ← default_manager sessions opts.session_manager objects.manager
  value (set_others objects opts manager)

pub record ClientOptions : Type 0 where
  pub session_info_parser : Option ℕ
  pub default_request_timeout : ℤ
  pub autoconnect : ℕ
  pub reconnection_interval : ℤ
  pub warn_log : Option ℕ
  pub error_log : Option ℕ

-- `SetDefaults` of the client's options
unfoldable pub set_client_defaults : Objects → ClientOptions → ClientOptions
set_client_defaults objects opts = record {
  session_info_parser = or_default opts.session_info_parser objects.parser;
  default_request_timeout = at_least opts.default_request_timeout 1 (60 * second);
  autoconnect = set_option opts.autoconnect option_enabled;
  reconnection_interval = at_least opts.reconnection_interval 1 (2 * second);
  warn_log = or_default opts.warn_log objects.warn;
  error_log = or_default opts.error_log objects.error;
}
