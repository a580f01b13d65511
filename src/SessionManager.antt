-- ===== src/SessionManager.antt =====
-- defaultSessionManager.go: the session manager that keeps each session in a file.
-- The file system and the JSON encoder are arguments; `file_path` is the method of that name, whose
-- filepath.Join is not this program's. Session information is a reference, whose methods are an argument, and a
-- time is a number.
pub mod Files
use webwire_go.Connection.Encoded.{
  VarMap, InfoMethods, var_map_of, field_of, field_in, var_map_of-fields,
}
use webwire_go.Base.{if◌then◌else◌, ℕ, Bool, true, Option, none, some, [], ◌∷◌}
use webwire_go.Connection.{Session}
use webwire_go.Registry.{Key}
use webwire_go.Runtime.{Bytes, Go, value, panic, no_session_directory}
use webwire_go.Server.Handlers.{LookupResult, lookup_failed, not_found, found}

pub record SessionFile : Type 0 where
  pub creation : ℕ
  pub last_lookup : ℕ
  pub info : Option VarMap

-- What `os.Stat` says.
pub data Stat : Type 0 where
  present missing unreadable : Stat

-- The calls of os and ioutil; the second component of a result says that the call returned an error.
pub record FileSystem (S : Type 0) : Type 0 where
  pub stat : Bytes → S → Stat
  pub read_file : Bytes → S → Option Bytes
  pub write_file : Bytes → Bytes → S → S × Bool
  pub remove : Bytes → S → S × Bool

module _ {S : Type 0} (fs : FileSystem S) (marshal : SessionFile → Option Bytes)
    (unmarshal : Bytes → Option SessionFile) (file_path : Key → Bytes) where
  -- `Save`: true if it returns an error.
  unfoldable pub save : SessionFile → Bytes → S → S × Bool
  save file path s = elim (marshal file) [
    | none ↦ (s, true)
    | some encoded ↦ fs.write_file path encoded s
  ]

  -- `Parse` of a session file
  unfoldable pub parse_file : Bytes → S → Option SessionFile
  parse_file path s = elim (fs.read_file path s) [ none ↦ none | some content ↦ unmarshal content ]

  unfoldable pub on_session_created : InfoMethods → Session → S → S × Bool
  unfolding save
  on_session_created methods session s =
      save
        (record {
          creation = session.creation;
          last_lookup = session.last_lookup;
          info = var_map_of methods session.info;
        })
        (file_path session.key) s

  -- The file with the new lookup has been saved, or could not be.
  abbrev pub after_save : SessionFile → S × Bool → S × LookupResult
  after_save file (s, fails) =
      (s, if fails then lookup_failed else found file.creation file.last_lookup file.info)

  abbrev pub after_parse_file : Bytes → ℕ → S → Option SessionFile → S × LookupResult
  after_parse_file path now s none = (s, lookup_failed)
  after_parse_file path now s (some file) =
      after_save file (save (record file { last_lookup = now }) path s)

  unfoldable pub on_session_lookup : Key → ℕ → S → S × LookupResult
  unfolding save parse_file
  on_session_lookup key now s = elim (fs.stat (file_path key) s) [
    | missing ↦ (s, not_found)
    | unreadable ↦ (s, lookup_failed)
    | present ↦ after_parse_file (file_path key) now s (parse_file (file_path key) s)
  ]

  unfoldable pub on_session_closed : Key → S → S × Bool
  on_session_closed key s = fs.remove (file_path key) s

-- `NewDefaultSessionManager`: the path of the directory, and the mode with which it was created, if it
-- was. `own` is the path beside the program, if it can be found; `fails` says whether `os.MkdirAll` fails.
abbrev directory_mode : ℕ
directory_mode = 0o640

unfoldable pub after_stat : Bytes → Stat → Bool → Go (Bytes × Option ℕ)
after_stat path present fails = value (path, none)
after_stat path missing fails =
    if fails then panic no_session_directory else value (path, some directory_mode)
after_stat path unreadable fails = panic no_session_directory

unfoldable pub new_default_session_manager :
    Option Bytes → (Bytes → Stat) → Bool → Bytes → Go (Bytes × Option ℕ)
unfolding after_stat
new_default_session_manager own stat fails [] = elim own [
  | none ↦ panic no_session_directory
  | some path ↦ after_stat path (stat path) fails
]
new_default_session_manager own stat fails (x ∷ path) =
    after_stat (x ∷ path) (stat (x ∷ path)) fails
