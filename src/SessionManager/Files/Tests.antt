-- ===== src/SessionManager/Files/Tests.antt =====
-- A file system in memory, and a session that is kept in it.
use webwire_go.Connection.Encoded.{VarMap, InfoMethods, var_map_of, field_of, field_in}
use webwire_go.Base.{◌+◌, ◌≡◌, ◌≢◌, refl, sym, ap, false, Option, none, some, [], ◌∷◌, ◌++◌}
use webwire_go.Connection.{Session}
use webwire_go.Connection.Encoded.{fill_info}
use webwire_go.Map.{insert}
use webwire_go.Registry.{Key}
use webwire_go.Runtime.{Bytes, bytes_discrete}
use webwire_go.Server.Handlers.{not_found, found}
use webwire_go.SessionManager.{
  SessionFile, Stat, present, missing, FileSystem, on_session_created, on_session_lookup,
  on_session_closed,
}
use webwire_go.SessionManager.Files.{IsReliable, session_kept}
use mathlib.Core.Logic.{ite, if_pos, if_neg}

abbrev Memory : Type 0
Memory = Bytes → Option Bytes

abbrev stat_of : Option Bytes → Stat
stat_of none = missing
stat_of (some content) = present

abbrev store : Bytes → Option Bytes → Memory → Memory
store path content s other = ite (bytes_discrete path other) content (s other)

abbrev memory : FileSystem Memory
memory = record {
  stat = λ path s. stat_of (s path);
  read_file = λ path s. s path;
  write_file = λ path content s. (store path (some content) s, false);
  remove = λ path s. (store path none s, false);
}

store-same :
    (path : Bytes) (content : Option Bytes) (s : Memory) → store path content s path ≡ content
store-same path content s = if_pos (bytes_discrete path path) refl _ _

store-other :
    (path other : Bytes) (content : Option Bytes) (s : Memory)
    → other ≢ path
    → store path content s other ≡ s other
store-other path other content s ne = if_neg (bytes_discrete path other) (λ e. ne (sym e)) _ _

memory-IsReliable : IsReliable memory
memory-IsReliable = record {
  writes = λ path content s. refl;
  written_stat = λ path content s. ap stat_of (store-same path (some content) s);
  written_content = λ path content s. store-same path (some content) s;
  write_others = λ path content other s ne. store-other path other (some content) s ne;
  removes = λ path s there. refl;
  removed_stat = λ path s there. ap stat_of (store-same path none s);
  remove_others = λ path other s ne. store-other path other none s ne;
}

-- Information with one field, "u".
abbrev user_field : Bytes
user_field = b'u' ∷ []

abbrev methods : InfoMethods
methods = record { fields = λ info. user_field ∷ []; value_of = λ info field. info + 1 }

abbrev user : Option VarMap
user = some ((user_field, 9) ∷ [])

abbrev encode : SessionFile → Option Bytes
encode file = elim file.info [
  | none ↦ none
  | some fields ↦ elim fields [
    | [] ↦ none
    | (field, reference) ∷ others ↦ some (file.creation ∷ file.last_lookup ∷ reference ∷ field)
  ]
]

abbrev decode : Bytes → Option SessionFile
decode (c ∷ l ∷ reference ∷ field) =
    some (record { creation = c; last_lookup = l; info = some ((field, reference) ∷ []) })
decode _ = none

decodes :
    (file : SessionFile)
    → file.info ≡ user
    → (encoded : Bytes) × (encode file ≡ some encoded) × (decode encoded ≡ some file)
decodes file e = (
  file.creation ∷ file.last_lookup ∷ 9 ∷ user_field,
  rw e refl,
  ap (λ i. some (record file { info = i })) (sym e),
)

abbrev session : Session
session = record { key = b'k' ∷ []; creation = 3; last_lookup = 3; info = some 8 }

abbrev path_of : Key → Bytes
path_of key = b'/' ∷ (key ++ (b'.' ∷ b'w' ∷ []))

abbrev empty : Memory
empty path = none

session_kept_example :
    let created = on_session_created memory encode decode path_of methods session empty in
    let once = on_session_lookup memory encode decode path_of session.key 5 created.0 in
    let twice = on_session_lookup memory encode decode path_of session.key 6 once.0 in
    let closed = on_session_closed memory encode decode path_of session.key twice.0 in
    (created.1 ≡ false)
    × (once.1 ≡ found 3 3 user)
    × (twice.1 ≡ found 3 5 user)
    × ((field : Bytes) → field_in user field ≡ field_of methods (some 8) field)
    × (closed.1 ≡ false)
    × (on_session_lookup memory encode decode path_of session.key 7 closed.0
        ≡ (closed.0, not_found))
    × ((other : Bytes)
        → other ≢ path_of session.key
        → memory.read_file other closed.0 ≡ memory.read_file other empty)
unfolding var_map_of fill_info insert
session_kept_example =
    session_kept memory encode decode path_of memory-IsReliable user decodes methods session 5 6 7
      empty refl
