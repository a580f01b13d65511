-- ===== src/SessionManager/Files.antt =====
-- defaultSessionManager.go: how long a session is kept.
mod Tests
use webwire_go.Connection.Encoded.{
  VarMap, InfoMethods, var_map_of, field_of, field_in, var_map_of-fields,
}
use webwire_go.Base.{ℕ, ◌≡◌, ◌≢◌, refl, sym, ◌∙◌, ap, false, Option, none, some}
use webwire_go.Connection.{Session}
use webwire_go.Registry.{Key}
use webwire_go.Runtime.{Bytes}
use webwire_go.Server.Handlers.{LookupResult, not_found, found}
use webwire_go.SessionManager.{
  SessionFile, Stat, present, missing, FileSystem, save, parse_file, on_session_created,
  on_session_lookup, on_session_closed,
}

-- A file system whose calls do not fail: a file that is written holds what was written, one that is
-- removed is missing, and other files are as they were.
pub record IsReliable {S : Type 0} (fs : FileSystem S) : Type 0 where
  pub writes : (path content : Bytes) (s : S) → (fs.write_file path content s).1 ≡ false
  pub written_stat :
      (path content : Bytes) (s : S) → fs.stat path (fs.write_file path content s).0 ≡ present
  pub written_content :
      (path content : Bytes) (s : S)
      → fs.read_file path (fs.write_file path content s).0 ≡ some content
  pub write_others :
      (path content other : Bytes) (s : S)
      → other ≢ path
      → fs.read_file other (fs.write_file path content s).0 ≡ fs.read_file other s
  pub removes : (path : Bytes) (s : S) → fs.stat path s ≡ present → (fs.remove path s).1 ≡ false
  pub removed_stat :
      (path : Bytes) (s : S)
      → fs.stat path s ≡ present
      → fs.stat path (fs.remove path s).0 ≡ missing
  pub remove_others :
      (path other : Bytes) (s : S)
      → other ≢ path
      → fs.read_file other (fs.remove path s).0 ≡ fs.read_file other s

module _ {S : Type 0} (fs : FileSystem S) (marshal : SessionFile → Option Bytes)
    (unmarshal : Bytes → Option SessionFile) (file_path : Key → Bytes) (reliable : IsReliable fs)
    (info : Option VarMap)
    (decodes : (file : SessionFile)
      → file.info ≡ info
      → (encoded : Bytes) × (marshal file ≡ some encoded) × (unmarshal encoded ≡ some file)) where
  -- The file of a key, and that no other file has changed.
  abbrev Kept : Bytes → SessionFile → S → S → Type 0
  Kept path file s t =
      (fs.stat path t ≡ present)
      × (parse_file fs marshal unmarshal file_path path t ≡ some file)
      × ((other : Bytes) → other ≢ path → fs.read_file other t ≡ fs.read_file other s)

  save-eq_write :
      (file : SessionFile) (path encoded : Bytes) (s : S)
      → marshal file ≡ some encoded
      → save fs marshal unmarshal file_path file path s ≡ fs.write_file path encoded s
  unfolding save
  save-eq_write file path encoded s e = rw (save, e) refl

  parse_file-eq_some :
      (file : SessionFile) (path content : Bytes) (s : S)
      → fs.read_file path s ≡ some content
      → unmarshal content ≡ some file
      → parse_file fs marshal unmarshal file_path path s ≡ some file
  unfolding parse_file
  parse_file-eq_some file path content s e d = rw (parse_file, e) d

  saved :
      (file : SessionFile) (path : Bytes) (r s : S)
      → file.info ≡ info
      → ((other : Bytes) → other ≢ path → fs.read_file other s ≡ fs.read_file other r)
      → ((save fs marshal unmarshal file_path file path s).1 ≡ false)
        × Kept path file r (save fs marshal unmarshal file_path file path s).0
  saved file path r s known same =
      let (encoded, e, d) = decodes file known in
      rw (save-eq_write file path encoded s e) (
        reliable.writes path encoded s,
        (
          reliable.written_stat path encoded s,
          parse_file-eq_some file path encoded _ (reliable.written_content path encoded s) d,
          λ other ne. reliable.write_others path encoded other s ne ∙ same other ne,
        ),
      )

  looked_up :
      (key : Key) (now : ℕ) (file : SessionFile) (r s : S)
      → file.info ≡ info
      → Kept (file_path key) file r s
      → let (t, result) = on_session_lookup fs marshal unmarshal file_path key now s in
        (result ≡ found file.creation file.last_lookup file.info)
        × Kept (file_path key) (record file { last_lookup = now }) r t
  unfolding on_session_lookup
  looked_up key now file r s known (there, parsed, same) =
      let (ok, kept) = saved (record file { last_lookup = now }) (file_path key) r s known same in
      rw (on_session_lookup, there, parsed) (rw ok refl, kept)

  gone :
      (key : Key) (now : ℕ) (s : S)
      → fs.stat (file_path key) s ≡ missing
      → on_session_lookup fs marshal unmarshal file_path key now s ≡ (s, not_found)
  unfolding on_session_lookup
  gone key now s e = rw (on_session_lookup, e) refl

  -- On a file system whose calls do not fail, if the files of a session with its information, at any time,
  -- can be encoded and are decoded to the same: the session, once created, is found with its creation,
  -- its last lookup, and a map of the fields that its information lists, each with its value, and no
  -- other, and again with the time of the first lookup as its last, until it is closed; then it is not
  -- found; and no file other than its own has changed.
  pub session_kept :
      (methods : InfoMethods) (session : Session) (first second third : ℕ) (s : S)
      → var_map_of methods session.info ≡ info
      → let created = on_session_created fs marshal unmarshal file_path methods session s in
        let once = on_session_lookup fs marshal unmarshal file_path session.key first created.0 in
        let twice = on_session_lookup fs marshal unmarshal file_path session.key second once.0 in
        let closed = on_session_closed fs marshal unmarshal file_path session.key twice.0 in
        (created.1 ≡ false)
        × (once.1 ≡ found session.creation session.last_lookup info)
        × (twice.1 ≡ found session.creation first info)
        × ((field : Bytes) → field_in info field ≡ field_of methods session.info field)
        × (closed.1 ≡ false)
        × (on_session_lookup fs marshal unmarshal file_path session.key third closed.0
            ≡ (closed.0, not_found))
        × ((other : Bytes)
            → other ≢ file_path session.key
            → fs.read_file other closed.0 ≡ fs.read_file other s)
  unfolding on_session_created on_session_closed
  session_kept methods session first second third s mapped =
      let key = session.key in
      let file : SessionFile = record {
        creation = session.creation;
        last_lookup = session.last_lookup;
        info = var_map_of methods session.info;
      } in
      let (made, kept) = saved file (file_path key) s s mapped (λ other ne. refl) in
      let (one, kept1) = looked_up key first file s _ mapped kept in
      let (two, kept2) =
        looked_up key second (record file { last_lookup = first }) s _ mapped kept1 in
      (
        made,
        one ∙ ap (found session.creation session.last_lookup) mapped,
        two ∙ ap (found session.creation first) mapped,
        (λ field.
            ap (λ i. field_in i field) (sym mapped) ∙ var_map_of-fields methods session.info field),
        reliable.removes (file_path key) _ kept2.0,
        gone key third _ (reliable.removed_stat (file_path key) _ kept2.0),
        λ other ne. reliable.remove_others (file_path key) other _ ne ∙ kept2.2 other ne,
      )
