-- ===== src/Connection/Encoded.antt =====
-- session.go, sessionInfoToVarMap.go and connection.go: the session in the form that is encoded as JSON,
-- whose information is a map of the fields that the application's object lists. Values are references
-- here; SessionInfo has SessionInfoToVarMap over the values that they stand for.
use webwire_go.Base.{
  if◌then◌else◌, ℕ, ◌≡◌, refl, ◌∙◌, Bool, true, false, Option, none, some, List, [], ◌∷◌, arith,
}
use webwire_go.Connection.{Session}
use webwire_go.Map.{find, insert, find-insert}
use webwire_go.Registry.{Key}
use webwire_go.Runtime.{Bytes, bytes_discrete}
use mathlib.Core.Logic.{ite}

-- `map[string]interface{}`; a value of it is a reference.
abbrev pub VarMap : Type 0
VarMap = List (Bytes × ℕ)

-- `JSONEncodedSession`
pub record EncodedSession : Type 0 where
  pub key : Key
  pub creation : ℕ
  pub last_lookup : ℕ
  pub info : Option VarMap

-- The methods of the application's session information that are called here.
pub record InfoMethods : Type 0 where
  pub fields : ℕ → List Bytes
  pub value_of : ℕ → Bytes → ℕ

-- The loop over `Fields`, which sets each of them to its `Value`.
unfoldable pub fill_info : (Bytes → ℕ) → List Bytes → VarMap → VarMap
fill_info value_of [] var_map = var_map
fill_info value_of (field ∷ names) var_map =
    fill_info value_of names (insert bytes_discrete field (value_of field) var_map)

-- `SessionInfoToVarMap`
unfoldable pub var_map_of : InfoMethods → Option ℕ → Option VarMap
unfolding fill_info
var_map_of methods none = none
var_map_of methods (some info) = some (fill_info (methods.value_of info) (methods.fields info) [])

-- The session as it is encoded.
abbrev pub encoded_form : InfoMethods → Session → EncodedSession
encoded_form methods session = record {
  key = session.key;
  creation = session.creation;
  last_lookup = session.last_lookup;
  info = var_map_of methods session.info;
}

abbrev pub has_field : Bytes → List Bytes → Bool
has_field k [] = false
has_field k (field ∷ names) = ite (bytes_discrete field k) true (has_field k names)

-- What the information of the application says of a field.
abbrev pub field_of : InfoMethods → Option ℕ → Bytes → Option ℕ
field_of methods none k = none
field_of methods (some info) k =
    if has_field k (methods.fields info) then some (methods.value_of info k) else none

-- What a map says of a field; a nil map has none.
abbrev pub field_in : Option VarMap → Bytes → Option ℕ
field_in none k = none
field_in (some var_map) k = find bytes_discrete k var_map

fill_info-insert :
    (value_of : Bytes → ℕ) (field k : Bytes) (m : VarMap) (b : Bool)
    → (if b
        then some (value_of k)
        else find bytes_discrete k (insert bytes_discrete field (value_of field) m))
      ≡ (if ite (bytes_discrete field k) true b then some (value_of k) else find bytes_discrete k m)
fill_info-insert value_of field k m true = ground arith
fill_info-insert value_of field k m false =
    ground (arith, find-insert bytes_discrete k field (value_of field) m)

find-fill_info :
    (value_of : Bytes → ℕ) (names : List Bytes) (k : Bytes) (m : VarMap)
    → find bytes_discrete k (fill_info value_of names m)
      ≡ (if has_field k names then some (value_of k) else find bytes_discrete k m)
unfolding fill_info
find-fill_info value_of [] k m = refl
find-fill_info value_of (field ∷ names) k m =
    find-fill_info value_of names k (insert bytes_discrete field (value_of field) m)
    ∙ fill_info-insert value_of field k m (has_field k names)

-- The map has exactly the fields of the information, each with its value.
pub var_map_of-fields :
    (methods : InfoMethods) (info : Option ℕ) (k : Bytes)
    → field_in (var_map_of methods info) k ≡ field_of methods info k
unfolding var_map_of find
var_map_of-fields methods none k = refl
var_map_of-fields methods (some info) k =
    find-fill_info (methods.value_of info) (methods.fields info) k []
