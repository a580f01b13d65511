-- ===== src/SessionInfo.antt =====
-- genericSessionInfo.go and sessionInfoToVarMap.go: session information as a value of Go that decoding
-- JSON makes, and its deep copy.
-- A slice and a map stand with the address of what they share with whoever holds them too. A struct
-- and an array stand with the values in them; the code copies them as they are, with the slices and
-- the maps in them. A value of any other kind is a number, which stands for its address if it is a
-- pointer; it is copied as it is too. A map's keys are strings and distinct; its entries are in the order in which they are visited.
pub mod Copies
pub mod Fields
use webwire_go.Base.{ℕ, ◌+◌, Option, none, some, List, [], ◌∷◌}
use webwire_go.Runtime.{Bytes, bytes_discrete}
use mathlib.Core.Logic.{ite}

mutual
  pub data Value : Type 0 where
    plain : ℕ → Value
    nil_interface nil_slice nil_map : Value
    interface : Value → Value
    -- the address and the capacity
    slice : ℕ → ℕ → Elements → Value
    map : ℕ → Entries → Value
    -- a struct or an array
    composite : Elements → Value

  pub data Elements : Type 0 where
    no_element : Elements
    element : Value → Elements → Elements

  pub data Entries : Type 0 where
    no_entry : Entries
    entry : Bytes → Value → Entries → Entries

-- `copyRecursive`, and the loops in it, with the address that the next new slice or map gets; the
-- second component is that address afterwards.
unfoldable mutual
  pub copy_recursive : Value → ℕ → Value × ℕ
  copy_recursive (interface v) next = let (c, n) = copy_recursive v next in (interface c, n)
  copy_recursive (slice at cap es) next =
      let (c, n) = copy_elements es (next + 1) in (slice next cap c, n)
  copy_recursive (map at es) next = let (c, n) = copy_entries es (next + 1) in (map next c, n)
  copy_recursive (plain k) next = (plain k, next)
  copy_recursive (composite es) next = (composite es, next)
  copy_recursive nil_interface next = (nil_interface, next)
  copy_recursive nil_slice next = (nil_slice, next)
  copy_recursive nil_map next = (nil_map, next)

  pub copy_elements : Elements → ℕ → Elements × ℕ
  copy_elements no_element next = (no_element, next)
  copy_elements (element v es) next =
      let (c, n) = copy_recursive v next in let (cs, m) = copy_elements es n in (element c cs, m)

  pub copy_entries : Entries → ℕ → Entries × ℕ
  copy_entries no_entry next = (no_entry, next)
  copy_entries (entry key v es) next =
      let (c, n) = copy_recursive v next in let (cs, m) = copy_entries es n in (entry key c cs, m)

-- `deepCopy` of an `interface{}`
unfoldable pub deep_copy : Value → ℕ → Value × ℕ
unfolding copy_recursive
deep_copy nil_interface next = (nil_interface, next)
deep_copy src next = copy_recursive src next

-- The one field of a GenericSessionInfo: its map, an address and the entries, or nil.
abbrev pub GenericSessionInfo : Type 0
GenericSessionInfo = Option (ℕ × Entries)

-- `Copy`
unfoldable pub copy_info : GenericSessionInfo → ℕ → GenericSessionInfo × ℕ
unfolding copy_entries
copy_info none next = (none, next)
copy_info (some (at, es)) next = let (c, n) = copy_entries es (next + 1) in (some (next, c), n)

abbrev pub keys_of : Entries → List Bytes
keys_of no_entry = []
keys_of (entry key v es) = key ∷ keys_of es

-- `Fields`
abbrev pub fields : GenericSessionInfo → List Bytes
fields none = []
fields (some (at, es)) = keys_of es

unfoldable pub look_up : Bytes → Entries → Option Value
look_up k no_entry = none
look_up k (entry key v es) = ite (bytes_discrete key k) (some v) (look_up k es)

abbrev pub copied_if : Option Value → ℕ → Value × ℕ
copied_if none next = (nil_interface, next)
copied_if (some v) next = deep_copy v next

-- `Value`
unfoldable pub field_value : GenericSessionInfo → Bytes → ℕ → Value × ℕ
field_value none name next = (nil_interface, next)
field_value (some (at, es)) name next = copied_if (look_up name es) next

-- `varMap[field] = value`
unfoldable pub assign : Bytes → Value → Entries → Entries
assign k v no_entry = entry k v no_entry
assign k v (entry key u es) =
    ite (bytes_discrete key k) (entry key v es) (entry key u (assign k v es))

-- The loop of `SessionInfoToVarMap`, over the `Fields` and `Value` of any session information.
unfoldable pub fill : (Bytes → ℕ → Value × ℕ) → List Bytes → Entries → ℕ → Entries × ℕ
unfolding assign
fill value_of [] var_map next = (var_map, next)
fill value_of (field ∷ names) var_map next =
    let (v, n) = value_of field next in fill value_of names (assign field v var_map) n

-- `SessionInfoToVarMap` of an information that is not nil
unfoldable pub session_info_to_var_map :
    List Bytes → (Bytes → ℕ → Value × ℕ) → ℕ → GenericSessionInfo × ℕ
unfolding fill
session_info_to_var_map names value_of next =
    let (c, n) = fill value_of names no_entry (next + 1) in (some (next, c), n)
