-- ===== src/SessionInfo/Fields.antt =====
-- genericSessionInfo.go and sessionInfoToVarMap.go: what the fields of a copy hold.
mod Tests
use webwire_go.Base.{
  ℕ, zero, suc, ◌+◌, ◌≡◌, refl, ap, sym, ◌∙◌, length-append, Option, none, some, List, [], ◌∷◌,
  ◌++◌, length, arith, Bool, true, false,
}
use webwire_go.Runtime.{Bytes, bytes_discrete}
use webwire_go.SessionInfo.{
  Value, plain, nil_interface, nil_slice, nil_map, interface, slice, map, composite, Elements,
  no_element, element, Entries, no_entry, entry, copy_recursive, copy_elements, copy_entries,
  deep_copy, GenericSessionInfo, copy_info, fields, keys_of, look_up, field_value, assign, fill,
  session_info_to_var_map, copied_if,
}
use webwire_go.SessionInfo.Copies.{
  addresses, contents, count_up, IsCopied, value-IsCopied, info_addresses, info_contents,
  copy_info-IsCopied,
}
use mathlib.Core.Logic.{ite}
use mathlib.Core.Option
use mathlib.Core.Path.{ap₂}

abbrev or_nil : Option Value → Value
or_nil none = nil_interface
or_nil (some v) = contents v

copied_if-contents : (o : Option Value) (next : ℕ) → contents (copied_if o next).0 ≡ or_nil o
unfolding deep_copy contents
copied_if-contents none next = refl
copied_if-contents (some (interface v)) next = (value-IsCopied (interface v) next).1
copied_if-contents (some (slice at cap es)) next = (value-IsCopied (slice at cap es) next).1
copied_if-contents (some (map at es)) next = (value-IsCopied (map at es) next).1
copied_if-contents (some (plain k)) next = (value-IsCopied (plain k) next).1
copied_if-contents (some (composite es)) next = (value-IsCopied (composite es) next).1
copied_if-contents (some nil_interface) next = refl
copied_if-contents (some nil_slice) next = (value-IsCopied nil_slice next).1
copied_if-contents (some nil_map) next = (value-IsCopied nil_map next).1

look_up-assign :
    (k f : Bytes) (v : Value) (m : Entries)
    → look_up k (assign f v m) ≡ ite (bytes_discrete f k) (some v) (look_up k m)
unfolding look_up assign
look_up-assign k f v no_entry = refl
look_up-assign k f v (entry key u es) = ground (arith, look_up-assign k f v es)

abbrev has : Bytes → List Bytes → Bool
has k [] = false
has k (f ∷ fs) = ite (bytes_discrete f k) true (has k fs)

-- What a field holds after the loop.
abbrev filled : Entries → Bytes → Entries → Bool → Option Value
filled es k m true = some (or_nil (look_up k es))
filled es k m false = Option.map contents (look_up k m)

filled-assign :
    (es : Entries) (f : Bytes) (v : Value) (m : Entries) (k : Bytes) (b : Bool)
    → contents v ≡ or_nil (look_up f es)
    → filled es k (assign f v m) b ≡ filled es k m (ite (bytes_discrete f k) true b)
filled-assign es f v m k true h = ground arith
filled-assign es f v m k false h = ground (arith, h, look_up-assign k f v m)

fill-filled :
    (at : ℕ) (es : Entries) (fs : List Bytes) (m : Entries) (next : ℕ) (k : Bytes)
    → Option.map contents (look_up k (fill (field_value (some (at, es))) fs m next).0)
      ≡ filled es k m (has k fs)
unfolding fill field_value
fill-filled at es [] m next k = refl
fill-filled at es (f ∷ fs) m next k =
    fill-filled at es fs (assign f (copied_if (look_up f es) next).0 m)
      (copied_if (look_up f es) next).1 k
    ∙ filled-assign es f (copied_if (look_up f es) next).0 m k (has k fs)
        (copied_if-contents (look_up f es) next)

abbrev exists : Option Value → Bool
exists none = false
exists (some v) = true

has-keys_of : (k : Bytes) (es : Entries) → has k (keys_of es) ≡ exists (look_up k es)
unfolding look_up
has-keys_of k no_entry = refl
has-keys_of k (entry key v es) = ground (arith, has-keys_of k es)

filled-exists :
    (k : Bytes) (es : Entries) (o : Option Value)
    → look_up k es ≡ o
    → filled es k no_entry (exists o) ≡ Option.map contents o
unfolding look_up
filled-exists k es none e = refl
filled-exists k es (some v) e = rw e refl

-- What a field of session information holds.
abbrev pub held_in : GenericSessionInfo → Bytes → Option Value
held_in none k = none
held_in (some (at, es)) k = look_up k es

session_info_to_var_map-contents :
    (info : GenericSessionInfo) (next : ℕ) (k : Bytes)
    → Option.map contents
        (held_in (session_info_to_var_map (fields info) (field_value info) next).0 k)
      ≡ Option.map contents (held_in info k)
unfolding session_info_to_var_map fill look_up
session_info_to_var_map-contents none next k = refl
session_info_to_var_map-contents (some (at, es)) next k =
    fill-filled at es (keys_of es) no_entry (next + 1) k
    ∙ ap (filled es k no_entry) (has-keys_of k es)
    ∙ filled-exists k es (look_up k es) refl

-- Copy of generic session information has the same contents, and its slices and maps, other than those
-- behind a pointer or inside a struct or an array, which are shared with the original, are new ones,
-- each at an address of its own; and the map that SessionInfoToVarMap
-- makes of the information has its fields, each with the same contents, and no other.
pub copies-contents :
    (info : GenericSessionInfo) (next : ℕ)
    → let (c, n) = copy_info info next in
      let var_map = (session_info_to_var_map (fields info) (field_value info) next).0 in
      (info_contents c ≡ info_contents info)
      × (info_addresses c ≡ count_up next (length (info_addresses info)))
      × (n ≡ next + length (info_addresses info))
      × ((k : Bytes)
          → Option.map contents (held_in var_map k) ≡ Option.map contents (held_in info k))
copies-contents info next =
    let (same, (new, n)) = copy_info-IsCopied info next in
    (same, new, n, session_info_to_var_map-contents info next)
