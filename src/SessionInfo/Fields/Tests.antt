-- ===== src/SessionInfo/Fields/Tests.antt =====
-- Session information with a list and a map inside, and its copy.
use webwire_go.Base.{◌+◌, ◌≡◌, refl, some, [], ◌∷◌, length}
use webwire_go.Runtime.{Bytes}
use webwire_go.SessionInfo.{
  plain, nil_interface, interface, slice, map, no_element, element, no_entry, entry, Entries,
  GenericSessionInfo, copy_info, copy_recursive, fields, field_value, session_info_to_var_map,
}
use webwire_go.SessionInfo.Copies.{info_contents, info_addresses, contents, count_up}
use webwire_go.SessionInfo.Fields.{held_in, copies-contents}
use mathlib.Core.Option

abbrev roles : Entries
roles =
    entry (b'r' ∷ [])
      (interface (slice 2 4 (element (interface (plain 7)) (element nil_interface no_element))))
      (entry (b'm' ∷ []) (interface (map 3 no_entry)) no_entry)

abbrev info : GenericSessionInfo
info = some (1, roles)

info_copied : copy_info info 10 ≡ (
  some (
    10,
    entry
        (b'r' ∷ [])
        (interface (slice 11 4 (element (interface (plain 7)) (element nil_interface no_element))))
        (entry (b'm' ∷ []) (interface (map 12 no_entry)) no_entry),
  ),
  13,
)
unfolding copy_info copy_recursive
info_copied = refl

copies-contents_example :
    let (c, n) = copy_info info 10 in
    let var_map = (session_info_to_var_map (fields info) (field_value info) 10).0 in
    (info_contents c ≡ info_contents info)
    × (info_addresses c ≡ count_up 10 (length (info_addresses info)))
    × (n ≡ 10 + length (info_addresses info))
    × ((k : Bytes) → Option.map contents (held_in var_map k) ≡ Option.map contents (held_in info k))
copies-contents_example = copies-contents info 10
