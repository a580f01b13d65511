-- ===== src/SessionInfo/Copies.antt =====
-- genericSessionInfo.go and sessionInfoToVarMap.go: what a copy has in common with its original.
use webwire_go.Base.{
  ℕ, zero, suc, ◌+◌, ◌≡◌, refl, ap, sym, ◌∙◌, length-append, Option, none, some, List, [], ◌∷◌,
  ◌++◌, length, arith,
}
use webwire_go.SessionInfo.{
  Value, plain, nil_interface, nil_slice, nil_map, interface, slice, map, composite, Elements,
  no_element, element, Entries, no_entry, entry, copy_recursive, copy_elements, copy_entries,
  GenericSessionInfo, copy_info,
}
use mathlib.Core.Path.{ap₂}

-- The addresses of the slices and the maps that a value consists of, but for those inside a struct or
-- an array.
unfoldable mutual
  pub addresses : Value → List ℕ
  addresses (interface v) = addresses v
  addresses (slice at cap es) = at ∷ element_addresses es
  addresses (map at es) = at ∷ entry_addresses es
  addresses _ = []

  pub element_addresses : Elements → List ℕ
  element_addresses no_element = []
  element_addresses (element v es) = addresses v ++ element_addresses es

  pub entry_addresses : Entries → List ℕ
  entry_addresses no_entry = []
  entry_addresses (entry key v es) = addresses v ++ entry_addresses es

-- A value without its addresses; a struct and an array are themselves.
unfoldable mutual
  pub contents : Value → Value
  contents (interface v) = interface (contents v)
  contents (slice at cap es) = slice 0 cap (element_contents es)
  contents (map at es) = map 0 (entry_contents es)
  contents v = v

  pub element_contents : Elements → Elements
  element_contents no_element = no_element
  element_contents (element v es) = element (contents v) (element_contents es)

  pub entry_contents : Entries → Entries
  entry_contents no_entry = no_entry
  entry_contents (entry key v es) = entry key (contents v) (entry_contents es)

-- The numbers from `n` on, `k` of them.
abbrev pub count_up : ℕ → ℕ → List ℕ
count_up n zero = []
count_up n (suc k) = n ∷ count_up (n + 1) k

count_up-add : (n a b : ℕ) → count_up n (a + b) ≡ count_up n a ++ count_up (n + a) b
count_up-add n zero b = ap₂ count_up (omega arith) (omega arith)
count_up-add n (suc a) b =
    let later : (n + 1) + a ≡ n + suc a = omega arith in
    let longer : suc a + b ≡ suc (a + b) = omega arith in
    ap (count_up n) longer
    ∙ ap (◌∷◌ n) (count_up-add (n + 1) a b ∙ ap (λ m. count_up (n + 1) a ++ count_up m b) later)

-- The addresses of a copy are the next ones, one for each of the original's.
abbrev pub IsCopied : List ℕ → List ℕ → ℕ → ℕ → Type 0
IsCopied original copied next n =
    (copied ≡ count_up next (length original)) × (n ≡ next + length original)

joined :
    (xs ys cs ds : List ℕ) (next n m : ℕ)
    → IsCopied xs cs next n
    → IsCopied ys ds n m
    → IsCopied (xs ++ ys) (cs ++ ds) next m
joined xs ys cs ds next n m (e, p) (f, q) = (
  rw (e, f, p, length-append xs ys) (sym (count_up-add next (length xs) (length ys))),
  omega (arith, length-append xs ys, p, q),
)

headed :
    (at next n : ℕ) (xs cs : List ℕ)
    → IsCopied xs cs (next + 1) n
    → IsCopied (at ∷ xs) (next ∷ cs) next n
headed at next n xs cs (e, p) = (ap (◌∷◌ next) e, omega arith)

mutual
  unfolding copy_recursive addresses contents

  pub value-IsCopied :
      (v : Value) (next : ℕ)
      → let (c, n) = copy_recursive v next in
        IsCopied (addresses v) (addresses c) next n × (contents c ≡ contents v)
  value-IsCopied (interface v) next = let (i, e) = value-IsCopied v next in (i, ap interface e)
  value-IsCopied (slice at cap es) next =
      let (i, e) = elements-IsCopied es (next + 1) in (headed at next _ _ _ i, ap (slice 0 cap) e)
  value-IsCopied (map at es) next =
      let (i, e) = entries-IsCopied es (next + 1) in (headed at next _ _ _ i, ap (map 0) e)
  value-IsCopied (plain k) next = ((refl, omega arith), refl)
  value-IsCopied (composite es) next = ((refl, omega arith), refl)
  value-IsCopied nil_interface next = ((refl, omega arith), refl)
  value-IsCopied nil_slice next = ((refl, omega arith), refl)
  value-IsCopied nil_map next = ((refl, omega arith), refl)

  elements-IsCopied :
      (es : Elements) (next : ℕ)
      → let (c, n) = copy_elements es next in
        IsCopied (element_addresses es) (element_addresses c) next n
        × (element_contents c ≡ element_contents es)
  elements-IsCopied no_element next = ((refl, omega arith), refl)
  elements-IsCopied (element v es) next =
      let (i, e) = value-IsCopied v next in
      let (j, f) = elements-IsCopied es (copy_recursive v next).1 in
      (joined _ _ _ _ _ _ _ i j, ap₂ element e f)

  entries-IsCopied :
      (es : Entries) (next : ℕ)
      → let (c, n) = copy_entries es next in
        IsCopied (entry_addresses es) (entry_addresses c) next n
        × (entry_contents c ≡ entry_contents es)
  entries-IsCopied no_entry next = ((refl, omega arith), refl)
  entries-IsCopied (entry key v es) next =
      let (i, e) = value-IsCopied v next in
      let (j, f) = entries-IsCopied es (copy_recursive v next).1 in
      (joined _ _ _ _ _ _ _ i j, ap₂ (entry key) e f)

abbrev pub info_addresses : GenericSessionInfo → List ℕ
info_addresses none = []
info_addresses (some (at, es)) = at ∷ entry_addresses es

abbrev pub info_contents : GenericSessionInfo → Option Entries
info_contents none = none
info_contents (some (at, es)) = some (entry_contents es)

pub copy_info-IsCopied :
    (info : GenericSessionInfo) (next : ℕ)
    → let (c, n) = copy_info info next in
      (info_contents c ≡ info_contents info)
      × IsCopied (info_addresses info) (info_addresses c) next n
unfolding copy_info
copy_info-IsCopied none next = (refl, (refl, omega arith))
copy_info-IsCopied (some (at, es)) next =
    let (i, e) = entries-IsCopied es (next + 1) in (ap some e, headed at next _ _ _ i)
