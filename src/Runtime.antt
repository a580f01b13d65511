-- ===== src/Runtime.antt =====
-- What the packages use of Go itself: byte slices, panics, and the checked reads and writes of a
-- slice. A byte is a number below 256. A slice expression is checked against the length of the
-- slice; Go checks it against the capacity, which is at least that.
pub mod Buffers
use webwire_go.Base.{
  ltb, leb, if◌then◌else◌, length, get_or, set, take, drop, replicate, length-append, length-take,
  length-drop, take-append, drop-append, take_all, drop_all, get_or-append, ℕ, zero, suc, ◌+◌, ◌-◌,
  ◌≤◌, ◌<◌, ◌≡◌, refl, ap, ◌⊎◌, inl, inr, ◌&&◌, List, [], ◌∷◌, ◌++◌, append-nil, arith,
}
use mathlib.Core.Path.{ap₂}
use native.Mathlib.Decide.{ℕ_discrete}
use mathlib.Core.List.{tail}

abbrev pub Bytes : Type 0
Bytes = List ℕ

-- `out_of_range`, `close_of_closed_channel`, `nil_dereference` and `failed_assertion` are the
-- runtime's; each of the others is one of the program's `panic` calls.
pub data Panic : Type 0 where
  out_of_range : Panic
  close_of_closed_channel : Panic
  nil_dereference : Panic
  session_connections_exceeded : Panic
  empty_session_key : Panic
  missing_name_and_payload : Panic
  name_too_long : ℕ → Panic
  odd_utf16_payload : ℕ → Panic
  unsupported_char : ℕ → Panic
  missing_error_code : Panic
  error_code_too_long : ℕ → Panic
  not_a_special_reply : ℕ → Panic
  invalid_bounds : ℕ → ℕ → Panic
  invalid_message_type : ℕ → Panic
  unmarshalled_message : Panic
  failed_assertion : Panic
  no_session_key : Panic
  no_implementation : Panic
  no_metadata_request : Panic
  no_session_directory : Panic

pub data Go {ℓ} (A : Type ℓ) : Type ℓ where
  value : A → Go A
  panic : Panic → Go A

infixl 5 ◌>>=◌
abbrev pub ◌>>=◌ {ℓ κ} : {A : Type ℓ} {B : Type κ} → Go A → (A → Go B) → Go B
value a >>= f = f a
panic p >>= f = panic p

pub Go-cases {ℓ} :
    {A : Type ℓ} (g : Go A) → ((a : A) × (g ≡ value a)) ⊎ ((p : Panic) × (g ≡ panic p))
Go-cases (value a) = inl (a, refl)
Go-cases (panic p) = inr (p, refl)

pub value-injective {ℓ} : {A : Type ℓ} {a b : A} → value a ≡ value b → a ≡ b
value-injective h = cc

pub value-ne-panic {ℓ} : {A : Type ℓ} {a : A} {p : Panic} → value a ≡ panic p → ⊥
value-ne-panic h = cc

-- `s[a:b]`
unfoldable pub slice : Bytes → ℕ → ℕ → Go Bytes
slice s a b =
    if leb a b && leb b (length s) then value (take (b - a) (drop a s)) else panic out_of_range

-- `s[a:]`
unfoldable pub slice_from : Bytes → ℕ → Go Bytes
slice_from s a = if leb a (length s) then value (drop a s) else panic out_of_range

-- `s[i]`
unfoldable pub index : Bytes → ℕ → Go ℕ
index s i = if ltb i (length s) then value (get_or s i 0) else panic out_of_range

-- `s[i] = v`
unfoldable pub write : Bytes → ℕ → ℕ → Go Bytes
write s i v = if ltb i (length s) then value (set s i v) else panic out_of_range

-- `make([]byte, n)`
abbrev pub make : ℕ → Bytes
make n = replicate n 0

-- `copy(dst, src)` as the new content of `dst`
abbrev pub copy : Bytes → Bytes → Bytes
copy dst src = take (length dst) src ++ drop (length src) dst

pub slice-eq_value :
    (s : Bytes) (a b : ℕ) → a ≤ b → b ≤ length s → slice s a b ≡ value (take (b - a) (drop a s))
unfolding slice
slice-eq_value s a b h k = ground arith

pub slice_from-eq_value : (s : Bytes) (a : ℕ) → a ≤ length s → slice_from s a ≡ value (drop a s)
unfolding slice_from
slice_from-eq_value s a h = ground arith

-- `s[i:i+1][0]`
unfoldable pub read_byte : Bytes → ℕ → Go ℕ
unfolding slice index
read_byte s i = do part ← slice s i (i + 1); index part 0

get_or-take_one-drop :
    (s : Bytes) (i d : ℕ) → i < length s → get_or (take 1 (drop i s)) 0 d ≡ get_or s i d
get_or-take_one-drop [] i d h = absurd (omega arith)
get_or-take_one-drop (x ∷ s) zero d h = refl
get_or-take_one-drop (x ∷ s) (suc i) d h = get_or-take_one-drop s i d (omega arith)

pub read_byte-eq_value : (s : Bytes) (i : ℕ) → i < length s → read_byte s i ≡ value (get_or s i 0)
unfolding read_byte slice index
read_byte-eq_value s i h =
    ground (arith, length-take 1 (drop i s), length-drop i s, get_or-take_one-drop s i 0 h)

-- A copy of as many bytes as the destination has replaces all of it.
pub copy-eq_src : (dst src : Bytes) → length src ≡ length dst → copy dst src ≡ src
copy-eq_src dst src h =
    rw
      (take_all src (length dst) (omega arith), drop_all dst (length src) (omega arith), append-nil)

-- Reads of a slice that is known as a concatenation.
pub slice-append :
    (front mid back : Bytes) (a b : ℕ)
    → a ≡ length front
    → b ≡ a + length mid
    → slice (front ++ (mid ++ back)) a b ≡ value mid
slice-append front mid back a b ha hb =
    let whole = front ++ (mid ++ back) in
    let long : length whole ≡ length front + length mid + length back =
      omega (arith, length-append front (mid ++ back), length-append mid back) in
    rw (
      slice-eq_value whole a b (omega arith) (omega arith),
      drop-append front (mid ++ back) a 0 (omega arith),
      take-append mid back (b - a) (omega arith),
    )

pub slice_from-append :
    (front back : Bytes) (a : ℕ) → a ≡ length front → slice_from (front ++ back) a ≡ value back
slice_from-append front back a ha = rw (
  slice_from-eq_value (front ++ back) a (omega (arith, length-append front back)),
  drop-append front back a 0 (omega arith),
)

pub read_byte-append :
    (front back : Bytes) (x i : ℕ) → i ≡ length front → read_byte (front ++ (x ∷ back)) i ≡ value x
read_byte-append front back x i hi = rw (
  read_byte-eq_value (front ++ (x ∷ back)) i (omega (arith, length-append front (x ∷ back))),
  get_or-append front (x ∷ back) i 0 0 (omega arith),
)

abbrev bytes_cons :
    {x y : ℕ} {xs ys : Bytes}
    → Dec (x ≡ y)
    → Dec (xs ≡ ys)
    → Dec (◌≡◌ {A = Bytes} (x ∷ xs) (y ∷ ys))
bytes_cons (yes p) (yes q) = yes (ap₂ ◌∷◌ p q)
bytes_cons (yes p) (no q) = no (λ e. q (ap tail e))
bytes_cons {x} (no p) _ = no (λ e. p (ap (λ k. get_or k 0 x) e))

-- The equality of strings and byte arrays.
unfoldable pub bytes_discrete : Discrete Bytes
unfolding ℕ_discrete
bytes_discrete [] [] = yes refl
bytes_discrete [] (y ∷ ys) = no (λ e. cc)
bytes_discrete (x ∷ xs) [] = no (λ e. cc)
bytes_discrete (x ∷ xs) (y ∷ ys) = bytes_cons (ℕ_discrete x y) (bytes_discrete xs ys)
