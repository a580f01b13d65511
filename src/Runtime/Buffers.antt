-- ===== src/Runtime/Buffers.antt =====
-- The loops by which the packages fill a new buffer, and what they leave in it: a filled front and
-- the zeroes that `make` put behind it.
use webwire_go.Base.{
  ltb, if◌then◌else◌, Bool-cases, length, set, length-append, length-replicate, ℕ, suc, ◌+◌, ◌≡◌,
  refl, ap, ◌∙◌, inl, inr, Bool, ◌||◌, Option, none, some, [], ◌∷◌, ◌++◌, append_assoc, append-nil,
  arith,
}
use webwire_go.Runtime.{Bytes, unsupported_char, Go, value, panic, ◌>>=◌, write, make}

-- `for i := 0; i < len(xs); i++ { buf[off+i] = xs[i] }`
unfoldable pub write_bytes : Bytes → ℕ → Bytes → Go Bytes
write_bytes buf off [] = value buf
write_bytes buf off (x ∷ xs) = do buf' ← write buf off x; write_bytes buf' (off + 1) xs

-- `char < 32 || char > 126`
abbrev pub is_unsupported : ℕ → Bool
is_unsupported c = ltb c 32 || ltb 126 c

-- The same loop with the check of each byte of a name or an error code before it is written.
unfoldable pub write_name : Bytes → ℕ → Bytes → Go Bytes
write_name buf off [] = value buf
write_name buf off (c ∷ cs) =
    if is_unsupported c
    then panic (unsupported_char c)
    else do buf' ← write buf off c; write_name buf' (off + 1) cs

unfoldable pub first_unsupported : Bytes → Option ℕ
first_unsupported [] = none
first_unsupported (c ∷ cs) = if is_unsupported c then some c else first_unsupported cs

-- What a composer returns for the first unsupported byte, if there is one.
abbrev pub checked : Option ℕ → Bytes → Go Bytes
checked none buf = value buf
checked (some c) buf = panic (unsupported_char c)

set-append :
    (front : Bytes) (k v : ℕ)
    → set (front ++ make (suc k)) (length front) v ≡ (front ++ (v ∷ [])) ++ make k
set-append [] k v = refl
set-append (x ∷ front) k v = ap (◌∷◌ x) (set-append front k v)

pub write-filled :
    (front : Bytes) (m k i v : ℕ)
    → m ≡ suc k
    → i ≡ length front
    → write (front ++ make m) i v ≡ value ((front ++ (v ∷ [])) ++ make k)
unfolding write
write-filled front m k i v hm hi =
    rw (hm, hi)
      (ground (
        arith,
        set-append front k v,
        length-append front (make (suc k)),
        length-replicate {A = ℕ} k 0,
      ))

pub write_bytes-filled :
    (xs front : Bytes) (m k i : ℕ)
    → m ≡ length xs + k
    → i ≡ length front
    → write_bytes (front ++ make m) i xs ≡ value ((front ++ xs) ++ make k)
unfolding write_bytes
write_bytes-filled [] front m k i hm hi =
    rw append-nil (ap (λ n. value (front ++ make n)) (omega arith))
write_bytes-filled (x ∷ xs) front m k i hm hi =
    rw (write-filled front m (length xs + k) i x (omega arith) hi) (
      write_bytes-filled xs (front ++ (x ∷ [])) (length xs + k) k (i + 1) refl
        (omega (arith, length-append front (x ∷ [])))
      ∙ rw (append_assoc front (x ∷ []) xs))

pub write_name-filled :
    (xs front : Bytes) (m k i : ℕ)
    → m ≡ length xs + k
    → i ≡ length front
    → write_name (front ++ make m) i xs ≡ checked (first_unsupported xs) ((front ++ xs) ++ make k)
unfolding write_name first_unsupported
write_name-filled [] front m k i hm hi =
    rw append-nil (ap (λ n. value (front ++ make n)) (omega arith))
write_name-filled (x ∷ xs) front m k i hm hi = elim (Bool-cases (is_unsupported x)) [
  | inl bad ↦ rw bad
  | inr good ↦
      rw (good, write-filled front m (length xs + k) i x (omega arith) hi)
        (write_name-filled xs (front ++ (x ∷ [])) (length xs + k) k (i + 1) refl
            (omega (arith, length-append front (x ∷ [])))
          ∙ rw (append_assoc front (x ∷ []) xs))
]
