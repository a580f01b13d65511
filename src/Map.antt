-- ===== src/Map.antt =====
-- Go's maps, as lists of entries with distinct keys. The order of a map is not defined in Go, and
-- nothing here depends on it.
use webwire_go.Base.{length, ◌+◌, ◌≡◌, refl, Option, none, some, List, [], ◌∷◌, arith}
use mathlib.Core.Logic.{ite}

-- The packages' `map[K]V`; the keys' equality is decided by the section's parameter.
module _ {ℓ} {K V : Type ℓ} (eq : Discrete K) where
  unfoldable pub find : K → List (K × V) → Option V
  find k [] = none
  find k ((j, v) ∷ m) = ite (eq j k) (some v) (find k m)

  -- `m[k] = v`
  unfoldable pub insert : K → V → List (K × V) → List (K × V)
  insert k v [] = (k, v) ∷ []
  insert k v ((j, w) ∷ m) = ite (eq j k) ((j, v) ∷ m) ((j, w) ∷ insert k v m)

  -- `delete(m, k)`
  unfoldable pub delete : K → List (K × V) → List (K × V)
  delete k [] = []
  delete k ((j, w) ∷ m) = ite (eq j k) m ((j, w) ∷ delete k m)

  abbrev pub Distinct : List (K × V) → Type ℓ
  Distinct [] = Unit {ℓ}
  Distinct ((k, v) ∷ m) = (find k m ≡ none) × Distinct m

  pub find-insert :
      (j k : K) (v : V) (m : List (K × V))
      → find j (insert k v m) ≡ ite (eq k j) (some v) (find j m)
  unfolding find insert
  find-insert j k v [] = refl
  find-insert j k v ((i, w) ∷ m) = ground (arith, find-insert j k v m)

  pub find-delete :
      (j k : K) (m : List (K × V)) → Distinct m → find j (delete k m) ≡ ite (eq k j) none (find j m)
  unfolding find delete
  find-delete j k [] h = ground arith
  find-delete j k ((i, w) ∷ m) (fresh, h) = ground (arith, find-delete j k m h)

  pub insert-Distinct : (k : K) (v : V) (m : List (K × V)) → Distinct m → Distinct (insert k v m)
  unfolding insert find
  insert-Distinct k v [] h = (refl, tt)
  insert-Distinct k v ((i, w) ∷ m) (fresh, h) =
      ground (arith, insert-Distinct k v m h, find-insert i k v m)

  pub delete-Distinct : (k : K) (m : List (K × V)) → Distinct m → Distinct (delete k m)
  unfolding delete
  delete-Distinct k [] h = tt
  delete-Distinct k ((i, w) ∷ m) (fresh, h) =
      ground (arith, delete-Distinct k m h, find-delete i k m h)

  pub length-insert_new :
      (k : K) (v : V) (m : List (K × V)) → find k m ≡ none → length (insert k v m) ≡ length m + 1
  unfolding find insert
  length-insert_new k v [] h = refl
  length-insert_new k v ((i, w) ∷ m) h = ground (arith, length-insert_new k v m)

  pub length-insert_old :
      (k : K) (v w : V) (m : List (K × V)) → find k m ≡ some w → length (insert k v m) ≡ length m
  unfolding find insert
  length-insert_old k v w [] h = cc
  length-insert_old k v w ((i, u) ∷ m) h = ground (arith, length-insert_old k v w m)

  pub length-delete_old :
      (k : K) (w : V) (m : List (K × V)) → find k m ≡ some w → length (delete k m) + 1 ≡ length m
  unfolding find delete
  length-delete_old k w [] h = cc
  length-delete_old k w ((i, u) ∷ m) h = ground (arith, length-delete_old k w m)

  pub delete-absent : (k : K) (m : List (K × V)) → find k m ≡ none → delete k m ≡ m
  unfolding find delete
  delete-absent k [] h = refl
  delete-absent k ((i, u) ∷ m) h = ground (arith, delete-absent k m)

  pub delete-insert : (k : K) (v : V) (m : List (K × V)) → delete k (insert k v m) ≡ delete k m
  unfolding insert delete
  delete-insert k v [] = ground arith
  delete-insert k v ((i, u) ∷ m) = ground (arith, delete-insert k v m)
