-- ===== src/Message/Generators/Bounds.antt =====
-- message/testutil.go: the bounds of the random strings.
use webwire_go.Base.{
  ◌==◌, Bool-cases, length, ℕ, zero, suc, ◌+◌, ◌-◌, ◌%◌, ◌≤◌, ◌<◌, ◌≡◌, refl, ◌⊎◌, inl, inr, arith,
}
use webwire_go.Message.Generators.{
  letter_count, random_letters, random_length, random_string, gen_rnd_byte_string,
}
use webwire_go.Message.Validity.{IsPrintable}
use webwire_go.Runtime.{Bytes, value}

-- rand.Intn returns a number below the one it is given.
pub record IsRandom (intn : ℕ → ℕ → ℕ) : Type 0 where
  pub below : (k n : ℕ) → 0 < n → intn k n < n

-- A printable string of a length in this range, in units of so many bytes.
pub record IsDrawn (min max power : ℕ) (s : Bytes) : Type 0 where
  pub at_least : min ≤ length s
  pub at_most : length s ≤ max
  pub whole : length s % power ≡ 0
  pub printable : IsPrintable s

module _ (intn : ℕ → ℕ → ℕ) (random : IsRandom intn) where
  length-random_letters : (n next : ℕ) → length (random_letters intn n next) ≡ n
  unfolding random_letters
  length-random_letters zero next = refl
  length-random_letters (suc n) next = omega (arith, length-random_letters n (next + 1))

  random_letters-IsPrintable : (n next : ℕ) → IsPrintable (random_letters intn n next)
  unfolding random_letters
  random_letters-IsPrintable zero next = tt
  random_letters-IsPrintable (suc n) next =
      let low = random.below next letter_count (omega arith) in
      ((omega arith, omega arith), random_letters-IsPrintable n (next + 1))

  random_length-within :
      (min max next : ℕ)
      → min ≤ max
      → let drawn = (random_length intn min max next).0 in
        (drawn ≡ min) ⊎ ((min ≤ drawn) × (drawn < max))
  unfolding random_length
  random_length-within min max next h = elim (Bool-cases (max == min)) [
    | inl same ↦ rw same (inl refl)
    | inr more ↦
        let low = random.below next (max - min) (ground arith) in
        rw more (inr (omega arith, omega arith))
  ]

  rounded_up :
      (min max power drawn : ℕ)
      → (power ≡ 1) ⊎ (power ≡ 2)
      → min ≤ max
      → min % power ≡ 0
      → max % power ≡ 0
      → (drawn ≡ min) ⊎ ((min ≤ drawn) × (drawn < max))
      → let size = drawn + drawn % power in (min ≤ size) × (size ≤ max) × (size % power ≡ 0)
  rounded_up min max power drawn (inl p) h a b (inl d) = rw (p, d) (omega arith)
  rounded_up min max power drawn (inl p) h a b (inr d) = rw p (omega arith)
  rounded_up min max power drawn (inr p) h a b (inl d) =
      rw p (let e : min % 2 ≡ 0 = rw (← p) a in omega arith)
  rounded_up min max power drawn (inr p) h a b (inr d) =
      rw p (let e : min % 2 ≡ 0 = rw (← p) a in let f : max % 2 ≡ 0 = rw (← p) b in omega arith)

  -- genRndByteString, for a unit of one or two bytes and a lower and an upper bound in such units,
  -- returns a printable string of a length in such units between the bounds.
  pub gen_rnd_byte_string_bounds :
      (min max power next : ℕ)
      → (power ≡ 1) ⊎ (power ≡ 2)
      → min ≤ max
      → min % power ≡ 0
      → max % power ≡ 0
      → (s : Bytes) × (last : ℕ) × (gen_rnd_byte_string intn min max power next ≡ value (s, last))
        × IsDrawn min max power s
  unfolding gen_rnd_byte_string random_string
  gen_rnd_byte_string_bounds min max power next p h a b =
      let drawn = (random_length intn min max next).0 in
      let after = (random_length intn min max next).1 in
      let size = drawn + drawn % power in
      let (low, high, whole) =
        rounded_up min max power drawn p h a b (random_length-within min max next h) in
      let long = length-random_letters size after in
      (
        random_letters intn size after,
        after + size,
        ground (arith, a, b, h),
        record {
          at_least = rw long low;
          at_most = rw long high;
          whole = rw long whole;
          printable = random_letters-IsPrintable size after;
        },
      )
