-- ===== src/Frames/Count.antt =====
-- How many of the first `n` frames are taken.
use yalnix_os.Common.{
  ℕ, zero, suc, ◌+◌, ◌≤◌, ◌<◌, ◌≡◌, refl, Bool, true, false, arith, ◌==◌, if◌then◌else◌, Bool-cases,
  inl, inr,
}

abbrev pub bit_value : Bool → ℕ
bit_value true = 1
bit_value false = 0

pub count : ℕ → (ℕ → Bool) → ℕ
count zero f = 0
count (suc n) f = bit_value (f n) + count n f

pub count-le : (n : ℕ) (f : ℕ → Bool) → count n f ≤ n
unfolding count
count-le zero f = omega arith
count-le (suc n) f = ground (arith, count-le n f)

pub count_zero : (n : ℕ) (f : ℕ → Bool) → ((i : ℕ) → f i ≡ false) → count n f ≡ 0
unfolding count
count_zero zero f h = refl
count_zero (suc n) f h = ground (arith, h n, count_zero n f h)

-- With fewer taken than there are, one is free.
pub count_free : (n : ℕ) (f : ℕ → Bool) → count n f < n → (i : ℕ) × (i < n) × (f i ≡ false)
unfolding count
count_free zero f h = absurd (omega arith)
count_free (suc n) f h = elim (Bool-cases (f n)) [
  | inr free ↦ (n, omega arith, free)
  | inl used ↦ let (i, below, free) = count_free n f (ground arith) in (i, omega arith, free)
]

module _ (f g : ℕ → Bool) (i : ℕ) (bit : Bool)
    (changed : (j : ℕ) → g j ≡ (if i == j then bit else f j)) where
  count_outside : (n : ℕ) → n ≤ i → count n g ≡ count n f
  unfolding count
  count_outside zero h = refl
  count_outside (suc n) h = ground (arith, changed n, count_outside n)

  -- Writing one bit changes the count by what the bit changes.
  pub count_write : (n : ℕ) → i < n → count n g + bit_value (f i) ≡ count n f + bit_value bit
  unfolding count
  count_write zero h = absurd (omega arith)
  count_write (suc n) h = elim (Bool-cases (i == n)) [
    | inl e ↦ ground (arith, changed n, count_outside n)
    | inr e ↦ ground (arith, changed n, count_write n)
  ]
