-- ===== src/Common/Int.antt =====
-- C's `int` where it may be negative.
use native.Mathlib.Numerals.{add-one}
use yalnix_os.Common.{
  ℕ, zero, suc, ◌+◌, ◌-◌, ◌≡◌, refl, ◌↔◌, Bool, true, false, arith, ◌==◌, leb, if◌then◌else◌,
}

-- `negsuc n` is -(n + 1).
pub data ℤ : Type 0 where
  pos : ℕ → ℤ
  negsuc : ℕ → ℤ

abbrev pub eqb_ℤ : ℤ → ℤ → Bool
eqb_ℤ (pos a) (pos b) = a == b
eqb_ℤ (pos a) (negsuc b) = false
eqb_ℤ (negsuc a) (pos b) = false
eqb_ℤ (negsuc a) (negsuc b) = a == b

-- ERROR of ykernel.h is -1.
abbrev pub minus_one : ℤ
minus_one = negsuc 0

pub eqb_ℤ_iff : (a b : ℤ) → (eqb_ℤ a b ≡ true) ↔ (a ≡ b)
eqb_ℤ_iff (pos a) (pos b) = ground arith
eqb_ℤ_iff (pos a) (negsuc b) = ground arith
eqb_ℤ_iff (negsuc a) (pos b) = ground arith
eqb_ℤ_iff (negsuc a) (negsuc b) = ground arith

-- `i - 1`
abbrev pub pred : ℤ → ℤ
pred (pos zero) = negsuc 0
pred (pos (suc n)) = pos n
pred (negsuc n) = negsuc (n + 1)

-- `i + 1`
abbrev pub incr : ℤ → ℤ
incr (pos n) = pos (n + 1)
incr (negsuc zero) = pos 0
incr (negsuc (suc n)) = negsuc n

-- a - b, as an integer.
abbrev pub sub_ℕ : ℕ → ℕ → ℤ
sub_ℕ a b = if leb b a then pos (a - b) else negsuc (b - a - 1)

infixl 65 ◌+ℤ◌
abbrev pub ◌+ℤ◌ : ℤ → ℤ → ℤ
pos a +ℤ pos b = pos (a + b)
pos a +ℤ negsuc b = sub_ℕ a (b + 1)
negsuc a +ℤ pos b = sub_ℕ b (a + 1)
negsuc a +ℤ negsuc b = negsuc (a + b + 1)

-- `i > 0`
abbrev pub is_positive : ℤ → Bool
is_positive (pos zero) = false
is_positive (pos (suc n)) = true
is_positive (negsuc n) = false

pub pred-pos : (n : ℕ) → pred (pos (n + 1)) ≡ pos n
pred-pos n = rw (add-one n) refl

pub not_positive : (n : ℕ) → is_positive (pos n) ≡ false → n ≡ 0
not_positive zero e = refl
not_positive (suc n) e = cc
