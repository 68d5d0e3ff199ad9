-- ===== src/Frames/Bits.antt =====
-- Reading a bit of the vector after writing one.
use yalnix_os.Common.{
  ℕ, zero, suc, ◌/◌, ◌%◌, ◌<◌, ◌≡◌, refl, ap, ◌∙◌, List, [], ◌∷◌, arith, Bool, true, false, ◌&&◌,
  ltb, ◌==◌, if◌then◌else◌, length, get_or, set, Bool-cases, inl, inr, replicate, ◌^◌, length-set,
  get_or-set_self, get_or-set_ne, ==_ne, ==_iff, ltb→lt,
}
use Prim.Native.Nat.{bit_and, bit_and-bitwise}
use mathlib.Core.Bool.{xor, not}
use yalnix_os.Frames.{byte_get, byte_set, get_bit, set_bit}

-- Every cell is a byte.
abbrev pub AreBytes : List ℕ → Type 0
AreBytes [] = Unit
AreBytes (b ∷ bs) = (b < 256) × AreBytes bs

get_or-byte : (bs : List ℕ) (c : ℕ) → AreBytes bs → get_or bs c 0 < 256
get_or-byte [] c h = omega arith
get_or-byte (b ∷ bs) zero h = h.0
get_or-byte (b ∷ bs) (suc c) h = get_or-byte bs c h.1

AreBytes-set : (bs : List ℕ) (c v : ℕ) → AreBytes bs → v < 256 → AreBytes (set bs c v)
AreBytes-set [] c v h p = tt
AreBytes-set (b ∷ bs) zero v h p = (p, h.1)
AreBytes-set (b ∷ bs) (suc c) v h p = (h.0, AreBytes-set bs c v h.1 p)

-- A byte and two offsets, checked for all their values.
every : (bound : ℕ) → (ℕ → Bool) → Bool
every zero holds = true
every (suc k) holds = elim (holds k) [ true ↦ every k holds | false ↦ false ]

every-below :
    (bound : ℕ) (holds : ℕ → Bool) → every bound holds ≡ true → (v : ℕ) → v < bound → holds v ≡ true
unfolding every
every-below zero holds ok v below = absurd (omega arith)
every-below (suc k) holds ok v below = elim (Bool-cases (v == k)) [
  | inl last ↦ ground arith
  | inr earlier ↦ every-below k holds (ground arith) v (ground arith)
]

same : Bool → Bool → Bool
same a b = not (xor a b)

eq_of_same : (a b : Bool) → same a b ≡ true → a ≡ b
unfolding same xor
eq_of_same a b h = ground arith

check : ℕ → Bool → ℕ → ℕ → Bool
check b bit i j = same (byte_get (byte_set b i bit) j) (if i == j then bit else byte_get b j)

table : Bool → Bool
table bit = every 256 (λ b. every 8 (λ i. ltb (byte_set b i bit) 256 && every 8 (check b bit i)))

set_table : table true ≡ true
unfolding table every check same byte_get byte_set xor
set_table = refl

clear_table : table false ≡ true
unfolding table every check same byte_get byte_set xor
clear_table = refl

table_all : (bit : Bool) → table bit ≡ true
table_all true = set_table
table_all false = clear_table

and_left : (a b : Bool) → (a && b) ≡ true → a ≡ true
and_left a b h = ground arith

and_right : (a b : Bool) → (a && b) ≡ true → b ≡ true
and_right a b h = ground arith

module _ (b : ℕ) (bit : Bool) (i : ℕ) (small : b < 256) (off : i < 8) where
  table_row : (ltb (byte_set b i bit) 256 && every 8 (check b bit i)) ≡ true
  unfolding table
  table_row = every-below 8 _ (every-below 256 _ (table_all bit) b small) i off

  byte_set-lt : byte_set b i bit < 256
  byte_set-lt = ltb→lt _ 256 (and_left _ _ table_row)

  byte_get-byte_set :
      (j : ℕ) → j < 8 → byte_get (byte_set b i bit) j ≡ (if i == j then bit else byte_get b j)
  unfolding check
  byte_get-byte_set j h =
      eq_of_same _ _ (every-below 8 (check b bit i) (and_right _ _ table_row) j h)

module _ (bits : List ℕ) (i : ℕ) (bit : Bool) (bytes : AreBytes bits) where
  -- Writing a bit keeps the cells bytes.
  pub set_bit-AreBytes : AreBytes (set_bit bits i bit)
  unfolding set_bit
  set_bit-AreBytes =
      AreBytes-set bits (i / 8) _ bytes
        (byte_set-lt _ bit (i % 8) (get_or-byte bits (i / 8) bytes) (omega arith))

  pub length-set_bit : length (set_bit bits i bit) ≡ length bits
  unfolding set_bit
  length-set_bit = length-set bits _ _

  -- A bit that lies in the vector reads as it was written, and the others as before.
  pub get_bit-set_bit :
      (j : ℕ)
      → i / 8 < length bits
      → get_bit (set_bit bits i bit) j ≡ (if i == j then bit else get_bit bits j)
  unfolding get_bit set_bit
  get_bit-set_bit j inside = elim (Bool-cases (i / 8 == j / 8)) [
    | inl e ↦
        let e' : i / 8 ≡ j / 8 = (==_iff _ _).0 e in
        rw (← e') (
          rw (get_or-set_self bits (i / 8) (byte_set (get_or bits (i / 8) 0) (i % 8) bit) 0 inside)
            (byte_get-byte_set _ bit (i % 8) (get_or-byte bits (i / 8) bytes) (omega arith) (j % 8)
                (omega arith)
              ∙ ap (λ t. if t then bit else byte_get (get_or bits (i / 8) 0) (j % 8))
                  (low_bits e')))
    | inr e ↦
        rw
          (get_or-set_ne bits (i / 8) (j / 8) (byte_set (get_or bits (i / 8) 0) (i % 8) bit) 0
            (λ q. ground arith))
          (rw (==_ne i j (λ q. ground arith)))
  ]
    where
      low_bits : i / 8 ≡ j / 8 → (i % 8 == j % 8) ≡ (i == j)
      low_bits q = ground arith

no_bits : (mask : ℕ) → bit_and 0 mask ≡ 0
no_bits mask = bit_and-bitwise 0 mask

get_or-replicate_zero : (n c : ℕ) → ◌≡◌ {A = ℕ} (get_or (replicate n 0) c 0) 0
get_or-replicate_zero zero c = refl
get_or-replicate_zero (suc n) zero = refl
get_or-replicate_zero (suc n) (suc c) = get_or-replicate_zero n c

-- A cleared vector has no bit set.
pub get_bit_zero : (n i : ℕ) → get_bit (replicate n 0) i ≡ false
unfolding get_bit byte_get
get_bit_zero n i = rw (get_or-replicate_zero n (i / 8), no_bits (2 ^ (i % 8)))

pub AreBytes-replicate : (n : ℕ) → AreBytes (replicate n 0)
AreBytes-replicate zero = tt
AreBytes-replicate (suc n) = (omega arith, AreBytes-replicate n)
