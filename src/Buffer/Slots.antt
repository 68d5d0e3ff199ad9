-- ===== src/Buffer/Slots.antt =====
-- The bytes in a run of slots of a circular array, and what the copy loops do to them.
use yalnix_os.Common.{
  ℕ, zero, suc, ◌+◌, ◌%◌, ◌≤◌, ◌<◌, ◌≡◌, refl, ap, sym, ◌∙◌, ◌≢◌, List, [], ◌∷◌, ◌++◌, arith,
  length, get_or, set, length-set, get_or-set_self, get_or-set_ne,
}
use mathlib.Core.Path.{ap₂}
use mathlib.Core.List.{append-nil, append_assoc}
use native.Mathlib.Nat.{mod-add-mod, mod-lt, mod-mod, div-add-mod, zero-add, add-zero, suc-add}
use yalnix_os.Buffer.{Memory, copy_in, copy_out}

-- The bytes of slots i, i + 1, …, i + n - 1, going round at `size`.
abbrev pub slots : List ℕ → ℕ → ℕ → ℕ → List ℕ
slots buf size i zero = []
slots buf size i (suc n) = get_or buf (i % size) 0 ∷ slots buf size (i + 1) n

-- The bytes src[i], …, src[i + n - 1].
abbrev pub bytes : Memory → ℕ → ℕ → List ℕ
bytes src i zero = []
bytes src i (suc n) = src i ∷ bytes src (i + 1) n

pub length-slots : (buf : List ℕ) (size i n : ℕ) → length (slots buf size i n) ≡ n
length-slots buf size i zero = refl
length-slots buf size i (suc n) = ap suc (length-slots buf size (i + 1) n)

pub length-bytes : (src : Memory) (i n : ℕ) → length (bytes src i n) ≡ n
length-bytes src i zero = refl
length-bytes src i (suc n) = ap suc (length-bytes src (i + 1) n)

-- Two indices less than `size` apart are different slots.
mod-ne : (a b size : ℕ) → a < b → b < a + size → b % size ≢ a % size
mod-ne a b size h k e = grind (arith, div-add-mod a size, div-add-mod b size)

slots-set :
    (buf : List ℕ) (size i n k v : ℕ)
    → i + n ≤ k
    → k < i + size
    → slots (set buf (k % size) v) size i n ≡ slots buf size i n
slots-set buf size i zero k v h p = refl
slots-set buf size i (suc n) k v h p =
    ap₂ ◌∷◌ (get_or-set_ne buf (k % size) (i % size) v 0 (mod-ne i k size (omega arith) p))
      (slots-set buf size (i + 1) n k v (omega arith) (omega arith))

add_one-add : (i m : ℕ) → i + 1 + m ≡ i + suc m
add_one-add i m = omega arith

pub slots-append :
    (buf : List ℕ) (size i m n : ℕ)
    → slots buf size i (m + n) ≡ slots buf size i m ++ slots buf size (i + m) n
slots-append buf size i zero n = rw (zero-add, add-zero)
slots-append buf size i (suc m) n =
    rw (suc-add, ← add_one-add i m)
      (ap (λ t. get_or buf (i % size) 0 ∷ t) (slots-append buf size (i + 1) m n))

pub slots-mod : (buf : List ℕ) (size i n : ℕ) → slots buf size (i % size) n ≡ slots buf size i n
slots-mod buf size i zero = refl
slots-mod buf size i (suc n) = ap₂ ◌∷◌ (ap (λ k. get_or buf k 0) (mod-mod i size)) (
    sym (slots-mod buf size (i % size + 1) n)
    ∙ ap (λ k. slots buf size k n) (mod-add-mod i size 1)
    ∙ slots-mod buf size (i + 1) n)

pub length-copy_in :
    (k i tail size : ℕ) (src : Memory) (buf : List ℕ)
    → length (copy_in k i tail size src buf) ≡ length buf
unfolding copy_in
length-copy_in zero i tail size src buf = refl
length-copy_in (suc k) i tail size src buf =
    length-copy_in k (i + 1) tail size src _ ∙ length-set buf _ _

pub copy_out-slots :
    (k i head size : ℕ) (buf : List ℕ) → copy_out k i head size buf ≡ slots buf size (head + i) k
unfolding copy_out
copy_out-slots zero i head size buf = refl
copy_out-slots (suc k) i head size buf =
    ap₂ ◌∷◌ refl
      (copy_out-slots k (i + 1) head size buf ∙ ap (λ j. slots buf size j k) (omega arith))

-- What the loop of `write_buffer` appends to a run of `f + i` slots that ends at `tail + i`.
pub copy_in-slots :
    (k i tail size : ℕ) (src : Memory) (buf : List ℕ) (h f : ℕ)
    → length buf ≡ size
    → 0 < size
    → tail ≡ (h + f) % size
    → f + i + k ≤ size
    → slots (copy_in k i tail size src buf) size h (f + i + k)
      ≡ slots buf size h (f + i) ++ bytes src i k
unfolding copy_in
copy_in-slots zero i tail size src buf h f l p e fits = rw (append-nil, add-zero)
copy_in-slots (suc k) i tail size src buf h f l p e fits =
    ap (λ n. slots (copy_in (suc k) i tail size src buf) size h n) (omega arith)
    ∙ copy_in-slots k (i + 1) tail size src _ h f (length-set buf _ _ ∙ l) p e (omega arith)
    ∙ ap (λ q. q ++ bytes src (i + 1) k) one
    ∙ append_assoc (slots buf size h (f + i)) (src i ∷ []) (bytes src (i + 1) k)
  where
    place : (tail + i) % size ≡ (h + (f + i)) % size
    place = rw (e, mod-add-mod) (ap (λ n. n % size) (omega arith))

    one :
        slots (set buf ((tail + i) % size) (src i)) size h (f + (i + 1))
        ≡ slots buf size h (f + i) ++ (src i ∷ [])
    one =
        ap (λ n. slots (set buf ((tail + i) % size) (src i)) size h n) (omega arith)
        ∙ slots-append _ size h (f + i) 1
        ∙ ap₂ ◌++◌
            (ap (λ n. slots (set buf n (src i)) size h (f + i)) place
              ∙ slots-set buf size h (f + i) (h + (f + i)) (src i) (omega arith) (omega arith))
            (ap (λ n. get_or (set buf n (src i)) ((h + (f + i)) % size) 0 ∷ []) place
              ∙ ap (λ v. v ∷ [])
                  (get_or-set_self buf _ (src i) 0 (omega (arith, l, mod-lt (h + (f + i)) p))))
