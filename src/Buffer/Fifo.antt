-- ===== src/Buffer/Fifo.antt =====
-- The buffer of ksrc/pilocvario.c as a first-in first-out queue of at most `size` bytes.
use yalnix_os.Common.{
  ℕ, ◌+◌, ◌-◌, ◌%◌, ◌≤◌, ◌<◌, min, ◌≡◌, refl, ap, sym, ◌∙◌, List, [], ◌∷◌, ◌++◌, arith, length,
  take, drop, length-replicate,
}
use native.Mathlib.Nat.{mod-add-mod, mod-lt, add-zero, zero-mod}
use yalnix_os.Buffer.{
  Buffer, Memory, copy_in, least, put_bytes, get_bytes, new_buffer, write_buffer, read_buffer,
  reset_buffer,
}
use yalnix_os.Buffer.Slots.{
  slots, bytes, length-slots, length-copy_in, copy_in-slots, copy_out-slots, slots-append,
  slots-mod,
}

-- What every operation keeps: the indices lie in the array, and `tail` is `filled` past `head`.
pub record IsValid (b : Buffer) : Type 0 where
  pub nonempty : 0 < b.size
  pub storage : length b.buffered ≡ b.size
  pub head_in : b.head < b.size
  pub fits : b.filled ≤ b.size
  pub tail_at : b.tail ≡ (b.head + b.filled) % b.size

-- The queue that a buffer holds, oldest byte first.
abbrev pub contents : Buffer → List ℕ
contents b = slots b.buffered b.size b.head b.filled

take-append_length {ℓ} : {A : Type ℓ} (xs ys : List A) → take (length xs) (xs ++ ys) ≡ xs
take-append_length [] ys = refl
take-append_length (x ∷ xs) ys = ap (λ t. x ∷ t) (take-append_length xs ys)

drop-append_length {ℓ} : {A : Type ℓ} (xs ys : List A) → drop (length xs) (xs ++ ys) ≡ ys
drop-append_length [] ys = refl
drop-append_length (x ∷ xs) ys = drop-append_length xs ys

-- A new buffer of positive size is valid and empty.
pub new_buffer-IsValid :
    (size : ℕ) → 0 < size → IsValid (new_buffer size) × (contents (new_buffer size) ≡ [])
unfolding new_buffer
new_buffer-IsValid size h = (
  record {
    nonempty = h;
    storage = length-replicate size 0;
    head_in = h;
    fits = omega arith;
    tail_at = sym (zero-mod size);
  },
  refl,
)

least-min : (a b : ℕ) → least a b ≡ min a b
unfolding least
least-min a b = ground arith

module _ {b : Buffer} (v : IsValid b) where
  open v use {nonempty, storage, head_in, fits, tail_at}

  put_bytes-IsValid : (src : Memory) (n : ℕ) → b.filled + n ≤ b.size → IsValid (put_bytes b src n)
  unfolding put_bytes
  put_bytes-IsValid src n h = record {
    nonempty = nonempty;
    storage = length-copy_in n 0 b.tail b.size src b.buffered ∙ storage;
    head_in = head_in;
    fits = h;
    tail_at = rw (tail_at, mod-add-mod) (ap (λ k. k % b.size) (omega arith));
  }

  contents-put_bytes :
      (src : Memory) (n : ℕ)
      → b.filled + n ≤ b.size
      → contents (put_bytes b src n) ≡ contents b ++ bytes src 0 n
  unfolding put_bytes
  contents-put_bytes src n h =
      let end : b.filled + 0 ≡ b.filled = add-zero b.filled in
      ap (λ k. slots (copy_in n 0 b.tail b.size src b.buffered) b.size b.head (k + n)) (sym end)
      ∙ copy_in-slots n 0 b.tail b.size src b.buffered b.head b.filled storage nonempty tail_at
          (omega arith)
      ∙ ap (λ k. slots b.buffered b.size b.head k ++ bytes src 0 n) end

  -- `write_buffer` writes as many bytes as fit, at most `len`, and says how many; it appends
  -- exactly those bytes of `src`, in order, to the queue, and keeps the invariant.
  pub write_buffer_lem :
      (src : Memory) (len : ℕ)
      → let (b', n) = write_buffer b src len in
        (n ≡ min (b.size - b.filled) len) × (contents b' ≡ contents b ++ bytes src 0 n) × IsValid b'
  unfolding write_buffer
  write_buffer_lem src len =
      let n : ℕ = least (b.size - b.filled) len in
      let e : n ≡ min (b.size - b.filled) len = least-min (b.size - b.filled) len in
      let h : b.filled + n ≤ b.size = omega (arith, e) in
      (e, contents-put_bytes src n h, put_bytes-IsValid src n h)

  get_bytes-IsValid : (n : ℕ) → n ≤ b.filled → IsValid (get_bytes b n)
  unfolding get_bytes
  get_bytes-IsValid n h = record {
    nonempty = nonempty;
    storage = storage;
    head_in = mod-lt (b.head + n) nonempty;
    fits = omega arith;
    tail_at = rw mod-add-mod (tail_at ∙ ap (λ k. k % b.size) (omega arith));
  }

  contents-split :
      (n : ℕ)
      → n ≤ b.filled
      → contents b ≡ slots b.buffered b.size b.head n ++ contents (get_bytes b n)
  unfolding get_bytes
  contents-split n h =
      ap (λ k. slots b.buffered b.size b.head k) (omega arith)
      ∙ slots-append b.buffered b.size b.head n (b.filled - n)
      ∙ ap (λ q. slots b.buffered b.size b.head n ++ q)
          (sym (slots-mod b.buffered b.size (b.head + n) (b.filled - n)))

  -- `read_buffer` reads as many bytes as there are, at most `len`, and says how many; it stores
  -- the oldest bytes of the queue, leaves the rest in order, and keeps the invariant.
  pub read_buffer_lem :
      (len : ℕ)
      → let (b', out, n) = read_buffer b len in
        (n ≡ min b.filled len)
        × (out ≡ take n (contents b))
        × (contents b' ≡ drop n (contents b))
        × IsValid b'
  unfolding read_buffer
  read_buffer_lem len =
      let n : ℕ = least b.filled len in
      let e : n ≡ min b.filled len = least-min b.filled len in
      let h : n ≤ b.filled = omega (arith, e) in
      let front : List ℕ = slots b.buffered b.size b.head n in
      let back : List ℕ = contents (get_bytes b n) in
      let size : length front ≡ n = length-slots b.buffered b.size b.head n in
      let out =
        copy_out-slots n 0 b.head b.size b.buffered
        ∙ ap (λ k. slots b.buffered b.size k n) (add-zero b.head) in
      (
        e,
        out
            ∙ sym (
                ap (λ q. take n q) (contents-split n h)
                ∙ ap (λ k. take k (front ++ back)) (sym size)
                ∙ take-append_length front back),
        sym (
            ap (λ q. drop n q) (contents-split n h)
            ∙ ap (λ k. drop k (front ++ back)) (sym size)
            ∙ drop-append_length front back),
        get_bytes-IsValid n h,
      )

  -- `reset_buffer` leaves a valid buffer that holds nothing.
  pub reset_buffer_lem : IsValid (reset_buffer b) × (contents (reset_buffer b) ≡ [])
  unfolding reset_buffer
  reset_buffer_lem = (
    record {
      nonempty = nonempty;
      storage = storage;
      head_in = nonempty;
      fits = omega arith;
      tail_at = sym (zero-mod b.size);
    },
    refl,
  )
