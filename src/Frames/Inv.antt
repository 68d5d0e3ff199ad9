-- ===== src/Frames/Inv.antt =====
-- What the frame allocator of ksrc/memory.c keeps true, and what its operations do.

use yalnix_os.Common.{
  ℕ, ◌+◌, ◌-◌, ◌/◌, ◌≤◌, ◌<◌, ◌≡◌, ◌∙◌, ◌≢◌, Bool, true, false, arith, ltb, ◌==◌, if◌then◌else◌,
  length, Bool-cases, inl, inr,
}
use yalnix_os.Frames.{FreeFrame, get_bit, set_bit, cell_size, vacate_frame, take_frame, next_free}
use yalnix_os.Frames.Bits.{AreBytes, set_bit-AreBytes, length-set_bit, get_bit-set_bit}
use yalnix_os.Frames.Count.{count, bit_value, count_free, count_write}
use yalnix_os.Frames.Next.{next_free-IsNext, IsFirstFree}

-- The frame `pfn` is marked as taken.
abbrev pub taken : ℕ → FreeFrame → ℕ → Bool
taken base f pfn = get_bit f.bit_vector (pfn - base)

-- A frame of the machine.
abbrev pub InRange : ℕ → FreeFrame → ℕ → Type 0
InRange base f pfn = (base ≤ pfn) × (pfn < base + f.size)

pub record IsValid (base : ℕ) (f : FreeFrame) : Type 0 where
  pub storage : length f.bit_vector ≡ f.size / cell_size + 1
  pub bytes : AreBytes f.bit_vector
  pub counted : f.filled ≡ count f.size (get_bit f.bit_vector)
  pub first : IsFirstFree base f.bit_vector f.size f.avail_pfn

module _ (base : ℕ) (f : FreeFrame) (v : IsValid base f) where
  open v use {storage, bytes, counted, first}
  open first use {low, high, before, next}

  -- While a frame is left, `avail_pfn` is a free one.
  pub avail_free :
      f.filled < f.size → InRange base f f.avail_pfn × (taken base f f.avail_pfn ≡ false)
  avail_free left =
      let (i, below, free) = count_free f.size (get_bit f.bit_vector) (omega (arith, counted)) in
      let near : f.avail_pfn < base + f.size = elim (Bool-cases (ltb (i + base) f.avail_pfn)) [
        | inl h ↦ ground (arith, before i)
        | inr h ↦ ground arith
      ] in
      ((low, near), next near)

  module _ (pfn : ℕ) (range : InRange base f pfn) where
    -- A frame's bit, once written, is what was written; no other frame's bit changes.
    pub written :
        (bit : Bool) (j : ℕ)
        → get_bit (set_bit f.bit_vector (pfn - base) bit) j
          ≡ (if pfn - base == j then bit else get_bit f.bit_vector j)
    written bit j = get_bit-set_bit f.bit_vector (pfn - base) bit bytes j (omega arith)

    pub recounted :
        (bit : Bool)
        → count f.size (get_bit (set_bit f.bit_vector (pfn - base) bit))
            + bit_value (taken base f pfn)
          ≡ count f.size (get_bit f.bit_vector) + bit_value bit
    recounted bit =
        count_write (get_bit f.bit_vector) (get_bit (set_bit f.bit_vector (pfn - base) bit))
          (pfn - base) bit (written bit) f.size (omega arith)

    next_taken :
        pfn ≡ f.avail_pfn
        → IsFirstFree base
            (set_bit f.bit_vector (pfn - base) true)
            f.size
            (next_free base (f.size + 1) (set_bit f.bit_vector (pfn - base) true) f.size pfn)
    next_taken same =
        let bits = set_bit f.bit_vector (pfn - base) true in
        let r =
          next_free-IsNext base bits f.size (f.size + 1) pfn (range.0) (omega arith)
            (omega arith) in
        record {
          low = omega (arith, r.from);
          high = r.within;
          before = λ j h. elim (Bool-cases (ltb (j + base) pfn)) [
            | inl b ↦ ground (arith, written true j, before j)
            | inr b ↦ r.taken j (ground arith) h
          ];
          next = r.free;
        }

    other_taken :
        taken base f pfn ≡ false
        → pfn ≢ f.avail_pfn
        → IsFirstFree base (set_bit f.bit_vector (pfn - base) true) f.size f.avail_pfn
    other_taken free ne = record {
      low = low;
      high = high;
      before = λ j h. ground (arith, written true j, before j h);
      next = λ h. ground (arith, written true (f.avail_pfn - base), next h);
    }

    first_taken :
        taken base f pfn ≡ false
        → IsFirstFree base (set_bit f.bit_vector (pfn - base) true) f.size (
            if pfn == f.avail_pfn
            then next_free base (f.size + 1) (set_bit f.bit_vector (pfn - base) true) f.size pfn
            else f.avail_pfn)
    first_taken free = elim (Bool-cases (pfn == f.avail_pfn)) [
      | inl e ↦ rw e (next_taken (ground arith))
      | inr e ↦ rw e (other_taken free (ground arith))
    ]

    pub take_frame-IsValid : taken base f pfn ≡ false → IsValid base (take_frame base pfn f)
    unfolding take_frame
    take_frame-IsValid free = record {
      storage = length-set_bit f.bit_vector (pfn - base) true bytes ∙ storage;
      bytes = set_bit-AreBytes f.bit_vector (pfn - base) true bytes;
      counted = ground (arith, recounted true);
      first = first_taken free;
    }

    first_vacated :
        IsFirstFree base
          (set_bit f.bit_vector (pfn - base) false)
          f.size
          (if ltb pfn f.avail_pfn then pfn else f.avail_pfn)
    first_vacated = elim (Bool-cases (ltb pfn f.avail_pfn)) [
      | inl e ↦ rw e (record {
        low = range.0;
        high = omega (arith, range.1);
        before = λ j h. ground (arith, written false j, before j);
        next = λ h. ground (arith, written false (pfn - base));
      })
      | inr e ↦ rw e (record {
        low = low;
        high = high;
        before = λ j h. ground (arith, written false j, before j);
        next = λ h. ground (arith, written false (f.avail_pfn - base), next h);
      })
    ]

    pub vacate_frame-IsValid : taken base f pfn ≡ true → IsValid base (vacate_frame base pfn f)
    unfolding vacate_frame
    vacate_frame-IsValid used = record {
      storage = length-set_bit f.bit_vector (pfn - base) false bytes ∙ storage;
      bytes = set_bit-AreBytes f.bit_vector (pfn - base) false bytes;
      counted = ground (arith, recounted false);
      first = first_vacated;
    }
