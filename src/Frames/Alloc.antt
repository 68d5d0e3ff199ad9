-- ===== src/Frames/Alloc.antt =====
-- `get_frame` and `vacate_frame` of ksrc/memory.c: which frame, and what else changes.
use yalnix_os.Common.{
  ℕ, ◌+◌, ◌-◌, ◌≤◌, ◌<◌, ◌≡◌, refl, sym, ◌/◌, ◌↔◌, Bool-cases, inl, inr, Bool, true, false, arith,
  leb, ◌==◌, if◌then◌else◌, length-replicate,
}
use yalnix_os.Common.Int.{pos, minus_one}
use yalnix_os.Frames.{
  FreeFrame, get_bit, cell_size, free_frame_init, vacate_frame, take_frame, get_frame, frames_left,
}
use yalnix_os.Frames.Bits.{get_bit_zero, AreBytes-replicate}
use yalnix_os.Frames.Count.{count-le, count_zero}
use yalnix_os.Frames.Inv.{
  taken, InRange, IsValid, avail_free, written, recounted, take_frame-IsValid, vacate_frame-IsValid,
}

-- From `f` to `g` exactly the frame `pfn` changes, to `bit`.
pub record Marks (base : ℕ) (f g : FreeFrame) (pfn : ℕ) (bit : Bool) : Type 0 where
  pub size : g.size ≡ f.size
  pub frames : (q : ℕ) → base ≤ q → taken base g q ≡ (if pfn == q then bit else taken base f q)

module _ (base : ℕ) where
  -- The allocator that `KernelStart` sets up is valid, and every frame is left.
  pub free_frame_init-IsValid :
      (frames : ℕ)
      → IsValid base (free_frame_init base frames)
        × (frames_left (free_frame_init base frames) ≡ frames)
  unfolding free_frame_init frames_left
  free_frame_init-IsValid frames = (
    record {
      storage = length-replicate (frames / cell_size + 1) 0;
      bytes = AreBytes-replicate (frames / cell_size + 1);
      counted = sym (count_zero frames _ (get_bit_zero (frames / cell_size + 1)));
      first = record {
        low = omega arith;
        high = omega arith;
        before = λ j h. absurd (omega arith);
        next = λ h. get_bit_zero (frames / cell_size + 1) (base - base);
      };
    },
    omega arith,
  )

module _ (base : ℕ) (f : FreeFrame) where
  module _ (v : IsValid base f) where
    take_frame-Marks :
        (pfn : ℕ) → InRange base f pfn → Marks base f (take_frame base pfn f) pfn true
    unfolding take_frame
    take_frame-Marks pfn range = record {
      size = refl;
      frames = λ q h. ground (arith, written base f v pfn range true (q - base));
    }

    -- While a frame is left, `get_frame` with AUTO returns a frame of the machine that was free and
    -- marks it; it changes no other frame's mark, counts it, and keeps the invariant.
    pub get_frame_auto :
        (pfn : ℕ)
        → f.filled < f.size
        → let (g, r) = get_frame base pfn true f in
          (r ≡ pos f.avail_pfn)
          × InRange base f f.avail_pfn
          × (taken base f f.avail_pfn ≡ false)
          × Marks base f g f.avail_pfn true
          × (frames_left g + 1 ≡ frames_left f)
          × IsValid base g
    unfolding get_frame frames_left
    get_frame_auto pfn left =
        let (range, free) = avail_free base f v left in
        let open_test : leb f.size f.filled ≡ false = ground arith in
        rw open_test (
          refl,
          range,
          free,
          take_frame-Marks f.avail_pfn range,
          omega arith,
          take_frame-IsValid base f v f.avail_pfn range free,
        )

    -- While a frame is left, `get_frame` with FIXED returns the frame asked for, if it is a free
    -- frame of the machine: it marks it and no other, counts it, and keeps the invariant.
    pub get_frame_fixed :
        (pfn : ℕ)
        → f.filled < f.size
        → InRange base f pfn
        → taken base f pfn ≡ false
        → let (g, r) = get_frame base pfn false f in
          (r ≡ pos pfn)
          × Marks base f g pfn true
          × (frames_left g + 1 ≡ frames_left f)
          × IsValid base g
    unfolding get_frame frames_left
    get_frame_fixed pfn left range free =
        let open_test : leb f.size f.filled ≡ false = ground arith in
        rw open_test (
          refl,
          take_frame-Marks pfn range,
          omega arith,
          take_frame-IsValid base f v pfn range free,
        )

    -- `get_frame` fails exactly when every frame of the machine is taken, and then changes nothing.
    pub get_frame_error :
        (pfn : ℕ) (auto_assign : Bool)
        → let (g, r) = get_frame base pfn auto_assign f in
          ((r ≡ minus_one) ↔ (frames_left f ≡ 0)) × (r ≡ minus_one → g ≡ f)
    unfolding get_frame frames_left
    get_frame_error pfn auto_assign = elim (Bool-cases (leb f.size f.filled)) [
      | inl e ↦ rw e ((λ _. ground arith, λ _. refl), λ _. refl)
      | inr e ↦ rw e ((λ q. cc, λ q. absurd (ground arith)), λ q. cc)
    ]

    -- `vacate_frame` of a taken frame of the machine frees it and no other, counts it, and keeps
    -- the invariant.
    pub vacate_frame_lem :
        (pfn : ℕ)
        → InRange base f pfn
        → taken base f pfn ≡ true
        → let g = vacate_frame base pfn f in
          Marks base f g pfn false × (frames_left g ≡ frames_left f + 1) × IsValid base g
    unfolding vacate_frame frames_left
    vacate_frame_lem pfn range used = (
      record {
        size = refl;
        frames = λ q h. ground (arith, written base f v pfn range false (q - base));
      },
      ground (
        arith,
        recounted base f v pfn range false,
        count-le f.size (get_bit f.bit_vector),
        v.counted,
      ),
      vacate_frame-IsValid base f v pfn range used,
    )
