-- ===== src/Frames.antt =====
-- Physical frames: the bit vector and the allocator of ksrc/memory.c.
mod Tests
pub mod Bits
pub mod Count
pub mod Next
pub mod Inv
pub mod Alloc
use Prim.Native.Nat.{bit_and, bit_or}
use yalnix_os.Common.{
  ℕ, zero, suc, ◌+◌, ◌-◌, ◌/◌, ◌%◌, ◌^◌, List, Bool, true, false, ◌&&◌, get_or, set, ltb, leb, ◌==◌,
  if◌then◌else◌, replicate,
}
use yalnix_os.Common.Int.{ℤ, pos, minus_one}

-- CELL_SIZE, the bits of a `char`.
abbrev pub cell_size : ℕ
cell_size = 8

-- One byte of the bit vector; `offset` is below 8.
pub byte_get : ℕ → ℕ → Bool
byte_get b offset = if bit_and b (2 ^ offset) == 0 then false else true

-- `b | 1 << offset` and `b & ~(1 << offset)` on an `unsigned char`
pub byte_set : ℕ → ℕ → Bool → ℕ
byte_set b offset bit = if bit then bit_or b (2 ^ offset) else bit_and b (255 - 2 ^ offset)

unfoldable pub get_bit : List ℕ → ℕ → Bool
unfolding byte_get
get_bit bit_array index = byte_get (get_or bit_array (index / cell_size) 0) (index % cell_size)

unfoldable pub set_bit : List ℕ → ℕ → Bool → List ℕ
unfolding byte_set
set_bit bit_array index bit =
    let cell = index / cell_size in
    set bit_array cell (byte_set (get_or bit_array cell 0) (index % cell_size) bit)

-- `free_frame_t`
pub record FreeFrame : Type 0 where
  pub size : ℕ
  pub bit_vector : List ℕ
  pub avail_pfn : ℕ
  pub filled : ℕ

-- `base` is BASE_FRAME, the number of the first frame: `hardware.h` fixes it, not this program.
-- `-` is not truncated where frame numbers are at least `base`. get_frame chooses such ones; for the
-- pages that the boot asks frames for by number, the constants of the machine see to it.
module _ (base : ℕ) where
  -- The fields as `KernelStart` sets them.
  pub free_frame_init : ℕ → FreeFrame
  free_frame_init frames = record {
    size = frames;
    bit_vector = replicate (frames / cell_size + 1) 0;
    avail_pfn = base;
    filled = 0;
  }

  unfoldable pub vacate_frame : ℕ → FreeFrame → FreeFrame
  unfolding set_bit
  vacate_frame pfn f = record f {
    bit_vector = set_bit f.bit_vector (pfn - base) false;
    filled = f.filled - 1;
    avail_pfn = if ltb pfn f.avail_pfn then pfn else f.avail_pfn;
  }

  -- The search for the next free frame in `get_frame`, on fuel.
  pub next_free : ℕ → List ℕ → ℕ → ℕ → ℕ
  next_free zero bits size next_pfn = next_pfn
  next_free (suc k) bits size next_pfn =
      let rest = next_free k bits size (next_pfn + 1) in
      if get_bit bits (next_pfn - base) && ltb (next_pfn - base) size then rest else next_pfn

  -- The part of `get_frame` behind the check, for the frame `pfn`.
  pub take_frame : ℕ → FreeFrame → FreeFrame
  take_frame pfn f =
      let bits = set_bit f.bit_vector (pfn - base) true in
      record f {
        bit_vector = bits;
        filled = f.filled + 1;
        avail_pfn =
            if pfn == f.avail_pfn then next_free (f.size + 1) bits f.size pfn else f.avail_pfn;
      }

  -- The frame, or ERROR when none is left; the caller's `pfn` counts only without `auto_assign`.
  unfoldable pub get_frame : ℕ → Bool → FreeFrame → FreeFrame × ℤ
  unfolding take_frame
  get_frame pfn auto_assign f =
      let frame = if auto_assign then f.avail_pfn else pfn in
      if leb f.size f.filled then (f, minus_one) else (take_frame frame f, pos frame)

unfoldable pub frames_left : FreeFrame → ℕ
frames_left f = f.size - f.filled
