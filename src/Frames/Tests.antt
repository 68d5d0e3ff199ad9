-- ===== src/Frames/Tests.antt =====
-- The frame allocator on a machine of eleven frames, and the theorems at that machine.
use yalnix_os.Common.{◌+◌, ◌≡◌, refl, true, false, arith}
use yalnix_os.Common.Int.{pos}
use yalnix_os.Frames.{
  FreeFrame, get_bit, set_bit, free_frame_init, vacate_frame, get_frame, next_free, frames_left,
}
use yalnix_os.Frames.Inv.{taken, InRange, IsValid}
use yalnix_os.Frames.Alloc.{
  Marks, free_frame_init-IsValid, get_frame_auto, get_frame_fixed, vacate_frame_lem,
}

abbrev start : FreeFrame
start = free_frame_init 2 11

-- Frame 3 is taken out of turn, then the lowest two: the second skips frame 3.
skips : (get_frame 2 0 true (get_frame 2 0 true (get_frame 2 3 false start).0).0).1 ≡ pos 4
unfolding get_frame get_bit set_bit free_frame_init next_free
skips = refl

start-IsValid : IsValid 2 start
start-IsValid = (free_frame_init-IsValid 2 11).0

get_frame_auto_example :
    let (g, r) = get_frame 2 0 true start in
    (r ≡ pos start.avail_pfn)
    × InRange 2 start start.avail_pfn
    × (taken 2 start start.avail_pfn ≡ false)
    × Marks 2 start g start.avail_pfn true
    × (frames_left g + 1 ≡ frames_left start)
    × IsValid 2 g
unfolding free_frame_init
get_frame_auto_example = get_frame_auto 2 start start-IsValid 0 (omega arith)

abbrev one_taken : FreeFrame
one_taken = (get_frame 2 3 false start).0

-- Frame 3 of the fresh machine, asked for by its number.
one_taken-IsValid : IsValid 2 one_taken
unfolding free_frame_init get_bit
one_taken-IsValid =
    (get_frame_fixed 2 start start-IsValid 3 (omega arith) (omega arith, omega arith) refl).3

vacate_frame_lem_example :
    let g = vacate_frame 2 3 one_taken in
    Marks 2 one_taken g 3 false × (frames_left g ≡ frames_left one_taken + 1) × IsValid 2 g
unfolding get_frame free_frame_init get_bit set_bit
vacate_frame_lem_example =
    vacate_frame_lem 2 one_taken one_taken-IsValid 3 (omega arith, omega arith) refl
