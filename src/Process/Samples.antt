-- ===== src/Process/Samples.antt =====
-- A kernel stack with a frame, for the tests.
use yalnix_os.Frames.{FreeFrame, free_frame_init, frames_left}
use yalnix_os.Frames.Inv.{IsValid}
use yalnix_os.Frames.Alloc.{free_frame_init-IsValid}
use yalnix_os.Common.{ℕ, ◌+◌, ◌≤◌, ◌≡◌, ap, ◌∙◌, true, false, arith, update, update-ne}
use yalnix_os.Common.Int.{pos}
use yalnix_os.Memory.{Pages, Pte, map_page}
use yalnix_os.Memory.Owns.{Owns, map_page_lem}
use yalnix_os.Memory.Samples.{small, no_pages}

-- The frame 2 is taken for the stack.
abbrev pub stack : Pages × FreeFrame
stack = map_page small 0 3 no_pages (free_frame_init 2 11)

-- No page of the table is valid.
pub nothing-Owns : (f : FreeFrame) → IsValid 2 f → Owns 2 no_pages f
nothing-Owns f valid = record { allocator = valid; holds = λ i v. cc; distinct = λ i j v w e. cc }

-- What taking the frame does.
taken :
    (stack.0
      ≡ update no_pages 0
          (record { valid = true; pfn = pos (free_frame_init 2 11).avail_pfn; prot = 3 }))
    × (frames_left stack.1 + 1 ≡ frames_left (free_frame_init 2 11))
    × Owns 2 stack.0 stack.1
taken =
    let (valid, left) = free_frame_init-IsValid 2 11 in
    map_page_lem small 0 no_pages (free_frame_init 2 11) (nothing-Owns _ valid) 3 (omega arith)

pub stack-Owns : Owns 2 stack.0 stack.1
stack-Owns = taken.2

pub frames_left-stack : frames_left stack.1 ≡ 10
frames_left-stack =
    let (valid, left) = free_frame_init-IsValid 2 11 in
    let (changed, fewer, owned) = taken in omega arith

pub stack_behind : (j : ℕ) → 1 ≤ j → (stack.0 j).valid ≡ false
stack_behind j low =
    ap (λ (q : Pages). (q j).valid) taken.0
    ∙ ap (λ (x : Pte). x.valid)
        (update-ne no_pages 0 j
          (record { valid = true; pfn = pos (free_frame_init 2 11).avail_pfn; prot = 3 })
          (omega arith))
