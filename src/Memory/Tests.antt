-- ===== src/Memory/Tests.antt =====
-- A small machine with pages of 16 bytes and a process on it, and the theorems there.

use yalnix_os.Common.{[], ℕ, ◌+◌, ◌-◌, ◌<◌, ◌≡◌, ◌↔◌, ◌&&◌, ◌==◌, refl, true, arith}
use yalnix_os.Common.Int.{pos}
use yalnix_os.Frames.{free_frame_init, frames_left}
use yalnix_os.Frames.Alloc.{free_frame_init-IsValid}
use yalnix_os.Memory.{UserPt, Mem, kernel_user_brk, read_write, destroy_usermem}
use yalnix_os.Memory.Samples.{no_pages, small}
use yalnix_os.Memory.Tables.{grow_stack, copy_user_mem}
use yalnix_os.Memory.Tables.Stack.{grow_stack_lem}
use yalnix_os.Memory.Owns.{Owns}
use yalnix_os.Memory.Brk.{raise_brk_lem, lower_brk_lem, same_brk_lem, Answers, brk_result}
use yalnix_os.Memory.Loops.{Changes, IsMapped, IsUnmapped}
use yalnix_os.Memory.Isolation.{destroy_usermem-Spares}
use yalnix_os.Memory.Tables.Fresh.{Disjoint}
use yalnix_os.Memory.Tables.Copy.{copy_user_mem_lem}
use yalnix_os.Memory.Destroy.{in_use_le, Cleared, in_use, destroy_usermem_lem}
use yalnix_os.Memory.Checks.{
  add_word, in_region_1, pte_of, check_addr, check_buffer, check_addr_lem, check_buffer_iff,
}
use yalnix_os.Memory.Checks
use yalnix_os.Memory.Strings.{EndsWithin, check_string_iff}

abbrev process : UserPt
process = record { data_end = 64; brk = 80; stack_low = 128; pt = no_pages; size = 1 }

abbrev at_boot : Mem
at_boot = record {
  free_frame = free_frame_init 2 11;
  kernel_pt = no_pages;
  kernel_brk = 32;
  flushed = [];
}

at_boot-Owns : Owns 2 no_pages (free_frame_init 2 11)
at_boot-Owns = record {
  allocator = (free_frame_init-IsValid 2 11).0;
  holds = λ i v. cc;
  distinct = λ i j v w e. cc;
}

raise_brk_lem_example :
    let (u, s, result) = kernel_user_brk small 100 process at_boot in
    (result ≡ pos 0)
    × (u.brk ≡ 112)
    × (u.size + 5 ≡ 8)
    × (frames_left s.free_frame + 7 ≡ frames_left at_boot.free_frame + 5)
    × Changes small (IsMapped (read_write small)) 5 7 no_pages u.pt
    × Owns 2 u.pt s.free_frame
raise_brk_lem_example =
    let fresh = (free_frame_init-IsValid 2 11).1 in
    raise_brk_lem small 100 process at_boot (omega arith) at_boot-Owns (omega arith) (omega arith)
      (omega arith) (omega arith) refl (omega arith) (omega arith)

-- The address 100 lies two pages below the stack.
grow_stack_lem_example :
    let (u, s, grown) = grow_stack small 100 process at_boot in
    (grown ≡ true)
    × (u.stack_low ≡ 96)
    × (u.size + 6 ≡ 9)
    × (frames_left s.free_frame + 8 ≡ frames_left at_boot.free_frame + 6)
    × Changes small (IsMapped (read_write small)) 6 8 no_pages u.pt
    × Owns 2 u.pt s.free_frame
grow_stack_lem_example =
    let fresh = (free_frame_init-IsValid 2 11).1 in
    grow_stack_lem small 100 process at_boot at_boot-Owns (omega arith) (omega arith) (omega arith)

abbrev after : Mem
after = (kernel_user_brk small 100 process at_boot).1

-- The process once its break is raised.
abbrev raised : UserPt
raised = record {
  data_end = 64;
  brk = 112;
  stack_low = 128;
  pt = (kernel_user_brk small 100 process at_boot).0.pt;
  size = 3;
}

lower_brk_lem_example :
    let (u, s, result) = kernel_user_brk small 80 raised after in
    (result ≡ pos 0)
    × (u.brk ≡ 80)
    × (u.size + 7 ≡ 8)
    × (frames_left s.free_frame + 5 ≡ frames_left after.free_frame + 7)
    × Changes small IsUnmapped 5 7 raised.pt u.pt
    × Owns 2 u.pt s.free_frame
lower_brk_lem_example =
    let (_, _, _, _, changed, owned) = raise_brk_lem_example in
    lower_brk_lem small 80 raised after (omega arith) owned (omega arith) (omega arith)
      (omega arith) (omega arith) refl (omega arith) (omega arith)
      (λ v a b. (changed.inside v a b).0)

-- The break 70 is on the page of the break 80.
same_brk_lem_example :
    kernel_user_brk small 70 process at_boot ≡ (record process { brk = 80 }, at_boot, pos 0)
same_brk_lem_example =
    same_brk_lem small 70 process at_boot (omega arith) at_boot-Owns (omega arith) (omega arith)
      (omega arith) (omega arith) refl (omega arith)

-- With one frame left, the two pages up to 100 are one too many.
abbrev scarce : Mem
scarce = record at_boot { free_frame = free_frame_init 2 1 }

brk_result_example : Answers small 100 process scarce (kernel_user_brk small 100 process scarce)
brk_result_example =
    brk_result small 100 process scarce (omega arith) (omega arith) (omega arith) (omega arith)
      (omega arith) (λ low. omega arith)

destroy_usermem_lem_example :
    let (u, f) = destroy_usermem small raised after.free_frame in
    Cleared 4 0 raised.pt u.pt
    × (frames_left f ≡ frames_left after.free_frame + in_use 4 0 raised.pt)
    × Owns 2 u.pt f
destroy_usermem_lem_example =
    let (_, _, _, _, _, owned) = raise_brk_lem_example in
    destroy_usermem_lem small raised after.free_frame owned

-- The raised process has a child, and ends.
abbrev forked : UserPt × Mem
forked = copy_user_mem small raised (record process { pt = no_pages }) after

destroy_usermem-Spares_example :
    let (u, f) = destroy_usermem small raised forked.1.free_frame in
    Owns 2 forked.0.pt f × Disjoint u.pt forked.0.pt
destroy_usermem-Spares_example =
    let (_, _, _, counted, changed, owned) = raise_brk_lem_example in
    let fresh = (free_frame_init-IsValid 2 11).1 in
    let (_, _, _, child, others) =
      copy_user_mem_lem small raised (record process { pt = no_pages }) after owned.allocator
        (λ j. refl) (omega (arith, in_use_le 4 0 raised.pt)) in
    let apart = others raised.pt owned in
    destroy_usermem-Spares small raised forked.0.pt forked.1.free_frame apart.old child
      apart.disjoint

-- One page of region 1, which the process may only read.
abbrev read_only : UserPt
read_only = record process { pt = λ i. record { valid = i == 0; pfn = pos 2; prot = 1 } }

-- Even for a write the page passes.
check_addr_lem_example :
    check_addr small 70 2 read_only ≡ (in_region_1 small 70 && (pte_of small 70 read_only).valid)
check_addr_lem_example = check_addr_lem small 70 2 read_only (omega arith)

-- The buffer runs over the end of the page.
check_buffer_iff_example :
    (check_buffer small (pos 20) 70 1 read_only ≡ true)
    ↔ ((j : ℕ) → j < 20 → check_addr small (add_word 70 j) 1 read_only ≡ true)
check_buffer_iff_example = check_buffer_iff small 20 70 1 read_only

check_string_iff_example :
    (Checks.check_string small (λ a. 80 - a) 70 read_only ≡ true)
    ↔ EndsWithin small (λ a. 80 - a) 70 read_only Checks.max_check 0
check_string_iff_example = check_string_iff small (λ a. 80 - a) 70 read_only
