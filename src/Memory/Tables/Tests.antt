-- ===== src/Memory/Tables/Tests.antt =====
-- A fork's copies and switches between processes on the small machine, and the theorems there.
use yalnix_os.Common.{ℕ, [], ◌∷◌, ◌+◌, ◌<◌, ◌≡◌, refl, true, arith, ltb}
use yalnix_os.Common.Int.{pos}
use yalnix_os.Frames.{free_frame_init, frames_left}
use yalnix_os.Frames.Alloc.{free_frame_init-IsValid}
use yalnix_os.Memory.{Pages, UserPt, Mem, read_write}
use yalnix_os.Memory.Owns.{Owns}
use yalnix_os.Memory.Destroy.{in_use}
use yalnix_os.Memory.Samples.{no_pages, small}
use yalnix_os.Memory.Tables.{copy_user_mem, kc_copy, kstack_pages}
use yalnix_os.Memory.Tables.Copy.{Copies, Apart, copy_user_mem_lem}
use yalnix_os.Memory.Tables.KernelStack.{kc_copy_lem}
use yalnix_os.Memory.Tables.Context.{
  Switching, Switches, Spares, switch_pcb, switch_all, IsCurrent, switch_pcb_lem,
}

abbrev at_boot : Mem
at_boot = record {
  free_frame = free_frame_init 2 11;
  kernel_pt = no_pages;
  kernel_brk = 32;
  flushed = [];
}

-- The first two pages of region 1 are valid.
abbrev parent : UserPt
parent = record {
  data_end = 64;
  brk = 96;
  stack_low = 128;
  pt = λ j. record { valid = ltb j 2; pfn = pos (j + 5); prot = 3 };
  size = 2;
}

abbrev child : UserPt
child = record { data_end = 0; brk = 0; stack_low = 0; pt = no_pages; size = 0 }

copy_user_mem_lem_example :
    let (u, t) = copy_user_mem small parent child at_boot in
    Copies 4 0 parent.pt no_pages u.pt
    × (frames_left t.free_frame + in_use 4 0 parent.pt ≡ frames_left at_boot.free_frame)
    × ((u.brk ≡ 96) × (u.data_end ≡ 64) × (u.stack_low ≡ 128))
    × Owns 2 u.pt t.free_frame
    × ((pt : Pages) → Owns 2 pt at_boot.free_frame → Apart 2 pt u.pt t.free_frame)
unfolding in_use
copy_user_mem_lem_example =
    let fresh = (free_frame_init-IsValid 2 11).1 in
    copy_user_mem_lem small parent child at_boot (free_frame_init-IsValid 2 11).0 (λ j. refl)
      (omega arith)

-- The one entry of the new table holds what was there.
abbrev garbage : Pages
garbage j = record { valid = ltb j 1; pfn = pos 7; prot = 5 }

kc_copy_lem_example :
    let (pt, t) = kc_copy small garbage at_boot in
    ((j : ℕ) → j < kstack_pages small → ((pt j).valid ≡ true) × ((pt j).prot ≡ read_write small))
    × (frames_left t.free_frame + kstack_pages small ≡ frames_left at_boot.free_frame)
    × Owns 2 pt t.free_frame
    × ((old : Pages) → Owns 2 old at_boot.free_frame → Apart 2 old pt t.free_frame)
kc_copy_lem_example =
    let fresh = (free_frame_init-IsValid 2 11).1 in
    kc_copy_lem small garbage at_boot (free_frame_init-IsValid 2 11).0 (λ j h. ground arith)
      (omega arith)

-- The stack of the process `p` is the frame `p + 3`; the process 1 runs.
abbrev stack_of : ℕ → Pages
stack_of p j = record { valid = true; pfn = pos (p + 3); prot = 3 }

abbrev running_1 : Switching ℕ
running_1 = record {
  mem = record at_boot { kernel_pt = stack_of 1 };
  kc = λ p. 0;
  kstack = stack_of;
  ptbr1 = 1;
}

-- The processes 2 and 3 take turns before the process 1 runs again.
abbrev turns : Switches ℕ
turns = (22, 2, 3) ∷ (33, 3, 2) ∷ []

switch_pcb_lem_example :
    let (left, first) = switch_pcb small 1 2 11 1 2 running_1 in
    let t = switch_all small 1 2 turns left in
    let (back, kc) = switch_pcb small 1 2 23 2 1 t in
    (kc ≡ 11) × (back.mem.kernel_pt ≡ stack_of 1) × (back.ptbr1 ≡ 1) × IsCurrent small 1 back
unfolding Spares
switch_pcb_lem_example =
    switch_pcb_lem small 1 2 1 2 2 11 23 turns running_1 (omega arith) (λ j h. refl)
      ((λ e. cc), ((λ e. cc), tt)) (λ e. cc)
