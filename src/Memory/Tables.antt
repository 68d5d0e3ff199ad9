-- ===== src/Memory/Tables.antt =====
-- Page tables made, copied and extended: the rest of ksrc/memory.c, the stack that TrapMemory of
-- ksrc/traps.c grows, and KCCopy of ksrc/cswitch.c.
mod Tests
pub mod Stack
pub mod Fresh
pub mod Copy
pub mod KernelStack
pub mod Context
use yalnix_os.Common.{
  ◌%◌, ◌^◌, ℕ, zero, suc, ◌+◌, ◌-◌, ◌/◌, ◌*◌, ◌∷◌, Bool, true, false, ◌&&◌, ◌||◌, ltb, leb,
  if◌then◌else◌, update,
}
use yalnix_os.Common.Int.{ℤ, pos, minus_one}
use yalnix_os.Frames.{FreeFrame, frames_left}
use yalnix_os.Memory.{
  Machine, Pages, UserPt, Mem, sub_word, set_pte, base_page_1, lim_page_1, map_page, unmap_page,
  last_vpn, read_write, destroy_loop, flush_down,
}

module _ (m : Machine) where
  open m use {base_frame, page_size, up_to_page, down_to_page}

  abbrev pub base_page_0 : ℕ
  base_page_0 = m.vmem_0_base / page_size

  abbrev pub base_page_kstack : ℕ
  base_page_kstack = m.kernel_stack_base / page_size

  abbrev pub kstack_pages : ℕ
  kstack_pages = m.kernel_stack_limit / page_size - base_page_kstack

  -- The page that kernel code maps to reach a frame: below the kernel stack.
  abbrev pub dummy : ℕ
  dummy = base_page_kstack - 1

  -- `set_pte(&new->pt[i], 0, NONE, NONE)`, over `k` entries from `i` on.
  pub clear_loop : ℕ → ℕ → Pages → Pages
  unfolding set_pte
  clear_loop zero i pt = pt
  clear_loop (suc k) i pt = clear_loop k (i + 1) (update pt i (set_pte (pt i) false (pos 0) 0))

  -- `fresh` is what malloc returned: only `pt` and `size` are set.
  pub new_user_pt : UserPt → UserPt
  unfolding clear_loop
  new_user_pt fresh = record fresh {
    pt = clear_loop (lim_page_1 m - base_page_1 m) 0 fresh.pt;
    size = 0;
  }

  -- The kernel's own pages of region 0 between two breaks.
  pub kernel_grow : ℕ → ℕ → Mem → Mem
  kernel_grow zero vpn s = s
  kernel_grow (suc k) vpn s =
      let (pt, f) = map_page m (vpn - base_page_0) (read_write m) s.kernel_pt s.free_frame in
      kernel_grow k (vpn + 1)
        (record s { kernel_pt = pt; free_frame = f; flushed = (vpn * page_size) ∷ s.flushed })

  pub kernel_shrink : ℕ → ℕ → Mem → Mem
  kernel_shrink zero vpn s = s
  kernel_shrink (suc k) vpn s =
      let (pt, f) = unmap_page m (vpn - base_page_0) s.kernel_pt s.free_frame in
      kernel_shrink k (vpn - 1)
        (record s { kernel_pt = pt; free_frame = f; flushed = (vpn * page_size) ∷ s.flushed })

  abbrev pub kernel_brk_refused : ℕ → Bool
  kernel_brk_refused addr =
      leb (sub_word (down_to_page m.kernel_stack_base) page_size) addr
      || ltb addr (up_to_page m.kernel_data_end)

  -- `vm_enabled` is REG_VM_ENABLE.
  pub set_kernel_brk : (vm_enabled : Bool) → ℕ → Mem → Mem × ℤ
  unfolding kernel_grow kernel_shrink
  set_kernel_brk vm_enabled addr s =
      let curr = last_vpn m s.kernel_brk in
      let next = last_vpn m addr in
      if kernel_brk_refused addr then (s, minus_one) else (
        record (if vm_enabled
            then (if ltb curr next
                then kernel_grow (next - curr) (curr + 1) s
                else (if ltb next curr then kernel_shrink (curr - next) curr s else s))
            else s) { kernel_brk = up_to_page addr },
        pos 0,
      )

  -- The frame for a copied page: mapped at the page `dummy`, and put into the entry `i` of the copy
  -- with the protection `prot`. `flush` is what the TLB flushes.
  pub copy_page : ℕ → ℕ → Pages → Mem → Pages × Mem
  copy_page i prot dst s =
      let (pt, f) = map_page m (dummy - base_page_0) (read_write m) s.kernel_pt s.free_frame in
      (
        update dst i (record (pt (dummy - base_page_0)) { prot = prot }),
        record s { kernel_pt = pt; free_frame = f; flushed = (dummy * page_size) ∷ s.flushed },
      )

  -- The loop of `copy_user_mem`, over `k` entries from `i` on.
  pub copy_loop : ℕ → ℕ → Pages → Pages → Mem → Pages × Mem
  unfolding copy_page
  copy_loop zero i src dst s = (dst, s)
  copy_loop (suc k) i src dst s =
      let (dst', s') = if (src i).valid then copy_page i (src i).prot dst s else (dst, s) in
      copy_loop k (i + 1) src dst' s'

  -- `set_pte(&kernel_pt.pt[dummy - BASE_PAGE_0], 0, NONE, NONE)` and its flush
  pub drop_dummy : Mem → Mem
  unfolding set_pte
  drop_dummy s = record s {
    kernel_pt =
        update s.kernel_pt (dummy - base_page_0)
          (set_pte (s.kernel_pt (dummy - base_page_0)) false (pos 0) 0);
    flushed = (dummy * page_size) ∷ s.flushed;
  }

  -- The page tables; the bytes of the pages are copied where this is called.
  pub copy_user_mem : UserPt → UserPt → Mem → UserPt × Mem
  unfolding copy_loop drop_dummy
  copy_user_mem origin dst s =
      let (pt, s') = copy_loop (lim_page_1 m - base_page_1 m) 0 origin.pt dst.pt s in
      (
        record dst {
          pt = pt;
          brk = origin.brk;
          data_end = origin.data_end;
          stack_low = origin.stack_low;
        },
        drop_dummy s',
      )

  -- The loop of KCCopy, over `k` pages of the kernel stack from `i` on.
  pub kstack_loop : ℕ → ℕ → Pages → Mem → Pages × Mem
  unfolding copy_page
  kstack_loop zero i dst s = (dst, s)
  kstack_loop (suc k) i dst s =
      let (dst', s') = copy_page i (read_write m) dst s in kstack_loop k (i + 1) dst' s'

  -- The kernel stack that a new process gets; its bytes are the machine's, its context is that of `copy_pcb`.
  pub kc_copy : Pages → Mem → Pages × Mem
  unfolding kstack_loop drop_dummy
  kc_copy kstack s = let (pt, s') = kstack_loop kstack_pages 0 kstack s in (pt, drop_dummy s')

  -- The pages of the kernel stack that the process `next` has, put into region 0.
  pub switch_loop : ℕ → ℕ → Pages → Pages → Pages
  switch_loop zero i next pt = pt
  switch_loop (suc k) i next pt =
      switch_loop k (i + 1) next (update pt (base_page_kstack + i - base_page_0) (next i))

  -- The flushes are TLB_FLUSH_KSTACK and TLB_FLUSH_1.
  pub kc_switch : (flush_kstack flush_1 : ℕ) → Pages → Mem → Mem
  unfolding switch_loop
  kc_switch flush_kstack flush_1 next s = record s {
    kernel_pt = switch_loop kstack_pages 0 next s.kernel_pt;
    flushed = flush_1 ∷ flush_kstack ∷ s.flushed;
  }

  pub destroy_kstack : Pages → FreeFrame → Pages × FreeFrame
  unfolding destroy_loop
  destroy_kstack kstack f = destroy_loop m kstack_pages 0 kstack f

  -- The loop of TrapMemory over the pages from `vpn` down, `k` rounds.
  pub stack_loop : ℕ → ℕ → Pages → FreeFrame → Pages × FreeFrame
  stack_loop zero vpn pt f = (pt, f)
  stack_loop (suc k) vpn pt f =
      let (pt', f') = map_page m (vpn - base_page_1 m) (read_write m) pt f in
      stack_loop k (vpn - 1) pt' f'

  abbrev pub is_stack_addr : ℕ → UserPt → Bool
  is_stack_addr addr u =
      leb ((up_to_page u.brk + page_size) % 2 ^ 32) addr && leb addr (down_to_page u.stack_low)

  -- The growth of the stack in TrapMemory; `false`: the process is to exit.
  pub grow_stack : ℕ → UserPt → Mem → UserPt × Mem × Bool
  unfolding stack_loop flush_down
  grow_stack addr u s =
      let curr = down_to_page u.stack_low / page_size in
      let next = down_to_page addr / page_size in
      if ltb (frames_left s.free_frame) (curr - next)
      then (u, s, false)
      else (let (pt, f) = stack_loop (curr - next) (curr - 1) u.pt s.free_frame in
          (
            record u { pt = pt; size = u.size + (curr - next); stack_low = next * page_size },
            record s { free_frame = f; flushed = flush_down m (curr - next) (curr - 1) s.flushed },
            true,
          ))
