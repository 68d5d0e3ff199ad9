-- ===== src/Memory.antt =====
-- Page tables: the rest of ksrc/memory.c, with KernelUserBrk of ksrc/syscalls.c.
-- What the machine's headers fix (sizes, addresses, protections, rounding to pages) is an
-- argument. The TLB is the list of the addresses flushed from it, the newest first.
mod Tests
pub mod Samples
pub mod Owns
pub mod Loops
pub mod Brk
pub mod Tables
pub mod Destroy
pub mod Isolation
pub mod Checks
pub mod Strings
use yalnix_os.Common.{
  ℕ, zero, suc, ◌+◌, ◌-◌, ◌/◌, ◌*◌, ◌%◌, ◌^◌, List, ◌∷◌, Bool, true, false, ◌&&◌, ◌||◌, ltb, leb,
  ◌==◌, if◌then◌else◌, update, not,
}
use Prim.Native.Nat.{bit_or}
use yalnix_os.Common.Int.{ℤ, pos, negsuc, minus_one}
use yalnix_os.Frames.{FreeFrame, get_frame, vacate_frame, frames_left}

-- The names of `hardware.h` and `ykernel.h` that the code uses, and the bytes of a word in memory.
-- `x >> PAGESHIFT` is `x / page_size`.
pub record Machine : Type 0 where
  pub base_frame : ℕ
  pub page_size : ℕ
  pub up_to_page : ℕ → ℕ
  pub down_to_page : ℕ → ℕ
  pub vmem_1_base : ℕ
  pub vmem_1_limit : ℕ
  pub kernel_stack_base : ℕ
  pub kernel_stack_limit : ℕ
  pub kernel_data_end : ℕ
  pub vmem_0_base : ℕ
  pub prot_read : ℕ
  pub prot_write : ℕ
  pub prot_exec : ℕ
  pub prot_all : ℕ
  pub num_terminals : ℕ
  pub terminal_max_line : ℕ
  pub pipe_buffer_len : ℕ
  pub int_bytes : ℤ → List ℕ

-- `pte_t`, its fields that the code uses; `pfn` may come from a failed `get_frame`.
pub record Pte : Type 0 where
  pub valid : Bool
  pub pfn : ℤ
  pub prot : ℕ

abbrev pub Pages : Type 0
Pages = ℕ → Pte

-- `user_pt_t`
pub record UserPt : Type 0 where
  pub data_end : ℕ
  pub brk : ℕ
  pub stack_low : ℕ
  pub pt : Pages
  pub size : ℕ

-- The globals `free_frame` and `kernel_pt`, and the flushed addresses.
pub record Mem : Type 0 where
  pub free_frame : FreeFrame
  pub kernel_pt : Pages
  pub kernel_brk : ℕ
  pub flushed : List ℕ

-- `unsigned int` subtraction
abbrev pub sub_word : ℕ → ℕ → ℕ
sub_word a b = (a + 2 ^ 32 - b) % 2 ^ 32

-- An `int` handed over as `unsigned int`.
abbrev pub to_word : ℤ → ℕ
to_word (pos n) = n
to_word (negsuc n) = 2 ^ 32 - (n + 1)

-- `pte->valid = valid` comes first; a page that is not valid keeps its other fields.
unfoldable pub set_pte : Pte → Bool → ℤ → ℕ → Pte
set_pte pte valid pfn prot =
    if valid then record { valid = true; pfn = pfn; prot = prot } else record pte { valid = false }

module _ (m : Machine) where
  open m use {base_frame, page_size, up_to_page, down_to_page}

  abbrev pub base_page_1 : ℕ
  base_page_1 = m.vmem_1_base / page_size

  abbrev pub lim_page_1 : ℕ
  lim_page_1 = m.vmem_1_limit / page_size

  -- `set_pte(&pt[i], 1, get_frame(NONE, AUTO), prot)`
  pub map_page : ℕ → ℕ → Pages → FreeFrame → Pages × FreeFrame
  unfolding set_pte
  map_page i prot pt f =
      let (g, pfn) = get_frame base_frame 0 true f in
      (update pt i (set_pte (pt i) true pfn prot), g)

  -- `set_pte(&pt[i], 0, vacate_frame(pt[i].pfn), NONE)`
  pub unmap_page : ℕ → Pages → FreeFrame → Pages × FreeFrame
  unfolding set_pte
  unmap_page i pt f =
      (update pt i (set_pte (pt i) false (pos 0) 0), vacate_frame base_frame (to_word (pt i).pfn) f)

  -- The loop over the pages of region 1 from `vpn` up, `k` rounds, that maps each page.
  pub grow_loop : ℕ → ℕ → ℕ → Pages → FreeFrame → Pages × FreeFrame
  grow_loop zero vpn prot pt f = (pt, f)
  grow_loop (suc k) vpn prot pt f =
      let (pt', f') = map_page (vpn - base_page_1) prot pt f in grow_loop k (vpn + 1) prot pt' f'

  -- The loop over the pages of region 1 from `vpn` down, `k` rounds, that unmaps each page.
  pub shrink_loop : ℕ → ℕ → Pages → FreeFrame → Pages × FreeFrame
  shrink_loop zero vpn pt f = (pt, f)
  shrink_loop (suc k) vpn pt f =
      let (pt', f') = unmap_page (vpn - base_page_1) pt f in shrink_loop k (vpn - 1) pt' f'

  -- The flushes of the two loops.
  pub flush_up : ℕ → ℕ → List ℕ → List ℕ
  flush_up zero vpn log = log
  flush_up (suc k) vpn log = flush_up k (vpn + 1) ((vpn * page_size) ∷ log)

  pub flush_down : ℕ → ℕ → List ℕ → List ℕ
  flush_down zero vpn log = log
  flush_down (suc k) vpn log = flush_down k (vpn - 1) ((vpn * page_size) ∷ log)

  -- The greatest page in use below a break: `(UP_TO_PAGE(brk) >> PAGESHIFT) - 1`.
  abbrev pub last_vpn : ℕ → ℕ
  last_vpn brk = sub_word (up_to_page brk / page_size) 1

  abbrev pub read_write : ℕ
  read_write = bit_or m.prot_read m.prot_write

  abbrev pub brk_refused : ℕ → UserPt → Bool
  brk_refused addr u =
      leb (sub_word (down_to_page u.stack_low) page_size) addr || ltb addr (up_to_page u.data_end)

  -- Raising the break by `n` pages.
  pub brk_grow : ℕ → ℕ → ℕ → UserPt → Mem → UserPt × Mem × ℤ
  unfolding grow_loop flush_up
  brk_grow addr curr n u s =
      if ltb (frames_left s.free_frame) n
      then (u, s, minus_one)
      else (let (pt, f) = grow_loop n (curr + 1) read_write u.pt s.free_frame in
          (
            record u { size = u.size + n; pt = pt; brk = up_to_page addr },
            record s { free_frame = f; flushed = flush_up n (curr + 1) s.flushed },
            pos 0,
          ))

  -- Lowering the break by `n` pages.
  pub brk_shrink : ℕ → ℕ → ℕ → UserPt → Mem → UserPt × Mem × ℤ
  unfolding shrink_loop flush_down
  brk_shrink addr curr n u s =
      let (pt, f) = shrink_loop n curr u.pt s.free_frame in
      (
        record u { size = u.size - n; pt = pt; brk = up_to_page addr },
        record s { free_frame = f; flushed = flush_down n curr s.flushed },
        pos 0,
      )

  -- The running process's page table, the globals, and the result.
  pub kernel_user_brk : ℕ → UserPt → Mem → UserPt × Mem × ℤ
  unfolding brk_grow brk_shrink
  kernel_user_brk addr u s =
      let curr = last_vpn u.brk in
      let next = last_vpn addr in
      if brk_refused addr u
      then (u, s, minus_one)
      else (if ltb curr next
          then brk_grow addr curr (next - curr) u s
          else (if ltb next curr
              then brk_shrink addr curr (curr - next) u s
              else (record u { brk = up_to_page addr }, s, pos 0)))

  -- The loop of `destroy_usermem`, over `k` entries from `i` on.
  pub destroy_loop : ℕ → ℕ → Pages → FreeFrame → Pages × FreeFrame
  destroy_loop zero i pt f = (pt, f)
  destroy_loop (suc k) i pt f =
      let (pt', f') = if (pt i).valid then unmap_page i pt f else (pt, f) in
      destroy_loop k (i + 1) pt' f'

  pub destroy_usermem : UserPt → FreeFrame → UserPt × FreeFrame
  unfolding destroy_loop
  destroy_usermem u f =
      let (pt, g) = destroy_loop (lim_page_1 - base_page_1) 0 u.pt f in (record u { pt = pt }, g)
