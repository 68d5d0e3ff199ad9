-- ===== src/Load.antt =====
-- LoadProgram of ksrc/load.c. What the file system and malloc answer, and the strings that `args`
-- points to, are an argument; `x & ~7` is `x - x % 8`. Reading into the pages of a process is
-- storing bytes of the process.
pub mod Samples
pub mod Layout
pub mod Maps
pub mod Region
pub mod Steps
pub mod Whole
mod Tests
use yalnix_os.Common.{
  ℕ, zero, suc, ◌+◌, ◌-◌, ◌*◌, ◌/◌, ◌%◌, Bool, true, false, ltb, leb, not, if◌then◌else◌, update,
  Option, none, some, ◌||◌, List, [], ◌∷◌, ◌++◌, length, replicate,
}
use Prim.Native.Nat.{bit_or}
use yalnix_os.Common.Int.{ℤ, pos, minus_one}
use yalnix_os.Heap.{Ptr}
use yalnix_os.Frames.{FreeFrame, frames_left}
use yalnix_os.Memory.{
  Machine, Pages, UserPt, Mem, sub_word, base_page_1, lim_page_1, map_page, read_write,
  destroy_usermem,
}
use yalnix_os.Process.{set_mem}
use yalnix_os.Kernel.{
  Kernel, Pcb, KernelCmd, done, ◌>>=◌, ◌>>◌, kernel, load_pcb, store_pcb, overwrite,
}

-- `struct load_info`, its fields that the code uses but the offsets in the file.
pub record LoadInfo : Type 0 where
  pub entry : ℕ
  pub t_vaddr : ℕ
  pub t_npg : ℕ
  pub id_vaddr : ℕ
  pub id_npg : ℕ
  pub id_end : ℕ
  pub ud_npg : ℕ
  pub ud_end : ℕ

-- Whether the file opens, what LoadInfo finds in it, the bytes of text and data where a `read` is
-- complete, the arguments without their 0, and whether malloc gives a buffer for them.
pub record Program : Type 0 where
  pub opens : Bool
  pub info : Option LoadInfo
  pub args : List (List ℕ)
  pub argbuf : Bool
  pub text : Option (List ℕ)
  pub initial : Option (List ℕ)

-- More names of the headers; `word` is `sizeof (void *)`, `kill` is KILL.
pub record Constants : Type 0 where
  pub max_pt_len : ℕ
  pub post_argv_null_space : ℕ
  pub initial_stack_frame_size : ℕ
  pub word : ℕ
  pub tlb_flush_1 : ℕ
  pub kill : ℤ

-- `strlen(args[i]) + 1`, summed up
pub args_size : List (List ℕ) → ℕ
args_size [] = 0
args_size (arg ∷ args) = length arg + 1 + args_size args

-- Bytes stored in the memory of the process `node`.
abbrev pub put : (node addr : ℕ) → List ℕ → KernelCmd (Unit {0})
put node addr xs s =
    done tt (record s { user = update s.user node (overwrite (s.user node) addr xs) })

module _ (m : Machine) (c : Constants) where
  open m use {page_size, vmem_1_base, vmem_1_limit, down_to_page, int_bytes}

  abbrev pub text_pg1 : LoadInfo → ℕ
  text_pg1 li = sub_word li.t_vaddr vmem_1_base / page_size

  abbrev pub data_pg1 : LoadInfo → ℕ
  data_pg1 li = sub_word li.id_vaddr vmem_1_base / page_size

  abbrev pub data_npg : LoadInfo → ℕ
  data_npg li = li.id_npg + li.ud_npg

  -- Where the arguments are to lie, where argc and the pointers to them, and the stack pointer.
  abbrev pub cp_of : List (List ℕ) → ℕ
  cp_of args = sub_word vmem_1_limit (args_size args)

  -- The bytes from `argc` up to the arguments, before the rounding.
  abbrev pub frame_size : List (List ℕ) → ℕ
  frame_size args = (length args + 3 + c.post_argv_null_space) * c.word

  pub cpp_of : List (List ℕ) → ℕ
  cpp_of args = let unaligned = sub_word (cp_of args) (frame_size args) in unaligned - unaligned % 8

  pub sp_of : List (List ℕ) → ℕ
  unfolding cpp_of
  sp_of args = sub_word (cpp_of args) c.initial_stack_frame_size

  pub stack_npg : List (List ℕ) → ℕ
  unfolding sp_of
  stack_npg args = sub_word vmem_1_limit (down_to_page (sp_of args)) / page_size

  -- The loops that map pages, `k` rounds from the entry `i` on, upwards and downwards.
  pub map_up : ℕ → ℕ → Pages → FreeFrame → Pages × FreeFrame
  map_up zero i pt f = (pt, f)
  map_up (suc k) i pt f =
      let (pt', f') = map_page m i (read_write m) pt f in map_up k (i + 1) pt' f'

  pub map_down : ℕ → ℕ → Pages → FreeFrame → Pages × FreeFrame
  map_down zero i pt f = (pt, f)
  map_down (suc k) i pt f =
      let (pt', f') = map_page m i (read_write m) pt f in map_down k (i - 1) pt' f'

  -- The new region 1: text, data, stack, and its marks.
  pub build_region : LoadInfo → List (List ℕ) → UserPt → FreeFrame → UserPt × FreeFrame
  unfolding map_up map_down stack_npg
  build_region li args u f =
      let stack = stack_npg args in
      let data_end = data_pg1 li + data_npg li + base_page_1 m in
      let (pt1, f1) = map_up li.t_npg (text_pg1 li) u.pt f in
      let (pt2, f2) = map_up (data_npg li) (data_pg1 li) pt1 f1 in
      let (pt3, f3) = map_down stack (c.max_pt_len - 1) pt2 f2 in
      (
        record {
          data_end = (data_end - 1) * page_size;
          brk = data_end * page_size;
          stack_low = (lim_page_1 m - stack) * page_size;
          pt = pt3;
          size = li.t_npg + data_npg li + stack;
        },
        f3,
      )

  -- The loop that makes the text executable, `k` rounds from the entry `i` on, with its flushes.
  pub protect_text : ℕ → ℕ → Pages → List ℕ → Pages × List ℕ
  protect_text zero i pt log = (pt, log)
  protect_text (suc k) i pt log =
      protect_text k (i + 1) (update pt i (record (pt i) { prot = bit_or m.prot_read m.prot_exec }))
        (((i + base_page_1 m) * page_size) ∷ log)

  -- The loop that copies the arguments to `cp` and their addresses to `cpp`, and the two NULLs.
  pub put_args : (node cp cpp : ℕ) → List (List ℕ) → KernelCmd (Unit {0})
  put_args node cp cpp [] = do
    put node cpp (int_bytes (pos 0))
    put node (cpp + c.word) (int_bytes (pos 0))
  put_args node cp cpp (arg ∷ args) = do
    put node cpp (int_bytes (pos cp))
    put node cp (arg ++ 0 ∷ [])
    put_args node (cp + length arg + 1) (cpp + c.word) args

  -- From the loop over the text pages to the end.
  pub start_program : LoadInfo → List (List ℕ) → (p node : Ptr) → KernelCmd ℤ
  unfolding protect_text cpp_of put_args
  start_program li args p node = do
    x ← load_pcb p
    s ← kernel
    let text = protect_text li.t_npg (text_pg1 li) x.userpt.pt s.mem.flushed
    set_mem (record s.mem { flushed = text.1 })
    put node li.id_end (replicate (sub_word li.ud_end li.id_end) 0)
    store_pcb p
        (record x { userpt = record x.userpt { pt = text.0 }; uc = record x.uc { pc = li.entry } })
    put node (cpp_of args) (replicate (sub_word vmem_1_limit (cpp_of args)) 0)
    put node (cpp_of args) (int_bytes (pos (length args)))
    put_args node (cp_of args) (cpp_of args + c.word) args
    done (pos 0)

  -- The reading of text and data.
  pub read_program : LoadInfo → Program → (p node : Ptr) → KernelCmd ℤ
  unfolding start_program
  read_program li prog p node = elim prog.text [
    | none ↦ done c.kill
    | some text ↦ put node li.t_vaddr text >> elim prog.initial [
      | none ↦ done c.kill
      | some initial ↦ put node li.id_vaddr initial >> start_program li prog.args p node
    ]
  ]

  -- From `destroy_usermem` on.
  pub replace_program : LoadInfo → Program → (p node : Ptr) → KernelCmd ℤ
  unfolding build_region read_program stack_npg
  replace_program li prog p node = do
    x ← load_pcb p
    s ← kernel
    let freed = destroy_usermem m x.userpt s.mem.free_frame
    store_pcb p (record x { userpt = freed.0 })
    set_mem (record s.mem { free_frame = freed.1 })
    if ltb (frames_left freed.1) (li.t_npg + data_npg li + stack_npg prog.args)
        then done c.kill
        else do
          let region = build_region li prog.args freed.0 freed.1
          store_pcb p (record x { userpt = region.0 })
          set_mem (record s.mem { free_frame = region.1; flushed = c.tlb_flush_1 ∷ s.mem.flushed })
          read_program li prog p node

  pub load_info : LoadInfo → Program → (p node : Ptr) → KernelCmd ℤ
  unfolding sp_of stack_npg replace_program
  load_info li prog p node =
      if ltb li.entry vmem_1_base
        || leb c.max_pt_len (stack_npg prog.args + data_pg1 li + data_npg li)
      then done minus_one
      else do
        x ← load_pcb p
        store_pcb p (record x { uc = record x.uc { sp = sp_of prog.args } })
        if not prog.argbuf then done minus_one else replace_program li prog p node

  -- `node` is the process whose memory region 1 is, `p` its control block.
  pub load_program : Program → (p node : Ptr) → KernelCmd ℤ
  unfolding load_info
  load_program prog p node =
      if not prog.opens
      then done minus_one
      else elim prog.info [ none ↦ done minus_one | some li ↦ load_info li prog p node ]
