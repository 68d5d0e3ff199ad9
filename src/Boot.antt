-- ===== src/Boot.antt =====
-- The boot of the kernel, ksrc/kernel.c: region 0, the idle process and the first process.
pub mod Identity
mod Tests
use yalnix_os.Common.{
  ℕ, zero, suc, ◌+◌, ◌-◌, ◌*◌, ◌/◌, Bool, true, false, ltb, leb, if◌then◌else◌, not, update, Option,
  none, some,
}
use Prim.Native.Nat.{bit_or}
use yalnix_os.Common.Int.{ℤ, pos, minus_one, eqb_ℤ}
use yalnix_os.Heap.{Ptr, null}
use yalnix_os.Frames.{FreeFrame, get_frame, free_frame_init}
use yalnix_os.Memory.{
  Machine, Pages, UserPt, Mem, set_pte, base_page_1, lim_page_1, map_page, read_write, sub_word,
}
use yalnix_os.Memory.Tables.{base_page_0, base_page_kstack, kstack_pages, kc_copy}
use yalnix_os.Sched.{proc_table_init}
use yalnix_os.Locks.{pilocvar_init}
use yalnix_os.Ttys.{io_control_init}
use yalnix_os.Process.{Fresh, process_init, set_mem}
use yalnix_os.Traps.{restore_uc}
use yalnix_os.Load.{Program, Constants, load_program}
use yalnix_os.Kernel.{
  Kernel, ProcTable, Pilocvar, UserContext, KernelCmd, done, ◌>>=◌, ◌>>◌, kernel, load_pcb,
  store_pcb, data_of,
}

-- What the linker and the boot hand over: addresses in the kernel, the end of region 0, the address
-- of DoIdle.
pub record Image : Type 0 where
  pub kernel_data_start : ℕ
  pub kernel_orig_brk : ℕ
  pub vmem_0_limit : ℕ
  pub do_idle : ℕ

-- The handlers of ksrc/traps.c, the places of the vector, and its size.
pub data Handler : Type 0 where
  on_kernel on_clock on_tty_receive on_tty_transmit on_illegal on_memory on_math on_disk : Handler

pub record Places : Type 0 where
  pub kernel_place : ℕ
  pub clock_place : ℕ
  pub tty_receive_place : ℕ
  pub tty_transmit_place : ℕ
  pub illegal_place : ℕ
  pub memory_place : ℕ
  pub math_place : ℕ
  pub disk_place : ℕ
  pub vector_size : ℕ

-- The loop that puts NULL into `k` places from `i` on.
pub null_loop : ℕ → ℕ → (ℕ → Option Handler) → ℕ → Option Handler
null_loop zero i vector = vector
null_loop (suc k) i vector = null_loop k (i + 1) (update vector i none)

pub trap_setup : Places → (ℕ → Option Handler) → ℕ → Option Handler
unfolding null_loop
trap_setup t v0 =
    let v1 = update v0 t.kernel_place (some on_kernel) in
    let v2 = update v1 t.clock_place (some on_clock) in
    let v3 = update v2 t.tty_receive_place (some on_tty_receive) in
    let v4 = update v3 t.tty_transmit_place (some on_tty_transmit) in
    let v5 = update v4 t.illegal_place (some on_illegal) in
    let v6 = update v5 t.memory_place (some on_memory) in
    let v7 = update v6 t.math_place (some on_math) in
    let v8 = update v7 t.disk_place (some on_disk) in
    null_loop (t.vector_size - (t.disk_place + 1)) (t.disk_place + 1) v8

module _ (m : Machine) (image : Image) where
  open m use {base_frame, page_size}

  abbrev pub read_exec : ℕ
  read_exec = bit_or m.prot_read m.prot_exec

  -- `set_pte(&kernel_pt.pt[vpn - BASE_PAGE_0], 1, get_frame(vpn, FIXED), prot)`
  pub fix_page : ℕ → ℕ → Mem → Mem
  unfolding set_pte
  fix_page vpn prot s =
      let (f, pfn) = get_frame base_frame vpn false s.free_frame in
      let i = vpn - base_page_0 m in
      record s {
        free_frame = f;
        kernel_pt = update s.kernel_pt i (set_pte (s.kernel_pt i) true pfn prot);
      }

  -- One round of the loop of VM_setup.
  pub setup_page : ℕ → Mem → Mem
  unfolding fix_page set_pte
  setup_page vpn s =
      if ltb vpn (image.kernel_data_start / page_size)
      then fix_page vpn read_exec s
      else (if leb vpn (s.kernel_brk / page_size)
          then fix_page vpn (read_write m) s
          else (if leb (base_page_kstack m) vpn
              then fix_page vpn (read_write m) s
              else (let i = vpn - base_page_0 m in
                  record s {
                    kernel_pt = update s.kernel_pt i (set_pte (s.kernel_pt i) false (pos 0) 0);
                  })))

  -- `k` rounds from the page `vpn` on.
  pub setup_loop : ℕ → ℕ → Mem → Mem
  unfolding setup_page
  setup_loop zero vpn s = s
  setup_loop (suc k) vpn s = setup_loop k (vpn + 1) (setup_page vpn s)

  -- The registers that it writes are the machine's.
  pub vm_setup : Mem → Mem
  unfolding setup_loop
  vm_setup s = setup_loop (image.vmem_0_limit / page_size - base_page_0 m) (base_page_0 m) s

  -- `idle_node` is set, and the idle process gets one page for its stack.
  pub idle_setup : (f : Fresh) (new_pid : ℤ) → UserContext → KernelCmd (Unit {0})
  idle_setup f new_pid uctxt = do
    idle ← process_init m f new_pid
    set_idle idle
    p ← data_of idle
    x ← load_pcb p
    s ← kernel
    let page = lim_page_1 m - 1 - base_page_1 m
    let stack = map_page m page (read_write m) x.userpt.pt s.mem.free_frame
    let stacked = record x.userpt { pt = stack.0 }
    let uc = record uctxt { pc = image.do_idle; sp = sub_word m.vmem_1_limit 4 }
    let copied = kc_copy m x.kstack (record s.mem { free_frame = stack.1 })
    store_pcb p (record x { userpt = stacked; uc = uc; kstack = copied.0 })
    set_mem copied.1
    where
      set_idle : Ptr → KernelCmd (Unit {0})
      set_idle n t = done tt (record t { idle_node = n })

  -- The loop of init_load, over `k` pages of the kernel stack from `i` on.
  pub own_kstack : ℕ → ℕ → Pages → Pages → Pages
  own_kstack zero i kernel_pt kstack = kstack
  own_kstack (suc k) i kernel_pt kstack =
      own_kstack k (i + 1) kernel_pt
        (update kstack i (kernel_pt (base_page_kstack m + i - base_page_0 m)))

  -- `false`: the machine halts.
  pub init_load :
      (f : Fresh) (new_pid : ℤ) (c : Constants) (prog : Program) → UserContext → KernelCmd Bool
  unfolding own_kstack
  init_load f new_pid c prog uctxt = do
    init ← process_init m f new_pid
    set_init init
    p ← data_of init
    x ← load_pcb p
    s ← kernel
    store_pcb p
        (record x { uc = uctxt; kstack = own_kstack (kstack_pages m) 0 s.mem.kernel_pt x.kstack })
    code ← load_program m c prog p init
    if eqb_ℤ code (pos 0) then (do run_first init; done true) else done false
    where
      set_init : Ptr → KernelCmd (Unit {0})
      set_init n t = done tt (record t { init_node = n })

      run_first : Ptr → KernelCmd (Unit {0})
      run_first n t = done tt (record t { procs = record t.procs { running = n } })

  -- KernelStart: the trap vector, which had the places `vector` at first, and the context that the
  -- machine goes on with, or `none` if it halts. `fresh_lists` are where `proc_table_init` and `pilocvar_init` get their lists, `fresh_tty` where `io_control_init` does.
  pub kernel_start :
      (pmem_size : ℕ) (places : Places) (vector : ℕ → Option Handler)
      (fresh_lists fresh_tty : ℕ → Ptr) (init_fresh idle_fresh : Fresh) (init_pid idle_pid : ℤ)
      (c : Constants) (prog : Program)
      → UserContext
      → KernelCmd (Option ((ℕ → Option Handler) × UserContext))
  unfolding vm_setup trap_setup init_load idle_setup
  kernel_start pmem_size places vector fresh_lists fresh_tty init_fresh idle_fresh init_pid idle_pid
        c prog uctxt =
      do
        s ← kernel
        set_mem (
            vm_setup (record s.mem {
              kernel_brk = image.kernel_orig_brk;
              free_frame = free_frame_init base_frame (pmem_size / page_size);
            }))
        let set_up = trap_setup places vector
        procs ← proc_table_init (fresh_lists 0) (fresh_lists 1) (fresh_lists 2) (fresh_lists 3)
        set_procs procs
        io_control_init m.terminal_max_line fresh_tty m.num_terminals 0
        pilocvar ← pilocvar_init (fresh_lists 4) (fresh_lists 5) (fresh_lists 6)
        set_pilocvar pilocvar
        loaded ← init_load init_fresh init_pid c prog uctxt
        if not loaded
            then done none
            else do idle_setup idle_fresh idle_pid uctxt; uc ← restore_uc; done (some (set_up, uc))
    where
      set_procs : ProcTable → KernelCmd (Unit {0})
      set_procs p t = done tt (record t { procs = p })

      set_pilocvar : Pilocvar → KernelCmd (Unit {0})
      set_pilocvar p t = done tt (record t { objects = record t.objects { pilocvar = p } })
