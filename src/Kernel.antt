-- ===== src/Kernel.antt =====
-- The kernel's globals, its process control blocks and the objects of ksrc/pilocvario.c, and commands
-- over them. A command without a result has followed a pointer that holds nothing.
pub mod Samples
pub mod Runs
use yalnix_os.Common.{
  ℕ, ◌+◌, [], ◌∷◌, Bool, ◌==◌, if◌then◌else◌, update, ◌≡◌, Option, none, some, List,
}
use yalnix_os.Common.Int.{ℤ}
use yalnix_os.Heap.{Ptr, Heap, Cmd, load}
use yalnix_os.Buffer.{Buffer, Memory}
use yalnix_os.Memory.{UserPt, Pages, Mem}

-- `proc_table_t`, the structure that `procs` points to.
pub record ProcTable : Type 0 where
  pub running : Ptr
  pub waiting : Ptr
  pub ready : Ptr
  pub delayed : Ptr
  pub orphans : Ptr

-- `UserContext`, the fields that the kernel uses.
pub record UserContext : Type 0 where
  pub code : ℕ
  pub addr : ℕ
  pub pc : ℕ
  pub sp : ℕ
  pub regs : ℕ → ℤ

-- `pcb_t`; the kernel context is the machine's.
pub record Pcb : Type 0 where
  pub pid : ℤ
  pub parent : Ptr
  pub a_children : Ptr
  pub d_children : Ptr
  pub userpt : UserPt
  pub kstack : Pages
  pub uc : UserContext

-- `pipe_t`
pub record Pipe : Type 0 where
  pub buffer : Buffer
  pub readblocked : Ptr
  pub writeblocked : Ptr
  pub unfulfilled : ℤ

-- `lock_t`
pub record Lock : Type 0 where
  pub owner : Ptr
  pub blocked : Ptr
  pub unfulfilled : ℤ
  pub cvar : ℤ

-- `cvar_t`, and the word behind it in the memory that `new_cvar` gets, which is that of a `pipe_t`.
pub record Cvar : Type 0 where
  pub blocked : Ptr
  pub behind : Ptr

-- `ttyio_t`
pub record TtyIo : Type 0 where
  pub buffer : Buffer
  pub blocked : Ptr
  pub transmitting : Bool

-- `pilocvar_t`
pub record Pilocvar : Type 0 where
  pub count : ℕ
  pub pipe : Ptr
  pub lock : Ptr
  pub cvar : Ptr

-- What lies at the addresses of pipes, locks and condition variables; `io` and `pilocvar`. `sent`
-- holds the calls of TtyTransmit, the latest first: the terminal and the bytes.
pub record Objects : Type 0 where
  pub pipe : Ptr → Option Pipe
  pub lock : Ptr → Option Lock
  pub cvar : Ptr → Option Cvar
  pub tty_in : ℕ → TtyIo
  pub tty_out : ℕ → TtyIo
  pub pilocvar : Pilocvar
  pub sent : List (ℕ × List ℕ)

-- `switched` holds the calls of switch_proc, the latest first: from which process to which.
-- `user` are the bytes that each process has at its addresses.
pub record Kernel : Type 0 where
  pub heap : Heap
  pub procs : ProcTable
  pub idle_node : Ptr
  pub init_node : Ptr
  pub pcb : Ptr → Option Pcb
  pub objects : Objects
  pub mem : Mem
  pub user : Ptr → ℕ → ℕ
  pub switched : List (Ptr × Ptr)

-- Where a process that the kernel has blocked goes on: the call that it is in, and what the call
-- still needs.
pub data Wait : Type 0 where
  in_acquire : (lock_n : Ptr) → Wait
  in_cvar : (cvar_n lock_n : Ptr) → Wait
  in_cvar_acquire : (lock_n : Ptr) → Wait
  in_read_pipe : (pipe_n dst len : ℕ) → Wait
  in_write_pipe : (pipe_n src len len_left : ℕ) (total : ℤ) → Wait
  in_read_tty : (tty_id dst len : ℕ) → Wait
  in_write_tty : (tty_id src len total : ℕ) → Wait
  in_wait : (status_ptr : ℕ) → Wait
  in_delay : Wait

-- A call that can block returns, leaves its process blocked, ends its process, or halts the machine.
pub data Outcome : Type 0 where
  returned : ℤ → Outcome
  suspended : Wait → Outcome
  exited : Outcome
  halted : Outcome

abbrev pub KernelCmd : Type 0 → Type 0
KernelCmd A = Kernel → Option (A × Kernel)

abbrev pub done : {A : Type 0} → A → KernelCmd A
done a s = some (a, s)

abbrev pub stuck : {A : Type 0} → KernelCmd A
stuck s = none

abbrev pub go_on : {A B : Type 0} → Option (A × Kernel) → (A → KernelCmd B) → Option (B × Kernel)
go_on none k = none
go_on (some (a, s)) k = k a s

infixl 5 ◌>>=◌ ◌>>◌
abbrev pub ◌>>=◌ : {A B : Type 0} → KernelCmd A → (A → KernelCmd B) → KernelCmd B
◌>>=◌ m k s = go_on (m s) k

abbrev pub ◌>>◌ : {A B : Type 0} → KernelCmd A → KernelCmd B → KernelCmd B
m >> k = m >>= λ _. k

abbrev pub with_heap : {A : Type 0} → Kernel → Option (A × Heap) → Option (A × Kernel)
with_heap s none = none
with_heap s (some (a, h)) = some (a, record s { heap = h })

-- A function of the lists, called by the kernel.
abbrev pub on_heap : {A : Type 0} → Cmd A → KernelCmd A
on_heap c s = with_heap s (c s.heap)

abbrev pub kernel : KernelCmd Kernel
kernel s = some (s, s)

abbrev pub fetch : {A : Type 0} → Option A → Kernel → Option (A × Kernel)
fetch none s = none
fetch (some a) s = some (a, s)

-- `*p` of a process control block
abbrev pub load_pcb : Ptr → KernelCmd Pcb
load_pcb p s = fetch (s.pcb p) s

abbrev pub store_pcb : Ptr → Pcb → KernelCmd (Unit {0})
store_pcb p x s = some (tt, record s { pcb = update s.pcb p (some x) })

-- `*p` of a lock, a condition variable and a pipe
abbrev pub load_lock : Ptr → KernelCmd Lock
load_lock p s = fetch (s.objects.lock p) s

abbrev pub load_cvar : Ptr → KernelCmd Cvar
load_cvar p s = fetch (s.objects.cvar p) s

abbrev pub load_pipe : Ptr → KernelCmd Pipe
load_pipe p s = fetch (s.objects.pipe p) s

abbrev pub set_lock : Kernel → Ptr → Option Lock → Kernel
set_lock s p l = record s { objects = record s.objects { lock = update s.objects.lock p l } }

abbrev pub set_cvar : Kernel → Ptr → Option Cvar → Kernel
set_cvar s p c = record s { objects = record s.objects { cvar = update s.objects.cvar p c } }

abbrev pub set_pipe : Kernel → Ptr → Option Pipe → Kernel
set_pipe s p b = record s { objects = record s.objects { pipe = update s.objects.pipe p b } }

abbrev pub store_lock : Ptr → Lock → KernelCmd (Unit {0})
store_lock p l s = some (tt, set_lock s p (some l))

abbrev pub store_cvar : Ptr → Cvar → KernelCmd (Unit {0})
store_cvar p c s = some (tt, set_cvar s p (some c))

abbrev pub free_lock : Ptr → KernelCmd (Unit {0})
free_lock p s = some (tt, set_lock s p none)

abbrev pub free_cvar : Ptr → KernelCmd (Unit {0})
free_cvar p s = some (tt, set_cvar s p none)

abbrev pub free_pipe : Ptr → KernelCmd (Unit {0})
free_pipe p s = some (tt, set_pipe s p none)

abbrev pub store_pipe : Ptr → Pipe → KernelCmd (Unit {0})
store_pipe p b s = some (tt, set_pipe s p (some b))

-- `node->data`
abbrev pub data_of : Ptr → KernelCmd Ptr
data_of n = do x ← on_heap (load n); done x.contents

-- A list function that has a result, and what follows it.
pub run_heap :
    {A B : Type 0} (s : Kernel) (c : Cmd A) {a : A} {h : Heap} {r : Option (B × Kernel)}
    (k : A → KernelCmd B)
    → c s.heap ≡ some (a, h)
    → k a (record s { heap = h }) ≡ r
    → go_on (on_heap c s) k ≡ r
run_heap s c k e f = rw e f

-- The memory of the running process from an address on.
abbrev pub user_memory : ℕ → KernelCmd Memory
user_memory src s = some (λ i. s.user s.procs.running (src + i), s)

-- The bytes written from `dst` on.
abbrev pub overwrite : (ℕ → ℕ) → ℕ → List ℕ → ℕ → ℕ
overwrite f dst [] = f
overwrite f dst (x ∷ xs) = overwrite (update f dst x) (dst + 1) xs

-- The running process's memory, with bytes stored from `dst` on.
abbrev pub write_user : ℕ → List ℕ → KernelCmd (Unit {0})
write_user dst xs s = some (
  tt,
  record s { user = update s.user s.procs.running (overwrite (s.user s.procs.running) dst xs) },
)
