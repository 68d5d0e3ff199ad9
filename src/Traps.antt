-- ===== src/Traps.antt =====
-- ksrc/traps.c, with save_uc, restore_uc and add_return_val of ksrc/cswitch.c. A trap ends with the
-- context that the process goes on with, unless its process is blocked or ends; a blocked one goes on
-- behind the call that blocked it.
pub mod Answer
mod Tests
use yalnix_os.Common.{ℕ, Option, none, some, Bool, true, false, if◌then◌else◌, update, ◌&&◌}
use yalnix_os.Common.Int.{ℤ, pos, negsuc, minus_one, eqb_ℤ}
use yalnix_os.Heap.{Ptr}
use yalnix_os.Buffer.{Memory}
use yalnix_os.Memory.{Machine, to_word}
use yalnix_os.Memory.Tables.{is_stack_addr, grow_stack}
use yalnix_os.Sched.{check_delay, rr_preempt}
use yalnix_os.Process.{Fresh, set_mem}
use yalnix_os.Load.{Program, Constants, load_program}
use yalnix_os.Ttys.{receive, write_alert}
use yalnix_os.Syscalls.{
  running_pcb, kernel_get_pid, kernel_fork, kernel_exit, kernel_exec, kernel_wait, kernel_brk,
  kernel_delay, kernel_tty_read, kernel_tty_write, kernel_pipe_init, kernel_pipe_read,
  kernel_pipe_write, kernel_lock_init, kernel_acquire, kernel_release, kernel_cvar_init,
  kernel_cvar_signal, kernel_cvar_broadcast, kernel_cvar_wait, kernel_reclaim,
}
use yalnix_os.Kernel.{
  UserContext, Wait, Outcome, returned, suspended, exited, halted, KernelCmd, done, stuck, ◌>>=◌,
  ◌>>◌, kernel, load_pcb, store_pcb, data_of,
}

-- The cases of the switch, by the numbers of `yalnix.h`.
pub data Call : Type 0 where
  fork exec exit wait getpid brk delay : Call
  tty_read tty_write : Call
  pipe_init pipe_read pipe_write : Call
  lock_init lock_acquire lock_release : Call
  cvar_init cvar_signal cvar_broadcast cvar_wait : Call
  reclaim : Call

-- What the kernel does not make itself: the numbers of the calls, fresh memory, what the file
-- system says of a program, the bytes and words of the process, and variables with no value.
pub record Supply : Type 0 where
  pub decode : ℕ → Option Call
  pub fresh : Fresh
  pub new_pid : ℤ
  pub program : ℕ → ℕ → Program
  pub constants : Constants
  pub byte : ℕ → ℕ
  pub word : ℕ → ℕ
  pub junk : ℤ
  pub junk_word : Ptr
  pub fresh_object : Ptr
  pub fresh_list : Ptr
  pub fresh_list_2 : Ptr
  pub fresh_node : Ptr

pub data TrapEnd : Type 0 where
  back : UserContext → TrapEnd
  blocked : Wait → TrapEnd
  gone : TrapEnd
  stopped : TrapEnd

pub save_uc : UserContext → KernelCmd (Unit {0})
save_uc uc = do
  s ← kernel
  p ← data_of s.procs.running
  x ← load_pcb p
  store_pcb p (record x { uc = uc })

pub restore_uc : KernelCmd UserContext
restore_uc = do x ← running_pcb; done x.uc

pub add_return_val : ℤ → KernelCmd (Unit {0})
add_return_val r = do
  s ← kernel
  p ← data_of s.procs.running
  x ← load_pcb p
  store_pcb p (record x { uc = record x.uc { regs = update x.uc.regs 0 r } })

-- An `int` argument that is not negative; the model has no other for lengths and terminals.
pub nat_arg : ℤ → KernelCmd ℕ
nat_arg (pos n) = done n
nat_arg (negsuc n) = stuck

-- `LoadProgram(filename, argvec, procs->running->data)`
pub load_running : (m : Machine) (c : Constants) (prog : Program) → KernelCmd ℤ
load_running m c prog = do
  s ← kernel
  p ← data_of s.procs.running
  load_program m c prog p s.procs.running

module _ (m : Machine) (fuel : ℕ) where
  -- One case of the switch, with the registers.
  pub dispatch : Supply → Call → (ℕ → ℤ) → KernelCmd Outcome
  unfolding nat_arg load_running
  dispatch e fork regs = kernel_fork m fuel e.fresh e.new_pid
  dispatch e exec regs =
      kernel_exec m fuel
        (load_running m e.constants (e.program (to_word (regs 0)) (to_word (regs 1))))
        (λ r. eqb_ℤ r e.constants.kill) e.byte e.word (to_word (regs 0)) (to_word (regs 1))
  dispatch e exit regs = kernel_exit m fuel (regs 0)
  dispatch e wait regs = kernel_wait m fuel (to_word (regs 0))
  dispatch e getpid regs = kernel_get_pid m fuel
  dispatch e brk regs = kernel_brk m fuel (to_word (regs 0))
  dispatch e delay regs = kernel_delay m fuel (regs 0)
  dispatch e tty_read regs = do
    tty_id ← nat_arg (regs 0)
    len ← nat_arg (regs 2)
    kernel_tty_read m fuel tty_id (to_word (regs 1)) len
  dispatch e tty_write regs = do
    tty_id ← nat_arg (regs 0)
    len ← nat_arg (regs 2)
    kernel_tty_write m fuel tty_id (to_word (regs 1)) len
  dispatch e pipe_init regs =
      kernel_pipe_init m fuel e.fresh_object e.fresh_list e.fresh_list_2 e.fresh_node
        (to_word (regs 0))
  dispatch e pipe_read regs = do
    len ← nat_arg (regs 2)
    kernel_pipe_read m fuel (regs 0) (to_word (regs 1)) len
  dispatch e pipe_write regs = do
    len ← nat_arg (regs 2)
    kernel_pipe_write m fuel e.junk (regs 0) (to_word (regs 1)) len
  dispatch e lock_init regs =
      kernel_lock_init m fuel e.fresh_object e.fresh_list e.fresh_node (to_word (regs 0))
  dispatch e lock_acquire regs = kernel_acquire m fuel (regs 0)
  dispatch e lock_release regs = kernel_release m fuel (regs 0)
  dispatch e cvar_init regs =
      kernel_cvar_init m fuel e.junk_word e.fresh_object e.fresh_list e.fresh_node
        (to_word (regs 0))
  dispatch e cvar_signal regs = kernel_cvar_signal m fuel (regs 0)
  dispatch e cvar_broadcast regs = kernel_cvar_broadcast m fuel (regs 0)
  dispatch e cvar_wait regs = kernel_cvar_wait m fuel (regs 0) (regs 1)
  dispatch e reclaim regs = kernel_reclaim m fuel (regs 0)

  -- `add_return_val(return_val); restore_uc(uc);`
  pub finish : ℤ → KernelCmd TrapEnd
  unfolding add_return_val restore_uc
  finish r = do add_return_val r; uc ← restore_uc; done (back uc)

  abbrev pub leave : KernelCmd TrapEnd
  leave = do uc ← restore_uc; done (back uc)

  -- What follows the switch, once the call is over; a program that was loaded gets no result.
  pub end_call : Bool → Outcome → KernelCmd TrapEnd
  unfolding finish restore_uc
  end_call is_exec (returned r) = if is_exec && eqb_ℤ r (pos 0) then leave else finish r
  end_call is_exec (suspended w) = done (blocked w)
  end_call is_exec exited = done gone
  end_call is_exec halted = done stopped

  abbrev is_exec : Call → Bool
  is_exec exec = true
  is_exec _ = false

  -- The switch; a number that is no call leaves `return_val` without a value.
  pub trap_call : Supply → Option Call → (ℕ → ℤ) → KernelCmd TrapEnd
  unfolding dispatch end_call finish
  trap_call e none regs = finish e.junk
  trap_call e (some c) regs = do o ← dispatch e c regs; end_call (is_exec c) o

  pub trap_kernel : Supply → UserContext → KernelCmd TrapEnd
  unfolding save_uc trap_call
  trap_kernel e uc = do save_uc uc; trap_call e (e.decode uc.code) uc.regs

  -- `restore_uc` is what a process does once it runs again.
  pub trap_clock : UserContext → KernelCmd (Unit {0})
  unfolding save_uc
  trap_clock uc = do save_uc uc; check_delay fuel; rr_preempt

  -- KernelExit(ERROR), in a trap.
  pub abort : KernelCmd TrapEnd
  unfolding end_call
  abort = do o ← kernel_exit m fuel minus_one; end_call false o

  pub trap_illegal : UserContext → KernelCmd TrapEnd
  unfolding abort
  trap_illegal uc = abort

  pub trap_math : UserContext → KernelCmd TrapEnd
  unfolding abort
  trap_math uc = abort

  pub trap_memory : UserContext → KernelCmd TrapEnd
  unfolding save_uc abort restore_uc
  trap_memory uc = do
    save_uc uc
    s ← kernel
    p ← data_of s.procs.running
    x ← load_pcb p
    let (u, mem, grown) = grow_stack m uc.addr x.userpt s.mem
    if is_stack_addr m uc.addr x.userpt && grown
        then (do store_pcb p (record x { userpt = u }); set_mem mem; leave)
        else abort

  pub trap_tty_receive : (landing : Memory) (read : ℕ) → UserContext → KernelCmd TrapEnd
  unfolding save_uc restore_uc
  trap_tty_receive landing read uc = do save_uc uc; receive fuel landing read uc.code; leave

  pub trap_tty_transmit : UserContext → KernelCmd TrapEnd
  unfolding save_uc restore_uc
  trap_tty_transmit uc = do save_uc uc; write_alert uc.code; leave

  pub trap_disk : UserContext → KernelCmd TrapEnd
  trap_disk uc = done (back uc)
