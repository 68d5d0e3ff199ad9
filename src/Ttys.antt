-- ===== src/Ttys.antt =====
-- Terminals of ksrc/pilocvario.c, statement by statement. A function that can block is cut there:
-- `try_…` runs until it returns or blocks. Lengths and terminal numbers are not negative. The loops
-- of `unblock_all` take fuel.

pub mod Turns
pub mod Overlap
mod Tests
use yalnix_os.Common.{
  ℕ, zero, suc, ◌+◌, ◌*◌, take, List, ◌∷◌, Bool, true, false, not, ltb, ◌==◌, if◌then◌else◌, update,
}
use yalnix_os.Common.Int.{pos}
use yalnix_os.Heap.{Ptr}
use yalnix_os.LinkedList.{new_ll, is_empty}
use yalnix_os.Buffer.{Buffer, Memory, new_buffer, write_buffer, read_buffer, reset_buffer}
use yalnix_os.Buffer.Slots.{bytes}
use yalnix_os.Sched.{block, h_block, unblock_head, unblock_all}
use yalnix_os.Kernel.{
  Kernel, Objects, TtyIo, Outcome, in_read_tty, in_write_tty, returned, suspended, KernelCmd, done,
  stuck, ◌>>=◌, ◌>>◌, on_heap, kernel, user_memory, write_user,
}

abbrev pub tty_out : ℕ → KernelCmd TtyIo
tty_out i s = done (s.objects.tty_out i) s

abbrev pub tty_in : ℕ → KernelCmd TtyIo
tty_in i s = done (s.objects.tty_in i) s

abbrev pub set_tty_out : Kernel → ℕ → TtyIo → Kernel
set_tty_out s i x = record s {
  objects = record s.objects { tty_out = update s.objects.tty_out i x };
}

abbrev pub store_tty_out : ℕ → TtyIo → KernelCmd (Unit {0})
store_tty_out i x s = done tt (set_tty_out s i x)

abbrev pub store_tty_in : ℕ → TtyIo → KernelCmd (Unit {0})
store_tty_in i x s =
    done tt (record s { objects = record s.objects { tty_in = update s.objects.tty_in i x } })

-- `TtyTransmit(tty_id, buffered, written)`: the hardware is handed the first bytes of the array.
abbrev pub transmit : ℕ → List ℕ → KernelCmd (Unit {0})
transmit i xs s =
    done tt (record s { objects = record s.objects { sent = (i, xs) ∷ s.objects.sent } })

pub new_ttyio : (terminal_max_line fresh_list : ℕ) → KernelCmd TtyIo
new_ttyio terminal_max_line fresh_list = do
  blocked ← on_heap (new_ll fresh_list)
  done (record { blocked = blocked; buffer = new_buffer terminal_max_line; transmitting = false })

-- The loop of `io_control_init`, over `k` terminals from `i` on; `fresh` gives two lists for each.
pub io_control_init : (terminal_max_line : ℕ) (fresh : ℕ → Ptr) (k i : ℕ) → KernelCmd (Unit {0})
unfolding new_ttyio
io_control_init terminal_max_line fresh zero i = done tt
io_control_init terminal_max_line fresh (suc k) i = do
  x ← new_ttyio terminal_max_line (fresh (2 * i))
  store_tty_in i x
  y ← new_ttyio terminal_max_line (fresh (2 * i + 1))
  store_tty_out i y
  io_control_init terminal_max_line fresh k (i + 1)

-- `if (!is_empty(list)) unblock_head(list);`
pub wake_head : Ptr → KernelCmd (Unit {0})
wake_head list = do empty ← on_heap (is_empty list); if empty then done tt else unblock_head list

-- The branch of `write_tty` that transmits, up to its block.
pub send_line : (tty_id src len total : ℕ) → KernelCmd Outcome
send_line tty_id src len total = do
  bytes_of ← user_memory src
  out ← tty_out tty_id
  let b = write_buffer (reset_buffer out.buffer) bytes_of len
  store_tty_out tty_id (record out { buffer = b.0; transmitting = true })
  transmit tty_id (take b.1 (b.0).buffered)
  h_block out.blocked
  done (suspended (in_write_tty tty_id (src + b.1) len (total + b.1)))

-- The loop's test of `write_tty`, and what follows it.
pub try_write_tty : (tty_id src len total : ℕ) → KernelCmd Outcome
unfolding send_line wake_head
try_write_tty tty_id src len total = do
  out ← tty_out tty_id
  if ltb total len
      then (if out.transmitting
          then (do block out.blocked; done (suspended (in_write_tty tty_id src len total)))
          else send_line tty_id src len total)
      else (do wake_head out.blocked; done (returned (pos total)))

pub write_tty : (tty_id src len : ℕ) → KernelCmd Outcome
unfolding try_write_tty
write_tty tty_id src len = try_write_tty tty_id src len 0

pub write_alert : ℕ → KernelCmd (Unit {0})
unfolding wake_head
write_alert tty_id = do
  out ← tty_out tty_id
  store_tty_out tty_id (record out { buffer = reset_buffer out.buffer; transmitting = false })
  wake_head out.blocked

pub try_read_tty : (tty_id dst len : ℕ) → KernelCmd Outcome
try_read_tty tty_id dst len = do
  x ← tty_in tty_id
  let b = read_buffer x.buffer len
  store_tty_in tty_id (record x { buffer = b.0 })
  write_user dst b.1
  if b.2 == 0
      then (do block x.blocked; done (suspended (in_read_tty tty_id dst len)))
      else done (returned (pos b.2))

-- `landing` holds the `read` bytes that `TtyReceive` gave.
pub receive : (fuel : ℕ) (landing : Memory) (read tty_id : ℕ) → KernelCmd (Unit {0})
receive fuel landing read tty_id = do
  x ← tty_in tty_id
  let b = write_buffer x.buffer landing read
  store_tty_in tty_id (record x { buffer = b.0 })
  if ltb 0 b.1 then unblock_all fuel x.blocked else done tt
