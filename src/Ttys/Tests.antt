-- ===== src/Ttys/Tests.antt =====
-- A terminal that process 1 writes a line to.
use yalnix_os.Common.{
  ◌+◌, ◌≤◌, ◌≡◌, ◌↔◌, refl, some, none, Option, [], ◌∷◌, false, arith, ◌==◌, if◌then◌else◌,
}
use yalnix_os.Common.Int.{pos}
use yalnix_os.Heap.{null, Heap, load, load_list, store_list, set_next, set_prev, store}
use yalnix_os.LinkedList.{is_empty, push, remove, dequeue, drop_first, shrink, clear_links, enqueue}
use yalnix_os.Buffer.{write_buffer, reset_buffer}
use yalnix_os.Sched.{h_block, unblock_head}
use yalnix_os.Kernel.{Kernel, TtyIo, suspended, in_write_tty}
use yalnix_os.Kernel.Samples.{no_objects, no_tty, no_mem}
use yalnix_os.Ttys.{try_write_tty, send_line, write_alert, wake_head}
use yalnix_os.Ttys.Overlap.{lines, writes, alerts, here, next, one_transmission}

-- Node 1 runs, nobody is ready in the list 100 or blocked in the list 300.
abbrev tty_heap : Heap
tty_heap = record {
  node = λ p.
      if p == 1
      then some (record { contents = 60; code = pos 0; next = null; prev = null })
      else none;
  list = λ l.
      if l == 100
      then some (record { size = 0; head = null; tail = null })
      else (if l == 300 then some (record { size = 0; head = null; tail = null }) else none);
}

abbrev idle_tty : TtyIo
idle_tty = record {
  buffer = record { size = 2; filled = 0; head = 0; tail = 0; buffered = 0 ∷ 0 ∷ [] };
  blocked = 300;
  transmitting = false;
}

-- A process has the byte a at the address a.
abbrev start : Kernel
start = record {
  heap = tty_heap;
  procs = record { running = 1; waiting = 310; ready = 100; delayed = 200; orphans = 400 };
  idle_node = 9;
  init_node = 1;
  pcb = λ p. none;
  objects = record no_objects { tty_out = λ i. if i == 0 then idle_tty else no_tty i };
  mem = no_mem;
  user = λ p a. a;
  switched = [];
}

abbrev state_after : {A : Type 0} → Option (A × Kernel) → Kernel
state_after none = start
state_after (some (a, t)) = t

-- Process 1 writes 65, 66 and 67: 65 and 66 go out, and it is blocked in the list 300.
abbrev sending : Kernel
sending = state_after (try_write_tty 0 65 3 0 start)

-- The terminal's interrupt comes.
abbrev sent : Kernel
sent = state_after (write_alert 0 sending)

one_transmission_example :
    (lines 0 sent.objects.sent ≤ 1 + 1)
    × ((lines 0 sent.objects.sent ≡ 1) ↔ ((sent.objects.tty_out 0).transmitting ≡ false))
unfolding try_write_tty send_line h_block push load load_list is_empty store_list set_next set_prev
    store write_buffer reset_buffer write_alert wake_head unblock_head remove dequeue drop_first
    shrink clear_links enqueue lines
one_transmission_example = one_transmission 0 {s = start} {ended = 0} refl (
    next {u = sent}
      (next {u = sending} here (writes 65 3 0 (suspended (in_write_tty 0 67 3 2)) refl))
      (alerts tt (omega arith) refl))
