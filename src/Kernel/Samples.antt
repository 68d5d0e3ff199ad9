-- ===== src/Kernel/Samples.antt =====
-- Empty parts of the kernel's state, for the tests.
use yalnix_os.Common.{ℕ, false, none, [], ◌∷◌}
use yalnix_os.Common.Int.{pos}
use yalnix_os.Heap.{null}
use yalnix_os.Memory.{Mem}
use yalnix_os.Kernel.{Pcb, Objects, TtyIo}

abbrev pub no_tty : ℕ → TtyIo
no_tty i = record {
  buffer = record { size = 1; filled = 0; head = 0; tail = 0; buffered = 0 ∷ [] };
  blocked = null;
  transmitting = false;
}

abbrev pub no_objects : Objects
no_objects = record {
  pipe = λ p. none;
  lock = λ p. none;
  cvar = λ p. none;
  tty_in = no_tty;
  tty_out = no_tty;
  pilocvar = record { count = 0; pipe = null; lock = null; cvar = null };
  sent = [];
}

abbrev pub no_mem : Mem
no_mem = record {
  free_frame = record { size = 0; avail_pfn = 0; filled = 0; bit_vector = [] };
  kernel_pt = λ i. record { valid = false; pfn = pos 0; prot = 0 };
  kernel_brk = 0;
  flushed = [];
}

abbrev pub pcb_3 : Pcb
pcb_3 = record {
  pid = pos 3;
  parent = 1;
  a_children = 601;
  d_children = 602;
  userpt = record {
    data_end = 0;
    brk = 0;
    stack_low = 0;
    pt = λ i. record { valid = false; pfn = pos 0; prot = 0 };
    size = 0;
  };
  kstack = λ i. record { valid = false; pfn = pos 0; prot = 0 };
  uc = record { code = 0; addr = 0; pc = 0; sp = 0; regs = λ i. pos 0 };
}
