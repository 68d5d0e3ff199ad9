-- ===== src/Traps/Tests.antt =====
-- A process that asks for its pid.
use yalnix_os.Common.{◌≡◌, refl, none, some, [], inl, arith, update, ◌==◌, if◌then◌else◌, false}
use yalnix_os.Common.Int.{pos}
use yalnix_os.Heap.{null}
use yalnix_os.Memory.Samples.{no_pages, small}
use yalnix_os.Process.{Fresh}
use yalnix_os.Load.Samples.{constants}
use yalnix_os.Kernel.{Kernel, UserContext}
use yalnix_os.Kernel.Samples.{no_objects, no_mem, pcb_3}
use yalnix_os.Traps.{getpid, Supply, back, trap_kernel}
use yalnix_os.Traps.Answer.{set_pcb, trap_kernel_answer}

abbrev fresh : Fresh
fresh = record {
  pcb = 80;
  a_children = 810;
  d_children = 820;
  node = 8;
  copy = 18;
  userpt = pcb_3.userpt;
  kstack = no_pages;
  uc = pcb_3.uc;
  code = pos 0;
}

-- The number 5 is that of GetPid, and there are no programs.
abbrev supply : Supply
supply = record {
  decode = λ n. if n == 5 then some getpid else none;
  fresh = fresh;
  new_pid = pos 4;
  program = λ a b. record {
    opens = false;
    info = none;
    args = [];
    argbuf = false;
    text = none;
    initial = none;
  };
  constants = constants;
  byte = λ a. 0;
  word = λ a. 0;
  junk = pos 99;
  junk_word = 7;
  fresh_object = 90;
  fresh_list = 910;
  fresh_list_2 = 920;
  fresh_node = 19;
}

abbrev asking : UserContext
asking = record { code = 5; addr = 0; pc = 100; sp = 120; regs = λ i. pos i }

abbrev one_process : Kernel
one_process = record {
  heap = record {
    node = λ p.
        if p == 1
        then some (record { contents = 60; code = pos 0; next = null; prev = null })
        else none;
    list = λ l. none;
  };
  procs = record { running = 1; waiting = 310; ready = 100; delayed = 200; orphans = 400 };
  idle_node = 9;
  init_node = 1;
  pcb = λ p. if p == 60 then some pcb_3 else none;
  objects = no_objects;
  mem = no_mem;
  user = λ p a. 0;
  switched = [];
}

trap_kernel_answer_example :
    let end = record asking { regs = update asking.regs 0 (pos 3) } in
    trap_kernel small 2 supply asking one_process
    ≡ some (
      back end,
      set_pcb
          (set_pcb one_process 60 (record pcb_3 { uc = asking }))
          60
          (record pcb_3 { uc = end }),
    )
trap_kernel_answer_example =
    trap_kernel_answer small 2 60 pcb_3 supply asking one_process (pos 3)
      (record { contents = 60; code = pos 0; next = null; prev = null }, omega arith, refl, refl)
      refl (inl (refl, refl))
