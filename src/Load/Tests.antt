-- ===== src/Load/Tests.antt =====
-- Programs on the small machine, and the theorems there.
use yalnix_os.Common.{
  ◌+◌, ◌-◌, ◌*◌, ◌%◌, ◌≤◌, ◌<◌, ◌≡◌, refl, none, some, true, ◌==◌, if◌then◌else◌, List, [], ◌∷◌, ℕ,
  arith,
}
use yalnix_os.Memory.{base_page_1, lim_page_1}
use yalnix_os.Memory.Samples.{small}
use yalnix_os.Kernel.{Kernel, Pcb}
use yalnix_os.Kernel.Samples.{no_objects, no_mem, pcb_3}
use yalnix_os.Process.Samples.{stack, stack-Owns, frames_left-stack, stack_behind}
use yalnix_os.Load.Whole.{Loadable, Loads, load_program_lem}
use yalnix_os.Load.{
  Program, load_program, LoadInfo, Constants, args_size, frame_size, cp_of, cpp_of, sp_of,
  stack_npg,
}
use yalnix_os.Load.Samples.{constants}
use yalnix_os.Load.Layout.{stack_layout}

abbrev one_arg : List (List ℕ)
one_arg = (65 ∷ []) ∷ []

-- The argument and its 0 at 126, argc and the pointers from 104 on, the stack pointer at 96.
stack_layout_example :
    (cp_of small constants one_arg + args_size one_arg ≡ 128)
    × (cpp_of small constants one_arg % 8 ≡ 0)
    × (cpp_of small constants one_arg + frame_size small constants one_arg
        ≤ cp_of small constants one_arg)
    × (sp_of small constants one_arg + 8 ≡ cpp_of small constants one_arg)
    × (64 ≤ sp_of small constants one_arg)
    × ((lim_page_1 small - stack_npg small constants one_arg) * 16 ≤ sp_of small constants one_arg)
    × (sp_of small constants one_arg
        < (lim_page_1 small - stack_npg small constants one_arg + 1) * 16)
    × (stack_npg small constants one_arg ≤ lim_page_1 small - base_page_1 small)
unfolding args_size
stack_layout_example =
    stack_layout small constants one_arg 8 (omega arith) (omega arith) refl (λ a. refl)
      (omega arith)

-- Without an initial frame, a program without arguments has one page of text, one of data and one of
-- stack.
abbrev frameless : Constants
frameless = record constants { initial_stack_frame_size = 0 }

abbrev three_pages : LoadInfo
three_pages = record {
  entry = 64;
  t_vaddr = 64;
  t_npg = 1;
  id_vaddr = 80;
  id_npg = 1;
  id_end = 96;
  ud_npg = 0;
  ud_end = 96;
}

one_page : stack_npg small frameless [] ≡ 1
unfolding stack_npg sp_of cpp_of args_size
one_page = refl

-- The program, and a process whose one page gives way to it.
abbrev program : Program
program = record {
  opens = true;
  info = some three_pages;
  args = [];
  argbuf = true;
  text = some (1 ∷ 2 ∷ []);
  initial = some (3 ∷ []);
}

abbrev old : Pcb
old = record pcb_3 { userpt = record pcb_3.userpt { pt = stack.0; size = 1 } }

abbrev before : Kernel
before = record {
  heap = record { node = λ n. none; list = λ l. none };
  procs = record { running = 1; waiting = 300; ready = 100; delayed = 200; orphans = 400 };
  idle_node = 9;
  init_node = 1;
  pcb = λ p. if p == 50 then some old else none;
  objects = no_objects;
  mem = record no_mem { free_frame = stack.1 };
  user = λ p a. 0;
  switched = [];
}

before-Loadable : Loadable small frameless program three_pages 50 before old
before-Loadable = record {
  opens = refl;
  info = refl;
  argbuf = refl;
  bytes = 1 ∷ 2 ∷ [];
  has_text = refl;
  initial = 3 ∷ [];
  has_initial = refl;
  entry = omega arith;
  fits = omega (arith, one_page);
  in_order = omega arith;
  of_block = refl;
  owned = stack-Owns;
  behind = λ j low. stack_behind j (omega arith);
  room = omega (arith, one_page, frames_left-stack);
}

load_program_lem_example :
    Loads small frameless program three_pages 50 before old
      (load_program small frameless program 50 1 before)
load_program_lem_example =
    load_program_lem small frameless program three_pages 50 1 before old before-Loadable
