-- ===== src/Load/Steps.antt =====
-- The steps of LoadProgram in ksrc/load.c behind its tests.
use yalnix_os.Common.{
  ℕ, ◌+◌, ◌≤◌, ◌≡◌, refl, Option, some, false, List, [], ◌∷◌, arith, length, replicate, update,
  update_self, ltb,
}
use yalnix_os.Common.Int.{ℤ, pos}
use yalnix_os.Heap.{Ptr}
use yalnix_os.Frames.{FreeFrame, frames_left}
use yalnix_os.Memory.{Machine, Pages, UserPt, sub_word, destroy_usermem}
use yalnix_os.Kernel.{Kernel, Pcb, done, go_on, overwrite}
use yalnix_os.Sched.Queues.{chain}
use yalnix_os.Load.{
  LoadInfo, Program, Constants, put_args, start_program, read_program, replace_program,
  protect_text, build_region, text_pg1, data_npg, stack_npg, cp_of, cpp_of,
}

-- The bytes of the processes, with bytes stored in one of them, as `put` stores them.
abbrev stored : (node addr : ℕ) → List ℕ → (Ptr → ℕ → ℕ) → Ptr → ℕ → ℕ
stored node addr xs user = update user node (overwrite (user node) addr xs)

-- The command stores bytes of processes and changes nothing else.
abbrev OnlyBytes : {A : Type 0} → A → Kernel → Option (A × Kernel) → Type 0
OnlyBytes a s r = (u : Ptr → ℕ → ℕ) × (r ≡ some (a, record s { user = u }))

finish :
    (t : Kernel) {r : Option (Unit {0} × Kernel)}
    → OnlyBytes tt t r
    → (u : Ptr → ℕ → ℕ) × (go_on r (λ _. done (pos 0)) ≡ some (pos 0, record t { user = u }))
finish t (u, ran) = (u, chain (λ _. done (pos 0)) ran refl)

module _ (m : Machine) (c : Constants) where
  put_args-OnlyBytes :
      (node cp cpp : ℕ) (args : List (List ℕ)) (s : Kernel)
      → OnlyBytes tt s (put_args m c node cp cpp args s)
  unfolding put_args
  put_args-OnlyBytes node cp cpp [] s = (_, refl)
  put_args-OnlyBytes node cp cpp (arg ∷ args) s =
      put_args-OnlyBytes node (cp + length arg + 1) (cpp + c.word) args _

  -- The control block of a process whose program starts.
  abbrev pub started : LoadInfo → Pages → Pcb → Pcb
  started li pt x = record x {
    userpt = record x.userpt { pt = pt };
    uc = record x.uc { pc = li.entry };
  }

  module _ (li : LoadInfo) (p node : ℕ) (s : Kernel) (x : Pcb) (at : s.pcb p ≡ some x) where
    abbrev pub text : Pages × List ℕ
    text = protect_text m c li.t_npg (text_pg1 m c li) x.userpt.pt s.mem.flushed

    abbrev pub after_start : (Ptr → ℕ → ℕ) → Kernel
    after_start u = record s {
      mem = record s.mem { flushed = text.1 };
      pcb = update s.pcb p (some (started li text.0 x));
      user = u;
    }

    -- A command that starts the program in this state.
    abbrev pub Starts : Option (ℤ × Kernel) → Type 0
    Starts r = (u : Ptr → ℕ → ℕ) × (r ≡ some (pos 0, after_start u))

    start_program_lem : (args : List (List ℕ)) → Starts (start_program m c li args p node s)
    unfolding start_program
    start_program_lem args =
        let zeros = replicate (sub_word m.vmem_1_limit (cpp_of m c args)) 0 in
        let ready : Kernel = after_start (
          stored node (cpp_of m c args) (m.int_bytes (pos (length args))) (
            stored node (cpp_of m c args) zeros
              (stored node li.id_end (replicate (sub_word li.ud_end li.id_end) 0) s.user))) in
        rw at (
          finish ready
            (put_args-OnlyBytes node (cp_of m c args) (cpp_of m c args + c.word) args ready))

  module _ (li : LoadInfo) (prog : Program) (p node : ℕ) (bytes initial : List ℕ)
      (has_text : prog.text ≡ some bytes) (has_initial : prog.initial ≡ some initial) where
    read_program_lem :
        (s : Kernel) (x : Pcb) (at : s.pcb p ≡ some x)
        → Starts li p node s x at (read_program m c li prog p node s)
    unfolding read_program
    read_program_lem s x at =
        rw (has_text, has_initial)
          (start_program_lem li p node
            (record s {
              user = stored node li.id_vaddr initial (stored node li.t_vaddr bytes s.user);
            })
            x at prog.args)

    module _ (s : Kernel) (x : Pcb) (at : s.pcb p ≡ some x) where
      abbrev pub freed : UserPt × FreeFrame
      freed = destroy_usermem m x.userpt s.mem.free_frame

      abbrev pub region : UserPt × FreeFrame
      region = build_region m c li prog.args freed.0 freed.1

      -- The kernel with the new region.
      abbrev pub replaced : Kernel
      replaced = record s {
        pcb =
            update (update s.pcb p (some (record x { userpt = freed.0 }))) p
              (some (record x { userpt = region.0 }));
        mem = record s.mem { free_frame = region.1; flushed = c.tlb_flush_1 ∷ s.mem.flushed };
      }

      pub found : replaced.pcb p ≡ some (record x { userpt = region.0 })
      found =
          update_self (update s.pcb p (some (record x { userpt = freed.0 }))) p
            (some (record x { userpt = region.0 }))

      pub replace_program_lem :
          li.t_npg + data_npg m c li + stack_npg m c prog.args ≤ frames_left freed.1
          → Starts li p node replaced
              (record x { userpt = region.0 })
              found
              (replace_program m c li prog p node s)
      unfolding replace_program
      replace_program_lem room =
          let enough : ltb (frames_left freed.1)
                (li.t_npg + data_npg m c li + stack_npg m c prog.args)
              ≡ false =
            ground arith in
          rw at (rw enough (read_program_lem replaced (record x { userpt = region.0 }) found))
