-- ===== src/Traps/Answer.antt =====
-- The way of a call through TrapKernel of ksrc/traps.c, and of its result back.
use yalnix_os.Common.{ℕ, ◌≡◌, refl, sym, ap, ◌∙◌, ◌⊎◌, inl, inr, none, some, update, update_self}
use yalnix_os.Common.Int.{ℤ}
use yalnix_os.Heap.{Ptr}
use yalnix_os.Memory.{Machine}
use yalnix_os.Process.{get_pid}
use yalnix_os.Syscalls.{running_pcb, kernel_get_pid}
use yalnix_os.Kernel.{Kernel, Pcb, UserContext, returned, done, load_pcb}
use yalnix_os.Kernel.Runs.{PointsTo, data_of-ok, go_on_eq}
use yalnix_os.Traps.{
  getpid, Supply, back, save_uc, restore_uc, add_return_val, finish, end_call, dispatch, trap_call,
  trap_kernel,
}

abbrev pub set_pcb : Kernel → Ptr → Pcb → Kernel
set_pcb s p x = record s { pcb = update s.pcb p (some x) }

module _ (p : Ptr) (s : Kernel) (to : PointsTo s.heap s.procs.running p) where
  module _ (x : Pcb) (at : s.pcb p ≡ some x) where
    load_pcb-ok : load_pcb p s ≡ some (x, s)
    load_pcb-ok = rw at refl

    save_uc-ok : (uc : UserContext) → save_uc uc s ≡ some (tt, set_pcb s p (record x { uc = uc }))
    unfolding save_uc
    save_uc-ok uc = go_on_eq _ (data_of-ok s s.procs.running p to) ∙ go_on_eq _ load_pcb-ok

    get_pid-ok : get_pid s.procs.running s ≡ some (x.pid, s)
    unfolding get_pid
    get_pid-ok = go_on_eq _ (data_of-ok s s.procs.running p to) ∙ go_on_eq _ load_pcb-ok

    running_pcb-ok : running_pcb s ≡ some (x, s)
    unfolding running_pcb
    running_pcb-ok = go_on_eq _ (data_of-ok s s.procs.running p to) ∙ load_pcb-ok

    restore_uc-ok : restore_uc s ≡ some (x.uc, s)
    unfolding restore_uc
    restore_uc-ok = go_on_eq _ running_pcb-ok

    add_return_val-ok :
        (r : ℤ)
        → add_return_val r s
          ≡ some (tt, set_pcb s p (record x { uc = record x.uc { regs = update x.uc.regs 0 r } }))
    unfolding add_return_val
    add_return_val-ok r = go_on_eq _ (data_of-ok s s.procs.running p to) ∙ go_on_eq _ load_pcb-ok

module _ (m : Machine) (fuel : ℕ) (p : Ptr) (x : Pcb) where
  finish-ok :
      (s : Kernel) (r : ℤ)
      → PointsTo s.heap s.procs.running p
      → s.pcb p ≡ some x
      → let uc = record x.uc { regs = update x.uc.regs 0 r } in
        finish m fuel r s ≡ some (back uc, set_pcb s p (record x { uc = uc }))
  unfolding finish
  finish-ok s r to at =
      let y : Pcb = record x { uc = record x.uc { regs = update x.uc.regs 0 r } } in
      let t : Kernel = set_pcb s p y in
      go_on_eq _ (add_return_val-ok p s to x at r)
      ∙ go_on_eq _ (restore_uc-ok p t to y (update_self s.pcb p (some y)))

module _ (m : Machine) (fuel : ℕ) (p : Ptr) (x : Pcb) where
  -- Where the running process has a control block: TrapKernel, called with the number of GetPid or with
  -- one that is no call, lets the process go on with the context that it came with but for register 0,
  -- which holds its pid or what the variable return_val happened to hold; and it changes nothing but the
  -- context in the process's control block, which is that one.
  pub trap_kernel_answer :
      (e : Supply) (uc : UserContext) (s : Kernel) (r : ℤ)
      → PointsTo s.heap s.procs.running p
      → s.pcb p ≡ some x
      → ((e.decode uc.code ≡ some getpid) × (r ≡ x.pid))
        ⊎ ((e.decode uc.code ≡ none) × (r ≡ e.junk))
      → let end = record uc { regs = update uc.regs 0 r } in
        trap_kernel m fuel e uc s
        ≡ some (back end, set_pcb (set_pcb s p (record x { uc = uc })) p (record x { uc = end }))
  unfolding trap_kernel trap_call dispatch end_call kernel_get_pid
  trap_kernel_answer e uc s r to at which =
      let y : Pcb = record x { uc = uc } in
      let u : Kernel = set_pcb s p y in
      let here = update_self s.pcb p (some y) in
      go_on_eq (λ _. trap_call m fuel e (e.decode uc.code) uc.regs) (save_uc-ok p s to x at uc)
      ∙ answered u to here which
    where
      answered :
          (u : Kernel)
          → PointsTo u.heap u.procs.running p
          → u.pcb p ≡ some (record x { uc = uc })
          → ((e.decode uc.code ≡ some getpid) × (r ≡ x.pid))
            ⊎ ((e.decode uc.code ≡ none) × (r ≡ e.junk))
          → trap_call m fuel e (e.decode uc.code) uc.regs u
            ≡ some (
              back (record uc { regs = update uc.regs 0 r }),
              set_pcb u p (record x { uc = record uc { regs = update uc.regs 0 r } }),
            )
      answered u to' here (inl (is_getpid, is_pid)) =
          ap (λ c. trap_call m fuel e c uc.regs u) is_getpid
          ∙ go_on_eq _
              (go_on_eq (λ q. done (returned q)) (get_pid-ok p u to' (record x { uc = uc }) here))
          ∙ ap (λ q. finish m fuel q u) (sym is_pid)
          ∙ finish-ok m fuel p (record x { uc = uc }) u r to' here
      answered u to' here (inr (unknown, is_junk)) =
          ap (λ c. trap_call m fuel e c uc.regs u) unknown
          ∙ ap (λ q. finish m fuel q u) (sym is_junk)
          ∙ finish-ok m fuel p (record x { uc = uc }) u r to' here
