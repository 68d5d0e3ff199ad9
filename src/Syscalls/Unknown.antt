-- ===== src/Syscalls/Unknown.antt =====
-- The calls of ksrc/syscalls.c with the id of no pipe, lock or condition variable.
use mathlib.Core.Path.{subst}
use yalnix_os.Common.{ℕ, ◌<◌, ◌≡◌, refl, ap, ◌∙◌, List, [], ◌∷◌, ◌++◌, length, some}
use yalnix_os.Common.Int.{ℤ, minus_one}
use yalnix_os.Heap.{Ptr, null, Heap}
use yalnix_os.LinkedList.{find}
use yalnix_os.LinkedList.Shape.{Nodes, IsList}
use yalnix_os.LinkedList.Search.{NoneHas, IsFirst, missing, hit, find_lem}
use yalnix_os.Memory.{Machine}
use yalnix_os.Locks.{find_lock, find_cvar}
use yalnix_os.Pipes.{find_pipe}
use yalnix_os.Kernel.{Kernel, Pcb, returned, with_heap}
use yalnix_os.Kernel.Runs.{PointsTo, data_of-ok, go_on_eq}
use yalnix_os.Syscalls.{
  running_pcb, kernel_acquire, kernel_release, kernel_cvar_wait, kernel_cvar_signal,
  kernel_cvar_broadcast, kernel_pipe_read, kernel_pipe_write, kernel_reclaim,
}

NoneHas-at :
    (N : Nodes) (code : ℤ) (ys zs : List Ptr) (r : Ptr)
    → NoneHas N code (ys ++ r ∷ zs)
    → NoneHas N code (r ∷ zs)
NoneHas-at N code [] zs r none_has = none_has
NoneHas-at N code (y ∷ ys) zs r (_, none_has) = NoneHas-at N code ys zs r none_has

-- A well-formed list, shorter than the fuel, none of whose nodes has the code.
pub record Lacks (h : Heap) (list : Ptr) (fuel : ℕ) (code : ℤ) : Type 0 where
  pub nodes : List Ptr
  pub well : IsList h list nodes
  pub short : length nodes < fuel
  pub none_has : NoneHas h.node code nodes

find-null :
    (h : Heap) (list : Ptr) (fuel : ℕ) (code : ℤ)
    → Lacks h list fuel code
    → find fuel list code h ≡ some (null, h)
find-null h list fuel code lacks =
    let (r, found, first) = find_lem h list lacks.nodes lacks.well fuel code lacks.short in
    is_null r found first
  where
    is_null :
        (r : Ptr)
        → find fuel list code h ≡ some (r, h)
        → IsFirst h.node code lacks.nodes r
        → find fuel list code h ≡ some (null, h)
    is_null r found (missing e _) = found ∙ ap (λ q. some (q, h)) e
    is_null r found (hit ys zs y e at is_code _) =
        let rest = NoneHas-at h.node code ys zs r (subst (NoneHas h.node code) e lacks.none_has) in
        absurd (rest.0 y at is_code)

-- An id that no object has.
pub record IsUnknown (s : Kernel) (fuel : ℕ) (id : ℤ) : Type 0 where
  pub pipes : Lacks s.heap s.objects.pilocvar.pipe fuel id
  pub locks : Lacks s.heap s.objects.pilocvar.lock fuel id
  pub cvars : Lacks s.heap s.objects.pilocvar.cvar fuel id

module _ (m : Machine) (fuel : ℕ) (id : ℤ) (s : Kernel) (no : IsUnknown s fuel id) where
  find_lock-null : find_lock fuel id s ≡ some (null, s)
  unfolding find_lock
  find_lock-null = ap (with_heap s) (find-null s.heap s.objects.pilocvar.lock fuel id no.locks)

  find_cvar-null : find_cvar fuel id s ≡ some (null, s)
  unfolding find_cvar
  find_cvar-null = ap (with_heap s) (find-null s.heap s.objects.pilocvar.cvar fuel id no.cvars)

  find_pipe-null : find_pipe fuel id s ≡ some (null, s)
  unfolding find_pipe
  find_pipe-null = ap (with_heap s) (find-null s.heap s.objects.pilocvar.pipe fuel id no.pipes)

  module _ (p : Ptr) (x : Pcb) (to : PointsTo s.heap s.procs.running p)
      (at : s.pcb p ≡ some x) where
    running_pcb-ok : running_pcb s ≡ some (x, s)
    unfolding running_pcb
    running_pcb-ok = go_on_eq _ (data_of-ok s s.procs.running p to) ∙ rw at refl

    -- With an id that no object of the three well-formed lists has, each shorter than the fuel, and a
    -- running process with a control block: KernelAcquire, KernelRelease, KernelCvarWait with the id
    -- twice, KernelCvarSignal, KernelCvarBroadcast, KernelReclaim, and for any buffer KernelPipeRead and
    -- KernelPipeWrite return ERROR and change nothing.
    pub unknown_id :
        (kernel_acquire m fuel id s ≡ some (returned minus_one, s))
        × (kernel_release m fuel id s ≡ some (returned minus_one, s))
        × (kernel_cvar_wait m fuel id id s ≡ some (returned minus_one, s))
        × (kernel_cvar_signal m fuel id s ≡ some (returned minus_one, s))
        × (kernel_cvar_broadcast m fuel id s ≡ some (returned minus_one, s))
        × (kernel_reclaim m fuel id s ≡ some (returned minus_one, s))
        × ((buf len : ℕ) → kernel_pipe_read m fuel id buf len s ≡ some (returned minus_one, s))
        × ((junk : ℤ) (buf len : ℕ)
            → kernel_pipe_write m fuel junk id buf len s ≡ some (returned minus_one, s))
    unfolding kernel_acquire kernel_release kernel_cvar_wait kernel_cvar_signal
        kernel_cvar_broadcast kernel_reclaim kernel_pipe_read kernel_pipe_write
    unknown_id = (
      go_on_eq _ find_lock-null,
      go_on_eq _ find_lock-null,
      go_on_eq _ find_lock-null ∙ go_on_eq _ find_cvar-null,
      go_on_eq _ find_cvar-null,
      go_on_eq _ find_cvar-null,
      go_on_eq _ find_lock-null ∙ go_on_eq _ find_cvar-null ∙ go_on_eq _ find_pipe-null,
      λ buf len. go_on_eq _ find_pipe-null ∙ go_on_eq _ running_pcb-ok,
      λ junk buf len. go_on_eq _ find_pipe-null ∙ go_on_eq _ running_pcb-ok,
    )
