-- ===== src/Locks/Steps.antt =====
-- The steps of processes that acquire and release a lock of ksrc/pilocvario.c in any order.

use yalnix_os.Common.{ℕ, ◌+◌, ◌≡◌, ◌≢◌, Bool, true, false, some, if◌then◌else◌, update}
use yalnix_os.Common.Int.{ℤ, pos, minus_one}
use yalnix_os.Heap.{Ptr, null, Heap}
use yalnix_os.LinkedList.{is_empty}
use yalnix_os.Kernel.{Kernel, Lock, Outcome, returned, suspended, exited, halted}
use yalnix_os.Kernel.Runs.{PointsTo}
use yalnix_os.Locks.{try_acquire, wake_acquire, release}

-- What no variable of the kernel records: which processes have the lock, by the results that they
-- saw, and how many have been woken in `acquire` and have not yet run.
pub record Ghost : Type 0 where
  pub holders : Ptr → Bool
  pub woken : ℕ

abbrev pub entered : Outcome → Ptr → Ghost → Ghost
entered (returned r) proc g = record g { holders = update g.holders proc true }
entered (suspended w) proc g = g
entered exited proc g = g
entered halted proc g = g

abbrev pub left : Bool → Ptr → Ghost → Ghost
left empty proc g = record {
  holders = update g.holders proc false;
  woken = if empty then g.woken else g.woken + 1;
}

-- One step of the kernel, as far as the lock at `p` is concerned.
pub data LockStep (p : Ptr) (s : Kernel) (g : Ghost) (t : Kernel) : Ghost → Type 0 where
  acquires :
      (n : Ptr) (o : Outcome)
      → PointsTo s.heap n p
      → s.procs.running ≢ null
      → try_acquire n s ≡ some (o, t)
      → LockStep p s g t (entered o s.procs.running g)
  wakes :
      (n : Ptr) (o : Outcome) (k : ℕ)
      → PointsTo s.heap n p
      → s.procs.running ≢ null
      → g.woken ≡ k + 1
      → wake_acquire n s ≡ some (o, t)
      → LockStep p s g t (entered o s.procs.running (record g { woken = k }))
  releases :
      (n : Ptr) (l : Lock) (empty : Bool) (h : Heap)
      → PointsTo s.heap n p
      → s.procs.running ≢ null
      → s.objects.lock p ≡ some l
      → is_empty l.blocked s.heap ≡ some (empty, h)
      → release n s ≡ some (pos 0, t)
      → LockStep p s g t (left empty s.procs.running g)
  fails : (n : Ptr) → PointsTo s.heap n p → release n s ≡ some (minus_one, t) → LockStep p s g t g
  counts :
      (l : Lock) (c : ℤ)
      → s.objects.lock p ≡ some l
      → t.objects.lock p ≡ some (record l { cvar = c })
      → LockStep p s g t g
  others : t.objects.lock p ≡ s.objects.lock p → LockStep p s g t g

pub data LockSteps (p : Ptr) (s : Kernel) (g : Ghost) : Kernel → Ghost → Type 0 where
  here : LockSteps p s g s g
  next :
      {t u : Kernel} {k m : Ghost} → LockSteps p s g t k → LockStep p t k u m → LockSteps p s g u m

-- The owner is the one holder, and `unfulfilled` counts the processes on their way.
pub record IsLocked (p : Ptr) (s : Kernel) (g : Ghost) : Type 0 where
  pub lock : Lock
  pub at : s.objects.lock p ≡ some lock
  pub owns : (q : Ptr) → g.holders q ≡ true → (lock.owner ≡ q) × (q ≢ null)
  pub held : lock.owner ≢ null → g.holders lock.owner ≡ true
  pub promised : lock.unfulfilled ≡ pos g.woken
