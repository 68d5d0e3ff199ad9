-- ===== src/Locks/Destroy.antt =====
-- When `destroy_lock` of ksrc/pilocvario.c gives in.
use yalnix_os.Common.{
  ◌≡◌, refl, sym, ap, ◌∙◌, ◌⊎◌, inl, inr, Bool, Bool-cases, true, false, Option, some, not, ◌||◌,
  ◌==◌, if◌then◌else◌, ==_iff,
}
use yalnix_os.Common.Int.{ℤ, pos, minus_one, is_positive, not_positive}
use yalnix_os.Heap.{Ptr, null, Heap}
use yalnix_os.LinkedList.{is_empty}
use yalnix_os.Kernel.{Kernel, Lock, done, ◌>>=◌, on_heap}
use yalnix_os.Kernel.Runs.{PointsTo, data_of-ok, go_on_inv, on_heap_inv, go_on_eq}
use yalnix_os.Locks.{destroy_lock, tear_down}
use yalnix_os.Locks.Effect.{load_lock-ok}
use yalnix_os.Locks.Steps.{Ghost, IsLocked, LockSteps}
use yalnix_os.Locks.Exclusion.{LockSteps-IsLocked}

-- The lock has no owner, an empty list of blocked processes, and no process that was woken and has
-- yet to run.
pub record IsUnused (l : Lock) (h : Heap) : Type 0 where
  pub free : l.owner ≡ null
  pub after : Heap
  pub unblocked : is_empty l.blocked h ≡ some (true, after)
  pub kept_promises : is_positive l.unfulfilled ≡ false

module _ (n p : Ptr) (l : Lock) (s : Kernel) (to : PointsTo s.heap n p)
    (at : s.objects.lock p ≡ some l) where
  destroy_lock-IsUnused : (t : Kernel) → destroy_lock n s ≡ some (pos 0, t) → IsUnused l s.heap
  unfolding destroy_lock
  destroy_lock-IsUnused t e =
      let d = data_of-ok s n p to in
      split (l.owner == null) refl (sym (go_on_eq _ d ∙ go_on_eq _ (load_lock-ok n p l s d at)) ∙ e)
    where
      rest : Bool → Kernel → Option (ℤ × Kernel)
      rest empty =
          if not empty || is_positive l.unfulfilled || is_positive l.cvar
          then done minus_one
          else tear_down n p l

      unused :
          (a b c : Bool) (u : Kernel) (h : Heap)
          → (l.owner == null) ≡ true
          → is_empty l.blocked s.heap ≡ some (a, h)
          → is_positive l.unfulfilled ≡ b
          → is_positive l.cvar ≡ c
          → (if not a || b || c then done minus_one else tear_down n p l) u ≡ some (pos 0, t)
          → IsUnused l s.heap
      unused true false false u h own asked eb ec f = record {
        free = (==_iff l.owner null).0 own;
        after = h;
        unblocked = asked;
        kept_promises = eb;
      }
      unused false b c u h own asked eb ec f = cc
      unused true true c u h own asked eb ec f = cc
      unused true false true u h own asked eb ec f = cc

      split :
          (a : Bool)
          → (l.owner == null) ≡ a
          → (if not a then done minus_one else (on_heap (is_empty l.blocked) >>= rest)) s
            ≡ some (pos 0, t)
          → IsUnused l s.heap
      split false e f = cc
      split true e f =
          let (empty, u, asked, g) = go_on_inv (on_heap (is_empty l.blocked) s) rest (pos 0) t f in
          let (h, known, same) = on_heap_inv s (is_empty l.blocked s.heap) empty u asked in
          unused empty (is_positive l.unfulfilled) (is_positive l.cvar) u h e known refl refl g

  -- From a state in which the owner of a lock is its one holder and `unfulfilled` counts the woken
  -- processes, however processes then use the lock: where destroy_lock returns 0, no process holds
  -- the lock, none was woken in acquire and has not yet run, and the lock has no owner and an
  -- empty list of blocked processes.
  pub destroy_lock_safe :
      {s0 : Kernel} {g0 g : Ghost}
      → IsLocked p s0 g0
      → LockSteps p s0 g0 s g
      → (t : Kernel) → destroy_lock n s ≡ some (pos 0, t)
      → ((q : Ptr) → g.holders q ≡ false) × (g.woken ≡ 0) × IsUnused l s.heap
  destroy_lock_safe {g = g} i run t e =
      let j = LockSteps-IsLocked p i run in
      let unused = destroy_lock-IsUnused t e in
      let same : l ≡ j.lock = cc (j.at) in
      (
        λ q. nobody q (Bool-cases (g.holders q)) j same unused,
        not_positive g.woken (
            ap is_positive (sym j.promised)
            ∙ ap (λ (x : Lock). is_positive x.unfulfilled) (sym same)
            ∙ unused.kept_promises),
        unused,
      )
    where
      nobody :
          (q : Ptr)
          → (g.holders q ≡ true) ⊎ (g.holders q ≡ false)
          → (j : IsLocked p s g) → l ≡ j.lock
          → IsUnused l s.heap
          → g.holders q ≡ false
      nobody q (inl h) j same unused =
          let (own, ne) = j.owns q h in
          absurd (ne (sym own ∙ ap (λ (x : Lock). x.owner) (sym same) ∙ unused.free))
      nobody q (inr none_held) j same unused = none_held
