-- ===== src/Locks/Exclusion.antt =====
-- A lock of ksrc/pilocvario.c among processes that acquire and release it in any order.
use mathlib.Core.Path.{subst}
use yalnix_os.Common.{
  ℕ, ◌+◌, ◌≡◌, refl, sym, ap, ◌∙◌, ◌≢◌, ◌⊎◌, inl, inr, Bool, true, false, some, ◌==◌, if◌then◌else◌,
  arith, update_self, ==_iff,
}
use yalnix_os.Common.Int.{ℤ, pos, minus_one, pred, incr, pred-pos}
use yalnix_os.Heap.{Ptr, null, Heap}
use yalnix_os.LinkedList.{is_empty}
use yalnix_os.Kernel.{Kernel, Lock, Outcome, set_lock}
use yalnix_os.Kernel.Runs.{PointsTo, data_of-ok, go_on_eq}
use yalnix_os.Locks.{try_acquire, wake_acquire}
use yalnix_os.Locks.Effect.{
  Acquires, takes, blocks, try_acquire-Acquires, Releases, refuses, gives, release-Releases,
  load_lock-ok,
}
use yalnix_os.Locks.Steps.{
  Ghost, entered, left, LockStep, acquires, wakes, releases, fails, counts, others, LockSteps, here,
  next, IsLocked,
}

-- A step that takes or keeps the lock.
entered-IsLocked :
    (p : Ptr) (s t : Kernel) (g : Ghost) (i : IsLocked p s g) (n : Ptr) (o : Outcome)
    → s.procs.running ≢ null
    → Acquires n p i.lock s t o
    → IsLocked p t (entered o s.procs.running g)
entered-IsLocked p s t g i n _ some_one (takes free now) = record {
  lock = record i.lock { owner = s.procs.running };
  at = now;
  owns = λ q h. owner_at q (s.procs.running == q) refl h;
  held = λ ne. update_self g.holders s.procs.running true;
  promised = i.promised;
}
  where
    owner_at :
        (q : Ptr) (b : Bool)
        → (s.procs.running == q) ≡ b
        → (if b then true else g.holders q) ≡ true
        → (s.procs.running ≡ q) × (q ≢ null)
    owner_at q true e h =
        let same : s.procs.running ≡ q = (==_iff s.procs.running q).0 e in
        (same, λ zero. some_one (same ∙ zero))
    owner_at q false e h =
        let (own, ne) = i.owns q h in
        let other : s.procs.running ≢ q = ground arith in absurd (not_free q own ne other free)
      where
        not_free :
            (q : Ptr)
            → i.lock.owner ≡ q
            → q ≢ null
            → s.procs.running ≢ q
            → (i.lock.owner ≡ null) ⊎ (i.lock.owner ≡ s.procs.running)
            → ⊥
        not_free q own ne other (inl free) = ne (sym own ∙ free)
        not_free q own ne other (inr mine) = other (sym mine ∙ own)
entered-IsLocked p s t g i n _ some_one (blocks taken other same) = record {
  lock = i.lock;
  at = same;
  owns = i.owns;
  held = i.held;
  promised = i.promised;
}

left-IsLocked :
    (p : Ptr) (s t : Kernel) (g : Ghost) (i : IsLocked p s g) (empty : Bool) (h : Heap) (r : ℤ)
    → r ≡ pos 0
    → s.procs.running ≢ null
    → is_empty i.lock.blocked s.heap ≡ some (empty, h)
    → Releases p i.lock s t r
    → IsLocked p t (left empty s.procs.running g)
left-IsLocked p s t g i empty h _ zero some_one asked (refuses other same) = cc
left-IsLocked p s t g i empty h _ zero some_one asked (gives empty' h' own asked' now) =
    let one : empty ≡ empty' = cc in
    record {
      lock = record i.lock {
        owner = null;
        unfulfilled = if empty' then i.lock.unfulfilled else incr i.lock.unfulfilled;
      };
      at = now;
      owns = λ q k. nobody q (s.procs.running == q) refl k;
      held = λ ne. absurd (ne refl);
      promised = rw one (count empty');
    }
  where
    nobody :
        (q : Ptr) (b : Bool)
        → (s.procs.running == q) ≡ b
        → (if b then false else g.holders q) ≡ true
        → (null ≡ q) × (q ≢ null)
    nobody q true e k = cc
    nobody q false e k =
        let same : s.procs.running ≡ q = sym own ∙ (i.owns q k).0 in
        let other : s.procs.running ≢ q = ground arith in absurd (other same)

    count :
        (b : Bool)
        → (if b then i.lock.unfulfilled else incr i.lock.unfulfilled)
          ≡ pos (if b then g.woken else g.woken + 1)
    count true = i.promised
    count false = rw i.promised refl

-- The state in which a woken process goes on: it is no longer counted.
counted_down :
    (p : Ptr) (s : Kernel) (g : Ghost) (k : ℕ) (i : IsLocked p s g)
    → g.woken ≡ k + 1
    → IsLocked p
        (set_lock s p (some (record i.lock { unfulfilled = pred i.lock.unfulfilled })))
        (record g { woken = k })
counted_down p s g k i some_woken = record {
  lock = record i.lock { unfulfilled = pred i.lock.unfulfilled };
  at = update_self s.objects.lock p _;
  owns = i.owns;
  held = i.held;
  promised = ap pred (i.promised ∙ ap pos some_woken) ∙ pred-pos k;
}

wake_acquire-try_acquire :
    (p n : Ptr) (s : Kernel) (l : Lock)
    → PointsTo s.heap n p
    → s.objects.lock p ≡ some l
    → wake_acquire n s
      ≡ try_acquire n (set_lock s p (some (record l { unfulfilled = pred l.unfulfilled })))
unfolding wake_acquire
wake_acquire-try_acquire p n s l to at =
    let d = data_of-ok s n p to in go_on_eq _ d ∙ go_on_eq _ (load_lock-ok n p l s d at)

LockStep-IsLocked :
    (p : Ptr) (s : Kernel) (g : Ghost) (t : Kernel) (k : Ghost)
    → LockStep p s g t k
    → IsLocked p s g
    → IsLocked p t k
LockStep-IsLocked p s g t _ (acquires n o to ne run) i =
    entered-IsLocked p s t g i n o ne
      (try_acquire-Acquires n p i.lock s (data_of-ok s n p to) i.at o t run)
LockStep-IsLocked p s g t _ (wakes n o k to ne some_woken run) i =
    let j = counted_down p s g k i some_woken in
    let u : Kernel =
      set_lock s p (some (record i.lock { unfulfilled = pred i.lock.unfulfilled })) in
    entered-IsLocked p u t (record g { woken = k }) j n o ne
      (try_acquire-Acquires n p j.lock u (data_of-ok u n p to) j.at o t
        (sym (wake_acquire-try_acquire p n s i.lock to i.at) ∙ run))
LockStep-IsLocked p s g t _ (releases n l empty h to ne at asked run) i =
    let same : l ≡ i.lock = cc (i.at) in
    left-IsLocked p s t g i empty h (pos 0) refl ne
      (ap (λ (x : Lock). is_empty x.blocked s.heap) (sym same) ∙ asked)
      (release-Releases n p i.lock s (data_of-ok s n p to) i.at (pos 0) t run)
LockStep-IsLocked p s g t _ (fails n to run) i =
    refused (release-Releases n p i.lock s (data_of-ok s n p to) i.at minus_one t run)
  where
    refused_any : (r : ℤ) → r ≡ minus_one → Releases p i.lock s t r → IsLocked p t g
    refused_any _ e (refuses other same) = subst (λ u. IsLocked p u g) (sym same) i
    refused_any _ e (gives empty h own asked now) = cc

    refused : Releases p i.lock s t minus_one → IsLocked p t g
    refused = refused_any minus_one refl
LockStep-IsLocked p s g t _ (counts l c at now) i =
    let same : l ≡ i.lock = cc (i.at) in
    record {
      lock = record l { cvar = c };
      at = now;
      owns = λ q h. (ap (λ (x : Lock). x.owner) same ∙ (i.owns q h).0, (i.owns q h).1);
      held = rw same (i.held);
      promised = ap (λ (x : Lock). x.unfulfilled) same ∙ i.promised;
    }
LockStep-IsLocked p s g t _ (others same) i = record {
  lock = i.lock;
  at = same ∙ i.at;
  owns = i.owns;
  held = i.held;
  promised = i.promised;
}

-- Every sequence of such steps preserves this.
pub LockSteps-IsLocked :
    (p : Ptr) {s : Kernel} {g : Ghost} {t : Kernel} {k : Ghost}
    → IsLocked p s g
    → LockSteps p s g t k
    → IsLocked p t k
LockSteps-IsLocked p i here = i
LockSteps-IsLocked p i (next run step) =
    LockStep-IsLocked p _ _ _ _ step (LockSteps-IsLocked p i run)

-- From a state in which the owner of a lock is its one holder, however processes then acquire and
-- release it and are woken in acquire: two holders of the lock are the same process, and it is the
-- lock's owner.
pub one_holder :
    (p : Ptr) {s : Kernel} {g : Ghost} {t : Kernel} {k : Ghost}
    → IsLocked p s g
    → LockSteps p s g t k
    → (a b : Ptr) → k.holders a ≡ true
    → k.holders b ≡ true
    → (l : Lock) × (t.objects.lock p ≡ some l) × (l.owner ≡ a) × (a ≡ b)
one_holder p i run a b ha hb =
    let j = LockSteps-IsLocked p i run in
    (j.lock, j.at, (j.owns a ha).0, sym (j.owns a ha).0 ∙ (j.owns b hb).0)
