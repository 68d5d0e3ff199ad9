-- ===== src/Locks/Effect.antt =====
-- What runs of `acquire` and `release` of ksrc/pilocvario.c do to the lock, whatever the queues hold.
use yalnix_os.Common.{
  ◌≡◌, refl, sym, ap, ◌∙◌, ◌≢◌, ◌⊎◌, inl, inr, Bool, true, false, Option, some, not, ◌||◌, ◌==◌,
  if◌then◌else◌, arith, update_self, ==_iff,
}
use yalnix_os.Common.Int.{ℤ, pos, minus_one, incr}
use yalnix_os.Heap.{Ptr, null, Heap}
use yalnix_os.LinkedList.{is_empty}
use yalnix_os.Kernel.{
  Kernel, Objects, Lock, Outcome, in_acquire, returned, suspended, done, ◌>>=◌, ◌>>◌, on_heap,
  load_lock, store_lock, set_lock, data_of,
}
use yalnix_os.Kernel.Runs.{go_on_inv, on_heap_inv, go_on_eq, of_run}
use yalnix_os.Sched.{block, unblock_head}
use yalnix_os.Sched.Quiet.{block-IsQuiet}
use yalnix_os.Locks.{try_acquire, release, hand_on}

-- How a run of `acquire` from `s` to `t` can end, with the lock `l` at `p`: it takes the lock, which was
-- free or the process's own, or it blocks, since another process has the lock.
pub data Acquires (n p : Ptr) (l : Lock) (s t : Kernel) : Outcome → Type 0 where
  takes :
      (l.owner ≡ null) ⊎ (l.owner ≡ s.procs.running)
      → t.objects.lock p ≡ some (record l { owner = s.procs.running })
      → Acquires n p l s t (returned (pos 0))
  blocks :
      l.owner ≢ null
      → l.owner ≢ s.procs.running
      → t.objects.lock p ≡ some l
      → Acquires n p l s t (suspended (in_acquire n))

-- How a run of `release` can end: the process does not own the lock, and nothing changes; or it gives
-- the lock up, and counts the first of the blocked processes, where there is one, as on its way.
pub data Releases (p : Ptr) (l : Lock) (s t : Kernel) : ℤ → Type 0 where
  refuses : l.owner ≢ s.procs.running → t ≡ s → Releases p l s t minus_one
  gives :
      (empty : Bool) (h : Heap)
      → l.owner ≡ s.procs.running
      → is_empty l.blocked s.heap ≡ some (empty, h)
      → t.objects.lock p
        ≡ some (record l {
          owner = null;
          unfulfilled = if empty then l.unfulfilled else incr l.unfulfilled;
        })
      → Releases p l s t (pos 0)

module _ (n p : Ptr) (l : Lock) (s : Kernel) (d : data_of n s ≡ some (p, s))
    (at : s.objects.lock p ≡ some l) where
  pub load_lock-ok : load_lock p s ≡ some (l, s)
  load_lock-ok = rw at refl

  pub try_acquire-Acquires :
      (o : Outcome) (t : Kernel) → try_acquire n s ≡ some (o, t) → Acquires n p l s t o
  unfolding try_acquire
  try_acquire-Acquires o t e =
      split (l.owner == null) (l.owner == s.procs.running) refl refl
        (sym (go_on_eq _ d ∙ go_on_eq _ load_lock-ok) ∙ e)
    where
      taken :
          (l.owner ≡ null) ⊎ (l.owner ≡ s.procs.running)
          → ◌≡◌ {A = Option (Outcome × Kernel)}
              (some (returned (pos 0), set_lock s p (some (record l { owner = s.procs.running }))))
              (some (o, t))
          → Acquires n p l s t o
      taken free r =
          of_run (λ b u. Acquires n p l s u b) _ o _ t r
            (takes free (update_self s.objects.lock p _))

      split :
          (a b : Bool)
          → (l.owner == null) ≡ a
          → (l.owner == s.procs.running) ≡ b
          → (if a || b
                then (do
                  store_lock p (record l { owner = s.procs.running })
                  done (returned (pos 0)))
                else (do block l.blocked; done (suspended (in_acquire n))))
              s
            ≡ some (o, t)
          → Acquires n p l s t o
      split true b ea eb r = taken (inl ((==_iff l.owner null).0 ea)) r
      split false true ea eb r = taken (inr ((==_iff l.owner s.procs.running).0 eb)) r
      split false false ea eb r =
          let (_, u, blocked, rest) =
            go_on_inv (block l.blocked s) (λ _. done (suspended (in_acquire n))) o t r in
          let kept = (block-IsQuiet l.blocked).objects s _ u blocked in
          of_run (λ b v. Acquires n p l s v b) _ o _ t rest
            (blocks (ground arith) (ground arith) (ap (λ (x : Objects). x.lock p) kept ∙ at))

  load_lock_after :
      (t : Kernel) (k : Lock) → t.objects.lock p ≡ some k → load_lock p t ≡ some (k, t)
  load_lock_after t k e = rw e refl

  -- Handing the lock on counts the process that is on its way.
  hand_on_lem :
      (a : Unit {0}) (t : Kernel)
      → hand_on p l s ≡ some (a, t)
      → (empty : Bool) × (h : Heap) × (is_empty l.blocked s.heap ≡ some (empty, h))
        × (t.objects.lock p
            ≡ some (record l { unfulfilled = if empty then l.unfulfilled else incr l.unfulfilled }))
  unfolding hand_on
  hand_on_lem a t e =
      let (empty, u, asked, rest) =
        go_on_inv (on_heap (is_empty l.blocked) s)
          (λ b. if b then done tt else (do
            unblock_head l.blocked
            store_lock p (record l { unfulfilled = incr l.unfulfilled })))
          a t e in
      let (h, known, same) = on_heap_inv s (is_empty l.blocked s.heap) empty u asked in
      (empty, h, known, split empty u (ap (λ (k : Kernel). k.objects.lock p) same ∙ at) rest)
    where
      split :
          (b : Bool) (u : Kernel)
          → u.objects.lock p ≡ some l
          → (if b then done tt else (do
            unblock_head l.blocked
            store_lock p (record l { unfulfilled = incr l.unfulfilled })))
              u
            ≡ some (a, t)
          → t.objects.lock p
            ≡ some (record l { unfulfilled = if b then l.unfulfilled else incr l.unfulfilled })
      split true u here r = of_run (λ _ v. v.objects.lock p ≡ some l) _ a _ t r here
      split false u here r =
          let (_, v, _, stored) =
            go_on_inv (unblock_head l.blocked u)
              (λ _. store_lock p (record l { unfulfilled = incr l.unfulfilled })) a t r in
          of_run (λ _ w. w.objects.lock p ≡ some (record l { unfulfilled = incr l.unfulfilled })) _
            a _ t stored (update_self v.objects.lock p _)

  pub release-Releases : (r : ℤ) (t : Kernel) → release n s ≡ some (r, t) → Releases p l s t r
  unfolding release
  release-Releases r t e =
      split (l.owner == s.procs.running) refl (sym (go_on_eq _ d ∙ go_on_eq _ load_lock-ok) ∙ e)
    where
      split :
          (b : Bool)
          → (l.owner == s.procs.running) ≡ b
          → (if not b then done minus_one else (do
            hand_on p l
            k ← load_lock p
            store_lock p (record k { owner = null })
            done (pos 0)))
              s
            ≡ some (r, t)
          → Releases p l s t r
      split false other f =
          of_run (λ q u. Releases p l s u q) _ r _ t f (refuses (ground arith) refl)
      split true own f =
          let (_, u, handed, rest) =
            go_on_inv (hand_on p l s)
              (λ _. do k ← load_lock p; store_lock p (record k { owner = null }); done (pos 0)) r t
              f in
          let (empty, h, asked, now) = hand_on_lem _ u handed in
          of_run (λ q v. Releases p l s v q) _ r _ t
            (sym (go_on_eq _ (load_lock_after u _ now)) ∙ rest)
            (gives empty h ((==_iff l.owner s.procs.running).0 own) asked
              (update_self u.objects.lock p _))
