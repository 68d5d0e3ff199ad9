-- ===== src/Pipes/Effect.antt =====
-- What runs of `write_pipe` and `read_pipe` of ksrc/pilocvario.c leave of the pipe, whatever the queues hold.

use yalnix_os.Common.{
  ℕ, ◌+◌, ◌-◌, ◌≡◌, refl, sym, ap, ◌∙◌, Bool, true, false, some, ltb, ◌==◌, if◌then◌else◌, update,
  update_self,
}
use yalnix_os.Common.Int.{ℤ, pos, pred, ◌+ℤ◌}
use yalnix_os.Heap.{Ptr}
use yalnix_os.LinkedList.{is_empty, get_size}
use yalnix_os.Buffer.{Buffer, Memory, write_buffer, read_buffer}
use yalnix_os.Sched.{block, unblock_all}
use yalnix_os.Sched.Quiet.{block-IsQuiet, unblock_all-IsQuiet}
use yalnix_os.Kernel.{
  Kernel, Objects, Pipe, Outcome, in_read_pipe, in_write_pipe, returned, suspended, KernelCmd, done,
  ◌>>=◌, ◌>>◌, go_on, on_heap, load_pipe, store_pipe, set_pipe, overwrite,
}
use yalnix_os.Kernel.Runs.{PointsTo, data_of-ok, go_on_inv, go_on_eq, on_heap_inv, of_run, IsQuiet}
use yalnix_os.Pipes.{try_write_pipe, try_read_pipe, wake_all, fulfill}

-- At `p` there is the pipe `b`, but for its `unfulfilled`.
pub record HasPipe (t : Kernel) (p : Ptr) (b : Pipe) : Type 0 where
  pub count : ℤ
  pub at : t.objects.pipe p ≡ some (record b { unfulfilled = count })

HasPipe-same :
    (t u : Kernel) (p : Ptr) (b : Pipe) → u.objects ≡ t.objects → HasPipe t p b → HasPipe u p b
HasPipe-same t u p b same has = record {
  count = has.count;
  at = ap (λ (x : Objects). x.pipe p) same ∙ has.at;
}

-- A command that leaves the objects alone, and then returns.
HasPipe-quiet :
    {A : Type 0} (p : Ptr) (b : Pipe) (c : KernelCmd (Unit {0})) (r : A) (o : A) (s t : Kernel)
    → IsQuiet c
    → HasPipe s p b
    → go_on (c s) (λ _. done r) ≡ some (o, t)
    → HasPipe t p b
HasPipe-quiet p b c r o s t quiet has e =
    let (a, u, ran, rest) = go_on_inv (c s) (λ _. done r) o t e in
    of_run (λ _ v. HasPipe v p b) r o u t rest (HasPipe-same s u p b (quiet.objects s a u ran) has)

wake_all-HasPipe :
    (fuel p : ℕ) (b : Pipe) (list : Ptr) (a : Unit {0}) (s t : Kernel)
    → HasPipe s p b
    → wake_all fuel p b list s ≡ some (a, t)
    → HasPipe t p b
unfolding wake_all
wake_all-HasPipe fuel p b list a s t has e =
    let (empty, u, asked, rest) = go_on_inv (on_heap (is_empty list) s) next a t e in
    let (h, _, same) = on_heap_inv s (is_empty list s.heap) empty u asked in
    woken empty u (HasPipe-same s u p b (ap (λ (k : Kernel). k.objects) same) has) rest
  where
    counted : ℤ → KernelCmd (Unit {0})
    counted size = do
      store_pipe p (record b { unfulfilled = b.unfulfilled +ℤ size })
      unblock_all fuel list

    next : Bool → KernelCmd (Unit {0})
    next empty = if empty then done tt else (on_heap (get_size list) >>= counted)

    woken : (empty : Bool) (u : Kernel) → HasPipe u p b → next empty u ≡ some (a, t) → HasPipe t p b
    woken true u now r = of_run (λ _ v. HasPipe v p b) tt a u t r now
    woken false u now r =
        let (size, v, _, rest) = go_on_inv (on_heap (get_size list) u) counted a t r in
        let stored : HasPipe
            (set_pipe v p (some (record b { unfulfilled = b.unfulfilled +ℤ size }))) p b =
          record { count = b.unfulfilled +ℤ size; at = update_self v.objects.pipe p _ } in
        HasPipe-same (set_pipe v p (some (record b { unfulfilled = b.unfulfilled +ℤ size }))) t p b
          ((unblock_all-IsQuiet fuel list).objects _ a t rest) stored

-- The bytes that the running process has from `src` on.
abbrev pub own_bytes : Kernel → ℕ → Memory
own_bytes s src i = s.user s.procs.running (src + i)

module _ (n p : Ptr) (b : Pipe) (s : Kernel) (to : PointsTo s.heap n p)
    (at : s.objects.pipe p ≡ some b) where
  pub load_pipe-ok : load_pipe p s ≡ some (b, s)
  load_pipe-ok = rw at refl

  after : Buffer → Kernel
  after q = set_pipe s p (some (record b { buffer = q }))

  after-HasPipe : (q : Buffer) → HasPipe (after q) p (record b { buffer = q })
  unfolding after
  after-HasPipe q = record { count = b.unfulfilled; at = update_self s.objects.pipe p _ }

  -- A run of the writer's loop leaves what `write_buffer` makes of the buffer.
  pub try_write_pipe-HasPipe :
      (fuel src len len_left : ℕ) (total : ℤ) (o : Outcome) (t : Kernel)
      → try_write_pipe fuel n src len len_left total s ≡ some (o, t)
      → HasPipe t p (record b { buffer = (write_buffer b.buffer (own_bytes s src) len).0 })
  unfolding try_write_pipe after
  try_write_pipe-HasPipe fuel src len len_left total o t e =
      split (ltb w len_left) (sym (go_on_eq _ (data_of-ok s n p to) ∙ go_on_eq _ load_pipe-ok) ∙ e)
    where
      q : Buffer
      q = (write_buffer b.buffer (own_bytes s src) len).0

      w : ℕ
      w = (write_buffer b.buffer (own_bytes s src) len).1

      split :
          (c : Bool)
          → (if c
                then (do
                  block b.writeblocked
                  done (suspended (in_write_pipe n (src + w) len (len_left - w) (total +ℤ pos w))))
                else (do
                  wake_all fuel p (record b { buffer = q }) b.readblocked
                  done (returned total)))
              (after q)
            ≡ some (o, t)
          → HasPipe t p (record b { buffer = q })
      split true r =
          HasPipe-quiet p _ (block b.writeblocked) _ o (after q) t (block-IsQuiet b.writeblocked)
            (after-HasPipe q) r
      split false r =
          let (a, u, woke, rest) =
            go_on_inv (wake_all fuel p (record b { buffer = q }) b.readblocked (after q))
              (λ _. done (returned total)) o t r in
          of_run (λ _ v. HasPipe v p (record b { buffer = q })) _ o u t rest
            (wake_all-HasPipe fuel p (record b { buffer = q }) b.readblocked a (after q) u
              (after-HasPipe q) woke)

  -- A run of the reader's loop leaves what `read_buffer` makes of the buffer.
  pub try_read_pipe-HasPipe :
      (fuel dst len : ℕ) (o : Outcome) (t : Kernel)
      → try_read_pipe fuel n dst len s ≡ some (o, t)
      → HasPipe t p (record b { buffer = (read_buffer b.buffer len).0 })
  unfolding try_read_pipe after
  try_read_pipe-HasPipe fuel dst len o t e =
      split (k == 0) (sym (go_on_eq _ (data_of-ok s n p to) ∙ go_on_eq _ load_pipe-ok) ∙ e)
    where
      q : Buffer
      q = (read_buffer b.buffer len).0

      k : ℕ
      k = (read_buffer b.buffer len).2

      stored : Kernel
      stored = record (after q) {
        user =
            update s.user s.procs.running
              (overwrite (s.user s.procs.running) dst (read_buffer b.buffer len).1);
      }

      now : HasPipe stored p (record b { buffer = q })
      now = record { count = b.unfulfilled; at = update_self s.objects.pipe p _ }

      split :
          (c : Bool)
          → (if c then (do block b.readblocked; done (suspended (in_read_pipe n dst len))) else (do
            wake_all fuel p (record b { buffer = q }) b.writeblocked
            done (returned (pos k))))
              stored
            ≡ some (o, t)
          → HasPipe t p (record b { buffer = q })
      split true r =
          HasPipe-quiet p _ (block b.readblocked) _ o stored t (block-IsQuiet b.readblocked) now r
      split false r =
          let (a, u, woke, rest) =
            go_on_inv (wake_all fuel p (record b { buffer = q }) b.writeblocked stored)
              (λ _. done (returned (pos k))) o t r in
          of_run (λ _ v. HasPipe v p (record b { buffer = q })) _ o u t rest
            (wake_all-HasPipe fuel p (record b { buffer = q }) b.writeblocked a stored u now woke)

  pub fulfill-HasPipe : (a : Unit {0}) (t : Kernel) → fulfill n s ≡ some (a, t) → HasPipe t p b
  unfolding fulfill
  fulfill-HasPipe a t e =
      of_run (λ _ v. HasPipe v p b) tt a _ t
        (sym (go_on_eq _ (data_of-ok s n p to) ∙ go_on_eq _ load_pipe-ok) ∙ e)
        (record { count = pred b.unfulfilled; at = update_self s.objects.pipe p _ })
