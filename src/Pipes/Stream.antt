-- ===== src/Pipes/Stream.antt =====
-- The bytes that go through a pipe of ksrc/pilocvario.c, in any order of readers and writers.
use mathlib.Core.Path.{subst}
use mathlib.Core.List.{append_assoc}
use yalnix_os.Common.{ℕ, zero, suc, [], ◌∷◌, ◌≡◌, refl, sym, ap, ◌∙◌, List, ◌++◌, some, take, drop}
use yalnix_os.Common.Int.{ℤ}
use yalnix_os.Heap.{Ptr}
use yalnix_os.Buffer.{write_buffer, read_buffer}
use yalnix_os.Buffer.Slots.{bytes}
use yalnix_os.Buffer.Fifo.{IsValid, contents, write_buffer_lem, read_buffer_lem}
use yalnix_os.Kernel.{Kernel, Pipe, Outcome}
use yalnix_os.Kernel.Runs.{PointsTo}
use yalnix_os.Pipes.{try_write_pipe, try_read_pipe, fulfill}
use yalnix_os.Pipes.Effect.{
  own_bytes, try_write_pipe-HasPipe, try_read_pipe-HasPipe, fulfill-HasPipe,
}

-- The bytes that writers have put into the pipe and that readers have got out, the oldest first.
pub record Traffic : Type 0 where
  pub written : List ℕ
  pub taken : List ℕ

-- One step of the kernel, as far as the pipe at `p` is concerned.
pub data PipeStep (p : Ptr) (s : Kernel) (g : Traffic) (t : Kernel) : Traffic → Type 0 where
  writes :
      (n : Ptr) (b : Pipe) (fuel src len len_left : ℕ) (total : ℤ) (o : Outcome)
      → PointsTo s.heap n p
      → s.objects.pipe p ≡ some b
      → try_write_pipe fuel n src len len_left total s ≡ some (o, t)
      → PipeStep p s g t (record g {
        written =
            g.written ++ bytes (own_bytes s src) 0 (write_buffer b.buffer (own_bytes s src) len).1;
      })
  reads :
      (n : Ptr) (b : Pipe) (fuel dst len : ℕ) (o : Outcome)
      → PointsTo s.heap n p
      → s.objects.pipe p ≡ some b
      → try_read_pipe fuel n dst len s ≡ some (o, t)
      → PipeStep p s g t (record g { taken = g.taken ++ (read_buffer b.buffer len).1 })
  fulfills :
      (n : Ptr) (a : Unit {0})
      → PointsTo s.heap n p
      → fulfill n s ≡ some (a, t)
      → PipeStep p s g t g
  others : t.objects.pipe p ≡ s.objects.pipe p → PipeStep p s g t g

pub data PipeSteps (p : Ptr) (s : Kernel) (g : Traffic) : Kernel → Traffic → Type 0 where
  here : PipeSteps p s g s g
  next :
      {t u : Kernel} {k m : Traffic}
      → PipeSteps p s g t k
      → PipeStep p t k u m
      → PipeSteps p s g u m

-- What was written is what was taken and then what the buffer holds.
pub record IsInOrder (p : Ptr) (s : Kernel) (g : Traffic) : Type 0 where
  pub pipe : Pipe
  pub at : s.objects.pipe p ≡ some pipe
  pub valid : IsValid pipe.buffer
  pub order : g.written ≡ g.taken ++ contents pipe.buffer

take-drop {ℓ} : {A : Type ℓ} (n : ℕ) (xs : List A) → take n xs ++ drop n xs ≡ xs
take-drop zero xs = refl
take-drop (suc n) [] = refl
take-drop (suc n) (x ∷ xs) = ap (λ t. x ∷ t) (take-drop n xs)

PipeStep-IsInOrder :
    (p : Ptr) (s : Kernel) (g : Traffic) (t : Kernel) (k : Traffic)
    → PipeStep p s g t k
    → IsInOrder p s g
    → IsInOrder p t k
PipeStep-IsInOrder p s g t _ (writes n b fuel src len len_left total o to at run) i =
    let same : b ≡ i.pipe = cc (i.at) in
    let v = subst (λ (x : Pipe). IsValid x.buffer) (sym same) i.valid in
    let has = try_write_pipe-HasPipe n p b s to at fuel src len len_left total o t run in
    let (_, holds, valid) = write_buffer_lem v (own_bytes s src) len in
    record {
      pipe = record b {
        buffer = (write_buffer b.buffer (own_bytes s src) len).0;
        unfulfilled = has.count;
      };
      at = has.at;
      valid = valid;
      order =
          ap (λ xs. xs ++ bytes (own_bytes s src) 0 (write_buffer b.buffer (own_bytes s src) len).1)
            i.order
          ∙ append_assoc g.taken (contents i.pipe.buffer) _
          ∙ ap
              (λ (x : Pipe).
                g.taken
                ++ (contents x.buffer
                    ++ bytes (own_bytes s src) 0 (write_buffer b.buffer (own_bytes s src) len).1))
              (sym same)
          ∙ ap (λ xs. g.taken ++ xs) (sym holds);
    }
PipeStep-IsInOrder p s g t _ (reads n b fuel dst len o to at run) i =
    let same : b ≡ i.pipe = cc (i.at) in
    let v = subst (λ (x : Pipe). IsValid x.buffer) (sym same) i.valid in
    let has = try_read_pipe-HasPipe n p b s to at fuel dst len o t run in
    let (_, out, rest, valid) = read_buffer_lem v len in
    record {
      pipe = record b { buffer = (read_buffer b.buffer len).0; unfulfilled = has.count };
      at = has.at;
      valid = valid;
      order =
          i.order
          ∙ ap (λ (x : Pipe). g.taken ++ contents x.buffer) (sym same)
          ∙ ap (λ xs. g.taken ++ xs)
              (sym (take-drop (read_buffer b.buffer len).2 (contents b.buffer)))
          ∙ sym (append_assoc g.taken _ _)
          ∙ ap (λ xs. g.taken ++ xs ++ drop (read_buffer b.buffer len).2 (contents b.buffer))
              (sym out)
          ∙ ap (λ xs. g.taken ++ (read_buffer b.buffer len).1 ++ xs) (sym rest);
    }
PipeStep-IsInOrder p s g t _ (fulfills n a to run) i =
    let has = fulfill-HasPipe n p i.pipe s to i.at a t run in
    record {
      pipe = record i.pipe { unfulfilled = has.count };
      at = has.at;
      valid = i.valid;
      order = i.order;
    }
PipeStep-IsInOrder p s g t _ (others same) i = record {
  pipe = i.pipe;
  at = same ∙ i.at;
  valid = i.valid;
  order = i.order;
}

-- From a state in which what went into a pipe is what came out of it and then what its valid buffer
-- holds, in order, this stays so, however processes then write the pipe, read it and are woken.
pub PipeSteps-IsInOrder :
    (p : Ptr) {s : Kernel} {g : Traffic} {t : Kernel} {k : Traffic}
    → IsInOrder p s g
    → PipeSteps p s g t k
    → IsInOrder p t k
PipeSteps-IsInOrder p i here = i
PipeSteps-IsInOrder p i (next run step) =
    PipeStep-IsInOrder p _ _ _ _ step (PipeSteps-IsInOrder p i run)
