-- ===== src/Kernel/Runs.antt =====
-- Taking a command's run apart, and what a run leaves alone.
use mathlib.Core.Path.{subst}
use yalnix_os.Common.{◌≡◌, ◌≢◌, refl, ◌∙◌, Bool, true, false, Option, none, some, if◌then◌else◌}
use yalnix_os.Heap.{Ptr, null, Node, Heap, Cmd, load-ok}
use yalnix_os.Kernel.{Kernel, KernelCmd, done, go_on, ◌>>=◌, with_heap, on_heap, data_of, fetch}

-- A run of a sequence is a run of each part.
pub go_on_inv :
    {A B : Type 0} (o : Option (A × Kernel)) (k : A → KernelCmd B) (b : B) (t : Kernel)
    → go_on o k ≡ some (b, t)
    → (a : A) × (s : Kernel) × (o ≡ some (a, s)) × (k a s ≡ some (b, t))
go_on_inv none k b t e = cc
go_on_inv (some (a, s)) k b t e = (a, s, refl, e)

pub on_heap_inv :
    {A : Type 0} (s : Kernel) (o : Option (A × Heap)) (a : A) (t : Kernel)
    → with_heap s o ≡ some (a, t)
    → (h : Heap) × (o ≡ some (a, h)) × (t ≡ record s { heap = h })
on_heap_inv s none a t e = cc
on_heap_inv s (some (b, h)) a t e = (h, cc, cc)

pub fetch_inv :
    {A : Type 0} (o : Option A) (s : Kernel) (a : A) (t : Kernel)
    → fetch o s ≡ some (a, t)
    → (o ≡ some a) × (t ≡ s)
fetch_inv none s a t e = cc
fetch_inv (some b) s a t e = (cc, cc)

-- A command whose runs leave the objects of ksrc/pilocvario.c and the running process alone.
pub record IsQuiet {A : Type 0} (c : KernelCmd A) : Type 0 where
  pub objects : (s : Kernel) (a : A) (t : Kernel) → c s ≡ some (a, t) → t.objects ≡ s.objects

pub done-IsQuiet : {A : Type 0} (a : A) → IsQuiet (done a)
done-IsQuiet a = record { objects = λ s b t e. cc }

pub on_heap-IsQuiet : {A : Type 0} (c : Cmd A) → IsQuiet (on_heap c)
on_heap-IsQuiet c = record {
  objects = λ s a t e. let (h, r, q) = on_heap_inv s (c s.heap) a t e in cc;
}

pub bind-IsQuiet :
    {A B : Type 0} (c : KernelCmd A) (k : A → KernelCmd B)
    → IsQuiet c
    → ((a : A) → IsQuiet (k a))
    → IsQuiet (c >>= k)
bind-IsQuiet c k q r = record {
  objects = λ s b t e.
      let (a, u, e', f) = go_on_inv (c s) k b t e in (r a).objects u b t f ∙ q.objects s a u e';
}

pub if-IsQuiet :
    {A : Type 0} (b : Bool) (c d : KernelCmd A)
    → IsQuiet c
    → IsQuiet d
    → IsQuiet (if b then c else d)
if-IsQuiet true c d q r = q
if-IsQuiet false c d q r = r

pub go_on_eq :
    {A B : Type 0} {o : Option (A × Kernel)} {a : A} {s : Kernel} (k : A → KernelCmd B)
    → o ≡ some (a, s)
    → go_on o k ≡ k a s
go_on_eq k e = rw e refl

-- What holds of a run's end holds of what it is known to return.
pub of_run :
    {A : Type 0} (P : A → Kernel → Type 0) (a b : A) (s t : Kernel)
    → ◌≡◌ {A = Option (A × Kernel)} (some (a, s)) (some (b, t))
    → P a s
    → P b t
of_run P a b s t e x =
    let first : a ≡ b = cc in
    let second : s ≡ t = cc in subst (P b) second (subst (λ o. P o s) first x)

-- The node `n` is allocated, and its `data` is the address `p`.
abbrev pub PointsTo : Heap → Ptr → Ptr → Type 0
PointsTo h n p = (x : Node) × (n ≢ null) × (h.node n ≡ some x) × (x.contents ≡ p)

pub data_of-ok : (s : Kernel) (n p : Ptr) → PointsTo s.heap n p → data_of n s ≡ some (p, s)
data_of-ok s n p (x, ne, at, to) = rw (load-ok s.heap n ne at, to) refl
