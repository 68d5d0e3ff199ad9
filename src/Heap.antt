-- ===== src/Heap.antt =====
-- The C heap that ksrc/linked_list.c works on: nodes and list headers at addresses, and commands
-- over it. A command that reads or writes through NULL or through an address that holds nothing
-- has no result (`none`); so has a loop that runs out of fuel.
use yalnix_os.Common.{ℕ, ◌≡◌, ◌≢◌, Option, none, some, ◌==◌, if◌then◌else◌, update, ==_ne}
use yalnix_os.Common.Int.{ℤ}

abbrev pub Ptr : Type 0
Ptr = ℕ

abbrev pub null : Ptr
null = 0

-- `node_t`; `contents` is the field `data`.
pub record Node : Type 0 where
  pub contents : Ptr
  pub code : ℤ
  pub next : Ptr
  pub prev : Ptr

-- `ll_t`
pub record Ll : Type 0 where
  pub size : ℕ
  pub head : Ptr
  pub tail : Ptr

pub record Heap : Type 0 where
  pub node : Ptr → Option Node
  pub list : Ptr → Option Ll

abbrev pub Cmd : Type 0 → Type 0
Cmd A = Heap → Option (A × Heap)

abbrev pub pure : {A : Type 0} → A → Cmd A
pure a h = some (a, h)

abbrev pub fault : {A : Type 0} → Cmd A
fault h = none

abbrev pub and_then : {A B : Type 0} → Option (A × Heap) → (A → Cmd B) → Option (B × Heap)
and_then none k = none
and_then (some (a, h)) k = k a h

infixl 5 ◌>>=◌ ◌>>◌
abbrev pub ◌>>=◌ : {A B : Type 0} → Cmd A → (A → Cmd B) → Cmd B
◌>>=◌ m k h = and_then (m h) k

abbrev pub ◌>>◌ : {A B : Type 0} → Cmd A → Cmd B → Cmd B
m >> k = m >>= λ _. k

abbrev pub lift : {A : Type 0} → Option A → Heap → Option (A × Heap)
lift none h = none
lift (some a) h = some (a, h)

-- `*n`
unfoldable pub load : Ptr → Cmd Node
load n h = if n == null then none else lift (h.node n) h

-- `*n = x`
unfoldable pub store : Ptr → Node → Cmd (Unit {0})
store n x h = if n == null then none else elim (h.node n) [
  | none ↦ none
  | some _ ↦ some (tt, record h { node = update h.node n (some x) })
]

-- `*list`
unfoldable pub load_list : Ptr → Cmd Ll
load_list l h = if l == null then none else lift (h.list l) h

-- `*list = x`
unfoldable pub store_list : Ptr → Ll → Cmd (Unit {0})
store_list l x h = if l == null then none else elim (h.list l) [
  | none ↦ none
  | some _ ↦ some (tt, record h { list = update h.list l (some x) })
]

-- `n->next = q`
unfoldable pub set_next : Ptr → Ptr → Cmd (Unit {0})
set_next n q = do x ← load n; store n (record x { next = q })

-- `n->prev = q`
unfoldable pub set_prev : Ptr → Ptr → Cmd (Unit {0})
set_prev n q = do x ← load n; store n (record x { prev = q })

-- A command whose first part has a result goes on from there.
pub run :
    {A B : Type 0} {o : Option (A × Heap)} {a : A} {h : Heap} {r : Option (B × Heap)}
    (k : A → Cmd B)
    → o ≡ some (a, h)
    → k a h ≡ r
    → and_then o k ≡ r
run k e f = rw e f

module _ (h : Heap) (n : Ptr) {x : Node} (ne : n ≢ null) (at : h.node n ≡ some x) where
  pub load-ok : load n h ≡ some (x, h)
  unfolding load
  load-ok = rw (==_ne n null ne, at)

  pub store-ok : (y : Node) → store n y h ≡ some (tt, record h { node = update h.node n (some y) })
  unfolding store
  store-ok y = rw (==_ne n null ne, at)

  pub set_next-ok :
      (q : Ptr)
      → set_next n q h
        ≡ some (tt, record h { node = update h.node n (some (record x { next = q })) })
  unfolding set_next
  set_next-ok q = rw load-ok (store-ok (record x { next = q }))

  pub set_prev-ok :
      (q : Ptr)
      → set_prev n q h
        ≡ some (tt, record h { node = update h.node n (some (record x { prev = q })) })
  unfolding set_prev
  set_prev-ok q = rw load-ok (store-ok (record x { prev = q }))

module _ (h : Heap) (l : Ptr) {x : Ll} (ne : l ≢ null) (at : h.list l ≡ some x) where
  pub load_list-ok : load_list l h ≡ some (x, h)
  unfolding load_list
  load_list-ok = rw (==_ne l null ne, at)

  pub store_list-ok :
      (y : Ll) → store_list l y h ≡ some (tt, record h { list = update h.list l (some y) })
  unfolding store_list
  store_list-ok y = rw (==_ne l null ne, at)

-- `free(list)`
unfoldable pub free_list : Ptr → Cmd (Unit {0})
free_list l h = some (tt, record h { list = update h.list l none })
