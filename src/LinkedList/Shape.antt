-- ===== src/LinkedList/Shape.antt =====
-- When the nodes between a list header's `head` and `tail` form a doubly-linked list.
use yalnix_os.Common.{
  Bool-cases, inl, inr, ◌+◌, ◌-◌, ◌≡◌, refl, ◌≢◌, Bool, true, false, ◌||◌, Option, some, List, [],
  ◌∷◌, ◌++◌, arith, ◌==◌, length, length-append,
}
use yalnix_os.Heap.{Ptr, null, Node, Ll, Heap}

abbrev pub Nodes : Type 0
Nodes = Ptr → Option Node

abbrev pub has : Ptr → List Ptr → Bool
has a [] = false
has a (x ∷ xs) = (a == x) || has a xs

abbrev pub Distinct : List Ptr → Type 0
Distinct [] = Unit
Distinct (x ∷ xs) = (has x xs ≡ false) × Distinct xs

abbrev pub first_or : Ptr → List Ptr → Ptr
first_or q [] = q
first_or q (x ∷ xs) = x

abbrev pub last_or : Ptr → List Ptr → Ptr
last_or p [] = p
last_or p (x ∷ xs) = last_or x xs

-- The nodes `xs` are linked both ways: `p` stands before them and `q` behind them.
abbrev pub Seg : Nodes → Ptr → List Ptr → Ptr → Type 0
Seg N p [] q = Unit
Seg N p (x ∷ xs) q =
    (y : Node) × (x ≢ null)
    × (N x ≡ some y)
    × (y.prev ≡ p)
    × (y.next ≡ first_or q xs)
    × Seg N x xs q

abbrev pub header_of : List Ptr → Ll
header_of xs = record { size = length xs; head = first_or null xs; tail = last_or null xs }

-- `l` is the list of the distinct nodes `xs`, in this order.
pub record IsList (h : Heap) (l : Ptr) (xs : List Ptr) : Type 0 where
  pub exists : l ≢ null
  pub header : h.list l ≡ some (header_of xs)
  pub chain : Seg h.node null xs null
  pub distinct : Distinct xs

pub has-append : (a : Ptr) (xs ys : List Ptr) → has a (xs ++ ys) ≡ (has a xs || has a ys)
has-append a [] ys = refl
has-append a (x ∷ xs) ys = ground (arith, has-append a xs ys)

pub has-head : (x : Ptr) (xs : List Ptr) → has x (x ∷ xs) ≡ true
has-head x xs = ground arith

pub has-second : (x y : Ptr) (xs : List Ptr) → has y (x ∷ y ∷ xs) ≡ true
has-second x y xs = ground arith

pub not-has-tail : (a x : Ptr) (xs : List Ptr) → has a (x ∷ xs) ≡ false → has a xs ≡ false
not-has-tail a x xs o = ground arith

pub has-last : (x : Ptr) (xs : List Ptr) → has (last_or x xs) (x ∷ xs) ≡ true
has-last x [] = ground arith
has-last x (y ∷ xs) = ground (arith, has-last y xs)

pub last_or-append : (p y : Ptr) (xs ys : List Ptr) → last_or p (xs ++ y ∷ ys) ≡ last_or y ys
last_or-append p y [] ys = refl
last_or-append p y (x ∷ xs) ys = last_or-append x y xs ys

pub first_or-append : (q x : Ptr) (xs ys : List Ptr) → first_or q ((x ∷ xs) ++ ys) ≡ x
first_or-append q x xs ys = refl

pub Distinct-append :
    (xs ys : List Ptr)
    → Distinct xs
    → Distinct ys
    → ((a : Ptr) → has a xs ≡ true → has a ys ≡ false)
    → Distinct (xs ++ ys)
Distinct-append [] ys d e apart = e
Distinct-append (x ∷ xs) ys d e apart = (
  ground (arith, has-append x xs ys, apart x, d.0),
  Distinct-append xs ys d.1 e (λ a i. ground (arith, apart a)),
)

pub Distinct-front : (xs ys : List Ptr) → Distinct (xs ++ ys) → Distinct xs
Distinct-front [] ys d = tt
Distinct-front (x ∷ xs) ys d = (ground (arith, has-append x xs ys, d.0), Distinct-front xs ys d.1)

pub Distinct-back : (xs ys : List Ptr) → Distinct (xs ++ ys) → Distinct ys
Distinct-back [] ys d = d
Distinct-back (x ∷ xs) ys d = Distinct-back xs ys d.1

pub Distinct-apart :
    (xs ys : List Ptr) (a : Ptr) → Distinct (xs ++ ys) → has a xs ≡ true → has a ys ≡ false
Distinct-apart [] ys a d i = cc
Distinct-apart (x ∷ xs) ys a d i =
    ground (arith, has-append x xs ys, d.0, Distinct-apart xs ys a d.1)

-- What is in a list differs from what is not.
pub ne_of_has : (a b : Ptr) (xs : List Ptr) → has a xs ≡ false → has b xs ≡ true → a ≢ b
ne_of_has a b xs o i e = ground arith

pub Distinct-snoc :
    (xs : List Ptr) (n : Ptr) → Distinct xs → has n xs ≡ false → Distinct (xs ++ n ∷ [])
Distinct-snoc xs n d o =
    Distinct-append xs (n ∷ []) d (refl, tt) (λ a i. ground (arith, ne_of_has n a xs o i))

pub header-snoc :
    (p n : Ptr) (ps : List Ptr)
    → ◌≡◌ {A = Ll}
        (record { size = length (p ∷ ps) + 1; head = p; tail = n })
        (header_of ((p ∷ ps) ++ n ∷ []))
header-snoc p n ps = ground (arith, length-append ps (n ∷ []), last_or-append p n ps [])

pub has_front : (a : Ptr) (xs ys : List Ptr) → has a xs ≡ true → has a (xs ++ ys) ≡ true
has_front a xs ys i = ground (arith, has-append a xs ys)

pub has_end : (xs : List Ptr) (n : Ptr) → has n (xs ++ n ∷ []) ≡ true
has_end xs n = ground (arith, has-append n xs (n ∷ []))

pub Distinct-end : (xs : List Ptr) (n : Ptr) → Distinct (xs ++ n ∷ []) → has n xs ≡ false
Distinct-end xs n d = elim (Bool-cases (has n xs)) [
  | inl i ↦ ground (arith, Distinct-apart xs (n ∷ []) n d i)
  | inr o ↦ o
]

pub Distinct-not_front :
    (xs ys : List Ptr) (a : Ptr) → Distinct (xs ++ ys) → has a ys ≡ true → has a xs ≡ false
Distinct-not_front xs ys a d i = elim (Bool-cases (has a xs)) [
  | inl j ↦ ground (arith, Distinct-apart xs ys a d j)
  | inr o ↦ o
]

pub has_back : (a : Ptr) (xs ys : List Ptr) → has a ys ≡ true → has a (xs ++ ys) ≡ true
has_back a xs ys i = ground (arith, has-append a xs ys)

-- The header, but for the size, once the node `n` between `q ∷ qs` and `p ∷ ps` is gone.
pub header-without :
    (q n p : Ptr) (qs ps : List Ptr)
    → ◌≡◌ {A = Ll}
        (record {
          size = length ((q ∷ qs) ++ n ∷ p ∷ ps) - 1;
          head = q;
          tail = last_or null ((q ∷ qs) ++ n ∷ p ∷ ps);
        })
        (header_of ((q ∷ qs) ++ p ∷ ps))
header-without q n p qs ps = ground (
  arith,
  length-append qs (n ∷ p ∷ ps),
  length-append qs (p ∷ ps),
  last_or-append q n qs (p ∷ ps),
  last_or-append q p qs ps,
)

-- Nodes of the two parts of a list of distinct nodes differ.
pub ne_of_has_front :
    (xs ys : List Ptr) (a b : Ptr) → Distinct (xs ++ ys) → has a xs ≡ true → has b ys ≡ true → a ≢ b
ne_of_has_front xs ys a b d i j = ne_of_has a b ys (Distinct-apart xs ys a d i) j
