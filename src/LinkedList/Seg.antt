-- ===== src/LinkedList/Seg.antt =====
-- Splitting, joining and relinking doubly-linked segments.
use yalnix_os.Common.{
  ◌≡◌, refl, ◌∙◌, ◌≢◌, true, false, Option, some, List, [], ◌∷◌, ◌++◌, arith, update, update_self,
  update-ne, update-update-ne,
}
use yalnix_os.Heap.{Ptr, null, Node}
use yalnix_os.LinkedList.Shape.{Nodes, has, Distinct, first_or, last_or, Seg, has-last, ne_of_has}

-- A segment survives any change that spares its own nodes.
pub frame :
    (N M : Nodes) (p : Ptr) (xs : List Ptr) (q : Ptr)
    → Seg N p xs q
    → ((a : Ptr) → has a xs ≡ true → M a ≡ N a)
    → Seg M p xs q
frame N M p [] q s same = tt
frame N M p (x ∷ xs) q (y, ne, at, before, behind, s) same = (
  y,
  ne,
  same x (ground arith) ∙ at,
  before,
  behind,
  frame N M x xs q s (λ a i. same a (ground arith)),
)

pub frame-update :
    (N : Nodes) (p : Ptr) (xs : List Ptr) (q : Ptr) (a : Ptr) (c : Option Node)
    → Seg N p xs q
    → has a xs ≡ false
    → Seg (update N a c) p xs q
frame-update N p xs q a c s out = frame N (update N a c) p xs q s (λ b i. ground arith)

pub append :
    (N : Nodes) (p : Ptr) (xs ys : List Ptr) (q : Ptr)
    → Seg N p xs (first_or q ys)
    → Seg N (last_or p xs) ys q
    → Seg N p (xs ++ ys) q
append N p [] ys q s t = t
append N p (x ∷ []) ys q (y, ne, at, before, behind, s) t = (y, ne, at, before, behind, t)
append N p (x ∷ x' ∷ xs) ys q (y, ne, at, before, behind, s) t =
    (y, ne, at, before, behind, append N x (x' ∷ xs) ys q s t)

pub split :
    (N : Nodes) (p : Ptr) (xs ys : List Ptr) (q : Ptr)
    → Seg N p (xs ++ ys) q
    → Seg N p xs (first_or q ys) × Seg N (last_or p xs) ys q
split N p [] ys q s = (tt, s)
split N p (x ∷ []) ys q (y, ne, at, before, behind, s) = ((y, ne, at, before, behind, tt), s)
split N p (x ∷ x' ∷ xs) ys q (y, ne, at, before, behind, s) =
    let (front, back) = split N x (x' ∷ xs) ys q s in ((y, ne, at, before, behind, front), back)

-- Writing the last node's `next` changes what stands behind the segment.
pub relink_last :
    (N : Nodes) (p x : Ptr) (xs : List Ptr) (q r : Ptr)
    → Seg N p (x ∷ xs) q
    → Distinct (x ∷ xs)
    → (t : Node) × (last_or x xs ≢ null)
      × (N (last_or x xs) ≡ some t)
      × (t.next ≡ q)
      × Seg (update N (last_or x xs) (some (record t { next = r }))) p (x ∷ xs) r
relink_last N p x [] q r (y, ne, at, before, behind, s) d =
    (y, ne, at, behind, (record y { next = r }, ne, update_self N x _, before, refl, tt))
relink_last N p x (z ∷ zs) q r (y, ne, at, before, behind, s) d =
    let (t, ne', at', end, s') = relink_last N x z zs q r s d.1 in
    (t, ne', at', end, (y, ne, update-ne N (last_or z zs) x _ apart ∙ at, before, behind, s'))
  where
    apart : last_or z zs ≢ x
    apart = ground (arith, has-last z zs, d.0)

-- Writing the first node's `prev` changes what stands before the segment.
pub relink_first :
    (N : Nodes) (p x : Ptr) (xs : List Ptr) (q r : Ptr)
    → Seg N p (x ∷ xs) q
    → Distinct (x ∷ xs)
    → (t : Node) × (x ≢ null)
      × (N x ≡ some t)
      × (t.prev ≡ p)
      × Seg (update N x (some (record t { prev = r }))) r (x ∷ xs) q
relink_first N p x xs q r (y, ne, at, before, behind, s) d = (
  y,
  ne,
  at,
  before,
  (record y { prev = r }, ne, update_self N x _, refl, behind, frame-update N x xs q x _ s d.0),
)

-- A segment survives two writes to a node that it does not hold.
pub frame_twice :
    (N : Nodes) (p : Ptr) (xs : List Ptr) (q n : Ptr) (c d : Option Node)
    → Seg N p xs q
    → has n xs ≡ false
    → Seg (update (update N n c) n d) p xs q
frame_twice N p xs q n c d s out =
    frame N (update (update N n c) n d) p xs q s
      (λ a i. update-update-ne N n a c d (ne_of_has n a xs out i))
