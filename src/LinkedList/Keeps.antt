-- ===== src/LinkedList/Keeps.antt =====
-- What an operation on one list leaves alone.
use yalnix_os.Common.{
  true, ◌∷◌, update, ◌==◌, Bool-cases, inl, inr, ◌≡◌, ◌≢◌, false, Option, none, some, List, arith,
}
use yalnix_os.Common.Int.{ℤ}
use yalnix_os.Heap.{Ptr, Node, Ll, Heap}
use yalnix_os.LinkedList.Shape.{has, ne_of_has}

-- The fields that the list operations never write.
abbrev pub payload : Option Node → Option (Ptr × ℤ)
payload none = none
payload (some x) = some (x.contents, x.code)

-- From `h` to `g` at most the links of the nodes `xs` and the header `l` have changed.
pub record Keeps (h g : Heap) (xs : List Ptr) (l : Ptr) : Type 0 where
  pub nodes : (a : Ptr) → has a xs ≡ false → g.node a ≡ h.node a
  pub lists : (m : Ptr) → m ≢ l → g.list m ≡ h.list m
  pub payloads : (a : Ptr) → payload (g.node a) ≡ payload (h.node a)

-- A node `n` written twice and a node `e` of the list written once, their links only.
pub Keeps-relink :
    (h : Heap) (l n e : Ptr) (xs : List Ptr) (u v : Ll) (x y z t w : Node)
    → h.node n ≡ some x
    → h.node e ≡ some t
    → n ≢ e
    → has e xs ≡ true
    → payload (some z) ≡ payload (some x)
    → payload (some w) ≡ payload (some t)
    → Keeps h
        (record {
          node = update (update (update h.node n (some y)) n (some z)) e (some w);
          list = update (update h.list l (some u)) l (some v);
        })
        (n ∷ xs)
        l
Keeps-relink h l n e xs u v x y z t w atn ate apart i pz pw = record {
  nodes = λ a o. ground (arith, ne_of_has a e (n ∷ xs) o);
  lists = λ m ne. ground arith;
  payloads = λ a. elim (Bool-cases (e == a)) [ inl same ↦ ground arith | inr other ↦ ground arith ];
}

-- A node `e` of the list written once, and then a node `n` of the list twice, their links only.
pub Keeps-unlink :
    (h : Heap) (l n e : Ptr) (xs : List Ptr) (u v : Ll) (x y z t w : Node)
    → h.node n ≡ some x
    → h.node e ≡ some t
    → e ≢ n
    → has n xs ≡ true
    → has e xs ≡ true
    → payload (some z) ≡ payload (some x)
    → payload (some w) ≡ payload (some t)
    → Keeps h
        (record {
          node = update (update (update h.node e (some w)) n (some y)) n (some z);
          list = update (update h.list l (some u)) l (some v);
        })
        xs
        l
Keeps-unlink h l n e xs u v x y z t w atn ate apart i j pz pw = record {
  nodes = λ a o. ground (arith, ne_of_has a e xs o, ne_of_has a n xs o);
  lists = λ m ne. ground arith;
  payloads = λ a. elim (Bool-cases (e == a)) [ inl same ↦ ground arith | inr other ↦ ground arith ];
}

-- Two nodes `p` and `e` of the list written once each, and then a node `n` twice, links only.
pub Keeps-bypass :
    (h : Heap) (l n p e : Ptr) (xs : List Ptr) (v : Ll) (x y z t w t' w' : Node)
    → h.node n ≡ some x
    → h.node p ≡ some t
    → h.node e ≡ some t'
    → has n xs ≡ true
    → has p xs ≡ true
    → has e xs ≡ true
    → p ≢ n
    → e ≢ n
    → p ≢ e
    → payload (some z) ≡ payload (some x)
    → payload (some w) ≡ payload (some t)
    → payload (some w') ≡ payload (some t')
    → Keeps h
        (record {
          node =
              update (update (update (update h.node p (some w)) e (some w')) n (some y)) n (some z);
          list = update h.list l (some v);
        })
        xs
        l
Keeps-bypass h l n p e xs v x y z t w t' w' atn atp ate i j k pn en pe pz pw pw' = record {
  nodes = λ a o. ground (arith, ne_of_has a e xs o, ne_of_has a n xs o, ne_of_has a p xs o);
  lists = λ m ne. ground arith;
  payloads = λ a. elim (Bool-cases (n == a)) [
    | inl same ↦ ground arith
    | inr other ↦ elim (Bool-cases (e == a)) [ inl same ↦ ground arith | inr far ↦ ground arith ]
  ];
}
