-- ===== src/LinkedList/Search.antt =====
-- `has_member`, `find`, `is_empty` and `get_size` of ksrc/linked_list.c.
use yalnix_os.Common.{
  ℕ, zero, suc, ◌<◌, ◌≡◌, refl, ap, ◌≢◌, inl, inr, some, List, [], ◌∷◌, ◌++◌, arith, length, ◌==◌,
  ==_ne, Bool-cases,
}
use yalnix_os.Common.Int.{ℤ, pos, eqb_ℤ, eqb_ℤ_iff}
use yalnix_os.Heap.{Ptr, null, Node, Heap, run, load-ok, load_list-ok}
use yalnix_os.LinkedList.{get_size, is_empty, member_loop, has_member, find_loop, find}
use yalnix_os.LinkedList.Shape.{Nodes, has, first_or, Seg, IsList}

-- No node of the list has the code.
abbrev pub NoneHas : Nodes → ℤ → List Ptr → Type 0
NoneHas N code [] = Unit
NoneHas N code (x ∷ xs) = ((y : Node) → N x ≡ some y → y.code ≢ code) × NoneHas N code xs

-- `r` is the first node of `xs` with the code, or NULL where there is none.
pub data IsFirst (N : Nodes) (code : ℤ) (xs : List Ptr) (r : Ptr) : Type 0 where
  missing : r ≡ null → NoneHas N code xs → IsFirst N code xs r
  hit :
      (ys zs : List Ptr) (y : Node)
      → xs ≡ ys ++ r ∷ zs
      → N r ≡ some y
      → y.code ≡ code
      → NoneHas N code ys
      → IsFirst N code xs r

module _ (h : Heap) where
  member_loop-has :
      (fuel : ℕ) (p : Ptr) (xs : List Ptr) (n : Ptr)
      → Seg h.node p xs null
      → length xs < fuel
      → member_loop fuel (first_or null xs) n h ≡ some (has n xs, h)
  unfolding member_loop
  member_loop-has zero p xs n s f = absurd (omega arith)
  member_loop-has (suc k) p [] n s f = refl
  member_loop-has (suc k) p (x ∷ xs) n (y, ne, at, before, behind, s) f =
      rw (==_ne x null ne) (elim (Bool-cases (x == n)) [
        | inl same ↦ rw same (ground arith)
        | inr other ↦
            rw other
              (run _ (load-ok h x ne at) (rw behind (ground (arith, member_loop-has k x xs n s))))
      ])

  find_loop-IsFirst :
      (fuel : ℕ) (p : Ptr) (xs : List Ptr) (code : ℤ)
      → Seg h.node p xs null
      → length xs < fuel
      → (r : Ptr) × (find_loop fuel (first_or null xs) code h ≡ some (r, h))
        × IsFirst h.node code xs r
  unfolding find_loop
  find_loop-IsFirst zero p xs code s f = absurd (omega arith)
  find_loop-IsFirst (suc k) p [] code s f = (null, refl, missing refl tt)
  find_loop-IsFirst (suc k) p (x ∷ xs) code (y, ne, at, before, behind, s) f =
      elim (Bool-cases (eqb_ℤ y.code code)) [
        | inl same ↦ (
          x,
          rw (==_ne x null ne) (run _ (load-ok h x ne at) (rw same)),
          hit [] xs y refl at ((eqb_ℤ_iff y.code code).0 same) tt,
        )
        | inr other ↦
            let (r, e, first) = find_loop-IsFirst k x xs code s (omega arith) in
            (
              r,
              rw (==_ne x null ne) (run _ (load-ok h x ne at) (rw (other, behind) e)),
              later x xs r (λ z at'. ground (arith, eqb_ℤ_iff y.code code)) first,
            )
      ]
    where
      later :
          (x : Ptr) (xs : List Ptr) (r : Ptr)
          → ((z : Node) → h.node x ≡ some z → z.code ≢ code)
          → IsFirst h.node code xs r
          → IsFirst h.node code (x ∷ xs) r
      later x xs r miss (missing e all) = missing e (miss, all)
      later x xs r miss (hit ys zs z e at c all) =
          hit (x ∷ ys) zs z (ap (λ t. x ∷ t) e) at c (miss, all)

  module _ (l : Ptr) (xs : List Ptr) (is : IsList h l xs) where
    -- With more fuel than nodes `has_member` says whether the list holds the node, and writes
    -- nothing.
    pub has_member_lem :
        (fuel : ℕ) (n : Ptr)
        → length xs < fuel
        → n ≢ null
        → has_member fuel l n h ≡ some (has n xs, h)
    unfolding has_member
    has_member_lem fuel n f nne =
        rw (==_ne l null is.exists, ==_ne n null nne)
          (run _ (load_list-ok h l is.exists is.header) (member_loop-has fuel null xs n is.chain f))

    -- With more fuel than nodes `find` returns the first node with the code, or NULL where no node
    -- has it, and writes nothing.
    pub find_lem :
        (fuel : ℕ) (code : ℤ)
        → length xs < fuel
        → (r : Ptr) × (find fuel l code h ≡ some (r, h)) × IsFirst h.node code xs r
    unfolding find
    find_lem fuel code f =
        let (r, e, first) = find_loop-IsFirst fuel null xs code is.chain f in
        (r, rw (==_ne l null is.exists) (run _ (load_list-ok h l is.exists is.header) e), first)

    -- `get_size` counts the nodes, `is_empty` says whether there are none.
    pub get_size_lem :
        (get_size l h ≡ some (pos (length xs), h)) × (is_empty l h ≡ some (length xs == 0, h))
    unfolding get_size is_empty
    get_size_lem = (
      rw (==_ne l null is.exists) (run _ (load_list-ok h l is.exists is.header) refl),
      rw (==_ne l null is.exists) (run _ (load_list-ok h l is.exists is.header) refl),
    )
