-- ===== src/LinkedList/Remove.antt =====
-- `remove` of ksrc/linked_list.c: the node may stand anywhere in the list.
use mathlib.Core.Path.{subst}
use mathlib.Core.List.{append-nil}
use yalnix_os.Common.{
  ◌≡◌, refl, sym, ap, ◌∙◌, ◌≢◌, true, false, Option, some, List, [], ◌∷◌, ◌++◌, update, update_self,
  update-ne, ==_ne, ==_iff, ==_self,
}
use yalnix_os.Heap.{
  Ptr, null, Node, Heap, and_then, pure, run, load-ok, set_next-ok, set_prev-ok, load_list-ok,
}
use yalnix_os.LinkedList.{remove, remove_inner, unlink}
use yalnix_os.LinkedList.Shape.{
  has, last_or, IsList, header_of, ne_of_has, ne_of_has_front, has-last, last_or-append,
  Distinct-front, Distinct-back, Distinct-append, Distinct-apart, Distinct-not_front, has_front,
  has_back, has-head, has-second, not-has-tail, header-without,
}
use yalnix_os.LinkedList.Seg
use yalnix_os.LinkedList.Keeps.{Keeps-bypass}
use yalnix_os.LinkedList.Ends.{Removes, dequeue_lem, pop_lem}
use yalnix_os.LinkedList.Steps.{known, shrunk, cleared, shrink_lem, clear_links_lem, is_empty-cons}

module _ (h : Heap) (l n q p : Ptr) (qs ps : List Ptr)
    (is : IsList h l ((q ∷ qs) ++ n ∷ p ∷ ps)) where
  remove-inner : Removes h l n ((q ∷ qs) ++ n ∷ p ∷ ps) ((q ∷ qs) ++ p ∷ ps) (remove_inner l n h)
  unfolding remove_inner unlink
  remove-inner =
      let xs : List Ptr = (q ∷ qs) ++ n ∷ p ∷ ps in
      let e : Ptr = last_or q qs in
      let (front, back) = Seg.split h.node null (q ∷ qs) (n ∷ p ∷ ps) null is.chain in
      let (y, nne, aty, before, behind, rest) = back in
      let x : Node = record y { prev = e; next = p } in
      let atx : h.node n ≡ some x = known h.node n y e p aty before behind in
      let dback = Distinct-back (q ∷ qs) (n ∷ p ∷ ps) is.distinct in
      let dfront = Distinct-front (q ∷ qs) (n ∷ p ∷ ps) is.distinct in
      let out = λ (a : Ptr) (i : has a (n ∷ p ∷ ps) ≡ true).
        Distinct-not_front (q ∷ qs) (n ∷ p ∷ ps) a is.distinct i in
      let pout : has p (q ∷ qs) ≡ false = out p (has-second n p ps) in
      let nout : has n (q ∷ qs) ≡ false = out n (has-head n (p ∷ ps)) in
      let eout = Distinct-apart (q ∷ qs) (n ∷ p ∷ ps) e is.distinct (has-last q qs) in
      let eout' : has e (p ∷ ps) ≡ false = not-has-tail e n (p ∷ ps) eout in
      let pn : p ≢ n = λ r. ne_of_has n p (p ∷ ps) dback.0 (has-head p ps) (sym r) in
      let en : e ≢ n = λ r. ne_of_has n e (q ∷ qs) nout (has-last q qs) (sym r) in
      let pe : p ≢ e = ne_of_has p e (q ∷ qs) pout (has-last q qs) in
      let (t, pne, att, _, seg1) = Seg.relink_first h.node n p ps null e rest dback.1 in
      let w = some (record t { prev = e }) in
      let front1 = Seg.frame-update h.node null (q ∷ qs) n p w front pout in
      let (t', ene, att1, _, seg2) =
        Seg.relink_last (update h.node p w) null q qs n p front1 dfront in
      let w' = some (record t' { next = p }) in
      let att' : h.node e ≡ some t' = sym (update-ne h.node p e w pe) ∙ att1 in
      let atx1 : update h.node p w n ≡ some x = update-ne h.node p n w pn ∙ atx in
      let atx2 : update (update h.node p w) e w' n ≡ some x =
        update-ne (update h.node p w) e n w' en ∙ atx1 in
      let seg1' = Seg.frame-update (update h.node p w) e (p ∷ ps) null e w' seg1 eout' in
      record {
        after =
            shrunk (cleared (record h { node = update (update h.node p w) e w' }) n x) l
              (header_of xs);
        returns = rw (==_ne n null nne) (
            run _
              (run _ (load-ok h n nne atx) (
                run _ (set_prev-ok h p pne att e)
                  (run _ (load-ok _ n nne atx1) (set_next-ok _ e ene att1 p))))
              (run _ (clear_links_lem _ n x nne atx2)
                (run _ (shrink_lem _ l is.exists _ is.header) refl)));
        is_list = record {
          exists = is.exists;
          header = update_self h.list l _ ∙ ap some (header-without q n p qs ps);
          chain =
              Seg.append _ null (q ∷ qs) (p ∷ ps) null
                (Seg.frame_twice _ null (q ∷ qs) p n _ _ seg2 nout)
                (Seg.frame_twice _ e (p ∷ ps) null n _ _ seg1' dback.0);
          distinct = Distinct-append (q ∷ qs) (p ∷ ps) dfront dback.1 (λ a i.
              not-has-tail a n (p ∷ ps) (Distinct-apart (q ∷ qs) (n ∷ p ∷ ps) a is.distinct i));
        };
        keeps =
            Keeps-bypass h l n p e xs _ x _ _ t _ t' _ atx att att'
              (has_back n (q ∷ qs) (n ∷ p ∷ ps) (has-head n (p ∷ ps)))
              (has_back p (q ∷ qs) (n ∷ p ∷ ps) (has-second n p ps))
              (has_front e (q ∷ qs) (n ∷ p ∷ ps) (has-last q qs)) pn en pe refl refl refl;
        removed = x;
        unlinked = update_self (update (update (update h.node p w) e w') n _) n _;
      }

  remove-middle : Removes h l n ((q ∷ qs) ++ n ∷ p ∷ ps) ((q ∷ qs) ++ p ∷ ps) (remove l n h)
  unfolding remove
  remove-middle =
      let xs : List Ptr = (q ∷ qs) ++ n ∷ p ∷ ps in
      let qn : q ≢ n =
        ne_of_has_front (q ∷ qs) (n ∷ p ∷ ps) q n is.distinct (has-head q qs)
          (has-head n (p ∷ ps)) in
      let tn : last_or null xs ≢ n = λ r.
        ne_of_has n _ (p ∷ ps) (Distinct-back (q ∷ qs) (n ∷ p ∷ ps) is.distinct).0 (has-last p ps)
          (sym r ∙ last_or-append null n (q ∷ qs) (p ∷ ps)) in
      record {
        after = remove-inner.after;
        returns = run _ (is_empty-cons h l is.exists q (qs ++ n ∷ p ∷ ps) is.header) (
            run _ (load_list-ok h l is.exists is.header)
              (rw (==_ne q n qn) (rw (==_ne (last_or null xs) n tn) remove-inner.returns)));
        is_list = remove-inner.is_list;
        keeps = remove-inner.keeps;
        removed = remove-inner.removed;
        unlinked = remove-inner.unlinked;
      }

-- The node that `dequeue` or `pop` returned is returned.
Removes-pure :
    {h : Heap} {l n : Ptr} {xs ys : List Ptr} {o : Option (Ptr × Heap)}
    → Removes h l n xs ys o
    → Removes h l n xs ys (and_then o (λ _. pure n))
Removes-pure r = record {
  after = r.after;
  returns = run _ r.returns refl;
  is_list = r.is_list;
  keeps = r.keeps;
  removed = r.removed;
  unlinked = r.unlinked;
}

module _ (h : Heap) (l n : Ptr) where
  remove-first : (zs : List Ptr) → IsList h l (n ∷ zs) → Removes h l n (n ∷ zs) zs (remove l n h)
  unfolding remove
  remove-first zs is =
      let r = Removes-pure (dequeue_lem h l n zs is) in
      record {
        after = r.after;
        returns =
            run _ (is_empty-cons h l is.exists n zs is.header)
              (run _ (load_list-ok h l is.exists is.header) (rw (==_self n) r.returns));
        is_list = r.is_list;
        keeps = r.keeps;
        removed = r.removed;
        unlinked = r.unlinked;
      }

  remove-last :
      (q : Ptr) (qs : List Ptr)
      → IsList h l ((q ∷ qs) ++ n ∷ [])
      → Removes h l n ((q ∷ qs) ++ n ∷ []) (q ∷ qs) (remove l n h)
  unfolding remove
  remove-last q qs is =
      let r = Removes-pure (pop_lem h l n (q ∷ qs) is) in
      let xs : List Ptr = (q ∷ qs) ++ n ∷ [] in
      let qn : q ≢ n =
        ne_of_has_front (q ∷ qs) (n ∷ []) q n is.distinct (has-head q qs) (has-head n []) in
      record {
        after = r.after;
        returns = run _ (is_empty-cons h l is.exists q (qs ++ n ∷ []) is.header) (
            run _ (load_list-ok h l is.exists is.header) (
              rw (==_ne q n qn) (
                rw ((==_iff (last_or null xs) n).1 (last_or-append null n (q ∷ qs) []))
                  r.returns)));
        is_list = r.is_list;
        keeps = r.keeps;
        removed = r.removed;
        unlinked = r.unlinked;
      }

  -- `remove` of a node of the list, wherever it stands, returns it, unlinked, leaves the others in
  -- order, and writes only the links of the list's nodes and the list's header.
  pub remove_lem :
      (ys zs : List Ptr)
      → IsList h l (ys ++ n ∷ zs)
      → Removes h l n (ys ++ n ∷ zs) (ys ++ zs) (remove l n h)
  remove_lem [] zs is = remove-first zs is
  remove_lem (q ∷ qs) [] is =
      subst (λ ys. Removes h l n ((q ∷ qs) ++ n ∷ []) ys (remove l n h)) (sym (append-nil (q ∷ qs)))
        (remove-last q qs is)
  remove_lem (q ∷ qs) (p ∷ ps) is = remove-middle h l n q p qs ps is
