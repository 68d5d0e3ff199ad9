-- ===== src/LinkedList/Ends.antt =====
-- `dequeue` and `pop` of ksrc/linked_list.c.
use yalnix_os.Common.{
  ◌≡◌, refl, sym, ap, ◌∙◌, ◌≢◌, false, Option, some, List, [], ◌∷◌, ◌++◌, arith, length, update,
  length-append, update_self, update-ne,
}
use yalnix_os.Heap.{Ptr, null, Node, Ll, Heap, run, load_list-ok}
use yalnix_os.LinkedList.{dequeue, pop}
use yalnix_os.LinkedList.Shape.{
  has, last_or, IsList, header_of, ne_of_has, has-last, last_or-append, Distinct-front,
  Distinct-end, has_end, has_front,
}
use yalnix_os.LinkedList.Seg
use yalnix_os.LinkedList.Keeps.{Keeps, Keeps-unlink}
use yalnix_os.LinkedList.Steps.{
  known, shrunk, cleared, shrink_lem, clear_links_lem, is_empty-cons, drop_first_only,
  drop_last_only, drop_first_more, drop_last_more,
}

-- What taking the node `n` off the list `xs` does: the rest is `ys`, and `n` has no links left.
pub record Removes (h : Heap) (l n : Ptr) (xs ys : List Ptr) (o : Option (Ptr × Heap))
    : Type 0 where
  pub after : Heap
  pub returns : o ≡ some (n, after)
  pub is_list : IsList after l ys
  pub keeps : Keeps h after xs l
  pub removed : Node
  pub unlinked : after.node n ≡ some (record removed { next = null; prev = null })

module _ (h : Heap) (l n : Ptr) where
  module _ (is : IsList h l (n ∷ [])) where
    open is use {exists, header, chain, distinct}

    abbrev emptied : Heap
    emptied =
        let x = chain.0 in
        record {
          node =
              update (update h.node n (some (record x { prev = null }))) n
                (some (record x { prev = null; next = null }));
          list =
              update (update h.list l (some (record { size = 1; head = null; tail = null }))) l
                (some (header_of []));
        }

    emptied-IsList : IsList emptied l []
    emptied-IsList = record {
      exists = exists;
      header = update_self (update h.list l _) l _;
      chain = tt;
      distinct = tt;
    }

    emptied-Keeps : Keeps h emptied (n ∷ []) l
    emptied-Keeps =
        let at = chain.2 in
        record { nodes = ground arith; lists = ground arith; payloads = ground arith }

    dequeue-one : Removes h l n (n ∷ []) [] (dequeue l h)
    unfolding dequeue
    dequeue-one = record {
      after = emptied;
      returns = run _ (is_empty-cons h l exists n [] header) (
          run _ (load_list-ok h l exists header) (
            run _ (drop_first_only h l exists _ header refl) (
              run _ (shrink_lem _ l exists _ (update_self h.list l _))
                (run _ (clear_links_lem _ n chain.0 chain.1 chain.2) refl))));
      is_list = emptied-IsList;
      keeps = emptied-Keeps;
      removed = chain.0;
      unlinked = update_self (update h.node n _) n _;
    }

    pop-one : Removes h l n (n ∷ []) [] (pop l h)
    unfolding pop
    pop-one = record {
      after = emptied;
      returns = run _ (is_empty-cons h l exists n [] header) (
          run _ (load_list-ok h l exists header) (
            run _ (drop_last_only h l exists _ header refl) (
              run _ (shrink_lem _ l exists _ (update_self h.list l _))
                (run _ (clear_links_lem _ n chain.0 chain.1 chain.2) refl))));
      is_list = emptied-IsList;
      keeps = emptied-Keeps;
      removed = chain.0;
      unlinked = update_self (update h.node n _) n _;
    }

  dequeue-more :
      (p : Ptr) (ps : List Ptr)
      → IsList h l (n ∷ p ∷ ps)
      → Removes h l n (n ∷ p ∷ ps) (p ∷ ps) (dequeue l h)
  unfolding dequeue
  dequeue-more p ps is =
      let (y, nne, aty, before, behind, seg) = is.chain in
      let x : Node = record y { prev = null; next = p } in
      let atx : h.node n ≡ some x = known h.node n y null p aty before behind in
      let (t, pne, att, _, seg') = Seg.relink_first h.node n p ps null null seg is.distinct.1 in
      let apart : p ≢ n = λ e. ne_of_has n p (p ∷ ps) is.distinct.0 (ground arith) (sym e) in
      let end : n ≢ last_or p ps = ne_of_has n _ (p ∷ ps) is.distinct.0 (has-last p ps) in
      let atx' : update h.node p (some (record t { prev = null })) n ≡ some x =
        update-ne h.node p n _ apart ∙ atx in
      record {
        after =
            cleared
              (shrunk
                (record {
                  node = update h.node p (some (record t { prev = null }));
                  list = update h.list l (some (record (header_of (n ∷ p ∷ ps)) { head = p }));
                })
                l (record (header_of (n ∷ p ∷ ps)) { head = p }))
              n x;
        returns = run _ (is_empty-cons h l is.exists n (p ∷ ps) is.header) (
            run _ (load_list-ok h l is.exists is.header) (
              run _ (drop_first_more h l is.exists _ is.header x t end nne atx pne att) (
                run _ (shrink_lem _ l is.exists _ (update_self h.list l _))
                  (run _ (clear_links_lem _ n x nne atx') refl))));
        is_list = record {
          exists = is.exists;
          header = update_self (update h.list l _) l _ ∙ ap some (ground arith);
          chain = Seg.frame_twice _ null (p ∷ ps) null n _ _ seg' is.distinct.0;
          distinct = is.distinct.1;
        };
        keeps =
            Keeps-unlink h l n p (n ∷ p ∷ ps) _ _ x _ _ t _ atx att apart (ground arith)
              (ground arith) refl refl;
        removed = x;
        unlinked = update_self (update (update h.node p _) n _) n _;
      }

  pop-more :
      (q : Ptr) (qs : List Ptr)
      → IsList h l ((q ∷ qs) ++ n ∷ [])
      → Removes h l n ((q ∷ qs) ++ n ∷ []) (q ∷ qs) (pop l h)
  unfolding pop
  pop-more q qs is =
      let xs : List Ptr = (q ∷ qs) ++ n ∷ [] in
      let e : Ptr = last_or q qs in
      let hd : Ll = record { size = length xs; head = q; tail = n } in
      let header : h.list l ≡ some hd =
        is.header ∙ ap some (ground (arith, last_or-append q n qs [])) in
      let (front, back) = Seg.split h.node null (q ∷ qs) (n ∷ []) null is.chain in
      let (y, nne, aty, before, behind, _) = back in
      let x : Node = record y { prev = e; next = null } in
      let atx : h.node n ≡ some x = known h.node n y e null aty before behind in
      let distinct = Distinct-front (q ∷ qs) (n ∷ []) is.distinct in
      let (t, ene, att, _, seg) = Seg.relink_last h.node null q qs n null front distinct in
      let out : has n (q ∷ qs) ≡ false = Distinct-end (q ∷ qs) n is.distinct in
      let apart : e ≢ n = λ r. ne_of_has n e (q ∷ qs) out (has-last q qs) (sym r) in
      let end : q ≢ n = λ r. ne_of_has n q (q ∷ qs) out (ground arith) (sym r) in
      let atx' : update h.node e (some (record t { next = null })) n ≡ some x =
        update-ne h.node e n _ apart ∙ atx in
      record {
        after =
            cleared
              (shrunk
                (record {
                  node = update h.node e (some (record t { next = null }));
                  list = update h.list l (some (record hd { tail = e }));
                })
                l (record hd { tail = e }))
              n x;
        returns = run _ (is_empty-cons h l is.exists q (qs ++ n ∷ []) is.header) (
            run _ (load_list-ok h l is.exists header) (
              run _ (drop_last_more h l is.exists hd header x t end nne atx ene att) (
                run _ (shrink_lem _ l is.exists _ (update_self h.list l _))
                  (run _ (clear_links_lem _ n x nne atx') refl))));
        is_list = record {
          exists = is.exists;
          header =
              update_self (update h.list l _) l _
              ∙ ap some (ground (arith, length-append qs (n ∷ [])));
          chain = Seg.frame_twice _ null (q ∷ qs) null n _ _ seg out;
          distinct = distinct;
        };
        keeps =
            Keeps-unlink h l n e xs _ _ x _ _ t _ atx att apart (has_end (q ∷ qs) n)
              (has_front e (q ∷ qs) (n ∷ []) (has-last q qs)) refl refl;
        removed = x;
        unlinked = update_self (update (update h.node e _) n _) n _;
      }

  -- `dequeue` of a list that is not empty returns its first node, unlinked, leaves the others in
  -- order, and writes only the links of the list's nodes and the list's header.
  pub dequeue_lem : (xs : List Ptr) → IsList h l (n ∷ xs) → Removes h l n (n ∷ xs) xs (dequeue l h)
  dequeue_lem [] is = dequeue-one is
  dequeue_lem (p ∷ ps) is = dequeue-more p ps is

  -- `pop` of a list that is not empty returns its last node, unlinked, leaves the others in
  -- order, and writes only the links of the list's nodes and the list's header.
  pub pop_lem :
      (xs : List Ptr) → IsList h l (xs ++ n ∷ []) → Removes h l n (xs ++ n ∷ []) xs (pop l h)
  pop_lem [] is = pop-one is
  pop_lem (q ∷ qs) is = pop-more q qs is
