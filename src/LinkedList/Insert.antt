-- ===== src/LinkedList/Insert.antt =====
-- `enqueue` and `push` of ksrc/linked_list.c.
use yalnix_os.Common.{
  ◌+◌, ◌≡◌, refl, sym, ap, ◌∙◌, ◌≢◌, false, Option, some, List, [], ◌∷◌, ◌++◌, arith, update,
  update_self, update-update-ne, update-update-update-ne, ==_ne,
}
use yalnix_os.Heap.{
  Ptr, null, Node, Ll, Heap, run, set_next-ok, set_prev-ok, load_list-ok, store_list-ok,
}
use yalnix_os.LinkedList.{enqueue, push, put_last, put_first, put_only, grow}
use yalnix_os.LinkedList.Shape.{
  has, last_or, Seg, IsList, header_of, Distinct-snoc, header-snoc, ne_of_has, has-last,
}
use yalnix_os.LinkedList.Seg
use yalnix_os.LinkedList.Keeps.{Keeps, Keeps-relink}

-- The heap after `list->size++`.
abbrev grown : Heap → Ptr → Ll → Heap
grown h l hd = record h { list = update h.list l (some (record hd { size = hd.size + 1 })) }

-- The heap after the branch for an empty list.
abbrev only : Heap → Ptr → Ptr → Ll → Node → Heap
only h l n hd x = record {
  node =
      update (update h.node n (some (record x { prev = null }))) n
        (some (record x { prev = null; next = null }));
  list = update h.list l (some (record hd { head = n; tail = n }));
}

-- The heap after the branch that links `n` behind the tail `t`.
abbrev last : Heap → Ptr → Ptr → Ll → Node → Node → Heap
last h l n hd x t = record {
  node =
      update
        (update (update h.node n (some (record x { next = null }))) n
          (some (record x { next = null; prev = hd.tail })))
        hd.tail (some (record t { next = n }));
  list = update h.list l (some (record hd { tail = n }));
}

-- The heap after the branch that links `n` before the head `t`.
abbrev first : Heap → Ptr → Ptr → Ll → Node → Node → Heap
first h l n hd x t = record {
  node =
      update
        (update (update h.node n (some (record x { next = hd.head }))) n
          (some (record x { next = hd.head; prev = null })))
        hd.head (some (record t { prev = n }));
  list = update h.list l (some (record hd { head = n }));
}

module _ (h : Heap) (l : Ptr) (hd : Ll) (lne : l ≢ null) (at : h.list l ≡ some hd) where
  grow_lem : grow l h ≡ some (tt, grown h l hd)
  unfolding grow
  grow_lem = run _ (load_list-ok h l lne at) (store_list-ok h l lne at _)

  module _ (n : Ptr) (x : Node) (nne : n ≢ null) (node : h.node n ≡ some x) where
    put_only_lem : put_only l n h ≡ some (tt, only h l n hd x)
    unfolding put_only
    put_only_lem = run _ (load_list-ok h l lne at) (
        run _ (store_list-ok h l lne at _) (
          run _ (set_prev-ok _ n nne node null)
            (set_next-ok _ n nne (update_self h.node n _) null)))

    put_last_lem :
        (t : Node)
        → hd.tail ≢ null
        → n ≢ hd.tail
        → h.node hd.tail ≡ some t
        → put_last l n h ≡ some (tt, last h l n hd x t)
    unfolding put_last
    put_last_lem t tne apart att = run _ (load_list-ok h l lne at) (
        run _ (set_next-ok _ n nne node null) (
          run _ (set_prev-ok _ n nne (update_self h.node n _) hd.tail) (
            run _ (set_next-ok _ hd.tail tne (update-update-ne h.node n hd.tail _ _ apart ∙ att) n)
              (store_list-ok _ l lne at _))))

    put_first_lem :
        (t : Node)
        → hd.head ≢ null
        → n ≢ hd.head
        → h.node hd.head ≡ some t
        → put_first l n h ≡ some (tt, first h l n hd x t)
    unfolding put_first
    put_first_lem t tne apart att = run _ (load_list-ok h l lne at) (
        run _ (set_next-ok _ n nne node hd.head) (
          run _ (set_prev-ok _ n nne (update_self h.node n _) null) (
            run _ (set_prev-ok _ hd.head tne (update-update-ne h.node n hd.head _ _ apart ∙ att) n)
              (store_list-ok _ l lne at _))))

-- What `enqueue` and `push` do: the list `l` with the nodes `xs` and the node `n` becomes `ys`.
pub record Inserts (h : Heap) (l n : Ptr) (xs ys : List Ptr) (o : Option (Unit {0} × Heap))
    : Type 0 where
  pub after : Heap
  pub returns : o ≡ some (tt, after)
  pub is_list : IsList after l ys
  pub keeps : Keeps h after (n ∷ xs) l

module _ (h : Heap) (l n : Ptr) (x : Node) (nne : n ≢ null) (node : h.node n ≡ some x) where
  module _ (is : IsList h l []) where
    open is use {exists, header}

    abbrev alone : Heap
    alone = grown (only h l n (header_of []) x) l (record (header_of []) { head = n; tail = n })

    alone-IsList : IsList alone l (n ∷ [])
    alone-IsList = record {
      exists = exists;
      header = ground arith;
      chain = (record x { prev = null; next = null }, nne, ground arith, refl, refl, tt);
      distinct = (refl, tt);
    }

    alone-Keeps : Keeps h alone (n ∷ []) l
    alone-Keeps = record { nodes = ground arith; lists = ground arith; payloads = ground arith }

    enqueue-nil : Inserts h l n [] (n ∷ []) (enqueue l n h)
    unfolding enqueue
    enqueue-nil = record {
      after = alone;
      returns =
          rw (==_ne l null exists, ==_ne n null nne)
            (run _ (load_list-ok h l exists header) (
              run _ (put_only_lem h l _ exists header n x nne node)
                (grow_lem _ l _ exists (update_self h.list l _))));
      is_list = alone-IsList;
      keeps = alone-Keeps;
    }

    push-nil : Inserts h l n [] (n ∷ []) (push l n h)
    unfolding push
    push-nil = record {
      after = alone;
      returns =
          rw (==_ne l null exists, ==_ne n null nne)
            (run _ (load_list-ok h l exists header) (
              run _ (put_only_lem h l _ exists header n x nne node)
                (grow_lem _ l _ exists (update_self h.list l _))));
      is_list = alone-IsList;
      keeps = alone-Keeps;
    }

  module _ (p : Ptr) (ps : List Ptr) (out : has n (p ∷ ps) ≡ false) (is : IsList h l (p ∷ ps)) where
    open is use {exists, header, chain, distinct}

    -- The list survives the writes to `n`.
    spare : (y z : Node) → Seg (update (update h.node n (some y)) n (some z)) null (p ∷ ps) null
    spare y z = Seg.frame_twice h.node null (p ∷ ps) null n (some y) (some z) chain out

    enqueue-cons : Inserts h l n (p ∷ ps) ((p ∷ ps) ++ n ∷ []) (enqueue l n h)
    unfolding enqueue
    enqueue-cons =
        let hd = header_of (p ∷ ps) in
        let e : Ptr = last_or p ps in
        let y = record x { next = null } in
        let z = record x { next = null; prev = e } in
        let (t, ene, at, _, seg) = Seg.relink_last _ null p ps null n (spare y z) distinct in
        let apart : n ≢ e = ne_of_has n e (p ∷ ps) out (has-last p ps) in
        let att : h.node e ≡ some t = sym (update-update-ne h.node n e _ _ apart) ∙ at in
        record {
          after = grown (last h l n hd x t) l (record hd { tail = n });
          returns =
              rw (==_ne l null exists, ==_ne n null nne)
                (run _ (load_list-ok h l exists header) (
                  rw (==_ne p null chain.1) (
                    run _ (put_last_lem h l _ exists header n x nne node t ene apart att)
                      (grow_lem _ l _ exists (update_self h.list l _)))));
          is_list = record {
            exists = exists;
            header = update_self (update h.list l _) l _ ∙ ap some (header-snoc p n ps);
            chain =
                Seg.append _ null (p ∷ ps) (n ∷ []) null seg
                  (z, nne, update-update-update-ne h.node n e (some y) _ _ apart, refl, refl, tt);
            distinct = Distinct-snoc (p ∷ ps) n distinct out;
          };
          keeps =
              Keeps-relink h l n e (p ∷ ps) _ _ x _ z t _ node att apart (has-last p ps) refl refl;
        }

    push-cons : Inserts h l n (p ∷ ps) (n ∷ p ∷ ps) (push l n h)
    unfolding push
    push-cons =
        let hd = header_of (p ∷ ps) in
        let y = record x { next = p } in
        let z = record x { next = p; prev = null } in
        let (t, pne, at, _, seg) = Seg.relink_first _ null p ps null n (spare y z) distinct in
        let apart : n ≢ p = ne_of_has n p (p ∷ ps) out (ground arith) in
        let att : h.node p ≡ some t = sym (update-update-ne h.node n p _ _ apart) ∙ at in
        record {
          after = grown (first h l n hd x t) l (record hd { head = n });
          returns =
              rw (==_ne l null exists, ==_ne n null nne)
                (run _ (load_list-ok h l exists header) (
                  rw (==_ne p null chain.1) (
                    run _ (put_first_lem h l _ exists header n x nne node t pne apart att)
                      (grow_lem _ l _ exists (update_self h.list l _)))));
          is_list = record {
            exists = exists;
            header = update_self (update h.list l _) l _ ∙ ap some (ground arith);
            chain =
                (z, nne, update-update-update-ne h.node n p (some y) _ _ apart, refl, refl, seg);
            distinct = (out, distinct);
          };
          keeps =
              Keeps-relink h l n p (p ∷ ps) _ _ x _ z t _ node att apart (ground arith) refl refl;
        }

module _ (h : Heap) (l n : Ptr) (x : Node) (xs : List Ptr) where
  -- `enqueue` of a node that the list does not hold puts it behind the others, and writes only the
  -- links of the node and of the list's nodes, and the list's header.
  pub enqueue_lem :
      IsList h l xs
      → n ≢ null
      → h.node n ≡ some x
      → has n xs ≡ false
      → Inserts h l n xs (xs ++ n ∷ []) (enqueue l n h)
  enqueue_lem is nne node out = enqueue_any xs is out
    where
      enqueue_any :
          (ys : List Ptr)
          → IsList h l ys
          → has n ys ≡ false
          → Inserts h l n ys (ys ++ n ∷ []) (enqueue l n h)
      enqueue_any [] is out = enqueue-nil h l n x nne node is
      enqueue_any (p ∷ ps) is out = enqueue-cons h l n x nne node p ps out is

  -- `push` of a node that the list does not hold puts it before the others, and writes only the
  -- links of the node and of the list's nodes, and the list's header.
  pub push_lem :
      IsList h l xs
      → n ≢ null
      → h.node n ≡ some x
      → has n xs ≡ false
      → Inserts h l n xs (n ∷ xs) (push l n h)
  push_lem is nne node out = push_any xs is out
    where
      push_any :
          (ys : List Ptr)
          → IsList h l ys
          → has n ys ≡ false
          → Inserts h l n ys (n ∷ ys) (push l n h)
      push_any [] is out = push-nil h l n x nne node is
      push_any (p ∷ ps) is out = push-cons h l n x nne node p ps out is
