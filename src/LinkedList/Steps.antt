-- ===== src/LinkedList/Steps.antt =====
-- Single steps of `dequeue`, `pop` and `remove`: what each does to the heap.
use yalnix_os.Common.{
  ◌-◌, ◌≡◌, refl, ◌≢◌, true, false, some, List, [], ◌∷◌, arith, length, update, update_self, ==_ne,
  ==_iff, suc-==-zero,
}
use yalnix_os.Heap.{
  Ptr, null, Node, Ll, Heap, run, load-ok, set_next-ok, set_prev-ok, load_list-ok, store_list-ok,
}
use yalnix_os.LinkedList.{is_empty, shrink, clear_links, drop_first, drop_last}
use yalnix_os.LinkedList.Shape.{Nodes, header_of}

-- The heap after `list->size--`.
abbrev pub shrunk : Heap → Ptr → Ll → Heap
shrunk h l hd = record h { list = update h.list l (some (record hd { size = hd.size - 1 })) }

-- The heap after `n->next = n->prev = NULL`.
abbrev pub cleared : Heap → Ptr → Node → Heap
cleared h n x = record h {
  node =
      update (update h.node n (some (record x { prev = null }))) n
        (some (record x { prev = null; next = null }));
}

-- A node as the segment knows it.
pub known :
    (N : Nodes) (n : Ptr) (y : Node) (p q : Ptr)
    → N n ≡ some y
    → y.prev ≡ p
    → y.next ≡ q
    → N n ≡ some (record y { prev = p; next = q })
known N n y p q at before behind = ground arith

module _ (h : Heap) (l : Ptr) (lne : l ≢ null) where
  pub shrink_lem : (hd : Ll) → h.list l ≡ some hd → shrink l h ≡ some (tt, shrunk h l hd)
  unfolding shrink
  shrink_lem hd at = run _ (load_list-ok h l lne at) (store_list-ok h l lne at _)

  pub is_empty-cons :
      (x : Ptr) (xs : List Ptr)
      → h.list l ≡ some (header_of (x ∷ xs))
      → is_empty l h ≡ some (false, h)
  unfolding is_empty
  is_empty-cons x xs at =
      rw (==_ne l null lne) (run _ (load_list-ok h l lne at) (rw (suc-==-zero (length xs))))

  pub is_empty-nil : h.list l ≡ some (header_of []) → is_empty l h ≡ some (true, h)
  unfolding is_empty
  is_empty-nil at = rw (==_ne l null lne) (run _ (load_list-ok h l lne at) refl)

  module _ (hd : Ll) (at : h.list l ≡ some hd) where
    pub drop_first_only :
        hd.head ≡ hd.tail
        → drop_first l h
          ≡ some (
            tt,
            record h { list = update h.list l (some (record hd { head = null; tail = null })) },
          )
    unfolding drop_first
    drop_first_only e =
        run _ (load_list-ok h l lne at)
          (rw ((==_iff hd.head hd.tail).1 e) (store_list-ok h l lne at _))

    pub drop_last_only :
        hd.head ≡ hd.tail
        → drop_last l h
          ≡ some (
            tt,
            record h { list = update h.list l (some (record hd { head = null; tail = null })) },
          )
    unfolding drop_last
    drop_last_only e =
        run _ (load_list-ok h l lne at)
          (rw ((==_iff hd.head hd.tail).1 e) (store_list-ok h l lne at _))

    pub drop_first_more :
        (t w : Node)
        → hd.head ≢ hd.tail
        → hd.head ≢ null
        → h.node hd.head ≡ some t
        → t.next ≢ null
        → h.node t.next ≡ some w
        → drop_first l h
          ≡ some (
            tt,
            record {
              node = update h.node t.next (some (record w { prev = null }));
              list = update h.list l (some (record hd { head = t.next }));
            },
          )
    unfolding drop_first
    drop_first_more t w ne nne att wne atw = run _ (load_list-ok h l lne at) (
        rw (==_ne hd.head hd.tail ne) (
          run _ (load-ok h hd.head nne att)
            (run _ (store_list-ok h l lne at _) (set_prev-ok _ t.next wne atw null))))

    pub drop_last_more :
        (t w : Node)
        → hd.head ≢ hd.tail
        → hd.tail ≢ null
        → h.node hd.tail ≡ some t
        → t.prev ≢ null
        → h.node t.prev ≡ some w
        → drop_last l h
          ≡ some (
            tt,
            record {
              node = update h.node t.prev (some (record w { next = null }));
              list = update h.list l (some (record hd { tail = t.prev }));
            },
          )
    unfolding drop_last
    drop_last_more t w ne nne att wne atw = run _ (load_list-ok h l lne at) (
        rw (==_ne hd.head hd.tail ne) (
          run _ (load-ok h hd.tail nne att)
            (run _ (store_list-ok h l lne at _) (set_next-ok _ t.prev wne atw null))))

pub clear_links_lem :
    (h : Heap) (n : Ptr) (x : Node)
    → n ≢ null
    → h.node n ≡ some x
    → clear_links n h ≡ some (tt, cleared h n x)
unfolding clear_links
clear_links_lem h n x nne at =
    run _ (set_prev-ok h n nne at null) (set_next-ok _ n nne (update_self h.node n _) null)
