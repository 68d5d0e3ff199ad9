-- ===== src/LinkedList/Create.antt =====
-- `new_ll`, `new_node` and `destroy_node` of ksrc/linked_list.c.
use yalnix_os.Common.{◌≡◌, refl, ◌≢◌, none, some, [], arith, update, update_self, update-ne, ==_ne}
use yalnix_os.Common.Int.{ℤ, minus_one}
use yalnix_os.Heap.{Ptr, null, Node, Heap, run, store-ok}
use yalnix_os.LinkedList.{new_ll, new_node, destroy_node}
use yalnix_os.LinkedList.Shape.{IsList}

abbrev wiped : Node
wiped = record { contents = null; code = minus_one; next = null; prev = null }

-- The heap after `destroy_node`.
abbrev destroyed : Heap → Ptr → Heap
destroyed g n = record g { node = update (update g.node n (some wiped)) n none }

module _ (h : Heap) where
  -- The heap after `new_node`.
  abbrev made : Ptr → ℤ → Ptr → Heap
  made fresh code contents = record h {
    node =
        update h.node fresh
          (some (record { contents = contents; code = code; next = null; prev = null }));
  }

  -- The list that new_ll makes at an address that is not NULL is well formed and empty; nodes and
  -- other lists are left alone.
  pub new_ll_lem :
      (fresh : Ptr)
      → fresh ≢ null
      → (g : Heap) × (new_ll fresh h ≡ some (fresh, g))
        × IsList g fresh []
        × (g.node ≡ h.node)
        × ((m : Ptr) → m ≢ fresh → g.list m ≡ h.list m)
  unfolding new_ll
  new_ll_lem fresh ne = (
    _,
    refl,
    record { exists = ne; header = update_self h.list fresh _; chain = tt; distinct = tt },
    refl,
    λ m other. update-ne h.list fresh m _ (λ e. other (ground arith)),
  )

  -- A node made by new_node at an address that is not NULL and destroyed again leaves the heap as
  -- it was but for its address, which holds nothing.
  pub destroy_node-new_node :
      (fresh : Ptr) (code : ℤ) (contents : Ptr)
      → fresh ≢ null
      → (g k : Heap) × (new_node fresh code contents h ≡ some (fresh, g))
        × (destroy_node fresh g ≡ some (tt, k))
        × (k.node fresh ≡ none)
        × ((a : Ptr) → a ≢ fresh → k.node a ≡ h.node a)
        × (k.list ≡ h.list)
  unfolding new_node destroy_node
  destroy_node-new_node fresh code contents ne = (
    made fresh code contents,
    destroyed (made fresh code contents) fresh,
    refl,
    rw (==_ne fresh null ne) (
        run _ (store-ok (made fresh code contents) fresh ne (update_self h.node fresh _) wiped)
          refl),
    update_self (update (made fresh code contents).node fresh (some wiped)) fresh none,
    λ a other. ground arith,
    refl,
  )
