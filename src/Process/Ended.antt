-- ===== src/Process/Ended.antt =====
-- Processes that have ended, and what it does to destroy one of them.
use mathlib.Core.Path.{subst}
use yalnix_os.Common.{
  ℕ, ◌+◌, ◌≡◌, ◌≢◌, refl, sym, ap, ◌∙◌, Option, none, some, true, false, List, [], ◌∷◌, arith,
  update, update-ne, update-update-ne, update_self, Bool-cases, inl, inr,
}
use yalnix_os.Heap.{Ptr, null, Heap, Node}
use yalnix_os.LinkedList.Shape.{has, IsList, ne_of_has}
use yalnix_os.LinkedList.Seg
use yalnix_os.LinkedList.Keeps.{payload}
use yalnix_os.Frames.{frames_left}
use yalnix_os.Common.Int.{pos}
use yalnix_os.Memory.{Machine, Pages, Mem}
use yalnix_os.Memory.Owns.{Owns}
use yalnix_os.Memory.Destroy.{in_use}
use yalnix_os.Memory.Tables.{kstack_pages}
use yalnix_os.Memory.Tables.KernelStack.{destroy_kstack_lem}
use yalnix_os.Memory.Tables.Fresh.{Disjoint}
use yalnix_os.Kernel.{Kernel, Pcb}
use yalnix_os.Kernel.Runs.{PointsTo}
use yalnix_os.Process.{process_destroy}
use yalnix_os.Process.Destroy.{without_node, destroyed, process_destroy_lem}

-- A process that has ended: its node, the address of its block, and the block.
pub record Ended : Type 0 where
  pub node : Ptr
  pub at : Ptr
  pub pcb : Pcb

unfoldable pub nodes_of : List Ended → List Ptr
nodes_of [] = []
nodes_of (o ∷ os) = o.node ∷ nodes_of os

unfoldable pub blocks_of : List Ended → List Ptr
blocks_of [] = []
blocks_of (o ∷ os) = o.at ∷ blocks_of os

-- The pages `pt` share no frame with the kernel stacks of the processes.
unfoldable pub AllDisjoint : Pages → List Ended → Type 0
AllDisjoint pt [] = Unit
AllDisjoint pt (o ∷ os) = Disjoint pt o.pcb.kstack × AllDisjoint pt os

-- A list without the node keeps its form when the node is freed.
pub IsList-without :
    (n : Ptr) {h : Heap} {l : Ptr} {xs : List Ptr}
    → IsList h l xs
    → has n xs ≡ false
    → IsList (without_node n h) l xs
IsList-without n {h} {l} {xs} is out = record {
  exists = is.exists;
  header = is.header;
  chain =
      Seg.frame h.node _ null xs null is.chain
        (λ a i. update-update-ne h.node n a _ none (ne_of_has n a xs out i));
  distinct = is.distinct;
}

module _ (m : Machine) where
  -- The processes' nodes lead to their blocks, which are different, and their kernel stacks own their
  -- frames and share none.
  unfoldable pub AreEnded : List Ended → Kernel → Type 0
  unfolding blocks_of AllDisjoint
  AreEnded [] s = Unit
  AreEnded (o ∷ os) s =
      PointsTo s.heap o.node o.at
      × (s.pcb o.at ≡ some o.pcb)
      × (has o.at (blocks_of os) ≡ false)
      × Owns m.base_frame o.pcb.kstack s.mem.free_frame
      × AllDisjoint o.pcb.kstack os
      × AreEnded os s

  -- The frames of their kernel stacks.
  unfoldable pub stack_frames : List Ended → ℕ
  stack_frames [] = 0
  stack_frames (o ∷ os) = in_use (kstack_pages m) 0 o.pcb.kstack + stack_frames os

  -- What destroying all of them does.
  pub record Reaps (os : List Ended) (s t : Kernel) : Type 0 where
    pub procs : t.procs ≡ s.procs
    pub user : t.user ≡ s.user
    pub lists : (l : Ptr) → l ≢ s.procs.orphans → t.heap.list l ≡ s.heap.list l
    pub none_left : IsList t.heap s.procs.orphans []
    pub frames : frames_left t.mem.free_frame ≡ frames_left s.mem.free_frame + stack_frames os
    pub nodes_gone : (a : Ptr) → has a (nodes_of os) ≡ true → t.heap.node a ≡ none
    pub other_nodes : (a : Ptr) → has a (nodes_of os) ≡ false → t.heap.node a ≡ s.heap.node a
    pub blocks_gone : (a : Ptr) → has a (blocks_of os) ≡ true → t.pcb a ≡ none
    pub other_blocks : (a : Ptr) → has a (blocks_of os) ≡ false → t.pcb a ≡ s.pcb a

  -- A node that keeps its payload leads to the same block.
  PointsTo-payload :
      (h g : Heap) (n p : Ptr)
      → payload (g.node n) ≡ payload (h.node n)
      → PointsTo h n p
      → PointsTo g n p
  PointsTo-payload h g n p same (x, ne, at, to) = found (g.node n) refl
    where
      found : (c : Option Node) → g.node n ≡ c → PointsTo g n p
      found none e =
          let w : payload none ≡ payload (some x) = ap payload (sym e) ∙ same ∙ ap payload at in cc
      found (some y) e =
          let w : payload (some y) ≡ payload (some x) = ap payload (sym e) ∙ same ∙ ap payload at in
          (y, ne, e, cc)

  -- The other ones are left as they are when nothing of theirs changes.
  pub AreEnded-after :
      (os : List Ended) (pt : Pages) (s t : Kernel)
      → ((a : Ptr) → has a (nodes_of os) ≡ true → payload (t.heap.node a) ≡ payload (s.heap.node a))
      → ((a : Ptr) → has a (blocks_of os) ≡ true → t.pcb a ≡ s.pcb a)
      → ((other : Pages)
          → Owns m.base_frame other s.mem.free_frame
          → Disjoint pt other
          → Owns m.base_frame other t.mem.free_frame)
      → AllDisjoint pt os
      → AreEnded os s
      → AreEnded os t
  unfolding AreEnded AllDisjoint nodes_of blocks_of
  AreEnded-after [] pt s t nodes blocks owns apart are = tt
  AreEnded-after (o ∷ os) pt s t nodes blocks owns (apart, aparts)
        (to, block, alone, own, all, are) =
      (
        PointsTo-payload s.heap t.heap o.node o.at (nodes o.node (ground arith)) to,
        blocks o.at (ground arith) ∙ block,
        alone,
        owns o.pcb.kstack own apart,
        all,
        AreEnded-after os pt s t (λ a i. nodes a (ground arith)) (λ a i. blocks a (ground arith))
            owns aparts are,
      )

  AllDisjoint-empty :
      (os : List Ended) → AllDisjoint (λ j. record { valid = false; pfn = pos 0; prot = 0 }) os
  unfolding AllDisjoint
  AllDisjoint-empty [] = tt
  AllDisjoint-empty (o ∷ os) = ((λ i j v w e. cc), AllDisjoint-empty os)

  -- Only links of nodes change.
  pub AreEnded-payload :
      (os : List Ended) (s t : Kernel)
      → ((a : Ptr) → payload (t.heap.node a) ≡ payload (s.heap.node a))
      → t.pcb ≡ s.pcb
      → t.mem ≡ s.mem
      → AreEnded os s
      → AreEnded os t
  AreEnded-payload os s t nodes blocks mem are =
      AreEnded-after os _ s t (λ a i. nodes a) (λ a i. ap (λ (f : Ptr → Option Pcb). f a) blocks)
        (λ other o apart. subst (λ (x : Mem). Owns m.base_frame other x.free_frame) (sym mem) o)
        (AllDisjoint-empty os) are

  -- One ended process is destroyed, in the heap `h`, where nodes may have other links.
  module _ (o : Ended) (os : List Ended) (s : Kernel) (h : Heap) (are : AreEnded (o ∷ os) s) where
    abbrev pub then_on : Kernel
    then_on = destroyed m o.node o.at o.pcb (record s { heap = h })

    node_kept : (a : Ptr) → o.node ≢ a → then_on.heap.node a ≡ h.node a
    node_kept a ne = update-update-ne h.node o.node a _ none ne

    pub destroyed-lem :
        payload (h.node o.node) ≡ payload (s.heap.node o.node)
        → process_destroy m o.node (record s { heap = h }) ≡ some (tt, then_on)
    unfolding AreEnded
    destroyed-lem same =
        let (to, block, alone, own, all, rest) = are in
        let s1 : Kernel = record s { heap = h } in
        process_destroy_lem m o.node o.at o.pcb s1 (PointsTo-payload s.heap h o.node o.at same to)
          block

    pub others_ended :
        has o.node (nodes_of os) ≡ false
        → ((a : Ptr) → payload (h.node a) ≡ payload (s.heap.node a))
        → AreEnded os then_on
    unfolding AreEnded nodes_of
    others_ended out same =
        let (to, block, alone, own, all, rest) = are in
        AreEnded-after os o.pcb.kstack s then_on
          (λ a i. ap payload (node_kept a (ne_of_has o.node a (nodes_of os) out i)) ∙ same a)
          (λ a i. update-ne s.pcb o.at a none (ne_of_has o.at a (blocks_of os) alone i))
          (destroy_kstack_lem m o.pcb.kstack s.mem.free_frame own).1 all rest

    pub Reaps-step :
        (u : Kernel)
        → ((a : Ptr) → has a (nodes_of (o ∷ os)) ≡ false → h.node a ≡ s.heap.node a)
        → ((l : Ptr) → l ≢ s.procs.orphans → h.list l ≡ s.heap.list l)
        → Reaps os then_on u
        → Reaps (o ∷ os) s u
    unfolding nodes_of blocks_of stack_frames AreEnded
    Reaps-step u kept lists r =
        let (to, block, alone, own, all, rest) = are in
        let (more, spared) = destroy_kstack_lem m o.pcb.kstack s.mem.free_frame own in
        record {
          procs = r.procs;
          user = r.user;
          lists = λ l ne. r.lists l ne ∙ lists l ne;
          none_left = r.none_left;
          frames = omega arith;
          nodes_gone = λ a i. elim (Bool-cases (has a (nodes_of os))) [
            | inl in_rest ↦ r.nodes_gone a in_rest
            | inr out ↦
                let same : o.node ≡ a = ground arith in
                r.other_nodes a out
                ∙ subst (λ b. then_on.heap.node b ≡ none) same
                    (update_self (update h.node o.node _) o.node none)
          ];
          other_nodes =
              λ a out. r.other_nodes a (ground arith) ∙ node_kept a (ground arith) ∙ kept a out;
          blocks_gone = λ a i. elim (Bool-cases (has a (blocks_of os))) [
            | inl in_rest ↦ r.blocks_gone a in_rest
            | inr out ↦
                let same : o.at ≡ a = ground arith in
                r.other_blocks a out
                ∙ subst (λ b. then_on.pcb b ≡ none) same (update_self s.pcb o.at none)
          ];
          other_blocks =
              λ a out. r.other_blocks a (ground arith) ∙ update-ne s.pcb o.at a none (ground arith);
        }
