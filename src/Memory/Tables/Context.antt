-- ===== src/Memory/Tables/Context.antt =====
-- KCSwitch and KCCopy of ksrc/cswitch.c with the kernel contexts, and what a process finds when it is switched to again.
use mathlib.Core.Path.{subst, fun_ext}
use yalnix_os.Common.{
  ℕ, zero, suc, ◌+◌, ◌-◌, ◌≤◌, ◌<◌, ◌≡◌, refl, sym, ap, ◌∙◌, ◌≢◌, ◌⊎◌, Bool, true, false, arith,
  ◌==◌, ◌&&◌, ltb, leb, update, update_self, update-ne, ==_iff, List, [], ◌∷◌,
}
use yalnix_os.Memory.{Machine, Pages, Mem}
use yalnix_os.Memory.Tables.{
  base_page_0, base_page_kstack, kstack_pages, switch_loop, kc_switch, kc_copy,
}

-- What KCSwitch and KCCopy read and write: the globals of the memory, the contexts and kernel stacks of the
-- processes by the addresses of their PCBs, and the process whose table is in REG_PTBR1. What a
-- kernel context is, the machine says.
pub record Switching (KernelContext : Type 0) : Type 0 where
  pub mem : Mem
  pub kc : ℕ → KernelContext
  pub kstack : ℕ → Pages
  pub ptbr1 : ℕ

-- A sequence of switches: each with the context to save, and the PCBs that it goes from and to.
abbrev pub Switches : Type 0 → Type 0
Switches KernelContext = List (KernelContext × ℕ × ℕ)

module _ {KernelContext : Type 0} where
  -- No switch of the sequence goes from `p`.
  unfoldable pub Spares : ℕ → Switches KernelContext → Type 0
  Spares p [] = Unit
  Spares p ((kc_in, curr, next) ∷ rest) = (curr ≢ p) × Spares p rest

  module _ (m : Machine) (flush_kstack flush_1 : ℕ) where
    -- KCSwitch, for the PCBs `curr` and `next`; the result is the context to go on with.
    pub switch_pcb :
        (kc_in : KernelContext) (curr next : ℕ)
        → Switching KernelContext
        → Switching KernelContext × KernelContext
    unfolding kc_switch
    switch_pcb kc_in curr next s =
        let kc = update s.kc curr kc_in in
        (
          record s {
            kc = kc;
            mem = kc_switch m flush_kstack flush_1 (s.kstack next) s.mem;
            ptbr1 = next;
          },
          kc next,
        )

    -- KCCopy, for the PCB `child`; it goes on with the context that it came with.
    pub copy_pcb :
        (kc_in : KernelContext) (child : ℕ)
        → Switching KernelContext
        → Switching KernelContext × KernelContext
    unfolding kc_copy
    copy_pcb kc_in child s =
        let (kstack, mem) = kc_copy m (s.kstack child) s.mem in
        (
          record s {
            kc = update s.kc child kc_in;
            kstack = update s.kstack child kstack;
            mem = mem;
          },
          kc_in,
        )

    pub switch_all : Switches KernelContext → Switching KernelContext → Switching KernelContext
    unfolding switch_pcb
    switch_all [] s = s
    switch_all ((kc_in, curr, next) ∷ rest) s = switch_all rest (switch_pcb kc_in curr next s).0

  -- The pages of the kernel stack in region 0 are those that the process's PCB names.
  abbrev pub IsCurrent : Machine → ℕ → Switching KernelContext → Type 0
  IsCurrent m p s =
      (j : ℕ)
      → j < kstack_pages m
      → s.mem.kernel_pt (base_page_kstack m + j - base_page_0 m) ≡ s.kstack p j

-- Of the table, the `k` entries for the kernel stack from `i` on are those of `next`.
record Placed (b0 bk k i : ℕ) (next pt pt' : Pages) : Type 0 where
  inside : (j : ℕ) → i ≤ j → j < i + k → pt' (bk + j - b0) ≡ next j
  outside : (x : ℕ) → (x + b0 < bk + i) ⊎ (bk + i + k ≤ x + b0) → pt' x ≡ pt x

Placed-step :
    (b0 bk k i : ℕ) (next pt pt' : Pages)
    → b0 ≤ bk
    → Placed b0 bk k (i + 1) next (update pt (bk + i - b0) (next i)) pt'
    → Placed b0 bk (suc k) i next pt pt'
Placed-step b0 bk k i next pt pt' low c = record {
  inside = λ j a b. at j (i == j) refl a b;
  outside = λ x s. c.outside x (omega arith) ∙ update-ne pt (bk + i - b0) x (next i) (omega arith);
}
  where
    at : (j : ℕ) (t : Bool) → (i == j) ≡ t → i ≤ j → j < i + suc k → pt' (bk + j - b0) ≡ next j
    at j true e a b =
        let same : i ≡ j = (==_iff i j).0 e in
        subst (λ n. pt' (bk + n - b0) ≡ next n) same
          (c.outside (bk + i - b0) (omega arith) ∙ update_self pt (bk + i - b0) (next i))
    at j false e a b = let ne : i ≢ j = ground arith in c.inside j (omega arith) (omega arith)

module _ (m : Machine) (low : base_page_0 m ≤ base_page_kstack m) where
  switch_loop_lem :
      (k i : ℕ) (next pt : Pages)
      → Placed (base_page_0 m) (base_page_kstack m) k i next pt (switch_loop m k i next pt)
  unfolding switch_loop
  switch_loop_lem zero i next pt = record {
    inside = λ j a b. absurd (omega arith);
    outside = λ x s. refl;
  }
  switch_loop_lem (suc k) i next pt =
      Placed-step (base_page_0 m) (base_page_kstack m) k i next pt _ low
        (switch_loop_lem k (i + 1) next _)

  module _ {KernelContext : Type 0} (flush_kstack flush_1 : ℕ) where
    -- What the switches between two runs of `p` leave alone.
    record Keeps (p : ℕ) (s t : Switching KernelContext) : Type 0 where
      saved : t.kc p ≡ s.kc p
      stacks : t.kstack ≡ s.kstack
      others :
          (x : ℕ)
          → (x + base_page_0 m < base_page_kstack m)
            ⊎ (base_page_kstack m + kstack_pages m ≤ x + base_page_0 m)
          → t.mem.kernel_pt x ≡ s.mem.kernel_pt x

    switch_all-Keeps :
        (p : ℕ) (l : Switches KernelContext) (s : Switching KernelContext)
        → Spares p l
        → Keeps p s (switch_all m flush_kstack flush_1 l s)
    unfolding switch_all switch_pcb kc_switch Spares
    switch_all-Keeps p [] s spares = record { saved = refl; stacks = refl; others = λ x o. refl }
    switch_all-Keeps p ((kc_in, curr, next) ∷ rest) s (ne, spares) =
        let one = (switch_pcb m flush_kstack flush_1 kc_in curr next s).0 in
        let k = switch_all-Keeps p rest one spares in
        let placed = switch_loop_lem (kstack_pages m) 0 (s.kstack next) s.mem.kernel_pt in
        record {
          saved = k.saved ∙ update-ne s.kc curr p kc_in ne;
          stacks = k.stacks;
          others = λ x o. k.others x o ∙ placed.outside x (omega arith);
        }

-- The entries for the kernel stack, and the others.
Placed-whole :
    (b0 bk k : ℕ) (next old pt pt' : Pages)
    → b0 ≤ bk
    → Placed b0 bk k 0 next pt pt'
    → ((j : ℕ) → j < k → old (bk + j - b0) ≡ next j)
    → ((x : ℕ) → (x + b0 < bk) ⊎ (bk + k ≤ x + b0) → pt x ≡ old x)
    → pt' ≡ old
Placed-whole b0 bk k next old pt pt' low placed here others =
    fun_ext (λ x. at x (leb bk (x + b0) && ltb (x + b0) (bk + k)) refl)
  where
    at : (x : ℕ) (t : Bool) → (leb bk (x + b0) && ltb (x + b0) (bk + k)) ≡ t → pt' x ≡ old x
    at x true e =
        let j = x + b0 - bk in
        let inside : (bk ≤ x + b0) × (x + b0 < bk + k) = ground arith in
        let back : bk + j - b0 ≡ x = omega arith in
        subst (λ y. pt' y ≡ old y) back
          (placed.inside j (omega arith) (omega arith) ∙ sym (here j (omega arith)))
    at x false e =
        let out : (x + b0 < bk) ⊎ (bk + k ≤ x + b0) = ground arith in
        placed.outside x (omega arith) ∙ others x out

-- For a process whose kernel stack is in region 0: when it is switched from, any switches follow that
-- do not go from it, and then one goes to it from another process, KCSwitch goes on with the context
-- saved at the first switch, the kernel's page table is the one from before it, entry by entry, and
-- REG_PTBR1 has the process's own table.
pub switch_pcb_lem :
    {KernelContext : Type 0} (m : Machine) (flush_kstack flush_1 p q r : ℕ)
    (kc_in last : KernelContext) (between : Switches KernelContext) (s : Switching KernelContext)
    → base_page_0 m ≤ base_page_kstack m
    → IsCurrent m p s
    → Spares p between
    → r ≢ p
    → let (left, first) = switch_pcb m flush_kstack flush_1 kc_in p q s in
      let t = switch_all m flush_kstack flush_1 between left in
      let (back, kc) = switch_pcb m flush_kstack flush_1 last r p t in
      (kc ≡ kc_in) × (back.mem.kernel_pt ≡ s.mem.kernel_pt) × (back.ptbr1 ≡ p) × IsCurrent m p back
unfolding switch_pcb kc_switch
switch_pcb_lem m flush_kstack flush_1 p q r kc_in last between s low current spares ne =
    let left = (switch_pcb m flush_kstack flush_1 kc_in p q s).0 in
    let t = switch_all m flush_kstack flush_1 between left in
    let keeps = switch_all-Keeps m low flush_kstack flush_1 p between left spares in
    let out = switch_loop_lem m low (kstack_pages m) 0 (s.kstack q) s.mem.kernel_pt in
    let back = switch_loop_lem m low (kstack_pages m) 0 (t.kstack p) t.mem.kernel_pt in
    let stack = λ (j : ℕ). ap (λ (f : ℕ → Pages). f p j) (sym keeps.stacks) in
    (
      update-ne t.kc r p last ne ∙ keeps.saved ∙ update_self s.kc p kc_in,
      Placed-whole (base_page_0 m) (base_page_kstack m) (kstack_pages m) (t.kstack p)
          s.mem.kernel_pt t.mem.kernel_pt _ low back (λ j h. current j h ∙ stack j)
          (λ x o. keeps.others x o ∙ out.outside x (omega arith)),
      refl,
      λ j h. back.inside j (omega arith) (omega arith),
    )
