-- ===== src/Boot/Identity.antt =====
-- The page table of region 0 that VM_setup of ksrc/kernel.c makes.
use yalnix_os.Common.{
  ℕ, zero, suc, ◌+◌, ◌-◌, ◌/◌, ◌≤◌, ◌<◌, ◌≡◌, refl, sym, ap, ◌∙◌, ◌⊎◌, inl, inr, Bool-cases, true,
  false, ltb, leb, ◌||◌, ◌==◌, if◌then◌else◌, update, update_self, update-ne, ==_iff, ◌≢◌, arith,
}
use yalnix_os.Common.Int.{pos}
use yalnix_os.Frames.{get_frame}
use yalnix_os.Memory.{Machine, Pte, Pages, Mem, set_pte, read_write}
use yalnix_os.Memory.Tables.{base_page_0, base_page_kstack}
use yalnix_os.Boot.{Image, read_exec, fix_page, setup_page, setup_loop, vm_setup}

module _ (m : Machine) (image : Image) where
  open m use {page_size, base_frame}

  -- The entry that VM_setup gives the page `vpn`, which had `old`: text to read and execute, data and
  -- the kernel stack to read and write, on the frame of the page's own number; nothing in between.
  pub boot_pte : (brk vpn : ℕ) → Pte → Pte
  boot_pte brk vpn old =
      if ltb vpn (image.kernel_data_start / page_size)
      then record { valid = true; pfn = pos vpn; prot = read_exec m image }
      else (if leb vpn (brk / page_size) || leb (base_page_kstack m) vpn
          then record { valid = true; pfn = pos vpn; prot = read_write m }
          else record old { valid = false })

  -- One round, while a frame is left.
  record Sets (vpn : ℕ) (s t : Mem) : Type 0 where
    table :
        t.kernel_pt
        ≡ update s.kernel_pt
            (vpn - base_page_0 m)
            (boot_pte s.kernel_brk vpn (s.kernel_pt (vpn - base_page_0 m)))
    brk : t.kernel_brk ≡ s.kernel_brk
    size : t.free_frame.size ≡ s.free_frame.size
    filled : t.free_frame.filled ≤ s.free_frame.filled + 1

  setup_page-Sets :
      (vpn : ℕ) (s : Mem)
      → s.free_frame.filled < s.free_frame.size
      → Sets vpn s (setup_page m image vpn s)
  unfolding setup_page fix_page set_pte boot_pte get_frame
  setup_page-Sets vpn s room = record {
    table = ground arith;
    brk = ground arith;
    size = ground arith;
    filled = ground arith;
  }

  -- The pages below the loop's first are left alone.
  setup_loop-below :
      (k vpn : ℕ) (s : Mem) (j : ℕ)
      → s.free_frame.filled + k ≤ s.free_frame.size
      → j < vpn - base_page_0 m
      → (setup_loop m image k vpn s).kernel_pt j ≡ s.kernel_pt j
  unfolding setup_loop
  setup_loop-below zero vpn s j room h = refl
  setup_loop-below (suc k) vpn s j room h =
      let step = setup_page-Sets vpn s (omega arith) in
      let t : Mem = setup_page m image vpn s in
      setup_loop-below k (vpn + 1) t j (omega (arith, step.size, step.filled)) (omega arith)
      ∙ ap (λ (pt : Pages). pt j) step.table
      ∙ (ground arith)

  pub setup_loop_lem :
      (k vpn : ℕ) (s : Mem)
      → s.free_frame.filled + k ≤ s.free_frame.size
      → base_page_0 m ≤ vpn
      → (i : ℕ) → vpn ≤ i
      → i < vpn + k
      → (setup_loop m image k vpn s).kernel_pt (i - base_page_0 m)
        ≡ boot_pte s.kernel_brk i (s.kernel_pt (i - base_page_0 m))
  unfolding setup_loop
  setup_loop_lem zero vpn s room low i from to = absurd (omega arith)
  setup_loop_lem (suc k) vpn s room low i from to =
      split (setup_page m image vpn s) (setup_page-Sets vpn s (omega arith))
        (λ room' from'.
          setup_loop_lem k (vpn + 1) (setup_page m image vpn s) room' (omega arith) i from'
            (omega arith))
        (Bool-cases (vpn == i))
    where
      split :
          (t : Mem)
          → Sets vpn s t
          → (t.free_frame.filled + k ≤ t.free_frame.size
              → vpn + 1 ≤ i
              → (setup_loop m image k (vpn + 1) t).kernel_pt (i - base_page_0 m)
                ≡ boot_pte t.kernel_brk i (t.kernel_pt (i - base_page_0 m)))
          → ((vpn == i) ≡ true) ⊎ ((vpn == i) ≡ false)
          → (setup_loop m image k (vpn + 1) t).kernel_pt (i - base_page_0 m)
            ≡ boot_pte s.kernel_brk i (s.kernel_pt (i - base_page_0 m))
      split t step rest (inl e) =
          let same : vpn ≡ i = (==_iff vpn i).0 e in
          let new = boot_pte s.kernel_brk vpn (s.kernel_pt (vpn - base_page_0 m)) in
          rw (sym same) (
            setup_loop-below k (vpn + 1) t (vpn - base_page_0 m)
              (omega (arith, step.size, step.filled)) (omega arith)
            ∙ ap (λ (pt : Pages). pt (vpn - base_page_0 m)) step.table
            ∙ update_self s.kernel_pt (vpn - base_page_0 m) new)
      split t step rest (inr e) =
          let later : vpn + 1 ≤ i = ground arith in
          let other : vpn - base_page_0 m ≢ i - base_page_0 m = λ eq. omega arith in
          let new = boot_pte s.kernel_brk vpn (s.kernel_pt (vpn - base_page_0 m)) in
          rest (omega (arith, step.size, step.filled)) later
          ∙ ap (λ b. boot_pte b i (t.kernel_pt (i - base_page_0 m))) step.brk
          ∙ ap (λ (pt : Pages). boot_pte s.kernel_brk i (pt (i - base_page_0 m))) step.table
          ∙ ap (λ pte. boot_pte s.kernel_brk i pte) (update-ne s.kernel_pt _ _ new other)

  -- Where as many frames are left as region 0 has pages: VM_setup puts every page of text on the frame
  -- of its own number, to read and execute; every page up to the break's and every page of the kernel
  -- stack on the frame of its own number, to read and write; and leaves no other page valid.
  pub vm_setup_identity :
      (s : Mem)
      → s.free_frame.filled + (image.vmem_0_limit / page_size - base_page_0 m) ≤ s.free_frame.size
      → (vpn : ℕ) → base_page_0 m ≤ vpn
      → vpn < image.vmem_0_limit / page_size
      → (vm_setup m image s).kernel_pt (vpn - base_page_0 m)
        ≡ boot_pte s.kernel_brk vpn (s.kernel_pt (vpn - base_page_0 m))
  unfolding vm_setup
  vm_setup_identity s room vpn low high =
      setup_loop_lem _ (base_page_0 m) s room (omega arith) vpn low (omega arith)
