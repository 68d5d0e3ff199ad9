-- ===== src/Memory/Isolation.antt =====
-- destroy_usermem and destroy_kstack of ksrc/memory.c: what becomes of the other processes' pages.
use yalnix_os.Common.{
  ℕ, zero, suc, ◌+◌, ◌-◌, ◌≡◌, refl, sym, ap, ◌∙◌, ◌≢◌, Bool, true, false, ◌==◌, if◌then◌else◌,
  update,
}
use yalnix_os.Frames.{FreeFrame}
use yalnix_os.Frames.Alloc.{vacate_frame_lem}
use yalnix_os.Memory.{
  Machine, Pages, UserPt, to_word, unmap_page, destroy_loop, destroy_usermem, base_page_1,
  lim_page_1,
}
use yalnix_os.Memory.Owns.{Owns, Owns-Marks, unmap_page_lem}
use yalnix_os.Memory.Tables.Fresh.{Disjoint}

-- The table `other` goes on owning its frames, and has none of the frames of `pt`.
abbrev pub Spares : ℕ → Pages → Pages × FreeFrame → Type 0
Spares base other (pt, f) = Owns base other f × Disjoint pt other

Disjoint-update :
    (pt other : Pages) (i : ℕ) (b : Bool)
    → b ≡ false
    → Disjoint pt other
    → Disjoint (update pt i (record (pt i) { valid = b })) other
Disjoint-update pt other i b off apart j k on on' = at (i == j) refl on
  where
    at :
        (t : Bool)
        → (i == j) ≡ t
        → (if t then record (pt i) { valid = b } else pt j).valid ≡ true
        → (if t then record (pt i) { valid = b } else pt j).pfn ≢ (other k).pfn
    at true e v = cc
    at false e v = apart j k v on'

module _ (m : Machine) (other : Pages) where
  open m use {base_frame}

  unmap_page-Spares :
      (i : ℕ) (pt : Pages) (f : FreeFrame)
      → Owns base_frame pt f
      → (pt i).valid ≡ true
      → Spares base_frame other (pt, f)
      → Spares base_frame other (unmap_page m i pt f)
  unfolding unmap_page
  unmap_page-Spares i pt f o on (owns, apart) =
      let h = o.holds i on in
      let number : to_word (pt i).pfn ≡ h.frame = ap to_word h.number in
      let (marks, more, valid) =
        vacate_frame_lem base_frame f o.allocator h.frame h.range h.marked in
      rw number (
        Owns-Marks h.frame owns marks (λ j on' e. apart i j on on' (h.number ∙ sym e)) valid,
        Disjoint-update pt other i false refl apart,
      )

  Spares-step :
      (k i : ℕ) (pt : Pages) (f : FreeFrame)
      → Owns base_frame pt f
      → Spares base_frame other (pt, f)
      → ((q : Pages) (g : FreeFrame)
          → Owns base_frame q g
          → Spares base_frame other (q, g)
          → Spares base_frame other (destroy_loop m k (i + 1) q g))
      → (b : Bool) → (pt i).valid ≡ b
      → let (pt1, f1) = if b then unmap_page m i pt f else (pt, f) in
        Spares base_frame other (destroy_loop m k (i + 1) pt1 f1)
  Spares-step k i pt f o spares rounds false off = rounds pt f o spares
  Spares-step k i pt f o spares rounds true on =
      rounds _ _ (unmap_page_lem m i pt f o on).2 (unmap_page-Spares i pt f o on spares)

  pub destroy_loop-Spares :
      (k i : ℕ) (pt : Pages) (f : FreeFrame)
      → Owns base_frame pt f
      → Spares base_frame other (pt, f)
      → Spares base_frame other (destroy_loop m k i pt f)
  unfolding destroy_loop
  destroy_loop-Spares zero i pt f o spares = spares
  destroy_loop-Spares (suc k) i pt f o spares =
      Spares-step k i pt f o spares (λ q g. destroy_loop-Spares k (i + 1) q g) (pt i).valid refl

-- For a process and another page table that own their frames and share none: after destroy_usermem of
-- the process, the other table still owns its frames, and the process still shares none with it.
pub destroy_usermem-Spares :
    (m : Machine) (u : UserPt) (other : Pages) (f : FreeFrame)
    → Owns m.base_frame u.pt f
    → Owns m.base_frame other f
    → Disjoint u.pt other
    → let (u', f') = destroy_usermem m u f in Owns m.base_frame other f' × Disjoint u'.pt other
unfolding destroy_usermem
destroy_usermem-Spares m u other f o owns apart =
    destroy_loop-Spares m other (lim_page_1 m - base_page_1 m) 0 u.pt f o (owns, apart)
