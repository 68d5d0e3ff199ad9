-- ===== src/Memory/Destroy.antt =====
-- destroy_usermem of ksrc/memory.c: a process's pages are given back.
use yalnix_os.Common.{
  ℕ, zero, suc, ◌+◌, ◌-◌, ◌≤◌, ◌<◌, ◌≡◌, refl, sym, ap, ◌∙◌, ◌≢◌, ◌⊎◌, Bool, true, false, arith,
  ◌==◌, if◌then◌else◌, update_self, update-ne,
}
use yalnix_os.Frames.{FreeFrame, frames_left}
use yalnix_os.Memory.{
  Machine, Pte, Pages, UserPt, unmap_page, destroy_loop, destroy_usermem, base_page_1, lim_page_1,
}
use yalnix_os.Memory.Owns.{Owns, unmap_page_lem}

-- The number of valid pages among the `k` from `i` on.
unfoldable pub in_use : ℕ → ℕ → Pages → ℕ
in_use zero i pt = 0
in_use (suc k) i pt = (if (pt i).valid then 1 else 0) + in_use k (i + 1) pt

pub in_use_le : (k i : ℕ) (pt : Pages) → in_use k i pt ≤ k
unfolding in_use
in_use_le zero i pt = omega arith
in_use_le (suc k) i pt = ground (arith, in_use_le k (i + 1) pt)

-- Only the pages from `i` on count.
pub in_use_ext :
    (k i : ℕ) (pt pt' : Pages) → ((j : ℕ) → i ≤ j → pt' j ≡ pt j) → in_use k i pt' ≡ in_use k i pt
unfolding in_use
in_use_ext zero i pt pt' same = refl
in_use_ext (suc k) i pt pt' same =
    rw (same i (omega arith), in_use_ext k (i + 1) pt pt' (λ j h. same j (omega arith))) refl

-- The `k` pages from `i` on are not valid any more, and no other page changes.
pub record Cleared (k i : ℕ) (pt pt' : Pages) : Type 0 where
  pub off : (j : ℕ) → i ≤ j → j < i + k → (pt' j).valid ≡ false
  pub outside : (j : ℕ) → (j < i) ⊎ (i + k ≤ j) → pt' j ≡ pt j

-- One entry more in front, which is not valid after its step.
Cleared-step :
    (k i : ℕ) (pt one pt' : Pages)
    → (one i).valid ≡ false
    → ((j : ℕ) → i ≢ j → one j ≡ pt j)
    → Cleared k (i + 1) one pt'
    → Cleared (suc k) i pt pt'
Cleared-step k i pt one pt' gone others c = record {
  off = λ j a b. off_at j (i == j) refl a b;
  outside = λ j s. c.outside j (omega arith) ∙ others j (omega arith);
}
  where
    off_at : (j : ℕ) (t : Bool) → (i == j) ≡ t → i ≤ j → j < i + suc k → (pt' j).valid ≡ false
    off_at j true e a b =
        let same : i ≡ j = ground arith in
        ap (λ (pte : Pte). pte.valid) (c.outside j (omega arith))
        ∙ ap (λ n. (one n).valid) (sym same)
        ∙ gone
    off_at j false e a b = let ne : i ≢ j = ground arith in c.off j (omega arith) (omega arith)

module _ (m : Machine) where
  -- What `k` rounds from `i` on do.
  abbrev Destroys : ℕ → ℕ → Pages → FreeFrame → Pages × FreeFrame → Type 0
  Destroys k i pt f r =
      Cleared k i pt r.0
      × (frames_left r.1 ≡ frames_left f + in_use k i pt)
      × Owns m.base_frame r.0 r.1

  Destroys-step :
      (k i : ℕ) (pt : Pages) (f : FreeFrame)
      → Owns m.base_frame pt f
      → ((q : Pages) (g : FreeFrame)
          → Owns m.base_frame q g
          → Destroys k (i + 1) q g (destroy_loop m k (i + 1) q g))
      → (b : Bool) → (pt i).valid ≡ b
      → let (pt1, f1) = if b then unmap_page m i pt f else (pt, f) in
        Destroys (suc k) i pt f (destroy_loop m k (i + 1) pt1 f1)
  unfolding in_use
  Destroys-step k i pt f o rounds false off =
      let (cleared, more, owned) = rounds pt f o in
      rw off (Cleared-step k i pt pt _ off (λ j ne. refl) cleared, omega arith, owned)
  Destroys-step k i pt f o rounds true on =
      let (changed, one_more, o') = unmap_page_lem m i pt f o on in
      let (cleared, more, owned) = rounds _ _ o' in
      let at = λ (j : ℕ). ap (λ (q : Pages). q j) changed in
      let others = λ (j : ℕ) (ne : i ≢ j). at j ∙ update-ne pt i j _ ne in
      let same = in_use_ext k (i + 1) pt (unmap_page m i pt f).0 (λ j h. others j (omega arith)) in
      let gone = ap (λ (pte : Pte). pte.valid) (at i ∙ update_self pt i _) in
      rw on (Cleared-step k i pt _ _ gone others cleared, omega arith, owned)

  pub destroy_loop_lem :
      (k i : ℕ) (pt : Pages) (f : FreeFrame)
      → Owns m.base_frame pt f
      → Destroys k i pt f (destroy_loop m k i pt f)
  unfolding destroy_loop in_use
  destroy_loop_lem zero i pt f o =
      (record { off = λ j a b. absurd (omega arith); outside = λ j s. refl }, omega arith, o)
  destroy_loop_lem (suc k) i pt f o =
      Destroys-step k i pt f o (λ q g h. destroy_loop_lem k (i + 1) q g h) (pt i).valid refl

  -- For a process that owns its pages' frames, destroy_usermem leaves no page of region 1 valid and
  -- changes no entry behind them; as many frames are back as pages were valid, and the ownership
  -- is kept.
  pub destroy_usermem_lem :
      (u : UserPt) (f : FreeFrame)
      → Owns m.base_frame u.pt f
      → let n = lim_page_1 m - base_page_1 m in
        let (u', f') = destroy_usermem m u f in
        Cleared n 0 u.pt u'.pt
        × (frames_left f' ≡ frames_left f + in_use n 0 u.pt)
        × Owns m.base_frame u'.pt f'
  unfolding destroy_usermem
  destroy_usermem_lem u f o = destroy_loop_lem (lim_page_1 m - base_page_1 m) 0 u.pt f o
