-- ===== src/Memory/Loops.antt =====
-- The two loops of KernelUserBrk, in ksrc/syscalls.c, that map and unmap pages.
use mathlib.Core.Path.{subst}
use yalnix_os.Common.{
  ℕ, zero, suc, ◌+◌, ◌-◌, ◌≤◌, ◌<◌, ◌≡◌, refl, sym, ap, ◌∙◌, ◌≢◌, ◌⊎◌, Bool, update_self, update-ne,
  ==_iff, true, false, arith, ◌==◌, update, inl, inr,
}
use yalnix_os.Frames.{FreeFrame, frames_left}
use yalnix_os.Memory.{
  Machine, Pte, Pages, map_page, unmap_page, base_page_1, grow_loop, shrink_loop,
}
use yalnix_os.Memory.Owns.{Owns, map_page_lem, unmap_page_lem}

-- The page `v` of region 1.
abbrev pub page : Machine → Pages → ℕ → Pte
page m pt v = pt (v - base_page_1 m)

-- The pages from `lo` up to `hi`, without `hi`, are as `P` says; no other page changes.
pub record Changes (m : Machine) (P : Pte → Type 0) (lo hi : ℕ) (pt pt' : Pages) : Type 0 where
  pub inside : (v : ℕ) → lo ≤ v → v < hi → P (page m pt' v)
  pub outside : (v : ℕ) → base_page_1 m ≤ v → (v < lo) ⊎ (hi ≤ v) → page m pt' v ≡ page m pt v

abbrev pub IsMapped : ℕ → Pte → Type 0
IsMapped prot pte = (pte.valid ≡ true) × (pte.prot ≡ prot)

abbrev pub IsUnmapped : Pte → Type 0
IsUnmapped pte = pte.valid ≡ false

module _ (m : Machine) where
  page-update_self :
      (pt : Pages) (u : ℕ) (new : Pte) → page m (update pt (u - base_page_1 m) new) u ≡ new
  page-update_self pt u new = update_self pt (u - base_page_1 m) new

  page-update_ne :
      (pt : Pages) (u v : ℕ) (new : Pte)
      → base_page_1 m ≤ u
      → base_page_1 m ≤ v
      → u ≢ v
      → page m (update pt (u - base_page_1 m) new) v ≡ page m pt v
  page-update_ne pt u v new hu hv ne =
      update-ne pt (u - base_page_1 m) (v - base_page_1 m) new (omega arith)

  -- One page more, at either end of the range.
  pub Changes-step :
      (P : Pte → Type 0) (u lo hi lo' hi' : ℕ) (pt pt' : Pages) (new : Pte)
      → base_page_1 m ≤ lo'
      → ((lo' ≡ u) × (lo ≡ u + 1) × (hi' ≡ hi) × (lo ≤ hi))
        ⊎ ((hi ≡ u) × (hi' ≡ u + 1) × (lo' ≡ lo) × (lo ≤ hi))
      → P new
      → Changes m P lo hi (update pt (u - base_page_1 m) new) pt'
      → Changes m P lo' hi' pt pt'
  Changes-step P u lo hi lo' hi' pt pt' new low ends good c = record {
    inside = λ v a b. inside_at v (u == v) refl a b;
    outside = λ v hv s.
        c.outside v hv (omega arith) ∙ page-update_ne pt u v new (omega arith) hv (omega arith);
  }
    where
      inside_at : (v : ℕ) (t : Bool) → (u == v) ≡ t → lo' ≤ v → v < hi' → P (page m pt' v)
      inside_at v true e a b =
          let same : u ≡ v = (==_iff u v).0 e in
          subst P
            (sym (
              c.outside v (omega arith) (omega arith)
              ∙ ap (λ n. page m (update pt (u - base_page_1 m) new) n) (sym same)
              ∙ page-update_self pt u new))
            good
      inside_at v false e a b =
          let ne : u ≢ v = ground arith in c.inside v (omega arith) (omega arith)

  pub Changes-to :
      {P : Pte → Type 0} {lo hi hi' : ℕ} {pt pt' : Pages}
      → Changes m P lo hi pt pt'
      → hi ≡ hi'
      → Changes m P lo hi' pt pt'
  Changes-to {P = P} {lo = lo} {pt = pt} {pt' = pt'} c e =
      subst (λ to. Changes m P lo to pt pt') e c

  -- The loop upwards maps its pages and takes as many frames.
  pub grow_loop_lem :
      (k vpn prot : ℕ) (pt : Pages) (f : FreeFrame)
      → Owns m.base_frame pt f
      → base_page_1 m ≤ vpn
      → k ≤ frames_left f
      → let (pt', f') = grow_loop m k vpn prot pt f in
        Changes m (IsMapped prot) vpn (vpn + k) pt pt'
        × (frames_left f' + k ≡ frames_left f)
        × Owns m.base_frame pt' f'
  unfolding grow_loop
  grow_loop_lem zero vpn prot pt f o low left =
      (record { inside = λ v a b. absurd (omega arith); outside = λ v a b. refl }, omega arith, o)
  grow_loop_lem (suc k) vpn prot pt f o low left =
      let (changed, fewer, o') = map_page_lem m (vpn - base_page_1 m) pt f o prot (omega arith) in
      let (mapped, rest, o'') = grow_loop_lem k (vpn + 1) prot _ _ o' (omega arith) (omega arith) in
      (
        Changes-step (IsMapped prot) vpn (vpn + 1) (vpn + 1 + k) vpn (vpn + suc k) pt _ _ low
            (inl (refl, refl, omega arith, omega arith)) (refl, refl)
            (subst
              (λ q.
                Changes m (IsMapped prot) (vpn + 1) (vpn + 1 + k) q
                  (grow_loop m k (vpn + 1) prot (map_page m (vpn - base_page_1 m) prot pt f).0
                    (map_page m (vpn - base_page_1 m) prot pt f).1).0)
              changed mapped),
        omega arith,
        o'',
      )

  -- The loop downwards unmaps its pages, valid before, and gives as many frames back.
  pub shrink_loop_lem :
      (k lo vpn : ℕ) (pt : Pages) (f : FreeFrame)
      → Owns m.base_frame pt f
      → base_page_1 m ≤ lo
      → vpn ≡ lo + k - 1
      → ((v : ℕ) → lo ≤ v → v < lo + k → (page m pt v).valid ≡ true)
      → let (pt', f') = shrink_loop m k vpn pt f in
        Changes m IsUnmapped lo (lo + k) pt pt'
        × (frames_left f' ≡ frames_left f + k)
        × Owns m.base_frame pt' f'
  unfolding shrink_loop
  shrink_loop_lem zero lo vpn pt f o low e on =
      (record { inside = λ v a b. absurd (omega arith); outside = λ v a b. refl }, omega arith, o)
  shrink_loop_lem (suc k) lo vpn pt f o low e on =
      let (changed, more, o') =
        unmap_page_lem m (vpn - base_page_1 m) pt f o (on vpn (omega arith) (omega arith)) in
      let still = λ (v : ℕ) (a : lo ≤ v) (b : v < lo + k).
        ap (λ (q : Pages). (page m q v).valid) changed
        ∙ ap (λ (pte : Pte). pte.valid)
            (page-update_ne pt vpn v _ (omega arith) (omega arith) (omega arith))
        ∙ on v a (omega arith) in
      let (unmapped, rest, o'') = shrink_loop_lem k lo (vpn - 1) _ _ o' low (omega arith) still in
      (
        Changes-step IsUnmapped vpn lo (lo + k) lo (lo + suc k) pt _ _ low
            (inr (omega arith, omega arith, refl, omega arith)) refl
            (subst
              (λ q.
                Changes m IsUnmapped lo (lo + k) q
                  (shrink_loop m k (vpn - 1) (unmap_page m (vpn - base_page_1 m) pt f).0
                    (unmap_page m (vpn - base_page_1 m) pt f).1).0)
              changed unmapped),
        omega arith,
        o'',
      )
