-- ===== src/Load/Maps.antt =====
-- The loops of LoadProgram in ksrc/load.c that map and protect pages.
use yalnix_os.Common.{
  ℕ, zero, suc, ◌+◌, ◌-◌, ◌≤◌, ◌<◌, ◌≡◌, refl, sym, ap, ◌∙◌, ◌≢◌, ◌⊎◌, inl, inr, Bool, true, false,
  arith, List, ◌==◌, update, update_self, update-ne, ==_iff, Bool-cases, ltb,
}
use Prim.Native.Nat.{bit_or}
use mathlib.Core.Path.{subst}
use yalnix_os.Frames.{FreeFrame, frames_left}
use yalnix_os.Memory.{Machine, Pte, Pages, map_page, read_write}
use yalnix_os.Memory.Tables.Fresh.{IsNew, map_page-IsNew}
use yalnix_os.Load.{Constants, map_up, map_down, protect_text}

abbrev pub In : ℕ → ℕ → ℕ → Type 0
In lo hi j = (lo ≤ j) × (j < hi)

abbrev pub Out : ℕ → ℕ → ℕ → Type 0
Out lo hi j = (j < lo) ⊎ (hi ≤ j)

-- The page is valid and has the protection.
abbrev pub Has : ℕ → Pte → Type 0
Has prot pte = (pte.valid ≡ true) × (pte.prot ≡ prot)

-- The entries from `lo` to `hi` are valid pages with the protection, the others are kept.
pub record Maps (prot lo hi : ℕ) (pt pt' : Pages) : Type 0 where
  pub inside : (j : ℕ) → In lo hi j → Has prot (pt' j)
  pub outside : (j : ℕ) → Out lo hi j → pt' j ≡ pt j

Maps-none : (prot lo hi : ℕ) (pt : Pages) → hi ≤ lo → Maps prot lo hi pt pt
Maps-none prot lo hi pt e = record {
  inside = λ j (a, b). absurd (omega arith);
  outside = λ j o. refl;
}

-- One entry more, at one of the ends.
Maps-step :
    (prot lo hi lo' hi' i : ℕ) (pt one pt' : Pages)
    → ((j : ℕ) → In lo hi j → j ≢ i → In lo' hi' j)
    → ((j : ℕ) → Out lo hi j → (j ≢ i) × Out lo' hi' j)
    → Out lo' hi' i
    → Has prot (one i)
    → ((j : ℕ) → i ≢ j → one j ≡ pt j)
    → Maps prot lo' hi' one pt'
    → Maps prot lo hi pt pt'
Maps-step prot lo hi lo' hi' i pt one pt' others out here page kept maps = record {
  inside = λ j a. at j (i == j) refl a;
  outside = λ j o. let (ne, o') = out j o in maps.outside j o' ∙ kept j (λ e. ne (sym e));
}
  where
    at : (j : ℕ) (t : Bool) → (i == j) ≡ t → In lo hi j → Has prot (pt' j)
    at j true e a =
        let same : i ≡ j = (==_iff i j).0 e in
        subst (λ n. Has prot (pt' n)) same (subst (Has prot) (sym (maps.outside i here)) page)
    at j false e a = let ne : i ≢ j = ground arith in maps.inside j (others j a (λ b. ne (sym b)))

module _ (m : Machine) (start : FreeFrame) where
  open m use {base_frame}

  -- What the mapping of `k` pages does.
  abbrev pub Fills : (k lo hi : ℕ) → Pages → FreeFrame → Pages × FreeFrame → Type 0
  Fills k lo hi pt f (pt', f') =
      Maps (read_write m) lo hi pt pt'
      × (frames_left f' + k ≡ frames_left f)
      × IsNew base_frame start pt' f'

  -- One page, and then the others.
  Fills-step :
      (k lo hi lo' hi' i : ℕ) (pt : Pages) (f : FreeFrame)
      → IsNew base_frame start pt f
      → suc k ≤ frames_left f
      → ((j : ℕ) → In lo hi j → j ≢ i → In lo' hi' j)
      → ((j : ℕ) → Out lo hi j → (j ≢ i) × Out lo' hi' j)
      → Out lo' hi' i
      → (rest : Pages → FreeFrame → Pages × FreeFrame)
      → ((q : Pages) (g : FreeFrame)
          → IsNew base_frame start q g
          → k ≤ frames_left g
          → Fills k lo' hi' q g (rest q g))
      → let (pt1, f1) = map_page m i (read_write m) pt f in Fills (suc k) lo hi pt f (rest pt1 f1)
  Fills-step k lo hi lo' hi' i pt f n room others out here rest rounds =
      let (changed, one_fewer, n1) = map_page-IsNew m start i (read_write m) pt f n (omega arith) in
      let (maps, fewer, new) = rounds _ _ n1 (omega arith) in
      let at = λ (j : ℕ). ap (λ (q : Pages). q j) changed in
      let page = at i ∙ update_self pt i _ in
      (
        Maps-step _ _ _ _ _ i pt _ _ others out here
            (ap (λ (x : Pte). x.valid) page, ap (λ (x : Pte). x.prot) page)
            (λ j ne. at j ∙ update-ne pt i j _ ne) maps,
        omega arith,
        new,
      )

  module _ (c : Constants) where
    pub map_up_lem :
        (k i : ℕ) (pt : Pages) (f : FreeFrame)
        → IsNew base_frame start pt f
        → k ≤ frames_left f
        → Fills k i (i + k) pt f (map_up m c k i pt f)
    unfolding map_up
    map_up_lem zero i pt f n room = (Maps-none _ i (i + 0) pt (omega arith), omega arith, n)
    map_up_lem (suc k) i pt f n room =
        Fills-step k i (i + suc k) (i + 1) (i + 1 + k) i pt f n room
          (λ j a ne. (omega arith, omega arith)) (λ j o. (omega arith, omega arith)) (omega arith)
          (map_up m c k (i + 1)) (λ q g. map_up_lem k (i + 1) q g)

    pub map_down_lem :
        (k i : ℕ) (pt : Pages) (f : FreeFrame)
        → IsNew base_frame start pt f
        → k ≤ frames_left f
        → k ≤ i + 1
        → Fills k (i + 1 - k) (i + 1) pt f (map_down m c k i pt f)
    unfolding map_down
    map_down_lem zero i pt f n room fits = (Maps-none _ _ _ pt (omega arith), omega arith, n)
    map_down_lem (suc k) i pt f n room fits =
        Fills-step k (i + 1 - suc k) (i + 1) (i - 1 + 1 - k) (i - 1 + 1) i pt f n room
          (λ j a ne. (omega arith, omega arith)) (λ j o. (omega arith, omega arith)) (omega arith)
          (map_down m c k (i - 1)) (λ q g n' r. map_down_lem k (i - 1) q g n' r (omega arith))

    -- Only the protections of the `k` pages from `i` on change.
    pub protect_text_lem :
        (k i : ℕ) (pt : Pages) (log : List ℕ)
        → let pt' = (protect_text m c k i pt log).0 in
          ((j : ℕ)
            → In i (i + k) j
            → pt' j ≡ record (pt j) { prot = bit_or m.prot_read m.prot_exec })
          × ((j : ℕ) → Out i (i + k) j → pt' j ≡ pt j)
    unfolding protect_text
    protect_text_lem zero i pt log = (λ j (a, b). absurd (omega arith), λ j o. refl)
    protect_text_lem (suc k) i pt log =
        let page : Pte = record (pt i) { prot = bit_or m.prot_read m.prot_exec } in
        let (inside, outside) = protect_text_lem k (i + 1) (update pt i page) _ in
        (
          λ j (a, b). elim (Bool-cases (i == j)) [
            | inl e ↦
                let same : i ≡ j = (==_iff i j).0 e in
                outside j (omega arith)
                ∙ subst (λ n. update pt i page n ≡ protected (pt n)) same (update_self pt i page)
            | inr e ↦
                let ne : i ≢ j = ground arith in
                inside j (omega arith, omega arith) ∙ ap protected (update-ne pt i j page ne)
          ],
          λ j o. outside j (omega arith) ∙ update-ne pt i j page (omega arith),
        )
      where
        protected : Pte → Pte
        protected pte = record pte { prot = bit_or m.prot_read m.prot_exec }

    -- No page becomes valid or invalid, and each keeps its frame.
    pub protect_text-keeps :
        (k i : ℕ) (pt : Pages) (log : List ℕ) (j : ℕ)
        → let pt' = (protect_text m c k i pt log).0 in
          ((pt' j).valid ≡ (pt j).valid) × ((pt' j).pfn ≡ (pt j).pfn)
    protect_text-keeps k i pt log j =
        let (inside, outside) = protect_text_lem k i pt log in
        elim (Bool-cases (ltb j i)) [
          | inl low ↦ kept (outside j (inl (ground arith)))
          | inr high ↦ elim (Bool-cases (ltb j (i + k))) [
            | inl low ↦
                let same = inside j (ground arith, ground arith) in
                (ap (λ (x : Pte). x.valid) same, ap (λ (x : Pte). x.pfn) same)
            | inr past ↦ kept (outside j (inr (ground arith)))
          ]
        ]
      where
        kept : {x y : Pte} → x ≡ y → (x.valid ≡ y.valid) × (x.pfn ≡ y.pfn)
        kept e = (ap (λ (x : Pte). x.valid) e, ap (λ (x : Pte). x.pfn) e)
