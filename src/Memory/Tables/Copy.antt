-- ===== src/Memory/Tables/Copy.antt =====
-- copy_user_mem of ksrc/memory.c: the pages and frames that a child gets.
use mathlib.Core.Path.{subst}
use yalnix_os.Common.{
  ℕ, zero, suc, ◌+◌, ◌-◌, ◌≤◌, ◌<◌, ◌≡◌, refl, ap, ◌∙◌, sym, ◌≢◌, ◌⊎◌, Bool, true, false, arith,
  ◌==◌, if◌then◌else◌, update, update_self, update-ne, ==_iff,
}
use yalnix_os.Common.Int.{pos}
use yalnix_os.Frames.{FreeFrame, frames_left}
use yalnix_os.Frames.Alloc.{get_frame_auto}
use yalnix_os.Frames.Inv
use yalnix_os.Memory.{
  Machine, Pte, Pages, UserPt, Mem, set_pte, map_page, base_page_1, lim_page_1, read_write,
}
use yalnix_os.Memory.Owns.{Owns, left_lt}
use yalnix_os.Memory.Destroy.{in_use}
use yalnix_os.Memory.Tables.{dummy, base_page_0, copy_page, copy_loop, drop_dummy, copy_user_mem}
use yalnix_os.Memory.Tables.Fresh.{
  Disjoint, IsNew, IsNew-map, IsNew-empty, IsNew-Disjoint, Owns-Later,
}

-- Of the `k` entries from `i` on, the copy has those that are valid in `src`, with their protection; it
-- keeps its others.
pub record Copies (k i : ℕ) (src dst dst' : Pages) : Type 0 where
  pub on :
      (j : ℕ)
      → i ≤ j
      → j < i + k
      → (src j).valid ≡ true
      → ((dst' j).valid ≡ true) × ((dst' j).prot ≡ (src j).prot)
  pub off : (j : ℕ) → i ≤ j → j < i + k → (src j).valid ≡ false → dst' j ≡ dst j
  pub outside : (j : ℕ) → (j < i) ⊎ (i + k ≤ j) → dst' j ≡ dst j

-- One entry more in front.
Copies-step :
    (k i : ℕ) (src dst one dst' : Pages)
    → ((src i).valid ≡ true → ((one i).valid ≡ true) × ((one i).prot ≡ (src i).prot))
    → ((src i).valid ≡ false → one i ≡ dst i)
    → ((j : ℕ) → i ≢ j → one j ≡ dst j)
    → Copies k (i + 1) src one dst'
    → Copies (suc k) i src dst dst'
Copies-step k i src dst one dst' here spared others c = record {
  on = λ j a b v. on_at j (i == j) refl a b v;
  off = λ j a b v. off_at j (i == j) refl a b v;
  outside = λ j s. c.outside j (omega arith) ∙ others j (omega arith);
}
  where
    on_at :
        (j : ℕ) (t : Bool)
        → (i == j) ≡ t
        → i ≤ j
        → j < i + suc k
        → (src j).valid ≡ true
        → ((dst' j).valid ≡ true) × ((dst' j).prot ≡ (src j).prot)
    on_at j true e a b v =
        let same : i ≡ j = (==_iff i j).0 e in
        let left : dst' i ≡ one i = c.outside i (omega arith) in
        let (valid, prot) = here (ap (λ n. (src n).valid) same ∙ v) in
        subst (λ n. ((dst' n).valid ≡ true) × ((dst' n).prot ≡ (src n).prot)) same
          (ap (λ (x : Pte). x.valid) left ∙ valid, ap (λ (x : Pte). x.prot) left ∙ prot)
    on_at j false e a b v = let ne : i ≢ j = ground arith in c.on j (omega arith) (omega arith) v

    off_at :
        (j : ℕ) (t : Bool)
        → (i == j) ≡ t
        → i ≤ j
        → j < i + suc k
        → (src j).valid ≡ false
        → dst' j ≡ dst j
    off_at j true e a b v =
        let same : i ≡ j = (==_iff i j).0 e in
        subst (λ n. dst' n ≡ dst n) same
          (c.outside i (omega arith) ∙ spared (ap (λ n. (src n).valid) same ∙ v))
    off_at j false e a b v =
        let ne : i ≢ j = ground arith in c.off j (omega arith) (omega arith) v ∙ others j ne

module _ (m : Machine) (start : FreeFrame) where
  open m use {base_frame}

  -- Copying one page takes a free frame for it.
  copy_page_lem :
      (i prot : ℕ) (dst : Pages) (s : Mem)
      → IsNew base_frame start dst s.free_frame
      → 0 < frames_left s.free_frame
      → let (dst', s') = copy_page m i prot dst s in
        (dst'
          ≡ update dst i (record { valid = true; pfn = pos s.free_frame.avail_pfn; prot = prot }))
        × (frames_left s'.free_frame + 1 ≡ frames_left s.free_frame)
        × IsNew base_frame start dst' s'.free_frame
  unfolding copy_page map_page set_pte
  copy_page_lem i prot dst s n left =
      let f = s.free_frame in
      let (result, range, unused, marks, fewer, valid) =
        get_frame_auto base_frame f n.owned.allocator 0 (left_lt f left) in
      let d = dummy m - base_page_0 m in
      let page : Pte = record { valid = true; pfn = pos f.avail_pfn; prot = read_write m } in
      let seen : update s.kernel_pt d page d ≡ page = update_self s.kernel_pt d page in
      rw result (rw seen (refl, fewer, IsNew-map i f.avail_pfn _ n refl range unused marks valid))

  -- What `k` rounds from `i` on do.
  abbrev Fills : ℕ → ℕ → Pages → Pages → Mem → Pages × Mem → Type 0
  Fills k i src dst s r =
      Copies k i src dst r.0
      × (frames_left r.1.free_frame + in_use k i src ≡ frames_left s.free_frame)
      × IsNew base_frame start r.0 r.1.free_frame

  Fills-step :
      (k i : ℕ) (src dst : Pages) (s : Mem)
      → IsNew base_frame start dst s.free_frame
      → in_use (suc k) i src ≤ frames_left s.free_frame
      → ((q : Pages) (t : Mem)
          → IsNew base_frame start q t.free_frame
          → in_use k (i + 1) src ≤ frames_left t.free_frame
          → Fills k (i + 1) src q t (copy_loop m k (i + 1) src q t))
      → (b : Bool) → (src i).valid ≡ b
      → let (dst1, s1) = if b then copy_page m i (src i).prot dst s else (dst, s) in
        Fills (suc k) i src dst s (copy_loop m k (i + 1) src dst1 s1)
  unfolding in_use
  Fills-step k i src dst s n room rounds false off =
      let (copies, fewer, new) = rounds dst s n (ground (arith, off)) in
      rw off (
        Copies-step k i src dst dst _ (λ on. cc) (λ e. refl) (λ j ne. refl) copies,
        omega arith,
        new,
      )
  Fills-step k i src dst s n room rounds true on =
      let (changed, one_fewer, n1) = copy_page_lem i (src i).prot dst s n (ground (arith, on)) in
      let (copies, fewer, new) = rounds _ _ n1 (ground (arith, on)) in
      let at = λ (j : ℕ). ap (λ (q : Pages). q j) changed in
      let here = at i ∙ update_self dst i _ in
      rw on (
        Copies-step k i src dst _ _
            (λ e. (ap (λ (x : Pte). x.valid) here, ap (λ (x : Pte). x.prot) here)) (λ e. absurd cc)
            (λ j ne. at j ∙ update-ne dst i j _ ne) copies,
        omega arith,
        new,
      )

  pub copy_loop_lem :
      (k i : ℕ) (src dst : Pages) (s : Mem)
      → IsNew base_frame start dst s.free_frame
      → in_use k i src ≤ frames_left s.free_frame
      → Fills k i src dst s (copy_loop m k i src dst s)
  unfolding copy_loop in_use
  copy_loop_lem zero i src dst s n room = (
    record {
      on = λ j a b v. absurd (omega arith);
      off = λ j a b v. absurd (omega arith);
      outside = λ j c. refl;
    },
    omega arith,
    n,
  )
  copy_loop_lem (suc k) i src dst s n room =
      Fills-step k i src dst s n room (λ q t h r. copy_loop_lem k (i + 1) src q t h r) (src i).valid
        refl

-- The table `new` is made for another process than the owner of `pt`: each goes on owning its frames,
-- and they have none in common.
pub record Apart (base : ℕ) (pt new : Pages) (f : FreeFrame) : Type 0 where
  pub old : Owns base pt f
  pub disjoint : Disjoint pt new

pub Apart-same :
    {base : ℕ} {f : FreeFrame} {pt new new' : Pages}
    → ((j : ℕ) → (new' j).valid ≡ (new j).valid)
    → ((j : ℕ) → (new' j).pfn ≡ (new j).pfn)
    → Apart base pt new f
    → Apart base pt new' f
Apart-same v p a = record {
  old = a.old;
  disjoint = λ i j on on' same. a.disjoint i j on (sym (v j) ∙ on') (same ∙ p j);
}

pub IsNew-Apart :
    {base : ℕ} {start f : FreeFrame} {pt new : Pages}
    → Owns base pt start
    → IsNew base start new f
    → Apart base pt new f
IsNew-Apart o n = record {
  old = Owns-Later o n.later n.owned.allocator;
  disjoint = IsNew-Disjoint o n;
}

-- For a child's page table without a valid page, and as many free frames as the parent has valid
-- pages: copy_user_mem makes exactly the parent's valid pages valid in the child, with the parent's
-- protections, takes one frame for each, and copies the break and the bounds; the child owns its
-- frames, and every table that owned its frames before still does and shares none with the child.
pub copy_user_mem_lem :
    (m : Machine) (origin dst : UserPt) (s : Mem)
    → Inv.IsValid m.base_frame s.free_frame
    → ((j : ℕ) → (dst.pt j).valid ≡ false)
    → let n = lim_page_1 m - base_page_1 m in
      in_use n 0 origin.pt ≤ frames_left s.free_frame
      → let (u, t) = copy_user_mem m origin dst s in
        Copies n 0 origin.pt dst.pt u.pt
        × (frames_left t.free_frame + in_use n 0 origin.pt ≡ frames_left s.free_frame)
        × ((u.brk ≡ origin.brk) × (u.data_end ≡ origin.data_end) × (u.stack_low ≡ origin.stack_low))
        × Owns m.base_frame u.pt t.free_frame
        × ((pt : Pages)
            → Owns m.base_frame pt s.free_frame
            → Apart m.base_frame pt u.pt t.free_frame)
unfolding copy_user_mem drop_dummy
copy_user_mem_lem m origin dst s valid empty room =
    let (copies, fewer, new) =
      copy_loop_lem m s.free_frame (lim_page_1 m - base_page_1 m) 0 origin.pt dst.pt s
        (IsNew-empty valid empty) room in
    (copies, fewer, (refl, refl, refl), new.owned, λ pt o. IsNew-Apart o new)
