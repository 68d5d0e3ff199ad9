-- ===== src/Memory/Tables/Fresh.antt =====
-- Page tables that get frames which were free at some earlier time.
use yalnix_os.Common.{
  ℕ, ◌≤◌, ◌+◌, ◌<◌, ◌≡◌, refl, sym, ap, ◌∙◌, ◌≢◌, Bool, true, false, arith, ◌==◌, if◌then◌else◌,
  update,
}
use yalnix_os.Common.Int.{pos}
use yalnix_os.Frames.{FreeFrame, frames_left}
use yalnix_os.Frames.Inv.{taken, InRange}
use yalnix_os.Frames.Inv
use yalnix_os.Frames.Alloc.{Marks, get_frame_auto}
use yalnix_os.Memory.{Machine, Pte, Pages, map_page}
use yalnix_os.Memory.Owns.{Owns, Owns-map, left_lt}

-- From `f` to `g` no frame was given back.
pub record Later (base : ℕ) (f g : FreeFrame) : Type 0 where
  pub size : g.size ≡ f.size
  pub kept : (q : ℕ) → base ≤ q → taken base f q ≡ true → taken base g q ≡ true

-- No page of the one table has a frame of the other.
abbrev pub Disjoint : Pages → Pages → Type 0
Disjoint pt pt' = (i j : ℕ) → (pt i).valid ≡ true → (pt' j).valid ≡ true → (pt i).pfn ≢ (pt' j).pfn

-- The table owns its frames in `f`, which were free in `start`; since then none was given back.
pub record IsNew (base : ℕ) (start : FreeFrame) (pt : Pages) (f : FreeFrame) : Type 0 where
  pub owned : Owns base pt f
  pub was_free : (j q : ℕ) → (pt j).valid ≡ true → (pt j).pfn ≡ pos q → taken base start q ≡ false
  pub later : Later base start f

Later-Marks :
    {base : ℕ} {f g h : FreeFrame} (q : ℕ) → Later base f g → Marks base g h q true → Later base f h
Later-Marks q later marks = record {
  size = marks.size ∙ later.size;
  kept = λ p low on. ground (arith, later.kept p low on, marks.frames p low);
}

-- What a table owned then it owns now.
pub Owns-Later :
    {base : ℕ} {pt : Pages} {f g : FreeFrame}
    → Owns base pt f
    → Later base f g
    → Inv.IsValid base g
    → Owns base pt g
Owns-Later o later valid = record {
  allocator = valid;
  holds = λ i on.
      let h = o.holds i on in
      record {
        frame = h.frame;
        number = h.number;
        range = ground (arith, later.size, h.range.0, h.range.1);
        marked = later.kept h.frame h.range.0 h.marked;
      };
  distinct = o.distinct;
}

-- A table that owned its frames then has none of the new ones.
pub IsNew-Disjoint :
    {base : ℕ} {start f : FreeFrame} {pt new : Pages}
    → Owns base pt start
    → IsNew base start new f
    → Disjoint pt new
IsNew-Disjoint o fresh i j on on' same =
    let h = o.holds i on in
    let free = fresh.was_free j h.frame on' (sym same ∙ h.number) in let used = h.marked in cc

-- A table without a valid page.
pub IsNew-empty :
    {base : ℕ} {f : FreeFrame} {pt : Pages}
    → Inv.IsValid base f
    → ((j : ℕ) → (pt j).valid ≡ false)
    → IsNew base f pt f
IsNew-empty valid off = record {
  owned = record {
    allocator = valid;
    holds = λ j on. absurd (clash (off j) on);
    distinct = λ i j on. absurd (clash (off i) on);
  };
  was_free = λ j q on. absurd (clash (off j) on);
  later = record { size = refl; kept = λ q low on. on };
}
  where
    clash : {b : Bool} → b ≡ false → b ≡ true → ⊥
    clash e f = cc

-- One page more, with a frame that is free.
pub IsNew-map :
    {base : ℕ} {start f g : FreeFrame} {pt : Pages} (i q : ℕ) (new : Pte)
    → IsNew base start pt f
    → new.pfn ≡ pos q
    → InRange base f q
    → taken base f q ≡ false
    → Marks base f g q true
    → Inv.IsValid base g
    → IsNew base start (update pt i new) g
IsNew-map {base} {start} {f} {g} {pt} i q new n is_q range unused marks valid = record {
  owned = Owns-map n.owned i q new is_q range unused marks valid;
  was_free = λ j p on e. free_at j p (i == j) refl on e;
  later = Later-Marks q n.later marks;
}
  where
    not_before : (b : Bool) → taken base start q ≡ b → b ≡ false
    not_before true e = let still = n.later.kept q range.0 e in cc
    not_before false e = refl

    free_at :
        (j p : ℕ) (t : Bool)
        → (i == j) ≡ t
        → (if t then new else pt j).valid ≡ true
        → (if t then new else pt j).pfn ≡ pos p
        → taken base start p ≡ false
    free_at j p true e on at =
        let same : q ≡ p = ground (arith, is_q) in
        ap (taken base start) (sym same) ∙ not_before (taken base start q) refl
    free_at j p false e on at = n.was_free j p on at

-- `set_pte(&pt[i], 1, get_frame(NONE, AUTO), prot)`, where a frame is left.
pub map_page-IsNew :
    (m : Machine) (start : FreeFrame) (i prot : ℕ) (pt : Pages) (f : FreeFrame)
    → IsNew m.base_frame start pt f
    → 0 < frames_left f
    → let (pt', f') = map_page m i prot pt f in
      (pt' ≡ update pt i (record { valid = true; pfn = pos f.avail_pfn; prot = prot }))
      × (frames_left f' + 1 ≡ frames_left f)
      × IsNew m.base_frame start pt' f'
unfolding map_page
map_page-IsNew m start i prot pt f n left =
    let (result, range, unused, marks, fewer, valid) =
      get_frame_auto m.base_frame f n.owned.allocator 0 (left_lt f left) in
    rw result (refl, fewer, IsNew-map i f.avail_pfn _ n refl range unused marks valid)
