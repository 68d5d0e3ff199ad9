-- ===== src/Memory/Owns.antt =====
-- Who owns which frame: the valid pages of a page table hold different taken frames.
use yalnix_os.Common.{
  ℕ, ◌+◌, ◌<◌, ◌≡◌, refl, sym, ap, ◌∙◌, ◌≢◌, Bool, true, false, arith, ◌==◌, if◌then◌else◌, update,
}
use yalnix_os.Common.Int.{pos}
use yalnix_os.Frames.{FreeFrame, frames_left}
use yalnix_os.Frames.Inv.{taken, InRange}
use yalnix_os.Frames.Inv
use yalnix_os.Frames.Alloc.{Marks, get_frame_auto, vacate_frame_lem}
use yalnix_os.Memory.{Machine, Pte, Pages, to_word, map_page, unmap_page}

-- The page holds a frame of the machine that is marked as taken.
pub record Holds (base : ℕ) (f : FreeFrame) (pte : Pte) : Type 0 where
  pub frame : ℕ
  pub number : pte.pfn ≡ pos frame
  pub range : InRange base f frame
  pub marked : taken base f frame ≡ true

pub record Owns (base : ℕ) (pt : Pages) (f : FreeFrame) : Type 0 where
  pub allocator : Inv.IsValid base f
  pub holds : (i : ℕ) → (pt i).valid ≡ true → Holds base f (pt i)
  pub distinct :
      (i j : ℕ) → (pt i).valid ≡ true → (pt j).valid ≡ true → (pt i).pfn ≡ (pt j).pfn → i ≡ j

-- A page of which the other one's frame is spared goes on holding its frame.
Holds-Marks :
    {base : ℕ} {f g : FreeFrame} {pte : Pte} (q : ℕ) (bit : Bool)
    → Marks base f g q bit
    → (h : Holds base f pte) → (bit ≡ false → h.frame ≢ q)
    → Holds base g pte
Holds-Marks q bit k h spared = record {
  frame = h.frame;
  number = h.number;
  range = ground (arith, k.size, h.range.0, h.range.1);
  marked = ground (arith, k.frames h.frame h.range.0, h.marked);
}

-- A table whose pages are the same but for their protections owns the same frames.
pub Owns-same :
    {base : ℕ} {f : FreeFrame} {pt pt' : Pages}
    → ((j : ℕ) → (pt' j).valid ≡ (pt j).valid)
    → ((j : ℕ) → (pt' j).pfn ≡ (pt j).pfn)
    → Owns base pt f
    → Owns base pt' f
Owns-same v p o = record {
  allocator = o.allocator;
  holds = λ i on.
      let h = o.holds i (sym (v i) ∙ on) in
      record { frame = h.frame; number = p i ∙ h.number; range = h.range; marked = h.marked };
  distinct =
      λ i j on on' e. o.distinct i j (sym (v i) ∙ on) (sym (v j) ∙ on') (sym (p i) ∙ e ∙ p j);
}

-- A table that does not have the frame `q` does not notice what becomes of it.
pub Owns-Marks :
    {base : ℕ} {f g : FreeFrame} {pt : Pages} (q : ℕ)
    → Owns base pt f
    → Marks base f g q false
    → ((j : ℕ) → (pt j).valid ≡ true → (pt j).pfn ≢ pos q)
    → Inv.IsValid base g
    → Owns base pt g
Owns-Marks q o marks apart valid = record {
  allocator = valid;
  holds = λ j on.
      let h = o.holds j on in
      Holds-Marks q false marks h (λ b same. apart j on (h.number ∙ ap pos same));
  distinct = o.distinct;
}

pub left_lt : (f : FreeFrame) → 0 < frames_left f → f.filled < f.size
unfolding frames_left
left_lt f h = omega arith

module _ {base : ℕ} {pt : Pages} {f : FreeFrame} (o : Owns base pt f) (q : ℕ) where
  open o use {holds}

  -- A frame that was free is held by no page.
  other_frame : taken base f q ≡ false → (j : ℕ) → (pt j).valid ≡ true → (pt j).pfn ≢ pos q
  other_frame unused j v e =
      let h = holds j v in
      let same : h.frame ≡ q = ground (arith, h.number) in ground (arith, h.marked)

module _ {base : ℕ} {pt : Pages} {f g : FreeFrame} (o : Owns base pt f) (i q : ℕ) where
  open o use {holds, distinct}

  -- Giving a page a frame that was free.
  pub Owns-map :
      (new : Pte)
      → new.pfn ≡ pos q
      → InRange base f q
      → taken base f q ≡ false
      → Marks base f g q true
      → Inv.IsValid base g
      → Owns base (update pt i new) g
  Owns-map new is_q range unused marks valid = record {
    allocator = valid;
    holds = λ j v. holds_at j (i == j) refl v;
    distinct = λ j k vj vk e. distinct_at j k (i == j) (i == k) refl refl vj vk e;
  }
    where
      holds_at :
          (j : ℕ) (t : Bool)
          → (i == j) ≡ t
          → (if t then new else pt j).valid ≡ true
          → Holds base g (if i == j then new else pt j)
      holds_at j true e v = rw e (record {
        frame = q;
        number = is_q;
        range = ground (arith, marks.size, range.0, range.1);
        marked = ground (arith, marks.frames q range.0);
      })
      holds_at j false e v = rw e (Holds-Marks q true marks (holds j v) (λ b. cc))

      distinct_at :
          (j k : ℕ) (t u : Bool)
          → (i == j) ≡ t
          → (i == k) ≡ u
          → (if t then new else pt j).valid ≡ true
          → (if u then new else pt k).valid ≡ true
          → (if t then new else pt j).pfn ≡ (if u then new else pt k).pfn
          → j ≡ k
      distinct_at j k true true ej ek vj vk e = ground arith
      distinct_at j k true false ej ek vj vk e = absurd (other_frame o q unused k vk (sym e ∙ is_q))
      distinct_at j k false true ej ek vj vk e = absurd (other_frame o q unused j vj (e ∙ is_q))
      distinct_at j k false false ej ek vj vk e = distinct j k vj vk e

  -- Taking its frame from a valid page.
  Owns-unmap :
      (new : Pte)
      → new.valid ≡ false
      → (pt i).valid ≡ true
      → (pt i).pfn ≡ pos q
      → Marks base f g q false
      → Inv.IsValid base g
      → Owns base (update pt i new) g
  Owns-unmap new off on is_q marks valid = record {
    allocator = valid;
    holds = λ j v. holds_at j (i == j) refl v;
    distinct = λ j k vj vk e. distinct_at j k (i == j) (i == k) refl refl vj vk e;
  }
    where
      holds_at :
          (j : ℕ) (t : Bool)
          → (i == j) ≡ t
          → (if t then new else pt j).valid ≡ true
          → Holds base g (if i == j then new else pt j)
      holds_at j true e v = cc
      holds_at j false e v =
          let h = holds j v in
          let apart : h.frame ≢ q = λ same. ground (arith, h.number, distinct i j on v) in
          rw e (Holds-Marks q false marks h (λ b. apart))

      distinct_at :
          (j k : ℕ) (t u : Bool)
          → (i == j) ≡ t
          → (i == k) ≡ u
          → (if t then new else pt j).valid ≡ true
          → (if u then new else pt k).valid ≡ true
          → (if t then new else pt j).pfn ≡ (if u then new else pt k).pfn
          → j ≡ k
      distinct_at j k true u ej ek vj vk e = cc
      distinct_at j k false true ej ek vj vk e = cc
      distinct_at j k false false ej ek vj vk e = distinct j k vj vk e

module _ (m : Machine) (i : ℕ) (pt : Pages) (f : FreeFrame) (o : Owns m.base_frame pt f) where
  open o use {allocator, holds}

  -- Mapping a page takes one frame, which was free, and keeps the ownership.
  pub map_page_lem :
      (prot : ℕ)
      → 0 < frames_left f
      → let (pt', f') = map_page m i prot pt f in
        (pt' ≡ update pt i (record { valid = true; pfn = pos f.avail_pfn; prot = prot }))
        × (frames_left f' + 1 ≡ frames_left f)
        × Owns m.base_frame pt' f'
  unfolding map_page
  map_page_lem prot left =
      let (result, range, unused, marks, fewer, valid) =
        get_frame_auto m.base_frame f allocator 0 (left_lt f left) in
      rw result (refl, fewer, Owns-map o i f.avail_pfn _ refl range unused marks valid)

  -- Unmapping a valid page gives its frame back and keeps the ownership.
  pub unmap_page_lem :
      (pt i).valid ≡ true
      → let (pt', f') = unmap_page m i pt f in
        (pt' ≡ update pt i (record (pt i) { valid = false }))
        × (frames_left f' ≡ frames_left f + 1)
        × Owns m.base_frame pt' f'
  unfolding unmap_page
  unmap_page_lem on =
      let h = holds i on in
      let number : to_word (pt i).pfn ≡ h.frame = ap to_word h.number in
      let (marks, more, valid) =
        vacate_frame_lem m.base_frame f allocator h.frame h.range h.marked in
      rw number (refl, more, Owns-unmap o i h.frame _ refl on h.number marks valid)
