-- ===== src/Memory/Tables/KernelStack.antt =====
-- KCCopy of ksrc/cswitch.c and destroy_kstack of ksrc/memory.c: the kernel stack that a child gets, and
-- that it gives back.
use mathlib.Core.Path.{fun_ext}
use yalnix_os.Common.{
  ℕ, zero, suc, ◌+◌, ◌≤◌, ◌<◌, ◌≡◌, refl, ap, ◌≢◌, ◌⊎◌, Bool, true, false, arith, ◌==◌, ltb,
  if◌then◌else◌, update,
}
use yalnix_os.Common.Int.{pos}
use yalnix_os.Frames.{FreeFrame, frames_left}
use yalnix_os.Frames.Inv
use yalnix_os.Memory.{Machine, Pte, Pages, Mem, read_write}
use yalnix_os.Memory.Owns.{Owns}
use yalnix_os.Memory.Destroy.{in_use, destroy_loop_lem}
use yalnix_os.Memory.Isolation.{destroy_loop-Spares}
use yalnix_os.Memory.Tables.{
  kstack_pages, copy_page, copy_loop, drop_dummy, kstack_loop, kc_copy, destroy_kstack,
}
use yalnix_os.Memory.Tables.Fresh.{Disjoint, IsNew-empty}
use yalnix_os.Memory.Tables.Copy.{Apart, IsNew-Apart, copy_loop_lem}

module _ (m : Machine) where
  -- A table whose pages are all valid and have the one protection.
  abbrev All : Pages
  All j = record { valid = true; pfn = pos 0; prot = read_write m }

  in_use-All : (k i : ℕ) → in_use k i All ≡ k
  unfolding in_use
  in_use-All zero i = refl
  in_use-All (suc k) i = rw (in_use-All k (i + 1)) (omega arith)

  -- Two tables that differ only in the `k` entries from `i` on.
  abbrev Outside : ℕ → ℕ → Pages → Pages → Type 0
  Outside k i dst dst' = (j : ℕ) → (j < i) ⊎ (i + k ≤ j) → dst j ≡ dst' j

  Outside-update :
      (k i : ℕ) (dst dst' : Pages) (x : Pte)
      → Outside (suc k) i dst dst'
      → Outside k (i + 1) (update dst i x) (update dst' i x)
  Outside-update k i dst dst' x same j s = at (i == j) refl
    where
      at : (t : Bool) → (i == j) ≡ t → (if t then x else dst j) ≡ (if t then x else dst' j)
      at true e = refl
      at false e = let ne : i ≢ j = ground arith in same j (omega arith)

  -- What the entries held before does not matter, since all of them are written.
  kstack_loop_lem :
      (k i : ℕ) (dst dst' : Pages) (s : Mem)
      → Outside k i dst dst'
      → kstack_loop m k i dst s ≡ copy_loop m k i All dst' s
  unfolding kstack_loop copy_loop copy_page
  kstack_loop_lem zero i dst dst' s same = ap (λ q. (q, s)) (fun_ext (λ j. same j (omega arith)))
  kstack_loop_lem (suc k) i dst dst' s same =
      kstack_loop_lem k (i + 1) _ _ _ (Outside-update k i dst dst' _ same)

-- Whatever malloc left in the entries of the new kernel stack's table, when a free frame is there for
-- each of its pages: KCCopy makes all of them valid, for reading and writing, and takes one frame for
-- each; the new stack owns its frames, and every table that owned its frames before still does and
-- shares none with it.
pub kc_copy_lem :
    (m : Machine) (kstack : Pages) (s : Mem)
    → Inv.IsValid m.base_frame s.free_frame
    → ((j : ℕ) → kstack_pages m ≤ j → (kstack j).valid ≡ false)
    → kstack_pages m ≤ frames_left s.free_frame
    → let (pt, t) = kc_copy m kstack s in
      ((j : ℕ) → j < kstack_pages m → ((pt j).valid ≡ true) × ((pt j).prot ≡ read_write m))
      × (frames_left t.free_frame + kstack_pages m ≡ frames_left s.free_frame)
      × Owns m.base_frame pt t.free_frame
      × ((old : Pages)
          → Owns m.base_frame old s.free_frame
          → Apart m.base_frame old pt t.free_frame)
unfolding kc_copy drop_dummy
kc_copy_lem m kstack s valid behind room =
    let k = kstack_pages m in
    let blank : Pages = λ j. if ltb j k then record (kstack j) { valid = false } else kstack j in
    let empty = λ (j : ℕ). off j (ltb j k) refl in
    let (copies, fewer, new) =
      copy_loop_lem m s.free_frame k 0 (All m) blank s (IsNew-empty valid empty)
        (rw (in_use-All m k 0) room) in
    let same : Outside m k 0 kstack blank = λ j a. ground arith in
    let result = kstack_loop_lem m k 0 kstack blank s same in
    rw result (
      λ j low. copies.on j (omega arith) (omega arith) refl,
      rw (in_use-All m k 0) at fewer,
      new.owned,
      λ pt o. IsNew-Apart o new,
    )
  where
    off :
        (j : ℕ) (t : Bool)
        → ltb j (kstack_pages m) ≡ t
        → (if t then record (kstack j) { valid = false } else kstack j).valid ≡ false
    off j true e = refl
    off j false e = behind j (ground arith)

-- Giving a kernel stack back: as many frames are back as it had pages, and other tables that share no
-- frame with it go on owning theirs.
pub destroy_kstack_lem :
    (m : Machine) (kstack : Pages) (f : FreeFrame)
    → Owns m.base_frame kstack f
    → let g = (destroy_kstack m kstack f).1 in
      (frames_left g ≡ frames_left f + in_use (kstack_pages m) 0 kstack)
      × ((other : Pages)
          → Owns m.base_frame other f
          → Disjoint kstack other
          → Owns m.base_frame other g)
unfolding destroy_kstack
destroy_kstack_lem m kstack f o =
    let (cleared, more, owned) = destroy_loop_lem m (kstack_pages m) 0 kstack f o in
    (
      more,
      λ other owns apart.
          (destroy_loop-Spares m other (kstack_pages m) 0 kstack f o (owns, apart)).0,
    )
