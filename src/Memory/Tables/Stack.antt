-- ===== src/Memory/Tables/Stack.antt =====
-- The stack that TrapMemory of ksrc/traps.c grows.
use mathlib.Core.Path.{subst}
use yalnix_os.Common.{
  ℕ, zero, suc, ◌+◌, ◌-◌, ◌*◌, ◌/◌, ◌≤◌, ◌≡◌, refl, true, false, ltb, arith, inr,
}
use yalnix_os.Frames.{FreeFrame, frames_left}
use yalnix_os.Memory.{Machine, Pages, UserPt, Mem, read_write, base_page_1, map_page}
use yalnix_os.Memory.Tables.{stack_loop, grow_stack}
use yalnix_os.Memory.Owns.{Owns, map_page_lem}
use yalnix_os.Memory.Loops.{Changes, Changes-step, Changes-to, IsMapped}

module _ (m : Machine) where
  -- The loop downwards maps its pages and takes as many frames.
  stack_loop_lem :
      (k lo vpn : ℕ) (pt : Pages) (f : FreeFrame)
      → Owns m.base_frame pt f
      → base_page_1 m ≤ lo
      → vpn ≡ lo + k - 1
      → k ≤ frames_left f
      → let (pt', f') = stack_loop m k vpn pt f in
        Changes m (IsMapped (read_write m)) lo (lo + k) pt pt'
        × (frames_left f' + k ≡ frames_left f)
        × Owns m.base_frame pt' f'
  unfolding stack_loop
  stack_loop_lem zero lo vpn pt f o low e left =
      (record { inside = λ v a b. absurd (omega arith); outside = λ v a b. refl }, omega arith, o)
  stack_loop_lem (suc k) lo vpn pt f o low e left =
      let (changed, fewer, o') =
        map_page_lem m (vpn - base_page_1 m) pt f o (read_write m) (omega arith) in
      let (mapped, rest, o'') =
        stack_loop_lem k lo (vpn - 1) _ _ o' low (omega arith) (omega arith) in
      (
        Changes-step m (IsMapped (read_write m)) vpn lo (lo + k) lo (lo + suc k) pt _ _ low
            (inr (omega arith, omega arith, refl, omega arith)) (refl, refl)
            (subst
              (λ q.
                Changes m (IsMapped (read_write m)) lo (lo + k) q
                  (stack_loop m k (vpn - 1) (map_page m (vpn - base_page_1 m) (read_write m) pt f).0
                    (map_page m (vpn - base_page_1 m) (read_write m) pt f).1).0)
              changed mapped),
        omega arith,
        o'',
      )

module _ (m : Machine) (addr : ℕ) (u : UserPt) (s : Mem) where
  open m use {base_frame, page_size, down_to_page}

  -- The page of the stack's lowest address, and that of the address.
  abbrev pub old_vpn : ℕ
  old_vpn = down_to_page u.stack_low / page_size

  abbrev pub new_vpn : ℕ
  new_vpn = down_to_page addr / page_size

  -- A process owns its pages' frames, the address's page is in region 1 and not above the stack's
  -- lowest one, and as many frames are left as pages lie between. Then TrapMemory's growth of the
  -- stack succeeds: those pages and the address's are mapped for reading and writing and no other
  -- page changes, the stack begins at the address's page, size grows and the frames left shrink by
  -- the number of the pages, and the process owns its pages' frames.
  pub grow_stack_lem :
      Owns base_frame u.pt s.free_frame
      → base_page_1 m ≤ new_vpn
      → new_vpn ≤ old_vpn
      → old_vpn ≤ new_vpn + frames_left s.free_frame
      → let (u', s', grown) = grow_stack m addr u s in
        (grown ≡ true)
        × (u'.stack_low ≡ new_vpn * page_size)
        × (u'.size + new_vpn ≡ u.size + old_vpn)
        × (frames_left s'.free_frame + old_vpn ≡ frames_left s.free_frame + new_vpn)
        × Changes m (IsMapped (read_write m)) new_vpn old_vpn u.pt u'.pt
        × Owns base_frame u'.pt s'.free_frame
  unfolding grow_stack
  grow_stack_lem o low down enough =
      let frames : ltb (frames_left s.free_frame) (old_vpn - new_vpn) ≡ false = ground arith in
      let (changed, fewer, owned) =
        stack_loop_lem m (old_vpn - new_vpn) new_vpn (old_vpn - 1) u.pt s.free_frame o low
          (omega arith) (omega arith) in
      rw frames (refl, refl, omega arith, omega arith, Changes-to m changed (omega arith), owned)
