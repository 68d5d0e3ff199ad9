-- ===== src/Memory/Brk.antt =====
-- KernelUserBrk of ksrc/syscalls.c: raising and lowering a process's break.

use yalnix_os.Common.{
  ℕ, ◌+◌, ◌-◌, ◌/◌, ◌^◌, ◌≤◌, ◌<◌, ◌≡◌, refl, ap, ◌∙◌, ◌⊎◌, true, false, arith, if◌then◌else◌, inl,
  inr, ltb, lt→ltb, Bool-cases,
}
use yalnix_os.Common.Int.{ℤ, pos, minus_one}
use yalnix_os.Frames.{frames_left}
use yalnix_os.Memory.{
  Machine, UserPt, Mem, sub_word, base_page_1, last_vpn, read_write, brk_refused, brk_grow,
  brk_shrink, kernel_user_brk,
}
use yalnix_os.Memory.Owns.{Owns}
use yalnix_os.Memory.Loops.{
  page, Changes, IsMapped, IsUnmapped, Changes-to, grow_loop_lem, shrink_loop_lem,
}

module _ (m : Machine) where
  -- The number of the first page above a break.
  abbrev pub end_vpn : ℕ → ℕ
  end_vpn brk = m.up_to_page brk / m.page_size

  last_vpn_lem :
      (brk : ℕ) → 0 < end_vpn brk → end_vpn brk < 2 ^ 32 → last_vpn m brk ≡ end_vpn brk - 1
  last_vpn_lem brk some fits = omega arith

module _ (m : Machine) (addr : ℕ) (u : UserPt) (s : Mem) (first : 0 < base_page_1 m)
    (o : Owns m.base_frame u.pt s.free_frame) (old_low : base_page_1 m ≤ end_vpn m u.brk)
    (old_fits : end_vpn m u.brk < 2 ^ 32) (new_low : base_page_1 m ≤ end_vpn m addr)
    (new_fits : end_vpn m addr < 2 ^ 32) where
  open m use {base_frame}

  -- A process owns its pages' frames, and region 1 holds its break and the new one, which is not
  -- refused, lies on a later page, and needs no more frames than are left. Then KernelUserBrk
  -- returns 0 and sets the break to the address rounded up; the pages between are mapped for
  -- reading and writing and no other page changes, `size` grows and the frames left shrink by
  -- their number, and the process owns its pages' frames.
  pub raise_brk_lem :
      brk_refused m addr u ≡ false
      → end_vpn m u.brk < end_vpn m addr
      → end_vpn m addr ≤ end_vpn m u.brk + frames_left s.free_frame
      → let (u', s', result) = kernel_user_brk m addr u s in
        (result ≡ pos 0)
        × (u'.brk ≡ m.up_to_page addr)
        × (u'.size + end_vpn m u.brk ≡ u.size + end_vpn m addr)
        × (frames_left s'.free_frame + end_vpn m addr ≡ frames_left s.free_frame + end_vpn m u.brk)
        × Changes m (IsMapped (read_write m)) (end_vpn m u.brk) (end_vpn m addr) u.pt u'.pt
        × Owns base_frame u'.pt s'.free_frame
  unfolding kernel_user_brk brk_grow
  raise_brk_lem allowed up enough =
      let was = last_vpn_lem m u.brk (omega arith) old_fits in
      let is_now = last_vpn_lem m addr (omega arith) new_fits in
      let rises : ltb (end_vpn m u.brk - 1) (end_vpn m addr - 1) ≡ true =
        lt→ltb _ _ (omega arith) in
      let rounds : end_vpn m addr - 1 - (end_vpn m u.brk - 1) ≡ end_vpn m addr - end_vpn m u.brk =
        omega arith in
      let frames : ltb (frames_left s.free_frame) (end_vpn m addr - end_vpn m u.brk) ≡ false =
        ground arith in
      let start : end_vpn m u.brk - 1 + 1 ≡ end_vpn m u.brk = omega arith in
      let (changed, fewer, owned) =
        grow_loop_lem m (end_vpn m addr - end_vpn m u.brk) (end_vpn m u.brk) (read_write m) u.pt
          s.free_frame o old_low (omega arith) in
      rw (allowed, was, is_now, rises, rounds, frames, start)
        (refl, refl, omega arith, omega arith, Changes-to m changed (omega arith), owned)

  -- A process owns its pages' frames, and region 1 holds its break and the new one, which is not
  -- refused and lies on an earlier page; the pages between are valid and counted in `size`. Then
  -- KernelUserBrk returns 0 and sets the break to the address rounded up; the pages between are
  -- unmapped and no other page changes, `size` shrinks and the frames left grow by their number,
  -- and the process owns its pages' frames.
  pub lower_brk_lem :
      brk_refused m addr u ≡ false
      → end_vpn m addr < end_vpn m u.brk
      → end_vpn m u.brk ≤ end_vpn m addr + u.size
      → ((v : ℕ) → end_vpn m addr ≤ v → v < end_vpn m u.brk → (page m u.pt v).valid ≡ true)
      → let (u', s', result) = kernel_user_brk m addr u s in
        (result ≡ pos 0)
        × (u'.brk ≡ m.up_to_page addr)
        × (u'.size + end_vpn m u.brk ≡ u.size + end_vpn m addr)
        × (frames_left s'.free_frame + end_vpn m addr ≡ frames_left s.free_frame + end_vpn m u.brk)
        × Changes m IsUnmapped (end_vpn m addr) (end_vpn m u.brk) u.pt u'.pt
        × Owns base_frame u'.pt s'.free_frame
  unfolding kernel_user_brk brk_shrink
  lower_brk_lem allowed down sized on =
      let was = last_vpn_lem m u.brk (omega arith) old_fits in
      let is_now = last_vpn_lem m addr (omega arith) new_fits in
      let no_rise : ltb (end_vpn m u.brk - 1) (end_vpn m addr - 1) ≡ false = ground arith in
      let falls : ltb (end_vpn m addr - 1) (end_vpn m u.brk - 1) ≡ true =
        lt→ltb _ _ (omega arith) in
      let rounds : end_vpn m u.brk - 1 - (end_vpn m addr - 1) ≡ end_vpn m u.brk - end_vpn m addr =
        omega arith in
      let (changed, more, owned) =
        shrink_loop_lem m (end_vpn m u.brk - end_vpn m addr) (end_vpn m addr) (end_vpn m u.brk - 1)
          u.pt s.free_frame o new_low (omega arith) (λ v a b. on v a (omega arith)) in
      rw (allowed, was, is_now, no_rise, falls, rounds)
        (refl, refl, omega arith, omega arith, Changes-to m changed (omega arith), owned)

  -- With both breaks in region 1, a new break that is not refused and whose last page is the old
  -- one's returns 0 and changes only the break.
  pub same_brk_lem :
      brk_refused m addr u ≡ false
      → end_vpn m addr ≡ end_vpn m u.brk
      → kernel_user_brk m addr u s ≡ (record u { brk = m.up_to_page addr }, s, pos 0)
  unfolding kernel_user_brk
  same_brk_lem allowed same =
      let was = last_vpn_lem m u.brk (omega arith) old_fits in
      let is_now = last_vpn_lem m addr (omega arith) new_fits ∙ ap (λ v. v - 1) same in
      let still : ltb (end_vpn m u.brk - 1) (end_vpn m u.brk - 1) ≡ false = ground arith in
      rw (allowed, was, is_now, still) refl

module _ (m : Machine) (addr : ℕ) (u : UserPt) (s : Mem) where
  -- The new break is above the data, leaves a page free below the stack, and needs no more frames
  -- than are left.
  abbrev pub BreakFits : Type 0
  BreakFits =
      (m.up_to_page u.data_end ≤ addr)
      × (addr + m.page_size < m.down_to_page u.stack_low)
      × (end_vpn m addr ≤ end_vpn m u.brk + frames_left s.free_frame)

  -- What a call of KernelUserBrk answers: it moves the break, or reports an error.
  abbrev pub Answers : UserPt × Mem × ℤ → Type 0
  Answers (u', s', result) =
      (BreakFits
        × (result ≡ pos 0)
        × (u'.brk ≡ m.up_to_page addr)
        × (u'.data_end ≡ u.data_end)
        × (u'.stack_low ≡ u.stack_low))
      ⊎ ((¬ BreakFits) × (result ≡ minus_one) × (u' ≡ u) × (s' ≡ s))

  -- With the low end of the stack above page 0 and below 2^32, page numbers of both breaks below 2^32,
  -- an old break above page 0, and a new one too if it is above the data: where the new break is above
  -- the data, leaves a page below the stack and needs no more frames than are left, KernelUserBrk
  -- returns 0, the break is the address rounded up, and the ends of data and stack are kept; where one
  -- of the three fails, it returns ERROR and changes nothing.
  pub brk_result :
      m.page_size ≤ m.down_to_page u.stack_low
      → m.down_to_page u.stack_low < 2 ^ 32
      → 0 < end_vpn m u.brk
      → end_vpn m u.brk < 2 ^ 32
      → end_vpn m addr < 2 ^ 32
      → (m.up_to_page u.data_end ≤ addr → 0 < end_vpn m addr)
      → Answers (kernel_user_brk m addr u s)
  unfolding kernel_user_brk brk_grow brk_shrink
  brk_result above small some fits new_fits no_wrap =
      let room : sub_word (m.down_to_page u.stack_low) m.page_size
          ≡ m.down_to_page u.stack_low - m.page_size =
        omega arith in
      elim (Bool-cases (brk_refused m addr u)) [
        | inl refused ↦
            let no : ¬ BreakFits = λ (a, b, e). ground arith in
            rw refused (inr (no, refl, refl, refl))
        | inr allowed ↦
            let over : m.up_to_page u.data_end ≤ addr = ground arith in
            let stack : addr + m.page_size < m.down_to_page u.stack_low = ground arith in
            let was = last_vpn_lem m u.brk some fits in
            let is_now = last_vpn_lem m addr (no_wrap over) new_fits in
            rw (allowed, was, is_now) (moved some (no_wrap over) over stack)
      ]
    where
      -- The three ways to move the break.
      moved :
          0 < end_vpn m u.brk
          → 0 < end_vpn m addr
          → m.up_to_page u.data_end ≤ addr
          → addr + m.page_size < m.down_to_page u.stack_low
          → let curr = end_vpn m u.brk - 1 in
            let next = end_vpn m addr - 1 in
            Answers (
              if ltb curr next
              then brk_grow m addr curr (next - curr) u s
              else (if ltb next curr
                  then brk_shrink m addr curr (curr - next) u s
                  else (record u { brk = m.up_to_page addr }, s, pos 0)))
      moved some there over stack =
          elim (Bool-cases (ltb (end_vpn m u.brk - 1) (end_vpn m addr - 1))) [
            | inl up ↦
                rw up
                  (elim (Bool-cases
                    (ltb (frames_left s.free_frame) (end_vpn m addr - 1 - (end_vpn m u.brk - 1)))) [
                      | inl few ↦
                          let no : ¬ BreakFits = λ (a, b, e). ground arith in
                          rw few (inr (no, refl, refl, refl))
                      | inr enough ↦
                          let fit : end_vpn m addr ≤ end_vpn m u.brk + frames_left s.free_frame =
                            ground arith in
                          rw enough (inl ((over, stack, fit), refl, refl, refl, refl))
                    ])
            | inr level ↦
                let fit : end_vpn m addr ≤ end_vpn m u.brk + frames_left s.free_frame =
                  ground arith in
                rw level (elim (Bool-cases (ltb (end_vpn m addr - 1) (end_vpn m u.brk - 1))) [
                  | inl down ↦ rw down (inl ((over, stack, fit), refl, refl, refl, refl))
                  | inr same ↦ rw same (inl ((over, stack, fit), refl, refl, refl, refl))
                ])
          ]
