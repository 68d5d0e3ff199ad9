-- ===== src/Load/Layout.antt =====
-- Where LoadProgram of ksrc/load.c puts the stack of the new program.
use yalnix_os.Common.{ℕ, ◌+◌, ◌-◌, ◌*◌, ◌/◌, ◌%◌, ◌^◌, ◌≤◌, ◌<◌, ◌≡◌, sym, ap, ◌∙◌, List, arith}
use native.Mathlib.Nat.{
  mul_comm, mul-sub, mul-div_right, mul-div_left, div-mul-le_self, div-le_of_le-mul,
  le-div_iff_mul-le, lt-mul-div-succ,
}
use yalnix_os.Memory.{Machine, sub_word, base_page_1, lim_page_1}
use yalnix_os.Load.{Constants, args_size, frame_size, cp_of, cpp_of, sp_of, stack_npg}

sub_word_lem : (a b : ℕ) → b ≤ a → a < 2 ^ 32 → sub_word a b ≡ a - b
sub_word_lem a b le fits = omega arith

-- The pages from an address to the end, which is the end of a page; and back from there.
module _ (limit pages size a : ℕ) (some : 0 < size) (whole : limit ≡ pages * size)
    (within : a ≤ limit) (base : ℕ) (inside : base ≤ a) where
  pages_above : (limit - a / size * size) / size ≡ pages - a / size
  pages_above =
      rw (whole, mul_comm pages size, mul_comm (a / size) size, sym (mul-sub size pages (a / size)))
        (mul-div_right (pages - a / size) some)

  rounded :
      (n : ℕ)
      → n ≡ pages - a / size
      → ((limit / size - n) * size ≤ a)
        × (a < (limit / size - n + 1) * size)
        × (n ≤ limit / size - base / size)
  rounded n e =
      let all : limit / size ≡ pages = rw whole (mul-div_left pages some) in
      let reached : a / size ≤ pages =
        div-le_of_le-mul size (rw (mul_comm size pages, sym whole) within) in
      let from : base / size ≤ a / size =
        (le-div_iff_mul-le some).1 (omega (arith, div-mul-le_self base size)) in
      let back : pages - n ≡ a / size = omega arith in
      (
        rw (all, back) (div-mul-le_self a size),
        rw (all, back, mul_comm (a / size + 1) size) (lt-mul-div-succ a some),
        rw all (omega arith),
      )

module _ (m : Machine) (c : Constants) (args : List (List ℕ)) where
  open m use {page_size, vmem_1_base, vmem_1_limit, down_to_page}

  module _ (fits : vmem_1_limit < 2 ^ 32)
      (room : args_size args + frame_size m c args + 7 + c.initial_stack_frame_size
        ≤ vmem_1_limit) where
    cp-eq : cp_of m c args ≡ vmem_1_limit - args_size args
    cp-eq = sub_word_lem _ _ (omega arith) fits

    cpp-eq :
        let u = vmem_1_limit - args_size args - frame_size m c args in cpp_of m c args ≡ u - u % 8
    unfolding cpp_of
    cpp-eq =
        let u =
          sub_word_lem (vmem_1_limit - args_size args) (frame_size m c args) (omega arith)
            (omega arith) in
        ap (λ a. sub_word a (frame_size m c args) - sub_word a (frame_size m c args) % 8) cp-eq
        ∙ ap (λ a. a - a % 8) u

    sp-eq : sp_of m c args ≡ cpp_of m c args - c.initial_stack_frame_size
    unfolding sp_of
    sp-eq =
        sub_word_lem (cpp_of m c args) c.initial_stack_frame_size (omega (arith, cpp-eq))
          (omega (arith, cpp-eq))

    stack_npg-eq :
        down_to_page (sp_of m c args) ≤ vmem_1_limit
        → stack_npg m c args ≡ (vmem_1_limit - down_to_page (sp_of m c args)) / page_size
    unfolding stack_npg
    stack_npg-eq low = ap (λ a. a / page_size) (sub_word_lem _ _ low fits)

  -- With addresses below 2^32, a region 1 that ends with a whole page, DOWN_TO_PAGE rounding down to
  -- a page, and room between the ends of region 1 for the arguments, their pointers, 7 bytes to round
  -- and the initial frame: the arguments end at the end of region 1, argc and the pointers lie below
  -- them from a multiple of 8 on and do not reach into them, the stack pointer is the initial frame
  -- below that and in region 1, and the stack's pages, no more than region 1 has, begin with the page
  -- of the stack pointer.
  pub stack_layout :
      (pages : ℕ)
      → 0 < page_size
      → vmem_1_limit < 2 ^ 32
      → vmem_1_limit ≡ pages * page_size
      → ((a : ℕ) → down_to_page a ≡ a / page_size * page_size)
      → vmem_1_base + args_size args + frame_size m c args + 7 + c.initial_stack_frame_size
        ≤ vmem_1_limit
      → (cp_of m c args + args_size args ≡ vmem_1_limit)
        × (cpp_of m c args % 8 ≡ 0)
        × (cpp_of m c args + frame_size m c args ≤ cp_of m c args)
        × (sp_of m c args + c.initial_stack_frame_size ≡ cpp_of m c args)
        × (vmem_1_base ≤ sp_of m c args)
        × ((lim_page_1 m - stack_npg m c args) * page_size ≤ sp_of m c args)
        × (sp_of m c args < (lim_page_1 m - stack_npg m c args + 1) * page_size)
        × (stack_npg m c args ≤ lim_page_1 m - base_page_1 m)
  stack_layout pages some fits whole rounds space =
      let room : args_size args + frame_size m c args + 7 + c.initial_stack_frame_size
          ≤ vmem_1_limit =
        omega arith in
      let at_cp = cp-eq fits room in
      let at_cpp = cpp-eq fits room in
      let at_sp = sp-eq fits room in
      let sp : ℕ = sp_of m c args in
      let sp_in : sp ≤ vmem_1_limit = omega (arith, at_sp, at_cpp) in
      let high : vmem_1_base ≤ sp = omega (arith, at_sp, at_cpp) in
      let low : down_to_page sp ≤ vmem_1_limit =
        rw (rounds sp) (omega (arith, div-mul-le_self sp page_size)) in
      let number : stack_npg m c args ≡ pages - sp / page_size =
        stack_npg-eq fits room low
        ∙ ap (λ a. (vmem_1_limit - a) / page_size) (rounds sp)
        ∙ pages_above vmem_1_limit pages page_size sp some whole sp_in vmem_1_base high in
      let (below, within, no_more) =
        rounded vmem_1_limit pages page_size sp some whole sp_in vmem_1_base high
          (stack_npg m c args) number in
      (
        omega (arith, at_cp),
        omega (arith, at_cpp),
        omega (arith, at_cp, at_cpp),
        omega (arith, at_sp, at_cpp),
        high,
        below,
        within,
        no_more,
      )
