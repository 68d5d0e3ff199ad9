-- ===== src/Memory/Checks.antt =====
-- The checks of ksrc/memory.c on what a process hands to the kernel.
use yalnix_os.Common.{
  ℕ, zero, suc, ◌+◌, ◌-◌, ◌*◌, ◌/◌, ◌%◌, ◌^◌, ◌≤◌, ◌<◌, ◌≡◌, refl, sym, ap, ◌∙◌, ◌≢◌, ◌↔◌, Bool,
  true, false, not, ◌&&◌, ◌||◌, arith, ltb, leb, ◌==◌, if◌then◌else◌, ==_ne, ==_iff,
}
use Prim.Native.Nat.{bit_or, bit_or-bitwise, max}
use yalnix_os.Common.Int.{ℤ, pos, negsuc}
use yalnix_os.Frames.{frames_left}
use yalnix_os.Memory.{Machine, Pte, UserPt, Mem, base_page_1, sub_word}

-- `unsigned int` addition
abbrev pub add_word : ℕ → ℕ → ℕ
add_word a b = (a + b) % 2 ^ 32

-- A C number in a test.
abbrev pub truth : ℕ → Bool
truth n = not (n == 0)

-- The result of a C comparison.
abbrev pub flag : Bool → ℕ
flag b = if b then 1 else 0

abbrev pub max_check : ℕ
max_check = 256

module _ (m : Machine) where
  open m use {prot_read, prot_write, prot_all, page_size}

  -- The address lies in region 1.
  abbrev pub in_region_1 : ℕ → Bool
  in_region_1 addr = not (ltb addr m.vmem_1_base || leb m.vmem_1_limit addr)

  -- The entry of the page that the address lies on.
  abbrev pub pte_of : ℕ → UserPt → Pte
  pte_of addr u = u.pt (addr / page_size - base_page_1 m)

  -- `==` binds tighter than `|`: the first test is `(p.prot == PROT_READ) | PROT_WRITE`.
  pub check_addr : ℕ → ℕ → UserPt → Bool
  check_addr addr prot u =
      let p = pte_of addr u in
      if not (in_region_1 addr)
      then false
      else (if not p.valid
          then false
          else (if truth (bit_or (flag (p.prot == prot_read)) prot_write) || (p.prot == prot_all)
              then true
              else (if prot == prot_read then p.prot == prot_read else p.prot == prot_write)))

  -- The loop of `check_buffer`, `k` rounds from `i` on.
  pub check_bytes : ℕ → ℕ → ℕ → ℕ → UserPt → Bool
  check_bytes zero i addr prot u = true
  check_bytes (suc k) i addr prot u =
      if not (check_addr (add_word addr i) prot u) then false else check_bytes k (i + 1) addr prot u

  -- A length that is negative gives no round.
  pub check_buffer : ℤ → ℕ → ℕ → UserPt → Bool
  unfolding check_bytes
  check_buffer (pos len) addr prot u = check_bytes len 0 addr prot u
  check_buffer (negsuc n) addr prot u = true

  -- `byte a` is the byte that the process has at `a`; `k` rounds from `i` on.
  unfoldable pub check_chars : (ℕ → ℕ) → ℕ → ℕ → ℕ → UserPt → Bool
  check_chars byte zero i addr u = false
  check_chars byte (suc k) i addr u =
      if not (check_addr (add_word addr i) prot_read u)
      then false
      else (if byte (add_word addr i) == 0 then true else check_chars byte k (i + 1) addr u)

  unfoldable pub check_string : (ℕ → ℕ) → ℕ → UserPt → Bool
  unfolding check_chars
  check_string byte addr u = check_chars byte max_check 0 addr u

  -- `word a` is the pointer that the process has at `a`; `k` rounds from `i` on.
  pub check_pointers : (ℕ → ℕ) → (ℕ → ℕ) → ℕ → ℕ → ℕ → UserPt → Bool
  unfolding check_string
  check_pointers byte word zero i args u = false
  check_pointers byte word (suc k) i args u =
      let at = add_word args (4 * i) in
      if not (check_addr at prot_read u)
      then false
      else (if word at == 0
          then true
          else (if not (check_string byte (word at) u)
              then false
              else check_pointers byte word k (i + 1) args u))

  pub check_args : (ℕ → ℕ) → (ℕ → ℕ) → ℕ → UserPt → Bool
  unfolding check_pointers
  check_args byte word args u = check_pointers byte word max_check 0 args u

  pub no_kernel_memory : ℕ → Mem → Bool
  no_kernel_memory left s =
      ltb (frames_left s.free_frame) left
      || leb (sub_word (m.down_to_page m.kernel_stack_base) page_size) s.kernel_brk

  -- `|` with a number that is not zero is not zero.
  flag_or : (b : Bool) (w : ℕ) → w ≢ 0 → bit_or (flag b) w ≢ 0
  flag_or true w some e =
      let none_set : w / 2 * 2 + max 1 (w % 2) ≡ 0 = sym (bit_or-bitwise 1 w) ∙ e in omega arith
  flag_or false w some e = some (sym (bit_or-bitwise 0 w) ∙ e)

  -- With a PROT_WRITE that is not zero, check_addr accepts exactly the addresses of region 1 on a
  -- valid page, whatever the page's protection and the access asked for.
  pub check_addr_lem :
      (addr prot : ℕ) (u : UserPt)
      → prot_write ≢ 0
      → check_addr addr prot u ≡ (in_region_1 addr && (pte_of addr u).valid)
  unfolding check_addr
  check_addr_lem addr prot u some =
      rw (==_ne _ 0 (flag_or ((pte_of addr u).prot == prot_read) prot_write some))
        (both (in_region_1 addr) (pte_of addr u).valid)
    where
      both : (a b : Bool) → (if not a then false else (if not b then false else true)) ≡ (a && b)
      both true true = refl
      both true false = refl
      both false b = refl

  check_bytes_iff :
      (k i addr prot : ℕ) (u : UserPt)
      → (check_bytes k i addr prot u ≡ true)
        ↔ ((j : ℕ) → i ≤ j → j < i + k → check_addr (add_word addr j) prot u ≡ true)
  unfolding check_bytes
  check_bytes_iff zero i addr prot u = (λ e j a b. absurd (omega arith), λ all. refl)
  check_bytes_iff (suc k) i addr prot u =
      round (check_addr (add_word addr i) prot u) refl (check_bytes_iff k (i + 1) addr prot u)
    where
      round :
          (b : Bool)
          → check_addr (add_word addr i) prot u ≡ b
          → ((check_bytes k (i + 1) addr prot u ≡ true)
              ↔ ((j : ℕ) → i + 1 ≤ j → j < i + 1 + k → check_addr (add_word addr j) prot u ≡ true))
          → ((if not b then false else check_bytes k (i + 1) addr prot u) ≡ true)
            ↔ ((j : ℕ) → i ≤ j → j < i + suc k → check_addr (add_word addr j) prot u ≡ true)
      round true e rest = (
        λ r j a b. at_front j (i == j) refl (λ low. rest.0 r j low (omega arith)) a,
        λ all. rest.1 (λ j a b. all j (omega arith) (omega arith)),
      )
        where
          at_front :
              (j : ℕ) (t : Bool)
              → (i == j) ≡ t
              → (i + 1 ≤ j → check_addr (add_word addr j) prot u ≡ true)
              → i ≤ j
              → check_addr (add_word addr j) prot u ≡ true
          at_front j true same later a =
              ap (λ n. check_addr (add_word addr n) prot u) (sym ((==_iff i j).0 same)) ∙ e
          at_front j false same later a = let ne : i ≢ j = ground arith in later (omega arith)
      round false e rest = (λ r. cc, λ all. sym e ∙ all i (omega arith) (omega arith))

  -- For a length that is not negative, check_buffer accepts exactly the buffers of which
  -- check_addr accepts every byte's address.
  pub check_buffer_iff :
      (len addr prot : ℕ) (u : UserPt)
      → (check_buffer (pos len) addr prot u ≡ true)
        ↔ ((j : ℕ) → j < len → check_addr (add_word addr j) prot u ≡ true)
  unfolding check_buffer
  check_buffer_iff len addr prot u =
      let all = check_bytes_iff len 0 addr prot u in
      (
        λ r j b. all.0 r j (omega arith) (omega arith),
        λ every. all.1 (λ j a b. every j (omega arith)),
      )
