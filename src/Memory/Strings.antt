-- ===== src/Memory/Strings.antt =====
-- What check_string of ksrc/memory.c accepts.

use yalnix_os.Common.{
  ℕ, zero, suc, ◌+◌, ◌≤◌, ◌<◌, ◌≡◌, refl, sym, ap, ◌∙◌, ◌≢◌, ◌↔◌, Bool, true, false, not, arith,
  ◌==◌, if◌then◌else◌, ==_iff,
}
use yalnix_os.Memory.{Machine, UserPt}
use yalnix_os.Memory.Checks.{add_word, check_addr, check_chars, check_string, max_check}

module _ (m : Machine) (byte : ℕ → ℕ) (addr : ℕ) (u : UserPt) where
  abbrev readable : ℕ → Bool
  readable i = check_addr m (add_word addr i) m.prot_read u

  abbrev ends : ℕ → Bool
  ends i = byte (add_word addr i) == 0

  -- A 0 among the `k` bytes from `i` on, up to which every address passes.
  pub record EndsWithin (k i : ℕ) : Type 0 where
    pub at : ℕ
    pub from : i ≤ at
    pub within : at < i + k
    pub is_end : byte (add_word addr at) ≡ 0
    pub passes : (j : ℕ) → i ≤ j → j ≤ at → check_addr m (add_word addr j) m.prot_read u ≡ true

  -- With one byte more in front.
  EndsWithin-step : (k i : ℕ) → readable i ≡ true → EndsWithin k (i + 1) → EndsWithin (suc k) i
  EndsWithin-step k i pass e = record {
    at = e.at;
    from = omega (arith, e.from);
    within = omega (arith, e.within);
    is_end = e.is_end;
    passes = λ j a b. passes_at j (i == j) refl a b;
  }
    where
      passes_at : (j : ℕ) (t : Bool) → (i == j) ≡ t → i ≤ j → j ≤ e.at → readable j ≡ true
      passes_at j true same a b = ap readable (sym ((==_iff i j).0 same)) ∙ pass
      passes_at j false same a b = let ne : i ≢ j = ground arith in e.passes j (omega arith) b

  check_chars_iff : (k i : ℕ) → (check_chars m byte k i addr u ≡ true) ↔ EndsWithin k i
  unfolding check_chars
  check_chars_iff zero i = (λ r. cc, λ e. absurd (omega (arith, e.from, e.within)))
  check_chars_iff (suc k) i = round (readable i) (ends i) refl refl (check_chars_iff k (i + 1))
    where
      here : readable i ≡ true → ends i ≡ true → EndsWithin (suc k) i
      here pass stop = record {
        at = i;
        from = omega arith;
        within = omega arith;
        is_end = (==_iff _ 0).0 stop;
        passes = λ j a b. let same : i ≡ j = omega arith in ap readable (sym same) ∙ pass;
      }

      later : ends i ≡ false → EndsWithin (suc k) i → EndsWithin k (i + 1)
      later go e =
          let ne : i ≢ e.at = λ same. absurd (not_end (ap ends same ∙ rw e.is_end refl)) in
          record {
            at = e.at;
            from = omega (arith, e.from);
            within = omega (arith, e.within);
            is_end = e.is_end;
            passes = λ j a b. e.passes j (omega arith) b;
          }
        where
          not_end : ends i ≢ true
          not_end f = cc

      round :
          (p s : Bool)
          → readable i ≡ p
          → ends i ≡ s
          → ((check_chars m byte k (i + 1) addr u ≡ true) ↔ EndsWithin k (i + 1))
          → ((if not p then false else (if s then true else check_chars m byte k (i + 1) addr u))
              ≡ true)
            ↔ EndsWithin (suc k) i
      round true true pass stop rest = (λ r. here pass stop, λ e. refl)
      round true false pass go rest =
          (λ r. EndsWithin-step k i pass (rest.0 r), λ e. rest.1 (later go e))
      round false s fails stop rest = (λ r. cc, λ e. sym fails ∙ e.passes i (omega arith) e.from)

  -- check_string accepts exactly the strings that end with a 0 within MAX_CHECK bytes, where
  -- check_addr accepts every address up to that 0 for reading.
  pub check_string_iff : (check_string m byte addr u ≡ true) ↔ EndsWithin max_check 0
  unfolding check_string
  check_string_iff = check_chars_iff max_check 0
