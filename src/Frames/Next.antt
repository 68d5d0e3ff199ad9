-- ===== src/Frames/Next.antt =====
-- The search of `get_frame` for the next free frame.
use yalnix_os.Common.{
  ℕ, zero, suc, ◌+◌, ◌-◌, ◌≤◌, ◌<◌, ◌≡◌, refl, List, Bool, true, false, ltb, arith, Bool-cases, inl,
  inr, ◌==◌, ==_iff,
}
use yalnix_os.Frames.{get_bit, next_free}

module _ (base : ℕ) (bits : List ℕ) (size : ℕ) where
  -- From `p` to `r` all frames are taken, and `r` is free or behind the last.
  pub record IsNext (p r : ℕ) : Type 0 where
    pub from : p ≤ r
    pub taken : (j : ℕ) → p ≤ j + base → j + base < r → get_bit bits j ≡ true
    pub within : r ≤ base + size
    pub free : r < base + size → get_bit bits (r - base) ≡ false

  -- The first frame of a run, and the frames behind it.
  taken_from :
      {p r : ℕ} (j : ℕ) (t : Bool)
      → (p == j + base) ≡ t
      → get_bit bits (p - base) ≡ true
      → p ≤ j + base
      → (p + 1 ≤ j + base → j + base < r → get_bit bits j ≡ true)
      → j + base < r
      → get_bit bits j ≡ true
  taken_from {p} j true e on a rest b =
      let q : j ≡ p - base = omega (arith, (==_iff p (j + base)).0 e) in rw q on
  taken_from {p} j false e on a rest b = rest (ground arith) b

  -- With fuel for every frame left the loop ends by its test.
  pub next_free-IsNext :
      (k p : ℕ)
      → base ≤ p
      → p ≤ base + size
      → base + size < k + p
      → IsNext p (next_free base k bits size p)
  unfolding next_free
  next_free-IsNext zero p lo hi f = absurd (omega arith)
  next_free-IsNext (suc k) p lo hi f = elim (Bool-cases (get_bit bits (p - base))) [
    | inr off ↦ rw off (record {
      from = omega arith;
      taken = λ j a b. absurd (omega arith);
      within = hi;
      free = λ _. off;
    })
    | inl on ↦ elim (Bool-cases (ltb (p - base) size)) [
      | inr done ↦
          rw (on, done)
            (record {
              from = omega arith;
              taken = λ j a b. absurd (omega arith);
              within = hi;
              free = λ b. absurd (ground arith);
            })
      | inl more ↦
          let r = next_free-IsNext k (p + 1) (omega arith) (ground arith) (omega arith) in
          rw (on, more)
            (record {
              from = omega (arith, r.from);
              taken = λ j a b. taken_from j (p == j + base) refl on a (r.taken j) b;
              within = r.within;
              free = r.free;
            })
    ]
  ]

  -- All frames below `a` are taken, and `a` is free or behind the last.
  pub record IsFirstFree (a : ℕ) : Type 0 where
    pub low : base ≤ a
    pub high : a ≤ base + size
    pub before : (j : ℕ) → j + base < a → get_bit bits j ≡ true
    pub next : a < base + size → get_bit bits (a - base) ≡ false
