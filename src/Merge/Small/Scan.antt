-- ===== src/Merge/Small/Scan.antt =====
-- The linear scan of src/bpe/mod.rs finds the leftmost least rank.
use supergigatoken.Base.{
  ℕ, zero, suc, ◌+◌, ◌≤◌, ◌<◌, ◌≡◌, refl, sym, ◌⊎◌, inl, inr, ltb, arith, Bool-cases, ltb→lt,
  ltb→le,
}
use native.Mathlib.Decide.{ℕ_discrete}
use supergigatoken.Merge.Links.{Array}
use supergigatoken.Merge.Small.{scan}

-- The scan of `k` entries from `i` on, started at `best` and `best_i`, ends at `b` and `at`.
pub record IsScanned (ranks : Array) (i k best best_i b at : ℕ) : Type 0 where
  pub low : b ≤ best
  pub least : (j : ℕ) → i ≤ j → j < i + k → b ≤ ranks j
  pub found :
      ((b ≡ best) × (at ≡ best_i))
      ⊎ ((i ≤ at)
          × (at < i + k)
          × (ranks at ≡ b)
          × (b < best)
          × ((j : ℕ) → i ≤ j → j < at → b < ranks j))

module _ (ranks : Array) where
  least_cons :
      (i k b : ℕ)
      → b ≤ ranks i
      → ((j : ℕ) → i + 1 ≤ j → j < i + 1 + k → b ≤ ranks j)
      → (j : ℕ) → i ≤ j
      → j < i + suc k
      → b ≤ ranks j
  least_cons i k b here rest j p q = elim (ℕ_discrete j i) [
    | yes e ↦ rw e here
    | no e ↦ rest j (omega arith) (omega arith)
  ]

  above_cons :
      (i at b : ℕ)
      → b < ranks i
      → ((j : ℕ) → i + 1 ≤ j → j < at → b < ranks j)
      → (j : ℕ) → i ≤ j
      → j < at
      → b < ranks j
  above_cons i at b here rest j p q = elim (ℕ_discrete j i) [
    | yes e ↦ rw e here
    | no e ↦ rest j (omega arith) (omega arith)
  ]

  -- A new least entry at `i`.
  IsScanned-new :
      (i k best best_i b at : ℕ)
      → ranks i < best
      → IsScanned ranks (i + 1) k (ranks i) i b at
      → IsScanned ranks i (suc k) best best_i b at
  IsScanned-new i k best best_i b at h s = record {
    low = omega (arith, s.low);
    least = least_cons i k b s.low s.least;
    found = inr (elim s.found [
      | inl (e, f) ↦
          (omega arith, omega arith, rw f (sym e), omega arith, λ j p q. absurd (omega arith))
      | inr (p, q, r, t, u) ↦ (omega arith, omega arith, r, omega arith, above_cons i at b t u)
    ]);
  }

  IsScanned-old :
      (i k best best_i b at : ℕ)
      → best ≤ ranks i
      → IsScanned ranks (i + 1) k best best_i b at
      → IsScanned ranks i (suc k) best best_i b at
  IsScanned-old i k best best_i b at h s = record {
    low = s.low;
    least = least_cons i k b (omega (arith, s.low)) s.least;
    found = elim s.found [
      | inl e ↦ inl e
      | inr (p, q, r, t, u) ↦
          inr (omega arith, omega arith, r, t, above_cons i at b (omega arith) u)
    ];
  }

  pub scan-IsScanned :
      (k i best best_i : ℕ)
      → IsScanned ranks i k best best_i
          (scan ranks k i best best_i).0
          (scan ranks k i best best_i).1
  unfolding scan
  scan-IsScanned zero i best best_i = record {
    low = omega arith;
    least = λ j p q. absurd (omega arith);
    found = inl (refl, refl);
  }
  scan-IsScanned (suc k) i best best_i = elim (Bool-cases (ltb (ranks i) best)) [
    | inl e ↦
        rw (e, scan)
          (IsScanned-new i k best best_i _ _ (ltb→lt _ _ e) (scan-IsScanned k (i + 1) (ranks i) i))
    | inr e ↦
        rw (e, scan)
          (IsScanned-old i k best best_i _ _ (ltb→le _ _ e) (scan-IsScanned k (i + 1) best best_i))
  ]
