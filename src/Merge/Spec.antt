-- ===== src/Merge/Spec.antt =====
-- Byte-pair merging as a relation on symbol lists: while some adjacent pair has a rank below the
-- sentinel `u32::MAX`, the leftmost pair of the least rank is replaced by its merged token.
-- `rank` and `token` are the two readings of the merge table of src/bpe/mod.rs.
use supergigatoken.Base.{ℕ, ◌-◌, ◌^◌, ◌≤◌, ◌<◌, ◌≡◌, List, [], ◌∷◌, ◌++◌}

abbrev pub max_rank : ℕ
max_rank = 2 ^ 32 - 1

-- A table from pairs of tokens to numbers.
abbrev pub Table : Type 0
Table = ℕ → ℕ → ℕ

-- Every adjacent pair of the list has a rank that satisfies `P`.
abbrev pub AllPairs : Table → (ℕ → Type 0) → List ℕ → Type 0
AllPairs rank P [] = Unit
AllPairs rank P (x ∷ []) = Unit
AllPairs rank P (x ∷ y ∷ xs) = P (rank x y) × AllPairs rank P (y ∷ xs)

-- The pair `a b` between `left` and `right` is the leftmost of the least rank.
pub record IsBest (rank : Table) (left : List ℕ) (a b : ℕ) (right : List ℕ) : Type 0 where
  pub merges : rank a b < max_rank
  pub above : AllPairs rank (λ r. rank a b < r) (left ++ a ∷ [])
  pub least : AllPairs rank (λ r. rank a b ≤ r) (b ∷ right)

-- The list `ys` is what merging makes of `xs`.
pub data Merges (rank token : Table) : List ℕ → List ℕ → Type 0 where
  done : {xs : List ℕ} → AllPairs rank (λ r. max_rank ≤ r) xs → Merges rank token xs xs
  step :
      {xs ys : List ℕ} (left : List ℕ) (a b : ℕ) (right : List ℕ)
      → xs ≡ left ++ a ∷ b ∷ right
      → IsBest rank left a b right
      → Merges rank token (left ++ token a b ∷ right) ys
      → Merges rank token xs ys
