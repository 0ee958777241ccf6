-- ===== src/Train/Units/Weight.antt =====
-- The counts of relaxed_unit_counts of src/bpe_train.rs: every byte of the documents but the newlines
-- is counted in one unit.
use supergigatoken.Base.{
  ℕ, ◌+◌, ◌*◌, ◌≡◌, Option, some, List, [], ◌∷◌, Bytes, ◌==◌, if◌then◌else◌, length, bytes_eq,
}
use supergigatoken.Train.Units.{UnitCounts}

-- The bytes of the counted units, each as often as it is counted.
unfoldable pub weight : UnitCounts → ℕ
weight [] = 0
weight ((u, count) ∷ units) = length u * count + weight units

unfoldable pub total_length : List Bytes → ℕ
total_length [] = 0
total_length (s ∷ ss) = length s + total_length ss

-- The bytes that are not newlines.
unfoldable pub letters : Bytes → ℕ
letters [] = 0
letters (b ∷ s) = (if b == 10 then 0 else 1) + letters s

unfoldable pub total_letters : List Bytes → ℕ
total_letters [] = 0
total_letters (doc ∷ docs) = letters doc + total_letters docs

-- A pass returns and adds `n` to the weight.
abbrev pub Adds : UnitCounts → ℕ → Option UnitCounts → Type 0
Adds m n r = (m' : UnitCounts) × (r ≡ some m') × (weight m' ≡ n + weight m)
