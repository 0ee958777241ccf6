-- ===== src/Tests/Padding.antt =====
-- src/bindings/padding.rs on the sequences 1 2 3 and 4 with the special tokens 8 and 9.
use supergigatoken.Base.{
  ℕ, ◌^◌, ◌≡◌, refl, Bool, true, false, Option, some, none, List, [], ◌∷◌, arith,
}
use supergigatoken.Padding.{
  PadTruncate, ok, panic, value_err, truncate_requires_max_length, leaves_no_room, too_long,
  pad_truncate_matrix,
}
use supergigatoken.Padding.Matrix.{
  IsAllocatable, fixed, fitted, IsOutcome, pad_truncate_matrix-IsOutcome, total,
}

abbrev options : Option ℕ → Bool → Bool → Bool → PadTruncate
options limit pad truncate left = record {
  pad_id = 0;
  max_length = limit;
  pad_to_max_length = pad;
  truncate = truncate;
  pad_left = left;
  truncate_left = left;
  prefix = 8 ∷ [];
  suffix = 9 ∷ [];
}

abbrev flat : List ℕ
flat = 1 ∷ 2 ∷ 3 ∷ 4 ∷ []

abbrev counts : List ℕ
counts = 3 ∷ 1 ∷ []

longest_run :
    pad_truncate_matrix flat counts (options none false false false)
    ≡ ok (8 ∷ 1 ∷ 2 ∷ 3 ∷ 9 ∷ 8 ∷ 4 ∷ 9 ∷ 0 ∷ 0 ∷ [], 5 ∷ 3 ∷ [], 5)
unfolding pad_truncate_matrix
longest_run = refl

left_run :
    pad_truncate_matrix flat counts (options (some 4) true true true)
    ≡ ok (8 ∷ 2 ∷ 3 ∷ 9 ∷ 0 ∷ 8 ∷ 4 ∷ 9 ∷ [], 4 ∷ 3 ∷ [], 4)
unfolding pad_truncate_matrix
left_run = refl

errors :
    (pad_truncate_matrix flat counts (options none false true false)
      ≡ value_err truncate_requires_max_length)
    × (pad_truncate_matrix flat counts (options (some 1) false true false)
        ≡ value_err (leaves_no_room 1 2))
    × (pad_truncate_matrix flat counts (options (some 4) true false false)
        ≡ value_err (too_long 5 4))
unfolding pad_truncate_matrix
errors = (refl, refl, refl)

-- Rows of 2^62 ids: one is too large for an allocation, and four wrap to an empty matrix.
huge_runs :
    (pad_truncate_matrix (1 ∷ []) (1 ∷ []) (options (some (2 ^ 62)) true false false) ≡ panic)
    × (pad_truncate_matrix [] (0 ∷ 0 ∷ 0 ∷ 0 ∷ []) (options (some (2 ^ 62)) true false false)
        ≡ ok ([], 2 ∷ 2 ∷ 2 ∷ 2 ∷ [], 2 ^ 62))
unfolding pad_truncate_matrix
huge_runs = (refl, refl)

four_wide-IsAllocatable : IsAllocatable counts (options (some 4) true true true)
four_wide-IsAllocatable cap width has (fixed pad given long) =
    let four : width ≡ 4 = ground (arith, given) in omega (arith, four)
four_wide-IsAllocatable cap width has (fitted pad same) = absurd (cc)

pad_truncate_matrix-IsOutcome_example :
    IsOutcome flat counts
      (options (some 4) true true true)
      (pad_truncate_matrix flat counts (options (some 4) true true true))
unfolding total
pad_truncate_matrix-IsOutcome_example =
    pad_truncate_matrix-IsOutcome flat counts (options (some 4) true true true) (omega arith)
      four_wide-IsAllocatable
