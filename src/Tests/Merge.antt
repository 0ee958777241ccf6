-- ===== src/Tests/Merge.antt =====
-- src/bpe/mod.rs on a table with the merges (1, 2) to 10 and (10, 3) to 11.
use supergigatoken.Base.{
  ℕ, ◌≡◌, refl, Option, some, none, List, [], ◌∷◌, arith, ◌==◌, ◌&&◌, if◌then◌else◌,
}
use supergigatoken.Merge.Spec.{Table, max_rank, Merges}
use supergigatoken.Merge.Links.{Array, array_of, slice}
use supergigatoken.Merge.Small.{bpe_merge_symbols_small_slice, bpe_merge_symbols_short_scalar}
use supergigatoken.Merge.Small.Correct.{small_slice-Merges, short_scalar-Merges}
use supergigatoken.Merge.Small.Agree.{small_slice-short_scalar}

abbrev rank : Table
rank a b = if a == 1 && b == 2 then 10 else if a == 10 && b == 3 then 11 else max_rank

abbrev symbols : Array
symbols = array_of (1 ∷ 2 ∷ 3 ∷ 1 ∷ 2 ∷ [])

abbrev survivors_of : Option (Array × ℕ) → List ℕ
survivors_of none = []
survivors_of (some (h, k)) = slice h 0 k

merges_run : survivors_of (bpe_merge_symbols_small_slice rank symbols 5) ≡ 11 ∷ 10 ∷ []
unfolding bpe_merge_symbols_small_slice
merges_run = refl

short_run : survivors_of (bpe_merge_symbols_short_scalar rank symbols 5) ≡ 11 ∷ 10 ∷ []
unfolding bpe_merge_symbols_short_scalar
short_run = refl

small_slice-Merges_example :
    (h : Array) × (k : ℕ) × (bpe_merge_symbols_small_slice rank symbols 5 ≡ some (h, k))
    × Merges rank rank (slice symbols 0 5) (slice h 0 k)
small_slice-Merges_example = small_slice-Merges rank symbols 5 (omega arith) (omega arith)

short_scalar-Merges_example :
    (h : Array) × (k : ℕ) × (bpe_merge_symbols_short_scalar rank symbols 5 ≡ some (h, k))
    × Merges rank rank (slice symbols 0 5) (slice h 0 k)
short_scalar-Merges_example = short_scalar-Merges rank symbols 5 (omega arith) (omega arith)

small_slice-short_scalar_example :
    (h h' : Array) × (k k' : ℕ) × (bpe_merge_symbols_small_slice rank symbols 5 ≡ some (h, k))
    × (bpe_merge_symbols_short_scalar rank symbols 5 ≡ some (h', k'))
    × (slice h 0 k ≡ slice h' 0 k')
small_slice-short_scalar_example =
    small_slice-short_scalar rank symbols 5 (omega arith) (omega arith)
