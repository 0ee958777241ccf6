-- ===== src/Merge/Small/Agree.antt =====
-- The two small merges of src/bpe/mod.rs agree on the symbol counts that both accept.
use supergigatoken.Base.{ℕ, ◌≤◌, ◌≡◌, some, arith}
use supergigatoken.Merge.Spec.{Table}
use supergigatoken.Merge.Unique.{Merges-unique}
use supergigatoken.Merge.Links.{Array, slice}
use supergigatoken.Merge.Small.{bpe_merge_symbols_small_slice, bpe_merge_symbols_short_scalar}
use supergigatoken.Merge.Small.Correct.{small_slice-Merges, short_scalar-Merges}

-- For 2 to 15 symbols and every rank table both merges return, with the same surviving symbols.
pub small_slice-short_scalar :
    (rank : Table) (symbols : Array) (n : ℕ)
    → 2 ≤ n
    → n ≤ 15
    → (h h' : Array) × (k k' : ℕ) × (bpe_merge_symbols_small_slice rank symbols n ≡ some (h, k))
      × (bpe_merge_symbols_short_scalar rank symbols n ≡ some (h', k'))
      × (slice h 0 k ≡ slice h' 0 k')
small_slice-short_scalar rank symbols n two small =
    let (h, k, run, m) = small_slice-Merges rank symbols n two (omega arith) in
    let (h', k', run', m') = short_scalar-Merges rank symbols n two small in
    (h, h', k, k', run, run', Merges-unique rank rank _ _ _ m m')
