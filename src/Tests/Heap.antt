-- ===== src/Tests/Heap.antt =====
-- Runs of the heap merge of src/bpe/mod.rs.
use supergigatoken.Base.{
  ℕ, ◌≡◌, ◌≤◌, refl, Option, some, none, List, [], ◌∷◌, Pair, ◌==◌, if◌then◌else◌, lookup, pair_eq,
  arith,
}
use supergigatoken.Merge.Spec.{Table, max_rank, Merges}
use supergigatoken.Merge.Links.{Array, slice, array_of}
use supergigatoken.Merge.Heap.{
  heap_merge, map_rank, bpe_merge_symbols_by_rank_slice, simple_bpe_merge, pop_min,
}
use supergigatoken.Merge.Heap.Correct.{
  bpe_merge_symbols_by_rank_slice-Merges, simple_bpe_merge-Merges,
}

-- 1 and 2 make 10, 10 and 1 make 20, 20 and 2 make 15.
abbrev merges : List (Pair × ℕ)
merges = ((1, 2), 10) ∷ ((10, 1), 20) ∷ ((20, 2), 15) ∷ []

abbrev kept : Option (Array × ℕ) → List ℕ
kept none = []
kept (some (h, k)) = slice h 0 k

-- The entry of the second pair is stale when it is popped.
heap_run :
    kept (heap_merge (map_rank merges) (array_of (2 ∷ 1 ∷ 2 ∷ 1 ∷ 1 ∷ [])) 5) ≡ 2 ∷ 20 ∷ 1 ∷ []
unfolding heap_merge map_rank lookup pop_min
heap_run = refl

bytes_run : simple_bpe_merge merges (1 ∷ 2 ∷ 1 ∷ 2 ∷ []) ≡ some (10 ∷ 10 ∷ [])
unfolding simple_bpe_merge map_rank lookup
bytes_run = refl

-- Equal symbols merge.
abbrev doubling : Table
doubling a b = if a == b then 7 else max_rank

doubling-le : (a b : ℕ) → doubling a b ≤ max_rank
doubling-le a b = ground arith

bpe_merge_symbols_by_rank_slice-Merges_example :
    (h : Array) × (k : ℕ) × (bpe_merge_symbols_by_rank_slice doubling (λ i. 5) 40 ≡ some (h, k))
    × Merges doubling doubling (slice (λ i. 5) 0 40) (slice h 0 k)
bpe_merge_symbols_by_rank_slice-Merges_example =
    bpe_merge_symbols_by_rank_slice-Merges doubling doubling-le (λ i. 5) 40 (omega arith)

simple_bpe_merge-Merges_example :
    (tokens : List ℕ) × (simple_bpe_merge merges (1 ∷ 2 ∷ 1 ∷ 2 ∷ []) ≡ some tokens)
    × Merges (map_rank merges) (map_rank merges) (1 ∷ 2 ∷ 1 ∷ 2 ∷ []) tokens
simple_bpe_merge-Merges_example =
    simple_bpe_merge-Merges merges (1 ∷ 2 ∷ 1 ∷ 2 ∷ [])
      (omega arith, (omega arith, (omega arith, tt))) (omega arith)
