-- ===== src/Merge/Small/Correct.antt =====
-- The small merges of src/bpe/mod.rs compute byte-pair merging: from the array at the call to the
-- compacted array.
use supergigatoken.Base.{
  ℕ, zero, suc, ◌+◌, ◌≤◌, ◌≡◌, refl, ◌∙◌, ap, arith, List, [], ◌∷◌, map, some, length,
}
use supergigatoken.Merge.Spec.{Table, Merges}
use supergigatoken.Merge.Links.{Array, Links, slice, compact}
use supergigatoken.Merge.Links.Invariant.{first, Chain, Chain-length}
use supergigatoken.Merge.Links.Symbols.{compact_lem}
use supergigatoken.Merge.Small.{
  start, merge_pair, short_pair, merge_loop, survivors, bpe_merge_symbols_small_slice,
  bpe_merge_symbols_short_scalar,
}
use supergigatoken.Merge.Small.Body.{
  iota, merge_pair-IsUnlinked, short_pair-IsUnlinked, Unlinks, start-IsLinked, map-iota,
}
use supergigatoken.Merge.Small.Loop.{loop-IsMerged}

-- The compaction of a linked state that starts at position 0.
pub compact_live :
    (rank : Table) (n : ℕ) (s : Links) (live : List ℕ) (pr : ℕ)
    → 2 ≤ n
    → Chain rank n s pr live
    → first n live ≡ 0
    → (h : Array) × (k : ℕ) × (compact s.next n n s.sym 0 0 ≡ (h, k))
      × (slice h 0 k ≡ map s.sym live)
compact_live rank n s [] pr two c z = absurd (omega arith)
compact_live rank n s (p ∷ ps) pr two c z =
    let (h, run, written, kept) =
      compact_lem rank n s n ps p pr 0 s.sym c (omega arith) (λ j le. refl)
        (omega (arith, Chain-length rank n s p pr ps c)) in
    (h, length (p ∷ ps), (rw z at run) ∙ ap {B = Array × ℕ} (λ w. (h, w)) (omega arith), written)

pub length-iota : (k i : ℕ) → length (iota k i) ≡ k
length-iota zero i = refl
length-iota (suc k) i = ap suc (length-iota k (i + 1))

pub first-iota : (k n : ℕ) → 2 ≤ k → first n (iota k 0) ≡ 0
first-iota zero n h = absurd (omega arith)
first-iota (suc k) n h = refl

module _ (rank : Table) (n : ℕ) (body : Links → ℕ → ℕ → Links) (unlinks : Unlinks rank n body)
    (symbols : Array) (two : 2 ≤ n) (small : n ≤ 32) where
  run-Merges :
      (h : Array) × (k : ℕ) × (survivors n (merge_loop body n n (start rank symbols n))
        ≡ some (h, k))
      × Merges rank rank (slice symbols 0 n) (slice h 0 k)
  unfolding survivors
  run-Merges =
      let linked = start-IsLinked rank symbols n small in
      let m =
        loop-IsMerged rank n body unlinks n (start rank symbols n) (iota n 0) 255 two linked
          (first-iota n n two) (omega (arith, length-iota n 0)) in
      let (h, k, run, written) =
        compact_live rank n m.final m.live m.before_first two m.linked.chain m.from_zero in
      let input : map (start rank symbols n).sym (iota n 0) ≡ slice symbols 0 n =
        unfold start in map-iota rank symbols n small n 0 in
      (h, k, rw m.returns (ap some run), rw (← input, written) m.merged)

-- For 2 to 32 symbols and every rank table the small merge returns: the first `k` elements of the
-- array that it leaves are what byte-pair merging makes of the first `n` elements of the input.
pub small_slice-Merges :
    (rank : Table) (symbols : Array) (n : ℕ)
    → 2 ≤ n
    → n ≤ 32
    → (h : Array) × (k : ℕ) × (bpe_merge_symbols_small_slice rank symbols n ≡ some (h, k))
      × Merges rank rank (slice symbols 0 n) (slice h 0 k)
unfolding bpe_merge_symbols_small_slice
small_slice-Merges rank symbols n two small =
    run-Merges rank n (merge_pair rank n) (merge_pair-IsUnlinked rank n) symbols two small

-- For 2 to 15 symbols and every rank table the short scalar merge returns: the first `k` elements of
-- the array that it leaves are what byte-pair merging makes of the first `n` elements of the input.
pub short_scalar-Merges :
    (rank : Table) (symbols : Array) (n : ℕ)
    → 2 ≤ n
    → n ≤ 15
    → (h : Array) × (k : ℕ) × (bpe_merge_symbols_short_scalar rank symbols n ≡ some (h, k))
      × Merges rank rank (slice symbols 0 n) (slice h 0 k)
unfolding bpe_merge_symbols_short_scalar
short_scalar-Merges rank symbols n two small =
    run-Merges rank n (short_pair rank n) (short_pair-IsUnlinked rank n) symbols two (omega arith)
