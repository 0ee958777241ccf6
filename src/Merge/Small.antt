-- ===== src/Merge/Small.antt =====
-- `bpe_merge_symbols_small_slice` of src/bpe/mod.rs: byte-pair merging by a linear scan for the
-- least rank, for at most 32 symbols.
pub mod Scan
pub mod Body
pub mod Loop
pub mod Correct
pub mod Agree
use supergigatoken.Base.{
  ℕ, zero, suc, ◌+◌, ◌-◌, ◌%◌, ◌≡◌, refl, Bool, true, false, Option, none, some, List, [], ◌∷◌, ltb,
  ◌==◌, if◌then◌else◌, length,
}
use supergigatoken.Merge.Spec.{Table, max_rank}
use supergigatoken.Merge.Links.{Array, update, slice, array_of, Links, compact}

-- The two `for` loops that fill the arrays; `u8` arithmetic wraps at 256.
unfoldable pub start : Table → Array → ℕ → Links
start rank sym n = record {
  sym = sym;
  next = λ i. if ltb i n then (i + 1) % 256 else 0;
  prev = λ i. if ltb i n then (i % 256 + 255) % 256 else 0;
  ranks = λ i. if ltb (i + 1) n then rank (sym i) (sym (i + 1)) else max_rank;
}

-- The scan `for (i, &rank) in ranks[..n - 1]`, with `k` entries left from `i` on.
unfoldable pub scan : Array → ℕ → ℕ → ℕ → ℕ → ℕ × ℕ
scan ranks zero i best best_i = (best, best_i)
scan ranks (suc k) i best best_i =
    scan ranks k (i + 1) (if ltb (ranks i) best then ranks i else best)
      (if ltb (ranks i) best then i else best_i)

-- The loop's body behind the scan: the pair at `i` becomes the token `best`.
unfoldable pub merge_pair : Table → ℕ → Links → ℕ → ℕ → Links
merge_pair rank n s best i =
    let sym = update s.sym i best in
    let dead = s.next i in
    let new_right = s.next dead in
    let next = update s.next i new_right in
    let unlinked = update s.ranks dead max_rank in
    let prev = if ltb new_right n then update s.prev new_right i else s.prev in
    let refreshed =
      update unlinked i (if ltb new_right n then rank (sym i) (sym new_right) else max_rank) in
    let left = prev i in
    record {
      sym = sym;
      next = next;
      prev = prev;
      ranks = if ltb left n then update refreshed left (rank (sym left) (sym i)) else refreshed;
    }

-- The same body in `bpe_merge_symbols_short_scalar`, which reads `left` before the list surgery. The
-- prefetches between have no effect.
unfoldable pub short_pair : Table → ℕ → Links → ℕ → ℕ → Links
short_pair rank n s best i =
    let dead = s.next i in
    let new_right = s.next dead in
    let left = s.prev i in
    let sym = update s.sym i best in
    let next = update s.next i new_right in
    let unlinked = update s.ranks dead max_rank in
    let refreshed =
      update unlinked i (if ltb new_right n then rank (sym i) (sym new_right) else max_rank) in
    record {
      sym = sym;
      next = next;
      prev = if ltb new_right n then update s.prev new_right i else s.prev;
      ranks = if ltb left n then update refreshed left (rank (sym left) (sym i)) else refreshed;
    }

-- The `loop` on fuel, over the loop's body; `none` means that the fuel ran out.
unfoldable pub merge_loop : (Links → ℕ → ℕ → Links) → ℕ → ℕ → Links → Option Links
unfolding scan
merge_loop body n zero s = none
merge_loop body n (suc fuel) s =
    let (best, best_i) = scan s.ranks (n - 1) 0 max_rank 0 in
    elim (best == max_rank) [ true ↦ some s | false ↦ merge_loop body n fuel (body s best best_i) ]

survivors : ℕ → Option Links → Option (Array × ℕ)
survivors n none = none
survivors n (some s) = some (compact s.next n n s.sym 0 0)

-- The array that the call leaves and the surviving count. One round removes one symbol, so `n`
-- rounds are enough.
unfoldable pub bpe_merge_symbols_small_slice : Table → Array → ℕ → Option (Array × ℕ)
unfolding start merge_pair merge_loop survivors compact
bpe_merge_symbols_small_slice rank sym n =
    survivors n (merge_loop (merge_pair rank n) n n (start rank sym n))

-- For fewer than 16 symbols, on the caller's array.
unfoldable pub bpe_merge_symbols_short_scalar : Table → Array → ℕ → Option (Array × ℕ)
unfolding start short_pair merge_loop survivors compact
bpe_merge_symbols_short_scalar rank sym n =
    survivors n (merge_loop (short_pair rank n) n n (start rank sym n))
