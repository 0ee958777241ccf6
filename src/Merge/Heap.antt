-- ===== src/Merge/Heap.antt =====
-- bpe_merge_symbols_by_rank_slice of src/bpe/mod.rs and its callers: byte-pair merging with a heap of
-- candidates, for more than 32 symbols. The heap of the standard library is a list whose least entry
-- is popped.
pub mod Pop
pub mod Invariant
pub mod Step
pub mod Loop
pub mod Start
pub mod Correct
use supergigatoken.Base.{
  ℕ, zero, suc, ◌+◌, ◌*◌, ◌-◌, ◌%◌, ◌/◌, ◌^◌, Bool, true, false, Option, none, some, List, [], ◌∷◌,
  ◌++◌, Bytes, Pair, ltb, leb, ◌==◌, if◌then◌else◌, length, lookup, pair_eq,
}
use supergigatoken.Merge.Spec.{Table, max_rank}
use supergigatoken.Merge.Links.{Array, update, slice, array_of, compact}
use supergigatoken.Merge.Small.{bpe_merge_symbols_small_slice}

-- `NONE`
abbrev pub no_link : ℕ
no_link = max_rank

unfoldable pub pack_merge_entry : ℕ → ℕ → ℕ
pack_merge_entry merged pos = merged * 2 ^ 32 + pos

-- `BinaryHeap::pop` on reversed entries: the least entry and the others.
unfoldable pub pop_min : List ℕ → Option (ℕ × List ℕ)
pop_min [] = none
pop_min (x ∷ xs) = elim (pop_min xs) [
  | none ↦ some (x, [])
  | some (y, ys) ↦ if leb x y then some (x, xs) else some (y, x ∷ ys)
]

pub record HeapLinks : Type 0 where
  pub sym : Array
  pub next : Array
  pub prev : Array
  pub heap : List ℕ

-- An entry for the pair at `pos`, if it merges.
unfoldable pub push_entry : ℕ → ℕ → List ℕ → List ℕ
unfolding pack_merge_entry
push_entry merged pos heap = if merged == max_rank then heap else pack_merge_entry merged pos ∷ heap

-- The loop over the initial pairs, `k` of them from `i` on.
unfoldable pub seeds : Table → Array → ℕ → ℕ → List ℕ
unfolding push_entry
seeds rank sym i zero = []
seeds rank sym i (suc k) = push_entry (rank (sym i) (sym (i + 1))) i (seeds rank sym (i + 1) k)

unfoldable pub start_heap : Table → Array → ℕ → HeapLinks
unfolding seeds
start_heap rank sym n = record {
  sym = sym;
  next = λ i. if ltb (i + 1) n then i + 1 else no_link;
  prev = λ i. if i == 0 then no_link else i - 1;
  heap = seeds rank sym 0 (n - 1);
}

-- The merge of the pair at `pos` and `right`, with the entries for its neighbours.
unfoldable pub merge_at : Table → HeapLinks → ℕ → ℕ → ℕ → HeapLinks
unfolding push_entry
merge_at rank s merged pos right =
    let sym = update s.sym pos merged in
    let right_right = s.next right in
    let linked = update s.next pos right_right in
    let prev = if right_right == no_link then s.prev else update s.prev right_right pos in
    let next = update linked right no_link in
    let left = prev pos in
    let heap =
      if left == no_link then s.heap else push_entry (rank (sym left) (sym pos)) left s.heap in
    record {
      sym = sym;
      next = next;
      prev = prev;
      heap =
          if next pos == no_link
          then heap
          else push_entry (rank (sym pos) (sym (next pos))) pos heap;
    }

-- A round of the loop: the entry that was popped, and the state with the others.
unfoldable pub heap_round : Table → HeapLinks → ℕ → HeapLinks
unfolding merge_at
heap_round rank s entry =
    let pos = entry % 2 ^ 32 in
    let right = s.next pos in
    if right == no_link
    then s
    else if rank (s.sym pos) (s.sym right) == entry / 2 ^ 32
    then merge_at rank s (rank (s.sym pos) (s.sym right)) pos right
    else s

-- The `while let` loop on fuel; `none` means that the fuel ran out.
unfoldable pub heap_loop : Table → ℕ → HeapLinks → Option HeapLinks
unfolding pop_min heap_round
heap_loop rank zero s = none
heap_loop rank (suc fuel) s = elim (pop_min s.heap) [
  | none ↦ some s
  | some (entry, heap) ↦ heap_loop rank fuel (heap_round rank (record s { heap = heap }) entry)
]

heap_survivors : ℕ → Option HeapLinks → Option (Array × ℕ)
heap_survivors n none = none
heap_survivors n (some s) = some (compact s.next no_link n s.sym 0 0)

-- The part for more than 32 symbols. A round removes an entry or a symbol and adds at most two
-- entries, so three rounds for each symbol are enough.
unfoldable pub heap_merge : Table → Array → ℕ → Option (Array × ℕ)
unfolding start_heap heap_loop heap_survivors compact
heap_merge rank sym n = heap_survivors n (heap_loop rank (n * 3) (start_heap rank sym n))

abbrev pub small_merge_max : ℕ
small_merge_max = 32

unfoldable pub bpe_merge_symbols_by_rank_slice : Table → Array → ℕ → Option (Array × ℕ)
unfolding heap_merge bpe_merge_symbols_small_slice
bpe_merge_symbols_by_rank_slice rank sym n =
    if ltb n 2
    then some (sym, n)
    else if leb n small_merge_max
    then bpe_merge_symbols_small_slice rank sym n
    else heap_merge rank sym n

truncated : Option (Array × ℕ) → Option (List ℕ)
truncated none = none
truncated (some (sym, kept)) = some (slice sym 0 kept)

unfoldable pub bpe_merge_symbols_by_rank : Table → List ℕ → Option (List ℕ)
unfolding bpe_merge_symbols_by_rank_slice truncated
bpe_merge_symbols_by_rank rank symbols =
    truncated (bpe_merge_symbols_by_rank_slice rank (array_of symbols) (length symbols))

unfoldable pub rank_or_max : Option ℕ → ℕ
rank_or_max none = max_rank
rank_or_max (some m) = m

-- `merges.get(&(a, b)).map_or(u32::MAX, |m| m.0)`
unfoldable pub map_rank : List (Pair × ℕ) → Table
unfolding rank_or_max
map_rank merges a b = rank_or_max (lookup (a, b) merges)

unfoldable pub bpe_merge_symbols_with_scratch : List (Pair × ℕ) → List ℕ → Option (List ℕ)
unfolding bpe_merge_symbols_by_rank map_rank
bpe_merge_symbols_with_scratch merges symbols = bpe_merge_symbols_by_rank (map_rank merges) symbols

unfoldable pub bpe_merge_symbols : List (Pair × ℕ) → List ℕ → Option (List ℕ)
unfolding bpe_merge_symbols_with_scratch
bpe_merge_symbols merges symbols = bpe_merge_symbols_with_scratch merges symbols

unfoldable pub simple_bpe_merge : List (Pair × ℕ) → Bytes → Option (List ℕ)
unfolding bpe_merge_symbols
simple_bpe_merge merges pre_token = bpe_merge_symbols merges pre_token
