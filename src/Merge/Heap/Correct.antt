-- ===== src/Merge/Heap/Correct.antt =====
-- bpe_merge_symbols_by_rank_slice of src/bpe/mod.rs and its callers compute byte-pair merging, for
-- every length.
use supergigatoken.Base.{
  ℕ, zero, suc, ◌+◌, ◌*◌, ◌-◌, ◌≤◌, ◌<◌, ◌≡◌, refl, sym, ap, ◌∙◌, inl, inr, true, some, List, [],
  ◌∷◌, Pair, Bytes, All, ltb, leb, Bool-cases, arith, length, map, lookup, pair_eq,
}
use supergigatoken.Merge.Spec.{Table, max_rank, Merges, done}
use supergigatoken.Merge.Links.{Array, Links, update, slice, array_of, compact}
use supergigatoken.Merge.Links.Invariant.{first, elem, Chain, Chain-lt}
use supergigatoken.Merge.Links.Symbols.{compact_lem, compact_end, compact_round}
use supergigatoken.Merge.Small.Body.{iota, map-iota}
use supergigatoken.Merge.Small.Correct.{small_slice-Merges, length-iota, first-iota}
use supergigatoken.Merge.Heap.{
  HeapLinks, no_link, start_heap, heap_survivors, heap_merge, bpe_merge_symbols_by_rank_slice,
  truncated, bpe_merge_symbols_by_rank, rank_or_max, map_rank, bpe_merge_symbols_with_scratch,
  bpe_merge_symbols, simple_bpe_merge,
}
use supergigatoken.Merge.Heap.Invariant.{IsHeaped}
use supergigatoken.Merge.Heap.Start.{start_ghost, start_heap-IsHeaped, length-seeds}
use supergigatoken.Merge.Heap.Loop.{heap_loop-IsHeapMerged}

-- Links that agree on the live positions compact the same.
compact-agree :
    (rank : Table) (g : Links) (next : Array) (fuel : ℕ) (ps : List ℕ) (p pr write : ℕ) (f : Array)
    → Chain rank no_link g pr (p ∷ ps)
    → ((j : ℕ) → elem j (p ∷ ps) ≡ true → next j ≡ g.next j)
    → compact next no_link fuel f write p ≡ compact g.next no_link fuel f write p
unfolding compact
compact-agree rank g next zero ps p pr write f c same = refl
compact-agree rank g next (suc fuel) [] p pr write f c same =
    let other : Links = record { sym = g.sym; next = next; prev = g.prev; ranks = g.ranks } in
    let here : next p ≡ g.next p = same p (ground arith) in
    compact_round rank no_link other fuel p write f (omega (arith, c.3))
    ∙ rw (here, c.1)
        (compact_end rank no_link other fuel (write + 1) (update f write (f p))
          ∙ sym (compact_end rank no_link g fuel (write + 1) (update f write (f p))))
    ∙ sym (compact_round rank no_link g fuel p write f (omega (arith, c.3)))
compact-agree rank g next (suc fuel) (q ∷ qs) p pr write f c same =
    let other : Links = record { sym = g.sym; next = next; prev = g.prev; ranks = g.ranks } in
    let here : next p ≡ g.next p = same p (ground arith) in
    let lt : p < no_link = Chain-lt rank no_link g p pr (q ∷ qs) c in
    compact_round rank no_link other fuel p write f lt
    ∙ rw (here, c.1)
        (compact-agree rank g next fuel qs q p (write + 1) (update f write (f p)) c.4
          (λ j e. same j (ground arith)))
    ∙ sym (compact_round rank no_link g fuel p write f lt)

heaped_compact :
    (rank : Table) (s : HeapLinks) (g : Links) (live entries : List ℕ) (n : ℕ)
    → IsHeaped rank s g live entries
    → first no_link live ≡ 0
    → length live ≤ n
    → (h : Array) × (k : ℕ) × (compact s.next no_link n s.sym 0 0 ≡ (h, k))
      × (slice h 0 k ≡ map g.sym live)
heaped_compact rank s g [] entries n h z le = absurd (omega (arith, z))
heaped_compact rank s g (p ∷ ps) entries n h z le =
    let chain = h.linked.chain in
    let (f, run, written, kept) =
      compact_lem rank no_link g n ps p no_link 0 g.sym chain (omega arith) (λ j le'. refl) le in
    let agree = compact-agree rank g s.next n ps p no_link 0 s.sym chain h.next_live in
    let agree_zero : compact s.next no_link n s.sym 0 0 ≡ compact g.next no_link n s.sym 0 p =
      ap (λ x. compact s.next no_link n s.sym 0 x) (sym z) ∙ agree in
    (
      f,
      length (p ∷ ps),
      agree_zero
          ∙ ap (λ x. compact g.next no_link n x 0 p) h.same_sym
          ∙ run
          ∙ ap {B = Array × ℕ} (λ w. (f, w)) (omega arith),
      written,
    )

module _ (rank : Table) (bounded : (a b : ℕ) → rank a b ≤ max_rank) (symbols : Array) where
  heap_merge-Merges :
      (n : ℕ)
      → 2 ≤ n
      → n ≤ no_link
      → (h : Array) × (k : ℕ) × (heap_merge rank symbols n ≡ some (h, k))
        × Merges rank rank (slice symbols 0 n) (slice h 0 k)
  unfolding heap_merge heap_survivors
  heap_merge-Merges n two le =
      let heaped = start_heap-IsHeaped rank symbols n (omega arith) le in
      let seeded : length (start_heap rank symbols n).heap ≤ n - 1 =
        unfold start_heap in length-seeds rank symbols (n - 1) 0 in
      let m =
        heap_loop-IsHeapMerged rank bounded (n * 3) n (start_heap rank symbols n)
          (start_ghost rank symbols n) (iota n 0) heaped (first-iota n no_link two)
          (omega (arith, length-iota n 0)) (omega (arith, seeded, length-iota n 0)) in
      let (h, k, run, written) =
        heaped_compact rank m.final m.ghost m.live m.final.heap n m.heaped m.from_zero m.short in
      let input : map (start_ghost rank symbols n).sym (iota n 0) ≡ slice symbols 0 n =
        unfold start_ghost in map-iota rank symbols 0 (omega arith) n 0 in
      (h, k, rw m.returns (ap some run), rw (← input, written) m.merged)

  short-Merges : (n : ℕ) → n < 2 → Merges rank rank (slice symbols 0 n) (slice symbols 0 n)
  short-Merges zero lt = done tt
  short-Merges (suc zero) lt = done tt
  short-Merges (suc (suc n)) lt = absurd (omega arith)

  -- For fewer than 2^32 symbols and every table of 32-bit ranks the merge by rank returns: the first
  -- `k` elements of the array that it leaves are what byte-pair merging makes of the first `n`
  -- elements of the input.
  pub bpe_merge_symbols_by_rank_slice-Merges :
      (n : ℕ)
      → n ≤ no_link
      → (h : Array) × (k : ℕ) × (bpe_merge_symbols_by_rank_slice rank symbols n ≡ some (h, k))
        × Merges rank rank (slice symbols 0 n) (slice h 0 k)
  unfolding bpe_merge_symbols_by_rank_slice
  bpe_merge_symbols_by_rank_slice-Merges n le = elim (Bool-cases (ltb n 2)) [
    | inl t ↦
        (symbols, n, rw (bpe_merge_symbols_by_rank_slice, t) refl, short-Merges n (ground arith))
    | inr t ↦ elim (Bool-cases (leb n 32)) [
      | inl t' ↦
          let (h, k, run, m) = small_slice-Merges rank symbols n (ground arith) (ground arith) in
          (h, k, rw (bpe_merge_symbols_by_rank_slice, t, t') run, m)
      | inr t' ↦
          let (h, k, run, m) = heap_merge-Merges n (ground arith) le in
          (h, k, rw (bpe_merge_symbols_by_rank_slice, t, t') run, m)
    ]
  ]

slice-suc :
    (x : ℕ) (xs : List ℕ) (i k : ℕ) → slice (array_of (x ∷ xs)) (suc i) k ≡ slice (array_of xs) i k
slice-suc x xs i zero = refl
slice-suc x xs i (suc k) =
    let next : suc i + 1 ≡ suc (i + 1) = omega arith in rw (next, slice-suc x xs (i + 1) k) refl

slice-array_of : (xs : List ℕ) → slice (array_of xs) 0 (length xs) ≡ xs
slice-array_of [] = refl
slice-array_of (x ∷ xs) = rw (slice-suc x xs 0 (length xs), slice-array_of xs) refl

map_rank-le :
    (merges : List (Pair × ℕ)) (a b : ℕ)
    → All (λ entry. entry.1 ≤ max_rank) merges
    → map_rank merges a b ≤ max_rank
unfolding map_rank rank_or_max lookup
map_rank-le [] a b h = omega arith
map_rank-le ((p, m) ∷ merges) a b h = ground (arith, map_rank-le merges a b h.1, h.0)

-- If the merged tokens are 32-bit numbers, then for every pretoken of fewer than 2^32 bytes
-- `simple_bpe_merge` returns what byte-pair merging by the map makes of its bytes.
pub simple_bpe_merge-Merges :
    (merges : List (Pair × ℕ)) (pre_token : Bytes)
    → All (λ entry. entry.1 ≤ max_rank) merges
    → length pre_token ≤ max_rank
    → (tokens : List ℕ) × (simple_bpe_merge merges pre_token ≡ some tokens)
      × Merges (map_rank merges) (map_rank merges) pre_token tokens
unfolding simple_bpe_merge bpe_merge_symbols bpe_merge_symbols_with_scratch
    bpe_merge_symbols_by_rank truncated
simple_bpe_merge-Merges merges pre_token ids le =
    let (h, k, run, m) =
      bpe_merge_symbols_by_rank_slice-Merges (map_rank merges) (λ a b. map_rank-le merges a b ids)
        (array_of pre_token) (length pre_token) le in
    (slice h 0 k, rw (run) refl, rw (slice-array_of pre_token) at m)
