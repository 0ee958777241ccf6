-- ===== src/Merge/Heap/Start.antt =====
-- The state that the heap loop of src/bpe/mod.rs starts from.
use supergigatoken.Base.{
  ℕ, zero, suc, ◌+◌, ◌/◌, ◌-◌, ◌≤◌, ◌<◌, ◌≡◌, ◌≢◌, refl, inl, inr, ◌⊎◌, true, false, ◌==◌, ltb,
  if◌then◌else◌, Bool-cases, arith, length,
}
use supergigatoken.Merge.Spec.{Table, max_rank}
use supergigatoken.Merge.Links.{Array, Links}
use supergigatoken.Merge.Links.Invariant.{elem, Chain}
use supergigatoken.Merge.Small.Body.{iota}
use supergigatoken.Merge.Heap.{no_link, pack_merge_entry, seeds, start_heap}
use supergigatoken.Merge.Heap.Pop.{has_entry, push_entry-keeps, push_entry-here, push_entry-length}
use supergigatoken.Merge.Heap.Invariant.{IsHeaped}
use supergigatoken.Merge.Heap.Step.{real_push}

pub elem-iota : (k i j : ℕ) → elem j (iota k i) ≡ false → (j < i) ⊎ (i + k ≤ j)
elem-iota zero i j h = omega arith
elem-iota (suc k) i j h = ground (arith, elem-iota k (i + 1) j)

module _ (rank : Table) (symbols : Array) where
  seeds-has :
      (k i j : ℕ)
      → i ≤ j
      → j < i + k
      → rank (symbols j) (symbols (j + 1)) ≢ max_rank
      → has_entry (pack_merge_entry (rank (symbols j) (symbols (j + 1))) j) (seeds rank symbols i k)
        ≡ true
  unfolding seeds
  seeds-has zero i j le lt ne = absurd (omega arith)
  seeds-has (suc k) i j le lt ne = elim (Bool-cases (j == i)) [
    | inl t ↦
        let same : i ≡ j = ground arith in
        rw (seeds, same)
          (push_entry-here (rank (symbols j) (symbols (j + 1))) j (seeds rank symbols (j + 1) k) ne)
    | inr t ↦
        push_entry-keeps (rank (symbols i) (symbols (i + 1))) i _ (seeds rank symbols (i + 1) k)
          (seeds-has k (i + 1) j (ground arith) (omega arith) ne)
  ]

  seeds-real :
      (k i : ℕ)
      → i + k ≤ 4294967296
      → (x : ℕ) → has_entry x (seeds rank symbols i k) ≡ true
      → x / 4294967296 ≢ max_rank
  unfolding seeds
  seeds-real zero i le x e = absurd (ground arith)
  seeds-real (suc k) i le x e =
      real_push (rank (symbols i) (symbols (i + 1))) i (seeds rank symbols (i + 1) k) (omega arith)
        (seeds-real k (i + 1) (omega arith)) x e

  pub length-seeds : (k i : ℕ) → length (seeds rank symbols i k) ≤ k
  unfolding seeds
  length-seeds zero i = omega arith
  length-seeds (suc k) i = omega (
    arith,
    push_entry-length (rank (symbols i) (symbols (i + 1))) i (seeds rank symbols (i + 1) k),
    length-seeds k (i + 1),
  )

  -- The ghost: the ranks of the pairs, where the linear scan keeps them.
  unfoldable pub start_ghost : ℕ → Links
  start_ghost n = record {
    sym = symbols;
    next = λ i. if ltb (i + 1) n then i + 1 else no_link;
    prev = λ i. if i == 0 then no_link else i - 1;
    ranks = λ i. if ltb (i + 1) n then rank (symbols i) (symbols (i + 1)) else max_rank;
  }

  start_ghost-Chain :
      (n k i pr : ℕ)
      → n ≤ no_link
      → i + k ≡ n
      → (if i == 0 then no_link else i - 1) ≡ pr
      → Chain rank no_link (start_ghost n) pr (iota k i)
  unfolding start_ghost
  start_ghost-Chain n zero i pr le e f = tt
  start_ghost-Chain n (suc zero) i pr le e f = (f, ground arith, ground arith, ground arith, tt)
  start_ghost-Chain n (suc (suc k)) i pr le e f = (
    f,
    ground arith,
    ground arith,
    ground arith,
    start_ghost-Chain n (suc k) (i + 1) i le (omega arith) (ground arith),
  )

  pub start_heap-IsHeaped :
      (n : ℕ)
      → 1 ≤ n
      → n ≤ no_link
      → IsHeaped rank
          (start_heap rank symbols n)
          (start_ghost n)
          (iota n 0)
          (start_heap rank symbols n).heap
  unfolding start_heap start_ghost
  start_heap-IsHeaped n some_symbol le = record {
    same_sym = refl;
    same_prev = refl;
    next_live = λ j e. refl;
    next_dead = λ j e. ground (arith, elem-iota n 0 j e);
    held = λ j. elim (Bool-cases (ltb (j + 1) n)) [
      | inr t ↦ inl (rw t refl)
      | inl t ↦ elim (Bool-cases (rank (symbols j) (symbols (j + 1)) == max_rank)) [
        | inl t' ↦ inl (rw t (ground arith))
        | inr t' ↦ inr (rw t (seeds-has (n - 1) 0 j (omega arith) (ground arith) (ground arith)))
      ]
    ];
    real = seeds-real (n - 1) 0 (omega arith);
    linked = record {
      outside = omega arith;
      chain = start_ghost-Chain n n 0 no_link le (omega arith) refl;
      dead = λ j e. ground (arith, elem-iota n 0 j e);
    };
  }
