-- ===== src/Merge/Small/Body.antt =====
-- The loop bodies of the small merges of src/bpe/mod.rs on the linked list, and the list that the
-- loop starts from.
use supergigatoken.Base.{
  ℕ, zero, suc, ◌+◌, ◌%◌, ◌≤◌, ◌<◌, ◌≡◌, ◌≢◌, refl, ◌⊎◌, false, arith, List, [], ◌∷◌, map,
}
use supergigatoken.Merge.Spec.{Table}
use supergigatoken.Merge.Links.{Array, Links, slice}
use supergigatoken.Merge.Links.Invariant.{elem, Chain, IsLinked, IsUnlinked}
use supergigatoken.Merge.Small.{start, merge_pair, short_pair}

-- The body of the loop unlinks the position behind `i`.
pub merge_pair-IsUnlinked :
    (rank : Table) (n : ℕ) (s : Links) (i d best : ℕ)
    → s.next i ≡ d
    → i ≢ d
    → s.prev i ≢ i
    → s.prev i ≢ d
    → s.next d ≢ i
    → IsUnlinked rank n s (merge_pair rank n s best i) i d best
unfolding merge_pair
merge_pair-IsUnlinked rank n s i d best e h1 h2 h3 h4 = record {
  sym_here = ground arith;
  sym_else = λ j h. ground arith;
  next_here = ground arith;
  next_else = λ j h. ground arith;
  prev_right = λ h. ground arith;
  prev_else = λ j h. ground arith;
  ranks_inner = λ h. ground arith;
  ranks_last = λ h. ground arith;
  ranks_left = λ h. ground arith;
  ranks_dead = ground arith;
  ranks_else = λ j p q r. ground arith;
}

-- Positions `i`, `i + 1`, …, `k` of them.
abbrev pub iota : ℕ → ℕ → List ℕ
iota zero i = []
iota (suc k) i = i ∷ iota k (i + 1)

module _ (rank : Table) (symbols : Array) (n : ℕ) (small : n ≤ 32) where
  pub start-Chain :
      (k i pr : ℕ)
      → i + k ≡ n
      → (i % 256 + 255) % 256 ≡ pr
      → Chain rank n (start rank symbols n) pr (iota k i)
  unfolding start
  start-Chain zero i pr e f = tt
  start-Chain (suc zero) i pr e f = (ground arith, ground arith, ground arith, ground arith, tt)
  start-Chain (suc (suc k)) i pr e f = (
    ground arith,
    ground arith,
    ground arith,
    ground arith,
    start-Chain (suc k) (i + 1) i (omega arith) (omega arith),
  )

  elem-iota : (k i j : ℕ) → elem j (iota k i) ≡ false → (j < i) ⊎ (i + k ≤ j)
  elem-iota zero i j h = omega arith
  elem-iota (suc k) i j h = ground (arith, elem-iota k (i + 1) j)

  pub map-iota : (k i : ℕ) → map symbols (iota k i) ≡ slice symbols i k
  map-iota zero i = refl
  map-iota (suc k) i = rw (map-iota k (i + 1))

  pub start-IsLinked : IsLinked rank n (start rank symbols n) 255 (iota n 0)
  unfolding start
  start-IsLinked = record {
    outside = omega arith;
    chain = start-Chain n 0 255 (omega arith) (omega arith);
    dead = λ j e. ground (arith, elem-iota n 0 j e);
  }

pub short_pair-IsUnlinked :
    (rank : Table) (n : ℕ) (s : Links) (i d best : ℕ)
    → s.next i ≡ d
    → i ≢ d
    → s.prev i ≢ i
    → s.prev i ≢ d
    → s.next d ≢ i
    → IsUnlinked rank n s (short_pair rank n s best i) i d best
unfolding short_pair
short_pair-IsUnlinked rank n s i d best e h1 h2 h3 h4 = record {
  sym_here = ground arith;
  sym_else = λ j h. ground arith;
  next_here = ground arith;
  next_else = λ j h. ground arith;
  prev_right = λ h. ground arith;
  prev_else = λ j h. ground arith;
  ranks_inner = λ h. ground arith;
  ranks_last = λ h. ground arith;
  ranks_left = λ h. ground arith;
  ranks_dead = ground arith;
  ranks_else = λ j p q r. ground arith;
}

-- What a loop's body has to do.
abbrev pub Unlinks : Table → ℕ → (Links → ℕ → ℕ → Links) → Type 0
Unlinks rank n body =
    (s : Links) (i d best : ℕ)
    → s.next i ≡ d
    → i ≢ d
    → s.prev i ≢ i
    → s.prev i ≢ d
    → s.next d ≢ i
    → IsUnlinked rank n s (body s best i) i d best
