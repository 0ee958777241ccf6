-- ===== src/Train/Learn/Second/Words.antt =====
-- The words of the second stage of src/bpe_train.rs: units encoded by the merges of the first stage,
-- with symbols of its vocabulary.
use supergigatoken.Base.{
  ℕ, suc, ◌+◌, ◌≤◌, ◌<◌, ◌≡◌, refl, ◌∙◌, inl, inr, true, Option, none, some, List, [], ◌∷◌, ◌++◌,
  Bytes, Pair, All, All-append, Bool-cases, length, length-set, set, ltb, lookup, insert, pair_eq,
  bytes_eq, bytes_beq, arith,
}
use supergigatoken.Merge.Spec.{Table, max_rank, Merges, done, step}
use supergigatoken.Merge.Heap.{map_rank, rank_or_max}
use supergigatoken.Merge.Heap.Correct.{simple_bpe_merge-Merges}
use supergigatoken.Train.Words.{Word}
use supergigatoken.Train.Units.{UnitCounts}
use supergigatoken.Train.Learn.Changes.{All-left, All-right}
use supergigatoken.Train.Learn.Index.{All-insert}
use supergigatoken.Train.Learn.Update.{All-mono}
use supergigatoken.Train.Learn.Seeds.{IsSeed}
use supergigatoken.Train.Learn.Second.{
  fill_symbols, or_insert, ids_of, insert_merge, merge_map, push_encoded, seed_units,
}
use supergigatoken.Train.Learn.Second.Counts.{IsCountedUnit}
use mathlib.Core.Path.{subst}

-- Merging keeps symbols below `n` if the merged tokens are.
Merges-below :
    (rank : Table) (n : ℕ) (xs ys : List ℕ)
    → ((a b : ℕ) → rank a b < max_rank → rank a b < n)
    → Merges rank rank xs ys
    → All (λ x. x < n) xs
    → All (λ x. x < n) ys
Merges-below rank n xs _ below (done h) k = k
Merges-below rank n xs ys below (step left a b right e best m) k =
    let all : All (λ x. x < n) (left ++ a ∷ b ∷ right) = subst (All (λ x. x < n)) e k in
    let tail = All-right (λ x. x < n) left (a ∷ b ∷ right) all in
    Merges-below rank n (left ++ rank a b ∷ right) ys below m (
      All-append (λ x. x < n) left (rank a b ∷ right)
        (All-left (λ x. x < n) left (a ∷ b ∷ right) all) (below a b best.merges, tail.1.1))

module _ (n : ℕ) where
  map_rank-below :
      (merges : List (Pair × ℕ)) (a b : ℕ)
      → All (λ entry. entry.1 < n) merges
      → map_rank merges a b < max_rank
      → map_rank merges a b < n
  unfolding map_rank rank_or_max lookup
  map_rank-below [] a b h lt = absurd (omega arith)
  map_rank-below ((p, m) ∷ merges) a b h lt = ground (arith, map_rank-below merges a b h.1, h.0)

  lookup-below :
      (k : Bytes) (ids : List (Bytes × ℕ)) (v : ℕ)
      → lookup k ids ≡ some v
      → All (λ entry. entry.1 < n) ids
      → v < n
  unfolding lookup
  lookup-below k [] v e h = absurd (ground arith)
  lookup-below k ((j, w) ∷ ids) v e h = elim (Bool-cases (bytes_beq j k)) [
    | inl t ↦
        let found : some w ≡ some v = rw (t, lookup) at e in
        let same : w ≡ v = cc in rw (← same) h.0
    | inr t ↦ lookup-below k ids v (rw (t, lookup) at e) h.1
  ]

  insert-below :
      (k : Bytes) (v : ℕ) (ids : List (Bytes × ℕ))
      → v < n
      → All (λ entry. entry.1 < n) ids
      → All (λ entry. entry.1 < n) (insert k v ids)
  unfolding insert
  insert-below k v [] lt h = (lt, tt)
  insert-below k v ((j, w) ∷ ids) lt h = elim (Bool-cases (bytes_beq j k)) [
    | inl t ↦ rw (t, insert) (lt, h.1)
    | inr t ↦ rw (t, insert) (h.0, insert-below k v ids lt h.1)
  ]

  or_insert-below :
      (k : Bytes) (v : ℕ) (o : Option ℕ) (ids : List (Bytes × ℕ))
      → v < n
      → All (λ entry. entry.1 < n) ids
      → All (λ entry. entry.1 < n) (or_insert k v o ids)
  unfolding or_insert
  or_insert-below k v none ids lt h = insert-below k v ids lt h
  or_insert-below k v (some w) ids lt h = h

  pub ids_of-below :
      (id : ℕ) (symbols : List Bytes) (ids : List (Bytes × ℕ))
      → id + length symbols ≤ n
      → All (λ entry. entry.1 < n) ids
      → All (λ entry. entry.1 < n) (ids_of id symbols ids)
  unfolding ids_of
  ids_of-below id [] ids le h = h
  ids_of-below id (s ∷ symbols) ids le h =
      ids_of-below (suc id) symbols (or_insert s id (lookup s ids) ids) (omega arith)
        (or_insert-below s id (lookup s ids) ids (omega arith) h)

  insert_merge-below :
      (li ri mi : Option ℕ) (m : List (Pair × ℕ))
      → ((v : ℕ) → mi ≡ some v → v < n)
      → All (λ entry. entry.1 < n) m
      → All (λ entry. entry.1 < n) (insert_merge li ri mi m)
  unfolding insert_merge
  insert_merge-below (some l) (some r) (some v) m f h =
      All-insert (λ entry. entry.1 < n) (l, r) v m (f v refl) h
  insert_merge-below none ri mi m f h = h
  insert_merge-below (some l) none mi m f h = h
  insert_merge-below (some l) (some r) none m f h = h

  pub merge_map-below :
      (ids : List (Bytes × ℕ)) (merges : List (Bytes × Bytes)) (m : List (Pair × ℕ))
      → All (λ entry. entry.1 < n) ids
      → All (λ entry. entry.1 < n) m
      → All (λ entry. entry.1 < n) (merge_map ids merges m)
  unfolding merge_map
  merge_map-below ids [] m h k = k
  merge_map-below ids ((l, r) ∷ merges) m h k =
      merge_map-below ids merges
        (insert_merge (lookup l ids) (lookup r ids) (lookup (l ++ r) ids) m) h
        (insert_merge-below (lookup l ids) (lookup r ids) (lookup (l ++ r) ids) m
          (λ v e. lookup-below (l ++ r) ids v e h) k)

  push_encoded-IsSeed :
      (encoded : List ℕ) (count : ℕ) (words : List Word)
      → All (λ x. x < n) encoded
      → 0 < count
      → All (IsSeed n) words
      → All (IsSeed n) (push_encoded encoded count words)
  unfolding push_encoded
  push_encoded-IsSeed [] count words h lt k = k
  push_encoded-IsSeed (t ∷ encoded) count words h lt k = ((h, ground arith), k)

  -- Every unit is encoded, with symbols below `n`.
  pub seed_units-IsSeed :
      (merges : List (Pair × ℕ)) (units : UnitCounts) (cap : ℕ)
      → 256 ≤ n
      → n ≤ max_rank
      → cap ≤ max_rank
      → All (λ entry. entry.1 < n) merges
      → All (IsCountedUnit (λ b. b < 256) cap) units
      → (words : List Word) × (seed_units merges units ≡ some words) × All (IsSeed n) words
  unfolding seed_units
  seed_units-IsSeed merges [] cap le small short h k = ([], refl, tt)
  seed_units-IsSeed merges ((u, count) ∷ units) cap le small short h k =
      let (tokens, run, m) =
        simple_bpe_merge-Merges merges u
          (All-mono (λ entry. entry.1 < n) (λ entry. entry.1 ≤ max_rank) (λ e lt. omega arith)
            merges h)
          (omega (arith, k.0.1)) in
      let below =
        Merges-below (map_rank merges) n u tokens (λ a b lt. map_rank-below merges a b h lt) m
          (All-mono (λ b. b < 256) (λ b. b < n) (λ b lt. omega arith) u k.0.0) in
      let (words, run', seeds) = seed_units-IsSeed merges units cap le small short h k.1 in
      (
        push_encoded tokens count words,
        rw (seed_units, run, run') refl,
        push_encoded-IsSeed tokens count words below k.0.2 seeds,
      )

pub fill_symbols-some :
    (vocab : List (ℕ × Bytes)) (symbols : List Bytes)
    → All (λ entry. entry.0 < length symbols) vocab
    → (filled : List Bytes) × (fill_symbols vocab symbols ≡ some filled)
      × (length filled ≡ length symbols)
unfolding fill_symbols
fill_symbols-some [] symbols h = (symbols, refl, refl)
fill_symbols-some ((id, s) ∷ vocab) symbols h =
    let same = length-set symbols id s in
    let inside : ltb id (length symbols) ≡ true = ground (arith, h.0) in
    let (filled, run, long) = fill_symbols-some vocab (set symbols id s) (
      All-mono (λ entry. entry.0 < length symbols) (λ entry. entry.0 < length (set symbols id s))
        (λ e lt. omega (arith, same)) vocab h.1) in
    (filled, rw (fill_symbols, inside) run, long ∙ same)
