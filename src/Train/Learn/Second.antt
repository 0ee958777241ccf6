-- ===== src/Train/Learn/Second.antt =====
-- src/bpe_train.rs: train_superbpe_stage2, the second stage of the training.
pub mod Counts
pub mod Words
pub mod Spell
pub mod Result
use supergigatoken.Base.{
  ℕ, zero, suc, ◌+◌, Bool, true, false, Option, none, some, List, [], ◌∷◌, ◌++◌, Bytes, Pair, ltb,
  length, set, replicate, lookup, insert, pair_eq, bytes_eq,
}
use supergigatoken.Base.Int.{pos}
use supergigatoken.Merge.Heap.{simple_bpe_merge}
use supergigatoken.Train.Words.{Word}
use supergigatoken.Train.Units.{UnitCounts, relaxed_unit_counts}
use supergigatoken.Train.Learn.{TieBreaking}
use supergigatoken.Train.Learn.Queue.{PriorityQueue}
use supergigatoken.Train.Learn.Loop.{run_merges}
use supergigatoken.Train.Learn.Start.{build_contained_in_words, enumerate, BpeResult}

-- `symbols[id as usize] = token_bytes` for each entry; `none` is the panic out of range.
unfoldable pub fill_symbols : List (ℕ × Bytes) → List Bytes → Option (List Bytes)
fill_symbols [] symbols = some symbols
fill_symbols ((id, token_bytes) ∷ vocab) symbols = elim (ltb id (length symbols)) [
  | false ↦ none
  | true ↦ fill_symbols vocab (set symbols id token_bytes)
]

-- `bytes_to_id.entry(bytes).or_insert(id)`
unfoldable pub or_insert : Bytes → ℕ → Option ℕ → List (Bytes × ℕ) → List (Bytes × ℕ)
or_insert bytes id none m = insert bytes id m
or_insert bytes id (some other) m = m

-- The ids of the symbols from `id` on.
unfoldable pub ids_of : ℕ → List Bytes → List (Bytes × ℕ) → List (Bytes × ℕ)
unfolding or_insert
ids_of id [] m = m
ids_of id (bytes ∷ symbols) m = ids_of (suc id) symbols (or_insert bytes id (lookup bytes m) m)

unfoldable pub insert_merge : Option ℕ → Option ℕ → Option ℕ → List (Pair × ℕ) → List (Pair × ℕ)
insert_merge (some li) (some ri) (some mi) m = insert (li, ri) mi m
insert_merge none ri mi m = m
insert_merge (some li) none mi m = m
insert_merge (some li) (some ri) none m = m

-- The loop over the merges of the first stage.
unfoldable pub merge_map :
    List (Bytes × ℕ) → List (Bytes × Bytes) → List (Pair × ℕ) → List (Pair × ℕ)
unfolding insert_merge
merge_map ids [] m = m
merge_map ids ((left, right) ∷ merges) m =
    merge_map ids merges
      (insert_merge (lookup left ids) (lookup right ids) (lookup (left ++ right) ids) m)

unfoldable pub push_encoded : List ℕ → ℕ → List Word → List Word
push_encoded [] count words = words
push_encoded (t ∷ encoded) count words =
    record { symbols = t ∷ encoded; word_count = pos count } ∷ words

-- The loop over the units.
unfoldable pub seed_units : List (Pair × ℕ) → UnitCounts → Option (List Word)
unfolding simple_bpe_merge push_encoded
seed_units merges [] = some []
seed_units merges ((unit, count) ∷ units) = elim (simple_bpe_merge merges unit) [
  | none ↦ none
  | some encoded ↦ elim (seed_units merges units) [
    | none ↦ none
    | some words ↦ some (push_encoded encoded count words)
  ]
]

-- `symbols` are those of the first stage.
unfoldable pub resume :
    (pq : PriorityQueue) → List Bytes → BpeResult → UnitCounts → ℕ → TieBreaking → Option BpeResult
unfolding ids_of merge_map seed_units build_contained_in_words run_merges enumerate
resume pq symbols stage1 units target_vocab_size tie =
    elim (seed_units (merge_map (ids_of 0 symbols []) stage1.merges []) units) [
      | none ↦ none
      | some words ↦
          elim (run_merges pq words (build_contained_in_words words) symbols target_vocab_size
            tie) [
              | none ↦ none
              | some l ↦
                  some
                    (record { vocab = enumerate 0 l.symbols; merges = stage1.merges ++ l.merges })
            ]
    ]

unfoldable pub train_superbpe_stage2 :
    (pq : PriorityQueue)
    → (Bytes → Bytes → List ℕ)
    → Bytes
    → Bytes
    → BpeResult
    → ℕ
    → TieBreaking
    → ℕ
    → Option BpeResult
unfolding fill_symbols relaxed_unit_counts resume
train_superbpe_stage2 pq find_iter corpus separator stage1 target_vocab_size tie max_unit_len =
    elim (fill_symbols stage1.vocab (replicate (length stage1.vocab) [])) [
      | none ↦ none
      | some symbols ↦ elim (relaxed_unit_counts find_iter corpus separator max_unit_len) [
        | none ↦ none
        | some units ↦ resume pq symbols stage1 units target_vocab_size tie
      ]
    ]
