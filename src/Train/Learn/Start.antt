-- ===== src/Train/Learn/Start.antt =====
-- src/bpe_train.rs: the maps from pairs to words that the two stages start from, and train_bpe.
use supergigatoken.Base.{
  ℕ, zero, suc, Option, none, some, List, [], ◌∷◌, ◌++◌, Bytes, Pair, pair_beq, if◌then◌else◌,
  insert, pair_eq,
}
use supergigatoken.Base.Int.{pos}
use supergigatoken.Train.Words.{Word}
use supergigatoken.Train.Learn.{Index, add_index, set_append, TieBreaking}
use supergigatoken.Train.Learn.Queue.{PriorityQueue}
use supergigatoken.Train.Learn.Loop.{run_merges}

-- The loop over the pairs of one word of build_contained_in_words.
unfoldable pub index_word : ℕ → List ℕ → Index → Index
unfolding add_index
index_word i [] m = m
index_word i (x ∷ []) m = m
index_word i (x ∷ y ∷ xs) m = index_word i (y ∷ xs) (add_index (x, y) i m)

unfoldable pub index_words : ℕ → List Word → Index → Index
unfolding index_word
index_words i [] m = m
index_words i (w ∷ words) m = index_words (suc i) words (index_word i w.symbols m)

unfoldable pub build_contained_in_words : List Word → Index
unfolding index_words
build_contained_in_words words = index_words 0 words []

-- `contained_in_words_arr`, the table of the words of each pair of bytes.
abbrev pub Cells : Type 0
Cells = Pair → List ℕ

unfoldable pub push_cell : Pair → ℕ → Cells → Cells
push_cell pair i cells p = if pair_beq pair p then cells p ++ i ∷ [] else cells p

unfoldable pub cells_of_word : ℕ → List ℕ → Cells → Cells
unfolding push_cell
cells_of_word i [] cells = cells
cells_of_word i (x ∷ []) cells = cells
cells_of_word i (x ∷ y ∷ xs) cells = cells_of_word i (y ∷ xs) (push_cell (x, y) i cells)

-- The closure of the `map` over the counts: the words, and the table.
unfoldable pub seed_words : ℕ → List (Bytes × ℕ) → Cells → List Word × Cells
unfolding cells_of_word
seed_words i [] cells = ([], cells)
seed_words i ((word, count) ∷ counts) cells =
    let r = seed_words (suc i) counts (cells_of_word i word cells) in
    (record { symbols = word; word_count = pos count } ∷ r.0, r.1)

unfoldable pub insert_cell : Pair → List ℕ → Index → Index
unfolding set_append
insert_cell p [] m = m
insert_cell p (i ∷ is) m = insert p (set_append (i ∷ is) []) m

-- The loop over `(0..256).cartesian_product(0..256)`: the pairs `(i, 0)` to `(i, k - 1)`, and the rows
-- before `n`.
unfoldable pub collect_row : Cells → ℕ → ℕ → Index → Index
unfolding insert_cell
collect_row cells i zero m = m
collect_row cells i (suc k) m = insert_cell (i, k) (cells (i, k)) (collect_row cells i k m)

unfoldable pub collect_rows : Cells → ℕ → Index → Index
unfolding collect_row
collect_rows cells zero m = m
collect_rows cells (suc n) m = collect_row cells n 256 (collect_rows cells n m)

unfoldable pub raw_bytes : ℕ → List Bytes
raw_bytes zero = []
raw_bytes (suc n) = raw_bytes n ++ (n ∷ []) ∷ []

unfoldable pub enumerate : ℕ → List Bytes → List (ℕ × Bytes)
enumerate i [] = []
enumerate i (s ∷ ss) = (i, s) ∷ enumerate (suc i) ss

pub record BpeResult : Type 0 where
  pub vocab : List (ℕ × Bytes)
  pub merges : List (Bytes × Bytes)

unfoldable pub train_bpe :
    (pq : PriorityQueue) → List (Bytes × ℕ) → ℕ → List Bytes → TieBreaking → Option BpeResult
unfolding seed_words collect_rows raw_bytes enumerate run_merges
train_bpe pq counts vocab_size special_tokens tie =
    let seeded = seed_words 0 counts (λ p. []) in
    elim (run_merges pq seeded.0 (collect_rows seeded.1 256 []) (raw_bytes 256 ++ special_tokens)
      vocab_size tie) [
        | none ↦ none
        | some l ↦ some (record { vocab = enumerate 0 l.symbols; merges = l.merges })
      ]
