-- ===== src/Train/Words.antt =====
-- src/bpe_train.rs: words, the count of their pairs, and the merge of one pair in one word. A closure
-- that records changes is the list of its calls, in order. `isize` counts are integers with no bound.
pub mod Update
pub mod Text
use supergigatoken.Base.{
  ℕ, ◌+◌, Bool, true, false, Option, none, some, List, [], ◌∷◌, ◌++◌, Pair, pair_beq, ◌==◌, ◌&&◌,
  if◌then◌else◌, lookup, insert, pair_eq,
}
use supergigatoken.Base.Int.{ℤ, pos, neg, ◌+ℤ◌}

pub record Word : Type 0 where
  pub symbols : List ℕ
  pub word_count : ℤ

-- A call `record_changes(pair, change)`.
abbrev pub Change : Type 0
Change = Pair × ℤ

abbrev pub Counts : Type 0
Counts = List (Pair × ℤ)

count_of : Option ℤ → ℤ
count_of none = pos 0
count_of (some n) = n

-- `*map.entry(pair).or_insert(0) += change`
unfoldable pub add_count : Pair → ℤ → Counts → Counts
unfolding count_of
add_count pair change m = insert pair (count_of (lookup pair m) +ℤ change) m

-- The `for i in 0..len - 1` loop of `count_pairs` over one word.
unfoldable pub count_word : ℤ → List ℕ → Counts → Counts
unfolding add_count
count_word count [] m = m
count_word count (x ∷ []) m = m
count_word count (x ∷ y ∷ xs) m = count_word count (y ∷ xs) (add_count (x, y) count m)

unfoldable pub count_pairs_from : List Word → Counts → Counts
unfolding count_word
count_pairs_from [] m = m
count_pairs_from (w ∷ words) m = count_pairs_from words (count_word w.word_count w.symbols m)

unfoldable pub count_pairs : List Word → Counts
unfolding count_pairs_from
count_pairs words = count_pairs_from words []

-- The changes at the left neighbour of a merge, if there is one.
unfoldable pub left_changes : Pair → ℕ → ℤ → Option ℕ → List Change
left_changes pair new count none = []
left_changes pair new count (some l) = ((l, pair.0), neg count) ∷ ((l, new), count) ∷ []

-- The changes at the right neighbour, the head of what follows the pair.
unfoldable pub right_changes : Pair → ℕ → ℤ → List ℕ → List Change
right_changes pair new count [] = []
right_changes pair new count (r ∷ rest) = ((pair.1, r), neg count) ∷ ((new, r), count) ∷ []

-- The `while` loop: `left` is `symbols[i - 1]`, the list `symbols[i..]`. The results are the symbols
-- from `i` on and the recorded changes.
unfoldable pub update_from : Pair → ℕ → ℤ → Option ℕ → List ℕ → List ℕ × List Change
unfolding left_changes right_changes
update_from pair new count left [] = ([], [])
update_from pair new count left (x ∷ []) = (x ∷ [], [])
update_from pair new count left (x ∷ y ∷ rest) = elim (x == pair.0 && y == pair.1) [
  | true ↦
      let r = update_from pair new count (some new) rest in
      (new ∷ r.0, left_changes pair new count left ++ right_changes pair new count rest ++ r.1)
  | false ↦ let r = update_from pair new count (some x) (y ∷ rest) in (x ∷ r.0, r.1)
]

-- `update_word`; `none` is the panic on a word with no symbol, whose `len() - 1` underflows.
unfoldable pub update_word : Word → Pair → ℕ → Option (Word × List Change)
unfolding update_from
update_word w pair new = update_symbols w.symbols
  where
    update_symbols : List ℕ → Option (Word × List Change)
    update_symbols [] = none
    update_symbols (x ∷ xs) =
        let r = update_from pair new w.word_count none (x ∷ xs) in
        some (record w { symbols = r.0 }, r.1)
