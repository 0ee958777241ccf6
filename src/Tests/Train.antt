-- ===== src/Tests/Train.antt =====
-- src/bpe_train.rs on a word with two occurrences of a pair, and on a line of ten bytes whose last
-- characters take two bytes each.
use supergigatoken.Base.{
  ℕ, suc, ◌+◌, ◌==◌, ◌≡◌, refl, some, List, [], ◌∷◌, Bytes, arith, Pair, pair_beq, if◌then◌else◌,
  length, concat,
}
use supergigatoken.Base.Int.{pos, negsuc, neg, ◌+ℤ◌, times}
use supergigatoken.Train.Words.{Word, Change, update_word}
use supergigatoken.Train.Words.Update.{net, weight, update_word-net}
use supergigatoken.Train.Words.Text.{text, Lacks, update_word-text}
use supergigatoken.Train.Units.{line_units}
use supergigatoken.Train.Units.Cover.{Covers, line_units-cover}

abbrev word : Word
word = record { symbols = 5 ∷ 1 ∷ 2 ∷ 6 ∷ 1 ∷ 2 ∷ []; word_count = pos 3 }

abbrev pair : Pair
pair = (1, 2)

abbrev spelling : ℕ → Bytes
spelling n = if n == 9 then 97 ∷ 98 ∷ [] else (n + 96) ∷ []

update_run :
    update_word word pair 9
    ≡ some (
      record { symbols = 5 ∷ 9 ∷ 6 ∷ 9 ∷ []; word_count = pos 3 },
      ((5, 1), negsuc 2)
          ∷ ((5, 9), pos 3)
          ∷ ((2, 6), negsuc 2)
          ∷ ((9, 6), pos 3)
          ∷ ((6, 1), negsuc 2)
          ∷ ((6, 9), pos 3)
          ∷ [],
    )
unfolding update_word neg
update_run = refl

-- The pair 1 1 in three equal symbols: a negative change of the merged pair itself is recorded.
self_pair_change :
    update_word (record { symbols = 1 ∷ 1 ∷ 1 ∷ []; word_count = pos 1 }) (1, 1) 9
    ≡ some (
      record { symbols = 9 ∷ 1 ∷ []; word_count = pos 1 },
      ((1, 1), negsuc 0) ∷ ((9, 1), pos 1) ∷ [],
    )
unfolding update_word neg
self_pair_change = refl

update_word-net_example :
    (w' : Word) × (changes : List Change) × (k : ℕ) × (update_word word pair 9 ≡ some (w', changes))
    × (length word.symbols ≡ length w'.symbols + k)
    × (weight (9, 6) (pos 3) w'.symbols +ℤ times k (if pair_beq pair (9, 6) then pos 3 else pos 0)
        ≡ weight (9, 6) (pos 3) word.symbols +ℤ net (9, 6) changes)
update_word-net_example = update_word-net word pair 9 (9, 6) (λ e. ground arith)

update_word-text_example :
    (w' : Word) × (changes : List Change) × (update_word word pair 9 ≡ some (w', changes))
    × (text spelling w'.symbols ≡ text spelling word.symbols)
    × Lacks pair w'.symbols
update_word-text_example =
    update_word-text word pair 9 spelling (λ e. ground arith) refl (omega arith) (omega arith)

abbrev line : Bytes
line = 97 ∷ 98 ∷ 99 ∷ 195 ∷ 169 ∷ 195 ∷ 169 ∷ []

units_run : line_units line 4 8 0 ≡ some ((97 ∷ 98 ∷ 99 ∷ []) ∷ (195 ∷ 169 ∷ 195 ∷ 169 ∷ []) ∷ [])
unfolding line_units
units_run = refl

-- A cap below the width of a character.
cut_character : line_units (195 ∷ 169 ∷ []) 1 3 0 ≡ some ((195 ∷ []) ∷ (169 ∷ []) ∷ [])
unfolding line_units
cut_character = refl

line_units-cover_example :
    (units : List Bytes) × (line_units line 4 (suc (length line)) 0 ≡ some units)
    × Covers line 4 0 units
    × (concat units ≡ line)
line_units-cover_example = line_units-cover line 4 (omega arith)
