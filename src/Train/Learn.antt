-- ===== src/Train/Learn.antt =====
-- src/bpe_train.rs: the learning of merges. `contained_in_words` maps a pair to the set of the words
-- that hold it, in ascending order. The changes of a round are recorded word by word, as the loop of
-- one thread does it. The priority queue of the library priority_queue is a parameter.
pub mod Queue
pub mod Changes
pub mod Index
pub mod Update
pub mod Loop
pub mod Choose
pub mod Keep
pub mod Run
pub mod Start
pub mod Seeds
pub mod Lookup
pub mod Cells
pub mod Stage
pub mod Second
use supergigatoken.Base.{
  ℕ, zero, suc, ◌+◌, ◌-◌, Bool, true, false, ◌||◌, ◌&&◌, not, Option, none, some, List, [], ◌∷◌,
  ◌++◌, Bytes, Pair, pair_beq, ltb, leb, ◌==◌, if◌then◌else◌, length, get_elem?, set, map, lookup,
  insert, pair_eq,
}
use supergigatoken.Base.Int.{ℤ, pos, ltb_ℤ}
use supergigatoken.Train.Words.{Word, Change, Counts, add_count, count_pairs, update_word}
use supergigatoken.Train.Learn.Queue.{PriorityQueue}

-- `BTreeSet::insert`
unfoldable pub set_insert : ℕ → List ℕ → List ℕ
set_insert i [] = i ∷ []
set_insert i (j ∷ js) =
    if i == j then j ∷ js else if ltb i j then i ∷ j ∷ js else j ∷ set_insert i js

-- `BTreeSet::append`
unfoldable pub set_append : List ℕ → List ℕ → List ℕ
unfolding set_insert
set_append [] s = s
set_append (i ∷ is) s = set_append is (set_insert i s)

abbrev pub Index : Type 0
Index = List (Pair × List ℕ)

abbrev pub or_default : Option (List ℕ) → List ℕ
or_default none = []
or_default (some s) = s

-- `map.entry(pair).or_default().insert(i)`
unfoldable pub add_index : Pair → ℕ → Index → Index
unfolding set_insert
add_index pair i m = insert pair (set_insert i (or_default (lookup pair m))) m

-- `count_changes` and `contained_updates`.
pub record Updates : Type 0 where
  pub counts : Counts
  pub contained : Index

-- The closure `count_changes` for the word `i`.
unfoldable pub record_change : ℕ → Change → Updates → Updates
unfolding add_index
record_change i (pair, change) u = record {
  counts = add_count pair change u.counts;
  contained = if ltb_ℤ (pos 0) change then add_index pair i u.contained else u.contained;
}

unfoldable pub record_changes : ℕ → List Change → Updates → Updates
unfolding record_change
record_changes i [] u = u
record_changes i (ch ∷ chs) u = record_changes i chs (record_change i ch u)

-- `update_word` on the word `i`; `none` stands for a panic or an index out of bounds.
unfoldable pub update_at : Pair → ℕ → ℕ → List Word → Updates → Option (List Word × Updates)
unfolding record_changes
update_at pair new i words u = elim (get_elem? words i) [
  | none ↦ none
  | some w ↦ elim (update_word w pair new) [
    | none ↦ none
    | some (w', changes) ↦ some (set words i w', record_changes i changes u)
  ]
]

unfoldable pub update_each : Pair → ℕ → List ℕ → List Word → Updates → Option (List Word × Updates)
unfolding update_at
update_each pair new [] words u = some (words, u)
update_each pair new (i ∷ is) words u = elim (update_at pair new i words u) [
  | none ↦ none
  | some (words', u') ↦ update_each pair new is words' u'
]

-- The loop over `contained_updates`.
unfoldable pub merge_index : Index → Index → Index
unfolding set_append
merge_index [] m = m
merge_index ((pair, s) ∷ updates) m =
    merge_index updates (insert pair (set_append s (or_default (lookup pair m))) m)

unfoldable pub update_words : List Word → Index → Pair → ℕ → Option (List Word × Index × Counts)
unfolding update_each merge_index
update_words words contained pair new = elim (lookup pair contained) [
  | none ↦ none
  | some idcs ↦ elim (update_each pair new idcs words (record { counts = []; contained = [] })) [
    | none ↦ none
    | some (words', u) ↦ some (words', merge_index u.contained contained, u.counts)
  ]
]

-- A string of Latin-1 characters is the list of them; strings compare as these lists do.
unfoldable pub assemble_token : ℕ → List Bytes → Option (List ℕ)
assemble_token token symbols = get_elem? symbols token

pub data TieBreaking : Type 0 where
  hugging_face raw_token_ids assembled_bytes : TieBreaking

-- The bytes of printable characters.
abbrev pub is_allowed : ℕ → Bool
is_allowed b = leb 33 b && leb b 126 || leb 161 b && leb b 172 || leb 174 b && leb b 255

-- The loop that fills `byte_to_cp`, from the byte `b` on with `n` bytes remapped before it.
unfoldable pub byte_to_cp : ℕ → ℕ → ℕ → List (ℕ × ℕ)
byte_to_cp zero b n = []
byte_to_cp (suc k) b n =
    if is_allowed b
    then (b, b) ∷ byte_to_cp k (suc b) n
    else (b, 256 + n) ∷ byte_to_cp k (suc b) (suc n)

-- `sort_by_key` on bytes with their keys, which is stable.
unfoldable pub insert_by_key : ℕ × ℕ → List (ℕ × ℕ) → List (ℕ × ℕ)
insert_by_key (b, key) [] = (b, key) ∷ []
insert_by_key (b, key) ((b', key') ∷ xs) =
    if ltb key' key then (b', key') ∷ insert_by_key (b, key) xs else (b, key) ∷ (b', key') ∷ xs

unfoldable pub sort_by_key : List (ℕ × ℕ) → List (ℕ × ℕ)
unfolding insert_by_key
sort_by_key [] = []
sort_by_key (x ∷ xs) = insert_by_key x (sort_by_key xs)

unfoldable pub number_from : ℕ → List (ℕ × ℕ) → List (ℕ × ℕ)
number_from i [] = []
number_from i ((b, key) ∷ xs) = (b, i) ∷ number_from (suc i) xs

-- From a byte to its rank.
unfoldable pub build_byte_to_hf_rank : List (ℕ × ℕ)
unfolding byte_to_cp sort_by_key number_from
build_byte_to_hf_rank = number_from 0 (sort_by_key (byte_to_cp 256 0 0))
