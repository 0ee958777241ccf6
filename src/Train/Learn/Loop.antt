-- ===== src/Train/Learn/Loop.antt =====
-- The merge loop of src/bpe_train.rs, run_merges, and the first stage of the training, train_bpe.
-- The outer loop runs on fuel, one round for each symbol that is missing; the loop over the tied
-- pairs runs on the length of the queue.
use supergigatoken.Base.{
  ℕ, zero, suc, ◌-◌, Bool, true, false, ◌||◌, ◌&&◌, not, Option, none, some, List, [], ◌∷◌, ◌++◌,
  Bytes, Pair, pair_beq, ltb, leb, ◌==◌, if◌then◌else◌, length, get_elem?, lookup, pair_eq, nat_eq,
}
use supergigatoken.Base.Int.{ℤ, ltb_ℤ}
use supergigatoken.Train.Words.{Word, Counts, count_pairs}
use supergigatoken.Train.Learn.Queue.{PriorityQueue}
use supergigatoken.Train.Learn.{
  Index, update_words, assemble_token, TieBreaking, hugging_face, raw_token_ids, assembled_bytes,
  build_byte_to_hf_rank,
}

-- The order of tuples, and of strings.
abbrev pub pair_less : Pair → Pair → Bool
pair_less a b = ltb a.0 b.0 || a.0 == b.0 && ltb a.1 b.1

unfoldable pub string_less : List ℕ → List ℕ → Bool
string_less [] [] = false
string_less [] (y ∷ ys) = true
string_less (x ∷ xs) [] = false
string_less (x ∷ xs) (y ∷ ys) = ltb x y || x == y && string_less xs ys

unfoldable pub string_beq : List ℕ → List ℕ → Bool
string_beq [] [] = true
string_beq [] (y ∷ ys) = false
string_beq (x ∷ xs) [] = false
string_beq (x ∷ xs) (y ∷ ys) = x == y && string_beq xs ys

unfoldable pub hf_rank : Option ℕ → ℕ
hf_rank none = 0
hf_rank (some r) = r

unfoldable pub remap : ℕ → ℕ
unfolding hf_rank build_byte_to_hf_rank
remap id = if ltb id 256 then hf_rank (lookup id build_byte_to_hf_rank) else id

unfoldable pub assemble_pair : List Bytes → Pair → Option (List ℕ × List ℕ)
unfolding assemble_token
assemble_pair symbols pair = elim (assemble_token pair.0 symbols) [
  | none ↦ none
  | some a ↦ elim (assemble_token pair.1 symbols) [ none ↦ none | some b ↦ some (a, b) ]
]

unfoldable pub strings_less : Option (List ℕ × List ℕ) → Option (List ℕ × List ℕ) → Option Bool
unfolding string_less string_beq
strings_less (some (a, b)) (some (a', b')) =
    some (string_less a a' || string_beq a a' && string_less b b')
strings_less none s = none
strings_less (some r) none = none

-- Is the pair smaller under the tie-breaking rule? `none` is the panic on a symbol out of range.
unfoldable pub is_smaller : TieBreaking → List Bytes → Pair → Pair → Option Bool
unfolding remap assemble_pair strings_less
is_smaller hugging_face symbols a b = some (pair_less (remap a.0, remap a.1) (remap b.0, remap b.1))
is_smaller raw_token_ids symbols a b = some (pair_less a b)
is_smaller assembled_bytes symbols a b =
    strings_less (assemble_pair symbols a) (assemble_pair symbols b)

-- The loop over the tied pairs.
unfoldable pub smallest_of : TieBreaking → List Bytes → List Pair → Pair → Option Pair
unfolding is_smaller
smallest_of tie symbols [] smallest = some smallest
smallest_of tie symbols (p ∷ ps) smallest = elim (is_smaller tie symbols p smallest) [
  | none ↦ none
  | some true ↦ smallest_of tie symbols ps p
  | some false ↦ smallest_of tie symbols ps smallest
]

abbrev pub int_beq : ℤ → ℤ → Bool
int_beq a b = not (ltb_ℤ a b) && not (ltb_ℤ b a)

module _ (pq : PriorityQueue) where
  -- The `while let` loop that pops the pairs of the same count.
  unfoldable pub pop_tied : ℕ → ℤ → pq.Queue → Option (List Pair × pq.Queue)
  pop_tied zero first_count q = none
  pop_tied (suc fuel) first_count q = elim (pq.peek q) [
    | none ↦ some ([], q)
    | some (next_pair, next_count) ↦ elim (int_beq next_count first_count) [
      | false ↦ some ([], q)
      | true ↦ elim (pq.pop q) [
        | none ↦ none
        | some (p, c, q') ↦ elim (pop_tied fuel first_count q') [
          | none ↦ none
          | some (ps, q'') ↦ some (p ∷ ps, q'')
        ]
      ]
    ]
  ]

  unfoldable pub push_back : ℤ → Pair → List Pair → pq.Queue → pq.Queue
  push_back first_count smallest [] q = q
  push_back first_count smallest (p ∷ ps) q =
      push_back first_count smallest ps (if pair_beq p smallest then q else pq.push p first_count q)

  -- The pair that is merged next, and the queue without it.
  unfoldable pub choose_pair : TieBreaking → List Bytes → pq.Queue → Option (Pair × pq.Queue)
  unfolding pop_tied smallest_of push_back
  choose_pair tie symbols q = elim (pq.pop q) [
    | none ↦ none
    | some (first_pair, first_count, q') ↦ elim (pop_tied (suc (pq.len q')) first_count q') [
      | none ↦ none
      | some (tied, q'') ↦ elim (smallest_of tie symbols (first_pair ∷ tied) first_pair) [
        | none ↦ none
        | some smallest ↦ some (smallest, push_back first_count smallest (first_pair ∷ tied) q'')
      ]
    ]
  ]

  unfoldable pub change_or_push : Pair → ℤ → Bool × pq.Queue → pq.Queue
  change_or_push pair change (true, q) = q
  change_or_push pair change (false, q) = pq.push pair change q

  -- The loop over `count_changes`.
  unfoldable pub apply_changes : Counts → pq.Queue → pq.Queue
  unfolding change_or_push
  apply_changes [] q = q
  apply_changes ((pair, change) ∷ changes) q =
      apply_changes changes (change_or_push pair change (pq.change_priority_by pair change q))

  -- What the loop reads and writes.
  pub record Learner : Type 0 where
    pub words : List Word
    pub contained_in_words : Index
    pub symbols : List Bytes
    pub merges : List (Bytes × Bytes)
    pub queue : pq.Queue

  -- The part of a round behind the choice.
  unfoldable pub merge_chosen : Learner → Pair → pq.Queue → Option Learner
  unfolding update_words apply_changes
  merge_chosen l pair q = elim (get_elem? l.symbols pair.0) [
    | none ↦ none
    | some a ↦ elim (get_elem? l.symbols pair.1) [
      | none ↦ none
      | some b ↦ elim (update_words l.words l.contained_in_words pair (length l.symbols)) [
        | none ↦ none
        | some (words', contained', changes) ↦ some (record {
          words = words';
          contained_in_words = contained';
          symbols = l.symbols ++ (a ++ b) ∷ [];
          merges = l.merges ++ (a, b) ∷ [];
          queue = apply_changes changes q;
        })
      ]
    ]
  ]

  unfoldable pub merge_round : TieBreaking → Learner → Option Learner
  unfolding choose_pair merge_chosen
  merge_round tie l = elim (choose_pair tie l.symbols l.queue) [
    | none ↦ none
    | some (pair, q) ↦ merge_chosen l pair q
  ]

  unfoldable pub merge_rounds : TieBreaking → ℕ → ℕ → Learner → Option Learner
  unfolding merge_round
  merge_rounds tie max_symbols zero l = none
  merge_rounds tie max_symbols (suc fuel) l =
      elim (pq.len l.queue == 0 || leb max_symbols (length l.symbols)) [
        | true ↦ some l
        | false ↦ elim (merge_round tie l) [
          | none ↦ none
          | some l' ↦ merge_rounds tie max_symbols fuel l'
        ]
      ]

  unfoldable pub push_all : Counts → pq.Queue → pq.Queue
  push_all [] q = q
  push_all ((pair, count) ∷ counts) q = push_all counts (pq.push pair count q)

  unfoldable pub run_merges : List Word → Index → List Bytes → ℕ → TieBreaking → Option Learner
  unfolding push_all count_pairs merge_rounds
  run_merges words contained symbols max_symbols tie =
      merge_rounds tie max_symbols (suc (max_symbols - length symbols)) (record {
        words = words;
        contained_in_words = contained;
        symbols = symbols;
        merges = [];
        queue = push_all (count_pairs words) pq.empty;
      })
