-- ===== src/Tests/Learn.antt =====
-- Runs of run_merges of src/bpe_train.rs with the list queue.
use supergigatoken.Base.{
  ℕ, ◌≡◌, ◌≤◌, max, refl, ◌⊎◌, Option, none, some, List, [], ◌∷◌, ◌++◌, Pair, Bytes, length, map,
  lookup, insert, pair_eq, arith,
}
use supergigatoken.Base.Int.{ℤ, pos, ◌+ℤ◌, neg}
use supergigatoken.Train.Words.{Word, Counts, update_word}
use supergigatoken.Train.Learn.{Index, raw_token_ids, hugging_face}
use supergigatoken.Train.Learn.Index.{HasKey, All-lookup}
use supergigatoken.Train.Learn.Changes.{Below}
use supergigatoken.Train.Learn.Update.{IsConsistent, texts}
use supergigatoken.Train.Learn.Loop.{Learner, run_merges, choose_pair}
use supergigatoken.Train.Learn.Choose.{IsChosen, choose_pair-IsChosen}
use supergigatoken.Train.Learn.Keep.{bytes_of}
use supergigatoken.Train.Learn.Run.{joined, run_merges-IsLearned}
use supergigatoken.Train.Learn.Start.{BpeResult, train_bpe, enumerate, raw_bytes}
use supergigatoken.Train.Learn.Stage.{train_bpe-vocab}
use supergigatoken.Tests.Queue.{list_queue, list_queue_laws, best, pop_best, change}

abbrev symbols : List Bytes
symbols = (b'a' ∷ []) ∷ (b'b' ∷ []) ∷ []

-- `abab` twice and `ab` three times.
abbrev words : List Word
words =
    record { symbols = 0 ∷ 1 ∷ 0 ∷ 1 ∷ []; word_count = pos 2 }
    ∷ record { symbols = 0 ∷ 1 ∷ []; word_count = pos 3 }
    ∷ []

abbrev contained : Index
contained = ((0, 1), 0 ∷ 1 ∷ []) ∷ ((1, 0), 0 ∷ []) ∷ []

abbrev merges_of : Option (Learner list_queue) → List (Bytes × Bytes)
merges_of none = []
merges_of (some l) = l.merges

ab_merges :
    merges_of (run_merges list_queue words contained symbols 4 raw_token_ids)
    ≡ (b'a' ∷ [], b'b' ∷ []) ∷ (b'a' ∷ b'b' ∷ [], b'a' ∷ b'b' ∷ []) ∷ []
unfolding run_merges insert pop_best best lookup ◌+ℤ◌ update_word change neg
ab_merges = refl

-- The pair of `a` and `a` is merged once more with a negative count, when no word has it.
aaa_merges :
    merges_of (
      run_merges list_queue
        (record { symbols = 0 ∷ 0 ∷ 0 ∷ []; word_count = pos 1 } ∷ [])
        (((0, 0), 0 ∷ []) ∷ [])
        ((b'a' ∷ []) ∷ [])
        4
        raw_token_ids)
    ≡ (b'a' ∷ [], b'a' ∷ []) ∷ (b'a' ∷ b'a' ∷ [], b'a' ∷ []) ∷ (b'a' ∷ [], b'a' ∷ []) ∷ []
unfolding run_merges insert pop_best best lookup ◌+ℤ◌ update_word change neg
aaa_merges = refl

words-IsConsistent : IsConsistent 2 words contained
words-IsConsistent =
    let key01 : HasKey (0, 1) contained = record {
      value = 0 ∷ 1 ∷ [];
      found = unfold lookup in refl;
    } in
    let key10 : HasKey (1, 0) contained = record {
      value = 0 ∷ [];
      found = unfold lookup in refl;
    } in
    record {
      sound = (
        record {
          below = (omega arith, (omega arith, (omega arith, (omega arith, tt))));
          pairs = (key01, (key10, (key01, tt)));
          occurs = refl;
        },
        (
          record { below = (omega arith, (omega arith, tt)); pairs = (key01, tt); occurs = refl },
          tt,
        ),
      );
      lists = (
        (
          record {
            word = record { symbols = 0 ∷ 1 ∷ 0 ∷ 1 ∷ []; word_count = pos 2 };
            there = refl;
            filled = λ e. absurd (ground arith);
          },
          (
            record {
              word = record { symbols = 0 ∷ 1 ∷ []; word_count = pos 3 };
              there = refl;
              filled = λ e. absurd (ground arith);
            },
            tt,
          ),
        ),
        (
          (
            record {
              word = record { symbols = 0 ∷ 1 ∷ 0 ∷ 1 ∷ []; word_count = pos 2 };
              there = refl;
              filled = λ e. absurd (ground arith);
            },
            tt,
          ),
          tt,
        ),
      );
    }

run_merges-IsLearned_example :
    (l : Learner list_queue) × (run_merges list_queue words contained symbols 4 raw_token_ids
      ≡ some l)
    × (l.symbols ≡ symbols ++ map joined l.merges)
    × (texts (bytes_of l.symbols) l.words ≡ texts (bytes_of symbols) words)
    × (length l.symbols ≤ max 4 2)
    × ((length l.queue ≡ 0) ⊎ (4 ≤ length l.symbols))
run_merges-IsLearned_example =
    run_merges-IsLearned list_queue list_queue_laws words contained symbols 4 raw_token_ids
      words-IsConsistent

abbrev queue : Counts
queue = ((0, 1), pos 5) ∷ ((1, 0), pos 2) ∷ ((1, 1), pos 5) ∷ []

queue-Below : (p : Pair) (d : ℤ) → list_queue_laws.priority queue p ≡ some d → Below 2 p
unfolding list_queue_laws
queue-Below p d e =
    All-lookup (λ entry. Below 2 entry.0) p queue d e
      ((omega arith, omega arith), ((omega arith, omega arith), ((omega arith, omega arith), tt)))

choose_pair-IsChosen_example :
    IsChosen list_queue list_queue_laws queue (choose_pair list_queue hugging_face symbols queue)
choose_pair-IsChosen_example =
    choose_pair-IsChosen list_queue list_queue_laws hugging_face symbols queue (omega arith)
      queue-Below

abbrev byte_counts : List (Bytes × ℕ)
byte_counts = (b'a' ∷ b'b' ∷ b'a' ∷ b'b' ∷ [], 2) ∷ (b'a' ∷ b'b' ∷ [], 3) ∷ []

train_bpe-vocab_example :
    (result : BpeResult) × (train_bpe list_queue byte_counts 258
        ((b'<' ∷ b'>' ∷ []) ∷ [])
        hugging_face
      ≡ some result)
    × (result.vocab
        ≡ enumerate 0 (raw_bytes 256 ++ (b'<' ∷ b'>' ∷ []) ∷ [] ++ map joined result.merges))
    × (length result.vocab ≤ max 258 257)
train_bpe-vocab_example =
    train_bpe-vocab list_queue list_queue_laws byte_counts 258 ((b'<' ∷ b'>' ∷ []) ∷ [])
      hugging_face
      (
        ((omega arith, (omega arith, (omega arith, (omega arith, tt)))), omega arith),
        (((omega arith, (omega arith, tt)), omega arith), tt),
      )
