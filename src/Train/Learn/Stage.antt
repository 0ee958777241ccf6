-- ===== src/Train/Learn/Stage.antt =====
-- The first stage of the training of src/bpe_train.rs, train_bpe, as a whole.
use supergigatoken.Base.{
  ℕ, zero, suc, ◌+◌, ◌<◌, ◌≤◌, ◌≡◌, max, refl, ap, some, List, [], ◌∷◌, ◌++◌, Bytes, All, length,
  length-append, map, arith,
}
use supergigatoken.Train.Words.{Word}
use supergigatoken.Train.Learn.{TieBreaking}
use supergigatoken.Train.Learn.Queue.{PriorityQueue, IsPriorityQueue}
use supergigatoken.Train.Learn.Changes.{Pairs}
use supergigatoken.Train.Learn.Index.{HasKey}
use supergigatoken.Train.Learn.Update.{Filled, IsConsistent}
use supergigatoken.Train.Learn.Run.{joined, run_merges-IsLearned}
use supergigatoken.Train.Learn.Start.{
  Cells, seed_words, collect_rows, raw_bytes, enumerate, BpeResult, train_bpe,
}
use supergigatoken.Train.Learn.Seeds.{Seeded-Filled, IsSeed, IsSound-seeds}
use supergigatoken.Train.Learn.Cells.{
  IsHeld, IsEntry, seed_words-Pairs, seed_words-All, seed_words-IsSeed, rows-HasKey, rows-Lists,
}

byte-Pairs :
    (cells : Cells) (xs : List ℕ)
    → All (λ b. b < 256) xs
    → Pairs (IsHeld cells) xs
    → Pairs (λ p. HasKey p (collect_rows cells 256 [])) xs
byte-Pairs cells [] b h = tt
byte-Pairs cells (x ∷ []) b h = tt
byte-Pairs cells (x ∷ y ∷ xs) b h =
    (rows-HasKey cells 256 x y b.0 b.1.0 h.0, byte-Pairs cells (y ∷ xs) b.1 h.1)

words-Pairs :
    (cells : Cells) (words : List Word)
    → All (IsSeed 256) words
    → All (λ w. Pairs (IsHeld cells) w.symbols) words
    → All (λ w. Pairs (λ p. HasKey p (collect_rows cells 256 [])) w.symbols) words
words-Pairs cells [] s h = tt
words-Pairs cells (w ∷ words) s h =
    (byte-Pairs cells w.symbols s.0.0 h.0, words-Pairs cells words s.1 h.1)

seeds-IsConsistent :
    (n : ℕ) (counts : List (Bytes × ℕ))
    → 256 ≤ n
    → All IsEntry counts
    → IsConsistent n
        (seed_words 0 counts (λ p. [])).0
        (collect_rows (seed_words 0 counts (λ p. [])).1 256 [])
seeds-IsConsistent n counts le h =
    let words = (seed_words 0 counts (λ p. [])).0 in
    let cells = (seed_words 0 counts (λ p. [])).1 in
    record {
      sound =
          IsSound-seeds n (λ p. HasKey p (collect_rows cells 256 [])) words
            (seed_words-IsSeed n 0 counts (λ p. []) le h)
            (words-Pairs cells words (seed_words-IsSeed 256 0 counts (λ p. []) (omega arith) h)
              (seed_words-Pairs 0 counts (λ p. [])));
      lists =
          rows-Lists cells (Filled words) 256
            (seed_words-All (Filled words) 0 counts (λ p. []) (Seeded-Filled words) (λ p. tt));
    }

pub length-raw_bytes : (n : ℕ) → length (raw_bytes n) ≡ n
unfolding raw_bytes
length-raw_bytes zero = refl
length-raw_bytes (suc n) =
    omega (arith, length-append (raw_bytes n) ((n ∷ []) ∷ []), length-raw_bytes n)

pub length-enumerate : (i : ℕ) (xs : List Bytes) → length (enumerate i xs) ≡ length xs
unfolding enumerate
length-enumerate i [] = refl
length-enumerate i (x ∷ xs) = omega (arith, length-enumerate (suc i) xs)

-- If the words are bytes and all counts are above zero, then with every priority queue that behaves as
-- documented `train_bpe` returns: the vocabulary numbers the 256 bytes, then the special tokens, then
-- for each merge the bytes of its two sides one behind the other, and it has no more than `vocab_size`
-- entries where the bytes and special tokens have no more.
pub train_bpe-vocab :
    (pq : PriorityQueue) (laws : IsPriorityQueue pq) (counts : List (Bytes × ℕ)) (vocab_size : ℕ)
    (special_tokens : List Bytes) (tie : TieBreaking)
    → All IsEntry counts
    → (result : BpeResult) × (train_bpe pq counts vocab_size special_tokens tie ≡ some result)
      × (result.vocab ≡ enumerate 0 (raw_bytes 256 ++ special_tokens ++ map joined result.merges))
      × (length result.vocab ≤ max vocab_size (256 + length special_tokens))
unfolding train_bpe
train_bpe-vocab pq laws counts vocab_size special_tokens tie h =
    let symbols = raw_bytes 256 ++ special_tokens in
    let size : length symbols ≡ 256 + length special_tokens =
      omega (arith, length-append (raw_bytes 256) special_tokens, length-raw_bytes 256) in
    let seeded = seed_words 0 counts (λ p. []) in
    let (l, run, spelled, text, bound, stops) =
      run_merges-IsLearned pq laws seeded.0 (collect_rows seeded.1 256 []) symbols vocab_size tie
        (seeds-IsConsistent (length symbols) counts (omega (arith, size)) h) in
    (
      record { vocab = enumerate 0 l.symbols; merges = l.merges },
      rw (train_bpe, run) refl,
      ap (enumerate 0) spelled,
      omega (arith, bound, size, length-enumerate 0 l.symbols),
    )
