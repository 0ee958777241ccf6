-- ===== src/Train/Learn/Second/Result.antt =====
-- The second stage of the training of src/bpe_train.rs, train_superbpe_stage2, as a whole.
use supergigatoken.Base.{
  ℕ, ◌≤◌, ◌<◌, ◌≡◌, max, refl, ap, ◌∙◌, some, List, [], ◌++◌, Pair, Bytes, All, length,
  length-replicate, replicate, map, arith,
}
use supergigatoken.Merge.Spec.{max_rank}
use supergigatoken.Train.Units.Documents.{IsFindIter}
use supergigatoken.Train.Learn.{TieBreaking}
use supergigatoken.Train.Learn.Queue.{PriorityQueue, IsPriorityQueue}
use supergigatoken.Train.Learn.Update.{All-mono}
use supergigatoken.Train.Learn.Run.{joined, run_merges-IsLearned}
use supergigatoken.Train.Learn.Start.{BpeResult, enumerate, build_contained_in_words}
use supergigatoken.Train.Learn.Seeds.{build_contained_in_words-IsConsistent}
use supergigatoken.Train.Learn.Stage.{length-enumerate}
use supergigatoken.Train.Learn.Second.{
  fill_symbols, ids_of, merge_map, resume, train_superbpe_stage2,
}
use supergigatoken.Train.Words.{Word}
use supergigatoken.Train.Units.{UnitCounts, relaxed_unit_counts}
use supergigatoken.Train.Learn.Update.{texts}
use supergigatoken.Train.Learn.Keep.{bytes_of}
use supergigatoken.Train.Learn.Loop.{Learner, run_merges}
use supergigatoken.Train.Learn.Lookup.{
  listed, words_of, word_has, build_contained_in_words-word_has,
}
use supergigatoken.Train.Learn.Second.Spell.{
  spelled, filled_units, IsByteVocab, seed_units-spelled, fill_symbols-AreBytes,
  stage1_merges-AreJoined,
}
use supergigatoken.Train.Learn.Second.Counts.{IsCountedUnit, relaxed_unit_counts-IsCounted}
use supergigatoken.Train.Learn.Second.Words.{
  ids_of-below, merge_map-below, seed_units-IsSeed, fill_symbols-some,
}

-- What the second stage has done when it returns `result`: the corpus is cut into units, every unit that
-- is not empty is a word that spells it, the map lists for each pair the words in which it stands, and
-- the merge loop on them gives the result.
pub record IsSecondStage (pq : PriorityQueue) (find_iter : Bytes → Bytes → List ℕ)
    (corpus separator : Bytes) (stage1 : BpeResult) (target_vocab_size : ℕ) (tie : TieBreaking)
    (max_unit_len : ℕ) (result : BpeResult) : Type 0 where
  pub symbols : List Bytes
  pub units : UnitCounts
  pub words : List Word
  pub learner : Learner pq
  pub returned :
      train_superbpe_stage2 pq find_iter corpus separator stage1 target_vocab_size tie max_unit_len
      ≡ some result
  pub symbols_lem : fill_symbols stage1.vocab (replicate (length stage1.vocab) []) ≡ some symbols
  pub units_lem : relaxed_unit_counts find_iter corpus separator max_unit_len ≡ some units
  pub words_lem : spelled symbols words ≡ filled_units units
  pub index_lem :
      (p : Pair) (k : ℕ)
      → listed k (words_of p (build_contained_in_words words)) ≡ word_has p k words
  pub run :
      run_merges pq words (build_contained_in_words words) symbols target_vocab_size tie
      ≡ some learner
  pub text_kept : texts (bytes_of learner.symbols) learner.words ≡ texts (bytes_of symbols) words
  pub merges_lem : result.merges ≡ stage1.merges ++ learner.merges
  pub vocab_lem : result.vocab ≡ enumerate 0 (symbols ++ map joined learner.merges)
  pub bounded : length result.vocab ≤ max target_vocab_size (length stage1.vocab)

-- If the first vocabulary numbers the bytes by themselves, all its ids are below its size, which is at
-- least 256 and less than 2^32, and `max_unit_len` is less than 2^32, then on every corpus of bytes, and
-- with every substring search and priority queue that behave as documented, `train_superbpe_stage2`
-- returns. The words that it merges spell the units of the corpus that are not empty, with their counts;
-- the map that it starts from lists for each pair exactly the words in which the pair stands; its merges
-- are those of the first stage and then those that `run_merges` makes of these words, which keep their
-- text; its vocabulary numbers the symbols of the first stage and then for each new merge the bytes of
-- its two sides one behind the other, and it has no more than `target_vocab_size` entries where the
-- first vocabulary has no more.
pub train_superbpe_stage2-IsSecondStage :
    (pq : PriorityQueue) (laws : IsPriorityQueue pq) (find_iter : Bytes → Bytes → List ℕ)
    (corpus separator : Bytes) (stage1 : BpeResult) (target_vocab_size : ℕ) (tie : TieBreaking)
    (max_unit_len : ℕ)
    → IsFindIter find_iter
    → IsByteVocab stage1.vocab
    → All (λ entry. entry.0 < length stage1.vocab) stage1.vocab
    → 256 ≤ length stage1.vocab
    → length stage1.vocab ≤ max_rank
    → max_unit_len ≤ max_rank
    → All (λ b. b < 256) corpus
    → (result : BpeResult) × IsSecondStage pq find_iter corpus separator stage1 target_vocab_size
        tie max_unit_len result
unfolding train_superbpe_stage2 resume
train_superbpe_stage2-IsSecondStage pq laws find_iter corpus separator stage1 target_vocab_size tie
      max_unit_len law byte_vocab inside many few short bytes =
    let n = length stage1.vocab in
    let blank : length (replicate n []) ≡ n = length-replicate n [] in
    let (symbols, filled, long) = fill_symbols-some stage1.vocab (replicate n []) (
      All-mono (λ entry. entry.0 < n) (λ entry. entry.0 < length (replicate n []))
        (λ e lt. omega (arith, blank)) stage1.vocab inside) in
    let size : length symbols ≡ n = long ∙ blank in
    let (units, counted, pieces) =
      relaxed_unit_counts-IsCounted (λ b. b < 256) find_iter corpus separator max_unit_len law
        bytes in
    let ids = ids_of 0 symbols [] in
    let merges = merge_map ids stage1.merges [] in
    let below =
      merge_map-below (length symbols) ids stage1.merges []
        (ids_of-below (length symbols) 0 symbols [] (omega arith) tt) tt in
    let (words, seeded, seeds) =
      seed_units-IsSeed (length symbols) merges units (max max_unit_len 1)
        (omega (arith, size, many)) (omega (arith, size, few)) (omega (arith, short)) below
        pieces in
    let (l, run, joins, text, bound, stops) =
      run_merges-IsLearned pq laws words (build_contained_in_words words) symbols target_vocab_size
        tie (build_contained_in_words-IsConsistent (length symbols) words seeds) in
    (
      record { vocab = enumerate 0 l.symbols; merges = stage1.merges ++ l.merges },
      record {
        symbols = symbols;
        units = units;
        words = words;
        learner = l;
        returned = rw (train_superbpe_stage2, filled, counted, resume, seeded, run) refl;
        symbols_lem = filled;
        units_lem = counted;
        words_lem =
            seed_units-spelled symbols merges units words
              (fill_symbols-AreBytes stage1.vocab (replicate n []) symbols byte_vocab filled)
              (stage1_merges-AreJoined symbols stage1.merges)
              (All-mono (λ entry. entry.1 < length symbols) (λ entry. entry.1 ≤ max_rank)
                (λ e lt. omega (arith, size, few)) merges below)
              (All-mono (IsCountedUnit (λ b. b < 256) (max max_unit_len 1))
                (λ entry. All (λ b. b < 256) entry.0 × (length entry.0 ≤ max_rank))
                (λ e piece. (piece.0, omega (arith, piece.1, short))) units pieces)
              seeded;
        index_lem = build_contained_in_words-word_has words;
        run = run;
        text_kept = text;
        merges_lem = refl;
        vocab_lem = ap (enumerate 0) joins;
        bounded = omega (arith, bound, size, length-enumerate 0 l.symbols);
      },
    )
