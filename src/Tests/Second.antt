-- ===== src/Tests/Second.antt =====
-- The second stage of src/bpe_train.rs: a run on two symbols, and the theorem at a first stage without
-- merges.
use supergigatoken.Base.{
  ℕ, suc, ◌+◌, ◌≤◌, ◌<◌, ◌≡◌, refl, Option, none, some, List, [], ◌∷◌, Bytes, All, length, lookup,
  insert, arith, zero, ◌≢◌, ap, sym, ◌∙◌, inl, inr, true, ◌==◌, ==_iff, leb, ◌&&◌, take, bytes_beq,
  bytes_beq_iff, if◌then◌else◌, Bool-cases, nat_eq,
}
use supergigatoken.Base.Int.{pos, ◌+ℤ◌, neg}
use supergigatoken.Train.Words.{update_word}
use supergigatoken.Train.Learn.{raw_token_ids}
use supergigatoken.Train.Learn.Start.{build_contained_in_words, BpeResult, enumerate, raw_bytes}
use supergigatoken.Train.Learn.Stage.{length-enumerate, length-raw_bytes}
use supergigatoken.Train.Learn.Second.{train_superbpe_stage2}
use supergigatoken.Train.Learn.Second.Result.{IsSecondStage, train_superbpe_stage2-IsSecondStage}
use supergigatoken.Train.Words.{Word}
use supergigatoken.Train.Units.{documents}
use supergigatoken.Train.Units.Documents.{IsFindIter, join, documents-join}
use supergigatoken.Train.Learn.Keep.{bytes_of, get_or-left, get_or-last}
use supergigatoken.Train.Learn.Lookup.{
  listed, words_of, word_has, build_contained_in_words-word_has,
}
use supergigatoken.Train.Learn.Second.Spell.{IsByteVocab}
use supergigatoken.Tests.Queue.{list_queue, list_queue_laws, best, pop_best, change}

abbrev no_hits : Bytes → Bytes → List ℕ
no_hits bytes separator = []

-- Symbols for the bytes 0 to 2 and the merge of 1 and 2.
abbrev tiny : BpeResult
tiny = record {
  vocab = (0, 0 ∷ []) ∷ (1, 1 ∷ []) ∷ (2, 2 ∷ []) ∷ (3, 1 ∷ 2 ∷ []) ∷ [];
  merges = (1 ∷ [], 2 ∷ []) ∷ [];
}

abbrev merges_of : Option BpeResult → List (Bytes × Bytes)
merges_of none = []
merges_of (some r) = r.merges

superword_run :
    merges_of (
      train_superbpe_stage2 list_queue no_hits
        (1 ∷ 2 ∷ 0 ∷ 1 ∷ 2 ∷ 0 ∷ [])
        []
        tiny
        5
        raw_token_ids
        8)
    ≡ (1 ∷ [], 2 ∷ []) ∷ (1 ∷ 2 ∷ [], 0 ∷ []) ∷ []
unfolding train_superbpe_stage2 insert pop_best best lookup ◌+ℤ◌ update_word change neg
superword_run = refl

-- The pair of 1 and 2 stands in the second word only.
abbrev two_words : List Word
two_words =
    record { symbols = 2 ∷ 1 ∷ []; word_count = pos 3 }
    ∷ record { symbols = 1 ∷ 2 ∷ 1 ∷ []; word_count = pos 1 }
    ∷ []

abbrev first_stage : BpeResult
first_stage = record { vocab = enumerate 0 (raw_bytes 256); merges = [] }

enumerate-All :
    (i n : ℕ) (xs : List Bytes) → i + length xs ≤ n → All (λ entry. entry.0 < n) (enumerate i xs)
unfolding enumerate
enumerate-All i n [] le = tt
enumerate-All i n (x ∷ xs) le = (omega arith, enumerate-All (suc i) n xs (omega arith))

length-first_stage : length first_stage.vocab ≡ 256
length-first_stage = omega (arith, length-enumerate 0 (raw_bytes 256), length-raw_bytes 256)

raw_bytes-bytes_of : (n b : ℕ) → b < n → bytes_of (raw_bytes n) b ≡ b ∷ []
unfolding raw_bytes
raw_bytes-bytes_of zero b lt = absurd (omega arith)
raw_bytes-bytes_of (suc n) b lt = elim (Bool-cases (b == n)) [
  | inl e ↦
      let last : b ≡ length (raw_bytes n) = omega (arith, (==_iff b n).0 e, length-raw_bytes n) in
      rw last (get_or-last (raw_bytes n) (n ∷ []) ∙ ap (λ i. i ∷ []) (sym (length-raw_bytes n)))
  | inr e ↦
      let before : b < n = ground arith in
      get_or-left (raw_bytes n) ((n ∷ []) ∷ []) b (omega (arith, before, length-raw_bytes n))
      ∙ raw_bytes-bytes_of n b before
]

enumerate-bytes :
    (i : ℕ) (xs : List Bytes)
    → ((j : ℕ) → j < length xs → bytes_of xs j ≡ (i + j) ∷ [])
    → All (λ entry. entry.0 < 256 → entry.1 ≡ entry.0 ∷ []) (enumerate i xs)
unfolding enumerate
enumerate-bytes i [] h = tt
enumerate-bytes i (x ∷ xs) h = (
  λ small. h 0 (omega arith) ∙ ap (λ n. n ∷ []) {x = i + 0} {y = i} (omega arith),
  enumerate-bytes (suc i) xs (λ j lt.
      h (suc j) (omega arith) ∙ ap (λ n. n ∷ []) {x = i + suc j} {y = suc i + j} (omega arith)),
)

enumerate-found :
    (i b : ℕ) (xs : List Bytes) → i ≤ b → b < i + length xs → lookup b (enumerate i xs) ≢ none
unfolding enumerate lookup
enumerate-found i b [] le lt = absurd (omega arith)
enumerate-found i b (x ∷ xs) le lt = elim (Bool-cases (i == b)) [
  | inl e ↦ rw e (λ h. cc)
  | inr e ↦ rw e (enumerate-found (suc i) b xs (ground arith) (omega arith))
]

first_stage-IsByteVocab : IsByteVocab first_stage.vocab
first_stage-IsByteVocab = record {
  bytes = enumerate-bytes 0 (raw_bytes 256) (λ j lt.
      raw_bytes-bytes_of 256 j (omega (arith, length-raw_bytes 256))
      ∙ ap (λ n. n ∷ []) {x = j} {y = 0 + j} (omega arith));
  all_there = λ b small.
      enumerate-found 0 b (raw_bytes 256) (omega arith) (omega (arith, length-raw_bytes 256));
}

-- A search that looks at the start of the text only.
abbrev find_at_start : Bytes → Bytes → List ℕ
find_at_start bytes needle =
    if leb (length needle) (length bytes) && bytes_beq (take (length needle) bytes) needle
    then 0 ∷ []
    else []

find_at_start-IsFindIter : IsFindIter find_at_start
find_at_start-IsFindIter bytes needle filled =
    elim (Bool-cases
      (leb (length needle) (length bytes) && bytes_beq (take (length needle) bytes) needle)) [
        | inr e ↦ rw e tt
        | inl e ↦
            let hit : bytes_beq (take (length needle) bytes) needle ≡ true = ground arith in
            let same : take (length needle) bytes ≡ needle =
              (bytes_beq_iff (take (length needle) bytes) needle).0 hit in
            rw e (omega arith, ground (arith, e), same, tt)
      ]

train_superbpe_stage2-IsSecondStage_example :
    (result : BpeResult) × IsSecondStage list_queue find_at_start
      (10 ∷ 1 ∷ 2 ∷ 1 ∷ [])
      (10 ∷ [])
      first_stage
      300
      raw_token_ids
      8
      result
train_superbpe_stage2-IsSecondStage_example =
    train_superbpe_stage2-IsSecondStage list_queue list_queue_laws find_at_start
      (10 ∷ 1 ∷ 2 ∷ 1 ∷ []) (10 ∷ []) first_stage 300 raw_token_ids 8 find_at_start-IsFindIter
      first_stage-IsByteVocab
      (enumerate-All 0 (length first_stage.vocab) (raw_bytes 256)
        (omega (arith, length-first_stage, length-raw_bytes 256)))
      (omega (arith, length-first_stage)) (omega (arith, length-first_stage)) (omega arith)
      (omega arith, (omega arith, (omega arith, (omega arith, tt))))

documents-join_example :
    (docs : List Bytes) × (documents
        (10 ∷ 1 ∷ 2 ∷ 1 ∷ [])
        (length {A = ℕ} (10 ∷ []))
        0
        (find_at_start (10 ∷ 1 ∷ 2 ∷ 1 ∷ []) (10 ∷ []))
      ≡ some docs)
    × (join (10 ∷ []) docs ≡ 10 ∷ 1 ∷ 2 ∷ 1 ∷ [])
documents-join_example =
    documents-join find_at_start (10 ∷ 1 ∷ 2 ∷ 1 ∷ []) (10 ∷ []) find_at_start-IsFindIter (λ e. cc)

documents_run : documents (1 ∷ 2 ∷ 3 ∷ []) 1 0 (1 ∷ []) ≡ some ((1 ∷ []) ∷ (3 ∷ []) ∷ [])
unfolding documents
documents_run = refl

-- A position before the end of the last match is out of order for the slice.
overlap_run : documents (1 ∷ 1 ∷ 1 ∷ []) 2 0 (0 ∷ 1 ∷ []) ≡ none
unfolding documents
overlap_run = refl

build_contained_in_words-word_has_example :
    listed 1 (words_of (1, 2) (build_contained_in_words (two_words))) ≡ word_has (1, 2) 1 two_words
build_contained_in_words-word_has_example = build_contained_in_words-word_has two_words (1, 2) 1
