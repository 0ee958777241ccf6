-- ===== src/Train/Learn/Keep.antt =====
-- What a round of run_merges of src/bpe_train.rs keeps: the texts of the words when a symbol is added,
-- and a property of the queued pairs when changes are applied.
use supergigatoken.Base.{
  ℕ, zero, suc, ◌<◌, ◌≡◌, refl, inl, inr, some, List, [], ◌∷◌, ◌++◌, Pair, Bytes, All, Bool-cases,
  Option-cases, length, get_elem?, get_or, pair_beq, pair_beq_iff, arith,
}
use supergigatoken.Base.Int.{ℤ}
use supergigatoken.Train.Words.{Word, Counts, add_count, count_word, count_pairs_from}
use supergigatoken.Train.Words.Text.{text}
use supergigatoken.Train.Learn.Queue.{PriorityQueue, IsPriorityQueue}
use supergigatoken.Train.Learn.Changes.{Pairs}
use supergigatoken.Train.Learn.Index.{All-insert}
use supergigatoken.Train.Learn.Update.{IsSound, texts}
use supergigatoken.Train.Learn.Loop.{change_or_push, apply_changes, push_all}

abbrev pub bytes_of : List Bytes → ℕ → Bytes
bytes_of symbols x = get_or symbols x []

pub get_or-left :
    (xs ys : List Bytes) (i : ℕ) → i < length xs → bytes_of (xs ++ ys) i ≡ bytes_of xs i
get_or-left [] ys i h = absurd (omega arith)
get_or-left (x ∷ xs) ys zero h = refl
get_or-left (x ∷ xs) ys (suc i) h = get_or-left xs ys i (omega arith)

pub get_or-last : (xs : List Bytes) (y : Bytes) → bytes_of (xs ++ y ∷ []) (length xs) ≡ y
get_or-last [] y = refl
get_or-last (x ∷ xs) y = get_or-last xs y

pub get_or-get_elem? :
    (xs : List Bytes) (i : ℕ) (a : Bytes) → get_elem? xs i ≡ some a → bytes_of xs i ≡ a
get_or-get_elem? [] i a e = absurd (ground arith)
get_or-get_elem? (x ∷ xs) zero a e = cc
get_or-get_elem? (x ∷ xs) (suc i) a e = get_or-get_elem? xs i a e

text-more :
    (symbols more : List Bytes) (xs : List ℕ)
    → All (λ x. x < length symbols) xs
    → text (bytes_of (symbols ++ more)) xs ≡ text (bytes_of symbols) xs
text-more symbols more [] h = refl
text-more symbols more (x ∷ xs) h =
    rw (get_or-left symbols more x h.0, text-more symbols more xs h.1) refl

pub texts-more :
    (symbols more : List Bytes) (K : Pair → Type 0) (words : List Word)
    → All (IsSound (length symbols) K) words
    → texts (bytes_of (symbols ++ more)) words ≡ texts (bytes_of symbols) words
texts-more symbols more K [] h = refl
texts-more symbols more K (w ∷ words) h =
    rw (text-more symbols more w.symbols h.0.below, texts-more symbols more K words h.1) refl

module _ (P : Pair → Type 0) where
  count_word-All :
      (count : ℤ) (xs : List ℕ) (m : Counts)
      → Pairs P xs
      → All (λ e. P e.0) m
      → All (λ e. P e.0) (count_word count xs m)
  unfolding count_word add_count
  count_word-All count [] m h k = k
  count_word-All count (x ∷ []) m h k = k
  count_word-All count (x ∷ y ∷ xs) m h k =
      count_word-All count (y ∷ xs) (add_count (x, y) count m) h.1
        (All-insert (λ e. P e.0) (x, y) _ m h.0 k)

  pub count_pairs-All :
      (words : List Word) (m : Counts)
      → All (λ w. Pairs P w.symbols) words
      → All (λ e. P e.0) m
      → All (λ e. P e.0) (count_pairs_from words m)
  unfolding count_pairs_from
  count_pairs-All [] m h k = k
  count_pairs-All (w ∷ words) m h k =
      count_pairs-All words (count_word w.word_count w.symbols m) h.1
        (count_word-All w.word_count w.symbols m h.0 k)

module _ (pq : PriorityQueue) (laws : IsPriorityQueue pq) where
  -- Every queued pair is in P.
  abbrev pub Queued : (Pair → Type 0) → pq.Queue → Type 0
  Queued P q = (p : Pair) (d : ℤ) → laws.priority q p ≡ some d → P p

  push-Queued :
      (P : Pair → Type 0) (k : Pair) (c : ℤ) (q : pq.Queue)
      → P k
      → Queued P q
      → Queued P (pq.push k c q)
  push-Queued P k c q h qs p d e = elim (Bool-cases (pair_beq k p)) [
    | inl e' ↦ rw (← (pair_beq_iff k p).0 e') h
    | inr e' ↦ qs p d (rw (laws.of_push k c q p, e') at e)
  ]

  pub push_all-Queued :
      (P : Pair → Type 0) (counts : Counts) (q : pq.Queue)
      → All (λ e. P e.0) counts
      → Queued P q
      → Queued P (push_all pq counts q)
  unfolding push_all
  push_all-Queued P [] q h qs = qs
  push_all-Queued P ((k, c) ∷ counts) q h qs =
      push_all-Queued P counts (pq.push k c q) h.1 (push-Queued P k c q h.0 qs)

  change-Queued :
      (P : Pair → Type 0) (k : Pair) (c : ℤ) (q : pq.Queue)
      → P k
      → Queued P q
      → Queued P (change_or_push pq k c (pq.change_priority_by k c q))
  unfolding change_or_push
  change-Queued P k c q h qs = elim (Option-cases (laws.priority q k)) [
    | inl e ↦
        let (found, same) = laws.of_missing k c q e in
        let r = pq.change_priority_by k c q in
        rw (change_or_push, found) (push-Queued P k c r.1 h (λ p d e'. qs p d (rw (same p) at e')))
    | inr (d, e) ↦
        let (found, same) = laws.of_change k c q d e in
        rw (change_or_push, found)
          (λ p d' e'. elim (Bool-cases (pair_beq k p)) [
            | inl e'' ↦ rw (← (pair_beq_iff k p).0 e'') h
            | inr e'' ↦ qs p d' (rw (same p, e'') at e')
          ])
  ]

  pub apply_changes-Queued :
      (P : Pair → Type 0) (changes : Counts) (q : pq.Queue)
      → All (λ e. P e.0) changes
      → Queued P q
      → Queued P (apply_changes pq changes q)
  unfolding apply_changes
  apply_changes-Queued P [] q h qs = qs
  apply_changes-Queued P ((k, c) ∷ changes) q h qs =
      apply_changes-Queued P changes (change_or_push pq k c (pq.change_priority_by k c q)) h.1
        (change-Queued P k c q h.0 qs)
