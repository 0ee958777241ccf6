-- ===== src/Train/Learn/Seeds.antt =====
-- Where the training of src/bpe_train.rs starts: the words and the map from pairs to words belong
-- together, in both stages.
use supergigatoken.Base.{
  ℕ, suc, ◌<◌, ◌≡◌, ◌≢◌, refl, true, List, [], ◌∷◌, Pair, pair_beq_iff, All, lookup, pair_eq, arith,
}
use supergigatoken.Base.Int.{pos, ltb_ℤ}
use supergigatoken.Train.Words.{Word}
use supergigatoken.Train.Learn.{Index, add_index, set_insert, or_default}
use supergigatoken.Train.Learn.Changes.{Pairs, Pairs-mono}
use supergigatoken.Train.Learn.Index.{
  HasKey, HasKey-insert, HasKey-inserted, Lists, add_index-Lists,
}
use supergigatoken.Train.Learn.Update.{Filled, IsSound, IsConsistent}
use supergigatoken.Train.Learn.Start.{index_word, index_words, build_contained_in_words}

-- Every word with a symbol, from the index `i` on, has the property.
abbrev pub Seeded : (ℕ → Type 0) → ℕ → List Word → Type 0
Seeded P i [] = Unit
Seeded P i (w ∷ words) = (w.symbols ≢ [] → P i) × Seeded P (suc i) words

Seeded-suc :
    (P Q : ℕ → Type 0) (i : ℕ) (words : List Word)
    → ((j : ℕ) → P j → Q (suc j))
    → Seeded P i words
    → Seeded Q (suc i) words
Seeded-suc P Q i [] f h = tt
Seeded-suc P Q i (w ∷ words) f h = (λ e. f i (h.0 e), Seeded-suc P Q (suc i) words f h.1)

pub Seeded-Filled : (words : List Word) → Seeded (Filled words) 0 words
Seeded-Filled [] = tt
Seeded-Filled (w ∷ words) = (
  λ e. record { word = w; there = refl; filled = e },
  Seeded-suc (Filled words) (Filled (w ∷ words)) 0 words
      (λ j f. record { word = f.word; there = f.there; filled = f.filled }) (Seeded-Filled words),
)

-- The map of the second stage.

index_word-keeps :
    (i : ℕ) (xs : List ℕ) (m : Index) (p : Pair) → HasKey p m → HasKey p (index_word i xs m)
unfolding index_word add_index
index_word-keeps i [] m p h = h
index_word-keeps i (x ∷ []) m p h = h
index_word-keeps i (x ∷ y ∷ xs) m p h =
    index_word-keeps i (y ∷ xs) (add_index (x, y) i m) p
      (HasKey-insert (x, y) (set_insert i (or_default (lookup (x, y) m))) m p h)

index_word-Pairs : (i : ℕ) (xs : List ℕ) (m : Index) → Pairs (λ p. HasKey p (index_word i xs m)) xs
unfolding index_word add_index
index_word-Pairs i [] m = tt
index_word-Pairs i (x ∷ []) m = tt
index_word-Pairs i (x ∷ y ∷ xs) m = (
  index_word-keeps i (y ∷ xs) (add_index (x, y) i m) (x, y)
      (HasKey-inserted (x, y) (set_insert i (or_default (lookup (x, y) m))) m (x, y)
        ((pair_beq_iff (x, y) (x, y)).1 refl)),
  index_word-Pairs i (y ∷ xs) (add_index (x, y) i m),
)

index_word-Lists :
    (P : ℕ → Type 0) (i : ℕ) (xs : List ℕ) (m : Index)
    → (xs ≢ [] → P i)
    → All (Lists P) m
    → All (Lists P) (index_word i xs m)
unfolding index_word
index_word-Lists P i [] m h k = k
index_word-Lists P i (x ∷ []) m h k = k
index_word-Lists P i (x ∷ y ∷ xs) m h k =
    let one : P i = h (λ e. absurd (ground arith)) in
    index_word-Lists P i (y ∷ xs) (add_index (x, y) i m) (λ e. one)
      (add_index-Lists P (x, y) i m one k)

index_words-keeps :
    (i : ℕ) (words : List Word) (m : Index) (p : Pair)
    → HasKey p m
    → HasKey p (index_words i words m)
unfolding index_words
index_words-keeps i [] m p h = h
index_words-keeps i (w ∷ words) m p h =
    index_words-keeps (suc i) words (index_word i w.symbols m) p
      (index_word-keeps i w.symbols m p h)

index_words-Pairs :
    (i : ℕ) (words : List Word) (m : Index)
    → All (λ w. Pairs (λ p. HasKey p (index_words i words m)) w.symbols) words
unfolding index_words
index_words-Pairs i [] m = tt
index_words-Pairs i (w ∷ words) m = (
  Pairs-mono (λ p. HasKey p (index_word i w.symbols m))
      (λ p. HasKey p (index_words (suc i) words (index_word i w.symbols m)))
      (λ p h. index_words-keeps (suc i) words (index_word i w.symbols m) p h) w.symbols
      (index_word-Pairs i w.symbols m),
  index_words-Pairs (suc i) words (index_word i w.symbols m),
)

index_words-Lists :
    (P : ℕ → Type 0) (i : ℕ) (words : List Word) (m : Index)
    → Seeded P i words
    → All (Lists P) m
    → All (Lists P) (index_words i words m)
unfolding index_words
index_words-Lists P i [] m h k = k
index_words-Lists P i (w ∷ words) m h k =
    index_words-Lists P (suc i) words (index_word i w.symbols m) h.1
      (index_word-Lists P i w.symbols m h.0 k)

-- A word of symbols below `n` that occurs.
abbrev pub IsSeed : ℕ → Word → Type 0
IsSeed n w = All (λ x. x < n) w.symbols × (ltb_ℤ (pos 0) w.word_count ≡ true)

pub IsSound-seeds :
    (n : ℕ) (K : Pair → Type 0) (words : List Word)
    → All (IsSeed n) words
    → All (λ w. Pairs K w.symbols) words
    → All (IsSound n K) words
IsSound-seeds n K [] h k = tt
IsSound-seeds n K (w ∷ words) h k =
    (record { below = h.0.0; pairs = k.0; occurs = h.0.1 }, IsSound-seeds n K words h.1 k.1)

-- If all symbols of the words are below `n` and all words occur, the words and the map that
-- build_contained_in_words makes of them belong together.
pub build_contained_in_words-IsConsistent :
    (n : ℕ) (words : List Word)
    → All (IsSeed n) words
    → IsConsistent n words (build_contained_in_words words)
unfolding build_contained_in_words
build_contained_in_words-IsConsistent n words h = record {
  sound =
      IsSound-seeds n (λ p. HasKey p (build_contained_in_words words)) words h
        (index_words-Pairs 0 words []);
  lists = index_words-Lists (Filled words) 0 words [] (Seeded-Filled words) tt;
}
