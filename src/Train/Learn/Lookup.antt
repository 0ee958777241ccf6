-- ===== src/Train/Learn/Lookup.antt =====
-- What build_contained_in_words of src/bpe_train.rs lists for a pair: the words in which it stands.
use supergigatoken.Base.{
  ℕ, zero, suc, ◌-◌, ◌≡◌, refl, ◌∙◌, inl, inr, Bool, true, false, ◌&&◌, ◌||◌, List, [], ◌∷◌, Pair,
  ◌==◌, leb, lookup, lookup-insert, pair_eq, pair_beq, pair_beq_iff, arith, Bool-cases,
}
use supergigatoken.Train.Words.{Word}
use supergigatoken.Train.Learn.{Index, set_insert, or_default, add_index}
use supergigatoken.Train.Learn.Start.{index_word, index_words, build_contained_in_words}

unfoldable pub listed : ℕ → List ℕ → Bool
listed k [] = false
listed k (j ∷ js) = j == k || listed k js

-- The pair stands in the symbols, one behind the other.
unfoldable pub has_pair : Pair → List ℕ → Bool
has_pair p [] = false
has_pair p (x ∷ []) = false
has_pair p (x ∷ y ∷ xs) = pair_beq (x, y) p || has_pair p (y ∷ xs)

-- The pair stands in the `k`-th word.
unfoldable pub word_has : Pair → ℕ → List Word → Bool
word_has p k [] = false
word_has p zero (w ∷ words) = has_pair p w.symbols
word_has p (suc k) (w ∷ words) = word_has p k words

-- The words that the map lists for a pair.
abbrev pub words_of : Pair → Index → List ℕ
words_of p m = or_default (lookup p m)

listed-set_insert : (i k : ℕ) (s : List ℕ) → listed k (set_insert i s) ≡ (i == k || listed k s)
unfolding listed set_insert
listed-set_insert i k [] = refl
listed-set_insert i k (j ∷ js) = grind (arith, listed-set_insert i k js)

listed-add_index :
    (p q : Pair) (i k : ℕ) (m : Index)
    → listed k (words_of q (add_index p i m))
      ≡ ((pair_beq p q && i == k) || listed k (words_of q m))
unfolding add_index
listed-add_index p q i k m = elim (Bool-cases (pair_beq p q)) [
  | inl e ↦
      let same : p ≡ q = (pair_beq_iff p q).0 e in
      rw
        (
          lookup-insert p q (set_insert i (words_of p m)) m,
          e,
          listed-set_insert i k (words_of p m),
          ← same,
        )
        refl
  | inr e ↦ rw (lookup-insert p q (set_insert i (words_of p m)) m, e) refl
]

listed-index_word :
    (q : Pair) (i k : ℕ) (xs : List ℕ) (m : Index)
    → listed k (words_of q (index_word i xs m))
      ≡ ((has_pair q xs && i == k) || listed k (words_of q m))
unfolding index_word has_pair
listed-index_word q i k [] m = refl
listed-index_word q i k (x ∷ []) m = refl
listed-index_word q i k (x ∷ y ∷ xs) m =
    listed-index_word q i k (y ∷ xs) (add_index (x, y) i m)
    ∙ rw (listed-add_index (x, y) q i k m) (ground arith)

listed-index_words :
    (q : Pair) (i k : ℕ) (words : List Word) (m : Index)
    → listed k (words_of q (index_words i words m))
      ≡ ((leb i k && word_has q (k - i) words) || listed k (words_of q m))
unfolding index_words word_has
listed-index_words q i k [] m = ground arith
listed-index_words q i k (w ∷ words) m =
    listed-index_words q (suc i) k words (index_word i w.symbols m)
    ∙ rw (listed-index_word q i k w.symbols m) (elim (Bool-cases (i == k)) [
      | inl e ↦
          let here : k - i ≡ 0 = ground arith in
          let past : leb (suc i) k ≡ false = ground arith in
          let reached : leb i k ≡ true = ground arith in rw (e, here, past, reached) (ground arith)
      | inr e ↦ elim (Bool-cases (leb (suc i) k)) [
        | inl e' ↦
            let next : k - i ≡ suc (k - suc i) = ground arith in
            let reached : leb i k ≡ true = ground arith in rw (e, e', next, reached) (ground arith)
        | inr e' ↦
            let reached : leb i k ≡ false = ground arith in rw (e, e', reached) (ground arith)
      ]
    ])

-- For every pair, build_contained_in_words lists exactly the indices of the words in which the pair
-- stands.
pub build_contained_in_words-word_has :
    (words : List Word) (p : Pair) (k : ℕ)
    → listed k (words_of p (build_contained_in_words words)) ≡ word_has p k words
unfolding build_contained_in_words listed lookup
build_contained_in_words-word_has words p k =
    let whole : k - 0 ≡ k = omega arith in
    listed-index_words p 0 k words [] ∙ rw whole (ground arith)
