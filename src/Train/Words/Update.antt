-- ===== src/Train/Words/Update.antt =====
-- What the merge of one pair in one word of src/bpe_train.rs does: the recorded changes are the
-- difference of the word's pair counts, no occurrence of the pair is left, and the text is the same.
use supergigatoken.Base.{
  ℕ, suc, ◌+◌, ◌≡◌, ◌≢◌, refl, true, false, Option, none, some, List, [], ◌∷◌, ◌++◌, Pair, pair_beq,
  ◌==◌, ◌&&◌, if◌then◌else◌, arith, Bool-cases, inl, inr, length,
}
use supergigatoken.Base.Int.{ℤ, pos, neg, ◌+ℤ◌, int_laws, parts, times}
use supergigatoken.Train.Words.{Word, Change, update_from, update_word, left_changes, right_changes}

-- `d` if the pair `p` is `q`, else nothing.
share : Pair → Pair → ℤ → ℤ
share q p d = if pair_beq p q then d else pos 0

share-neg : (q p : Pair) (d : ℤ) → share q p (neg d) ≡ neg (share q p d)
unfolding share neg
share-neg q p d = ground arith

-- The sum of the recorded changes of the pair `q`.
pub net : Pair → List Change → ℤ
net q [] = pos 0
net q ((p, d) ∷ changes) = share q p d +ℤ net q changes

-- The count of the pair `q` in a word with the given symbols and count.
pub weight : Pair → ℤ → List ℕ → ℤ
weight q c [] = pos 0
weight q c (x ∷ []) = pos 0
weight q c (x ∷ y ∷ xs) = share q (x, y) c +ℤ weight q c (y ∷ xs)

abbrev behind : Option ℕ → List ℕ → List ℕ
behind none xs = xs
behind (some l) xs = l ∷ xs

net-append : (q : Pair) (a b : List Change) → net q (a ++ b) ≡ net q a +ℤ net q b
unfolding net
net-append q [] b = omega int_laws
net-append q ((p, d) ∷ a) b = omega (int_laws, parts (net-append q a b))

weight-cons :
    (q : Pair) (c : ℤ) (x y : ℕ) (xs : List ℕ)
    → weight q c (x ∷ y ∷ xs) ≡ share q (x, y) c +ℤ weight q c (y ∷ xs)
unfolding weight
weight-cons q c x y xs = refl

times-suc : (k : ℕ) (d : ℤ) → times (suc k) d ≡ d +ℤ times k d
unfolding times
times-suc k d = refl

pub update_merge :
    (pair : Pair) (new : ℕ) (c : ℤ) (left : Option ℕ) (x y : ℕ) (rest : List ℕ)
    → (x == pair.0 && y == pair.1) ≡ true
    → update_from pair new c left (x ∷ y ∷ rest) ≡ (
      new ∷ (update_from pair new c (some new) rest).0,
      left_changes pair new c left
          ++ right_changes pair new c rest
          ++ (update_from pair new c (some new) rest).1,
    )
unfolding update_from
update_merge pair new c left x y rest e = rw (e, update_from)

pub update_skip :
    (pair : Pair) (new : ℕ) (c : ℤ) (left : Option ℕ) (x y : ℕ) (rest : List ℕ)
    → (x == pair.0 && y == pair.1) ≡ false
    → update_from pair new c left (x ∷ y ∷ rest) ≡ (
      x ∷ (update_from pair new c (some x) (y ∷ rest)).0,
      (update_from pair new c (some x) (y ∷ rest)).1,
    )
unfolding update_from
update_skip pair new c left x y rest e = rw (e, update_from)

module _ (pair : Pair) (new : ℕ) (c : ℤ) (q : Pair) where
  -- The share of the pair that the left neighbour makes with `z`.
  left_share : Option ℕ → ℕ → ℤ
  left_share none z = pos 0
  left_share (some l) z = share q (l, z) c

  weight-behind :
      (left : Option ℕ) (z : ℕ) (xs : List ℕ)
      → weight q c (behind left (z ∷ xs)) ≡ left_share left z +ℤ weight q c (z ∷ xs)
  unfolding weight left_share
  weight-behind none z xs = omega int_laws
  weight-behind (some l) z xs = refl

  net-left :
      (left : Option ℕ)
      → net q (left_changes pair new c left) +ℤ left_share left pair.0 ≡ left_share left new
  unfolding net left_changes left_share
  net-left none = omega int_laws
  net-left (some l) = omega (int_laws, parts (share-neg q (l, pair.0) c))

  net-right :
      (rest : List ℕ)
      → weight q c (pair.1 ∷ rest) +ℤ net q (right_changes pair new c rest)
        ≡ weight q c (new ∷ rest)
  unfolding net right_changes weight
  net-right [] = omega int_laws
  net-right (r ∷ rest) = omega (int_laws, parts (share-neg q (pair.1, r) c))

  -- The merged symbols, weighed with the merges that were made, are the old ones with the changes.
  Balanced : Option ℕ → List ℕ → List ℕ × List Change → Type 0
  Balanced left xs r =
      (k : ℕ) × (length xs ≡ length r.0 + k)
      × (weight q c (behind left r.0) +ℤ times k (share q pair c)
          ≡ weight q c (behind left xs) +ℤ net q r.1)

  Balanced-merge :
      (left : Option ℕ) (rest : List ℕ) (r : List ℕ × List Change)
      → Balanced (some new) rest r
      → Balanced left
          (pair.0 ∷ pair.1 ∷ rest)
          (new ∷ r.0, left_changes pair new c left ++ right_changes pair new c rest ++ r.1)
  unfolding Balanced times weight
  Balanced-merge left rest r (k, len, e) = (
    suc k,
    omega arith,
    rw (weight-behind left new r.0, weight-behind left pair.0 (pair.1 ∷ rest))
        (omega (
          int_laws,
          parts e,
          parts (weight-cons q c pair.0 pair.1 rest),
          parts (times-suc k (share q pair c)),
          parts (net-left left),
          parts (net-right rest),
          parts (net-append q (left_changes pair new c left ++ right_changes pair new c rest) r.1),
          parts (net-append q (left_changes pair new c left) (right_changes pair new c rest)),
        )),
  )

  Balanced-skip :
      (left : Option ℕ) (x : ℕ) (xs : List ℕ) (r : List ℕ × List Change)
      → Balanced (some x) xs r
      → Balanced left (x ∷ xs) (x ∷ r.0, r.1)
  unfolding Balanced
  Balanced-skip left x xs r (k, len, e) = (
    k,
    omega arith,
    rw (weight-behind left x r.0, weight-behind left x xs) (omega (int_laws, parts e)),
  )

  Balanced-short : (left : Option ℕ) (xs : List ℕ) → Balanced left xs (xs, [])
  unfolding Balanced times net
  Balanced-short left xs = (0, omega arith, omega int_laws)

  update_from-Balanced :
      (left : Option ℕ) (xs : List ℕ) → Balanced left xs (update_from pair new c left xs)
  update_from-Balanced left [] = unfold update_from in Balanced-short left []
  update_from-Balanced left (x ∷ []) = unfold update_from in Balanced-short left (x ∷ [])
  update_from-Balanced left (x ∷ y ∷ rest) = elim (Bool-cases (x == pair.0 && y == pair.1)) [
    | inl e ↦
        let first : x ≡ pair.0 = ground arith in
        let second : y ≡ pair.1 = ground arith in
        rw (update_merge pair new c left x y rest e, first, second)
          (Balanced-merge left rest (update_from pair new c (some new) rest)
            (update_from-Balanced (some new) rest))
    | inr e ↦ rw (update_skip pair new c left x y rest e) (
        Balanced-skip left x (y ∷ rest) (update_from pair new c (some x) (y ∷ rest))
          (update_from-Balanced (some x) (y ∷ rest)))
  ]

-- A nonempty word is updated, and for every pair the recorded changes are the difference of its
-- counts: the count after the update, plus one word count for each of the `k` merges if it is the
-- merged pair, is the count before plus the recorded changes of the pair.
pub update_word-net :
    (w : Word) (pair : Pair) (new : ℕ) (q : Pair)
    → w.symbols ≢ []
    → (w' : Word) × (changes : List Change) × (k : ℕ) × (update_word w pair new
        ≡ some (w', changes))
      × (length w.symbols ≡ length w'.symbols + k)
      × (weight q w.word_count w'.symbols
            +ℤ times k (if pair_beq pair q then w.word_count else pos 0)
          ≡ weight q w.word_count w.symbols +ℤ net q changes)
unfolding update_word Balanced share
update_word-net w pair new q filled = split w.symbols refl
  where
    split :
        (xs : List ℕ)
        → w.symbols ≡ xs
        → (w' : Word) × (changes : List Change) × (k : ℕ) × (update_word w pair new
            ≡ some (w', changes))
          × (length w.symbols ≡ length w'.symbols + k)
          × (weight q w.word_count w'.symbols
                +ℤ times k (if pair_beq pair q then w.word_count else pos 0)
              ≡ weight q w.word_count w.symbols +ℤ net q changes)
    split [] e = absurd (filled e)
    split (x ∷ xs) e =
        let r = update_from pair new w.word_count none (x ∷ xs) in
        let (k, len, balance) = update_from-Balanced pair new w.word_count q none (x ∷ xs) in
        (record w { symbols = r.0 }, r.1, k, rw (e, update_word), rw e len, rw e balance)
