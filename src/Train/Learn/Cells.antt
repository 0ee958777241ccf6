-- ===== src/Train/Learn/Cells.antt =====
-- The table of the pairs of bytes in train_bpe of src/bpe_train.rs: what its cells and the map made of
-- them hold.
use supergigatoken.Base.{
  ℕ, zero, suc, ◌<◌, ◌≤◌, ◌≡◌, ◌≢◌, refl, inl, inr, List, [], ◌∷◌, Bytes, Pair, pair_beq,
  pair_beq_iff, All, All-append, Bool-cases, ◌==◌, length, length-append, arith,
}
use supergigatoken.Train.Learn.{Index, set_append}
use supergigatoken.Train.Learn.Changes.{Pairs, Pairs-mono}
use supergigatoken.Train.Learn.Index.{
  HasKey, HasKey-insert, HasKey-inserted, All-insert, Lists, set_append-All,
}
use supergigatoken.Train.Learn.Update.{All-mono}
use supergigatoken.Train.Learn.Start.{
  Cells, push_cell, cells_of_word, seed_words, insert_cell, collect_row, collect_rows,
}
use supergigatoken.Train.Learn.Seeds.{Seeded, IsSeed}

-- The cell of the pair is not empty.
abbrev pub IsHeld : Cells → Pair → Type 0
IsHeld cells p = 0 < length (cells p)

push_cell-keeps :
    (q : Pair) (i : ℕ) (cells : Cells) (p : Pair) → IsHeld cells p → IsHeld (push_cell q i cells) p
unfolding push_cell
push_cell-keeps q i cells p h = elim (Bool-cases (pair_beq q p)) [
  | inl e ↦ rw (push_cell, e) (omega (arith, length-append (cells p) (i ∷ [])))
  | inr e ↦ rw (push_cell, e) h
]

push_cell-IsHeld : (q : Pair) (i : ℕ) (cells : Cells) → IsHeld (push_cell q i cells) q
unfolding push_cell
push_cell-IsHeld q i cells =
    rw (push_cell, (pair_beq_iff q q).1 refl) (omega (arith, length-append (cells q) (i ∷ [])))

push_cell-All :
    (P : ℕ → Type 0) (q : Pair) (i : ℕ) (cells : Cells)
    → P i
    → ((p : Pair) → All P (cells p))
    → (p : Pair) → All P (push_cell q i cells p)
unfolding push_cell
push_cell-All P q i cells h k p = elim (Bool-cases (pair_beq q p)) [
  | inl e ↦ rw (push_cell, e) (All-append P (cells p) (i ∷ []) (k p) (h, tt))
  | inr e ↦ rw (push_cell, e) (k p)
]

word-keeps :
    (i : ℕ) (xs : List ℕ) (cells : Cells) (p : Pair)
    → IsHeld cells p
    → IsHeld (cells_of_word i xs cells) p
unfolding cells_of_word
word-keeps i [] cells p h = h
word-keeps i (x ∷ []) cells p h = h
word-keeps i (x ∷ y ∷ xs) cells p h =
    word-keeps i (y ∷ xs) (push_cell (x, y) i cells) p (push_cell-keeps (x, y) i cells p h)

word-Pairs : (i : ℕ) (xs : List ℕ) (cells : Cells) → Pairs (IsHeld (cells_of_word i xs cells)) xs
unfolding cells_of_word
word-Pairs i [] cells = tt
word-Pairs i (x ∷ []) cells = tt
word-Pairs i (x ∷ y ∷ xs) cells =
    let next = push_cell (x, y) i cells in
    (
      word-keeps i (y ∷ xs) next (x, y) (push_cell-IsHeld (x, y) i cells),
      word-Pairs i (y ∷ xs) next,
    )

word-All :
    (P : ℕ → Type 0) (i : ℕ) (xs : List ℕ) (cells : Cells)
    → (xs ≢ [] → P i)
    → ((p : Pair) → All P (cells p))
    → (p : Pair) → All P (cells_of_word i xs cells p)
unfolding cells_of_word
word-All P i [] cells h k p = k p
word-All P i (x ∷ []) cells h k p = k p
word-All P i (x ∷ y ∷ xs) cells h k p =
    let one : P i = h (λ e. absurd (ground arith)) in
    word-All P i (y ∷ xs) (push_cell (x, y) i cells) (λ e. one)
      (push_cell-All P (x, y) i cells one k) p

-- The bytes and the count of an entry of the counts.
abbrev pub IsEntry : Bytes × ℕ → Type 0
IsEntry entry = All (λ b. b < 256) entry.0 × (0 < entry.1)

seed_words-keeps :
    (i : ℕ) (counts : List (Bytes × ℕ)) (cells : Cells) (p : Pair)
    → IsHeld cells p
    → IsHeld (seed_words i counts cells).1 p
unfolding seed_words
seed_words-keeps i [] cells p h = h
seed_words-keeps i ((word, count) ∷ counts) cells p h =
    seed_words-keeps (suc i) counts (cells_of_word i word cells) p (word-keeps i word cells p h)

pub seed_words-Pairs :
    (i : ℕ) (counts : List (Bytes × ℕ)) (cells : Cells)
    → All
        (λ w. Pairs (IsHeld (seed_words i counts cells).1) w.symbols)
        (seed_words i counts cells).0
unfolding seed_words
seed_words-Pairs i [] cells = tt
seed_words-Pairs i ((word, count) ∷ counts) cells =
    let next = cells_of_word i word cells in
    (
      Pairs-mono (IsHeld next) (IsHeld (seed_words (suc i) counts next).1)
          (λ p h. seed_words-keeps (suc i) counts next p h) word (word-Pairs i word cells),
      seed_words-Pairs (suc i) counts next,
    )

pub seed_words-All :
    (P : ℕ → Type 0) (i : ℕ) (counts : List (Bytes × ℕ)) (cells : Cells)
    → Seeded P i (seed_words i counts cells).0
    → ((p : Pair) → All P (cells p))
    → (p : Pair) → All P ((seed_words i counts cells).1 p)
unfolding seed_words
seed_words-All P i [] cells h k p = k p
seed_words-All P i ((word, count) ∷ counts) cells h k p =
    seed_words-All P (suc i) counts (cells_of_word i word cells) h.1 (word-All P i word cells h.0 k)
      p

pub seed_words-IsSeed :
    (n i : ℕ) (counts : List (Bytes × ℕ)) (cells : Cells)
    → 256 ≤ n
    → All IsEntry counts
    → All (IsSeed n) (seed_words i counts cells).0
unfolding seed_words
seed_words-IsSeed n i [] cells le h = tt
seed_words-IsSeed n i ((word, count) ∷ counts) cells le h = (
  (All-mono (λ b. b < 256) (λ b. b < n) (λ b lt. omega arith) word h.0.0, ground (arith, h.0.1)),
  seed_words-IsSeed n (suc i) counts (cells_of_word i word cells) le h.1,
)

-- The loop over the table.

insert_cell-keeps :
    (q : Pair) (s : List ℕ) (m : Index) (p : Pair) → HasKey p m → HasKey p (insert_cell q s m)
unfolding insert_cell
insert_cell-keeps q [] m p h = h
insert_cell-keeps q (i ∷ is) m p h = HasKey-insert q (set_append (i ∷ is) []) m p h

insert_cell-HasKey :
    (q : Pair) (s : List ℕ) (m : Index) → 0 < length s → HasKey q (insert_cell q s m)
unfolding insert_cell
insert_cell-HasKey q [] m h = absurd (omega arith)
insert_cell-HasKey q (i ∷ is) m h =
    HasKey-inserted q (set_append (i ∷ is) []) m q ((pair_beq_iff q q).1 refl)

insert_cell-Lists :
    (P : ℕ → Type 0) (q : Pair) (s : List ℕ) (m : Index)
    → All P s
    → All (Lists P) m
    → All (Lists P) (insert_cell q s m)
unfolding insert_cell
insert_cell-Lists P q [] m h k = k
insert_cell-Lists P q (i ∷ is) m h k =
    All-insert (Lists P) q (set_append (i ∷ is) []) m (set_append-All P (i ∷ is) [] h tt) k

module _ (cells : Cells) where
  row-keeps : (i k : ℕ) (m : Index) (p : Pair) → HasKey p m → HasKey p (collect_row cells i k m)
  unfolding collect_row
  row-keeps i zero m p h = h
  row-keeps i (suc k) m p h =
      insert_cell-keeps (i, k) (cells (i, k)) (collect_row cells i k m) p (row-keeps i k m p h)

  row-HasKey :
      (i k : ℕ) (m : Index) (j : ℕ)
      → j < k
      → IsHeld cells (i, j)
      → HasKey (i, j) (collect_row cells i k m)
  unfolding collect_row
  row-HasKey i zero m j lt h = absurd (omega arith)
  row-HasKey i (suc k) m j lt h = elim (Bool-cases (j == k)) [
    | inl e ↦
        let same : k ≡ j = ground arith in
        rw (same) (insert_cell-HasKey (i, j) (cells (i, j)) (collect_row cells i j m) h)
    | inr ne ↦
        insert_cell-keeps (i, k) (cells (i, k)) (collect_row cells i k m) (i, j)
          (row-HasKey i k m j (ground arith) h)
  ]

  row-Lists :
      (P : ℕ → Type 0) (i k : ℕ) (m : Index)
      → ((p : Pair) → All P (cells p))
      → All (Lists P) m
      → All (Lists P) (collect_row cells i k m)
  unfolding collect_row
  row-Lists P i zero m h l = l
  row-Lists P i (suc k) m h l =
      insert_cell-Lists P (i, k) (cells (i, k)) (collect_row cells i k m) (h (i, k))
        (row-Lists P i k m h l)

  pub rows-HasKey :
      (n i j : ℕ) → i < n → j < 256 → IsHeld cells (i, j) → HasKey (i, j) (collect_rows cells n [])
  unfolding collect_rows
  rows-HasKey zero i j lt lt' h = absurd (omega arith)
  rows-HasKey (suc n) i j lt lt' h = elim (Bool-cases (i == n)) [
    | inl e ↦
        let same : n ≡ i = ground arith in
        rw (same) (row-HasKey i 256 (collect_rows cells i []) j lt' h)
    | inr ne ↦
        row-keeps n 256 (collect_rows cells n []) (i, j) (rows-HasKey n i j (ground arith) lt' h)
  ]

  pub rows-Lists :
      (P : ℕ → Type 0) (n : ℕ)
      → ((p : Pair) → All P (cells p))
      → All (Lists P) (collect_rows cells n [])
  unfolding collect_rows
  rows-Lists P zero h = tt
  rows-Lists P (suc n) h = row-Lists P n 256 (collect_rows cells n []) h (rows-Lists P n h)
