-- ===== src/Train/Words/Text.antt =====
-- The merge of one pair in one word of src/bpe_train.rs keeps the word's text, and leaves no
-- occurrence of the pair.
use supergigatoken.Base.{
  ℕ, ◌≡◌, ◌≢◌, refl, false, Option, none, some, List, [], ◌∷◌, ◌++◌, Pair, ◌==◌, ◌&&◌, arith,
  Bool-cases, Bytes, map, concat, append_assoc, ◌⊎◌, inl, inr,
}
use supergigatoken.Base.Int.{ℤ}
use supergigatoken.Train.Words.{Word, Change, update_from, update_word}
use supergigatoken.Train.Words.Update.{update_merge, update_skip}

-- The text that a list of symbols spells.
abbrev pub text : (ℕ → Bytes) → List ℕ → Bytes
text bytes xs = concat (map bytes xs)

-- No two adjacent symbols are the pair.
abbrev pub Lacks : Pair → List ℕ → Type 0
Lacks pair [] = Unit
Lacks pair (x ∷ []) = Unit
Lacks pair (x ∷ y ∷ xs) = ((x == pair.0 && y == pair.1) ≡ false) × Lacks pair (y ∷ xs)

module _ (pair : Pair) (new : ℕ) (c : ℤ) where
  pub update_from-text :
      (bytes : ℕ → Bytes) (left : Option ℕ) (xs : List ℕ)
      → bytes new ≡ bytes pair.0 ++ bytes pair.1
      → text bytes (update_from pair new c left xs).0 ≡ text bytes xs
  update_from-text bytes left [] h = unfold update_from in refl
  update_from-text bytes left (x ∷ []) h = unfold update_from in refl
  update_from-text bytes left (x ∷ y ∷ rest) h = elim (Bool-cases (x == pair.0 && y == pair.1)) [
    | inl e ↦
        let first : x ≡ pair.0 = ground arith in
        let second : y ≡ pair.1 = ground arith in
        rw (
          update_merge pair new c left x y rest e,
          update_from-text bytes (some new) rest h,
          h,
          first,
          second,
          append_assoc,
        )
    | inr e ↦
        rw (update_skip pair new c left x y rest e, update_from-text bytes (some x) (y ∷ rest) h)
  ]

  -- The head of the updated symbols is the old head or the new symbol.
  Starts : List ℕ → List ℕ → Type 0
  Starts [] zs = Unit
  Starts (x ∷ xs) [] = ⊥
  Starts (x ∷ xs) (z ∷ zs) = (z ≡ x) ⊎ (z ≡ new)

  Lacks-new : (zs : List ℕ) → new ≢ pair.0 → Lacks pair zs → Lacks pair (new ∷ zs)
  Lacks-new [] h l = tt
  Lacks-new (z ∷ zs) h l = (ground arith, l)

  Lacks-skip :
      (x y : ℕ) (rest zs : List ℕ)
      → new ≢ pair.1
      → (x == pair.0 && y == pair.1) ≡ false
      → Starts (y ∷ rest) zs
      → Lacks pair zs
      → Lacks pair (x ∷ zs)
  unfolding Starts
  Lacks-skip x y rest [] h e s l = tt
  Lacks-skip x y rest (z ∷ zs) h e (inl s) l = (ground arith, l)
  Lacks-skip x y rest (z ∷ zs) h e (inr s) l = (ground arith, l)

  update_from-Lacks :
      (left : Option ℕ) (xs : List ℕ)
      → new ≢ pair.0
      → new ≢ pair.1
      → Lacks pair (update_from pair new c left xs).0 × Starts xs (update_from pair new c left xs).0
  unfolding Starts
  update_from-Lacks left [] h h' = unfold update_from in (tt, tt)
  update_from-Lacks left (x ∷ []) h h' = unfold update_from in (tt, inl refl)
  update_from-Lacks left (x ∷ y ∷ rest) h h' = elim (Bool-cases (x == pair.0 && y == pair.1)) [
    | inl e ↦
        let (lacks, starts) = update_from-Lacks (some new) rest h h' in
        rw (update_merge pair new c left x y rest e) (Lacks-new _ h lacks, inr refl)
    | inr e ↦
        let (lacks, starts) = update_from-Lacks (some x) (y ∷ rest) h h' in
        rw (update_skip pair new c left x y rest e)
          (Lacks-skip x y rest _ h' e starts lacks, inl refl)
  ]

-- A nonempty word is updated; if the new symbol is none of the pair's and spells their texts one
-- after the other, the updated word spells the same text and has no occurrence of the pair.
pub update_word-text :
    (w : Word) (pair : Pair) (new : ℕ) (bytes : ℕ → Bytes)
    → w.symbols ≢ []
    → bytes new ≡ bytes pair.0 ++ bytes pair.1
    → new ≢ pair.0
    → new ≢ pair.1
    → (w' : Word) × (changes : List Change) × (update_word w pair new ≡ some (w', changes))
      × (text bytes w'.symbols ≡ text bytes w.symbols)
      × Lacks pair w'.symbols
unfolding update_word
update_word-text w pair new bytes filled h h0 h1 = split w.symbols refl
  where
    split :
        (xs : List ℕ)
        → w.symbols ≡ xs
        → (w' : Word) × (changes : List Change) × (update_word w pair new ≡ some (w', changes))
          × (text bytes w'.symbols ≡ text bytes w.symbols)
          × Lacks pair w'.symbols
    split [] e = absurd (filled e)
    split (x ∷ xs) e =
        let r = update_from pair new w.word_count none (x ∷ xs) in
        (
          record w { symbols = r.0 },
          r.1,
          rw (e, update_word),
          rw e (update_from-text pair new w.word_count bytes none (x ∷ xs) h),
          (update_from-Lacks pair new w.word_count none (x ∷ xs) h0 h1).0,
        )
