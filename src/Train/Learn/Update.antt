-- ===== src/Train/Learn/Update.antt =====
-- The function update_words of src/bpe_train.rs: which pairs and words it leaves consistent.
use supergigatoken.Base.{
  ℕ, zero, suc, ◌<◌, ◌≤◌, ◌≡◌, ◌≢◌, refl, ◌∙◌, inl, inr, ◌⊎◌, true, Option, none, some, List, [],
  ◌∷◌, ◌++◌, Pair, ◌==◌, ◌&&◌, All, Bytes, Bool-cases, pair_eq, get_elem?, set, map, arith,
}
use supergigatoken.Base.Int.{ℤ, pos, ltb_ℤ}
use supergigatoken.Train.Words.{Word, Change, Counts, update_from, update_word}
use supergigatoken.Train.Words.Update.{update_merge, update_skip}
use supergigatoken.Train.Words.Text.{text, update_from-text}
use supergigatoken.Train.Learn.{
  Index, Updates, record_changes, update_at, update_each, update_words, merge_index,
}
use supergigatoken.Train.Learn.Changes.{
  Pairs, Pairs-mono, Below, update_from-Kept, update_from-Ranged,
}
use supergigatoken.Train.Learn.Index.{
  HasKey, Lists, Recorded, record_changes-HasKey, record_changes-Recorded, record_changes-Lists,
  record_changes-counts, merge_index-Lists, merge_index-HasKey, All-lookup,
}

module _ {A : Type 0} where
  pub All-mono : (P Q : A → Type 0) → ((a : A) → P a → Q a) → (xs : List A) → All P xs → All Q xs
  All-mono P Q f [] h = tt
  All-mono P Q f (x ∷ xs) h = (f x h.0, All-mono P Q f xs h.1)

  All-both : (P Q : A → Type 0) (xs : List A) → All P xs → All Q xs → All (λ a. P a × Q a) xs
  All-both P Q [] h k = tt
  All-both P Q (x ∷ xs) h k = ((h.0, k.0), All-both P Q xs h.1 k.1)

  All-at : (P : A → Type 0) (xs : List A) (i : ℕ) (a : A) → get_elem? xs i ≡ some a → All P xs → P a
  All-at P [] i a e h = absurd (ground arith)
  All-at P (x ∷ xs) zero a e h = let same : x ≡ a = cc in rw (← same) h.0
  All-at P (x ∷ xs) (suc i) a e h = All-at P xs i a e h.1

  All-set : (P : A → Type 0) (xs : List A) (i : ℕ) (a : A) → P a → All P xs → All P (set xs i a)
  All-set P [] i a p h = tt
  All-set P (x ∷ xs) zero a p h = (p, h.1)
  All-set P (x ∷ xs) (suc i) a p h = (h.0, All-set P xs i a p h.1)

  map-set :
      {B : Type 0} (f : A → B) (xs : List A) (i : ℕ) (a b : A)
      → get_elem? xs i ≡ some a
      → f b ≡ f a
      → map f (set xs i b) ≡ map f xs
  map-set f [] i a b e h = refl
  map-set f (x ∷ xs) zero a b e h = let same : x ≡ a = cc in rw (h, same) refl
  map-set f (x ∷ xs) (suc i) a b e h = rw (map-set f xs i a b e h) refl

-- A word of the list with a symbol.
pub record Filled (words : List Word) (i : ℕ) : Type 0 where
  pub word : Word
  pub there : get_elem? words i ≡ some word
  pub filled : word.symbols ≢ []

Filled-set :
    (words : List Word) (i : ℕ) (w : Word) (j : ℕ)
    → w.symbols ≢ []
    → Filled words j
    → Filled (set words i w) j
Filled-set [] i w j h f = f
Filled-set (x ∷ words) zero w zero h f = record { word = w; there = refl; filled = h }
Filled-set (x ∷ words) zero w (suc j) h f = record {
  word = f.word;
  there = f.there;
  filled = f.filled;
}
Filled-set (x ∷ words) (suc i) w zero h f = record {
  word = f.word;
  there = f.there;
  filled = f.filled;
}
Filled-set (x ∷ words) (suc i) w (suc j) h f =
    let g =
      Filled-set words i w j h (record { word = f.word; there = f.there; filled = f.filled }) in
    record { word = g.word; there = g.there; filled = g.filled }

-- A word whose symbols are below `n`, whose pairs are in K, and which occurs.
pub record IsSound (n : ℕ) (K : Pair → Type 0) (w : Word) : Type 0 where
  pub below : All (λ x. x < n) w.symbols
  pub pairs : Pairs K w.symbols
  pub occurs : ltb_ℤ (pos 0) w.word_count ≡ true

pub IsSound-mono :
    (n n' : ℕ) (K L : Pair → Type 0)
    → n ≤ n'
    → ((p : Pair) → K p → L p)
    → (w : Word) → IsSound n K w
    → IsSound n' L w
IsSound-mono n n' K L le f w s = record {
  below = All-mono (λ x. x < n) (λ x. x < n') (λ x lt. omega arith) w.symbols s.below;
  pairs = Pairs-mono K L f w.symbols s.pairs;
  occurs = s.occurs;
}

abbrev pub texts : (ℕ → Bytes) → List Word → List Bytes
texts bytes words = map (λ w. text bytes w.symbols) words

update_from-filled :
    (pair : Pair) (new : ℕ) (c : ℤ) (left : Option ℕ) (xs : List ℕ)
    → xs ≢ []
    → (update_from pair new c left xs).0 ≢ []
update_from-filled pair new c left [] h = absurd (h refl)
update_from-filled pair new c left (x ∷ []) h = unfold update_from in (λ e. absurd (ground arith))
update_from-filled pair new c left (x ∷ y ∷ rest) h =
    elim (Bool-cases (x == pair.0 && y == pair.1)) [
      | inl e ↦ rw (update_merge pair new c left x y rest e) (λ e'. absurd (ground arith))
      | inr e ↦ rw (update_skip pair new c left x y rest e) (λ e'. absurd (ground arith))
    ]

update_word-filled :
    (w : Word) (pair : Pair) (new : ℕ)
    → w.symbols ≢ []
    → update_word w pair new
      ≡ some (
        record w { symbols = (update_from pair new w.word_count none w.symbols).0 },
        (update_from pair new w.word_count none w.symbols).1,
      )
unfolding update_word
update_word-filled w pair new h = split w.symbols refl
  where
    split :
        (xs : List ℕ)
        → w.symbols ≡ xs
        → update_word w pair new
          ≡ some (
            record w { symbols = (update_from pair new w.word_count none w.symbols).0 },
            (update_from pair new w.word_count none w.symbols).1,
          )
    split [] e = absurd (h e)
    split (x ∷ xs) e = rw (e, update_word) refl

-- A pair with a key, or with a new one.
abbrev pub IsKeyed : Index → Updates → Pair → Type 0
IsKeyed contained u p = HasKey p u.contained ⊎ HasKey p contained

abbrev pub IsCounted : ℕ → (Pair → Type 0) → Pair × ℤ → Type 0
IsCounted n K entry = K entry.0 × Below n entry.0

-- Between two words of a round.
record Midway (n : ℕ) (contained : Index) (words : List Word) (u : Updates) : Type 0 where
  sound : All (IsSound n (IsKeyed contained u)) words
  lists : All (Lists (Filled words)) u.contained
  counts : All (IsCounted n (IsKeyed contained u)) u.counts

module _ (n : ℕ) (contained : Index) (pair : Pair) (new : ℕ) (bytes : ℕ → Bytes) (fresh : new < n)
    (spelled : bytes new ≡ bytes pair.0 ++ bytes pair.1) where
  record IsStep (words : List Word) (r : Option (List Word × Updates)) : Type 0 where
    words' : List Word
    updates : Updates
    returned : r ≡ some (words', updates)
    midway : Midway n contained words' updates
    keeps : (j : ℕ) → Filled words j → Filled words' j
    spells : texts bytes words' ≡ texts bytes words

  IsKeyed-record :
      (i : ℕ) (chs : List Change) (u : Updates) (p : Pair)
      → IsKeyed contained u p
      → IsKeyed contained (record_changes i chs u) p
  IsKeyed-record i chs u p (inl h) = inl (record_changes-HasKey i chs u p h)
  IsKeyed-record i chs u p (inr h) = inr h

  update_at-IsStep :
      (words : List Word) (u : Updates) (i : ℕ)
      → Filled words i
      → Midway n contained words u
      → IsStep words (update_at pair new i words u)
  unfolding update_at
  update_at-IsStep words u i f m =
      let w = f.word in
      let c = w.word_count in
      let r = update_from pair new c none w.symbols in
      let w' : Word = record w { symbols = r.0 } in
      let u' = record_changes i r.1 u in
      let K = IsKeyed contained u' in
      let s : IsSound n K w =
        IsSound-mono n n (IsKeyed contained u) K (omega arith) (IsKeyed-record i r.1 u) w
          (All-at (IsSound n (IsKeyed contained u)) words i w f.there m.sound) in
      let added : All (λ ch. ch.1 ≡ c → K ch.0) r.1 =
        All-mono (Recorded u') (λ ch. ch.1 ≡ c → K ch.0) (λ ch rec e. inl (rec (rw e s.occurs))) r.1
          (record_changes-Recorded i r.1 u) in
      let (known, pairs) = update_from-Kept pair new c K none w.symbols s.pairs added in
      let (ranged, below) = update_from-Ranged pair new c n fresh none w.symbols tt s.below in
      let filled = update_from-filled pair new c none w.symbols f.filled in
      let keeps : (j : ℕ) → Filled words j → Filled (set words i w') j =
        λ j. Filled-set words i w' j filled in
      record {
        words' = set words i w';
        updates = u';
        returned = rw (update_at, f.there, update_word-filled w pair new f.filled) refl;
        midway = record {
          sound =
              All-set (IsSound n K) words i w'
                (record { below = below; pairs = pairs; occurs = s.occurs })
                (All-mono (IsSound n (IsKeyed contained u)) (IsSound n K)
                  (IsSound-mono n n (IsKeyed contained u) K (omega arith) (IsKeyed-record i r.1 u))
                  words m.sound);
          lists = record_changes-Lists i (Filled (set words i w')) r.1 u (keeps i f) (
              All-mono (Lists (Filled words)) (Lists (Filled (set words i w')))
                (λ e h. All-mono (Filled words) (Filled (set words i w')) keeps e.1 h) u.contained
                m.lists);
          counts =
              record_changes-counts i (λ p. K p × Below n p) r.1 u
                (All-both (λ ch. K ch.0) (λ ch. Below n ch.0) r.1 known ranged)
                (All-mono (IsCounted n (IsKeyed contained u)) (IsCounted n K)
                  (λ e h. (IsKeyed-record i r.1 u e.0 h.0, h.1)) u.counts m.counts);
        };
        keeps = keeps;
        spells =
            map-set (λ v. text bytes v.symbols) words i w w' f.there
              (update_from-text pair new c bytes none w.symbols spelled);
      }

  update_each-IsStep :
      (is : List ℕ) (words : List Word) (u : Updates)
      → All (Filled words) is
      → Midway n contained words u
      → IsStep words (update_each pair new is words u)
  unfolding update_each
  update_each-IsStep [] words u h m = record {
    words' = words;
    updates = u;
    returned = refl;
    midway = m;
    keeps = λ j f. f;
    spells = refl;
  }
  update_each-IsStep (i ∷ is) words u h m =
      let first = update_at-IsStep words u i h.0 m in
      let rest =
        update_each-IsStep is first.words' first.updates
          (All-mono (Filled words) (Filled first.words') first.keeps is h.1) first.midway in
      record {
        words' = rest.words';
        updates = rest.updates;
        returned = rw (update_each, first.returned) rest.returned;
        midway = rest.midway;
        keeps = λ j f. rest.keeps j (first.keeps j f);
        spells = rest.spells ∙ first.spells;
      }

-- The words and the map belong together: every pair of a word has a key, and listed words have a
-- symbol. All symbols are below `n`.
pub record IsConsistent (n : ℕ) (words : List Word) (contained : Index) : Type 0 where
  pub sound : All (IsSound n (λ p. HasKey p contained)) words
  pub lists : All (Lists (Filled words)) contained

-- What a call of update_words with the new symbol `n` leaves.
pub record IsUpdated (n : ℕ) (bytes : ℕ → Bytes) (words : List Word) (contained : Index)
    (r : Option (List Word × Index × Counts)) : Type 0 where
  pub words' : List Word
  pub contained' : Index
  pub changes : Counts
  pub returned : r ≡ some (words', contained', changes)
  pub consistent : IsConsistent (suc n) words' contained'
  pub counted : All (IsCounted (suc n) (λ p. HasKey p contained')) changes
  pub keeps : (p : Pair) → HasKey p contained → HasKey p contained'
  pub spells : texts bytes words' ≡ texts bytes words

pub update_words-IsUpdated :
    (n : ℕ) (words : List Word) (contained : Index) (pair : Pair) (bytes : ℕ → Bytes)
    → IsConsistent n words contained
    → HasKey pair contained
    → bytes n ≡ bytes pair.0 ++ bytes pair.1
    → IsUpdated n bytes words contained (update_words words contained pair n)
unfolding update_words
update_words-IsUpdated n words contained pair bytes con key spelled =
    let u : Updates = record { counts = []; contained = [] } in
    let before : Midway (suc n) contained words u = record {
      sound =
          All-mono (IsSound n (λ p. HasKey p contained)) (IsSound (suc n) (IsKeyed contained u))
            (IsSound-mono n (suc n) (λ p. HasKey p contained) (IsKeyed contained u) (omega arith)
              (λ p h. inr h))
            words con.sound;
      lists = tt;
      counts = tt;
    } in
    let step =
      update_each-IsStep (suc n) contained pair n bytes (omega arith) spelled key.value words u
        (All-lookup (Lists (Filled words)) pair contained key.value key.found con.lists) before in
    let found = step.updates in
    let after = merge_index found.contained contained in
    let has : (p : Pair) → IsKeyed contained found p → HasKey p after =
      merge_index-HasKey found.contained contained in
    record {
      words' = step.words';
      contained' = after;
      changes = found.counts;
      returned = rw (update_words, key.found, step.returned) refl;
      consistent = record {
        sound =
            All-mono (IsSound (suc n) (IsKeyed contained found))
              (IsSound (suc n) (λ p. HasKey p after))
              (IsSound-mono (suc n) (suc n) (IsKeyed contained found) (λ p. HasKey p after)
                (omega arith) has)
              step.words' step.midway.sound;
        lists = merge_index-Lists (Filled step.words') found.contained contained step.midway.lists (
            All-mono (Lists (Filled words)) (Lists (Filled step.words'))
              (λ e h. All-mono (Filled words) (Filled step.words') step.keeps e.1 h) contained
              con.lists);
      };
      counted =
          All-mono (IsCounted (suc n) (IsKeyed contained found))
            (IsCounted (suc n) (λ p. HasKey p after)) (λ e h. (has e.0 h.0, h.1)) found.counts
            step.midway.counts;
      keeps = λ p h. has p (inr h);
      spells = step.spells;
    }
