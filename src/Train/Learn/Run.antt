-- ===== src/Train/Learn/Run.antt =====
-- The merge loop run_merges of src/bpe_train.rs, from a consistent start.
use supergigatoken.Base.{
  ℕ, zero, suc, ◌+◌, ◌-◌, ◌<◌, ◌≤◌, ◌≡◌, max, refl, sym, ap, ◌∙◌, inl, inr, ◌⊎◌, ◌||◌, Option, none,
  some, List, [], ◌∷◌, ◌++◌, Pair, Bytes, All, Bool-cases, length, length-append, map, ◌==◌, leb,
  pair_beq, append_assoc, append-nil, arith,
}
use supergigatoken.Train.Words.{Word, count_pairs}
use supergigatoken.Train.Learn.{Index, TieBreaking}
use supergigatoken.Train.Learn.Queue.{PriorityQueue, IsPriorityQueue}
use supergigatoken.Train.Learn.Changes.{Pairs, Pairs-both, Below}
use supergigatoken.Train.Learn.Index.{HasKey}
use supergigatoken.Train.Learn.Update.{
  IsSound, IsConsistent, texts, All-mono, update_words-IsUpdated,
}
use supergigatoken.Train.Learn.Loop.{
  apply_changes, Learner, merge_chosen, merge_round, merge_rounds, push_all, run_merges,
}
use supergigatoken.Train.Learn.Choose.{choose_pair-IsChosen, get_elem?-some}
use supergigatoken.Train.Learn.Keep.{
  bytes_of, get_or-last, get_or-get_elem?, texts-more, count_pairs-All, Queued, push_all-Queued,
  apply_changes-Queued, get_or-left,
}

-- The pair of bytes of a merge, put together.
abbrev pub joined : Bytes × Bytes → Bytes
joined m = m.0 ++ m.1

one_more :
    {A : Type 0} (s s' t : List A) (x : A) (xs : List A)
    → s' ≡ s ++ x ∷ []
    → t ≡ s' ++ xs
    → t ≡ s ++ x ∷ xs
one_more s s' t x xs e e' = rw (e', e, append_assoc) refl

module _ (pq : PriorityQueue) (laws : IsPriorityQueue pq) where
  abbrev IsMergeable : Index → ℕ → Pair → Type 0
  IsMergeable contained n p = HasKey p contained × Below n p

  pub record IsReady (l : Learner pq) : Type 0 where
    pub consistent : IsConsistent (length l.symbols) l.words l.contained_in_words
    pub queued : Queued pq laws (IsMergeable l.contained_in_words (length l.symbols)) l.queue

  record IsMerged (l : Learner pq) (r : Option (Learner pq)) : Type 0 where
    l' : Learner pq
    merge : Bytes × Bytes
    returned : r ≡ some l'
    ready : IsReady l'
    symbols : l'.symbols ≡ l.symbols ++ joined merge ∷ []
    merges : l'.merges ≡ l.merges ++ merge ∷ []
    spells : texts (bytes_of l'.symbols) l'.words ≡ texts (bytes_of l.symbols) l.words

  merge_chosen-IsMerged :
      (l : Learner pq) (pair : Pair) (q : pq.Queue)
      → IsConsistent (length l.symbols) l.words l.contained_in_words
      → IsMergeable l.contained_in_words (length l.symbols) pair
      → Queued pq laws (IsMergeable l.contained_in_words (length l.symbols)) q
      → IsMerged l (merge_chosen pq l pair q)
  unfolding merge_chosen
  merge_chosen-IsMerged l pair q con (key, below) qs =
      let n = length l.symbols in
      let (a, e) = get_elem?-some l.symbols pair.0 below.0 in
      let (b, e') = get_elem?-some l.symbols pair.1 below.1 in
      let symbols' = l.symbols ++ (a ++ b) ∷ [] in
      let longer : length symbols' ≡ suc n =
        omega (arith, length-append l.symbols ((a ++ b) ∷ [])) in
      let spelled : bytes_of symbols' n ≡ bytes_of symbols' pair.0 ++ bytes_of symbols' pair.1 =
        rw
          (
            get_or-last l.symbols (a ++ b),
            get_or-left l.symbols ((a ++ b) ∷ []) pair.0 below.0,
            get_or-left l.symbols ((a ++ b) ∷ []) pair.1 below.1,
            get_or-get_elem? l.symbols pair.0 a e,
            get_or-get_elem? l.symbols pair.1 b e',
          )
          refl in
      let u =
        update_words-IsUpdated n l.words l.contained_in_words pair (bytes_of symbols') con key
          spelled in
      let P = IsMergeable u.contained' (suc n) in
      let kept : Queued pq laws P q = λ p d h.
        let (k, lt) = qs p d h in (u.keeps p k, (omega (arith, lt.0), omega (arith, lt.1))) in
      record {
        l' = record {
          words = u.words';
          contained_in_words = u.contained';
          symbols = symbols';
          merges = l.merges ++ (a, b) ∷ [];
          queue = apply_changes pq u.changes q;
        };
        merge = (a, b);
        returned = rw (merge_chosen, e, e', u.returned) refl;
        ready = record {
          consistent = rw longer u.consistent;
          queued = rw longer (apply_changes-Queued pq laws P u.changes q u.counted kept);
        };
        symbols = refl;
        merges = refl;
        spells =
            u.spells
            ∙ texts-more l.symbols ((a ++ b) ∷ []) (λ p. HasKey p l.contained_in_words) l.words
                con.sound;
      }

  merge_round-IsMerged :
      (tie : TieBreaking) (l : Learner pq)
      → IsReady l
      → 0 < pq.len l.queue
      → IsMerged l (merge_round pq tie l)
  unfolding merge_round
  merge_round-IsMerged tie l ready filled =
      let c =
        choose_pair-IsChosen pq laws tie l.symbols l.queue filled
          (λ p d h. (ready.queued p d h).1) in
      let m =
        merge_chosen-IsMerged l c.pair c.rest ready.consistent
          (ready.queued c.pair c.count c.counted)
          (λ p d h. elim (Bool-cases (pair_beq c.pair p)) [
            | inl e ↦ let wrong : none ≡ some d = rw (c.without p, e) at h in absurd (ground arith)
            | inr e ↦ ready.queued p d (rw (c.without p, e) at h)
          ]) in
      record {
        l' = m.l';
        merge = m.merge;
        returned = rw (merge_round, c.returned) m.returned;
        ready = m.ready;
        symbols = m.symbols;
        merges = m.merges;
        spells = m.spells;
      }

  IsMergeable-words :
      (contained : Index) (n : ℕ) (words : List Word)
      → All (IsSound n (λ p. HasKey p contained)) words
      → All (λ w. Pairs (IsMergeable contained n) w.symbols) words
  IsMergeable-words contained n words h =
      All-mono (IsSound n (λ p. HasKey p contained))
        (λ w. Pairs (IsMergeable contained n) w.symbols)
        (λ w s. Pairs-both (λ p. HasKey p contained) n w.symbols s.pairs s.below) words h

  -- The result of the loop from `l` on.
  pub record IsLearned (max_symbols : ℕ) (l : Learner pq) (r : Option (Learner pq)) : Type 0 where
    pub l' : Learner pq
    pub new_merges : List (Bytes × Bytes)
    pub returned : r ≡ some l'
    pub merges : l'.merges ≡ l.merges ++ new_merges
    pub symbols : l'.symbols ≡ l.symbols ++ map joined new_merges
    pub spells : texts (bytes_of l'.symbols) l'.words ≡ texts (bytes_of l.symbols) l.words
    pub bounded : length l'.symbols ≤ max max_symbols (length l.symbols)
    pub complete : (pq.len l'.queue ≡ 0) ⊎ (max_symbols ≤ length l'.symbols)

  merge_rounds-IsLearned :
      (tie : TieBreaking) (max_symbols fuel : ℕ) (l : Learner pq)
      → IsReady l
      → 0 < fuel
      → max_symbols < fuel + length l.symbols
      → IsLearned max_symbols l (merge_rounds pq tie max_symbols fuel l)
  unfolding merge_rounds
  merge_rounds-IsLearned tie max_symbols zero l ready some_fuel enough = absurd (omega arith)
  merge_rounds-IsLearned tie max_symbols (suc fuel) l ready some_fuel enough =
      elim (Bool-cases (pq.len l.queue == 0 || leb max_symbols (length l.symbols))) [
        | inl stop ↦ record {
          l' = l;
          new_merges = [];
          returned = rw (merge_rounds, stop) refl;
          merges = sym (append-nil l.merges);
          symbols = sym (append-nil l.symbols);
          spells = refl;
          bounded = omega arith;
          complete = ground arith;
        }
        | inr more ↦
            let m = merge_round-IsMerged tie l ready (ground arith) in
            let longer : length m.l'.symbols ≡ suc (length l.symbols) =
              omega (arith, ap length m.symbols, length-append l.symbols (joined m.merge ∷ [])) in
            let small : length l.symbols < max_symbols = ground arith in
            let r =
              merge_rounds-IsLearned tie max_symbols fuel m.l' m.ready (omega (arith, small))
                (omega (arith, longer)) in
            record {
              l' = r.l';
              new_merges = m.merge ∷ r.new_merges;
              returned = rw (merge_rounds, more, m.returned) r.returned;
              merges =
                  one_more l.merges m.l'.merges r.l'.merges m.merge r.new_merges m.merges r.merges;
              symbols =
                  one_more l.symbols m.l'.symbols r.l'.symbols (joined m.merge)
                    (map joined r.new_merges) m.symbols r.symbols;
              spells = r.spells ∙ m.spells;
              bounded = omega (arith, r.bounded, longer);
              complete = r.complete;
            }
      ]

-- From words, a map from pairs to words and symbols that belong together, and with every priority
-- queue that behaves as documented, `run_merges` returns; it has added one symbol for each merge, the
-- bytes of its two sides one behind the other, has kept the text of every word, has not gone beyond
-- `max_symbols`, and has stopped at `max_symbols` or with an empty queue.
pub run_merges-IsLearned :
    (pq : PriorityQueue) (laws : IsPriorityQueue pq) (words : List Word) (contained : Index)
    (symbols : List Bytes) (max_symbols : ℕ) (tie : TieBreaking)
    → IsConsistent (length symbols) words contained
    → (l : Learner pq) × (run_merges pq words contained symbols max_symbols tie ≡ some l)
      × (l.symbols ≡ symbols ++ map joined l.merges)
      × (texts (bytes_of l.symbols) l.words ≡ texts (bytes_of symbols) words)
      × (length l.symbols ≤ max max_symbols (length symbols))
      × ((pq.len l.queue ≡ 0) ⊎ (max_symbols ≤ length l.symbols))
unfolding run_merges count_pairs
run_merges-IsLearned pq laws words contained symbols max_symbols tie con =
    let P : Pair → Type 0 = IsMergeable pq laws contained (length symbols) in
    let l : Learner pq = record {
      words = words;
      contained_in_words = contained;
      symbols = symbols;
      merges = [];
      queue = push_all pq (count_pairs words) pq.empty;
    } in
    let r =
      merge_rounds-IsLearned pq laws tie max_symbols (suc (max_symbols - length symbols)) l
        (record {
          consistent = con;
          queued =
              push_all-Queued pq laws P (count_pairs words) pq.empty
                (count_pairs-All P words []
                  (IsMergeable-words pq laws contained (length symbols) words con.sound) tt)
                (λ p d e.
                  let wrong : none ≡ some d = rw (laws.of_empty p) at e in absurd (ground arith));
        })
        (omega arith) (omega arith) in
    (r.l', r.returned, rw (r.merges) r.symbols, r.spells, r.bounded, r.complete)
