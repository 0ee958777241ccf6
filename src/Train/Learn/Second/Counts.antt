-- ===== src/Train/Learn/Second/Counts.antt =====
-- The counts of relaxed_unit_counts of src/bpe_train.rs: they are counted in every case, and what
-- holds of all bytes of the corpus holds of those of every unit.
use supergigatoken.Base.{
  ℕ, zero, suc, ◌+◌, ◌-◌, ◌≤◌, ◌<◌, ◌≡◌, max, refl, inl, inr, Option, none, leb, ◌&&◌, some, List,
  [], ◌∷◌, ◌++◌, Bytes, All, All-append, Bool-cases, ◌==◌, length, length-take, take, drop, insert,
  bytes_eq, bytes_beq, arith,
}
use supergigatoken.Train.Units.{
  UnitCounts, add_unit, add_units, push_line_units, split_lines, process_lines, process_docs,
  documents, cons_doc, process_all, relaxed_unit_counts,
}
use supergigatoken.Train.Units.Documents.{IsFindIter, documents-join}
use supergigatoken.Train.Units.Cover.{Covers, done, unit, line_units-Covers}

-- A counted unit: its bytes have the property, it is within the cap, and it occurs.
abbrev pub IsCountedUnit : (ℕ → Type 0) → ℕ → Bytes × ℕ → Type 0
IsCountedUnit P cap entry = All P entry.0 × (length entry.0 ≤ cap) × (0 < entry.1)

module _ (P : ℕ → Type 0) where
  All-take : (n : ℕ) (xs : List ℕ) → All P xs → All P (take n xs)
  All-take zero xs h = tt
  All-take (suc n) [] h = tt
  All-take (suc n) (x ∷ xs) h = (h.0, All-take n xs h.1)

  All-drop : (n : ℕ) (xs : List ℕ) → All P xs → All P (drop n xs)
  All-drop zero xs h = h
  All-drop (suc n) [] h = tt
  All-drop (suc n) (x ∷ xs) h = All-drop n xs h.1

  module _ (cap : ℕ) where
    abbrev IsPiece : Bytes → Type 0
    IsPiece u = All P u × (length u ≤ cap)

    Covers-All :
        (line : Bytes) (start : ℕ) (units : List Bytes)
        → All P line
        → Covers line cap start units
        → All IsPiece units
    Covers-All line start _ h (done e) = tt
    Covers-All line start _ h (unit {units = us} stop u c) = (
      (
        All-take (stop - start) (drop start line) (All-drop start line h),
        omega (arith, length-take (stop - start) (drop start line), u.within),
      ),
      Covers-All line stop us h c,
    )

    insert-All :
        (u : Bytes) (n : ℕ) (m : UnitCounts)
        → IsCountedUnit P cap (u, n)
        → All (IsCountedUnit P cap) m
        → All (IsCountedUnit P cap) (insert u n m)
    unfolding insert
    insert-All u n [] h k = (h, tt)
    insert-All u n ((v, c) ∷ m) h k = elim (Bool-cases (bytes_beq v u)) [
      | inl e ↦ rw (e, insert) (h, k.1)
      | inr e ↦ rw (e, insert) (k.0, insert-All u n m h k.1)
    ]

    add_units-All :
        (units : List Bytes) (m : UnitCounts)
        → All IsPiece units
        → All (IsCountedUnit P cap) m
        → All (IsCountedUnit P cap) (add_units units m)
    unfolding add_units add_unit
    add_units-All [] m h k = k
    add_units-All (u ∷ us) m h k =
        add_units-All us (add_unit u m) h.1 (insert-All u _ m (h.0.0, h.0.1, omega arith) k)

    abbrev IsCounted : Option UnitCounts → Type 0
    IsCounted r = (m : UnitCounts) × (r ≡ some m) × All (IsCountedUnit P cap) m

    module _ (some_cap : 0 < cap) where
      push_line_units-IsCounted :
          (line : Bytes) (m : UnitCounts)
          → All P line
          → All (IsCountedUnit P cap) m
          → IsCounted (push_line_units line cap m)
      unfolding push_line_units
      push_line_units-IsCounted line m h k =
          let (units, run, c) =
            line_units-Covers line cap (suc (length line)) 0 some_cap (omega arith) (omega arith) in
          (
            add_units units m,
            rw (push_line_units, run) refl,
            add_units-All units m (Covers-All line 0 units h c) k,
          )

      split_lines-All :
          (cur doc : Bytes) → All P cur → All P doc → All (All P) (split_lines cur doc)
      unfolding split_lines
      split_lines-All cur [] h k = (h, tt)
      split_lines-All cur (b ∷ doc) h k = elim (Bool-cases (b == 10)) [
        | inl e ↦ rw (split_lines, e) (h, split_lines-All [] doc tt k.1)
        | inr e ↦
            rw (split_lines, e)
              (split_lines-All (cur ++ b ∷ []) doc (All-append P cur (b ∷ []) h (k.0, tt)) k.1)
      ]

      process_lines-IsCounted :
          (lines : List Bytes) (m : UnitCounts)
          → All (All P) lines
          → All (IsCountedUnit P cap) m
          → IsCounted (process_lines cap lines m)
      unfolding process_lines
      process_lines-IsCounted [] m h k = (m, refl, k)
      process_lines-IsCounted ([] ∷ lines) m h k = process_lines-IsCounted lines m h.1 k
      process_lines-IsCounted ((b ∷ line) ∷ lines) m h k =
          let (m', run, k') = push_line_units-IsCounted (b ∷ line) m h.0 k in
          let (m2, run2, k2) = process_lines-IsCounted lines m' h.1 k' in
          (m2, rw (process_lines, run) run2, k2)

      process_docs-IsCounted :
          (docs : List Bytes) (m : UnitCounts)
          → All (All P) docs
          → All (IsCountedUnit P cap) m
          → IsCounted (process_docs cap docs m)
      unfolding process_docs
      process_docs-IsCounted [] m h k = (m, refl, k)
      process_docs-IsCounted (doc ∷ docs) m h k =
          let (m', run, k') =
            process_lines-IsCounted (split_lines [] doc) m (split_lines-All [] doc tt h.0) k in
          let (m2, run2, k2) = process_docs-IsCounted docs m' h.1 k' in
          (m2, rw (process_docs, run) run2, k2)

  cons_doc-All :
      (doc : Bytes) (docs : List Bytes) (o : Option (List Bytes))
      → All P doc
      → ((ds : List Bytes) → o ≡ some ds → All (All P) ds)
      → cons_doc doc o ≡ some docs
      → All (All P) docs
  cons_doc-All doc docs none h k e = absurd (cc)
  cons_doc-All doc docs (some ds) h k e =
      let same : doc ∷ ds ≡ docs = cc in rw (← same) (h, k ds refl)

  documents-All :
      (bytes : Bytes) (width last : ℕ) (positions : List ℕ) (docs : List Bytes)
      → All P bytes
      → documents bytes width last positions ≡ some docs
      → All (All P) docs
  unfolding documents
  documents-All bytes width last [] docs h e = elim (Bool-cases (leb last (length bytes))) [
    | inr out ↦ let lost : none ≡ some docs = rw (documents, out) at e in absurd (cc)
    | inl inside ↦
        let found : some (drop last bytes ∷ []) ≡ some docs = rw (documents, inside) at e in
        let same : drop last bytes ∷ [] ≡ docs = cc in rw (← same) (All-drop last bytes h, tt)
  ]
  documents-All bytes width last (p ∷ ps) docs h e =
      elim (Bool-cases (leb last p && leb p (length bytes))) [
        | inr out ↦ let lost : none ≡ some docs = rw (documents, out) at e in absurd (cc)
        | inl inside ↦
            cons_doc-All (take (p - last) (drop last bytes)) docs
              (documents bytes width (p + width) ps)
              (All-take (p - last) (drop last bytes) (All-drop last bytes h))
              (λ ds e'. documents-All bytes width (p + width) ps ds h e')
              (rw (documents, inside) at e)
      ]

  -- The units are counted, and they have the property of the bytes.
  pub relaxed_unit_counts-IsCounted :
      (find_iter : Bytes → Bytes → List ℕ) (bytes separator : Bytes) (max_unit_len : ℕ)
      → IsFindIter find_iter
      → All P bytes
      → (m : UnitCounts) × (relaxed_unit_counts find_iter bytes separator max_unit_len ≡ some m)
        × All (IsCountedUnit P (max max_unit_len 1)) m
  unfolding relaxed_unit_counts process_all
  relaxed_unit_counts-IsCounted find_iter bytes [] max_unit_len law h =
      process_docs-IsCounted (max max_unit_len 1) (omega arith) (bytes ∷ []) [] (h, tt) tt
  relaxed_unit_counts-IsCounted find_iter bytes (b ∷ separator) max_unit_len law h =
      let (docs, cut, whole) = documents-join find_iter bytes (b ∷ separator) law (λ e. cc) in
      let (m, run, k) =
        process_docs-IsCounted (max max_unit_len 1) (omega arith) docs []
          (documents-All bytes (suc (length separator)) 0 (find_iter bytes (b ∷ separator)) docs h
            cut)
          tt in
      (m, rw cut run, k)
