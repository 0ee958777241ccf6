-- ===== src/Train/Units/Documents.antt =====
-- The documents that relaxed_unit_counts of src/bpe_train.rs cuts a corpus into.
use supergigatoken.Base.{
  ℕ, ◌+◌, ◌-◌, ◌≤◌, ◌≡◌, ◌≢◌, refl, sym, ap, ◌∙◌, true, some, List, [], ◌∷◌, ◌++◌, Bytes, leb,
  length, take, drop, take-append-drop, drop-drop, arith,
}
use supergigatoken.Train.Units.{documents}

-- Occurrences of `needle` from `last` on, ascending and without overlap.
abbrev pub AreMatches : Bytes → Bytes → ℕ → List ℕ → Type 0
AreMatches bytes needle last [] = Unit
AreMatches bytes needle last (pos ∷ positions) =
    (last ≤ pos)
    × (pos + length needle ≤ length bytes)
    × (take (length needle) (drop pos bytes) ≡ needle)
    × AreMatches bytes needle (pos + length needle) positions

-- What the memchr library documents of `find_iter`.
abbrev pub IsFindIter : (Bytes → Bytes → List ℕ) → Type 0
IsFindIter find_iter =
    (bytes needle : Bytes) → needle ≢ [] → AreMatches bytes needle 0 (find_iter bytes needle)

-- The documents with the separator between them.
unfoldable pub join : Bytes → List Bytes → Bytes
join separator [] = []
join separator (doc ∷ []) = doc
join separator (doc ∷ d ∷ docs) = doc ++ (separator ++ join separator (d ∷ docs))

pub join-cons :
    (separator doc : Bytes) (docs : List Bytes)
    → docs ≢ []
    → join separator (doc ∷ docs) ≡ doc ++ (separator ++ join separator docs)
unfolding join
join-cons separator doc [] h = absurd (h refl)
join-cons separator doc (d ∷ docs) h = refl

documents-join_from :
    (bytes separator : Bytes) (last : ℕ) (positions : List ℕ)
    → last ≤ length bytes
    → AreMatches bytes separator last positions
    → (docs : List Bytes) × (documents bytes (length separator) last positions ≡ some docs)
      × (docs ≢ [])
      × (join separator docs ≡ drop last bytes)
unfolding documents join
documents-join_from bytes separator last [] inside m =
    let e : leb last (length bytes) ≡ true = ground arith in
    (drop last bytes ∷ [], rw e refl, λ h. cc, refl)
documents-join_from bytes separator last (pos ∷ positions) inside (le, room, hit, m) =
    let (docs, run, more, whole) =
      documents-join_from bytes separator (pos + length separator) positions room m in
    let before : leb last pos ≡ true = ground arith in
    let within : leb pos (length bytes) ≡ true = ground arith in
    let doc = take (pos - last) (drop last bytes) in
    let behind : drop (pos - last) (drop last bytes) ≡ drop pos bytes =
      drop-drop last (pos - last) pos bytes (omega arith) in
    let next : drop (length separator) (drop pos bytes) ≡ drop (pos + length separator) bytes =
      drop-drop pos (length separator) (pos + length separator) bytes refl in
    let tail : separator ++ join separator docs ≡ drop pos bytes =
      ap (λ s. s ++ join separator docs) (sym hit)
      ∙ ap (λ t. take (length separator) (drop pos bytes) ++ t) (whole ∙ sym next)
      ∙ take-append-drop (length separator) (drop pos bytes) in
    (
      doc ∷ docs,
      rw (before, within, run) refl,
      λ h. cc,
      join-cons separator doc docs more
          ∙ ap (λ t. doc ++ t) (tail ∙ sym behind)
          ∙ take-append-drop (pos - last) (drop last bytes),
    )

-- With every substring search that behaves as documented, and a separator that is not empty, no slice of
-- the corpus is out of range, and the documents with the separator between them are the corpus.
pub documents-join :
    (find_iter : Bytes → Bytes → List ℕ) (bytes separator : Bytes)
    → IsFindIter find_iter
    → separator ≢ []
    → (docs : List Bytes) × (documents bytes (length separator) 0 (find_iter bytes separator)
        ≡ some docs)
      × (join separator docs ≡ bytes)
documents-join find_iter bytes separator law filled =
    let (docs, run, more, whole) =
      documents-join_from bytes separator 0 (find_iter bytes separator) (omega arith)
        (law bytes separator filled) in
    (docs, run, whole)
