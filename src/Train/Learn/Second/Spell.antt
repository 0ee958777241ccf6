-- ===== src/Train/Learn/Second/Spell.antt =====
-- The words of the second stage of src/bpe_train.rs spell the units that they encode: the merges of the
-- first stage join the bytes of their sides.
use supergigatoken.Base.{
  ℕ, suc, ◌≤◌, ◌<◌, ◌≡◌, ◌≢◌, refl, sym, ap, ◌∙◌, inl, inr, Option, none, some, List, [], ◌∷◌, ◌++◌,
  Bytes, Pair, All, Bool-cases, Option-cases, length, lookup, lookup-insert, pair_eq, pair_beq,
  pair_beq_iff, bytes_eq, bytes_beq, bytes_beq_iff, map, arith, append_assoc, length-append, ◌⊎◌,
  ltb, ltb→lt, set, get_or-set_self, get_or-set_ne, ◌==◌, ==_iff, nat_eq,
}
use supergigatoken.Base.Int.{ℤ, pos}
use supergigatoken.Merge.Spec.{Table, max_rank, Merges, done, step}
use supergigatoken.Merge.Heap.{map_rank, rank_or_max}
use supergigatoken.Merge.Heap.Correct.{simple_bpe_merge-Merges}
use supergigatoken.Train.Words.{Word}
use supergigatoken.Train.Words.Text.{text}
use supergigatoken.Train.Units.{UnitCounts}
use supergigatoken.Train.Learn.Keep.{bytes_of}
use supergigatoken.Train.Learn.Second.{
  fill_symbols, or_insert, ids_of, insert_merge, merge_map, push_encoded, seed_units,
}

-- The id of a symbol is that of its bytes.
abbrev pub AreNamed : List Bytes → List (Bytes × ℕ) → Type 0
AreNamed symbols ids = (k : Bytes) (v : ℕ) → lookup k ids ≡ some v → bytes_of symbols v ≡ k

-- A merged symbol has the bytes of its two sides, one behind the other.
abbrev pub AreJoined : List Bytes → List (Pair × ℕ) → Type 0
AreJoined symbols merges =
    (a b v : ℕ)
    → lookup (a, b) merges ≡ some v
    → bytes_of symbols v ≡ bytes_of symbols a ++ bytes_of symbols b

get_or-front :
    (front : List Bytes) (s : Bytes) (back : List Bytes)
    → bytes_of (front ++ s ∷ back) (length front) ≡ s
get_or-front [] s back = refl
get_or-front (x ∷ front) s back = get_or-front front s back

or_insert-AreNamed :
    (symbols : List Bytes) (s : Bytes) (id : ℕ) (o : Option ℕ) (ids : List (Bytes × ℕ))
    → bytes_of symbols id ≡ s
    → AreNamed symbols ids
    → AreNamed symbols (or_insert s id o ids)
unfolding or_insert
or_insert-AreNamed symbols s id (some w) ids e h k v found = h k v found
or_insert-AreNamed symbols s id none ids e h k v found = elim (Bool-cases (bytes_beq s k)) [
  | inl t ↦
      let same : s ≡ k = (bytes_beq_iff s k).0 t in
      let hit : some id ≡ some v = rw (lookup-insert s k id ids, t) at found in
      let here : id ≡ v = cc in ap (bytes_of symbols) (sym here) ∙ e ∙ same
  | inr t ↦ h k v (rw (lookup-insert s k id ids, t) at found)
]

ids_of-AreNamed :
    (all front back : List Bytes) (id : ℕ) (ids : List (Bytes × ℕ))
    → all ≡ front ++ back
    → id ≡ length front
    → AreNamed all ids
    → AreNamed all (ids_of id back ids)
unfolding ids_of
ids_of-AreNamed all front [] id ids e n h = h
ids_of-AreNamed all front (s ∷ back) id ids e n h =
    ids_of-AreNamed all (front ++ s ∷ []) back (suc id) (or_insert s id (lookup s ids) ids)
      (e ∙ sym (append_assoc front (s ∷ []) back)) (omega (arith, n, length-append front (s ∷ [])))
      (or_insert-AreNamed all s id (lookup s ids) ids (rw (e, n) (get_or-front front s back)) h)

insert_merge-AreJoined :
    (symbols : List Bytes) (l r : Bytes) (li ri mi : Option ℕ) (m : List (Pair × ℕ))
    → ((v : ℕ) → li ≡ some v → bytes_of symbols v ≡ l)
    → ((v : ℕ) → ri ≡ some v → bytes_of symbols v ≡ r)
    → ((v : ℕ) → mi ≡ some v → bytes_of symbols v ≡ l ++ r)
    → AreJoined symbols m
    → AreJoined symbols (insert_merge li ri mi m)
unfolding insert_merge
insert_merge-AreJoined symbols l r none ri mi m f g k h a b v found = h a b v found
insert_merge-AreJoined symbols l r (some x) none mi m f g k h a b v found = h a b v found
insert_merge-AreJoined symbols l r (some x) (some y) none m f g k h a b v found = h a b v found
insert_merge-AreJoined symbols l r (some x) (some y) (some z) m f g k h a b v found =
    elim (Bool-cases (pair_beq (x, y) (a, b))) [
      | inl t ↦
          let same : (x, y) ≡ (a, b) = (pair_beq_iff (x, y) (a, b)).0 t in
          let hit : some z ≡ some v = rw (lookup-insert (x, y) (a, b) z m, t) at found in
          let here : z ≡ v = cc in
          let left : x ≡ a = ap (λ p. p.0) same in
          let right : y ≡ b = ap (λ p. p.1) same in
          rw (← here, ← left, ← right, f x refl, g y refl) (k z refl)
      | inr t ↦ h a b v (rw (lookup-insert (x, y) (a, b) z m, t) at found)
    ]

merge_map-AreJoined :
    (symbols : List Bytes) (ids : List (Bytes × ℕ)) (merges : List (Bytes × Bytes))
    (m : List (Pair × ℕ))
    → AreNamed symbols ids
    → AreJoined symbols m
    → AreJoined symbols (merge_map ids merges m)
unfolding merge_map
merge_map-AreJoined symbols ids [] m h k = k
merge_map-AreJoined symbols ids ((l, r) ∷ merges) m h k =
    merge_map-AreJoined symbols ids merges
      (insert_merge (lookup l ids) (lookup r ids) (lookup (l ++ r) ids) m) h
      (insert_merge-AreJoined symbols l r (lookup l ids) (lookup r ids) (lookup (l ++ r) ids) m
        (h l) (h r) (h (l ++ r)) k)

text-append : (f : ℕ → Bytes) (xs ys : List ℕ) → text f (xs ++ ys) ≡ text f xs ++ text f ys
text-append f [] ys = refl
text-append f (x ∷ xs) ys =
    rw (text-append f xs ys) (sym (append_assoc (f x) (text f xs) (text f ys)))

map_rank-found :
    (merges : List (Pair × ℕ)) (a b : ℕ)
    → map_rank merges a b < max_rank
    → lookup (a, b) merges ≡ some (map_rank merges a b)
unfolding map_rank rank_or_max
map_rank-found merges a b lt = elim (Option-cases (lookup (a, b) merges)) [
  | inl e ↦ let high : map_rank merges a b ≡ max_rank = rw e refl in absurd (omega (arith, high))
  | inr (v, e) ↦ rw e refl
]

module _ (symbols : List Bytes) (merges : List (Pair × ℕ)) (joins : AreJoined symbols merges) where
  Merges-text :
      (xs ys : List ℕ)
      → Merges (map_rank merges) (map_rank merges) xs ys
      → text (bytes_of symbols) ys ≡ text (bytes_of symbols) xs
  Merges-text xs _ (done h) = refl
  Merges-text xs ys (step left a b right e best m) =
      let f = bytes_of symbols in
      let one : f (map_rank merges a b) ≡ f a ++ f b =
        joins a b (map_rank merges a b) (map_rank-found merges a b best.merges) in
      let rest = text f right in
      Merges-text (left ++ map_rank merges a b ∷ right) ys m
      ∙ text-append f left (map_rank merges a b ∷ right)
      ∙ ap (λ t. text f left ++ (t ++ rest)) one
      ∙ ap (λ t. text f left ++ t) (append_assoc (f a) (f b) rest)
      ∙ sym (text-append f left (a ∷ b ∷ right))
      ∙ sym (ap (text f) e)

Merges-nil : (rank : Table) (xs ys : List ℕ) → xs ≡ [] → Merges rank rank xs ys → ys ≡ []
Merges-nil rank xs _ e (done h) = e
Merges-nil rank xs ys e (step left a b right e' best m) =
    absurd (omega (arith, ap length e, ap length e', length-append left (a ∷ b ∷ right)))

-- The symbols below 256 are the bytes.
abbrev pub AreBytes : List Bytes → Type 0
AreBytes symbols = (b : ℕ) → b < 256 → bytes_of symbols b ≡ b ∷ []

text-bytes :
    (symbols : List Bytes) (unit : Bytes)
    → AreBytes symbols
    → All (λ b. b < 256) unit
    → text (bytes_of symbols) unit ≡ unit
text-bytes symbols [] h k = refl
text-bytes symbols (b ∷ unit) h k = rw (h b k.0, text-bytes symbols unit h k.1) refl

-- The bytes of the words, with their counts.
abbrev pub spelled : List Bytes → List Word → List (Bytes × ℤ)
spelled symbols words = map (λ w. (text (bytes_of symbols) w.symbols, w.word_count)) words

-- The units that are not empty, with their counts.
pub filled_units : UnitCounts → List (Bytes × ℤ)
filled_units [] = []
filled_units (([], count) ∷ units) = filled_units units
filled_units ((b ∷ unit, count) ∷ units) = (b ∷ unit, pos count) ∷ filled_units units

push_encoded-spelled :
    (symbols : List Bytes) (unit : Bytes) (tokens : List ℕ) (count : ℕ) (units : UnitCounts)
    (words : List Word)
    → text (bytes_of symbols) tokens ≡ unit
    → (unit ≡ [] → tokens ≡ [])
    → spelled symbols words ≡ filled_units units
    → spelled symbols (push_encoded tokens count words) ≡ filled_units ((unit, count) ∷ units)
unfolding push_encoded filled_units
push_encoded-spelled symbols [] [] count units words e k h = h
push_encoded-spelled symbols (b ∷ unit) [] count units words e k h = absurd (cc)
push_encoded-spelled symbols [] (t ∷ tokens) count units words e k h = absurd (cc (k refl))
push_encoded-spelled symbols (b ∷ unit) (t ∷ tokens) count units words e k h = rw (e, h) refl

-- Every unit that is not empty becomes a word that spells it, with its count.
pub seed_units-spelled :
    (symbols : List Bytes) (merges : List (Pair × ℕ)) (units : UnitCounts) (words : List Word)
    → AreBytes symbols
    → AreJoined symbols merges
    → All (λ entry. entry.1 ≤ max_rank) merges
    → All (λ entry. All (λ b. b < 256) entry.0 × (length entry.0 ≤ max_rank)) units
    → seed_units merges units ≡ some words
    → spelled symbols words ≡ filled_units units
unfolding seed_units filled_units
seed_units-spelled symbols merges [] words bytes joins small h e =
    let none_left : [] ≡ words = cc in rw (← none_left) refl
seed_units-spelled symbols merges ((u, count) ∷ units) words bytes joins small h e =
    let (tokens, run, m) = simple_bpe_merge-Merges merges u small h.0.1 in
    elim (Option-cases (seed_units merges units)) [
      | inl lost ↦ let nothing : none ≡ some words = rw (seed_units, run, lost) at e in absurd (cc)
      | inr (rest, found) ↦
          let hit : some (push_encoded tokens count rest) ≡ some words =
            rw (seed_units, run, found) at e in
          let same : push_encoded tokens count rest ≡ words = cc in
          rw (← same) (
            push_encoded-spelled symbols u tokens count units rest
              (Merges-text symbols merges joins u tokens m ∙ text-bytes symbols u bytes h.0.0)
              (λ empty. Merges-nil (map_rank merges) u tokens empty m)
              (seed_units-spelled symbols merges units rest bytes joins small h.1 found))
    ]

-- The map of the first stage's merges joins bytes.
pub stage1_merges-AreJoined :
    (symbols : List Bytes) (merges : List (Bytes × Bytes))
    → AreJoined symbols (merge_map (ids_of 0 symbols []) merges [])
unfolding lookup
stage1_merges-AreJoined symbols merges =
    merge_map-AreJoined symbols (ids_of 0 symbols []) merges []
      (ids_of-AreNamed symbols [] symbols 0 [] refl refl (λ k v e. cc)) (λ a b v e. cc)

-- The ids below 256 are those of the bytes.
pub record IsByteVocab (vocab : List (ℕ × Bytes)) : Type 0 where
  pub bytes : All (λ entry. entry.0 < 256 → entry.1 ≡ entry.0 ∷ []) vocab
  pub all_there : (b : ℕ) → b < 256 → lookup b vocab ≢ none

fill_symbols-byte :
    (vocab : List (ℕ × Bytes)) (symbols filled : List Bytes) (b : ℕ)
    → b < 256
    → All (λ entry. entry.0 < 256 → entry.1 ≡ entry.0 ∷ []) vocab
    → (lookup b vocab ≢ none) ⊎ (bytes_of symbols b ≡ b ∷ [])
    → fill_symbols vocab symbols ≡ some filled
    → bytes_of filled b ≡ b ∷ []
unfolding fill_symbols lookup
fill_symbols-byte [] symbols filled b small h (inl k) e = absurd (k refl)
fill_symbols-byte [] symbols filled b small h (inr k) e =
    let same : symbols ≡ filled = cc in rw (← same) k
fill_symbols-byte ((id, s) ∷ vocab) symbols filled b small h k e =
    elim (Bool-cases (ltb id (length symbols))) [
      | inr out ↦ let lost : none ≡ some filled = rw (fill_symbols, out) at e in absurd (cc)
      | inl inside ↦
          let run : fill_symbols vocab (set symbols id s) ≡ some filled =
            rw (fill_symbols, inside) at e in
          fill_symbols-byte vocab (set symbols id s) filled b small h.1
            (elim (Bool-cases (id == b)) [
              | inl same ↦
                  let here : id ≡ b = (==_iff id b).0 same in
                  inr (
                    ap (λ i. bytes_of (set symbols id s) i) (sym here)
                    ∙ get_or-set_self symbols id s [] (ltb→lt _ _ inside)
                    ∙ h.0 (omega (arith, here, small))
                    ∙ ap (λ i. i ∷ []) here)
              | inr other ↦ elim k [
                | inl there ↦ inl (λ gone. there (rw (lookup, other) gone))
                | inr old ↦
                    inr (
                      get_or-set_ne symbols id b s [] (λ q. absurd (ground (arith, q, other)))
                      ∙ old)
              ]
            ])
            run
    ]

pub fill_symbols-AreBytes :
    (vocab : List (ℕ × Bytes)) (symbols filled : List Bytes)
    → IsByteVocab vocab
    → fill_symbols vocab symbols ≡ some filled
    → AreBytes filled
fill_symbols-AreBytes vocab symbols filled h e b small =
    fill_symbols-byte vocab symbols filled b small h.bytes (inl (h.all_there b small)) e
