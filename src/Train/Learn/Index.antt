-- ===== src/Train/Learn/Index.antt =====
-- The map contained_in_words of src/bpe_train.rs: which pairs have a key, which words are listed, and
-- how recording changes and merging the updates keep both.
use supergigatoken.Base.{
  ℕ, ◌≡◌, refl, inl, inr, ◌⊎◌, true, none, some, List, [], ◌∷◌, Pair, ◌==◌, All, Bool-cases, ltb,
  lookup, insert, pair_eq, pair_beq, pair_beq_iff, lookup-insert, arith, Option-cases,
}
use supergigatoken.Base.Int.{pos, ltb_ℤ}
use supergigatoken.Train.Words.{Change, add_count}
use supergigatoken.Train.Learn.{
  Index, set_insert, set_append, or_default, add_index, Updates, record_change, record_changes,
  merge_index,
}

pub record HasKey {ℓ} {V : Type ℓ} (p : Pair) (m : List (Pair × V)) : Type ℓ where
  pub value : V
  pub found : lookup p m ≡ some value

module _ {ℓ} {V : Type ℓ} where
  some-injective : (v w : V) → some v ≡ some w → v ≡ w
  some-injective v w e = cc

  pub HasKey-insert :
      (k : Pair) (v : V) (m : List (Pair × V)) (p : Pair) → HasKey p m → HasKey p (insert k v m)
  HasKey-insert k v m p h = elim (Bool-cases (pair_beq k p)) [
    | inl e ↦ record { value = v; found = rw (lookup-insert k p v m, e) refl }
    | inr e ↦ record { value = h.value; found = rw (lookup-insert k p v m, e) h.found }
  ]

  pub HasKey-inserted :
      (k : Pair) (v : V) (m : List (Pair × V)) (p : Pair)
      → pair_beq k p ≡ true
      → HasKey p (insert k v m)
  HasKey-inserted k v m p e = record { value = v; found = rw (lookup-insert k p v m, e) refl }

  pub All-insert :
      (P : Pair × V → Type 0) (k : Pair) (v : V) (m : List (Pair × V))
      → P (k, v)
      → All P m
      → All P (insert k v m)
  unfolding insert
  All-insert P k v [] p h = (p, tt)
  All-insert P k v ((j, w) ∷ m) p h = elim (Bool-cases (pair_beq j k)) [
    | inl e ↦ rw (e, insert) (p, h.1)
    | inr e ↦ rw (e, insert) (h.0, All-insert P k v m p h.1)
  ]

  pub All-lookup :
      (P : Pair × V → Type 0) (k : Pair) (m : List (Pair × V)) (v : V)
      → lookup k m ≡ some v
      → All P m
      → P (k, v)
  unfolding lookup
  All-lookup P k [] v e h = absurd (ground arith)
  All-lookup P k ((j, w) ∷ m) v e h = elim (Bool-cases (pair_beq j k)) [
    | inl e' ↦
        let same : j ≡ k = (pair_beq_iff j k).0 e' in
        let value : w ≡ v = some-injective w v (rw (e', lookup) at e) in rw (← same, ← value) h.0
    | inr e' ↦ All-lookup P k m v (rw (e', lookup) at e) h.1
  ]

set_insert-All : (P : ℕ → Type 0) (i : ℕ) (s : List ℕ) → P i → All P s → All P (set_insert i s)
unfolding set_insert
set_insert-All P i [] p h = (p, tt)
set_insert-All P i (j ∷ js) p h = elim (Bool-cases (i == j)) [
  | inl e ↦ rw (e, set_insert) h
  | inr e ↦ elim (Bool-cases (ltb i j)) [
    | inl e' ↦ rw (e, e', set_insert) (p, h)
    | inr e' ↦ rw (e, e', set_insert) (h.0, set_insert-All P i js p h.1)
  ]
]

pub set_append-All : (P : ℕ → Type 0) (is s : List ℕ) → All P is → All P s → All P (set_append is s)
unfolding set_append
set_append-All P [] s h h' = h'
set_append-All P (i ∷ is) s h h' =
    set_append-All P is (set_insert i s) h.1 (set_insert-All P i s h.0 h')

-- Every listed word has the property.
abbrev pub Lists : (ℕ → Type 0) → Pair × List ℕ → Type 0
Lists P entry = All P entry.1

or_default-All :
    (P : ℕ → Type 0) (p : Pair) (m : Index) → All (Lists P) m → All P (or_default (lookup p m))
or_default-All P p m h = elim (Option-cases (lookup p m)) [
  | inl e ↦ rw e tt
  | inr (s, e) ↦ rw e (All-lookup (Lists P) p m s e h)
]

pub add_index-Lists :
    (P : ℕ → Type 0) (p : Pair) (i : ℕ) (m : Index)
    → P i
    → All (Lists P) m
    → All (Lists P) (add_index p i m)
unfolding add_index
add_index-Lists P p i m h hs =
    All-insert (Lists P) p (set_insert i (or_default (lookup p m))) m
      (set_insert-All P i (or_default (lookup p m)) h (or_default-All P p m hs)) hs

-- Recording.

abbrev pub Recorded : Updates → Change → Type 0
Recorded u ch = ltb_ℤ (pos 0) ch.1 ≡ true → HasKey ch.0 u.contained

module _ (i : ℕ) where
  record_change-HasKey :
      (ch : Change) (u : Updates) (p : Pair)
      → HasKey p u.contained
      → HasKey p (record_change i ch u).contained
  unfolding record_change add_index
  record_change-HasKey (q, d) u p h = elim (Bool-cases (ltb_ℤ (pos 0) d)) [
    | inl e ↦
        rw (record_change, e)
          (HasKey-insert q (set_insert i (or_default (lookup q u.contained))) u.contained p h)
    | inr e ↦ rw (record_change, e) h
  ]

  record_change-Recorded : (ch : Change) (u : Updates) → Recorded (record_change i ch u) ch
  unfolding record_change add_index
  record_change-Recorded (q, d) u e =
      rw (record_change, e)
        (HasKey-inserted q (set_insert i (or_default (lookup q u.contained))) u.contained q
          ((pair_beq_iff q q).1 refl))

  pub record_changes-HasKey :
      (chs : List Change) (u : Updates) (p : Pair)
      → HasKey p u.contained
      → HasKey p (record_changes i chs u).contained
  unfolding record_changes
  record_changes-HasKey [] u p h = h
  record_changes-HasKey (ch ∷ chs) u p h =
      record_changes-HasKey chs (record_change i ch u) p (record_change-HasKey ch u p h)

  -- Every pair whose count grows has a key afterwards.
  pub record_changes-Recorded :
      (chs : List Change) (u : Updates) → All (Recorded (record_changes i chs u)) chs
  unfolding record_changes
  record_changes-Recorded [] u = tt
  record_changes-Recorded (ch ∷ chs) u = (
    λ e. record_changes-HasKey chs (record_change i ch u) ch.0 (record_change-Recorded ch u e),
    record_changes-Recorded chs (record_change i ch u),
  )

  pub record_changes-Lists :
      (P : ℕ → Type 0) (chs : List Change) (u : Updates)
      → P i
      → All (Lists P) u.contained
      → All (Lists P) (record_changes i chs u).contained
  unfolding record_changes record_change
  record_changes-Lists P [] u h hs = hs
  record_changes-Lists P ((q, d) ∷ chs) u h hs =
      record_changes-Lists P chs (record_change i (q, d) u) h (elim (Bool-cases (ltb_ℤ (pos 0) d)) [
        | inl e ↦ rw (record_change, e) (add_index-Lists P q i u.contained h hs)
        | inr e ↦ rw (record_change, e) hs
      ])

  -- The pairs of the counted changes.
  pub record_changes-counts :
      (P : Pair → Type 0) (chs : List Change) (u : Updates)
      → All (λ ch. P ch.0) chs
      → All (λ entry. P entry.0) u.counts
      → All (λ entry. P entry.0) (record_changes i chs u).counts
  unfolding record_changes record_change add_count
  record_changes-counts P [] u h hs = hs
  record_changes-counts P ((q, d) ∷ chs) u h hs =
      record_changes-counts P chs (record_change i (q, d) u) h.1
        (All-insert (λ entry. P entry.0) q _ u.counts h.0 hs)

pub merge_index-Lists :
    (P : ℕ → Type 0) (updates m : Index)
    → All (Lists P) updates
    → All (Lists P) m
    → All (Lists P) (merge_index updates m)
unfolding merge_index
merge_index-Lists P [] m h hs = hs
merge_index-Lists P ((p, s) ∷ updates) m h hs =
    let merged = set_append s (or_default (lookup p m)) in
    merge_index-Lists P updates (insert p merged m) h.1 (
      All-insert (Lists P) p merged m
        (set_append-All P s (or_default (lookup p m)) h.0 (or_default-All P p m hs)) hs)

merge_index-keeps : (updates m : Index) (p : Pair) → HasKey p m → HasKey p (merge_index updates m)
unfolding merge_index
merge_index-keeps [] m p h = h
merge_index-keeps ((q, s) ∷ updates) m p h =
    let merged = set_append s (or_default (lookup q m)) in
    merge_index-keeps updates (insert q merged m) p (HasKey-insert q merged m p h)

pub merge_index-HasKey :
    (updates m : Index) (p : Pair)
    → HasKey p updates ⊎ HasKey p m
    → HasKey p (merge_index updates m)
unfolding merge_index lookup
merge_index-HasKey updates m p (inr h) = merge_index-keeps updates m p h
merge_index-HasKey [] m p (inl h) =
    let wrong : none ≡ some h.value = h.found in absurd (ground arith)
merge_index-HasKey ((q, s) ∷ updates) m p (inl h) =
    let merged = set_append s (or_default (lookup q m)) in
    elim (Bool-cases (pair_beq q p)) [
      | inl e ↦ merge_index-keeps updates (insert q merged m) p (HasKey-inserted q merged m p e)
      | inr e ↦
          merge_index-HasKey updates (insert q merged m) p
            (inl (record { value = h.value; found = rw (e, lookup) at h.found }))
    ]
