-- ===== src/Merge/Heap/Pop.antt =====
-- The heap of the merge loop of src/bpe/mod.rs: popping the least entry, and the packing of entries.
use supergigatoken.Base.{
  ℕ, suc, ◌%◌, ◌/◌, ◌≤◌, ◌<◌, ◌≡◌, ◌≢◌, refl, inl, inr, Bool, true, false, ◌||◌, Option, none, some,
  List, [], ◌∷◌, leb, ◌==◌, length, Bool-cases, Option-cases, arith,
}
use supergigatoken.Merge.Heap.{pop_min, push_entry, pack_merge_entry}
use supergigatoken.Merge.Spec.{max_rank}

abbrev pub has_entry : ℕ → List ℕ → Bool
has_entry e [] = false
has_entry e (x ∷ xs) = x == e || has_entry e xs

pub pop_min-none : (h : List ℕ) → pop_min h ≡ none → h ≡ []
unfolding pop_min
pop_min-none [] e = refl
pop_min-none (x ∷ xs) e = elim (Option-cases (pop_min xs)) [
  | inl n ↦
      let wrong : ◌≡◌ {A = Option (ℕ × List ℕ)} (some (x, [])) none = rw (pop_min, n) at e in
      absurd (ground arith)
  | inr ((y, ys), r) ↦ elim (Bool-cases (leb x y)) [
    | inl t ↦
        let wrong : ◌≡◌ {A = Option (ℕ × List ℕ)} (some (x, xs)) none = rw (pop_min, r, t) at e in
        absurd (ground arith)
    | inr t ↦
        let wrong : ◌≡◌ {A = Option (ℕ × List ℕ)} (some (y, x ∷ ys)) none =
          rw (pop_min, r, t) at e in
        absurd (ground arith)
  ]
]

-- The least entry is gone, every other one is left.
pub record IsPopped (h : List ℕ) (e : ℕ) (rest : List ℕ) : Type 0 where
  pub least : (x : ℕ) → has_entry x h ≡ true → e ≤ x
  pub others : (x : ℕ) → x ≢ e → has_entry x h ≡ true → has_entry x rest ≡ true
  pub subset : (x : ℕ) → has_entry x rest ≡ true → has_entry x h ≡ true
  pub member : has_entry e h ≡ true
  pub shorter : length h ≡ suc (length rest)

IsPopped-one : (x : ℕ) → IsPopped (x ∷ []) x []
IsPopped-one x = record {
  least = λ y m. ground arith;
  others = λ y ne m. ground arith;
  subset = λ y m. absurd (ground arith);
  member = ground arith;
  shorter = refl;
}

IsPopped-first :
    (x : ℕ) (xs : List ℕ) (y : ℕ) (ys : List ℕ) → x ≤ y → IsPopped xs y ys → IsPopped (x ∷ xs) x xs
IsPopped-first x xs y ys le p = record {
  least = λ z m. ground (arith, p.least z);
  others = λ z ne m. ground arith;
  subset = λ z m. ground arith;
  member = ground arith;
  shorter = refl;
}

IsPopped-later :
    (x : ℕ) (xs : List ℕ) (y : ℕ) (ys : List ℕ)
    → y < x
    → IsPopped xs y ys
    → IsPopped (x ∷ xs) y (x ∷ ys)
IsPopped-later x xs y ys lt p = record {
  least = λ z m. ground (arith, p.least z);
  others = λ z ne m. ground (arith, p.others z ne);
  subset = λ z m. ground (arith, p.subset z);
  member = ground (arith, p.member);
  shorter = omega (arith, p.shorter);
}

-- A heap with an entry pops its least.
pub pop_min-some :
    (x : ℕ) (xs : List ℕ)
    → (e : ℕ) × (rest : List ℕ) × (pop_min (x ∷ xs) ≡ some (e, rest)) × IsPopped (x ∷ xs) e rest
unfolding pop_min
pop_min-some x [] = (x, [], refl, IsPopped-one x)
pop_min-some x (z ∷ zs) =
    let (y, ys, run, p) = pop_min-some z zs in
    elim (Bool-cases (leb x y)) [
      | inl t ↦
          (x, z ∷ zs, rw (pop_min, run, t) refl, IsPopped-first x (z ∷ zs) y ys (ground arith) p)
      | inr t ↦
          (y, x ∷ ys, rw (pop_min, run, t) refl, IsPopped-later x (z ∷ zs) y ys (ground arith) p)
    ]

pub push_entry-keeps :
    (m pos x : ℕ) (h : List ℕ) → has_entry x h ≡ true → has_entry x (push_entry m pos h) ≡ true
unfolding push_entry
push_entry-keeps m pos x h e = ground arith

pub push_entry-here :
    (m pos : ℕ) (h : List ℕ)
    → m ≢ max_rank
    → has_entry (pack_merge_entry m pos) (push_entry m pos h) ≡ true
unfolding push_entry
push_entry-here m pos h ne = ground arith

pub push_entry-length : (m pos : ℕ) (h : List ℕ) → length (push_entry m pos h) ≤ suc (length h)
unfolding push_entry
push_entry-length m pos h = ground arith

pub pack_merge_entry-pos :
    (m pos : ℕ) → pos < 4294967296 → pack_merge_entry m pos % 4294967296 ≡ pos
unfolding pack_merge_entry
pack_merge_entry-pos m pos lt = omega arith

pub pack_merge_entry-rank : (m pos : ℕ) → pos < 4294967296 → pack_merge_entry m pos / 4294967296 ≡ m
unfolding pack_merge_entry
pack_merge_entry-rank m pos lt = omega arith
