-- ===== src/Merge/Heap/Invariant.antt =====
-- The invariant of the heap merge loop of src/bpe/mod.rs. The ranks of the live pairs, which the
-- linear scan keeps in an array, are here a ghost: each of them has an entry in the heap.
use supergigatoken.Base.{
  ℕ, ◌%◌, ◌/◌, ◌^◌, ◌<◌, ◌≡◌, ◌≢◌, ◌∙◌, inl, inr, ◌⊎◌, true, false, List, [], ◌∷◌, ◌++◌, ◌==◌,
  Bool-cases, arith,
}
use mathlib.Core.Path.{subst}
use supergigatoken.Merge.Spec.{Table, max_rank}
use supergigatoken.Merge.Links.{Array, Links}
use supergigatoken.Merge.Links.Invariant.{elem, Chain, IsLinked}
use supergigatoken.Merge.Links.Round.{ranked_split, at_pair}
use supergigatoken.Merge.Heap.{HeapLinks, no_link, pack_merge_entry}
use supergigatoken.Merge.Heap.Pop.{has_entry, IsPopped, pack_merge_entry-pos, pack_merge_entry-rank}

-- The rank of the live pair at `j` has an entry, if there is one.
abbrev pub IsHeld : Array → List ℕ → ℕ → Type 0
IsHeld ranks entries j =
    (ranks j ≡ max_rank) ⊎ (has_entry (pack_merge_entry (ranks j) j) entries ≡ true)

pub record IsHeaped (rank : Table) (s : HeapLinks) (g : Links) (ps : List ℕ) (entries : List ℕ)
    : Type 0 where
  pub same_sym : s.sym ≡ g.sym
  pub same_prev : s.prev ≡ g.prev
  pub next_live : (j : ℕ) → elem j ps ≡ true → s.next j ≡ g.next j
  pub next_dead : (j : ℕ) → elem j ps ≡ false → s.next j ≡ no_link
  pub held : (j : ℕ) → IsHeld g.ranks entries j
  pub real : (x : ℕ) → has_entry x entries ≡ true → x / 2 ^ 32 ≢ max_rank
  pub linked : IsLinked rank no_link g no_link ps

pub elem-middle : (front : List ℕ) (i : ℕ) (rest : List ℕ) → elem i (front ++ i ∷ rest) ≡ true
elem-middle [] i rest = ground arith
elem-middle (a ∷ front) i rest = ground (arith, elem-middle front i rest)

pub elem-later : (front : List ℕ) (i d : ℕ) (bs : List ℕ) → elem d (front ++ i ∷ d ∷ bs) ≡ true
elem-later [] i d bs = ground arith
elem-later (a ∷ front) i d bs = ground (arith, elem-later front i d bs)

module _ (rank : Table) (n : ℕ) (g : Links) where
  elem-above : (ps : List ℕ) (p pr j : ℕ) → Chain rank n g pr (p ∷ ps) → elem j ps ≡ true → p < j
  elem-above [] p pr j c e = absurd (ground arith)
  elem-above (q ∷ qs) p pr j c e = elim (Bool-cases (j == q)) [
    | inl t ↦ let lt : p < q = c.3 in ground arith
    | inr t ↦
        let lt : p < q = c.3 in
        let lt' : q < j = elem-above qs q p j c.4 (ground arith) in omega arith
  ]

  -- The unlinked position is not live any more.
  pub elem-unlinked :
      (front : List ℕ) (pr i d : ℕ) (bs : List ℕ)
      → Chain rank n g pr (front ++ i ∷ d ∷ bs)
      → elem d (front ++ i ∷ bs) ≡ false
  elem-unlinked [] pr i d bs c =
      let lt : i < d = c.3 in
      elim (Bool-cases (elem d bs)) [
        | inl t ↦ let wrong : d < d = elem-above bs d i d c.4 t in absurd (omega arith)
        | inr t ↦ ground arith
      ]
  elem-unlinked (a ∷ front) pr i d bs c =
      let there : elem d (front ++ i ∷ d ∷ bs) ≡ true = elem-later front i d bs in
      let lt : a < d = elem-above (front ++ i ∷ d ∷ bs) a pr d c there in
      let rest = elem-unlinked front a i d bs c.4 in ground (arith, rest)

-- A rank that has an entry marks a live pair, whose position the entry has.
pub record IsEntryOf (rank : Table) (s : HeapLinks) (entry j : ℕ) : Type 0 where
  pub pos : entry % 2 ^ 32 ≡ j
  pub right : ℕ
  pub next : s.next j ≡ right
  pub linked : right ≢ no_link
  pub ranked : entry / 2 ^ 32 ≡ rank (s.sym j) (s.sym right)

module _ (rank : Table) (s : HeapLinks) (g : Links) (ps entries : List ℕ)
    (h : IsHeaped rank s g ps entries) where
  pub entry-IsEntryOf :
      (j entry : ℕ)
      → g.ranks j ≢ max_rank
      → pack_merge_entry (g.ranks j) j ≡ entry
      → IsEntryOf rank s entry j
  entry-IsEntryOf j entry ne e =
      let (front, d, bs, same) = ranked_split rank no_link g ps no_link j h.linked ne in
      let l : IsLinked rank no_link g no_link (front ++ j ∷ d ∷ bs) =
        subst (IsLinked rank no_link g no_link) same h.linked in
      let p = at_pair rank no_link g front no_link j d bs l in
      let small : j < 4294967296 = omega (arith, p.ascend, p.inside) in
      let live : elem j ps ≡ true = rw same (elem-middle front j (d ∷ bs)) in
      record {
        pos = rw (← e) (pack_merge_entry-pos (g.ranks j) j small);
        right = d;
        next = h.next_live j live ∙ p.next_pair;
        linked = omega (arith, p.inside);
        ranked = rw (← e, h.same_sym) (pack_merge_entry-rank (g.ranks j) j small ∙ p.ranks_pair);
      }

  -- A popped entry that marks no live pair is stale.
  pub stale-IsHeaped :
      (entry : ℕ) (rest : List ℕ)
      → IsPopped entries entry rest
      → ((j : ℕ) → IsEntryOf rank s entry j → ⊥)
      → IsHeaped rank (record s { heap = rest }) g ps rest
  stale-IsHeaped entry rest p stale = record {
    same_sym = h.same_sym;
    same_prev = h.same_prev;
    next_live = h.next_live;
    next_dead = h.next_dead;
    held = λ j. elim (Bool-cases (g.ranks j == max_rank)) [
      | inl t ↦ inl (ground arith)
      | inr t ↦
          let ne : g.ranks j ≢ max_rank = ground arith in
          elim (h.held j) [
            | inl e ↦ inl e
            | inr m ↦ inr (
                p.others (pack_merge_entry (g.ranks j) j)
                  (λ e. stale j (entry-IsEntryOf j entry ne e)) m)
          ]
    ];
    real = λ x m. h.real x (p.subset x m);
    linked = h.linked;
  }
