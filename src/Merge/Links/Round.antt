-- ===== src/Merge/Links/Round.antt =====
-- One round of the merge loops of src/bpe/mod.rs: unlinking the leftmost pair of the least rank keeps
-- the index arrays linked, and is one step of byte-pair merging.
use supergigatoken.Base.{
  ℕ, ◌+◌, ◌≤◌, ◌<◌, ◌≡◌, ◌≢◌, refl, ap, ◌⊎◌, inl, inr, true, ◌==◌, arith, Bool-cases, List, [], ◌∷◌,
  ◌++◌, map,
}
use mathlib.Core.Path.{ap₂, subst}
use supergigatoken.Merge.Spec.{Table, max_rank, IsBest}
use supergigatoken.Merge.Links.{Links}
use supergigatoken.Merge.Links.Invariant.{
  elem, Chain, IsLinked, Chain-lt, Chain-drop, before, next_bounds,
}
use supergigatoken.Merge.Links.Symbols.{pairs_before, pairs_from}

pub elem_split :
    (j : ℕ) (ps : List ℕ)
    → elem j ps ≡ true
    → (front : List ℕ) × (rest : List ℕ) × (ps ≡ front ++ j ∷ rest)
elem_split j [] h = cc
elem_split j (p ∷ ps) h = elim (Bool-cases (j == p)) [
  | inl e ↦ ([], ps, ap₂ ◌∷◌ (ground arith) refl)
  | inr e ↦
      let (front, rest, same) = elem_split j ps (ground arith) in
      (p ∷ front, rest, ap (λ xs. p ∷ xs) same)
]

module _ (rank : Table) (n : ℕ) (s : Links) where
  -- A position whose rank is no sentinel is live and has a live position behind it.
  pub ranked_split :
      (ps : List ℕ) (pr i : ℕ)
      → IsLinked rank n s pr ps
      → s.ranks i ≢ max_rank
      → (front : List ℕ) × (d : ℕ) × (bs : List ℕ) × (ps ≡ front ++ i ∷ d ∷ bs)
  ranked_split ps pr i l h = elim (Bool-cases (elem i ps)) [
    | inr e ↦ absurd (h (l.dead i e))
    | inl e ↦
        let (front, rest, same) = elem_split i ps e in
        behind front rest same (subst (Chain rank n s pr) same l.chain)
  ]
    where
      behind :
          (front rest : List ℕ)
          → ps ≡ front ++ i ∷ rest
          → Chain rank n s pr (front ++ i ∷ rest)
          → (front : List ℕ) × (d : ℕ) × (bs : List ℕ) × (ps ≡ front ++ i ∷ d ∷ bs)
      behind front [] same c = absurd (h (Chain-drop rank n s front pr i [] c).2)
      behind front (d ∷ bs) same c = (front, d, bs, same)

  -- What the arrays hold at a live pair.
  pub record AtPair (front : List ℕ) (i d : ℕ) (bs : List ℕ) : Type 0 where
    pub next_pair : s.next i ≡ d
    pub ranks_pair : s.ranks i ≡ rank (s.sym i) (s.sym d)
    pub ascend : i < d
    pub ascend_next : d < s.next d
    pub prev_pair : (s.prev i < i) ⊎ (n ≤ s.prev i)
    pub inside : d < n

  prev_bounds :
      (front : List ℕ) (pr i : ℕ) (rest : List ℕ)
      → n ≤ pr
      → Chain rank n s pr (front ++ i ∷ rest)
      → (s.prev i < i) ⊎ (n ≤ s.prev i)
  prev_bounds [] pr i rest out c = inr (omega (arith, c.0))
  prev_bounds (a ∷ front) pr i rest out c = inl (before rank n s i rest front a pr c).2

  pub at_pair :
      (front : List ℕ) (pr i d : ℕ) (bs : List ℕ)
      → IsLinked rank n s pr (front ++ i ∷ d ∷ bs)
      → AtPair front i d bs
  at_pair front pr i d bs l =
      let c = Chain-drop rank n s front pr i (d ∷ bs) l.chain in
      record {
        next_pair = c.1;
        ranks_pair = c.2;
        ascend = c.3;
        ascend_next = (next_bounds rank n s i d bs front pr l.chain).1;
        prev_pair = prev_bounds front pr i (d ∷ bs) l.outside l.chain;
        inside = Chain-lt rank n s d i bs c.4;
      }

  -- A leftmost least rank marks the pair that byte-pair merging takes.
  pub at_pair-IsBest :
      (front : List ℕ) (pr i d : ℕ) (bs : List ℕ)
      → IsLinked rank n s pr (front ++ i ∷ d ∷ bs)
      → s.ranks i < max_rank
      → ((j : ℕ) → j < i → s.ranks i < s.ranks j)
      → ((j : ℕ) → j + 1 < n → s.ranks i ≤ s.ranks j)
      → IsBest rank (map s.sym front) (s.sym i) (s.sym d) (map s.sym bs)
  at_pair-IsBest front pr i d bs l below above least =
      let p = at_pair front pr i d bs l in
      let c = Chain-drop rank n s front pr i (d ∷ bs) l.chain in
      record {
        merges = rw p.ranks_pair at below;
        above =
            pairs_before rank n s (rank (s.sym i) (s.sym d)) i (d ∷ bs) front pr l.chain
              (λ j q. rw p.ranks_pair at (above j q));
        least =
            pairs_from rank n s (rank (s.sym i) (s.sym d)) bs d i c.4
              (λ j q. rw p.ranks_pair at (least j q));
      }
