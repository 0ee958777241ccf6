-- ===== src/Merge/Links/Invariant.antt =====
-- The invariant of the index arrays of src/bpe/mod.rs, and that unlinking one position keeps it.
use supergigatoken.Base.{
  ℕ, ◌+◌, ◌≤◌, ◌<◌, ◌≡◌, ◌≢◌, refl, ◌∙◌, ◌⊎◌, inl, inr, Bool, true, false, List, [], ◌∷◌, ◌++◌,
  ◌==◌, ◌||◌, arith, length,
}
use native.Mathlib.Decide.{ℕ_discrete, dec_lt}
use supergigatoken.Merge.Spec.{Table, max_rank}
use supergigatoken.Merge.Links.{Array, Links}

-- The position behind a live one; `n` at the end.
abbrev pub first : ℕ → List ℕ → ℕ
first n [] = n
first n (q ∷ qs) = q

-- The rank that a live position holds.
abbrev pub rank_at : Table → Array → ℕ → List ℕ → ℕ
rank_at rank symbols p [] = max_rank
rank_at rank symbols p (q ∷ qs) = rank (symbols p) (symbols q)

abbrev pub elem : ℕ → List ℕ → Bool
elem j [] = false
elem j (p ∷ ps) = j == p || elem j ps

-- The live positions `ps` ascend, are linked both ways, and hold the ranks of their pairs; `pr` is
-- the link before the first.
abbrev pub Chain : Table → ℕ → Links → ℕ → List ℕ → Type 0
Chain rank n s pr [] = Unit
Chain rank n s pr (p ∷ ps) =
    (s.prev p ≡ pr)
    × (s.next p ≡ first n ps)
    × (s.ranks p ≡ rank_at rank s.sym p ps)
    × (p < first n ps)
    × Chain rank n s p ps

-- `s` is linked as the live positions `ps`, and every other position has no rank.
pub record IsLinked (rank : Table) (n : ℕ) (s : Links) (pr : ℕ) (ps : List ℕ) : Type 0 where
  pub outside : n ≤ pr
  pub chain : Chain rank n s pr ps
  pub dead : (j : ℕ) → elem j ps ≡ false → s.ranks j ≡ max_rank

-- `s'` is `s` with the position `d` behind `i` unlinked, and the token `v` at `i`.
pub record IsUnlinked (rank : Table) (n : ℕ) (s s' : Links) (i d v : ℕ) : Type 0 where
  pub sym_here : s'.sym i ≡ v
  pub sym_else : (j : ℕ) → j ≢ i → s'.sym j ≡ s.sym j
  pub next_here : s'.next i ≡ s.next d
  pub next_else : (j : ℕ) → j ≢ i → s'.next j ≡ s.next j
  pub prev_right : s.next d < n → s'.prev (s.next d) ≡ i
  pub prev_else : (j : ℕ) → j ≢ s.next d → s'.prev j ≡ s.prev j
  pub ranks_inner : s.next d < n → s'.ranks i ≡ rank v (s.sym (s.next d))
  pub ranks_last : n ≤ s.next d → s'.ranks i ≡ max_rank
  pub ranks_left : s.prev i < n → s'.ranks (s.prev i) ≡ rank (s.sym (s.prev i)) v
  pub ranks_dead : s'.ranks d ≡ max_rank
  pub ranks_else : (j : ℕ) → j ≢ i → j ≢ d → (j ≢ s.prev i) ⊎ (n ≤ j) → s'.ranks j ≡ s.ranks j

elem-front : (j : ℕ) (xs ys : List ℕ) → elem j xs ≡ true → elem j (xs ++ ys) ≡ true
elem-front j [] ys h = cc
elem-front j (x ∷ xs) ys h = ground (arith, elem-front j xs ys)

pub elem-here : (j i : ℕ) (xs ys : List ℕ) → elem j (xs ++ i ∷ ys) ≡ false → j ≢ i
elem-here j i [] ys h = ground arith
elem-here j i (x ∷ xs) ys h = ground (arith, elem-here j i xs ys)

pub elem-insert :
    (j i d : ℕ) (xs ys : List ℕ)
    → elem j (xs ++ i ∷ ys) ≡ false
    → j ≢ d
    → elem j (xs ++ i ∷ d ∷ ys) ≡ false
elem-insert j i d [] ys h e = ground arith
elem-insert j i d (x ∷ xs) ys h e = ground (arith, elem-insert j i d xs ys)

module _ (rank : Table) (n : ℕ) (s : Links) where
  pub Chain-lt : (p pr : ℕ) (ps : List ℕ) → Chain rank n s pr (p ∷ ps) → p < n
  Chain-lt p pr [] c = omega arith
  Chain-lt p pr (q ∷ qs) c = omega (arith, Chain-lt q p qs c.4)

  pub Chain-length : (p pr : ℕ) (ps : List ℕ) → Chain rank n s pr (p ∷ ps) → p + length (p ∷ ps) ≤ n
  Chain-length p pr [] c = omega arith
  Chain-length p pr (q ∷ qs) c = omega (arith, Chain-length q p qs c.4)

  -- The position `i` behind a chain's beginning: it is larger, and its `prev` lies between.
  pub before :
      (i : ℕ) (rest : List ℕ) (front : List ℕ) (a pr : ℕ)
      → Chain rank n s pr (a ∷ front ++ i ∷ rest)
      → (a < i) × (a ≤ s.prev i) × (s.prev i < i) × (elem (s.prev i) (a ∷ front) ≡ true)
  before i rest [] a pr c =
      let link : s.prev i ≡ a = c.4.0 in (omega arith, omega arith, omega arith, ground arith)
  before i rest (b ∷ front) a pr c =
      let (x, y, z, w) = before i rest front b a c.4 in (omega arith, omega arith, z, ground arith)

  pub Chain-drop :
      (front : List ℕ) (pr i : ℕ) (rest : List ℕ)
      → Chain rank n s pr (front ++ i ∷ rest)
      → Chain rank n s (s.prev i) (i ∷ rest)
  Chain-drop [] pr i rest c = (refl, c.1, c.2, c.3, c.4)
  Chain-drop (a ∷ front) pr i rest c = Chain-drop front a i rest c.4

  pub next_bounds :
      (i d : ℕ) (bs front : List ℕ) (pr : ℕ)
      → Chain rank n s pr (front ++ i ∷ d ∷ bs)
      → (i < d) × (d < s.next d)
  next_bounds i d bs [] pr c = (c.3, rw c.4.1 c.4.3)
  next_bounds i d bs (a ∷ front) pr c = next_bounds i d bs front a c.4

module _ (rank : Table) (n : ℕ) (s s' : Links) where
  -- Arrays that agree from `p` on carry the same chain, behind another link.
  frame :
      (ps : List ℕ) (p pr pr' : ℕ)
      → ((j : ℕ) → p ≤ j → j < n → s'.sym j ≡ s.sym j)
      → ((j : ℕ) → p ≤ j → j < n → s'.next j ≡ s.next j)
      → ((j : ℕ) → p ≤ j → j < n → s'.ranks j ≡ s.ranks j)
      → ((j : ℕ) → p < j → j < n → s'.prev j ≡ s.prev j)
      → s'.prev p ≡ pr'
      → Chain rank n s pr (p ∷ ps)
      → Chain rank n s' pr' (p ∷ ps)
  frame [] p pr pr' hs hn hr hp e c =
      (e, hn p (omega arith) c.3 ∙ c.1, hr p (omega arith) c.3 ∙ c.2, c.3, tt)
  frame (q ∷ qs) p pr pr' hs hn hr hp e c =
      let bound = Chain-lt rank n s q p qs c.4 in
      (
        e,
        hn p (omega arith) (omega arith) ∙ c.1,
        rw (hs p (omega arith) (omega arith), hs q (omega arith) bound)
            (hr p (omega arith) (omega arith) ∙ c.2),
        c.3,
        frame qs q p p (λ j a b. hs j (omega arith) b) (λ j a b. hn j (omega arith) b)
            (λ j a b. hr j (omega arith) b) (λ j a b. hp j (omega arith) b) (hp q c.3 bound ∙ c.4.0)
            c.4,
      )

module _ (rank : Table) (n : ℕ) (s s' : Links) (i d v : ℕ) (u : IsUnlinked rank n s s' i d v) where
  unlink_first :
      (bs : List ℕ) (pr : ℕ)
      → (pr < i) ⊎ (n ≤ pr)
      → Chain rank n s pr (i ∷ d ∷ bs)
      → Chain rank n s' pr (i ∷ bs)
  unlink_first [] pr far c = (
    u.prev_else i (omega arith) ∙ c.0,
    u.next_here ∙ c.4.1,
    u.ranks_last (omega arith),
    omega arith,
    tt,
  )
  unlink_first (e ∷ es) pr far c =
      let after : s.next d ≡ e = c.4.1 in
      let bound = Chain-lt rank n s e d es c.4.4 in
      (
        u.prev_else i (omega arith) ∙ c.0,
        u.next_here ∙ after,
        rw (u.sym_here, u.sym_else e (omega arith)) (rw after at (u.ranks_inner (omega arith))),
        omega arith,
        frame rank n s s' es e d i (λ j a b. u.sym_else j (omega arith))
            (λ j a b. u.next_else j (omega arith))
            (λ j a b. u.ranks_else j (omega arith) (omega arith) (inl (omega arith)))
            (λ j a b. u.prev_else j (omega arith)) (rw after at (u.prev_right (omega arith))) c.4.4,
      )

  unlink-Chain :
      (bs front : List ℕ) (pr : ℕ)
      → (pr < i) ⊎ (n ≤ pr)
      → Chain rank n s pr (front ++ i ∷ d ∷ bs)
      → Chain rank n s' pr (front ++ i ∷ bs)
  unlink-Chain bs [] pr far c = unlink_first bs pr far c
  unlink-Chain bs (a ∷ []) pr far c =
      let link : s.prev i ≡ a = c.4.0 in
      let below : a < i = c.3 in
      let inside : i < n = Chain-lt rank n s i a (d ∷ bs) c.4 in
      let behind : i < d = c.4.3 in
      let further : d < s.next d = rw c.4.4.1 c.4.4.3 in
      (
        u.prev_else a (omega arith) ∙ c.0,
        u.next_else a (omega arith) ∙ c.1,
        rw (u.sym_here, u.sym_else a (omega arith)) (rw link at (u.ranks_left (omega arith))),
        c.3,
        unlink_first bs a (inl c.3) c.4,
      )
  unlink-Chain bs (a ∷ b ∷ front) pr far c =
      let (below, at_least, under, here) = before rank n s i (d ∷ bs) front b a c.4 in
      let above : a < b = c.3 in
      let (behind, further) = next_bounds rank n s i d bs (b ∷ front) a c.4 in
      (
        u.prev_else a (omega arith) ∙ c.0,
        u.next_else a (omega arith) ∙ c.1,
        rw (u.sym_else a (omega arith), u.sym_else b (omega arith))
            (u.ranks_else a (omega arith) (omega arith) (inl (omega arith)) ∙ c.2),
        c.3,
        unlink-Chain bs (b ∷ front) a (inl (omega arith)) c.4,
      )

  unlink_dead :
      (bs front : List ℕ) (pr j : ℕ)
      → n ≤ pr
      → Chain rank n s pr (front ++ i ∷ d ∷ bs)
      → elem j (front ++ i ∷ bs) ≡ false
      → (j ≢ s.prev i) ⊎ (n ≤ j)
  unlink_dead bs [] pr j out c e = elim (dec_lt j n) [
    | yes inside ↦ inl (omega (arith, c.0))
    | no outside ↦ inr (omega arith)
  ]
  unlink_dead bs (a ∷ front) pr j out c e =
      let (below, at_least, under, here) = before rank n s i (d ∷ bs) front a pr c in
      inl (λ same. cc (elem-front (s.prev i) (a ∷ front) (i ∷ bs) here, same))

  -- Unlinking keeps the invariant, with the position behind `i` gone.
  pub unlink_keeps :
      (front bs : List ℕ) (pr : ℕ)
      → IsLinked rank n s pr (front ++ i ∷ d ∷ bs)
      → IsLinked rank n s' pr (front ++ i ∷ bs)
  unlink_keeps front bs pr l = record {
    outside = l.outside;
    chain = unlink-Chain bs front pr (inr l.outside) l.chain;
    dead = λ j e. elim (ℕ_discrete j d) [
      | yes same ↦ rw same u.ranks_dead
      | no other ↦
          u.ranks_else j (elem-here j i front bs e) other
            (unlink_dead bs front pr j l.outside l.chain e)
          ∙ l.dead j (elem-insert j i d front bs e other)
    ];
  }
