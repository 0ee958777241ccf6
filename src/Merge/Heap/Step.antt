-- ===== src/Merge/Heap/Step.antt =====
-- A merge of the heap loop of src/bpe/mod.rs: it unlinks a position as the linear scan does, and the
-- two pairs that it makes get their entries.
use supergigatoken.Base.{
  ℕ, ◌+◌, ◌%◌, ◌/◌, ◌≤◌, ◌<◌, ◌≡◌, ◌≢◌, refl, sym, ap, ◌∙◌, inl, inr, true, false, ◌||◌, ◌&&◌, List,
  [], ◌∷◌, ◌++◌, ◌==◌, ltb, if◌then◌else◌, Bool-cases, arith, length,
}
use supergigatoken.Merge.Spec.{Table, max_rank}
use supergigatoken.Merge.Links.{Array, Links, update}
use supergigatoken.Merge.Links.Invariant.{
  elem, Chain, IsLinked, IsUnlinked, elem-insert, elem-here, unlink_keeps, before, Chain-drop,
  Chain-lt,
}
use supergigatoken.Merge.Links.Round.{AtPair, at_pair, ranked_split}
use mathlib.Core.Path.{subst}
use supergigatoken.Merge.Small.{merge_pair}
use supergigatoken.Merge.Small.Body.{merge_pair-IsUnlinked}
use supergigatoken.Merge.Small.Loop.{round-IsUnlinked}
use supergigatoken.Merge.Heap.{HeapLinks, no_link, pack_merge_entry, push_entry, merge_at}
use supergigatoken.Merge.Heap.Pop.{
  has_entry, IsPopped, push_entry-keeps, push_entry-here, push_entry-length, pack_merge_entry-pos,
  pack_merge_entry-rank,
}
use supergigatoken.Merge.Heap.Invariant.{IsHeaped, IsHeld, elem-unlinked, elem-later}

-- The entries for the neighbours of a merged pair.
abbrev pub push_left : ℕ → ℕ → List ℕ → List ℕ
push_left merged left heap = if left == no_link then heap else push_entry merged left heap

abbrev pub push_right : ℕ → ℕ → ℕ → List ℕ → List ℕ
push_right merged right pos heap = if right == no_link then heap else push_entry merged pos heap

module _ (rank : Table) (s : HeapLinks) (m i d : ℕ) where
  merge_at-next : (j : ℕ) → i ≢ d → j ≢ i → j ≢ d → (merge_at rank s m i d).next j ≡ s.next j
  unfolding merge_at
  merge_at-next j h h' h'' = ground arith

  merge_at-next_here : i ≢ d → (merge_at rank s m i d).next i ≡ s.next d
  unfolding merge_at
  merge_at-next_here h = ground arith

  merge_at-next_dead : (merge_at rank s m i d).next d ≡ no_link
  unfolding merge_at
  merge_at-next_dead = ground arith

  merge_at-heap :
      i ≢ d
      → s.next d ≢ i
      → s.prev i ≢ i
      → (merge_at rank s m i d).heap
        ≡ push_right
            (rank m (s.sym (s.next d)))
            (s.next d)
            i
            (push_left (rank (s.sym (s.prev i)) m) (s.prev i) s.heap)
  unfolding merge_at
  merge_at-heap h h' h'' =
      let rr = s.next d in
      let next_here : update (update s.next i rr) d no_link i ≡ rr = ground arith in
      let prev_here : (if rr == no_link then s.prev else update s.prev rr i) i ≡ s.prev i =
        ground arith in
      let sym_here : update s.sym i m i ≡ m = ground arith in
      let sym_left : update s.sym i m (s.prev i) ≡ s.sym (s.prev i) = ground arith in
      let sym_right : update s.sym i m rr ≡ s.sym rr = ground arith in
      rw (merge_at, next_here, prev_here, sym_here, sym_left, sym_right) refl

pub real_push :
    (m pos : ℕ) (h : List ℕ)
    → pos < 4294967296
    → ((x : ℕ) → has_entry x h ≡ true → x / 4294967296 ≢ max_rank)
    → (x : ℕ) → has_entry x (push_entry m pos h) ≡ true
    → x / 4294967296 ≢ max_rank
unfolding push_entry
real_push m pos h lt real x e = elim (Bool-cases (m == max_rank)) [
  | inl t ↦ real x (rw (push_entry, t) at e)
  | inr t ↦
      let pushed : (pack_merge_entry m pos == x || has_entry x h) ≡ true =
        rw (push_entry, t) at e in
      elim (Bool-cases (has_entry x h)) [
        | inl t' ↦ real x t'
        | inr t' ↦
            let same : pack_merge_entry m pos ≡ x = ground arith in
            let high : pack_merge_entry m pos / 4294967296 ≡ m = pack_merge_entry-rank m pos lt in
            rw (← same, high) (λ w. absurd (ground arith))
      ]
]

module _ (lm left rm right pos : ℕ) (h : List ℕ) where
  pub pushed-keeps :
      (x : ℕ)
      → has_entry x h ≡ true
      → has_entry x (push_right rm right pos (push_left lm left h)) ≡ true
  pushed-keeps x e =
      ground (arith, push_entry-keeps lm left x h, push_entry-keeps rm pos x (push_left lm left h))

  pub pushed-left :
      left ≢ no_link
      → lm ≢ max_rank
      → has_entry (pack_merge_entry lm left) (push_right rm right pos (push_left lm left h)) ≡ true
  pushed-left e e' = ground (
    arith,
    push_entry-here lm left h e',
    push_entry-keeps rm pos (pack_merge_entry lm left) (push_left lm left h),
  )

  pub pushed-right :
      right ≢ no_link
      → rm ≢ max_rank
      → has_entry (pack_merge_entry rm pos) (push_right rm right pos (push_left lm left h)) ≡ true
  pushed-right e e' = ground (arith, push_entry-here rm pos (push_left lm left h) e')

  pub pushed-length : length (push_right rm right pos (push_left lm left h)) ≤ 2 + length h
  pushed-length =
      ground (arith, push_entry-length lm left h, push_entry-length rm pos (push_left lm left h))

  pub pushed-real :
      pos < 4294967296
      → left ≤ no_link
      → ((x : ℕ) → has_entry x h ≡ true → x / 4294967296 ≢ max_rank)
      → (x : ℕ) → has_entry x (push_right rm right pos (push_left lm left h)) ≡ true
      → x / 4294967296 ≢ max_rank
  pushed-real lt le real =
      let left_real : (x : ℕ)
          → has_entry x (push_left lm left h) ≡ true
          → x / 4294967296 ≢ max_rank =
        λ x e. elim (Bool-cases (left == no_link)) [
          | inl t ↦ real x (rw (t) at e)
          | inr t ↦ real_push lm left h (omega (arith, le)) real x (rw (t) at e)
        ] in
      λ x e. elim (Bool-cases (right == no_link)) [
        | inl t ↦ left_real x (rw (t) at e)
        | inr t ↦ real_push rm pos (push_left lm left h) lt left_real x (rw (t) at e)
      ]

next_le :
    (rank : Table) (g : Links) (front : List ℕ) (i d : ℕ) (bs : List ℕ)
    → Chain rank no_link g no_link (front ++ i ∷ d ∷ bs)
    → g.next d ≤ no_link
next_le rank g front i d bs c =
    let (back, link, held, lt, tail) = Chain-drop rank no_link g front no_link i (d ∷ bs) c in
    after bs tail
  where
    after : (qs : List ℕ) → Chain rank no_link g i (d ∷ qs) → g.next d ≤ no_link
    after [] t = omega (arith, t.1)
    after (q ∷ qs) t = omega (arith, t.1, Chain-lt rank no_link g q d qs t.4)

-- A position with a rank is below the sentinel.
pub ranked_lt :
    (rank : Table) (g : Links) (ps : List ℕ) (j : ℕ)
    → IsLinked rank no_link g no_link ps
    → g.ranks j ≢ max_rank
    → j < no_link
ranked_lt rank g ps j l ne =
    let (front, d, bs, same) = ranked_split rank no_link g ps no_link j l ne in
    let p =
      at_pair rank no_link g front no_link j d bs
        (subst (IsLinked rank no_link g no_link) same l) in
    omega (arith, p.ascend, p.inside)

elem-grow :
    (j : ℕ) (front : List ℕ) (i d : ℕ) (bs : List ℕ)
    → elem j (front ++ i ∷ bs) ≡ true
    → elem j (front ++ i ∷ d ∷ bs) ≡ true
elem-grow j [] i d bs e = ground arith
elem-grow j (a ∷ front) i d bs e = ground (arith, elem-grow j front i d bs)

same_test :
    (x : ℕ) (f g : Array)
    → x ≤ no_link
    → (if x == no_link then f else g) ≡ (if ltb x no_link then g else f)
same_test x f g le = elim (Bool-cases (x == no_link)) [
  | inl t ↦ let out : ltb x no_link ≡ false = ground arith in rw (t, out) refl
  | inr t ↦ let out : ltb x no_link ≡ true = ground arith in rw (t, out) refl
]

bool_clash : true ≡ false → ⊥
bool_clash e = absurd (ground arith)

-- The position before a live one is live, or there is none.
prev-le :
    (rank : Table) (g : Links) (front : List ℕ) (i : ℕ) (rest : List ℕ)
    → Chain rank no_link g no_link (front ++ i ∷ rest)
    → i < no_link
    → g.prev i ≤ no_link
prev-le rank g [] i rest c lt = omega (arith, c.0)
prev-le rank g (a ∷ front) i rest c lt =
    let (x, y, z, w) = before rank no_link g i rest front a no_link c in omega (arith, z)

module _ (rank : Table) (s : HeapLinks) (g : Links) (front : List ℕ) (i d : ℕ) (bs entries : List ℕ)
    (h : IsHeaped rank s g (front ++ i ∷ d ∷ bs) entries) (entry : ℕ) (rest : List ℕ)
    (popped : IsPopped entries entry rest) (here : entry % 4294967296 ≡ i) where
  unfoldable pub popped_links : HeapLinks
  popped_links = record s { heap = rest }

  -- The entries of other positions are left.
  IsHeld-rest : (j : ℕ) → j ≢ i → j < 4294967296 → IsHeld g.ranks entries j → IsHeld g.ranks rest j
  IsHeld-rest j ne lt (inl e) = inl e
  IsHeld-rest j ne lt (inr m) = inr (
      popped.others (pack_merge_entry (g.ranks j) j)
        (λ e.
          absurd
            (ne (sym (pack_merge_entry-pos (g.ranks j) j lt) ∙ ap (λ x. x % 4294967296) e ∙ here)))
        m)

  unfoldable pub joins : Links
  unfolding merge_pair
  joins = merge_pair rank no_link g (rank (g.sym i) (g.sym d)) i

  unfoldable pub joined : HeapLinks
  unfolding popped_links merge_at
  joined = merge_at rank popped_links (rank (g.sym i) (g.sym d)) i d

  facts : AtPair rank no_link g front i d bs
  facts = at_pair rank no_link g front no_link i d bs h.linked

  pub unlinked : IsUnlinked rank no_link g joins i d (rank (g.sym i) (g.sym d))
  unfolding joins
  unlinked =
      round-IsUnlinked rank no_link (merge_pair rank no_link) (merge_pair-IsUnlinked rank no_link) g
        front no_link i d bs (rank (g.sym i) (g.sym d)) h.linked

  apart : i ≢ d
  apart = omega (arith, facts.ascend)

  next_dead_live : s.next d ≡ g.next d
  next_dead_live = h.next_live d (elem-later front i d bs)

  joined-heap :
      joined.heap
      ≡ push_right
          (rank (rank (g.sym i) (g.sym d)) (g.sym (g.next d)))
          (g.next d)
          i
          (push_left (rank (g.sym (g.prev i)) (rank (g.sym i) (g.sym d))) (g.prev i) rest)
  unfolding joined popped_links
  joined-heap =
      merge_at-heap rank popped_links (rank (g.sym i) (g.sym d)) i d apart
        (rw next_dead_live (omega (arith, facts.ascend, facts.ascend_next)))
        (rw h.same_prev (omega (arith, facts.prev_pair, facts.ascend, facts.inside)))
      ∙ rw (next_dead_live, h.same_sym, h.same_prev) refl

  joined-prev : joined.prev ≡ joins.prev
  unfolding joined joins popped_links merge_at merge_pair
  joined-prev =
      let ours : joined.prev
          ≡ (if s.next d == no_link then s.prev else update s.prev (s.next d) i) =
        refl in
      let theirs : joins.prev ≡ (
          if ltb (g.next (g.next i)) no_link then update g.prev (g.next (g.next i)) i else g.prev) =
        refl in
      let at_dead : g.next (g.next i) ≡ g.next d = ap g.next facts.next_pair in
      let tests : (if s.next d == no_link then s.prev else update s.prev (s.next d) i)
          ≡ (if ltb (g.next d) no_link then update g.prev (g.next d) i else g.prev) =
        rw (next_dead_live, h.same_prev)
          (same_test (g.next d) g.prev (update g.prev (g.next d) i)
            (next_le rank g front i d bs h.linked.chain)) in
      ours
      ∙ tests
      ∙ sym (theirs ∙ ap (λ x. if ltb x no_link then update g.prev x i else g.prev) at_dead)

  joined-next_live : (j : ℕ) → elem j (front ++ i ∷ bs) ≡ true → joined.next j ≡ joins.next j
  unfolding joined popped_links
  joined-next_live j e = elim (Bool-cases (j == i)) [
    | inl t ↦
        let same : j ≡ i = ground arith in
        rw same (
          merge_at-next_here rank popped_links (rank (g.sym i) (g.sym d)) i d apart
          ∙ next_dead_live
          ∙ sym unlinked.next_here)
    | inr t ↦
        let other : j ≢ i = ground arith in
        let not_dead : j ≢ d = λ same. absurd (
          bool_clash
            (sym e ∙ rw same (elem-unlinked rank no_link g front no_link i d bs h.linked.chain))) in
        merge_at-next rank popped_links (rank (g.sym i) (g.sym d)) i d j apart other not_dead
        ∙ h.next_live j (elem-grow j front i d bs e)
        ∙ sym (unlinked.next_else j other)
  ]

  joined-next_dead : (j : ℕ) → elem j (front ++ i ∷ bs) ≡ false → joined.next j ≡ no_link
  unfolding joined popped_links
  joined-next_dead j e = elim (Bool-cases (j == d)) [
    | inl t ↦
        let same : j ≡ d = ground arith in
        rw same (merge_at-next_dead rank popped_links (rank (g.sym i) (g.sym d)) i d)
    | inr t ↦
        let other : j ≢ d = ground arith in
        merge_at-next rank popped_links (rank (g.sym i) (g.sym d)) i d j apart
          (elem-here j i front bs e) other
        ∙ h.next_dead j (elem-insert j i d front bs e other)
  ]

  joined-IsLinked : IsLinked rank no_link joins no_link (front ++ i ∷ bs)
  joined-IsLinked =
      unlink_keeps rank no_link g joins i d (rank (g.sym i) (g.sym d)) unlinked front bs no_link
        h.linked

  -- A rank of the merged list has its entry.
  joined-held :
      (j : ℕ)
      → joins.ranks j ≢ max_rank
      → has_entry (pack_merge_entry (joins.ranks j) j) joined.heap ≡ true
  joined-held j ne = elim (Bool-cases (j == i)) [
    | inl t ↦
        let same : j ≡ i = ground arith in
        elim (Bool-cases (ltb (g.next d) no_link)) [
          | inr t' ↦ absurd (ne (rw same (unlinked.ranks_last (ground arith))))
          | inl t' ↦
              let inner = unlinked.ranks_inner (ground arith) in
              rw (joined-heap, same, inner)
                (pushed-right (rank (g.sym (g.prev i)) (rank (g.sym i) (g.sym d))) (g.prev i)
                  (rank (rank (g.sym i) (g.sym d)) (g.sym (g.next d))) (g.next d) i rest
                  (ground arith) (λ w. ne (rw same (inner ∙ w))))
        ]
    | inr t ↦ elim (Bool-cases (j == g.prev i && ltb (g.prev i) no_link)) [
      | inl t' ↦
          let same : j ≡ g.prev i = ground arith in
          let left = unlinked.ranks_left (ground arith) in
          rw (joined-heap, same, left)
            (pushed-left (rank (g.sym (g.prev i)) (rank (g.sym i) (g.sym d))) (g.prev i)
              (rank (rank (g.sym i) (g.sym d)) (g.sym (g.next d))) (g.next d) i rest (ground arith)
              (λ w. ne (rw same (left ∙ w))))
      | inr t' ↦
          let other : j ≢ i = ground arith in
          let not_dead : j ≢ d = λ same. ne (rw same unlinked.ranks_dead) in
          let small = ranked_lt rank joins (front ++ i ∷ bs) j joined-IsLinked ne in
          let kept : joins.ranks j ≡ g.ranks j =
            unlinked.ranks_else j other not_dead (ground (arith, small)) in
          elim (IsHeld-rest j other (omega (arith, small)) (h.held j)) [
            | inl e ↦ absurd (ne (kept ∙ e))
            | inr e ↦
                rw (joined-heap, kept)
                  (pushed-keeps (rank (g.sym (g.prev i)) (rank (g.sym i) (g.sym d))) (g.prev i)
                    (rank (rank (g.sym i) (g.sym d)) (g.sym (g.next d))) (g.next d) i rest
                    (pack_merge_entry (g.ranks j) j) e)
          ]
    ]
  ]

  pub joined-IsHeaped : IsHeaped rank joined joins (front ++ i ∷ bs) joined.heap
  joined-IsHeaped = record {
    same_sym =
        unfold joined joins popped_links merge_at merge_pair in
        (ap (λ f. update f i (rank (g.sym i) (g.sym d))) h.same_sym);
    same_prev = joined-prev;
    next_live = joined-next_live;
    next_dead = joined-next_dead;
    held = λ j. elim (Bool-cases (joins.ranks j == max_rank)) [
      | inl t ↦ inl (ground arith)
      | inr t ↦ inr (joined-held j (ground arith))
    ];
    real = rw joined-heap (
        pushed-real (rank (g.sym (g.prev i)) (rank (g.sym i) (g.sym d))) (g.prev i)
          (rank (rank (g.sym i) (g.sym d)) (g.sym (g.next d))) (g.next d) i rest
          (omega (arith, facts.ascend, facts.inside))
          (prev-le rank g front i (d ∷ bs) h.linked.chain
            (omega (arith, facts.ascend, facts.inside)))
          (λ x e. h.real x (popped.subset x e)));
    linked = joined-IsLinked;
  }

  pub joined-length : length joined.heap ≤ 2 + length rest
  joined-length = rw joined-heap (
      pushed-length (rank (g.sym (g.prev i)) (rank (g.sym i) (g.sym d))) (g.prev i)
        (rank (rank (g.sym i) (g.sym d)) (g.sym (g.next d))) (g.next d) i rest)
