-- ===== src/Merge/Heap/Loop.antt =====
-- The heap loop of src/bpe/mod.rs: it ends within its fuel, and the live symbols are merged as `Merges`
-- says.
use supergigatoken.Base.{
  ℕ, zero, suc, ◌+◌, ◌*◌, ◌%◌, ◌/◌, ◌≤◌, ◌<◌, ◌≡◌, ◌≢◌, refl, sym, ap, ◌∙◌, inl, inr, true, false,
  Option, some, List, [], ◌∷◌, ◌++◌, ◌==◌, Bool-cases, arith, length, length-append, map,
}
use mathlib.Core.Path.{subst}
use mathlib.Core.List.{map-append}
use supergigatoken.Merge.Spec.{Table, max_rank, IsBest, Merges, done, step}
use supergigatoken.Merge.Links.{Links}
use supergigatoken.Merge.Links.Invariant.{first, elem, IsLinked, Chain-drop}
use supergigatoken.Merge.Links.Symbols.{unlink_symbols, pairs_from}
use supergigatoken.Merge.Links.Round.{elem_split, at_pair, at_pair-IsBest}
use supergigatoken.Merge.Small.{merge_pair}
use supergigatoken.Merge.Small.Body.{merge_pair-IsUnlinked}
use supergigatoken.Merge.Small.Loop.{first-front}
use supergigatoken.Merge.Heap.{
  HeapLinks, no_link, pack_merge_entry, pop_min, merge_at, heap_round, heap_loop,
}
use supergigatoken.Merge.Heap.Pop.{has_entry, IsPopped, pop_min-some}
use supergigatoken.Merge.Heap.Invariant.{IsHeaped, IsEntryOf, stale-IsHeaped}
use supergigatoken.Merge.Heap.Step.{
  joins, joined, popped_links, joined-IsHeaped, joined-length, unlinked,
}

module _ (rank : Table) (bounded : (a b : ℕ) → rank a b ≤ max_rank) where
  -- What the loop leaves of the live symbols `xs`.
  pub record IsHeapMerged (n : ℕ) (xs : List ℕ) (r : Option HeapLinks) : Type 0 where
    pub final : HeapLinks
    pub ghost : Links
    pub live : List ℕ
    pub returns : r ≡ some final
    pub heaped : IsHeaped rank final ghost live final.heap
    pub from_zero : first no_link live ≡ 0
    pub short : length live ≤ n
    pub merged : Merges rank rank xs (map ghost.sym live)

  -- The empty heap: no pair merges.
  IsHeapMerged-done :
      (n : ℕ) (s : HeapLinks) (g : Links) (ps : List ℕ)
      → s.heap ≡ []
      → IsHeaped rank s g ps s.heap
      → first no_link ps ≡ 0
      → length ps ≤ n
      → IsHeapMerged n (map g.sym ps) (some s)
  IsHeapMerged-done n s g [] e h z le = absurd (omega arith)
  IsHeapMerged-done n s g (p ∷ ps) e h z le = record {
    final = s;
    ghost = g;
    live = p ∷ ps;
    returns = refl;
    heaped = h;
    from_zero = z;
    short = le;
    merged = done (
        pairs_from rank no_link g max_rank ps p no_link h.linked.chain (λ j lt. elim (h.held j) [
          | inl same ↦ omega (arith, same)
          | inr m ↦
              let wrong : has_entry (pack_merge_entry (g.ranks j) j) [] ≡ true = rw (e) at m in
              absurd (ground arith)
        ]));
  }

  -- The popped entry of a live pair is the leftmost of the least rank.
  popped-IsBest :
      (s : HeapLinks) (g : Links) (front : List ℕ) (i d : ℕ) (bs entries : List ℕ)
      → IsHeaped rank s g (front ++ i ∷ d ∷ bs) entries
      → (entry : ℕ) (rest : List ℕ) → IsPopped entries entry rest
      → entry % 4294967296 ≡ i
      → entry / 4294967296 ≡ g.ranks i
      → IsBest rank (map g.sym front) (g.sym i) (g.sym d) (map g.sym bs)
  unfolding pack_merge_entry
  popped-IsBest s g front i d bs entries h entry rest p low high =
      let facts = at_pair rank no_link g front no_link i d bs h.linked in
      let real : entry / 4294967296 ≢ max_rank = h.real entry p.member in
      let small : g.ranks i ≤ max_rank = rw facts.ranks_pair (bounded (g.sym i) (g.sym d)) in
      let below : g.ranks i < max_rank = omega (arith, real, small, high) in
      at_pair-IsBest rank no_link g front no_link i d bs h.linked below
        (λ j lt. elim (h.held j) [
          | inl e ↦ omega (arith, e, below)
          | inr m ↦ omega (arith, p.least (pack_merge_entry (g.ranks j) j) m, low, high, lt)
        ])
        (λ j lt. elim (h.held j) [
          | inl e ↦ omega (arith, e, below)
          | inr m ↦ omega (arith, p.least (pack_merge_entry (g.ranks j) j) m, low, high, lt)
        ])

  -- What a round makes of a state whose popped entry is gone.
  record IsRound (s : HeapLinks) (g : Links) (ps entries : List ℕ) (s' : HeapLinks) : Type 0 where
    ghost' : Links
    live' : List ℕ
    heaped : IsHeaped rank s' ghost' live' s'.heap
    from_zero : first no_link live' ≡ first no_link ps
    short : length live' ≤ length ps
    less : length s'.heap + length live' * 2 < length entries + length ps * 2
    merges :
        (ys : List ℕ)
        → Merges rank rank (map ghost'.sym live') ys
        → Merges rank rank (map g.sym ps) ys

  heap_round-merge :
      (s : HeapLinks) (entry d v : ℕ)
      → s.next (entry % 4294967296) ≡ d
      → s.next (entry % 4294967296) ≢ no_link
      → rank (s.sym (entry % 4294967296)) (s.sym (s.next (entry % 4294967296))) ≡ entry / 4294967296
      → v ≡ rank (s.sym (entry % 4294967296)) (s.sym d)
      → heap_round rank s entry ≡ merge_at rank s v (entry % 4294967296) d
  unfolding heap_round
  heap_round-merge s entry d v e ne same value =
      let t : (s.next (entry % 4294967296) == no_link) ≡ false = ground arith in
      let t' : (rank (s.sym (entry % 4294967296)) (s.sym (s.next (entry % 4294967296)))
            == entry / 4294967296)
          ≡ true =
        ground arith in
      rw (heap_round, t, t', e, value) refl

  module _ (s : HeapLinks) (g : Links) (ps entries : List ℕ) (h : IsHeaped rank s g ps entries)
      (entry : ℕ) (rest : List ℕ) (p : IsPopped entries entry rest) where
    stale-IsRound :
        ((j : ℕ) → IsEntryOf rank s entry j → ⊥) → IsRound s g ps entries (record s { heap = rest })
    stale-IsRound stale = record {
      ghost' = g;
      live' = ps;
      heaped = stale-IsHeaped rank s g ps entries h entry rest p stale;
      from_zero = refl;
      short = omega arith;
      less = omega (arith, p.shorter);
      merges = λ ys m. m;
    }

    merge-IsRound :
        (front : List ℕ) (i d : ℕ) (bs : List ℕ)
        → ps ≡ front ++ i ∷ d ∷ bs
        → entry % 4294967296 ≡ i
        → entry / 4294967296 ≡ g.ranks i
        → IsRound s g ps entries
            (merge_at rank (record s { heap = rest }) (rank (g.sym i) (g.sym d)) i d)
    unfolding joined joins popped_links
    merge-IsRound front i d bs same low high =
        let h' : IsHeaped rank s g (front ++ i ∷ d ∷ bs) entries =
          subst (λ qs. IsHeaped rank s g qs entries) same h in
        let facts = at_pair rank no_link g front no_link i d bs h'.linked in
        let u = unlinked rank s g front i d bs entries h' entry rest p low in
        let best = popped-IsBest s g front i d bs entries h' entry rest p low high in
        let symbols =
          unlink_symbols rank no_link g (joins rank s g front i d bs entries h' entry rest p low) i
            d (rank (g.sym i) (g.sym d)) u bs front no_link h'.linked.chain in
        record {
          ghost' = joins rank s g front i d bs entries h' entry rest p low;
          live' = front ++ i ∷ bs;
          heaped = joined-IsHeaped rank s g front i d bs entries h' entry rest p low;
          from_zero = rw same (
              first-front rank no_link (merge_pair rank no_link)
                (merge_pair-IsUnlinked rank no_link) front i bs (d ∷ bs));
          short = omega (
            arith,
            ap length same,
            length-append front (i ∷ bs),
            length-append front (i ∷ d ∷ bs),
          );
          less = omega (
            arith,
            p.shorter,
            joined-length rank s g front i d bs entries h' entry rest p low,
            ap length same,
            length-append front (i ∷ bs),
            length-append front (i ∷ d ∷ bs),
          );
          merges = λ ys m. rw same (
              step (map g.sym front) (g.sym i) (g.sym d) (map g.sym bs)
                (map-append g.sym front (i ∷ d ∷ bs)) best (rw (symbols) at m));
        }

    live_split :
        (i : ℕ)
        → s.next i ≢ no_link
        → (front : List ℕ) × (d : ℕ) × (bs : List ℕ) × (ps ≡ front ++ i ∷ d ∷ bs) × (s.next i ≡ d)
    live_split i ne = elim (Bool-cases (elem i ps)) [
      | inr dead ↦ absurd (ne (h.next_dead i dead))
      | inl live ↦
          let (front, tail, same) = elem_split i ps live in
          let l = subst (IsLinked rank no_link g no_link) same h.linked in
          behind front tail same (h.next_live i live) l
    ]
      where
        behind :
            (front tail : List ℕ)
            → ps ≡ front ++ i ∷ tail
            → s.next i ≡ g.next i
            → IsLinked rank no_link g no_link (front ++ i ∷ tail)
            → (front : List ℕ) × (d : ℕ) × (bs : List ℕ) × (ps ≡ front ++ i ∷ d ∷ bs)
              × (s.next i ≡ d)
        behind front [] same e l =
            absurd (ne (e ∙ (Chain-drop rank no_link g front no_link i [] l.chain).1))
        behind front (d ∷ bs) same e l =
            (front, d, bs, same, e ∙ (at_pair rank no_link g front no_link i d bs l).next_pair)

    heap_round-IsRound : IsRound s g ps entries (heap_round rank (record s { heap = rest }) entry)
    unfolding heap_round
    heap_round-IsRound =
        let pos = entry % 4294967296 in
        elim (Bool-cases (s.next pos == no_link)) [
          | inl t ↦
              rw (heap_round, t)
                (stale-IsRound (λ j e.
                  let end : s.next pos ≡ no_link = ground arith in
                  absurd (e.linked (sym e.next ∙ rw (← e.pos) end))))
          | inr t ↦
              let linked : s.next pos ≢ no_link = ground arith in
              elim (Bool-cases (rank (s.sym pos) (s.sym (s.next pos)) == entry / 4294967296)) [
                | inr t' ↦
                    rw (heap_round, t, t')
                      (stale-IsRound (λ j e.
                        let same : rank (s.sym pos) (s.sym (s.next pos)) ≡ entry / 4294967296 =
                          rw (e.pos, e.next) (sym e.ranked) in
                        absurd (ground arith)))
                | inl t' ↦
                    let (front, d, bs, same, next) = live_split pos linked in
                    let l = subst (IsLinked rank no_link g no_link) same h.linked in
                    let facts = at_pair rank no_link g front no_link pos d bs l in
                    let equal : rank (s.sym pos) (s.sym (s.next pos)) ≡ entry / 4294967296 =
                      ground arith in
                    let high : entry / 4294967296 ≡ g.ranks pos =
                      sym equal ∙ rw (next, h.same_sym) (sym facts.ranks_pair) in
                    let step_run =
                      heap_round-merge (record s { heap = rest }) entry d
                        (rank (g.sym pos) (g.sym d)) next linked equal
                        (ap (λ f. rank (f pos) (f d)) (sym h.same_sym)) in
                    subst (IsRound s g ps entries) (sym step_run)
                      (merge-IsRound front pos d bs same refl high)
              ]
        ]

  popped-IsHeapMerged :
      (fuel n : ℕ) (s : HeapLinks) (g : Links) (ps entries : List ℕ)
      → ((s' : HeapLinks) (g' : Links) (ps' : List ℕ)
          → IsHeaped rank s' g' ps' s'.heap
          → first no_link ps' ≡ 0
          → length ps' ≤ n
          → length s'.heap + length ps' * 2 < fuel
          → IsHeapMerged n (map g'.sym ps') (heap_loop rank fuel s'))
      → s.heap ≡ entries
      → IsHeaped rank s g ps entries
      → first no_link ps ≡ 0
      → length ps ≤ n
      → length entries + length ps * 2 < suc fuel
      → IsHeapMerged n (map g.sym ps) (heap_loop rank (suc fuel) s)
  unfolding heap_loop pop_min
  popped-IsHeapMerged fuel n s g ps [] rest e h z le enough =
      rw (heap_loop, e)
        (IsHeapMerged-done n s g ps e (subst (λ es. IsHeaped rank s g ps es) (sym e) h) z le)
  popped-IsHeapMerged fuel n s g ps (x ∷ xs) rest e h z le enough =
      let (entry, others, run, p) = pop_min-some x xs in
      let r = heap_round-IsRound s g ps (x ∷ xs) h entry others p in
      let m =
        rest (heap_round rank (record s { heap = others }) entry) r.ghost' r.live' r.heaped
          (r.from_zero ∙ z) (omega (arith, r.short)) (omega (arith, r.less)) in
      record {
        final = m.final;
        ghost = m.ghost;
        live = m.live;
        returns = rw (heap_loop, e, run) m.returns;
        heaped = m.heaped;
        from_zero = m.from_zero;
        short = m.short;
        merged = r.merges (map m.ghost.sym m.live) m.merged;
      }

  pub heap_loop-IsHeapMerged :
      (fuel n : ℕ) (s : HeapLinks) (g : Links) (ps : List ℕ)
      → IsHeaped rank s g ps s.heap
      → first no_link ps ≡ 0
      → length ps ≤ n
      → length s.heap + length ps * 2 < fuel
      → IsHeapMerged n (map g.sym ps) (heap_loop rank fuel s)
  heap_loop-IsHeapMerged zero n s g ps h z le enough = absurd (omega arith)
  heap_loop-IsHeapMerged (suc fuel) n s g ps h z le enough =
      popped-IsHeapMerged fuel n s g ps s.heap (heap_loop-IsHeapMerged fuel n) refl h z le enough
