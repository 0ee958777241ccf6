-- ===== src/Merge/Small/Loop.antt =====
-- The loop of the small merges of src/bpe/mod.rs: it ends within its fuel, and the live symbols are
-- merged as `Merges` says.
use supergigatoken.Base.{
  ℕ, zero, suc, ◌+◌, ◌-◌, ◌≤◌, ◌<◌, ◌≡◌, ◌≢◌, refl, ◌∙◌, sym, ap, inl, inr, true, false, ◌==◌,
  arith, Bool-cases, ==_iff, List, [], ◌∷◌, ◌++◌, map, Option, some, length, length-append,
}
use mathlib.Core.Path.{subst}
use supergigatoken.Merge.Spec.{Table, max_rank, IsBest, Merges, done, step}
use supergigatoken.Merge.Links.{Links}
use supergigatoken.Merge.Links.Invariant.{first, IsLinked, IsUnlinked, unlink_keeps}
use supergigatoken.Merge.Links.Symbols.{unlink_symbols, pairs_from}
use supergigatoken.Merge.Links.Round.{ranked_split, at_pair, at_pair-IsBest}
use mathlib.Core.List.{map-append}
use supergigatoken.Merge.Small.{scan, merge_loop}
use supergigatoken.Merge.Small.Scan.{IsScanned, scan-IsScanned}
use supergigatoken.Merge.Small.Body.{Unlinks}

module _ (rank : Table) (n : ℕ) (body : Links → ℕ → ℕ → Links) (unlinks : Unlinks rank n body) where
  pub round-IsUnlinked :
      (s : Links) (front : List ℕ) (pr i d : ℕ) (bs : List ℕ) (best : ℕ)
      → IsLinked rank n s pr (front ++ i ∷ d ∷ bs)
      → IsUnlinked rank n s (body s best i) i d best
  round-IsUnlinked s front pr i d bs best l =
      let p = at_pair rank n s front pr i d bs l in
      unlinks s i d best p.next_pair (omega (arith, p.ascend))
        (omega (arith, p.prev_pair, p.ascend, p.inside))
        (omega (arith, p.prev_pair, p.ascend, p.inside)) (omega (arith, p.ascend, p.ascend_next))

  -- The state in which the loop ends, and what became of the live symbols `xs`.
  pub record IsMerged (xs : List ℕ) (r : Option Links) : Type 0 where
    pub final : Links
    pub live : List ℕ
    pub before_first : ℕ
    pub returns : r ≡ some final
    pub linked : IsLinked rank n final before_first live
    pub from_zero : first n live ≡ 0
    pub merged : Merges rank rank xs (map final.sym live)

  pub first-front :
      (front : List ℕ) (i : ℕ) (xs ys : List ℕ)
      → first n (front ++ i ∷ xs) ≡ first n (front ++ i ∷ ys)
  first-front [] i xs ys = refl
  first-front (a ∷ front) i xs ys = refl

  -- A round in front of the rest of the loop.
  IsMerged-step :
      (s : Links) (front : List ℕ) (pr i d : ℕ) (bs : List ℕ) (b : ℕ) (r : Option Links)
      → s.ranks i ≡ b
      → IsLinked rank n s pr (front ++ i ∷ d ∷ bs)
      → IsBest rank (map s.sym front) (s.sym i) (s.sym d) (map s.sym bs)
      → IsMerged (map (body s b i).sym (front ++ i ∷ bs)) r
      → IsMerged (map s.sym (front ++ i ∷ d ∷ bs)) r
  IsMerged-step s front pr i d bs b r hit l best m =
      let p = at_pair rank n s front pr i d bs l in
      let u = round-IsUnlinked s front pr i d bs b l in
      let symbols = unlink_symbols rank n s _ i d b u bs front pr l.chain in
      let token : b ≡ rank (s.sym i) (s.sym d) = sym hit ∙ p.ranks_pair in
      record {
        final = m.final;
        live = m.live;
        before_first = m.before_first;
        returns = m.returns;
        linked = m.linked;
        from_zero = m.from_zero;
        merged =
            step (map s.sym front) (s.sym i) (s.sym d) (map s.sym bs) (map-append s.sym front _)
              best (rw (symbols, token) at m.merged);
      }

  -- No rank below the sentinel is left.
  IsMerged-done :
      (s : Links) (ps : List ℕ) (pr : ℕ)
      → 2 ≤ n
      → IsLinked rank n s pr ps
      → first n ps ≡ 0
      → ((j : ℕ) → j + 1 < n → max_rank ≤ s.ranks j)
      → IsMerged (map s.sym ps) (some s)
  IsMerged-done s [] pr two l zero_first least = absurd (omega arith)
  IsMerged-done s (p ∷ ps) pr two l zero_first least = record {
    final = s;
    live = p ∷ ps;
    before_first = pr;
    returns = refl;
    linked = l;
    from_zero = zero_first;
    merged = done (pairs_from rank n s max_rank ps p pr l.chain least);
  }

  found_pair :
      (s : Links) (b at : ℕ)
      → IsScanned s.ranks 0 (n - 1) max_rank 0 b at
      → b ≢ max_rank
      → (s.ranks at ≡ b)
        × (b < max_rank)
        × ((j : ℕ) → j < at → b < s.ranks j)
        × ((j : ℕ) → j + 1 < n → b ≤ s.ranks j)
  found_pair s b at t h = elim t.found [
    | inl (e, f) ↦ absurd (h e)
    | inr (p, q, r, u, v) ↦
        (r, u, λ j lt. v j (omega arith) lt, λ j lt. t.least j (omega arith) (omega arith))
  ]

  loop_stops :
      (fuel : ℕ) (s : Links)
      → ((scan s.ranks (n - 1) 0 max_rank 0).0 == max_rank) ≡ true
      → merge_loop body n (suc fuel) s ≡ some s
  unfolding merge_loop
  loop_stops fuel s e = rw (e, merge_loop)

  loop_goes :
      (fuel : ℕ) (s : Links)
      → ((scan s.ranks (n - 1) 0 max_rank 0).0 == max_rank) ≡ false
      → merge_loop body n (suc fuel) s
        ≡ merge_loop body n fuel
            (body s (scan s.ranks (n - 1) 0 max_rank 0).0 (scan s.ranks (n - 1) 0 max_rank 0).1)
  unfolding merge_loop
  loop_goes fuel s e = rw (e, merge_loop)

  -- The loop's result from a linked state: with fuel for every live symbol it ends, linked again.
  pub loop-IsMerged :
      (fuel : ℕ) (s : Links) (ps : List ℕ) (pr : ℕ)
      → 2 ≤ n
      → IsLinked rank n s pr ps
      → first n ps ≡ 0
      → length ps ≤ fuel
      → IsMerged (map s.sym ps) (merge_loop body n fuel s)
  loop-IsMerged zero s [] pr two l zero_first enough = absurd (omega arith)
  loop-IsMerged zero s (p ∷ ps) pr two l zero_first enough = absurd (omega arith)
  loop-IsMerged (suc fuel) s ps pr two l zero_first enough =
      let r = scan s.ranks (n - 1) 0 max_rank 0 in
      let t = scan-IsScanned s.ranks (n - 1) 0 max_rank 0 in
      elim (Bool-cases (r.0 == max_rank)) [
        | inl e ↦ rw (loop_stops fuel s e) (
            IsMerged-done s ps pr two l zero_first (λ j lt.
              omega (arith, (==_iff r.0 max_rank).0 e, t.least j (omega arith) (omega arith))))
        | inr e ↦
            let (hit, below, above, least) = found_pair s r.0 r.1 t (ground arith) in
            let (front, d, bs, same) =
              ranked_split rank n s ps pr r.1 l (omega (arith, hit, below)) in
            let l' = subst (IsLinked rank n s pr) same l in
            let u = round-IsUnlinked s front pr r.1 d bs r.0 l' in
            let rest =
              loop-IsMerged fuel (body s r.0 r.1) (front ++ r.1 ∷ bs) pr two
                (unlink_keeps rank n s _ r.1 d r.0 u front bs pr l')
                (first-front front r.1 bs (d ∷ bs) ∙ rw same at zero_first)
                (omega (
                  arith,
                  ap length same,
                  length-append front (r.1 ∷ bs),
                  length-append front (r.1 ∷ d ∷ bs),
                )) in
            rw (loop_goes fuel s e, same)
              (IsMerged-step s front pr r.1 d bs r.0 _ hit l'
                (at_pair-IsBest rank n s front pr r.1 d bs l' (omega (arith, hit, below))
                  (λ j lt. rw hit (above j lt)) (λ j lt. rw hit (least j lt)))
                rest)
      ]
