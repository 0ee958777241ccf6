-- ===== src/Merge/Links/Symbols.antt =====
-- What the index arrays of src/bpe/mod.rs say of the list of live symbols: the effect of unlinking
-- on it, the ranks of its adjacent pairs, and the compaction of the survivors.
use supergigatoken.Base.{
  ℕ, zero, suc, ◌+◌, ◌≤◌, ◌<◌, ◌≡◌, ◌≢◌, refl, ◌∙◌, ap, List, [], ◌∷◌, ◌++◌, map, arith, length,
}
use mathlib.Core.Path.{ap₂}
use supergigatoken.Merge.Spec.{Table, AllPairs}
use supergigatoken.Merge.Links.{Array, Links, update, slice, compact}
use supergigatoken.Merge.Links.Invariant.{Chain, IsUnlinked, Chain-lt, before}

lt→ne : {a b : ℕ} → a < b → a ≢ b
lt→ne h = omega arith

update_here : (g : Array) (i v : ℕ) → update g i v i ≡ v
update_here g i v = ground arith

update_else : (g : Array) (i v j : ℕ) → j ≢ i → update g i v j ≡ g j
update_else g i v j h = ground arith

module _ (rank : Table) (n : ℕ) (s s' : Links) (i d v : ℕ) (u : IsUnlinked rank n s s' i d v) where
  map_after :
      (ps : List ℕ) (p pr : ℕ)
      → i < p
      → Chain rank n s pr (p ∷ ps)
      → map s'.sym (p ∷ ps) ≡ map s.sym (p ∷ ps)
  map_after [] p pr h c = ap₂ ◌∷◌ (u.sym_else p (omega arith)) refl
  map_after (q ∷ qs) p pr h c =
      ap₂ ◌∷◌ (u.sym_else p (omega arith)) (map_after qs q p (omega arith) c.4)

  unlink_head :
      (bs : List ℕ) (pr : ℕ)
      → Chain rank n s pr (i ∷ d ∷ bs)
      → map s'.sym (i ∷ bs) ≡ v ∷ map s.sym bs
  unlink_head [] pr c = ap₂ ◌∷◌ u.sym_here refl
  unlink_head (e ∷ es) pr c =
      let behind : i < d = c.3 in
      let further : d < e = c.4.3 in ap₂ ◌∷◌ u.sym_here (map_after es e d (omega arith) c.4.4)

  -- Unlinking replaces the two symbols by the token.
  pub unlink_symbols :
      (bs front : List ℕ) (pr : ℕ)
      → Chain rank n s pr (front ++ i ∷ d ∷ bs)
      → map s'.sym (front ++ i ∷ bs) ≡ map s.sym front ++ v ∷ map s.sym bs
  unlink_symbols bs [] pr c = unlink_head bs pr c
  unlink_symbols bs (a ∷ front) pr c =
      ap₂ ◌∷◌ (u.sym_else a (lt→ne (before rank n s i (d ∷ bs) front a pr c).0))
        (unlink_symbols bs front a c.4)

module _ (rank : Table) (n : ℕ) (s : Links) where
  -- The held ranks before a live position are those of the pairs before it.
  pub pairs_before :
      (r i : ℕ) (rest front : List ℕ) (pr : ℕ)
      → Chain rank n s pr (front ++ i ∷ rest)
      → ((j : ℕ) → j < i → r < s.ranks j)
      → AllPairs rank (λ x. r < x) (map s.sym front ++ s.sym i ∷ [])
  pairs_before r i rest [] pr c h = tt
  pairs_before r i rest (a ∷ []) pr c h = (rw c.2 at (h a c.3), tt)
  pairs_before r i rest (a ∷ b ∷ front) pr c h = (
    rw c.2 at (h a (before rank n s i rest (b ∷ front) a pr c).0),
    pairs_before r i rest (b ∷ front) a c.4 h,
  )

  pub pairs_from :
      (r : ℕ) (ps : List ℕ) (p pr : ℕ)
      → Chain rank n s pr (p ∷ ps)
      → ((j : ℕ) → j + 1 < n → r ≤ s.ranks j)
      → AllPairs rank (λ x. r ≤ x) (map s.sym (p ∷ ps))
  pairs_from r [] p pr c h = tt
  pairs_from r (q ∷ qs) p pr c h =
      let bound = Chain-lt rank n s q p qs c.4 in
      (rw c.2 at (h p (omega arith)), pairs_from r qs q p c.4 h)

  pub compact_end : (fuel write : ℕ) (g : Array) → compact s.next n fuel g write n ≡ (g, write)
  unfolding compact
  compact_end zero write g = refl
  compact_end (suc fuel) write g = ground arith

  pub compact_round :
      (fuel p write : ℕ) (g : Array)
      → p < n
      → compact s.next n (suc fuel) g write p
        ≡ compact s.next n fuel (update g write (g p)) (write + 1) (s.next p)
  unfolding compact
  compact_round fuel p write g h = ground arith

  -- Compaction from the live position `p` on writes the live symbols at `write`, and leaves what
  -- stands before.
  pub compact_lem :
      (fuel : ℕ) (ps : List ℕ) (p pr write : ℕ) (g : Array)
      → Chain rank n s pr (p ∷ ps)
      → write ≤ p
      → ((j : ℕ) → p ≤ j → g j ≡ s.sym j)
      → length (p ∷ ps) ≤ fuel
      → (h : Array) × (compact s.next n fuel g write p ≡ (h, write + length (p ∷ ps)))
        × (slice h write (length (p ∷ ps)) ≡ map s.sym (p ∷ ps))
        × ((j : ℕ) → j < write → h j ≡ g j)
  compact_lem zero ps p pr write g c low same enough = absurd (omega arith)
  compact_lem (suc fuel) [] p pr write g c low same enough = (
    update g write (g p),
    compact_round fuel p write g c.3 ∙ rw c.1 (compact_end fuel (write + 1) _),
    ap₂ ◌∷◌ (update_here g write (g p) ∙ same p (omega arith)) refl,
    λ j a. update_else g write (g p) j (omega arith),
  )
  compact_lem (suc fuel) (q ∷ qs) p pr write g c low same enough =
      let (h, run, written, kept) =
        compact_lem fuel qs q p (write + 1) (update g write (g p)) c.4 (omega (arith, c.3))
          (λ j a. update_else g write (g p) j (omega (arith, c.3)) ∙ same j (omega (arith, c.3)))
          (omega arith) in
      (
        h,
        compact_round fuel p write g (omega (arith, c.3, Chain-lt rank n s q p qs c.4))
            ∙ rw c.1 (run ∙ ap {B = Array × ℕ} (λ w. (h, w)) (omega arith)),
        ap₂ ◌∷◌ (kept write (omega arith) ∙ update_here g write (g p) ∙ same p (omega arith))
            written,
        λ j a. kept j (omega arith) ∙ update_else g write (g p) j (omega arith),
      )
