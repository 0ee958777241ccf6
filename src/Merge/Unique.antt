-- ===== src/Merge/Unique.antt =====
-- Byte-pair merging (src/bpe/mod.rs) leaves no choice: an input has one result, so every loop that
-- implements it returns the same symbols.
use supergigatoken.Base.{ℕ, ◌≤◌, ◌<◌, ◌≡◌, refl, ◌∙◌, sym, ap, arith, List, [], ◌∷◌, ◌++◌}
use mathlib.Core.Path.{ap₂, subst}
use supergigatoken.Merge.Spec.{Table, max_rank, AllPairs, IsBest, Merges, done, step}

head_eq : {x y : ℕ} {xs ys : List ℕ} → x ∷ xs ≡ y ∷ ys → x ≡ y
head_eq e = cc

tail_eq : {x y : ℕ} {xs ys : List ℕ} → x ∷ xs ≡ y ∷ ys → xs ≡ ys
tail_eq e = cc

module _ (rank : Table) (P : ℕ → Type 0) where
  AllPairs-tail : (x : ℕ) (xs : List ℕ) → AllPairs rank P (x ∷ xs) → AllPairs rank P xs
  AllPairs-tail x [] h = tt
  AllPairs-tail x (y ∷ xs) h = h.1

  AllPairs-inner :
      (l : List ℕ) (a b : ℕ) (r : List ℕ) → AllPairs rank P (l ++ a ∷ b ∷ r) → P (rank a b)
  AllPairs-inner [] a b r h = h.0
  AllPairs-inner (x ∷ l) a b r h = AllPairs-inner l a b r (AllPairs-tail x (l ++ a ∷ b ∷ r) h)

  -- The first pair of a list that begins with `l` and `a`.
  AllPairs-first :
      (x : ℕ) (l : List ℕ) (a b : ℕ) (r : List ℕ) (y : ℕ) (ys : List ℕ)
      → AllPairs rank P (x ∷ l ++ a ∷ [])
      → y ∷ ys ≡ l ++ a ∷ b ∷ r
      → P (rank x y)
  AllPairs-first x [] a b r y ys h e = rw (head_eq e) h.0
  AllPairs-first x (z ∷ l) a b r y ys h e = rw (head_eq e) h.0

module _ (rank : Table) where
  IsBest-tail :
      (x : ℕ) (l : List ℕ) (a b : ℕ) (r : List ℕ) → IsBest rank (x ∷ l) a b r → IsBest rank l a b r
  IsBest-tail x l a b r h = record {
    merges = h.merges;
    above = AllPairs-tail rank (λ k. rank a b < k) x (l ++ a ∷ []) h.above;
    least = h.least;
  }

  IsBest-apart :
      (a b : ℕ) (r : List ℕ) (x : ℕ) (l : List ℕ) (a' b' : ℕ) (r' : List ℕ)
      → a ∷ b ∷ r ≡ x ∷ l ++ a' ∷ b' ∷ r'
      → IsBest rank [] a b r
      → IsBest rank (x ∷ l) a' b' r'
      → ⊥
  IsBest-apart a b r x l a' b' r' e h h' =
      let later : rank a b ≤ rank a' b' =
        AllPairs-inner rank (λ k. rank a b ≤ k) l a' b' r'
          (subst (AllPairs rank (λ k. rank a b ≤ k)) (tail_eq e) h.least) in
      let earlier : rank a' b' < rank x b =
        AllPairs-first rank (λ k. rank a' b' < k) x l a' b' r' b r h'.above (tail_eq e) in
      let same : a ≡ x = head_eq e in absurd (omega (arith, ap (λ k. rank k b) same))

  -- The best pair of a list stands at one place.
  IsBest-unique :
      (l : List ℕ) (a b : ℕ) (r l' : List ℕ) (a' b' : ℕ) (r' : List ℕ)
      → l ++ a ∷ b ∷ r ≡ l' ++ a' ∷ b' ∷ r'
      → IsBest rank l a b r
      → IsBest rank l' a' b' r'
      → (l ≡ l') × (a ≡ a') × (b ≡ b') × (r ≡ r')
  IsBest-unique [] a b r [] a' b' r' e h h' = (refl, cc, cc, cc)
  IsBest-unique [] a b r (x ∷ l') a' b' r' e h h' = absurd (IsBest-apart a b r x l' a' b' r' e h h')
  IsBest-unique (x ∷ l) a b r [] a' b' r' e h h' =
      absurd (IsBest-apart a' b' r' x l a b r (sym e) h' h)
  IsBest-unique (x ∷ l) a b r (x' ∷ l') a' b' r' e h h' =
      let (el, ea, eb, er) =
        IsBest-unique l a b r l' a' b' r' (tail_eq e) (IsBest-tail x l a b r h)
          (IsBest-tail x' l' a' b' r' h') in
      (ap₂ ◌∷◌ (head_eq e) el, ea, eb, er)

pub Merges-unique :
    (rank token : Table) (xs ys zs : List ℕ)
    → Merges rank token xs ys
    → Merges rank token xs zs
    → ys ≡ zs
Merges-unique rank token xs ys zs (done h) (done h') = refl
Merges-unique rank token xs ys zs (done h) (step l a b r e best m) = absurd (
    omega (
      arith,
      best.merges,
      AllPairs-inner rank (λ k. max_rank ≤ k) l a b r
          (subst (AllPairs rank (λ k. max_rank ≤ k)) e h),
    ))
Merges-unique rank token xs ys zs (step l a b r e best m) (done h) = absurd (
    omega (
      arith,
      best.merges,
      AllPairs-inner rank (λ k. max_rank ≤ k) l a b r
          (subst (AllPairs rank (λ k. max_rank ≤ k)) e h),
    ))
Merges-unique rank token xs ys zs (step l a b r e best m) (step l' a' b' r' e' best' m') =
    let (el, ea, eb, er) = IsBest-unique rank l a b r l' a' b' r' (sym e ∙ e') best best' in
    Merges-unique rank token (l ++ token a b ∷ r) ys zs m (rw (el, ea, eb, er) m')
