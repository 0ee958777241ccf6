-- ===== src/Train/Learn/Changes.antt =====
-- What the changes that update_word of src/bpe_train.rs records have to do with the pairs of the word
-- before and behind it.
use supergigatoken.Base.{
  ℕ, ◌<◌, ◌≡◌, refl, inl, inr, Option, none, some, List, [], ◌∷◌, ◌++◌, Pair, ◌==◌, ◌&&◌, All,
  All-append, Bool-cases, arith,
}
use supergigatoken.Base.Int.{ℤ}
use supergigatoken.Train.Words.{Change, left_changes, right_changes, update_from}
use supergigatoken.Train.Words.Update.{update_merge, update_skip}

-- All pairs of adjacent symbols.
abbrev pub Pairs : (Pair → Type 0) → List ℕ → Type 0
Pairs K [] = Unit
Pairs K (x ∷ []) = Unit
Pairs K (x ∷ y ∷ xs) = K (x, y) × Pairs K (y ∷ xs)

abbrev pub behind : Option ℕ → List ℕ → List ℕ
behind none xs = xs
behind (some l) xs = l ∷ xs

pub Pairs-mono :
    (K L : Pair → Type 0) → ((p : Pair) → K p → L p) → (xs : List ℕ) → Pairs K xs → Pairs L xs
Pairs-mono K L f [] h = tt
Pairs-mono K L f (x ∷ []) h = tt
Pairs-mono K L f (x ∷ y ∷ xs) (k, h) = (f (x, y) k, Pairs-mono K L f (y ∷ xs) h)

Pairs-tail : (K : Pair → Type 0) (x : ℕ) (xs : List ℕ) → Pairs K (x ∷ xs) → Pairs K xs
Pairs-tail K x [] h = tt
Pairs-tail K x (y ∷ xs) (k, h) = h

pub All-left : {A : Type 0} (P : A → Type 0) (xs ys : List A) → All P (xs ++ ys) → All P xs
All-left P [] ys h = tt
All-left P (x ∷ xs) ys (p, h) = (p, All-left P xs ys h)

pub All-right : {A : Type 0} (P : A → Type 0) (xs ys : List A) → All P (xs ++ ys) → All P ys
All-right P [] ys h = h
All-right P (x ∷ xs) ys (p, h) = All-right P xs ys h

module _ (pair : Pair) (new : ℕ) (c : ℤ) (K : Pair → Type 0) where
  abbrev pub Added : Change → Type 0
  Added ch = ch.1 ≡ c → K ch.0

  abbrev pub Known : Change → Type 0
  Known ch = K ch.0

  -- If the pairs of the word and those that are recorded as added are in K, then so are all the
  -- recorded pairs and the pairs of the updated word.
  Kept : Option ℕ → List ℕ × List Change → Type 0
  Kept left r = All Known r.1 × Pairs K (behind left r.0)

  left-Known :
      (left : Option ℕ) (x : ℕ) (rest zs : List ℕ)
      → x ≡ pair.0
      → Pairs K (behind left (x ∷ rest))
      → All Added (left_changes pair new c left)
      → Pairs K (new ∷ zs)
      → All Known (left_changes pair new c left) × Pairs K (behind left (new ∷ zs))
  unfolding left_changes
  left-Known none x rest zs e h a k = (tt, k)
  left-Known (some l) x rest zs e (h, t) a k = ((rw (← e) h, (a.1.0 refl, tt)), (a.1.0 refl, k))

  right-Known :
      (y : ℕ) (rest : List ℕ)
      → y ≡ pair.1
      → Pairs K (y ∷ rest)
      → All Added (right_changes pair new c rest)
      → All Known (right_changes pair new c rest) × Pairs K (new ∷ rest)
  unfolding right_changes
  right-Known y [] e h a = (tt, tt)
  right-Known y (r ∷ rest) e (h, t) a = ((rw (← e) h, (a.1.0 refl, tt)), (a.1.0 refl, t))

  skip-Pairs :
      (left : Option ℕ) (x : ℕ) (xs zs : List ℕ)
      → Pairs K (behind left (x ∷ xs))
      → Pairs K (x ∷ zs)
      → Pairs K (behind left (x ∷ zs))
  skip-Pairs none x xs zs h k = k
  skip-Pairs (some l) x xs zs (h, t) k = (h, k)

  behind-Pairs : (left : Option ℕ) (xs : List ℕ) → Pairs K (behind left xs) → Pairs K xs
  behind-Pairs none xs h = h
  behind-Pairs (some l) xs h = Pairs-tail K l xs h

  pub update_from-Kept :
      (left : Option ℕ) (xs : List ℕ)
      → Pairs K (behind left xs)
      → All Added (update_from pair new c left xs).1
      → All Known (update_from pair new c left xs).1
        × Pairs K (behind left (update_from pair new c left xs).0)
  update_from-Kept left [] h a = unfold update_from in (tt, h)
  update_from-Kept left (x ∷ []) h a = unfold update_from in (tt, h)
  update_from-Kept left (x ∷ y ∷ rest) h a = elim (Bool-cases (x == pair.0 && y == pair.1)) [
    | inl e ↦
        let first : x ≡ pair.0 = ground arith in
        let second : y ≡ pair.1 = ground arith in
        let sides = left_changes pair new c left in
        let rights = right_changes pair new c rest in
        let r = update_from pair new c (some new) rest in
        let all : All Added (sides ++ rights ++ r.1) =
          rw (update_merge pair new c left x y rest e) at a in
        let earlier = All-left Added (sides ++ rights) r.1 all in
        let (known, next) =
          right-Known y rest second (Pairs-tail K x (y ∷ rest) (behind-Pairs left (x ∷ y ∷ rest) h))
            (All-right Added sides rights earlier) in
        let (known_rest, after) =
          update_from-Kept (some new) rest next (All-right Added (sides ++ rights) r.1 all) in
        let (known_left, whole) =
          left-Known left x (y ∷ rest) r.0 first h (All-left Added sides rights earlier) after in
        rw (update_merge pair new c left x y rest e) (
          All-append Known (sides ++ rights) r.1 (All-append Known sides rights known_left known)
              known_rest,
          whole,
        )
    | inr e ↦
        let r = update_from pair new c (some x) (y ∷ rest) in
        let all : All Added r.1 = rw (update_skip pair new c left x y rest e) at a in
        let (known, after) =
          update_from-Kept (some x) (y ∷ rest) (behind-Pairs left (x ∷ y ∷ rest) h) all in
        rw (update_skip pair new c left x y rest e)
          (known, skip-Pairs left x (y ∷ rest) r.0 h after)
  ]

-- Both symbols of a pair are below `n`.
abbrev pub Below : ℕ → Pair → Type 0
Below n p = (p.0 < n) × (p.1 < n)

abbrev Left : ℕ → Option ℕ → Type 0
Left n none = Unit
Left n (some l) = l < n

module _ (pair : Pair) (new : ℕ) (c : ℤ) (n : ℕ) (fresh : new < n) where
  abbrev pub Ranged : Change → Type 0
  Ranged ch = Below n ch.0

  left_changes-Ranged :
      (left : Option ℕ) → Below n pair → Left n left → All Ranged (left_changes pair new c left)
  unfolding left_changes
  left_changes-Ranged none h l = tt
  left_changes-Ranged (some x) h l = ((l, h.0), ((l, fresh), tt))

  right_changes-Ranged :
      (rest : List ℕ)
      → Below n pair
      → All (λ x. x < n) rest
      → All Ranged (right_changes pair new c rest)
  unfolding right_changes
  right_changes-Ranged [] h r = tt
  right_changes-Ranged (x ∷ rest) h (r, t) = ((h.1, r), ((fresh, r), tt))

  -- The recorded pairs and the updated word have no symbol from `n` on.
  pub update_from-Ranged :
      (left : Option ℕ) (xs : List ℕ)
      → Left n left
      → All (λ x. x < n) xs
      → All Ranged (update_from pair new c left xs).1
        × All (λ x. x < n) (update_from pair new c left xs).0
  update_from-Ranged left [] l h = unfold update_from in (tt, tt)
  update_from-Ranged left (x ∷ []) l h = unfold update_from in (tt, h)
  update_from-Ranged left (x ∷ y ∷ rest) l (hx, (hy, h)) =
      elim (Bool-cases (x == pair.0 && y == pair.1)) [
        | inl e ↦
            let first : pair.0 < n = ground (arith, hx) in
            let second : pair.1 < n = ground (arith, hy) in
            let sides = left_changes pair new c left in
            let rights = right_changes pair new c rest in
            let (known, after) = update_from-Ranged (some new) rest fresh h in
            rw (update_merge pair new c left x y rest e) (
              All-append Ranged (sides ++ rights) (update_from pair new c (some new) rest).1
                  (All-append Ranged sides rights (left_changes-Ranged left (first, second) l)
                    (right_changes-Ranged rest (first, second) h))
                  known,
              (fresh, after),
            )
        | inr e ↦
            let (known, after) = update_from-Ranged (some x) (y ∷ rest) hx (hy, h) in
            rw (update_skip pair new c left x y rest e) (known, (hx, after))
      ]

-- The pairs of symbols below `n` are below `n`.
pub Pairs-both :
    (K : Pair → Type 0) (n : ℕ) (xs : List ℕ)
    → Pairs K xs
    → All (λ x. x < n) xs
    → Pairs (λ p. K p × Below n p) xs
Pairs-both K n [] h b = tt
Pairs-both K n (x ∷ []) h b = tt
Pairs-both K n (x ∷ y ∷ xs) h b = ((h.0, (b.0, b.1.0)), Pairs-both K n (y ∷ xs) h.1 b.1)
