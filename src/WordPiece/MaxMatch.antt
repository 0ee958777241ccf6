-- ===== src/WordPiece/MaxMatch.antt =====
-- The longest-match-first segmentation of src/bpe/wordpiece.rs as relations that know nothing of
-- caps, hash maps and loops, and the lemmas that tie `probe` and `walk` to them.
use supergigatoken.Base.{
  ℕ, zero, suc, ◌+◌, ◌-◌, ◌≤◌, ◌<◌, min, ◌≡◌, ◌≢◌, refl, inl, inr, Option, none, some, List, [],
  ◌∷◌, ◌++◌, Bytes, ltb, ◌==◌, if◌then◌else◌, length, take, drop, lookup, append_assoc, append-nil,
  arith, Bool-cases, Option-cases, length-append, length-drop, length-take, bytes_eq, sym, ◌∙◌,
}
use mathlib.Core.Path.{ap₂}
use native.Mathlib.Decide.{ℕ_discrete}
use supergigatoken.WordPiece.{WordPiece, backoff, probe, walk}

-- `piece start k`: the token of the text `k` at offset `start`.
abbrev pub Pieces : Type 0
Pieces = ℕ → Bytes → Option ℕ

-- The pieces of a loaded model.
abbrev pub pieces_of : WordPiece → Pieces
pieces_of wp start k = if start == 0 then lookup k wp.head else lookup k wp.cont

-- No prefix of `bytes[start..]` wider than `n` is a piece.
abbrev pub NoneAbove : Pieces → Bytes → ℕ → ℕ → Type 0
NoneAbove piece bytes start n =
    (k : ℕ) → n < k → start + k ≤ length bytes → piece start (take k (drop start bytes)) ≡ none

-- The widest piece at `start` has width `n` and token `id`.
pub record IsLongest (piece : Pieces) (bytes : Bytes) (start id n : ℕ) : Type 0 where
  pub positive : 0 < n
  pub inside : start + n ≤ length bytes
  pub matches : piece start (take n (drop start bytes)) ≡ some id
  pub longest : NoneAbove piece bytes start n

-- The greedy segmentation of `bytes[start..]` has the tokens `ids`.
pub data Segments (piece : Pieces) (bytes : Bytes) : ℕ → List ℕ → Type 0 where
  done : {start : ℕ} → start ≡ length bytes → Segments piece bytes start []
  step :
      {start : ℕ} {ids : List ℕ} (id n : ℕ)
      → IsLongest piece bytes start id n
      → Segments piece bytes (start + n) ids
      → Segments piece bytes start (id ∷ ids)

-- The greedy segmentation of `bytes[start..]` meets an offset where no piece matches.
pub data Fails (piece : Pieces) (bytes : Bytes) : ℕ → Type 0 where
  stuck :
      {start : ℕ} → start < length bytes → NoneAbove piece bytes start 0 → Fails piece bytes start
  step :
      {start : ℕ} (id n : ℕ)
      → IsLongest piece bytes start id n
      → Fails piece bytes (start + n)
      → Fails piece bytes start

-- The two caps of a model are at least the lengths of the keys.
pub record IsCapped (wp : WordPiece) : Type 0 where
  pub head_cap : (k : Bytes) (id : ℕ) → lookup k wp.head ≡ some id → length k ≤ wp.max_head_len
  pub cont_cap : (k : Bytes) (id : ℕ) → lookup k wp.cont ≡ some id → length k ≤ wp.max_cont_len

-- A probe of one map.
module _ (m : List (Bytes × ℕ)) (rest : Bytes) where
  -- No key of `m` is a prefix of `rest` whose width is above `w` and at most `n`.
  abbrev Absent : ℕ → ℕ → Type 0
  Absent w n = (k : ℕ) → w < k → k ≤ n → lookup (take k rest) m ≡ none

  Absent-suc : (w n : ℕ) → Absent w n → lookup (take (suc n) rest) m ≡ none → Absent w (suc n)
  Absent-suc w n a e k p q = elim (ℕ_discrete k (suc n)) [
    | yes same ↦ rw same e
    | no other ↦ a k p (omega arith)
  ]

  backoff-some :
      (n id w : ℕ)
      → backoff m rest n ≡ some (id, w)
      → (0 < w) × (w ≤ n) × (lookup (take w rest) m ≡ some id) × Absent w n
  unfolding backoff
  backoff-some zero id w h = cc
  backoff-some (suc n) id w h = elim (Option-cases (lookup (take (suc n) rest) m)) [
    | inr (i, e) ↦
        let width : w ≡ suc n = ground arith in
        let same : i ≡ id = ground arith in
        (omega arith, omega arith, rw (width, ← same) e, λ k p q. absurd (omega arith))
    | inl e ↦
        let shorter : backoff m rest n ≡ some (id, w) = ground arith in
        let (positive, fits, hit, absent) = backoff-some n id w shorter in
        (positive, omega arith, hit, Absent-suc w n absent e)
  ]

  backoff-none : (n : ℕ) → backoff m rest n ≡ none → Absent 0 n
  unfolding backoff
  backoff-none zero h = λ k p q. absurd (omega arith)
  backoff-none (suc n) h = elim (Option-cases (lookup (take (suc n) rest) m)) [
    | inr (i, e) ↦ absurd (ground arith)
    | inl e ↦ Absent-suc 0 n (backoff-none n (ground arith)) e
  ]

  -- With every key at most `cap` long, nothing is lost by starting the back-off at the cap.
  Absent-cap :
      (cap w len : ℕ)
      → len ≡ length rest
      → ((k : Bytes) (id : ℕ) → lookup k m ≡ some id → length k ≤ cap)
      → Absent w (min len cap)
      → Absent w len
  Absent-cap cap w len size fits absent k p q = elim (Option-cases (lookup (take k rest) m)) [
    | inl e ↦ e
    | inr (id, e) ↦ absent k p (omega (arith, fits (take k rest) id e, length-take k rest))
  ]

  -- A capped probe finds the longest key, and fails only if there is none.
  capped_some :
      (cap id w : ℕ)
      → ((k : Bytes) (id : ℕ) → lookup k m ≡ some id → length k ≤ cap)
      → backoff m rest (min (length rest) cap) ≡ some (id, w)
      → (0 < w) × (w ≤ length rest) × (lookup (take w rest) m ≡ some id) × Absent w (length rest)
  capped_some cap id w fits h =
      let (positive, inside, hit, absent) = backoff-some _ id w h in
      (positive, omega arith, hit, Absent-cap cap w (length rest) refl fits absent)

  capped_none :
      (cap : ℕ)
      → ((k : Bytes) (id : ℕ) → lookup k m ≡ some id → length k ≤ cap)
      → backoff m rest (min (length rest) cap) ≡ none
      → Absent 0 (length rest)
  capped_none cap fits h = Absent-cap cap 0 (length rest) refl fits (backoff-none _ h)

-- What a capped probe of the map that serves the offset `start` says of the pieces there.
module _ (piece : Pieces) (bytes : Bytes) (start : ℕ) (inside : start ≤ length bytes)
    (m : List (Bytes × ℕ)) (serves : (k : Bytes) → piece start k ≡ lookup k m) (cap : ℕ)
    (fits : (k : Bytes) (id : ℕ) → lookup k m ≡ some id → length k ≤ cap) where
  width : length (drop start bytes) ≡ length bytes - start
  width = length-drop start bytes

  map_some :
      (id n : ℕ)
      → backoff m (drop start bytes) (min (length bytes - start) cap) ≡ some (id, n)
      → IsLongest piece bytes start id n
  map_some id n h =
      let (positive, fit, hit, absent) =
        capped_some m (drop start bytes) cap id n fits (rw width h) in
      record {
        positive = positive;
        inside = omega (arith, width);
        matches = serves _ ∙ hit;
        longest = λ k p q. serves _ ∙ absent k p (omega (arith, width));
      }

  map_none :
      backoff m (drop start bytes) (min (length bytes - start) cap) ≡ none
      → NoneAbove piece bytes start 0
  map_none h k p q =
      serves _ ∙ capped_none m (drop start bytes) cap fits (rw width h) k p (omega (arith, width))

module _ (wp : WordPiece) (capped : IsCapped wp) (bytes : Bytes) where
  probe-some :
      (start id n : ℕ)
      → start ≤ length bytes
      → probe wp bytes start ≡ some (id, n)
      → IsLongest (pieces_of wp) bytes start id n
  unfolding probe
  probe-some start id n inside h = elim (Bool-cases (start == 0)) [
    | inl first ↦
        map_some (pieces_of wp) bytes start inside wp.head (λ k. rw first) wp.max_head_len
          capped.head_cap id n (rw first at h)
    | inr later ↦
        map_some (pieces_of wp) bytes start inside wp.cont (λ k. rw later) wp.max_cont_len
          capped.cont_cap id n (rw later at h)
  ]

  probe-none :
      (start : ℕ)
      → start ≤ length bytes
      → probe wp bytes start ≡ none
      → NoneAbove (pieces_of wp) bytes start 0
  unfolding probe
  probe-none start inside h = elim (Bool-cases (start == 0)) [
    | inl first ↦
        map_none (pieces_of wp) bytes start inside wp.head (λ k. rw first) wp.max_head_len
          capped.head_cap (rw first at h)
    | inr later ↦
        map_none (pieces_of wp) bytes start inside wp.cont (λ k. rw later) wp.max_cont_len
          capped.cont_cap (rw later at h)
  ]

  -- The two ways in which the outer loop ends, from the offset `start` and the output `out`.
  pub data Outcome (mark start : ℕ) (out : List ℕ) (r : Option (List ℕ × ℕ)) : Type 0 where
    segmented :
        (ids : List ℕ)
        → Segments (pieces_of wp) bytes start ids
        → r ≡ some (out ++ ids, length (out ++ ids) - mark)
        → Outcome mark start out r
    failed :
        Fails (pieces_of wp) bytes start
        → r ≡ some (take mark out ++ wp.unk ∷ [], 1)
        → Outcome mark start out r

take-append_le : (n : ℕ) (xs ys : List ℕ) → n ≤ length xs → take n (xs ++ ys) ≡ take n xs
take-append_le zero xs ys h = refl
take-append_le (suc n) [] ys h = absurd (omega arith)
take-append_le (suc n) (x ∷ xs) ys h = rw (take-append_le n xs ys (omega arith))

module _ (wp : WordPiece) (capped : IsCapped wp) (bytes : Bytes) (mark : ℕ) where
  -- One matched piece in front of what the rest of the loop does.
  Outcome-step :
      (start id n : ℕ) (out : List ℕ) (r : Option (List ℕ × ℕ))
      → mark ≤ length out
      → IsLongest (pieces_of wp) bytes start id n
      → Outcome wp capped bytes mark (start + n) (out ++ id ∷ []) r
      → Outcome wp capped bytes mark start out r
  Outcome-step start id n out r h l (segmented ids s e) =
      segmented (id ∷ ids) (Segments.step id n l s) (rw (append_assoc out (id ∷ []) ids) at e)
  Outcome-step start id n out r h l (failed f e) =
      failed (Fails.step id n l f) (rw (take-append_le mark out (id ∷ []) h) at e)

  -- With more fuel than bytes the loop ends, in one of the two ways.
  pub walk-Outcome :
      (fuel start : ℕ) (out : List ℕ)
      → start ≤ length bytes
      → length bytes < start + fuel
      → mark ≤ length out
      → Outcome wp capped bytes mark start out (walk wp bytes mark fuel start out)
  unfolding walk
  walk-Outcome zero start out inside enough h = absurd (omega arith)
  walk-Outcome (suc fuel) start out inside enough h = elim (Bool-cases (ltb start (length bytes))) [
    | inr end ↦ segmented [] (done (ground arith)) (rw append-nil (ground arith))
    | inl more ↦ elim (Option-cases (probe wp bytes start)) [
      | inl e ↦
          failed (stuck (ground arith) (probe-none wp capped bytes start inside e)) (ground arith)
      | inr ((id, n), e) ↦
          let l = probe-some wp capped bytes start id n inside e in
          let round : walk wp bytes mark (suc fuel) start out
              ≡ walk wp bytes mark fuel (start + n) (out ++ id ∷ []) =
            ground arith in
          rw round (
            Outcome-step start id n out _ h l (
              walk-Outcome fuel (start + n) (out ++ id ∷ []) l.inside (omega (arith, l.positive))
                (rw length-append (omega arith))))
    ]
  ]

-- The greedy segmentation of a text is unique, and excludes a failure.
module _ (piece : Pieces) (bytes : Bytes) where
  IsLongest-unique :
      (start id n id' n' : ℕ)
      → IsLongest piece bytes start id n
      → IsLongest piece bytes start id' n'
      → (id ≡ id') × (n ≡ n')
  IsLongest-unique start id n id' n' a b =
      let not_below : ¬ (n < n') = λ p. cc (a.longest n' p b.inside, b.matches) in
      let not_above : ¬ (n' < n) = λ p. cc (b.longest n p a.inside, a.matches) in
      let same : n ≡ n' = omega arith in
      let hit : piece start (take n (drop start bytes)) ≡ some id' = rw same b.matches in
      (cc (hit, a.matches), same)

  IsLongest-ends : (id n start : ℕ) → IsLongest piece bytes start id n → start ≢ length bytes
  IsLongest-ends id n start l e = absurd (omega (arith, l.positive, l.inside))

  pub Segments-unique :
      (start : ℕ) (xs ys : List ℕ)
      → Segments piece bytes start xs
      → Segments piece bytes start ys
      → xs ≡ ys
  Segments-unique start xs ys (done e) (done e') = refl
  Segments-unique start xs ys (done e) (step id n l s) = absurd (IsLongest-ends id n start l e)
  Segments-unique start xs ys (step id n l s) (done e) = absurd (IsLongest-ends id n start l e)
  Segments-unique start xs ys (step {ids = xs'} id n l s) (step {ids = ys'} id' n' l' s') =
      let (same, width) = IsLongest-unique start id n id' n' l l' in
      ap₂ ◌∷◌ same (Segments-unique (start + n) xs' ys' s (rw width s'))

  pub Segments-Fails :
      (start : ℕ) (xs : List ℕ) → Segments piece bytes start xs → ¬ Fails piece bytes start
  Segments-Fails start xs (done e) (stuck p h) = absurd (omega arith)
  Segments-Fails start xs (done e) (Fails.step id n l f) = absurd (IsLongest-ends id n start l e)
  Segments-Fails start xs (step id n l s) (stuck p h) = cc (h n l.positive l.inside, l.matches)
  Segments-Fails start xs (step {ids = xs'} id n l s) (Fails.step id' n' l' f) =
      let (same, width) = IsLongest-unique start id n id' n' l l' in
      Segments-Fails (start + n) xs' s (rw width f)

-- Two families of pieces that agree on the slices of `bytes` segment it alike.
module _ (p q : Pieces) (bytes : Bytes)
    (agree : (start k : ℕ)
      → p start (take k (drop start bytes)) ≡ q start (take k (drop start bytes))) where
  IsLongest-congr : (start id n : ℕ) → IsLongest p bytes start id n → IsLongest q bytes start id n
  IsLongest-congr start id n l = record {
    positive = l.positive;
    inside = l.inside;
    matches = sym (agree start n) ∙ l.matches;
    longest = λ k a b. sym (agree start k) ∙ l.longest k a b;
  }

  pub Segments-congr :
      (start : ℕ) (ids : List ℕ) → Segments p bytes start ids → Segments q bytes start ids
  Segments-congr start ids (done e) = done e
  Segments-congr start ids (step {ids = rest} id n l s) =
      step id n (IsLongest-congr start id n l) (Segments-congr (start + n) rest s)

  pub Fails-congr : (start : ℕ) → Fails p bytes start → Fails q bytes start
  Fails-congr start (stuck a h) = stuck a (λ k b c. sym (agree start k) ∙ h k b c)
  Fails-congr start (Fails.step id n l f) =
      Fails.step id n (IsLongest-congr start id n l) (Fails-congr (start + n) f)
