-- ===== src/Tests/Queue.antt =====
-- A queue that behaves as the library priority_queue is documented to: an association list.
use supergigatoken.Base.{
  ◌≤◌, ◌<◌, ◌≡◌, refl, sym, ◌∙◌, inl, inr, Bool, true, false, Option, none, some, [], ◌∷◌, Pair,
  Bool-cases, Option-cases, length, lookup, insert, lookup-insert, pair_eq, pair_beq, pair_beq_iff,
  if◌then◌else◌, arith,
}
use supergigatoken.Base.Int.{ℤ, ltb_ℤ, ◌+ℤ◌, ◌≤ℤ◌}
use supergigatoken.Train.Words.{Counts}
use supergigatoken.Train.Learn.Queue.{PriorityQueue, IsPriorityQueue}

unfoldable pub better : Pair × ℤ → Option (Pair × ℤ) → Option (Pair × ℤ)
better x none = some x
better (k, c) (some (k', c')) = if ltb_ℤ c c' then some (k', c') else some (k, c)

unfoldable pub candidate : Pair → Option ℤ → Option (Pair × ℤ) → Option (Pair × ℤ)
unfolding better
candidate k none r = r
candidate k (some c) r = better (k, c) r

-- The best of the keys of a list, by the map `m`.
unfoldable pub best : Counts → Counts → Option (Pair × ℤ)
unfolding candidate
best m [] = none
best m ((k, c) ∷ es) = candidate k (lookup k m) (best m es)

unfoldable pub remove : Pair → Counts → Counts
remove k [] = []
remove k ((j, c) ∷ m) = if pair_beq j k then remove k m else (j, c) ∷ remove k m

unfoldable pub pop_best : Counts → Option (Pair × ℤ) → Option (Pair × ℤ × Counts)
unfolding remove
pop_best m none = none
pop_best m (some (k, c)) = some (k, c, remove k m)

unfoldable pub change : Pair → ℤ → Counts → Option ℤ → Bool × Counts
unfolding insert
change k d m none = (false, m)
change k d m (some c) = (true, insert k (c +ℤ d) m)

abbrev pub list_queue : PriorityQueue
list_queue = record {
  Queue = Counts;
  empty = [];
  push = λ k c m. insert k c m;
  pop = λ m. pop_best m (best m m);
  peek = λ m. best m m;
  change_priority_by = λ k d m. change k d m (lookup k m);
  len = length;
}

pub lookup-remove :
    (k p : Pair) (m : Counts) → lookup p (remove k m) ≡ (if pair_beq k p then none else lookup p m)
unfolding remove lookup
lookup-remove k p [] = ground arith
lookup-remove k p ((j, c) ∷ m) =
    ground (arith, pair_beq_iff j k, pair_beq_iff j p, pair_beq_iff k p, lookup-remove k p m)

length-remove_le : (k : Pair) (m : Counts) → length (remove k m) ≤ length m
unfolding remove
length-remove_le k [] = omega arith
length-remove_le k ((j, c) ∷ m) = ground (arith, length-remove_le k m)

pub length-remove :
    (k : Pair) (m : Counts) (c : ℤ) → lookup k m ≡ some c → length (remove k m) < length m
unfolding remove lookup
length-remove k [] c e = absurd (ground arith)
length-remove k ((j, d) ∷ m) c e = elim (Bool-cases (pair_beq j k)) [
  | inl e' ↦ rw (remove, e') (omega (arith, length-remove_le k m))
  | inr e' ↦ rw (remove, e') (omega (arith, length-remove k m c (rw (lookup, e') at e)))
]

abbrev Item : Type 0
Item = Pair × ℤ

pub some-value : (i j : Pair) (c d : ℤ) → ◌≡◌ {A = Option Item} (some (i, c)) (some (j, d)) → c ≡ d
some-value i j c d e = cc

some-key : (i j : Pair) (c d : ℤ) → ◌≡◌ {A = Option Item} (some (i, c)) (some (j, d)) → i ≡ j
some-key i j c d e = cc

candidate-lookup :
    (m : Counts) (k j : Pair) (c : ℤ) (o : Option ℤ) (r : Option (Pair × ℤ))
    → lookup j m ≡ o
    → ((i : Pair) (d : ℤ) → r ≡ some (i, d) → lookup i m ≡ some d)
    → candidate j o r ≡ some (k, c)
    → lookup k m ≡ some c
unfolding candidate better
candidate-lookup m k j c none r e h e' = h k c e'
candidate-lookup m k j c (some d) none e h e' =
    let key : j ≡ k = cc in let value : d ≡ c = cc in rw (← key, ← value) e
candidate-lookup m k j c (some d) (some (i, d')) e h e' = elim (Bool-cases (ltb_ℤ d d')) [
  | inl t ↦ h k c (rw (t) at e')
  | inr t ↦
      let key = some-key j k d c (rw (t) at e') in
      let value = some-value j k d c (rw (t) at e') in rw (← key, ← value) e
]

pub best-lookup : (m es : Counts) (k : Pair) (c : ℤ) → best m es ≡ some (k, c) → lookup k m ≡ some c
unfolding best
best-lookup m [] k c e = absurd (ground arith)
best-lookup m ((j, d) ∷ es) k c e =
    candidate-lookup m k j c (lookup j m) (best m es) refl (best-lookup m es) e

candidate-max :
    (j : Pair) (d c : ℤ) (k : Pair) (r : Option (Pair × ℤ))
    → candidate j (some d) r ≡ some (k, c)
    → (d ≤ℤ c) × ((i : Pair) (e : ℤ) → r ≡ some (i, e) → e ≤ℤ c)
unfolding candidate better
candidate-max j d c k none e =
    let same : d ≡ c = cc in (rw same (omega arith), λ i e' w. absurd (ground arith))
candidate-max j d c k (some (i, d')) e = elim (Bool-cases (ltb_ℤ d d')) [
  | inl t ↦
      let same : d' ≡ c = some-value i k d' c (rw (t) at e) in
      (
        rw (← same) (ground arith),
        λ i' e' w.
            let value : d' ≡ e' = some-value i i' d' e' w in rw (← value, ← same) (omega arith),
      )
  | inr t ↦
      let same : d ≡ c = some-value j k d c (rw (t) at e) in
      (
        rw same (omega arith),
        λ i' e' w.
            let value : d' ≡ e' = some-value i i' d' e' w in rw (← value, ← same) (ground arith),
      )
]

candidate-none :
    (j : Pair) (d : ℤ) (r : Option (Pair × ℤ)) → (x : Pair × ℤ) × (candidate j (some d) r ≡ some x)
unfolding candidate better
candidate-none j d none = ((j, d), refl)
candidate-none j d (some (i, d')) = elim (Bool-cases (ltb_ℤ d d')) [
  | inl t ↦ ((i, d'), rw t refl)
  | inr t ↦ ((j, d), rw t refl)
]

-- A key of the list whose entry the map has is no better than the best.
pub best-max :
    (m es : Counts) (p : Pair) (d d' : ℤ)
    → lookup p m ≡ some d
    → lookup p es ≡ some d'
    → (k : Pair) × (c : ℤ) × (best m es ≡ some (k, c)) × (d ≤ℤ c)
unfolding best lookup
best-max m [] p d d' e e' = absurd (ground arith)
best-max m ((j, c) ∷ es) p d d' e e' = elim (Bool-cases (pair_beq j p)) [
  | inl t ↦
      let here : lookup j m ≡ some d = rw ((pair_beq_iff j p).0 t) e in
      let ((k, c'), run) = candidate-none j d (best m es) in
      (k, c', rw (best, here) run, (candidate-max j d c' k (best m es) run).0)
  | inr t ↦
      let (k, c', run, le) = best-max m es p d d' e (rw (lookup, t) at e') in
      elim (Option-cases (lookup j m)) [
        | inl none_here ↦ (k, c', rw (best, none_here) (unfold candidate in run), le)
        | inr (v, here) ↦
            let ((i, c2), run2) = candidate-none j v (best m es) in
            let above : c' ≤ℤ c2 = (candidate-max j v c2 i (best m es) run2).1 k c' run in
            (i, c2, rw (best, here) run2, omega (arith, above, le))
      ]
]

pub pop_best-some :
    (m : Counts) (r : Option Item) (k : Pair) (c : ℤ) (q : Counts)
    → pop_best m r ≡ some (k, c, q)
    → (r ≡ some (k, c)) × (q ≡ remove k m)
unfolding pop_best
pop_best-some m none k c q e = absurd (ground arith)
pop_best-some m (some (j, d)) k c q e =
    let e' : ◌≡◌ {A = Option (Pair × ℤ × Counts)} (some (j, d, remove j m)) (some (k, c, q)) = e in
    let key : j ≡ k = cc in
    let value : d ≡ c = cc in
    let rest : remove j m ≡ q = cc in (rw (key, value) refl, rw (← key) (sym rest))

pub length-pop :
    (m : Counts)
    → 0 < length m
    → (k : Pair) × (c : ℤ) × (q : Counts) × (pop_best m (best m m) ≡ some (k, c, q))
unfolding lookup pop_best
length-pop [] h = absurd (omega arith)
length-pop ((j, d) ∷ m) h =
    let all : Counts = (j, d) ∷ m in
    let found : lookup j all ≡ some d = rw ((pair_beq_iff j j).1 refl, lookup) refl in
    let (k, c, run, le) = best-max all all j d d found found in (k, c, remove k all, rw run refl)

unfoldable pub list_queue_laws : IsPriorityQueue list_queue
unfolding change pop_best lookup
list_queue_laws = record {
  priority = λ m p. lookup p m;
  of_empty = λ p. refl;
  of_push = λ k c q p. lookup-insert k p c q;
  of_pop = λ q k c q' e.
      let (run, rest) = pop_best-some q (best q q) k c q' e in
      let found = best-lookup q q k c run in
      (found, λ p. rw rest (lookup-remove k p q), rw rest (length-remove k q c found));
  of_max = λ q k c q' p d e h.
      let (run, rest) = pop_best-some q (best q q) k c q' e in
      let (k', c', run', le) = best-max q q p d d h h in
      let same : c' ≡ c = some-value k' k c' c (sym run' ∙ run) in rw (← same) le;
  of_len = length-pop;
  of_peek = λ q k c e. (remove k q, rw e refl);
  of_change = λ k d q c e. (rw e refl, λ p. rw e (lookup-insert k p (c +ℤ d) q));
  of_missing = λ k d q e. (rw e refl, λ p. rw e refl);
}
