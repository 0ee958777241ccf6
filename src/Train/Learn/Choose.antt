-- ===== src/Train/Learn/Choose.antt =====
-- The choice of the next pair in run_merges of src/bpe_train.rs, over every priority queue.
use supergigatoken.Base.{
  ℕ, zero, suc, ◌<◌, ◌≡◌, refl, sym, ◌∙◌, inl, inr, ◌⊎◌, Bool, true, false, ◌||◌, ◌&&◌, not, Option,
  none, some, List, [], ◌∷◌, Pair, All, Bytes, Bool-cases, Option-cases, length, get_elem?,
  if◌then◌else◌, pair_beq, pair_beq_iff, arith,
}
use supergigatoken.Base.Int.{ℤ, ◌≤ℤ◌, eq_of_parts}
use supergigatoken.Train.Learn.{
  TieBreaking, hugging_face, raw_token_ids, assembled_bytes, assemble_token,
}
use supergigatoken.Train.Learn.Queue.{PriorityQueue, IsPriorityQueue}
use supergigatoken.Train.Learn.Changes.{Below}
use supergigatoken.Train.Learn.Loop.{
  is_smaller, assemble_pair, strings_less, smallest_of, int_beq, pop_tied, push_back, choose_pair,
}

abbrev pub has_pair : Pair → List Pair → Bool
has_pair p [] = false
has_pair p (x ∷ xs) = pair_beq x p || has_pair p xs

pub get_elem?-some :
    {A : Type 0} (xs : List A) (i : ℕ) → i < length xs → (a : A) × (get_elem? xs i ≡ some a)
get_elem?-some [] i h = absurd (omega arith)
get_elem?-some (x ∷ xs) zero h = (x, refl)
get_elem?-some (x ∷ xs) (suc i) h = get_elem?-some xs i (omega arith)

module _ (tie : TieBreaking) (symbols : List Bytes) where
  assemble_pair-some :
      (p : Pair)
      → Below (length symbols) p
      → (s : List ℕ) × (t : List ℕ) × (assemble_pair symbols p ≡ some (s, t))
  unfolding assemble_pair assemble_token
  assemble_pair-some p (h, h') =
      let (s, e) = get_elem?-some symbols p.0 h in
      let (t, e') = get_elem?-some symbols p.1 h' in (s, t, rw (assemble_pair, e, e') refl)

smaller-IsAnswered :
    (tie : TieBreaking) (symbols : List Bytes) (a b : Pair)
    → Below (length symbols) a
    → Below (length symbols) b
    → (less : Bool) × (is_smaller tie symbols a b ≡ some less)
unfolding is_smaller strings_less
smaller-IsAnswered hugging_face symbols a b h h' = (_, refl)
smaller-IsAnswered raw_token_ids symbols a b h h' = (_, refl)
smaller-IsAnswered assembled_bytes symbols a b h h' =
    let (s, t, e) = assemble_pair-some assembled_bytes symbols a h in
    let (s', t', e') = assemble_pair-some assembled_bytes symbols b h' in
    let both : is_smaller assembled_bytes symbols a b ≡ strings_less (some (s, t)) (some (s', t')) =
      rw (is_smaller, e, e') refl in
    (_, both)

smallest_of-some :
    (tie : TieBreaking) (symbols : List Bytes) (ps : List Pair) (smallest : Pair)
    → All (Below (length symbols)) ps
    → Below (length symbols) smallest
    → (p : Pair) × (smallest_of tie symbols ps smallest ≡ some p)
      × ((p ≡ smallest) ⊎ (has_pair p ps ≡ true))
unfolding smallest_of
smallest_of-some tie symbols [] smallest h b = (smallest, refl, inl refl)
smallest_of-some tie symbols (p ∷ ps) smallest h b =
    let (less, answer) = smaller-IsAnswered tie symbols p smallest h.0 b in
    elim (Bool-cases less) [
      | inl e ↦
          let (q, run, which) = smallest_of-some tie symbols ps p h.1 h.0 in
          (
            q,
            rw (smallest_of, answer, e) run,
            inr (elim which [
              | inl same ↦ rw (same, (pair_beq_iff p p).1 refl) refl
              | inr member ↦ ground (arith, member)
            ]),
          )
      | inr e ↦
          let (q, run, which) = smallest_of-some tie symbols ps smallest h.1 b in
          (
            q,
            rw (smallest_of, answer, e) run,
            elim which [ inl same ↦ inl same | inr member ↦ inr (ground (arith, member)) ],
          )
    ]

if-same : {A : Type 0} {x : A} (b : Bool) → (if b then x else x) ≡ x
if-same true = refl
if-same false = refl

int_beq-eq : (a b : ℤ) → int_beq a b ≡ true → a ≡ b
int_beq-eq a b e = eq_of_parts a b (ground arith)

pair_beq_comm : (a b : Pair) → pair_beq a b ≡ pair_beq b a
pair_beq_comm (a, b) (c, d) = ground arith

tied_none :
    (first tied : Bool) (c : ℤ) (x : Option ℤ)
    → (first || tied) ≡ true
    → (if (first || tied) && false
        then some c
        else if tied
        then none
        else if first
        then none
        else x)
      ≡ none
tied_none first tied c x e = ground arith

put_back_one :
    (first : Bool) (c : ℤ) (x : Option ℤ)
    → x ≡ some c
    → (if (first || true) && true then some c else none) ≡ x
put_back_one first c x e = ground (arith, e)

-- The tied pairs are taken out, and put back but for the chosen one.
put_back :
    (c : ℤ) (first tied chosen chosen' : Bool) (x : Option ℤ)
    → chosen' ≡ chosen
    → (chosen ≡ true → (first || tied) ≡ true)
    → ((first || tied) ≡ true → x ≡ some c)
    → (if (first || tied) && not chosen'
        then some c
        else if tied
        then none
        else if first
        then none
        else x)
      ≡ (if chosen then none else x)
put_back c first tied true chosen' x e m h = rw e (tied_none first tied c x (m refl))
put_back c first true false chosen' x e m h = rw e (put_back_one first c x (h (ground arith)))
put_back c true false false chosen' x e m h = rw e (sym (h refl))
put_back c false false false chosen' x e m h = refl

has_pair-All :
    (P : Pair → Type 0) (ps : List Pair) → ((p : Pair) → has_pair p ps ≡ true → P p) → All P ps
has_pair-All P [] h = tt
has_pair-All P (x ∷ ps) h =
    (h x (rw ((pair_beq_iff x x).1 refl) refl), has_pair-All P ps (λ p m. h p (ground (arith, m))))

module _ (pq : PriorityQueue) (laws : IsPriorityQueue pq) where
  record IsTied (c : ℤ) (q : pq.Queue) (r : Option (List Pair × pq.Queue)) : Type 0 where
    tied : List Pair
    rest : pq.Queue
    returned : r ≡ some (tied, rest)
    same_count : (p : Pair) → has_pair p tied ≡ true → laws.priority q p ≡ some c
    without :
        (p : Pair) → laws.priority rest p ≡ (if has_pair p tied then none else laws.priority q p)

  pop_tied-IsTied :
      (fuel : ℕ) (c : ℤ) (q : pq.Queue) → pq.len q < fuel → IsTied c q (pop_tied pq fuel c q)
  unfolding pop_tied
  pop_tied-IsTied zero c q enough = absurd (omega arith)
  pop_tied-IsTied (suc fuel) c q enough = elim (Option-cases (pq.peek q)) [
    | inl e ↦ record {
      tied = [];
      rest = q;
      returned = rw (pop_tied, e) refl;
      same_count = λ p h. absurd (ground arith);
      without = λ p. refl;
    }
    | inr ((k, d), e) ↦ elim (Bool-cases (int_beq d c)) [
      | inr ne ↦ record {
        tied = [];
        rest = q;
        returned = rw (pop_tied, e, ne) refl;
        same_count = λ p h. absurd (ground arith);
        without = λ p. refl;
      }
      | inl eq ↦
          let (q', popped) = laws.of_peek q k d e in
          let (top, after, less) = laws.of_pop q k d q' popped in
          let r = pop_tied-IsTied fuel c q' (omega (arith, less)) in
          let same : d ≡ c = int_beq-eq d c eq in
          record {
            tied = k ∷ r.tied;
            rest = r.rest;
            returned = rw (pop_tied, e, eq, popped, r.returned) refl;
            same_count = λ p h. elim (Bool-cases (pair_beq k p)) [
              | inl e' ↦ rw (← (pair_beq_iff k p).0 e', top, same) refl
              | inr e' ↦
                  let before : laws.priority q p ≡ laws.priority q' p = rw (after p, e') refl in
                  before ∙ r.same_count p (rw (e') at h)
            ];
            without = λ p. elim (Bool-cases (pair_beq k p)) [
              | inl e' ↦ rw (r.without p, after p, e') (if-same (has_pair p r.tied))
              | inr e' ↦ rw (r.without p, after p, e') refl
            ];
          }
    ]
  ]

  push_back-drop :
      (c : ℤ) (b b' : Bool) (x : Option ℤ)
      → (if b && false then some c else x) ≡ (if (b' || b) && false then some c else x)
  push_back-drop c b b' x = ground arith

  push_back-priority :
      (c : ℤ) (s : Pair) (ps : List Pair) (q : pq.Queue) (p : Pair)
      → laws.priority (push_back pq c s ps q) p
        ≡ (if has_pair p ps && not (pair_beq p s) then some c else laws.priority q p)
  unfolding push_back
  push_back-priority c s [] q p = refl
  push_back-priority c s (x ∷ ps) q p = elim (Bool-cases (pair_beq x s)) [
    | inl e ↦
        rw (push_back, e, push_back-priority c s ps q p)
          (elim (Bool-cases (pair_beq x p)) [
            | inl e' ↦
                let same : pair_beq p s ≡ true = rw ((pair_beq_iff x p).0 e') at e in
                rw (same) (push_back-drop c (has_pair p ps) (pair_beq x p) (laws.priority q p))
            | inr e' ↦ rw e' refl
          ])
    | inr e ↦
        rw (push_back, e, push_back-priority c s ps (pq.push x c q) p, laws.of_push x c q p)
          (elim (Bool-cases (pair_beq x p)) [
            | inl e' ↦
                let other : pair_beq p s ≡ false = rw ((pair_beq_iff x p).0 e') at e in
                rw (e', other) (if-same (has_pair p ps && true))
            | inr e' ↦ rw e' refl
          ])
  ]

  -- A pair of the greatest count has been taken out.
  pub record IsChosen (q : pq.Queue) (r : Option (Pair × pq.Queue)) : Type 0 where
    pub pair : Pair
    pub count : ℤ
    pub rest : pq.Queue
    pub returned : r ≡ some (pair, rest)
    pub counted : laws.priority q pair ≡ some count
    pub greatest : (p : Pair) (d : ℤ) → laws.priority q p ≡ some d → d ≤ℤ count
    pub without :
        (p : Pair) → laws.priority rest p ≡ (if pair_beq pair p then none else laws.priority q p)

  pub choose_pair-IsChosen :
      (tie : TieBreaking) (symbols : List Bytes) (q : pq.Queue)
      → 0 < pq.len q
      → ((p : Pair) (d : ℤ) → laws.priority q p ≡ some d → Below (length symbols) p)
      → IsChosen q (choose_pair pq tie symbols q)
  unfolding choose_pair
  choose_pair-IsChosen tie symbols q filled below =
      let (k, c, q', popped) = laws.of_len q filled in
      let (top, after, less) = laws.of_pop q k c q' popped in
      let t = pop_tied-IsTied (suc (pq.len q')) c q' (omega arith) in
      let counted : (p : Pair) → has_pair p (k ∷ t.tied) ≡ true → laws.priority q p ≡ some c =
        λ p h. elim (Bool-cases (pair_beq k p)) [
          | inl e ↦ rw (← (pair_beq_iff k p).0 e) top
          | inr e ↦
              let before : laws.priority q p ≡ laws.priority q' p = rw (after p, e) refl in
              before ∙ t.same_count p (rw (e) at h)
        ] in
      let (s, run, which) =
        smallest_of-some tie symbols (k ∷ t.tied) k
          (has_pair-All (Below (length symbols)) (k ∷ t.tied) (λ p h. below p c (counted p h)))
          (below k c top) in
      let member : has_pair s (k ∷ t.tied) ≡ true = elim which [
        | inl same ↦ rw (same, (pair_beq_iff k k).1 refl) refl
        | inr h ↦ h
      ] in
      record {
        pair = s;
        count = c;
        rest = push_back pq c s (k ∷ t.tied) t.rest;
        returned = rw (choose_pair, popped, t.returned, run) refl;
        counted = counted s member;
        greatest = λ p d h. laws.of_max q k c q' p d popped h;
        without = λ p.
            push_back-priority c s (k ∷ t.tied) t.rest p
            ∙ (rw (t.without p, after p)
                (put_back c (pair_beq k p) (has_pair p t.tied) (pair_beq s p) (pair_beq p s)
                  (laws.priority q p) (pair_beq_comm p s)
                  (λ e. rw (← (pair_beq_iff s p).0 e) member) (counted p)));
      }
