-- ===== src/Train/Learn/Queue.antt =====
-- The priority queue of the library priority_queue, as far as src/bpe_train.rs uses it.
use supergigatoken.Base.{
  ℕ, ◌<◌, ◌≡◌, Bool, true, false, Option, none, some, Pair, pair_beq, if◌then◌else◌,
}
use supergigatoken.Base.Int.{ℤ, ◌+ℤ◌, ◌≤ℤ◌}

-- `change_priority_by` is given the change of `|p| *p += change`.
pub record PriorityQueue : Type 1 where
  pub Queue : Type 0
  pub empty : Queue
  pub push : Pair → ℤ → Queue → Queue
  pub pop : Queue → Option (Pair × ℤ × Queue)
  pub peek : Queue → Option (Pair × ℤ)
  pub change_priority_by : Pair → ℤ → Queue → Bool × Queue
  pub len : Queue → ℕ

-- What is documented of the queue: a map from pairs to priorities, from which `pop` takes an item of
-- the greatest priority, the one that `peek` shows.
pub record IsPriorityQueue (pq : PriorityQueue) : Type 0 where
  pub priority : pq.Queue → Pair → Option ℤ
  pub of_empty : (p : Pair) → priority pq.empty p ≡ none
  pub of_push :
      (k : Pair) (c : ℤ) (q : pq.Queue) (p : Pair)
      → priority (pq.push k c q) p ≡ (if pair_beq k p then some c else priority q p)
  pub of_pop :
      (q : pq.Queue) (k : Pair) (c : ℤ) (q' : pq.Queue)
      → pq.pop q ≡ some (k, c, q')
      → (priority q k ≡ some c)
        × ((p : Pair) → priority q' p ≡ (if pair_beq k p then none else priority q p))
        × (pq.len q' < pq.len q)
  pub of_max :
      (q : pq.Queue) (k : Pair) (c : ℤ) (q' : pq.Queue) (p : Pair) (d : ℤ)
      → pq.pop q ≡ some (k, c, q')
      → priority q p ≡ some d
      → d ≤ℤ c
  pub of_len :
      (q : pq.Queue)
      → 0 < pq.len q
      → (k : Pair) × (c : ℤ) × (q' : pq.Queue) × (pq.pop q ≡ some (k, c, q'))
  pub of_peek :
      (q : pq.Queue) (k : Pair) (c : ℤ)
      → pq.peek q ≡ some (k, c)
      → (q' : pq.Queue) × (pq.pop q ≡ some (k, c, q'))
  pub of_change :
      (k : Pair) (d : ℤ) (q : pq.Queue) (c : ℤ)
      → priority q k ≡ some c
      → ((pq.change_priority_by k d q).0 ≡ true)
        × ((p : Pair)
            → priority (pq.change_priority_by k d q).1 p
              ≡ (if pair_beq k p then some (c +ℤ d) else priority q p))
  pub of_missing :
      (k : Pair) (d : ℤ) (q : pq.Queue)
      → priority q k ≡ none
      → ((pq.change_priority_by k d q).0 ≡ false)
        × ((p : Pair) → priority (pq.change_priority_by k d q).1 p ≡ priority q p)
