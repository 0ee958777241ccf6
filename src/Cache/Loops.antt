-- ===== src/Cache/Loops.antt =====
-- The loops of src/bpe/pretoken_cache.rs: where each of them stops.
use supergigatoken.Base.{
  ℕ, zero, suc, ◌+◌, ◌%◌, ◌<◌, ◌≡◌, ◌≢◌, refl, sym, ap, ◌∙◌, inl, inr, true, false, Option, none,
  some, List, ◌==◌, length, arith, Bool-cases, ◌⊎◌,
}
use native.Mathlib.Decide.{ℕ_discrete}
use supergigatoken.Cache.{
  Entry, empty_key, entry_at, next_pair, Lookup, found, vacant, get_loop, empty_loop,
}
use supergigatoken.Cache.Walk.{
  IsSized, Trail, here, on, pair_of, key_at, distance, capacity-even, next_pair-pair,
  next_pair-distance,
}

-- A slot belongs to the pair of its own or of the slot before it.
pair-cases : (s idx : ℕ) → idx % 2 ≡ 0 → pair_of s ≡ idx → (s ≡ idx) ⊎ (s ≡ idx + 1)
pair-cases s idx even e = elim (ℕ_discrete s idx) [ yes h ↦ inl h | no h ↦ inr (omega arith) ]

pub beq_false : (a b : ℕ) → a ≢ b → (a == b) ≡ false
beq_false a b h = ground arith

pub beq_true : (a b : ℕ) → (a == b) ≡ true → a ≡ b
beq_true a b h = ground arith

pub beq_ne : (a b : ℕ) → (a == b) ≡ false → a ≢ b
beq_ne a b h = ground arith

-- A key that the pair at `idx` does not hold is in another pair.
pub not_here :
    (slots : List Entry) (idx s key : ℕ)
    → idx % 2 ≡ 0
    → key_at slots idx ≢ key
    → key_at slots (idx + 1) ≢ key
    → key_at slots s ≡ key
    → idx ≢ pair_of s
not_here slots idx s key even h0 h1 e at = elim (pair-cases s idx even (sym at)) [
  | inl same ↦ h0 (ap (key_at slots) (sym same) ∙ e)
  | inr same ↦ h1 (ap (key_at slots) (sym same) ∙ e)
]

-- A miss at the slot that was found.
abbrev pub miss : Option ℕ → Option Lookup
miss none = none
miss (some i) = some (vacant i)

module _ (slots : List Entry) (mask : ℕ) (sized : IsSized slots mask) where
  -- With an empty slot in the table the walk for one stops at an empty slot, over full pairs.
  pub empty_loop-Trail :
      (fuel idx s : ℕ)
      → idx < length slots
      → idx % 2 ≡ 0
      → s < length slots
      → key_at slots s ≡ empty_key
      → distance (length slots) idx (pair_of s) < fuel
      → (i : ℕ) × (empty_loop slots mask fuel idx ≡ some i)
        × (i < length slots)
        × (key_at slots i ≡ empty_key)
        × Trail slots mask idx (pair_of i)
  unfolding empty_loop
  empty_loop-Trail zero idx s inside even inside_s free near = absurd (omega arith)
  empty_loop-Trail (suc fuel) idx s inside even inside_s free near =
      elim (Bool-cases (key_at slots idx == empty_key)) [
        | inl e ↦ (idx, rw (e, empty_loop), inside, beq_true _ _ e, here (omega arith))
        | inr e0 ↦ elim (Bool-cases (key_at slots (idx + 1) == empty_key)) [
          | inl e ↦ (
            idx + 1,
            rw (e0, e, empty_loop),
            omega (arith, capacity-even slots mask sized),
            beq_true _ _ e,
            here (omega arith),
          )
          | inr e1 ↦
              let other : idx ≢ pair_of s =
                not_here slots idx s empty_key even (beq_ne _ _ e0) (beq_ne _ _ e1) free in
              let (inside', even') = next_pair-pair slots mask sized idx inside even in
              let closer =
                next_pair-distance slots mask sized idx (pair_of s) inside even (omega arith)
                  (omega arith) other in
              let (i, run, inside_i, free_i, trail) =
                empty_loop-Trail fuel (next_pair mask idx) s inside' even' inside_s free
                  (omega arith) in
              (
                i,
                rw (e0, e1, run, empty_loop),
                inside_i,
                free_i,
                on (beq_ne _ _ e0) (beq_ne _ _ e1) trail,
              )
        ]
      ]

  pub Trail-next :
      (idx t : ℕ)
      → Trail slots mask idx t
      → idx ≢ t
      → (key_at slots idx ≢ empty_key)
        × (key_at slots (idx + 1) ≢ empty_key)
        × Trail slots mask (next_pair mask idx) t
  Trail-next idx t (here e) other = absurd (other e)
  Trail-next idx t (on full0 full1 rest) other = (full0, full1, rest)

  -- Where the key is absent, `get_or_slot` misses at the slot that `first_empty` finds.
  pub get_loop-absent :
      (key fuel idx : ℕ)
      → ((j : ℕ) → key_at slots j ≢ key)
      → get_loop slots mask key fuel idx ≡ miss (empty_loop slots mask fuel idx)
  unfolding get_loop empty_loop
  get_loop-absent key zero idx absent = refl
  get_loop-absent key (suc fuel) idx absent =
      let n0 : (key_at slots idx == key) ≡ false = beq_false _ _ (absent idx) in
      let n1 : (key_at slots (idx + 1) == key) ≡ false = beq_false _ _ (absent (idx + 1)) in
      elim (Bool-cases (key_at slots idx == empty_key)) [
        | inl e ↦ rw (n0, n1, e, get_loop, empty_loop)
        | inr e0 ↦ elim (Bool-cases (key_at slots (idx + 1) == empty_key)) [
          | inl e ↦ rw (n0, n1, e0, e, get_loop, empty_loop)
          | inr e1 ↦
              rw (n0, n1, e0, e1, get_loop, empty_loop)
                (get_loop-absent key fuel (next_pair mask idx) absent)
        ]
      ]

  -- A key with one slot on the trail from `idx` is found there.
  pub get_loop-present :
      (key s fuel idx : ℕ)
      → idx < length slots
      → idx % 2 ≡ 0
      → s < length slots
      → key ≢ empty_key
      → key_at slots s ≡ key
      → ((j : ℕ) → key_at slots j ≡ key → j ≡ s)
      → Trail slots mask idx (pair_of s)
      → distance (length slots) idx (pair_of s) < fuel
      → get_loop slots mask key fuel idx
        ≡ some (found (entry_at slots s).val (entry_at slots s).ext)
  unfolding get_loop
  get_loop-present key s zero idx inside even inside_s real e only trail near = absurd (omega arith)
  get_loop-present key s (suc fuel) idx inside even inside_s real e only trail near =
      elim (Bool-cases (key_at slots idx == key)) [
        | inl h ↦ let same : idx ≡ s = only idx (beq_true _ _ h) in rw (h, get_loop, same)
        | inr h0 ↦ elim (Bool-cases (key_at slots (idx + 1) == key)) [
          | inl h ↦
              let same : idx + 1 ≡ s = only (idx + 1) (beq_true _ _ h) in rw (h0, h, get_loop, same)
          | inr h1 ↦
              let other = not_here slots idx s key even (beq_ne _ _ h0) (beq_ne _ _ h1) e in
              let (full0, full1, rest) = Trail-next idx (pair_of s) trail other in
              let (inside', even') = next_pair-pair slots mask sized idx inside even in
              let closer =
                next_pair-distance slots mask sized idx (pair_of s) inside even (omega arith)
                  (omega arith) other in
              let e0 : (key_at slots idx == empty_key) ≡ false = beq_false _ _ full0 in
              let e1 : (key_at slots (idx + 1) == empty_key) ≡ false = beq_false _ _ full1 in
              rw (h0, h1, e0, e1, get_loop)
                (get_loop-present key s fuel (next_pair mask idx) inside' even' inside_s real e only
                  rest (omega arith))
        ]
      ]
