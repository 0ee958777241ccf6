-- ===== src/Cache/Walk.antt =====
-- The walk over the pairs of slots in src/bpe/pretoken_cache.rs: it comes to every pair, and its
-- loops stop where the key or the first empty slot is.
use Prim.Native.Nat.{bit_and}
use supergigatoken.Base.{
  ℕ, suc, ◌+◌, ◌-◌, ◌%◌, ◌≤◌, ◌<◌, ◌≡◌, ◌≢◌, ◌∙◌, inl, inr, List, leb, ltb, if◌then◌else◌, length,
  arith, Bool-cases, ltb→lt, ltb→le, ◌⊎◌,
}
use supergigatoken.Cache.Masks.{pow2, bit_and-below, bit_and_self, bit_and-lt}
use supergigatoken.Cache.{Entry, empty_key, entry_at, home, next_pair}

-- The first slot of the pair of slot `i`.
abbrev pub pair_of : ℕ → ℕ
pair_of i = i - i % 2

abbrev pub key_at : List Entry → ℕ → ℕ
key_at slots i = (entry_at slots i).key

-- From the pair at `idx` the walk comes to the pair at `t` over full pairs.
pub data Trail (slots : List Entry) (mask : ℕ) : ℕ → ℕ → Type 0 where
  here : {idx t : ℕ} → idx ≡ t → Trail slots mask idx t
  on :
      {idx t : ℕ}
      → key_at slots idx ≢ empty_key
      → key_at slots (idx + 1) ≢ empty_key
      → Trail slots mask (next_pair mask idx) t
      → Trail slots mask idx t

-- A table of a power of two of slots, two at least, and the mask that belongs to it.
pub record IsSized (slots : List Entry) (mask : ℕ) : Type 0 where
  pub bits : ℕ
  pub cap_lem : length slots ≡ pow2 (suc bits)
  pub mask_lem : mask ≡ pow2 (suc bits) - 1

-- How far the walk has to go from pair to pair.
abbrev pub distance : ℕ → ℕ → ℕ → ℕ
distance cap idx t = if leb idx t then t - idx else cap + t - idx

distance-le : (cap idx t : ℕ) → idx ≤ t → distance cap idx t ≡ t - idx
distance-le cap idx t h = ground arith

distance-gt : (cap idx t : ℕ) → t < idx → distance cap idx t ≡ cap + t - idx
distance-gt cap idx t h = ground arith

pub distance-lt : (cap idx t : ℕ) → idx < cap → t < cap → distance cap idx t < cap
distance-lt cap idx t inside inside_t = elim (Bool-cases (ltb t idx)) [
  | inl b ↦ let low : t < idx = ltb→lt t idx b in omega (arith, distance-gt cap idx t low)
  | inr b ↦ let low : idx ≤ t = ltb→le t idx b in omega (arith, distance-le cap idx t low)
]

-- A step of two from `idx`, at the end back to the beginning.
distance-step :
    (cap idx next t : ℕ)
    → idx < cap
    → t < cap
    → idx % 2 ≡ 0
    → t % 2 ≡ 0
    → cap % 2 ≡ 0
    → idx ≢ t
    → (next ≡ idx + 2) ⊎ ((next ≡ 0) × (idx + 2 ≡ cap))
    → distance cap next t + 2 ≡ distance cap idx t
distance-step cap idx next t inside inside_t even even_t even_cap other (inl e) =
    elim (Bool-cases (ltb t idx)) [
      | inl b ↦
          let low : t < idx = ltb→lt t idx b in
          let low' : t < next = omega arith in
          omega (arith, distance-gt cap idx t low, distance-gt cap next t low')
      | inr b ↦
          let low : idx ≤ t = ltb→le t idx b in
          let low' : next ≤ t = omega arith in
          omega (arith, distance-le cap idx t low, distance-le cap next t low')
    ]
distance-step cap idx next t inside inside_t even even_t even_cap other (inr (e, wraps)) =
    elim (Bool-cases (ltb t idx)) [
      | inl b ↦
          let low : t < idx = ltb→lt t idx b in
          let low' : next ≤ t = omega arith in
          omega (arith, distance-gt cap idx t low, distance-le cap next t low')
      | inr b ↦ let low : idx ≤ t = ltb→le t idx b in absurd (omega arith)
    ]

module _ (slots : List Entry) (mask : ℕ) (sized : IsSized slots mask) where
  doubled : length slots ≡ pow2 sized.bits + pow2 sized.bits
  unfolding pow2
  doubled = sized.cap_lem

  pub capacity-even : length slots % 2 ≡ 0
  capacity-even = omega (arith, doubled)

  pub home-pair : (h : ℕ) → (home mask h < length slots) × (home mask h % 2 ≡ 0)
  unfolding home
  home-pair h =
      let low : bit_and h mask < length slots =
        rw (sized.mask_lem, sized.cap_lem) (bit_and-lt (suc sized.bits) h) in
      (omega arith, omega arith)

  next_pair-lem :
      (idx : ℕ)
      → idx < length slots
      → idx % 2 ≡ 0
      → next_pair mask idx ≡ (if ltb (idx + 2) (length slots) then idx + 2 else 0)
  unfolding next_pair
  next_pair-lem idx inside even = elim (Bool-cases (ltb (idx + 2) (length slots))) [
    | inl e ↦
        rw (e, sized.mask_lem)
          (bit_and-below (suc sized.bits) (idx + 2) (omega (arith, ltb→lt _ _ e, sized.cap_lem)))
    | inr e ↦
        let wraps : idx + 2 ≡ pow2 (suc sized.bits) =
          omega (arith, ltb→le _ _ e, sized.cap_lem, doubled) in
        rw (e, sized.mask_lem, wraps) (bit_and_self (suc sized.bits))
  ]

  pub next_pair-pair :
      (idx : ℕ)
      → idx < length slots
      → idx % 2 ≡ 0
      → (next_pair mask idx < length slots) × (next_pair mask idx % 2 ≡ 0)
  next_pair-pair idx inside even =
      let next = next_pair-lem idx inside even in
      elim (Bool-cases (ltb (idx + 2) (length slots))) [
        | inl e ↦ rw (next, e) (ltb→lt _ _ e, omega arith)
        | inr e ↦ rw (next, e) (omega arith, omega arith)
      ]

  -- Each step comes closer to every other pair.
  pub next_pair-distance :
      (idx t : ℕ)
      → idx < length slots
      → idx % 2 ≡ 0
      → t < length slots
      → t % 2 ≡ 0
      → idx ≢ t
      → distance (length slots) (next_pair mask idx) t + 2 ≡ distance (length slots) idx t
  next_pair-distance idx t inside even inside_t even_t other =
      let next = next_pair-lem idx inside even in
      distance-step (length slots) idx (next_pair mask idx) t inside inside_t even even_t
        (omega (arith, doubled)) other
        (elim (Bool-cases (ltb (idx + 2) (length slots))) [
          | inl e ↦ inl (next ∙ rw e)
          | inr e ↦ inr (next ∙ rw e, omega (arith, ltb→le _ _ e, doubled))
        ])
