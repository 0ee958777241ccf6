-- ===== src/Cache/Sized.antt =====
-- The capacity that `with_at_least` of src/bpe/pretoken_cache.rs chooses.
use supergigatoken.Base.{
  ℕ, zero, suc, ◌+◌, ◌*◌, ◌^◌, ◌-◌, ◌≤◌, ◌<◌, max, ◌≡◌, refl, ◌∙◌, inl, inr, some, ltb, ltb→lt,
  ltb→le, length, arith, Bool-cases, length-replicate,
}
use supergigatoken.Cache.{
  ShortPretokenCache, empty_entry, usize, with_pow2_capacity, fitting_cap, with_at_least,
}
use supergigatoken.Cache.Masks.{pow2, pow2-pos}
use supergigatoken.Cache.Map.{IsCache}
use supergigatoken.Cache.Lookups.{with_pow2_capacity-IsCache}

fitting_cap-lem :
    (n fuel cap k : ℕ)
    → cap ≡ pow2 (suc k)
    → (n + 1) * 4 - cap * 3 < fuel
    → (n + 1) * 4 ≤ 2 ^ 57
    → cap < 2 ^ 57
    → (cap' k' : ℕ) × (fitting_cap n fuel cap ≡ some cap')
      × (cap' ≡ pow2 (suc k'))
      × ((n + 1) * 4 ≤ cap' * 3)
      × (cap ≤ cap')
      × (cap' < 2 ^ 57)
unfolding fitting_cap
fitting_cap-lem n zero cap k e enough few small_cap = absurd (omega arith)
fitting_cap-lem n (suc fuel) cap k e enough few small_cap =
    let whole : usize ((n + 1) * 4) ≡ (n + 1) * 4 = omega arith in
    let thrice : usize (cap * 3) ≡ cap * 3 = omega arith in
    let twice : usize (cap * 2) ≡ cap * 2 = omega arith in
    elim (Bool-cases (ltb (cap * 3) ((n + 1) * 4))) [
      | inr fits ↦ (
        cap,
        k,
        rw (whole, thrice, fits, fitting_cap),
        e,
        ltb→le _ _ fits,
        omega arith,
        small_cap,
      )
      | inl small ↦
          let tight = ltb→lt _ _ small in
          let pos = pow2-pos (suc k) in
          let double : cap * 2 ≡ pow2 (suc (suc k)) = unfold pow2 in omega arith in
          let (cap', k', run, e', fits, grown, bound) =
            fitting_cap-lem n fuel (cap * 2) (suc k) double (omega arith) few (omega arith) in
          let next : fitting_cap n (suc fuel) cap ≡ fitting_cap n fuel (cap * 2) =
            rw (whole, thrice, twice, small) refl in
          (cap', k', next ∙ run, e', fits, omega arith, bound)
    ]

two_slots : (j cap : ℕ) → cap ≡ pow2 j → 2 ≤ cap → (k : ℕ) × (cap ≡ pow2 (suc k))
unfolding pow2
two_slots zero cap e h = absurd (omega arith)
two_slots (suc k) cap e h = (k, e)

-- What the library documents of `next_power_of_two` where it does not overflow: the least power of two
-- that is at least the argument.
abbrev pub IsNextPowerOfTwo : (ℕ → ℕ) → Type 0
IsNextPowerOfTwo f =
    (m : ℕ) → 0 < m → m ≤ 2 ^ 63 → (k : ℕ) × (f m ≡ pow2 k) × (m ≤ f m) × (f m < m + m)

-- If `n` is less than 2^55 and `min_slots` at most 2^56, the call returns: nothing wraps, and it is an
-- empty cache that takes `n` entries, and one more, below its load, with at least `min_slots` and 65536
-- slots, and with less than 2^62 bytes of slots, 32 each.
pub with_at_least-IsCache :
    (hash next_power_of_two : ℕ → ℕ) (n min_slots : ℕ)
    → IsNextPowerOfTwo next_power_of_two
    → n < 2 ^ 55
    → min_slots ≤ 2 ^ 56
    → (c : ShortPretokenCache) × (with_at_least next_power_of_two n min_slots ≡ some c)
      × IsCache hash c
      × (c.len ≡ 0)
      × ((n + 1) * 4 ≤ length c.slots * 3)
      × (max min_slots 65536 ≤ length c.slots)
      × (length c.slots * 32 < 2 ^ 62)
unfolding with_at_least
with_at_least-IsCache hash next_power_of_two n min_slots law few modest =
    let (j, e, big, least) = law (max min_slots 65536) (omega arith) (omega arith) in
    let start = next_power_of_two (max min_slots 65536) in
    let (k, e') = two_slots j start e (omega arith) in
    let (cap, k', run, size, fits, grown, bound) =
      fitting_cap-lem n (suc ((n + 1) * 4)) start k e' (omega arith) (omega arith) (omega arith) in
    let slots_lem = length-replicate cap empty_entry in
    (
      with_pow2_capacity cap,
      rw (run, with_at_least),
      rw size (with_pow2_capacity-IsCache hash k'),
      unfold with_pow2_capacity in refl,
      unfold with_pow2_capacity in omega (arith, slots_lem),
      unfold with_pow2_capacity in omega (arith, slots_lem),
      unfold with_pow2_capacity in omega (arith, slots_lem),
    )
