-- ===== src/Cache/Probe.antt =====
-- The branchless probe of the home pair in src/bpe/pretoken_cache.rs.
use Prim.Native.Nat.{bit_and}
use supergigatoken.Base.{
  ℕ, zero, suc, ◌+◌, ◌-◌, ◌/◌, ◌%◌, ◌<◌, min, ◌≡◌, ap, ◌∙◌, inl, inr, true, some, List, ◌==◌, ◌||◌,
  if◌then◌else◌, length, arith, Bool-cases,
}
use supergigatoken.Cache.{
  Entry, entry_at, home, ShortPretokenCache, found, get_or_slot, get_loop, probe_view, probe_pair,
}
use supergigatoken.Cache.Masks.{bit_and-digit}
use supergigatoken.Cache.Walk.{key_at}
use supergigatoken.Cache.Map.{IsCache, IsTable-room}

pair_mask-home : (h mask : ℕ) → bit_and h (mask - mask % 2) ≡ home mask h
unfolding home
pair_mask-home h mask =
    let half : (mask - mask % 2) / 2 ≡ mask / 2 = omega arith in
    let even : min (h % 2) ((mask - mask % 2) % 2) ≡ 0 = omega arith in
    omega (
      arith,
      bit_and-digit h mask,
      bit_and-digit h (mask - mask % 2),
      even,
      ap (bit_and (h / 2)) half,
    )

module _ (slots : List Entry) (mask key idx : ℕ) where
  first_round :
      (fuel : ℕ)
      → 0 < fuel
      → ((key_at slots idx == key) || (key_at slots (idx + 1) == key)) ≡ true
      → get_loop slots mask key fuel idx
        ≡ some (
            found
              (if key_at slots idx == key
                then (entry_at slots idx).val
                else (entry_at slots (idx + 1)).val)
              (if key_at slots idx == key
                then (entry_at slots idx).ext
                else (entry_at slots (idx + 1)).ext))
  unfolding get_loop
  first_round zero pos m = absurd (omega arith)
  first_round (suc fuel) pos m = elim (Bool-cases (key_at slots idx == key)) [
    | inl h0 ↦ rw (h0, get_loop)
    | inr h0 ↦ elim (Bool-cases (key_at slots (idx + 1) == key)) [
      | inl h1 ↦ rw (h0, h1, get_loop)
      | inr h1 ↦ absurd (ground arith)
    ]
  ]

-- In every cache, where the probe of the home pair reports the key, a lookup of the key finds the
-- value that the probe selects.
pub probe_pair-get_or_slot :
    (hash : ℕ → ℕ) (c : ShortPretokenCache) (key val ext : ℕ)
    → IsCache hash c
    → probe_pair (probe_view c) key (hash key) ≡ (val, ext, true)
    → get_or_slot c key (hash key) ≡ some (found val ext)
unfolding probe_pair probe_view get_or_slot
probe_pair-get_or_slot hash c key val ext ok e =
    let e' = rw (pair_mask-home (hash key) c.mask) at e in
    let room = IsTable-room c ok in
    first_round c.slots c.mask key (home c.mask (hash key)) (length c.slots) (omega arith)
      (ap (λ r. r.2) e')
    ∙ ap (λ r. some (found r.0 r.1)) e'
