-- ===== src/Tests/Cache.antt =====
-- src/bpe/pretoken_cache.rs with a hash under which the keys 3 and 11 share the home pair.
use supergigatoken.Base.{
  zero, suc, ◌+◌, ◌*◌, ◌^◌, ◌≤◌, ◌<◌, length, max, leb, leb→le, Bool-cases, inl, inr, ℕ, ◌≡◌, ◌≢◌,
  refl, ap, Option, none, some, [], ◌∷◌, arith, ◌==◌, if◌then◌else◌,
}
use supergigatoken.Cache.{
  Entry, found, ShortPretokenCache, empty_entry, with_pow2_capacity, get_or_slot, insert_entry,
  insert_at, replace_entry, probe_view, probe_pair, with_at_least,
}
use supergigatoken.Cache.Masks.{pow2}
use supergigatoken.Cache.Map.{IsCache, IsAnswer, get_or_slot-IsAnswer}
use supergigatoken.Cache.Lookups.{
  value, with_pow2_capacity-IsCache, insert_entry-get_or_slot, insert_at-insert_entry,
}
use supergigatoken.Cache.Replace.{IsUpdated, replace_entry-IsUpdated}
use supergigatoken.Cache.Probe.{probe_pair-get_or_slot}
use supergigatoken.Cache.Sized.{IsNextPowerOfTwo, with_at_least-IsCache}

abbrev hash : ℕ → ℕ
hash key = key

abbrev fresh : ShortPretokenCache
fresh = record {
  slots = empty_entry ∷ empty_entry ∷ empty_entry ∷ empty_entry ∷ [];
  mask = 3;
  len = 0;
}

abbrev entry : ℕ → ℕ → ℕ → Entry
entry key val ext = record { key = key; val = val; ext = ext }

abbrev one_entry : ShortPretokenCache
one_entry = record {
  slots = empty_entry ∷ empty_entry ∷ entry 3 30 0 ∷ empty_entry ∷ [];
  mask = 3;
  len = 1;
}

fresh_run : with_pow2_capacity 4 ≡ fresh
unfolding with_pow2_capacity
fresh_run = refl

insert_run : insert_entry hash fresh 3 3 30 0 ≡ some one_entry
unfolding insert_entry
insert_run = refl

-- The second entry takes the other slot of the pair, and the third one the next pair.
walk_run :
    insert_entry hash
      (record one_entry {
        slots = empty_entry ∷ empty_entry ∷ entry 3 30 0 ∷ entry 7 70 0 ∷ [];
        len = 2;
      })
      11
      11
      110
      0
    ≡ some (record {
      slots = entry 11 110 0 ∷ empty_entry ∷ entry 3 30 0 ∷ entry 7 70 0 ∷ [];
      mask = 3;
      len = 3;
    })
unfolding insert_entry
walk_run = refl

-- A fourth entry doubles the table first.
grow_run :
    insert_entry hash
      (record {
        slots = entry 11 110 0 ∷ empty_entry ∷ entry 3 30 0 ∷ entry 7 70 0 ∷ [];
        mask = 3;
        len = 3;
      })
      4
      4
      40
      0
    ≡ some (record {
      slots =
          empty_entry
          ∷ empty_entry
          ∷ entry 11 110 0
          ∷ entry 3 30 0
          ∷ entry 4 40 0
          ∷ empty_entry
          ∷ entry 7 70 0
          ∷ empty_entry
          ∷ [];
      mask = 7;
      len = 4;
    })
unfolding insert_entry
grow_run = refl

replace_run :
    replace_entry hash one_entry 3 3 31 1
    ≡ some
        (record one_entry { slots = empty_entry ∷ empty_entry ∷ entry 3 31 1 ∷ empty_entry ∷ [] })
unfolding replace_entry
replace_run = refl

fresh-IsCache : IsCache hash fresh
unfolding with_pow2_capacity pow2
fresh-IsCache = with_pow2_capacity-IsCache hash 1

or_fresh : Option ShortPretokenCache → ShortPretokenCache
or_fresh none = fresh
or_fresh (some c) = c

one_entry-IsCache : IsCache hash one_entry
unfolding or_fresh insert_entry get_or_slot
one_entry-IsCache =
    let (c', run, ok, after) =
      insert_entry-get_or_slot hash fresh 3 30 0 fresh-IsCache (omega arith) refl in
    rw (ap or_fresh run) ok

get_or_slot-IsAnswer_example : IsAnswer hash one_entry 7 (get_or_slot one_entry 7 7)
get_or_slot-IsAnswer_example = get_or_slot-IsAnswer hash one_entry 7 one_entry-IsCache (omega arith)

insert_entry-get_or_slot_example :
    (c' : ShortPretokenCache) × (insert_entry hash one_entry 7 7 70 0 ≡ some c')
    × IsCache hash c'
    × ((k : ℕ)
        → k ≢ 0
        → value (get_or_slot c' k k)
          ≡ (if k == 7 then some (70, 0) else value (get_or_slot one_entry k k)))
unfolding get_or_slot
insert_entry-get_or_slot_example =
    insert_entry-get_or_slot hash one_entry 7 70 0 one_entry-IsCache (omega arith) refl

insert_at-insert_entry_example :
    insert_at hash one_entry 3 7 7 70 0 ≡ insert_entry hash one_entry 7 7 70 0
unfolding get_or_slot
insert_at-insert_entry_example =
    insert_at-insert_entry hash one_entry 3 7 70 0 one_entry-IsCache (omega arith) refl

replace_entry-IsUpdated_example :
    IsUpdated hash one_entry 3 31 1 (replace_entry hash one_entry 3 3 31 1)
replace_entry-IsUpdated_example =
    replace_entry-IsUpdated hash one_entry 3 31 1 one_entry-IsCache (omega arith)

probe_pair-get_or_slot_example : get_or_slot one_entry 3 3 ≡ some (found 30 0)
unfolding probe_view probe_pair
probe_pair-get_or_slot_example = probe_pair-get_or_slot hash one_entry 3 30 0 one_entry-IsCache refl

-- The least power of two that is at least `m`, from `cap` on.
abbrev round_up : ℕ → ℕ → ℕ → ℕ
round_up m zero cap = cap
round_up m (suc fuel) cap = if leb m cap then cap else round_up m fuel (cap + cap)

round_up-lem :
    (m fuel k cap : ℕ)
    → cap ≡ pow2 k
    → cap < m + m
    → m ≤ cap * pow2 fuel
    → (j : ℕ) × (round_up m fuel cap ≡ pow2 j)
      × (m ≤ round_up m fuel cap)
      × (round_up m fuel cap < m + m)
unfolding pow2
round_up-lem m zero k cap e small enough = (k, e, omega arith, small)
round_up-lem m (suc fuel) k cap e small enough = elim (Bool-cases (leb m cap)) [
  | inl e' ↦ (k, rw e' e, rw e' (leb→le _ _ e'), rw e' small)
  | inr e' ↦
      rw e' (round_up-lem m fuel (suc k) (cap + cap) (omega arith) (ground arith) (grind arith))
]

rounded_up-law : IsNextPowerOfTwo (λ m. round_up m 63 1)
unfolding pow2
rounded_up-law m positive small = round_up-lem m 63 0 1 refl (omega arith) (omega arith)

with_at_least-IsCache_example :
    (c : ShortPretokenCache) × (with_at_least (λ m. round_up m 63 1) 100 4 ≡ some c)
    × IsCache hash c
    × (c.len ≡ 0)
    × ((100 + 1) * 4 ≤ length c.slots * 3)
    × (max 4 65536 ≤ length c.slots)
    × (length c.slots * 32 < 2 ^ 62)
with_at_least-IsCache_example =
    with_at_least-IsCache hash (λ m. round_up m 63 1) 100 4 rounded_up-law (omega arith)
      (omega arith)
