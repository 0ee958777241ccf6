-- ===== src/Cache.antt =====
-- src/bpe/pretoken_cache.rs: the open-addressing table from packed pretoken keys to packed encodings.
-- A slot list stands for the allocation; an index out of range, which the unsafe reads exclude,
-- reads as an empty slot and writes nothing. Prefetching has no effect.
pub mod Masks
pub mod Walk
pub mod Loops
pub mod Table
pub mod Grow
pub mod Map
pub mod Lookups
pub mod Replace
pub mod Probe
pub mod Sized
use Prim.Native.Nat.{bit_and}
use supergigatoken.Base.{
  ℕ, zero, suc, ◌+◌, ◌*◌, ◌-◌, ◌%◌, ◌^◌, Bool, true, false, Option, none, some, List, [], ◌∷◌, ltb,
  ◌==◌, ◌||◌, if◌then◌else◌, length, get_or, set, replicate, max,
}

pub record Entry : Type 0 where
  pub key : ℕ
  pub val : ℕ
  pub ext : ℕ

abbrev pub empty_key : ℕ
empty_key = 0

abbrev pub empty_entry : Entry
empty_entry = record { key = empty_key; val = 0; ext = 0 }

pub record ShortPretokenCache : Type 0 where
  pub slots : List Entry
  pub mask : ℕ
  pub len : ℕ

-- `Slots::get`
abbrev pub entry_at : List Entry → ℕ → Entry
entry_at slots idx = get_or slots idx empty_entry

unfoldable pub with_pow2_capacity : ℕ → ShortPretokenCache
with_pow2_capacity cap = record { slots = replicate cap empty_entry; mask = cap - 1; len = 0 }

-- `(h as usize) & self.mask & !1`
unfoldable pub home : ℕ → ℕ → ℕ
home mask h = bit_and h mask - bit_and h mask % 2

-- `(idx + 2) & self.mask`
unfoldable pub next_pair : ℕ → ℕ → ℕ
next_pair mask idx = bit_and (idx + 2) mask

-- `Result<(u64, u64), usize>`: the value found, or the slot where the key belongs.
pub data Lookup : Type 0 where
  found : ℕ → ℕ → Lookup
  vacant : ℕ → Lookup

-- The `loop` of `get_or_slot` on fuel, from the pair at `idx`; `none` means that no fuel is left.
unfoldable pub get_loop : List Entry → ℕ → ℕ → ℕ → ℕ → Option Lookup
unfolding next_pair
get_loop slots mask key zero idx = none
get_loop slots mask key (suc fuel) idx =
    let e0 = entry_at slots idx in
    let e1 = entry_at slots (idx + 1) in
    let rest = get_loop slots mask key fuel (next_pair mask idx) in
    if e0.key == key
    then some (found e0.val e0.ext)
    else if e1.key == key
    then some (found e1.val e1.ext)
    else if e0.key == empty_key
    then some (vacant idx)
    else if e1.key == empty_key
    then some (vacant (idx + 1))
    else rest

-- A walk visits each pair once at most, so one round for each slot is enough.
unfoldable pub get_or_slot : ShortPretokenCache → ℕ → ℕ → Option Lookup
unfolding get_loop home
get_or_slot c key h = get_loop c.slots c.mask key (length c.slots) (home c.mask h)

-- The `loop` of `first_empty`.
unfoldable pub empty_loop : List Entry → ℕ → ℕ → ℕ → Option ℕ
unfolding next_pair
empty_loop slots mask zero idx = none
empty_loop slots mask (suc fuel) idx =
    let rest = empty_loop slots mask fuel (next_pair mask idx) in
    if (entry_at slots idx).key == empty_key
    then some idx
    else if (entry_at slots (idx + 1)).key == empty_key
    then some (idx + 1)
    else rest

unfoldable pub first_empty : List Entry → ℕ → ℕ → Option ℕ
unfolding empty_loop home
first_empty slots mask h = empty_loop slots mask (length slots) (home mask h)

-- A write to the first empty slot of the walk.
unfoldable pub place : List Entry → ℕ → ℕ → Entry → Option (List Entry)
unfolding first_empty
place slots mask h e = elim (first_empty slots mask h) [
  | none ↦ none
  | some idx ↦ some (set slots idx e)
]

-- The loop of `grow` over the old slots, with the hash that the inserts use.
unfoldable pub rehash : (ℕ → ℕ) → List Entry → ℕ → List Entry → Option (List Entry)
unfolding place
rehash hash [] mask slots = some slots
rehash hash (e ∷ old) mask slots = elim (e.key == empty_key) [
  | true ↦ rehash hash old mask slots
  | false ↦ elim (place slots mask (hash e.key) e) [
    | none ↦ none
    | some slots' ↦ rehash hash old mask slots'
  ]
]

unfoldable pub grow : (ℕ → ℕ) → ShortPretokenCache → Option ShortPretokenCache
unfolding rehash
grow hash c =
    let new_cap = length c.slots * 2 in
    elim (rehash hash c.slots (new_cap - 1) (replicate new_cap empty_entry)) [
      | none ↦ none
      | some slots ↦ some (record { slots = slots; mask = new_cap - 1; len = c.len })
    ]

-- The check of the load that begins `insert` and `insert_at`.
unfoldable pub is_loaded : ShortPretokenCache → Bool
is_loaded c = ltb (length c.slots * 3) ((c.len + 1) * 4)

unfoldable pub reserve : (ℕ → ℕ) → ShortPretokenCache → Option ShortPretokenCache
unfolding grow is_loaded
reserve hash c = if is_loaded c then grow hash c else some c

unfoldable pub put : ShortPretokenCache → ℕ → Entry → Option ShortPretokenCache
unfolding place
put c h e = elim (place c.slots c.mask h e) [
  | none ↦ none
  | some slots ↦ some (record c { slots = slots; len = c.len + 1 })
]

unfoldable pub insert_entry :
    (ℕ → ℕ) → ShortPretokenCache → ℕ → ℕ → ℕ → ℕ → Option ShortPretokenCache
unfolding reserve put
insert_entry hash c key h val ext = elim (reserve hash c) [
  | none ↦ none
  | some c' ↦ put c' h (record { key = key; val = val; ext = ext })
]

-- `insert_at`, whose slot a miss of `get_or_slot` has reported.
unfoldable pub insert_at :
    (ℕ → ℕ) → ShortPretokenCache → ℕ → ℕ → ℕ → ℕ → ℕ → Option ShortPretokenCache
unfolding grow put is_loaded
insert_at hash c slot key h val ext =
    let e : Entry = record { key = key; val = val; ext = ext } in
    elim (is_loaded c) [
      | false ↦ some (record c { slots = set c.slots slot e; len = c.len + 1 })
      | true ↦ elim (grow hash c) [ none ↦ none | some c' ↦ put c' h e ]
    ]

-- The walk of `replace`: where the key is, or that it is absent.
unfoldable pub key_loop : List Entry → ℕ → ℕ → ℕ → ℕ → Option (Option ℕ)
unfolding next_pair
key_loop slots mask key zero idx = none
key_loop slots mask key (suc fuel) idx =
    let k0 = (entry_at slots idx).key in
    let k1 = (entry_at slots (idx + 1)).key in
    let rest = key_loop slots mask key fuel (next_pair mask idx) in
    if k0 == key
    then some (some idx)
    else if k1 == key
    then some (some (idx + 1))
    else if (k0 == empty_key) || (k1 == empty_key)
    then some none
    else rest

-- `replace`
unfoldable pub replace_entry :
    (ℕ → ℕ) → ShortPretokenCache → ℕ → ℕ → ℕ → ℕ → Option ShortPretokenCache
unfolding key_loop home insert_entry
replace_entry hash c key h val ext =
    elim (key_loop c.slots c.mask key (length c.slots) (home c.mask h)) [
      | none ↦ none
      | some none ↦ insert_entry hash c key h val ext
      | some (some idx) ↦
          some (record c { slots = set c.slots idx (record { key = key; val = val; ext = ext }) })
    ]

-- A `usize` sum or product, which wraps.
abbrev pub usize : ℕ → ℕ
usize x = x % 2 ^ 64

-- The loop of `with_at_least` on fuel, until `n` entries fit without growing.
unfoldable pub fitting_cap : ℕ → ℕ → ℕ → Option ℕ
fitting_cap n zero cap = none
fitting_cap n (suc fuel) cap =
    let rest = fitting_cap n fuel (usize (cap * 2)) in
    if ltb (usize (cap * 3)) (usize ((n + 1) * 4)) then rest else some cap

-- `with_at_least`, over the `next_power_of_two` of the standard library. Where nothing wraps, each
-- round brings the capacity closer to four for each entry.
unfoldable pub with_at_least : (ℕ → ℕ) → ℕ → ℕ → Option ShortPretokenCache
unfolding fitting_cap with_pow2_capacity
with_at_least next_power_of_two n min_slots =
    elim (fitting_cap n (suc ((n + 1) * 4)) (next_power_of_two (max min_slots 65536))) [
      | none ↦ none
      | some cap ↦ some (with_pow2_capacity cap)
    ]

-- `ProbeView`: the slots at the base, and `mask & !1`.
pub record ProbeView : Type 0 where
  pub base : List Entry
  pub pair_mask : ℕ

unfoldable pub probe_view : ShortPretokenCache → ProbeView
probe_view c = record { base = c.slots; pair_mask = c.mask - c.mask % 2 }

-- `probe_pair`: the selected value and whether the key is in the home pair. Every architecture's
-- selects choose the first slot if its key matches, else the second.
unfoldable pub probe_pair : ProbeView → ℕ → ℕ → ℕ × ℕ × Bool
probe_pair view key h =
    let p = bit_and h view.pair_mask in
    let e0 = entry_at view.base p in
    let e1 = entry_at view.base (p + 1) in
    let m0 = e0.key == key in
    let m1 = e1.key == key in
    (if m0 then e0.val else e1.val, if m0 then e0.ext else e1.ext, m0 || m1)
