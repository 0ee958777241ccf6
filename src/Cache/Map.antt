-- ===== src/Cache/Map.antt =====
-- src/bpe/pretoken_cache.rs as a finite map: what a lookup answers in a table, and what an insertion
-- does to the answers.
use supergigatoken.Base.{
  ℕ, zero, suc, ◌+◌, ◌*◌, ◌≤◌, ◌<◌, ◌≡◌, ◌≢◌, ◌↔◌, refl, sym, ap, ◌∙◌, inl, inr, Option, some, List,
  [], ◌∷◌, ltb, length, set, arith, Bool-cases, ◌⊎◌, length-set, ltb→le,
}
use native.Mathlib.Decide.{ℕ_discrete}
use supergigatoken.Cache.{
  Entry, empty_key, entry_at, home, first_empty, place, ShortPretokenCache, Lookup, found, vacant,
  get_or_slot, is_loaded, reserve, put, insert_entry,
}
use supergigatoken.Cache.Masks.{pow2, pow2-pos}
use supergigatoken.Cache.Walk.{pair_of, key_at, home-pair, distance-lt}
use supergigatoken.Cache.Loops.{miss, get_loop-absent, get_loop-present}
use supergigatoken.Cache.Table.{IsTable, set-IsTable, first_empty-IsPlaced, key_at-inside}
use supergigatoken.Cache.Grow.{IsTable-count, Holds, Adds, set-Adds, grow-IsTable}

-- A table within its load of three quarters.
pub record IsCache (hash : ℕ → ℕ) (c : ShortPretokenCache) : Type 0 where
  pub table : IsTable hash c.slots c.mask c.len
  pub load : c.len * 4 ≤ length c.slots * 3

-- The answer of a lookup: the entry of the key, or the first empty slot of its walk.
pub data IsAnswer (hash : ℕ → ℕ) (c : ShortPretokenCache) (key : ℕ) : Option Lookup → Type 0 where
  hit : (e : Entry) → Holds c.slots e → e.key ≡ key → IsAnswer hash c key (some (found e.val e.ext))
  lacking :
      (slot : ℕ)
      → ((e : Entry) → Holds c.slots e → e.key ≢ key)
      → first_empty c.slots c.mask (hash key) ≡ some slot
      → IsAnswer hash c key (some (vacant slot))

pub find_slot :
    (slots : List Entry) (key : ℕ)
    → key ≢ empty_key
    → ((s : ℕ) × (key_at slots s ≡ key)) ⊎ ((j : ℕ) → key_at slots j ≢ key)
find_slot [] key real = inr (λ j at. real (sym at))
find_slot (e ∷ slots) key real = elim (ℕ_discrete e.key key) [
  | yes at ↦ inl (0, at)
  | no first ↦ elim (find_slot slots key real) [
    | inl (s, at) ↦ inl (suc s, at)
    | inr none_there ↦ inr (later first none_there)
  ]
]
  where
    later : e.key ≢ key → ((j : ℕ) → key_at slots j ≢ key) → (j : ℕ) → key_at (e ∷ slots) j ≢ key
    later first rest zero = first
    later first rest (suc j) = rest j

pub IsTable-room : {hash : ℕ → ℕ} (c : ShortPretokenCache) → IsCache hash c → c.len < length c.slots
unfolding pow2
IsTable-room c ok = omega (arith, ok.load, ok.table.sized.cap_lem, pow2-pos ok.table.sized.bits)

-- In every cache a lookup of a key other than the empty one ends, and answers with the entry of the
-- key if the table holds one, and else with the slot that `first_empty` finds.
pub get_or_slot-IsAnswer :
    (hash : ℕ → ℕ) (c : ShortPretokenCache) (key : ℕ)
    → IsCache hash c
    → key ≢ empty_key
    → IsAnswer hash c key (get_or_slot c key (hash key))
unfolding get_or_slot first_empty
get_or_slot-IsAnswer hash c key ok real =
    let t = ok.table in
    let (inside, even) = home-pair c.slots c.mask t.sized (hash key) in
    elim (find_slot c.slots key real) [
      | inl (s, at) ↦
          let inside_s = key_at-inside c.slots s (λ free. real (sym at ∙ free)) in
          let trail = t.reach s (λ free. real (sym at ∙ free)) in
          let run =
            get_loop-present c.slots c.mask t.sized key s (length c.slots) (home c.mask (hash key))
              inside even inside_s real at
              (λ j at_j. t.unique j s (λ free. real (sym at_j ∙ free)) (at_j ∙ sym at))
              (rw at at trail)
              (distance-lt (length c.slots) (home c.mask (hash key)) (pair_of s) inside
                (omega arith)) in
          rw (run, get_or_slot) (hit (entry_at c.slots s) (s, refl) at)
      | inr absent ↦
          let e : Entry = record { key = key; val = 0; ext = 0 } in
          let (i, p) = first_empty-IsPlaced hash c.slots c.mask c.len e t (IsTable-room c ok) in
          let run =
            get_loop-absent c.slots c.mask t.sized key (length c.slots) (home c.mask (hash key))
              absent in
          let misses : get_or_slot c key (hash key) ≡ some (vacant i) = run ∙ ap miss p.stops in
          rw misses (lacking i (λ x (j, at) same. absent j (ap (λ y. y.key) at ∙ same)) p.stops)
    ]

-- A cache with room for one more entry below the load, with the same entries.
record IsReserved (hash : ℕ → ℕ) (c : ShortPretokenCache) : Type 0 where
  reserved : ShortPretokenCache
  returns : reserve hash c ≡ some reserved
  table : IsTable hash reserved.slots reserved.mask reserved.len
  room : (reserved.len + 1) * 4 ≤ length reserved.slots * 3
  same_len : reserved.len ≡ c.len
  same : (x : Entry) → x.key ≢ empty_key → Holds reserved.slots x ↔ Holds c.slots x

reserve-IsReserved : (hash : ℕ → ℕ) (c : ShortPretokenCache) → IsCache hash c → IsReserved hash c
unfolding reserve is_loaded pow2
reserve-IsReserved hash c ok =
    let t = ok.table in
    let slots_pos = pow2-pos t.sized.bits in
    elim (Bool-cases (ltb (length c.slots * 3) ((c.len + 1) * 4))) [
      | inl loaded ↦
          let (c', run, size, same_len, t', same) =
            grow-IsTable hash c t (omega (arith, IsTable-room c ok)) in
          record {
            reserved = c';
            returns = rw (loaded, reserve) run;
            table = t';
            room = omega (arith, size, same_len, ok.load, t.sized.cap_lem);
            same_len = same_len;
            same = same;
          }
      | inr light ↦ record {
        reserved = c;
        returns = rw (light, reserve);
        table = t;
        room = ltb→le _ _ light;
        same_len = refl;
        same = λ x real. ((λ h. h), λ h. h);
      }
    ]

-- `put` in a table with room for one more entry below the load.
put-IsCache :
    (hash : ℕ → ℕ) (c : ShortPretokenCache) (e : Entry)
    → IsTable hash c.slots c.mask c.len
    → (c.len + 1) * 4 ≤ length c.slots * 3
    → e.key ≢ empty_key
    → ((j : ℕ) → key_at c.slots j ≢ e.key)
    → (c' : ShortPretokenCache) × (put c (hash e.key) e ≡ some c')
      × IsCache hash c'
      × (c'.len ≡ c.len + 1)
      × Adds c.slots e c'.slots
unfolding put place
put-IsCache hash c e t room real absent =
    let (i, p) = first_empty-IsPlaced hash c.slots c.mask c.len e t (omega arith) in
    (
      record c { slots = set c.slots i e; len = c.len + 1 },
      rw (p.stops, put),
      record {
        table =
            IsTable-count (suc c.len) (c.len + 1) (omega arith)
              (set-IsTable hash c.slots c.mask c.len i e t p.inside p.free real absent p.trail);
        load = omega (arith, room, length-set c.slots i e);
      },
      refl,
      set-Adds c.slots i e p.inside p.free,
    )

-- In every cache an absent key other than the empty one is inserted: the call returns a cache with
-- one entry more, which holds the new entry and the old ones and no other.
pub insert_entry-IsCache :
    (hash : ℕ → ℕ) (c : ShortPretokenCache) (key val ext : ℕ)
    → IsCache hash c
    → key ≢ empty_key
    → ((e : Entry) → Holds c.slots e → e.key ≢ key)
    → (c' : ShortPretokenCache) × (insert_entry hash c key (hash key) val ext ≡ some c')
      × IsCache hash c'
      × (c'.len ≡ c.len + 1)
      × Adds c.slots (record { key = key; val = val; ext = ext }) c'.slots
unfolding insert_entry
insert_entry-IsCache hash c key val ext ok real absent =
    let r = reserve-IsReserved hash c ok in
    let e : Entry = record { key = key; val = val; ext = ext } in
    let absent' : (j : ℕ) → key_at r.reserved.slots j ≢ key = λ j at.
      absent (entry_at r.reserved.slots j)
        ((r.same (entry_at r.reserved.slots j) (λ free. real (sym at ∙ free))).0 (j, refl)) at in
    let (c', run, ok', len, adds) = put-IsCache hash r.reserved e r.table r.room real absent' in
    (
      c',
      rw (r.returns, insert_entry) run,
      ok',
      omega (arith, len, r.same_len),
      λ x full. (
        (λ h. elim ((adds x full).0 h) [
          | inl new ↦ inl new
          | inr held ↦ inr ((r.same x full).0 held)
        ]),
        (λ h. elim h [
          | inl new ↦ (adds x full).1 (inl new)
          | inr held ↦ (adds x full).1 (inr ((r.same x full).1 held))
        ]),
      ),
    )
