-- ===== src/Cache/Replace.antt =====
-- `replace` of src/bpe/pretoken_cache.rs: an entry is overwritten, and an absent key is inserted.
use supergigatoken.Base.{
  ℕ, zero, suc, ◌+◌, ◌%◌, ◌<◌, ◌≡◌, ◌≢◌, refl, sym, ap, ◌∙◌, inl, inr, false, Option, none, some,
  List, [], ◌∷◌, ◌==◌, if◌then◌else◌, length, set, arith, Bool-cases, length-set,
}
use native.Mathlib.Decide.{ℕ_discrete}
use supergigatoken.Cache.{
  Entry, empty_key, home, next_pair, first_empty, ShortPretokenCache, Lookup, get_or_slot,
  empty_loop, key_loop, replace_entry,
}
use supergigatoken.Cache.Walk.{
  IsSized, Trail, here, on, pair_of, key_at, distance, next_pair-pair, next_pair-distance,
  home-pair, distance-lt,
}
use supergigatoken.Cache.Loops.{beq_true, beq_ne, beq_false, not_here, Trail-next}
use supergigatoken.Cache.Table.{
  occupied, entry_at_self, entry_at-ne, key_at_self, key_at-ne, key_at-inside, first_empty-IsPlaced,
}
use supergigatoken.Cache.Map.{
  IsCache, IsAnswer, hit, lacking, get_or_slot-IsAnswer, IsTable-room, find_slot,
}
use supergigatoken.Cache.Lookups.{value, insert_entry-get_or_slot, value-Holds, value-absent}

-- The walk for a key that is absent ends where the walk for an empty slot does.
abbrev ends : Option ℕ → Option (Option ℕ)
ends none = none
ends (some i) = some none

module _ (slots : List Entry) (mask : ℕ) (sized : IsSized slots mask) where
  key_loop-absent :
      (key fuel idx : ℕ)
      → ((j : ℕ) → key_at slots j ≢ key)
      → key_loop slots mask key fuel idx ≡ ends (empty_loop slots mask fuel idx)
  unfolding key_loop empty_loop
  key_loop-absent key zero idx absent = refl
  key_loop-absent key (suc fuel) idx absent =
      let n0 : (key_at slots idx == key) ≡ false = beq_false _ _ (absent idx) in
      let n1 : (key_at slots (idx + 1) == key) ≡ false = beq_false _ _ (absent (idx + 1)) in
      elim (Bool-cases (key_at slots idx == empty_key)) [
        | inl e ↦ rw (n0, n1, e, key_loop, empty_loop)
        | inr e0 ↦ elim (Bool-cases (key_at slots (idx + 1) == empty_key)) [
          | inl e ↦ rw (n0, n1, e0, e, key_loop, empty_loop)
          | inr e1 ↦
              rw (n0, n1, e0, e1, key_loop, empty_loop)
                (key_loop-absent key fuel (next_pair mask idx) absent)
        ]
      ]

  key_loop-present :
      (key s fuel idx : ℕ)
      → idx < length slots
      → idx % 2 ≡ 0
      → s < length slots
      → key_at slots s ≡ key
      → ((j : ℕ) → key_at slots j ≡ key → j ≡ s)
      → Trail slots mask idx (pair_of s)
      → distance (length slots) idx (pair_of s) < fuel
      → key_loop slots mask key fuel idx ≡ some (some s)
  unfolding key_loop
  key_loop-present key s zero idx inside even inside_s e only trail near = absurd (omega arith)
  key_loop-present key s (suc fuel) idx inside even inside_s e only trail near =
      elim (Bool-cases (key_at slots idx == key)) [
        | inl h ↦ let same : idx ≡ s = only idx (beq_true _ _ h) in rw (h, key_loop, same)
        | inr h0 ↦ elim (Bool-cases (key_at slots (idx + 1) == key)) [
          | inl h ↦
              let same : idx + 1 ≡ s = only (idx + 1) (beq_true _ _ h) in rw (h0, h, key_loop, same)
          | inr h1 ↦
              let other = not_here slots idx s key even (beq_ne _ _ h0) (beq_ne _ _ h1) e in
              let (full0, full1, rest) = Trail-next slots mask sized idx (pair_of s) trail other in
              let (inside', even') = next_pair-pair slots mask sized idx inside even in
              let closer =
                next_pair-distance slots mask sized idx (pair_of s) inside even (omega arith)
                  (omega arith) other in
              let e0 : (key_at slots idx == empty_key) ≡ false = beq_false _ _ full0 in
              let e1 : (key_at slots (idx + 1) == empty_key) ≡ false = beq_false _ _ full1 in
              rw (h0, h1, e0, e1, key_loop)
                (key_loop-present key s fuel (next_pair mask idx) inside' even' inside_s e only rest
                  (omega arith))
        ]
      ]

-- An overwritten entry keeps its key, so every key stays in its slot.
module _ (slots : List Entry) (s : ℕ) (e : Entry) (inside : s < length slots)
    (same_key : key_at slots s ≡ e.key) where
  key_at-overwrite : (j : ℕ) → key_at (set slots s e) j ≡ key_at slots j
  key_at-overwrite j = elim (ℕ_discrete s j) [
    | yes same ↦ rw (← same) (key_at_self slots s e inside ∙ sym same_key)
    | no other ↦ key_at-ne slots s e j other
  ]

  Trail-overwrite : (mask a b : ℕ) → Trail slots mask a b → Trail (set slots s e) mask a b
  Trail-overwrite mask a b (here at) = here at
  Trail-overwrite mask a b (on full0 full1 rest) =
      on (λ free. full0 (sym (key_at-overwrite a) ∙ free))
        (λ free. full1 (sym (key_at-overwrite (a + 1)) ∙ free))
        (Trail-overwrite mask (next_pair mask a) b rest)

occupied-overwrite :
    (slots : List Entry) (s : ℕ) (e : Entry)
    → s < length slots
    → key_at slots s ≡ e.key
    → occupied (set slots s e) ≡ occupied slots
unfolding occupied
occupied-overwrite [] s e inside same = refl
occupied-overwrite (x ∷ slots) zero e inside same = rw same refl
occupied-overwrite (x ∷ slots) (suc s) e inside same =
    omega (arith, occupied-overwrite slots s e (omega arith) same)

overwrite-IsCache :
    (hash : ℕ → ℕ) (c : ShortPretokenCache) (s : ℕ) (e : Entry)
    → IsCache hash c
    → s < length c.slots
    → key_at c.slots s ≡ e.key
    → IsCache hash (record c { slots = set c.slots s e })
overwrite-IsCache hash c s e ok inside same = record {
  table = record {
    sized = record {
      bits = ok.table.sized.bits;
      cap_lem = length-set c.slots s e ∙ ok.table.sized.cap_lem;
      mask_lem = ok.table.sized.mask_lem;
    };
    reach = λ j full.
        let old = key_at-overwrite c.slots s e inside same j in
        rw old (
          Trail-overwrite c.slots s e inside same c.mask (home c.mask (hash (key_at c.slots j)))
            (pair_of j) (ok.table.reach j (λ free. full (old ∙ free))));
    unique = λ i j full eq.
        let old = key_at-overwrite c.slots s e inside same i in
        ok.table.unique i j (λ free. full (old ∙ free))
          (sym old ∙ eq ∙ key_at-overwrite c.slots s e inside same j);
    counted = occupied-overwrite c.slots s e inside same ∙ ok.table.counted;
  };
  load = omega (arith, ok.load, length-set c.slots s e);
}

-- The result is a cache in which the key has the value, and every other key what it had.
pub record IsUpdated (hash : ℕ → ℕ) (c : ShortPretokenCache) (key val ext : ℕ)
    (result : Option ShortPretokenCache) : Type 0 where
  pub updated : ShortPretokenCache
  pub returns : result ≡ some updated
  pub is_cache : IsCache hash updated
  pub lookups :
      (k : ℕ)
      → k ≢ empty_key
      → value (get_or_slot updated k (hash k))
        ≡ (if k == key then some (val, ext) else value (get_or_slot c k (hash k)))

module _ (hash : ℕ → ℕ) (c : ShortPretokenCache) (key val ext : ℕ) (ok : IsCache hash c)
    (real : key ≢ empty_key) where
  new_entry : Entry
  new_entry = record { key = key; val = val; ext = ext }

  overwrite-value :
      (s k : ℕ) (o : Option Lookup)
      → s < length c.slots
      → key_at c.slots s ≡ key
      → IsCache hash (record c { slots = set c.slots s new_entry })
      → k ≢ empty_key
      → k ≢ key
      → IsAnswer hash c k o
      → value (get_or_slot (record c { slots = set c.slots s new_entry }) k (hash k)) ≡ value o
  unfolding new_entry
  overwrite-value s k o inside at ok' real_k other (hit x (i, held) kx) =
      let apart : s ≢ i =
        λ same. other (sym kx ∙ ap (λ y. y.key) (sym held) ∙ ap (key_at c.slots) (sym same) ∙ at) in
      value-Holds hash (record c { slots = set c.slots s new_entry }) ok' k x real_k
        (i, entry_at-ne c.slots s new_entry i apart ∙ held) kx
  overwrite-value s k o inside at ok' real_k other (lacking slot absent stops) =
      value-absent hash (record c { slots = set c.slots s new_entry }) ok' k real_k
        (λ x (j, held) kx. elim (ℕ_discrete s j) [
          | yes same ↦ other (
              sym kx
              ∙ ap (λ y. y.key) (sym held)
              ∙ ap (key_at (set c.slots s new_entry)) (sym same)
              ∙ key_at_self c.slots s new_entry inside)
          | no apart ↦ absent x (j, sym (entry_at-ne c.slots s new_entry j apart) ∙ held) kx
        ])

  replace-overwrites :
      (s : ℕ)
      → key_at c.slots s ≡ key
      → IsUpdated hash c key val ext (replace_entry hash c key (hash key) val ext)
  unfolding replace_entry new_entry
  replace-overwrites s at =
      let t = ok.table in
      let (inside, even) = home-pair c.slots c.mask t.sized (hash key) in
      let inside_s = key_at-inside c.slots s (λ free. real (sym at ∙ free)) in
      let trail = t.reach s (λ free. real (sym at ∙ free)) in
      let run : key_loop c.slots c.mask key (length c.slots) (home c.mask (hash key))
          ≡ some (some s) =
        key_loop-present c.slots c.mask t.sized key s (length c.slots) (home c.mask (hash key))
          inside even inside_s at
          (λ j at_j. t.unique j s (λ free. real (sym at_j ∙ free)) (at_j ∙ sym at)) (rw at at trail)
          (distance-lt (length c.slots) (home c.mask (hash key)) (pair_of s) inside
            (omega arith)) in
      let ok' = overwrite-IsCache hash c s new_entry ok inside_s at in
      record {
        updated = record c { slots = set c.slots s new_entry };
        returns = rw (run, replace_entry);
        is_cache = ok';
        lookups = λ k real_k. elim (Bool-cases (k == key)) [
          | inl same ↦ rw same (
              value-Holds hash (record c { slots = set c.slots s new_entry }) ok' k new_entry real_k
                (s, entry_at_self c.slots s new_entry inside_s) (sym (beq_true _ _ same)))
          | inr other ↦ rw other (
              overwrite-value s k (get_or_slot c k (hash k)) inside_s at ok' real_k
                (beq_ne _ _ other) (get_or_slot-IsAnswer hash c k ok real_k))
        ];
      }

  replace-inserts :
      ((j : ℕ) → key_at c.slots j ≢ key)
      → IsUpdated hash c key val ext (replace_entry hash c key (hash key) val ext)
  unfolding replace_entry first_empty new_entry
  replace-inserts absent =
      let (i, p) =
        first_empty-IsPlaced hash c.slots c.mask c.len new_entry ok.table (IsTable-room c ok) in
      let walk =
        key_loop-absent c.slots c.mask ok.table.sized key (length c.slots) (home c.mask (hash key))
          absent in
      let missed =
        value-absent hash c ok key real (λ x (j, held) kx. absent j (ap (λ y. y.key) held ∙ kx)) in
      let (c', run, ok', after) = insert_entry-get_or_slot hash c key val ext ok real missed in
      let absent_run : key_loop c.slots c.mask key (length c.slots) (home c.mask (hash key))
          ≡ some none =
        walk ∙ ap ends p.stops in
      record {
        updated = c';
        returns = rw (absent_run, replace_entry) run;
        is_cache = ok';
        lookups = after;
      }

-- In every cache the value of a key other than the empty one can be replaced: the call returns a
-- cache in which lookups of the key find the new value, whether or not the key was there, and
-- lookups of every other key other than the empty one find what they found before.
pub replace_entry-IsUpdated :
    (hash : ℕ → ℕ) (c : ShortPretokenCache) (key val ext : ℕ)
    → IsCache hash c
    → key ≢ empty_key
    → IsUpdated hash c key val ext (replace_entry hash c key (hash key) val ext)
replace_entry-IsUpdated hash c key val ext ok real = elim (find_slot c.slots key real) [
  | inl (s, at) ↦ replace-overwrites hash c key val ext ok real s at
  | inr absent ↦ replace-inserts hash c key val ext ok real absent
]
