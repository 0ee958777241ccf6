-- ===== src/Cache/Lookups.antt =====
-- Lookups after insertions in src/bpe/pretoken_cache.rs.
use supergigatoken.Base.{
  ℕ, suc, ◌+◌, ◌≡◌, ◌≢◌, refl, sym, ap, ◌∙◌, inl, inr, Option, none, some, ◌==◌, if◌then◌else◌, set,
  arith, Bool-cases,
}
use supergigatoken.Cache.{
  Entry, empty_key, entry_at, first_empty, place, ShortPretokenCache, Lookup, found, vacant,
  get_or_slot, is_loaded, reserve, put, insert_entry, insert_at, with_pow2_capacity,
}
use supergigatoken.Cache.Masks.{pow2}
use supergigatoken.Cache.Loops.{beq_true, beq_ne}
use supergigatoken.Cache.Grow.{Holds, Adds, replicate-IsTable}
use supergigatoken.Cache.Map.{
  IsCache, IsAnswer, hit, lacking, get_or_slot-IsAnswer, insert_entry-IsCache,
}

-- The value that a lookup finds.
abbrev pub value : Option Lookup → Option (ℕ × ℕ)
value none = none
value (some (vacant slot)) = none
value (some (found val ext)) = some (val, ext)

slot_of : Option Lookup → Option ℕ
slot_of none = none
slot_of (some (vacant slot)) = some slot
slot_of (some (found val ext)) = none

-- A new cache is one, and it is empty.
pub with_pow2_capacity-IsCache :
    (hash : ℕ → ℕ) (k : ℕ) → IsCache hash (with_pow2_capacity (pow2 (suc k)))
unfolding with_pow2_capacity
with_pow2_capacity-IsCache hash k = record {
  table = replicate-IsTable hash k (pow2 (suc k)) refl;
  load = omega arith;
}

module _ (hash : ℕ → ℕ) (c : ShortPretokenCache) (ok : IsCache hash c) (key : ℕ) where
  one_entry :
      (e x : Entry)
      → key ≢ empty_key
      → Holds c.slots e
      → Holds c.slots x
      → e.key ≡ key
      → x.key ≡ key
      → e ≡ x
  one_entry e x real (i, at) (j, at') ke kx =
      let same : i ≡ j =
        ok.table.unique i j (λ free. real (sym ke ∙ ap (λ y. y.key) (sym at) ∙ free))
          (ap (λ y. y.key) at ∙ ke ∙ sym kx ∙ ap (λ y. y.key) (sym at')) in
      sym at ∙ ap (entry_at c.slots) same ∙ at'

  answer-Holds :
      (e : Entry) (o : Option Lookup)
      → key ≢ empty_key
      → Holds c.slots e
      → e.key ≡ key
      → IsAnswer hash c key o
      → value o ≡ some (e.val, e.ext)
  answer-Holds e o real held ke (hit x held' kx) =
      ap (λ y. some (y.val, y.ext)) (one_entry x e real held' held kx ke)
  answer-Holds e o real held ke (lacking slot absent stops) = absurd (absent e held ke)

  answer-absent :
      (o : Option Lookup)
      → ((e : Entry) → Holds c.slots e → e.key ≢ key)
      → IsAnswer hash c key o
      → value o ≡ none
  answer-absent o absent (hit x held kx) = absurd (absent x held kx)
  answer-absent o absent (lacking slot absent' stops) = refl

  pub value-Holds :
      (e : Entry)
      → key ≢ empty_key
      → Holds c.slots e
      → e.key ≡ key
      → value (get_or_slot c key (hash key)) ≡ some (e.val, e.ext)
  value-Holds e real held ke =
      answer-Holds e (get_or_slot c key (hash key)) real held ke
        (get_or_slot-IsAnswer hash c key ok real)

  pub value-absent :
      key ≢ empty_key
      → ((e : Entry) → Holds c.slots e → e.key ≢ key)
      → value (get_or_slot c key (hash key)) ≡ none
  value-absent real absent =
      answer-absent (get_or_slot c key (hash key)) absent (get_or_slot-IsAnswer hash c key ok real)

  absent_of :
      (o : Option Lookup)
      → IsAnswer hash c key o
      → value o ≡ none
      → (e : Entry) → Holds c.slots e
      → e.key ≢ key
  absent_of o (hit x held kx) none_found = absurd (ground arith)
  absent_of o (lacking slot absent stops) none_found = absent

  stops_at :
      (o : Option Lookup) (slot : ℕ)
      → IsAnswer hash c key o
      → o ≡ some (vacant slot)
      → first_empty c.slots c.mask (hash key) ≡ some slot
  unfolding slot_of
  stops_at o slot (hit x held kx) e = absurd (ground arith)
  stops_at o slot (lacking slot' absent stops) e = stops ∙ ap slot_of e

-- In every cache an absent key other than the empty one can be inserted, and afterwards every lookup
-- of a key other than the empty one finds the new value for the new key, and for another key what it
-- found before.
pub insert_entry-get_or_slot :
    (hash : ℕ → ℕ) (c : ShortPretokenCache) (key val ext : ℕ)
    → IsCache hash c
    → key ≢ empty_key
    → value (get_or_slot c key (hash key)) ≡ none
    → (c' : ShortPretokenCache) × (insert_entry hash c key (hash key) val ext ≡ some c')
      × IsCache hash c'
      × ((k : ℕ)
          → k ≢ empty_key
          → value (get_or_slot c' k (hash k))
            ≡ (if k == key then some (val, ext) else value (get_or_slot c k (hash k))))
insert_entry-get_or_slot hash c key val ext ok real missed =
    let absent =
      absent_of hash c ok key (get_or_slot c key (hash key))
        (get_or_slot-IsAnswer hash c key ok real) missed in
    let (c', run, ok', len, adds) = insert_entry-IsCache hash c key val ext ok real absent in
    (c', run, ok', λ k real_k. found_after c' ok' adds k real_k)
  where
    after_answer :
        (c' : ShortPretokenCache)
        → IsCache hash c'
        → Adds c.slots (record { key = key; val = val; ext = ext }) c'.slots
        → (k : ℕ) → k ≢ empty_key
        → k ≢ key
        → (o : Option Lookup) → IsAnswer hash c k o
        → value (get_or_slot c' k (hash k)) ≡ value o
    after_answer c' ok' adds k real_k other o (hit x held kx) =
        value-Holds hash c' ok' k x real_k ((adds x (λ free. real_k (sym kx ∙ free))).1 (inr held))
          kx
    after_answer c' ok' adds k real_k other o (lacking slot absent stops) =
        value-absent hash c' ok' k real_k (λ x held kx.
          elim ((adds x (λ free. real_k (sym kx ∙ free))).0 held) [
            | inl new ↦ other (sym kx ∙ ap (λ y. y.key) new)
            | inr old ↦ absent x old kx
          ])

    found_after :
        (c' : ShortPretokenCache)
        → IsCache hash c'
        → Adds c.slots (record { key = key; val = val; ext = ext }) c'.slots
        → (k : ℕ) → k ≢ empty_key
        → value (get_or_slot c' k (hash k))
          ≡ (if k == key then some (val, ext) else value (get_or_slot c k (hash k)))
    found_after c' ok' adds k real_k = elim (Bool-cases (k == key)) [
      | inl same ↦
          let e : Entry = record { key = key; val = val; ext = ext } in
          rw same (
            value-Holds hash c' ok' k e real_k ((adds e real).1 (inl refl))
              (sym (beq_true _ _ same)))
      | inr other ↦ rw other (
          after_answer c' ok' adds k real_k (beq_ne _ _ other) (get_or_slot c k (hash k))
            (get_or_slot-IsAnswer hash c k ok real_k))
    ]

-- In every cache, inserting at the slot that a miss of `get_or_slot` has reported is the same as
-- inserting.
pub insert_at-insert_entry :
    (hash : ℕ → ℕ) (c : ShortPretokenCache) (slot key val ext : ℕ)
    → IsCache hash c
    → key ≢ empty_key
    → get_or_slot c key (hash key) ≡ some (vacant slot)
    → insert_at hash c slot key (hash key) val ext ≡ insert_entry hash c key (hash key) val ext
unfolding insert_at insert_entry reserve
insert_at-insert_entry hash c slot key val ext ok real missed =
    let stops =
      stops_at hash c ok key (get_or_slot c key (hash key)) slot
        (get_or_slot-IsAnswer hash c key ok real) missed in
    let e : Entry = record { key = key; val = val; ext = ext } in
    let placed : put c (hash key) e
        ≡ some (record c { slots = set c.slots slot e; len = c.len + 1 }) =
      unfold put place in rw (stops, put) in
    elim (Bool-cases (is_loaded c)) [
      | inl loaded ↦ rw (loaded, insert_at, insert_entry)
      | inr light ↦ rw (light, insert_at, insert_entry, placed)
    ]
