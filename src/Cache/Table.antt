-- ===== src/Cache/Table.antt =====
-- What makes the slots of src/bpe/pretoken_cache.rs a table: every entry is on the trail of its key,
-- no key has two entries, and the length counts them. A write to the first empty slot keeps this.
use supergigatoken.Base.{
  ℕ, zero, suc, ◌+◌, ◌≤◌, ◌<◌, ◌≡◌, ◌≢◌, refl, sym, ap, ◌∙◌, inl, inr, true, false, some, List, [],
  ◌∷◌, ltb, ◌==◌, if◌then◌else◌, length, set, get_or, arith, Bool-cases, get_or-set_self,
  get_or-set_ne, length-set, ltb→lt, ltb→le,
}
use native.Mathlib.Decide.{ℕ_discrete}
use supergigatoken.Cache.{Entry, empty_key, empty_entry, entry_at, home, next_pair, first_empty}
use supergigatoken.Cache.Walk.{IsSized, Trail, here, on, pair_of, key_at, home-pair, distance-lt}
use supergigatoken.Cache.Loops.{empty_loop-Trail, beq_true, beq_false}

-- The number of entries.
unfoldable pub occupied : List Entry → ℕ
occupied [] = 0
occupied (e ∷ slots) = (if e.key == empty_key then 0 else 1) + occupied slots

pub record IsTable (hash : ℕ → ℕ) (slots : List Entry) (mask count : ℕ) : Type 0 where
  pub sized : IsSized slots mask
  pub reach :
      (i : ℕ)
      → key_at slots i ≢ empty_key
      → Trail slots mask (home mask (hash (key_at slots i))) (pair_of i)
  pub unique : (i j : ℕ) → key_at slots i ≢ empty_key → key_at slots i ≡ key_at slots j → i ≡ j
  pub counted : occupied slots ≡ count

get_or-outside : (xs : List Entry) (i : ℕ) (d : Entry) → length xs ≤ i → get_or xs i d ≡ d
get_or-outside [] i d h = refl
get_or-outside (x ∷ xs) zero d h = absurd (omega arith)
get_or-outside (x ∷ xs) (suc i) d h = get_or-outside xs i d (omega arith)

-- Only a slot of the table holds an entry.
pub key_at-inside : (slots : List Entry) (i : ℕ) → key_at slots i ≢ empty_key → i < length slots
key_at-inside slots i full = elim (Bool-cases (ltb i (length slots))) [
  | inl e ↦ ltb→lt _ _ e
  | inr e ↦ absurd (full (ap (λ e. e.key) (get_or-outside slots i empty_entry (ltb→le _ _ e))))
]

-- With fewer entries than slots some slot is empty.
pub free_slot :
    (slots : List Entry)
    → occupied slots < length slots
    → (s : ℕ) × (s < length slots) × (key_at slots s ≡ empty_key)
unfolding occupied
free_slot [] h = absurd (omega arith)
free_slot (e ∷ slots) h = elim (Bool-cases (e.key == empty_key)) [
  | inl free ↦ (0, omega arith, beq_true _ _ free)
  | inr full ↦
      let one : occupied (e ∷ slots) ≡ suc (occupied slots) = rw full (omega arith) in
      let (s, inside, free) = free_slot slots (omega (arith, one)) in (suc s, omega arith, free)
]

occupied-set :
    (slots : List Entry) (i : ℕ) (e : Entry)
    → i < length slots
    → key_at slots i ≡ empty_key
    → e.key ≢ empty_key
    → occupied (set slots i e) ≡ suc (occupied slots)
unfolding occupied
occupied-set [] i e inside free full = absurd (omega arith)
occupied-set (x ∷ slots) zero e inside free full =
    let new : (e.key == empty_key) ≡ false = beq_false _ _ full in
    let old : (x.key == empty_key) ≡ true = ground arith in rw (new, old) (omega arith)
occupied-set (x ∷ slots) (suc i) e inside free full =
    omega (arith, occupied-set slots i e (omega arith) free full)

module _ (slots : List Entry) (i : ℕ) (e : Entry) where
  pub entry_at_self : i < length slots → entry_at (set slots i e) i ≡ e
  entry_at_self inside = get_or-set_self slots i e empty_entry inside

  pub entry_at-ne : (j : ℕ) → i ≢ j → entry_at (set slots i e) j ≡ entry_at slots j
  entry_at-ne j other = get_or-set_ne slots i j e empty_entry other

  pub key_at_self : i < length slots → key_at (set slots i e) i ≡ e.key
  key_at_self inside = ap (λ x. x.key) (entry_at_self inside)

  pub key_at-ne : (j : ℕ) → i ≢ j → key_at (set slots i e) j ≡ key_at slots j
  key_at-ne j other = ap (λ x. x.key) (entry_at-ne j other)

  key_at-full :
      (j : ℕ)
      → key_at slots i ≡ empty_key
      → key_at slots j ≢ empty_key
      → key_at (set slots i e) j ≢ empty_key
  key_at-full j free full =
      let other : i ≢ j = λ same. full (ap (key_at slots) (sym same) ∙ free) in
      λ none_left. full (sym (key_at-ne j other) ∙ none_left)

  Trail-set :
      (mask a b : ℕ)
      → key_at slots i ≡ empty_key
      → Trail slots mask a b
      → Trail (set slots i e) mask a b
  Trail-set mask a b free (here at) = here at
  Trail-set mask a b free (on full0 full1 rest) =
      on (key_at-full a free full0) (key_at-full (a + 1) free full1)
        (Trail-set mask (next_pair mask a) b free rest)

-- A write of an absent key to an empty slot at the end of its trail keeps the table.
pub set-IsTable :
    (hash : ℕ → ℕ) (slots : List Entry) (mask count i : ℕ) (e : Entry)
    → IsTable hash slots mask count
    → i < length slots
    → key_at slots i ≡ empty_key
    → e.key ≢ empty_key
    → ((j : ℕ) → key_at slots j ≢ e.key)
    → Trail slots mask (home mask (hash e.key)) (pair_of i)
    → IsTable hash (set slots i e) mask (suc count)
set-IsTable hash slots mask count i e t inside free full absent trail = record {
  sized = record {
    bits = t.sized.bits;
    cap_lem = length-set slots i e ∙ t.sized.cap_lem;
    mask_lem = t.sized.mask_lem;
  };
  reach = λ j full_j. elim (ℕ_discrete i j) [
    | yes same ↦
        rw (← same, key_at_self slots i e inside)
          (Trail-set slots i e mask (home mask (hash e.key)) (pair_of i) free trail)
    | no other ↦
        let old = key_at-ne slots i e j other in
        rw old (
          Trail-set slots i e mask (home mask (hash (key_at slots j))) (pair_of j) free
            (t.reach j (λ none_left. full_j (old ∙ none_left))))
  ];
  unique = λ j k full_j same. elim (ℕ_discrete i j) [
    | yes ij ↦ elim (ℕ_discrete i k) [
      | yes ik ↦ sym ij ∙ ik
      | no other ↦ absurd (
          absent k (
            sym (key_at-ne slots i e k other)
            ∙ sym same
            ∙ ap (key_at (set slots i e)) (sym ij)
            ∙ key_at_self slots i e inside))
    ]
    | no other_j ↦ elim (ℕ_discrete i k) [
      | yes ik ↦ absurd (
          absent j (
            sym (key_at-ne slots i e j other_j)
            ∙ same
            ∙ ap (key_at (set slots i e)) (sym ik)
            ∙ key_at_self slots i e inside))
      | no other_k ↦
          let old = key_at-ne slots i e j other_j in
          t.unique j k (λ none_left. full_j (old ∙ none_left))
            (sym old ∙ same ∙ key_at-ne slots i e k other_k)
    ]
  ];
  counted = occupied-set slots i e inside free full ∙ ap suc t.counted;
}

-- With a slot to spare, an absent key is placed in the first empty slot of its walk.
pub record IsPlaced (hash : ℕ → ℕ) (slots : List Entry) (mask count : ℕ) (e : Entry) (i : ℕ)
    : Type 0 where
  pub stops : first_empty slots mask (hash e.key) ≡ some i
  pub inside : i < length slots
  pub free : key_at slots i ≡ empty_key
  pub trail : Trail slots mask (home mask (hash e.key)) (pair_of i)

pub first_empty-IsPlaced :
    (hash : ℕ → ℕ) (slots : List Entry) (mask count : ℕ) (e : Entry)
    → IsTable hash slots mask count
    → count < length slots
    → (i : ℕ) × IsPlaced hash slots mask count e i
unfolding first_empty
first_empty-IsPlaced hash slots mask count e t room =
    let (s, inside_s, free_s) = free_slot slots (omega (arith, t.counted)) in
    let (inside_home, even) = home-pair slots mask t.sized (hash e.key) in
    let near =
      distance-lt (length slots) (home mask (hash e.key)) (pair_of s) inside_home (omega arith) in
    let (i, run, inside, free, trail) =
      empty_loop-Trail slots mask t.sized (length slots) (home mask (hash e.key)) s inside_home even
        inside_s free_s near in
    (i, record { stops = run; inside = inside; free = free; trail = trail })
