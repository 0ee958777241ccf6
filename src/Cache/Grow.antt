-- ===== src/Cache/Grow.antt =====
-- `grow` of src/bpe/pretoken_cache.rs: the doubled table holds the same entries.
use supergigatoken.Base.{
  ℕ, zero, suc, ◌+◌, ◌*◌, ◌-◌, ◌<◌, ◌≡◌, ◌≢◌, ◌↔◌, refl, sym, ap, ◌∙◌, inl, inr, true, false, some,
  List, [], ◌∷◌, ◌==◌, length, set, arith, Bool-cases, ◌⊎◌, replicate, length-set, length-replicate,
  get_or-replicate,
}
use native.Mathlib.Decide.{ℕ_discrete}
use supergigatoken.Cache.{
  Entry, empty_key, empty_entry, entry_at, place, rehash, ShortPretokenCache, grow,
}
use supergigatoken.Cache.Masks.{pow2}
use supergigatoken.Cache.Walk.{key_at}
use supergigatoken.Cache.Loops.{beq_true, beq_ne}
use supergigatoken.Cache.Table.{
  IsTable, occupied, set-IsTable, IsPlaced, first_empty-IsPlaced, entry_at_self, entry_at-ne,
  key_at_self, key_at-ne,
}

-- The entry stands in some slot.
abbrev pub Holds : List Entry → Entry → Type 0
Holds slots e = (i : ℕ) × (entry_at slots i ≡ e)

-- The slots hold the entry `e` and the entries of `old`, and no other.
abbrev pub Adds : List Entry → Entry → List Entry → Type 0
Adds slots e slots' = (x : Entry) → x.key ≢ empty_key → Holds slots' x ↔ ((x ≡ e) ⊎ Holds slots x)

-- The slots `slots'` hold what the two lists hold.
abbrev Unites : List Entry → List Entry → List Entry → Type 0
Unites old slots slots' =
    (x : Entry) → x.key ≢ empty_key → Holds slots' x ↔ (Holds old x ⊎ Holds slots x)

pub set-Adds :
    (slots : List Entry) (i : ℕ) (e : Entry)
    → i < length slots
    → key_at slots i ≡ empty_key
    → Adds slots e (set slots i e)
set-Adds slots i e inside free x full = (
  (λ (j, at). elim (ℕ_discrete i j) [
    | yes same ↦
        inl (sym at ∙ ap (entry_at (set slots i e)) (sym same) ∙ entry_at_self slots i e inside)
    | no other ↦ inr (j, sym (entry_at-ne slots i e j other) ∙ at)
  ]),
  (λ h. elim h [
    | inl new ↦ (i, entry_at_self slots i e inside ∙ sym new)
    | inr (j, at) ↦
        let other : i ≢ j =
          λ same. full (ap (λ y. y.key) (sym at) ∙ ap (key_at slots) (sym same) ∙ free) in
        (j, entry_at-ne slots i e j other ∙ at)
  ]),
)

-- The old entries fit into the new table: none is there yet, and no two have one key.
record Fits (old slots : List Entry) : Type 0 where
  fresh : (i j : ℕ) → key_at old i ≢ empty_key → key_at old i ≢ key_at slots j
  apart : (i j : ℕ) → key_at old i ≢ empty_key → key_at old i ≡ key_at old j → i ≡ j

-- What the loop over the old slots leaves.
record IsRehashed (hash : ℕ → ℕ) (old slots : List Entry) (mask count : ℕ) : Type 0 where
  slots' : List Entry
  returns : rehash hash old mask slots ≡ some slots'
  size : length slots' ≡ length slots
  table : IsTable hash slots' mask (count + occupied old)
  unites : Unites old slots slots'

pub IsTable-count :
    {hash : ℕ → ℕ} {slots : List Entry} {mask : ℕ} (m n : ℕ)
    → m ≡ n
    → IsTable hash slots mask m
    → IsTable hash slots mask n
IsTable-count m n e t = rw (← e) t

Holds-nil : (x : Entry) → x.key ≢ empty_key → ¬ Holds [] x
Holds-nil x full (i, at) = full (ap (λ y. y.key) (sym at))

Holds-cons : (e x : Entry) (old : List Entry) → Holds (e ∷ old) x ↔ ((x ≡ e) ⊎ Holds old x)
Holds-cons e x old =
    ((λ h. split h), (λ h. elim h [ inl same ↦ (0, sym same) | inr (i, at) ↦ (suc i, at) ]))
  where
    split : Holds (e ∷ old) x → (x ≡ e) ⊎ Holds old x
    split (zero, at) = inl (sym at)
    split (suc i, at) = inr (i, at)

Fits-tail : (e : Entry) (old slots : List Entry) → Fits (e ∷ old) slots → Fits old slots
Fits-tail e old slots fits = record {
  fresh = λ i j. fits.fresh (suc i) j;
  apart = λ i j full same.
      let next : suc i ≡ suc j = fits.apart (suc i) (suc j) full same in omega arith;
}

Fits-set :
    (e : Entry) (old slots : List Entry) (i : ℕ)
    → i < length slots
    → Fits (e ∷ old) slots
    → Fits old (set slots i e)
Fits-set e old slots i inside fits = record {
  fresh = λ a j full same. elim (ℕ_discrete i j) [
    | yes ij ↦
        let found : key_at old a ≡ e.key =
          same ∙ ap (key_at (set slots i e)) (sym ij) ∙ key_at_self slots i e inside in
        let first : suc a ≡ 0 = fits.apart (suc a) 0 full found in absurd (omega arith)
    | no other ↦ fits.fresh (suc a) j full (same ∙ key_at-ne slots i e j other)
  ];
  apart = (Fits-tail e old slots fits).apart;
}

rehash-skip :
    (hash : ℕ → ℕ) (e : Entry) (old slots : List Entry) (mask count : ℕ)
    → (e.key == empty_key) ≡ true
    → IsRehashed hash old slots mask count
    → IsRehashed hash (e ∷ old) slots mask count
unfolding rehash occupied
rehash-skip hash e old slots mask count free r = record {
  slots' = r.slots';
  returns = rw (free, rehash) r.returns;
  size = r.size;
  table =
      let same : count + occupied old ≡ count + occupied (e ∷ old) = rw free (omega arith) in
      IsTable-count _ _ same r.table;
  unites = λ x full. (
    (λ h. elim ((r.unites x full).0 h) [
      | inl held ↦ inl ((Holds-cons e x old).1 (inr held))
      | inr held ↦ inr held
    ]),
    (λ h. elim h [
      | inl held ↦ elim ((Holds-cons e x old).0 held) [
        | inl same ↦ absurd (full (ap (λ y. y.key) same ∙ beq_true _ _ free))
        | inr held ↦ (r.unites x full).1 (inl held)
      ]
      | inr held ↦ (r.unites x full).1 (inr held)
    ]),
  );
}

rehash-place :
    (hash : ℕ → ℕ) (e : Entry) (old slots : List Entry) (mask count i : ℕ)
    → (e.key == empty_key) ≡ false
    → IsPlaced hash slots mask count e i
    → IsRehashed hash old (set slots i e) mask (suc count)
    → IsRehashed hash (e ∷ old) slots mask count
unfolding rehash occupied place
rehash-place hash e old slots mask count i full p r =
    let adds = set-Adds slots i e p.inside p.free in
    record {
      slots' = r.slots';
      returns = rw (full, p.stops, rehash) r.returns;
      size = r.size ∙ length-set slots i e;
      table =
          let same : suc count + occupied old ≡ count + occupied (e ∷ old) =
            rw full (omega arith) in
          IsTable-count _ _ same r.table;
      unites = λ x real. (
        (λ h. elim ((r.unites x real).0 h) [
          | inl held ↦ inl ((Holds-cons e x old).1 (inr held))
          | inr held ↦ elim ((adds x real).0 held) [
            | inl same ↦ inl ((Holds-cons e x old).1 (inl same))
            | inr held ↦ inr held
          ]
        ]),
        (λ h. elim h [
          | inl held ↦ elim ((Holds-cons e x old).0 held) [
            | inl same ↦ (r.unites x real).1 (inr ((adds x real).1 (inl same)))
            | inr held ↦ (r.unites x real).1 (inl held)
          ]
          | inr held ↦ (r.unites x real).1 (inr ((adds x real).1 (inr held)))
        ]),
      );
    }

rehash-IsRehashed :
    (hash : ℕ → ℕ) (old slots : List Entry) (mask count : ℕ)
    → IsTable hash slots mask count
    → count + occupied old < length slots
    → Fits old slots
    → IsRehashed hash old slots mask count
unfolding rehash occupied place
rehash-IsRehashed hash [] slots mask count t room fits = record {
  slots' = slots;
  returns = refl;
  size = refl;
  table = IsTable-count count (count + 0) (omega arith) t;
  unites =
      λ x full. (inr, (λ h. elim h [ inl old ↦ absurd (Holds-nil x full old) | inr held ↦ held ]));
}
rehash-IsRehashed hash (e ∷ old) slots mask count t room fits =
    elim (Bool-cases (e.key == empty_key)) [
      | inl free ↦
          let same : occupied (e ∷ old) ≡ occupied old = rw free (omega arith) in
          rehash-skip hash e old slots mask count free (
            rehash-IsRehashed hash old slots mask count t (omega (arith, same))
              (Fits-tail e old slots fits))
      | inr full ↦
          let same : occupied (e ∷ old) ≡ suc (occupied old) = rw full (omega arith) in
          let (i, p) = first_empty-IsPlaced hash slots mask count e t (omega (arith, same)) in
          let real = beq_ne _ _ full in
          rehash-place hash e old slots mask count i full p (
            rehash-IsRehashed hash old (set slots i e) mask (suc count)
              (set-IsTable hash slots mask count i e t p.inside p.free real
                (λ j at. fits.fresh 0 j real (sym at)) p.trail)
              (omega (arith, same, length-set slots i e)) (Fits-set e old slots i p.inside fits))
    ]

occupied-replicate : (n : ℕ) → occupied (replicate n empty_entry) ≡ 0
unfolding occupied
occupied-replicate zero = refl
occupied-replicate (suc n) = omega (arith, occupied-replicate n)

key_at-replicate : (n i : ℕ) → key_at (replicate n empty_entry) i ≡ empty_key
key_at-replicate n i = ap (λ e. e.key) (get_or-replicate n i empty_entry)

-- A fresh table of a power of two of slots is empty.
pub replicate-IsTable :
    (hash : ℕ → ℕ) (k n : ℕ) → n ≡ pow2 (suc k) → IsTable hash (replicate n empty_entry) (n - 1) 0
replicate-IsTable hash k n e = record {
  sized = record {
    bits = k;
    cap_lem = length-replicate n empty_entry ∙ e;
    mask_lem = ap (λ m. m - 1) e;
  };
  reach = λ i full. absurd (full (key_at-replicate n i));
  unique = λ i j full same. absurd (full (key_at-replicate n i));
  counted = occupied-replicate n;
}

-- Growing a table doubles it and keeps its entries.
pub grow-IsTable :
    (hash : ℕ → ℕ) (c : ShortPretokenCache)
    → IsTable hash c.slots c.mask c.len
    → c.len < length c.slots * 2
    → (c' : ShortPretokenCache) × (grow hash c ≡ some c')
      × (length c'.slots ≡ length c.slots * 2)
      × (c'.len ≡ c.len)
      × IsTable hash c'.slots c'.mask c'.len
      × ((x : Entry) → x.key ≢ empty_key → Holds c'.slots x ↔ Holds c.slots x)
unfolding grow pow2
grow-IsTable hash c t room =
    let n = length c.slots * 2 in
    let size : n ≡ pow2 (suc (suc t.sized.bits)) = omega (arith, t.sized.cap_lem) in
    let fresh = replicate-IsTable hash (suc t.sized.bits) n size in
    let r =
      rehash-IsRehashed hash c.slots (replicate n empty_entry) (n - 1) 0 fresh
        (rw (length-replicate n empty_entry) (omega (arith, t.counted)))
        (record {
          fresh = λ i j full same. full (same ∙ key_at-replicate n j);
          apart = t.unique;
        }) in
    (
      record { slots = r.slots'; mask = n - 1; len = c.len },
      rw (r.returns, grow),
      r.size ∙ length-replicate n empty_entry,
      refl,
      IsTable-count (0 + occupied c.slots) c.len (omega (arith, t.counted)) r.table,
      λ x full. (
        (λ h. elim ((r.unites x full).0 h) [
          | inl held ↦ held
          | inr (i, at) ↦ absurd (full (ap (λ y. y.key) (sym at) ∙ key_at-replicate n i))
        ]),
        (λ held. (r.unites x full).1 (inl held)),
      ),
    )
