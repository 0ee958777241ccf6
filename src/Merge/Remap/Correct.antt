-- ===== src/Merge/Remap/Correct.antt =====
-- ByteRemapping::from_byte_vocab of src/bpe/mod.rs, against the first one-byte entry of a byte.
use supergigatoken.Base.{
  ℕ, zero, suc, ◌+◌, ◌^◌, ◌%◌, ◌≤◌, ◌<◌, ◌≡◌, ◌≢◌, ◌⊎◌, inl, inr, refl, sym, ap, ◌∙◌, Bool, true,
  false, ◌&&◌, not, Option, some, none, List, [], ◌∷◌, Bytes, length, ◌==◌, ==_iff, if◌then◌else◌,
  Bool-cases, arith,
}
use supergigatoken.Merge.Links.{Array}
use supergigatoken.Merge.Remap.{
  unset, Remapped, missing_byte, ok, is_valid_utf8_byte, enter, scan_vocab, position, any,
  fill_gaps, remapping_of, filled, from_byte_vocab,
}

-- The id of the first entry that is the byte alone, the ids counted from `id`.
unfoldable pub byte_id : List Bytes → ℕ → ℕ → Option ℕ
byte_id [] id b = none
byte_id ((c ∷ []) ∷ vocab) id b = if c == b then some id else byte_id vocab (id + 1) b
byte_id ([] ∷ vocab) id b = byte_id vocab (id + 1) b
byte_id ((c ∷ d ∷ s) ∷ vocab) id b = byte_id vocab (id + 1) b

abbrev pub or_else : ℕ → Option ℕ → ℕ
or_else d none = d
or_else d (some id) = id

byte_id-cases :
    (vocab : List Bytes) (id b : ℕ)
    → id + length vocab ≤ unset
    → (byte_id vocab id b ≡ none) ⊎ ((i : ℕ) × (byte_id vocab id b ≡ some i) × (i < unset))
unfolding byte_id
byte_id-cases [] id b fits = inl refl
byte_id-cases ([] ∷ vocab) id b fits = byte_id-cases vocab (id + 1) b (omega arith)
byte_id-cases ((c ∷ d ∷ s) ∷ vocab) id b fits = byte_id-cases vocab (id + 1) b (omega arith)
byte_id-cases ((c ∷ []) ∷ vocab) id b fits = elim (Bool-cases (c == b)) [
  | inl e ↦ inr (id, (rw e refl), omega arith)
  | inr e ↦ rw e (byte_id-cases vocab (id + 1) b (omega arith))
]

enter_single :
    (id c : ℕ) (mapping : Array) (b : ℕ)
    → id < unset
    → enter id (c ∷ []) mapping b ≡ (if mapping b == unset && c == b then id else mapping b)
unfolding enter
enter_single id c mapping b small = let same : id % 2 ^ 32 ≡ id = omega arith in grind (arith, same)

scan_vocab-byte_id :
    (vocab : List Bytes) (id : ℕ) (mapping : Array) (b : ℕ)
    → id + length vocab ≤ unset
    → scan_vocab vocab id mapping b
      ≡ (if mapping b == unset then or_else unset (byte_id vocab id b) else mapping b)
unfolding scan_vocab enter byte_id
scan_vocab-byte_id [] id mapping b fits = ground arith
scan_vocab-byte_id ([] ∷ vocab) id mapping b fits =
    scan_vocab-byte_id vocab (id + 1) mapping b (omega arith)
scan_vocab-byte_id ((c ∷ d ∷ s) ∷ vocab) id mapping b fits =
    scan_vocab-byte_id vocab (id + 1) mapping b (omega arith)
scan_vocab-byte_id ((c ∷ []) ∷ vocab) id mapping b fits =
    scan_vocab-byte_id vocab (id + 1) (enter id (c ∷ []) mapping) b (omega arith)
    ∙ rw (enter_single id c mapping b (omega arith)) (ground arith)

-- `test` fails from `b` up to `k`.
abbrev pub NoneIn : (ℕ → Bool) → ℕ → ℕ → Type 0
NoneIn test b k = (c : ℕ) → b ≤ c → c < k → test c ≡ false

NoneIn-step : (test : ℕ → Bool) (b k : ℕ) → test b ≡ false → NoneIn test (b + 1) k → NoneIn test b k
NoneIn-step test b k here rest c le lt = elim (Bool-cases (b == c)) [
  | inl e ↦ ap test (sym ((==_iff b c).0 e)) ∙ here
  | inr e ↦ rest c (ground (arith, le, e)) lt
]

position-cases :
    (test : ℕ → Bool) (b n : ℕ)
    → ((position test b n ≡ none) × NoneIn test b (b + n))
      ⊎ ((k : ℕ) × (position test b n ≡ some k) × (test k ≡ true) × (k < b + n) × NoneIn test b k)
unfolding position
position-cases test b zero = inl (refl, λ c le lt. absurd (omega arith))
position-cases test b (suc n) = elim (Bool-cases (test b)) [
  | inl e ↦ inr (b, rw e refl, e, omega arith, λ c le lt. absurd (omega arith))
  | inr e ↦ elim (position-cases test (b + 1) n) [
    | inl (out, free) ↦
        inl (rw e out, NoneIn-step test b (b + suc n) e (λ c le lt. free c le (omega arith)))
    | inr (k, out, hit, lt, free) ↦ inr (k, rw e out, hit, omega arith, NoneIn-step test b k e free)
  ]
]

any-cases :
    (test : ℕ → Bool) (b n : ℕ)
    → ((any test b n ≡ false) × NoneIn test b (b + n))
      ⊎ ((any test b n ≡ true) × (k : ℕ) × (test k ≡ true) × (k < b + n))
unfolding any
any-cases test b zero = inl (refl, λ c le lt. absurd (omega arith))
any-cases test b (suc n) = elim (Bool-cases (test b)) [
  | inl e ↦ inr (rw e refl, b, e, omega arith)
  | inr e ↦ elim (any-cases test (b + 1) n) [
    | inl (out, free) ↦
        inl (rw e out, NoneIn-step test b (b + suc n) e (λ c le lt. free c le (omega arith)))
    | inr (out, k, hit, lt) ↦ inr (rw e out, k, hit, omega arith)
  ]
]

-- The bytes of UTF-8 below `k` have entries of their own.
abbrev pub Covered : List Bytes → ℕ → Type 0
Covered vocab k =
    (c : ℕ) → c < k → is_valid_utf8_byte c ≡ true → (id : ℕ) × (byte_id vocab 0 c ≡ some id)

-- The token of a byte: that of its first entry, 0 if it has none.
abbrev pub token_of : List Bytes → ℕ → ℕ
token_of vocab b = or_else 0 (byte_id vocab 0 b)

pub data IsRemapping (vocab : List Bytes) : Remapped → Type 0 where
  lacks :
      (b : ℕ)
      → b < 256
      → is_valid_utf8_byte b ≡ true
      → byte_id vocab 0 b ≡ none
      → Covered vocab b
      → IsRemapping vocab (missing_byte b)
  identity :
      Covered vocab 256 → ((b : ℕ) → b < 256 → token_of vocab b ≡ b) → IsRemapping vocab (ok none)
  moved :
      (m : Array) (b : ℕ)
      → Covered vocab 256
      → ((c : ℕ) → c < 256 → m c ≡ token_of vocab c)
      → b < 256
      → token_of vocab b ≢ b
      → IsRemapping vocab (ok (some (record { mapping = m })))

module _ (vocab : List Bytes) (fits : 0 + length vocab ≤ unset) where
  unset-none :
      (b : ℕ)
      → (((scan_vocab vocab 0 (λ c. unset) b == unset) ≡ true) × (byte_id vocab 0 b ≡ none))
        ⊎ (((scan_vocab vocab 0 (λ c. unset) b == unset) ≡ false)
            × (id : ℕ) × (byte_id vocab 0 b ≡ some id)
            × (scan_vocab vocab 0 (λ c. unset) b ≡ id))
  unset-none b = elim (byte_id-cases vocab 0 b fits) [
    | inl e ↦ inl (rw (scan_vocab-byte_id vocab 0 (λ c. unset) b fits, e) refl, e)
    | inr (id, e, lt) ↦
        let at : scan_vocab vocab 0 (λ c. unset) b ≡ id =
          rw (scan_vocab-byte_id vocab 0 (λ c. unset) b fits, e) refl in
        inr (rw at (ground (arith, lt)), id, e, at)
  ]

  fill_gaps-token_of : (b : ℕ) → fill_gaps (scan_vocab vocab 0 (λ c. unset)) b ≡ token_of vocab b
  unfolding fill_gaps
  fill_gaps-token_of b = elim (unset-none b) [
    | inl (e, out) ↦ rw (e, out) refl
    | inr (e, id, out, at) ↦ rw (e, out) at
  ]

  NoneIn-Covered :
      (k : ℕ)
      → NoneIn (λ b. scan_vocab vocab 0 (λ c. unset) b == unset && is_valid_utf8_byte b) 0 k
      → Covered vocab k
  NoneIn-Covered k free c lt valid = elim (unset-none c) [
    | inl (e, out) ↦ ground (arith, free c (omega arith) lt, e, valid)
    | inr (e, id, out, at) ↦ (id, out)
  ]

-- If the vocabulary has fewer than 2^32 entries, `from_byte_vocab` reports the first byte of UTF-8
-- that is no entry by itself; if there is none, it answers with no table where the token of every byte
-- is the byte, and else with the table of the tokens of all bytes: the first one-byte entry of a byte, 0
-- for a byte that has none and is not in UTF-8.
pub from_byte_vocab-IsRemapping :
    (vocab : List Bytes) → length vocab ≤ unset → IsRemapping vocab (from_byte_vocab vocab)
unfolding from_byte_vocab filled remapping_of
from_byte_vocab-IsRemapping vocab small =
    let fits : 0 + length vocab ≤ unset = omega arith in
    let mapping : Array = scan_vocab vocab 0 (λ c. unset) in
    elim (position-cases (λ b. mapping b == unset && is_valid_utf8_byte b) 0 256) [
      | inr (b, out, hit, lt, free) ↦ elim (unset-none vocab fits b) [
        | inl (e, lost) ↦
            rw out (lacks b lt (ground (arith, hit, e)) lost (NoneIn-Covered vocab fits b free))
        | inr (e, id, found, at) ↦ absurd (ground (arith, hit, e))
      ]
      | inl (out, free) ↦
          let covered : Covered vocab 256 = NoneIn-Covered vocab fits 256 free in
          elim (any-cases (λ b. not (fill_gaps mapping b == b)) 0 256) [
            | inl (none_moved, same) ↦
                rw (out, none_moved)
                  (identity covered (λ b lt.
                    sym (fill_gaps-token_of vocab fits b)
                    ∙ ground (arith, same b (omega arith) lt)))
            | inr (some_moved, b, hit, lt) ↦
                rw (out, some_moved)
                  (moved (fill_gaps mapping) b covered (λ c _. fill_gaps-token_of vocab fits c) lt
                    (λ h. absurd (ground (arith, hit, fill_gaps-token_of vocab fits b ∙ h))))
          ]
    ]
