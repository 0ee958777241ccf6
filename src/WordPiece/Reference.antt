-- ===== src/WordPiece/Reference.antt =====
-- The reference algorithm that src/bpe/wordpiece.rs describes (HuggingFace's `WordPiece`): candidates
-- are looked up in the one vocabulary, with the continuation prefix put back in front of every
-- candidate but the word's first, starting at the word's end, and any failure makes the whole word
-- the unk token. The theorems compare the model that `new` builds with it.
use supergigatoken.Base.{
  ℕ, zero, suc, ◌+◌, ◌-◌, ◌≤◌, ◌<◌, ◌≡◌, ◌≢◌, refl, ◌⊎◌, inl, inr, false, Option, none, some, List,
  [], ◌∷◌, ◌++◌, Bytes, ltb, ◌==◌, if◌then◌else◌, length, take, drop, arith, Bool-cases,
  length-append, bytes_eq, append-nil, take_all, ltb→lt, ltb→le,
}
use mathlib.Core.List.{cons-ne-nil}
use supergigatoken.WordPiece.{WordPiece, strip_prefix, char_len, walk, encode_unit, new}
use supergigatoken.WordPiece.MaxMatch.{
  Pieces, pieces_of, Segments, Fails, Outcome, segmented, failed, walk-Outcome, Segments-unique,
  Segments-Fails, Segments-congr, Fails-congr,
}
use supergigatoken.WordPiece.Build.{last_id, strip_prefix-take, IsLoaded, new-IsLoaded}

-- The candidate `k` at `start`, as the reference looks it up.
abbrev pub reference_pieces : List (Bytes × ℕ) → Bytes → Pieces
reference_pieces vocab prefix start k =
    if start == 0 then last_id k vocab else last_id (prefix ++ k) vocab

-- The tokens of a word by the reference.
pub data Encodes (vocab : List (Bytes × ℕ)) (prefix : Bytes) (max_chars unk : ℕ) (word : Bytes)
    : List ℕ → Type 0 where
  empty_word : word ≡ [] → Encodes vocab prefix max_chars unk word []
  too_long :
      word ≢ [] → max_chars < char_len word → Encodes vocab prefix max_chars unk word (unk ∷ [])
  pieces :
      {ids : List ℕ}
      → word ≢ []
      → char_len word ≤ max_chars
      → Segments (reference_pieces vocab prefix) word 0 ids
      → Encodes vocab prefix max_chars unk word ids
  unknown :
      word ≢ []
      → char_len word ≤ max_chars
      → Fails (reference_pieces vocab prefix) word 0
      → Encodes vocab prefix max_chars unk word (unk ∷ [])

-- The reference leaves no choice: a word has one encoding.
pub Encodes-unique :
    (vocab : List (Bytes × ℕ)) (prefix : Bytes) (max_chars unk : ℕ) (word : Bytes) (xs ys : List ℕ)
    → Encodes vocab prefix max_chars unk word xs
    → Encodes vocab prefix max_chars unk word ys
    → xs ≡ ys
Encodes-unique vocab prefix mc unk word xs ys (empty_word e) (empty_word f) = refl
Encodes-unique vocab prefix mc unk word xs ys (empty_word e) (too_long f g) = absurd (f e)
Encodes-unique vocab prefix mc unk word xs ys (empty_word e) (pieces f g s) = absurd (f e)
Encodes-unique vocab prefix mc unk word xs ys (empty_word e) (unknown f g s) = absurd (f e)
Encodes-unique vocab prefix mc unk word xs ys (too_long f g) (empty_word e) = absurd (f e)
Encodes-unique vocab prefix mc unk word xs ys (too_long f g) (too_long f' g') = refl
Encodes-unique vocab prefix mc unk word xs ys (too_long f g) (pieces f' g' s) = absurd (omega arith)
Encodes-unique vocab prefix mc unk word xs ys (too_long f g) (unknown f' g' s) = refl
Encodes-unique vocab prefix mc unk word xs ys (pieces f g s) (empty_word e) = absurd (f e)
Encodes-unique vocab prefix mc unk word xs ys (pieces f g s) (too_long f' g') = absurd (omega arith)
Encodes-unique vocab prefix mc unk word xs ys (pieces f g s) (pieces f' g' s') =
    Segments-unique (reference_pieces vocab prefix) word 0 xs ys s s'
Encodes-unique vocab prefix mc unk word xs ys (pieces f g s) (unknown f' g' s') =
    absurd (Segments-Fails (reference_pieces vocab prefix) word 0 xs s s')
Encodes-unique vocab prefix mc unk word xs ys (unknown f g s) (empty_word e) = absurd (f e)
Encodes-unique vocab prefix mc unk word xs ys (unknown f g s) (too_long f' g') = refl
Encodes-unique vocab prefix mc unk word xs ys (unknown f g s) (pieces f' g' s') =
    absurd (Segments-Fails (reference_pieces vocab prefix) word 0 ys s' s)
Encodes-unique vocab prefix mc unk word xs ys (unknown f g s) (unknown f' g' s') = refl

add-sub_self : (a b : ℕ) → a + b - a ≡ b
add-sub_self a b = omega arith

module _ (vocab : List (Bytes × ℕ)) (unk_token prefix : Bytes) (max_chars : ℕ) (wp : WordPiece)
    (loaded : IsLoaded vocab unk_token prefix max_chars wp) (word : Bytes)
    (plain : (prefix ≡ []) ⊎ (strip_prefix prefix word ≡ none)) where
  plain-take : (k : ℕ) → (prefix ≡ []) ⊎ (strip_prefix prefix (take k word) ≡ none)
  plain-take k = elim plain [ inl e ↦ inl e | inr e ↦ inr (strip_prefix-take prefix word k e) ]

  pieces_agree :
      (start k : ℕ)
      → pieces_of wp start (take k (drop start word))
        ≡ reference_pieces vocab prefix start (take k (drop start word))
  pieces_agree zero k = loaded.head_lem (take k word) (plain-take k)
  pieces_agree (suc start) k =
      let later : suc start == 0 ≡ false = ground arith in
      rw later (loaded.cont_lem (take k (drop (suc start) word)))

  outcome-Encodes :
      (out : List ℕ) (r : Option (List ℕ × ℕ))
      → word ≢ []
      → char_len word ≤ max_chars
      → Outcome wp loaded.capped word (length out) 0 out r
      → (ids : List ℕ) × Encodes vocab prefix max_chars wp.unk word ids
        × (r ≡ some (out ++ ids, length ids))
  outcome-Encodes out r filled short (segmented ids s e) = (
    ids,
    pieces filled short
        (Segments-congr (pieces_of wp) (reference_pieces vocab prefix) word pieces_agree 0 ids s),
    rw (length-append, add-sub_self) at e,
  )
  outcome-Encodes out r filled short (failed f e) = (
    wp.unk ∷ [],
    unknown filled short
        (Fails-congr (pieces_of wp) (reference_pieces vocab prefix) word pieces_agree 0 f),
    rw (take_all (length out) out (omega arith)) at e,
  )

module _ (vocab : List (Bytes × ℕ)) (unk_token prefix : Bytes) (max_chars : ℕ) (wp : WordPiece)
    (loaded : IsLoaded vocab unk_token prefix max_chars wp) where
  loaded-Encodes :
      (word : Bytes) (out : List ℕ)
      → (prefix ≡ []) ⊎ (strip_prefix prefix word ≡ none)
      → (ids : List ℕ) × Encodes vocab prefix max_chars wp.unk word ids
        × (encode_unit wp word out ≡ some (out ++ ids, length ids))
  unfolding encode_unit
  loaded-Encodes [] out plain = ([], empty_word refl, rw append-nil)
  loaded-Encodes (b ∷ s) out plain =
      elim (Bool-cases (ltb wp.max_input_chars_per_word (char_len (b ∷ s)))) [
        | inl long ↦ (
          wp.unk ∷ [],
          too_long (cons-ne-nil b s) (omega (arith, loaded.max_chars_lem, ltb→lt _ _ long)),
          rw long,
        )
        | inr short ↦
            let (ids, e, r) =
              outcome-Encodes vocab unk_token prefix max_chars wp loaded (b ∷ s) plain out
                (walk wp (b ∷ s) (length out) (suc (length (b ∷ s))) 0 out) (cons-ne-nil b s)
                (omega (arith, loaded.max_chars_lem, ltb→le _ _ short))
                (walk-Outcome wp loaded.capped (b ∷ s) (length out) (suc (length (b ∷ s))) 0 out
                  (omega arith) (omega arith) (omega arith)) in
            (ids, e, rw short r)
      ]

-- For every vocabulary that holds its unk token, `new` builds a model, and for every word that does
-- not begin with a nonempty continuation prefix `encode_unit` on that model ends, appends the
-- reference's tokens for the word to the output vector and returns how many they are.
pub encode_unit-Encodes :
    (vocab : List (Bytes × ℕ)) (unk_token prefix : Bytes) (max_chars unk : ℕ) (word : Bytes)
    (out : List ℕ)
    → last_id unk_token vocab ≡ some unk
    → (prefix ≡ []) ⊎ (strip_prefix prefix word ≡ none)
    → (wp : WordPiece) × (ids : List ℕ) × (new vocab unk_token prefix max_chars ≡ some wp)
      × Encodes vocab prefix max_chars unk word ids
      × (encode_unit wp word out ≡ some (out ++ ids, length ids))
encode_unit-Encodes vocab unk_token prefix max_chars unk word out h plain =
    let (wp, built, loaded) = new-IsLoaded vocab unk_token prefix max_chars unk h in
    let (ids, e, r) = loaded-Encodes vocab unk_token prefix max_chars wp loaded word out plain in
    let same : wp.unk ≡ unk = cc (h, loaded.unk_lem) in (wp, ids, built, rw same at e, r)
