-- ===== src/WordPiece/Build.antt =====
-- What `WordPiece::new` of src/bpe/wordpiece.rs builds: its two maps in terms of the vocabulary, its
-- unk token, and the two length caps.
use supergigatoken.Base.{
  ℕ, zero, suc, ◌≤◌, max, ◌≡◌, ◌≢◌, refl, ◌⊎◌, inl, inr, false, Option, none, some, List, [], ◌∷◌,
  ◌++◌, ltb, ◌∙◌, Bytes, if◌then◌else◌, length, lookup, insert, lookup-insert, bytes_beq,
  bytes_beq_iff, bytes_eq, arith, Bool-cases, Option-cases, ==_refl, take, ap,
}
use supergigatoken.WordPiece.{
  WordPiece, Load, empty_load, strip_prefix, add_stripped, add_piece, add_pieces, finish, new,
}
use supergigatoken.WordPiece.MaxMatch.{IsCapped}

-- The token of a text in a vocabulary with repetitions: the last one, as a loader that overwrites
-- finds it; `acc` where the vocabulary lacks the text.
abbrev pub last_id_from : Option ℕ → Bytes → List (Bytes × ℕ) → Option ℕ
last_id_from acc k [] = acc
last_id_from acc k ((piece, id) ∷ vocab) =
    last_id_from (if bytes_beq piece k then some id else acc) k vocab

abbrev pub last_id : Bytes → List (Bytes × ℕ) → Option ℕ
last_id = last_id_from none

pub strip_prefix-append : (p k : Bytes) → strip_prefix p (p ++ k) ≡ some k
unfolding strip_prefix
strip_prefix-append [] k = refl
strip_prefix-append (c ∷ p) k = rw ==_refl (strip_prefix-append p k)

pub append-strip_prefix : (p s k : Bytes) → strip_prefix p s ≡ some k → s ≡ p ++ k
unfolding strip_prefix
append-strip_prefix [] s k h = ground arith
append-strip_prefix (c ∷ p) [] k h = cc
append-strip_prefix (c ∷ p) (d ∷ s) k h = ground (arith, append-strip_prefix p s k)

-- A prefix that the whole text lacks is lacking from every beginning of the text.
pub strip_prefix-take :
    (p s : Bytes) (n : ℕ) → strip_prefix p s ≡ none → strip_prefix p (take n s) ≡ none
unfolding strip_prefix
strip_prefix-take [] s n h = cc
strip_prefix-take (c ∷ p) [] zero h = refl
strip_prefix-take (c ∷ p) [] (suc n) h = refl
strip_prefix-take (c ∷ p) (d ∷ s) zero h = refl
strip_prefix-take (c ∷ p) (d ∷ s) (suc n) h = ground (arith, strip_prefix-take p s n)

beq-append_left : (p a b : Bytes) → bytes_beq (p ++ a) (p ++ b) ≡ bytes_beq a b
beq-append_left [] a b = refl
beq-append_left (c ∷ p) a b = rw ==_refl (beq-append_left p a b)

beq_false : (a b : Bytes) → a ≢ b → bytes_beq a b ≡ false
beq_false a b h = ground (arith, bytes_beq_iff a b)

-- A continuation piece is stored under the text behind its prefix.
add_piece-cont :
    (unk_token prefix piece : Bytes) (id : ℕ) (l : Load) (k : Bytes)
    → lookup k (add_piece unk_token prefix (piece, id) l).cont
      ≡ (if bytes_beq piece (prefix ++ k) then some id else lookup k l.cont)
unfolding add_piece add_stripped
add_piece-cont unk_token [] piece id l k = rw lookup-insert
add_piece-cont unk_token (c ∷ p) piece id l k = elim (Option-cases (strip_prefix (c ∷ p) piece)) [
  | inr (rest, e) ↦
      rw (e, append-strip_prefix (c ∷ p) piece rest e, lookup-insert)
        (rw (beq-append_left (c ∷ p) rest k))
  | inl e ↦ rw (e, beq_false piece (c ∷ (p ++ k)) (λ q. cc (strip_prefix-append (c ∷ p) k)))
]

-- A piece without the prefix is stored as it is.
add_piece-head :
    (unk_token prefix piece : Bytes) (id : ℕ) (l : Load) (k : Bytes)
    → (prefix ≡ []) ⊎ (strip_prefix prefix k ≡ none)
    → lookup k (add_piece unk_token prefix (piece, id) l).head
      ≡ (if bytes_beq piece k then some id else lookup k l.head)
unfolding add_piece add_stripped
add_piece-head unk_token [] piece id l k h = rw lookup-insert
add_piece-head unk_token (c ∷ p) piece id l k (inl h) = absurd (cc)
add_piece-head unk_token (c ∷ p) piece id l k (inr h) =
    elim (Option-cases (strip_prefix (c ∷ p) piece)) [
      | inr (rest, e) ↦ rw (e, beq_false piece k (λ q. cc))
      | inl e ↦ rw (e, lookup-insert)
    ]

-- A text with a nonempty prefix is never stored as it is.
add_piece-head_prefixed :
    (unk_token prefix piece : Bytes) (id : ℕ) (l : Load) (k rest : Bytes)
    → prefix ≢ []
    → strip_prefix prefix k ≡ some rest
    → lookup k (add_piece unk_token prefix (piece, id) l).head ≡ lookup k l.head
unfolding add_piece add_stripped
add_piece-head_prefixed unk_token [] piece id l k rest h e = absurd (h refl)
add_piece-head_prefixed unk_token (c ∷ p) piece id l k rest h e =
    elim (Option-cases (strip_prefix (c ∷ p) piece)) [
      | inr (r, e') ↦ rw e' refl
      | inl e' ↦ rw (e', lookup-insert) (rw (beq_false piece k (λ q. cc)) refl)
    ]

add_piece-unk :
    (unk_token prefix piece : Bytes) (id : ℕ) (l : Load)
    → (add_piece unk_token prefix (piece, id) l).unk
      ≡ (if bytes_beq piece unk_token then some id else l.unk)
unfolding add_piece add_stripped
add_piece-unk unk_token prefix piece id l = ground arith

-- The keys of a map are at most `cap` long.
abbrev pub KeysWithin : List (Bytes × ℕ) → ℕ → Type 0
KeysWithin m cap = (k : Bytes) (id : ℕ) → lookup k m ≡ some id → length k ≤ cap

KeysWithin-insert :
    (m : List (Bytes × ℕ)) (cap : ℕ) (piece : Bytes) (id : ℕ)
    → KeysWithin m cap
    → KeysWithin (insert piece id m) (max cap (length piece))
KeysWithin-insert m cap piece id h k i e = elim (Bool-cases (bytes_beq piece k)) [
  | inl same ↦ omega (arith, ap length ((bytes_beq_iff piece k).0 same))
  | inr other ↦
      let old : lookup k m ≡ some i = rw (lookup-insert, other) at e in omega (arith, h k i old)
]

-- The cap is 0 or the length of a key.
abbrev pub IsAttained : List (Bytes × ℕ) → ℕ → Type 0
IsAttained m cap = (cap ≡ 0) ⊎ ((k : Bytes) × (id : ℕ) × (lookup k m ≡ some id) × (length k ≡ cap))

IsAttained-insert :
    (m : List (Bytes × ℕ)) (cap : ℕ) (piece : Bytes) (id : ℕ)
    → IsAttained m cap
    → IsAttained (insert piece id m) (max cap (length piece))
IsAttained-insert m cap piece id h = elim (Bool-cases (ltb (length piece) cap)) [
  | inr e ↦
      inr (piece, id, rw (lookup-insert, (bytes_beq_iff piece piece).1 refl) refl, ground arith)
  | inl e ↦ elim h [
    | inl zero_cap ↦ absurd (ground arith)
    | inr (k, i, found, long) ↦
        let apart : bytes_beq piece k ≡ false =
          beq_false piece k (λ q. absurd (ground (arith, e, long, ap length q))) in
        inr (k, i, rw (lookup-insert, apart) found, ground arith)
  ]
]

pub record LoadWithin (l : Load) : Type 0 where
  pub head_within : KeysWithin l.head l.max_head_len
  pub cont_within : KeysWithin l.cont l.max_cont_len
  pub head_attained : IsAttained l.head l.max_head_len
  pub cont_attained : IsAttained l.cont l.max_cont_len

add_stripped-Within :
    (o : Option Bytes) (piece : Bytes) (id : ℕ) (l : Load)
    → LoadWithin l
    → LoadWithin (add_stripped o piece id l)
unfolding add_stripped
add_stripped-Within none piece id l h = record {
  head_within = KeysWithin-insert l.head l.max_head_len piece id h.head_within;
  cont_within = h.cont_within;
  head_attained = IsAttained-insert l.head l.max_head_len piece id h.head_attained;
  cont_attained = h.cont_attained;
}
add_stripped-Within (some rest) piece id l h = record {
  head_within = h.head_within;
  cont_within = KeysWithin-insert l.cont l.max_cont_len rest id h.cont_within;
  head_attained = h.head_attained;
  cont_attained = IsAttained-insert l.cont l.max_cont_len rest id h.cont_attained;
}

add_piece-Within :
    (unk_token prefix piece : Bytes) (id : ℕ) (l : Load)
    → LoadWithin l
    → LoadWithin (add_piece unk_token prefix (piece, id) l)
unfolding add_piece
add_piece-Within unk_token [] piece id l h = record {
  head_within = KeysWithin-insert l.head l.max_head_len piece id h.head_within;
  cont_within = KeysWithin-insert l.cont l.max_cont_len piece id h.cont_within;
  head_attained = IsAttained-insert l.head l.max_head_len piece id h.head_attained;
  cont_attained = IsAttained-insert l.cont l.max_cont_len piece id h.cont_attained;
}
add_piece-Within unk_token (c ∷ p) piece id l h =
    add_stripped-Within (strip_prefix (c ∷ p) piece) piece id _ (record {
      head_within = h.head_within;
      cont_within = h.cont_within;
      head_attained = h.head_attained;
      cont_attained = h.cont_attained;
    })

module _ (unk_token prefix : Bytes) where
  pieces_cont :
      (vocab : List (Bytes × ℕ)) (l : Load) (k : Bytes)
      → lookup k (add_pieces unk_token prefix vocab l).cont
        ≡ last_id_from (lookup k l.cont) (prefix ++ k) vocab
  unfolding add_pieces
  pieces_cont [] l k = refl
  pieces_cont ((piece, id) ∷ vocab) l k =
      rw (pieces_cont vocab (add_piece unk_token prefix (piece, id) l) k, add_piece-cont)

  pieces_head :
      (vocab : List (Bytes × ℕ)) (l : Load) (k : Bytes)
      → (prefix ≡ []) ⊎ (strip_prefix prefix k ≡ none)
      → lookup k (add_pieces unk_token prefix vocab l).head ≡ last_id_from (lookup k l.head) k vocab
  unfolding add_pieces
  pieces_head [] l k h = refl
  pieces_head ((piece, id) ∷ vocab) l k h = rw (
    pieces_head vocab (add_piece unk_token prefix (piece, id) l) k h,
    add_piece-head unk_token prefix piece id l k h,
  )

  pieces_head_prefixed :
      (vocab : List (Bytes × ℕ)) (l : Load) (k rest : Bytes)
      → prefix ≢ []
      → strip_prefix prefix k ≡ some rest
      → lookup k (add_pieces unk_token prefix vocab l).head ≡ lookup k l.head
  unfolding add_pieces
  pieces_head_prefixed [] l k rest h e = refl
  pieces_head_prefixed ((piece, id) ∷ vocab) l k rest h e =
      pieces_head_prefixed vocab (add_piece unk_token prefix (piece, id) l) k rest h e
      ∙ add_piece-head_prefixed unk_token prefix piece id l k rest h e

  pieces_unk :
      (vocab : List (Bytes × ℕ)) (l : Load)
      → (add_pieces unk_token prefix vocab l).unk ≡ last_id_from l.unk unk_token vocab
  unfolding add_pieces
  pieces_unk [] l = refl
  pieces_unk ((piece, id) ∷ vocab) l =
      rw (pieces_unk vocab (add_piece unk_token prefix (piece, id) l), add_piece-unk)

  pieces_Within :
      (vocab : List (Bytes × ℕ)) (l : Load)
      → LoadWithin l
      → LoadWithin (add_pieces unk_token prefix vocab l)
  unfolding add_pieces
  pieces_Within [] l h = h
  pieces_Within ((piece, id) ∷ vocab) l h =
      pieces_Within vocab _ (add_piece-Within unk_token prefix piece id l h)

empty_load-Within : LoadWithin empty_load
unfolding lookup
empty_load-Within = record {
  head_within = λ k id h. cc;
  cont_within = λ k id h. cc;
  head_attained = inl refl;
  cont_attained = inl refl;
}

-- What a successful load returns, in terms of the vocabulary and the arguments.
pub record IsLoaded (vocab : List (Bytes × ℕ)) (unk_token prefix : Bytes) (max_chars : ℕ)
    (wp : WordPiece) : Type 0 where
  pub cont_lem : (k : Bytes) → lookup k wp.cont ≡ last_id (prefix ++ k) vocab
  pub head_lem :
      (k : Bytes)
      → (prefix ≡ []) ⊎ (strip_prefix prefix k ≡ none)
      → lookup k wp.head ≡ last_id k vocab
  pub prefixed_lem :
      (k rest : Bytes) → prefix ≢ [] → strip_prefix prefix k ≡ some rest → lookup k wp.head ≡ none
  pub unk_lem : last_id unk_token vocab ≡ some wp.unk
  pub max_chars_lem : wp.max_input_chars_per_word ≡ max_chars
  pub prefix_lem : wp.prefix ≡ prefix
  pub capped : IsCapped wp
  pub head_attained : IsAttained wp.head wp.max_head_len
  pub cont_attained : IsAttained wp.cont wp.max_cont_len

-- If the vocabulary holds the unk token, `new` returns a model of the arguments: a text has in `cont`
-- the id of the prefix and the text in the vocabulary; in `head` it has its own id, and none if it
-- begins with a nonempty prefix; each length cap is the length of the longest key of its map, 0 in an
-- empty map; the unk id, the limit of characters and the prefix are those given.
pub new-IsLoaded :
    (vocab : List (Bytes × ℕ)) (unk_token prefix : Bytes) (max_chars unk : ℕ)
    → last_id unk_token vocab ≡ some unk
    → (wp : WordPiece) × (new vocab unk_token prefix max_chars ≡ some wp)
      × IsLoaded vocab unk_token prefix max_chars wp
unfolding new finish lookup
new-IsLoaded vocab unk_token prefix max_chars unk h =
    let l = add_pieces unk_token prefix vocab empty_load in
    let within : LoadWithin l = pieces_Within unk_token prefix vocab empty_load empty_load-Within in
    (
      record {
        head = l.head;
        cont = l.cont;
        unk = unk;
        max_head_len = l.max_head_len;
        max_cont_len = l.max_cont_len;
        max_input_chars_per_word = max_chars;
        prefix = prefix;
      },
      rw (pieces_unk unk_token prefix vocab empty_load, h),
      record {
        cont_lem = pieces_cont unk_token prefix vocab empty_load;
        head_lem = pieces_head unk_token prefix vocab empty_load;
        prefixed_lem = pieces_head_prefixed unk_token prefix vocab empty_load;
        unk_lem = h;
        max_chars_lem = refl;
        prefix_lem = refl;
        capped = record { head_cap = within.head_within; cont_cap = within.cont_within };
        head_attained = within.head_attained;
        cont_attained = within.cont_attained;
      },
    )

pub new-eq-none :
    (vocab : List (Bytes × ℕ)) (unk_token prefix : Bytes) (max_chars : ℕ)
    → last_id unk_token vocab ≡ none
    → new vocab unk_token prefix max_chars ≡ none
unfolding new finish
new-eq-none vocab unk_token prefix max_chars h =
    rw (pieces_unk unk_token prefix vocab empty_load, h)
