-- ===== src/WordPiece.antt =====
-- src/bpe/wordpiece.rs: the WordPiece (BERT) model, its construction from a vocabulary and the
-- greedy longest-match-first walk over one pretoken. A string is its UTF-8 bytes, a hash map is an
-- association list, and `out` is the output vector.
pub mod Build
pub mod MaxMatch
pub mod Reference
use Prim.Native.Nat.{bit_and}
use supergigatoken.Base.{
  ℕ, zero, suc, ◌+◌, ◌-◌, ◌≤◌, min, max, Bool, true, false, Option, none, some, List, [], ◌∷◌, ◌++◌,
  Bytes, ltb, ◌==◌, if◌then◌else◌, length, take, drop, lookup, insert, bytes_beq, not, bytes_eq,
}

pub record WordPiece : Type 0 where
  pub head : List (Bytes × ℕ)
  pub cont : List (Bytes × ℕ)
  pub unk : ℕ
  pub max_head_len : ℕ
  pub max_cont_len : ℕ
  pub max_input_chars_per_word : ℕ
  pub prefix : Bytes

-- `str::strip_prefix`
unfoldable pub strip_prefix : Bytes → Bytes → Option Bytes
strip_prefix [] s = some s
strip_prefix (c ∷ p) [] = none
strip_prefix (c ∷ p) (d ∷ s) = if c == d then strip_prefix p s else none

-- The local variables of `new`'s loop.
pub record Load : Type 0 where
  pub head : List (Bytes × ℕ)
  pub cont : List (Bytes × ℕ)
  pub unk : Option ℕ
  pub max_head_len : ℕ
  pub max_cont_len : ℕ

abbrev pub empty_load : Load
empty_load = record { head = []; cont = []; unk = none; max_head_len = 0; max_cont_len = 0 }

abbrev pub is_empty : Bytes → Bool
is_empty [] = true
is_empty (c ∷ s) = false

add_stripped : Option Bytes → Bytes → ℕ → Load → Load
add_stripped (some rest) piece id l = record l {
  cont = insert rest id l.cont;
  max_cont_len = max l.max_cont_len (length rest);
}
add_stripped none piece id l = record l {
  head = insert piece id l.head;
  max_head_len = max l.max_head_len (length piece);
}

-- One round of `new`'s loop: the `unk` test, then the `match` on an empty prefix.
unfoldable pub add_piece : Bytes → Bytes → Bytes × ℕ → Load → Load
unfolding add_stripped
add_piece unk_token prefix (piece, id) l =
    let l' = record l { unk = if bytes_beq piece unk_token then some id else l.unk } in
    if is_empty prefix
    then record l' {
      head = insert piece id l.head;
      cont = insert piece id l.cont;
      max_head_len = max l.max_head_len (length piece);
      max_cont_len = max l.max_cont_len (length piece);
    }
    else add_stripped (strip_prefix prefix piece) piece id l'

unfoldable pub add_pieces : Bytes → Bytes → List (Bytes × ℕ) → Load → Load
unfolding add_piece
add_pieces unk_token prefix [] l = l
add_pieces unk_token prefix (p ∷ vocab) l =
    add_pieces unk_token prefix vocab (add_piece unk_token prefix p l)

finish : Bytes → ℕ → Load → Option ℕ → Option WordPiece
finish prefix max_chars l none = none
finish prefix max_chars l (some unk) = some (record {
  head = l.head;
  cont = l.cont;
  unk = unk;
  max_head_len = l.max_head_len;
  max_cont_len = l.max_cont_len;
  max_input_chars_per_word = max_chars;
  prefix = prefix;
})

-- `WordPiece::new`; `none` is the error of a vocabulary that lacks its unk token.
unfoldable pub new : List (Bytes × ℕ) → Bytes → Bytes → ℕ → Option WordPiece
unfolding add_pieces finish
new vocab unk_token prefix max_chars =
    let l = add_pieces unk_token prefix vocab empty_load in finish prefix max_chars l l.unk

-- `(b & 0xC0) != 0x80`: the byte starts a character.
unfoldable pub starts_char : ℕ → Bool
starts_char b = not (bit_and b 0xC0 == 0x80)

unfoldable pub char_len : Bytes → ℕ
unfolding starts_char
char_len [] = 0
char_len (b ∷ s) = (if starts_char b then 1 else 0) + char_len s

-- The inner `loop`, with `n = end - start`: probe `bytes[start..start + n]` and back off by a byte.
-- `rest` is `bytes[start..]`; the result is the token and the matched width.
unfoldable pub backoff : List (Bytes × ℕ) → Bytes → ℕ → Option (ℕ × ℕ)
backoff pieces rest zero = none
backoff pieces rest (suc n) = elim (lookup (take (suc n) rest) pieces) [
  | some id ↦ some (id, suc n)
  | none ↦ backoff pieces rest n
]

-- What the outer loop probes at `start`: the map and the first candidate's width.
unfoldable pub probe : WordPiece → Bytes → ℕ → Option (ℕ × ℕ)
unfolding backoff
probe wp bytes start =
    let rest = drop start bytes in
    if start == 0
    then backoff wp.head rest (min (length bytes - start) wp.max_head_len)
    else backoff wp.cont rest (min (length bytes - start) wp.max_cont_len)

-- The `while start < len` loop on fuel; `none` means that the fuel ran out.
unfoldable pub walk : WordPiece → Bytes → ℕ → ℕ → ℕ → List ℕ → Option (List ℕ × ℕ)
unfolding probe
walk wp bytes mark zero start out = none
walk wp bytes mark (suc fuel) start out = elim (ltb start (length bytes)) [
  | false ↦ some (out, length out - mark)
  | true ↦ elim (probe wp bytes start) [
    | some (id, n) ↦ walk wp bytes mark fuel (start + n) (out ++ id ∷ [])
    | none ↦ some (take mark out ++ wp.unk ∷ [], 1)
  ]
]

-- `WordPiece::encode_unit`: the new output vector and the number of appended tokens.
unfoldable pub encode_unit : WordPiece → Bytes → List ℕ → Option (List ℕ × ℕ)
unfolding char_len walk
encode_unit wp [] out = some (out, 0)
encode_unit wp (b ∷ s) out =
    if ltb wp.max_input_chars_per_word (char_len (b ∷ s))
    then some (out ++ wp.unk ∷ [], 1)
    else walk wp (b ∷ s) (length out) (suc (length (b ∷ s))) 0 out
