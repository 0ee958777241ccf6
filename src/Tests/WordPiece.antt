-- ===== src/Tests/WordPiece.antt =====
-- src/bpe/wordpiece.rs at the vocabulary of its tests: `[UNK]`, `ab`, `##cd`.
use Prim.Native.String.{String}
use Prim.Native.Char.{code}
use supergigatoken.Base.{
  ℕ, ◌≡◌, refl, inr, Option, some, none, List, [], ◌∷◌, ◌++◌, Bytes, length, lookup, insert,
}
use supergigatoken.WordPiece.{WordPiece, new, encode_unit, strip_prefix}
use supergigatoken.WordPiece.Build.{IsLoaded, new-IsLoaded}
use supergigatoken.WordPiece.Reference.{Encodes, encode_unit-Encodes}

abbrev codes : String → Bytes
codes String.[] = []
codes (String.◌∷◌ c s) = code c ∷ codes s

abbrev vocab : List (Bytes × ℕ)
vocab = (codes "[UNK]", 0) ∷ (codes "ab", 1) ∷ (codes "##cd", 2) ∷ []

encode : Option WordPiece → String → Option (List ℕ × ℕ)
encode none s = none
encode (some wp) s = encode_unit wp (codes s) []

abbrev load : ℕ → Option WordPiece
load = new vocab (codes "[UNK]") (codes "##")

abcd_segments : encode (load 100) "abcd" ≡ some (1 ∷ 2 ∷ [], 2)
unfolding encode new encode_unit strip_prefix lookup insert
abcd_segments = refl

abc_unknown : encode (load 100) "abc" ≡ some (0 ∷ [], 1)
unfolding encode new encode_unit strip_prefix lookup insert
abc_unknown = refl

-- A word that begins with the continuation prefix: the reference finds the piece `##cd` in the
-- vocabulary, the model has stored it as a continuation only.
prefixed_word : encode (load 100) "##cd" ≡ some (0 ∷ [], 1)
unfolding encode new encode_unit strip_prefix lookup insert
prefixed_word = refl

encode_unit-Encodes_example :
    (wp : WordPiece) × (ids : List ℕ) × (load 100 ≡ some wp)
    × Encodes vocab (codes "##") 100 0 (codes "abcd") ids
    × (encode_unit wp (codes "abcd") (7 ∷ []) ≡ some ((7 ∷ []) ++ ids, length ids))
unfolding strip_prefix
encode_unit-Encodes_example =
    encode_unit-Encodes vocab (codes "[UNK]") (codes "##") 100 0 (codes "abcd") (7 ∷ []) refl
      (inr refl)

new-IsLoaded_example :
    (wp : WordPiece) × (load 100 ≡ some wp) × IsLoaded vocab (codes "[UNK]") (codes "##") 100 wp
new-IsLoaded_example = new-IsLoaded vocab (codes "[UNK]") (codes "##") 100 0 refl
