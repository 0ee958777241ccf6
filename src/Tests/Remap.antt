-- ===== src/Tests/Remap.antt =====
-- Runs of ByteRemapping::from_byte_vocab of src/bpe/mod.rs.
use supergigatoken.Base.{
  ℕ, zero, suc, ◌+◌, ◌≡◌, refl, Option, some, none, List, [], ◌∷◌, ◌++◌, map, Bytes, arith,
}
use supergigatoken.Merge.Remap.{
  Remapped, missing_byte, ok, is_valid_utf8_byte, enter, scan_vocab, position, any, fill_gaps,
  remapping_of, filled, from_byte_vocab,
}
use supergigatoken.Merge.Remap.Correct.{IsRemapping, from_byte_vocab-IsRemapping}

-- The `n` one-byte entries from `b` on.
abbrev singles : ℕ → ℕ → List Bytes
singles b zero = []
singles b (suc n) = (b ∷ []) ∷ singles (b + 1) n

-- A special token first, as DeepSeek has it, and no entry for the bytes that are not in UTF-8.
abbrev shifted : List Bytes
shifted = (60 ∷ 62 ∷ []) ∷ singles 0 192 ++ singles 194 51

abbrev token_in : Remapped → ℕ → Option ℕ
token_in (missing_byte b) c = none
token_in (ok none) c = some c
token_in (ok (some r)) c = some (r.mapping c)

lacking_run : from_byte_vocab (singles 0 97) ≡ missing_byte 97
unfolding from_byte_vocab filled scan_vocab enter position is_valid_utf8_byte
lacking_run = refl

shifted_run :
    map (token_in (from_byte_vocab shifted)) (0 ∷ 192 ∷ 194 ∷ []) ≡ some 1 ∷ some 0 ∷ some 193 ∷ []
unfolding from_byte_vocab filled scan_vocab enter position is_valid_utf8_byte any fill_gaps
    remapping_of
shifted_run = refl

from_byte_vocab-IsRemapping_example : IsRemapping shifted (from_byte_vocab shifted)
from_byte_vocab-IsRemapping_example = from_byte_vocab-IsRemapping shifted (ground arith)
