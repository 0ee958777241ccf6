-- ===== src/Merge/Remap.antt =====
-- src/bpe/mod.rs: ByteRemapping, the table from bytes to the tokens of their one-byte entries. An error is
-- the byte that lacks an entry. The table is a function of the byte; the source makes it of length 256,
-- and every index is a byte.
pub mod Correct
use supergigatoken.Base.{
  ℕ, zero, suc, ◌+◌, ◌^◌, ◌%◌, Bool, true, false, ◌&&◌, ◌||◌, not, Option, some, none, List, [],
  ◌∷◌, Bytes, ◌==◌, leb, if◌then◌else◌,
}
use supergigatoken.Merge.Spec.{max_rank}
use supergigatoken.Merge.Links.{Array, update}

-- `u32::MAX`
abbrev pub unset : ℕ
unset = max_rank

pub record ByteRemapping : Type 0 where
  pub mapping : Array

-- `Result<Option<ByteRemapping>>`
pub data Remapped : Type 0 where
  missing_byte : ℕ → Remapped
  ok : Option ByteRemapping → Remapped

unfoldable pub is_valid_utf8_byte : ℕ → Bool
is_valid_utf8_byte b = not (b == 192 || b == 193 || (leb 245 b && leb b 255))

-- The round of the loop over the vocabulary for one entry.
unfoldable pub enter : ℕ → Bytes → Array → Array
enter id (b ∷ []) mapping = if mapping b == unset then update mapping b (id % 2 ^ 32) else mapping
enter id _ mapping = mapping

unfoldable pub scan_vocab : List Bytes → ℕ → Array → Array
scan_vocab [] id mapping = mapping
scan_vocab (entry ∷ vocab) id mapping = scan_vocab vocab (id + 1) (enter id entry mapping)

-- The first of the `n` numbers from `b` on with `test`.
unfoldable pub position : (ℕ → Bool) → ℕ → ℕ → Option ℕ
position test b zero = none
position test b (suc n) = if test b then some b else position test (b + 1) n

unfoldable pub any : (ℕ → Bool) → ℕ → ℕ → Bool
any test b zero = false
any test b (suc n) = test b || any test (b + 1) n

-- The loop that fills the gaps.
unfoldable pub fill_gaps : Array → Array
fill_gaps mapping b = if mapping b == unset then 0 else mapping b

unfoldable pub remapping_of : Array → Remapped
remapping_of mapping =
    if any (λ b. not (mapping b == b)) 0 256
    then ok (some (record { mapping = mapping }))
    else ok none

unfoldable pub filled : Option ℕ → Array → Remapped
filled (some b) mapping = missing_byte b
filled none mapping = remapping_of (fill_gaps mapping)

unfoldable pub from_byte_vocab : List Bytes → Remapped
from_byte_vocab vocab =
    let mapping : Array = scan_vocab vocab 0 (λ b. unset) in
    filled (position (λ b. mapping b == unset && is_valid_utf8_byte b) 0 256) mapping
