-- ===== src/Pretokenize/Unicode.antt =====
-- src/pretokenize/unicode.rs: the predicates on characters, over the property tables of the icu
-- library and the character decoding of the standard library.
use supergigatoken.Base.{ℕ, Bool, ◌&&◌, ◌||◌, Option, Bytes, ltb, leb}

-- `str::chars().next()` with the character's `len_utf8`, and the tables of icu.
pub record Icu : Type 0 where
  pub decode : Bytes → Option (ℕ × ℕ)
  pub general_category : ℕ → ℕ
  pub letter_group : ℕ → Bool
  pub number_group : ℕ → Bool
  pub white_space : ℕ → Bool

unfoldable pub get_general_category : Icu → ℕ → ℕ
get_general_category icu c = icu.general_category c

unfoldable pub is_gc_letter : Icu → ℕ → Bool
is_gc_letter icu gc = icu.letter_group gc

unfoldable pub is_gc_number : Icu → ℕ → Bool
is_gc_number icu gc = icu.number_group gc

unfoldable pub is_whitespace : Icu → ℕ → Bool
is_whitespace icu c = icu.white_space c

unfoldable pub is_letter : Icu → ℕ → Bool
unfolding is_gc_letter get_general_category
is_letter icu c = is_gc_letter icu (get_general_category icu c)

unfoldable pub is_number : Icu → ℕ → Bool
unfolding is_gc_number get_general_category
is_number icu c = is_gc_number icu (get_general_category icu c)

-- `is_ascii`, and the ranges that the byte patterns name.
abbrev pub is_ascii : ℕ → Bool
is_ascii b = ltb b 128

abbrev pub within : ℕ → ℕ → ℕ → Bool
within lo hi b = leb lo b && leb b hi

abbrev pub is_ascii_letter : ℕ → Bool
is_ascii_letter b = within 65 90 b || within 97 122 b

abbrev pub is_ascii_digit : ℕ → Bool
is_ascii_digit b = within 48 57 b

-- The bytes 9 to 13.
abbrev pub is_ascii_control_space : ℕ → Bool
is_ascii_control_space b = within 9 13 b
