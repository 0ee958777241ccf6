-- ===== src/Tests/Pretokenize.antt =====
-- Runs of the state machine of src/pretokenize/reference/state_machine.rs.
use supergigatoken.Base.{
  ℕ, ◌+◌, ◌*◌, ◌-◌, ◌||◌, Option, some, none, List, [], ◌∷◌, Bytes, ltb, ◌==◌, if◌then◌else◌, ◌≡◌,
  refl, concat, All, arith,
}
use supergigatoken.Pretokenize.Unicode.{Icu, within, is_ascii_letter}
use supergigatoken.Pretokenize.Machine.{pretokens}
use supergigatoken.Pretokenize.Machine.Text.{IsText, end, ascii, wide}
use supergigatoken.Pretokenize.Machine.Tiles.{HasBytes, pretokens-concat}

-- ASCII bytes, and two bytes for a character from 128 on.
abbrev latin_decode : Bytes → Option (ℕ × ℕ)
latin_decode [] = none
latin_decode (a ∷ []) = if ltb a 128 then some (a, 1) else none
latin_decode (a ∷ b ∷ s) = if ltb a 128 then some (a, 1) else some ((a - 192) * 64 + b - 128, 2)

-- Latin letters, digits, and the spaces 9 to 13, 32 and 160.
abbrev latin : Icu
latin = record {
  decode = latin_decode;
  general_category =
      λ c. if is_ascii_letter c || within 192 255 c then 1 else if within 48 57 c then 2 else 0;
  letter_group = λ gc. gc == 1;
  number_group = λ gc. gc == 2;
  white_space = λ c. within 9 13 c || c == 32 || c == 160;
}

-- `don't  été` and `7`.
abbrev sentence : Bytes
sentence =
    b'd' ∷ b'o' ∷ b'n' ∷ b'\'' ∷ b't' ∷ b' ' ∷ b' ' ∷ 195 ∷ 169 ∷ b't' ∷ 195 ∷ 169 ∷ b'7' ∷ []

sentence_tokens :
    pretokens latin sentence
    ≡ some (
        (b'd' ∷ b'o' ∷ b'n' ∷ [])
        ∷ (b'\'' ∷ b't' ∷ [])
        ∷ (b' ' ∷ [])
        ∷ (b' ' ∷ 195 ∷ 169 ∷ b't' ∷ 195 ∷ 169 ∷ [])
        ∷ (b'7' ∷ [])
        ∷ [])
unfolding pretokens
sentence_tokens = refl

sentence-IsText : IsText latin sentence
sentence-IsText = ascii (omega arith) (
    ascii (omega arith) (
      ascii (omega arith) (
        ascii (omega arith) (
          ascii (omega arith) (
            ascii (omega arith) (
              ascii (omega arith) (
                wide 233 2 (omega arith) refl (omega arith) (omega arith) (omega arith) (
                  ascii (omega arith) (
                    wide 233 2 (omega arith) refl (omega arith) (omega arith) (omega arith)
                      (ascii (omega arith) end))))))))))

pretokens-concat_example :
    (tokens : List Bytes) × (pretokens latin sentence ≡ some tokens)
    × (concat tokens ≡ sentence)
    × All HasBytes tokens
pretokens-concat_example = pretokens-concat latin sentence sentence-IsText
