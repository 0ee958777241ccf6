-- ===== src/Pretokenize/Machine/Text.antt =====
-- Texts as src/pretokenize/reference/state_machine.rs expects them: ASCII bytes, and other characters
-- of at most four bytes that the decoder reads. Its positions lie between characters.
use supergigatoken.Base.{
  ℕ, zero, suc, ◌+◌, ◌%◌, ◌≤◌, ◌<◌, ◌≡◌, refl, ap, true, false, some, [], ◌∷◌, Bytes, length,
  get_or, drop, arith, ltb→lt, length-drop, drop-drop,
}
use supergigatoken.Pretokenize.Unicode.{Icu, is_ascii}

pub data IsText (icu : Icu) : Bytes → Type 0 where
  end : IsText icu []
  ascii : {b : ℕ} {s : Bytes} → b < 128 → IsText icu s → IsText icu (b ∷ s)
  wide :
      {b : ℕ} {s : Bytes} (c len : ℕ)
      → 128 ≤ b
      → icu.decode (b ∷ s) ≡ some (c, len)
      → 0 < len
      → len ≤ 4
      → len ≤ length (b ∷ s)
      → IsText icu (drop len (b ∷ s))
      → IsText icu (b ∷ s)

-- A position of the bytes that lies between characters.
pub record At (icu : Icu) (bytes : Bytes) (pos : ℕ) : Type 0 where
  pub inside : pos ≤ length bytes
  pub text : IsText icu (drop pos bytes)

drop-head :
    (bytes : Bytes) (pos : ℕ)
    → pos < length bytes
    → drop pos bytes ≡ get_or bytes pos 0 ∷ drop (suc pos) bytes
drop-head [] pos h = absurd (omega arith)
drop-head (b ∷ s) zero h = refl
drop-head (b ∷ s) (suc pos) h = drop-head s pos (omega arith)

IsText-ascii : (icu : Icu) (b : ℕ) (s : Bytes) → IsText icu (b ∷ s) → b < 128 → IsText icu s
IsText-ascii icu b s (ascii h t) low = t
IsText-ascii icu b s (wide c len h d pos short fits t) low = absurd (omega arith)

IsText-wide :
    (icu : Icu) (b : ℕ) (s : Bytes)
    → IsText icu (b ∷ s)
    → 128 ≤ b
    → (c len : ℕ) × (icu.decode (b ∷ s) ≡ some (c, len))
      × (0 < len)
      × (len ≤ 4)
      × (len ≤ length (b ∷ s))
      × IsText icu (drop len (b ∷ s))
IsText-wide icu b s (ascii h t) high = absurd (omega arith)
IsText-wide icu b s (wide c len h d pos short fits t) high = (c, len, d, pos, short, fits, t)

module _ (icu : Icu) (bytes : Bytes) (pos : ℕ) where
  pub At-ascii :
      At icu bytes pos
      → pos < length bytes
      → is_ascii (get_or bytes pos 0) ≡ true
      → At icu bytes (pos + 1)
  At-ascii here inside low = record {
    inside = omega arith;
    text =
        let same : pos + 1 ≡ suc pos = omega arith in
        rw same (
          IsText-ascii icu (get_or bytes pos 0) (drop (suc pos) bytes)
            (rw (drop-head bytes pos inside) at here.text) (ltb→lt _ _ low));
  }

  pub At-wide :
      At icu bytes pos
      → pos < length bytes
      → is_ascii (get_or bytes pos 0) ≡ false
      → (c len : ℕ) × (icu.decode (drop pos bytes) ≡ some (c, len))
        × (0 < len)
        × (len % 256 ≡ len)
        × At icu bytes (pos + len)
  At-wide here inside high =
      let head = drop-head bytes pos inside in
      let (c, len, read, some_bytes, short, fits, rest) =
        IsText-wide icu (get_or bytes pos 0) (drop (suc pos) bytes) (rw (head) at here.text)
          (ground arith) in
      (
        c,
        len,
        rw head read,
        some_bytes,
        omega (arith, short),
        record {
          inside = omega (arith, length-drop pos bytes, ap length head);
          text = rw (← drop-drop pos len (pos + len) bytes refl, head) rest;
        },
      )
