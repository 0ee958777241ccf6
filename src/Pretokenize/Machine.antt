-- ===== src/Pretokenize/Machine.antt =====
-- src/pretokenize/reference/state_machine.rs: the hand-rolled state machine. The methods of
-- UTF8Iterator take the bytes and a position, and return their result and the new position; the
-- scans and the machine's loop run on fuel.
pub mod Text
pub mod Steps
pub mod Run
pub mod Tiles
use supergigatoken.Base.{
  ℕ, zero, suc, ◌+◌, ◌*◌, ◌-◌, ◌%◌, Bool, true, false, ◌&&◌, ◌||◌, not, Option, none, some, List,
  [], ◌∷◌, Bytes, ltb, leb, ◌==◌, if◌then◌else◌, length, get_or, take, drop,
}
use supergigatoken.Pretokenize.Unicode.{
  Icu, get_general_category, is_gc_letter, is_gc_number, is_whitespace, is_letter, is_number,
  is_ascii, is_ascii_letter, is_ascii_digit, is_ascii_control_space,
}

pub data PretokenizerState : Type 0 where
  start nonchar apostrophe ascii_space letter number save finish : PretokenizerState
  whitespace : ℕ → PretokenizerState

pub data StartResult : Type 0 where
  start_apostrophe start_letter start_number start_ascii_space start_nonchar : StartResult
  start_whitespace : ℕ → StartResult

pub data WhitespaceResult : Type 0 where
  found_ascii_space neither : WhitespaceResult
  found_whitespace : ℕ → WhitespaceResult

pub data ApostropheResult : Type 0 where
  matched not_matched : ApostropheResult

-- What a scan loop does at a position: go on behind a character, stop before it, or be out of bytes.
pub data ScanStep : Type 0 where
  advance : ℕ → ScanStep
  stop out_of_bytes : ScanStep

unfoldable pub classify_ascii : ℕ → StartResult
classify_ascii byte =
    if is_ascii_letter byte
    then start_letter
    else if byte == b' '
    then start_ascii_space
    else if is_ascii_control_space byte
    then start_whitespace 1
    else if is_ascii_digit byte
    then start_number
    else if byte == b'\''
    then start_apostrophe
    else start_nonchar

unfoldable pub is_other_byte : ℕ → Bool
is_other_byte byte =
    not (is_ascii_digit byte || is_ascii_letter byte || byte == b' ' || is_ascii_control_space byte)

-- The bytes of the match arm of one-byte suffixes, and of the arm of two-byte suffixes' first bytes.
abbrev pub is_single_suffix : ℕ → Bool
is_single_suffix byte = byte == b's' || byte == b'd' || byte == b'm' || byte == b't'

abbrev pub is_suffix_start : ℕ → Bool
is_suffix_start byte = byte == b'l' || byte == b'v' || byte == b'r'

-- The contractions of two bytes: `ll`, `ve` and `re`.
abbrev pub is_contraction : ℕ → ℕ → Bool
is_contraction a b = a == b'l' && b == b'l' || a == b'v' && b == b'e' || a == b'r' && b == b'e'

-- The outcome of one round of the machine's loop: the next state with `cur_starting` and the
-- position, or a `break` with the state after it, the token and `cur_starting`.
pub data Verdict : Type 0 where
  go : PretokenizerState → ℕ → ℕ → Verdict
  emit : PretokenizerState → Bytes → ℕ → Verdict
  stuck : Verdict

abbrev pub is_empty_span : ℕ → ℕ → Bool
is_empty_span from to = to == from

unfoldable pub after_scan : ℕ → Option (Bool × ℕ) → Verdict
after_scan cur none = stuck
after_scan cur (some (true, pos)) = go save cur pos
after_scan cur (some (false, pos)) = go finish cur pos

unfoldable pub after_start : ℕ → Option StartResult × ℕ → Verdict
after_start cur (none, pos) = go finish cur pos
after_start cur (some start_apostrophe, pos) =
    if cur == pos - 1 then go apostrophe cur pos else go nonchar cur pos
after_start cur (some start_letter, pos) = go letter cur pos
after_start cur (some start_number, pos) = go number cur pos
after_start cur (some start_ascii_space, pos) = go ascii_space cur pos
after_start cur (some (start_whitespace len), pos) = go (whitespace len) cur pos
after_start cur (some start_nonchar, pos) = go nonchar cur pos

unfoldable pub after_apostrophe : ℕ → Option ApostropheResult × ℕ → Verdict
after_apostrophe cur (none, pos) = go finish cur pos
after_apostrophe cur (some matched, pos) = go save cur pos
after_apostrophe cur (some not_matched, pos) = go nonchar cur pos

module _ (icu : Icu) (bytes : Bytes) where
  unfoldable pub classify_start : ℕ → ℕ → StartResult
  unfolding get_general_category is_gc_letter is_gc_number is_whitespace
  classify_start c len =
      if is_gc_letter icu (get_general_category icu c)
      then start_letter
      else if is_gc_number icu (get_general_category icu c)
      then start_number
      else if is_whitespace icu c
      then start_whitespace (len % 256)
      else start_nonchar

  -- `none` is the error `OutOfBytesError`.
  unfoldable pub start_check : ℕ → Option StartResult × ℕ
  unfolding classify_start classify_ascii
  start_check pos =
      if leb (length bytes) pos
      then (none, pos)
      else if is_ascii (get_or bytes pos 0)
      then (some (classify_ascii (get_or bytes pos 0)), pos + 1)
      else elim (icu.decode (drop pos bytes)) [
        | none ↦ (none, pos)
        | some (c, len) ↦ (some (classify_start c len), pos + len)
      ]

  unfoldable pub whitespace_check : ℕ → Option WhitespaceResult × ℕ
  unfolding is_whitespace
  whitespace_check pos =
      if leb (length bytes) pos
      then (none, pos)
      else if is_ascii (get_or bytes pos 0)
      then (if get_or bytes pos 0 == b' '
          then (some found_ascii_space, pos + 1)
          else if is_ascii_control_space (get_or bytes pos 0)
          then (some (found_whitespace 1), pos + 1)
          else (some neither, pos))
      else elim (icu.decode (drop pos bytes)) [
        | none ↦ (none, pos)
        | some (c, len) ↦
            if is_whitespace icu c
            then (some (found_whitespace (len % 256)), pos + len)
            else (some neither, pos)
      ]

  -- A round of a scan: the test of an ASCII byte, and the test of another character.
  unfoldable pub scan_step : (ℕ → Bool) → (ℕ → Bool) → ℕ → ScanStep
  scan_step ascii_runs runs pos =
      if leb (length bytes) pos
      then out_of_bytes
      else if is_ascii (get_or bytes pos 0)
      then if ascii_runs (get_or bytes pos 0) then advance 1 else stop
      else elim (icu.decode (drop pos bytes)) [
        | none ↦ out_of_bytes
        | some (c, len) ↦ if runs c then advance len else stop
      ]

  -- The `loop` of a scan on fuel: `some true` is `Ok(())`, `some false` the error, `none` no fuel.
  unfoldable pub scan_loop : (ℕ → Bool) → (ℕ → Bool) → ℕ → ℕ → Option (Bool × ℕ)
  unfolding scan_step
  scan_loop ascii_runs runs zero pos = none
  scan_loop ascii_runs runs (suc fuel) pos = elim (scan_step ascii_runs runs pos) [
    | out_of_bytes ↦ some (false, pos)
    | stop ↦ some (true, pos)
    | advance len ↦ scan_loop ascii_runs runs fuel (pos + len)
  ]

  unfoldable pub letter_check : ℕ → Option (Bool × ℕ)
  unfolding scan_loop is_letter
  letter_check pos = scan_loop is_ascii_letter (is_letter icu) (suc (length bytes)) pos

  unfoldable pub number_check : ℕ → Option (Bool × ℕ)
  unfolding scan_loop is_number
  number_check pos = scan_loop is_ascii_digit (is_number icu) (suc (length bytes)) pos

  unfoldable pub is_other_char : ℕ → Bool
  unfolding get_general_category is_gc_letter is_gc_number is_whitespace
  is_other_char c = not (
      is_gc_letter icu (get_general_category icu c)
      || is_gc_number icu (get_general_category icu c)
      || is_whitespace icu c)

  unfoldable pub other_check : ℕ → Option (Bool × ℕ)
  unfolding scan_loop is_other_byte is_other_char
  other_check pos = scan_loop is_other_byte is_other_char (suc (length bytes)) pos

  unfoldable pub apostrophe_check : ℕ → Option ApostropheResult × ℕ
  apostrophe_check pos =
      let byte = get_or bytes pos 0 in
      if leb (length bytes) pos
      then (none, pos)
      else if is_single_suffix byte
      then (some matched, pos + 1)
      else if is_suffix_start byte
      then (if leb (length bytes) (pos + 1)
          then (some not_matched, pos)
          else if is_contraction byte (get_or bytes (pos + 1) 0)
          then (some matched, pos + 2)
          else (some not_matched, pos))
      else (some not_matched, pos)

  -- `&self.bytes[from..to]`
  abbrev pub span : ℕ → ℕ → Bytes
  span from to = take (to - from) (drop from bytes)

  unfoldable pub after_whitespace : ℕ → ℕ → Option WhitespaceResult × ℕ → Verdict
  after_whitespace prev cur (none, pos) = go finish cur pos
  after_whitespace prev cur (some found_ascii_space, pos) = go ascii_space cur pos
  after_whitespace prev cur (some (found_whitespace len), pos) = go (whitespace len) cur pos
  after_whitespace prev cur (some neither, pos) =
      if is_empty_span cur (pos - prev)
      then go save (pos - prev) pos
      else emit start (span cur (pos - prev)) (pos - prev)

  unfoldable pub after_ascii_space : ℕ → Option WhitespaceResult × ℕ → Verdict
  after_ascii_space cur (none, pos) = emit finish (span cur pos) pos
  after_ascii_space cur (some found_ascii_space, pos) = go ascii_space cur pos
  after_ascii_space cur (some (found_whitespace len), pos) = go (whitespace len) cur pos
  after_ascii_space cur (some neither, pos) =
      if is_empty_span cur (pos - 1)
      then go start (pos - 1) pos
      else emit start (span cur (pos - 1)) (pos - 1)

  -- The `match self.state`.
  unfoldable pub round : PretokenizerState → ℕ → ℕ → Verdict
  unfolding start_check whitespace_check letter_check number_check other_check apostrophe_check
      after_scan after_start after_apostrophe after_whitespace after_ascii_space
  round start cur pos = after_start cur (start_check pos)
  round save cur pos = emit start (span cur pos) pos
  round apostrophe cur pos = after_apostrophe cur (apostrophe_check pos)
  round nonchar cur pos = after_scan cur (other_check pos)
  round letter cur pos = after_scan cur (letter_check pos)
  round number cur pos = after_scan cur (number_check pos)
  round (whitespace prev) cur pos = after_whitespace prev cur (whitespace_check pos)
  round ascii_space cur pos = after_ascii_space cur (whitespace_check pos)
  round finish cur pos = emit finish (span cur pos) pos

  -- The machine's `loop` on fuel: the state after it, the token and `cur_starting`.
  unfoldable pub machine_loop :
      ℕ → PretokenizerState → ℕ → ℕ → Option (PretokenizerState × Bytes × ℕ)
  unfolding round
  machine_loop zero state cur pos = none
  machine_loop (suc fuel) state cur pos = elim (round state cur pos) [
    | stuck ↦ none
    | emit after token cur' ↦ some (after, token, cur')
    | go state' cur' pos' ↦ machine_loop fuel state' cur' pos'
  ]

-- The iterator over given bytes.
pub record PretokenizerIter : Type 0 where
  pub bytes : Bytes
  pub pos : ℕ
  pub state : PretokenizerState

unfoldable pub new : Bytes → PretokenizerIter
new input = record { bytes = input; pos = 0; state = start }

abbrev pub nonempty : Bytes → Option Bytes
nonempty [] = none
nonempty (b ∷ s) = some (b ∷ s)

-- `next`: the token, if there is one, and the iterator after the call. A round consumes a character
-- or comes closer to a `break`.
unfoldable pub next_state_machine :
    Icu → PretokenizerIter → Option (Option Bytes × PretokenizerIter)
unfolding machine_loop
next_state_machine icu it =
    elim (machine_loop icu it.bytes (length it.bytes * 3 + 3) it.state it.pos it.pos) [
      | none ↦ none
      | some (after, token, cur) ↦ some (nonempty token, record it { pos = cur; state = after })
    ]

-- The tokens up to the first `None`.
unfoldable pub collect : Icu → ℕ → PretokenizerIter → Option (List Bytes)
unfolding next_state_machine
collect icu zero it = none
collect icu (suc fuel) it = elim (next_state_machine icu it) [
  | none ↦ none
  | some (none, it') ↦ some []
  | some (some token, it') ↦ elim (collect icu fuel it') [
    | none ↦ none
    | some tokens ↦ some (token ∷ tokens)
  ]
]

unfoldable pub pretokens : Icu → Bytes → Option (List Bytes)
unfolding collect new
pretokens icu input = collect icu (suc (length input)) (new input)
