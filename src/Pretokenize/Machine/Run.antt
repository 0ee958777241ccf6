-- ===== src/Pretokenize/Machine/Run.antt =====
-- The rounds of the state machine of src/pretokenize/reference/state_machine.rs: what holds of
-- `cur_starting` and the position in every state, and what a round leaves to do.
use supergigatoken.Base.{
  ℕ, suc, ◌+◌, ◌*◌, ◌-◌, ◌≤◌, ◌<◌, ◌≡◌, refl, inl, inr, Bool, true, false, Option, some, Bytes,
  ◌==◌, length, arith, Bool-cases, ==_iff,
}
use supergigatoken.Pretokenize.Unicode.{Icu, is_letter, is_number, is_ascii_letter, is_ascii_digit}
use supergigatoken.Pretokenize.Machine.{
  PretokenizerState, start, nonchar, apostrophe, ascii_space, letter, number, save, finish,
  whitespace, StartResult, WhitespaceResult, ApostropheResult, Verdict, go, emit, after_scan,
  after_start, after_apostrophe, after_whitespace, after_ascii_space, span, round, is_empty_span,
  is_other_byte, is_other_char, start_check, whitespace_check, letter_check, number_check,
  other_check, apostrophe_check,
}
use supergigatoken.Pretokenize.Machine.Text.{At}
use supergigatoken.Pretokenize.Machine.Steps.{
  Width, white_width, space_width, letter_width, number_width, apostrophe_width, nonchar_width,
  IsStarted, ended, taken, start_check-IsStarted, IsSpaced, no_more, space, white, other,
  whitespace_check-IsSpaced, IsParted, nothing_left, suffix, no_suffix, apostrophe_check-IsParted,
  IsScanned, scanned, scan_loop-IsScanned,
}

-- The rounds without a character that a state has before it.
abbrev pub weight : PretokenizerState → ℕ
weight start = 1
weight nonchar = 1
weight apostrophe = 2
weight ascii_space = 2
weight letter = 1
weight number = 1
weight save = 0
weight finish = 0
weight (whitespace n) = 1

abbrev pub left : Bytes → PretokenizerState → ℕ → ℕ
left bytes state pos = (length bytes - pos) * 3 + weight state

module _ (icu : Icu) (bytes : Bytes) where
  -- What lies between `cur_starting` and the position.
  pub data Room (cur pos : ℕ) : PretokenizerState → Type 0 where
    room_start : cur ≤ pos → Room cur pos start
    room_nonchar : cur < pos → Room cur pos nonchar
    room_apostrophe : cur < pos → Room cur pos apostrophe
    room_letter : cur < pos → Room cur pos letter
    room_number : cur < pos → Room cur pos number
    room_save : cur < pos → Room cur pos save
    room_finish : cur ≤ pos → pos ≡ length bytes → Room cur pos finish
    room_space :
        (last : ℕ) → At icu bytes last → cur ≤ last → pos ≡ last + 1 → Room cur pos ascii_space
    room_white :
        (last n : ℕ)
        → At icu bytes last
        → cur ≤ last
        → 0 < n
        → pos ≡ last + n
        → Room cur pos (whitespace n)

  pub data IsNext (state : PretokenizerState) (cur pos : ℕ) : Verdict → Type 0 where
    going :
        (state' : PretokenizerState) (cur' pos' : ℕ)
        → cur' ≡ cur
        → At icu bytes pos'
        → Room cur pos' state'
        → left bytes state' pos' < left bytes state pos
        → IsNext state cur pos (go state' cur' pos')
    token :
        (to : ℕ)
        → cur < to
        → At icu bytes to
        → IsNext state cur pos (emit start (span icu bytes cur to) to)
    last_token :
        (to : ℕ)
        → At icu bytes to
        → to ≡ length bytes
        → IsNext state cur pos (emit finish (span icu bytes cur to) to)

  module _ (cur pos : ℕ) (here : At icu bytes pos) where
    to_finish :
        (state : PretokenizerState)
        → cur ≤ pos
        → pos ≡ length bytes
        → 0 < weight state
        → IsNext state cur pos (go finish cur pos)
    to_finish state le e w = going finish cur pos refl here (room_finish le e) (omega arith)

    forward :
        (state state' : PretokenizerState) (len : ℕ)
        → 0 < len
        → At icu bytes (pos + len)
        → Room cur (pos + len) state'
        → weight state' ≤ 2
        → IsNext state cur pos (go state' cur (pos + len))
    forward state state' len some_bytes there room w =
        going state' cur (pos + len) refl there room (omega (arith, there.inside))

    started-IsNext :
        (r : StartResult) (len : ℕ)
        → cur ≤ pos
        → 0 < len
        → At icu bytes (pos + len)
        → Width r len
        → IsNext start cur pos (after_start cur (some r, pos + len))
    unfolding after_start
    started-IsNext _ len le some_bytes there (white_width _) =
        forward start (whitespace len) len some_bytes there
          (room_white pos len here le some_bytes refl) (omega arith)
    started-IsNext _ _ le some_bytes there space_width =
        forward start ascii_space 1 some_bytes there (room_space pos here le refl) (omega arith)
    started-IsNext _ len le some_bytes there (letter_width _) =
        forward start letter len some_bytes there (room_letter (omega arith)) (omega arith)
    started-IsNext _ len le some_bytes there (number_width _) =
        forward start number len some_bytes there (room_number (omega arith)) (omega arith)
    started-IsNext _ len le some_bytes there (nonchar_width _) =
        forward start nonchar len some_bytes there (room_nonchar (omega arith)) (omega arith)
    started-IsNext _ len le some_bytes there (apostrophe_width _) =
        elim (Bool-cases (cur == pos + len - 1)) [
          | inl e ↦
              rw (e, after_start)
                (forward start apostrophe len some_bytes there (room_apostrophe (omega arith))
                  (omega arith))
          | inr ne ↦
              rw (ne, after_start)
                (forward start nonchar len some_bytes there (room_nonchar (omega arith))
                  (omega arith))
        ]

    after_start-IsNext :
        (r : Option StartResult × ℕ)
        → cur ≤ pos
        → IsStarted icu bytes pos r
        → IsNext start cur pos (after_start cur r)
    unfolding after_start
    after_start-IsNext _ le (ended e) = to_finish start le e (omega arith)
    after_start-IsNext _ le (taken r len some_bytes there w) =
        started-IsNext r len le some_bytes there w

    after_scan-IsNext :
        (state : PretokenizerState) (r : Option (Bool × ℕ))
        → weight state ≡ 1
        → cur < pos
        → IsScanned icu bytes pos r
        → IsNext state cur pos (after_scan cur r)
    unfolding after_scan
    after_scan-IsNext state _ w lt (scanned true to le there out) =
        going save cur to refl there (room_save (omega arith)) (omega arith)
    after_scan-IsNext state _ w lt (scanned false to le there out) =
        going finish cur to refl there (room_finish (omega arith) (out refl)) (omega arith)

    after_apostrophe-IsNext :
        (r : Option ApostropheResult × ℕ)
        → cur < pos
        → IsParted icu bytes pos r
        → IsNext apostrophe cur pos (after_apostrophe cur r)
    unfolding after_apostrophe
    after_apostrophe-IsNext _ lt (nothing_left e) =
        to_finish apostrophe (omega arith) e (omega arith)
    after_apostrophe-IsNext _ lt (suffix len some_bytes there) =
        forward apostrophe save len some_bytes there (room_save (omega arith)) (omega arith)
    after_apostrophe-IsNext _ lt no_suffix =
        going nonchar cur pos refl here (room_nonchar lt) (omega arith)

    after_whitespace-IsNext :
        (prev last : ℕ) (r : Option WhitespaceResult × ℕ)
        → At icu bytes last
        → cur ≤ last
        → 0 < prev
        → pos ≡ last + prev
        → IsSpaced icu bytes pos r
        → IsNext (whitespace prev) cur pos (after_whitespace icu bytes prev cur r)
    unfolding after_whitespace
    after_whitespace-IsNext prev last _ at_last le some_bytes e (no_more end) =
        to_finish (whitespace prev) (omega arith) end (omega arith)
    after_whitespace-IsNext prev last _ at_last le some_bytes e (space there) =
        forward (whitespace prev) ascii_space 1 (omega arith) there
          (room_space pos here (omega arith) refl) (omega arith)
    after_whitespace-IsNext prev last _ at_last le some_bytes e (white len more there) =
        forward (whitespace prev) (whitespace len) len more there
          (room_white pos len here (omega arith) more refl) (omega arith)
    after_whitespace-IsNext prev last _ at_last le some_bytes e other =
        let back : pos - prev ≡ last = omega arith in
        elim (Bool-cases (is_empty_span cur last)) [
          | inl empty ↦
              rw (back, empty, after_whitespace)
                (going save last pos ((==_iff last cur).0 empty) here (room_save (omega arith))
                  (omega arith))
          | inr some_token ↦
              rw (back, some_token, after_whitespace) (token last (ground arith) at_last)
        ]

    after_ascii_space-IsNext :
        (last : ℕ) (r : Option WhitespaceResult × ℕ)
        → At icu bytes last
        → cur ≤ last
        → pos ≡ last + 1
        → IsSpaced icu bytes pos r
        → IsNext ascii_space cur pos (after_ascii_space icu bytes cur r)
    unfolding after_ascii_space
    after_ascii_space-IsNext last _ at_last le e (no_more end) = last_token pos here end
    after_ascii_space-IsNext last _ at_last le e (space there) =
        forward ascii_space ascii_space 1 (omega arith) there
          (room_space pos here (omega arith) refl) (omega arith)
    after_ascii_space-IsNext last _ at_last le e (white len more there) =
        forward ascii_space (whitespace len) len more there
          (room_white pos len here (omega arith) more refl) (omega arith)
    after_ascii_space-IsNext last _ at_last le e other =
        let back : pos - 1 ≡ last = omega arith in
        elim (Bool-cases (is_empty_span cur last)) [
          | inl empty ↦
              rw (back, empty, after_ascii_space)
                (going start last pos ((==_iff last cur).0 empty) here (room_start (omega arith))
                  (omega arith))
          | inr some_token ↦
              rw (back, some_token, after_ascii_space) (token last (ground arith) at_last)
        ]

    pub round-IsNext :
        (state : PretokenizerState)
        → Room cur pos state
        → IsNext state cur pos (round icu bytes state cur pos)
    unfolding round letter_check number_check other_check
    round-IsNext _ (room_start le) =
        after_start-IsNext (start_check icu bytes pos) le (start_check-IsStarted icu bytes pos here)
    round-IsNext _ (room_nonchar lt) = after_scan-IsNext nonchar _ refl lt (
        scan_loop-IsScanned icu bytes is_other_byte (is_other_char icu bytes) (suc (length bytes))
          pos here (omega arith))
    round-IsNext _ (room_apostrophe lt) =
        after_apostrophe-IsNext (apostrophe_check icu bytes pos) lt
          (apostrophe_check-IsParted icu bytes pos here)
    round-IsNext _ (room_letter lt) = after_scan-IsNext letter _ refl lt (
        scan_loop-IsScanned icu bytes is_ascii_letter (is_letter icu) (suc (length bytes)) pos here
          (omega arith))
    round-IsNext _ (room_number lt) = after_scan-IsNext number _ refl lt (
        scan_loop-IsScanned icu bytes is_ascii_digit (is_number icu) (suc (length bytes)) pos here
          (omega arith))
    round-IsNext _ (room_save lt) = token pos lt here
    round-IsNext _ (room_finish le e) = last_token pos here e
    round-IsNext _ (room_space last at_last le e) =
        after_ascii_space-IsNext last (whitespace_check icu bytes pos) at_last le e
          (whitespace_check-IsSpaced icu bytes pos here)
    round-IsNext _ (room_white last n at_last le some_bytes e) =
        after_whitespace-IsNext n last (whitespace_check icu bytes pos) at_last le some_bytes e
          (whitespace_check-IsSpaced icu bytes pos here)
