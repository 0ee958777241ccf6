-- ===== src/Pretokenize/Machine/Steps.antt =====
-- The checks of src/pretokenize/reference/state_machine.rs from a position between characters: each
-- comes to another such position.
use supergigatoken.Base.{
  ℕ, zero, suc, ◌+◌, ◌%◌, ◌≤◌, ◌<◌, ◌≡◌, refl, inl, inr, Bool, true, false, Option, some, none,
  Bytes, leb, ◌==◌, if◌then◌else◌, length, get_or, arith, leb→le, Bool-cases,
}
use supergigatoken.Pretokenize.Unicode.{Icu, is_ascii, is_whitespace, is_ascii_control_space}
use supergigatoken.Pretokenize.Machine.{
  StartResult, start_apostrophe, start_letter, start_number, start_ascii_space, start_nonchar,
  start_whitespace, WhitespaceResult, found_ascii_space, neither, found_whitespace,
  ApostropheResult, matched, not_matched, ScanStep, advance, stop, out_of_bytes, classify_start,
  classify_ascii, start_check, whitespace_check, scan_step, scan_loop, apostrophe_check,
  is_contraction, is_single_suffix, is_suffix_start,
}
use supergigatoken.Pretokenize.Machine.Text.{At, At-ascii, At-wide}

-- The bytes that a result of `start_check` has consumed.
pub data Width : StartResult → ℕ → Type 0 where
  white_width : (n : ℕ) → Width (start_whitespace n) n
  space_width : Width start_ascii_space 1
  letter_width : (n : ℕ) → Width start_letter n
  number_width : (n : ℕ) → Width start_number n
  apostrophe_width : (n : ℕ) → Width start_apostrophe n
  nonchar_width : (n : ℕ) → Width start_nonchar n

Width-if :
    (b : Bool) {x y : StartResult} {len : ℕ}
    → Width x len
    → Width y len
    → Width (if b then x else y) len
Width-if true wx wy = wx
Width-if false wx wy = wy

classify_ascii-Width : (b : ℕ) → Width (classify_ascii b) 1
unfolding classify_ascii
classify_ascii-Width b = Width-if _ (letter_width 1) (
    Width-if _ space_width (
      Width-if _ (white_width 1)
        (Width-if _ (number_width 1) (Width-if _ (apostrophe_width 1) (nonchar_width 1)))))

start_whitespace-Width : (n len : ℕ) → n ≡ len → Width (start_whitespace n) len
start_whitespace-Width n len e = rw e (white_width len)

classify_start-Width :
    (icu : Icu) (bytes : Bytes) (c len : ℕ)
    → len % 256 ≡ len
    → Width (classify_start icu bytes c len) len
unfolding classify_start
classify_start-Width icu bytes c len byte =
    let space_or_other : Width
        (if is_whitespace icu c then start_whitespace (len % 256) else start_nonchar) len =
      Width-if _ (start_whitespace-Width (len % 256) len byte) (nonchar_width len) in
    Width-if _ (letter_width len) (Width-if _ (number_width len) space_or_other)

single_suffix-ascii : (b : ℕ) → is_single_suffix b ≡ true → is_ascii b ≡ true
single_suffix-ascii b e = ground arith

contraction-ascii :
    (a b : ℕ) → is_contraction a b ≡ true → (is_ascii a ≡ true) × (is_ascii b ≡ true)
contraction-ascii a b e = (ground arith, ground arith)

module _ (icu : Icu) (bytes : Bytes) where
  pub data IsStarted (pos : ℕ) : Option StartResult × ℕ → Type 0 where
    ended : pos ≡ length bytes → IsStarted pos (none, pos)
    taken :
        (r : StartResult) (len : ℕ)
        → 0 < len
        → At icu bytes (pos + len)
        → Width r len
        → IsStarted pos (some r, pos + len)

  pub start_check-IsStarted :
      (pos : ℕ) → At icu bytes pos → IsStarted pos (start_check icu bytes pos)
  unfolding start_check
  start_check-IsStarted pos here = elim (Bool-cases (leb (length bytes) pos)) [
    | inl e ↦ rw (e, start_check) (ended (omega (arith, here.inside, leb→le _ _ e)))
    | inr more ↦
        let inside : pos < length bytes = ground arith in
        elim (Bool-cases (is_ascii (get_or bytes pos 0))) [
          | inl low ↦
              rw (more, low, start_check)
                (taken (classify_ascii (get_or bytes pos 0)) 1 (omega arith)
                  (At-ascii icu bytes pos here inside low)
                  (classify_ascii-Width (get_or bytes pos 0)))
          | inr high ↦
              let (c, len, read, some_bytes, byte, there) =
                At-wide icu bytes pos here inside high in
              rw (more, high, read, start_check)
                (taken (classify_start icu bytes c len) len some_bytes there
                  (classify_start-Width icu bytes c len byte))
        ]
  ]

  pub data IsSpaced (pos : ℕ) : Option WhitespaceResult × ℕ → Type 0 where
    no_more : pos ≡ length bytes → IsSpaced pos (none, pos)
    space : At icu bytes (pos + 1) → IsSpaced pos (some found_ascii_space, pos + 1)
    white :
        (len : ℕ)
        → 0 < len
        → At icu bytes (pos + len)
        → IsSpaced pos (some (found_whitespace len), pos + len)
    other : IsSpaced pos (some neither, pos)

  pub whitespace_check-IsSpaced :
      (pos : ℕ) → At icu bytes pos → IsSpaced pos (whitespace_check icu bytes pos)
  unfolding whitespace_check
  whitespace_check-IsSpaced pos here = elim (Bool-cases (leb (length bytes) pos)) [
    | inl e ↦ rw (e, whitespace_check) (no_more (omega (arith, here.inside, leb→le _ _ e)))
    | inr more ↦
        let inside : pos < length bytes = ground arith in
        elim (Bool-cases (is_ascii (get_or bytes pos 0))) [
          | inl low ↦
              let there = At-ascii icu bytes pos here inside low in
              elim (Bool-cases (get_or bytes pos 0 == b' ')) [
                | inl e ↦ rw (more, low, e, whitespace_check) (space there)
                | inr ne ↦ elim (Bool-cases (is_ascii_control_space (get_or bytes pos 0))) [
                  | inl e ↦ rw (more, low, ne, e, whitespace_check) (white 1 (omega arith) there)
                  | inr ne' ↦ rw (more, low, ne, ne', whitespace_check) other
                ]
              ]
          | inr high ↦
              let (c, len, read, some_bytes, byte, there) =
                At-wide icu bytes pos here inside high in
              elim (Bool-cases (is_whitespace icu c)) [
                | inl e ↦
                    rw (more, high, read, e, byte, whitespace_check) (white len some_bytes there)
                | inr ne ↦ rw (more, high, read, ne, whitespace_check) other
              ]
        ]
  ]

  pub data IsParted (pos : ℕ) : Option ApostropheResult × ℕ → Type 0 where
    nothing_left : pos ≡ length bytes → IsParted pos (none, pos)
    suffix : (len : ℕ) → 0 < len → At icu bytes (pos + len) → IsParted pos (some matched, pos + len)
    no_suffix : IsParted pos (some not_matched, pos)

  -- A scan is a run of characters.
  pub data IsScanned (pos : ℕ) : Option (Bool × ℕ) → Type 0 where
    scanned :
        (found : Bool) (to : ℕ)
        → pos ≤ to
        → At icu bytes to
        → (found ≡ false → to ≡ length bytes)
        → IsScanned pos (some (found, to))

  data IsScanStep (pos : ℕ) : ScanStep → Type 0 where
    advanced : (len : ℕ) → 0 < len → At icu bytes (pos + len) → IsScanStep pos (advance len)
    stopped : IsScanStep pos stop
    ran_out : pos ≡ length bytes → IsScanStep pos out_of_bytes

  IsScanStep-if :
      (b : Bool) (pos len : ℕ)
      → 0 < len
      → At icu bytes (pos + len)
      → IsScanStep pos (if b then advance len else stop)
  IsScanStep-if true pos len some_bytes there = advanced len some_bytes there
  IsScanStep-if false pos len some_bytes there = stopped

  module _ (ascii_runs runs : ℕ → Bool) where
    scan_step-IsScanStep :
        (pos : ℕ) → At icu bytes pos → IsScanStep pos (scan_step icu bytes ascii_runs runs pos)
    unfolding scan_step
    scan_step-IsScanStep pos here = elim (Bool-cases (leb (length bytes) pos)) [
      | inl e ↦ rw (e, scan_step) (ran_out (omega (arith, here.inside, leb→le _ _ e)))
      | inr more ↦
          let inside : pos < length bytes = ground arith in
          elim (Bool-cases (is_ascii (get_or bytes pos 0))) [
            | inl low ↦
                rw (more, low, scan_step)
                  (IsScanStep-if (ascii_runs (get_or bytes pos 0)) pos 1 (omega arith)
                    (At-ascii icu bytes pos here inside low))
            | inr high ↦
                let (c, len, read, some_bytes, byte, there) =
                  At-wide icu bytes pos here inside high in
                rw (more, high, read, scan_step) (IsScanStep-if (runs c) pos len some_bytes there)
          ]
    ]

    advance-IsScanned :
        (pos len : ℕ) (r : Option (Bool × ℕ)) → IsScanned (pos + len) r → IsScanned pos r
    advance-IsScanned pos len r (scanned found to le at_to out) =
        scanned found to (omega arith) at_to out

    after_step-IsScanned :
        (fuel pos : ℕ)
        → ((to : ℕ)
            → At icu bytes to
            → length bytes < fuel + to
            → IsScanned to (scan_loop icu bytes ascii_runs runs fuel to))
        → (s : ScanStep) → IsScanStep pos s
        → scan_step icu bytes ascii_runs runs pos ≡ s
        → At icu bytes pos
        → length bytes < suc fuel + pos
        → IsScanned pos (scan_loop icu bytes ascii_runs runs (suc fuel) pos)
    unfolding scan_loop
    after_step-IsScanned fuel pos rest s (advanced len some_bytes there) e here enough =
        rw (scan_loop, e)
          (advance-IsScanned pos len (scan_loop icu bytes ascii_runs runs fuel (pos + len))
            (rest (pos + len) there (omega arith)))
    after_step-IsScanned fuel pos rest s stopped e here enough =
        rw (scan_loop, e) (scanned true pos (omega arith) here (λ e'. absurd (ground arith)))
    after_step-IsScanned fuel pos rest s (ran_out end) e here enough =
        rw (scan_loop, e) (scanned false pos (omega arith) here (λ e'. end))

    pub scan_loop-IsScanned :
        (fuel pos : ℕ)
        → At icu bytes pos
        → length bytes < fuel + pos
        → IsScanned pos (scan_loop icu bytes ascii_runs runs fuel pos)
    scan_loop-IsScanned zero pos here enough = absurd (omega (arith, here.inside))
    scan_loop-IsScanned (suc fuel) pos here enough =
        after_step-IsScanned fuel pos (scan_loop-IsScanned fuel)
          (scan_step icu bytes ascii_runs runs pos) (scan_step-IsScanStep pos here) refl here enough

  At-two :
      (pos : ℕ)
      → At icu bytes pos
      → pos + 1 < length bytes
      → is_ascii (get_or bytes pos 0) ≡ true
      → is_ascii (get_or bytes (pos + 1) 0) ≡ true
      → At icu bytes (pos + 2)
  At-two pos here inside low low' =
      let same : pos + 2 ≡ pos + 1 + 1 = omega arith in
      rw same
        (At-ascii icu bytes (pos + 1) (At-ascii icu bytes pos here (omega arith) low) inside low')

  pub apostrophe_check-IsParted :
      (pos : ℕ) → At icu bytes pos → IsParted pos (apostrophe_check icu bytes pos)
  unfolding apostrophe_check
  apostrophe_check-IsParted pos here = elim (Bool-cases (leb (length bytes) pos)) [
    | inl e ↦ rw (e, apostrophe_check) (nothing_left (omega (arith, here.inside, leb→le _ _ e)))
    | inr more ↦ elim (Bool-cases (is_single_suffix (get_or bytes pos 0))) [
      | inl e ↦
          rw (more, e, apostrophe_check)
            (suffix 1 (omega arith)
              (At-ascii icu bytes pos here (ground arith) (single_suffix-ascii _ e)))
      | inr ne ↦ elim (Bool-cases (is_suffix_start (get_or bytes pos 0))) [
        | inr ne' ↦ rw (more, ne, ne', apostrophe_check) no_suffix
        | inl e ↦ elim (Bool-cases (leb (length bytes) (pos + 1))) [
          | inl e' ↦ rw (more, ne, e, e', apostrophe_check) no_suffix
          | inr more' ↦
              elim (Bool-cases (is_contraction (get_or bytes pos 0) (get_or bytes (pos + 1) 0))) [
                | inr ne' ↦ rw (more, ne, e, more', ne', apostrophe_check) no_suffix
                | inl e' ↦
                    let inside : pos + 1 < length bytes = ground arith in
                    let (low, low') = contraction-ascii _ _ e' in
                    rw (more, ne, e, more', e', apostrophe_check)
                      (suffix 2 (omega arith) (At-two pos here inside low low'))
              ]
        ]
      ]
    ]
  ]
