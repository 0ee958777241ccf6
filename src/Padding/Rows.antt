-- ===== src/Padding/Rows.antt =====
-- The rows that src/bindings/padding.rs writes, described without positions, and that the code
-- produces them.
use supergigatoken.Base.{
  ℕ, ◌+◌, ◌-◌, ◌≤◌, min, ◌≡◌, refl, sym, ap, ◌∙◌, inl, inr, true, List, ◌++◌, leb, ltb,
  if◌then◌else◌, length, take, drop, replicate, arith, Bool-cases, append_assoc, append-nil,
  length-append, length-take, length-drop, length-replicate, take_all, take-append, drop-append,
  drop-drop, drop-replicate, replicate-add,
}
use supergigatoken.Padding.{
  PadTruncate, ok, ◌>>=◌, extra, copy_at, tokens_at, truncated, row_start, fill,
}

-- At most `cap` tokens, the last ones or the first ones, between the special tokens.
pub content : PadTruncate → ℕ → List ℕ → List ℕ
content opts cap tokens =
    opts.prefix
    ++ (if opts.truncate_left then drop (length tokens - cap) tokens else take cap tokens)
    ++ opts.suffix

-- The content with the padding before or behind it.
pub padded : PadTruncate → ℕ → List ℕ → List ℕ
padded opts width ids =
    if opts.pad_left
    then replicate (width - length ids) opts.pad_id ++ ids
    else ids ++ replicate (width - length ids) opts.pad_id

copy_at-replicate :
    (n z start : ℕ) (a src : List ℕ)
    → start ≡ length a
    → length src ≤ n
    → copy_at start src (a ++ replicate n z) ≡ ok (a ++ src ++ replicate (n - length src) z)
unfolding copy_at
copy_at-replicate n z start a src h room =
    let size : length (a ++ replicate n z) ≡ length a + n =
      rw (length-append a (replicate n z), length-replicate n z) in
    let fits : leb (start + length src) (length (a ++ replicate n z)) ≡ true =
      rw (size, h) (ground arith) in
    let rest : drop (start + length src) (a ++ replicate n z) ≡ replicate (n - length src) z =
      sym (drop-drop start (length src) (start + length src) (a ++ replicate n z) refl)
      ∙ ap (drop (length src)) (rw (h, drop-append a (replicate n z)))
      ∙ drop-replicate (length src) n z in
    rw (fits, rest, h, take-append a (replicate n z))

-- The three copies into a row of padding.
copies :
    (z width start : ℕ) (pre ids suf : List ℕ)
    → start + (length pre + length ids + length suf) ≤ width
    → (copy_at start pre (replicate width z) >>= λ row.
        copy_at (start + length pre) ids row >>= λ row.
        copy_at (start + (length ids + (length pre + length suf)) - length suf) suf row)
      ≡ ok (
          replicate start z
          ++ pre
          ++ ids
          ++ suf
          ++ replicate (width - start - length pre - length ids - length suf) z)
copies z width start pre ids suf room =
    let lead : replicate width z ≡ replicate start z ++ replicate (width - start) z =
      ap (λ n. replicate n z) {x = width} {y = start + (width - start)} (omega arith)
      ∙ replicate-add start (width - start) z in
    let at_ids : start + length pre ≡ length (replicate start z ++ pre) =
      sym (rw (length-append (replicate start z) pre, length-replicate start z)) in
    let at_suf : start + (length ids + (length pre + length suf)) - length suf
        ≡ length (replicate start z ++ pre ++ ids) =
      rw (length-append (replicate start z ++ pre) ids, ← at_ids) (omega arith) in
    rw (
      lead,
      copy_at-replicate (width - start) z start (replicate start z) pre
          (sym (length-replicate start z)) (omega arith),
      copy_at-replicate (width - start - length pre) z (start + length pre)
          (replicate start z ++ pre) ids at_ids (omega arith),
      copy_at-replicate (width - start - length pre - length ids) z
          (start + (length ids + (length pre + length suf)) - length suf)
          (replicate start z ++ pre ++ ids) suf at_suf (omega arith),
    )

module _ (opts : PadTruncate) (cap width : ℕ) where
  kept_of : List ℕ → List ℕ
  kept_of tokens = if opts.truncate_left then drop (length tokens - cap) tokens else take cap tokens

  take-min : (n : ℕ) (xs : List ℕ) → take (min (length xs) n) xs ≡ take n xs
  take-min n xs = elim (Bool-cases (ltb (length xs) n)) [
    | inl e ↦
        let short : min (length xs) n ≡ length xs = ground arith in
        rw (short, take_all (length xs) xs (omega arith), take_all n xs (ground arith))
    | inr e ↦ let long : min (length xs) n ≡ n = ground arith in rw long refl
  ]

  truncated-kept :
      (tokens : List ℕ)
      → truncated opts (length tokens) (min (length tokens) cap) tokens ≡ kept_of tokens
  unfolding truncated kept_of
  truncated-kept tokens = elim (Bool-cases opts.truncate_left) [
    | inl e ↦ rw e (
        ap (λ n. drop n tokens) {x = length tokens - min (length tokens) cap}
          {y = length tokens - cap} (omega arith))
    | inr e ↦ rw e (take-min cap tokens)
  ]

  length-kept : (tokens : List ℕ) → length (kept_of tokens) ≡ min (length tokens) cap
  unfolding kept_of
  length-kept tokens = elim (Bool-cases opts.truncate_left) [
    | inl e ↦ rw (e, length-drop (length tokens - cap) tokens) (omega arith)
    | inr e ↦ rw (e, length-take cap tokens) (omega arith)
  ]

  pub length-content :
      (tokens : List ℕ) → length (content opts cap tokens) ≡ min (length tokens) cap + extra opts
  unfolding content extra kept_of
  length-content tokens =
      rw
        (
          length-append (opts.prefix ++ kept_of tokens) opts.suffix,
          length-append opts.prefix (kept_of tokens),
          length-kept tokens,
        )
        (omega arith)

  -- Where the ids of a row begin, and what the three copies leave there.
  start_of : ℕ → ℕ
  start_of n = if opts.pad_left then width - n else 0

  row_start-start_of : (n : ℕ) → n ≤ width → row_start opts width n ≡ ok (start_of n)
  unfolding row_start start_of
  row_start-start_of n room =
      let fits : leb n width ≡ true = ground arith in
      elim (Bool-cases opts.pad_left) [ inl e ↦ rw (e, fits) | inr e ↦ rw e ]

  padded-copies :
      (ids : List ℕ) (n tail : ℕ)
      → n ≡ length (opts.prefix ++ ids ++ opts.suffix)
      → n ≤ width
      → tail ≡ width - start_of n - n
      → replicate (start_of n) opts.pad_id
          ++ opts.prefix
          ++ ids
          ++ opts.suffix
          ++ replicate tail opts.pad_id
        ≡ padded opts width (opts.prefix ++ ids ++ opts.suffix)
  unfolding padded start_of
  padded-copies ids n tail e room t = elim (Bool-cases opts.pad_left) [
    | inl left ↦
        let none_left : tail ≡ 0 = t ∙ rw left (omega arith) in
        rw (left, none_left, append-nil, ← e) (simp append_assoc)
    | inr right ↦
        let all_left : tail ≡ width - n = t ∙ rw right (omega arith) in rw (right, all_left, ← e)
  ]

  start_of-room : (n : ℕ) → n ≤ width → start_of n + n ≤ width
  unfolding start_of
  start_of-room n room = elim (Bool-cases opts.pad_left) [
    | inl e ↦ rw e (omega arith)
    | inr e ↦ rw e (omega arith)
  ]

  fill_tokens :
      (tokens : List ℕ) (count : ℕ)
      → length tokens ≡ count
      → min count cap + extra opts ≤ width
      → (row_start opts width (min count cap + extra opts) >>= λ start.
          copy_at start opts.prefix (replicate width opts.pad_id) >>= λ row.
          copy_at (start + length opts.prefix) (truncated opts count (min count cap) tokens) row
          >>= λ row.
              copy_at (start + (min count cap + extra opts) - length opts.suffix) opts.suffix row)
        ≡ ok (padded opts width (content opts cap tokens))
  unfolding extra content kept_of
  fill_tokens tokens count size room =
      let ids = kept_of tokens in
      let kept : length ids ≡ min count cap = rw (← size) (length-kept tokens) in
      let same : truncated opts count (min count cap) tokens ≡ ids =
        rw (← size) (truncated-kept tokens) in
      let n = length ids + (length opts.prefix + length opts.suffix) in
      let size_n : n ≡ length (opts.prefix ++ ids ++ opts.suffix) =
        rw (length-append (opts.prefix ++ ids) opts.suffix, length-append opts.prefix ids)
          (omega arith) in
      let full : min count cap + extra opts ≡ n = omega (arith, kept) in
      rw (full, row_start-start_of n (omega arith), same)
        (copies opts.pad_id width (start_of n) opts.prefix ids opts.suffix
            (omega (arith, start_of-room n (omega arith)))
          ∙ ap ok (padded-copies ids n _ size_n (omega arith) (omega arith)))

  pub fill-padded :
      (flat : List ℕ) (offset count : ℕ)
      → offset + count ≤ length flat
      → min count cap + extra opts ≤ width
      → fill opts cap width flat offset count (replicate width opts.pad_id)
        ≡ ok (padded opts width (content opts cap (take count (drop offset flat))))
  unfolding fill tokens_at
  fill-padded flat offset count inside room =
      let size : length (take count (drop offset flat)) ≡ count =
        rw (length-take count (drop offset flat), length-drop offset flat) (omega arith) in
      let fits : leb (offset + count) (length flat) ≡ true = ground arith in
      rw (fits, fill) (fill_tokens (take count (drop offset flat)) count size room)

  pub length-padded : (ids : List ℕ) → length ids ≤ width → length (padded opts width ids) ≡ width
  unfolding padded
  length-padded ids room =
      let pad_size = length-replicate (width - length ids) opts.pad_id in
      elim (Bool-cases opts.pad_left) [
        | inl e ↦
            rw (e, length-append (replicate (width - length ids) opts.pad_id) ids)
              (omega (arith, pad_size))
        | inr e ↦
            rw (e, length-append ids (replicate (width - length ids) opts.pad_id))
              (omega (arith, pad_size))
      ]
