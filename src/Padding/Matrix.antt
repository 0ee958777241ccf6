-- ===== src/Padding/Matrix.antt =====
-- What `pad_truncate_matrix` of src/bindings/padding.rs returns, with every error, against the batch
-- cut into its sequences.
use supergigatoken.Base.{
  ℕ, zero, suc, ◌+◌, ◌*◌, ◌-◌, ◌≤◌, ◌<◌, min, max, ◌≡◌, refl, ◌∙◌, inl, inr, true, false, List, [],
  ◌∷◌, leb, ltb, if◌then◌else◌, length, take, drop, replicate, concat, map, arith, All, length-take,
  length-drop, Bool-cases, ltb→le, ltb→lt, leb→le, Option-cases, none, some, drop-drop,
  take-replicate, drop-replicate, ◌%◌, ◌^◌,
}
use supergigatoken.Padding.{
  PadTruncate, Outcome, usize_max, truncate_requires_max_length, leaves_no_room,
  pad_requires_max_length, too_long, ok, value_err, ◌>>=◌, extra, cap_of, measure, width_of,
  fill_rows, is_empty, padding, Matrix, pad_truncate_matrix,
}
use supergigatoken.Padding.Rows.{content, padded, length-content, fill-padded, length-padded}

-- The flat batch cut into its sequences.
pub sequences : List ℕ → List ℕ → List (List ℕ)
sequences flat [] = []
sequences flat (count ∷ counts) = take count flat ∷ sequences (drop count flat) counts

unfoldable pub total : List ℕ → ℕ
total [] = 0
total (n ∷ ns) = n + total ns

pub largest : List ℕ → ℕ
largest [] = 0
largest (n ∷ ns) = max n (largest ns)

-- The rows that the matrix is to hold.
pub rows : PadTruncate → ℕ → ℕ → List ℕ → List ℕ → List (List ℕ)
rows opts cap width flat counts =
    map (λ tokens. padded opts width (content opts cap tokens)) (sequences flat counts)

-- The length of each row without its padding.
pub lengths : PadTruncate → ℕ → List ℕ → List ℕ
lengths opts cap counts = map (λ count. min count cap + extra opts) counts

replicate-filled : (n z : ℕ) → 0 < n → is_empty (replicate n z) ≡ false
replicate-filled zero z h = absurd (omega arith)
replicate-filled (suc n) z h = refl

padding-replicate :
    (z rows width : ℕ)
    → rows * width * 4 < 2 ^ 63
    → padding z rows width ≡ ok (replicate (rows * width) z)
unfolding padding
padding-replicate z rows width fits =
    let whole : rows * width % 2 ^ 64 ≡ rows * width = omega arith in
    let small : ltb (rows * width * 4) (2 ^ 63) ≡ true = ground arith in rw (whole, small) refl

module _ (opts : PadTruncate) (cap : ℕ) where
  measure-longest :
      (counts : List ℕ) (pos longest : ℕ)
      → (measure cap (extra opts) pos longest counts).longest
        ≡ max longest (largest (lengths opts cap counts))
  unfolding measure largest lengths
  measure-longest [] pos longest = omega arith
  measure-longest (count ∷ counts) pos longest =
      omega (arith, measure-longest counts (pos + count) (max longest (min count cap + extra opts)))

  measure-lengths :
      (counts : List ℕ) (pos longest : ℕ)
      → (measure cap (extra opts) pos longest counts).lengths ≡ lengths opts cap counts
  unfolding measure lengths
  measure-lengths [] pos longest = refl
  measure-lengths (count ∷ counts) pos longest =
      rw (measure-lengths counts (pos + count) (max longest (min count cap + extra opts)))

  module _ (width : ℕ) where
    fill_rows-rows :
        (flat counts : List ℕ) (pos longest size : ℕ)
        → 0 < width
        → size ≡ length counts * width
        → pos + total counts ≤ length flat
        → largest (lengths opts cap counts) ≤ width
        → fill_rows opts cap width flat
            (measure cap (extra opts) pos longest counts).offsets
            counts
            (replicate size opts.pad_id)
          ≡ ok (concat (rows opts cap width (drop pos flat) counts))
    unfolding fill_rows measure rows sequences total largest lengths
    fill_rows-rows flat [] pos longest size wide e inside room =
        let nothing : size ≡ 0 = omega (arith, e) in rw nothing refl
    fill_rows-rows flat (count ∷ counts) pos longest size wide e inside room =
        let split : size ≡ width + length counts * width = grind (arith, e) in
        let filled : is_empty (replicate size opts.pad_id) ≡ false =
          replicate-filled size opts.pad_id (omega (arith, split, wide)) in
        rw (
          filled,
          take-replicate width size opts.pad_id (omega (arith, split)),
          drop-replicate width size opts.pad_id,
          fill-padded opts cap width flat pos count (omega arith) (omega arith),
          fill_rows-rows flat counts (pos + count) (max longest (min count cap + extra opts))
              (size - width) wide (omega (arith, split)) (omega arith) (omega arith),
          drop-drop pos count (pos + count) flat refl,
        )

    rows-width :
        (flat counts : List ℕ)
        → total counts ≤ length flat
        → largest (lengths opts cap counts) ≤ width
        → All (λ row. length row ≡ width) (rows opts cap width flat counts)
    unfolding rows sequences total largest lengths
    rows-width flat [] inside room = tt
    rows-width flat (count ∷ counts) inside room = (
      length-padded opts cap width (content opts cap (take count flat))
          (omega (arith, length-content opts cap width (take count flat), length-take count flat)),
      rows-width (drop count flat) counts (omega (arith, length-drop count flat)) (omega arith),
    )

-- `cap` tokens of a sequence fit: what `max_length` leaves, or any number without truncation.
pub data HasCap (opts : PadTruncate) (cap : ℕ) : Type 0 where
  limited :
      (m : ℕ)
      → opts.truncate ≡ true
      → opts.max_length ≡ some m
      → cap + extra opts ≡ m
      → HasCap opts cap
  unlimited : opts.truncate ≡ false → cap ≡ usize_max → HasCap opts cap

-- The rows are as wide as `max_length` on request, else as the longest content.
pub data HasWidth (opts : PadTruncate) (longest width : ℕ) : Type 0 where
  fixed :
      opts.pad_to_max_length ≡ true
      → opts.max_length ≡ some width
      → longest ≤ width
      → HasWidth opts longest width
  fitted : opts.pad_to_max_length ≡ false → width ≡ longest → HasWidth opts longest width

-- The matrix of the padded rows, or the error that the options deserve.
pub data IsOutcome (flat counts : List ℕ) (opts : PadTruncate) : Outcome Matrix → Type 0 where
  returned :
      (cap width : ℕ)
      → HasCap opts cap
      → HasWidth opts (largest (lengths opts cap counts)) width
      → All (λ row. length row ≡ width) (rows opts cap width flat counts)
      → IsOutcome flat counts opts
          (ok (concat (rows opts cap width flat counts), lengths opts cap counts, width))
  no_limit :
      opts.truncate ≡ true
      → opts.max_length ≡ none
      → IsOutcome flat counts opts (value_err truncate_requires_max_length)
  no_room :
      (m : ℕ)
      → opts.truncate ≡ true
      → opts.max_length ≡ some m
      → m < extra opts
      → IsOutcome flat counts opts (value_err (leaves_no_room m (extra opts)))
  no_width :
      opts.pad_to_max_length ≡ true
      → opts.max_length ≡ none
      → IsOutcome flat counts opts (value_err pad_requires_max_length)
  no_fit :
      (cap m : ℕ)
      → HasCap opts cap
      → opts.pad_to_max_length ≡ true
      → opts.max_length ≡ some m
      → m < largest (lengths opts cap counts)
      → IsOutcome flat counts opts (value_err (too_long (largest (lengths opts cap counts)) m))

empty_rows :
    (width : ℕ) (rs : List (List ℕ))
    → width ≡ 0
    → All (λ row. length row ≡ width) rs
    → concat rs ≡ []
empty_rows width [] z e = refl
empty_rows width ([] ∷ rs) z e = empty_rows width rs z e.1
empty_rows width ((x ∷ xs) ∷ rs) z e = absurd (omega (arith, e.0))

-- Every matrix that the options can ask for is below 2^63 bytes, four to an id.
abbrev pub IsAllocatable : List ℕ → PadTruncate → Type 0
IsAllocatable counts opts =
    (cap width : ℕ)
    → HasCap opts cap
    → HasWidth opts (largest (lengths opts cap counts)) width
    → length counts * width * 4 < 2 ^ 63

module _ (flat counts : List ℕ) (opts : PadTruncate) (inside : total counts ≤ length flat)
    (fits : IsAllocatable counts opts) where
  -- The passes behind the choice of the cap and the width.
  assemble : ℕ → ℕ → Outcome Matrix
  assemble cap width = do
    out ← padding opts.pad_id (length counts) width
    filled ←
        if ltb 0 width
        then fill_rows opts cap width flat (measure cap (extra opts) 0 0 counts).offsets counts out
        else ok out
    ok (filled, (measure cap (extra opts) 0 0 counts).lengths, width)

  assemble-rows :
      (cap width : ℕ)
      → largest (lengths opts cap counts) ≤ width
      → length counts * width * 4 < 2 ^ 63
      → assemble cap width
        ≡ ok (concat (rows opts cap width flat counts), lengths opts cap counts, width)
  unfolding assemble
  assemble-rows cap width room small =
      let alloc = padding-replicate opts.pad_id (length counts) width small in
      let wide = rows-width opts cap width flat counts inside room in
      elim (Bool-cases (ltb 0 width)) [
        | inl e ↦ rw (
          alloc,
          e,
          fill_rows-rows opts cap width flat counts 0 0 (length counts * width) (ltb→lt _ _ e) refl
              (omega (arith, inside)) room,
          measure-lengths opts cap counts 0 0,
        )
        | inr e ↦
            let zero_width : width ≡ 0 = ground arith in
            let none_left : concat (rows opts cap width flat counts) ≡ [] =
              empty_rows width (rows opts cap width flat counts) zero_width wide in
            let no_pads : length counts * width ≡ 0 = rw zero_width (omega arith) in
            rw (alloc, e, measure-lengths opts cap counts 0 0, none_left, no_pads)
      ]

  width_of-cases :
      (cap longest : ℕ)
      → HasCap opts cap
      → longest ≡ largest (lengths opts cap counts)
      → IsOutcome flat counts opts (width_of opts longest >>= assemble cap)
  width_of-cases cap longest has same = elim (Bool-cases opts.pad_to_max_length) [
    | inr fit ↦
        let run : width_of opts longest ≡ ok longest = unfold width_of in rw fit in
        let asked : HasWidth opts (largest (lengths opts cap counts)) longest = fitted fit same in
        rw (run, assemble-rows cap longest (omega arith) (fits cap longest has asked))
          (returned cap longest has asked
            (rows-width opts cap longest flat counts inside (omega arith)))
    | inl pad ↦ elim (Option-cases opts.max_length) [
      | inl missing ↦
          let run : width_of opts longest ≡ value_err pad_requires_max_length =
            unfold width_of in rw (pad, missing) in
          rw run (no_width pad missing)
      | inr (m, given) ↦ elim (Bool-cases (ltb m longest)) [
        | inl long ↦
            let run : width_of opts longest ≡ value_err (too_long longest m) =
              unfold width_of in rw (pad, given, long) in
            rw (run, same) (no_fit cap m has pad given (omega (arith, ltb→lt _ _ long)))
        | inr enough ↦
            let room : largest (lengths opts cap counts) ≤ m = omega (arith, ltb→le _ _ enough) in
            let run : width_of opts longest ≡ ok m = unfold width_of in rw (pad, given, enough) in
            let asked : HasWidth opts (largest (lengths opts cap counts)) m =
              fixed pad given room in
            rw (run, assemble-rows cap m room (fits cap m has asked))
              (returned cap m has asked (rows-width opts cap m flat counts inside room))
      ]
    ]
  ]

  IsOutcome-width :
      (cap : ℕ)
      → HasCap opts cap
      → IsOutcome flat counts opts
          (width_of opts (measure cap (extra opts) 0 0 counts).longest >>= assemble cap)
  IsOutcome-width cap has =
      width_of-cases cap (measure cap (extra opts) 0 0 counts).longest has
        (measure-longest opts cap counts 0 0 ∙ omega arith)

  abbrev after_cap : ℕ → Outcome Matrix
  after_cap cap = width_of opts (measure cap (extra opts) 0 0 counts).longest >>= assemble cap

  IsOutcome-cap : IsOutcome flat counts opts (cap_of opts >>= after_cap)
  IsOutcome-cap = elim (Bool-cases opts.truncate) [
    | inr all ↦
        let run : cap_of opts ≡ ok usize_max = unfold cap_of in rw all in
        rw run (IsOutcome-width usize_max (unlimited all refl))
    | inl short ↦ elim (Option-cases opts.max_length) [
      | inl missing ↦
          let run : cap_of opts ≡ value_err truncate_requires_max_length =
            unfold cap_of in rw (short, missing) in
          rw run (no_limit short missing)
      | inr (m, given) ↦ elim (Bool-cases (leb (extra opts) m)) [
        | inl room ↦
            let run : cap_of opts ≡ ok (m - extra opts) =
              unfold cap_of in rw (short, given, room) in
            rw run (
              IsOutcome-width (m - extra opts)
                (limited m short given (omega (arith, leb→le _ _ room))))
        | inr tight ↦
            let run : cap_of opts ≡ value_err (leaves_no_room m (extra opts)) =
              unfold cap_of in rw (short, given, tight) in
            rw run (no_room m short given (ground arith))
      ]
    ]
  ]

-- If the counts name no more ids than the batch has, and the matrix that the options ask for is below
-- 2^63 bytes, four to an id, `pad_truncate_matrix` does not panic. It returns the rows one after the
-- other, each row its sequence truncated at the chosen side between the special ids and padded at the
-- chosen side to the common width, with the lengths of the rows without padding; or the error of options
-- that lack `max_length`, leave no room or are exceeded.
pub pad_truncate_matrix-IsOutcome :
    (flat counts : List ℕ) (opts : PadTruncate)
    → total counts ≤ length flat
    → IsAllocatable counts opts
    → IsOutcome flat counts opts (pad_truncate_matrix flat counts opts)
unfolding pad_truncate_matrix assemble
pad_truncate_matrix-IsOutcome flat counts opts inside fits =
    IsOutcome-cap flat counts opts inside fits
