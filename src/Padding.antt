-- ===== src/Padding.antt =====
-- src/bindings/padding.rs: a ragged batch of token ids assembled into one matrix, row after row. The
-- parallel and the sequential pass fill the same disjoint rows, so one definition stands for both.
-- The conversions to and from Python are not here.
pub mod Rows
pub mod Matrix
use supergigatoken.Base.{
  ℕ, ◌+◌, ◌*◌, ◌-◌, ◌%◌, ◌^◌, min, max, Bool, true, false, Option, none, some, List, [], ◌∷◌, ◌++◌,
  leb, ltb, if◌then◌else◌, length, take, drop, replicate, concat,
}

pub record PadTruncate : Type 0 where
  pub pad_id : ℕ
  pub max_length : Option ℕ
  pub pad_to_max_length : Bool
  pub truncate : Bool
  pub pad_left : Bool
  pub truncate_left : Bool
  pub prefix : List ℕ
  pub suffix : List ℕ

-- The messages of the `ValueError`s, with the numbers they show.
pub data Message : Type 0 where
  truncate_requires_max_length pad_requires_max_length : Message
  leaves_no_room : ℕ → ℕ → Message
  too_long : ℕ → ℕ → Message

pub data Outcome {ℓ} (A : Type ℓ) : Type ℓ where
  ok : A → Outcome A
  value_err : Message → Outcome A
  panic : Outcome A

infixl 5 ◌>>=◌
abbrev pub ◌>>=◌ {ℓ κ} : {A : Type ℓ} {B : Type κ} → Outcome A → (A → Outcome B) → Outcome B
ok a >>= f = f a
value_err m >>= f = value_err m
panic >>= f = panic

abbrev pub or_err {ℓ} : {A : Type ℓ} → Option A → Message → Outcome A
or_err none m = value_err m
or_err (some a) m = ok a

-- The check of a range before a slice is taken.
abbrev pub guard {ℓ} : {A : Type ℓ} → Bool → A → Outcome A
guard false a = panic
guard true a = ok a

-- `usize::MAX`
abbrev pub usize_max : ℕ
usize_max = 18446744073709551615

-- The special tokens of each row.
unfoldable pub extra : PadTruncate → ℕ
extra opts = length opts.prefix + length opts.suffix

-- The most tokens that a row keeps.
unfoldable pub cap_of : PadTruncate → Outcome ℕ
unfolding extra
cap_of opts =
    if opts.truncate
    then (or_err opts.max_length truncate_requires_max_length >>= λ m.
        if leb (extra opts) m
        then ok (m - extra opts)
        else value_err (leaves_no_room m (extra opts)))
    else ok usize_max

-- What the loop over the counts collects.
pub record Measures : Type 0 where
  pub offsets : List ℕ
  pub lengths : List ℕ
  pub longest : ℕ

unfoldable pub measure : ℕ → ℕ → ℕ → ℕ → List ℕ → Measures
measure cap more pos longest [] = record { offsets = []; lengths = []; longest = longest }
measure cap more pos longest (count ∷ counts) =
    let kept = min count cap in
    let rest = measure cap more (pos + count) (max longest (kept + more)) counts in
    record {
      offsets = pos ∷ rest.offsets;
      lengths = (kept + more) ∷ rest.lengths;
      longest = rest.longest;
    }

unfoldable pub width_of : PadTruncate → ℕ → Outcome ℕ
width_of opts longest =
    if opts.pad_to_max_length
    then (or_err opts.max_length pad_requires_max_length >>= λ m.
        if ltb m longest then value_err (too_long longest m) else ok m)
    else ok longest

-- `row[at..at + src.len()].copy_from_slice(src)`
unfoldable pub copy_at : ℕ → List ℕ → List ℕ → Outcome (List ℕ)
copy_at at src row =
    guard (leb (at + length src) (length row)) (take at row ++ src ++ drop (at + length src) row)

-- `flat[offset..offset + count]`
unfoldable pub tokens_at : List ℕ → ℕ → ℕ → Outcome (List ℕ)
tokens_at flat offset count =
    guard (leb (offset + count) (length flat)) (take count (drop offset flat))

-- The tokens that stay.
unfoldable pub truncated : PadTruncate → ℕ → ℕ → List ℕ → List ℕ
truncated opts count kept tokens =
    if opts.truncate_left then drop (count - kept) tokens else take kept tokens

-- Where the row's own ids begin; `width - len` panics when it underflows.
unfoldable pub row_start : PadTruncate → ℕ → ℕ → Outcome ℕ
row_start opts width len = if opts.pad_left then guard (leb len width) (width - len) else ok 0

-- The closure `fill` on a row of the matrix.
unfoldable pub fill : PadTruncate → ℕ → ℕ → List ℕ → ℕ → ℕ → List ℕ → Outcome (List ℕ)
unfolding extra copy_at tokens_at truncated row_start
fill opts cap width flat offset count row = do
  tokens ← tokens_at flat offset count
  start ← row_start opts width (min count cap + extra opts)
  row ← copy_at start opts.prefix row
  row ← copy_at (start + length opts.prefix) (truncated opts count (min count cap) tokens) row
  copy_at (start + (min count cap + extra opts) - length opts.suffix) opts.suffix row

abbrev pub is_empty : List ℕ → Bool
is_empty [] = true
is_empty (x ∷ xs) = false

-- `chunks_mut(width)` with `fill`: the rows in order, each with its offset and count. `counts[i]` panics
-- behind the last count.
unfoldable pub fill_rows :
    PadTruncate → ℕ → ℕ → List ℕ → List ℕ → List ℕ → List ℕ → Outcome (List ℕ)
unfolding fill
fill_rows opts cap width flat (offset ∷ offsets) (count ∷ counts) out =
    if is_empty out then ok [] else do
      row ← fill opts cap width flat offset count (take width out)
      rows ← fill_rows opts cap width flat offsets counts (drop width out)
      ok (row ++ rows)
fill_rows opts cap width flat [] counts out = guard (is_empty out) []
fill_rows opts cap width flat (offset ∷ offsets) [] out = guard (is_empty out) []

-- `vec![pad_id; rows * width]`: the product wraps in a release build, and an allocation of more than
-- `isize::MAX` bytes, four to an id, panics.
unfoldable pub padding : ℕ → ℕ → ℕ → Outcome (List ℕ)
padding pad_id rows width =
    guard (ltb (rows * width % 2 ^ 64 * 4) (2 ^ 63)) (replicate (rows * width % 2 ^ 64) pad_id)

-- The matrix data, the length of each row without its padding, and the width.
abbrev pub Matrix : Type 0
Matrix = List ℕ × List ℕ × ℕ

unfoldable pub pad_truncate_matrix : List ℕ → List ℕ → PadTruncate → Outcome Matrix
unfolding cap_of measure width_of padding fill_rows extra
pad_truncate_matrix flat counts opts = do
  cap ← cap_of opts
  width ← width_of opts (measure cap (extra opts) 0 0 counts).longest
  out ← padding opts.pad_id (length counts) width
  matrix ←
      if ltb 0 width
      then fill_rows opts cap width flat (measure cap (extra opts) 0 0 counts).offsets counts out
      else ok out
  ok (matrix, (measure cap (extra opts) 0 0 counts).lengths, width)
