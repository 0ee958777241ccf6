-- ===== src/Train/Units.antt =====
-- src/bpe_train.rs: the relaxed pretokenization of the second training stage. A document is split at
-- separators and newlines, and a line into units of at most `max_unit_len` bytes that end between
-- characters. Counts are in the order of first occurrence.
pub mod Cover
pub mod Documents
pub mod Weight
use Prim.Native.Nat.{bit_and}
use supergigatoken.Base.{
  ℕ, zero, suc, ◌+◌, ◌-◌, min, max, Bool, true, false, Option, none, some, List, [], ◌∷◌, ◌++◌,
  Bytes, ltb, leb, ◌==◌, ◌&&◌, if◌then◌else◌, length, take, drop, get_or, lookup, insert, bytes_eq,
  map,
}

-- `(line[end] & 0xC0) == 0x80`
unfoldable pub continues : Bytes → ℕ → Bool
continues line i = bit_and (get_or line i 0) 0xC0 == 0x80

-- The `while` that backs off to a character boundary; `k = end - start` is what it may give up.
unfoldable pub back_off : Bytes → ℕ → ℕ → ℕ
unfolding continues
back_off line start zero = start
back_off line start (suc k) =
    let shorter = back_off line start k in
    if ltb (start + suc k) (length line) && continues line (start + suc k)
    then shorter
    else start + suc k

-- The end of the unit that starts at `start`.
unfoldable pub unit_end : Bytes → ℕ → ℕ → ℕ
unfolding back_off
unit_end line max_unit_len start =
    let full = min (start + max_unit_len) (length line) in
    let end = back_off line start (full - start) in if ltb start end then end else full

-- The `while start < line.len()` loop on fuel: the units, in order; `none` means no fuel is left.
unfoldable pub line_units : Bytes → ℕ → ℕ → ℕ → Option (List Bytes)
unfolding unit_end
line_units line max_unit_len zero start = none
line_units line max_unit_len (suc fuel) start = elim (ltb start (length line)) [
  | false ↦ some []
  | true ↦
      let end = unit_end line max_unit_len start in
      elim (line_units line max_unit_len fuel end) [
        | none ↦ none
        | some units ↦ some (take (end - start) (drop start line) ∷ units)
      ]
]

abbrev pub UnitCounts : Type 0
UnitCounts = List (Bytes × ℕ)

count_of : Option ℕ → ℕ
count_of none = 0
count_of (some n) = n

-- `*counts.entry(unit).or_default() += 1`
unfoldable pub add_unit : Bytes → UnitCounts → UnitCounts
unfolding count_of
add_unit unit counts = insert unit (count_of (lookup unit counts) + 1) counts

unfoldable pub add_units : List Bytes → UnitCounts → UnitCounts
unfolding add_unit
add_units [] counts = counts
add_units (u ∷ us) counts = add_units us (add_unit u counts)

-- `push_line_units`; every round advances, so one round for each byte and one more are enough.
unfoldable pub push_line_units : Bytes → ℕ → UnitCounts → Option UnitCounts
unfolding line_units add_units
push_line_units line max_unit_len counts =
    elim (line_units line max_unit_len (suc (length line)) 0) [
      | none ↦ none
      | some units ↦ some (add_units units counts)
    ]

-- `doc.split(|&b| b == b'\n')`, with the current line.
unfoldable pub split_lines : Bytes → Bytes → List Bytes
split_lines cur [] = cur ∷ []
split_lines cur (b ∷ doc) = elim (b == 10) [
  | true ↦ cur ∷ split_lines [] doc
  | false ↦ split_lines (cur ++ b ∷ []) doc
]

-- `process_doc`: every line that is not empty.
unfoldable pub process_lines : ℕ → List Bytes → UnitCounts → Option UnitCounts
unfolding push_line_units
process_lines max_unit_len [] counts = some counts
process_lines max_unit_len ([] ∷ lines) counts = process_lines max_unit_len lines counts
process_lines max_unit_len ((b ∷ line) ∷ lines) counts =
    elim (push_line_units (b ∷ line) max_unit_len counts) [
      | none ↦ none
      | some counts' ↦ process_lines max_unit_len lines counts'
    ]

unfoldable pub process_docs : ℕ → List Bytes → UnitCounts → Option UnitCounts
unfolding process_lines split_lines
process_docs max_unit_len [] counts = some counts
process_docs max_unit_len (doc ∷ docs) counts =
    elim (process_lines max_unit_len (split_lines [] doc) counts) [
      | none ↦ none
      | some counts' ↦ process_docs max_unit_len docs counts'
    ]

abbrev pub cons_doc : Bytes → Option (List Bytes) → Option (List Bytes)
cons_doc doc none = none
cons_doc doc (some docs) = some (doc ∷ docs)

-- The documents between the positions that the substring search reports, from `last` on: the slices
-- `bytes[last..pos]` and, at the end, `bytes[last..]`; `none` is the panic of a slice out of range.
unfoldable pub documents : Bytes → ℕ → ℕ → List ℕ → Option (List Bytes)
documents bytes width last [] =
    if leb last (length bytes) then some (drop last bytes ∷ []) else none
documents bytes width last (pos ∷ positions) =
    let rest = documents bytes width (pos + width) positions in
    if leb last pos && leb pos (length bytes)
    then cons_doc (take (pos - last) (drop last bytes)) rest
    else none

abbrev pub is_empty : Bytes → Bool
is_empty [] = true
is_empty (b ∷ s) = false

unfoldable pub process_all : ℕ → Option (List Bytes) → Option UnitCounts
unfolding process_docs
process_all cap none = none
process_all cap (some docs) = process_docs cap docs []

-- `relaxed_unit_counts`, over the substring search `find_iter` of the memchr library.
unfoldable pub relaxed_unit_counts :
    (Bytes → Bytes → List ℕ) → Bytes → Bytes → ℕ → Option UnitCounts
unfolding process_all documents
relaxed_unit_counts find_iter bytes separator max_unit_len = process_all (max max_unit_len 1) (
    if is_empty separator
    then some (bytes ∷ [])
    else documents bytes (length separator) 0 (find_iter bytes separator))
