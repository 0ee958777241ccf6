-- ===== src/Merge/Links.antt =====
-- The doubly linked list in index arrays of src/bpe/mod.rs: its state, the compaction of the
-- survivors, and the invariant that ties the arrays to a list of live positions. An array is a
-- function; every index that the loops use lies below the length `n`.
pub mod Invariant
pub mod Symbols
pub mod Round
use supergigatoken.Base.{
  ℕ, zero, suc, ◌+◌, ◌≡◌, refl, Bool, true, false, List, [], ◌∷◌, ◌==◌, ltb, if◌then◌else◌, get_or,
}

abbrev pub Array : Type 0
Array = ℕ → ℕ

-- `array[i] = v`
abbrev pub update : Array → ℕ → ℕ → Array
update f i v j = if j == i then v else f j

-- The elements `i`, `i + 1`, …, `k` of them.
abbrev pub slice : Array → ℕ → ℕ → List ℕ
slice f i zero = []
slice f i (suc k) = f i ∷ slice f (i + 1) k

-- A list as an array.
abbrev pub array_of : List ℕ → Array
array_of xs i = get_or xs i 0

pub record Links : Type 0 where
  pub sym : Array
  pub next : Array
  pub prev : Array
  pub ranks : Array

-- The final loop: survivors move to the front; the result is the array and the surviving count.
-- Every round follows a link to a larger index, so `n` rounds are enough.
unfoldable pub compact : Array → ℕ → ℕ → Array → ℕ → ℕ → Array × ℕ
compact next n zero sym write i = (sym, write)
compact next n (suc fuel) sym write i = elim (ltb i n) [
  | true ↦ compact next n fuel (update sym write (sym i)) (write + 1) (next i)
  | false ↦ (sym, write)
]
