-- ===== src/Pretokenize/Machine/Tiles.antt =====
-- The tokens of the state machine of src/pretokenize/reference/state_machine.rs tile the text.
use supergigatoken.Base.{
  ℕ, zero, suc, ◌+◌, ◌*◌, ◌-◌, ◌≤◌, ◌<◌, ◌≡◌, refl, sym, ap, ◌∙◌, inl, inr, ◌⊎◌, Option, some, none,
  Bytes, List, [], min, ◌∷◌, ◌++◌, length, drop, concat, arith, All, take-append-drop, drop-drop,
  drop_all, length-take, length-drop,
}
use supergigatoken.Pretokenize.Unicode.{Icu}
use supergigatoken.Pretokenize.Machine.{
  PretokenizerState, start, finish, Verdict, span, round, machine_loop, PretokenizerIter, new,
  nonempty, next_state_machine, collect, pretokens,
}
use supergigatoken.Pretokenize.Machine.Text.{At, IsText}
use supergigatoken.Pretokenize.Machine.Run.{
  Room, room_start, room_finish, IsNext, going, token, last_token, left, weight, round-IsNext,
}

module _ (icu : Icu) (bytes : Bytes) where
  -- A call of the iterator yields the bytes from `cur` to a position between characters, and none
  -- only at the end of the text.
  pub data IsYield (cur : ℕ) : Option (PretokenizerState × Bytes × ℕ) → Type 0 where
    yields :
        (state : PretokenizerState) (to : ℕ)
        → cur ≤ to
        → At icu bytes to
        → Room icu bytes to to state
        → (to ≤ cur → to ≡ length bytes)
        → IsYield cur (some (state, span icu bytes cur to, to))

  run-IsYield :
      (fuel : ℕ) (state : PretokenizerState) (cur pos : ℕ)
      → At icu bytes cur
      → ((state' : PretokenizerState) (pos' : ℕ)
          → At icu bytes pos'
          → Room icu bytes cur pos' state'
          → left bytes state' pos' < fuel
          → IsYield cur (machine_loop icu bytes fuel state' cur pos'))
      → (v : Verdict) → round icu bytes state cur pos ≡ v
      → IsNext icu bytes state cur pos v
      → left bytes state pos < suc fuel
      → IsYield cur (machine_loop icu bytes (suc fuel) state cur pos)
  unfolding machine_loop
  run-IsYield fuel state cur pos from rest v e (going state' cur' pos' same there room less)
        enough =
      rw (machine_loop, e, same) (rest state' pos' there room (omega arith))
  run-IsYield fuel state cur pos from rest v e (token to lt there) enough =
      rw (machine_loop, e)
        (yields start to (omega arith) there (room_start (omega arith))
          (λ le. absurd (omega arith)))
  run-IsYield fuel state cur pos from rest v e (last_token to there end) enough =
      rw (machine_loop, e)
        (yields finish to (omega (arith, from.inside)) there (room_finish (omega arith) end)
          (λ le. end))

  machine_loop-IsYield :
      (fuel : ℕ) (state : PretokenizerState) (cur pos : ℕ)
      → At icu bytes cur
      → At icu bytes pos
      → Room icu bytes cur pos state
      → left bytes state pos < fuel
      → IsYield cur (machine_loop icu bytes fuel state cur pos)
  machine_loop-IsYield zero state cur pos from here room enough = absurd (omega arith)
  machine_loop-IsYield (suc fuel) state cur pos from here room enough =
      run-IsYield fuel state cur pos from
        (λ state' pos' there room' enough'.
          machine_loop-IsYield fuel state' cur pos' from there room' enough')
        (round icu bytes state cur pos) refl (round-IsNext icu bytes cur pos here state room) enough

  span-filled : (cur to : ℕ) → cur ≤ to → 0 < length (span icu bytes cur to) → cur < to
  span-filled cur to le filled = omega (arith, length-take (to - cur) (drop cur bytes))

  weight-le : (state : PretokenizerState) → weight state ≤ 2
  weight-le state = ground arith

  span-append :
      (from to : ℕ) → from ≤ to → span icu bytes from to ++ drop to bytes ≡ drop from bytes
  span-append from to le =
      rw (← drop-drop from (to - from) to bytes (omega arith))
        (take-append-drop (to - from) (drop from bytes))

abbrev pub HasBytes : Bytes → Type 0
HasBytes s = 0 < length s

nonempty-cases :
    (s : Bytes) → ((s ≡ []) × (nonempty s ≡ none)) ⊎ (HasBytes s × (nonempty s ≡ some s))
nonempty-cases [] = inl (refl, refl)
nonempty-cases (b ∷ s) = inr (omega arith, refl)

abbrev at_pos : Bytes → PretokenizerState → ℕ → PretokenizerIter
at_pos bytes state pos = record { bytes = bytes; pos = pos; state = state }

module _ (icu : Icu) (bytes : Bytes) where
  data IsTaken (cur : ℕ) : Option (Option Bytes × PretokenizerIter) → Type 0 where
    done : (it : PretokenizerIter) → drop cur bytes ≡ [] → IsTaken cur (some (none, it))
    took :
        (s : Bytes) (state : PretokenizerState) (to : ℕ)
        → HasBytes s
        → s ++ drop to bytes ≡ drop cur bytes
        → cur < to
        → At icu bytes to
        → Room icu bytes to to state
        → IsTaken cur (some (some s, at_pos bytes state to))

  yield-IsTaken :
      (state : PretokenizerState) (cur : ℕ) (r : Option (PretokenizerState × Bytes × ℕ))
      → machine_loop icu bytes (length bytes * 3 + 3) state cur cur ≡ r
      → IsYield icu bytes cur r
      → At icu bytes cur
      → IsTaken cur (next_state_machine icu (at_pos bytes state cur))
  unfolding next_state_machine
  yield-IsTaken state cur _ e (yields state' to le there room end) from =
      elim (nonempty-cases (span icu bytes cur to)) [
        | inl (empty, e') ↦
            let stays : length (span icu bytes cur to) ≡ 0 = ap length empty in
            let long : length (span icu bytes cur to) ≡ min (to - cur) (length bytes - cur) =
              length-take (to - cur) (drop cur bytes)
              ∙ ap (min (to - cur)) (length-drop cur bytes) in
            rw (next_state_machine, e, e')
              (done (at_pos bytes state' to) (
                drop_all cur bytes (
                  omega (
                    arith,
                    stays,
                    long,
                    there.inside,
                    end (omega (arith, stays, long, there.inside)),
                  ))))
        | inr (filled, e') ↦
            rw (next_state_machine, e, e')
              (took (span icu bytes cur to) state' to filled (span-append icu bytes cur to le)
                (span-filled icu bytes cur to le filled) there room)
      ]

  next-IsTaken :
      (state : PretokenizerState) (cur : ℕ)
      → At icu bytes cur
      → Room icu bytes cur cur state
      → IsTaken cur (next_state_machine icu (at_pos bytes state cur))
  next-IsTaken state cur from room =
      yield-IsTaken state cur (machine_loop icu bytes (length bytes * 3 + 3) state cur cur) refl
        (machine_loop-IsYield icu bytes (length bytes * 3 + 3) state cur cur from from room
          (omega (arith, weight-le icu bytes state)))
        from

  abbrev Tiling : ℕ → Option (List Bytes) → Type 0
  Tiling cur r =
      (tokens : List Bytes) × (r ≡ some tokens)
      × (concat tokens ≡ drop cur bytes)
      × All HasBytes tokens

  taken-Tiling :
      (fuel : ℕ) (state : PretokenizerState) (cur : ℕ)
      → ((state' : PretokenizerState) (to : ℕ)
          → At icu bytes to
          → Room icu bytes to to state'
          → length bytes < fuel + to
          → Tiling to (collect icu fuel (at_pos bytes state' to)))
      → (r : Option (Option Bytes × PretokenizerIter))
      → next_state_machine icu (at_pos bytes state cur) ≡ r
      → IsTaken cur r
      → length bytes < suc fuel + cur
      → Tiling cur (collect icu (suc fuel) (at_pos bytes state cur))
  unfolding collect
  taken-Tiling fuel state cur rest r e (done it nothing) enough =
      ([], rw (collect, e) refl, sym nothing, tt)
  taken-Tiling fuel state cur rest r e (took s state' to filled parts lt there room) enough =
      let (tokens, run, tiles, all) = rest state' to there room (omega arith) in
      (s ∷ tokens, rw (collect, e, run) refl, rw tiles parts, (filled, all))

  collect-Tiling :
      (fuel : ℕ) (state : PretokenizerState) (cur : ℕ)
      → At icu bytes cur
      → Room icu bytes cur cur state
      → length bytes < fuel + cur
      → Tiling cur (collect icu fuel (at_pos bytes state cur))
  collect-Tiling zero state cur from room enough = absurd (omega (arith, from.inside))
  collect-Tiling (suc fuel) state cur from room enough =
      taken-Tiling fuel state cur (collect-Tiling fuel)
        (next_state_machine icu (at_pos bytes state cur)) refl (next-IsTaken state cur from room)
        enough

-- On bytes that are ASCII bytes and characters of at most four bytes that the decoder reads, whatever
-- the tables of characters say, the iterator yields tokens and then stops; every token has a byte, and the tokens
-- one behind the other are the bytes.
pub pretokens-concat :
    (icu : Icu) (bytes : Bytes)
    → IsText icu bytes
    → (tokens : List Bytes) × (pretokens icu bytes ≡ some tokens)
      × (concat tokens ≡ bytes)
      × All HasBytes tokens
unfolding pretokens new
pretokens-concat icu bytes text =
    collect-Tiling icu bytes (suc (length bytes)) start 0
      (record { inside = omega arith; text = text }) (room_start (omega arith)) (omega arith)
