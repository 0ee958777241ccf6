-- ===== src/Train/Units/Cover.antt =====
-- The units of a line in src/bpe_train.rs: they cover the line in order, are nonempty and within the
-- cap, and end between characters wherever the cap allows it.
use supergigatoken.Base.{
  ℕ, zero, suc, ◌+◌, ◌-◌, ◌≤◌, ◌<◌, min, ◌≡◌, ◌∙◌, sym, ap, ◌⊎◌, inl, inr, true, false, some, List,
  [], ◌∷◌, ◌++◌, Bytes, ltb, ◌&&◌, length, take, drop, arith, Bool-cases, ltb→lt, ltb→le, concat,
  drop_all, drop-drop, take-append-drop,
}
use native.Mathlib.Decide.{ℕ_discrete}
use supergigatoken.Train.Units.{continues, back_off, unit_end, line_units}

-- Every position behind `lo` up to `hi` holds a continuation byte.
abbrev pub Continues : Bytes → ℕ → ℕ → Type 0
Continues line lo hi = (j : ℕ) → lo < j → j ≤ hi → continues line j ≡ true

-- A unit of `line` from `start` to `stop`: nonempty, within the cap, and it ends at the line's end,
-- between two characters, or at the cap if no character begins before that.
pub record IsUnit (line : Bytes) (cap start stop : ℕ) : Type 0 where
  pub filled : start < stop
  pub within : stop ≤ start + cap
  pub inside : stop ≤ length line
  pub boundary :
      (stop ≡ length line)
      ⊎ ((continues line stop ≡ false) ⊎ ((stop ≡ start + cap) × Continues line start stop))

-- The units of `line` from `start` on.
pub data Covers (line : Bytes) (cap : ℕ) : ℕ → List Bytes → Type 0 where
  done : {start : ℕ} → start ≡ length line → Covers line cap start []
  unit :
      {start : ℕ} {units : List Bytes} (stop : ℕ)
      → IsUnit line cap start stop
      → Covers line cap stop units
      → Covers line cap start (take (stop - start) (drop start line) ∷ units)

module _ (line : Bytes) where
  back_off_lem :
      (start k : ℕ)
      → (start ≤ back_off line start k)
        × (back_off line start k ≤ start + k)
        × Continues line (back_off line start k) (start + k)
        × (start < back_off line start k
            → (length line ≤ back_off line start k)
              ⊎ (continues line (back_off line start k) ≡ false))
  unfolding back_off
  back_off_lem start zero =
      (omega arith, omega arith, λ j p q. absurd (omega arith), λ h. absurd (omega arith))
  back_off_lem start (suc k) =
      elim (Bool-cases (ltb (start + suc k) (length line) && continues line (start + suc k))) [
        | inr e ↦
            rw (e, back_off)
              (omega arith, omega arith, (λ j p q. absurd (omega arith)), λ h. ground arith)
        | inl e ↦
            let (low, high, run, stop) = back_off_lem start k in
            rw (e, back_off)
              (
                low,
                omega arith,
                (λ j p q. elim (ℕ_discrete j (start + suc k)) [
                  | yes same ↦ rw same (ground arith)
                  | no other ↦ run j p (omega arith)
                ]),
                stop,
              )
      ]

  unit_end-IsUnit :
      (cap start : ℕ)
      → 0 < cap
      → start < length line
      → IsUnit line cap start (unit_end line cap start)
  unfolding unit_end
  unit_end-IsUnit cap start pos inside =
      let full = min (start + cap) (length line) in
      let (low, high, run, stop) = back_off_lem start (full - start) in
      let end = back_off line start (full - start) in
      elim (Bool-cases (ltb start end)) [
        | inl e ↦
            rw (e, unit_end)
              (record {
                filled = ltb→lt _ _ e;
                within = omega arith;
                inside = omega arith;
                boundary = elim (stop (ltb→lt _ _ e)) [
                  | inl past ↦ inl (omega arith)
                  | inr fresh ↦ inr (inl fresh)
                ];
              })
        | inr e ↦
            rw (e, unit_end)
              (record {
                filled = omega arith;
                within = omega arith;
                inside = omega arith;
                boundary = elim (ℕ_discrete full (length line)) [
                  | yes same ↦ inl same
                  | no other ↦
                      let none_left : end ≤ start = ltb→le _ _ e in
                      inr (inr (omega arith, λ j p q. run j (omega arith) (omega arith)))
                ];
              })
      ]

  -- Covering units spell what is left of the line.
  pub Covers-concat :
      (cap start : ℕ) (units : List Bytes)
      → Covers line cap start units
      → concat units ≡ drop start line
  Covers-concat cap start units (done e) = sym (drop_all start line (omega arith))
  Covers-concat cap start units (unit {units = us} stop u c) =
      let split : start + (stop - start) ≡ stop = omega (arith, u.filled) in
      ap (λ rest. take (stop - start) (drop start line) ++ rest)
        (Covers-concat cap stop us c ∙ sym (drop-drop start (stop - start) stop line split))
      ∙ take-append-drop (stop - start) (drop start line)

  -- With more fuel than bytes the loop ends, and its units cover the rest of the line.
  pub line_units-Covers :
      (cap fuel start : ℕ)
      → 0 < cap
      → start ≤ length line
      → length line < start + fuel
      → (units : List Bytes) × (line_units line cap fuel start ≡ some units)
        × Covers line cap start units
  unfolding line_units
  line_units-Covers cap zero start pos inside enough = absurd (omega arith)
  line_units-Covers cap (suc fuel) start pos inside enough =
      elim (Bool-cases (ltb start (length line))) [
        | inr e ↦ ([], rw (e, line_units), done (omega (arith, ltb→le _ _ e)))
        | inl e ↦
            let u = unit_end-IsUnit cap start pos (ltb→lt _ _ e) in
            let (units, run, c) =
              line_units-Covers cap fuel (unit_end line cap start) pos u.inside
                (omega (arith, u.filled)) in
            (
              take (unit_end line cap start - start) (drop start line) ∷ units,
              rw (e, line_units, run),
              unit (unit_end line cap start) u c,
            )
      ]

-- For every line and every cap above zero the units loop ends on one round more than the line has
-- bytes, each unit is a piece of the line that is nonempty, within the cap and cut between
-- characters wherever the cap allows it, and the units one after the other are the line.
pub line_units-cover :
    (line : Bytes) (cap : ℕ)
    → 0 < cap
    → (units : List Bytes) × (line_units line cap (suc (length line)) 0 ≡ some units)
      × Covers line cap 0 units
      × (concat units ≡ line)
line_units-cover line cap pos =
    let (units, run, c) =
      line_units-Covers line cap (suc (length line)) 0 pos (omega arith) (omega arith) in
    (units, run, c, Covers-concat line cap 0 units c)
