-- ===== src/Kernel/Shards/Time.antt =====
-- The loop of `plan_shards` over a time range: it ends, and its ranges tile the primary range.
use portable_batch_execution.Base.{
  ℕ, zero, suc, ◌+◌, ◌-◌, ◌<◌, ◌≤◌, true, false, ◌≡◌, refl, ◌⊎◌, inl, inr, some, List, [], ◌∷◌, ltb,
  ltb→lt, lt→ltb, arith, ok, Bool-cases,
}
use portable_batch_execution.Base.Int.{ℤ, pos_part, neg_part}
use portable_batch_execution.Contracts.Datetime.{Datetime, moment, end_of_time, datetime_lt}
use portable_batch_execution.Kernel.Shards.{time_ranges}

-- An aware datetime.
abbrev pub aware : ℕ → ℤ → Datetime
aware micros offset = record { micros = micros; offset = some offset }

abbrev pub shifted : Datetime → ℕ → Datetime
shifted d n = record d { micros = d.micros + n }

-- The ranges follow one another from `cursor` to `end`: none is empty, none ends after `end`, none
-- is longer than `step`, and each is `step` long or ends at `end`; behind the last nothing is left.
abbrev pub TimeTiles : ℕ → Datetime → Datetime → List (Datetime × Datetime) → Type 0
TimeTiles step cursor end [] = datetime_lt cursor end ≡ ok false
TimeTiles step cursor end ((a, b) ∷ rs) =
    ((a ≡ cursor)
      × (datetime_lt a b ≡ ok true)
      × (datetime_lt end b ≡ ok false)
      × (datetime_lt (shifted a step) b ≡ ok false)
      × ((b ≡ shifted a step) ⊎ (b ≡ end)))
    × TimeTiles step b end rs

module _ (step e : ℕ) (oc oe : ℤ) (pos : 0 < step)
    (room : e + neg_part oe + pos_part oc + step ≤ end_of_time) where
  at_end : (fuel : ℕ) → time_ranges fuel step (aware e oe) (aware e oe) ≡ ok []
  unfolding time_ranges
  at_end zero = refl
  at_end (suc fuel) = ground arith

  room_for_step : (c : ℕ) → ltb (moment c oc oe) (moment e oe oc) ≡ true → c + step < end_of_time
  room_for_step c more = omega (arith, ltb→lt _ _ more)

  pub time_ranges-TimeTiles :
      (fuel c : ℕ)
      → moment e oe oc - moment c oc oe < fuel
      → (rs : List (Datetime × Datetime)) × (time_ranges fuel step (aware c oc) (aware e oe)
          ≡ ok rs)
        × TimeTiles step (aware c oc) (aware e oe) rs
  unfolding time_ranges
  time_ranges-TimeTiles zero c h = absurd (omega arith)
  time_ranges-TimeTiles (suc fuel) c h = elim (Bool-cases (ltb (moment c oc oe) (moment e oe oc))) [
    | inr done ↦ ([], rw done, rw done)
    | inl more ↦
        let on_time = lt→ltb (c + step) end_of_time (room_for_step c more) in
        elim (Bool-cases (ltb (moment e oe oc) (moment (c + step) oc oe))) [
          | inl past ↦ (
            (aware c oc, aware e oe) ∷ [],
            rw more (rw on_time (rw past (rw (at_end fuel)))),
            ((refl, rw more, ground arith, ground arith, inr refl), ground arith),
          )
          | inr fits ↦
              let (rs, returns, tiles) =
                time_ranges-TimeTiles fuel (c + step) (omega (arith, ltb→lt _ _ more)) in
              (
                (aware c oc, aware (c + step) oc) ∷ rs,
                rw more (rw on_time (rw fits (rw returns))),
                ((refl, ground arith, rw fits, ground arith, inl refl), tiles),
              )
        ]
  ]
