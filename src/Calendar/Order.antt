-- ===== src/Calendar/Order.antt =====
-- `Before` of internal/domain/cadence.go and the order of the day numbers.
use native.Mathlib.Decide.{le_ind}
use native.Mathlib.Nat.{le_refl}
use replenishment_system.Common.{
  ℕ, suc, ◌+◌, ◌≤◌, ◌<◌, ◌≡◌, ◌↔◌, inl, inr, ap, arith, Bool, true, false, Bool-cases,
}
use replenishment_system.Calendar.{
  Date, is_leap, year_len, year_start, month_start, of_utc_day, to_time, before,
}
use replenishment_system.Calendar.Days.{
  IsValid, year_start-suc, month_start-suc, month_start-year, to_time-eq, to_time-of_utc_day,
  of_utc_day-IsValid,
}

year_start_mono : (y z : ℕ) → y ≤ z → year_start y ≤ year_start z
year_start_mono y =
    le_ind (λ m. year_start y ≤ year_start m) (le_refl _) λ m le ih. omega (arith, year_start-suc m)

month_start_mono : (leap : Bool) (m k : ℕ) → 1 ≤ m → m ≤ k → month_start leap m ≤ month_start leap k
month_start_mono leap m k h =
    le_ind (λ j. month_start leap m ≤ month_start leap j) (le_refl _)
      (λ j le ih. omega (arith, month_start-suc leap j)) k

day_of_year_bound :
    (d : Date) → IsValid d → month_start (is_leap d.year) d.month + d.day ≤ year_len d.year
day_of_year_bound d v = omega (
  arith,
  month_start-suc (is_leap d.year) d.month,
  month_start_mono (is_leap d.year) (suc d.month) 13 (omega arith) (omega arith),
  month_start-year d.year,
)

to_time-lt : (d e : Date) → IsValid d → IsValid e → before d e ≡ true → to_time d < to_time e
unfolding before
to_time-lt d e v w h = ground (
  arith,
  to_time-eq d v,
  to_time-eq e w,
  day_of_year_bound d v,
  year_start-suc d.year,
  year_start_mono (suc d.year) e.year,
  month_start-suc (is_leap d.year) d.month,
  month_start_mono (is_leap d.year) (suc d.month) e.month,
)

before_total : (d e : Date) → before d e ≡ false → before e d ≡ false → d ≡ e
unfolding before
before_total d e h k = ground arith

-- Two valid dates with one day number are equal.
pub to_time_inj : (d e : Date) → IsValid d → IsValid e → to_time d ≡ to_time e → d ≡ e
to_time_inj d e v w h = elim (Bool-cases (before d e)) [
  | inl lt ↦ absurd (omega (arith, to_time-lt d e v w lt))
  | inr ge ↦ elim (Bool-cases (before e d)) [
    | inl gt ↦ absurd (omega (arith, to_time-lt e d w v gt))
    | inr le ↦ before_total d e ge le
  ]
]

not-before-le : (d e : Date) → IsValid d → IsValid e → before d e ≡ false → to_time e ≤ to_time d
not-before-le d e v w h = elim (Bool-cases (before e d)) [
  | inl gt ↦ omega (arith, to_time-lt e d w v gt)
  | inr le ↦ omega (arith, ap to_time (before_total d e h le))
]

-- On valid dates `Before` compares the day numbers.
pub before_iff :
    (d e : Date) → IsValid d → IsValid e → (before d e ≡ true) ↔ (to_time d < to_time e)
before_iff d e v w = (to_time-lt d e v w, later)
  where
    later : to_time d < to_time e → before d e ≡ true
    later lt = elim (Bool-cases (before d e)) [
      | inl h ↦ h
      | inr ge ↦ absurd (omega (arith, not-before-le d e v w ge))
    ]

-- A valid date is the date of its day number.
pub of_utc_day-to_time : (d : Date) → IsValid d → of_utc_day (to_time d) ≡ d
of_utc_day-to_time d v =
    to_time_inj (of_utc_day (to_time d)) d (of_utc_day-IsValid (to_time d)) v
      (to_time-of_utc_day (to_time d))

pub before_false : (d e : Date) → IsValid d → IsValid e → to_time e ≤ to_time d → before d e ≡ false
before_false d e v w le = elim (Bool-cases (before d e)) [
  | inl lt ↦ absurd (omega (arith, to_time-lt d e v w lt))
  | inr ge ↦ ge
]
