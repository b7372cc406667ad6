-- ===== src/Domain/Cadence/Next.antt =====
-- What `OccurrenceDate` and `NextOccurrenceAfter` of internal/domain/cadence.go return.
use replenishment_system.Common.{
  ℕ, ◌+◌, ◌-◌, ◌*◌, ◌/◌, ◌≤◌, ◌<◌, ◌≡◌, ◌↔◌, refl, arith, true, false,
}
use native.Mathlib.Decide.{dec_le}
use native.Mathlib.Nat.{zero-div, mul-div-le, lt-mul-div-succ, div-lt_iff_lt-mul, mul_comm}
use replenishment_system.Common.Int.{ℤ, pos, negsuc}
use replenishment_system.Calendar.{Date, to_time, add_days, before, after, max_duration_days}
use replenishment_system.Calendar.Days.{IsValid}
use replenishment_system.Calendar.Order.{before_iff, before_false}
use replenishment_system.Calendar.Arith.{
  add_days-IsValid, to_time-add_days_pos, days_until_forward, days_until_behind, days_until_far,
}
use replenishment_system.Domain.Types.{ok}
use replenishment_system.Domain.Cadence.{
  validate_interval, occurrence_date, step_past, next_occurrence_after,
}

abbrev pub IsInterval : ℕ → Type 0
IsInterval i = (7 ≤ i) × (i ≤ 180)

-- An interval is accepted exactly where it is a number from 7 to 180.
pub validate_interval_iff :
    (days : ℤ) → (validate_interval days ≡ ok tt) ↔ ((i : ℕ) × (days ≡ pos i) × IsInterval i)
unfolding validate_interval
validate_interval_iff (pos i) = (λ h. (i, refl, ground arith), λ (k, e, h). ground arith)
validate_interval_iff (negsuc n) = (λ h. ground arith, λ (k, e, h). cc)

pub occurrence_date-eq :
    (anchor : Date) (i n : ℕ)
    → IsInterval i
    → 1 ≤ n
    → occurrence_date anchor (pos i) (pos n) ≡ ok (add_days anchor (pos (i * n)))
unfolding occurrence_date validate_interval
occurrence_date-eq anchor i n h k = ground arith

-- The date is on the anchor's grid, strictly after `limit`, and the first such.
pub record IsNext (anchor : Date) (i : ℕ) (limit : Date) (seq : ℕ) (d : Date) : Type 0 where
  pub number_in : 1 ≤ seq
  pub on_grid : d ≡ add_days anchor (pos (i * seq))
  pub past_limit : to_time limit < to_time d
  pub first : (k : ℕ) → 1 ≤ k → to_time limit < to_time anchor + i * k → seq ≤ k

-- The number that the integer division gives is the first one past the limit.
first_past :
    (i elapsed : ℕ)
    → 1 ≤ i
    → (elapsed < i * (elapsed / i + 1)) × ((k : ℕ) → elapsed < i * k → elapsed / i + 1 ≤ k)
first_past i elapsed h = (
  lt-mul-div-succ elapsed h,
  λ k lt. omega (arith, (div-lt_iff_lt-mul {x = elapsed} {y = k} h).1 (rw (mul_comm k i) lt)),
)

step_past-eq :
    (anchor limit : Date) (i seq : ℕ)
    → IsInterval i
    → 1 ≤ seq
    → IsValid limit
    → to_time limit < to_time anchor + i * seq
    → step_past anchor (pos i) limit seq ≡ ok (seq, add_days anchor (pos (i * seq)))
unfolding step_past after
step_past-eq anchor limit i seq hi hs v past =
    let d : Date = add_days anchor (pos (i * seq)) in
    let late : before limit d ≡ true =
      (before_iff limit d v (add_days-IsValid anchor (pos (i * seq)))).1
        (omega (arith, to_time-add_days_pos anchor (i * seq))) in
    rw (occurrence_date-eq anchor i seq hi hs, late)

-- The sequence number that `NextOccurrenceAfter` answers with.
pub next_number : Date → ℕ → Date → ℕ
next_number anchor i limit = (to_time limit - to_time anchor) / i + 1

next_occurrence_after-eq :
    (anchor limit : Date) (i : ℕ)
    → IsInterval i
    → IsValid limit
    → to_time limit ≤ to_time anchor + max_duration_days
    → next_occurrence_after anchor (pos i) limit
      ≡ ok (next_number anchor i limit, add_days anchor (pos (i * next_number anchor i limit)))
unfolding next_occurrence_after next_number
next_occurrence_after-eq anchor limit i hi v near = elim (dec_le (to_time anchor) (to_time limit)) [
  | yes le ↦
      let elapsed = to_time limit - to_time anchor in
      let past : elapsed < i * (elapsed / i + 1) = (first_past i elapsed (omega arith)).0 in
      rw (valid, days_until_forward anchor limit le near)
        (step_past-eq anchor limit i (elapsed / i + 1) hi (omega arith) v (omega arith))
  | no gt ↦
      let (n, back) = days_until_behind anchor limit (omega arith) in
      let none_elapsed : to_time limit - to_time anchor ≡ 0 = omega arith in
      rw (valid, back, none_elapsed, zero-div i, occurrence_date-eq anchor i 1 hi (omega arith))
]
  where
    valid : validate_interval (pos i) ≡ ok tt
    valid = (validate_interval_iff (pos i)).1 (i, refl, hi)

-- For a valid interval, a valid limit and an anchor at most 106751 days before it,
-- `NextOccurrenceAfter` answers, with the first date of the grid anchor + n × interval, n ≥ 1,
-- that is strictly after the limit.
pub next_occurrence_after-IsNext :
    (anchor limit : Date) (i : ℕ)
    → IsInterval i
    → IsValid limit
    → to_time limit ≤ to_time anchor + max_duration_days
    → (seq : ℕ) × (d : Date) × (next_occurrence_after anchor (pos i) limit ≡ ok (seq, d))
      × IsNext anchor i limit seq d
unfolding next_number
next_occurrence_after-IsNext anchor limit i hi v near =
    let seq = next_number anchor i limit in
    let elapsed = to_time limit - to_time anchor in
    let grid = first_past i elapsed (omega arith) in
    (
      seq,
      add_days anchor (pos (i * seq)),
      next_occurrence_after-eq anchor limit i hi v near,
      record {
        number_in = omega arith;
        on_grid = refl;
        past_limit = omega (arith, to_time-add_days_pos anchor (i * seq), grid.0);
        first = λ k one lt. elim (dec_le (to_time anchor) (to_time limit)) [
          | yes le ↦ grid.1 k (omega arith)
          | no gt ↦ grid.1 k (grind arith)
        ];
      },
    )

-- `DaysUntil` saturates, so for a valid interval and a valid limit, where the limit is 106751 days and two intervals past the anchor or
-- more, `NextOccurrenceAfter` answers with a date that is not after the limit.
pub next_occurrence_after_far :
    (anchor limit : Date) (i : ℕ)
    → IsInterval i
    → IsValid limit
    → to_time anchor + max_duration_days + 2 * i ≤ to_time limit
    → (seq : ℕ) × (d : Date) × (next_occurrence_after anchor (pos i) limit ≡ ok (seq, d))
      × (to_time d ≤ to_time limit)
unfolding next_occurrence_after step_past after
next_occurrence_after_far anchor limit i hi v far =
    let guess = max_duration_days / i + 1 in
    let seq = guess + 1 in
    let d : Date = add_days anchor (pos (i * guess)) in
    let reach : to_time d ≤ to_time limit =
      grind (arith, to_time-add_days_pos anchor (i * guess), mul-div-le max_duration_days i) in
    let early : before limit d ≡ false =
      before_false limit d v (add_days-IsValid anchor (pos (i * guess))) reach in
    (
      seq,
      add_days anchor (pos (i * seq)),
      rw (
        (validate_interval_iff (pos i)).1 (i, refl, hi),
        days_until_far anchor limit (omega arith),
        occurrence_date-eq anchor i guess hi (omega arith),
        early,
        occurrence_date-eq anchor i seq hi (omega arith),
      ),
      grind (arith, to_time-add_days_pos anchor (i * seq), mul-div-le max_duration_days i),
    )
