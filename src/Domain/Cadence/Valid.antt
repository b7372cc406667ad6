-- ===== src/Domain/Cadence/Valid.antt =====
-- The dates that `OccurrenceDate` and `NextOccurrenceAfter` of internal/domain/cadence.go answer with.
use replenishment_system.Common.{
  ℕ, ◌+◌, ◌*◌, ◌/◌, ◌≡◌, refl, arith, Bool, true, false, not, if◌then◌else◌,
}
use replenishment_system.Common.Int.{ℤ, pos, negsuc, pos_part}
use replenishment_system.Calendar.{Date, after, days_until}
use replenishment_system.Calendar.Days.{IsValid}
use replenishment_system.Calendar.Arith.{add_days-IsValid}
use replenishment_system.Domain.Types.{Result, ok, err, ◌>>=◌}
use replenishment_system.Domain.Cadence.{
  validate_interval, occurrence_date, with_number, step_past, next_occurrence_after,
}

-- A result that, if it is one, is a valid date with its number.
abbrev Answers : Result (ℕ × Date) → Type 0
Answers (ok (n, d)) = IsValid d
Answers (err e) = Unit {0}

abbrev Valid : Result Date → Type 0
Valid (ok d) = IsValid d
Valid (err e) = Unit {0}

occurrence_date-Valid : (anchor : Date) (i n : ℤ) → Valid (occurrence_date anchor i n)
unfolding occurrence_date validate_interval
occurrence_date-Valid anchor i n =
    ground (arith, add_days-IsValid anchor (pos (pos_part i * pos_part n)))

with_number-Answers : (seq : ℕ) (r : Result Date) → Valid r → Answers (with_number seq r)
with_number-Answers seq (ok d) v = v
with_number-Answers seq (err e) v = tt

Answers-bind :
    {A : Type 0} (r : Result A) (f : A → Result (ℕ × Date))
    → ((a : A) → r ≡ ok a → Answers (f a))
    → Answers (r >>= f)
Answers-bind (ok a) f h = h a refl
Answers-bind (err e) f h = tt

Answers-if :
    (b : Bool) (x y : Result (ℕ × Date)) → Answers x → Answers y → Answers (if b then x else y)
Answers-if true x y h k = h
Answers-if false x y h k = k

step_past-Answers :
    (anchor : Date) (i : ℤ) (limit : Date) (seq : ℕ) → Answers (step_past anchor i limit seq)
unfolding step_past
step_past-Answers anchor i limit seq = Answers-bind (occurrence_date anchor i (pos seq)) _ λ d e.
    Answers-if (not (after d limit)) _ _
      (with_number-Answers (seq + 1) _ (occurrence_date-Valid anchor i (pos (seq + 1))))
      (rw e at (occurrence_date-Valid anchor i (pos seq)))

from_elapsed-Answers :
    (anchor : Date) (i : ℤ) (limit : Date) (elapsed : ℤ)
    → Answers (elim elapsed [
      | negsuc n ↦ with_number 1 (occurrence_date anchor i (pos 1))
      | pos n ↦ step_past anchor i limit (n / pos_part i + 1)
    ])
from_elapsed-Answers anchor i limit (negsuc n) =
    with_number-Answers 1 _ (occurrence_date-Valid anchor i (pos 1))
from_elapsed-Answers anchor i limit (pos n) = step_past-Answers anchor i limit (n / pos_part i + 1)

next_occurrence_after-Answers :
    (anchor : Date) (i : ℤ) (limit : Date) → Answers (next_occurrence_after anchor i limit)
unfolding next_occurrence_after
next_occurrence_after-Answers anchor i limit =
    Answers-bind (validate_interval i) _
      λ u e. from_elapsed-Answers anchor i limit (days_until anchor limit)

pub next_occurrence_after-IsValid :
    (anchor : Date) (i : ℤ) (limit : Date) (n : ℕ) (d : Date)
    → next_occurrence_after anchor i limit ≡ ok (n, d)
    → IsValid d
next_occurrence_after-IsValid anchor i limit n d e =
    rw e at (next_occurrence_after-Answers anchor i limit)
