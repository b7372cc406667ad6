-- ===== src/Domain/Cadence.antt =====
-- The cadence arithmetic of internal/domain/cadence.go. A Go `int` that may be negative is in ℤ;
-- past a test that it is at least some positive number, `pos_part` is its value.
pub mod Next
pub mod Keys
pub mod Valid
use replenishment_system.Common.{
  ℕ, zero, suc, ◌+◌, ◌*◌, ◌/◌, ◌%◌, Bool, true, false, not, ◌||◌, [], ◌∷◌, ◌++◌, ltb, if◌then◌else◌,
}
use replenishment_system.Common.Int.{ℤ, pos, negsuc, pos_part, ltb_ℤ}
use replenishment_system.Common.Text.{Text}
use replenishment_system.Calendar.{Date, add_days, after, days_until}
use replenishment_system.Domain.Types.{Result, ok, err, invalid, Outcome, ◌>>=◌, ◌>>◌}

abbrev pub min_interval_days : ℕ
min_interval_days = 7

abbrev pub max_interval_days : ℕ
max_interval_days = 180

unfoldable pub validate_interval : ℤ → Outcome
validate_interval days =
    if ltb_ℤ days (pos min_interval_days) || ltb_ℤ (pos max_interval_days) days
    then err (invalid "interval_days must be between 7 and 180")
    else ok tt

unfoldable pub occurrence_date : Date → ℤ → ℤ → Result Date
occurrence_date anchor interval_days sequence_no = do
  validate_interval interval_days
  if ltb_ℤ sequence_no (pos 1)
      then err (invalid "sequence_no must be at least 1")
      else ok (add_days anchor (pos (pos_part interval_days * pos_part sequence_no)))

abbrev pub with_number : ℕ → Result Date → Result (ℕ × Date)
with_number seq (ok d) = ok (seq, d)
with_number seq (err e) = err e

-- The end of `NextOccurrenceAfter`, from `seq := elapsed/intervalDays + 1` on.
unfoldable pub step_past : Date → ℤ → Date → ℕ → Result (ℕ × Date)
step_past anchor interval_days limit seq = do
  d ← occurrence_date anchor interval_days (pos seq)
  if not (after d limit)
      then with_number (seq + 1) (occurrence_date anchor interval_days (pos (seq + 1)))
      else ok (seq, d)

unfoldable pub next_occurrence_after : Date → ℤ → Date → Result (ℕ × Date)
next_occurrence_after anchor interval_days limit = do
  validate_interval interval_days
  elim (days_until anchor limit) [
    | negsuc n ↦ with_number 1 (occurrence_date anchor interval_days (pos 1))
    | pos elapsed ↦ step_past anchor interval_days limit (elapsed / pos_part interval_days + 1)
  ]

-- `%d` of a number that is not negative; a number has at most as many digits as its value plus one.
unfoldable pub decimal_digits : ℕ → ℕ → Text
decimal_digits zero n = []
decimal_digits (suc fuel) n =
    let more = decimal_digits fuel (n / 10) ++ (48 + n % 10) ∷ [] in
    if ltb n 10 then (48 + n) ∷ [] else more

unfoldable pub decimal : ℕ → Text
decimal n = decimal_digits (n + 1) n

-- schedule_id:sequence_no
unfoldable pub idempotency_key : Text → ℕ → Text
idempotency_key schedule_id sequence_no = schedule_id ++ 58 ∷ decimal sequence_no
