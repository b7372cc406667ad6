-- ===== src/Sweep/Report.antt =====
-- What `ResumeDue` of internal/sweep/sweep.go reports, against the answers of the service.
pub mod Resumed
use replenishment_system.Common.{
  ℕ, suc, ◌+◌, ◌≡◌, refl, sym, ap, subst, ◌∙◌, arith, Bool, true, false, not, Option, none, some,
  List, [], ◌∷◌, Bool-cases, inl, inr, if◌then◌else◌,
}
use replenishment_system.Common.Lists.{length}
use replenishment_system.Calendar.{Date, after}
use replenishment_system.Domain.Types.{
  Schedule, Error, not_found, no_transaction, duplicate_occurrence, duplicate_schedule, transition,
  invalid, Result, ok, err,
}
use replenishment_system.Store.Rows.{count_rows}
use replenishment_system.Store.Db.{Db}
use replenishment_system.Store.Schedules.{list_schedules_due_to_resume}
use replenishment_system.Service.{resume_schedule}
use replenishment_system.Sweep.{
  Sweeper, PassResult, Attempt, done, not_due, moved, failed, today_for, system_caller, attempted,
  still_paused, tally, keep_first, pass, resume_one, resume_due, no_results,
}

abbrev pub over_by : Option Date → Date → Bool
over_by none today = false
over_by (some until) today = not (after until today)

-- The pause has an end, and in the schedule's time zone that day has come.
abbrev pub pause_over : Sweeper → Schedule → Bool
pause_over sw s = over_by s.paused_until (today_for sw s)

-- What the service answers, in turn, for the candidates whose pause is over.
unfoldable pub answers : Sweeper → List Schedule → Db → List (Result Schedule)
answers sw [] db = []
answers sw (s ∷ rest) db =
    let answer = resume_schedule sw.svc s.id system_caller db in
    let with_it = answer.0 ∷ answers sw rest answer.1 in
    let without_it = answers sw rest db in if pause_over sw s then with_it else without_it

abbrev pub succeeded : Result Schedule → Bool
succeeded (ok s) = true
succeeded (err e) = false

-- The schedule is gone, or in a status that no longer admits the action.
abbrev pub lost_race : Result Schedule → Bool
lost_race (err not_found) = true
lost_race (err (transition a status message)) = true
lost_race r = false

unfoldable pub first_failure : List (Result Schedule) → Option Error
first_failure [] = none
first_failure (ok s ∷ rest) = first_failure rest
first_failure (err not_found ∷ rest) = first_failure rest
first_failure (err (transition a status message) ∷ rest) = first_failure rest
first_failure (err no_transaction ∷ rest) = some no_transaction
first_failure (err duplicate_occurrence ∷ rest) = some duplicate_occurrence
first_failure (err duplicate_schedule ∷ rest) = some duplicate_schedule
first_failure (err (invalid message) ∷ rest) = some (invalid message)

abbrev pub or_else : Option Error → Option Error → Option Error
or_else none e = e
or_else (some first) e = some first

-- From `sum` to `out` the report has grown by these candidates and these answers.
pub record Grown (sw : Sweeper) (rows : List Schedule) (replies : List (Result Schedule))
    (sum out : PassResult × Option Error) : Type 0 where
  pub considered : out.0.considered ≡ sum.0.considered + length rows
  pub not_yet_due :
      out.0.not_yet_due
      ≡ sum.0.not_yet_due + count_rows (λ (s : Schedule). not (pause_over sw s)) rows
  pub acted : out.0.acted ≡ sum.0.acted + count_rows succeeded replies
  pub already_moved : out.0.already_moved ≡ sum.0.already_moved + count_rows lost_race replies
  pub error : out.1 ≡ or_else sum.1 (first_failure replies)

or_else-keep_first :
    (e rest : Option Error) (x : Error) → or_else (keep_first e x) rest ≡ or_else e (some x)
or_else-keep_first none rest x = refl
or_else-keep_first (some first) rest x = refl

module _ (sw : Sweeper) (s : Schedule) (rest : List Schedule) (replies : List (Result Schedule))
    (r : PassResult) (e : Option Error) (out : PassResult × Option Error) where
  pub Grown-not_due :
      pause_over sw s ≡ false
      → Grown sw rest replies (tally not_due (r, e)) out
      → Grown sw (s ∷ rest) replies (r, e) out
  unfolding tally count_rows
  Grown-not_due over g = record {
    considered = omega (arith, g.considered);
    not_yet_due = rw over (omega (arith, g.not_yet_due));
    acted = g.acted;
    already_moved = g.already_moved;
    error = g.error;
  }

  Grown-done :
      (a : Schedule)
      → pause_over sw s ≡ true
      → Grown sw rest replies (tally done (r, e)) out
      → Grown sw (s ∷ rest) (ok a ∷ replies) (r, e) out
  unfolding tally count_rows first_failure
  Grown-done a over g = record {
    considered = omega (arith, g.considered);
    not_yet_due = rw over g.not_yet_due;
    acted = omega (arith, g.acted);
    already_moved = g.already_moved;
    error = g.error;
  }

  Grown-moved :
      (x : Error)
      → pause_over sw s ≡ true
      → lost_race (err x) ≡ true
      → first_failure (err x ∷ replies) ≡ first_failure replies
      → Grown sw rest replies (tally moved (r, e)) out
      → Grown sw (s ∷ rest) (err x ∷ replies) (r, e) out
  unfolding tally count_rows
  Grown-moved x over lost skipped g = record {
    considered = omega (arith, g.considered);
    not_yet_due = rw over g.not_yet_due;
    acted = g.acted;
    already_moved = rw lost (omega (arith, g.already_moved));
    error = g.error ∙ ap (or_else e) (sym skipped);
  }

  Grown-failed :
      (x : Error)
      → pause_over sw s ≡ true
      → lost_race (err x) ≡ false
      → first_failure (err x ∷ replies) ≡ some x
      → Grown sw rest replies (tally (failed x) (r, e)) out
      → Grown sw (s ∷ rest) (err x ∷ replies) (r, e) out
  unfolding tally count_rows
  Grown-failed x over kept first g = record {
    considered = omega (arith, g.considered);
    not_yet_due = rw over g.not_yet_due;
    acted = g.acted;
    already_moved = rw kept g.already_moved;
    error = g.error ∙ or_else-keep_first e (first_failure replies) x ∙ ap (or_else e) (sym first);
  }

  pub Grown-answer :
      (answer : Result Schedule × Db)
      → pause_over sw s ≡ true
      → Grown sw rest replies (tally (attempted answer).0 (r, e)) out
      → Grown sw (s ∷ rest) (answer.0 ∷ replies) (r, e) out
  unfolding first_failure
  Grown-answer (ok a, d) over = Grown-done a over
  Grown-answer (err not_found, d) over = Grown-moved not_found over refl refl
  Grown-answer (err (transition a b m), d) over = Grown-moved (transition a b m) over refl refl
  Grown-answer (err no_transaction, d) over = Grown-failed no_transaction over refl refl
  Grown-answer (err duplicate_occurrence, d) over = Grown-failed duplicate_occurrence over refl refl
  Grown-answer (err duplicate_schedule, d) over = Grown-failed duplicate_schedule over refl refl
  Grown-answer (err (invalid m), d) over = Grown-failed (invalid m) over refl refl
