-- ===== src/Materialize/All.antt =====
-- `RunAll` of internal/materialize/materialize.go. The counts of one schedule leave the closure of
-- its transaction also when the transaction fails; `run_tally` is what they have come to by then.
pub mod Kept
pub mod Report
use replenishment_system.Common.{
  ℕ, zero, suc, ◌+◌, ◌-◌, Bool, true, false, not, Option, none, some, List, [], ◌∷◌, leb,
  if◌then◌else◌,
}
use replenishment_system.Common.Lists.{length}
use replenishment_system.Calendar.{Date}
use replenishment_system.Domain.Types.{
  Schedule, Error, duplicate_occurrence, not_found, Result, ok, err, is_active,
}
use replenishment_system.Domain.Cadence.{validate_interval, next_occurrence_after}
use replenishment_system.Store.Db.{Db, Store, Conn, pool, continue_with, in_tx}
use replenishment_system.Store.Scope.{system_scope}
use replenishment_system.Store.Schedules.{get_schedule_for_update, list_active_schedules}
use replenishment_system.Store.Occurrences.{
  create_occurrence, count_future_planned_occurrences, max_sequence_no, latest_scheduled_date,
}
use replenishment_system.Materialize.{Materializer, run, plan_one, planned_occurrence, start_cursor}

-- The counts after an attempt to create a row, created and skipped as duplicates.
abbrev pub noted : Result (Unit {0}) → ℕ × ℕ → ℕ × ℕ
noted (ok u) (created, duplicates) = (suc created, duplicates)
noted (err duplicate_occurrence) (created, duplicates) = (created, suc duplicates)
noted (err e) counts = counts

-- The counts so far where a step has failed, or else those of what follows.
abbrev pub or_stop {ℓ} : {A : Type ℓ} → ℕ × ℕ → Result A → (A → ℕ × ℕ) → ℕ × ℕ
or_stop counts (err e) next = counts
or_stop counts (ok a) next = next a

-- The counts of the loop of `Run` where it ends or fails.
unfoldable pub plan_tally : Materializer → Schedule → ℕ → ℕ → Date → ℕ × ℕ → Db → ℕ × ℕ
plan_tally m s zero seq cursor counts db = counts
plan_tally m s (suc left) seq cursor counts db =
    or_stop counts (next_occurrence_after s.anchor_date s.interval_days cursor) λ next.
      let tried = create_occurrence (planned_occurrence m s (seq + 1) next.1 db.occurrences) db in
      let one = plan_one m s (seq + 1) next.1 db in
      or_stop (noted tried.0 counts) one.0
        λ is_new. plan_tally m s left (seq + 1) next.1 (noted tried.0 counts) one.1

abbrev pub answer_or {ℓ} : {A : Type ℓ} → A → Result A → A
answer_or default (ok a) = a
answer_or default (err e) = default

abbrev pub missing_tally : Materializer → Schedule → Date → Db → ℕ → ℕ × ℕ
missing_tally m s today db existing =
    if leb m.horizon existing
    then (0, 0)
    else plan_tally m s (m.horizon - existing) (answer_or 0 (max_sequence_no s.id db).0)
        (start_cursor today (answer_or none (latest_scheduled_date s.id db).0)) (0, 0) db

-- The counts of `Run`. Its three queries cannot fail.
unfoldable pub run_tally : Materializer → Schedule → Date → Db → ℕ × ℕ
run_tally m s today db =
    if not (is_active s)
    then (0, 0)
    else or_stop (0, 0) (validate_interval s.interval_days)
        λ u.
          missing_tally m s today db
            (answer_or 0 (count_future_planned_occurrences s.id today db).0)

-- The closure, from the locked row on: a schedule that is gone is no error.
abbrev pub run_found : Materializer → Date → Result Schedule × Db → Result (Unit {0}) × Db
run_found m today (ok current, db) = continue_with (run m current today db) λ counts d. (ok tt, d)
run_found m today (err not_found, db) = (ok tt, db)
run_found m today (err e, db) = (err e, db)

abbrev pub tally_found : Materializer → Date → Result Schedule × Db → ℕ × ℕ
tally_found m today (ok current, db) = run_tally m current today db
tally_found m today (err e, db) = (0, 0)

unfoldable pub run_locked : Materializer → Date → Schedule → Conn → Store (Unit {0})
run_locked m today s tx db = run_found m today (get_schedule_for_update tx s.id system_scope db)

unfoldable pub tally_locked : Materializer → Date → Schedule → Conn → Db → ℕ × ℕ
tally_locked m today s tx db = tally_found m today (get_schedule_for_update tx s.id system_scope db)

pub record MaterializeResult : Type 0 where
  pub schedules_considered : ℕ
  pub occurrences_created : ℕ
  pub duplicates_skipped : ℕ

abbrev pub no_results : MaterializeResult
no_results = record { schedules_considered = 0; occurrences_created = 0; duplicates_skipped = 0 }

abbrev pub summed : MaterializeResult → ℕ × ℕ → MaterializeResult
summed r (created, duplicates) = record {
  schedules_considered = suc r.schedules_considered;
  occurrences_created = r.occurrences_created + created;
  duplicates_skipped = r.duplicates_skipped + duplicates;
}

abbrev pub first_error : Option Error → Result (Unit {0}) → Option Error
first_error (some first) outcome = some first
first_error none (ok u) = none
first_error none (err e) = some e

-- One transaction for each schedule: a failure does not stop the loop.
unfoldable pub run_each :
    Materializer
    → Date
    → List Schedule
    → MaterializeResult × Option Error
    → Db
    → (MaterializeResult × Option Error) × Db
run_each m today [] sum db = (sum, db)
run_each m today (s ∷ rest) sum db =
    let one = in_tx pool (run_locked m today s) db in
    run_each m today rest
      (summed sum.0 (tally_locked m today s Conn.in_transaction db), first_error sum.1 one.0) one.1

abbrev pub run_listing :
    Materializer → Date → Result (List Schedule) × Db → (MaterializeResult × Option Error) × Db
run_listing m today (err e, db) = ((no_results, some e), db)
run_listing m today (ok rows, db) = run_each m today rows (no_results, none) db

unfoldable pub run_all_schedules :
    Materializer → Date → Db → (MaterializeResult × Option Error) × Db
run_all_schedules m today db = run_listing m today (list_active_schedules db)
