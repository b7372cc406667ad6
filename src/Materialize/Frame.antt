-- ===== src/Materialize/Frame.antt =====
-- A run of internal/materialize for one schedule, statement by statement.
use replenishment_system.Common.{
  ℕ, zero, suc, ◌+◌, ◌-◌, ◌≤◌, ◌≡◌, refl, arith, true, not, Bool-cases, leb, inl, inr,
  if◌then◌else◌,
}
use replenishment_system.Calendar.{Date}
use replenishment_system.Calendar.Days.{IsValid}
use replenishment_system.Domain.Types.{
  Schedule, ScheduleEvent, duplicate_occurrence, Result, ok, err, is_active,
}
use replenishment_system.Domain.Cadence.{next_occurrence_after, validate_interval}
use replenishment_system.Domain.Cadence.Valid.{next_occurrence_after-IsValid}
use replenishment_system.Store.Db.{Db, pure, ◌>>=◌}
use replenishment_system.Store.Occurrences.{
  list_planned_occurrences, max_sequence_no, latest_scheduled_date,
  count_future_planned_occurrences,
}
use replenishment_system.Store.Events.{append_event}
use replenishment_system.Store.Integrity.{WellFormed, OccurrenceOk}
use replenishment_system.Store.Steps.{Step, Step-trans, Does, Does-same, Does-bind, Does-bind-lift}
use replenishment_system.Store.Steps.ScheduleRows.{update_schedule_next_run-Does, append_event-Does}
use replenishment_system.Store.Steps.OccurrenceRows.{create_occurrence-Step}
use replenishment_system.Store.Steps.Reads.{
  list_planned_occurrences-Does, max_sequence_no-Does, latest_scheduled_date-Does,
  count_future_planned_occurrences-Does,
}
use replenishment_system.Materialize.{
  Materializer, refresh_next_run_date, planned_occurrence, materialized_event, after_create,
  plan_one, plan, counted, start_cursor, top_up, run,
}

module _ (m : Materializer) (s : Schedule) where
  pub refresh_next_run_date-Does : (today : Date) → Does s.id (refresh_next_run_date s today)
  unfolding refresh_next_run_date
  refresh_next_run_date-Does today =
      Does-bind s.id (list_planned_occurrences s.id) _ (list_planned_occurrences-Does s.id s.id)
        (λ planned. update_schedule_next_run-Does s.id _)

  planned_occurrence-OccurrenceOk :
      (seq : ℕ) (date : Date) (db : Db)
      → 1 ≤ seq
      → IsValid date
      → OccurrenceOk (planned_occurrence m s seq date db.occurrences)
  planned_occurrence-OccurrenceOk seq date db h v = record {
    key_is = refl;
    date_ok = v;
    number_ok = h;
    order_placed = λ e. ground arith;
  }

  after_create-Step :
      (e : ScheduleEvent) (db : Db) (r : Result (Unit {0}) × Db)
      → e.schedule_id ≡ s.id
      → Step s.id db r.1
      → Step s.id db (after_create e r).1
  after_create-Step e db (ok u, db') own step =
      let logged : Does s.id (append_event e >>= λ v. pure true) =
        Does-bind s.id (append_event e) (λ v. pure true) (append_event-Does s.id e own)
          (λ v. Does-same s.id (pure true) (λ d. refl)) in
      Step-trans s.id db db' _ step (logged.at db' step.well_formed)
  after_create-Step e db (err duplicate_occurrence, db') own step = step
  after_create-Step e db (err _, db') own step = step

  pub plan_one-Does :
      (seq : ℕ) (date : Date) → 1 ≤ seq → IsValid date → Does s.id (plan_one m s seq date)
  unfolding plan_one
  plan_one-Does seq date h v = record {
    at = λ db w. after_create-Step (materialized_event s seq date) db _ refl (
        create_occurrence-Step s.id (planned_occurrence m s seq date db.occurrences) db w refl
          (planned_occurrence-OccurrenceOk seq date db h v));
  }

  plan-Does :
      (left seq : ℕ) (cursor : Date) (counts : ℕ × ℕ) → Does s.id (plan m s left seq cursor counts)
  unfolding plan
  plan-Does zero seq cursor counts = Does-same s.id _ (λ db. refl)
  plan-Does (suc left) seq cursor counts =
      Does-bind-lift s.id (next_occurrence_after s.anchor_date s.interval_days cursor) _
        (λ (n, date) e.
          Does-bind s.id (plan_one m s (seq + 1) date) _
            (plan_one-Does (seq + 1) date (omega arith)
              (next_occurrence_after-IsValid _ _ _ n date e))
            (λ is_new. plan-Does left (seq + 1) date (counted is_new counts)))

  top_up-Does : (today : Date) (missing : ℕ) → Does s.id (top_up m s today missing)
  unfolding top_up
  top_up-Does today missing =
      Does-bind s.id (max_sequence_no s.id) _ (max_sequence_no-Does s.id s.id) λ seq.
        Does-bind s.id (latest_scheduled_date s.id) _ (latest_scheduled_date-Does s.id s.id)
          λ latest.
            Does-bind s.id (plan m s missing seq (start_cursor today latest) (0, 0)) _
              (plan-Does missing seq (start_cursor today latest) (0, 0))
              λ counts.
                Does-bind s.id (refresh_next_run_date s today) _ (refresh_next_run_date-Does today)
                  λ u. Does-same s.id (pure counts) (λ db. refl)

  pub run-Does : (today : Date) → Does s.id (run m s today)
  unfolding run
  run-Does today = elim (Bool-cases (not (is_active s))) [
    | inl idle ↦ rw idle (Does-same s.id _ (λ db. refl))
    | inr active ↦ rw active (
        Does-bind-lift s.id (validate_interval s.interval_days) _ λ u e.
          Does-bind s.id (count_future_planned_occurrences s.id today) _
            (count_future_planned_occurrences-Does s.id s.id today) full_or_not)
  ]
    where
      full_or_not :
          (existing : ℕ)
          → Does s.id (
              if leb m.horizon existing
              then (refresh_next_run_date s today >>= λ _. pure (0, 0))
              else top_up m s today (m.horizon - existing))
      full_or_not existing = elim (Bool-cases (leb m.horizon existing)) [
        | inl full ↦ rw full (
            Does-bind s.id (refresh_next_run_date s today) _ (refresh_next_run_date-Does today)
              λ u. Does-same s.id (pure (0, 0)) (λ db. refl))
        | inr short ↦ rw short (top_up-Does today (m.horizon - existing))
      ]

-- A run in a well-formed database, whether it plans orders, only refreshes `next_run_date`, or fails, keeps
-- the primary keys and the unique and check constraints of the four tables, and a schedule behind
-- each item, changes the rows of that schedule only, and logs events of that schedule only.
pub run-Step :
    (m : Materializer) (s : Schedule) (today : Date) (db : Db)
    → WellFormed db
    → Step s.id db (run m s today db).1
run-Step m s today db w = (run-Does m s today).at db w
