-- ===== src/Materialize.antt =====
-- internal/materialize: the rolling horizon of planned occurrences. `WithRepo` is the choice of
-- the database that a statement runs against, and logging is left out. The local `earliest` of
-- `Run` is computed and never read.
pub mod Frame
pub mod Fresh
pub mod Horizon
pub mod Full
pub mod Earliest
pub mod All
use replenishment_system.Common.{
  ℕ, zero, suc, ◌+◌, ◌-◌, Bool, true, false, not, Option, none, some, List, [], ◌∷◌, leb,
  if◌then◌else◌,
}
use replenishment_system.Common.Int.{ℤ, pos, negsuc, pos_part, ltb_ℤ}
use replenishment_system.Common.Text.{Text}
use replenishment_system.Calendar.{Date, before, after}
use replenishment_system.Domain.Types.{
  OccurrenceStatus, Schedule, Occurrence, ScheduleEvent, system, occurrence_materialized, number,
  day, Error, duplicate_occurrence, not_found, Result, ok, err, is_active,
}
use replenishment_system.Domain.Cadence.{validate_interval, next_occurrence_after, idempotency_key}
use replenishment_system.Store.Db.{
  Db, Store, Conn, pool, pure, raise, lift, gets, ◌>>=◌, ◌>>◌, in_tx,
}
use replenishment_system.Store.Scope.{system_scope}
use replenishment_system.Store.Schedules.{
  get_schedule_for_update, list_active_schedules, update_schedule_next_run,
}
use replenishment_system.Store.Occurrences.{
  create_occurrence, list_planned_occurrences, count_future_planned_occurrences, max_sequence_no,
  latest_scheduled_date,
}
use replenishment_system.Store.Events.{append_event}

-- `new_id` stands for `uuid.NewString`: an identifier for a new row of the table.
pub record Materializer : Type 0 where
  pub horizon : ℕ
  pub new_id : List Occurrence → Text

unfoldable pub new : ℤ → (List Occurrence → Text) → Materializer
new horizon new_id = record {
  horizon = if ltb_ℤ horizon (pos 1) then 1 else pos_part horizon;
  new_id = new_id;
}

abbrev pub earlier : Date → Option Date → Option Date
earlier d none = some d
earlier d (some e) = if before d e then some d else some e

-- The loop of `RefreshNextRunDate`, with the earliest date so far.
unfoldable pub earliest_after : Date → Option Date → List Occurrence → Option Date
earliest_after today next [] = next
earliest_after today next (o ∷ rest) =
    earliest_after today
      (if not (after o.scheduled_for today) then next else earlier o.scheduled_for next) rest

unfoldable pub refresh_next_run_date : Schedule → Date → Store (Unit {0})
refresh_next_run_date s today = do
  planned ← list_planned_occurrences s.id
  update_schedule_next_run s.id (earliest_after today none planned)

abbrev pub planned_occurrence : Materializer → Schedule → ℕ → Date → List Occurrence → Occurrence
planned_occurrence m s seq date rows = record {
  id = m.new_id rows;
  schedule_id = s.id;
  sequence_no = seq;
  scheduled_for = date;
  status = OccurrenceStatus.planned;
  order_id = none;
  idempotency_key = idempotency_key s.id seq;
}

abbrev pub materialized_event : Schedule → ℕ → Date → ScheduleEvent
materialized_event s seq date = record {
  id = 0;
  schedule_id = s.id;
  event_type = occurrence_materialized;
  actor = system;
  reason_code = none;
  payload = ("sequence_no", number (pos seq)) ∷ ("scheduled_for", day date) ∷ [];
  idempotency_key = none;
}

-- The `switch` over the error of `CreateOccurrence`: whether a row was created.
abbrev pub after_create : ScheduleEvent → Result (Unit {0}) × Db → Result Bool × Db
after_create e (ok u, db) = (append_event e >> pure true) db
after_create e (err duplicate_occurrence, db) = (ok false, db)
after_create e (err other_error, db) = (err other_error, db)

unfoldable pub plan_one : Materializer → Schedule → ℕ → Date → Store Bool
plan_one m s seq date db =
    after_create (materialized_event s seq date)
      (create_occurrence (planned_occurrence m s seq date db.occurrences) db)

abbrev pub counted : Bool → ℕ × ℕ → ℕ × ℕ
counted true (created, duplicates) = (suc created, duplicates)
counted false (created, duplicates) = (created, suc duplicates)

-- The loop of `Run`, with the rounds left.
unfoldable pub plan : Materializer → Schedule → ℕ → ℕ → Date → ℕ × ℕ → Store (ℕ × ℕ)
plan m s zero seq cursor counts = pure counts
plan m s (suc left) seq cursor counts = do
  (n, date) ← lift (next_occurrence_after s.anchor_date s.interval_days cursor)
  is_new ← plan_one m s (seq + 1) date
  plan m s left (seq + 1) date (counted is_new counts)

abbrev pub start_cursor : Date → Option Date → Date
start_cursor today none = today
start_cursor today (some latest) = if after latest today then latest else today

-- The part of `Run` past the count of what is planned.
unfoldable pub top_up : Materializer → Schedule → Date → ℕ → Store (ℕ × ℕ)
top_up m s today missing = do
  seq ← max_sequence_no s.id
  latest ← latest_scheduled_date s.id
  counts ← plan m s missing seq (start_cursor today latest) (0, 0)
  refresh_next_run_date s today
  pure counts

-- Answers with the numbers created and skipped as duplicates.
unfoldable pub run : Materializer → Schedule → Date → Store (ℕ × ℕ)
run m s today = if not (is_active s) then pure (0, 0) else do
  lift (validate_interval s.interval_days)
  existing ← count_future_planned_occurrences s.id today
  if leb m.horizon existing
      then (do refresh_next_run_date s today; pure (0, 0))
      else top_up m s today (m.horizon - existing)
