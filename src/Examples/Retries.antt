-- ===== src/Examples/Retries.antt =====
-- Retries of a skip and a deferral, internal/schedule/service.go, on the small database.
use replenishment_system.Common.{◌≡◌, refl, some}
use replenishment_system.Common.Int.{pos, ◌+ℤ◌}
use replenishment_system.Common.Text.{text, text_eq}
use replenishment_system.Calendar.{
  date, is_leap, month_len, year_len, year_start, month_start, utc_day, seek_year, seek_month,
  year_and_rest, month_and_rest, of_utc_day, to_time, add_days, before, after, saturate, days_until,
}
use replenishment_system.Domain.Types.{ok, same_event}
use replenishment_system.Domain.Cadence.{
  validate_interval, occurrence_date, step_past, next_occurrence_after, decimal_digits, decimal,
  idempotency_key,
}
use replenishment_system.Domain.Transitions.{
  validate_schedule_transition, validate_occurrence_action, validate_defer_days,
  validate_idempotency_key,
}
use replenishment_system.Store.Rows.{
  select, count_rows, update_rows, exists_row, first_row, place_row, order_by,
}
use replenishment_system.Store.Db.{in_tx}
use replenishment_system.Store.Scope.{filter_own}
use replenishment_system.Store.Schedules.{
  get_schedule, get_schedule_for_update, update_schedule, update_schedule_next_run,
}
use replenishment_system.Store.Occurrences.{
  sooner, create_occurrence, list_planned_occurrences, count_future_planned_occurrences,
  max_sequence, max_sequence_no, update_occurrences, update_occurrence_status,
  update_occurrence_date, query_one_occurrence, next_actionable_occurrence, latest_date,
  latest_scheduled_date,
}
use replenishment_system.Store.Events.{event_exists_with_key, append_event}
use replenishment_system.Materialize.{
  earliest_after, refresh_next_run_date, plan_one, plan, top_up, run,
}
use replenishment_system.Service.{
  today, transition_steps, perform_transition, next_occurrence, skip_target, skip_apply,
  skip_schedule, defer_target, defer_apply, defer_schedule,
}
use replenishment_system.Service.Retry.{skip_schedule_retry, defer_schedule_retry}
use replenishment_system.Examples.Data.{live, shop, shop-WellFormed, service, owner}

skipped_answer :
    (skip_schedule service (text "s1") (text "k1") owner shop).0
    ≡ ok (record live { next_run_date = some (date 2026 3 31) })
unfolding is_leap month_len year_len year_start month_start utc_day seek_year seek_month
    year_and_rest month_and_rest of_utc_day to_time add_days before after saturate days_until ◌+ℤ◌
    text_eq same_event validate_interval occurrence_date step_past next_occurrence_after
    decimal_digits decimal idempotency_key validate_schedule_transition validate_occurrence_action
    validate_idempotency_key select count_rows update_rows exists_row first_row place_row order_by
    in_tx filter_own get_schedule get_schedule_for_update update_schedule update_schedule_next_run
    sooner create_occurrence list_planned_occurrences count_future_planned_occurrences max_sequence
    max_sequence_no update_occurrences update_occurrence_status query_one_occurrence
    next_actionable_occurrence latest_date latest_scheduled_date event_exists_with_key append_event
    earliest_after refresh_next_run_date plan_one plan top_up run today transition_steps
    perform_transition next_occurrence skip_target skip_apply skip_schedule
skipped_answer = refl

deferred_answer :
    (defer_schedule service (text "s1") (pos 5) (text "k1") owner shop).0
    ≡ ok (record live { next_run_date = some (date 2026 4 5) })
unfolding is_leap month_len year_len year_start month_start utc_day seek_year seek_month
    year_and_rest month_and_rest of_utc_day to_time add_days before after ◌+ℤ◌ text_eq same_event
    validate_defer_days validate_schedule_transition validate_occurrence_action
    validate_idempotency_key select update_rows exists_row first_row place_row order_by in_tx
    filter_own get_schedule get_schedule_for_update update_schedule update_schedule_next_run sooner
    list_planned_occurrences update_occurrences update_occurrence_date query_one_occurrence
    next_actionable_occurrence event_exists_with_key append_event earliest_after
    refresh_next_run_date today transition_steps perform_transition next_occurrence defer_target
    defer_apply defer_schedule
deferred_answer = refl

skip_schedule_retry_example :
    (skip_schedule service
      (text "s1")
      (text "k1")
      owner
      (skip_schedule service (text "s1") (text "k1") owner shop).1).1
    ≡ (skip_schedule service (text "s1") (text "k1") owner shop).1
skip_schedule_retry_example =
    skip_schedule_retry service service (text "s1") (text "k1") owner owner shop
      (record live { next_run_date = some (date 2026 3 31) }) shop-WellFormed skipped_answer

defer_schedule_retry_example :
    (defer_schedule service
      (text "s1")
      (pos 5)
      (text "k1")
      owner
      (defer_schedule service (text "s1") (pos 5) (text "k1") owner shop).1).1
    ≡ (defer_schedule service (text "s1") (pos 5) (text "k1") owner shop).1
defer_schedule_retry_example =
    defer_schedule_retry service service (text "s1") (text "k1") (pos 5) owner owner shop
      (record live { next_run_date = some (date 2026 4 5) }) shop-WellFormed deferred_answer
