-- ===== src/Examples/Jobs.antt =====
-- A run of internal/notify and a nightly run of internal/materialize on the small database.
use replenishment_system.Common.{[], arith, false, inl, none, refl, some, true, ℕ, ◌+◌, ◌∷◌, ◌≡◌}
use replenishment_system.Common.Int.{◌+ℤ◌}
use replenishment_system.Common.Text.{text, text_eq}
use replenishment_system.Domain.Types.{ScheduleEvent, customer, ok, schedule_created}
use replenishment_system.Store.Rows.{count_rows, exists_row, first_row, order_by, place_row, select}
use replenishment_system.Store.Db.{Db, in_tx}
use replenishment_system.Store.Schedules.{
  get_schedule, get_schedule_for_update, list_active_schedules, update_schedule,
  update_schedule_next_run,
}
use replenishment_system.Common.Lists.{length}
use replenishment_system.Calendar.{
  add_days, after, before, days_until, is_leap, month_and_rest, month_len, month_start, of_utc_day,
  saturate, seek_month, seek_year, to_time, utc_day, year_and_rest, year_len, year_start,
}
use replenishment_system.Domain.Cadence.{
  decimal, decimal_digits, idempotency_key, next_occurrence_after, occurrence_date, step_past,
  validate_interval,
}
use replenishment_system.Store.Scope.{filter_own}
use replenishment_system.Store.Events.{append_event, event_exists_with_key}
use replenishment_system.Store.Occurrences.{
  count_future_planned_occurrences, create_occurrence, latest_date, latest_scheduled_date,
  list_planned_occurrences, max_sequence, max_sequence_no,
}
use replenishment_system.Materialize.{
  Materializer, earliest_after, plan, plan_one, refresh_next_run_date, run, top_up,
}
use replenishment_system.Materialize.All.{run_all_schedules, run_each, run_locked}
use replenishment_system.Materialize.All.Report.{run_all_schedules_created}
use replenishment_system.Notify.{
  Dispatcher, Notification, NotificationStatus, RunResult, World, dispatch_one, logged, notifiable,
  run_all,
}
use replenishment_system.Notify.Dispatched.{Dispatched, dispatch_one-Dispatched}
use replenishment_system.Notify.Settled.{run_all_settled}
use replenishment_system.Notify.Drains.{run_all_finishes}
use replenishment_system.Notify.Attempted.{run_all_attempted}
use replenishment_system.Examples.Data.{service, shop, today_date}

abbrev created : ℕ → ScheduleEvent
created id = record {
  id = id;
  schedule_id = text "s1";
  event_type = schedule_created;
  actor = customer;
  reason_code = none;
  payload = [];
  idempotency_key = none;
}

-- The second event has had its letter, the first has not.
abbrev sent_row : Notification
sent_row = record {
  schedule_event_id = 2;
  status = NotificationStatus.sent;
  attempts = 1;
  last_attempt_at = 0;
  sent_at = some 1;
  last_error = none;
}

abbrev world : World
world = record {
  db = record shop { events = created 1 ∷ created 2 ∷ [] };
  log = sent_row ∷ [];
  mail = [];
}

abbrev dispatcher : Dispatcher
dispatcher = record {
  render = λ e s items o contact. ok (text "subject", text "body");
  send = λ mails m. none;
  support_contact = text "help";
  now = λ n. 2000000000 + n;
  item_reads = record { text_less = λ a b. false; breaks = λ id db. false };
}

-- A dispatcher whose pages all run at the same time.
abbrev quick : Dispatcher
quick = record dispatcher { now = λ n. 2000000000 }

dispatch_one-Dispatched_example :
    Dispatched (created 1) world (dispatch_one dispatcher 5 (created 1) world).1
dispatch_one-Dispatched_example = dispatch_one-Dispatched dispatcher 5 (created 1) world

run_all_finishes_example : (res : RunResult) × (w' : World) × (run_all quick world ≡ some (res, w'))
run_all_finishes_example = run_all_finishes quick (λ n. omega arith) (λ n. omega arith) world

finished : (res : RunResult) × (w' : World) × (run_all quick world ≡ some (res, w'))
finished = run_all_finishes quick (λ n. omega arith) (λ n. omega arith) world

sent_logged : logged 2 world.log ≡ some sent_row
unfolding logged
sent_logged = refl

run_all_settled_example : logged 2 finished.1.log ≡ some sent_row
run_all_settled_example =
    run_all_settled quick 2 sent_row world finished.0 finished.1 sent_logged refl finished.2

created_counts : notifiable (created 1).event_type ≡ true
unfolding notifiable
created_counts = refl

run_all_attempted_example : (row : Notification) × (logged 1 finished.1.log ≡ some row)
run_all_attempted_example =
    run_all_attempted quick (created 1) world finished.0 finished.1 (inl refl) created_counts
      finished.2

-- The database without its planned order.
abbrev idle : Db
idle = record shop { occurrences = [] }

abbrev nightly : Materializer
nightly = record service.mat { horizon = 1 }

nightly_fine : (run_all_schedules nightly today_date idle).0.1 ≡ none
unfolding run_all_schedules list_active_schedules select order_by place_row run_each in_tx
    run_locked get_schedule_for_update get_schedule first_row text_eq filter_own run
    validate_interval count_future_planned_occurrences count_rows after before refresh_next_run_date
    list_planned_occurrences earliest_after update_schedule_next_run update_schedule exists_row
    top_up max_sequence_no latest_scheduled_date plan next_occurrence_after days_until saturate
    to_time utc_day year_start latest_date month_start month_len is_leap step_past occurrence_date
    add_days month_and_rest of_utc_day seek_month seek_year year_and_rest year_len decimal
    decimal_digits idempotency_key max_sequence create_occurrence append_event event_exists_with_key
    plan_one ◌+ℤ◌
nightly_fine = refl

run_all_schedules_created_example :
    length (run_all_schedules nightly today_date idle).1.occurrences
    ≡ length idle.occurrences + (run_all_schedules nightly today_date idle).0.0.occurrences_created
run_all_schedules_created_example = run_all_schedules_created nightly today_date idle nightly_fine
