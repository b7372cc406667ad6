-- ===== src/Examples/Requests.antt =====
-- Requests to internal/schedule/service.go on the small database.
use replenishment_system.Common.{◌≡◌, ◌≢◌, ◌↔◌, refl, none}
use replenishment_system.Common.Text.{text, text_eq}
use replenishment_system.Domain.Types.{ScheduleStatus, cancel, pause, transition, err, ok}
use replenishment_system.Domain.Transitions.{
  validate_schedule_transition, validate_cancellation_reason, lists_reason,
}
use replenishment_system.Domain.Transitions.Table.{Permits, validate_schedule_transition_iff}
use replenishment_system.Store.Rows.{select, first_row}
use replenishment_system.Store.Db.{in_tx}
use replenishment_system.Store.Scope.{filter_own}
use replenishment_system.Store.Schedules.{get_schedule, get_schedule_for_update}
use replenishment_system.Store.Steps.{Step}
use replenishment_system.Materialize.{run}
use replenishment_system.Materialize.Frame.{run-Step}
use replenishment_system.Service.{
  pause_until, skip_with, handle, pause_schedule, perform_transition, transition_steps,
  cancel_schedule,
}
use replenishment_system.Service.Requests.{handle-Step}
use replenishment_system.Service.Refusals.{
  Accepted, action_of, handle_unchanged, handle-Accepted, canceled_refused,
}
use replenishment_system.Service.Stops.{
  Stopped, pause_event, cancel_event, pause_schedule-Stopped, cancel_schedule-Stopped,
}
use replenishment_system.Service.Own.{Owns, handle-Owns}
use replenishment_system.Examples.Data.{
  live, ended, shop, shop-WellFormed, service, service-ClockOk, owner, today_date,
}

found_live : (get_schedule (text "s1") owner.scope shop).0 ≡ ok live
unfolding get_schedule select first_row text_eq filter_own
found_live = refl

found_ended : (get_schedule (text "s2") owner.scope shop).0 ≡ ok ended
unfolding get_schedule select first_row text_eq filter_own
found_ended = refl

listed : validate_cancellation_reason (text "too_expensive") ≡ ok tt
unfolding validate_cancellation_reason lists_reason text_eq
listed = refl

handle-Step_example :
    Step (text "s1") shop (handle service (text "s1") (skip_with (text "k1")) owner shop).1
handle-Step_example =
    handle-Step service (text "s1") (skip_with (text "k1")) owner shop service-ClockOk
      shop-WellFormed

run-Step_example : Step (text "s1") shop (run service.mat live today_date shop).1
run-Step_example = run-Step service.mat live today_date shop shop-WellFormed

pause_schedule-Stopped_example :
    Stopped
      (text "s1")
      (record live { status = ScheduleStatus.paused; paused_until = none; next_run_date = none })
      (pause_event live owner none)
      shop
      (pause_schedule service (text "s1") none owner shop)
pause_schedule-Stopped_example =
    pause_schedule-Stopped (text "s1") owner shop shop-WellFormed live found_live service none refl
      refl

cancel_schedule-Stopped_example :
    Stopped
      (text "s1")
      (record live { status = ScheduleStatus.canceled; paused_until = none; next_run_date = none })
      (cancel_event live owner (text "too_expensive"))
      shop
      (cancel_schedule (text "s1") (text "too_expensive") owner shop)
cancel_schedule-Stopped_example =
    cancel_schedule-Stopped (text "s1") owner shop shop-WellFormed live found_live
      (text "too_expensive") (λ e. cc) listed

paused_answer :
    (handle service (text "s1") (pause_until none) owner shop).0
    ≡ ok (record live { status = ScheduleStatus.paused; paused_until = none; next_run_date = none })
unfolding handle
paused_answer =
    (pause_schedule-Stopped (text "s1") owner shop shop-WellFormed live found_live service none refl
      refl).answered

handle-Accepted_example :
    Accepted
      (text "s1")
      (action_of (pause_until none))
      owner
      shop
      (handle service (text "s1") (pause_until none) owner shop).1
      (record live { status = ScheduleStatus.paused; paused_until = none; next_run_date = none })
handle-Accepted_example =
    handle-Accepted service (text "s1") (pause_until none) owner shop
      (record live { status = ScheduleStatus.paused; paused_until = none; next_run_date = none })
      paused_answer

canceled_refused_example :
    (handle service (text "s2") (skip_with (text "k1")) owner shop).0 ≢ ok ended
canceled_refused_example =
    canceled_refused service (text "s2") (skip_with (text "k1")) owner shop ended ended found_ended
      refl

refused_answer :
    (handle service (text "s2") (pause_until none) owner shop).0
    ≡ err (transition pause ScheduleStatus.canceled "this schedule has been canceled")
unfolding handle pause_schedule perform_transition in_tx transition_steps get_schedule_for_update
    get_schedule select first_row text_eq filter_own validate_schedule_transition
refused_answer = refl

handle_unchanged_example : (handle service (text "s2") (pause_until none) owner shop).1 ≡ shop
handle_unchanged_example =
    handle_unchanged service (text "s2") (pause_until none) owner shop
      (transition pause ScheduleStatus.canceled "this schedule has been canceled") refused_answer

validate_schedule_transition_iff_example :
    (validate_schedule_transition ScheduleStatus.failed cancel ≡ ok tt)
    ↔ Permits cancel ScheduleStatus.failed
validate_schedule_transition_iff_example =
    validate_schedule_transition_iff cancel ScheduleStatus.failed

handle-Owns_example : Owns owner.scope (text "s1") shop
handle-Owns_example =
    handle-Owns service (text "s1") (pause_until none) owner shop
      (record live { status = ScheduleStatus.paused; paused_until = none; next_run_date = none })
      refl paused_answer
