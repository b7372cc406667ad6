-- ===== src/Service/Frame.antt =====
-- The transitions of internal/schedule/service.go that need no order: pause, resume and cancel,
-- statement by statement.
use replenishment_system.Common.{◌≡◌, refl, Option, none, some, Bool-cases, inl, inr}
use replenishment_system.Common.Text.{Text}
use replenishment_system.Calendar.{Date}
use replenishment_system.Calendar.Days.{IsValid}
use replenishment_system.Domain.Types.{ScheduleStatus, Schedule}
use replenishment_system.Store.Occurrences.{
  is_open, is_planned, cancel_unexecuted_occurrences, cancel_planned_occurrences,
}
use replenishment_system.Store.Steps.{Does, Does-same, Does-bind}
use replenishment_system.Store.Steps.ScheduleRows.{
  update_schedule_status-Does, update_schedule_next_run-Does, update_schedule_cadence-Does,
  append_event-Does,
}
use replenishment_system.Store.Steps.OccurrenceRows.{cancel_occurrences-Does}
use replenishment_system.Materialize.Frame.{run-Does}
use replenishment_system.Service.{
  Clock, Service, Caller, today, date_or, until_in_past, pause_apply, resume_apply, cancel_apply,
}

-- The dates that the clock gives are dates of the calendar.
pub record ClockOk (c : Clock) : Type 0 where
  pub local_ok : (zone : Text) (d : Date) → c.local_date zone ≡ some d → IsValid d
  pub utc_ok : IsValid c.utc_date

pub today-IsValid : (svc : Service) (s : Schedule) → ClockOk svc.clock → IsValid (today svc s)
unfolding today
today-IsValid svc s c = go (svc.clock.local_date s.timezone) refl
  where
    go :
        (o : Option Date)
        → svc.clock.local_date s.timezone ≡ o
        → IsValid (date_or svc.clock.utc_date o)
    go none e = c.utc_ok
    go (some d) e = c.local_ok s.timezone d e

pub cancel_unexecuted-Does : (id : Text) → Does id (cancel_unexecuted_occurrences id)
unfolding cancel_unexecuted_occurrences
cancel_unexecuted-Does id = cancel_occurrences-Does id is_open

pub cancel_planned-Does : (id : Text) → Does id (cancel_planned_occurrences id)
unfolding cancel_planned_occurrences
cancel_planned-Does id = cancel_occurrences-Does id is_planned

module _ (svc : Service) (caller : Caller) (s : Schedule) where
  pub pause_apply-Does : (until : Option Date) → Does s.id (pause_apply svc until caller s)
  unfolding pause_apply
  pause_apply-Does until = elim (Bool-cases (until_in_past svc s until)) [
    | inl past ↦ rw past (Does-same s.id _ (λ db. refl))
    | inr later ↦ rw later (
        Does-bind s.id _ _ (update_schedule_status-Does s.id ScheduleStatus.paused until) λ u.
          Does-bind s.id _ _ (cancel_unexecuted-Does s.id) λ canceled.
            Does-bind s.id _ _ (update_schedule_next_run-Does s.id none)
              λ v. append_event-Does s.id _ refl)
  ]

  pub cancel_apply-Does : (reason : Text) → Does s.id (cancel_apply reason caller s)
  unfolding cancel_apply
  cancel_apply-Does reason =
      Does-bind s.id _ _ (update_schedule_status-Does s.id ScheduleStatus.canceled none) λ u.
        Does-bind s.id _ _ (cancel_unexecuted-Does s.id) λ canceled.
          Does-bind s.id _ _ (update_schedule_next_run-Does s.id none)
            λ v. append_event-Does s.id _ refl

  pub resume_apply-Does : ClockOk svc.clock → Does s.id (resume_apply svc caller s)
  unfolding resume_apply
  resume_apply-Does c =
      Does-bind s.id _ _ (update_schedule_status-Does s.id ScheduleStatus.active none) λ u.
        Does-bind s.id _ _
          (update_schedule_cadence-Does s.id s.interval_days (today svc s) (today-IsValid svc s c))
          λ v. Does-bind s.id _ _ (append_event-Does s.id _ refl) λ t.
            Does-bind s.id _ _ (run-Does svc.mat _ (today svc s))
              λ counts. Does-same s.id _ (λ db. refl)
