-- ===== src/Service.antt =====
-- internal/schedule/service.go: the transitions of a schedule, each in one transaction.
pub mod Frame
pub mod Picks
pub mod Targets
pub mod Requests
pub mod Refusals
pub mod Runs
pub mod Keyed
pub mod Own
pub mod Retry
pub mod Stopping
pub mod Stops
use replenishment_system.Common.{
  ℕ, Bool, true, false, not, ◌&&◌, Option, none, some, List, [], ◌∷◌, ◌++◌, String, if◌then◌else◌,
}
use replenishment_system.Common.Int.{ℤ, pos}
use replenishment_system.Common.Text.{Text}
use replenishment_system.Calendar.{Date, add_days, after}
use replenishment_system.Domain.Types.{
  ScheduleStatus, OccurrenceStatus, EventActor, EventType, Action, pause, resume, skip_next, defer,
  change_cadence, cancel, arm, Schedule, Occurrence, ScheduleEvent, Value, number, day,
  schedule_paused, schedule_resumed, schedule_cadence_changed, schedule_canceled,
  occurrence_skipped, occurrence_deferred, occurrence_armed, Error, not_found, transition, Result,
  ok, err, Outcome, is_active,
}
use replenishment_system.Domain.Cadence.{validate_interval}
use replenishment_system.Domain.Transitions.{
  validate_schedule_transition, validate_occurrence_action, validate_defer_days,
  validate_idempotency_key, validate_cancellation_reason,
}
use replenishment_system.Store.Db.{
  Db, Store, Conn, pool, pure, raise, lift, gets, ◌>>=◌, ◌>>◌, in_tx,
}
use replenishment_system.Store.Scope.{Scope}
use replenishment_system.Store.Schedules.{
  get_schedule, get_schedule_for_update, update_schedule_next_run, update_schedule_status,
  update_schedule_cadence,
}
use replenishment_system.Store.Occurrences.{
  next_actionable_occurrence, next_planned_occurrence, last_placed_occurrence,
  update_occurrence_status, update_occurrence_date, cancel_unexecuted_occurrences,
  cancel_planned_occurrences,
}
use replenishment_system.Store.Events.{append_event, event_exists_with_key}
use replenishment_system.Materialize.{Materializer, run, refresh_next_run_date}

-- The date of now() in a timezone, `none` where `time.LoadLocation` fails, and in UTC.
pub record Clock : Type 0 where
  pub local_date : Text → Option Date
  pub utc_date : Date

pub record Service : Type 0 where
  pub mat : Materializer
  pub clock : Clock

pub record Caller : Type 0 where
  pub actor : EventActor
  pub scope : Scope

abbrev pub date_or : Date → Option Date → Date
date_or d none = d
date_or d (some e) = e

unfoldable pub today : Service → Schedule → Date
today svc s = date_or svc.clock.utc_date (svc.clock.local_date s.timezone)

-- The closure that `transition` hands to `InTx`.
unfoldable pub transition_steps :
    Text → Action → Caller → (Schedule → Store (Unit {0})) → Conn → Store Schedule
transition_steps schedule_id a caller apply tx = do
  s ← get_schedule_for_update tx schedule_id caller.scope
  lift (validate_schedule_transition s.status a)
  apply s
  get_schedule schedule_id caller.scope

unfoldable pub perform_transition :
    Text → Action → Caller → (Schedule → Store (Unit {0})) → Store Schedule
perform_transition schedule_id a caller apply =
    in_tx pool (transition_steps schedule_id a caller apply)

-- An event of the schedule; the database gives its id.
abbrev pub event : Schedule → EventType → Caller → List (String × Value) → ScheduleEvent
event s event_type caller payload = record {
  id = 0;
  schedule_id = s.id;
  event_type = event_type;
  actor = caller.actor;
  reason_code = none;
  payload = payload;
  idempotency_key = none;
}

abbrev until_in_past : Service → Schedule → Option Date → Bool
until_in_past svc s none = false
until_in_past svc s (some until) = not (after until (today svc s))

abbrev until_field : Option Date → List (String × Value)
until_field none = []
until_field (some until) = ("paused_until", day until) ∷ []

unfoldable pub pause_apply : Service → Option Date → Caller → Schedule → Store (Unit {0})
pause_apply svc until caller s =
    if until_in_past svc s until
    then raise (transition pause s.status "the date to resume on must be in the future")
    else do
      update_schedule_status s.id ScheduleStatus.paused until
      canceled ← cancel_unexecuted_occurrences s.id
      update_schedule_next_run s.id none
      append_event (
          event s schedule_paused caller
            (("occurrences_canceled", number (pos canceled)) ∷ until_field until))

unfoldable pub pause_schedule : Service → Text → Option Date → Caller → Store Schedule
pause_schedule svc id until caller =
    perform_transition id pause caller (pause_apply svc until caller)

unfoldable pub resume_apply : Service → Caller → Schedule → Store (Unit {0})
resume_apply svc caller s = do
  let now = today svc s
  update_schedule_status s.id ScheduleStatus.active none
  update_schedule_cadence s.id s.interval_days now
  append_event (
      event s schedule_resumed caller (
        ("anchor_date", day now)
        ∷ ("interval_days", number s.interval_days)
        ∷ ("next_order_date", day (add_days now s.interval_days))
        ∷ []))
  run svc.mat (record s { status = ScheduleStatus.active; anchor_date = now; paused_until = none })
      now
  pure tt

unfoldable pub resume_schedule : Service → Text → Caller → Store Schedule
resume_schedule svc id caller = perform_transition id resume caller (resume_apply svc caller)

-- `nextOccurrence`: no row is a refusal that the customer can act on.
abbrev pub refuse_if_none :
    Action → ScheduleStatus → String → Result Occurrence × Db → Result Occurrence × Db
refuse_if_none a status message (ok o, db) = (ok o, db)
refuse_if_none a status message (err not_found, db) = (err (transition a status message), db)
refuse_if_none a status message (err e, db) = (err e, db)

unfoldable pub next_occurrence : Schedule → Action → String → Store Occurrence
next_occurrence s a message = do
  o ← (λ db. refuse_if_none a s.status message (next_actionable_occurrence s.id db))
  lift (validate_occurrence_action o a)
  pure o

unfoldable pub skip_target : Service → Text → Caller → Schedule → Store (Unit {0})
skip_target svc key caller s = do
  o ← next_occurrence s skip_next "there is no upcoming order to skip"
  update_occurrence_status o.id OccurrenceStatus.skipped
  append_event
      (record (event s occurrence_skipped caller (
        ("sequence_no", number (pos o.sequence_no))
        ∷ ("scheduled_for", day o.scheduled_for)
        ∷ [])) { idempotency_key = some key })
  run svc.mat s (today svc s)
  pure tt

unfoldable pub skip_apply : Service → Text → Caller → Schedule → Store (Unit {0})
skip_apply svc key caller s = do
  already ← event_exists_with_key s.id occurrence_skipped key
  if already then pure tt else skip_target svc key caller s

unfoldable pub skip_schedule : Service → Text → Text → Caller → Store Schedule
skip_schedule svc id key caller = do
  lift (validate_idempotency_key key)
  perform_transition id skip_next caller (skip_apply svc key caller)

unfoldable pub arm_apply : Caller → Schedule → Store (Unit {0})
arm_apply caller s = do
  o ← (λ db.
      refuse_if_none arm s.status "no planned order is due to be armed"
        (next_planned_occurrence s.id db))
  update_occurrence_status o.id OccurrenceStatus.pending
  append_event (
      event s occurrence_armed caller
        (("sequence_no", number (pos o.sequence_no)) ∷ ("scheduled_for", day o.scheduled_for) ∷ []))

unfoldable pub arm_schedule : Text → Caller → Store Schedule
arm_schedule id caller = perform_transition id arm caller (arm_apply caller)

unfoldable pub defer_target : Service → ℤ → Text → Caller → Schedule → Store (Unit {0})
defer_target svc days key caller s = do
  o ← next_occurrence s defer "there is no upcoming order to move"
  let to = add_days o.scheduled_for days
  update_occurrence_date o.id to
  append_event
      (record (event s occurrence_deferred caller (
        ("sequence_no", number (pos o.sequence_no))
        ∷ ("from", day o.scheduled_for)
        ∷ ("to", day to)
        ∷ ("days", number days)
        ∷ [])) { idempotency_key = some key })
  refresh_next_run_date s (today svc s)

unfoldable pub defer_apply : Service → ℤ → Text → Caller → Schedule → Store (Unit {0})
defer_apply svc days key caller s = do
  already ← event_exists_with_key s.id occurrence_deferred key
  if already then pure tt else defer_target svc days key caller s

unfoldable pub defer_schedule : Service → Text → ℤ → Text → Caller → Store Schedule
defer_schedule svc id days key caller = do
  lift (validate_defer_days days)
  lift (validate_idempotency_key key)
  perform_transition id defer caller (defer_apply svc days key caller)

-- The date of the last placed order, or today where none was placed.
abbrev pub placed_or_today : Date → Result Occurrence × Db → Result Date × Db
placed_or_today now (ok last, db) = (ok last.scheduled_for, db)
placed_or_today now (err not_found, db) = (ok now, db)
placed_or_today now (err e, db) = (err e, db)

unfoldable pub cadence_apply : Service → ℤ → Caller → Schedule → Store (Unit {0})
cadence_apply svc interval_days caller s = do
  let now = today svc s
  anchor ← (λ db. placed_or_today now (last_placed_occurrence s.id db))
  update_schedule_cadence s.id interval_days anchor
  rewritten ← cancel_planned_occurrences s.id
  append_event (
      event s schedule_cadence_changed caller (
        ("from_interval_days", number s.interval_days)
        ∷ ("to_interval_days", number interval_days)
        ∷ ("anchor_date", day anchor)
        ∷ ("occurrences_rewritten", number (pos rewritten))
        ∷ []))
  let changed = record s { interval_days = interval_days; anchor_date = anchor }
  if not (is_active changed)
      then update_schedule_next_run s.id none
      else (do run svc.mat changed now; pure tt)

unfoldable pub change_cadence_schedule : Service → Text → ℤ → Caller → Store Schedule
change_cadence_schedule svc id interval_days caller = do
  lift (validate_interval interval_days)
  perform_transition id change_cadence caller (cadence_apply svc interval_days caller)

unfoldable pub cancel_apply : Text → Caller → Schedule → Store (Unit {0})
cancel_apply reason caller s = do
  update_schedule_status s.id ScheduleStatus.canceled none
  canceled ← cancel_unexecuted_occurrences s.id
  update_schedule_next_run s.id none
  append_event
      (record (event s schedule_canceled caller
        (("occurrences_canceled", number (pos canceled)) ∷ [])) { reason_code = some reason })

unfoldable pub cancel_schedule : Text → Text → Caller → Store Schedule
cancel_schedule id reason caller = do
  lift (validate_cancellation_reason reason)
  perform_transition id cancel caller (cancel_apply reason caller)

-- The methods of `Service` behind one type of requests.
pub data Request : Type 0 where
  pause_until : Option Date → Request
  resume_now : Request
  skip_with : Text → Request
  arm_next : Request
  defer_by : ℤ → Text → Request
  every : ℤ → Request
  cancel_for : Text → Request

unfoldable pub handle : Service → Text → Request → Caller → Store Schedule
handle svc id (pause_until until) caller = pause_schedule svc id until caller
handle svc id resume_now caller = resume_schedule svc id caller
handle svc id (skip_with key) caller = skip_schedule svc id key caller
handle svc id arm_next caller = arm_schedule id caller
handle svc id (defer_by days key) caller = defer_schedule svc id days key caller
handle svc id (every interval_days) caller = change_cadence_schedule svc id interval_days caller
handle svc id (cancel_for reason) caller = cancel_schedule id reason caller
