-- ===== src/Service/Stops.antt =====
-- Pausing and canceling a schedule (internal/schedule/service.go): what an accepted request leaves.
use replenishment_system.Common.{
  ℕ, ◌≡◌, ◌≢◌, refl, sym, subst, ◌∙◌, false, not, ◌&&◌, Option, none, some, [], ◌∷◌, ◌++◌,
}
use replenishment_system.Common.Int.{pos}
use replenishment_system.Common.Text.{Text}
use replenishment_system.Calendar.{Date}
use replenishment_system.Domain.Types.{
  ScheduleStatus, Action, Schedule, ScheduleEvent, pause, cancel, Result, ok, number,
  schedule_paused, schedule_canceled,
}
use replenishment_system.Domain.Transitions.{validate_cancellation_reason}
use replenishment_system.Domain.Transitions.Table.{Permits, Permits-ok}
use replenishment_system.Store.Rows.{count_rows}
use replenishment_system.Store.Db.{Db, Store, in_tx}
use replenishment_system.Store.Scope.{Scope}
use replenishment_system.Store.Schedules.{
  get_schedule, get_schedule_for_update, status_is_paused, is_some,
}
use replenishment_system.Store.Occurrences.{of_schedule, is_open, cancels}
use replenishment_system.Store.Integrity.{WellFormed}
use replenishment_system.Service.{
  Service, Caller, transition_steps, perform_transition, event, until_in_past, until_field,
  pause_apply, pause_schedule, cancel_apply, cancel_schedule,
}
use replenishment_system.Service.Requests.{get_schedule-found}
use replenishment_system.Service.Stopping.{none_open_left, stop, stop-eq, found_stopped}

-- What a schedule that was stopped looks like to the caller, and the database around it: no open
-- occurrence, and one more event in the log, with the number of occurrences that were canceled.
pub record Stopped (id : Text) (answer : Schedule) (log : ℕ → ScheduleEvent) (db : Db)
    (r : Result Schedule × Db) : Type 0 where
  pub answered : r.0 ≡ ok answer
  pub none_open : count_rows (of_schedule id is_open) r.1.occurrences ≡ 0
  pub logged :
      r.1.events
      ≡ db.events
        ++ record (log (count_rows (cancels id is_open) db.occurrences)) { id = db.next_event_id }
          ∷ []

get_schedule-eq :
    (id : Text) (scope : Scope) (db : Db) (s : Schedule)
    → (get_schedule id scope db).0 ≡ ok s
    → get_schedule id scope db ≡ (ok s, db)
unfolding get_schedule
get_schedule-eq id scope db s e = rw e refl

pub pause_event : Schedule → Caller → Option Date → ℕ → ScheduleEvent
pause_event s caller until n =
    event s schedule_paused caller (("occurrences_canceled", number (pos n)) ∷ until_field until)

pub cancel_event : Schedule → Caller → Text → ℕ → ScheduleEvent
cancel_event s caller reason n =
    record (event s schedule_canceled caller (("occurrences_canceled", number (pos n)) ∷ [])) {
      reason_code = some reason;
    }

-- A transition of a schedule that is there, in a status that permits it.
perform_transition-eq :
    (id : Text) (a : Action) (caller : Caller) (apply : Schedule → Store (Unit {0})) (db db' : Db)
    (s answer : Schedule)
    → (get_schedule id caller.scope db).0 ≡ ok s
    → Permits a s.status
    → apply s db ≡ (ok tt, db')
    → (get_schedule id caller.scope db').0 ≡ ok answer
    → perform_transition id a caller apply db ≡ (ok answer, db')
unfolding perform_transition in_tx transition_steps get_schedule_for_update
perform_transition-eq id a caller apply db db' s answer found p did last =
    rw
      (
        get_schedule-eq id caller.scope db s found,
        Permits-ok a s.status p,
        did,
        get_schedule-eq id caller.scope db' answer last,
      )
      refl

module _ (caller : Caller) (db : Db) (w : WellFormed db) (s : Schedule)
    (found : (get_schedule s.id caller.scope db).0 ≡ ok s) where
  stop-Stopped :
      (status : ScheduleStatus) (until : Option Date) (log : ℕ → ScheduleEvent)
      (allowed : not (status_is_paused status) && is_some until ≡ false)
      (keyless : (n : ℕ) → (log n).idempotency_key ≡ none) (a : Action)
      (apply : Schedule → Store (Unit {0}))
      → Permits a s.status
      → apply s db ≡ stop s.id caller.scope status until log allowed keyless db
      → Stopped s.id
          (record s { status = status; paused_until = until; next_run_date = none })
          log
          db
          (perform_transition s.id a caller apply db)
  stop-Stopped status until log allowed keyless a apply p same =
      rw
        (perform_transition-eq s.id a caller apply db _ s _ found p
          (same ∙ stop-eq s.id caller.scope status until log allowed keyless db s found)
          (found_stopped s.id caller.scope status until log allowed keyless db s found))
        (record {
          answered = refl;
          none_open = none_open_left s.id db.occurrences w.rows_ok;
          logged = refl;
        })

  pause-Stopped :
      (svc : Service) (until : Option Date)
      → s.status ≡ ScheduleStatus.active
      → until_in_past svc s until ≡ false
      → Stopped s.id
          (record s { status = ScheduleStatus.paused; paused_until = until; next_run_date = none })
          (pause_event s caller until)
          db
          (pause_schedule svc s.id until caller db)
  unfolding pause_schedule pause_apply pause_event
  pause-Stopped svc until active later =
      stop-Stopped ScheduleStatus.paused until (pause_event s caller until) refl (λ n. refl) pause
        (pause_apply svc until caller) (rw active Permits.pause_active) (rw later refl)

  cancel-Stopped :
      (reason : Text)
      → Permits cancel s.status
      → validate_cancellation_reason reason ≡ ok tt
      → Stopped s.id
          (record s { status = ScheduleStatus.canceled; paused_until = none; next_run_date = none })
          (cancel_event s caller reason)
          db
          (cancel_schedule s.id reason caller db)
  unfolding cancel_schedule cancel_apply cancel_event
  cancel-Stopped reason p valid = rw valid (
      stop-Stopped ScheduleStatus.canceled none (cancel_event s caller reason) refl (λ n. refl)
        cancel (cancel_apply reason caller) p refl)

module _ (id : Text) (caller : Caller) (db : Db) (w : WellFormed db) (s : Schedule)
    (found : (get_schedule id caller.scope db).0 ≡ ok s) where
  same_id : s.id ≡ id
  same_id = (get_schedule-found id caller.scope db s found).0

  found_own : (get_schedule s.id caller.scope db).0 ≡ ok s
  found_own = subst (λ i. (get_schedule i caller.scope db).0 ≡ ok s) (sym same_id) found

  -- In a well-formed database, a pause of an active schedule that the caller finds, with no date to resume on or with one after today, succeeds. The
  -- answer is the schedule, paused until that date and with no next run; none of its occurrences
  -- is open any more; the log gains the one event, with the number of those that were canceled.
  pub pause_schedule-Stopped :
      (svc : Service) (until : Option Date)
      → s.status ≡ ScheduleStatus.active
      → until_in_past svc s until ≡ false
      → Stopped id
          (record s { status = ScheduleStatus.paused; paused_until = until; next_run_date = none })
          (pause_event s caller until)
          db
          (pause_schedule svc id until caller db)
  pause_schedule-Stopped svc until active later =
      subst
        (λ i.
          Stopped i
            (record s {
              status = ScheduleStatus.paused;
              paused_until = until;
              next_run_date = none;
            })
            (pause_event s caller until) db (pause_schedule svc i until caller db))
        same_id (pause-Stopped caller db w s found_own svc until active later)

  -- In a well-formed database, a cancellation of a schedule that the caller finds, for a listed
  -- reason, succeeds unless the schedule is canceled already. The answer
  -- is the schedule, canceled and with no next run; none of its occurrences is open any more; the
  -- log gains the one event, with the reason and the number of those that were canceled.
  pub cancel_schedule-Stopped :
      (reason : Text)
      → s.status ≢ ScheduleStatus.canceled
      → validate_cancellation_reason reason ≡ ok tt
      → Stopped id
          (record s { status = ScheduleStatus.canceled; paused_until = none; next_run_date = none })
          (cancel_event s caller reason)
          db
          (cancel_schedule id reason caller db)
  cancel_schedule-Stopped reason alive valid =
      subst
        (λ i.
          Stopped i
            (record s {
              status = ScheduleStatus.canceled;
              paused_until = none;
              next_run_date = none;
            })
            (cancel_event s caller reason) db (cancel_schedule i reason caller db))
        same_id (cancel-Stopped caller db w s found_own reason (may_cancel s.status alive) valid)
    where
      may_cancel : (st : ScheduleStatus) → st ≢ ScheduleStatus.canceled → Permits cancel st
      may_cancel ScheduleStatus.active h = Permits.cancel_active
      may_cancel ScheduleStatus.paused h = Permits.cancel_paused
      may_cancel ScheduleStatus.canceled h = absurd (h refl)
      may_cancel ScheduleStatus.failed h = Permits.cancel_failed
