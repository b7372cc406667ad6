-- ===== src/Service/Requests.antt =====
-- The transitions of internal/schedule/service.go behind one type of requests.
use replenishment_system.Common.{◌≡◌, subst, true, ◌&&◌, Option, none, some, and_left, and_right}
use replenishment_system.Common.Text.{Text, text_eq_sound}
use replenishment_system.Domain.Types.{
  Action, pause, resume, skip_next, defer, change_cadence, cancel, arm, Schedule, not_found, Result,
  ok, err,
}
use replenishment_system.Domain.Cadence.{validate_interval}
use replenishment_system.Domain.Transitions.{
  validate_schedule_transition, validate_defer_days, validate_idempotency_key,
  validate_cancellation_reason,
}
use replenishment_system.Store.Rows.{In}
use replenishment_system.Store.Rows.Laws.{first_row-select}
use replenishment_system.Store.Db.{
  Db, Store, in_transaction, lift, in_tx, commit_or_rollback, ◌>>=◌,
}
use replenishment_system.Store.Scope.{Scope, filter_own}
use replenishment_system.Store.Schedules.{get_schedule, get_schedule_for_update, with_id}
use replenishment_system.Store.Integrity.{WellFormed}
use replenishment_system.Store.Steps.{Step, Step-refl, Does, Does-bind, Does-bind-lift, Does-read}
use replenishment_system.Store.Steps.Reads.{get_schedule_for_update_same, get_schedule-Does}
use replenishment_system.Service.{
  Service, Caller, transition_steps, perform_transition, pause_schedule, resume_schedule,
  skip_schedule, arm_schedule, defer_schedule, change_cadence_schedule, cancel_schedule, Request,
  pause_until, resume_now, skip_with, arm_next, defer_by, every, cancel_for, handle,
}
use replenishment_system.Service.Frame.{
  ClockOk, pause_apply-Does, resume_apply-Does, cancel_apply-Does,
}
use replenishment_system.Service.Targets.{
  skip_apply-Does, defer_apply-Does, arm_apply-Does, cadence_apply-Does,
}

or_not_found-ok :
    (o : Option Schedule) (s : Schedule)
    → elim o [ none ↦ err not_found | some a ↦ ok a ] ≡ ok s
    → o ≡ some s
or_not_found-ok none s e = cc
or_not_found-ok (some x) s e = cc

-- The row that a caller gets has the id asked for, and is one the caller may see.
pub get_schedule-found :
    (id : Text) (scope : Scope) (db : Db) (s : Schedule)
    → (get_schedule id scope db).0 ≡ ok s
    → (s.id ≡ id) × (filter_own scope s ≡ true) × In s db.schedules
unfolding get_schedule
get_schedule-found id scope db s e =
    let found =
      first_row-select (λ s. with_id id s && filter_own scope s) s db.schedules
        (or_not_found-ok _ s e) in
    (text_eq_sound s.id id (and_left _ _ found.1), and_right _ _ found.1, found.0)

get_for_update-found :
    (id : Text) (scope : Scope) (db : Db) (s : Schedule)
    → (get_schedule_for_update in_transaction id scope db).0 ≡ ok s
    → (get_schedule id scope db).0 ≡ ok s
unfolding get_schedule_for_update
get_for_update-found id scope db s e = e

module _ (id : Text) where
  commit_or_rollback-Step :
      {A : Type 0} (db : Db) (r : Result A × Db)
      → WellFormed db
      → Step id db r.1
      → Step id db (commit_or_rollback db r).1
  commit_or_rollback-Step db (ok x, after) w s = s
  commit_or_rollback-Step db (err e, after) w s = Step-refl id db w

  module _ (a : Action) (caller : Caller) (apply : Schedule → Store (Unit {0})) where
    transition_steps-Does :
        ((s : Schedule) → Does s.id (apply s))
        → Does id (transition_steps id a caller apply in_transaction)
    unfolding transition_steps
    transition_steps-Does d =
        Does-read id (get_schedule_for_update in_transaction id caller.scope) _
          (get_schedule_for_update_same in_transaction id caller.scope)
          λ db s w e.
            let same : s.id ≡ id =
              (get_schedule-found id caller.scope db s
                (get_for_update-found id caller.scope db s e)).0 in
            let own : Does id (apply s) = subst (λ i. Does i (apply s)) same (d s) in
            let rest : Does id (
                lift (validate_schedule_transition s.status a) >>= λ u.
                apply s >>= λ v. get_schedule id caller.scope) =
              Does-bind-lift id (validate_schedule_transition s.status a) _ (λ u allowed.
                Does-bind id (apply s) _ own λ v. get_schedule-Does id id caller.scope) in
            record { steps = rest.at db w }

    pub perform_transition-Does :
        ((s : Schedule) → Does s.id (apply s)) → Does id (perform_transition id a caller apply)
    unfolding perform_transition in_tx
    perform_transition-Does d = record {
      at = λ db w. commit_or_rollback-Step db _ w ((transition_steps-Does d).at db w);
    }

handle-Does :
    (svc : Service) (id : Text) (rq : Request) (caller : Caller)
    → ClockOk svc.clock
    → Does id (handle svc id rq caller)
unfolding handle pause_schedule resume_schedule skip_schedule arm_schedule defer_schedule
    change_cadence_schedule cancel_schedule
handle-Does svc id (pause_until until) caller c =
    perform_transition-Does id pause caller _ (λ s. pause_apply-Does svc caller s until)
handle-Does svc id resume_now caller c =
    perform_transition-Does id resume caller _ (λ s. resume_apply-Does svc caller s c)
handle-Does svc id (skip_with key) caller c =
    Does-bind-lift id (validate_idempotency_key key) _
      λ u e. perform_transition-Does id skip_next caller _ (λ s. skip_apply-Does svc caller s key)
handle-Does svc id arm_next caller c =
    perform_transition-Does id arm caller _ (λ s. arm_apply-Does svc caller s)
handle-Does svc id (defer_by days key) caller c =
    Does-bind-lift id (validate_defer_days days) _ λ u e.
      Does-bind-lift id (validate_idempotency_key key) _ λ v f.
        perform_transition-Does id defer caller _ (λ s. defer_apply-Does svc caller s days key)
handle-Does svc id (every interval_days) caller c =
    Does-bind-lift id (validate_interval interval_days) _ λ u e.
      perform_transition-Does id change_cadence caller _
        (λ s. cadence_apply-Does svc caller s interval_days c)
handle-Does svc id (cancel_for reason) caller c =
    Does-bind-lift id (validate_cancellation_reason reason) _
      λ u e. perform_transition-Does id cancel caller _ (λ s. cancel_apply-Does svc caller s reason)

-- A request in a well-formed database keeps the primary keys and the unique and check constraints
-- of the four tables, and a schedule behind each item, and changes nothing that belongs to another
-- schedule: its row, its occurrences and the events of the log stay, and what the log gains are
-- events of the schedule asked for. The clock's dates have to be dates of the calendar.
pub handle-Step :
    (svc : Service) (id : Text) (rq : Request) (caller : Caller) (db : Db)
    → ClockOk svc.clock
    → WellFormed db
    → Step id db (handle svc id rq caller db).1
handle-Step svc id rq caller db c w = (handle-Does svc id rq caller c).at db w
