-- ===== src/Service/Refusals.antt =====
-- Requests that internal/schedule/service.go refuses, and what an accepted one has met.
use replenishment_system.Common.{◌≡◌, ◌≢◌, refl, sym, ap, subst, ◌∙◌}
use replenishment_system.Common.Text.{Text}
use replenishment_system.Domain.Types.{
  ScheduleStatus, Action, pause, resume, skip_next, defer, change_cadence, cancel, arm, Schedule,
  Error, Result, ok, err, Outcome,
}
use replenishment_system.Domain.Cadence.{validate_interval}
use replenishment_system.Domain.Transitions.{
  validate_defer_days, validate_idempotency_key, validate_cancellation_reason,
}
use replenishment_system.Domain.Transitions.Table.{Permits}
use replenishment_system.Store.Db.{Db, Store, lift, in_tx, commit_or_rollback, ◌>>=◌}
use replenishment_system.Store.Schedules.{get_schedule}
use replenishment_system.Service.{
  Service, Caller, perform_transition, pause_apply, resume_apply, skip_apply, arm_apply,
  defer_apply, cadence_apply, cancel_apply, pause_schedule, resume_schedule, skip_schedule,
  arm_schedule, defer_schedule, change_cadence_schedule, cancel_schedule, Request, pause_until,
  resume_now, skip_with, arm_next, defer_by, every, cancel_for, handle,
}
use replenishment_system.Service.Runs.{perform_transition-Ran}

-- A failure leaves the database as it was.
pub record Atomic {A : Type 0} (m : Store A) : Type 0 where
  pub unchanged : (db : Db) (x : Error) → (m db).0 ≡ err x → (m db).1 ≡ db

commit_or_rollback-unchanged :
    {A : Type 0} (db : Db) (r : Result A × Db) (x : Error)
    → (commit_or_rollback db r).0 ≡ err x
    → (commit_or_rollback db r).1 ≡ db
commit_or_rollback-unchanged db (ok a, after) x e = cc
commit_or_rollback-unchanged db (err y, after) x e = refl

pub perform_transition-Atomic :
    (id : Text) (a : Action) (caller : Caller) (apply : Schedule → Store (Unit {0}))
    → Atomic (perform_transition id a caller apply)
unfolding perform_transition in_tx
perform_transition-Atomic id a caller apply = record {
  unchanged = λ db x e. commit_or_rollback-unchanged db _ x e;
}

lift-Atomic :
    {A : Type 0} (r : Outcome) (f : Unit {0} → Store A) → Atomic (f tt) → Atomic (lift r >>= f)
lift-Atomic (ok tt) f h = record { unchanged = λ db x e. h.unchanged db x e }
lift-Atomic (err y) f h = record { unchanged = λ db x e. refl }

handle-Atomic :
    (svc : Service) (id : Text) (rq : Request) (caller : Caller) → Atomic (handle svc id rq caller)
unfolding handle pause_schedule resume_schedule skip_schedule arm_schedule defer_schedule
    change_cadence_schedule cancel_schedule
handle-Atomic svc id (pause_until until) caller = perform_transition-Atomic id pause caller _
handle-Atomic svc id resume_now caller = perform_transition-Atomic id resume caller _
handle-Atomic svc id (skip_with key) caller =
    lift-Atomic (validate_idempotency_key key) _ (perform_transition-Atomic id skip_next caller _)
handle-Atomic svc id arm_next caller = perform_transition-Atomic id arm caller _
handle-Atomic svc id (defer_by days key) caller =
    lift-Atomic (validate_defer_days days) _
      (lift-Atomic (validate_idempotency_key key) _ (perform_transition-Atomic id defer caller _))
handle-Atomic svc id (every interval_days) caller =
    lift-Atomic (validate_interval interval_days) _
      (perform_transition-Atomic id change_cadence caller _)
handle-Atomic svc id (cancel_for reason) caller =
    lift-Atomic (validate_cancellation_reason reason) _
      (perform_transition-Atomic id cancel caller _)

-- A request that is answered with an error, whichever of its statements failed, leaves the whole
-- database as it was.
pub handle_unchanged :
    (svc : Service) (id : Text) (rq : Request) (caller : Caller) (db : Db) (x : Error)
    → (handle svc id rq caller db).0 ≡ err x
    → (handle svc id rq caller db).1 ≡ db
handle_unchanged svc id rq caller db x e = (handle-Atomic svc id rq caller).unchanged db x e

-- The action that a request stands for.
abbrev pub action_of : Request → Action
action_of (pause_until until) = pause
action_of resume_now = resume
action_of (skip_with key) = skip_next
action_of arm_next = arm
action_of (defer_by days key) = defer
action_of (every interval_days) = change_cadence
action_of (cancel_for reason) = cancel

pub record Accepted (id : Text) (a : Action) (caller : Caller) (db db' : Db) (answer : Schedule)
    : Type 0 where
  pub before : Schedule
  pub found : (get_schedule id caller.scope db).0 ≡ ok before
  pub permitted : Permits a before.status
  pub answered : (get_schedule id caller.scope db').0 ≡ ok answer

Ran-Accepted :
    (id : Text) (a : Action) (caller : Caller) (apply : Schedule → Store (Unit {0})) (db : Db)
    (answer : Schedule)
    → (perform_transition id a caller apply db).0 ≡ ok answer
    → Accepted id a caller db (perform_transition id a caller apply db).1 answer
Ran-Accepted id a caller apply db answer e =
    let t = perform_transition-Ran id a caller apply db answer e in
    record {
      before = t.before;
      found = t.found;
      permitted = t.permitted;
      answered = rw t.after t.answered;
    }

lift-Accepted :
    (id : Text) (a : Action) (caller : Caller) (r : Outcome) (m : Store Schedule) (db : Db)
    (answer : Schedule)
    → ((m db).0 ≡ ok answer → Accepted id a caller db (m db).1 answer)
    → ((lift r >>= λ u. m) db).0 ≡ ok answer
    → Accepted id a caller db ((lift r >>= λ u. m) db).1 answer
lift-Accepted id a caller (ok tt) m db answer h e = h e
lift-Accepted id a caller (err x) m db answer h e = cc

-- A request that succeeds was made for a schedule that the caller could find, and whose status
-- permits the action by the table of transitions; the answer is the schedule as the caller finds it
-- afterwards.
pub handle-Accepted :
    (svc : Service) (id : Text) (rq : Request) (caller : Caller) (db : Db) (answer : Schedule)
    → (handle svc id rq caller db).0 ≡ ok answer
    → Accepted id (action_of rq) caller db (handle svc id rq caller db).1 answer
unfolding handle pause_schedule resume_schedule skip_schedule arm_schedule defer_schedule
    change_cadence_schedule cancel_schedule
handle-Accepted svc id (pause_until until) caller db answer =
    Ran-Accepted id pause caller (pause_apply svc until caller) db answer
handle-Accepted svc id resume_now caller db answer =
    Ran-Accepted id resume caller (resume_apply svc caller) db answer
handle-Accepted svc id (skip_with key) caller db answer =
    lift-Accepted id skip_next caller (validate_idempotency_key key) _ db answer
      (Ran-Accepted id skip_next caller (skip_apply svc key caller) db answer)
handle-Accepted svc id arm_next caller db answer =
    Ran-Accepted id arm caller (arm_apply caller) db answer
handle-Accepted svc id (defer_by days key) caller db answer =
    lift-Accepted id defer caller (validate_defer_days days) _ db answer (
      lift-Accepted id defer caller (validate_idempotency_key key) _ db answer
        (Ran-Accepted id defer caller (defer_apply svc days key caller) db answer))
handle-Accepted svc id (every interval_days) caller db answer =
    lift-Accepted id change_cadence caller (validate_interval interval_days) _ db answer
      (Ran-Accepted id change_cadence caller (cadence_apply svc interval_days caller) db answer)
handle-Accepted svc id (cancel_for reason) caller db answer =
    lift-Accepted id cancel caller (validate_cancellation_reason reason) _ db answer
      (Ran-Accepted id cancel caller (cancel_apply reason caller) db answer)

-- No request succeeds for a schedule that the caller finds canceled.
pub canceled_refused :
    (svc : Service) (id : Text) (rq : Request) (caller : Caller) (db : Db) (s answer : Schedule)
    → (get_schedule id caller.scope db).0 ≡ ok s
    → s.status ≡ ScheduleStatus.canceled
    → (handle svc id rq caller db).0 ≢ ok answer
canceled_refused svc id rq caller db s answer found c e =
    let t = handle-Accepted svc id rq caller db answer e in
    let same : t.before ≡ s = ok_inj t.before s (sym t.found ∙ found) in
    final (action_of rq) (
      subst (λ st. Permits (action_of rq) st) (ap (λ (x : Schedule). x.status) same ∙ c)
        t.permitted)
  where
    ok_inj : (x y : Schedule) → ok x ≡ ok y → x ≡ y
    ok_inj x y h = cc h

    final : (a : Action) → Permits a ScheduleStatus.canceled → ⊥
    final a p = elim p [ ]
