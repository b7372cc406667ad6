-- ===== src/Service/Runs.antt =====
-- `transition` of internal/schedule/service.go when it succeeds: what each of its steps has done.
use replenishment_system.Common.{◌≡◌, refl, sym, ap, ◌∙◌}
use replenishment_system.Common.Text.{Text}
use replenishment_system.Domain.Types.{Action, Schedule, Result, ok, err}
use replenishment_system.Domain.Transitions.{validate_schedule_transition}
use replenishment_system.Domain.Transitions.Table.{Permits, Permits-sound}
use replenishment_system.Store.Db.{
  Db, Store, in_transaction, lift, in_tx, commit_or_rollback, ◌>>=◌, >>=-runs,
}
use replenishment_system.Store.Schedules.{get_schedule, get_schedule_for_update}
use replenishment_system.Store.Steps.Reads.{get_schedule_same}
use replenishment_system.Service.{Caller, transition_steps, perform_transition}

-- The schedule was found, its status permits the action, `apply` succeeded on it, and its database
-- is the one that is committed.
pub record Ran (id : Text) (a : Action) (caller : Caller) (apply : Schedule → Store (Unit {0}))
    (db db' : Db) (answer : Schedule) : Type 0 where
  pub before : Schedule
  pub found : (get_schedule id caller.scope db).0 ≡ ok before
  pub permitted : Permits a before.status
  pub applied : (apply before db).0 ≡ ok tt
  pub after : db' ≡ (apply before db).1
  pub answered : (get_schedule id caller.scope (apply before db).1).0 ≡ ok answer

commit-ok :
    {A : Type 0} (db : Db) (r : Result A × Db) (a : A)
    → (commit_or_rollback db r).0 ≡ ok a
    → (r.0 ≡ ok a) × ((commit_or_rollback db r).1 ≡ r.1)
commit-ok db (ok x, after) a e = (e, refl)
commit-ok db (err y, after) a e = cc

module _ (id : Text) (a : Action) (caller : Caller) (apply : Schedule → Store (Unit {0})) where
  -- What `transition_steps` does once the schedule is read, and once its status permits the action.
  abbrev finish : Schedule → Store Schedule
  finish s = apply s >>= λ _. get_schedule id caller.scope

  abbrev checked : Schedule → Store Schedule
  checked s = lift (validate_schedule_transition s.status a) >>= λ _. finish s

  transition_steps-Ran :
      (db : Db) (answer : Schedule)
      → (transition_steps id a caller apply in_transaction db).0 ≡ ok answer
      → Ran id a caller apply db (transition_steps id a caller apply in_transaction db).1 answer
  unfolding transition_steps get_schedule_for_update
  transition_steps-Ran db answer e =
      let (s, found, first) = >>=-runs (get_schedule id caller.scope) checked db answer e in
      let d : Db = (get_schedule id caller.scope db).1 in
      let same : d ≡ db = get_schedule_same id caller.scope db in
      let start : transition_steps id a caller apply in_transaction db ≡ checked s db =
        first ∙ ap (checked s) same in
      let e1 : (checked s db).0 ≡ ok answer = sym (ap (λ r. r.0) start) ∙ e in
      let (u, allowed, second) =
        >>=-runs (lift (validate_schedule_transition s.status a)) (λ _. finish s) db answer e1 in
      let e2 : (finish s db).0 ≡ ok answer = sym (ap (λ r. r.0) second) ∙ e1 in
      let (v, did, third) = >>=-runs (apply s) (λ _. get_schedule id caller.scope) db answer e2 in
      let last : Db = (apply s db).1 in
      record {
        before = s;
        found = found;
        permitted = Permits-sound a s.status allowed;
        applied = did;
        after =
            ap (λ r. r.1) start
            ∙ ap (λ r. r.1) second
            ∙ ap (λ r. r.1) third
            ∙ get_schedule_same id caller.scope last;
        answered = sym (ap (λ r. r.0) third) ∙ e2;
      }

  pub perform_transition-Ran :
      (db : Db) (answer : Schedule)
      → (perform_transition id a caller apply db).0 ≡ ok answer
      → Ran id a caller apply db (perform_transition id a caller apply db).1 answer
  unfolding perform_transition in_tx
  perform_transition-Ran db answer e =
      let (done, same) =
        commit-ok db (transition_steps id a caller apply in_transaction db) answer e in
      rw same (transition_steps-Ran db answer done)
