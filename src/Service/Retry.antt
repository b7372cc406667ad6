-- ===== src/Service/Retry.antt =====
-- A second `SkipNext` or `Defer` of internal/schedule/service.go with the key of a first one.
use replenishment_system.Common.{◌≡◌, refl, sym, subst, ◌∙◌, Bool, true, false, if◌then◌else◌}
use replenishment_system.Common.Int.{ℤ}
use replenishment_system.Common.Text.{Text}
use replenishment_system.Calendar.{add_days}
use replenishment_system.Calendar.Arith.{add_days-IsValid}
use replenishment_system.Domain.Types.{
  OccurrenceStatus, EventType, Action, skip_next, defer, occurrence_skipped, occurrence_deferred,
  Schedule, Result, ok, err, Outcome,
}
use replenishment_system.Domain.Transitions.{validate_idempotency_key, validate_defer_days}
use replenishment_system.Store.Rows.{exists_row}
use replenishment_system.Store.Db.{Db, Store, pure, lift, ◌>>=◌}
use replenishment_system.Store.Occurrences.{
  is_open, update_occurrence_status, update_occurrence_date,
}
use replenishment_system.Store.Events.{carries_key, event_exists_with_key}
use replenishment_system.Store.Integrity.{WellFormed}
use replenishment_system.Store.Steps.{Does-same, Does-bind}
use replenishment_system.Store.Steps.OccurrenceRows.{
  update_occurrence_status-Step, update_occurrence_date-Step,
}
use replenishment_system.Materialize.{run, refresh_next_run_date}
use replenishment_system.Materialize.Frame.{run-Does, refresh_next_run_date-Does}
use replenishment_system.Service.{
  Service, Caller, today, perform_transition, next_occurrence, skip_target, skip_apply,
  skip_schedule, defer_target, defer_apply, defer_schedule,
}
use replenishment_system.Service.Picks.{Target, next_occurrence_same, next_occurrence-Target}
use replenishment_system.Service.Requests.{get_schedule-found}
use replenishment_system.Service.Refusals.{perform_transition-Atomic}
use replenishment_system.Service.Runs.{perform_transition-Ran}
use replenishment_system.Service.Keyed.{HasKey, keyed-HasKey}

-- The guard of `skip_apply` and `defer_apply`.
module _ (id : Text) (t : EventType) (key : Text) (target : Store (Unit {0})) where
  abbrev guarded : Store (Unit {0})
  guarded = do already ← event_exists_with_key id t key; if already then pure tt else target

  guarded-HasKey :
      (db : Db)
      → ((target db).0 ≡ ok tt → HasKey id t key (target db).1)
      → (guarded db).0 ≡ ok tt
      → HasKey id t key (guarded db).1
  unfolding event_exists_with_key
  guarded-HasKey db h e = decide (exists_row (carries_key id t key) db.events) refl e
    where
      decide :
          (b : Bool)
          → exists_row (carries_key id t key) db.events ≡ b
          → ((if b then pure tt else target) db).0 ≡ ok tt
          → HasKey id t key ((if b then pure tt else target) db).1
      decide true known done = known
      decide false known done = h done

  guarded_again : (db : Db) → HasKey id t key db → (guarded db).1 ≡ db
  unfolding event_exists_with_key
  guarded_again db h = rw h refl

module _ (id : Text) (a : Action) (t : EventType) (key : Text) (caller caller' : Caller)
    (apply apply' : Schedule → Store (Unit {0}))
    (logs : (s : Schedule) (db : Db)
      → WellFormed db
      → (apply s db).0 ≡ ok tt
      → HasKey s.id t key (apply s db).1)
    (again : (s : Schedule) (db : Db) → HasKey s.id t key db → (apply' s db).1 ≡ db) where
  perform-HasKey :
      (db : Db) (answer : Schedule)
      → WellFormed db
      → (perform_transition id a caller apply db).0 ≡ ok answer
      → HasKey id t key (perform_transition id a caller apply db).1
  perform-HasKey db answer w e =
      let ran = perform_transition-Ran id a caller apply db answer e in
      let own : ran.before.id ≡ id =
        (get_schedule-found id caller.scope db ran.before ran.found).0 in
      rw ran.after
        (subst (λ i. HasKey i t key (apply ran.before db).1) own (logs ran.before db w ran.applied))

  perform_again :
      (db : Db) → HasKey id t key db → (perform_transition id a caller' apply' db).1 ≡ db
  perform_again db h = go (perform_transition id a caller' apply' db).0 refl
    where
      go :
          (r : Result Schedule)
          → (perform_transition id a caller' apply' db).0 ≡ r
          → (perform_transition id a caller' apply' db).1 ≡ db
      go (err x) e = (perform_transition-Atomic id a caller' apply').unchanged db x e
      go (ok answer) e =
          let ran = perform_transition-Ran id a caller' apply' db answer e in
          let own : ran.before.id ≡ id =
            (get_schedule-found id caller'.scope db ran.before ran.found).0 in
          ran.after ∙ again ran.before db (subst (λ i. HasKey i t key db) (sym own) h)

  perform_retry :
      (db : Db) (answer : Schedule)
      → WellFormed db
      → (perform_transition id a caller apply db).0 ≡ ok answer
      → (perform_transition id a caller' apply' (perform_transition id a caller apply db).1).1
        ≡ (perform_transition id a caller apply db).1
  perform_retry db answer w e = perform_again _ (perform-HasKey db answer w e)

lift_retry :
    (r : Outcome) (m m' : Store Schedule) (db : Db) (answer : Schedule)
    → ((m db).0 ≡ ok answer → (m' (m db).1).1 ≡ (m db).1)
    → ((lift r >>= λ u. m) db).0 ≡ ok answer
    → ((lift r >>= λ u. m') ((lift r >>= λ u. m) db).1).1 ≡ ((lift r >>= λ u. m) db).1
lift_retry (ok u) m m' db answer h e = h e
lift_retry (err x) m m' db answer h e = cc

module _ (svc : Service) (key : Text) (caller : Caller) (s : Schedule) where
  skip_apply-HasKey :
      (db : Db)
      → WellFormed db
      → (skip_apply svc key caller s db).0 ≡ ok tt
      → HasKey s.id occurrence_skipped key (skip_apply svc key caller s db).1
  unfolding skip_apply skip_target
  skip_apply-HasKey db w =
      guarded-HasKey s.id occurrence_skipped key (skip_target svc key caller s) db (
        keyed-HasKey s.id occurrence_skipped key
          (next_occurrence s skip_next "there is no upcoming order to skip")
          (λ o. update_occurrence_status o.id OccurrenceStatus.skipped) _
          (run svc.mat s (today svc s) >>= λ counts. pure tt) (next_occurrence_same s skip_next _)
          (λ d o v e.
            let t : Target s.id is_open d o = next_occurrence-Target s skip_next _ d o e in
            update_occurrence_status-Step s.id o d v t.there t.own OccurrenceStatus.skipped)
          (λ o. refl) (λ o. refl) (λ o. refl)
          (Does-bind s.id _ _ (run-Does svc.mat s (today svc s))
            λ counts. Does-same s.id _ (λ d. refl))
          db w)

  skip_apply_again :
      (db : Db) → HasKey s.id occurrence_skipped key db → (skip_apply svc key caller s db).1 ≡ db
  unfolding skip_apply
  skip_apply_again db h =
      guarded_again s.id occurrence_skipped key (skip_target svc key caller s) db h

  module _ (days : ℤ) where
    defer_apply-HasKey :
        (db : Db)
        → WellFormed db
        → (defer_apply svc days key caller s db).0 ≡ ok tt
        → HasKey s.id occurrence_deferred key (defer_apply svc days key caller s db).1
    unfolding defer_apply defer_target
    defer_apply-HasKey db w =
        guarded-HasKey s.id occurrence_deferred key (defer_target svc days key caller s) db (
          keyed-HasKey s.id occurrence_deferred key
            (next_occurrence s defer "there is no upcoming order to move")
            (λ o. update_occurrence_date o.id (add_days o.scheduled_for days)) _
            (refresh_next_run_date s (today svc s)) (next_occurrence_same s defer _)
            (λ d o v e.
              let t : Target s.id is_open d o = next_occurrence-Target s defer _ d o e in
              update_occurrence_date-Step s.id o d v t.there t.own (add_days o.scheduled_for days)
                (add_days-IsValid o.scheduled_for days))
            (λ o. refl) (λ o. refl) (λ o. refl) (refresh_next_run_date-Does svc.mat s (today svc s))
            db w)

    defer_apply_again :
        (db : Db)
        → HasKey s.id occurrence_deferred key db
        → (defer_apply svc days key caller s db).1 ≡ db
    unfolding defer_apply
    defer_apply_again db h =
        guarded_again s.id occurrence_deferred key (defer_target svc days key caller s) db h

-- After a skip that succeeded in a well-formed database, another one with the same key changes
-- nothing, whichever caller and clock it comes with: no second order is skipped.
pub skip_schedule_retry :
    (svc svc' : Service) (id key : Text) (caller caller' : Caller) (db : Db) (answer : Schedule)
    → WellFormed db
    → (skip_schedule svc id key caller db).0 ≡ ok answer
    → (skip_schedule svc' id key caller' (skip_schedule svc id key caller db).1).1
      ≡ (skip_schedule svc id key caller db).1
unfolding skip_schedule
skip_schedule_retry svc svc' id key caller caller' db answer w =
    lift_retry (validate_idempotency_key key) _ _ db answer (
      perform_retry id skip_next occurrence_skipped key caller caller' (skip_apply svc key caller)
        (skip_apply svc' key caller') (skip_apply-HasKey svc key caller)
        (skip_apply_again svc' key caller') db answer w)

-- After a deferral that succeeded in a well-formed database, another one by the same days with the
-- same key changes nothing: no order moves twice.
pub defer_schedule_retry :
    (svc svc' : Service) (id key : Text) (days : ℤ) (caller caller' : Caller) (db : Db)
    (answer : Schedule)
    → WellFormed db
    → (defer_schedule svc id days key caller db).0 ≡ ok answer
    → (defer_schedule svc' id days key caller' (defer_schedule svc id days key caller db).1).1
      ≡ (defer_schedule svc id days key caller db).1
unfolding defer_schedule
defer_schedule_retry svc svc' id key days caller caller' db answer w =
    lift_retry (validate_defer_days days) _ _ db answer (
      lift_retry (validate_idempotency_key key) _ _ db answer (
        perform_retry id defer occurrence_deferred key caller caller'
          (defer_apply svc days key caller) (defer_apply svc' days key caller')
          (λ s. defer_apply-HasKey svc key caller s days)
          (λ s. defer_apply_again svc' key caller' s days) db answer w))
