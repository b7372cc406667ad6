-- ===== src/Service/Targets.antt =====
-- The transitions of internal/schedule/service.go that pick an order of the schedule: skip, defer,
-- arm, and the last placed order that a change of cadence is measured from.
use replenishment_system.Common.{◌≡◌, refl, Bool, true, false, not, none, if◌then◌else◌}
use replenishment_system.Common.Int.{ℤ}
use replenishment_system.Common.Text.{Text}
use replenishment_system.Calendar.{Date, add_days}
use replenishment_system.Calendar.Days.{IsValid}
use replenishment_system.Calendar.Arith.{add_days-IsValid}
use replenishment_system.Domain.Types.{
  OccurrenceStatus, skip_next, defer, arm, occurrence_skipped, occurrence_deferred, Schedule,
  Occurrence, not_found, Result, ok, err, is_active,
}
use replenishment_system.Store.Rows.Laws.{All-In}
use replenishment_system.Store.Db.{Db, pure, ◌>>=◌}
use replenishment_system.Store.Schedules.{update_schedule_next_run, update_schedule_cadence}
use replenishment_system.Store.Occurrences.{
  is_open, is_planned, is_placed, next_planned_occurrence, last_placed_occurrence,
  update_occurrence_status, update_occurrence_date,
}
use replenishment_system.Store.Integrity.{WellFormed, OccurrenceOk}
use replenishment_system.Store.Steps.{Does, Does-same, Does-bind, Does-read, DoesAt-after}
use replenishment_system.Store.Steps.ScheduleRows.{
  update_schedule_next_run-Does, update_schedule_cadence-Does, append_event-Does,
}
use replenishment_system.Store.Steps.OccurrenceRows.{
  update_occurrence_status-Step, update_occurrence_date-Step,
}
use replenishment_system.Store.Steps.Reads.{
  next_planned_occurrence_same, last_placed_occurrence_same, event_exists_with_key-Does,
}
use replenishment_system.Materialize.{run}
use replenishment_system.Materialize.Frame.{run-Does, refresh_next_run_date-Does}
use replenishment_system.Service.{
  Service, Caller, today, refuse_if_none, next_occurrence, skip_target, skip_apply, arm_apply,
  defer_target, defer_apply, placed_or_today, cadence_apply,
}
use replenishment_system.Service.Frame.{ClockOk, today-IsValid, cancel_planned-Does}
use replenishment_system.Service.Picks.{
  Target, query_one_occurrence-Target, refuse_if_none-ok, refuse_if_none_same, next_occurrence_same,
  next_occurrence-Target,
}

module _ (svc : Service) (caller : Caller) (s : Schedule) where
  skip_target-Does : (key : Text) → Does s.id (skip_target svc key caller s)
  unfolding skip_target
  skip_target-Does key =
      Does-read s.id (next_occurrence s skip_next "there is no upcoming order to skip") _
        (next_occurrence_same s skip_next _)
        λ db o w e.
          let t : Target s.id is_open db o = next_occurrence-Target s skip_next _ db o e in
          DoesAt-after s.id db (update_occurrence_status o.id OccurrenceStatus.skipped) _
            (update_occurrence_status-Step s.id o db w t.there t.own OccurrenceStatus.skipped)
            λ u. Does-bind s.id _ _ (append_event-Does s.id _ refl) λ v.
              Does-bind s.id _ _ (run-Does svc.mat s (today svc s))
                λ counts. Does-same s.id _ (λ d. refl)

  pub skip_apply-Does : (key : Text) → Does s.id (skip_apply svc key caller s)
  unfolding skip_apply
  skip_apply-Does key =
      Does-bind s.id _ _ (event_exists_with_key-Does s.id s.id occurrence_skipped key) decide
    where
      decide :
          (already : Bool) → Does s.id (if already then pure tt else skip_target svc key caller s)
      decide true = Does-same s.id _ (λ db. refl)
      decide false = skip_target-Does key

  defer_target-Does : (days : ℤ) (key : Text) → Does s.id (defer_target svc days key caller s)
  unfolding defer_target
  defer_target-Does days key =
      Does-read s.id (next_occurrence s defer "there is no upcoming order to move") _
        (next_occurrence_same s defer _)
        λ db o w e.
          let t : Target s.id is_open db o = next_occurrence-Target s defer _ db o e in
          DoesAt-after s.id db (update_occurrence_date o.id (add_days o.scheduled_for days)) _
            (update_occurrence_date-Step s.id o db w t.there t.own (add_days o.scheduled_for days)
              (add_days-IsValid o.scheduled_for days))
            λ u.
              Does-bind s.id _ _ (append_event-Does s.id _ refl)
                λ v. refresh_next_run_date-Does svc.mat s (today svc s)

  pub defer_apply-Does : (days : ℤ) (key : Text) → Does s.id (defer_apply svc days key caller s)
  unfolding defer_apply
  defer_apply-Does days key =
      Does-bind s.id _ _ (event_exists_with_key-Does s.id s.id occurrence_deferred key) decide
    where
      decide :
          (already : Bool)
          → Does s.id (if already then pure tt else defer_target svc days key caller s)
      decide true = Does-same s.id _ (λ db. refl)
      decide false = defer_target-Does days key

  pub arm_apply-Does : Does s.id (arm_apply caller s)
  unfolding arm_apply next_planned_occurrence
  arm_apply-Does =
      Does-read s.id
        (λ db.
          refuse_if_none arm s.status "no planned order is due to be armed"
            (next_planned_occurrence s.id db))
        _ (λ db. refuse_if_none_same arm s.status _ _ db (next_planned_occurrence_same s.id db))
        λ db o w e.
          let t : Target s.id is_planned db o =
            query_one_occurrence-Target _ s.id is_planned db o
              (refuse_if_none-ok arm s.status _ _ o e) in
          DoesAt-after s.id db (update_occurrence_status o.id OccurrenceStatus.pending) _
            (update_occurrence_status-Step s.id o db w t.there t.own OccurrenceStatus.pending)
            λ u. append_event-Does s.id _ refl

  placed_or_today_same :
      (r : Result Occurrence × Db) (db : Db) → r.1 ≡ db → (placed_or_today (today svc s) r).1 ≡ db
  placed_or_today_same (ok x, db') db e = e
  placed_or_today_same (err not_found, db') db e = e
  placed_or_today_same (err _, db') db e = e

  placed_or_today-IsValid :
      (r : Result Occurrence × Db) (d : Date)
      → ((o : Occurrence) → r.0 ≡ ok o → IsValid o.scheduled_for)
      → IsValid (today svc s)
      → (placed_or_today (today svc s) r).0 ≡ ok d
      → IsValid d
  placed_or_today-IsValid (ok x, db) d h now e =
      let same : x.scheduled_for ≡ d = cc e in rw same at (h x refl)
  placed_or_today-IsValid (err not_found, db) d h now e =
      let same : today svc s ≡ d = cc e in rw same at now
  placed_or_today-IsValid (err _, db) d h now e = cc

  last_placed-IsValid :
      (db : Db)
      → WellFormed db
      → (o : Occurrence) → (last_placed_occurrence s.id db).0 ≡ ok o
      → IsValid o.scheduled_for
  unfolding last_placed_occurrence
  last_placed-IsValid db w o e =
      let t = query_one_occurrence-Target _ s.id is_placed db o e in
      (All-In OccurrenceOk o db.occurrences w.rows_ok t.there).date_ok

  pub cadence_apply-Does :
      (interval_days : ℤ) → ClockOk svc.clock → Does s.id (cadence_apply svc interval_days caller s)
  unfolding cadence_apply
  cadence_apply-Does interval_days c =
      Does-read s.id (λ db. placed_or_today (today svc s) (last_placed_occurrence s.id db)) _
        (λ db. placed_or_today_same _ db (last_placed_occurrence_same s.id db))
        λ db anchor w e.
          let valid : IsValid anchor =
            placed_or_today-IsValid _ anchor (last_placed-IsValid db w) (today-IsValid svc s c) e in
          DoesAt-after s.id db (update_schedule_cadence s.id interval_days anchor) _
            ((update_schedule_cadence-Does s.id interval_days anchor valid).at db w)
            λ u. Does-bind s.id _ _ (cancel_planned-Does s.id) λ rewritten.
              Does-bind s.id _ _ (append_event-Does s.id _ refl) λ v.
                renew anchor (
                  not
                    (is_active (record s { interval_days = interval_days; anchor_date = anchor })))
    where
      renew :
          (anchor : Date) (b : Bool)
          → Does s.id (
              if b
              then update_schedule_next_run s.id none
              else (run svc.mat
                    (record s { interval_days = interval_days; anchor_date = anchor })
                    (today svc s)
                  >>= λ counts. pure tt))
      renew anchor true = update_schedule_next_run-Does s.id none
      renew anchor false =
          Does-bind s.id _ _ (run-Does svc.mat _ (today svc s))
            λ counts. Does-same s.id _ (λ d. refl)
