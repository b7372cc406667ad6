-- ===== src/Sweep/Kept.antt =====
-- The passes of internal/sweep/sweep.go and the constraints of the tables.
use replenishment_system.Common.{◌≡◌, refl, sym, subst, Bool, true, false, if◌then◌else◌}
use replenishment_system.Common.Text.{Text}
use replenishment_system.Calendar.{add_days, after}
use replenishment_system.Domain.Types.{
  Schedule, Occurrence, not_found, no_transaction, duplicate_occurrence, duplicate_schedule,
  transition, invalid, Result, ok, err,
}
use replenishment_system.Store.Rows.Laws.{In-All}
use replenishment_system.Store.Db.{Db}
use replenishment_system.Store.Integrity.{WellFormed}
use replenishment_system.Store.Steps.{Step, Step-refl}
use replenishment_system.Store.Steps.Reads.{next_planned_occurrence_same}
use replenishment_system.Store.Occurrences.{next_planned_occurrence}
use replenishment_system.Store.Schedules.{list_schedules_due_to_resume, list_schedules_due_to_arm}
use replenishment_system.Service.{handle, resume_now, arm_next}
use replenishment_system.Service.Frame.{ClockOk}
use replenishment_system.Service.Requests.{handle-Step}
use replenishment_system.Sweep.{
  Sweeper, today_for, system_caller, attempted, still_paused, resume_one, resume_due, window_before,
  arm_found, arm_one, arm_due,
}
use replenishment_system.Sweep.Passes.{pass-keeps}

attempted_same : {A : Type 0} (r : Result A × Db) → (attempted r).1 ≡ r.1
attempted_same (ok a, db) = refl
attempted_same (err e, db) = refl

if-Step :
    {A : Type 0} (id : Text) (db : Db) (b : Bool) (x y : A × Db)
    → Step id db x.1
    → Step id db y.1
    → Step id db (if b then x else y).1
if-Step id db true x y h k = h
if-Step id db false x y h k = k

-- An attempt is a step on behalf of its candidate.
pub resume_one-Step :
    (sw : Sweeper) (s : Schedule) (db : Db)
    → ClockOk sw.svc.clock
    → WellFormed db
    → Step s.id db (resume_one sw s db).1
unfolding resume_one handle
resume_one-Step sw s db clock w =
    if-Step s.id db (still_paused s.paused_until (today_for sw s)) _ _ (Step-refl s.id db w) (
      subst (λ d. Step s.id db d)
        (sym (attempted_same (handle sw.svc s.id resume_now system_caller db)))
        (handle-Step sw.svc s.id resume_now system_caller db clock w))

arm_found-Step :
    (sw : Sweeper) (s : Schedule) (db : Db) (r : Result Occurrence × Db)
    → ClockOk sw.svc.clock
    → WellFormed db
    → r.1 ≡ db
    → Step s.id db (arm_found sw s r).1
unfolding handle
arm_found-Step sw s db (ok o, d) clock w e =
    if-Step s.id db (after (add_days o.scheduled_for window_before) (today_for sw s)) _ _
      (subst (λ x. Step s.id db x) (sym e) (Step-refl s.id db w))
      (subst (λ x. Step s.id db x)
        (sym (attempted_same (handle sw.svc s.id arm_next system_caller d)))
        (subst (λ x. Step s.id db (handle sw.svc s.id arm_next system_caller x).1) (sym e)
          (handle-Step sw.svc s.id arm_next system_caller db clock w)))
arm_found-Step sw s db (err not_found, d) clock w e =
    subst (λ x. Step s.id db x) (sym e) (Step-refl s.id db w)
arm_found-Step sw s db (err no_transaction, d) clock w e =
    subst (λ x. Step s.id db x) (sym e) (Step-refl s.id db w)
arm_found-Step sw s db (err duplicate_occurrence, d) clock w e =
    subst (λ x. Step s.id db x) (sym e) (Step-refl s.id db w)
arm_found-Step sw s db (err duplicate_schedule, d) clock w e =
    subst (λ x. Step s.id db x) (sym e) (Step-refl s.id db w)
arm_found-Step sw s db (err (transition a b m), d) clock w e =
    subst (λ x. Step s.id db x) (sym e) (Step-refl s.id db w)
arm_found-Step sw s db (err (invalid m), d) clock w e =
    subst (λ x. Step s.id db x) (sym e) (Step-refl s.id db w)

pub arm_one-Step :
    (sw : Sweeper) (s : Schedule) (db : Db)
    → ClockOk sw.svc.clock
    → WellFormed db
    → Step s.id db (arm_one sw s db).1
unfolding arm_one
arm_one-Step sw s db clock w =
    arm_found-Step sw s db (next_planned_occurrence s.id db) clock w
      (next_planned_occurrence_same s.id db)

-- Both passes over a well-formed database keep the primary keys and the unique and check constraints
-- of the four tables, and a schedule behind each item, also when some of their attempts fail. The dates of the service's clock have to be dates of the calendar.
pub sweep-WellFormed :
    (sw : Sweeper) (db : Db)
    → ClockOk sw.svc.clock
    → WellFormed db
    → WellFormed (resume_due sw db).1 × WellFormed (arm_due sw db).1
unfolding resume_due arm_due list_schedules_due_to_resume list_schedules_due_to_arm
sweep-WellFormed sw db clock w = (
  pass-keeps (resume_one sw) WellFormed _ _ db
      (In-All _ _ (λ s i d v. (resume_one-Step sw s d clock v).well_formed)) w,
  pass-keeps (arm_one sw) WellFormed _ _ db
      (In-All _ _ (λ s i d v. (arm_one-Step sw s d clock v).well_formed)) w,
)
