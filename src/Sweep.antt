-- ===== src/Sweep.antt =====
-- internal/sweep: the passes that move schedules forward on their own, through the service. Logging
-- is left out.
pub mod Passes
pub mod Kept
pub mod Due
pub mod Counts
pub mod Report
use replenishment_system.Common.{
  ℕ, suc, ◌+◌, ◌-◌, Bool, true, false, not, ◌||◌, Option, none, some, List, [], ◌∷◌, if◌then◌else◌,
}
use replenishment_system.Common.Int.{ℤ, pos, negsuc}
use replenishment_system.Common.Text.{Text}
use replenishment_system.Calendar.{Date, add_days, after}
use replenishment_system.Domain.Types.{
  EventActor, Schedule, Occurrence, Error, not_found, Result, ok, err, is_transition_error,
}
use replenishment_system.Domain.Transitions.{arm_window_days}
use replenishment_system.Store.Db.{Db, Store}
use replenishment_system.Store.Scope.{system_scope}
use replenishment_system.Store.Schedules.{list_schedules_due_to_resume, list_schedules_due_to_arm}
use replenishment_system.Store.Occurrences.{next_planned_occurrence}
use replenishment_system.Service.{Clock, Service, Caller, date_or, resume_schedule, arm_schedule}

-- `id_less` is the database's order of uuids.
pub record Sweeper : Type 0 where
  pub svc : Service
  pub clock : Clock
  pub id_less : Text → Text → Bool

unfoldable pub today_for : Sweeper → Schedule → Date
today_for sw s = date_or sw.clock.utc_date (sw.clock.local_date s.timezone)

abbrev pub system_caller : Caller
system_caller = record { actor = EventActor.system; scope = system_scope }

-- The fields that `ResumeResult` and `ArmResult` share; `acted` is `Resumed` and `Armed`.
pub record PassResult : Type 0 where
  pub considered : ℕ
  pub acted : ℕ
  pub not_yet_due : ℕ
  pub already_moved : ℕ

abbrev pub no_results : PassResult
no_results = record { considered = 0; acted = 0; not_yet_due = 0; already_moved = 0 }

-- How the loop leaves one candidate.
pub data Attempt : Type 0 where
  done not_due moved : Attempt
  failed : Error → Attempt

abbrev is_not_found : Error → Bool
is_not_found not_found = true
is_not_found _ = false

abbrev pub lost : Error → Attempt
lost e = if is_transition_error e || is_not_found e then moved else failed e

abbrev pub attempted : {A : Type 0} → Result A × Db → Attempt × Db
attempted (ok a, db) = (done, db)
attempted (err e, db) = (lost e, db)

abbrev pub keep_first : Option Error → Error → Option Error
keep_first none e = some e
keep_first (some first) e = some first

unfoldable pub tally : Attempt → PassResult × Option Error → PassResult × Option Error
tally done (r, e) = (record r { considered = suc r.considered; acted = suc r.acted }, e)
tally not_due (r, e) =
    (record r { considered = suc r.considered; not_yet_due = suc r.not_yet_due }, e)
tally moved (r, e) =
    (record r { considered = suc r.considered; already_moved = suc r.already_moved }, e)
tally (failed x) (r, e) = (record r { considered = suc r.considered }, keep_first e x)

-- The loop over the candidates: a failure does not stop it, and the first error is kept.
unfoldable pub pass :
    (Schedule → Db → Attempt × Db)
    → List Schedule
    → PassResult × Option Error
    → Db
    → (PassResult × Option Error) × Db
pass attempt [] sum db = (sum, db)
pass attempt (s ∷ rest) sum db = let one = attempt s db in pass attempt rest (tally one.0 sum) one.1

abbrev pub pass_listing :
    (Schedule → Db → Attempt × Db) → Result (List Schedule) × Db → (PassResult × Option Error) × Db
pass_listing attempt (err e, db) = ((no_results, some e), db)
pass_listing attempt (ok candidates, db) = pass attempt candidates (no_results, none) db

-- The listing has no row without `paused_until`.
abbrev pub still_paused : Option Date → Date → Bool
still_paused none today = true
still_paused (some until) today = after until today

unfoldable pub resume_one : Sweeper → Schedule → Db → Attempt × Db
resume_one sw s db =
    if still_paused s.paused_until (today_for sw s)
    then (not_due, db)
    else attempted (resume_schedule sw.svc s.id system_caller db)

unfoldable pub resume_due : Sweeper → Db → (PassResult × Option Error) × Db
resume_due sw db = pass_listing (resume_one sw) (list_schedules_due_to_resume sw.clock.utc_date db)

-- Minus the days of the window.
abbrev pub window_before : ℤ
window_before = negsuc (arm_window_days - 1)

abbrev pub arm_found : Sweeper → Schedule → Result Occurrence × Db → Attempt × Db
arm_found sw s (err not_found, db) = (not_due, db)
arm_found sw s (err e, db) = (failed e, db)
arm_found sw s (ok o, db) =
    if after (add_days o.scheduled_for window_before) (today_for sw s)
    then (not_due, db)
    else attempted (arm_schedule s.id system_caller db)

unfoldable pub arm_one : Sweeper → Schedule → Db → Attempt × Db
arm_one sw s db = arm_found sw s (next_planned_occurrence s.id db)

unfoldable pub arm_due : Sweeper → Db → (PassResult × Option Error) × Db
arm_due sw db =
    pass_listing (arm_one sw) (list_schedules_due_to_arm sw.id_less sw.clock.utc_date db)
