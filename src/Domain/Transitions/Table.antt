-- ===== src/Domain/Transitions/Table.antt =====
-- What the checks of internal/domain/transitions.go accept.
use replenishment_system.Common.{◌≡◌, ◌↔◌, refl}
use replenishment_system.Domain.Types.{
  ScheduleStatus, Action, pause, resume, skip_next, defer, change_cadence, cancel, arm, other, ok,
}
use replenishment_system.Domain.Transitions.{validate_schedule_transition}

-- The statuses from which an action may start.
pub data Permits : Action → ScheduleStatus → Type 0 where
  pause_active : Permits pause ScheduleStatus.active
  resume_paused : Permits resume ScheduleStatus.paused
  skip_active : Permits skip_next ScheduleStatus.active
  defer_active : Permits defer ScheduleStatus.active
  cadence_active : Permits change_cadence ScheduleStatus.active
  cadence_paused : Permits change_cadence ScheduleStatus.paused
  cancel_active : Permits cancel ScheduleStatus.active
  cancel_paused : Permits cancel ScheduleStatus.paused
  cancel_failed : Permits cancel ScheduleStatus.failed
  arm_active : Permits arm ScheduleStatus.active

pub Permits-ok :
    (a : Action) (s : ScheduleStatus) → Permits a s → validate_schedule_transition s a ≡ ok tt
unfolding validate_schedule_transition
Permits-ok _ _ pause_active = refl
Permits-ok _ _ resume_paused = refl
Permits-ok _ _ skip_active = refl
Permits-ok _ _ defer_active = refl
Permits-ok _ _ cadence_active = refl
Permits-ok _ _ cadence_paused = refl
Permits-ok _ _ cancel_active = refl
Permits-ok _ _ cancel_paused = refl
Permits-ok _ _ cancel_failed = refl
Permits-ok _ _ arm_active = refl

pub Permits-sound :
    (a : Action) (s : ScheduleStatus) → validate_schedule_transition s a ≡ ok tt → Permits a s
unfolding validate_schedule_transition
Permits-sound pause ScheduleStatus.active e = pause_active
Permits-sound pause ScheduleStatus.paused e = cc
Permits-sound pause ScheduleStatus.canceled e = cc
Permits-sound pause ScheduleStatus.failed e = cc
Permits-sound resume ScheduleStatus.active e = cc
Permits-sound resume ScheduleStatus.paused e = resume_paused
Permits-sound resume ScheduleStatus.canceled e = cc
Permits-sound resume ScheduleStatus.failed e = cc
Permits-sound skip_next ScheduleStatus.active e = skip_active
Permits-sound skip_next ScheduleStatus.paused e = cc
Permits-sound skip_next ScheduleStatus.canceled e = cc
Permits-sound skip_next ScheduleStatus.failed e = cc
Permits-sound defer ScheduleStatus.active e = defer_active
Permits-sound defer ScheduleStatus.paused e = cc
Permits-sound defer ScheduleStatus.canceled e = cc
Permits-sound defer ScheduleStatus.failed e = cc
Permits-sound change_cadence ScheduleStatus.active e = cadence_active
Permits-sound change_cadence ScheduleStatus.paused e = cadence_paused
Permits-sound change_cadence ScheduleStatus.canceled e = cc
Permits-sound change_cadence ScheduleStatus.failed e = cc
Permits-sound cancel ScheduleStatus.active e = cancel_active
Permits-sound cancel ScheduleStatus.paused e = cancel_paused
Permits-sound cancel ScheduleStatus.canceled e = cc
Permits-sound cancel ScheduleStatus.failed e = cancel_failed
Permits-sound arm ScheduleStatus.active e = arm_active
Permits-sound arm ScheduleStatus.paused e = cc
Permits-sound arm ScheduleStatus.canceled e = cc
Permits-sound arm ScheduleStatus.failed e = cc
Permits-sound (other name) s e = cc

-- The check of a transition accepts exactly the pairs of the table, and no action that is not one
-- of the seven.
pub validate_schedule_transition_iff :
    (a : Action) (s : ScheduleStatus) → (validate_schedule_transition s a ≡ ok tt) ↔ Permits a s
validate_schedule_transition_iff a s = (Permits-sound a s, Permits-ok a s)
