-- ===== src/Domain/Transitions.antt =====
-- The transition rules of internal/domain/transitions.go: the precondition table of the actions,
-- the messages of a refusal, and the checks on what a caller sends.
pub mod Table
use replenishment_system.Common.{
  ℕ, Bool, true, false, not, ◌&&◌, ◌||◌, Option, none, some, List, [], ◌∷◌, String, ltb, ◌==◌,
  if◌then◌else◌,
}
use replenishment_system.Common.Int.{ℤ, pos, ltb_ℤ}
use replenishment_system.Common.Lists.{length}
use replenishment_system.Common.Text.{Text, text, text_eq}
use replenishment_system.Domain.Types.{
  ScheduleStatus, OccurrenceStatus, Action, pause, resume, skip_next, defer, change_cadence, cancel,
  arm, other, Occurrence, is_executed, Error, transition, invalid, Result, ok, err, Outcome,
}
use replenishment_system.Domain.Cadence.{max_interval_days}

abbrev pub arm_window_days : ℕ
arm_window_days = 3

abbrev pub max_defer_days : ℕ
max_defer_days = max_interval_days

same_status : ScheduleStatus → ScheduleStatus → Bool
same_status ScheduleStatus.active ScheduleStatus.active = true
same_status ScheduleStatus.paused ScheduleStatus.paused = true
same_status ScheduleStatus.canceled ScheduleStatus.canceled = true
same_status ScheduleStatus.failed ScheduleStatus.failed = true
same_status _ _ = false

-- The map `scheduleTransitions`; `none` is a missing key.
schedule_transitions : Action → Option (List ScheduleStatus)
schedule_transitions pause = some (ScheduleStatus.active ∷ [])
schedule_transitions resume = some (ScheduleStatus.paused ∷ [])
schedule_transitions skip_next = some (ScheduleStatus.active ∷ [])
schedule_transitions defer = some (ScheduleStatus.active ∷ [])
schedule_transitions change_cadence = some (ScheduleStatus.active ∷ ScheduleStatus.paused ∷ [])
schedule_transitions cancel =
    some (ScheduleStatus.active ∷ ScheduleStatus.paused ∷ ScheduleStatus.failed ∷ [])
schedule_transitions arm = some (ScheduleStatus.active ∷ [])
schedule_transitions (other name) = none

-- The map `transitionMessages`.
transition_messages : Action → ScheduleStatus → Option String
transition_messages pause ScheduleStatus.paused = some "this schedule is already paused"
transition_messages pause ScheduleStatus.canceled = some "this schedule has been canceled"
transition_messages pause ScheduleStatus.failed =
    some "this schedule needs a payment method update before it can be paused"
transition_messages resume ScheduleStatus.active = some "this schedule is already active"
transition_messages resume ScheduleStatus.canceled =
    some "this schedule has been canceled and cannot be resumed"
transition_messages resume ScheduleStatus.failed =
    some "this schedule needs a payment method update before it can be resumed"
transition_messages skip_next ScheduleStatus.paused =
    some "this schedule is paused, so no order is scheduled to skip"
transition_messages skip_next ScheduleStatus.canceled = some "this schedule has been canceled"
transition_messages skip_next ScheduleStatus.failed =
    some "this schedule has no upcoming order to skip"
transition_messages defer ScheduleStatus.paused =
    some "this schedule is paused, so no order is scheduled to move"
transition_messages defer ScheduleStatus.canceled = some "this schedule has been canceled"
transition_messages defer ScheduleStatus.failed = some "this schedule has no upcoming order to move"
transition_messages change_cadence ScheduleStatus.canceled = some "this schedule has been canceled"
transition_messages change_cadence ScheduleStatus.failed =
    some "this schedule needs a payment method update before its cadence can change"
transition_messages cancel ScheduleStatus.canceled = some "this schedule has already been canceled"
transition_messages arm ScheduleStatus.paused =
    some "this schedule is paused, so no order is due to be armed"
transition_messages arm ScheduleStatus.canceled = some "this schedule has been canceled"
transition_messages arm ScheduleStatus.failed =
    some "this schedule needs a payment method update before an order can be armed"
transition_messages _ _ = none

lists_status : List ScheduleStatus → ScheduleStatus → Bool
lists_status [] status = false
lists_status (s ∷ allowed) status = same_status s status || lists_status allowed status

abbrev message_or_default : Option String → String
message_or_default none = "this schedule cannot accept that change right now"
message_or_default (some message) = message

unfoldable pub validate_schedule_transition : ScheduleStatus → Action → Outcome
unfolding same_status schedule_transitions transition_messages lists_status
validate_schedule_transition status a = elim (schedule_transitions a) [
  | none ↦ err (invalid "unknown action")
  | some allowed ↦
      if lists_status allowed status
      then ok tt
      else err (transition a status (message_or_default (transition_messages a status)))
]

abbrev targets_occurrence : Action → Bool
targets_occurrence skip_next = true
targets_occurrence defer = true
targets_occurrence _ = false

settled_message : OccurrenceStatus → String
settled_message OccurrenceStatus.skipped = "this order has already been skipped"
settled_message OccurrenceStatus.canceled = "this order has already been canceled"
settled_message OccurrenceStatus.failed =
    "this order could not be placed; update your payment method to restart the schedule"
settled_message _ = "this order has already been placed and can no longer be changed"

unfoldable pub validate_occurrence_action : Occurrence → Action → Outcome
unfolding settled_message
validate_occurrence_action o a =
    if not (targets_occurrence a)
    then err (invalid "action does not target an occurrence")
    else if not (is_executed o)
    then ok tt
    else err (transition a ScheduleStatus.active (settled_message o.status))

unfoldable pub validate_defer_days : ℤ → Outcome
validate_defer_days days =
    if ltb_ℤ days (pos 1) || ltb_ℤ (pos max_defer_days) days
    then err (invalid "days must be between 1 and 180")
    else ok tt

abbrev pub cancellation_reasons : List Text
cancellation_reasons =
    text "too_expensive"
    ∷ text "too_frequent"
    ∷ text "switched_brand"
    ∷ text "delivery_issue"
    ∷ text "payment_issue"
    ∷ text "no_longer_wanted"
    ∷ text "other"
    ∷ []

abbrev pub max_idempotency_key_length : ℕ
max_idempotency_key_length = 200

unfoldable pub validate_idempotency_key : Text → Outcome
validate_idempotency_key key =
    if length key == 0
    then err (invalid "idempotency_key is required")
    else if ltb max_idempotency_key_length (length key)
    then err (invalid "idempotency_key must be at most 200 characters")
    else ok tt

abbrev pub max_email_length : ℕ
max_email_length = 254

-- `parses` is `net/mail.ParseAddress` without an error.
unfoldable pub validate_email : (Text → Bool) → Text → Outcome
validate_email parses email =
    if length email == 0
    then err (invalid "customer_email is required")
    else if ltb max_email_length (length email)
    then err (invalid "customer_email must be at most 254 characters")
    else if parses email
    then ok tt
    else err (invalid "customer_email is not a valid address")

unfoldable pub lists_reason : List Text → Text → Bool
lists_reason [] code = false
lists_reason (r ∷ reasons) code = text_eq r code || lists_reason reasons code

unfoldable pub validate_cancellation_reason : Text → Outcome
validate_cancellation_reason code =
    if lists_reason cancellation_reasons code
    then ok tt
    else err (invalid "reason_code must be one of the cancellation reasons")
