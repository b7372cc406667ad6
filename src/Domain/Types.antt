-- ===== src/Domain/Types.antt =====
-- The entities of internal/domain/schedule.go and the errors of internal/domain and
-- internal/store. `updated_at` is written and never read, so it is left out; the discount is kept
-- in hundredths of a percent, as the column numeric(5,2) does.
use replenishment_system.Common.{ℕ, ◌==◌, Bool, true, false, Option, List, String}
use replenishment_system.Common.Int.{ℤ}
use replenishment_system.Common.Text.{Text}
use replenishment_system.Calendar.{Date}

pub data ScheduleStatus : Type 0 where
  active paused canceled failed : ScheduleStatus

pub data OccurrenceStatus : Type 0 where
  planned pending placed skipped failed canceled : OccurrenceStatus

pub data EventActor : Type 0 where
  customer admin system : EventActor

-- `other` is any string that is not one of the seven constants.
pub data Action : Type 0 where
  pause resume skip_next defer change_cadence cancel arm : Action
  other : Text → Action

pub data EventType : Type 0 where
  schedule_created occurrence_planned occurrence_materialized : EventType
  schedule_paused schedule_resumed schedule_cadence_changed schedule_canceled : EventType
  occurrence_skipped occurrence_deferred occurrence_armed : EventType

event_code : EventType → ℕ
event_code schedule_created = 0
event_code occurrence_planned = 1
event_code occurrence_materialized = 2
event_code schedule_paused = 3
event_code schedule_resumed = 4
event_code schedule_cadence_changed = 5
event_code schedule_canceled = 6
event_code occurrence_skipped = 7
event_code occurrence_deferred = 8
event_code occurrence_armed = 9

unfoldable pub same_event : EventType → EventType → Bool
unfolding event_code
same_event a b = event_code a == event_code b

pub record Schedule : Type 0 where
  pub id : Text
  pub customer_id : Text
  pub status : ScheduleStatus
  pub customer_email : Text
  pub origin_order_id : Text
  pub interval_days : ℤ
  pub anchor_date : Date
  pub next_run_date : Option Date
  pub timezone : Text
  pub payment_token_ref : Text
  pub shipping_address_id : Text
  pub discount_hundredths : ℕ
  pub paused_until : Option Date
  pub created_at : ℕ

abbrev pub status_is_active : ScheduleStatus → Bool
status_is_active ScheduleStatus.active = true
status_is_active _ = false

-- `Schedule.IsActive`
abbrev pub is_active : Schedule → Bool
is_active s = status_is_active s.status

pub record ScheduleItem : Type 0 where
  pub id : Text
  pub schedule_id : Text
  pub sku : Text
  pub quantity : ℕ

pub record Occurrence : Type 0 where
  pub id : Text
  pub schedule_id : Text
  pub sequence_no : ℕ
  pub scheduled_for : Date
  pub status : OccurrenceStatus
  pub order_id : Option Text
  pub idempotency_key : Text

abbrev pub status_is_executed : OccurrenceStatus → Bool
status_is_executed OccurrenceStatus.planned = false
status_is_executed OccurrenceStatus.pending = false
status_is_executed _ = true

-- `Occurrence.IsExecuted`
abbrev pub is_executed : Occurrence → Bool
is_executed o = status_is_executed o.status

-- A value in an event's JSON payload; a date is rendered by `Date.String`.
pub data Value : Type 0 where
  number : ℤ → Value
  day : Date → Value
  word : Text → Value

pub record ScheduleEvent : Type 0 where
  pub id : ℕ
  pub schedule_id : Text
  pub event_type : EventType
  pub actor : EventActor
  pub reason_code : Option Text
  pub payload : List (String × Value)
  pub idempotency_key : Option Text

-- `errors.Is` and `errors.As` see through `%w`, so a wrapped error is the error itself. Of a
-- message of `fmt.Errorf` the fixed part is kept.
pub data Error : Type 0 where
  not_found no_transaction duplicate_occurrence duplicate_schedule : Error
  transition : Action → ScheduleStatus → String → Error
  invalid : String → Error

-- `IsTransitionError`
abbrev pub is_transition_error : Error → Bool
is_transition_error (transition a s m) = true
is_transition_error _ = false

pub data Result {ℓ} (A : Type ℓ) : Type ℓ where
  err : Error → Result A
  ok : A → Result A

infixl 5 ◌>>=◌ ◌>>◌
abbrev pub ◌>>=◌ {ℓ κ} : {A : Type ℓ} {B : Type κ} → Result A → (A → Result B) → Result B
err e >>= k = err e
ok a >>= k = k a

abbrev pub ◌>>◌ {ℓ κ} : {A : Type ℓ} {B : Type κ} → Result A → Result B → Result B
m >> k = m >>= λ _. k

abbrev pub Outcome : Type 0
Outcome = Result (Unit {0})
