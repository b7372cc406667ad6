-- ===== src/Http.antt =====
-- internal/httpapi: requests, responses, and what the handlers share (json.go, and `scopeFor`,
-- `caller`, `decode`, `toResponse` of schedules.go and transitions.go). A response is its code and
-- its body; of a message that is built with an error the fixed part is kept.
pub mod Schedules
pub mod Transitions
pub mod Create
pub mod Router
use replenishment_system.Common.{
  ℕ, Bool, true, false, Option, none, some, List, [], map, String, if◌then◌else◌,
}
use replenishment_system.Common.Int.{ℤ, pos, ltb_ℤ}
use replenishment_system.Common.Text.{Text}
use replenishment_system.Calendar.{Date}
use replenishment_system.Domain.Types.{
  ScheduleStatus, OccurrenceStatus, Action, Schedule, ScheduleItem, Occurrence, Error, not_found,
  no_transaction, duplicate_occurrence, duplicate_schedule, transition, invalid, Result, ok, err,
}
use replenishment_system.Domain.DateText.{date_string}
use replenishment_system.Store.Db.{Db}
use replenishment_system.Store.Scope.{Scope, system_scope, customer_scope}
use replenishment_system.Service.{Caller}
use replenishment_system.Auth.{
  Kind, kind_customer, kind_service, kind_other, Principal, principal_actor,
}

pub record ItemResponse : Type 0 where
  pub sku : Text
  pub quantity : ℕ

pub record ScheduleResponse : Type 0 where
  pub id : Text
  pub customer_id : Text
  pub origin_order_id : Text
  pub status : ScheduleStatus
  pub interval_days : ℤ
  pub anchor_date : Text
  pub next_run_date : Option Text
  pub timezone : Text
  pub discount_hundredths : ℕ
  pub paused_until : Option Text
  pub items : List ItemResponse

pub record OccurrenceResponse : Type 0 where
  pub sequence_no : ℕ
  pub scheduled_for : Text
  pub status : OccurrenceStatus
  pub order_id : Option Text

pub data Body : Type 0 where
  error : String → Body
  one_schedule : ScheduleResponse → Body
  many_schedules : List ScheduleResponse → Body
  upcoming : List OccurrenceResponse → Body

pub record Response : Type 0 where
  pub code : ℕ
  pub body : Body

abbrev pub reply : ℕ → Body → Response
reply code body = record { code = code; body = body }

abbrev pub write_error : ℕ → String → Response
write_error code message = reply code (error message)

-- A handler answers and leaves a database.
abbrev pub Handler : Type 0
Handler = Db → Response × Db

-- `err.Error()`
abbrev pub error_text : Error → String
error_text not_found = "not found"
error_text no_transaction = "this call requires a transaction"
error_text duplicate_occurrence = "occurrence already exists for this idempotency key"
error_text duplicate_schedule = "schedule already exists for this origin order"
error_text (transition a s message) = message
error_text (invalid message) = message

-- What the JSON decoder finds after the first value of a body.
pub data Trailing : Type 0 where
  end_of_file another_value broken : Trailing

-- A body as encoding/json reads it: `first` is `none` where the first value does not decode into
-- the request's type, has an unknown field, or is longer than the limit.
pub record Incoming (A : Type 0) : Type 0 where
  pub content_length : ℤ
  pub first : Option A
  pub trailing : Trailing

abbrev one_value : {A : Type 0} → A → Trailing → Result A
one_value a end_of_file = ok a
one_value a another_value = err (invalid "request body must contain one JSON value")
one_value a broken = err (invalid "request body must contain one JSON value")

abbrev decoded : {A : Type 0} → Option A → Trailing → Result A
decoded none trailing = err (invalid "json")
decoded (some a) trailing = one_value a trailing

unfoldable pub decode_json : {A : Type 0} → Incoming A → Result A
decode_json body = decoded body.first body.trailing

abbrev is_zero : ℤ → Bool
is_zero n = if ltb_ℤ n (pos 0) then false else if ltb_ℤ (pos 0) n then false else true

-- A body of no length leaves the request at its zero value.
unfoldable pub decode : {A : Type 0} → A → Incoming A → Result A
decode zero_value body = if is_zero body.content_length then ok zero_value else decode_json body

abbrev pub scope_of_kind : Kind → Text → Scope
scope_of_kind kind_service customer_id = system_scope
scope_of_kind _ customer_id = customer_scope customer_id

abbrev scope_of : Option Principal → Scope × Bool
scope_of none = (customer_scope [], false)
scope_of (some p) = (scope_of_kind p.kind p.customer_id, true)

-- The argument is the principal that the middleware put into the request's context.
unfoldable pub scope_for : Option Principal → Scope × Bool
scope_for context = scope_of context

abbrev pub caller_of : Option Principal → Option Caller
caller_of none = none
caller_of (some p) =
    some (record { actor = principal_actor p; scope = scope_of_kind p.kind p.customer_id })

unfoldable pub caller : Option Principal → Option Caller
caller context = caller_of context

unfoldable pub date_field : Option Date → Option Text
date_field none = none
date_field (some d) = some (date_string d)

abbrev pub item_response : ScheduleItem → ItemResponse
item_response it = record { sku = it.sku; quantity = it.quantity }

unfoldable pub to_response : Schedule → List ScheduleItem → ScheduleResponse
to_response s items = record {
  id = s.id;
  customer_id = s.customer_id;
  origin_order_id = s.origin_order_id;
  status = s.status;
  interval_days = s.interval_days;
  anchor_date = date_string s.anchor_date;
  next_run_date = date_field s.next_run_date;
  timezone = s.timezone;
  discount_hundredths = s.discount_hundredths;
  paused_until = date_field s.paused_until;
  items = map item_response items;
}
