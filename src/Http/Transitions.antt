-- ===== src/Http/Transitions.antt =====
-- internal/httpapi/transitions.go: the actions on a schedule.
pub mod Cases
use replenishment_system.Common.{ℕ, Bool, Option, none, some, List, []}
use replenishment_system.Common.Int.{ℤ, pos}
use replenishment_system.Common.Text.{Text, text_eq}
use replenishment_system.Calendar.{Date}
use replenishment_system.Domain.Types.{
  Schedule, ScheduleItem, Error, not_found, transition, Result, ok, err, Outcome,
}
use replenishment_system.Domain.Cadence.{validate_interval}
use replenishment_system.Domain.DateText.{parse_date}
use replenishment_system.Domain.Transitions.{
  validate_defer_days, validate_idempotency_key, validate_cancellation_reason,
}
use replenishment_system.Store.Db.{Db}
use replenishment_system.Store.Schedules.{ItemReads, list_schedule_items}
use replenishment_system.Service.{
  Service, Caller, Request, pause_until, resume_now, skip_with, defer_by, every, cancel_for, handle,
}
use replenishment_system.Auth.{Principal}
use replenishment_system.Http.{
  Response, reply, write_error, one_schedule, Handler, error_text, Incoming, decode, caller,
  to_response,
}

pub record TransitionHandler : Type 0 where
  pub service : Service
  pub item_reads : ItemReads

abbrev pub respond_items : Schedule → Result (List ScheduleItem) × Db → Response × Db
respond_items s (ok items, db) = (reply 200 (one_schedule (to_response s items)), db)
respond_items s (err e, db) = (write_error 500 "could not read schedule items", db)

unfoldable pub respond : TransitionHandler → Caller → Result Schedule → Handler
respond h c (err not_found) db = (write_error 404 "schedule not found", db)
respond h c (err (transition a s message)) db = (write_error 409 message, db)
respond h c (err _) db = (write_error 500 "could not update this schedule", db)
respond h c (ok s) db = respond_items s (list_schedule_items h.item_reads s.id c.scope db)

-- The service's call and the response to what it answers.
unfoldable pub run_request : TransitionHandler → Text → Request → Caller → Handler
run_request h id rq c db = let answer = handle h.service id rq c db in respond h c answer.0 answer.1

-- The identity that a transition runs under; a route without its middleware answers 500.
unfoldable pub as_caller : TransitionHandler → Text → Request → Option Caller → Handler
as_caller h id rq none db = (write_error 500 "could not update this schedule", db)
as_caller h id rq (some c) db = run_request h id rq c db

abbrev pub bad_body : Handler
bad_body db = (write_error 400 "invalid request body", db)

unfoldable pub after_decode : {A : Type 0} → Result A → (A → Handler) → Handler
after_decode (err e) next db = bad_body db
after_decode (ok req) next db = next req db

-- A check on the request before anything runs.
unfoldable pub checked : Outcome → Handler → Handler
checked (ok tt) next db = next db
checked (err e) next db = (write_error 400 (error_text e), db)

pub record PauseRequest : Type 0 where
  pub paused_until : Text

abbrev pub with_until : Option Date → (Option Date → Handler) → Handler
with_until none next db = (write_error 400 "paused_until must be YYYY-MM-DD", db)
with_until (some d) next db = next (some d) db

abbrev pub until_when : Bool → Text → (Option Date → Handler) → Handler
until_when Bool.true t next db = next none db
until_when Bool.false t next db = with_until (parse_date t) next db

unfoldable pub until_of : Text → (Option Date → Handler) → Handler
until_of t next = until_when (text_eq t []) t next

unfoldable pub pause_handler :
    TransitionHandler → Text → Incoming PauseRequest → Option Principal → Handler
pause_handler h id body context =
    after_decode (decode (record { paused_until = [] }) body) λ req.
      until_of req.paused_until (λ until. as_caller h id (pause_until until) (caller context))

unfoldable pub resume_handler : TransitionHandler → Text → Option Principal → Handler
resume_handler h id context = as_caller h id resume_now (caller context)

pub record SkipRequest : Type 0 where
  pub idempotency_key : Text

unfoldable pub skip_handler :
    TransitionHandler → Text → Incoming SkipRequest → Option Principal → Handler
skip_handler h id body context = after_decode (decode (record { idempotency_key = [] }) body) λ req.
    checked (validate_idempotency_key req.idempotency_key)
      (as_caller h id (skip_with req.idempotency_key) (caller context))

pub record DeferRequest : Type 0 where
  pub days : ℤ
  pub idempotency_key : Text

unfoldable pub defer_handler :
    TransitionHandler → Text → Incoming DeferRequest → Option Principal → Handler
defer_handler h id body context =
    after_decode (decode (record { days = pos 0; idempotency_key = [] }) body) λ req.
      checked (validate_defer_days req.days) (
        checked (validate_idempotency_key req.idempotency_key)
          (as_caller h id (defer_by req.days req.idempotency_key) (caller context)))

pub record CadenceRequest : Type 0 where
  pub interval_days : ℤ

unfoldable pub cadence_handler :
    TransitionHandler → Text → Incoming CadenceRequest → Option Principal → Handler
cadence_handler h id body context =
    after_decode (decode (record { interval_days = pos 0 }) body) λ req.
      checked (validate_interval req.interval_days)
        (as_caller h id (every req.interval_days) (caller context))

pub record CancelRequest : Type 0 where
  pub reason_code : Text

unfoldable pub cancel_handler :
    TransitionHandler → Text → Incoming CancelRequest → Option Principal → Handler
cancel_handler h id body context = after_decode (decode (record { reason_code = [] }) body) λ req.
    checked (validate_cancellation_reason req.reason_code)
      (as_caller h id (cancel_for req.reason_code) (caller context))
