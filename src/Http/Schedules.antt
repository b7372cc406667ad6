-- ===== src/Http/Schedules.antt =====
-- internal/httpapi/schedules.go: the handlers that read.
use replenishment_system.Common.{Bool, Option, none, some, List, [], ◌∷◌, map}
use replenishment_system.Common.Text.{Text}
use replenishment_system.Domain.Types.{
  Schedule, ScheduleItem, Occurrence, not_found, Result, ok, err,
}
use replenishment_system.Domain.DateText.{date_string}
use replenishment_system.Store.Db.{Db}
use replenishment_system.Store.Scope.{Scope}
use replenishment_system.Store.Schedules.{
  ItemReads, get_schedule, list_schedules_by_customer, list_schedule_items,
}
use replenishment_system.Store.Occurrences.{list_occurrences}
use replenishment_system.Auth.{Principal, owns_customer}
use replenishment_system.Http.{
  ScheduleResponse, OccurrenceResponse, Response, reply, write_error, one_schedule, many_schedules,
  upcoming, Handler, scope_for, to_response,
}

abbrev pub items_reply : Schedule → Result (List ScheduleItem) × Db → Response × Db
items_reply s (ok items, db) = (reply 200 (one_schedule (to_response s items)), db)
items_reply s (err e, db) = (write_error 500 "could not read schedule items", db)

-- The answer of a read of one schedule: what follows, or the response to its failure.
abbrev pub if_found : Result Schedule × Db → (Schedule → Handler) → Response × Db
if_found (ok s, db) next = next s db
if_found (err not_found, db) next = (write_error 404 "schedule not found", db)
if_found (err e, db) next = (write_error 500 "could not read schedule", db)

abbrev pub get_within : ItemReads → Text → Scope × Bool → Handler
get_within reads id (scope, Bool.false) db = (write_error 500 "could not read schedule", db)
get_within reads id (scope, Bool.true) db =
    if_found (get_schedule id scope db)
      λ s db1. items_reply s (list_schedule_items reads id scope db1)

unfoldable pub get_handler : ItemReads → Text → Option Principal → Handler
get_handler reads id context = get_within reads id (scope_for context)

abbrev pub occurrence_response : Occurrence → OccurrenceResponse
occurrence_response o = record {
  sequence_no = o.sequence_no;
  scheduled_for = date_string o.scheduled_for;
  status = o.status;
  order_id = o.order_id;
}

abbrev pub occurrences_reply : Result (List Occurrence) × Db → Response × Db
occurrences_reply (ok rows, db) = (reply 200 (upcoming (map occurrence_response rows)), db)
occurrences_reply (err e, db) = (write_error 500 "could not read upcoming orders", db)

abbrev pub upcoming_within : Text → Scope × Bool → Handler
upcoming_within id (scope, Bool.false) db = (write_error 500 "could not read schedule", db)
upcoming_within id (scope, Bool.true) db =
    if_found (get_schedule id scope db) λ s db1. occurrences_reply (list_occurrences id scope db1)

unfoldable pub upcoming_handler : Text → Option Principal → Handler
upcoming_handler id context = upcoming_within id (scope_for context)

-- Each schedule with its items; the first failure answers for all.
abbrev pub with_more :
    ScheduleResponse → Result (List ScheduleResponse) → Result (List ScheduleResponse)
with_more r (ok rs) = ok (r ∷ rs)
with_more r (err e) = err e

abbrev pub with_items :
    Schedule
    → Result (List ScheduleItem)
    → Result (List ScheduleResponse)
    → Result (List ScheduleResponse)
with_items s (ok items) rest = with_more (to_response s items) rest
with_items s (err e) rest = err e

unfoldable pub responses : ItemReads → Scope → Db → List Schedule → Result (List ScheduleResponse)
responses reads scope db [] = ok []
responses reads scope db (s ∷ rest) =
    with_items s (list_schedule_items reads s.id scope db).0 (responses reads scope db rest)

abbrev pub responses_reply : Result (List ScheduleResponse) → Handler
responses_reply (ok rs) db = (reply 200 (many_schedules rs), db)
responses_reply (err e) db = (write_error 500 "could not read schedule items", db)

abbrev pub list_within : ItemReads → Scope × Bool → Result (List Schedule) × Db → Response × Db
list_within reads (scope, Bool.false) (answer, db) =
    (write_error 500 "could not read schedules", db)
list_within reads (scope, Bool.true) (err e, db) = (write_error 500 "could not read schedules", db)
list_within reads (scope, Bool.true) (ok rows, db) =
    responses_reply (responses reads scope db rows) db

abbrev pub list_owned : ItemReads → Text → Option Principal → Bool → Handler
list_owned reads customer_id context Bool.false db = (write_error 404 "customer not found", db)
list_owned reads customer_id context Bool.true db =
    list_within reads (scope_for context) (list_schedules_by_customer customer_id db)

abbrev pub list_as : ItemReads → Text → Option Principal → Handler
list_as reads customer_id none db = (write_error 500 "could not read schedules", db)
list_as reads customer_id (some p) db =
    list_owned reads customer_id (some p) (owns_customer p customer_id) db

unfoldable pub list_by_customer_handler : ItemReads → Text → Option Principal → Handler
list_by_customer_handler reads customer_id context = list_as reads customer_id context
