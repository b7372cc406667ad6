-- ===== src/Http/Router/Unchanged.antt =====
-- The responses of `NewServiceRouter` (internal/httpapi/router.go) that report a failure.
use replenishment_system.Common.{◌≤◌, ◌≡◌, ◌≢◌, refl, ◌∙◌, arith, Bool, true, false, some, List}
use replenishment_system.Common.Text.{Text}
use replenishment_system.Domain.Types.{
  Schedule, ScheduleItem, Occurrence, Error, not_found, no_transaction, duplicate_occurrence,
  duplicate_schedule, transition, invalid, Result, ok, err,
}
use replenishment_system.Store.Db.{Db, in_tx, commit_or_rollback}
use replenishment_system.Store.Scope.{Scope}
use replenishment_system.Store.Schedules.{
  ItemReads, get_schedule_by_origin_order_id, list_schedule_items, list_schedules_by_customer,
}
use replenishment_system.Store.Occurrences.{list_occurrences}
use replenishment_system.Store.Steps.Reads.{get_schedule_same, list_schedule_items_same}
use replenishment_system.Service.{Caller, Request, handle}
use replenishment_system.Service.Refusals.{handle_unchanged}
use replenishment_system.Auth.{Principal, owns_customer}
use replenishment_system.Http.{
  Body, error, Response, ScheduleResponse, Handler, Incoming, scope_for, decode_json,
}
use replenishment_system.Http.Transitions.{TransitionHandler, run_request, respond, respond_items}
use replenishment_system.Http.Schedules.{
  get_handler, upcoming_handler, list_by_customer_handler, if_found, items_reply, occurrences_reply,
  list_owned, responses_reply,
}
use replenishment_system.Http.Create.{
  Checkout, CreateRequest, create_handler, create_validated, created_reply, validated,
  create_decoded,
}
use replenishment_system.Http.Create.Valid.{existing_reply_same}
use replenishment_system.Http.Router.Cases.{serve_cases}
use replenishment_system.Http.Router.{Endpoint, Server, serve}

-- The answer of a read of items that has failed. A transition reads them after its commit.
abbrev pub items_lost : Body
items_lost = error "could not read schedule items"

-- Any other response of 400 or more leaves the database.
abbrev pub Quiet : Db → Response × Db → Type 0
Quiet db r = 400 ≤ r.0.code → r.0.body ≢ items_lost → r.1 ≡ db

respond_items-Quiet :
    (s : Schedule) (db : Db) (r : Result (List ScheduleItem) × Db) → Quiet db (respond_items s r)
respond_items-Quiet s db (ok items, d) high other = absurd (omega (arith, high))
respond_items-Quiet s db (err x, d) high other = absurd (other refl)

respond-Quiet :
    (h : TransitionHandler) (c : Caller) (db db' : Db) (r : Result Schedule)
    → ((x : Error) → r ≡ err x → db' ≡ db)
    → Quiet db (respond h c r db')
unfolding respond
respond-Quiet h c db db' (ok s) k high other = respond_items-Quiet s db _ high other
respond-Quiet h c db db' (err not_found) k high other = k not_found refl
respond-Quiet h c db db' (err no_transaction) k high other = k no_transaction refl
respond-Quiet h c db db' (err duplicate_occurrence) k high other = k duplicate_occurrence refl
respond-Quiet h c db db' (err duplicate_schedule) k high other = k duplicate_schedule refl
respond-Quiet h c db db' (err (transition a s m)) k high other = k (transition a s m) refl
respond-Quiet h c db db' (err (invalid m)) k high other = k (invalid m) refl

run_request-Quiet :
    (h : TransitionHandler) (id : Text) (rq : Request) (c : Caller) (db : Db)
    → Quiet db (run_request h id rq c db)
unfolding run_request
run_request-Quiet h id rq c db =
    respond-Quiet h c db (handle h.service id rq c db).1 (handle h.service id rq c db).0
      (λ x e. handle_unchanged h.service id rq c db x e)

if_found_same :
    (db : Db) (r : Result Schedule × Db) (next : Schedule → Handler)
    → r.1 ≡ db
    → ((s : Schedule) (d : Db) → (next s d).1 ≡ d)
    → (if_found r next).1 ≡ db
if_found_same db (ok s, d) next e k = k s d ∙ e
if_found_same db (err not_found, d) next e k = e
if_found_same db (err no_transaction, d) next e k = e
if_found_same db (err duplicate_occurrence, d) next e k = e
if_found_same db (err duplicate_schedule, d) next e k = e
if_found_same db (err (transition a s m), d) next e k = e
if_found_same db (err (invalid m), d) next e k = e

items_reply_same : (s : Schedule) (r : Result (List ScheduleItem) × Db) → (items_reply s r).1 ≡ r.1
items_reply_same s (ok items, d) = refl
items_reply_same s (err e, d) = refl

occurrences_reply_same : (r : Result (List Occurrence) × Db) → (occurrences_reply r).1 ≡ r.1
occurrences_reply_same (ok rows, d) = refl
occurrences_reply_same (err e, d) = refl

list_occurrences_same :
    (id : Text) (scope : Scope) (db : Db) → (list_occurrences id scope db).1 ≡ db
unfolding list_occurrences
list_occurrences_same id scope db = refl

pub get_handler_same :
    (reads : ItemReads) (id : Text) (p : Principal) (db : Db)
    → (get_handler reads id (some p) db).1 ≡ db
unfolding get_handler scope_for
get_handler_same reads id p db = if_found_same db _ _ (get_schedule_same id _ db) λ s d.
    items_reply_same s (list_schedule_items reads id _ d) ∙ list_schedule_items_same reads id _ d

pub upcoming_handler_same :
    (id : Text) (p : Principal) (db : Db) → (upcoming_handler id (some p) db).1 ≡ db
unfolding upcoming_handler scope_for
upcoming_handler_same id p db =
    if_found_same db _ _ (get_schedule_same id _ db)
      λ s d. occurrences_reply_same (list_occurrences id _ d) ∙ list_occurrences_same id _ d

responses_reply_same :
    (r : Result (List ScheduleResponse)) (db : Db) → (responses_reply r db).1 ≡ db
responses_reply_same (ok rs) db = refl
responses_reply_same (err e) db = refl

list_owned_same :
    (reads : ItemReads) (customer_id : Text) (p : Principal) (own : Bool) (db : Db)
    → (list_owned reads customer_id (some p) own db).1 ≡ db
unfolding scope_for list_schedules_by_customer
list_owned_same reads customer_id p true db = responses_reply_same _ db
list_owned_same reads customer_id p false db = refl

pub list_by_customer_handler_same :
    (reads : ItemReads) (customer_id : Text) (p : Principal) (db : Db)
    → (list_by_customer_handler reads customer_id (some p) db).1 ≡ db
unfolding list_by_customer_handler
list_by_customer_handler_same reads customer_id p db =
    list_owned_same reads customer_id p (owns_customer p customer_id) db

lookup_same : (origin : Text) (db : Db) → (get_schedule_by_origin_order_id origin db).1 ≡ db
unfolding get_schedule_by_origin_order_id
lookup_same origin db = refl

created_reply-Quiet :
    (h : Checkout) (origin : Text) (s : Schedule) (items : List ScheduleItem) (db : Db)
    (r : Result (Unit {0}) × Db)
    → Quiet db (created_reply h origin s items (commit_or_rollback db r))
created_reply-Quiet h origin s items db (ok tt, after) high other = absurd (omega (arith, high))
created_reply-Quiet h origin s items db (err not_found, after) high other = refl
created_reply-Quiet h origin s items db (err no_transaction, after) high other = refl
created_reply-Quiet h origin s items db (err duplicate_occurrence, after) high other = refl
created_reply-Quiet h origin s items db (err duplicate_schedule, after) high other =
    existing_reply_same h (get_schedule_by_origin_order_id origin db) ∙ lookup_same origin db
created_reply-Quiet h origin s items db (err (transition a b m), after) high other = refl
created_reply-Quiet h origin s items db (err (invalid m), after) high other = refl

create_validated-Quiet :
    (h : Checkout) (origin : Text) (r : Result (Schedule × List ScheduleItem)) (db : Db)
    → Quiet db (create_validated h origin r db)
unfolding in_tx
create_validated-Quiet h origin (ok (s, items)) db = created_reply-Quiet h origin s items db _
create_validated-Quiet h origin (err e) db = λ high other. refl

create_handler-Quiet :
    (h : Checkout) (body : Incoming CreateRequest) (db : Db) → Quiet db (create_handler h body db)
unfolding create_handler
create_handler-Quiet h body db = go (decode_json body)
  where
    go : (r : Result CreateRequest) → Quiet db (create_decoded h r db)
    go (ok req) = create_validated-Quiet h req.origin_order_id (validated h db.schedules req) db
    go (err e) = λ high other. refl

-- A request that is answered with a status of 400 or more, on whichever route, leaves the whole
-- database as it was, unless the answer is that the items of a schedule could not be read: a
-- transition reads them only after it has been committed.
pub serve_unchanged :
    (srv : Server) (authorization : Text) (endpoint : Endpoint) (db : Db)
    → 400 ≤ (serve srv authorization endpoint db).0.code
    → (serve srv authorization endpoint db).0.body ≢ items_lost
    → (serve srv authorization endpoint db).1 ≡ db
serve_unchanged srv authorization endpoint db =
    serve_cases Quiet srv authorization (λ code message d low high other. refl)
      (λ p body d v. create_handler-Quiet srv.checkout body d)
      (λ p id d v high other. get_handler_same srv.checkout.item_reads id p d)
      (λ p id d v high other. upcoming_handler_same id p d)
      (λ p customer_id d v high other.
        list_by_customer_handler_same srv.checkout.item_reads customer_id p d)
      (λ p id rq c d v e. run_request-Quiet srv.transitions id rq c d) endpoint db
