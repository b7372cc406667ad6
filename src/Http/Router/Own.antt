-- ===== src/Http/Router/Own.antt =====
-- What the routes of internal/httpapi/router.go show to a customer.
use replenishment_system.Common.{
  ◌≡◌, refl, sym, subst, ap, ◌∙◌, Bool, true, false, none, some, List, [], ◌∷◌, ltb,
}
use replenishment_system.Common.Lists.{All}
use replenishment_system.Common.Text.{Text, text_eq, text_eq_sound}
use replenishment_system.Domain.Types.{
  Schedule, ScheduleItem, not_found, no_transaction, duplicate_occurrence, duplicate_schedule,
  transition, invalid, Result, ok, err,
}
use replenishment_system.Store.Rows.{select, order_by}
use replenishment_system.Store.Rows.Laws.{In-order_by, In-select, In-All}
use replenishment_system.Store.Db.{Db}
use replenishment_system.Store.Scope.{Scope, customer_scope}
use replenishment_system.Store.Occurrences.{list_occurrences}
use replenishment_system.Store.Schedules.{
  ItemReads, get_schedule, list_schedule_items, list_schedules_by_customer,
}
use replenishment_system.Service.{Caller, Request, handle}
use replenishment_system.Service.Requests.{get_schedule-found}
use replenishment_system.Service.Refusals.{handle-Accepted}
use replenishment_system.Service.Own.{Owns, get_schedule-Owns}
use replenishment_system.Auth.{
  Principal, principal_actor, verify_token, owns_customer, verify_service_key, authenticate,
}
use replenishment_system.Auth.Laws.{IsCustomer, authenticate-IsCustomer, owns_customer_sound}
use replenishment_system.Http.{
  Response, ScheduleResponse, Handler, scope_for, caller, scope_of_kind,
}
use replenishment_system.Http.Transitions.{TransitionHandler, run_request, respond, respond_items}
use replenishment_system.Http.Schedules.{
  get_handler, upcoming_handler, list_by_customer_handler, if_found, items_reply, occurrences_reply,
  list_owned, responses, responses_reply, with_items,
}
use replenishment_system.Http.Router.{Endpoint, Server, serve}
use replenishment_system.Http.Router.Shown.{
  ItemOf, RowOf, Shows, Reply, found_own, list_schedule_items-own, items_reply-Reply,
  occurrences_reply-Reply,
}
use replenishment_system.Store.Steps.Reads.{get_schedule_same}
use replenishment_system.Http.Router.Cases.{Customer, serve_cases}

if_found-Reply :
    (c : Text) (r : Result Schedule × Db) (next : Schedule → Handler)
    → ((s : Schedule) → r.0 ≡ ok s → Reply c (next s r.1))
    → Reply c (if_found r next)
if_found-Reply c (ok s, d) next k = k s refl
if_found-Reply c (err not_found, d) next k = tt
if_found-Reply c (err no_transaction, d) next k = tt
if_found-Reply c (err duplicate_occurrence, d) next k = tt
if_found-Reply c (err duplicate_schedule, d) next k = tt
if_found-Reply c (err (transition a s m), d) next k = tt
if_found-Reply c (err (invalid m), d) next k = tt

respond_items-Reply :
    (c : Text) (s : Schedule) (r : Result (List ScheduleItem) × Db)
    → Reply c (items_reply s r)
    → Reply c (respond_items s r)
respond_items-Reply c s (ok items, d) k = k
respond_items-Reply c s (err x, d) k = k

respond-Reply :
    (h : TransitionHandler) (caller : Caller) (c : Text) (d : Db) (r : Result Schedule)
    → ((s : Schedule) → r ≡ ok s → RowOf c d s)
    → Reply c (respond h caller r d)
unfolding respond
respond-Reply h caller c d (ok s) k =
    respond_items-Reply c s (list_schedule_items h.item_reads s.id caller.scope d)
      (items_reply-Reply c s h.item_reads caller.scope d (k s refl))
respond-Reply h caller c d (err not_found) k = tt
respond-Reply h caller c d (err no_transaction) k = tt
respond-Reply h caller c d (err duplicate_occurrence) k = tt
respond-Reply h caller c d (err duplicate_schedule) k = tt
respond-Reply h caller c d (err (transition a s m)) k = tt
respond-Reply h caller c d (err (invalid m)) k = tt

customer_kind_scope :
    (p : Principal)
    → IsCustomer p
    → scope_of_kind p.kind p.customer_id ≡ customer_scope p.customer_id
customer_kind_scope p k = rw k.kind_is refl

pub scope_of_customer :
    (p : Principal) (c : Caller)
    → IsCustomer p
    → caller (some p) ≡ some c
    → c.scope ≡ customer_scope p.customer_id
unfolding caller
scope_of_customer p c k e =
    let same : record { actor = principal_actor p; scope = scope_of_kind p.kind p.customer_id }
        ≡ c =
      cc e in
    sym (ap (λ (x : Caller). x.scope) same) ∙ customer_kind_scope p k

run_request-Reply :
    (h : TransitionHandler) (p : Principal) (id : Text) (rq : Request) (c : Caller) (db : Db)
    → c.scope ≡ customer_scope p.customer_id
    → Reply p.customer_id (run_request h id rq c db)
unfolding run_request
run_request-Reply h p id rq c db e =
    respond-Reply h c p.customer_id (handle h.service id rq c db).1 (handle h.service id rq c db).0
      λ s answered.
        let seen = (handle-Accepted h.service id rq c db s answered).answered in
        found_own p.customer_id id (handle h.service id rq c db).1 s
          (subst (λ scope. (get_schedule id scope (handle h.service id rq c db).1).0 ≡ ok s) e seen)

get_in_scope-Reply :
    (reads : ItemReads) (c id : Text) (scope : Scope) (db : Db)
    → scope ≡ customer_scope c
    → Reply c (
        if_found
          (get_schedule id scope db)
          λ s d. items_reply s (list_schedule_items reads id scope d))
get_in_scope-Reply reads c id scope db e = if_found-Reply c _ _ λ s found.
    let own : (get_schedule id (customer_scope c) db).0 ≡ ok s =
      subst (λ (x : Scope). (get_schedule id x db).0 ≡ ok s) e found in
    let named : s.id ≡ id = (get_schedule-found id scope db s found).0 in
    let d = (get_schedule id scope db).1 in
    let same : d ≡ db = get_schedule_same id scope db in
    subst (λ i. Reply c (items_reply s (list_schedule_items reads i scope d))) named
      (items_reply-Reply c s reads scope d
        (subst (λ x. RowOf c x s) (sym same) (found_own c id db s own)))

get_handler-Reply :
    (reads : ItemReads) (p : Principal) (id : Text) (db : Db)
    → IsCustomer p
    → Reply p.customer_id (get_handler reads id (some p) db)
unfolding get_handler scope_for
get_handler-Reply reads p id db k =
    get_in_scope-Reply reads p.customer_id id _ db (customer_kind_scope p k)

upcoming_in_scope-Reply :
    (c id : Text) (scope : Scope) (db : Db)
    → scope ≡ customer_scope c
    → Reply c
        (if_found (get_schedule id scope db) λ s d. occurrences_reply (list_occurrences id scope d))
upcoming_in_scope-Reply c id scope db e =
    subst
      (λ (x : Scope).
        Reply c
          (if_found (get_schedule id x db) λ s d. occurrences_reply (list_occurrences id x d)))
      (sym e)
      (if_found-Reply c _ _ λ s found.
        let same = get_schedule_same id (customer_scope c) db in
        occurrences_reply-Reply c id (get_schedule id (customer_scope c) db).1 (
          subst (Owns (customer_scope c) id) (sym same)
            (get_schedule-Owns (customer_scope c) id db s refl found)))

upcoming_handler-Reply :
    (p : Principal) (id : Text) (db : Db)
    → IsCustomer p
    → Reply p.customer_id (upcoming_handler id (some p) db)
unfolding upcoming_handler scope_for
upcoming_handler-Reply p id db k =
    upcoming_in_scope-Reply p.customer_id id _ db (customer_kind_scope p k)

with_items-Reply :
    (c : Text) (db : Db) (s : Schedule) (items : Result (List ScheduleItem))
    (rest : Result (List ScheduleResponse))
    → RowOf c db s
    → ((its : List ScheduleItem) → items ≡ ok its → All (ItemOf s.id db) its)
    → Reply c (responses_reply rest db)
    → Reply c (responses_reply (with_items s items rest) db)
with_items-Reply c db s (ok items) (ok rs) own i k = (
  record { row = s; items = items; row_own = own; items_own = i items refl; response_is = refl },
  k,
)
with_items-Reply c db s (ok items) (err x) own i k = tt
with_items-Reply c db s (err x) rest own i k = tt

responses-Reply :
    (reads : ItemReads) (scope : Scope) (c : Text) (db : Db) (rows : List Schedule)
    → All (RowOf c db) rows
    → Reply c (responses_reply (responses reads scope db rows) db)
unfolding responses
responses-Reply reads scope c db [] h = tt
responses-Reply reads scope c db (s ∷ rest) h =
    with_items-Reply c db s _ _ h.0 (list_schedule_items-own reads s.id scope db)
      (responses-Reply reads scope c db rest h.1)

listed_own :
    (less : Schedule → Schedule → Bool) (c : Text) (db : Db)
    → All
        (RowOf c db)
        (order_by less (select (λ (s : Schedule). text_eq s.customer_id c) db.schedules))
listed_own less c db = In-All (RowOf c db) _ λ s i.
    let (there, own) = In-select _ s db.schedules (In-order_by less s _ i) in
    (there, text_eq_sound s.customer_id c own)

list_owned-Reply :
    (reads : ItemReads) (customer_id : Text) (p : Principal) (own : Bool) (db : Db)
    → (own ≡ true → p.customer_id ≡ customer_id)
    → Reply p.customer_id (list_owned reads customer_id (some p) own db)
unfolding scope_for list_schedules_by_customer
list_owned-Reply reads customer_id p true db k = responses-Reply reads _ p.customer_id db _ (
    subst
      (λ c. All (RowOf p.customer_id db) (
        order_by (λ (a b : Schedule). ltb a.created_at b.created_at)
          (select (λ (s : Schedule). text_eq s.customer_id c) db.schedules)))
      (k refl) (listed_own _ p.customer_id db))
list_owned-Reply reads customer_id p false db k = tt

list_by_customer_handler-Reply :
    (reads : ItemReads) (customer_id : Text) (p : Principal) (db : Db)
    → IsCustomer p
    → Reply p.customer_id (list_by_customer_handler reads customer_id (some p) db)
unfolding list_by_customer_handler
list_by_customer_handler-Reply reads customer_id p db k =
    list_owned-Reply reads customer_id p (owns_customer p customer_id) db
      (owns_customer_sound p customer_id k)

-- With a customer's token, which is not the service credential as well, a response shows nothing
-- but rows of that customer in the tables that the request leaves, each schedule with no items but
-- its own, and a queue of orders with no orders but those of one schedule of that customer, on
-- whichever route and whatever the path and the body ask for.
pub serve-Shows :
    (srv : Server) (authorization : Text) (p : Principal) (endpoint : Endpoint) (db : Db)
    → authenticate (verify_token srv.middleware.tokens) authorization ≡ some p
    → authenticate (verify_service_key srv.middleware.service_key) authorization ≡ none
    → Shows p.customer_id
        (serve srv authorization endpoint db).1
        (serve srv authorization endpoint db).0.body
serve-Shows srv authorization p endpoint db token no_key =
    serve_cases (λ d r. Reply p.customer_id r) srv authorization (λ code message d high. tt)
      (λ q body d v. absurd (let bad : none ≡ some q = sym no_key ∙ v in cc))
      (λ q id d v.
        as_own q v (get_handler srv.checkout.item_reads id (some q) d)
          (get_handler-Reply srv.checkout.item_reads q id d (known q v)))
      (λ q id d v.
        as_own q v (upcoming_handler id (some q) d) (upcoming_handler-Reply q id d (known q v)))
      (λ q customer_id d v.
        as_own q v (list_by_customer_handler srv.checkout.item_reads customer_id (some q) d)
          (list_by_customer_handler-Reply srv.checkout.item_reads customer_id q d (known q v)))
      (λ q id rq c d v e.
        as_own q v (run_request srv.transitions id rq c d)
          (run_request-Reply srv.transitions q id rq c d (scope_of_customer q c (known q v) e)))
      endpoint db
  where
    known : (q : Principal) → Customer srv authorization q → IsCustomer q
    known q v = authenticate-IsCustomer srv.middleware.tokens authorization q v

    as_own :
        (q : Principal)
        → Customer srv authorization q
        → (r : Response × Db) → Reply q.customer_id r
        → Reply p.customer_id r
    as_own q v r shown =
        let pq : some q ≡ some p = sym v ∙ token in
        let same : q ≡ p = cc pq in subst (λ (x : Principal). Reply x.customer_id r) same shown
