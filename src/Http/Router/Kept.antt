-- ===== src/Http/Router/Kept.antt =====
-- The routes of internal/httpapi/router.go and the constraints of the tables.
use replenishment_system.Common.{◌≡◌, refl, List, sym, ap, subst, ◌∙◌, ◌⊎◌, inl, inr, none, some}
use replenishment_system.Common.Text.{Text}
use replenishment_system.Domain.Types.{
  Schedule, ScheduleItem, Error, not_found, no_transaction, duplicate_occurrence,
  duplicate_schedule, transition, invalid, Result, ok, err,
}
use replenishment_system.Store.Db.{Db}
use replenishment_system.Store.Scope.{Scope, customer_scope}
use replenishment_system.Store.Schedules.{list_schedule_items}
use replenishment_system.Store.Steps.Reads.{list_schedule_items_same}
use replenishment_system.Store.Integrity.{WellFormed}
use replenishment_system.Store.Steps.{Step}
use replenishment_system.Service.{Caller, Request, handle}
use replenishment_system.Service.Frame.{ClockOk}
use replenishment_system.Service.Requests.{handle-Step}
use replenishment_system.Service.Refusals.{handle_unchanged}
use replenishment_system.Service.Own.{Owns, handle-Owns}
use replenishment_system.Auth.{Principal, verify_token, verify_service_key, authenticate}
use replenishment_system.Auth.Laws.{authenticate-IsCustomer}
use replenishment_system.Http.{Response, caller}
use replenishment_system.Http.Transitions.{TransitionHandler, run_request, respond, respond_items}
use replenishment_system.Http.Create.Valid.{create_handler-WellFormed}
use replenishment_system.Http.Router.{Endpoint, Server, serve}
use replenishment_system.Http.Router.Cases.{Customer, serve_cases}
use replenishment_system.Http.Router.Unchanged.{
  get_handler_same, upcoming_handler_same, list_by_customer_handler_same,
}
use replenishment_system.Http.Router.Own.{scope_of_customer}

abbrev Sound : Db → Response × Db → Type 0
Sound db r = WellFormed db → WellFormed r.1

respond_items_same :
    (s : Schedule) (r : Result (List ScheduleItem) × Db) → (respond_items s r).1 ≡ r.1
respond_items_same s (ok items, d) = refl
respond_items_same s (err e, d) = refl

respond_same :
    (h : TransitionHandler) (c : Caller) (db : Db) (r : Result Schedule) → (respond h c r db).1 ≡ db
unfolding respond
respond_same h c db (ok s) =
    respond_items_same s (list_schedule_items h.item_reads s.id c.scope db)
    ∙ list_schedule_items_same h.item_reads s.id c.scope db
respond_same h c db (err not_found) = refl
respond_same h c db (err no_transaction) = refl
respond_same h c db (err duplicate_occurrence) = refl
respond_same h c db (err duplicate_schedule) = refl
respond_same h c db (err (transition a s m)) = refl
respond_same h c db (err (invalid m)) = refl

-- A transition over HTTP leaves the database that the service leaves.
run_request_same :
    (h : TransitionHandler) (id : Text) (rq : Request) (c : Caller) (db : Db)
    → (run_request h id rq c db).1 ≡ (handle h.service id rq c db).1
unfolding run_request
run_request_same h id rq c db =
    respond_same h c (handle h.service id rq c db).1 (handle h.service id rq c db).0

-- A request over HTTP, on whichever route and under whatever credential, keeps in
-- a well-formed database the primary keys and the unique and check constraints of the four tables,
-- and a schedule behind each item. The dates of the service's clock have to be dates of the calendar.
pub serve-WellFormed :
    (srv : Server) (authorization : Text) (endpoint : Endpoint) (db : Db)
    → ClockOk srv.transitions.service.clock
    → WellFormed db
    → WellFormed (serve srv authorization endpoint db).1
serve-WellFormed srv authorization endpoint db clock =
    serve_cases Sound srv authorization (λ code message d high w. w)
      (λ p body d v w. create_handler-WellFormed srv.checkout body d w)
      (λ p id d v w. subst WellFormed (sym (get_handler_same srv.checkout.item_reads id p d)) w)
      (λ p id d v w. subst WellFormed (sym (upcoming_handler_same id p d)) w)
      (λ p customer_id d v w.
        subst WellFormed
          (sym (list_by_customer_handler_same srv.checkout.item_reads customer_id p d)) w)
      (λ p id rq c d v e w.
        subst WellFormed (sym (run_request_same srv.transitions id rq c d))
          (handle-Step srv.transitions.service id rq c d clock w).well_formed)
      endpoint db

-- The database is as it was, or it differs in what belongs to one schedule of this customer.
abbrev pub Touches : Text → Db → Db → Type 0
Touches c db db' = (db' ≡ db) ⊎ ((id : Text) × Owns (customer_scope c) id db × Step id db db')

answer_cases : (r : Result Schedule) → ((s : Schedule) × (r ≡ ok s)) ⊎ ((x : Error) × (r ≡ err x))
answer_cases (ok s) = inl (s, refl)
answer_cases (err x) = inr (x, refl)

run_request-Touches :
    (h : TransitionHandler) (c : Text) (id : Text) (rq : Request) (caller : Caller) (db : Db)
    → ClockOk h.service.clock
    → WellFormed db
    → caller.scope ≡ customer_scope c
    → Touches c db (run_request h id rq caller db).1
run_request-Touches h c id rq caller db clock w scoped =
    elim (answer_cases (handle h.service id rq caller db).0) [
      | inl (s, e) ↦ inr (
        id,
        subst (λ scope. Owns scope id db) scoped
            (handle-Owns h.service id rq caller db s (ap (λ (x : Scope). x.restricted) scoped) e),
        subst (λ d. Step id db d) (sym (run_request_same h id rq caller db))
            (handle-Step h.service id rq caller db clock w),
      )
      | inr (x, e) ↦
          inl (run_request_same h id rq caller db ∙ handle_unchanged h.service id rq caller db x e)
    ]

-- With a customer's token, which is not the service credential as well, a request to a well-formed
-- database leaves it as it was or changes only what belongs to one schedule of that customer: the rows of all other schedules, their
-- occurrences, all items and the log so far stay, and the log gains only events of that schedule.
-- The dates of the service's clock have to be dates of the calendar.
pub serve-Touches :
    (srv : Server) (authorization : Text) (p : Principal) (endpoint : Endpoint) (db : Db)
    → ClockOk srv.transitions.service.clock
    → WellFormed db
    → authenticate (verify_token srv.middleware.tokens) authorization ≡ some p
    → authenticate (verify_service_key srv.middleware.service_key) authorization ≡ none
    → Touches p.customer_id db (serve srv authorization endpoint db).1
serve-Touches srv authorization p endpoint db clock well token no_key =
    serve_cases (λ d r. WellFormed d → Touches p.customer_id d r.1) srv authorization
      (λ code message d high w. inl refl)
      (λ q body d v w. absurd (let bad : none ≡ some q = sym no_key ∙ v in cc))
      (λ q id d v w. inl (get_handler_same srv.checkout.item_reads id q d))
      (λ q id d v w. inl (upcoming_handler_same id q d))
      (λ q customer_id d v w.
        inl (list_by_customer_handler_same srv.checkout.item_reads customer_id q d))
      (λ q id rq c d v e w.
        run_request-Touches srv.transitions p.customer_id id rq c d clock w (scoped q c v e))
      endpoint db well
  where
    scoped :
        (q : Principal) (c : Caller)
        → Customer srv authorization q
        → caller (some q) ≡ some c
        → c.scope ≡ customer_scope p.customer_id
    scoped q c v e =
        let pq : some q ≡ some p = sym v ∙ token in
        let same : q ≡ p = cc pq in
        subst (λ (x : Principal). c.scope ≡ customer_scope x.customer_id) same
          (scope_of_customer q c (authenticate-IsCustomer srv.middleware.tokens authorization q v)
            e)
