-- ===== src/Http/Router/Cases.antt =====
-- The ways through the routes of internal/httpapi/router.go: a refusal, or a handler's work under the
-- principal that its credential names.
use replenishment_system.Common.{ℕ, ◌≤◌, ◌≡◌, refl, arith, Option, none, some, String}
use replenishment_system.Common.Text.{Text}
use replenishment_system.Store.Db.{Db}
use replenishment_system.Service.{Caller, Request}
use replenishment_system.Auth.{Principal, verify_token, verify_service_key, authenticate}
use replenishment_system.Http.{Response, write_error, Handler, caller, Incoming}
use replenishment_system.Http.Transitions.{run_request}
use replenishment_system.Http.Transitions.Cases.{
  pause_handler_cases, resume_handler_cases, skip_handler_cases, defer_handler_cases,
  cadence_handler_cases, cancel_handler_cases,
}
use replenishment_system.Http.Schedules.{get_handler, upcoming_handler, list_by_customer_handler}
use replenishment_system.Http.Create.{CreateRequest, create_handler}
use replenishment_system.Http.Router.{
  Change, pause_route, resume_route, skip_route, defer_route, cadence_route, cancel_route, Endpoint,
  create_route, get_route, upcoming_route, list_route, change_route, Server, guarded, serve,
  require_customer, require_service, change_handler,
}

-- The principal of a customer's credential.
abbrev pub Customer : Server → Text → Principal → Type 0
Customer srv authorization p =
    authenticate (verify_token srv.middleware.tokens) authorization ≡ some p

-- The principal of the service credential.
abbrev pub Backend : Server → Text → Principal → Type 0
Backend srv authorization p =
    authenticate (verify_service_key srv.middleware.service_key) authorization ≡ some p

module _ (P : Db → Response × Db → Type 0) (srv : Server) (authorization : Text)
    (refused : (code : ℕ) (message : String) (db : Db)
      → 400 ≤ code
      → P db (write_error code message, db))
    (creates : (p : Principal) (body : Incoming CreateRequest) (db : Db)
      → Backend srv authorization p
      → P db (create_handler srv.checkout body db))
    (gets : (p : Principal) (id : Text) (db : Db)
      → Customer srv authorization p
      → P db (get_handler srv.checkout.item_reads id (some p) db))
    (shows : (p : Principal) (id : Text) (db : Db)
      → Customer srv authorization p
      → P db (upcoming_handler id (some p) db))
    (lists : (p : Principal) (customer_id : Text) (db : Db)
      → Customer srv authorization p
      → P db (list_by_customer_handler srv.checkout.item_reads customer_id (some p) db))
    (runs : (p : Principal) (id : Text) (rq : Request) (c : Caller) (db : Db)
      → Customer srv authorization p
      → caller (some p) ≡ some c
      → P db (run_request srv.transitions id rq c db)) where
  guarded_cases :
      (o : Option Principal) (next : Option Principal → Handler) (db : Db)
      → ((p : Principal) → o ≡ some p → P db (next (some p) db))
      → P db (guarded next o db)
  unfolding guarded
  guarded_cases none next db k = refused _ _ db (omega arith)
  guarded_cases (some p) next db k = k p refl

  change_handler_cases :
      (p : Principal) (id : Text) (change : Change) (db : Db)
      → Customer srv authorization p
      → P db (change_handler srv.transitions id change (some p) db)
  unfolding change_handler
  change_handler_cases p id (pause_route body) db v =
      pause_handler_cases P srv.transitions id (some p) refused (λ rq c db. runs p id rq c db v)
        body db
  change_handler_cases p id resume_route db v =
      resume_handler_cases P srv.transitions id (some p) refused (λ rq c db. runs p id rq c db v) db
  change_handler_cases p id (skip_route body) db v =
      skip_handler_cases P srv.transitions id (some p) refused (λ rq c db. runs p id rq c db v) body
        db
  change_handler_cases p id (defer_route body) db v =
      defer_handler_cases P srv.transitions id (some p) refused (λ rq c db. runs p id rq c db v)
        body db
  change_handler_cases p id (cadence_route body) db v =
      cadence_handler_cases P srv.transitions id (some p) refused (λ rq c db. runs p id rq c db v)
        body db
  change_handler_cases p id (cancel_route body) db v =
      cancel_handler_cases P srv.transitions id (some p) refused (λ rq c db. runs p id rq c db v)
        body db

  pub serve_cases : (endpoint : Endpoint) (db : Db) → P db (serve srv authorization endpoint db)
  unfolding serve require_customer require_service
  serve_cases (create_route body) db = guarded_cases _ _ db λ p v. creates p body db v
  serve_cases (get_route id) db = guarded_cases _ _ db λ p v. gets p id db v
  serve_cases (upcoming_route id) db = guarded_cases _ _ db λ p v. shows p id db v
  serve_cases (list_route customer_id) db = guarded_cases _ _ db λ p v. lists p customer_id db v
  serve_cases (change_route id change) db =
      guarded_cases _ _ db λ p v. change_handler_cases p id change db v
