-- ===== src/Http/Router.antt =====
-- internal/httpapi/router.go and middleware.go: the routes of `NewServiceRouter`, each behind the
-- credential it requires. `net/http` matches the patterns: an `Endpoint` is a matched pattern with
-- the values of its path and the request's body.
pub mod Cases
pub mod Unchanged
pub mod Shown
pub mod Own
pub mod Kept
use replenishment_system.Common.{Option, none, some}
use replenishment_system.Common.Text.{Text}
use replenishment_system.Auth.{
  Principal, TokenVerifier, ServiceKeyVerifier, verify_token, verify_service_key, authenticate,
}
use replenishment_system.Http.{Response, write_error, Handler, Incoming}
use replenishment_system.Http.Schedules.{get_handler, upcoming_handler, list_by_customer_handler}
use replenishment_system.Http.Transitions.{
  TransitionHandler, PauseRequest, SkipRequest, DeferRequest, CadenceRequest, CancelRequest,
  pause_handler, resume_handler, skip_handler, defer_handler, cadence_handler, cancel_handler,
}
use replenishment_system.Http.Create.{Checkout, CreateRequest, create_handler}

pub record Middleware : Type 0 where
  pub tokens : TokenVerifier
  pub service_key : ServiceKeyVerifier

-- The handler runs under the principal, or not at all.
unfoldable pub guarded : (Option Principal → Handler) → Option Principal → Handler
guarded next none db = (write_error 401 "valid credentials are required", db)
guarded next (some p) db = next (some p) db

unfoldable pub require_customer : Middleware → Text → (Option Principal → Handler) → Handler
require_customer mw authorization next =
    guarded next (authenticate (verify_token mw.tokens) authorization)

unfoldable pub require_service : Middleware → Text → (Option Principal → Handler) → Handler
require_service mw authorization next =
    guarded next (authenticate (verify_service_key mw.service_key) authorization)

-- The patterns POST /schedules/{id}/….
pub data Change : Type 0 where
  pause_route : Incoming PauseRequest → Change
  resume_route : Change
  skip_route : Incoming SkipRequest → Change
  defer_route : Incoming DeferRequest → Change
  cadence_route : Incoming CadenceRequest → Change
  cancel_route : Incoming CancelRequest → Change

unfoldable pub change_handler : TransitionHandler → Text → Change → Option Principal → Handler
change_handler t id (pause_route body) context = pause_handler t id body context
change_handler t id resume_route context = resume_handler t id context
change_handler t id (skip_route body) context = skip_handler t id body context
change_handler t id (defer_route body) context = defer_handler t id body context
change_handler t id (cadence_route body) context = cadence_handler t id body context
change_handler t id (cancel_route body) context = cancel_handler t id body context

-- POST /schedules, GET /schedules/{id}, GET /schedules/{id}/occurrences,
-- GET /customers/{customerID}/schedules, and the changes.
pub data Endpoint : Type 0 where
  create_route : Incoming CreateRequest → Endpoint
  get_route upcoming_route list_route : Text → Endpoint
  change_route : Text → Change → Endpoint

pub record Server : Type 0 where
  pub checkout : Checkout
  pub transitions : TransitionHandler
  pub middleware : Middleware

unfoldable pub serve : Server → Text → Endpoint → Handler
serve srv authorization (create_route body) =
    require_service srv.middleware authorization (λ context. create_handler srv.checkout body)
serve srv authorization (get_route id) =
    require_customer srv.middleware authorization (get_handler srv.checkout.item_reads id)
serve srv authorization (upcoming_route id) =
    require_customer srv.middleware authorization (upcoming_handler id)
serve srv authorization (list_route customer_id) =
    require_customer srv.middleware authorization
      (list_by_customer_handler srv.checkout.item_reads customer_id)
serve srv authorization (change_route id change) =
    require_customer srv.middleware authorization (change_handler srv.transitions id change)
