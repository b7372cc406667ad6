-- ===== src/Service/Own.antt =====
-- Callers of internal/schedule/service.go with the scope of one customer (internal/store/scope.go).
use replenishment_system.Common.{
  ◌≡◌, ◌≢◌, arith, true, false, ◌&&◌, Option, none, some, [], and_left, and_right,
}
use replenishment_system.Common.Text.{Text, text_eq, text_eq_sound, text_eq_ne}
use replenishment_system.Domain.Types.{Schedule, not_found, ok, err}
use replenishment_system.Store.Rows.{In}
use replenishment_system.Store.Rows.Laws.{first_row-select}
use replenishment_system.Store.Db.{Db}
use replenishment_system.Store.Scope.{Scope, filter_own}
use replenishment_system.Store.Schedules.{get_schedule, with_id}
use replenishment_system.Service.{Service, Caller, Request, handle}
use replenishment_system.Service.Refusals.{handle-Accepted}

-- A row of the table with that id, which belongs to the customer of the scope.
pub record Owns (scope : Scope) (id : Text) (db : Db) : Type 0 where
  pub row : Schedule
  pub there : In row db.schedules
  pub named : row.id ≡ id
  pub own : row.customer_id ≡ scope.customer_id
  pub not_blank : scope.customer_id ≢ []

filter_own-restricted :
    (scope : Scope) (s : Schedule)
    → scope.restricted ≡ true
    → filter_own scope s ≡ true
    → (text_eq s.customer_id scope.customer_id ≡ true) × (text_eq scope.customer_id [] ≡ false)
unfolding filter_own
filter_own-restricted scope s r h = ground arith

row_of_answer :
    (o : Option Schedule) (s : Schedule)
    → elim o [ none ↦ err not_found | some a ↦ ok a ] ≡ ok s
    → o ≡ some s
row_of_answer none s e = cc
row_of_answer (some x) s e = cc

pub get_schedule-Owns :
    (scope : Scope) (id : Text) (db : Db) (s : Schedule)
    → scope.restricted ≡ true
    → (get_schedule id scope db).0 ≡ ok s
    → Owns scope id db
unfolding get_schedule
get_schedule-Owns scope id db s r e =
    let found =
      first_row-select (λ x. with_id id x && filter_own scope x) s db.schedules
        (row_of_answer _ s e) in
    let mine = filter_own-restricted scope s r (and_right _ _ found.1) in
    record {
      row = s;
      there = found.0;
      named = text_eq_sound s.id id (and_left _ _ found.1);
      own = text_eq_sound s.customer_id scope.customer_id mine.0;
      not_blank = text_eq_ne scope.customer_id [] mine.1;
    }

-- A request from a caller who is restricted to one customer succeeds only for a schedule of the
-- table that belongs to this customer, and never for a blank customer.
pub handle-Owns :
    (svc : Service) (id : Text) (rq : Request) (caller : Caller) (db : Db) (answer : Schedule)
    → caller.scope.restricted ≡ true
    → (handle svc id rq caller db).0 ≡ ok answer
    → Owns caller.scope id db
handle-Owns svc id rq caller db answer r e =
    let t = handle-Accepted svc id rq caller db answer e in
    get_schedule-Owns caller.scope id db t.before r t.found
