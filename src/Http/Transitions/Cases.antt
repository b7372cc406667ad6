-- ===== src/Http/Transitions/Cases.antt =====
-- The ways through a handler of internal/httpapi/transitions.go: a refusal before the service is
-- called, or the service's call under the caller of the context.
use replenishment_system.Common.{
  ℕ, ◌≤◌, ◌≡◌, arith, refl, Bool, true, false, Option, none, some, [], String,
}
use replenishment_system.Common.Text.{Text, text_eq}
use replenishment_system.Calendar.{Date}
use replenishment_system.Domain.Types.{Result, ok, err, Outcome}
use replenishment_system.Domain.DateText.{parse_date}
use replenishment_system.Store.Db.{Db}
use replenishment_system.Service.{Caller, Request}
use replenishment_system.Auth.{Principal}
use replenishment_system.Http.{Response, write_error, Handler, caller, Incoming}
use replenishment_system.Http.Transitions.{
  TransitionHandler, run_request, as_caller, after_decode, checked, with_until, until_when,
  until_of, pause_handler, resume_handler, skip_handler, defer_handler, cadence_handler,
  cancel_handler, PauseRequest, SkipRequest, DeferRequest, CadenceRequest, CancelRequest,
}

module _ (P : Db → Response × Db → Type 0) (h : TransitionHandler) (id : Text)
    (context : Option Principal)
    (refused : (code : ℕ) (message : String) (db : Db)
      → 400 ≤ code
      → P db (write_error code message, db))
    (runs : (rq : Request) (c : Caller) (db : Db)
      → caller context ≡ some c
      → P db (run_request h id rq c db)) where
  as_caller_cases :
      (rq : Request) (o : Option Caller) (db : Db)
      → caller context ≡ o
      → P db (as_caller h id rq o db)
  unfolding as_caller
  as_caller_cases rq none db e = refused _ _ db (omega arith)
  as_caller_cases rq (some c) db e = runs rq c db e

  after_decode_cases :
      {A : Type 0} (r : Result A) (next : A → Handler) (db : Db)
      → ((req : A) → P db (next req db))
      → P db (after_decode r next db)
  unfolding after_decode
  after_decode_cases (err e) next db k = refused _ _ db (omega arith)
  after_decode_cases (ok req) next db k = k req

  checked_cases :
      (r : Outcome) (next : Handler) (db : Db) → P db (next db) → P db (checked r next db)
  unfolding checked
  checked_cases (ok tt) next db k = k
  checked_cases (err e) next db k = refused _ _ db (omega arith)

  with_until_cases :
      (o : Option Date) (next : Option Date → Handler) (db : Db)
      → ((until : Option Date) → P db (next until db))
      → P db (with_until o next db)
  with_until_cases none next db k = refused _ _ db (omega arith)
  with_until_cases (some d) next db k = k (some d)

  until_when_cases :
      (blank : Bool) (t : Text) (next : Option Date → Handler) (db : Db)
      → ((until : Option Date) → P db (next until db))
      → P db (until_when blank t next db)
  until_when_cases true t next db k = k none
  until_when_cases false t next db k = with_until_cases (parse_date t) next db k

  until_of_cases :
      (t : Text) (next : Option Date → Handler) (db : Db)
      → ((until : Option Date) → P db (next until db))
      → P db (until_of t next db)
  unfolding until_of
  until_of_cases t next db k = until_when_cases (text_eq t []) t next db k

  called : (rq : Request) (db : Db) → P db (as_caller h id rq (caller context) db)
  called rq db = as_caller_cases rq (caller context) db refl

  pub pause_handler_cases :
      (body : Incoming PauseRequest) (db : Db) → P db (pause_handler h id body context db)
  unfolding pause_handler
  pause_handler_cases body db =
      after_decode_cases {A = PauseRequest} _ _ db
        λ req. until_of_cases req.paused_until _ db λ until. called _ db

  pub resume_handler_cases : (db : Db) → P db (resume_handler h id context db)
  unfolding resume_handler
  resume_handler_cases db = called _ db

  pub skip_handler_cases :
      (body : Incoming SkipRequest) (db : Db) → P db (skip_handler h id body context db)
  unfolding skip_handler
  skip_handler_cases body db =
      after_decode_cases {A = SkipRequest} _ _ db λ req. checked_cases _ _ db (called _ db)

  pub defer_handler_cases :
      (body : Incoming DeferRequest) (db : Db) → P db (defer_handler h id body context db)
  unfolding defer_handler
  defer_handler_cases body db =
      after_decode_cases {A = DeferRequest} _ _ db
        λ req. checked_cases _ _ db (checked_cases _ _ db (called _ db))

  pub cadence_handler_cases :
      (body : Incoming CadenceRequest) (db : Db) → P db (cadence_handler h id body context db)
  unfolding cadence_handler
  cadence_handler_cases body db =
      after_decode_cases {A = CadenceRequest} _ _ db λ req. checked_cases _ _ db (called _ db)

  pub cancel_handler_cases :
      (body : Incoming CancelRequest) (db : Db) → P db (cancel_handler h id body context db)
  unfolding cancel_handler
  cancel_handler_cases body db =
      after_decode_cases {A = CancelRequest} _ _ db λ req. checked_cases _ _ db (called _ db)
