-- ===== src/Http/Create.antt =====
-- `Create` of internal/httpapi/schedules.go: POST /schedules, which a checkout may send again.
pub mod Valid
pub mod Filed
pub mod Inserted
pub mod Again
use replenishment_system.Common.{
  ℕ, zero, suc, Bool, true, false, Option, none, some, List, [], ◌∷◌, String, ltb, ◌||◌,
  if◌then◌else◌,
}
use replenishment_system.Common.Int.{ℤ, ltb_ℤ, pos, pos_part}
use replenishment_system.Common.Text.{Text, text_eq}
use replenishment_system.Calendar.{Date}
use replenishment_system.Domain.Types.{
  ScheduleStatus, EventActor, schedule_created, Schedule, ScheduleItem, ScheduleEvent, Value,
  number, day, Error, duplicate_schedule, invalid, Result, ok, err, Outcome, ◌>>=◌, ◌>>◌,
}
use replenishment_system.Domain.Cadence.{validate_interval}
use replenishment_system.Domain.DateText.{parse_date}
use replenishment_system.Domain.Transitions.{validate_email}
use replenishment_system.Store.Db.{Db, Store, Conn, pool, in_tx, continue_with}
use replenishment_system.Store.Scope.{system_scope}
use replenishment_system.Store.Schedules.{
  create_schedule, ItemReads, get_schedule_by_origin_order_id, list_schedule_items,
}
use replenishment_system.Store.Events.{append_event}
use replenishment_system.Http.{
  Response, reply, write_error, one_schedule, Handler, error_text, Incoming, decode_json,
  to_response,
}

pub record ItemRequest : Type 0 where
  pub sku : Text
  pub quantity : ℤ

-- A float64 is its 64 bits.
pub record CreateRequest : Type 0 where
  pub customer_id : Text
  pub customer_email : Text
  pub origin_order_id : Text
  pub interval_days : ℤ
  pub anchor_date : Text
  pub timezone : Text
  pub payment_token_ref : Text
  pub shipping_address_id : Text
  pub discount_pct : ℕ
  pub items : List ItemRequest

-- `time.LoadLocation`, `net/mail.ParseAddress`, `domain.NormalizeDiscountPct` with its result in
-- hundredths, `uuid.NewString` for the schedule and for its n-th item, and how items are read.
pub record Checkout : Type 0 where
  pub zone_exists : Text → Bool
  pub parses : Text → Bool
  pub normalize_discount_pct : ℕ → Result ℕ
  pub new_schedule_id : List Schedule → Text
  pub new_item_id : List Schedule → ℕ → Text
  pub item_reads : ItemReads

abbrev pub present : String → Text → Outcome
present message t = if text_eq t [] then err (invalid message) else ok tt

abbrev pub or_message {ℓ} : {A : Type ℓ} → String → Option A → Result A
or_message message none = err (invalid message)
or_message message (some a) = ok a

abbrev pub require : String → Bool → Outcome
require message Bool.true = ok tt
require message Bool.false = err (invalid message)

abbrev pub some_items : List ItemRequest → Bool
some_items [] = Bool.false
some_items (it ∷ its) = Bool.true

abbrev pub with_item : ScheduleItem → Result (List ScheduleItem) → Result (List ScheduleItem)
with_item it (err e) = err e
with_item it (ok its) = ok (it ∷ its)

-- The items from the n-th on.
unfoldable pub checked_items : (ℕ → Text) → Text → ℕ → List ItemRequest → Result (List ScheduleItem)
checked_items new_id schedule_id n [] = ok []
checked_items new_id schedule_id n (it ∷ its) =
    let rest = checked_items new_id schedule_id (suc n) its in
    if text_eq it.sku [] || ltb_ℤ it.quantity (pos 1)
    then err (invalid "each item needs a sku and a quantity of at least 1")
    else with_item
        (record {
          id = new_id n;
          schedule_id = schedule_id;
          sku = it.sku;
          quantity = pos_part it.quantity;
        })
        rest

abbrev pub new_schedule : CreateRequest → Text → Date → ℕ → Schedule
new_schedule req id anchor discount = record {
  id = id;
  customer_id = req.customer_id;
  status = ScheduleStatus.active;
  customer_email = req.customer_email;
  origin_order_id = req.origin_order_id;
  interval_days = req.interval_days;
  anchor_date = anchor;
  next_run_date = none;
  timezone = req.timezone;
  payment_token_ref = req.payment_token_ref;
  shipping_address_id = req.shipping_address_id;
  discount_hundredths = discount;
  paused_until = none;
  created_at = 0;
}

-- The checks of the handler in their order, up to the items: the anchor and the discount.
unfoldable pub checked_request : Checkout → CreateRequest → Result (Date × ℕ)
checked_request h req = do
  present "customer_id is required" req.customer_id
  validate_email h.parses req.customer_email
  present "origin_order_id is required" req.origin_order_id
  validate_interval req.interval_days
  anchor ← or_message "anchor_date must be YYYY-MM-DD" (parse_date req.anchor_date)
  present "timezone is required" req.timezone
  require "timezone must be a valid IANA name" (h.zone_exists req.timezone)
  require "at least one item is required" (some_items req.items)
  discount ← h.normalize_discount_pct req.discount_pct
  ok (anchor, discount)

-- The schedule and the items that the handler builds. `rows` are those of the table, which fresh
-- identifiers may depend on.
unfoldable pub validated :
    Checkout → List Schedule → CreateRequest → Result (Schedule × List ScheduleItem)
validated h rows req = do
  (anchor, discount) ← checked_request h req
  items ← checked_items (h.new_item_id rows) (h.new_schedule_id rows) 0 req.items
  ok (new_schedule req (h.new_schedule_id rows) anchor discount, items)

abbrev pub created_event : Schedule → ScheduleEvent
created_event s = record {
  id = 0;
  schedule_id = s.id;
  event_type = schedule_created;
  actor = EventActor.system;
  reason_code = none;
  payload =
      ("anchor_date", day s.anchor_date)
      ∷ ("interval_days", number s.interval_days)
      ∷ ("next_order_date", Value.word [])
      ∷ [];
  idempotency_key = none;
}

unfoldable pub create_steps : Checkout → Schedule → List ScheduleItem → Conn → Store (Unit {0})
create_steps h s items tx = λ db.
    continue_with (create_schedule h.zone_exists tx s items db)
      λ u db1. append_event (created_event s) db1

abbrev pub existing_items : Schedule → Result (List ScheduleItem) × Db → Response × Db
existing_items s (ok items, db) = (reply 200 (one_schedule (to_response s items)), db)
existing_items s (err e, db) = (write_error 500 "could not create schedule", db)

abbrev pub existing_reply : Checkout → Result Schedule × Db → Response × Db
existing_reply h (ok s, db) =
    existing_items s (list_schedule_items h.item_reads s.id system_scope db)
existing_reply h (err e, db) = (write_error 500 "could not create schedule", db)

abbrev pub created_reply :
    Checkout → Text → Schedule → List ScheduleItem → Result (Unit {0}) × Db → Response × Db
created_reply h origin s items (ok tt, db) = (reply 201 (one_schedule (to_response s items)), db)
created_reply h origin s items (err duplicate_schedule, db) =
    existing_reply h (get_schedule_by_origin_order_id origin db)
created_reply h origin s items (err e, db) = (write_error 500 "could not create schedule", db)

abbrev pub create_validated : Checkout → Text → Result (Schedule × List ScheduleItem) → Handler
create_validated h origin (err e) db = (write_error 400 (error_text e), db)
create_validated h origin (ok (s, items)) db =
    created_reply h origin s items (in_tx pool (create_steps h s items) db)

abbrev pub create_decoded : Checkout → Result CreateRequest → Handler
create_decoded h (err e) db = (write_error 400 "invalid request body", db)
create_decoded h (ok req) db =
    create_validated h req.origin_order_id (validated h db.schedules req) db

unfoldable pub create_handler : Checkout → Incoming CreateRequest → Handler
create_handler h body = create_decoded h (decode_json body)
