-- ===== src/Http/Create/Valid.antt =====
-- `Create` of internal/httpapi/schedules.go: what it writes meets the constraints of the tables.
use replenishment_system.Common.{
  ℕ, ◌≤◌, ◌≡◌, refl, sym, ap, subst, ◌∙◌, Option, none, some, List, String,
}
use replenishment_system.Common.Text.{Text}
use replenishment_system.Calendar.{Date}
use replenishment_system.Domain.Types.{
  Schedule, ScheduleItem, not_found, no_transaction, duplicate_occurrence, duplicate_schedule,
  transition, invalid, Result, ok, err, ◌>>=◌,
}
use replenishment_system.Domain.Cadence.{validate_interval}
use replenishment_system.Domain.Transitions.{validate_email}
use replenishment_system.Domain.DateText.{parse_date}
use replenishment_system.Domain.DateText.Laws.{parse_date_shown}
use replenishment_system.Store.Db.{Db, pool, in_transaction, in_tx, commit_or_rollback}
use replenishment_system.Store.Schedules.{
  create_schedule, get_schedule_by_origin_order_id, list_schedule_items,
}
use replenishment_system.Store.Integrity.{ScheduleOk, WellFormed}
use replenishment_system.Store.Steps.Reads.{list_schedule_items_same}
use replenishment_system.Store.Steps.CreateRows.{
  Keeps, append_event-Keeps, continue-Keeps, create_schedule-Keeps,
}
use replenishment_system.Http.{Incoming, decode_json}
use replenishment_system.Http.Create.{
  Checkout, CreateRequest, validated, checked_request, present, or_message, require, some_items,
  checked_items, new_schedule, create_steps, created_event, created_reply, existing_reply,
  existing_items, create_validated, create_decoded, create_handler,
}

-- A sequence that goes on has had an answer from its first part.
pub after_ok :
    {A B : Type 0} (r : Result A) (k : A → Result B) (b : B)
    → (r >>= k) ≡ ok b
    → (a : A) × (r ≡ ok a) × (k a ≡ ok b)
after_ok (ok a) k b e = (a, refl, e)
after_ok (err x) k b e = absurd cc

or_message-some :
    {A : Type 0} (message : String) (o : Option A) (a : A)
    → or_message message o ≡ ok a
    → o ≡ some a
or_message-some message none a e = absurd cc
or_message-some message (some x) a e = let same : x ≡ a = cc e in rw same refl

-- A request that passes the checks, and what the handler builds from it.
pub record Checks (h : Checkout) (rows : List Schedule) (req : CreateRequest) (s : Schedule)
    (items : List ScheduleItem) : Type 0 where
  pub anchor : Date
  pub discount : ℕ
  pub passed : checked_request h req ≡ ok (anchor, discount)
  pub items_listed :
      checked_items (h.new_item_id rows) (h.new_schedule_id rows) 0 req.items ≡ ok items
  pub schedule_is : s ≡ new_schedule req (h.new_schedule_id rows) anchor discount

pub validated-Checks :
    (h : Checkout) (rows : List Schedule) (req : CreateRequest) (s : Schedule)
    (items : List ScheduleItem)
    → validated h rows req ≡ ok (s, items)
    → Checks h rows req s items
unfolding validated
validated-Checks h rows req s items e =
    let (q, found, e1) = after_ok (checked_request h req) _ _ e in
    let (its, listed, e2) =
      after_ok (checked_items (h.new_item_id rows) (h.new_schedule_id rows) 0 req.items) _ _ e1 in
    let same : (new_schedule req (h.new_schedule_id rows) q.0 q.1, its) ≡ (s, items) = cc e2 in
    record {
      anchor = q.0;
      discount = q.1;
      passed = found;
      items_listed = items_of its listed (ap (λ (x : Schedule × List ScheduleItem). x.1) same);
      schedule_is = sym (ap (λ (x : Schedule × List ScheduleItem). x.0) same);
    }
  where
    items_of :
        (its : List ScheduleItem)
        → checked_items (h.new_item_id rows) (h.new_schedule_id rows) 0 req.items ≡ ok its
        → its ≡ items
        → checked_items (h.new_item_id rows) (h.new_schedule_id rows) 0 req.items ≡ ok items
    items_of its e same = e ∙ ap ok same

record RequestOk (h : Checkout) (req : CreateRequest) (anchor : Date) : Type 0 where
  interval : validate_interval req.interval_days ≡ ok tt
  anchor_read : parse_date req.anchor_date ≡ some anchor

checked_request-RequestOk :
    (h : Checkout) (req : CreateRequest) (anchor : Date) (discount : ℕ)
    → checked_request h req ≡ ok (anchor, discount)
    → RequestOk h req anchor
unfolding checked_request
checked_request-RequestOk h req anchor discount e =
    let (u1, f1, e1) = after_ok (present "customer_id is required" req.customer_id) _ _ e in
    let (u2, f2, e2) = after_ok (validate_email h.parses req.customer_email) _ _ e1 in
    let (u3, f3, e3) =
      after_ok (present "origin_order_id is required" req.origin_order_id) _ _ e2 in
    let (u4, f4, e4) = after_ok (validate_interval req.interval_days) _ _ e3 in
    let (d, f5, e5) =
      after_ok (or_message "anchor_date must be YYYY-MM-DD" (parse_date req.anchor_date)) _ _ e4 in
    let (u6, f6, e6) = after_ok (present "timezone is required" req.timezone) _ _ e5 in
    let (u7, f7, e7) =
      after_ok (require "timezone must be a valid IANA name" (h.zone_exists req.timezone)) _ _ e6 in
    let (u8, f8, e8) =
      after_ok (require "at least one item is required" (some_items req.items)) _ _ e7 in
    let (n, f9, e9) = after_ok (h.normalize_discount_pct req.discount_pct) _ _ e8 in
    let same : (d, n) ≡ (anchor, discount) = cc e9 in
    record {
      interval = f4;
      anchor_read =
          or_message-some _ (parse_date req.anchor_date) d f5
          ∙ ap (λ (x : Date × ℕ). some x.0) same;
    }

-- The schedule that the handler builds meets the constraints of its row.
pub Checks-ScheduleOk :
    (h : Checkout) (rows : List Schedule) (req : CreateRequest) (s : Schedule)
    (items : List ScheduleItem)
    → Checks h rows req s items
    → s.discount_hundredths ≤ 10000
    → ScheduleOk s
Checks-ScheduleOk h rows req s items c in_range =
    let good = checked_request-RequestOk h req c.anchor c.discount c.passed in
    subst (λ (x : Schedule). x.discount_hundredths ≤ 10000 → ScheduleOk x) (sym c.schedule_is)
      (λ low. record {
        interval_ok = good.interval;
        discount_ok = low;
        anchor_ok = (parse_date_shown req.anchor_date c.anchor good.anchor_read).0;
        pause_ok = λ e. absurd cc;
      })
      in_range

create_steps-Keeps :
    (h : Checkout) (s : Schedule) (items : List ScheduleItem)
    → (s.discount_hundredths ≤ 10000 → ScheduleOk s)
    → Keeps (create_steps h s items in_transaction)
unfolding create_steps
create_steps-Keeps h s items k =
    continue-Keeps (create_schedule h.zone_exists in_transaction s items) _
      (create_schedule-Keeps h.zone_exists s items k) λ u. append_event-Keeps (created_event s)

existing_items_same :
    (s : Schedule) (r : Result (List ScheduleItem) × Db) → (existing_items s r).1 ≡ r.1
existing_items_same s (ok items, d) = refl
existing_items_same s (err e, d) = refl

pub existing_reply_same : (h : Checkout) (r : Result Schedule × Db) → (existing_reply h r).1 ≡ r.1
existing_reply_same h (ok s, d) =
    existing_items_same s (list_schedule_items h.item_reads s.id _ d)
    ∙ list_schedule_items_same h.item_reads s.id _ d
existing_reply_same h (err e, d) = refl

created_reply_same :
    (h : Checkout) (origin : Text) (s : Schedule) (items : List ScheduleItem)
    (r : Result (Unit {0}) × Db)
    → (created_reply h origin s items r).1 ≡ r.1
unfolding get_schedule_by_origin_order_id
created_reply_same h origin s items (ok tt, d) = refl
created_reply_same h origin s items (err not_found, d) = refl
created_reply_same h origin s items (err no_transaction, d) = refl
created_reply_same h origin s items (err duplicate_occurrence, d) = refl
created_reply_same h origin s items (err duplicate_schedule, d) =
    existing_reply_same h (get_schedule_by_origin_order_id origin d)
created_reply_same h origin s items (err (transition a b m), d) = refl
created_reply_same h origin s items (err (invalid m), d) = refl

commit-WellFormed :
    {A : Type 0} (db : Db) (r : Result A × Db)
    → WellFormed db
    → WellFormed r.1
    → WellFormed (commit_or_rollback db r).1
commit-WellFormed db (ok a, d) w v = v
commit-WellFormed db (err x, d) w v = w

create_validated-WellFormed :
    (h : Checkout) (req : CreateRequest) (db : Db) (r : Result (Schedule × List ScheduleItem))
    → validated h db.schedules req ≡ r
    → WellFormed db
    → WellFormed (create_validated h req.origin_order_id r db).1
unfolding in_tx
create_validated-WellFormed h req db (err x) e w = w
create_validated-WellFormed h req db (ok (s, items)) e w =
    let valid =
      Checks-ScheduleOk h db.schedules req s items
        (validated-Checks h db.schedules req s items e) in
    subst WellFormed
      (sym
        (created_reply_same h req.origin_order_id s items (in_tx pool (create_steps h s items) db)))
      (commit-WellFormed {A = Unit {0}} db (create_steps h s items in_transaction db) w
        (create_steps-Keeps h s items valid db w))

-- The creation of a schedule keeps the constraints of the tables, however it is answered.
pub create_handler-WellFormed :
    (h : Checkout) (body : Incoming CreateRequest) (db : Db)
    → WellFormed db
    → WellFormed (create_handler h body db).1
unfolding create_handler
create_handler-WellFormed h body db w = go (decode_json body)
  where
    go : (r : Result CreateRequest) → WellFormed (create_decoded h r db).1
    go (err x) = w
    go (ok req) = create_validated-WellFormed h req db (validated h db.schedules req) refl w
