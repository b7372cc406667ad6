-- ===== src/Store/Schedules.antt =====
-- The statements on the tables `schedules` and `schedule_items` (internal/store/store.go).
use replenishment_system.Common.{
  ℕ, ◌+◌, Bool, true, false, not, ◌&&◌, ◌||◌, Option, none, some, List, [], ◌∷◌, ◌++◌, ltb, ◌==◌,
  if◌then◌else◌,
}
use replenishment_system.Common.Int.{ℤ, pos}
use replenishment_system.Common.Text.{Text, text_eq}
use replenishment_system.Calendar.{Date, add_days, before, after}
use replenishment_system.Domain.Types.{
  ScheduleStatus, OccurrenceStatus, Schedule, ScheduleItem, Occurrence, not_found, no_transaction,
  duplicate_schedule, invalid, Result, ok, err, status_is_active,
}
use replenishment_system.Domain.Cadence.{validate_interval}
use replenishment_system.Domain.Transitions.{arm_window_days}
use replenishment_system.Store.Rows.{select, update_rows, exists_row, first_row, order_by}
use replenishment_system.Store.Db.{
  Db, Store, Conn, pool, in_transaction, pure, raise, lift, gets, ◌>>◌, in_tx,
}
use replenishment_system.Store.Scope.{Scope, filter_own, filter_via}

abbrev pub status_is_paused : ScheduleStatus → Bool
status_is_paused ScheduleStatus.paused = true
status_is_paused _ = false

abbrev pub with_id : Text → Schedule → Bool
with_id id s = text_eq s.id id

abbrev or_not_found {ℓ} : {A : Type ℓ} → Option A → Result A
or_not_found none = err not_found
or_not_found (some a) = ok a

unfoldable pub get_schedule : Text → Scope → Store Schedule
get_schedule id scope db =
    (or_not_found (first_row (select (λ s. with_id id s && filter_own scope s) db.schedules)), db)

unfoldable pub get_schedule_by_origin_order_id : Text → Store Schedule
get_schedule_by_origin_order_id origin db = (
  or_not_found
      (first_row (select (λ (s : Schedule). text_eq s.origin_order_id origin) db.schedules)),
  db,
)

-- The row lock itself needs no state: a transaction of the model runs with no other in between.
unfoldable pub get_schedule_for_update : Conn → Text → Scope → Store Schedule
get_schedule_for_update pool id scope = raise no_transaction
get_schedule_for_update in_transaction id scope = get_schedule id scope

unfoldable pub list_schedules_by_customer : Text → Store (List Schedule)
list_schedules_by_customer customer_id = gets λ db.
    order_by (λ (a b : Schedule). ltb a.created_at b.created_at)
      (select (λ (s : Schedule). text_eq s.customer_id customer_id) db.schedules)

-- NULLS FIRST, and then by date.
abbrev next_run_before : Option Date → Option Date → Bool
next_run_before none none = false
next_run_before none (some e) = true
next_run_before (some d) none = false
next_run_before (some d) (some e) = before d e

active_order : Schedule → Schedule → Bool
active_order a b =
    if next_run_before a.next_run_date b.next_run_date
    then true
    else if next_run_before b.next_run_date a.next_run_date
    then false
    else ltb a.created_at b.created_at

unfoldable pub list_active_schedules : Store (List Schedule)
unfolding active_order
list_active_schedules =
    gets λ db.
      order_by active_order (select (λ (s : Schedule). status_is_active s.status) db.schedules)

abbrev pub due_by : Date → Option Date → Bool
due_by limit none = false
due_by limit (some d) = not (after d limit)

abbrev paused_order : Schedule → Schedule → Bool
paused_order a b =
    if next_run_before a.paused_until b.paused_until
    then true
    else if next_run_before b.paused_until a.paused_until
    then false
    else ltb a.created_at b.created_at

unfoldable pub list_schedules_due_to_resume : Date → Store (List Schedule)
list_schedules_due_to_resume on = gets λ db. order_by paused_order (
    select
      (λ (s : Schedule). status_is_paused s.status && due_by (add_days on (pos 1)) s.paused_until)
      db.schedules)

abbrev pub status_is_planned : OccurrenceStatus → Bool
status_is_planned OccurrenceStatus.planned = true
status_is_planned _ = false

-- The order by id is that of the uuids; `id_less` stands for it.
unfoldable pub list_schedules_due_to_arm : (Text → Text → Bool) → Date → Store (List Schedule)
list_schedules_due_to_arm id_less on = gets λ db.
    let limit = add_days on (pos (arm_window_days + 1)) in
    order_by (λ (a b : Schedule). id_less a.id b.id)
      (select
        (λ (s : Schedule).
          status_is_active s.status
          && exists_row
              (λ (o : Occurrence).
                text_eq o.schedule_id s.id
                && (status_is_planned o.status && not (after o.scheduled_for limit)))
              db.occurrences)
        db.schedules)

-- How the table of items is read: the database's order on texts, and whether the connection breaks
-- in the query for a schedule.
pub record ItemReads : Type 0 where
  pub text_less : Text → Text → Bool
  pub breaks : Text → Db → Bool

abbrev pub items_of : ItemReads → Text → Scope → Db → List ScheduleItem
items_of reads schedule_id scope db =
    order_by (λ (a b : ScheduleItem). reads.text_less a.sku b.sku)
      (select
        (λ (it : ScheduleItem).
          text_eq it.schedule_id schedule_id && filter_via scope db it.schedule_id)
        db.items)

unfoldable pub list_schedule_items : ItemReads → Text → Scope → Store (List ScheduleItem)
list_schedule_items reads schedule_id scope db =
    if reads.breaks schedule_id db
    then (err (invalid "list schedule items"), db)
    else (ok (items_of reads schedule_id scope db), db)

-- UPDATE schedules SET … WHERE id = $1, with `checkAffected`.
unfoldable pub update_schedule : Text → (Schedule → Schedule) → Store (Unit {0})
update_schedule id f db =
    if exists_row (with_id id) db.schedules
    then (ok tt, record db { schedules = update_rows (with_id id) f db.schedules })
    else (err not_found, db)

unfoldable pub update_schedule_next_run : Text → Option Date → Store (Unit {0})
update_schedule_next_run id next = update_schedule id (λ s. record s { next_run_date = next })

abbrev pub is_some {ℓ} : {A : Type ℓ} → Option A → Bool
is_some none = false
is_some (some a) = true

unfoldable pub update_schedule_status : Text → ScheduleStatus → Option Date → Store (Unit {0})
update_schedule_status id status paused_until =
    if not (status_is_paused status) && is_some paused_until
    then raise (invalid "paused_until is only valid on a paused schedule")
    else update_schedule id (λ s. record s { status = status; paused_until = paused_until })

unfoldable pub update_schedule_cadence : Text → ℤ → Date → Store (Unit {0})
update_schedule_cadence id interval_days anchor = do
  lift (validate_interval interval_days)
  update_schedule id (λ s. record s { interval_days = interval_days; anchor_date = anchor })

-- INSERT INTO schedules, with the constraint schedules_origin_order_id_unique, the primary key and
-- the default now() of `created_at`.
unfoldable pub insert_schedule : Schedule → Store (Unit {0})
insert_schedule s db =
    if exists_row (λ (row : Schedule). text_eq row.origin_order_id s.origin_order_id) db.schedules
    then (err duplicate_schedule, db)
    else if exists_row (with_id s.id) db.schedules
    then (err (invalid "insert schedule"), db)
    else (ok tt, record db { schedules = db.schedules ++ record s { created_at = db.clock } ∷ [] })

abbrev pub max_integer : ℕ
max_integer = 2147483647

-- What the table of items refuses: the primary key, schedule_items_unique_sku,
-- schedule_items_quantity_positive, a quantity that the column's 32 bits do not hold, and a schedule
-- that is not there.
unfoldable pub item_refused : Text → ScheduleItem → Db → Bool
item_refused schedule_id it db =
    exists_row (λ (row : ScheduleItem). text_eq row.id it.id) db.items
    || (exists_row
          (λ (row : ScheduleItem). text_eq row.schedule_id schedule_id && text_eq row.sku it.sku)
          db.items
        || ((it.quantity == 0)
            || (ltb max_integer it.quantity
                || not (exists_row (with_id schedule_id) db.schedules))))

-- INSERT INTO schedule_items.
unfoldable pub insert_item : Text → ScheduleItem → Store (Unit {0})
insert_item schedule_id it db =
    if item_refused schedule_id it db
    then (err (invalid "insert schedule item"), db)
    else (ok tt, record db { items = db.items ++ record it { schedule_id = schedule_id } ∷ [] })

unfoldable pub insert_items : Text → List ScheduleItem → Store (Unit {0})
insert_items schedule_id [] = pure tt
insert_items schedule_id (it ∷ rest) =
    let others = insert_items schedule_id rest in do insert_item schedule_id it; others

-- `zone_exists` is `time.LoadLocation` without an error. The discount is in hundredths, so
-- `NormalizeDiscountPct` has only its range left to test.
unfoldable pub create_schedule :
    (Text → Bool) → Conn → Schedule → List ScheduleItem → Store (Unit {0})
unfolding insert_items
create_schedule zone_exists conn s items = do
  lift (validate_interval s.interval_days)
  if ltb 10000 s.discount_hundredths
      then raise (invalid "discount_pct must be between 0 and 100")
      else if not (zone_exists s.timezone)
      then raise (invalid "invalid timezone")
      else in_tx conn (λ tx. do insert_schedule s; insert_items s.id items)
