-- ===== src/Http/Router/Shown.antt =====
-- What the reads of internal/httpapi show of the tables.
use replenishment_system.Common.{
  ◌≡◌, refl, sym, subst, arith, Bool, true, false, List, map, and_left, if◌then◌else◌,
}
use replenishment_system.Common.Lists.{All}
use replenishment_system.Common.Text.{Text, text_eq_sound}
use replenishment_system.Domain.Types.{
  Schedule, ScheduleItem, Occurrence, Error, invalid, Result, ok, err,
}
use replenishment_system.Store.Rows.{In}
use replenishment_system.Store.Rows.Laws.{In-All, In-select, In-order_by}
use replenishment_system.Store.Db.{Db}
use replenishment_system.Store.Scope.{Scope, customer_scope, filter_own}
use replenishment_system.Store.Schedules.{ItemReads, items_of, get_schedule, list_schedule_items}
use replenishment_system.Store.Occurrences.{list_occurrences}
use replenishment_system.Store.Steps.Reads.{list_schedule_items_same}
use replenishment_system.Service.Requests.{get_schedule-found}
use replenishment_system.Service.Own.{Owns}
use replenishment_system.Http.{
  Response, Body, error, one_schedule, many_schedules, upcoming, ScheduleResponse,
  OccurrenceResponse, to_response,
}
use replenishment_system.Http.Schedules.{items_reply, occurrences_reply, occurrence_response}

-- An item of the table that belongs to schedule `id`.
abbrev pub ItemOf : Text → Db → ScheduleItem → Type 0
ItemOf id db it = In it db.items × (it.schedule_id ≡ id)

-- A row of the table that belongs to the customer.
abbrev pub RowOf : Text → Db → Schedule → Type 0
RowOf c db s = In s db.schedules × (s.customer_id ≡ c)

-- What is shown is a row of the customer, with items of that schedule and no other.
pub record ScheduleShown (c : Text) (db : Db) (r : ScheduleResponse) : Type 0 where
  pub row : Schedule
  pub items : List ScheduleItem
  pub row_own : RowOf c db row
  pub items_own : All (ItemOf row.id db) items
  pub response_is : r ≡ to_response row items

-- An order of the table that belongs to schedule `id`.
abbrev pub OrderOf : Text → Db → Occurrence → Type 0
OrderOf id db o = In o db.occurrences × (o.schedule_id ≡ id)

-- What is shown are orders of one schedule, and the customer owns it.
pub record QueueShown (c : Text) (db : Db) (rs : List OccurrenceResponse) : Type 0 where
  pub id : Text
  pub orders : List Occurrence
  pub owned : Owns (customer_scope c) id db
  pub orders_own : All (OrderOf id db) orders
  pub response_is : rs ≡ map occurrence_response orders

-- A body shows nothing but schedules of this customer in the tables, each with items of its own,
-- and a queue only with orders of such a schedule.
abbrev pub Shows : Text → Db → Body → Type 0
Shows c db (error message) = Unit {0}
Shows c db (one_schedule r) = ScheduleShown c db r
Shows c db (many_schedules rs) = All (ScheduleShown c db) rs
Shows c db (upcoming rs) = QueueShown c db rs

-- A response against the database that it leaves.
abbrev pub Reply : Text → Response × Db → Type 0
Reply c r = Shows c r.1 r.0.body

filter_own_sound :
    (c : Text) (s : Schedule) → filter_own (customer_scope c) s ≡ true → s.customer_id ≡ c
unfolding filter_own
filter_own_sound c s e = text_eq_sound s.customer_id c (ground arith)

pub found_own :
    (c id : Text) (db : Db) (s : Schedule)
    → (get_schedule id (customer_scope c) db).0 ≡ ok s
    → RowOf c db s
found_own c id db s e =
    let (named, seen, there) = get_schedule-found id (customer_scope c) db s e in
    (there, filter_own_sound c s seen)

items_of-own :
    (reads : ItemReads) (id : Text) (scope : Scope) (db : Db)
    → All (ItemOf id db) (items_of reads id scope db)
items_of-own reads id scope db = In-All (ItemOf id db) _ λ it i.
    let (there, found) = In-select _ it db.items (In-order_by _ it _ i) in
    (there, text_eq_sound it.schedule_id id (and_left _ _ found))

read_or_lost :
    (b : Bool) (x : Error) (id : Text) (db : Db) (found items : List ScheduleItem)
    (lost read : Result (List ScheduleItem) × Db)
    → lost.0 ≡ err x
    → read.0 ≡ ok found
    → All (ItemOf id db) found
    → (if b then lost else read).0 ≡ ok items
    → All (ItemOf id db) items
read_or_lost true x id db found items lost read l r h e = absurd cc
read_or_lost false x id db found items lost read l r h e =
    let same : found ≡ items = cc (r, e) in subst (All (ItemOf id db)) same h

pub list_schedule_items-own :
    (reads : ItemReads) (id : Text) (scope : Scope) (db : Db) (items : List ScheduleItem)
    → (list_schedule_items reads id scope db).0 ≡ ok items
    → All (ItemOf id db) items
unfolding list_schedule_items
list_schedule_items-own reads id scope db items e =
    read_or_lost (reads.breaks id db) (invalid "list schedule items") id db
      (items_of reads id scope db) items _ _ refl refl (items_of-own reads id scope db) e

-- A row of the customer, shown with what the read of its items answers.
read-Reply :
    (c : Text) (s : Schedule) (r : Result (List ScheduleItem) × Db)
    → RowOf c r.1 s
    → ((items : List ScheduleItem) → r.0 ≡ ok items → All (ItemOf s.id r.1) items)
    → Reply c (items_reply s r)
read-Reply c s (ok items, db) own k = record {
  row = s;
  items = items;
  row_own = own;
  items_own = k items refl;
  response_is = refl;
}
read-Reply c s (err x, db) own k = tt

pub items_reply-Reply :
    (c : Text) (s : Schedule) (reads : ItemReads) (scope : Scope) (db : Db)
    → RowOf c db s
    → Reply c (items_reply s (list_schedule_items reads s.id scope db))
items_reply-Reply c s reads scope db own =
    let same = list_schedule_items_same reads s.id scope db in
    read-Reply c s (list_schedule_items reads s.id scope db)
      (subst (λ d. RowOf c d s) (sym same) own)
      λ items e.
        subst (λ d. All (ItemOf s.id d) items) (sym same)
          (list_schedule_items-own reads s.id scope db items e)

pub occurrences_reply-Reply :
    (c id : Text) (db : Db)
    → Owns (customer_scope c) id db
    → Reply c (occurrences_reply (list_occurrences id (customer_scope c) db))
unfolding list_occurrences
occurrences_reply-Reply c id db owned = record {
  id = id;
  orders = _;
  owned = owned;
  orders_own = In-All (OrderOf id db) _ λ o i.
      let (there, found) = In-select _ o db.occurrences (In-order_by _ o _ i) in
      (there, text_eq_sound o.schedule_id id (and_left _ _ found));
  response_is = refl;
}
