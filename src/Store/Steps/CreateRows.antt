-- ===== src/Store/Steps/CreateRows.antt =====
-- The statements of `CreateSchedule` of internal/store/store.go keep the constraints of the tables.
use replenishment_system.Common.{
  ◌≤◌, ◌≡◌, ◌≢◌, ◌&&◌, ◌++◌, arith, refl, Bool, true, false, not, List, [], ◌∷◌, ltb, if◌then◌else◌,
}
use replenishment_system.Common.Text.{Text, text_eq, text_eq_ne, text_eq_refl}
use replenishment_system.Domain.Types.{Schedule, ScheduleItem, ScheduleEvent, Result, ok, err}
use replenishment_system.Domain.Cadence.{validate_interval}
use replenishment_system.Store.Rows.{exists_row}
use replenishment_system.Store.Rows.Laws.{
  All-append_row, All-In, In-All, All-map, exists_row-false, exists_row-append,
}
use replenishment_system.Store.Db.{Db, Store, in_transaction, in_tx, continue_with, lift}
use replenishment_system.Store.Schedules.{
  create_schedule, insert_schedule, insert_items, insert_item, item_refused, with_id,
}
use replenishment_system.Store.Events.{append_event}
use replenishment_system.Store.Integrity.{
  ScheduleOk, ItemOk, SchedulesApart, ItemsApart, ItemsOk, WellFormed,
}
use replenishment_system.Store.Rows.Unique.{Unique-append_row}
use replenishment_system.Store.Steps.ScheduleRows.{append_event-Does}

-- A sequence of statements that keeps the constraints of the tables, also when it fails.
abbrev pub Keeps : {A : Type 0} → Store A → Type 0
Keeps m = (db : Db) → WellFormed db → WellFormed (m db).1

if-WellFormed :
    {A : Type 0} (b : Bool) (x y : A × Db)
    → (b ≡ true → WellFormed x.1)
    → (b ≡ false → WellFormed y.1)
    → WellFormed (if b then x else y).1
if-WellFormed true x y h k = h refl
if-WellFormed false x y h k = k refl

continue-WellFormed :
    {A B : Type 0} (r : Result A × Db) (f : A → Store B)
    → WellFormed r.1
    → ((a : A) → Keeps (f a))
    → WellFormed (continue_with r f).1
continue-WellFormed (ok a, db) f w k = k a db w
continue-WellFormed (err x, db) f w k = w

insert_schedule-Keeps : (s : Schedule) → ScheduleOk s → Keeps (insert_schedule s)
unfolding insert_schedule
insert_schedule-Keeps s k db w =
    if-WellFormed
      (exists_row (λ (row : Schedule). text_eq row.origin_order_id s.origin_order_id) db.schedules)
      _ _ (λ taken. w)
      λ new_origin.
        if-WellFormed (exists_row (with_id s.id) db.schedules) _ _ (λ taken. w)
          λ new_id. record {
            schedules_ok = All-append_row ScheduleOk db.schedules _ w.schedules_ok (record {
              interval_ok = k.interval_ok;
              discount_ok = k.discount_ok;
              anchor_ok = k.anchor_ok;
              pause_ok = k.pause_ok;
            });
            schedules_unique = Unique-append_row SchedulesApart db.schedules _ w.schedules_unique (
                In-All _ db.schedules λ x i. (
                  text_eq_ne x.id s.id
                      (All-In _ x db.schedules (exists_row-false _ db.schedules new_id) i),
                  text_eq_ne x.origin_order_id s.origin_order_id
                      (All-In _ x db.schedules (exists_row-false _ db.schedules new_origin) i),
                ));
            items_ok = record {
              each_ok = w.items_ok.each_ok;
              items_unique = w.items_ok.items_unique;
              owned =
                  All-map _ _ db.items
                    (λ it. exists_row-append (with_id it.schedule_id) db.schedules _)
                    w.items_ok.owned;
            };
            rows_ok = w.rows_ok;
            rows_unique = w.rows_unique;
            events_ok = w.events_ok;
          }

-- What an item that the table takes has passed.
record Accepted (id : Text) (it : ScheduleItem) (db : Db) : Type 0 where
  new_id : exists_row (λ (row : ScheduleItem). text_eq row.id it.id) db.items ≡ false
  new_sku :
      exists_row
        (λ (row : ScheduleItem). text_eq row.schedule_id id && text_eq row.sku it.sku)
        db.items
      ≡ false
  in_range : ItemOk it
  schedule_there : exists_row (with_id id) db.schedules ≡ true

item_refused-Accepted :
    (id : Text) (it : ScheduleItem) (db : Db) → item_refused id it db ≡ false → Accepted id it db
unfolding item_refused
item_refused-Accepted id it db h = record {
  new_id = ground arith;
  new_sku = ground arith;
  in_range = record { quantity_low = ground arith; quantity_high = ground arith };
  schedule_there = ground arith;
}

another_sku :
    (id : Text) (it x : ScheduleItem)
    → text_eq x.schedule_id id && text_eq x.sku it.sku ≡ false
    → x.schedule_id ≡ id
    → x.sku ≢ it.sku
another_sku id it x h s k =
    let both : text_eq x.schedule_id id && text_eq x.sku it.sku ≡ true =
      rw (s, k, text_eq_refl id, text_eq_refl it.sku) refl in
    absurd cc

append_item-ItemsOk :
    (id : Text) (it : ScheduleItem) (db : Db)
    → ItemsOk db.schedules db.items
    → Accepted id it db
    → ItemsOk db.schedules (db.items ++ record it { schedule_id = id } ∷ [])
append_item-ItemsOk id it db k a = record {
  each_ok =
      All-append_row ItemOk db.items _ k.each_ok (record {
        quantity_low = a.in_range.quantity_low;
        quantity_high = a.in_range.quantity_high;
      });
  items_unique = Unique-append_row ItemsApart db.items _ k.items_unique (
      In-All _ db.items λ x i. (
        text_eq_ne x.id it.id (All-In _ x db.items (exists_row-false _ db.items a.new_id) i),
        another_sku id it x (All-In _ x db.items (exists_row-false _ db.items a.new_sku) i),
      ));
  owned = All-append_row _ db.items _ k.owned a.schedule_there;
}

insert_item-Keeps : (id : Text) (it : ScheduleItem) → Keeps (insert_item id it)
unfolding insert_item
insert_item-Keeps id it db w =
    if-WellFormed (item_refused id it db) _ _ (λ refused. w)
      λ taken. record {
        schedules_ok = w.schedules_ok;
        schedules_unique = w.schedules_unique;
        items_ok = append_item-ItemsOk id it db w.items_ok (item_refused-Accepted id it db taken);
        rows_ok = w.rows_ok;
        rows_unique = w.rows_unique;
        events_ok = w.events_ok;
      }

insert_items-Keeps : (id : Text) (items : List ScheduleItem) → Keeps (insert_items id items)
unfolding insert_items
insert_items-Keeps id [] db w = w
insert_items-Keeps id (it ∷ its) db w =
    continue-WellFormed (insert_item id it db) _ (insert_item-Keeps id it db w)
      λ u. insert_items-Keeps id its

pub append_event-Keeps : (e : ScheduleEvent) → Keeps (append_event e)
append_event-Keeps e db w = ((append_event-Does e.schedule_id e refl).at db w).well_formed

pub continue-Keeps :
    {A B : Type 0} (m : Store A) (f : A → Store B)
    → Keeps m
    → ((a : A) → Keeps (f a))
    → Keeps (λ db. continue_with (m db) f)
continue-Keeps m f k n db w = continue-WellFormed (m db) f (k db w) n

choose-Keeps :
    {A : Type 0} (b : Bool) (x y : Store A)
    → Keeps x
    → (b ≡ false → Keeps y)
    → Keeps (if b then x else y)
choose-Keeps true x y h k = h
choose-Keeps false x y h k = k refl

pub create_schedule-Keeps :
    (zone_exists : Text → Bool) (s : Schedule) (items : List ScheduleItem)
    → (s.discount_hundredths ≤ 10000 → ScheduleOk s)
    → Keeps (create_schedule zone_exists in_transaction s items)
unfolding create_schedule in_tx
create_schedule-Keeps zone_exists s items k =
    continue-Keeps (lift (validate_interval s.interval_days)) _ (λ db w. w)
      λ u.
        choose-Keeps (ltb 10000 s.discount_hundredths) _ _ (λ db w. w)
          λ in_range.
            choose-Keeps (not (zone_exists s.timezone)) _ _ (λ db w. w)
              λ known.
                continue-Keeps (insert_schedule s) _
                  (insert_schedule-Keeps s (k (ground (arith, in_range))))
                  λ v. insert_items-Keeps s.id items
