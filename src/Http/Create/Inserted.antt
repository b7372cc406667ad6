-- ===== src/Http/Create/Inserted.antt =====
-- What a successful `Create` of internal/httpapi/schedules.go has written, and its statements run
-- once more.
use replenishment_system.Common.{
  ℕ, ◌≡◌, refl, sym, ap, ◌∙◌, arith, Bool, true, false, not, List, [], ◌∷◌, ◌++◌, Bool-cases, inl,
  inr, ltb, if◌then◌else◌,
}
use replenishment_system.Calendar.{Date}
use replenishment_system.Common.Text.{Text, text_eq, text_eq_refl}
use replenishment_system.Domain.Types.{
  Schedule, ScheduleItem, ScheduleEvent, Outcome, Error, duplicate_schedule, invalid, Result, ok,
  err,
}
use replenishment_system.Domain.Cadence.{validate_interval}
use replenishment_system.Store.Rows.{select, exists_row, first_row}
use replenishment_system.Store.Db.{Db, Store, in_transaction, in_tx, continue_with, raise, >>=-runs}
use replenishment_system.Store.Schedules.{
  create_schedule, insert_schedule, insert_items, insert_item, get_schedule_by_origin_order_id,
  with_id,
}
use replenishment_system.Store.Events.{append_event}
use replenishment_system.Http.Create.Filed.{
  filed, insert_schedule-items, append_event-items, insert_items-items,
}
use replenishment_system.Http.Create.{
  Checkout, CreateRequest, new_schedule, create_steps, created_event,
}

abbrev has_origin : Text → Schedule → Bool
has_origin origin row = text_eq row.origin_order_id origin

-- A statement that leaves the table of schedules.
abbrev Leaves : {A : Type 0} → Store A → Type 0
Leaves m = (db : Db) → (m db).1.schedules ≡ db.schedules

if-Leaves :
    {A : Type 0} (db : Db) (b : Bool) (x y : A × Db)
    → x.1.schedules ≡ db.schedules
    → y.1.schedules ≡ db.schedules
    → (if b then x else y).1.schedules ≡ db.schedules
if-Leaves db true x y h k = h
if-Leaves db false x y h k = k

continue-Leaves :
    {A B : Type 0} (db : Db) (r : Result A × Db) (f : A → Store B)
    → r.1.schedules ≡ db.schedules
    → ((a : A) → Leaves (f a))
    → (continue_with r f).1.schedules ≡ db.schedules
continue-Leaves db (ok a, d) f e k = k a d ∙ e
continue-Leaves db (err x, d) f e k = e

insert_item-Leaves : (id : Text) (it : ScheduleItem) → Leaves (insert_item id it)
unfolding insert_item
insert_item-Leaves id it db = if-Leaves db _ _ _ refl refl

insert_items-Leaves : (id : Text) (items : List ScheduleItem) → Leaves (insert_items id items)
unfolding insert_items
insert_items-Leaves id [] db = refl
insert_items-Leaves id (it ∷ its) db =
    continue-Leaves db (insert_item id it db) _ (insert_item-Leaves id it db)
      λ u. insert_items-Leaves id its

append_event-Leaves : (e : ScheduleEvent) → Leaves (append_event e)
unfolding append_event
append_event-Leaves e db = if-Leaves db _ _ _ refl refl

-- What the insertion of a schedule has met and leaves.
pub record Inserted (s : Schedule) (db : Db) (rows : List Schedule) : Type 0 where
  pub free : exists_row (has_origin s.origin_order_id) db.schedules ≡ false
  pub new : exists_row (with_id s.id) db.schedules ≡ false
  pub rows_are : rows ≡ db.schedules ++ record s { created_at = db.clock } ∷ []

insert_schedule-Inserted :
    (s : Schedule) (db : Db)
    → (insert_schedule s db).0 ≡ ok tt
    → Inserted s db (insert_schedule s db).1.schedules
unfolding insert_schedule
insert_schedule-Inserted s db e =
    elim (Bool-cases (exists_row (has_origin s.origin_order_id) db.schedules)) [
      | inl taken ↦ absurd (let bad : err duplicate_schedule ≡ ok tt = rw taken at e in cc)
      | inr free ↦ elim (Bool-cases (exists_row (with_id s.id) db.schedules)) [
        | inl taken ↦
            absurd (let bad : err (invalid "insert schedule") ≡ ok tt = rw (free, taken) at e in cc)
        | inr new ↦ rw (free, new) (record { free = free; new = new; rows_are = refl })
      ]
    ]

pub record Created (h : Checkout) (s : Schedule) (items : List ScheduleItem) (db db' : Db)
    : Type 0 where
  pub interval : validate_interval s.interval_days ≡ ok tt
  pub discount_in : ltb 10000 s.discount_hundredths ≡ false
  pub zone_known : not (h.zone_exists s.timezone) ≡ false
  pub inserted : Inserted s db db'.schedules
  pub items_are : db'.items ≡ db.items ++ filed s.id items

choose_ok :
    {A : Type 0} (b : Bool) (x : Error) (m : Store A) (db : Db) (a : A)
    → ((if b then raise x else m) db).0 ≡ ok a
    → (b ≡ false) × ((if b then raise x else m) db ≡ m db)
choose_ok true x m db a e = absurd cc
choose_ok false x m db a e = (refl, refl)

lift_ok_unit :
    {B : Type 0} (r : Outcome) (m : Store B) (db : Db) (b : B)
    → (continue_with (r, db) λ u. m).0 ≡ ok b
    → (r ≡ ok tt) × (continue_with (r, db) (λ u. m) ≡ m db)
lift_ok_unit (ok tt) m db b e = (refl, refl)
lift_ok_unit (err x) m db b e = absurd cc

create_schedule-Created :
    (h : Checkout) (s : Schedule) (items : List ScheduleItem) (db : Db)
    → (create_schedule h.zone_exists in_transaction s items db).0 ≡ ok tt
    → Created h s items db (create_schedule h.zone_exists in_transaction s items db).1
unfolding create_schedule in_tx
create_schedule-Created h s items db e =
    let inserts : Store (Unit {0}) =
      λ d. continue_with (insert_schedule s d) λ u. insert_items s.id items in
    let (v, run1) = lift_ok_unit (validate_interval s.interval_days) _ db tt e in
    let (d, run2) =
      choose_ok (ltb 10000 s.discount_hundredths) _ _ db tt (ap (λ r. r.0) (sym run1) ∙ e) in
    let (z, run3) =
      choose_ok (not (h.zone_exists s.timezone)) _ inserts db tt
        (ap (λ r. r.0) (sym run2) ∙ ap (λ r. r.0) (sym run1) ∙ e) in
    let (u, first, run4) =
      >>=-runs (insert_schedule s) (λ u. insert_items s.id items) db tt
        (ap (λ r. r.0) (sym run3) ∙ ap (λ r. r.0) (sym run2) ∙ ap (λ r. r.0) (sym run1) ∙ e) in
    let i = insert_schedule-Inserted s db first in
    record {
      interval = v;
      discount_in = d;
      zone_known = z;
      inserted = record {
        free = i.free;
        new = i.new;
        rows_are =
            ap (λ (r : Result (Unit {0}) × Db). r.1.schedules) (run1 ∙ run2 ∙ run3 ∙ run4)
            ∙ insert_items-Leaves s.id items (insert_schedule s db).1
            ∙ i.rows_are;
      };
      items_are =
          ap (λ (r : Result (Unit {0}) × Db). r.1.items) (run1 ∙ run2 ∙ run3 ∙ run4)
          ∙ insert_items-items s.id items (insert_schedule s db).1
              (ap (λ (r : Result (Unit {0}) × Db). r.0) (sym (run1 ∙ run2 ∙ run3 ∙ run4)) ∙ e)
          ∙ ap (λ xs. xs ++ filed s.id items) (insert_schedule-items s db);
    }

pub create_steps-Created :
    (h : Checkout) (s : Schedule) (items : List ScheduleItem) (db : Db)
    → (create_steps h s items in_transaction db).0 ≡ ok tt
    → Created h s items db (create_steps h s items in_transaction db).1
unfolding create_steps
create_steps-Created h s items db e =
    let (u, first, run) =
      >>=-runs (create_schedule h.zone_exists in_transaction s items)
        (λ u. append_event (created_event s)) db tt e in
    let c = create_schedule-Created h s items db first in
    record {
      interval = c.interval;
      discount_in = c.discount_in;
      zone_known = c.zone_known;
      inserted = record {
        free = c.inserted.free;
        new = c.inserted.new;
        rows_are =
            ap (λ (r : Result (Unit {0}) × Db). r.1.schedules) run
            ∙ append_event-Leaves (created_event s) _
            ∙ c.inserted.rows_are;
      };
      items_are =
          ap (λ (r : Result (Unit {0}) × Db). r.1.items) run
          ∙ append_event-items (created_event s) _
          ∙ c.items_are;
    }

exists_row-last :
    (p : Schedule → Bool) (rows : List Schedule) (x : Schedule)
    → p x ≡ true
    → exists_row p (rows ++ x ∷ []) ≡ true
unfolding exists_row
exists_row-last p [] x e = rw e refl
exists_row-last p (y ∷ rows) x e = ground (arith, exists_row-last p rows x e)

select-last :
    (p : Schedule → Bool) (rows : List Schedule) (x : Schedule)
    → exists_row p rows ≡ false
    → p x ≡ true
    → select p (rows ++ x ∷ []) ≡ x ∷ []
unfolding exists_row select
select-last p [] x none_there e = rw e refl
select-last p (y ∷ rows) x none_there e = ground (arith, select-last p rows x)

-- The row that the first of two equal requests has inserted.
abbrev pub stored : CreateRequest → Text → Date → ℕ → Db → Schedule
stored req id anchor discount db = record (new_schedule req id anchor discount) {
  created_at = db.clock;
}

module _ (h : Checkout) (req : CreateRequest) (id again : Text) (anchor : Date) (discount : ℕ)
    (filed_items : List ScheduleItem) (db db' : Db)
    (c : Created h (new_schedule req id anchor discount) filed_items db db') where
  pub second_refused :
      (items : List ScheduleItem)
      → (create_steps h (new_schedule req again anchor discount) items in_transaction db').0
        ≡ err duplicate_schedule
  unfolding create_steps create_schedule in_tx insert_schedule
  second_refused items =
      let taken : exists_row (has_origin req.origin_order_id) db'.schedules ≡ true =
        rw c.inserted.rows_are (
          exists_row-last (has_origin req.origin_order_id) db.schedules
            (stored req id anchor discount db) (text_eq_refl req.origin_order_id)) in
      rw (c.interval, c.discount_in, c.zone_known, taken) refl

  pub found_again :
      get_schedule_by_origin_order_id req.origin_order_id db'
      ≡ (ok (stored req id anchor discount db), db')
  unfolding get_schedule_by_origin_order_id first_row
  found_again =
      let only : select (has_origin req.origin_order_id) db'.schedules
          ≡ stored req id anchor discount db ∷ [] =
        rw c.inserted.rows_are (
          select-last (has_origin req.origin_order_id) db.schedules
            (stored req id anchor discount db) c.inserted.free
            (text_eq_refl req.origin_order_id)) in
      rw only refl
