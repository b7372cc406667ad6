-- ===== src/Http/Create/Filed.antt =====
-- The items that `CreateSchedule` of internal/store/store.go files under a schedule.
use mathlib.Core.List.{Perm, append-nil, append_assoc}
use mathlib.Core.List.Perm
use replenishment_system.Common.{
  ◌≡◌, refl, sym, ap, subst, ◌∙◌, arith, Bool, true, false, ◌&&◌, List, [], ◌∷◌, ◌++◌, map,
  Bool-cases, inl, inr,
}
use replenishment_system.Common.Lists.{All}
use replenishment_system.Common.Text.{Text, text_eq, text_eq_sound, text_eq_refl}
use replenishment_system.Domain.Types.{
  Schedule, ScheduleItem, ScheduleEvent, invalid, Result, ok, err,
}
use replenishment_system.Store.Rows.{select, exists_row}
use replenishment_system.Store.Rows.Laws.{All-map}
use replenishment_system.Store.Rows.Sorted.{order_by-Perm, select-append_new}
use replenishment_system.Store.Db.{Db, >>=-runs}
use replenishment_system.Store.Scope.{system_scope, filter_via}
use replenishment_system.Store.Schedules.{
  with_id, insert_schedule, insert_item, insert_items, item_refused, ItemReads, items_of,
}
use replenishment_system.Store.Events.{append_event}
use replenishment_system.Store.Integrity.{WellFormed}
use replenishment_system.Http.{item_response}

-- The items as the table holds them.
abbrev pub filed : Text → List ScheduleItem → List ScheduleItem
filed id items = map (λ (it : ScheduleItem). record it { schedule_id = id }) items

filed-own :
    (id : Text) (items : List ScheduleItem)
    → All (λ (it : ScheduleItem). text_eq it.schedule_id id ≡ true) (filed id items)
filed-own id [] = tt
filed-own id (it ∷ its) = (text_eq_refl id, filed-own id its)

shown_filed :
    (id : Text) (items : List ScheduleItem)
    → map item_response (filed id items) ≡ map item_response items
shown_filed id [] = refl
shown_filed id (it ∷ its) = ap (λ rest. item_response it ∷ rest) (shown_filed id its)

pub insert_schedule-items : (s : Schedule) (db : Db) → (insert_schedule s db).1.items ≡ db.items
unfolding insert_schedule
insert_schedule-items s db = ground arith

pub append_event-items : (e : ScheduleEvent) (db : Db) → (append_event e db).1.items ≡ db.items
unfolding append_event
append_event-items e db = ground arith

insert_item-items :
    (id : Text) (it : ScheduleItem) (db : Db)
    → (insert_item id it db).0 ≡ ok tt
    → (insert_item id it db).1.items ≡ db.items ++ filed id (it ∷ [])
unfolding insert_item
insert_item-items id it db e = elim (Bool-cases (item_refused id it db)) [
  | inl refused ↦
      absurd (let bad : err (invalid "insert schedule item") ≡ ok tt = rw refused at e in cc)
  | inr taken ↦ rw taken refl
]

pub insert_items-items :
    (id : Text) (items : List ScheduleItem) (db : Db)
    → (insert_items id items db).0 ≡ ok tt
    → (insert_items id items db).1.items ≡ db.items ++ filed id items
unfolding insert_items
insert_items-items id [] db e = sym (append-nil db.items)
insert_items-items id (it ∷ its) db e =
    let (u, first, run) = >>=-runs (insert_item id it) (λ u. insert_items id its) db tt e in
    let d = (insert_item id it db).1 in
    let after : (insert_items id its d).0 ≡ ok tt =
      ap (λ (r : Result (Unit {0}) × Db). r.0) (sym run) ∙ e in
    ap (λ (r : Result (Unit {0}) × Db). r.1.items) run
    ∙ insert_items-items id its d after
    ∙ ap (λ (xs : List ScheduleItem). xs ++ filed id its) (insert_item-items id it db first)
    ∙ append_assoc db.items (filed id (it ∷ [])) (filed id its)

-- Before its schedule is there, no item of the table carries an identifier.
none_before :
    (id : Text) (db : Db)
    → WellFormed db
    → exists_row (with_id id) db.schedules ≡ false
    → All (λ (it : ScheduleItem). text_eq it.schedule_id id ≡ false) db.items
none_before id db w new =
    All-map _ _ db.items
      (λ it there. elim (Bool-cases (text_eq it.schedule_id id)) [
        | inl own ↦
            let same = text_eq_sound it.schedule_id id own in
            absurd (let bad : exists_row (with_id id) db.schedules ≡ true = rw same at there in cc)
        | inr apart ↦ apart
      ])
      w.items_ok.owned

-- The items of a schedule that has just come are those that were filed with it, in some order.
pub listed-Perm :
    (reads : ItemReads) (id : Text) (items : List ScheduleItem) (db db' : Db)
    → WellFormed db
    → exists_row (with_id id) db.schedules ≡ false
    → db'.items ≡ db.items ++ filed id items
    → Perm (map item_response (items_of reads id system_scope db')) (map item_response items)
unfolding filter_via
listed-Perm reads id items db db' w new e =
    let q : ScheduleItem → Bool = λ it. text_eq it.schedule_id id && true in
    let seen : select q db'.items ≡ filed id items = rw e (
      select-append_new q db.items (filed id items)
        (All-map _ _ db.items (λ it h. rw h refl) (none_before id db w new))
        (All-map _ _ (filed id items) (λ it h. rw h refl) (filed-own id items))) in
    subst (Perm (map item_response (items_of reads id system_scope db')))
      (ap (map item_response) seen ∙ shown_filed id items)
      (Perm.map item_response
        (order_by-Perm (λ (a b : ScheduleItem). reads.text_less a.sku b.sku) (select q db'.items)))
