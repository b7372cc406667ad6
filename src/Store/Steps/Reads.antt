-- ===== src/Store/Steps/Reads.antt =====
-- The queries of internal/store/store.go that a transition runs leave the database as it is.
use replenishment_system.Common.{◌≡◌, refl, arith}
use replenishment_system.Common.Text.{Text}
use replenishment_system.Calendar.{Date}
use replenishment_system.Domain.Types.{EventType}
use replenishment_system.Store.Db.{Db, Conn, pool, in_transaction}
use replenishment_system.Store.Scope.{Scope}
use replenishment_system.Store.Schedules.{
  ItemReads, get_schedule, get_schedule_for_update, list_schedule_items,
}
use replenishment_system.Store.Occurrences.{
  list_planned_occurrences, count_future_planned_occurrences, max_sequence_no,
  latest_scheduled_date, query_one_occurrence, next_actionable_occurrence, next_planned_occurrence,
  last_placed_occurrence,
}
use replenishment_system.Store.Events.{event_exists_with_key}
use replenishment_system.Store.Steps.{Does, Does-same}

pub get_schedule_same : (key : Text) (scope : Scope) (db : Db) → (get_schedule key scope db).1 ≡ db
unfolding get_schedule
get_schedule_same key scope db = refl

pub get_schedule_for_update_same :
    (conn : Conn) (key : Text) (scope : Scope) (db : Db)
    → (get_schedule_for_update conn key scope db).1 ≡ db
unfolding get_schedule_for_update
get_schedule_for_update_same pool key scope db = refl
get_schedule_for_update_same in_transaction key scope db = get_schedule_same key scope db

pub next_actionable_occurrence_same :
    (key : Text) (db : Db) → (next_actionable_occurrence key db).1 ≡ db
unfolding next_actionable_occurrence query_one_occurrence
next_actionable_occurrence_same key db = refl

pub next_planned_occurrence_same : (key : Text) (db : Db) → (next_planned_occurrence key db).1 ≡ db
unfolding next_planned_occurrence query_one_occurrence
next_planned_occurrence_same key db = refl

pub last_placed_occurrence_same : (key : Text) (db : Db) → (last_placed_occurrence key db).1 ≡ db
unfolding last_placed_occurrence query_one_occurrence
last_placed_occurrence_same key db = refl

module _ (id : Text) where
  pub list_planned_occurrences-Does : (key : Text) → Does id (list_planned_occurrences key)
  unfolding list_planned_occurrences
  list_planned_occurrences-Does key = Does-same id _ (λ db. refl)

  pub count_future_planned_occurrences-Does :
      (key : Text) (limit : Date) → Does id (count_future_planned_occurrences key limit)
  unfolding count_future_planned_occurrences
  count_future_planned_occurrences-Does key limit = Does-same id _ (λ db. refl)

  pub max_sequence_no-Does : (key : Text) → Does id (max_sequence_no key)
  unfolding max_sequence_no
  max_sequence_no-Does key = Does-same id _ (λ db. refl)

  pub latest_scheduled_date-Does : (key : Text) → Does id (latest_scheduled_date key)
  unfolding latest_scheduled_date
  latest_scheduled_date-Does key = Does-same id _ (λ db. refl)

  pub event_exists_with_key-Does :
      (schedule_id : Text) (event_type : EventType) (key : Text)
      → Does id (event_exists_with_key schedule_id event_type key)
  unfolding event_exists_with_key
  event_exists_with_key-Does schedule_id event_type key = Does-same id _ (λ db. refl)

  pub get_schedule-Does : (key : Text) (scope : Scope) → Does id (get_schedule key scope)
  get_schedule-Does key scope = Does-same id _ (get_schedule_same key scope)

pub list_schedule_items_same :
    (reads : ItemReads) (id : Text) (scope : Scope) (db : Db)
    → (list_schedule_items reads id scope db).1 ≡ db
unfolding list_schedule_items
list_schedule_items_same reads id scope db = ground arith
