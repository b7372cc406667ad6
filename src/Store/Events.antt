-- ===== src/Store/Events.antt =====
-- The statements on the append-only table `schedule_events` (internal/store/store.go).
use replenishment_system.Common.{
  suc, Bool, false, ◌&&◌, Option, none, some, List, [], ◌∷◌, ◌++◌, if◌then◌else◌,
}
use replenishment_system.Common.Text.{Text, text_eq}
use replenishment_system.Domain.Types.{EventType, ScheduleEvent, same_event, invalid, ok, err}
use replenishment_system.Store.Rows.{select, exists_row}
use replenishment_system.Store.Db.{Store, gets}

abbrev pub same_key : Text → Option Text → Bool
same_key key none = false
same_key key (some k) = text_eq k key

abbrev pub carries_key : Text → EventType → Text → ScheduleEvent → Bool
carries_key schedule_id event_type key e =
    text_eq e.schedule_id schedule_id
    && (same_event e.event_type event_type && same_key key e.idempotency_key)

unfoldable pub event_exists_with_key : Text → EventType → Text → Store Bool
event_exists_with_key schedule_id event_type key =
    gets λ db. exists_row (carries_key schedule_id event_type key) db.events

abbrev pub key_taken : ScheduleEvent → Option Text → List ScheduleEvent → Bool
key_taken e none events = false
key_taken e (some key) events = exists_row (carries_key e.schedule_id e.event_type key) events

-- The database gives the id. The index schedule_events_idempotency_key_unique refuses a second
-- event with the key of another one.
unfoldable pub append_event : ScheduleEvent → Store (Unit {0})
append_event e db =
    if key_taken e e.idempotency_key db.events then (err (invalid "append event"), db) else (
      ok tt,
      record db {
        events = db.events ++ record e { id = db.next_event_id } ∷ [];
        next_event_id = suc db.next_event_id;
      },
    )

unfoldable pub list_events : Text → Store (List ScheduleEvent)
list_events schedule_id =
    gets λ db. select (λ (e : ScheduleEvent). text_eq e.schedule_id schedule_id) db.events
